-- ===== src/Syscall.antt =====
-- kernel/src/syscall: arguments from user memory, and the ends of system calls in ksyscall.rs.
pub mod Arguments
pub mod Copies
pub mod Entries
pub mod Numbers
pub mod Dispatch
mod User
unfoldable pub use User.*
pub mod Killed
use ferri_os.Base.{
  ℕ, zero, suc, ◌+◌, ◌-◌, ◌*◌, ◌^◌, Bool, true, false, Option, none, some, List, [], ◌∷◌, ◌++◌,
  if◌then◌else◌, ltb, leb, ◌==◌, Ret, ok, err, panic, Act, ◌>>=◌, ◌>>◌, pure, throw, get, expect,
  when,
}
use ferri_os.Base.Error.{null_argument_pointer, argument_is_too_long, too_many_arguments}
use ferri_os.Base.Panic.{expect_failed, exit_returned}
use ferri_os.Memory.Paging.{Paging}
use ferri_os.Thread.{Thread}
use ferri_os.Process
use ferri_os.Heap.{ℤ, pos, negsuc, sbrk}
use ferri_os.Kernel.{Kernel, thread_at, set_thread, current_process}
use ferri_os.Processes.Syscalls.{fork, getpid, kill, exit}

-- `MAX_ARGC` and `MAX_ARG_LEN`
abbrev pub max_argc : ℕ
max_argc = 16

abbrev pub max_arg_len : ℕ
max_arg_len = 256

-- The rounds of the loop of `copy_cstr_from_user` from byte `i` on. `user` reads a byte of user memory.
unfoldable pub copy_cstr : {S : Type 0} → (ℕ → ℕ) → ℕ → ℕ → ℕ → List ℕ → Act S (List ℕ)
copy_cstr user zero i ptr bytes = throw argument_is_too_long
copy_cstr user (suc n) i ptr bytes =
    let rest = copy_cstr user n (suc i) ptr (bytes ++ (user (ptr + i) ∷ [])) in
    if user (ptr + i) == 0 then pure bytes else rest

unfoldable pub copy_cstr_from_user : {S : Type 0} → (ℕ → ℕ) → ℕ → ℕ → Act S (List ℕ)
unfolding copy_cstr
copy_cstr_from_user user ptr max_len =
    if ptr == 0 then throw null_argument_pointer else copy_cstr user max_len 0 ptr []

-- The rounds of the loop of `copy_argv`. `pointer` reads a word of user memory.
unfoldable pub copy_args :
    {S : Type 0} → (ℕ → ℕ) → (ℕ → ℕ) → ℕ → ℕ → ℕ → List (List ℕ) → Act S (List (List ℕ))
copy_args user pointer zero i argv_ptr argv s = err too_many_arguments s
copy_args user pointer (suc n) i argv_ptr argv s =
    let user_arg_ptr = pointer (argv_ptr + 8 * i) in
    elim (user_arg_ptr == 0) [
      | true ↦ ok argv s
      | false ↦ elim (copy_cstr_from_user user user_arg_ptr max_arg_len s) [
        | ok arg t ↦ copy_args user pointer n (i + 1) argv_ptr (argv ++ (arg ∷ [])) t
        | err e t ↦ err e t
        | panic p ↦ panic p
      ]
    ]

unfoldable pub copy_argv : {S : Type 0} → (ℕ → ℕ) → (ℕ → ℕ) → ℕ → Act S (List (List ℕ))
unfolding copy_args
copy_argv user pointer argv_ptr =
    if argv_ptr == 0 then pure [] else copy_args user pointer max_argc 0 argv_ptr []

-- `as SysRet` of a u64.
abbrev pub as_i64 : ℕ → ℤ
as_i64 n = if ltb n (2 ^ 63) then pos n else negsuc (2 ^ 64 - 1 - n)

-- `RET_SUCCESS` and `RET_ERROR`
abbrev pub ret_success : ℤ
ret_success = pos 0

abbrev pub ret_error : ℤ
ret_error = negsuc 0

-- `match m() { Ok(a) => f(a), Err(_) => RET_ERROR }`
abbrev pub or_error : {A : Type 0} → Act Kernel A → (A → ℤ) → Act Kernel ℤ
or_error m f k = elim (m k) [ ok a t ↦ ok (f a) t | err e t ↦ ok ret_error t | panic p ↦ panic p ]

unfoldable pub set_trapframe : ℕ → Act Kernel (Unit {0})
unfolding thread_at set_thread
set_trapframe tf_ptr = do
  k ← get
  tid ← expect k.cpu.current_tid expect_failed
  t ← thread_at tid
  set_thread tid (record t { tf = some tf_ptr })

unfoldable pub sys_fork : Paging → ℕ → Act Kernel ℤ
sys_fork x86 kstack = or_error (fork x86 kstack) as_i64

unfoldable pub sys_getpid : Act Kernel ℤ
sys_getpid = or_error getpid as_i64

unfoldable pub sys_kill : ℕ → Act Kernel ℤ
sys_kill pid = or_error (kill pid) λ _. ret_success

unfoldable pub sys_sbrk : Paging → ℤ → Act Kernel ℤ
sys_sbrk x86 n = or_error (sbrk x86 n) as_i64

-- `ticks` is the counter of the timer.
unfoldable pub sys_uptime : ℕ → Act Kernel ℤ
sys_uptime ticks = pure (if ltb (2 ^ 63 - 1) ticks then ret_error else as_i64 ticks)

-- `sys_exit`, up to the switch to the scheduler in `exit`; it panics if that fails.
unfoldable pub sys_exit : ℕ → Act Kernel (Unit {0})
sys_exit ret_value k = elim (exit ret_value k) [
  | ok _ k1 ↦ ok tt k1
  | err _ _ ↦ panic exit_returned
  | panic p ↦ panic p
]

unfoldable pub exit_if_current_process_killed : Act Kernel (Unit {0})
exit_if_current_process_killed = do
  entry ← current_process
  process ← expect entry expect_failed
  when process.killed (sys_exit Process.ret_error)
