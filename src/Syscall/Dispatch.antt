-- ===== src/Syscall/Dispatch.antt =====
-- kernel/src/syscall/ksyscall.rs: the dispatcher and the calls that it makes itself. An argument is a
-- u64 word; `as_i64` reads it as the i64 that it is.
pub mod Alive
pub mod Getpid
use ferri_os.Base.{
  ℕ, zero, suc, ◌+◌, ◌-◌, ◌^◌, Bool, true, false, not, Option, none, some, List, [], ◌∷◌, ltb, ◌==◌,
  if◌then◌else◌, Ret, ok, err, panic, Act, ◌>>=◌, ◌>>◌, pure, fault, get, expect, when,
}
use ferri_os.Base.Panic.{expect_failed}
use ferri_os.Memory.{Mapper}
use ferri_os.Memory.Paging.{Paging}
use ferri_os.Process.{Process}
use ferri_os.Heap.{ℤ, pos, negsuc}
use ferri_os.Kernel.{Kernel, current_process}
use ferri_os.Processes.Syscalls.{wait_round, wait_process}
use ferri_os.Exec.{UserProgram, exec, to_le_bytes}
use ferri_os.Syscall.Numbers
use ferri_os.Syscall.{
  max_arg_len, copy_cstr_from_user, copy_argv, copy_bytes_from_user, copy_to_user, as_i64,
  ret_success, ret_error, or_error, set_trapframe, sys_fork, sys_getpid, sys_kill, sys_sbrk,
  sys_uptime, sys_exit, exit_if_current_process_killed,
}

-- What the calls use of the machine, the build and the standard library.
pub record Environment : Type 0 where
  pub x86 : Paging
  pub mapper : Mapper
  pub programs : List UserProgram
  -- loads from user addresses through the active page table
  pub user_byte : Kernel → ℕ → ℕ
  pub user_word : Kernel → ℕ → ℕ
  -- `core::str::from_utf8` succeeds
  pub is_utf8 : List ℕ → Bool
  -- the counter of the timer, and the next stack of `alloc`
  pub ticks : Kernel → ℕ
  pub kstack : Kernel → ℕ

-- How a call leaves the dispatcher: with a value for the user program, for good, or in the loop of
-- `wait` with the process that it has read.
pub data Outcome : Type 0 where
  returns : ℤ → Outcome
  gone : Outcome
  waits : Process → Outcome

-- `SysRet::MAX`
abbrev pub sysret_max : ℤ
sysret_max = pos (2 ^ 63 - 1)

-- `as usize` of an i64.
abbrev pub as_usize : ℤ → ℕ
as_usize (pos n) = n
as_usize (negsuc n) = 2 ^ 64 - 1 - n

-- `.expect(..)` of a result.
abbrev pub expect_ok : {A : Type 0} → Act Kernel A → Act Kernel A
expect_ok m k = elim (m k) [ ok a t ↦ ok a t | err e t ↦ panic expect_failed | panic p ↦ panic p ]

module _ (env : Environment) where
  open env use {x86, mapper, programs, user_byte, user_word, is_utf8, ticks, kstack}

  -- Output goes to devices and is no part of the state.
  unfoldable pub sys_print_num : ℕ → Act Kernel ℤ
  sys_print_num n = pure ret_success

  unfoldable pub print_bytes : ℕ → ℤ → Act Kernel ℤ
  unfolding copy_bytes_from_user
  print_bytes ptr len =
      or_error_max (copy_bytes_from_user x86 ptr (as_usize len))
        λ bytes. if is_utf8 bytes then ret_success else sysret_max
    where
      or_error_max : {A : Type 0} → Act Kernel A → (A → ℤ) → Act Kernel ℤ
      or_error_max m f k = elim (m k) [
        | ok a t ↦ ok (f a) t
        | err e t ↦ ok sysret_max t
        | panic p ↦ panic p
      ]

  unfoldable pub sys_print_str : ℕ → ℤ → Act Kernel ℤ
  unfolding print_bytes
  sys_print_str ptr (pos len) = if ltb 256 len then pure sysret_max else print_bytes ptr (pos len)
  sys_print_str ptr (negsuc len) = print_bytes ptr (negsuc len)

  unfoldable pub sys_exec : ℕ → ℕ → Act Kernel ℤ
  sys_exec path_ptr argv_ptr = do
    k ← get
    path ← expect_ok (copy_cstr_from_user (user_byte k) path_ptr max_arg_len)
    when (not (is_utf8 path)) (fault expect_failed)
    argv ← expect_ok (copy_argv (user_byte k) (user_word k) argv_ptr)
    or_error (exec x86 mapper programs path argv) λ _. ret_success

  -- What `sys_wait` does with the child that `wait` returns.
  unfoldable pub store_status : ℕ → ℕ × ℕ → Act Kernel ℤ
  store_status status_ptr (pid, exit_status) k = elim (ltb (2 ^ 63 - 1) pid) [
    | true ↦ ok ret_error k
    | false ↦ elim (status_ptr == 0) [
      | true ↦ ok (as_i64 pid) k
      | false ↦
          or_error (copy_to_user x86 status_ptr (to_le_bytes 8 exit_status)) (λ _. as_i64 pid) k
    ]
  ]

  -- `sys_wait` from a round of the loop of `wait` on.
  unfoldable pub sys_wait_round : ℕ → Process → Act Kernel Outcome
  unfolding store_status
  sys_wait_round status_ptr process k = elim (wait_round x86 process k) [
    | ok done t ↦ elim done [
      | none ↦ ok (waits process) t
      | some child ↦ (do v ← store_status status_ptr child; pure (returns v)) t
    ]
    | err e t ↦ ok (returns ret_error) t
    | panic p ↦ panic p
  ]

  unfoldable pub sys_wait : ℕ → Act Kernel Outcome
  unfolding sys_wait_round
  sys_wait status_ptr = do process ← wait_process; sys_wait_round status_ptr process

  abbrev pub returning : Act Kernel ℤ → Act Kernel Outcome
  returning m = do v ← m; pure (returns v)

  -- The `match` on the number of the call.
  unfoldable pub call : ℕ → ℕ → ℕ → Act Kernel Outcome
  unfolding sys_wait
  call number arg1 arg2 =
      if number == Numbers.sys_print_num
      then returning (sys_print_num arg1)
      else if number == Numbers.sys_print_str
      then returning (sys_print_str arg1 (as_i64 arg2))
      else if number == Numbers.sys_fork
      then (do k ← get; returning (sys_fork x86 (kstack k)))
      else if number == Numbers.sys_exec
      then returning (sys_exec arg1 arg2)
      else if number == Numbers.sys_getpid
      then returning sys_getpid
      else if number == Numbers.sys_uptime
      then (do k ← get; returning (sys_uptime (ticks k)))
      else if number == Numbers.sys_exit
      then (do sys_exit arg1; pure gone)
      else if number == Numbers.sys_wait
      then sys_wait arg1
      else if number == Numbers.sys_kill
      then returning (sys_kill arg1)
      else if number == Numbers.sys_sbrk
      then returning (sys_sbrk x86 (as_i64 arg1))
      else pure (returns sysret_max)

  -- `exit_if_current_process_killed`, and what follows it if it comes back.
  unfoldable pub unless_killed : Act Kernel Outcome → Act Kernel Outcome
  unless_killed rest = do
    entry ← current_process
    exit_if_current_process_killed
    process ← expect entry expect_failed
    if process.killed then pure gone else rest

  -- The end of the dispatcher, where the call has come back.
  unfoldable pub leave : Outcome → Act Kernel Outcome
  leave (returns v) = unless_killed (pure (returns v))
  leave gone = pure gone
  leave (waits process) = pure (waits process)

  unfoldable pub syscall_dispatch : ℕ → ℕ → ℕ → ℕ → Act Kernel Outcome
  unfolding call
  syscall_dispatch number arg1 arg2 tf =
      unless_killed do set_trapframe tf; outcome ← call number arg1 arg2; leave outcome

  -- A call of `wait` when its thread runs again.
  unfoldable pub wait_again : ℕ → Process → Act Kernel Outcome
  unfolding sys_wait_round
  wait_again status_ptr process = do outcome ← sys_wait_round status_ptr process; leave outcome
