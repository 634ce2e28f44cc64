-- ===== src/Userlib/Calls.antt =====
-- userlib/src/syscalls.rs: the calls of the user library, from the function that makes them to its result.
-- An `i64` or an address is the u64 word in its register.
use ferri_os.Base.{
  ℕ, ◌+◌, ◌^◌, ◌<◌, ◌≡◌, ap, ◌∙◌, true, false, Option, none, some, List, [], ◌∷◌, arith, ok,
  if◌then◌else◌,
}
use ferri_os.Heap.{ℤ, pos, negsuc}
use ferri_os.Kernel.{Kernel}
use ferri_os.Syscall.{as_i64}
use ferri_os.Syscall.Numbers
use ferri_os.Syscall.Dispatch.{Environment, returns, syscall_dispatch, as_usize}
use ferri_os.Entry.RegisterFile.{Registers}
use ferri_os.Entry.RegisterFile.Reg.{rax, rcx, rdx, rsi, rdi}
use ferri_os.Entry.Machine.{Instruction, Core, Processor, run, syscall}
use ferri_os.Entry.Machine.Instruction.{mov}
use ferri_os.Entry.{Left, back, elsewhere, faulted, syscall_entry}
use ferri_os.Entry.Call.{entered, resumed, resume, syscall_entry-resume}

-- The assembler of `syscall` before its instruction of that name.
abbrev pub shift_arguments : List Instruction
shift_arguments = mov rax rdi ∷ mov rdi rsi ∷ mov rsi rdx ∷ mov rdx rcx ∷ []

-- The registers as the caller of `syscall` leaves them.
abbrev pub with_arguments : ℕ → ℕ → ℕ → ℕ → Core → Core
with_arguments num arg1 arg2 arg3 c = record c {
  regs = record c.regs { rdi = num; rsi = arg1; rdx = arg2; rcx = arg3 };
}

-- The result of a call in the user program, where it comes back.
abbrev pub result : Left → Option ℤ
result (back c) = some (as_i64 c.regs.rax)
result (elsewhere r) = none
result faulted = none

module _ (p : Processor) (env : Environment) (scratch : Registers) where
  unfoldable pub user_syscall : ℕ → ℕ → ℕ → ℕ → Core → Left
  user_syscall num arg1 arg2 arg3 c =
      elim (run p shift_arguments (with_arguments num arg1 arg2 arg3 c)) [
        | none ↦ faulted
        | some c1 ↦ syscall_entry p env scratch (syscall p c1)
      ]

  abbrev pub print_num : ℤ → Core → Left
  print_num num = user_syscall Numbers.sys_print_num (as_usize num) 0 0

  -- A string is its address and its length.
  abbrev pub print_str : ℕ → ℕ → Core → Left
  print_str ptr len = user_syscall Numbers.sys_print_str ptr len 0

  abbrev pub fork : Core → Left
  fork = user_syscall Numbers.sys_fork 0 0 0

  abbrev pub getpid : Core → Left
  getpid = user_syscall Numbers.sys_getpid 0 0 0

  abbrev pub uptime : Core → Left
  uptime = user_syscall Numbers.sys_uptime 0 0 0

  abbrev pub wait : Option ℕ → Core → Left
  wait none = user_syscall Numbers.sys_wait 0 0 0
  wait (some status_ptr) = user_syscall Numbers.sys_wait status_ptr 0 0

  abbrev pub kill : ℕ → Core → Left
  kill pid = user_syscall Numbers.sys_kill pid 0 0

  abbrev pub sbrk : ℤ → Core → Left
  sbrk n = user_syscall Numbers.sys_sbrk (as_usize n) 0 0

-- The program at its `syscall` instruction.
abbrev pub at_syscall : ℕ → ℕ → ℕ → ℕ → Core → Core
at_syscall num arg1 arg2 arg3 c = record c {
  regs = record c.regs { rax = num; rdi = arg1; rsi = arg2; rdx = arg3; rcx = arg3 };
}

-- An `i64`.
abbrev pub IsI64 : ℤ → Type 0
IsI64 (pos n) = n < 2 ^ 63
IsI64 (negsuc n) = n < 2 ^ 63

as_i64-as_usize : (v : ℤ) → IsI64 v → as_i64 (as_usize v) ≡ v
as_i64-as_usize (pos n) h = ground arith
as_i64-as_usize (negsuc n) h = ground arith

result-resumed :
    (p : Processor) (scratch : Registers) (b : ℕ) (c : Core) (v : ℤ) (k : Kernel)
    → IsI64 v
    → result (back (resumed p scratch b c v k)) ≡ some v
unfolding resumed
result-resumed p scratch b c v k h = ap some (as_i64-as_usize v h)

-- A call of the user library reaches the dispatcher with the number and the two arguments that the
-- function has been given, and if the dispatcher returns an `i64`, that is the result of the function. The
-- user's GS base is active at the call and the kernel's when the dispatcher returns, and the top of the
-- kernel's stack is `b + 96`, below 2 ^ 64.
pub user_syscall-result :
    (p : Processor) (env : Environment) (scratch : Registers) (num arg1 arg2 arg3 b : ℕ) (c : Core)
    → (v : ℤ) (k : Kernel) → c.kernel.swapped_gs ≡ false
    → c.kernel.cpu.kernel_syscall_rsp ≡ b + 96
    → b + 96 < 2 ^ 64
    → syscall_dispatch env num arg1 arg2 b (entered b (at_syscall num arg1 arg2 arg3 c))
      ≡ ok (returns v) k
    → k.swapped_gs ≡ true
    → IsI64 v
    → result (user_syscall p env scratch num arg1 arg2 arg3 c) ≡ some v
unfolding user_syscall resume
user_syscall-result p env scratch num arg1 arg2 arg3 b c v k out top fits h gs word =
    let c1 = at_syscall num arg1 arg2 arg3 c in
    ap result (
      syscall_entry-resume p env scratch b c1 out top fits ∙ ap (resume p scratch b c1) h ∙ λ i.
      if gs i then back (resumed p scratch b c1 v k) else faulted)
    ∙ result-resumed p scratch b c1 v k word
