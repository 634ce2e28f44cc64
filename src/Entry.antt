-- ===== src/Entry.antt =====
-- kernel/src/syscall/mod.rs and kernel/src/thread/uprocess/uthread.rs: the ways between user mode and
-- the kernel, which are written in assembler.
pub mod RegisterFile
pub mod Machine
pub mod Stack
pub mod Trampolines
pub mod Returning
pub mod Child
pub mod First
pub mod Call
pub mod Answered
use ferri_os.Base.{
  ℕ, ◌+◌, Option, none, some, List, [], ◌∷◌, ◌++◌, map, Ret, ok, err, panic, Act, ◌>>=◌, pure,
  expect,
}
use ferri_os.Base.Panic.{expect_failed}
use ferri_os.Heap.{ℤ}
use ferri_os.Kernel.{Kernel, thread_at}
use ferri_os.Thread.{Context}
use ferri_os.Entry.RegisterFile.{Reg, Registers}
use ferri_os.Entry.RegisterFile.Reg.{
  rax, rbx, rcx, rdx, rsi, rdi, rbp, rsp, r8, r9, r10, r11, r12, r13, r14, r15,
}
use ferri_os.Entry.Machine.{Instruction, Core, Processor, CpuField, run, syscall}
use ferri_os.Entry.Machine.Instruction.{
  push, push_qword, pop, mov, mov_from, mov_to, mov_from_gs, mov_to_gs, mov_ax, mov_ds, mov_es,
  xor_self, swapgs, sysretq, iretq,
}
use ferri_os.Syscall.Dispatch.{Environment, Outcome, returns, syscall_dispatch, as_usize}

-- The pushes and the pops of `syscall_entry`, as they are listed.
abbrev pub pushes : List Reg → List Instruction
pushes rs = map push rs

abbrev pub pops : List Reg → List Instruction
pops rs = map pop rs

abbrev pub saved_rax_offset : ℕ
saved_rax_offset = 72

-- The registers of the frame, from its top to its end.
abbrev pub saved_registers : List Reg
saved_registers = rcx ∷ r11 ∷ rax ∷ rdi ∷ rsi ∷ rdx ∷ rbx ∷ rbp ∷ r12 ∷ r13 ∷ r14 ∷ r15 ∷ []

abbrev pub restored_registers : List Reg
restored_registers = r15 ∷ r14 ∷ r13 ∷ r12 ∷ rbp ∷ rbx ∷ rdx ∷ rsi ∷ rdi ∷ rax ∷ r11 ∷ rcx ∷ []

abbrev pub switch_to_kernel : List Instruction
switch_to_kernel =
    swapgs
    ∷ mov_to_gs CpuField.saved_user_rsp rsp
    ∷ mov_from_gs rsp CpuField.kernel_syscall_rsp
    ∷ []

abbrev pub pass_arguments : List Instruction
pass_arguments =
    mov r10 rax ∷ mov r8 rsp ∷ mov rcx rdx ∷ mov rdx rsi ∷ mov rsi rdi ∷ mov rdi r10 ∷ []

abbrev pub switch_to_user : List Instruction
switch_to_user = mov_from_gs rsp CpuField.saved_user_rsp ∷ swapgs ∷ sysretq ∷ []

-- `syscall_entry` up to its call, and after it.
abbrev pub before_call : List Instruction
before_call = switch_to_kernel ++ (pushes saved_registers ++ pass_arguments)

abbrev pub after_call : List Instruction
after_call = mov_to rsp saved_rax_offset rax ∷ (pops restored_registers ++ switch_to_user)

-- What the C calling convention leaves of the registers, where the compiled dispatcher leaves
-- `scratch` in those that it need not keep.
abbrev pub called : Registers → ℤ → Kernel → Core → Core
called scratch v k c = record c {
  regs = record c.regs {
    rax = as_usize v;
    rcx = scratch.rcx;
    rdx = scratch.rdx;
    rsi = scratch.rsi;
    rdi = scratch.rdi;
    r8 = scratch.r8;
    r9 = scratch.r9;
    r10 = scratch.r10;
    r11 = scratch.r11;
  };
  kernel = k;
}

-- How a system call leaves the user program: back in it, or as the dispatcher has ended where it has not
-- come back.
pub data Left : Type 0 where
  back : Core → Left
  elsewhere : Ret Kernel Outcome → Left
  faulted : Left

abbrev pub back_if : Option Core → Left
back_if none = faulted
back_if (some c) = back c

unfoldable pub syscall_entry : Processor → Environment → Registers → Core → Left
syscall_entry p env scratch c = elim (run p before_call c) [
  | none ↦ faulted
  | some c1 ↦ elim (syscall_dispatch env c1.regs.rdi c1.regs.rsi c1.regs.rdx c1.regs.r8 c1.kernel) [
    | ok outcome k ↦ elim outcome [
      | returns v ↦ back_if (run p after_call (called scratch v k c1))
      | Outcome.gone ↦ elsewhere (ok Outcome.gone k)
      | Outcome.waits process ↦ elsewhere (ok (Outcome.waits process) k)
    ]
    | err e k ↦ elsewhere (err e k)
    | panic x ↦ elsewhere (panic x)
  ]
]
