-- ===== src/Entry/Trampolines.antt =====
-- kernel/src/thread/uprocess/uthread.rs: how a thread enters user mode for the first time.
use ferri_os.Base.{
  ℕ, ◌≡◌, Bool, true, false, Option, none, List, [], ◌∷◌, ◌++◌, map, ok, err, panic, Act, ◌>>=◌,
  pure, get, expect,
}
use ferri_os.Base.Panic.{expect_failed}
use ferri_os.Thread.{Context}
use ferri_os.Kernel.{Kernel, thread_at}
use ferri_os.Entry.RegisterFile.{Reg, Registers, read}
use ferri_os.Entry.RegisterFile.Reg.{
  rax, rbx, rcx, rdx, rsi, rdi, rbp, rsp, r8, r9, r10, r11, r12, r13, r14, r15,
}
use ferri_os.Entry.Machine.{Instruction, Core, Processor, run}
use ferri_os.Entry.Machine.Instruction.{
  push, push_qword, mov, mov_from, mov_ax, mov_ds, mov_es, xor_self, iretq,
}

-- The registers that the compiler has chosen for the operands `in(reg)` of
-- `init_process_ring3_entry_trampoline`.
pub record Operands : Type 0 where
  pub cs : Reg
  pub rsp3 : Reg
  pub rflags : Reg
  pub rip : Reg
  pub user_rdi : Reg
  pub user_rsi : Reg

-- The class `reg` of the compiler, without the register that is bound to another operand.
abbrev pub is_operand : Reg → Bool
is_operand rax = false
is_operand rbp = false
is_operand rsp = false
is_operand r = true

abbrev pub cleared : List Reg
cleared = rax ∷ rbx ∷ rcx ∷ rdx ∷ rdi ∷ rsi ∷ r8 ∷ r9 ∷ r10 ∷ r11 ∷ r12 ∷ r13 ∷ r14 ∷ r15 ∷ []

-- The assembler of `init_process_ring3_entry_trampoline`.
unfoldable pub init_process_ring3_entry : Operands → List Instruction
init_process_ring3_entry o =
    mov_ds
    ∷ mov_es
    ∷ push rax
    ∷ push o.rsp3
    ∷ push o.rflags
    ∷ push o.cs
    ∷ push o.rip
    ∷ (map xor_self cleared ++ (mov rdi o.user_rdi ∷ mov rsi o.user_rsi ∷ iretq ∷ []))

-- What both trampolines read under the lock of the table.
unfoldable pub running_context : Act Kernel Context
unfolding thread_at
running_context = do
  k ← get
  tid ← expect k.cpu.current_tid expect_failed
  t ← thread_at tid
  pure t.context

unfoldable pub running_frame : Act Kernel (ℕ × Context)
unfolding thread_at
running_frame = do
  k ← get
  tid ← expect k.cpu.current_tid expect_failed
  t ← thread_at tid
  tf ← expect t.tf expect_failed
  pure (tf, t.context)

-- The values of the operands, where the compiler has placed them.
pub record Loaded (o : Operands) (ctx : Context) (regs : Registers) : Type 0 where
  pub rax : regs.rax ≡ ctx.ss
  pub cs : read o.cs regs ≡ ctx.cs
  pub rsp3 : read o.rsp3 regs ≡ ctx.rsp3
  pub rflags : read o.rflags regs ≡ 0x202
  pub rip : read o.rip regs ≡ ctx.user_rip
  pub user_rdi : read o.user_rdi regs ≡ ctx.user_rdi
  pub user_rsi : read o.user_rsi regs ≡ ctx.user_rsi

-- The assembler of `fork_return_trampoline`, with the offsets of the fields of `TrapFrame`.
abbrev pub load_frame : List Instruction
load_frame =
    mov_from r15 r8 0
    ∷ mov_from r14 r8 8
    ∷ mov_from r13 r8 16
    ∷ mov_from r12 r8 24
    ∷ mov_from rbp r8 32
    ∷ mov_from rbx r8 40
    ∷ mov_from rdx r8 48
    ∷ mov_from rsi r8 56
    ∷ mov_from rdi r8 64
    ∷ mov_from rax r8 72
    ∷ iretq
    ∷ []

unfoldable pub fork_return : List Instruction
fork_return =
    mov_ax r10
    ∷ mov_ds
    ∷ mov_es
    ∷ push r10
    ∷ push r11
    ∷ push_qword r8 80
    ∷ push r9
    ∷ push_qword r8 88
    ∷ load_frame

-- The thread's way to user mode; `none` where it does not get there.
unfoldable pub fork_return_trampoline : Processor → Core → Option Core
unfolding running_frame fork_return
fork_return_trampoline p c = elim (running_frame c.kernel) [
  | ok (tf, ctx) k ↦ run p fork_return (record c {
    regs = record c.regs { r8 = tf; r9 = ctx.cs; r10 = ctx.ss; r11 = ctx.rsp3 };
    kernel = k;
  })
  | err e k ↦ none
  | panic x ↦ none
]

-- The same of the first process, where `place` is how the compiler loads the operands.
unfoldable pub init_process_ring3_entry_trampoline :
    Processor → Operands → (Context → Registers → Registers) → Core → Option Core
unfolding running_context init_process_ring3_entry
init_process_ring3_entry_trampoline p o place c = elim (running_context c.kernel) [
  | ok ctx k ↦ run p (init_process_ring3_entry o) (record c { regs = place ctx c.regs; kernel = k })
  | err e k ↦ none
  | panic x ↦ none
]
