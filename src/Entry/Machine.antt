-- ===== src/Entry/Machine.antt =====
-- The instructions that the assembler of kernel/src/syscall/mod.rs and
-- kernel/src/thread/uprocess/uthread.rs consists of. Registers hold u64 words.
use ferri_os.Base.{
  ℕ, ◌+◌, ◌-◌, ◌*◌, ◌/◌, ◌%◌, ◌^◌, Bool, false, not, Option, none, some, List, [], ◌∷◌, ltb,
  if◌then◌else◌,
}
use ferri_os.Kernel.{Kernel, Cpu}
use ferri_os.Thread.TrapFrame.{store}
use ferri_os.Entry.RegisterFile.{Reg, Registers, read, write}

-- The fields of `Cpu` that are reached through the GS base.
pub data CpuField : Type 0 where
  saved_user_rsp kernel_syscall_rsp : CpuField

pub data Instruction : Type 0 where
  push : Reg → Instruction
  push_qword : Reg → ℕ → Instruction
  pop : Reg → Instruction
  mov : Reg → Reg → Instruction
  mov_from : Reg → Reg → ℕ → Instruction
  mov_to : Reg → ℕ → Reg → Instruction
  mov_from_gs : Reg → CpuField → Instruction
  mov_to_gs : CpuField → Reg → Instruction
  mov_ax : Reg → Instruction
  mov_ds : Instruction
  mov_es : Instruction
  xor_self : Reg → Instruction
  swapgs : Instruction
  sysretq : Instruction
  iretq : Instruction

pub record Core : Type 0 where
  pub regs : Registers
  pub rip : ℕ
  pub rflags : ℕ
  pub cs : ℕ
  pub ss : ℕ
  pub ds : ℕ
  pub es : ℕ
  pub kernel : Kernel

-- What the processor does with RFLAGS, as its manual says: the flags that `syscall` leaves, those
-- that `sysretq` makes of R11, the interrupt flag in them, and the entry and the selectors that
-- `init` has registered.
pub record Processor : Type 0 where
  pub flags_of_syscall : ℕ → ℕ
  pub flags_of_sysret : ℕ → ℕ
  pub interrupt_flag : ℕ → Bool
  pub lstar : ℕ
  pub user_cs : ℕ
  pub user_ss : ℕ
  pub kernel_cs : ℕ
  pub kernel_ss : ℕ

-- Addresses wrap around at 2 ^ 64.
abbrev pub add_word : ℕ → ℕ → ℕ
add_word a b = if ltb (a + b) (2 ^ 64) then a + b else a + b - 2 ^ 64

abbrev pub sub_word : ℕ → ℕ → ℕ
sub_word a b = if ltb a b then a + 2 ^ 64 - b else a - b

abbrev pub load : Core → ℕ → ℕ
load c a = c.kernel.words a

abbrev pub set_reg : Reg → ℕ → Core → Core
set_reg r v c = record c { regs = write r v c.regs }

abbrev pub get_field : CpuField → Cpu → ℕ
get_field saved_user_rsp cpu = cpu.saved_user_rsp
get_field kernel_syscall_rsp cpu = cpu.kernel_syscall_rsp

abbrev pub set_field : CpuField → ℕ → Cpu → Cpu
set_field saved_user_rsp v cpu = record cpu { saved_user_rsp = v }
set_field kernel_syscall_rsp v cpu = record cpu { kernel_syscall_rsp = v }

abbrev pub set_cpu : CpuField → ℕ → Core → Core
set_cpu f v c = record c { kernel = record c.kernel { cpu = set_field f v c.kernel.cpu } }

abbrev pub push_word : ℕ → Core → Core
push_word v c =
    let sp = sub_word c.regs.rsp 8 in
    record c {
      regs = record c.regs { rsp = sp };
      kernel = record c.kernel { words = store c.kernel.words sp v };
    }

-- The five words that `iretq` takes off the stack, from the top: rip, cs, rflags, rsp and ss.
abbrev pub interrupt_return : Processor → Core → Core
interrupt_return p c =
    let sp = c.regs.rsp in
    let flags = load c (add_word sp 16) in
    record c {
      rip = load c sp;
      cs = load c (add_word sp 8);
      rflags = flags;
      ss = load c (add_word sp 32);
      regs = record c.regs { rsp = load c (add_word sp 24) };
      kernel = record c.kernel { interrupts = p.interrupt_flag flags };
    }

abbrev pub system_return : Processor → Core → Core
system_return p c =
    let flags = p.flags_of_sysret c.regs.r11 in
    record c {
      rip = c.regs.rcx;
      rflags = flags;
      cs = p.user_cs;
      ss = p.user_ss;
      kernel = record c.kernel { interrupts = p.interrupt_flag flags };
    }

-- An instruction, where `none` is an access through the GS base of the user.
abbrev pub step : Processor → Instruction → Core → Option Core
step p (push r) c = some (push_word (read r c.regs) c)
step p (push_qword base offset) c = some (push_word (load c (add_word (read base c.regs) offset)) c)
step p (pop r) c =
    let sp = c.regs.rsp in
    some (set_reg r (load c sp) (record c { regs = record c.regs { rsp = add_word sp 8 } }))
step p (mov to from) c = some (set_reg to (read from c.regs) c)
step p (mov_from to base offset) c =
    some (set_reg to (load c (add_word (read base c.regs) offset)) c)
step p (mov_to base offset from) c =
    let a = add_word (read base c.regs) offset in
    some
      (record c { kernel = record c.kernel { words = store c.kernel.words a (read from c.regs) } })
step p (mov_from_gs to field) c =
    if c.kernel.swapped_gs then some (set_reg to (get_field field c.kernel.cpu) c) else none
step p (mov_to_gs field from) c =
    if c.kernel.swapped_gs then some (set_cpu field (read from c.regs) c) else none
step p (mov_ax from) c =
    let high = c.regs.rax / 2 ^ 16 * 2 ^ 16 in
    some (set_reg Reg.rax (high + read from c.regs % 2 ^ 16) c)
step p mov_ds c = some (record c { ds = c.regs.rax % 2 ^ 16 })
step p mov_es c = some (record c { es = c.regs.rax % 2 ^ 16 })
step p (xor_self r) c = some (set_reg r 0 c)
step p swapgs c =
    some (record c { kernel = record c.kernel { swapped_gs = not c.kernel.swapped_gs } })
step p sysretq c = some (system_return p c)
step p iretq c = some (interrupt_return p c)

abbrev pub run : Processor → List Instruction → Core → Option Core
run p [] c = some c
run p (i ∷ is) c = elim (step p i c) [ none ↦ none | some c1 ↦ run p is c1 ]

-- `syscall`, which the user program executes; its next instruction is at `rip`.
abbrev pub syscall : Processor → Core → Core
syscall p c = record c {
  regs = record c.regs { rcx = c.rip; r11 = c.rflags };
  rip = p.lstar;
  rflags = p.flags_of_syscall c.rflags;
  cs = p.kernel_cs;
  ss = p.kernel_ss;
  kernel = record c.kernel { interrupts = false };
}
