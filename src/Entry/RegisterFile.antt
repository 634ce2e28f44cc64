-- ===== src/Entry/RegisterFile.antt =====
-- The general registers of the processor, as the assembler of the kernel names them.
use ferri_os.Base.{ℕ}

pub data Reg : Type 0 where
  rax rbx rcx rdx rsi rdi rbp rsp : Reg
  r8 r9 r10 r11 r12 r13 r14 r15 : Reg

pub record Registers : Type 0 where
  pub rax : ℕ
  pub rbx : ℕ
  pub rcx : ℕ
  pub rdx : ℕ
  pub rsi : ℕ
  pub rdi : ℕ
  pub rbp : ℕ
  pub rsp : ℕ
  pub r8 : ℕ
  pub r9 : ℕ
  pub r10 : ℕ
  pub r11 : ℕ
  pub r12 : ℕ
  pub r13 : ℕ
  pub r14 : ℕ
  pub r15 : ℕ

abbrev pub read : Reg → Registers → ℕ
read rax regs = regs.rax
read rbx regs = regs.rbx
read rcx regs = regs.rcx
read rdx regs = regs.rdx
read rsi regs = regs.rsi
read rdi regs = regs.rdi
read rbp regs = regs.rbp
read rsp regs = regs.rsp
read r8 regs = regs.r8
read r9 regs = regs.r9
read r10 regs = regs.r10
read r11 regs = regs.r11
read r12 regs = regs.r12
read r13 regs = regs.r13
read r14 regs = regs.r14
read r15 regs = regs.r15

abbrev pub write : Reg → ℕ → Registers → Registers
write rax v regs = record regs { rax = v }
write rbx v regs = record regs { rbx = v }
write rcx v regs = record regs { rcx = v }
write rdx v regs = record regs { rdx = v }
write rsi v regs = record regs { rsi = v }
write rdi v regs = record regs { rdi = v }
write rbp v regs = record regs { rbp = v }
write rsp v regs = record regs { rsp = v }
write r8 v regs = record regs { r8 = v }
write r9 v regs = record regs { r9 = v }
write r10 v regs = record regs { r10 = v }
write r11 v regs = record regs { r11 = v }
write r12 v regs = record regs { r12 = v }
write r13 v regs = record regs { r13 = v }
write r14 v regs = record regs { r14 = v }
write r15 v regs = record regs { r15 = v }
