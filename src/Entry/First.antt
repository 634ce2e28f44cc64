-- ===== src/Entry/First.antt =====
-- kernel/src/thread/uprocess/uthread.rs, `init_process_ring3_entry_trampoline`: the user program as
-- it starts, wherever the compiler has placed the operands.
use ferri_os.Base.{
  ℕ, ◌+◌, ◌*◌, ◌%◌, ◌^◌, ◌≤◌, ◌<◌, ◌≡◌, refl, ap, ◌∙◌, true, false, some, List, [], ◌∷◌, ◌++◌, map,
  arith, ok,
}
use ferri_os.Thread.{Context}
use ferri_os.Thread.TrapFrame.{store_all, store_all-word, word_or}
use ferri_os.Entry.RegisterFile.{Reg, Registers, read}
use ferri_os.Entry.RegisterFile.Reg.{rax, rdi, rsi}
use ferri_os.Entry.Machine.{Instruction, Core, Processor, add_word, run, interrupt_return}
use ferri_os.Entry.Machine.Instruction.{mov, xor_self, iretq}
use ferri_os.Entry.Stack.{add_word_lem, moved, is_rsp, run-pushes}
use ferri_os.Entry.Trampolines.{
  Operands, Loaded, is_operand, cleared, init_process_ring3_entry,
  init_process_ring3_entry_trampoline, running_context,
}

-- The general registers that the assembler has cleared.
abbrev zeros : ℕ → ℕ → Registers
zeros bp sp = record {
  rax = 0;
  rbx = 0;
  rcx = 0;
  rdx = 0;
  rsi = 0;
  rdi = 0;
  rbp = bp;
  rsp = sp;
  r8 = 0;
  r9 = 0;
  r10 = 0;
  r11 = 0;
  r12 = 0;
  r13 = 0;
  r14 = 0;
  r15 = 0;
}

operand-is_rsp : (r : Reg) → is_operand r ≡ true → is_rsp r ≡ false
operand-is_rsp Reg.rax h = refl
operand-is_rsp Reg.rbx h = refl
operand-is_rsp Reg.rcx h = refl
operand-is_rsp Reg.rdx h = refl
operand-is_rsp Reg.rsi h = refl
operand-is_rsp Reg.rdi h = refl
operand-is_rsp Reg.rbp h = refl
operand-is_rsp Reg.rsp h = absurd cc
operand-is_rsp Reg.r8 h = refl
operand-is_rsp Reg.r9 h = refl
operand-is_rsp Reg.r10 h = refl
operand-is_rsp Reg.r11 h = refl
operand-is_rsp Reg.r12 h = refl
operand-is_rsp Reg.r13 h = refl
operand-is_rsp Reg.r14 h = refl
operand-is_rsp Reg.r15 h = refl

operand-zeros : (r : Reg) (bp sp : ℕ) → is_operand r ≡ true → read r (zeros bp sp) ≡ 0
operand-zeros Reg.rax bp sp h = absurd cc
operand-zeros Reg.rbx bp sp h = refl
operand-zeros Reg.rcx bp sp h = refl
operand-zeros Reg.rdx bp sp h = refl
operand-zeros Reg.rsi bp sp h = refl
operand-zeros Reg.rdi bp sp h = refl
operand-zeros Reg.rbp bp sp h = absurd cc
operand-zeros Reg.rsp bp sp h = absurd cc
operand-zeros Reg.r8 bp sp h = refl
operand-zeros Reg.r9 bp sp h = refl
operand-zeros Reg.r10 bp sp h = refl
operand-zeros Reg.r11 bp sp h = refl
operand-zeros Reg.r12 bp sp h = refl
operand-zeros Reg.r13 bp sp h = refl
operand-zeros Reg.r14 bp sp h = refl
operand-zeros Reg.r15 bp sp h = refl

abbrev pub AllOperands : Operands → Type 0
AllOperands o =
    (is_operand o.cs ≡ true)
    × (is_operand o.rsp3 ≡ true)
    × (is_operand o.rflags ≡ true)
    × (is_operand o.rip ≡ true)
    × (is_operand o.user_rdi ≡ true)
    × (is_operand o.user_rsi ≡ true)

-- The user program that a context describes when all registers but rbp are 0.
unfoldable pub started : Processor → ℕ → Context → Core → Core
started p s ctx c = record c {
  regs = zeros c.regs.rbp ctx.rsp3;
  rip = ctx.user_rip;
  cs = ctx.cs;
  rflags = 0x202;
  ss = ctx.ss;
  ds = ctx.ss % 2 ^ 16;
  es = ctx.ss % 2 ^ 16;
  kernel = record c.kernel {
    words = store_all c.kernel.words s (ctx.user_rip ∷ ctx.cs ∷ 0x202 ∷ ctx.rsp3 ∷ ctx.ss ∷ []);
    interrupts = p.interrupt_flag 0x202;
  };
}

-- The rest of the assembler after the pushes.
abbrev clear_and_return : Operands → List Instruction
clear_and_return o = map xor_self cleared ++ (mov rdi o.user_rdi ∷ mov rsi o.user_rsi ∷ iretq ∷ [])

clear_lem :
    (p : Processor) (o : Operands) (c : Core)
    → is_operand o.user_rdi ≡ true
    → is_operand o.user_rsi ≡ true
    → run p (clear_and_return o) c
      ≡ some (interrupt_return p (record c { regs = zeros c.regs.rbp c.regs.rsp }))
clear_lem p o c rdi_ok rsi_ok =
    let regs = zeros c.regs.rbp c.regs.rsp in
    (λ i. run p (mov rsi o.user_rsi ∷ iretq ∷ []) (record c {
      regs = record regs { rdi = operand-zeros o.user_rdi c.regs.rbp c.regs.rsp rdi_ok i };
    }))
    ∙ λ i. run p (iretq ∷ []) (record c {
      regs = record regs { rsi = operand-zeros o.user_rsi c.regs.rbp c.regs.rsp rsi_ok i };
    })

iretq-words :
    (p : Processor) (s : ℕ) (ctx : Context) (c : Core)
    → c.ds ≡ ctx.ss % 2 ^ 16
    → c.es ≡ ctx.ss % 2 ^ 16
    → s + 40 < 2 ^ 64
    → interrupt_return p
        (record (moved s
          (store_all c.kernel.words s (ctx.user_rip ∷ ctx.cs ∷ 0x202 ∷ ctx.rsp3 ∷ ctx.ss ∷ []))
          c) { regs = zeros c.regs.rbp s })
      ≡ started p s ctx c
unfolding started
iretq-words p s ctx c ds es fits = λ i. record c {
  regs = zeros c.regs.rbp (at 3 (add_word s 24) (next 24 (omega arith) ∙ omega arith) i);
  rip = at 0 s (omega arith) i;
  cs = at 1 (add_word s 8) (next 8 (omega arith) ∙ omega arith) i;
  rflags = at 2 (add_word s 16) (next 16 (omega arith) ∙ omega arith) i;
  ss = at 4 (add_word s 32) (next 32 (omega arith) ∙ omega arith) i;
  ds = ds i;
  es = es i;
  kernel = record c.kernel {
    words = store_all c.kernel.words s ws;
    interrupts = p.interrupt_flag (at 2 (add_word s 16) (next 16 (omega arith) ∙ omega arith) i);
  };
}
  where
    ws : List ℕ
    ws = ctx.user_rip ∷ ctx.cs ∷ 0x202 ∷ ctx.rsp3 ∷ ctx.ss ∷ []

    next : (n : ℕ) → n ≤ 40 → add_word s n ≡ s + n
    next n le = add_word_lem s n (omega arith)

    at :
        (i a : ℕ)
        → a ≡ s + 8 * i
        → store_all c.kernel.words s ws a ≡ word_or ws i (c.kernel.words a)
    at i a e = store_all-word c.kernel.words s ws i a e

run-init_process_ring3_entry :
    (p : Processor) (o : Operands) (s : ℕ) (ctx : Context) (c : Core)
    → AllOperands o
    → Loaded o ctx c.regs
    → c.regs.rsp ≡ s + 40
    → s + 40 < 2 ^ 64
    → run p (init_process_ring3_entry o) c ≡ some (started p s ctx c)
unfolding init_process_ring3_entry started
run-init_process_ring3_entry p o s ctx c (cs, rsp3, rflags, rip, user_rdi, user_rsi) l sp fits =
    let w = c.kernel.words in
    let ds = c.regs.rax % 2 ^ 16 in
    let c1 : Core = record c { ds = ds; es = ds } in
    let rs = rax ∷ o.rsp3 ∷ o.rflags ∷ o.cs ∷ o.rip ∷ [] in
    let ws = ctx.user_rip ∷ ctx.cs ∷ 0x202 ∷ ctx.rsp3 ∷ ctx.ss ∷ [] in
    let seg : ds ≡ ctx.ss % 2 ^ 16 = ap (λ n. n % 2 ^ 16) l.rax in
    run-pushes p rs (clear_and_return o) s c1
      (
        refl,
        (
          operand-is_rsp o.rsp3 rsp3,
          (
            operand-is_rsp o.rflags rflags,
            (operand-is_rsp o.cs cs, (operand-is_rsp o.rip rip, tt)),
          ),
        ),
      )
      (sp ∙ omega arith)
    ∙ (λ i.
        run p (clear_and_return o)
          (moved s (store_all w s (l.rip i ∷ l.cs i ∷ l.rflags i ∷ l.rsp3 i ∷ l.rax i ∷ [])) c1))
    ∙ clear_lem p o (moved s (store_all w s ws) c1) user_rdi user_rsi
    ∙ ap some (iretq-words p s ctx c1 seg seg fits)

-- Whichever registers of the class `reg` the compiler takes for the operands of its assembler,
-- `init_process_ring3_entry_trampoline` starts the user program at the entry, the stack pointer and
-- the segments of the running thread's context, with the flags 0x202. All other registers but rbp are
-- 0 then: also rdi and rsi, which the assembler sets from operands that it has cleared before. The
-- compiler places the operands as it says, and leaves the kernel's stack pointer at `s + 40`, below
-- 2 ^ 64.
pub init_process_ring3_entry_trampoline-started :
    (p : Processor) (o : Operands) (place : Context → Registers → Registers) (s : ℕ) (ctx : Context)
    (c : Core)
    → running_context c.kernel ≡ ok ctx c.kernel
    → AllOperands o
    → Loaded o ctx (place ctx c.regs)
    → (place ctx c.regs).rsp ≡ s + 40
    → s + 40 < 2 ^ 64
    → init_process_ring3_entry_trampoline p o place c
      ≡ some (started p s ctx (record c { regs = place ctx c.regs }))
unfolding init_process_ring3_entry_trampoline
init_process_ring3_entry_trampoline-started p o place s ctx c running operands l sp fits =
    rw (init_process_ring3_entry_trampoline, running)
      (run-init_process_ring3_entry p o s ctx (record c { regs = place ctx c.regs }) operands l sp
        fits)
