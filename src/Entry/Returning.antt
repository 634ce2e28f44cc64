-- ===== src/Entry/Returning.antt =====
-- kernel/src/thread/uprocess/uthread.rs: what `fork_return_trampoline` makes of a trap frame.
use ferri_os.Base.{ℕ, ◌+◌, ◌*◌, ◌/◌, ◌%◌, ◌^◌, ◌≤◌, ◌<◌, ◌≡◌, ap, ◌∙◌, some, List, ◌∷◌, arith}
use ferri_os.Thread.{Context}
use ferri_os.Thread.TrapFrame.{Words, store, read_trap_frame}
use ferri_os.Entry.RegisterFile.{Reg, read}
use ferri_os.Entry.RegisterFile.Reg.{r8, r9, r10, r11}
use ferri_os.Entry.Machine.{Instruction, Core, Processor, add_word, load, run, interrupt_return}
use ferri_os.Entry.Machine.Instruction.{push, push_qword}
use ferri_os.Entry.Stack.{add_word_lem, moved, push_word_lem}
use ferri_os.Entry.Trampolines.{load_frame, fork_return}

pub run-push :
    (p : Processor) (r : Reg) (rest : List Instruction) (b : ℕ) (c : Core)
    → c.regs.rsp ≡ b + 8
    → run p (push r ∷ rest) c ≡ run p rest (moved b (store c.kernel.words b (read r c.regs)) c)
run-push p r rest b c e = ap (run p rest) (push_word_lem (read r c.regs) b c e)

run-push_qword :
    (p : Processor) (r : Reg) (offset : ℕ) (rest : List Instruction) (b v : ℕ) (c : Core)
    → c.regs.rsp ≡ b + 8
    → load c (add_word (read r c.regs) offset) ≡ v
    → run p (push_qword r offset ∷ rest) c ≡ run p rest (moved b (store c.kernel.words b v) c)
run-push_qword p r offset rest b v c e is =
    ap (run p rest) (push_word_lem (load c (add_word (read r c.regs) offset)) b c e)
    ∙ ap (λ v. run p rest (moved b (store c.kernel.words b v) c)) is

-- The five words for `iretq`.
abbrev pub return_words : Words → ℕ → ℕ → ℕ → ℕ → ℕ → ℕ → Words
return_words w s rip cs rflags sp ss =
    store (store (store (store (store w (s + 32) ss) (s + 24) sp) (s + 16) rflags) (s + 8) cs) s rip

-- `iretq` where those words are on top of the stack.
pub iretq_lem :
    (p : Processor) (c : Core) (w : Words) (s rip cs rflags sp ss : ℕ)
    → s + 40 < 2 ^ 64
    → interrupt_return p (moved s (return_words w s rip cs rflags sp ss) c) ≡ record c {
      rip = rip;
      cs = cs;
      rflags = rflags;
      ss = ss;
      regs = record c.regs { rsp = sp };
      kernel = record c.kernel {
        words = return_words w s rip cs rflags sp ss;
        interrupts = p.interrupt_flag rflags;
      };
    }
iretq_lem p c w s rip cs rflags sp ss fits = λ i. record c {
  rip = at_0 i;
  cs = at_8 i;
  rflags = at_16 i;
  ss = at_32 i;
  regs = record c.regs { rsp = at_24 i };
  kernel = record c.kernel { words = m; interrupts = p.interrupt_flag (at_16 i) };
}
  where
    m : Words
    m = return_words w s rip cs rflags sp ss

    at_0 : m s ≡ rip
    at_0 = ground arith

    at_8 : m (add_word s 8) ≡ cs
    at_8 = ap m (add_word_lem s 8 (omega arith)) ∙ ground arith

    at_16 : m (add_word s 16) ≡ rflags
    at_16 = ap m (add_word_lem s 16 (omega arith)) ∙ ground arith

    at_24 : m (add_word s 24) ≡ sp
    at_24 = ap m (add_word_lem s 24 (omega arith)) ∙ ground arith

    at_32 : m (add_word s 32) ≡ ss
    at_32 = ap m (add_word_lem s 32 (omega arith)) ∙ ground arith

return_words-above :
    (w : Words) (s rip cs rflags sp ss a offset : ℕ)
    → s + 40 ≤ a
    → a + offset < 2 ^ 64
    → return_words w s rip cs rflags sp ss (add_word a offset) ≡ w (a + offset)
return_words-above w s rip cs rflags sp ss a offset above fits =
    ap (return_words w s rip cs rflags sp ss) (add_word_lem a offset fits) ∙ ground arith

low_word : (a b : ℕ) → (a / 2 ^ 16 * 2 ^ 16 + b % 2 ^ 16) % 2 ^ 16 ≡ b % 2 ^ 16
low_word a b = omega arith

-- The user program that a trap frame at `tf` describes, with the kernel's stack at `s + 40`.
unfoldable pub returned_to : Processor → ℕ → ℕ → Context → Core → Core
returned_to p s tf ctx c =
    let t = read_trap_frame c.kernel.words tf in
    record c {
      regs = record c.regs {
        rax = t.rax;
        rbx = t.rbx;
        rdx = t.rdx;
        rsi = t.rsi;
        rdi = t.rdi;
        rbp = t.rbp;
        rsp = ctx.rsp3;
        r8 = tf;
        r9 = ctx.cs;
        r10 = ctx.ss;
        r11 = ctx.rsp3;
        r12 = t.r12;
        r13 = t.r13;
        r14 = t.r14;
        r15 = t.r15;
      };
      rip = t.rcx;
      cs = ctx.cs;
      rflags = t.r11;
      ss = ctx.ss;
      ds = ctx.ss % 2 ^ 16;
      es = ctx.ss % 2 ^ 16;
      kernel = record c.kernel {
        words = return_words c.kernel.words s t.rcx ctx.cs t.r11 ctx.rsp3 ctx.ss;
        interrupts = p.interrupt_flag t.r11;
      };
    }

pub fork_return_lem :
    (p : Processor) (s tf : ℕ) (ctx : Context) (c : Core)
    → c.regs.rsp ≡ s + 40
    → s + 40 ≤ tf
    → tf + 112 ≤ 2 ^ 64
    → run p fork_return
        (record c { regs = record c.regs { r8 = tf; r9 = ctx.cs; r10 = ctx.ss; r11 = ctx.rsp3 } })
      ≡ some (returned_to p s tf ctx c)
unfolding fork_return returned_to
fork_return_lem p s tf ctx c sp above fits =
    let w = c.kernel.words in
    let t = read_trap_frame w tf in
    let seg = (c.regs.rax / 2 ^ 16 * 2 ^ 16 + ctx.ss % 2 ^ 16) in
    let c1 : Core = record c {
      regs = record c.regs { rax = seg; r8 = tf; r9 = ctx.cs; r10 = ctx.ss; r11 = ctx.rsp3 };
      ds = seg % 2 ^ 16;
      es = seg % 2 ^ 16;
    } in
    let w1 = store w (s + 32) ctx.ss in
    let w2 = store w1 (s + 24) ctx.rsp3 in
    let w3 = store w2 (s + 16) t.r11 in
    let w4 = store w3 (s + 8) ctx.cs in
    let r4 = push_qword r8 88 ∷ load_frame in
    let r3 = push r9 ∷ r4 in
    let r2 = push_qword r8 80 ∷ r3 in
    let r1 = push r11 ∷ r2 in
    let is : (offset : ℕ)
        → offset ≤ 104
        → return_words w s t.rcx ctx.cs t.r11 ctx.rsp3 ctx.ss (add_word tf offset)
          ≡ w (tf + offset) =
      λ offset le.
        return_words-above w s t.rcx ctx.cs t.r11 ctx.rsp3 ctx.ss tf offset above (omega arith) in
    let first : w (tf + 0) ≡ w tf = ap w (omega arith) in
    let c2 = returned_to p s tf ctx c in
    run-push p r10 r1 (s + 32) c1 (sp ∙ omega arith)
    ∙ run-push p r11 r2 (s + 24) (moved (s + 32) w1 c1) (omega arith)
    ∙ run-push_qword p r8 80 r3 (s + 16) t.r11 (moved (s + 24) w2 c1) (omega arith)
        (ap w2 (add_word_lem tf 80 (omega arith)) ∙ ground arith)
    ∙ run-push p r9 r4 (s + 8) (moved (s + 16) w3 c1) (omega arith)
    ∙ run-push_qword p r8 88 load_frame s t.rcx (moved (s + 8) w4 c1) (omega arith)
        (ap w4 (add_word_lem tf 88 (omega arith)) ∙ ground arith)
    ∙ (λ i. some (
        interrupt_return p (
          moved s (return_words w s t.rcx ctx.cs t.r11 ctx.rsp3 ctx.ss) (record c1 {
            regs = record c1.regs {
              rax = is 72 (omega arith) i;
              rbx = is 40 (omega arith) i;
              rdx = is 48 (omega arith) i;
              rsi = is 56 (omega arith) i;
              rdi = is 64 (omega arith) i;
              rbp = is 32 (omega arith) i;
              r12 = is 24 (omega arith) i;
              r13 = is 16 (omega arith) i;
              r14 = is 8 (omega arith) i;
              r15 = (is 0 (omega arith) ∙ first) i;
            };
            ds = low_word c.regs.rax ctx.ss i;
            es = low_word c.regs.rax ctx.ss i;
          }))))
    ∙ ap some (
        iretq_lem p (record c2 { kernel = c.kernel }) w s t.rcx ctx.cs t.r11 ctx.rsp3 ctx.ss
          (omega arith))
