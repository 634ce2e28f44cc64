-- ===== src/Entry/Call.antt =====
-- kernel/src/syscall/mod.rs: `syscall_entry` as the user program sees it.
use ferri_os.Base.{
  ℕ, ◌+◌, ◌*◌, ◌^◌, ◌<◌, ◌≡◌, ◌≢◌, refl, ap, ◌∙◌, Bool, true, false, none, some, List, [], ◌∷◌,
  ◌++◌, arith, if◌then◌else◌, Ret, ok, err, panic,
}
use ferri_os.Heap.{ℤ}
use ferri_os.Kernel.{Kernel}
use ferri_os.Thread.TrapFrame.{Words, store, store_all, read_trap_frame}
use ferri_os.Syscall.Dispatch.{Environment, Outcome, returns, syscall_dispatch, as_usize}
use ferri_os.Entry.RegisterFile.{Registers}
use ferri_os.Entry.Machine.{Instruction, Core, Processor, run, syscall}
use ferri_os.Entry.Stack.{add_word_lem, run-pushes, run-pops, popped}
use ferri_os.Entry.{
  Left, back, back_if, elsewhere, faulted, syscall_entry, before_call, after_call, called,
  switch_to_kernel, switch_to_user, saved_registers, restored_registers, pass_arguments, pushes,
  pops,
}

-- The twelve words that a system call leaves on the kernel's stack, from the lowest address on.
abbrev pub saved_words : Core → List ℕ
saved_words c =
    let r = c.regs in
    r.r15 ∷ r.r14 ∷ r.r13 ∷ r.r12 ∷ r.rbp ∷ r.rbx ∷ r.rdx ∷ r.rsi ∷ r.rdi ∷ r.rax ∷ c.rflags ∷ c.rip
    ∷ []

-- The kernel of a user program that executes `syscall`, as the dispatcher finds it, with the frame
-- at `b`.
unfoldable pub entered : ℕ → Core → Kernel
entered b c = record c.kernel {
  swapped_gs = true;
  interrupts = false;
  cpu = record c.kernel.cpu { saved_user_rsp = c.regs.rsp };
  words = store_all c.kernel.words b (saved_words c);
}

-- The user program after a call that has returned `v`, whose frame is at `b`.
unfoldable pub resumed : Processor → Registers → ℕ → Core → ℤ → Kernel → Core
resumed p scratch b c v k =
    let t = read_trap_frame k.words b in
    let flags = p.flags_of_sysret t.r11 in
    record c {
      regs = record {
        rax = as_usize v;
        rbx = t.rbx;
        rcx = t.rcx;
        rdx = t.rdx;
        rsi = t.rsi;
        rdi = t.rdi;
        rbp = t.rbp;
        rsp = k.cpu.saved_user_rsp;
        r8 = scratch.r8;
        r9 = scratch.r9;
        r10 = scratch.r10;
        r11 = t.r11;
        r12 = t.r12;
        r13 = t.r13;
        r14 = t.r14;
        r15 = t.r15;
      };
      rip = t.rcx;
      rflags = flags;
      cs = p.user_cs;
      ss = p.user_ss;
      kernel = record k {
        swapped_gs = false;
        interrupts = p.interrupt_flag flags;
        words = store k.words (b + 72) (as_usize v);
      };
    }

-- What follows the dispatcher.
unfoldable pub resume : Processor → Registers → ℕ → Core → Ret Kernel Outcome → Left
unfolding resumed
resume p scratch b c (ok (returns v) k) =
    if k.swapped_gs then back (resumed p scratch b c v k) else faulted
resume p scratch b c (ok Outcome.gone k) = elsewhere (ok Outcome.gone k)
resume p scratch b c (ok (Outcome.waits process) k) = elsewhere (ok (Outcome.waits process) k)
resume p scratch b c (err e k) = elsewhere (err e k)
resume p scratch b c (panic x) = elsewhere (panic x)

abbrev on_kernel_stack : Core → Core
on_kernel_stack c = record c {
  regs = record c.regs { rsp = c.kernel.cpu.kernel_syscall_rsp };
  kernel = record c.kernel {
    swapped_gs = true;
    cpu = record c.kernel.cpu { saved_user_rsp = c.regs.rsp };
  };
}

switch_to_kernel_lem :
    (p : Processor) (rest : List Instruction) (c : Core)
    → c.kernel.swapped_gs ≡ false
    → run p (switch_to_kernel ++ rest) c ≡ run p rest (on_kernel_stack c)
switch_to_kernel_lem p rest c e = rw e refl

switch_to_user_lem :
    (p : Processor) (c : Core) (b : Bool)
    → c.kernel.swapped_gs ≡ b
    → run p switch_to_user c ≡ (
        if b
        then some (record c {
          regs = record c.regs { rsp = c.kernel.cpu.saved_user_rsp };
          rip = c.regs.rcx;
          rflags = p.flags_of_sysret c.regs.r11;
          cs = p.user_cs;
          ss = p.user_ss;
          kernel = record c.kernel {
            swapped_gs = false;
            interrupts = p.interrupt_flag (p.flags_of_sysret c.regs.r11);
          };
        })
        else none)
switch_to_user_lem p c true e = rw e refl
switch_to_user_lem p c false e = rw e refl

-- What the dispatcher is called with.
abbrev at_call : Processor → ℕ → Core → Core
at_call p b c =
    let r = c.regs in
    record (syscall p c) {
      regs = record r {
        rcx = r.rdx;
        rdx = r.rsi;
        rsi = r.rdi;
        rdi = r.rax;
        rsp = b;
        r8 = b;
        r10 = r.rax;
        r11 = c.rflags;
      };
      kernel = entered b c;
    }

before_call_lem :
    (p : Processor) (b : ℕ) (c : Core)
    → c.kernel.swapped_gs ≡ false
    → c.kernel.cpu.kernel_syscall_rsp ≡ b + 96
    → run p before_call (syscall p c) ≡ some (at_call p b c)
unfolding entered
before_call_lem p b c out top =
    switch_to_kernel_lem p (pushes saved_registers ++ pass_arguments) (syscall p c) out
    ∙ run-pushes p saved_registers pass_arguments b (on_kernel_stack (syscall p c))
        (
          refl,
          (
            refl,
            (refl, (refl, (refl, (refl, (refl, (refl, (refl, (refl, (refl, (refl, tt)))))))))),
          ),
        )
        top

after_pops :
    (b v : ℕ) (w : Words) (regs : Registers)
    → popped restored_registers (store w (b + 72) v) b 0 regs ≡ (
        let t = read_trap_frame w b in
        record regs {
          rax = v;
          rbx = t.rbx;
          rcx = t.rcx;
          rdx = t.rdx;
          rsi = t.rsi;
          rdi = t.rdi;
          rbp = t.rbp;
          rsp = b + 96;
          r11 = t.r11;
          r12 = t.r12;
          r13 = t.r13;
          r14 = t.r14;
          r15 = t.r15;
        })
after_pops b v w regs = λ k. record regs {
  rax = result b v w k;
  rbx = at 5 (b + 40) (omega arith) (omega arith) k;
  rcx = at 11 (b + 88) (omega arith) (omega arith) k;
  rdx = at 6 (b + 48) (omega arith) (omega arith) k;
  rsi = at 7 (b + 56) (omega arith) (omega arith) k;
  rdi = at 8 (b + 64) (omega arith) (omega arith) k;
  rbp = at 4 (b + 32) (omega arith) (omega arith) k;
  r11 = at 10 (b + 80) (omega arith) (omega arith) k;
  r12 = at 3 (b + 24) (omega arith) (omega arith) k;
  r13 = at 2 (b + 16) (omega arith) (omega arith) k;
  r14 = at 1 (b + 8) (omega arith) (omega arith) k;
  r15 = at 0 b (omega arith) (omega arith) k;
  rsp = b + 96;
}
  where
    at : (i a : ℕ) → a ≡ b + 8 * i → a ≢ b + 72 → store w (b + 72) v (b + 8 * i) ≡ w a
    at i a e apart = ground (arith, e)

    result : (b v : ℕ) (w : Words) → store w (b + 72) v (b + 8 * 9) ≡ v
    result b v w = ground arith

after_call_lem :
    (p : Processor) (scratch : Registers) (b : ℕ) (c : Core) (v : ℤ) (k : Kernel)
    → b + 96 < 2 ^ 64
    → run p after_call (called scratch v k (at_call p b c))
      ≡ (if k.swapped_gs then some (resumed p scratch b c v k) else none)
unfolding resumed
after_call_lem p scratch b c v k fits =
    let c1 = called scratch v k (at_call p b c) in
    let w : Words = store k.words (b + 72) (as_usize v) in
    let c2 : Core = record c1 { kernel = record k { words = w } } in
    (λ i. run p (pops restored_registers ++ switch_to_user) (record c1 {
      kernel = record k { words = store k.words (add_word_lem b 72 (omega arith) i) (as_usize v) };
    }))
    ∙ run-pops p restored_registers switch_to_user b 0 c2
        (
          refl,
          (
            refl,
            (refl, (refl, (refl, (refl, (refl, (refl, (refl, (refl, (refl, (refl, tt)))))))))),
          ),
        )
        (omega arith) (omega arith)
    ∙ (λ i. run p switch_to_user (record c2 { regs = after_pops b (as_usize v) k.words c2.regs i }))
    ∙ switch_to_user_lem p (record c2 { regs = after_pops b (as_usize v) k.words c2.regs 1 })
        k.swapped_gs refl

back_if_lem :
    (p : Processor) (b : Bool) (c : Core)
    → back_if (if b then some c else none) ≡ (if b then back c else faulted)
back_if_lem p true c = refl
back_if_lem p false c = refl

after_dispatch :
    (p : Processor) (scratch : Registers) (b : ℕ) (c : Core) (r : Ret Kernel Outcome)
    → b + 96 < 2 ^ 64
    → elim r [
      | ok outcome k ↦ elim outcome [
        | returns v ↦ back_if (run p after_call (called scratch v k (at_call p b c)))
        | Outcome.gone ↦ elsewhere (ok Outcome.gone k)
        | Outcome.waits process ↦ elsewhere (ok (Outcome.waits process) k)
      ]
      | err e k ↦ elsewhere (err e k)
      | panic x ↦ elsewhere (panic x)
    ]
      ≡ resume p scratch b c r
unfolding resume
after_dispatch p scratch b c (ok (returns v) k) fits =
    ap back_if (after_call_lem p scratch b c v k fits)
    ∙ back_if_lem p k.swapped_gs (resumed p scratch b c v k)
after_dispatch p scratch b c (ok Outcome.gone k) fits = refl
after_dispatch p scratch b c (ok (Outcome.waits process) k) fits = refl
after_dispatch p scratch b c (err e k) fits = refl
after_dispatch p scratch b c (panic x) fits = refl

-- The instructions of `syscall_entry` do what `entered` and `resume` say: the dispatcher gets the
-- user's rax, rdi and rsi and the address of a frame with the user's registers, the user's stack pointer
-- is kept in the CPU record, and the user program goes on with the registers of that frame, the result
-- in rax. The user's GS base is active at the call, and the kernel's stack, whose top is `b + 96`,
-- lies below 2 ^ 64.
pub syscall_entry-resume :
    (p : Processor) (env : Environment) (scratch : Registers) (b : ℕ) (c : Core)
    → c.kernel.swapped_gs ≡ false
    → c.kernel.cpu.kernel_syscall_rsp ≡ b + 96
    → b + 96 < 2 ^ 64
    → syscall_entry p env scratch (syscall p c)
      ≡ resume p scratch b c (syscall_dispatch env c.regs.rax c.regs.rdi c.regs.rsi b (entered b c))
unfolding syscall_entry
syscall_entry-resume p env scratch b c out top fits =
    let e = before_call_lem p b c out top in
    rw (syscall_entry, e)
      (after_dispatch p scratch b c
        (syscall_dispatch env c.regs.rax c.regs.rdi c.regs.rsi b (entered b c)) fits)
