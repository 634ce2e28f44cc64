-- ===== src/Entry/Answered.antt =====
-- kernel/src/syscall/mod.rs: a system call that leaves its caller's frame alone, as the user program
-- sees it, and `getpid` from the user program and back.
use ferri_os.Base.{ℕ, ◌+◌, ◌*◌, ◌^◌, ◌<◌, ◌≡◌, refl, ap, ◌∙◌, true, false, arith, if◌then◌else◌, ok}
use ferri_os.Heap.{ℤ}
use ferri_os.Process.{Process}
use ferri_os.Kernel.{Kernel}
use ferri_os.Thread.{Thread}
use ferri_os.Thread.TrapFrame.{Words, store, store_all-word, word_or}
use ferri_os.Syscall.{as_i64}
use ferri_os.Syscall.Dispatch.{Environment, returns, syscall_dispatch, as_usize}
use ferri_os.Syscall.Numbers
use ferri_os.Syscall.Dispatch.Getpid.{Runs, framed, syscall_dispatch-getpid}
use ferri_os.Entry.RegisterFile.{Registers}
use ferri_os.Entry.Machine.{Core, Processor, syscall}
use ferri_os.Entry.{back, faulted, syscall_entry}
use ferri_os.Entry.Call.{entered, resumed, resume, saved_words, syscall_entry-resume}

-- The user program after a call with result `v`, with all that it has kept.
unfoldable pub answered : Processor → Registers → ℕ → Core → ℤ → Kernel → Core
answered p scratch b c v k =
    let flags = p.flags_of_sysret c.rflags in
    record c {
      regs = record c.regs {
        rax = as_usize v;
        rcx = c.rip;
        r8 = scratch.r8;
        r9 = scratch.r9;
        r10 = scratch.r10;
        r11 = c.rflags;
      };
      rflags = flags;
      cs = p.user_cs;
      ss = p.user_ss;
      kernel = record k {
        swapped_gs = false;
        interrupts = p.interrupt_flag flags;
        words = store k.words (b + 72) (as_usize v);
      };
    }

resumed-answered :
    (p : Processor) (scratch : Registers) (b : ℕ) (c : Core) (v : ℤ) (k : Kernel)
    → k.words ≡ (entered b c).words
    → k.cpu.saved_user_rsp ≡ c.regs.rsp
    → resumed p scratch b c v k ≡ answered p scratch b c v k
unfolding entered resumed answered
resumed-answered p scratch b c v k kept sp =
    let flags : k.words (b + 80) ≡ c.rflags = at 10 (b + 80) (omega arith) in
    λ i. record c {
      regs = record c.regs {
        rax = as_usize v;
        rbx = at 5 (b + 40) (omega arith) i;
        rcx = at 11 (b + 88) (omega arith) i;
        rdx = at 6 (b + 48) (omega arith) i;
        rsi = at 7 (b + 56) (omega arith) i;
        rdi = at 8 (b + 64) (omega arith) i;
        rbp = at 4 (b + 32) (omega arith) i;
        rsp = sp i;
        r8 = scratch.r8;
        r9 = scratch.r9;
        r10 = scratch.r10;
        r11 = flags i;
        r12 = at 3 (b + 24) (omega arith) i;
        r13 = at 2 (b + 16) (omega arith) i;
        r14 = at 1 (b + 8) (omega arith) i;
        r15 = at 0 b (omega arith) i;
      };
      rip = at 11 (b + 88) (omega arith) i;
      rflags = p.flags_of_sysret (flags i);
      cs = p.user_cs;
      ss = p.user_ss;
      kernel = record k {
        swapped_gs = false;
        interrupts = p.interrupt_flag (p.flags_of_sysret (flags i));
        words = store k.words (b + 72) (as_usize v);
      };
    }
  where
    at : (i a : ℕ) → a ≡ b + 8 * i → k.words a ≡ word_or (saved_words c) i (c.kernel.words a)
    at i a e = ap (λ (w : Words). w a) kept ∙ store_all-word c.kernel.words b (saved_words c) i a e

-- A call that comes back with `v` and has left its caller's frame, its caller's stack pointer and
-- the GS base alone.
pub syscall_entry-answered :
    (p : Processor) (env : Environment) (scratch : Registers) (b : ℕ) (c : Core) (v : ℤ)
    (k : Kernel)
    → c.kernel.swapped_gs ≡ false
    → c.kernel.cpu.kernel_syscall_rsp ≡ b + 96
    → b + 96 < 2 ^ 64
    → syscall_dispatch env c.regs.rax c.regs.rdi c.regs.rsi b (entered b c) ≡ ok (returns v) k
    → k.words ≡ (entered b c).words
    → k.cpu.saved_user_rsp ≡ c.regs.rsp
    → k.swapped_gs ≡ true
    → syscall_entry p env scratch (syscall p c) ≡ back (answered p scratch b c v k)
unfolding resume
syscall_entry-answered p env scratch b c v k out top fits h kept sp gs =
    syscall_entry-resume p env scratch b c out top fits
    ∙ ap (resume p scratch b c) h
    ∙ (λ i. if gs i then back (resumed p scratch b c v k) else faulted)
    ∙ ap back (resumed-answered p scratch b c v k kept sp)

-- A user program that asks for its process id by `syscall` goes on at its next instruction with that id
-- in rax. Its stack pointer and all registers but rax, rcx, r8 to r11 are as before, and of the
-- kernel's state only the thread's trap frame pointer, the frame itself, the CPU record's copy of
-- the stack pointer and the interrupt flag are not. The process runs and has not been killed, the user's
-- GS base is active, and the top of the kernel's stack is `b + 96`, below 2 ^ 64.
pub getpid-answered :
    (p : Processor) (env : Environment) (scratch : Registers) (b : ℕ) (c : Core) (tid : ℕ)
    (t : Thread)
    → (pid : ℕ) (q : Process) → Runs c.kernel tid t pid q
    → c.regs.rax ≡ Numbers.sys_getpid
    → c.kernel.swapped_gs ≡ false
    → c.kernel.cpu.kernel_syscall_rsp ≡ b + 96
    → b + 96 < 2 ^ 64
    → syscall_entry p env scratch (syscall p c)
      ≡ back (answered p scratch b c (as_i64 pid) (framed b tid t (entered b c)))
unfolding entered
getpid-answered p env scratch b c tid t pid q r number out top fits =
    let f : Runs (entered b c) tid t pid q = record {
      tid_is = r.tid_is;
      thread_is = r.thread_is;
      pid_is = r.pid_is;
      process_is = r.process_is;
      alive = r.alive;
    } in
    syscall_entry-answered p env scratch b c (as_i64 pid) (framed b tid t (entered b c)) out top
      fits
      (ap (λ n. syscall_dispatch env n c.regs.rdi c.regs.rsi b (entered b c)) number
        ∙ syscall_dispatch-getpid env c.regs.rdi c.regs.rsi b f)
      refl refl refl
