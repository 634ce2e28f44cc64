-- ===== src/Entry/Child.antt =====
-- kernel/src/syscall/mod.rs, kernel/src/thread/uprocess/syscalls.rs and
-- kernel/src/thread/uprocess/uthread.rs: the child of a `fork` from its parent's system call to its own
-- first instruction in user mode.
use ferri_os.Base.{
  ℕ, ◌+◌, ◌-◌, ◌*◌, ◌^◌, ◌≤◌, ◌≡◌, sym, ap, ◌∙◌, ◌⊎◌, false, Option, some, arith, get_elem?, ok,
  expect, >>=-ok, if◌then◌else◌, ◌==◌,
}
use ferri_os.Base.Panic.{expect_failed, index_out_of_bounds}
use ferri_os.Memory.Paging.{Paging}
use ferri_os.Thread.{Thread, Context, is_unused}
use ferri_os.Thread.TrapFrame.{
  TrapFrame, Words, trap_frame_size, read_trap_frame, store_all-word, word_or,
}
use ferri_os.Kernel.{Kernel, thread_at}
use ferri_os.Threads.{next_tid, stack_size}
use ferri_os.Processes.Alloc.{first_thread_of}
use ferri_os.Processes.Fork.{child_thread_of}
use ferri_os.Processes.Syscalls.{fork}
use ferri_os.Processes.Copied.{fork-copies}
use ferri_os.Entry.Machine.{Core, Processor}
use ferri_os.Entry.Trampolines.{fork_return_trampoline, running_frame}
use ferri_os.Entry.Returning.{returned_to, fork_return_lem}
use ferri_os.Entry.Call.{entered, saved_words}

running_frame_lem :
    (k : Kernel) (tid tf : ℕ) (t : Thread)
    → k.cpu.current_tid ≡ some tid
    → get_elem? k.thread_table tid ≡ some t
    → t.tf ≡ some tf
    → running_frame k ≡ ok (tf, t.context) k
unfolding running_frame thread_at
running_frame_lem k tid tf t current here is =
    >>=-ok (expect k.cpu.current_tid expect_failed) _ k (ap (λ o. expect o expect_failed k) current)
    ∙ >>=-ok (thread_at tid) _ k (ap (λ o. expect o index_out_of_bounds k) here)
    ∙ >>=-ok (expect t.tf expect_failed) _ k (ap (λ o. expect o expect_failed k) is)

-- A thread that takes the way of `fork_return_trampoline` with the stack pointer `s + 40`.
fork_return_trampoline_lem :
    (p : Processor) (s tid tf : ℕ) (t : Thread) (c : Core)
    → c.kernel.cpu.current_tid ≡ some tid
    → get_elem? c.kernel.thread_table tid ≡ some t
    → t.tf ≡ some tf
    → c.regs.rsp ≡ s + 40
    → s + 40 ≤ tf
    → tf + 112 ≤ 2 ^ 64
    → fork_return_trampoline p c ≡ some (returned_to p s tf t.context c)
unfolding fork_return_trampoline
fork_return_trampoline_lem p s tid tf t c current here is sp above fits =
    let e = running_frame_lem c.kernel tid tf t current here is in
    rw (fork_return_trampoline, e) (fork_return_lem p s tf t.context c sp above fits)

-- The child in user mode against its parent where it called.
pub record SameUser (c : Core) (d : Core) : Type 0 where
  pub rip : d.rip ≡ c.rip
  pub rflags : d.rflags ≡ c.rflags
  pub rsp : d.regs.rsp ≡ c.regs.rsp
  pub rax : d.regs.rax ≡ 0
  pub rbx : d.regs.rbx ≡ c.regs.rbx
  pub rdx : d.regs.rdx ≡ c.regs.rdx
  pub rsi : d.regs.rsi ≡ c.regs.rsi
  pub rdi : d.regs.rdi ≡ c.regs.rdi
  pub rbp : d.regs.rbp ≡ c.regs.rbp
  pub r12 : d.regs.r12 ≡ c.regs.r12
  pub r13 : d.regs.r13 ≡ c.regs.r13
  pub r14 : d.regs.r14 ≡ c.regs.r14
  pub r15 : d.regs.r15 ≡ c.regs.r15

-- What a thread of the child is when it starts: its stack pointer and its tables are those that
-- `fork` has given it in `k1`.
pub record Starts (tid : ℕ) (k1 : Kernel) (d : Core) : Type 0 where
  pub thread : Thread
  pub given : Thread
  pub given_is : get_elem? k1.thread_table tid ≡ some given
  pub current : d.kernel.cpu.current_tid ≡ some tid
  pub thread_is : get_elem? d.kernel.thread_table tid ≡ some thread
  pub context : thread.context ≡ given.context
  pub tf : thread.tf ≡ given.tf
  pub rsp : d.regs.rsp ≡ given.context.rsp
  pub frame :
      read_trap_frame d.kernel.words given.context.rsp ≡ read_trap_frame k1.words given.context.rsp

-- A `fork` of a user program `c` that runs in `k` with its frame at `b` and has ended in `k1`.
pub record Forks (kstack b : ℕ) (x86 : Paging) (c : Core) (k : Kernel) (pid : ℕ) (k1 : Kernel)
    : Type 0 where
  pub words_are : k.words ≡ (entered b c).words
  pub user_rsp : k.cpu.saved_user_rsp ≡ c.regs.rsp
  pub caller : ℕ
  pub thread : Thread
  pub caller_is : k.cpu.current_tid ≡ some caller
  pub thread_is : get_elem? k.thread_table caller ≡ some thread
  pub used : is_unused thread.state ≡ false
  pub frame_is : thread.tf ≡ some b
  pub apart :
      (b + trap_frame_size ≤ kstack + stack_size - trap_frame_size) ⊎ (kstack + stack_size ≤ b)
  pub forked : fork x86 kstack k ≡ ok pid k1

same_tid : {x : Option ℕ} {m n : ℕ} → x ≡ some m → x ≡ some n → m ≡ n
same_tid h e = cc

some_thread : {x : Option Thread} {t u : Thread} → x ≡ some t → x ≡ some u → t ≡ u
some_thread h e = cc

if_same : {A : Type 0} (n : ℕ) (x y : A) → (if n == n then x else y) ≡ x
if_same n x y = ground arith

-- Word `i` of the frame that `syscall_entry` has left.
saved_word :
    (b : ℕ) (c : Core) (k : Kernel) (i a : ℕ)
    → k.words ≡ (entered b c).words
    → a ≡ b + 8 * i
    → k.words a ≡ word_or (saved_words c) i (c.kernel.words a)
unfolding entered
saved_word b c k i a words e =
    ap (λ (w : Words). w a) words ∙ store_all-word c.kernel.words b (saved_words c) i a e

-- The child of a user program's `fork` comes to user mode at the instruction after the parent's
-- `syscall`, with the parent's flags and stack pointer, 0 in rax and the parent's rbx, rdx, rsi, rdi, rbp
-- and r12 to r15. The parent's frame is as `syscall_entry` has left it and does not overlap the
-- new stack's frame; the child starts on that stack, as the scheduler has it from its context, with
-- room below the frame and the stack below 2 ^ 64.
pub fork-SameUser :
    (p : Processor) (x86 : Paging) (kstack b : ℕ) (c d : Core) (k : Kernel) {pid : ℕ} {k1 : Kernel}
    (tid : ℕ)
    → Forks kstack b x86 c k pid k1
    → next_tid k.thread_table ≡ some tid
    → Starts tid k1 d
    → 40 + trap_frame_size ≤ kstack + stack_size
    → kstack + stack_size ≤ 2 ^ 64
    → (e : Core) × (fork_return_trampoline p d ≡ some e) × SameUser c e
unfolding entered returned_to child_thread_of first_thread_of
fork-SameUser p x86 kstack b c d k {pid} {k1} tid h next starts room fits =
    let f =
      fork-copies x86 kstack k h.forked h.caller h.thread b h.caller_is h.thread_is h.used
        h.frame_is h.apart in
    let a = kstack + stack_size - trap_frame_size in
    let t = read_trap_frame k.words b in
    let tid_is : f.tid ≡ tid = same_tid f.tid_is next in
    let given : starts.given ≡ child_thread_of k.layout kstack tid pid t k.cpu.saved_user_rsp =
      some_thread starts.given_is (
        f.threads tid
        ∙ (λ i.
            if tid_is i == tid
            then some (child_thread_of k.layout kstack (tid_is i) pid t k.cpu.saved_user_rsp)
            else get_elem? k.thread_table tid)
        ∙ if_same tid _ _) in
    let context : starts.thread.context
        ≡ (child_thread_of k.layout kstack tid pid t k.cpu.saved_user_rsp).context =
      starts.context ∙ ap (λ (t : Thread). t.context) given in
    let at : starts.given.context.rsp ≡ a = ap (λ (t : Thread). t.context.rsp) given in
    let frame : read_trap_frame d.kernel.words a
        ≡ record t { rax = 0; rsp = k.cpu.saved_user_rsp } =
      ap (read_trap_frame d.kernel.words) (sym at)
      ∙ starts.frame
      ∙ ap (read_trap_frame k1.words) at
      ∙ f.child_frame in
    let is : (i x : ℕ) → x ≡ b + 8 * i → k.words x ≡ word_or (saved_words c) i (c.kernel.words x) =
      λ i x e. saved_word b c k i x h.words_are e in
    (
      returned_to p (a - 40) a starts.thread.context d,
      fork_return_trampoline_lem p (a - 40) tid a starts.thread d starts.current starts.thread_is
          (starts.tf ∙ ap (λ (t : Thread). t.tf) given) (starts.rsp ∙ at ∙ omega arith)
          (omega arith) (omega arith),
      record {
        rip = ap (λ (t : TrapFrame). t.rcx) frame ∙ is 11 (b + 88) (omega arith);
        rflags = ap (λ (t : TrapFrame). t.r11) frame ∙ is 10 (b + 80) (omega arith);
        rsp = ap (λ (x : Context). x.rsp3) context ∙ h.user_rsp;
        rax = ap (λ (t : TrapFrame). t.rax) frame;
        rbx = ap (λ (t : TrapFrame). t.rbx) frame ∙ is 5 (b + 40) (omega arith);
        rdx = ap (λ (t : TrapFrame). t.rdx) frame ∙ is 6 (b + 48) (omega arith);
        rsi = ap (λ (t : TrapFrame). t.rsi) frame ∙ is 7 (b + 56) (omega arith);
        rdi = ap (λ (t : TrapFrame). t.rdi) frame ∙ is 8 (b + 64) (omega arith);
        rbp = ap (λ (t : TrapFrame). t.rbp) frame ∙ is 4 (b + 32) (omega arith);
        r12 = ap (λ (t : TrapFrame). t.r12) frame ∙ is 3 (b + 24) (omega arith);
        r13 = ap (λ (t : TrapFrame). t.r13) frame ∙ is 2 (b + 16) (omega arith);
        r14 = ap (λ (t : TrapFrame). t.r14) frame ∙ is 1 (b + 8) (omega arith);
        r15 = ap (λ (t : TrapFrame). t.r15) frame ∙ is 0 b (omega arith);
      },
    )
