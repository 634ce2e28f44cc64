-- ===== src/Processes/Copied.antt =====
-- kernel/src/thread/uprocess/syscalls.rs, `fork`: what the child has of its parent.
use ferri_os.Base.{
  ℕ, ◌+◌, ◌-◌, ◌≤◌, ◌≡◌, ◌∙◌, ap, ◌⊎◌, inl, inr, true, false, Option, some, List, arith, get_elem?,
  set, get_elem?-set, ok,
}
use ferri_os.Memory.Paging.{Paging}
use ferri_os.Thread.{Thread, runnable}
use ferri_os.Thread.TrapFrame.{
  read_trap_frame, new_trap_frame, write_trap_frame, trap_frame_size, read-write_trap_frame,
}
use ferri_os.Process.{Process}
use ferri_os.Kernel.{Kernel, current_process}
use ferri_os.Threads.{next_tid, stack_size}
use ferri_os.Threads.Select.{next_tid-first, unused_at-thread}
use ferri_os.Processes.Alloc.{first_thread_of}
use ferri_os.Processes.Syscalls.{fork}
use ferri_os.Base.{if◌then◌else◌, ◌==◌}
use ferri_os.Thread.{is_unused}
use ferri_os.Thread.TrapFrame.{read_trap_frame-apart}
use ferri_os.Processes.Fork.{child_thread_of, child_of}
use ferri_os.Processes.Forked.{Forked, fork-Forked}

-- Three stores to one slot leave the last value there.
set-set-set :
    {A : Type 0} (xs : List A) (i : ℕ) {w : A} (a b c : A) (u : ℕ)
    → get_elem? xs i ≡ some w
    → get_elem? (set (set (set xs i a) i b) i c) u ≡ (if i == u then some c else get_elem? xs u)
set-set-set xs i a b c u e = ground (
  arith,
  e,
  get_elem?-set xs i u a,
  get_elem?-set (set xs i a) i u b,
  get_elem?-set (set (set xs i a) i b) i u c,
)

set-once :
    {A : Type 0} (xs : List A) (i : ℕ) {w : A} (a : A) (u : ℕ)
    → get_elem? xs i ≡ some w
    → get_elem? (set xs i a) u ≡ (if i == u then some a else get_elem? xs u)
set-once xs i a u e = ground (arith, e, get_elem?-set xs i u a)

-- A thread in use is not the one that `next_tid` gives.
next_tid-unused :
    (table : List Thread) {tid : ℕ}
    → next_tid table ≡ some tid
    → (w : Thread) × (get_elem? table tid ≡ some w) × (is_unused w.state ≡ true)
next_tid-unused table {tid} h =
    let (_, here, _) = (next_tid-first table).0 tid h in unused_at-thread table tid here

caller_kept :
    (table : List Thread) (tid caller : ℕ) (t w c : Thread) {v : Thread}
    → get_elem? table tid ≡ some w
    → is_unused w.state ≡ true
    → get_elem? table caller ≡ some t
    → is_unused t.state ≡ false
    → get_elem? (set table tid c) caller ≡ some v
    → v ≡ t
caller_kept table tid caller t w c e free here used h =
    ground (arith, get_elem?-set table tid caller c)

apart_from :
    (kstack a : ℕ)
    → (a + trap_frame_size ≤ kstack + stack_size - trap_frame_size) ⊎ (kstack + stack_size ≤ a)
    → (a + trap_frame_size ≤ kstack + stack_size - trap_frame_size)
      ⊎ (kstack + stack_size - trap_frame_size + trap_frame_size ≤ a)
apart_from kstack a (inl h) = inl h
apart_from kstack a (inr h) = inr (omega arith)

same_some : {x : Option ℕ} {a b : ℕ} → x ≡ some a → x ≡ some b → a ≡ b
same_some h e = cc

-- The frame that `fork` reads is the caller's.
caller_frame :
    (kstack : ℕ) (k : Kernel) {pid : ℕ} {k1 : Kernel} (f : Forked kstack k pid k1)
    → (caller : ℕ) (t : Thread) (a : ℕ) → k.cpu.current_tid ≡ some caller
    → get_elem? k.thread_table caller ≡ some t
    → is_unused t.state ≡ false
    → t.tf ≡ some a
    → (a + trap_frame_size ≤ kstack + stack_size - trap_frame_size) ⊎ (kstack + stack_size ≤ a)
    → (f.finished.tf ≡ a) × (read_trap_frame f.middle.words a ≡ read_trap_frame k.words a)
caller_frame kstack k {pid} f caller t a current here used tf apart =
    let m = f.middle_is in
    let g = f.finished in
    let cpu : f.middle.cpu ≡ k.cpu = ap (λ k. k.cpu) m in
    let threads : f.middle.thread_table
        ≡ set k.thread_table f.tid (first_thread_of k.layout kstack f.tid pid) =
      ap (λ k. k.thread_table) m in
    let words : f.middle.words
        ≡ write_trap_frame k.words (kstack + stack_size - trap_frame_size) new_trap_frame =
      ap (λ k. k.words) m in
    let (w, e, free) = next_tid-unused k.thread_table f.next in
    let who : g.caller ≡ caller = same_some (rw cpu at g.caller_is) current in
    let same : g.caller_thread ≡ t =
      caller_kept k.thread_table f.tid caller t w (first_thread_of k.layout kstack f.tid pid) e free
        here used (rw (threads, who) at g.caller_thread_is) in
    let at : g.tf ≡ a = same_some (rw same at g.tf_is) tf in
    (
      at,
      rw words (
          read_trap_frame-apart k.words a (kstack + stack_size - trap_frame_size) new_trap_frame
            (apart_from kstack a apart)),
    )

-- The child of a `fork` whose caller's trap frame is at `a`, and what the call leaves alone.
pub record Copied (kstack : ℕ) (k : Kernel) (a pid : ℕ) (k1 : Kernel) : Type 0 where
  pub parent : Process
  pub tid : ℕ
  pub page_table : ℕ
  pub parent_is : current_process k ≡ ok (some parent) k
  pub tid_is : next_tid k.thread_table ≡ some tid
  pub threads :
      (u : ℕ)
      → get_elem? k1.thread_table u ≡ (
          if tid == u
          then some (
              child_thread_of k.layout kstack tid pid
                (read_trap_frame k.words a)
                k.cpu.saved_user_rsp)
          else get_elem? k.thread_table u)
  pub processes :
      (u : ℕ)
      → get_elem? k1.process_table u ≡ (
          if pid == u
          then some (some (child_of parent pid tid page_table))
          else get_elem? k.process_table u)
  pub child_frame :
      read_trap_frame k1.words (kstack + stack_size - trap_frame_size)
      ≡ record (read_trap_frame k.words a) { rax = 0; rsp = k.cpu.saved_user_rsp }
  pub caller_frame_is : read_trap_frame k1.words a ≡ read_trap_frame k.words a

-- What a thread's `fork` has done when it returns `pid`: the first unused thread is the child's,
-- ready to run, and slot `pid` its process, with the caller's as parent and the caller's heap size. The
-- child's trap frame is the caller's with 0 in rax and the user's stack pointer in rsp, the caller's
-- frame is as before, and so are all other threads and processes. The caller's thread is in use, and
-- its trap frame does not overlap the child's, at the top of the new stack.
pub fork-copies :
    (x86 : Paging) (kstack : ℕ) (k : Kernel) {pid : ℕ} {k1 : Kernel}
    → fork x86 kstack k ≡ ok pid k1
    → (caller : ℕ) (t : Thread) (a : ℕ) → k.cpu.current_tid ≡ some caller
    → get_elem? k.thread_table caller ≡ some t
    → is_unused t.state ≡ false
    → t.tf ≡ some a
    → (a + trap_frame_size ≤ kstack + stack_size - trap_frame_size) ⊎ (kstack + stack_size ≤ a)
    → Copied kstack k a pid k1
fork-copies x86 kstack k {pid} {k1} h caller t a current here used tf apart =
    let f = fork-Forked x86 kstack k h in
    let g = f.finished in
    let m = f.middle_is in
    let c = kstack + stack_size - trap_frame_size in
    let (at, frame) = caller_frame kstack k f caller t a current here used tf apart in
    let (w, e, _) = next_tid-unused k.thread_table f.next in
    let cpu : f.middle.cpu ≡ k.cpu = ap (λ k. k.cpu) m in
    let layout : f.middle.layout ≡ k.layout = ap (λ k. k.layout) m in
    let threads : f.middle.thread_table
        ≡ set k.thread_table f.tid (first_thread_of k.layout kstack f.tid pid) =
      ap (λ k. k.thread_table) m in
    let processes : f.middle.process_table ≡ k.process_table = ap (λ k. k.process_table) m in
    let full : read_trap_frame f.middle.words g.tf ≡ read_trap_frame k.words a =
      ap (read_trap_frame f.middle.words) at ∙ frame in
    let stored : k1.words
        ≡ write_trap_frame f.middle.words c
            (record (read_trap_frame k.words a) { rax = 0; rsp = k.cpu.saved_user_rsp }) =
      ap (λ k. k.words) g.result ∙ λ i.
      write_trap_frame f.middle.words c
        (record (full i) { rax = 0; rsp = (cpu i).saved_user_rsp }) in
    let child : record g.marked { state = runnable }
        ≡ child_thread_of k.layout kstack f.tid pid (read_trap_frame k.words a)
            k.cpu.saved_user_rsp =
      g.marked_is ∙ λ i.
      child_thread_of (layout i) kstack f.tid pid (full i) (cpu i).saved_user_rsp in
    record {
      parent = f.parent;
      tid = f.tid;
      page_table = f.page_table;
      parent_is = f.parent_is;
      tid_is = f.next;
      threads = λ u.
          ap (λ t. get_elem? t u)
            (ap (λ k. k.thread_table) g.result ∙ λ i.
              set (set (threads i) f.tid g.marked) f.tid (child i))
          ∙ set-set-set k.thread_table f.tid _ _ _ u e;
      processes = λ u.
          ap (λ t. get_elem? t u)
            (ap (λ k. k.process_table) g.result ∙ λ i.
              set (processes i) pid (some (child_of f.parent pid f.tid f.page_table)))
          ∙ set-once k.process_table pid _ u f.pid_free;
      child_frame = rw stored (read-write_trap_frame f.middle.words c _);
      caller_frame_is =
          rw stored
            (read_trap_frame-apart f.middle.words a c _ (apart_from kstack a apart) ∙ frame);
    }
