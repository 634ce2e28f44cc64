-- ===== src/Exec/Rollback.antt =====
-- kernel/src/exec/mod.rs: `commit_exec` happens as a whole or not at all.
use ferri_os.Base.{
  ℕ, ◌≡◌, refl, ap, ◌∙◌, ◌⊎◌, inl, inr, Option, none, some, arith, get_elem?, set, Option-cases,
  Ret, ok, err, panic, ◌>>=◌, >>=-ok, >>=-panic, ok_or,
}
use ferri_os.Base.{Error, Panic}
use ferri_os.Base.Error.{
  no_current_thread_id, no_current_process_id, process_table_entry_missing,
  thread_table_entry_missing, exec_no_trapframe,
}
use ferri_os.Base.Panic.{index_out_of_bounds}
use ferri_os.Thread.{Thread}
use ferri_os.Thread.TrapFrame.{read_trap_frame, write_trap_frame}
use ferri_os.Process.{Process}
use ferri_os.Kernel.{Kernel, current_pid}
use ferri_os.Exec.Image.{Exec}
use ferri_os.Exec.Commit.{process_entry, apply_exec, commit_exec, commit_as}

-- The kernel when thread `tid` and process `pid` have taken over the image.
abbrev pub committed : ℕ → ℕ → Process → Thread → ℕ → Exec → Kernel → Kernel
committed tid pid process thread a prepared k = record k {
  process_table = set k.process_table pid (
      some
        (record process { page_table = some prepared.page_table; heap_size = prepared.heap_size }));
  thread_table = set k.thread_table tid (record thread {
    context = record thread.context {
      rsp3 = prepared.user_sp;
      user_rip = prepared.entry;
      user_rdi = prepared.argc;
      user_rsi = prepared.argv_user_ptr;
    };
  });
  words = write_trap_frame k.words a (record (read_trap_frame k.words a) {
    rax = 0;
    rdi = prepared.argc;
    rsi = prepared.argv_user_ptr;
    rcx = prepared.entry;
  });
  cpu = record k.cpu { saved_user_rsp = prepared.user_sp };
  cr3 = prepared.page_table;
}

-- Once the checks of `commit_exec` have passed, its closure cannot fail.
apply_exec-committed :
    (tid pid : ℕ) (process : Process) (thread : Thread) (a : ℕ) (prepared : Exec) (k : Kernel)
    → process_entry k pid ≡ some process
    → get_elem? k.thread_table tid ≡ some thread
    → thread.tf ≡ some a
    → apply_exec tid pid prepared k ≡ ok tt (committed tid pid process thread a prepared k)
unfolding apply_exec
apply_exec-committed tid pid process thread a prepared k p t f = rw (p, t, f) refl

-- What a successful `commit_exec` has found and done.
pub record Committed (prepared : Exec) (k k1 : Kernel) : Type 0 where
  pub tid : ℕ
  pub pid : ℕ
  pub process : Process
  pub thread : Thread
  pub trap_frame : ℕ
  pub tid_is : k.cpu.current_tid ≡ some tid
  pub pid_is : current_pid k ≡ ok (some pid) k
  pub process_is : process_entry k pid ≡ some process
  pub thread_is : get_elem? k.thread_table tid ≡ some thread
  pub trap_frame_is : thread.tf ≡ some trap_frame
  pub result : k1 ≡ committed tid pid process thread trap_frame prepared k

-- How `commit_exec` ends: with an error and the kernel as it was, or having committed the whole.
pub data Commits (prepared : Exec) (k : Kernel) : Ret Kernel (Unit {0}) → Type 0 where
  fails : (e : Error) → Commits prepared k (err e k)
  panics : (p : Panic) → Commits prepared k (panic p)
  commits : (k1 : Kernel) → Committed prepared k k1 → Commits prepared k (ok tt k1)

current_pid-cases :
    (k : Kernel)
    → ((pid : Option ℕ) × (current_pid k ≡ ok pid k)) ⊎ ((p : Panic) × (current_pid k ≡ panic p))
unfolding current_pid
current_pid-cases k = elim (Option-cases k.cpu.current_tid) [
  | inl e ↦ inl (none, ground (arith, e))
  | inr (tid, e) ↦ elim (Option-cases (get_elem? k.thread_table tid)) [
    | inl f ↦ inr (index_out_of_bounds, ground (arith, e, f))
    | inr (t, f) ↦ inl (t.pid, ground (arith, e, f))
  ]
]

commit_as-committed :
    (tid pid : ℕ) (process : Process) (thread : Thread) (a : ℕ) (prepared : Exec) (k : Kernel)
    → process_entry k pid ≡ some process
    → get_elem? k.thread_table tid ≡ some thread
    → thread.tf ≡ some a
    → commit_as tid pid prepared k ≡ ok tt (committed tid pid process thread a prepared k)
unfolding commit_as
commit_as-committed tid pid process thread a prepared k e f g =
    ground (arith, e, f, g, apply_exec-committed tid pid process thread a prepared k e f g)

commit_checked :
    (prepared : Exec) (k : Kernel) (tid pid : ℕ)
    → k.cpu.current_tid ≡ some tid
    → current_pid k ≡ ok (some pid) k
    → Commits prepared k (commit_as tid pid prepared k)
unfolding commit_as
commit_checked prepared k tid pid c d = elim (Option-cases (process_entry k pid)) [
  | inl e ↦ simp (commit_as, e) (fails process_table_entry_missing)
  | inr (process, e) ↦ elim (Option-cases (get_elem? k.thread_table tid)) [
    | inl f ↦ simp (commit_as, e, f) (fails thread_table_entry_missing)
    | inr (thread, f) ↦ elim (Option-cases thread.tf) [
      | inl g ↦ simp (commit_as, e, f, g) (fails exec_no_trapframe)
      | inr (a, g) ↦ rw (commit_as-committed tid pid process thread a prepared k e f g) (
          commits (committed tid pid process thread a prepared k) (record {
            tid = tid;
            pid = pid;
            process = process;
            thread = thread;
            trap_frame = a;
            tid_is = c;
            pid_is = d;
            process_is = e;
            thread_is = f;
            trap_frame_is = g;
            result = refl;
          }))
    ]
  ]
]

-- `commit_exec` is all or nothing: it ends with an error and the kernel exactly as it was, or panics, or
-- has stored the page table, the heap size, the entry point, the stack and the arguments in the
-- current process and thread, the trap frame and CR3, and has changed nothing else.
pub commit_exec-Commits :
    (prepared : Exec) (k : Kernel) → Commits prepared k (commit_exec prepared k)
unfolding commit_exec
commit_exec-Commits prepared k = elim (Option-cases k.cpu.current_tid) [
  | inl c ↦ simp (commit_exec, c) (fails no_current_thread_id)
  | inr (tid, c) ↦ elim (current_pid-cases k) [
    | inr (p, d) ↦ from (begun tid c ∙ >>=-panic current_pid _ k d) (panics p)
    | inl (pid, d) ↦ elim (Option-cases pid) [
      | inl e ↦
          from (begun tid c ∙ (>>=-ok current_pid _ k d ∙ rw e refl)) (fails no_current_process_id)
      | inr (n, e) ↦
          from (begun tid c ∙ (>>=-ok current_pid _ k d ∙ rw e refl))
            (commit_checked prepared k tid n c (d ∙ λ i. ok (e i) k))
    ]
  ]
]
  where
    from : {r r' : Ret Kernel (Unit {0})} → r ≡ r' → Commits prepared k r' → Commits prepared k r
    from e h = rw e h

    begun :
        (tid : ℕ)
        → k.cpu.current_tid ≡ some tid
        → commit_exec prepared k
          ≡ (do
            pid ← current_pid
            pid ← ok_or pid no_current_process_id
            commit_as tid pid prepared)
              k
    begun tid c =
        >>=-ok (ok_or k.cpu.current_tid no_current_thread_id) _ k
          (ap (λ o. ok_or o no_current_thread_id k) c)
