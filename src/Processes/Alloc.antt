-- ===== src/Processes/Alloc.antt =====
-- kernel/src/thread/uprocess/mod.rs, `alloc_proc`: a new process and its first thread.
use ferri_os.Base.{
  ℕ, ◌+◌, ◌-◌, ◌<◌, ◌≡◌, none, some, ◌∷◌, arith, get_elem?, set, ok, >>=-elim, replicate,
}
use ferri_os.Thread.{Thread, ThreadState, new_thread, new_context}
use ferri_os.Thread.TrapFrame.{new_trap_frame, write_trap_frame, trap_frame_size}
use ferri_os.Memory.{user_code_start, user_stack_top}
use ferri_os.Process.{Process, ProcessState, nprocess, new_process}
use ferri_os.Kernel.{Kernel, Layout}
use ferri_os.Threads.{create_user_thread, next_tid, stack_size}
use ferri_os.Processes.{alloc_proc, next_pid}
use ferri_os.Processes.Slots.{next_pid-some}

-- The thread that `create_user_thread` makes, with the process that `alloc_proc` gives it to.
unfoldable pub first_thread_of : Layout → ℕ → ℕ → ℕ → Thread
first_thread_of l kstack tid pid = record new_thread {
  tid = tid;
  pid = some pid;
  state = ThreadState.embryo;
  kstack = kstack + stack_size;
  tf = some (kstack + stack_size - trap_frame_size);
  context = record new_context {
    rsp = kstack + stack_size;
    rip = l.init_process_ring3_entry_trampoline;
    rflags = 0x200;
    cs = l.user_code_selector;
    ss = l.user_data_selector;
    rsp3 = user_stack_top;
    user_rip = user_code_start;
  };
}

-- What `alloc_proc` has done when it returns `p`.
pub record Allocated (kstack : ℕ) (k : Kernel) (p : Process) (k1 : Kernel) : Type 0 where
  pub tid : ℕ
  pub next : next_tid k.thread_table ≡ some tid
  pub pid_lt : p.pid < nprocess - 1
  pub pid_free : get_elem? k.process_table p.pid ≡ some none
  pub process : p ≡ record new_process {
    pid = p.pid;
    state = ProcessState.alive;
    threads = some tid ∷ replicate 7 none;
    nthread = 1;
  }
  pub result : k1 ≡ record k {
    thread_table = set k.thread_table tid (first_thread_of k.layout kstack tid p.pid);
    words = write_trap_frame k.words (kstack + stack_size - trap_frame_size) new_trap_frame;
  }

create_user_thread_lem :
    (kstack : ℕ) (k : Kernel) {t : Thread} {k1 : Kernel}
    → create_user_thread kstack k ≡ ok t k1
    → (next_tid k.thread_table ≡ some t.tid)
      × ((pid : ℕ) → record t { pid = some pid } ≡ first_thread_of k.layout kstack t.tid pid)
      × (k1 ≡ record k {
        words = write_trap_frame k.words (kstack + stack_size - trap_frame_size) new_trap_frame;
      })
unfolding create_user_thread first_thread_of
create_user_thread_lem kstack k h = (ground arith, λ pid. ground arith, ground arith)

pub alloc_proc-Allocated :
    (kstack : ℕ) (k : Kernel) {p : Process} {k1 : Kernel}
    → alloc_proc kstack k ≡ ok p k1
    → Allocated kstack k p k1
unfolding alloc_proc
alloc_proc-Allocated kstack k {p} {k1} h = >>=-elim next_pid _ k h λ pid ka ha h.
    >>=-elim (create_user_thread kstack) _ ka h λ t kb hb h.
      let (same, lt, here, _) = next_pid-some k ha in
      let (next, shape, words) = create_user_thread_lem kstack ka hb in
      let pid_is : p.pid ≡ pid = ground arith in
      record {
        tid = t.tid;
        next = rw (← same) next;
        pid_lt = rw pid_is lt;
        pid_free = rw pid_is here;
        process = ground arith;
        result = ground (arith, same, words, shape pid);
      }
