-- ===== src/Processes/Fork.antt =====
-- kernel/src/thread/uprocess/syscalls.rs: what `finish_fork`, the end of `fork`, does.
use ferri_os.Base.{
  ℕ, ◌+◌, ◌-◌, ◌≡◌, refl, ◌∙◌, Option, none, some, ◌∷◌, arith, get_elem?, set, get_elem?-set, ok,
  >>=-elim, expect_lem, pure, replicate, expect,
}
use ferri_os.Base.Panic.{expect_failed}
use ferri_os.Thread.{Thread, runnable}
use ferri_os.Thread.TrapFrame.{TrapFrame, read_trap_frame, write_trap_frame, trap_frame_size, Words}
use ferri_os.Process.{Process, ProcessState, new_process}
use ferri_os.Kernel.{Kernel, Layout, thread_at, set_process}
use ferri_os.Threads.{stack_size}
use ferri_os.Processes.{mark_threads_as_runnable, mark_all, mark_thread}
use ferri_os.Processes.Alloc.{first_thread_of}
use ferri_os.Processes.Effects.{set_process_lem, thread_at_lem}
use ferri_os.Processes.Syscalls.{finish_fork, set_child_thread}

-- The thread of the child when `fork` returns.
unfoldable pub child_thread_of : Layout → ℕ → ℕ → ℕ → TrapFrame → ℕ → Thread
unfolding first_thread_of
child_thread_of l kstack tid pid tf rsp =
    let t = first_thread_of l kstack tid pid in
    record t {
      state = runnable;
      context = record t.context {
        rip = l.fork_return_trampoline;
        rsp = kstack + stack_size - trap_frame_size;
        rsp3 = rsp;
        user_rip = tf.rcx;
        user_rdi = tf.rdi;
        user_rsi = tf.rsi;
      };
    }

set_child_thread_lem :
    (tid pid kstack : ℕ) (tf : TrapFrame) (rsp : ℕ) (k : Kernel) {k1 : Kernel}
    → get_elem? k.thread_table tid ≡ some (first_thread_of k.layout kstack tid pid)
    → set_child_thread tid tf rsp k ≡ ok tt k1
    → (c : Thread) × (record c { state = runnable }
        ≡ child_thread_of k.layout kstack tid pid tf rsp)
      × (k1 ≡ record k {
        words =
            write_trap_frame k.words
              (kstack + stack_size - trap_frame_size)
              (record tf { rax = 0; rsp = rsp });
        thread_table = set k.thread_table tid c;
      })
unfolding set_child_thread child_thread_of
set_child_thread_lem tid pid kstack tf rsp k e h =
    let t : Thread = first_thread_of k.layout kstack tid pid in
    (
      record t {
        context = record t.context {
          rip = k.layout.fork_return_trampoline;
          rsp = kstack + stack_size - trap_frame_size;
          rsp3 = rsp;
          user_rip = tf.rcx;
          user_rdi = tf.rdi;
          user_rsi = tf.rsi;
        };
      },
      refl,
      ground (arith, e),
    )

mark_all-single :
    (tid : ℕ) (c : Thread) (k : Kernel) {k1 : Kernel}
    → get_elem? k.thread_table tid ≡ some c
    → mark_all (some tid ∷ replicate 7 none) k ≡ ok tt k1
    → k1 ≡ record k { thread_table = set k.thread_table tid (record c { state = runnable }) }
unfolding mark_all mark_thread
mark_all-single tid c k f h = ground (arith, f)

-- The process of the child when `fork` returns.
unfoldable pub child_of : Process → ℕ → ℕ → ℕ → Process
child_of parent pid tid page_table = record new_process {
  pid = pid;
  ppid = some parent.pid;
  state = ProcessState.alive;
  threads = some tid ∷ replicate 7 none;
  nthread = 1;
  page_table = some page_table;
  heap_size = parent.heap_size;
}

-- What `finish_fork` has done.
pub record Finished (kstack pid tid page_table : ℕ) (parent : Process) (k k1 : Kernel)
    : Type 0 where
  pub caller : ℕ
  pub caller_is : k.cpu.current_tid ≡ some caller
  pub caller_thread : Thread
  pub caller_thread_is : get_elem? k.thread_table caller ≡ some caller_thread
  pub tf : ℕ
  pub tf_is : caller_thread.tf ≡ some tf
  pub marked : Thread
  pub marked_is :
      record marked { state = runnable }
      ≡ child_thread_of k.layout kstack tid pid (read_trap_frame k.words tf) k.cpu.saved_user_rsp
  pub result : k1 ≡ record k {
    process_table = set k.process_table pid (some (child_of parent pid tid page_table));
    thread_table = set (set k.thread_table tid marked) tid (record marked { state = runnable });
    words =
        write_trap_frame k.words
          (kstack + stack_size - trap_frame_size)
          (record (read_trap_frame k.words tf) { rax = 0; rsp = k.cpu.saved_user_rsp });
  }

pure_lem : (a : ℕ) (k : Kernel) {r : ℕ} {k1 : Kernel} → pure a k ≡ ok r k1 → (r ≡ a) × (k1 ≡ k)
pure_lem a k h = (cc, cc)

set_up_lem :
    (tid : ℕ) (c : Thread) (k : Kernel) {t : Thread}
    → get_elem? k.thread_table tid ≡ some t
    → get_elem? (set k.thread_table tid c) tid ≡ some c
set_up_lem tid c k e = ground (arith, e, get_elem?-set k.thread_table tid tid c)

-- The stores of `finish_fork` put together.
finish_result :
    (tid pid : ℕ) (c : Thread) (p : Option Process) {w : Words} (k kj kl : Kernel) {km : Kernel}
    → get_elem? (set k.thread_table tid c) tid ≡ some c
    → kj ≡ record k { words = w; thread_table = set k.thread_table tid c }
    → kl ≡ record kj { process_table = set kj.process_table pid p }
    → (get_elem? kl.thread_table tid ≡ some c
        → km ≡ record kl { thread_table = set kl.thread_table tid (record c { state = runnable }) })
    → km ≡ record k {
      process_table = set k.process_table pid p;
      thread_table = set (set k.thread_table tid c) tid (record c { state = runnable });
      words = w;
    }
finish_result tid pid c p k kj kl here set_up stored marked =
    let e : get_elem? kl.thread_table tid ≡ some c = ground arith in ground (arith, marked e)

unfoldable pub new_of : ℕ → ℕ → Process
new_of pid tid = record new_process {
  pid = pid;
  state = ProcessState.alive;
  threads = some tid ∷ replicate 7 none;
  nthread = 1;
}

pub finish_fork-Finished :
    (kstack pid tid page_table : ℕ) (parent : Process) (k : Kernel) {r : ℕ} {k1 : Kernel}
    → get_elem? k.thread_table tid ≡ some (first_thread_of k.layout kstack tid pid)
    → finish_fork parent (new_of pid tid) page_table k ≡ ok r k1
    → (r ≡ pid) × Finished kstack pid tid page_table parent k k1
unfolding finish_fork new_of child_of mark_threads_as_runnable
finish_fork-Finished kstack pid tid page_table parent k {r} {k1} e h =
    >>=-elim (expect k.cpu.current_tid expect_failed) _ k h λ caller kf hf h.
      >>=-elim (thread_at caller) _ kf h λ caller_thread kg hg h.
        >>=-elim (expect caller_thread.tf expect_failed) _ kg h λ tf kh hh h.
          >>=-elim (set_child_thread tid (read_trap_frame k.words tf) k.cpu.saved_user_rsp) _ kh h
            λ _ kj hj h.
              >>=-elim (set_process pid (some (child_of parent pid tid page_table))) _ kj h
                λ _ kl hl h.
                  >>=-elim (mark_threads_as_runnable (child_of parent pid tid page_table)) _ kl h
                    λ _ km hm h.
                      let (caller_is, f_k) = expect_lem k.cpu.current_tid expect_failed k hf in
                      let (thread_is, g_f) = thread_at_lem caller kf hg in
                      let (tf_is, h_g) = expect_lem caller_thread.tf expect_failed kg hh in
                      let back : kh ≡ k = h_g ∙ (g_f ∙ f_k) in
                      let (c, shape, set_up) =
                        set_child_thread_lem tid pid kstack (read_trap_frame k.words tf)
                          k.cpu.saved_user_rsp k e (rw back at hj) in
                      let stored =
                        set_process_lem pid (some (child_of parent pid tid page_table)) kj hl in
                      let (same, done) = pure_lem pid km h in
                      (
                        same,
                        record {
                          caller = caller;
                          caller_is = caller_is;
                          caller_thread = caller_thread;
                          caller_thread_is = rw f_k at thread_is;
                          tf = tf;
                          tf_is = tf_is;
                          marked = c;
                          marked_is = shape;
                          result =
                              done
                              ∙ finish_result tid pid c (some (child_of parent pid tid page_table))
                                  k kj kl (set_up_lem tid c k e) set_up stored
                                  (λ here. mark_all-single tid c kl here hm);
                        },
                      )
