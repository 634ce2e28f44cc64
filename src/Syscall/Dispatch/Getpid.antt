-- ===== src/Syscall/Dispatch/Getpid.antt =====
-- kernel/src/syscall/ksyscall.rs: the dispatcher on `getpid`, in a process that runs.
use ferri_os.Base.{
  ℕ, ◌≡◌, ap, ◌∙◌, false, some, arith, get_elem?, set, get_elem?-set, ok, err, panic, Ret, Act,
  >>=-ok, pure, expect, ok_or, when, if◌then◌else◌,
}
use ferri_os.Base.Error.{no_process}
use ferri_os.Base.Panic.{expect_failed, index_out_of_bounds}
use ferri_os.Heap.{ℤ}
use ferri_os.Process
use ferri_os.Process.{Process}
use ferri_os.Thread.{Thread}
use ferri_os.Kernel.{
  Kernel, current_process, current_pid, current_thread, thread_at, process_at, set_thread,
}
use ferri_os.Processes.Syscalls.{getpid}
use ferri_os.Syscall.{
  as_i64, ret_error, sys_exit, set_trapframe, sys_getpid, exit_if_current_process_killed,
}
use ferri_os.Syscall.Numbers
use ferri_os.Syscall.Dispatch.{
  Environment, Outcome, returns, syscall_dispatch, unless_killed, leave, call,
}

-- A thread of process `pid` runs, and the process has not been killed.
pub record Runs (k : Kernel) (tid : ℕ) (t : Thread) (pid : ℕ) (q : Process) : Type 0 where
  pub tid_is : k.cpu.current_tid ≡ some tid
  pub thread_is : get_elem? k.thread_table tid ≡ some t
  pub pid_is : t.pid ≡ some pid
  pub process_is : get_elem? k.process_table pid ≡ some (some q)
  pub alive : q.killed ≡ false

-- The state in which the current thread has its trap frame.
abbrev pub framed : ℕ → ℕ → Thread → Kernel → Kernel
framed tf tid t k = record k { thread_table = set k.thread_table tid (record t { tf = some tf }) }

module _ {k : Kernel} {tid : ℕ} {t : Thread} {pid : ℕ} {q : Process} where
  Runs-current_pid : Runs k tid t pid q → current_pid k ≡ ok (some pid) k
  unfolding current_pid current_thread thread_at
  Runs-current_pid r = ground (arith, r.tid_is, r.thread_is, r.pid_is)

  Runs-current_process : Runs k tid t pid q → current_process k ≡ ok (some q) k
  unfolding current_process process_at
  Runs-current_process r = ground (arith, Runs-current_pid r, r.process_is)

  Runs-unless_killed :
      (env : Environment) (rest : Act Kernel Outcome)
      → Runs k tid t pid q
      → unless_killed env rest k ≡ rest k
  unfolding unless_killed exit_if_current_process_killed
  Runs-unless_killed env rest r =
      >>=-ok current_process _ k e
      ∙ >>=-ok exit_if_current_process_killed _ k checked
      ∙ (λ i. (if r.alive i then pure Outcome.gone else rest) k)
    where
      e : current_process k ≡ ok (some q) k
      e = Runs-current_process r

      checked : exit_if_current_process_killed k ≡ ok tt k
      checked = >>=-ok current_process _ k e ∙ λ i. when (r.alive i) (sys_exit Process.ret_error) k

  Runs-set_trapframe :
      (tf : ℕ) → Runs k tid t pid q → set_trapframe tf k ≡ ok tt (framed tf tid t k)
  unfolding set_trapframe thread_at set_thread
  Runs-set_trapframe tf r =
      >>=-ok (expect k.cpu.current_tid expect_failed) _ k
        (ap (λ o. expect o expect_failed k) r.tid_is)
      ∙ >>=-ok (thread_at tid) _ k (ap (λ o. expect o index_out_of_bounds k) r.thread_is)
      ∙ stored
    where
      stored : set_thread tid (record t { tf = some tf }) k ≡ ok tt (framed tf tid t k)
      stored = ground (arith, r.thread_is)

  Runs-framed :
      (tf : ℕ) → Runs k tid t pid q → Runs (framed tf tid t k) tid (record t { tf = some tf }) pid q
  Runs-framed tf r = record {
    tid_is = r.tid_is;
    thread_is =
        ground
          (arith, r.thread_is, get_elem?-set k.thread_table tid tid (record t { tf = some tf }));
    pid_is = r.pid_is;
    process_is = r.process_is;
    alive = r.alive;
  }

  Runs-sys_getpid : Runs k tid t pid q → sys_getpid k ≡ ok (as_i64 pid) k
  unfolding sys_getpid getpid
  Runs-sys_getpid r =
      λ i. or_error_of (>>=-ok current_pid (λ pid. ok_or pid no_process) k (Runs-current_pid r) i)
    where
      or_error_of : Ret Kernel ℕ → Ret Kernel ℤ
      or_error_of r = elim r [
        | ok a t ↦ ok (as_i64 a) t
        | err e t ↦ ok ret_error t
        | panic p ↦ panic p
      ]

-- The dispatcher on `getpid`.
pub syscall_dispatch-getpid :
    (env : Environment) (arg1 arg2 tf : ℕ) {k : Kernel} {tid : ℕ} {t : Thread} {pid : ℕ}
    {q : Process}
    → Runs k tid t pid q
    → syscall_dispatch env Numbers.sys_getpid arg1 arg2 tf k
      ≡ ok (returns (as_i64 pid)) (framed tf tid t k)
unfolding syscall_dispatch call leave
syscall_dispatch-getpid env arg1 arg2 tf {k} {tid} {t} {pid} r =
    let e = Runs-set_trapframe tf r in
    let f = Runs-framed tf r in
    Runs-unless_killed env _ r
    ∙ >>=-ok (set_trapframe tf) _ k e
    ∙ >>=-ok (call env Numbers.sys_getpid arg1 arg2) (leave env) (framed tf tid t k)
        (>>=-ok sys_getpid _ (framed tf tid t k) (Runs-sys_getpid f))
    ∙ Runs-unless_killed env (pure (returns (as_i64 pid))) f
