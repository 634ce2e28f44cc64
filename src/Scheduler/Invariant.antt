-- ===== src/Scheduler/Invariant.antt =====
-- kernel/src/scheduler/round_robin.rs: which threads are `Running`.
use ferri_os.Base.{
  ℕ, ◌≡◌, ◌<◌, ◌∙◌, true, some, arith, ok, get_elem?, length, inl, inr, ◌⊎◌, ◌≢◌, sym,
  get_elem?-in_bounds, get_elem?-eq-some-lt,
}
use ferri_os.Thread.{Thread, is_running, nthread}
use ferri_os.Kernel.{Kernel}
use ferri_os.Scheduler.{schedule, on_yield, on_syscall_yield, runnable_at, current_or_last}
use ferri_os.Scheduler.Select.{find_next_runnable_thread-first}
use ferri_os.Scheduler.Yield.{on_yield-Yielded, on_syscall_yield-SyscallYielded}
use native.Mathlib.Decide.{ℕ_discrete}
use ferri_os.Scheduler.Round.{Round, schedule-Round, get_elem?-switched, switched, length-switched}

-- At most one thread is `Running`, and it is the CPU's current one; the current thread is in the table.
pub record IsScheduled (k : Kernel) : Type 0 where
  pub size : length k.thread_table ≡ nthread
  pub current : current_or_last k.cpu.current_tid < nthread
  pub single :
      (u : ℕ) {t : Thread}
      → get_elem? k.thread_table u ≡ some t
      → is_running t.state ≡ true
      → k.cpu.current_tid ≡ some u

-- A round of the scheduler keeps this.
pub schedule-IsScheduled :
    (k : Kernel) {next : ℕ} {k1 : Kernel}
    → IsScheduled k
    → schedule k ≡ ok (some next) k1
    → IsScheduled k1
schedule-IsScheduled k {next} {k1} v s = record {
  size = ground (arith, r.result, length-switched k.thread_table k.cpu.current_tid next, v.size);
  current = ground (arith, r.result, found.0);
  single = λ u {t} e run.
      let (w, we) = get_elem?-in_bounds k.thread_table u (below u e) in
      let (x, xe) = get_elem?-in_bounds k.thread_table next (omega (arith, found.0, v.size)) in
      ground (
        arith,
        run,
        r.result,
        v.single u we,
        get_elem?-switched k.thread_table k.cpu.current_tid next xe u we,
      );
}
  where
    r : Round k next k1
    r = schedule-Round k s

    below : (u : ℕ) {t : Thread} → get_elem? k1.thread_table u ≡ some t → u < length k.thread_table
    below u {t} e = omega (
      arith,
      get_elem?-eq-some-lt (switched k.thread_table k.cpu.current_tid next) u {a = t}
          (ground (arith, r.result)),
      length-switched k.thread_table k.cpu.current_tid next,
    )

    found : (next < nthread) × (runnable_at k.thread_table next ≡ true)
    found =
        let f =
          find_next_runnable_thread-first k.thread_table k.cpu.current_tid v.current r.chosen in
        (f.0, f.1)

-- What `on_yield` and `on_syscall_yield` do to the other threads is all that matters here.
Yield-IsScheduled :
    {k k1 : Kernel} {tid : ℕ}
    → IsScheduled k
    → k.cpu.current_tid ≡ some tid
    → ((u : ℕ) → u ≢ tid → get_elem? k1.thread_table u ≡ get_elem? k.thread_table u)
    → length k1.thread_table ≡ length k.thread_table
    → k1.cpu.current_tid ≡ k.cpu.current_tid
    → IsScheduled k1
Yield-IsScheduled {tid} v c others size current = record {
  size = size ∙ v.size;
  current = rw current v.current;
  single = λ u e run. elim (ℕ_discrete u tid) [
    | yes same ↦ rw (current, same) c
    | no ne ↦ current ∙ v.single u (sym (others u ne) ∙ e) run
  ];
}

-- A context switch: a round of the scheduler, or a thread that gives up the CPU.
pub data Switch (k k1 : Kernel) : Type 0 where
  to_thread : (next : ℕ) → schedule k ≡ ok (some next) k1 → Switch k k1
  from_thread : on_yield k ≡ ok true k1 → Switch k k1
  from_syscall : on_syscall_yield k ≡ ok true k1 → Switch k k1

on_yield-current :
    (k : Kernel) {k1 : Kernel}
    → (on_yield k ≡ ok true k1) ⊎ (on_syscall_yield k ≡ ok true k1)
    → (tid : ℕ) × (k.cpu.current_tid ≡ some tid)
unfolding on_yield on_syscall_yield
on_yield-current k (inl h) = ground arith
on_yield-current k (inr h) = ground arith

-- Every context switch keeps the table's size, leaves the current thread in the table, and keeps every
-- thread but the current one from being `Running`.
pub Switch-IsScheduled : {k k1 : Kernel} → IsScheduled k → Switch k k1 → IsScheduled k1
Switch-IsScheduled {k} v (to_thread next s) = schedule-IsScheduled k v s
Switch-IsScheduled {k} v (from_thread h) =
    let (tid, c) = on_yield-current k (inl h) in
    let y = on_yield-Yielded k c h in Yield-IsScheduled v c y.others y.size y.current
Switch-IsScheduled {k} v (from_syscall h) =
    let (tid, c) = on_yield-current k (inr h) in
    let y = on_syscall_yield-SyscallYielded k c h in Yield-IsScheduled v c y.others y.size y.current
