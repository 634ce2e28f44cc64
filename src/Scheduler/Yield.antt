-- ===== src/Scheduler/Yield.antt =====
-- kernel/src/scheduler/round_robin.rs: giving up the CPU and getting it back.
use ferri_os.Base.{
  ℕ, ◌≡◌, sym, ap, ◌∙◌, true, false, not, some, arith, ok, get_elem?, length, get_elem?-set,
  length-set, ◌≢◌, set, inl, inr, Option-cases, ◌<◌, panic,
}
use ferri_os.Base.Panic.{thread_is_not_running}
use ferri_os.Thread.{
  Thread, ThreadState, running, runnable, is_running, save_regs, load_regs, nthread, pushed, Regs,
  interrupt_flag, interrupt_flag-with_interrupt_flag,
}
use ferri_os.Kernel.{Kernel}
use ferri_os.Scheduler.{runnable_at, schedule, on_yield, on_syscall_yield}
use ferri_os.Scheduler.Select.{find_next_runnable_thread-first}
use ferri_os.Scheduler.Round.{Round, Round-thread, schedule-Round, get_elem?-switched}

-- What `on_yield` has done when it switches to the scheduler.
pub record Yielded (k : Kernel) (tid : ℕ) (k1 : Kernel) : Type 0 where
  pub thread : Thread
  pub found : get_elem? k.thread_table tid ≡ some thread
  pub was_running : thread.state ≡ running
  pub after :
      get_elem? k1.thread_table tid
      ≡ some (record thread {
        state = runnable;
        context = save_regs (pushed false k.regs) thread.context;
      })
  pub others : (u : ℕ) → u ≢ tid → get_elem? k1.thread_table u ≡ get_elem? k.thread_table u
  pub size : length k1.thread_table ≡ length k.thread_table
  pub current : k1.cpu.current_tid ≡ k.cpu.current_tid
  pub regs : k1.regs ≡ load_regs k.cpu.scheduler
  pub interrupts : k1.interrupts ≡ interrupt_flag k.cpu.scheduler.rflags

pub on_yield-Yielded :
    (k : Kernel) {tid : ℕ} {k1 : Kernel}
    → k.cpu.current_tid ≡ some tid
    → on_yield k ≡ ok true k1
    → Yielded k tid k1
unfolding on_yield
on_yield-Yielded k {tid} {k1} c h = elim (Option-cases (get_elem? k.thread_table tid)) [
  | inl missing ↦ absurd (ground (arith, missing))
  | inr (t, here) ↦
      let t1 : Thread = record t { state = runnable } in
      let t2 : Thread = record t1 { context = save_regs (pushed false k.regs) t.context } in
      record {
        thread = t;
        found = here;
        was_running = ground (arith, here);
        after = ground (
          arith,
          here,
          get_elem?-set k.thread_table tid tid t1,
          get_elem?-set (set k.thread_table tid t1) tid tid t2,
        );
        others = λ u ne. ground (
          arith,
          here,
          get_elem?-set k.thread_table tid tid t1,
          get_elem?-set k.thread_table tid u t1,
          get_elem?-set (set k.thread_table tid t1) tid u t2,
        );
        size = ground (
          arith,
          here,
          get_elem?-set k.thread_table tid tid t1,
          length-set k.thread_table tid t1,
          length-set (set k.thread_table tid t1) tid t2,
        );
        current = ground (arith, here, get_elem?-set k.thread_table tid tid t1);
        regs = ground (arith, here, get_elem?-set k.thread_table tid tid t1);
        interrupts = ground (arith, here, get_elem?-set k.thread_table tid tid t1);
      }
]

-- What `on_syscall_yield` has done: the thread keeps its state, and its user stack pointer is saved.
pub record SyscallYielded (k : Kernel) (tid : ℕ) (k1 : Kernel) : Type 0 where
  pub thread : Thread
  pub found : get_elem? k.thread_table tid ≡ some thread
  pub after :
      get_elem? k1.thread_table tid
      ≡ some (record thread {
        context =
            save_regs (pushed false k.regs) (record thread.context { rsp3 = k.cpu.saved_user_rsp });
      })
  pub others : (u : ℕ) → u ≢ tid → get_elem? k1.thread_table u ≡ get_elem? k.thread_table u
  pub size : length k1.thread_table ≡ length k.thread_table
  pub current : k1.cpu.current_tid ≡ k.cpu.current_tid
  pub regs : k1.regs ≡ load_regs k.cpu.scheduler
  pub interrupts : k1.interrupts ≡ interrupt_flag k.cpu.scheduler.rflags
  pub gs : k1.swapped_gs ≡ not k.swapped_gs
  pub rest : k1 ≡ record k {
    thread_table = k1.thread_table;
    cr3 = k1.cr3;
    regs = load_regs k.cpu.scheduler;
    interrupts = interrupt_flag k.cpu.scheduler.rflags;
    swapped_gs = not k.swapped_gs;
  }

pub on_syscall_yield-SyscallYielded :
    (k : Kernel) {tid : ℕ} {k1 : Kernel}
    → k.cpu.current_tid ≡ some tid
    → on_syscall_yield k ≡ ok true k1
    → SyscallYielded k tid k1
unfolding on_syscall_yield
on_syscall_yield-SyscallYielded k {tid} {k1} c h =
    elim (Option-cases (get_elem? k.thread_table tid)) [
      | inl missing ↦ absurd (ground (arith, missing))
      | inr (t, here) ↦
          let t1 : Thread = record t {
            context = record t.context { rsp3 = k.cpu.saved_user_rsp };
          } in
          let t2 : Thread = record t1 { context = save_regs (pushed false k.regs) t1.context } in
          record {
            thread = t;
            found = here;
            after = ground (
              arith,
              here,
              get_elem?-set k.thread_table tid tid t1,
              get_elem?-set (set k.thread_table tid t1) tid tid t2,
            );
            others = λ u ne. ground (
              arith,
              here,
              get_elem?-set k.thread_table tid tid t1,
              get_elem?-set k.thread_table tid u t1,
              get_elem?-set (set k.thread_table tid t1) tid u t2,
            );
            size = ground (
              arith,
              here,
              get_elem?-set k.thread_table tid tid t1,
              length-set k.thread_table tid t1,
              length-set (set k.thread_table tid t1) tid t2,
            );
            current = ground (arith, here, get_elem?-set k.thread_table tid tid t1);
            regs = ground (arith, here, get_elem?-set k.thread_table tid tid t1);
            interrupts = ground (arith, here, get_elem?-set k.thread_table tid tid t1);
            gs = ground (arith, here, get_elem?-set k.thread_table tid tid t1);
            rest = ground (arith, here, get_elem?-set k.thread_table tid tid t1);
          }
    ]

-- A round loads the interrupt flag with the other registers.
loaded-interrupts :
    {k k1 : Kernel} {tid : ℕ} (regs : Regs)
    → Round k tid k1
    → k1.regs ≡ pushed false regs
    → k1.interrupts ≡ false
loaded-interrupts regs r e =
    let loaded = ap (λ k. k.regs) r.result in
    ap (λ k. k.interrupts) r.result
    ∙ ap (λ (r : Regs). interrupt_flag r.rflags) (sym loaded ∙ e)
    ∙ interrupt_flag-with_interrupt_flag false regs.rflags

-- A thread that yields, and is chosen by a later round when only its state has changed since, goes on
-- with the registers that it had when it yielded, and with interrupts off as they were at the switch; in
-- between the scheduler's own registers are loaded, its interrupt flag too.
pub on_yield-schedule :
    (k k1 k2 k3 : Kernel) {tid : ℕ} {w : Thread} {s : ThreadState}
    → k.cpu.current_tid ≡ some tid
    → on_yield k ≡ ok true k1
    → get_elem? k1.thread_table tid ≡ some w
    → get_elem? k2.thread_table tid ≡ some (record w { state = s })
    → schedule k2 ≡ ok (some tid) k3
    → (k1.regs ≡ load_regs k.cpu.scheduler)
      × (k1.interrupts ≡ interrupt_flag k.cpu.scheduler.rflags)
      × (k3.regs ≡ pushed false k.regs)
      × (k3.interrupts ≡ false)
on_yield-schedule k k1 k2 k3 {tid} {w} c y left same h =
    let a = on_yield-Yielded k c y in
    let r = schedule-Round k2 h in
    let e = Round-thread same r in
    let back : k3.regs ≡ pushed false k.regs = ground (arith, r.result, e, a.after, left) in
    (a.regs, a.interrupts, back, loaded-interrupts k.regs r back)

-- A thread that yields inside a system call, and is chosen by a later round when only its state has
-- changed since, goes on with the registers and the user stack pointer that it had when it yielded, and
-- with interrupts off as they were at the switch; the yield toggles the GS base and loads the
-- scheduler's own registers, its interrupt flag too.
pub on_syscall_yield-schedule :
    (k k1 k2 k3 : Kernel) {tid : ℕ} {w : Thread} {s : ThreadState}
    → k.cpu.current_tid ≡ some tid
    → on_syscall_yield k ≡ ok true k1
    → get_elem? k1.thread_table tid ≡ some w
    → get_elem? k2.thread_table tid ≡ some (record w { state = s })
    → schedule k2 ≡ ok (some tid) k3
    → (k1.swapped_gs ≡ not k.swapped_gs)
      × (k1.regs ≡ load_regs k.cpu.scheduler)
      × (k1.interrupts ≡ interrupt_flag k.cpu.scheduler.rflags)
      × (k3.regs ≡ pushed false k.regs)
      × (k3.interrupts ≡ false)
      × (k3.cpu.saved_user_rsp ≡ k.cpu.saved_user_rsp)
on_syscall_yield-schedule k k1 k2 k3 {tid} {w} c y left same h =
    let a = on_syscall_yield-SyscallYielded k c y in
    let r = schedule-Round k2 h in
    let e = Round-thread same r in
    let back : k3.regs ≡ pushed false k.regs = ground (arith, r.result, e, a.after, left) in
    (
      a.gs,
      a.regs,
      a.interrupts,
      back,
      loaded-interrupts k.regs r back,
      ground (arith, r.result, e, a.after, left),
    )

on_yield-not_running :
    (k : Kernel) {tid : ℕ} {t : Thread}
    → k.cpu.current_tid ≡ some tid
    → get_elem? k.thread_table tid ≡ some t
    → is_running t.state ≡ false
    → on_yield k ≡ panic thread_is_not_running
unfolding on_yield
on_yield-not_running k c e n = ground arith

-- If the current thread is the only one that can run, the round that chooses it again leaves it
-- `Runnable` while it runs, and its next `on_yield` panics.
pub schedule-same_thread :
    (k k1 k2 : Kernel) {tid : ℕ} {t : Thread}
    → k.cpu.current_tid ≡ some tid
    → tid < nthread
    → get_elem? k.thread_table tid ≡ some t
    → t.state ≡ runnable
    → ((u : ℕ) → u < nthread → runnable_at k.thread_table u ≡ true → u ≡ tid)
    → {next : ℕ} → schedule k ≡ ok (some next) k1
    → k2.cpu.current_tid ≡ k1.cpu.current_tid
    → get_elem? k2.thread_table tid ≡ get_elem? k1.thread_table tid
    → (next ≡ tid) × (on_yield k2 ≡ panic thread_is_not_running)
schedule-same_thread k k1 k2 {tid} {t} c lt e st only {next} s still same =
    let r = schedule-Round k s in
    let (below, run, _) =
      find_next_runnable_thread-first k.thread_table k.cpu.current_tid (rw c lt) r.chosen in
    let chosen : next ≡ tid = only next below run in
    let after : get_elem? k1.thread_table tid ≡ some t = ground (
      arith,
      r.result,
      get_elem?-switched k.thread_table k.cpu.current_tid next {t = t} (rw chosen e) tid e,
    ) in
    (chosen, on_yield-not_running k2 (ground (arith, r.result)) (same ∙ after) (rw st))
