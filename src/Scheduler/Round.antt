-- ===== src/Scheduler/Round.antt =====
-- kernel/src/scheduler/round_robin.rs: what one round of the scheduler's loop does.
use ferri_os.Base.{
  ℕ, ◌-◌, ◌≤◌, ◌≡◌, ap, ◌∙◌, inl, inr, Option, none, some, List, arith, Option-cases, ok, get_elem?,
  set, length, length-set, get_elem?-set, if◌then◌else◌, is_some_eq, ◌==◌, ◌&&◌, >>=-elim,
}
use ferri_os.Thread.{
  Thread, ThreadState, running, runnable, is_running, load_regs, save_regs, pushed, interrupt_flag,
}
use ferri_os.Thread.TrapFrame.{trap_frame_size}
use ferri_os.Kernel.{Kernel, thread_at}
use ferri_os.Scheduler.{
  find_next_runnable_thread, set_running, dispatch, schedule, select_page_table, set_stacks,
}

-- The thread that ran goes back to `Runnable` if it was `Running`.
abbrev release : List Thread → Option ℕ → List Thread
release table none = table
release table (some cur) = elim (get_elem? table cur) [
  | none ↦ table
  | some c ↦ if is_running c.state then set table cur (record c { state = runnable }) else table
]

-- The thread table after a round that chooses `next` beside the current thread.
abbrev pub switched : List Thread → Option ℕ → ℕ → List Thread
switched table cur next = elim (get_elem? table next) [
  | none ↦ table
  | some t ↦ release (set table next (record t { state = running })) cur
]

set_running_lem :
    (next : ℕ) (k : Kernel) {k1 : Kernel}
    → set_running next k ≡ ok tt k1
    → k1 ≡ record k {
      thread_table = switched k.thread_table k.cpu.current_tid next;
      cpu = record k.cpu { current_tid = some next };
    }
unfolding set_running
set_running_lem next k h = ground arith

page_table_lem :
    (t : Thread) (k : Kernel) {k1 : Kernel}
    → select_page_table t k ≡ ok tt k1
    → k1 ≡ record k { cr3 = k1.cr3 }
unfolding select_page_table
page_table_lem t k h = ground arith

set_stacks_lem :
    (t : Thread) (k : Kernel) {k1 : Kernel}
    → set_stacks t k ≡ ok tt k1
    → (trap_frame_size ≤ t.kstack)
      × (k1 ≡ record k {
        cpu = record k.cpu { kernel_syscall_rsp = t.kstack; saved_user_rsp = t.context.rsp3 };
        privilege_stack_0 = t.kstack - trap_frame_size;
      })
unfolding set_stacks
set_stacks_lem t k h = ground arith

-- What a round has done when it switches to thread `next`.
pub record Round (k : Kernel) (next : ℕ) (k1 : Kernel) : Type 0 where
  pub thread : Thread
  pub chosen : find_next_runnable_thread k.thread_table k.cpu.current_tid ≡ some next
  pub found : get_elem? (switched k.thread_table k.cpu.current_tid next) next ≡ some thread
  pub stack : trap_frame_size ≤ thread.kstack
  pub result : k1 ≡ record k {
    thread_table = switched k.thread_table k.cpu.current_tid next;
    cpu = record k.cpu {
      current_tid = some next;
      kernel_syscall_rsp = thread.kstack;
      saved_user_rsp = thread.context.rsp3;
      scheduler = save_regs (pushed k.interrupts k.regs) k.cpu.scheduler;
    };
    cr3 = k1.cr3;
    privilege_stack_0 = thread.kstack - trap_frame_size;
    regs = load_regs thread.context;
    interrupts = interrupt_flag thread.context.rflags;
  }

dispatch-Round :
    (k : Kernel) (next : ℕ) {k1 : Kernel}
    → find_next_runnable_thread k.thread_table k.cpu.current_tid ≡ some next
    → dispatch next k ≡ ok tt k1
    → Round k next k1
unfolding dispatch
dispatch-Round k next chosen h = >>=-elim (set_running next) _ k h λ _ ka ha h.
    >>=-elim (thread_at next) _ ka h λ t kb hb h. >>=-elim (select_page_table t) _ kb h λ _ kc hc h.
      >>=-elim (set_stacks t) _ kc h λ _ kd hd h. record {
        thread = t;
        chosen = chosen;
        found = ground (arith, set_running_lem next k ha);
        stack = (set_stacks_lem t kc hd).0;
        result =
            ground
              (arith, set_running_lem next k ha, page_table_lem t kb hc, set_stacks_lem t kc hd);
      }

schedule-chosen :
    (k : Kernel) {next : ℕ} {k1 : Kernel}
    → schedule k ≡ ok (some next) k1
    → (find_next_runnable_thread k.thread_table k.cpu.current_tid ≡ some next)
      × (dispatch next k ≡ ok tt k1)
unfolding schedule
schedule-chosen k h = ground arith

pub schedule-Round :
    (k : Kernel) {next : ℕ} {k1 : Kernel} → schedule k ≡ ok (some next) k1 → Round k next k1
schedule-Round k {next} h =
    let (chosen, ran) = schedule-chosen k h in dispatch-Round k next chosen ran

-- The state of thread `u` after a round that chooses `next` beside `cur`, from its state before.
abbrev pub state_after : Option ℕ → ℕ → ℕ → ThreadState → ThreadState
state_after cur next u s =
    if u == next
    then (if is_some_eq cur next then runnable else running)
    else if is_some_eq cur u && is_running s
    then runnable
    else s

-- A round changes nothing of a thread in the table but its state.
pub get_elem?-switched :
    (table : List Thread) (cur : Option ℕ) (next : ℕ) {t : Thread}
    → get_elem? table next ≡ some t
    → (u : ℕ) {w : Thread} → get_elem? table u ≡ some w
    → get_elem? (switched table cur next) u
      ≡ some (record w { state = state_after cur next u w.state })
get_elem?-switched table none next {t} e u {w} f =
    ground (arith, get_elem?-set table next u (record t { state = running }))
get_elem?-switched table (some c) next {t} e u {w} f =
    let t' : Thread = record t { state = running } in
    elim (Option-cases (get_elem? table c)) [
      | inl missing ↦
          ground (arith, missing, get_elem?-set table next u t', get_elem?-set table next c t')
      | inr (v, here) ↦ ground (
        arith,
        here,
        get_elem?-set table next u t',
        get_elem?-set table next c t',
        get_elem?-set (set table next t') c u (record v { state = runnable }),
        get_elem?-set (set table next t') c u (record t { state = runnable }),
      )
    ]

pub length-switched :
    (table : List Thread) (cur : Option ℕ) (next : ℕ)
    → length (switched table cur next) ≡ length table
length-switched table none next = elim (Option-cases (get_elem? table next)) [
  | inl e ↦ ground (arith, e)
  | inr (t, e) ↦ ground (arith, e, length-set table next (record t { state = running }))
]
length-switched table (some c) next = elim (Option-cases (get_elem? table next)) [
  | inl e ↦ ground (arith, e)
  | inr (t, e) ↦
      let t' : Thread = record t { state = running } in
      elim (Option-cases (get_elem? (set table next t') c)) [
        | inl f ↦ ground (arith, e, f, length-set table next t')
        | inr (v, f) ↦ ground (
          arith,
          e,
          f,
          length-set table next t',
          length-set (set table next t') c (record v { state = runnable }),
        )
      ]
]

-- The thread that a round switches to is, but for its state, the one in the table before the round.
pub Round-thread :
    {k k1 : Kernel} {tid : ℕ} {t : Thread}
    → get_elem? k.thread_table tid ≡ some t
    → (r : Round k tid k1) → r.thread ≡ record t { state = r.thread.state }
Round-thread {k} {tid} {t} e r =
    ground (arith, r.found, get_elem?-switched k.thread_table k.cpu.current_tid tid e tid e)

-- A round that chooses thread `next` makes it the current one and, of every other state in the table,
-- changes only that of the thread that ran: `next` is `Running`, unless it ran already and is then
-- left `Runnable`, and the thread that ran is `Runnable` if it was `Running`. The CPU goes on with the
-- saved registers of `next`, and with interrupts on if the interrupt flag of its saved RFLAGS is set.
pub schedule-thread :
    (k : Kernel) {next : ℕ} {k1 : Kernel}
    → schedule k ≡ ok (some next) k1
    → (u : ℕ) {w : Thread} → get_elem? k.thread_table u ≡ some w
    → (k1.cpu.current_tid ≡ some next)
      × (get_elem? k1.thread_table u
          ≡ some (record w { state = state_after k.cpu.current_tid next u w.state }))
      × (k1.process_table ≡ k.process_table)
      × (t : Thread) × (get_elem? k.thread_table next ≡ some t)
      × (k1.regs ≡ load_regs t.context)
      × (k1.interrupts ≡ interrupt_flag t.context.rflags)
schedule-thread k {next} {k1} h u {w} e =
    let r = schedule-Round k h in
    let threads : k1.thread_table ≡ switched k.thread_table k.cpu.current_tid next =
      ap (λ k. k.thread_table) r.result in
    elim (Option-cases (get_elem? k.thread_table next)) [
      | inl missing ↦ absurd (ground (arith, missing, r.found))
      | inr (t, here) ↦
          let is = Round-thread here r in
          (
            ap (λ k. k.cpu.current_tid) r.result,
            ap (λ t. get_elem? t u) threads
                ∙ get_elem?-switched k.thread_table k.cpu.current_tid next here u e,
            ap (λ k. k.process_table) r.result,
            t,
            here,
            ap (λ k. k.regs) r.result ∙ ap (λ t. load_regs t.context) is,
            ap (λ k. k.interrupts) r.result ∙ ap (λ t. interrupt_flag t.context.rflags) is,
          )
    ]
