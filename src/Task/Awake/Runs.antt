-- ===== src/Task/Awake/Runs.antt =====
-- kernel/src/task: the invariant in all states that the executor's thread and the interrupts reach,
-- and what it says of a processor that sleeps.
use ferri_os.Base.{
  ℕ, ◌≡◌, refl, sym, ap, suc, ◌∙◌, >>=-elim, inl, inr, Bool, true, false, none, some, List, [], ◌∷◌,
  ok, arith, Option-cases, Bool-cases, ◌++◌,
}
use mathlib.Core.Path.{subst}
use ferri_os.Task.Interface.{ArrayQueue, AtomicWaker}
use ferri_os.Task.Machine.{
  Source, keyboard, serial, Pc, Port, System, port, set_port, find_task, step, start, spawn,
  new_system, interrupt, woken, Reached, started, stepped, interrupted, ticked, other_interrupt,
  task_max,
}
use ferri_os.Task.Machine.Pc.{
  ready, polled, first_pop, registers, second_pop, takes, disables, tests, halts, enables, asleep,
}
use ferri_os.Task.Awake.{owner, Phase, phase, IsProper, IsGood, IsWaiting, IsQuiet, Inv}
use ferri_os.Task.Awake.Handler.{add-Added}
use ferri_os.Task.Awake.Steps.{
  IsGood-at, IsProper-at, IsQuiet-at, polls-IsGood, ready-Inv, polled-Inv, first_pop-Inv,
  second_pop-Inv,
}

module _ (lib : ArrayQueue) (cell : AtomicWaker) where
  open lib use {Queue, items, push, push-some, is_empty, is_empty_lem, items-new, new}
  open cell use {stored, register, stored-register, take}

  -- A step that sets the place, the interrupt flag and one port.
  goes-Inv :
      (pc : Pc) (on : Bool) (c d : System lib cell)
      → d ≡ record c { pc = pc; interrupts = on }
      → ((u : Source) → IsGood lib cell (phase pc u) (items c.task_queue) (port lib cell u c) u)
      → IsProper pc
      → IsQuiet lib cell pc on (items c.task_queue)
      → Inv lib cell c
      → Inv lib cell d
  goes-Inv pc on c d r good proper quiet inv =
      rw r record {
        good = good;
        proper = proper;
        owners = inv.owners;
        owned = inv.owned;
        quiet = quiet;
      }

  port-Inv :
      (pc : Pc) (s : Source) (p : Port lib cell) (c d : System lib cell)
      → d ≡ record (set_port lib cell s p c) { pc = pc }
      → ((u : Source)
          → IsGood lib cell
              (phase pc u)
              (items c.task_queue)
              (port lib cell u (set_port lib cell s p c))
              u)
      → IsProper pc
      → IsQuiet lib cell pc c.interrupts (items c.task_queue)
      → Inv lib cell c
      → Inv lib cell d
  port-Inv pc s p c d r good proper quiet inv =
      rw r record {
        good = good;
        proper = proper;
        owners = inv.owners;
        owned = inv.owned;
        quiet = quiet;
      }

  step_at-Inv :
      (pc : Pc) (c d : System lib cell)
      → c.pc ≡ pc
      → Inv lib cell c
      → step lib cell c ≡ ok tt d
      → Inv lib cell d
  unfolding step
  step_at-Inv ready c d at inv h =
      ready-Inv lib cell c d at (IsGood-at lib cell ready c at inv) inv (ground (arith, at, h))
  step_at-Inv (polled id s) c d at inv h =
      polled-Inv lib cell c d id s at inv (ground (arith, at, h))
  step_at-Inv (first_pop id s) c d at inv h =
      first_pop-Inv lib cell c d id s at inv (ground (arith, at, h))
  step_at-Inv (registers id s) c d at inv h =
      let p = record (port lib cell s c) { waker = register id (port lib cell s c).waker } in
      let own = IsProper-at lib cell (registers id s) c at inv in
      port-Inv (second_pop id s) s p c d (ground (arith, at, h))
        (polls-IsGood lib cell s Phase.busy Phase.last_look (items c.task_queue) p c
          (IsGood-at lib cell (registers id s) c at inv)
          (inr (stored-register id (port lib cell s c).waker ∙ ap some own)))
        own tt inv
  step_at-Inv (second_pop id s) c d at inv h =
      second_pop-Inv lib cell c d id s at inv (ground (arith, at, h))
  step_at-Inv (takes id s) c d at inv h =
      let p = record (port lib cell s c) { waker = (take (port lib cell s c).waker).1 } in
      port-Inv (first_pop id s) s p c d (ground (arith, at, h))
        (polls-IsGood lib cell s Phase.busy Phase.busy (items c.task_queue) p c
          (IsGood-at lib cell (takes id s) c at inv) tt)
        (IsProper-at lib cell (takes id s) c at inv) tt inv
  step_at-Inv disables c d at inv h =
      goes-Inv tests false c d (ground (arith, at, h)) (IsGood-at lib cell disables c at inv) tt
        refl inv
  step_at-Inv tests c d at inv h =
      let off = IsQuiet-at lib cell tests c at inv in
      elim (Bool-cases (is_empty c.task_queue)) [
        | inl e ↦
            goes-Inv halts c.interrupts c d (ground (arith, at, e, h))
              (IsGood-at lib cell tests c at inv) tt (off, is_empty_lem c.task_queue e) inv
        | inr e ↦
            goes-Inv enables c.interrupts c d (ground (arith, at, e, h))
              (IsGood-at lib cell tests c at inv) tt off inv
      ]
  step_at-Inv halts c d at inv h =
      goes-Inv asleep true c d (ground (arith, at, h)) (IsGood-at lib cell halts c at inv) tt
        (IsQuiet-at lib cell halts c at inv).1 inv
  step_at-Inv enables c d at inv h =
      goes-Inv ready true c d (ground (arith, at, h)) (IsGood-at lib cell enables c at inv) tt tt
        inv
  step_at-Inv asleep c d at inv h = let r : d ≡ c = ground (arith, at, h) in rw r inv

  -- An interrupt where the interrupts are on.
  woken-IsQuiet :
      (pc : Pc) (is js : List ℕ) (new on : Bool)
      → new ≡ on
      → on ≡ true
      → IsQuiet lib cell pc on is
      → IsQuiet lib cell (woken pc) new js
  woken-IsQuiet ready is js new on f e q = tt
  woken-IsQuiet (polled id s) is js new on f e q = tt
  woken-IsQuiet (first_pop id s) is js new on f e q = tt
  woken-IsQuiet (registers id s) is js new on f e q = tt
  woken-IsQuiet (second_pop id s) is js new on f e q = tt
  woken-IsQuiet (takes id s) is js new on f e q = tt
  woken-IsQuiet disables is js new on f e q = tt
  woken-IsQuiet tests is js new on f e q = absurd cc
  woken-IsQuiet halts is js new on f e (q, _) = absurd cc
  woken-IsQuiet enables is js new on f e q = absurd cc
  woken-IsQuiet asleep is js new on f e q = tt

  phase-woken : (pc : Pc) (u : Source) → phase (woken pc) u ≡ phase pc u
  phase-woken ready u = refl
  phase-woken (polled id s) u = refl
  phase-woken (first_pop id s) u = refl
  phase-woken (registers id s) u = refl
  phase-woken (second_pop id s) u = refl
  phase-woken (takes id s) u = refl
  phase-woken disables u = refl
  phase-woken tests u = refl
  phase-woken halts u = refl
  phase-woken enables u = refl
  phase-woken asleep u = refl

  woken-IsProper : (pc : Pc) → IsProper pc → IsProper (woken pc)
  woken-IsProper ready p = tt
  woken-IsProper (polled id s) p = p
  woken-IsProper (first_pop id s) p = p
  woken-IsProper (registers id s) p = p
  woken-IsProper (second_pop id s) p = p
  woken-IsProper (takes id s) p = p
  woken-IsProper disables p = tt
  woken-IsProper tests p = tt
  woken-IsProper halts p = tt
  woken-IsProper enables p = tt
  woken-IsProper asleep p = tt

  interrupt-Inv :
      (s : Source) (byte : ℕ) (c d : System lib cell)
      → c.interrupts ≡ true
      → Inv lib cell c
      → interrupt lib cell s byte c ≡ ok tt d
      → Inv lib cell d
  unfolding interrupt
  interrupt-Inv s byte c d on inv h =
      let a = add-Added lib cell s byte (record c { pc = woken c.pc }) h in
      let pc : d.pc ≡ woken c.pc = a.pc in
      record {
        good = λ u. a.good (phase d.pc u) u (
            subst (λ f. IsGood lib cell f (items c.task_queue) (port lib cell u c) u)
              (sym (ap (λ pc. phase pc u) pc ∙ phase-woken c.pc u)) (inv.good u));
        proper = subst IsProper (sym pc) (woken-IsProper c.pc inv.proper);
        owners = rw a.tasks inv.owners;
        owned = rw a.tasks inv.owned;
        quiet =
            subst (λ pc. IsQuiet lib cell pc d.interrupts (items d.task_queue)) (sym pc)
              (woken-IsQuiet c.pc (items c.task_queue) (items d.task_queue) d.interrupts
                c.interrupts a.interrupts on inv.quiet);
      }

  other_interrupt-Inv :
      (c d : System lib cell)
      → c.interrupts ≡ true
      → Inv lib cell c
      → other_interrupt lib cell c ≡ ok tt d
      → Inv lib cell d
  unfolding other_interrupt
  other_interrupt-Inv c d on inv h =
      goes-Inv (woken c.pc) c.interrupts c d (ground (arith, h))
        (λ u.
          subst (λ f. IsGood lib cell f (items c.task_queue) (port lib cell u c) u)
            (sym (phase-woken c.pc u)) (inv.good u))
        (woken-IsProper c.pc inv.proper)
        (woken-IsQuiet c.pc (items c.task_queue) (items c.task_queue) c.interrupts c.interrupts refl
          on inv.quiet)
        inv

  spawn_lem :
      (s : Source) (c d : System lib cell)
      → spawn lib cell s c ≡ ok tt d
      → (q : Queue) × (items q ≡ items c.task_queue ++ (c.next_id ∷ []))
        × (find_task c.tasks c.next_id ≡ none)
        × (d ≡ record c {
          tasks = (c.next_id, s) ∷ c.tasks;
          task_queue = q;
          next_id = suc c.next_id;
        })
  unfolding spawn
  spawn_lem s c d h = elim (Option-cases (find_task c.tasks c.next_id)) [
    | inr (t, e) ↦ absurd (ground (arith, e, h))
    | inl e ↦ elim (Option-cases (push c.task_queue c.next_id)) [
      | inl f ↦ absurd (ground (arith, e, f, h))
      | inr (q, f) ↦ (q, push-some c.task_queue q c.next_id f, e, ground (arith, e, f, h))
    ]
  ]

  started-IsGood :
      (q : Queue)
      → items q ≡ 0 ∷ 1 ∷ []
      → (u : Source)
      → IsGood lib cell Phase.away (items q) (port lib cell u (new_system lib cell)) u
  started-IsGood q is keyboard = inl (rw is refl)
  started-IsGood q is serial = inl (rw is refl)

  started_owners :
      (id : ℕ) (s : Source)
      → find_task ((1, serial) ∷ (0, keyboard) ∷ []) id ≡ some s
      → id ≡ owner s
  started_owners id keyboard h = ground (arith, h)
  started_owners id serial h = ground (arith, h)

  started_owned : (s : Source) → find_task ((1, serial) ∷ (0, keyboard) ∷ []) (owner s) ≡ some s
  started_owned keyboard = refl
  started_owned serial = refl

  start-Inv : (d : System lib cell) → start lib cell ≡ ok tt d → Inv lib cell d
  unfolding start
  start-Inv d h = >>=-elim (spawn lib cell keyboard) _ (new_system lib cell) h λ _ c first second.
      let (q, is, _, r) = spawn_lem keyboard (new_system lib cell) c first in
      let (q2, is2, _, r2) = spawn_lem serial c d second in
      let two : items q2 ≡ 0 ∷ 1 ∷ [] =
        is2 ∙ (λ i. items (r i).task_queue ++ ((r i).next_id ∷ [])) ∙ (λ i. is i ++ (1 ∷ [])) ∙ λ i.
        (items-new task_max i ++ (0 ∷ [])) ++ (1 ∷ []) in
      let done : d ≡ record (new_system lib cell) {
        tasks = (1, serial) ∷ (0, keyboard) ∷ [];
        task_queue = q2;
        next_id = 2;
      } =
        r2 ∙ λ i. record (r i) {
          tasks = ((r i).next_id, serial) ∷ (r i).tasks;
          task_queue = q2;
          next_id = suc (r i).next_id;
        } in
      rw done record {
        good = started-IsGood q2 two;
        proper = tt;
        owners = started_owners;
        owned = started_owned;
        quiet = tt;
      }

  pub Reached-Inv : (c : System lib cell) → Reached lib cell c → Inv lib cell c
  Reached-Inv c (started h) = start-Inv c h
  Reached-Inv d (stepped {c = c} r h) = step_at-Inv c.pc c d refl (Reached-Inv c r) h
  Reached-Inv d (interrupted s byte {c = c} r on h) =
      interrupt-Inv s byte c d on (Reached-Inv c r) h
  Reached-Inv d (ticked {c = c} r on h) = other_interrupt-Inv c d on (Reached-Inv c r) h

  -- While the processor sleeps in the executor's `hlt`, no task is ready, no byte of either source
  -- waits, and the waker of each source's task is in place for its next byte. This holds in every state
  -- that the executor's thread reaches, wherever interrupts come between its steps while they are on.
  pub asleep-IsWaiting :
      (c : System lib cell)
      → Reached lib cell c
      → c.pc ≡ asleep
      → (items c.task_queue ≡ []) × ((s : Source) → IsWaiting lib cell (port lib cell s c) s)
  asleep-IsWaiting c r at =
      let inv = Reached-Inv c r in
      let none_ready = IsQuiet-at lib cell asleep c at inv in
      (
        none_ready,
        λ s. elim (IsGood-at lib cell asleep c at inv s) [
          | inl queued ↦ let h = rw none_ready at queued in absurd cc
          | inr w ↦ w
        ],
      )
