-- ===== src/Task/Awake/Steps.antt =====
-- kernel/src/task: each step of the executor's thread, and each interrupt, keeps the invariant.
use ferri_os.Base.{
  ℕ, ◌≡◌, ◌≢◌, sym, ap, ◌⊎◌, inl, inr, true, none, some, List, [], ◌∷◌, if◌then◌else◌, ok, arith,
  Option-cases, Bool-cases, is_some,
}
use ferri_os.Task.Interface.{ArrayQueue, AtomicWaker}
use ferri_os.Task.Machine.{
  Source, keyboard, serial, Pc, Port, System, port, set_port, has_id, find_task, next_task,
  pop_input, enter_future, input_max,
}
use ferri_os.Task.Machine.Pc.{ready, polled, first_pop, registers, second_pop, takes, disables}
use ferri_os.Task.Awake.{owner, same, Phase, phase, IsProper, IsGood, IsQuiet, Inv, has_id-tail}

module _ (lib : ArrayQueue) (cell : AtomicWaker) where
  open lib use {Queue, items, pop, push, pop-some, pop-none, push-some, is_empty, is_empty_lem, new}
  open cell use {stored, register, stored-register}

  -- The phases when the thread is with the task of one source.
  abbrev at_source : Source → Phase → Source → Phase
  at_source s f u = if same s u then f else Phase.away

  -- A step within a poll, which changes the port of its source.
  pub polls-IsGood :
      (s : Source) (f g : Phase) (is : List ℕ) (p : Port lib cell) (c : System lib cell)
      → ((u : Source) → IsGood lib cell (at_source s f u) is (port lib cell u c) u)
      → IsGood lib cell g is p s
      → (u : Source)
      → IsGood lib cell (at_source s g u) is (port lib cell u (set_port lib cell s p c)) u
  polls-IsGood keyboard f g is p c good new keyboard = new
  polls-IsGood keyboard f g is p c good new serial = good serial
  polls-IsGood serial f g is p c good new keyboard = good keyboard
  polls-IsGood serial f g is p c good new serial = new

  -- A step within a poll that changes no port.
  turns-IsGood :
      (s : Source) (f g : Phase) (is : List ℕ) (c : System lib cell)
      → ((u : Source) → IsGood lib cell (at_source s f u) is (port lib cell u c) u)
      → (IsGood lib cell f is (port lib cell s c) s → IsGood lib cell g is (port lib cell s c) s)
      → (u : Source) → IsGood lib cell (at_source s g u) is (port lib cell u c) u
  turns-IsGood keyboard f g is c good new keyboard = new (good keyboard)
  turns-IsGood keyboard f g is c good new serial = good serial
  turns-IsGood serial f g is c good new keyboard = good keyboard
  turns-IsGood serial f g is c good new serial = new (good serial)

  -- Elsewhere than in a poll.
  leaves-IsGood :
      (s : Source) (is : List ℕ) (c : System lib cell)
      → ((u : Source) → IsGood lib cell (at_source s Phase.away u) is (port lib cell u c) u)
      → (u : Source) → IsGood lib cell Phase.away is (port lib cell u c) u
  leaves-IsGood keyboard is c good keyboard = good keyboard
  leaves-IsGood keyboard is c good serial = good serial
  leaves-IsGood serial is c good keyboard = good keyboard
  leaves-IsGood serial is c good serial = good serial

  -- Tasks that stay queued when another is taken.
  tail-IsGood :
      (id : ℕ) (is : List ℕ) (p : Port lib cell) (u : Source)
      → id ≢ owner u
      → IsGood lib cell Phase.away (id ∷ is) p u
      → IsGood lib cell Phase.away is p u
  tail-IsGood id is p u other (inl h) = inl (has_id-tail (owner u) id is h other)
  tail-IsGood id is p u other (inr w) = inr w

  taken-IsGood :
      (s : Source) (is : List ℕ) (c : System lib cell)
      → ((u : Source) → IsGood lib cell Phase.away (owner s ∷ is) (port lib cell u c) u)
      → (u : Source) → IsGood lib cell (at_source s Phase.busy u) is (port lib cell u c) u
  taken-IsGood keyboard is c good keyboard = tt
  taken-IsGood keyboard is c good serial =
      tail-IsGood 0 is (port lib cell serial c) serial (λ e. omega arith) (good serial)
  taken-IsGood serial is c good keyboard =
      tail-IsGood 1 is (port lib cell keyboard c) keyboard (λ e. omega arith) (good keyboard)
  taken-IsGood serial is c good serial = tt

  unowned :
      (c : System lib cell) (id : ℕ) (u : Source)
      → find_task c.tasks (owner u) ≡ some u
      → find_task c.tasks id ≡ none
      → id ≢ owner u
  unowned c id u owned lost e = let h = ap (find_task c.tasks) e in cc

  pub ready-Inv :
      (c d : System lib cell)
      → c.pc ≡ ready
      → ((u : Source) → IsGood lib cell Phase.away (items c.task_queue) (port lib cell u c) u)
      → Inv lib cell c
      → next_task lib cell c ≡ ok tt d
      → Inv lib cell d
  unfolding next_task
  ready-Inv c d at good inv h = elim (Option-cases (pop c.task_queue)) [
    | inl e ↦
        let r : d ≡ record c { pc = disables } = ground (arith, e, h) in
        rw r record { good = good; proper = tt; owners = inv.owners; owned = inv.owned; quiet = tt }
    | inr ((id, q), e) ↦
        let is = pop-some c.task_queue q id e in
        let good = rw is at good in
        elim (Option-cases (find_task c.tasks id)) [
          | inl f ↦
              let r : d ≡ record c { task_queue = q; pc = ready } = ground (arith, e, f, h, at) in
              rw r record {
                good = λ u.
                    tail-IsGood id (items q) (port lib cell u c) u (unowned c id u (inv.owned u) f)
                      (good u);
                proper = tt;
                owners = inv.owners;
                owned = inv.owned;
                quiet = tt;
              }
          | inr (s, f) ↦
              let cache = if has_id id c.waker_cache then c.waker_cache else id ∷ c.waker_cache in
              let r : d ≡ record c { task_queue = q; waker_cache = cache; pc = polled id s } =
                ground (arith, e, f, h) in
              let own = inv.owners id s f in
              rw r record {
                good = taken-IsGood s (items q) c (rw own at good);
                proper = own;
                owners = inv.owners;
                owned = inv.owned;
                quiet = tt;
              }
        ]
  ]

  -- What the invariant says where the thread is.
  pub IsGood-at :
      (pc : Pc) (c : System lib cell)
      → c.pc ≡ pc
      → Inv lib cell c
      → (u : Source) → IsGood lib cell (phase pc u) (items c.task_queue) (port lib cell u c) u
  IsGood-at pc c at inv u = rw (sym at) (inv.good u)

  pub IsProper-at : (pc : Pc) (c : System lib cell) → c.pc ≡ pc → Inv lib cell c → IsProper pc
  IsProper-at pc c at inv = rw (sym at) inv.proper

  pub IsQuiet-at :
      (pc : Pc) (c : System lib cell)
      → c.pc ≡ pc
      → Inv lib cell c
      → IsQuiet lib cell pc c.interrupts (items c.task_queue)
  IsQuiet-at pc c at inv = rw (sym at) inv.quiet

  pub polled-Inv :
      (c d : System lib cell) (id : ℕ) (s : Source)
      → c.pc ≡ polled id s
      → Inv lib cell c
      → enter_future lib cell id s c ≡ ok tt d
      → Inv lib cell d
  unfolding enter_future
  polled-Inv c d id s at inv h =
      let good = IsGood-at (polled id s) c at inv in
      let own = IsProper-at (polled id s) c at inv in
      elim (Bool-cases (port lib cell s c).started) [
        | inl e ↦
            let r : d ≡ record c { pc = first_pop id s } = ground (arith, e, h) in
            rw r record {
              good = good;
              proper = own;
              owners = inv.owners;
              owned = inv.owned;
              quiet = tt;
            }
        | inr e ↦ elim (Bool-cases (is_some (port lib cell s c).queue)) [
          | inl f ↦ absurd (ground (arith, e, f, h))
          | inr f ↦
              let p = record (port lib cell s c) { queue = some (new input_max); started = true } in
              let r : d ≡ record (set_port lib cell s p c) { pc = first_pop id s } =
                ground (arith, e, f, h) in
              rw r record {
                good = polls-IsGood s Phase.busy Phase.busy (items c.task_queue) p c good tt;
                proper = own;
                owners = inv.owners;
                owned = inv.owned;
                quiet = tt;
              }
        ]
      ]

  -- A `pop` of `poll_next`: an empty queue, or one that has given a byte.
  pop_input-cases :
      (s : Source) (got empty : Pc) (c : System lib cell) {d : System lib cell}
      → pop_input lib cell s got empty c ≡ ok tt d
      → ((q : Queue) × ((port lib cell s c).queue ≡ some q)
          × (items q ≡ [])
          × (d ≡ record c { pc = empty }))
        ⊎ ((r : Queue) × (d
              ≡ record (set_port lib cell s (record (port lib cell s c) { queue = some r }) c) {
                pc = got;
              }))
  unfolding pop_input
  pop_input-cases s got empty c h = elim (Option-cases (port lib cell s c).queue) [
    | inl e ↦ absurd (ground (arith, e, h))
    | inr (q, e) ↦ elim (Option-cases (pop q)) [
      | inl f ↦ inl (q, e, pop-none q f, ground (arith, e, f, h))
      | inr ((byte, r), f) ↦ inr (r, ground (arith, e, f, h))
    ]
  ]

  pub first_pop-Inv :
      (c d : System lib cell) (id : ℕ) (s : Source)
      → c.pc ≡ first_pop id s
      → Inv lib cell c
      → pop_input lib cell s (first_pop id s) (registers id s) c ≡ ok tt d
      → Inv lib cell d
  first_pop-Inv c d id s at inv h =
      let good = IsGood-at (first_pop id s) c at inv in
      let own = IsProper-at (first_pop id s) c at inv in
      elim (pop_input-cases s (first_pop id s) (registers id s) c h) [
        | inl (q, _, _, r) ↦
            rw r record {
              good = good;
              proper = own;
              owners = inv.owners;
              owned = inv.owned;
              quiet = tt;
            }
        | inr (q, r) ↦ rw r record {
          good = polls-IsGood s Phase.busy Phase.busy (items c.task_queue) _ c good tt;
          proper = own;
          owners = inv.owners;
          owned = inv.owned;
          quiet = tt;
        }
      ]

  pub second_pop-Inv :
      (c d : System lib cell) (id : ℕ) (s : Source)
      → c.pc ≡ second_pop id s
      → Inv lib cell c
      → pop_input lib cell s (takes id s) ready c ≡ ok tt d
      → Inv lib cell d
  second_pop-Inv c d id s at inv h =
      let good = IsGood-at (second_pop id s) c at inv in
      let own = IsProper-at (second_pop id s) c at inv in
      elim (pop_input-cases s (takes id s) ready c h) [
        | inl (q, e, is, r) ↦ rw r record {
          good = leaves-IsGood s (items c.task_queue) c (
              turns-IsGood s Phase.last_look Phase.away (items c.task_queue) c good λ g. elim g [
                | inl queued ↦ inl queued
                | inr w ↦ inr record { queue = q; queue_is = e; queue_items = is; waker_is = w }
              ]);
          proper = tt;
          owners = inv.owners;
          owned = inv.owned;
          quiet = tt;
        }
        | inr (q, r) ↦ rw r record {
          good = polls-IsGood s Phase.last_look Phase.busy (items c.task_queue) _ c good tt;
          proper = own;
          owners = inv.owners;
          owned = inv.owned;
          quiet = tt;
        }
      ]
