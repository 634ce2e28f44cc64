-- ===== src/Task/Awake/Handler.antt =====
-- kernel/src/task/keyboard.rs and serial_input.rs: what a handler leaves of the invariant.
use ferri_os.Base.{
  ℕ, ◌≡◌, refl, ap, inl, inr, true, some, List, [], ◌∷◌, ◌++◌, if◌then◌else◌, ok, panic, arith,
  Option-cases,
}
use ferri_os.Base.{Act}
use ferri_os.Base.Panic.{expect_failed}
use ferri_os.Task.Interface.{ArrayQueue, AtomicWaker}
use ferri_os.Task.Machine.{
  Source, keyboard, serial, Port, System, port, set_port, has_id, add, add_scancode, add_byte,
  push_input, wake, wake_task,
}
use ferri_os.Task.Awake.{owner, same, Phase, IsGood, has_id-snoc}

module _ (lib : ArrayQueue) (cell : AtomicWaker) where
  open lib use {Queue, items, push, push-some, push-none, capacity-pos}
  open cell use {stored, take, take-stored}

  -- What is kept when a handler has run.
  pub record Added (c d : System lib cell) : Type 0 where
    pub pc : d.pc ≡ c.pc
    pub tasks : d.tasks ≡ c.tasks
    pub interrupts : d.interrupts ≡ c.interrupts
    pub good :
        (f : Phase) (u : Source)
        → IsGood lib cell f (items c.task_queue) (port lib cell u c) u
        → IsGood lib cell f (items d.task_queue) (port lib cell u d) u

  -- The wake-up of a source whose queue is `r` now and where `w` is stored.
  woken-IsGood :
      (is js : List ℕ) (old : Port lib cell) (new : Port lib cell) (u : Source) (f : Phase)
      → ((id : ℕ) → has_id id is ≡ true → has_id id js ≡ true)
      → (stored old.waker ≡ some (owner u) → has_id (owner u) js ≡ true)
      → IsGood lib cell f is old u
      → IsGood lib cell f js new u
  woken-IsGood is js old new u Phase.busy more wakes g = tt
  woken-IsGood is js old new u Phase.last_look more wakes (inl h) = inl (more (owner u) h)
  woken-IsGood is js old new u Phase.last_look more wakes (inr h) = inl (wakes h)
  woken-IsGood is js old new u Phase.away more wakes (inl h) = inl (more (owner u) h)
  woken-IsGood is js old new u Phase.away more wakes (inr w) = inl (wakes w.waker_is)

  more-IsGood :
      (is js : List ℕ) (p : Port lib cell) (u : Source) (f : Phase)
      → ((id : ℕ) → has_id id is ≡ true → has_id id js ≡ true)
      → IsGood lib cell f is p u
      → IsGood lib cell f js p u
  more-IsGood is js p u Phase.busy more g = tt
  more-IsGood is js p u Phase.last_look more (inl h) = inl (more (owner u) h)
  more-IsGood is js p u Phase.last_look more (inr h) = inr h
  more-IsGood is js p u Phase.away more (inl h) = inl (more (owner u) h)
  more-IsGood is js p u Phase.away more (inr w) = inr w

  -- The port of another source.
  port-set_port :
      (s u : Source) (p : Port lib cell) (c : System lib cell)
      → (port lib cell u (set_port lib cell s p c) ≡ (if same s u then p else port lib cell u c))
  port-set_port keyboard keyboard p c = refl
  port-set_port keyboard serial p c = refl
  port-set_port serial keyboard p c = refl
  port-set_port serial serial p c = refl

  kept : (c : System lib cell) → Added c c
  kept c = record { pc = refl; tasks = refl; interrupts = refl; good = λ f u g. g }

  -- The system when a waker has been taken.
  abbrev without_waker : Source → System lib cell → System lib cell
  without_waker s c =
      set_port lib cell s
        (record (port lib cell s c) { waker = (take (port lib cell s c).waker).1 }) c

  -- What `wake` has done.
  record Woken (s : Source) (c d : System lib cell) : Type 0 where
    queue : Queue
    result : d ≡ record (without_waker s c) { task_queue = queue }
    more : (id : ℕ) → has_id id (items c.task_queue) ≡ true → has_id id (items queue) ≡ true
    wakes : (id : ℕ) → stored (port lib cell s c).waker ≡ some id → has_id id (items queue) ≡ true

  wake_task_lem :
      (id : ℕ) (c : System lib cell) {d : System lib cell}
      → wake_task lib cell id c ≡ ok tt d
      → (q : Queue) × (items q ≡ items c.task_queue ++ (id ∷ []))
        × (d ≡ record c { task_queue = q })
  unfolding wake_task
  wake_task_lem id c h = elim (Option-cases (push c.task_queue id)) [
    | inl e ↦ absurd (ground (arith, e, h))
    | inr (q, e) ↦ (q, push-some c.task_queue q id e, ground (arith, e, h))
  ]

  wake-Woken :
      (s : Source) (c : System lib cell) {d : System lib cell}
      → wake lib cell s c ≡ ok tt d
      → Woken s c d
  unfolding wake
  wake-Woken s c {d} h = elim (Option-cases (take (port lib cell s c).waker).0) [
    | inl e ↦
        let t = take-stored (port lib cell s c).waker in
        record {
          queue = c.task_queue;
          result = ground (arith, e, h);
          more = λ id g. g;
          wakes = λ id g. absurd cc;
        }
    | inr (id, e) ↦
        let t = take-stored (port lib cell s c).waker in
        let (q, is, r) = wake_task_lem id (without_waker s c) (ground (arith, e, h)) in
        record {
          queue = q;
          result = r;
          more = λ j g. rw is (has_id-snoc j id (items c.task_queue) (inl g));
          wakes = λ j g. rw is (has_id-snoc j id (items c.task_queue) (inr cc));
        }
  ]

  abbrev queued : Source → Queue → System lib cell → System lib cell
  queued s r c = set_port lib cell s (record (port lib cell s c) { queue = some r }) c

  Woken-IsGood :
      (s : Source) (r : Queue) (c d : System lib cell)
      → Woken s (queued s r c) d
      → (f : Phase) (u : Source) → IsGood lib cell f (items c.task_queue) (port lib cell u c) u
      → IsGood lib cell f (items d.task_queue) (port lib cell u d) u
  Woken-IsGood keyboard r c d w f keyboard g = rw w.result (
      woken-IsGood (items c.task_queue) (items w.queue) (port lib cell keyboard c) _ keyboard f
        w.more (w.wakes 0) g)
  Woken-IsGood serial r c d w f serial g = rw w.result (
      woken-IsGood (items c.task_queue) (items w.queue) (port lib cell serial c) _ serial f w.more
        (w.wakes 1) g)
  Woken-IsGood keyboard r c d w f serial g =
      rw w.result (more-IsGood (items c.task_queue) (items w.queue) _ serial f w.more g)
  Woken-IsGood serial r c d w f keyboard g =
      rw w.result (more-IsGood (items c.task_queue) (items w.queue) _ keyboard f w.more g)

  Woken-Added :
      (s : Source) (r : Queue) (c d : System lib cell) → Woken s (queued s r c) d → Added c d
  Woken-Added s r c d w = record {
    pc = ap (λ (d : System lib cell). d.pc) w.result;
    tasks = ap (λ (d : System lib cell). d.tasks) w.result;
    interrupts = ap (λ (d : System lib cell). d.interrupts) w.result;
    good = Woken-IsGood s r c d w;
  }

  push_input-Added :
      (s : Source) (on_full : Act (System lib cell) (Unit {0})) (byte : ℕ) (c : System lib cell)
      → {d : System lib cell} → (on_full c ≡ ok tt d → d ≡ c)
      → push_input lib cell s on_full byte c ≡ ok tt d
      → Added c d
  unfolding push_input
  push_input-Added s on_full byte c {d} keeps h = elim (Option-cases (port lib cell s c).queue) [
    | inl e ↦ let same : d ≡ c = ground (arith, e, h) in rw same (kept c)
    | inr (q, e) ↦ elim (Option-cases (push q byte)) [
      | inl f ↦ let same : d ≡ c = keeps (ground (arith, e, f, h)) in rw same (kept c)
      | inr (r, f) ↦ Woken-Added s r c d (wake-Woken s (queued s r c) (ground (arith, e, f, h)))
    ]
  ]

  pub add-Added :
      (s : Source) (byte : ℕ) (c : System lib cell) {d : System lib cell}
      → add lib cell s byte c ≡ ok tt d
      → Added c d
  unfolding add add_scancode add_byte
  add-Added keyboard byte c h = push_input-Added keyboard (λ c. ok tt c) byte c (λ e. cc) h
  add-Added serial byte c h =
      push_input-Added serial (λ c. panic expect_failed) byte c (λ e. absurd cc) h
