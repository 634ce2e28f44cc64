-- ===== src/Task/Awake/Wakes.antt =====
-- kernel/src/task: an interrupt wakes a processor that sleeps.
use ferri_os.Base.{
  ℕ, ◌≡◌, ◌≤◌, refl, ap, ◌∙◌, inl, inr, some, [], ◌∷◌, ◌++◌, ok, arith, Option-cases, length,
}
use mathlib.Core.Path.{subst}
use ferri_os.Task.Interface.{ArrayQueue, AtomicWaker}
use ferri_os.Task.Machine.{
  Source, keyboard, serial, Port, System, port, set_port, interrupt, add, add_scancode, add_byte,
  push_input, wake, wake_task, Reached,
}
use ferri_os.Task.Machine.Pc.{ready, asleep}
use ferri_os.Task.Awake.{owner, IsWaiting}
use ferri_os.Task.Awake.Runs.{asleep-IsWaiting}

module _ (lib : ArrayQueue) (cell : AtomicWaker) where
  open lib use {Queue, items, push, push-some, push-none, capacity, capacity-pos}
  open cell use {stored, take, take-stored}

  -- A queue with nothing in it takes an element.
  push-empty :
      (q : Queue) (x : ℕ) → items q ≡ [] → (r : Queue) × (push q x ≡ some r) × (items r ≡ x ∷ [])
  push-empty q x e = elim (Option-cases (push q x)) [
    | inl f ↦
        let full = subst (λ xs. capacity q ≤ length xs) e (push-none q x f) in
        let room = capacity-pos q in absurd (omega arith)
    | inr (r, f) ↦ (r, f, push-some q r x f ∙ ap (λ xs. xs ++ (x ∷ [])) e)
  ]

  -- What a byte of a source has done to a processor that slept.
  pub record Woken (s : Source) (byte : ℕ) (d : System lib cell) : Type 0 where
    pub queue : Queue
    pub queue_is : (port lib cell s d).queue ≡ some queue
    pub byte_is : items queue ≡ byte ∷ []
    pub runs : d.pc ≡ ready
    pub task_is : items d.task_queue ≡ owner s ∷ []

  port-queue :
      (s : Source) (p : Port lib cell) (c : System lib cell)
      → port lib cell s (set_port lib cell s p c) ≡ p
  port-queue keyboard p c = refl
  port-queue serial p c = refl

  abbrev ready_port : Source → Queue → System lib cell → Port lib cell
  ready_port s r c = record (port lib cell s c) {
    queue = some r;
    waker = (take (port lib cell s c).waker).1;
  }

  interrupt_lem :
      (s : Source) (byte : ℕ) (c : System lib cell) (q r t : Queue)
      → c.pc ≡ asleep
      → (port lib cell s c).queue ≡ some q
      → push q byte ≡ some r
      → (take (port lib cell s c).waker).0 ≡ some (owner s)
      → push c.task_queue (owner s) ≡ some t
      → interrupt lib cell s byte c
        ≡ ok tt (record (set_port lib cell s (ready_port s r c) (record c { pc = ready })) {
          task_queue = t;
        })
  unfolding interrupt add add_scancode add_byte push_input wake wake_task
  interrupt_lem keyboard byte c q r t at is e wakes f = ground (arith, at, is, e, wakes, f)
  interrupt_lem serial byte c q r t at is e wakes f = ground (arith, at, is, e, wakes, f)

  asleep-Woken :
      (s : Source) (byte : ℕ) (c : System lib cell)
      → c.pc ≡ asleep
      → items c.task_queue ≡ []
      → IsWaiting lib cell (port lib cell s c) s
      → (d : System lib cell) × (interrupt lib cell s byte c ≡ ok tt d) × Woken s byte d
  unfolding interrupt add add_scancode add_byte push_input wake wake_task
  asleep-Woken s byte c at empty w =
      let (r, e, is) = push-empty w.queue byte w.queue_items in
      let (t, f, js) = push-empty c.task_queue (owner s) empty in
      let wakes = take-stored (port lib cell s c).waker ∙ w.waker_is in
      let c0 : System lib cell = record c { pc = ready } in
      let p = ready_port s r c in
      (
        record (set_port lib cell s p c0) { task_queue = t },
        interrupt_lem s byte c w.queue r t at w.queue_is e wakes f,
        record {
          queue = r;
          queue_is = ap (λ (p : Port lib cell). p.queue) (port-queue s p c0);
          byte_is = is;
          runs = refl;
          task_is = js;
        },
      )

  -- Wherever the executor's thread sleeps, an interrupt with a byte of either source ends well, and the
  -- thread runs again with the byte in the source's queue and its task queued.
  pub asleep-interrupt :
      (c : System lib cell)
      → Reached lib cell c
      → c.pc ≡ asleep
      → (s : Source) (byte : ℕ)
      → (d : System lib cell) × (interrupt lib cell s byte c ≡ ok tt d) × Woken s byte d
  asleep-interrupt c reached at s byte =
      let (empty, waits) = asleep-IsWaiting lib cell c reached at in
      asleep-Woken s byte c at empty (waits s)
