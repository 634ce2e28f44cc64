-- ===== src/Task/Machine.antt =====
-- kernel/src/task/executor.rs, keyboard.rs and serial_input.rs, and the thread of
-- kernel/src/main.rs that runs them. An interrupt can come between any two of the steps here, each
-- of which makes one access to what the handlers share.
use ferri_os.Base.{
  ℕ, suc, ◌≡◌, Bool, true, false, Option, none, some, List, [], ◌∷◌, ◌==◌, if◌then◌else◌, Ret, ok,
  panic, Act, ◌>>◌, is_some,
}
use ferri_os.Base.Panic.{expect_failed}
use ferri_os.Task.Interface.{ArrayQueue, AtomicWaker}

-- The two futures of the kernel: `print_keypresses` and `thread_serial_input`.
pub data Source : Type 0 where
  keyboard serial : Source

abbrev pub task_max : ℕ
task_max = 100

abbrev pub input_max : ℕ
input_max = 100

-- Where the thread of the executor is. In a poll it has the id of the task and its source.
pub data Pc : Type 0 where
  -- `task_queue.pop()` of `run_ready_tasks`
  ready : Pc
  -- `task.poll(..)`
  polled : ℕ → Source → Pc
  -- `poll_next`: the first `pop`, the registration of the waker, the second `pop`, and `take`
  first_pop : ℕ → Source → Pc
  registers : ℕ → Source → Pc
  second_pop : ℕ → Source → Pc
  takes : ℕ → Source → Pc
  -- `sleep_if_idle`: off with the interrupts, the test, and the two ways out
  disables : Pc
  tests : Pc
  halts : Pc
  enables : Pc
  -- in `hlt`
  asleep : Pc

-- `BTreeMap` as a list of its entries.
abbrev pub find_task : List (ℕ × Source) → ℕ → Option Source
find_task [] id = none
find_task ((i, s) ∷ tasks) id = let rest = find_task tasks id in if i == id then some s else rest

abbrev pub has_id : ℕ → List ℕ → Bool
has_id id [] = false
has_id id (i ∷ is) = let rest = has_id id is in if i == id then true else rest

-- An interrupt wakes the processor from `hlt`.
abbrev pub woken : Pc → Pc
woken asleep = ready
woken pc = pc

module _ (lib : ArrayQueue) (cell : AtomicWaker) where
  open lib use {Queue, new, push, pop, is_empty}
  open cell use {Cell, new_cell, register, take}

  -- The statics of a source, and whether its future has been polled.
  pub record Port : Type 0 where
    pub queue : Option Queue
    pub waker : Cell
    pub started : Bool

  pub record System : Type 0 where
    pub tasks : List (ℕ × Source)
    pub task_queue : Queue
    pub waker_cache : List ℕ
    pub next_id : ℕ
    pub keyboard_port : Port
    pub serial_port : Port
    pub interrupts : Bool
    pub pc : Pc

  abbrev pub port : Source → System → Port
  port s c = elim s [ keyboard ↦ c.keyboard_port | serial ↦ c.serial_port ]

  abbrev pub set_port : Source → Port → System → System
  set_port s p c = record c {
    keyboard_port = elim s [ keyboard ↦ p | serial ↦ c.keyboard_port ];
    serial_port = elim s [ keyboard ↦ c.serial_port | serial ↦ p ];
  }

  abbrev pub goto : Pc → Act System (Unit {0})
  goto pc c = ok tt (record c { pc = pc })

  -- `TaskWaker::wake_task`
  unfoldable pub wake_task : ℕ → Act System (Unit {0})
  wake_task id c = elim (push c.task_queue id) [
    | none ↦ panic expect_failed
    | some q ↦ ok tt (record c { task_queue = q })
  ]

  -- `WAKER.wake()`
  unfoldable pub wake : Source → Act System (Unit {0})
  unfolding wake_task
  wake s c =
      let (w, rest) = take (port s c).waker in
      let c1 = set_port s (record (port s c) { waker = rest }) c in
      elim w [ none ↦ ok tt c1 | some id ↦ wake_task id c1 ]

  -- A byte for a source, where `on_full` is what its handler does when the queue is full.
  unfoldable pub push_input : Source → Act System (Unit {0}) → ℕ → Act System (Unit {0})
  unfolding wake
  push_input s on_full byte c = elim (port s c).queue [
    | none ↦ ok tt c
    | some q ↦ elim (push q byte) [
      | none ↦ on_full c
      | some r ↦ wake s (set_port s (record (port s c) { queue = some r }) c)
    ]
  ]

  -- A full queue drops the byte.
  unfoldable pub add_scancode : ℕ → Act System (Unit {0})
  unfolding push_input
  add_scancode scancode = push_input keyboard (λ c. ok tt c) scancode

  unfoldable pub add_byte : ℕ → Act System (Unit {0})
  unfolding push_input
  add_byte byte = push_input serial (λ c. panic expect_failed) byte

  unfoldable pub add : Source → ℕ → Act System (Unit {0})
  unfolding add_scancode add_byte
  add keyboard byte = add_scancode byte
  add serial byte = add_byte byte

  -- `Executor::new` with the statics as they are at the start.
  abbrev pub new_port : Port
  new_port = record { queue = none; waker = new_cell; started = false }

  abbrev pub new_system : System
  new_system = record {
    tasks = [];
    task_queue = new task_max;
    waker_cache = [];
    next_id = 0;
    keyboard_port = new_port;
    serial_port = new_port;
    interrupts = true;
    pc = ready;
  }

  -- `Executor::spawn` of `Task::new`
  unfoldable pub spawn : Source → Act System (Unit {0})
  spawn s c =
      let id = c.next_id in
      elim (find_task c.tasks id) [
        | some _ ↦ panic expect_failed
        | none ↦ elim (push c.task_queue id) [
          | none ↦ panic expect_failed
          | some q ↦
              ok tt (record c { tasks = (id, s) ∷ c.tasks; task_queue = q; next_id = suc id })
        ]
      ]

  -- `keyboard_and_serial_input_thread` up to its call of `run`
  unfoldable pub start : Ret System (Unit {0})
  unfolding spawn
  start = (do spawn keyboard; spawn serial) new_system

  -- `run_ready_tasks`, a round of its loop up to the poll.
  unfoldable pub next_task : Act System (Unit {0})
  next_task c = elim (pop c.task_queue) [
    | none ↦ goto disables c
    | some (id, q) ↦
        let c1 = record c { task_queue = q } in
        elim (find_task c.tasks id) [
          | none ↦ ok tt c1
          | some s ↦
              let cache = if has_id id c.waker_cache then c.waker_cache else id ∷ c.waker_cache in
              ok tt (record c1 { waker_cache = cache; pc = polled id s })
        ]
  ]

  -- The start of a poll: the first one makes the stream, by `ScancodeStream::new` or
  -- `SerialInputStream::new`.
  unfoldable pub enter_future : ℕ → Source → Act System (Unit {0})
  enter_future id s c =
      let p = port s c in
      if p.started
      then goto (first_pop id s) c
      else if is_some p.queue
      then panic expect_failed
      else goto (first_pop id s)
          (set_port s (record p { queue = some (new input_max); started = true }) c)

  -- A `pop` of `poll_next`, with where the thread goes on.
  unfoldable pub pop_input : Source → Pc → Pc → Act System (Unit {0})
  pop_input s got empty c = elim (port s c).queue [
    | none ↦ panic expect_failed
    | some q ↦ elim (pop q) [
      | none ↦ goto empty c
      | some (byte, r) ↦ goto got (set_port s (record (port s c) { queue = some r }) c)
    ]
  ]

  -- The next step of the executor's thread.
  unfoldable pub step : Act System (Unit {0})
  unfolding next_task enter_future pop_input
  step c = elim c.pc [
    | ready ↦ next_task c
    | polled id s ↦ enter_future id s c
    | first_pop id s ↦ pop_input s (first_pop id s) (registers id s) c
    | registers id s ↦
        goto (second_pop id s)
          (set_port s (record (port s c) { waker = register id (port s c).waker }) c)
    | second_pop id s ↦ pop_input s (takes id s) ready c
    | takes id s ↦
        goto (first_pop id s)
          (set_port s (record (port s c) { waker = (take (port s c).waker).1 }) c)
    | disables ↦ ok tt (record c { interrupts = false; pc = tests })
    | tests ↦ goto (if is_empty c.task_queue then halts else enables) c
    | halts ↦ ok tt (record c { interrupts = true; pc = asleep })
    | enables ↦ ok tt (record c { interrupts = true; pc = ready })
    | asleep ↦ ok tt c
  ]

  -- `keyboard_interrupt_handler` and `serial_interrupt_handler` with the byte that they have read from
  -- the port of the device. The command to the interrupt controller at their end is output.
  unfoldable pub interrupt : Source → ℕ → Act System (Unit {0})
  unfolding add
  interrupt s byte c = add s byte (record c { pc = woken c.pc })

  -- An interrupt whose handler touches neither source, such as the timer's, wakes the processor too.
  unfoldable pub other_interrupt : Act System (Unit {0})
  other_interrupt c = ok tt (record c { pc = woken c.pc })

  -- What can happen from the start on.
  pub data Reached : System → Type 0 where
    started : {c : System} → start ≡ ok tt c → Reached c
    stepped : {c d : System} → Reached c → step c ≡ ok tt d → Reached d
    interrupted :
        (s : Source) (byte : ℕ) {c d : System}
        → Reached c
        → c.interrupts ≡ true
        → interrupt s byte c ≡ ok tt d
        → Reached d
    ticked :
        {c d : System} → Reached c → c.interrupts ≡ true → other_interrupt c ≡ ok tt d → Reached d
