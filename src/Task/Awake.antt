-- ===== src/Task/Awake.antt =====
-- kernel/src/task: no wake-up is lost.
pub mod Handler
pub mod Steps
pub mod Runs
pub mod Wakes
use ferri_os.Base.{
  ℕ, ◌≡◌, ◌≢◌, refl, ◌⊎◌, inl, inr, Bool, true, false, Option, none, some, List, [], ◌∷◌, ◌++◌,
  ◌==◌, if◌then◌else◌, arith, Bool-cases,
}
use ferri_os.Task.Interface.{ArrayQueue, AtomicWaker}
use ferri_os.Task.Machine.{Source, keyboard, serial, Pc, Port, System, port, find_task, has_id}
use ferri_os.Task.Machine.Pc.{
  ready, polled, first_pop, registers, second_pop, takes, disables, tests, halts, enables, asleep,
}

-- The task of each source.
abbrev pub owner : Source → ℕ
owner keyboard = 0
owner serial = 1

abbrev pub same : Source → Source → Bool
same keyboard keyboard = true
same keyboard serial = false
same serial keyboard = false
same serial serial = true

-- How far the thread is with the task of a source: in a poll that will look at the queue again, at its
-- last look, or elsewhere.
pub data Phase : Type 0 where
  busy last_look away : Phase

abbrev pub phase : Pc → Source → Phase
phase (polled id s) u = if same s u then busy else away
phase (first_pop id s) u = if same s u then busy else away
phase (registers id s) u = if same s u then busy else away
phase (second_pop id s) u = if same s u then last_look else away
phase (takes id s) u = if same s u then busy else away
phase pc u = away

-- A poll is of the task whose source it looks at.
abbrev pub IsProper : Pc → Type 0
IsProper (polled id s) = id ≡ owner s
IsProper (first_pop id s) = id ≡ owner s
IsProper (registers id s) = id ≡ owner s
IsProper (second_pop id s) = id ≡ owner s
IsProper (takes id s) = id ≡ owner s
IsProper pc = Unit {0}

module _ (lib : ArrayQueue) (cell : AtomicWaker) where
  open lib use {Queue, items}
  open cell use {stored}

  -- No byte waits, and the next one will wake the task.
  pub record IsWaiting (p : Port lib cell) (u : Source) : Type 0 where
    pub queue : Queue
    pub queue_is : p.queue ≡ some queue
    pub queue_items : items queue ≡ []
    pub waker_is : stored p.waker ≡ some (owner u)

  abbrev pub IsGood : Phase → List ℕ → Port lib cell → Source → Type 0
  IsGood Phase.busy is p u = Unit {0}
  IsGood Phase.last_look is p u = (has_id (owner u) is ≡ true) ⊎ (stored p.waker ≡ some (owner u))
  IsGood Phase.away is p u = (has_id (owner u) is ≡ true) ⊎ IsWaiting p u

  -- Where the interrupts are off, and where the queue of the tasks is empty.
  abbrev pub IsQuiet : Pc → Bool → List ℕ → Type 0
  IsQuiet tests on is = on ≡ false
  IsQuiet halts on is = (on ≡ false) × (is ≡ [])
  IsQuiet enables on is = on ≡ false
  IsQuiet asleep on is = is ≡ []
  IsQuiet pc on is = Unit {0}

  -- The task of a source is queued, or in a poll that will look at the bytes again, or waits with no
  -- byte there and its waker in place.
  pub record Inv (c : System lib cell) : Type 0 where
    pub good : (u : Source) → IsGood (phase c.pc u) (items c.task_queue) (port lib cell u c) u
    pub proper : IsProper c.pc
    pub owners : (id : ℕ) (s : Source) → find_task c.tasks id ≡ some s → id ≡ owner s
    pub owned : (s : Source) → find_task c.tasks (owner s) ≡ some s
    pub quiet : IsQuiet c.pc c.interrupts (items c.task_queue)

pub has_id-snoc :
    (id x : ℕ) (is : List ℕ) → (has_id id is ≡ true) ⊎ (x ≡ id) → has_id id (is ++ (x ∷ [])) ≡ true
has_id-snoc id x [] (inl h) = absurd cc
has_id-snoc id x [] (inr e) = ground (arith, e)
has_id-snoc id x (i ∷ is) (inr e) = ground (arith, has_id-snoc id x is (inr e))
has_id-snoc id x (i ∷ is) (inl h) = elim (Bool-cases (i == id)) [
  | inl e ↦ ground (arith, e)
  | inr e ↦ ground (arith, e, has_id-snoc id x is (inl (ground (arith, h, e))))
]

pub has_id-tail :
    (id x : ℕ) (is : List ℕ) → has_id id (x ∷ is) ≡ true → x ≢ id → has_id id is ≡ true
has_id-tail id x is h e = ground (arith, h, e)
