-- ===== src/Task/Interface.antt =====
-- What kernel/src/task uses of crossbeam_queue and futures_util. Bytes and task ids are numbers, and
-- a waker is the id of the task that it wakes.
use ferri_os.Base.{ℕ, ◌<◌, ◌≤◌, ◌≡◌, Bool, true, Option, none, some, List, [], ◌∷◌, ◌++◌, length}

-- `ArrayQueue`, where `items` lists what is in a queue, the first in front. `push` gives `none` for
-- the error that it returns on a full queue.
pub record ArrayQueue : Type 1 where
  pub Queue : Type 0
  pub new : ℕ → Queue
  pub push : Queue → ℕ → Option Queue
  pub pop : Queue → Option (ℕ × Queue)
  pub is_empty : Queue → Bool
  pub items : Queue → List ℕ
  pub capacity : Queue → ℕ
  pub items-new : (n : ℕ) → items (new n) ≡ []
  pub capacity-pos : (q : Queue) → 0 < capacity q
  pub push-some : (q r : Queue) (x : ℕ) → push q x ≡ some r → items r ≡ items q ++ (x ∷ [])
  pub push-none : (q : Queue) (x : ℕ) → push q x ≡ none → capacity q ≤ length (items q)
  pub pop-some : (q r : Queue) (x : ℕ) → pop q ≡ some (x, r) → items q ≡ x ∷ items r
  pub pop-none : (q : Queue) → pop q ≡ none → items q ≡ []
  pub is_empty_lem : (q : Queue) → is_empty q ≡ true → items q ≡ []

-- `AtomicWaker`, where `stored` is the waker that `wake` would use.
pub record AtomicWaker : Type 1 where
  pub Cell : Type 0
  pub new_cell : Cell
  pub register : ℕ → Cell → Cell
  pub take : Cell → Option ℕ × Cell
  pub stored : Cell → Option ℕ
  pub stored-register : (w : ℕ) (c : Cell) → stored (register w c) ≡ some w
  pub take-stored : (c : Cell) → (take c).0 ≡ stored c
