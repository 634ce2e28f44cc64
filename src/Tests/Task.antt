-- ===== src/Tests/Task.antt =====
-- The theorems on the asynchronous tasks on queues that are lists.
use ferri_os.Base.{
  ℕ, zero, suc, ◌-◌, ◌≡◌, ◌≤◌, refl, Bool, true, false, Option, none, some, List, [], ◌∷◌, ◌++◌,
  ltb, length, if◌then◌else◌, arith, Ret, ok, err, panic,
}
use ferri_os.Task.Interface.{ArrayQueue, AtomicWaker}
use ferri_os.Task.Machine.{
  System, Source, serial, Reached, started, stepped, step, start, spawn, new_system, port,
  next_task, enter_future, pop_input, interrupt,
}
use ferri_os.Task.Awake.{IsWaiting}
use ferri_os.Task.Awake.Runs.{asleep-IsWaiting}
use ferri_os.Task.Awake.Wakes.{Woken, asleep-interrupt}

-- Room for `more + 1` elements.
record Bounded : Type 0 where
  more : ℕ
  elements : List ℕ

abbrev push_bounded : Bounded → ℕ → Option Bounded
push_bounded q x =
    if ltb (length q.elements) (suc q.more)
    then some (record q { elements = q.elements ++ (x ∷ []) })
    else none

abbrev pop_list : ℕ → List ℕ → Option (ℕ × Bounded)
pop_list more [] = none
pop_list more (x ∷ xs) = some (x, record { more = more; elements = xs })

push_bounded-some :
    (q r : Bounded) (x : ℕ) → push_bounded q x ≡ some r → r.elements ≡ q.elements ++ (x ∷ [])
push_bounded-some q r x h = ground (arith, h)

push_bounded-none : (q : Bounded) (x : ℕ) → push_bounded q x ≡ none → suc q.more ≤ length q.elements
push_bounded-none q x h = ground (arith, h)

pop_list-some :
    (more : ℕ) (xs : List ℕ) (r : Bounded) (x : ℕ)
    → pop_list more xs ≡ some (x, r)
    → xs ≡ x ∷ r.elements
pop_list-some more [] r x h = absurd cc
pop_list-some more (y ∷ xs) r x h = ground (arith, h)

pop_list-none : (more : ℕ) (xs : List ℕ) → pop_list more xs ≡ none → xs ≡ []
pop_list-none more [] h = refl
pop_list-none more (y ∷ xs) h = absurd cc

abbrev is_nil : List ℕ → Bool
is_nil [] = true
is_nil (x ∷ xs) = false

is_nil_lem : (xs : List ℕ) → is_nil xs ≡ true → xs ≡ []
is_nil_lem [] h = refl
is_nil_lem (x ∷ xs) h = absurd cc

abbrev bounded : ArrayQueue
bounded = record {
  Queue = Bounded;
  new = λ n. record { more = n - 1; elements = [] };
  push = push_bounded;
  pop = λ q. pop_list q.more q.elements;
  is_empty = λ q. is_nil q.elements;
  items = λ q. q.elements;
  capacity = λ q. suc q.more;
  items-new = λ n. refl;
  capacity-pos = λ q. omega arith;
  push-some = push_bounded-some;
  push-none = push_bounded-none;
  pop-some = λ q r x h. pop_list-some q.more q.elements r x h;
  pop-none = λ q h. pop_list-none q.more q.elements h;
  is_empty_lem = λ q h. is_nil_lem q.elements h;
}

abbrev optional : AtomicWaker
optional = record {
  Cell = Option ℕ;
  new_cell = none;
  register = λ w c. some w;
  take = λ c. (c, none);
  stored = λ c. c;
  stored-register = λ w c. refl;
  take-stored = λ c. refl;
}

abbrev Tasks : Type 0
Tasks = System bounded optional

abbrev reached_by : Tasks → Ret Tasks (Unit {0}) → Tasks
reached_by c (ok _ d) = d
reached_by c (err e d) = d
reached_by c (panic p) = c

abbrev is_ok : Ret Tasks (Unit {0}) → Bool
is_ok (ok _ d) = true
is_ok (err e d) = false
is_ok (panic p) = false

is_ok_lem : (c : Tasks) (r : Ret Tasks (Unit {0})) → is_ok r ≡ true → r ≡ ok tt (reached_by c r)
is_ok_lem c (ok _ d) h = refl
is_ok_lem c (err e d) h = absurd cc
is_ok_lem c (panic p) h = absurd cc

unfoldable after_steps : ℕ → Tasks → Tasks
after_steps zero c = c
after_steps (suc n) c = after_steps n (reached_by c (step bounded optional c))

unfoldable all_ok : ℕ → Tasks → Bool
all_ok zero c = true
all_ok (suc n) c =
    let rest = all_ok n (reached_by c (step bounded optional c)) in
    if is_ok (step bounded optional c) then rest else false

after_steps-Reached :
    (n : ℕ) (c : Tasks)
    → Reached bounded optional c
    → all_ok n c ≡ true
    → Reached bounded optional (after_steps n c)
unfolding after_steps all_ok
after_steps-Reached zero c r h = r
after_steps-Reached (suc n) c r h =
    let here : is_ok (step bounded optional c) ≡ true = ground (arith, h) in
    after_steps-Reached n (reached_by c (step bounded optional c))
      (stepped r (is_ok_lem c (step bounded optional c) here)) (ground (arith, h))

abbrev at_start : Tasks
at_start = reached_by (new_system bounded optional) (start bounded optional)

-- Both tasks have been polled and wait.
abbrev sleeping : Tasks
sleeping = after_steps 14 at_start

sleeping-Reached : Reached bounded optional sleeping
unfolding all_ok step start spawn next_task enter_future pop_input
sleeping-Reached = after_steps-Reached 14 at_start (started refl) refl

asleep-IsWaiting_example :
    (sleeping.task_queue.elements ≡ [])
    × ((s : Source) → IsWaiting bounded optional (port bounded optional s sleeping) s)
unfolding after_steps all_ok step start spawn next_task enter_future pop_input
asleep-IsWaiting_example = asleep-IsWaiting bounded optional sleeping sleeping-Reached refl

asleep-interrupt_example :
    (d : Tasks) × (interrupt bounded optional serial 0x41 sleeping ≡ ok tt d)
    × Woken bounded optional serial 0x41 d
unfolding after_steps all_ok step start spawn next_task enter_future pop_input
asleep-interrupt_example =
    asleep-interrupt bounded optional sleeping sleeping-Reached refl serial 0x41
