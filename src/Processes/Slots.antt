-- ===== src/Processes/Slots.antt =====
-- kernel/src/thread/uprocess/mod.rs: the slots of the process table, and those that `next_pid` takes.
use ferri_os.Base.{
  ℕ, zero, suc, ◌+◌, ◌-◌, ◌≤◌, ◌<◌, ◌≡◌, refl, ◌↔◌, inl, inr, false, Option, none, some, List,
  arith, if◌then◌else◌, get_elem?, set, get_elem?-set, Bool-cases, Option-cases, ok, err, ◌==◌,
  is_none,
}
use native.Mathlib.Decide.{ℕ_discrete}
use ferri_os.Base.Error.{process_table_is_full}
use ferri_os.Process.{Process, new_process, nprocess}
use ferri_os.Kernel.{Kernel}
use ferri_os.Processes.{free_at, find_free, next_pid}

abbrev pub Table : Type 0
Table = List (Option Process)

-- What a store to slot `j` does to slot `u`.
pub free_at-set :
    (t : Table) (j u : ℕ) (v : Option Process) {w : Option Process}
    → get_elem? t j ≡ some w
    → free_at (set t j v) u ≡ (if j == u then is_none v else free_at t u)
free_at-set t j u v e = ground (arith, get_elem?-set t j u v, e)

pub free_slots_from : ℕ → ℕ → Table → ℕ
free_slots_from zero i t = 0
free_slots_from (suc n) i t = (if free_at t i then 1 else 0) + free_slots_from n (i + 1) t

-- How many slots `next_pid` can still give out.
pub free_slots : Table → ℕ
unfolding free_slots_from
free_slots t = free_slots_from (nprocess - 1) 0 t

free_slots_from-eq :
    (n i : ℕ) (t t' : Table)
    → ((u : ℕ) → i ≤ u → free_at t' u ≡ free_at t u)
    → free_slots_from n i t' ≡ free_slots_from n i t
unfolding free_slots_from
free_slots_from-eq zero i t t' h = refl
free_slots_from-eq (suc n) i t t' h =
    ground (arith, h i (omega arith), free_slots_from-eq n (i + 1) t t' (λ u le. h u (omega arith)))

free_slots_from-set :
    (n i j : ℕ) (t : Table) (p : Process)
    → i ≤ j
    → j < i + n
    → get_elem? t j ≡ some none
    → free_slots_from n i (set t j (some p)) + 1 ≡ free_slots_from n i t
unfolding free_slots_from
free_slots_from-set zero i j t p le lt e = absurd (omega arith)
free_slots_from-set (suc n) i j t p le lt e = elim (Bool-cases (i == j)) [
  | inl here ↦ ground (
    arith,
    e,
    free_at-set t j i (some p) e,
    free_slots_from-eq n (i + 1) t (set t j (some p))
        (λ u le'. ground (arith, free_at-set t j u (some p) e)),
  )
  | inr later ↦ ground (
    arith,
    free_at-set t j i (some p) e,
    free_slots_from-set n (i + 1) j t p (ground arith) (omega arith) e,
  )
]

free_slots_from-le : (n i : ℕ) (t : Table) → free_slots_from n i t ≤ n
unfolding free_slots_from
free_slots_from-le zero i t = omega arith
free_slots_from-le (suc n) i t = ground (arith, free_slots_from-le n (i + 1) t)

pub free_slots-le : (t : Table) → free_slots t ≤ nprocess - 1
unfolding free_slots
free_slots-le t = free_slots_from-le (nprocess - 1) 0 t

-- A new process in a free slot takes that slot.
pub free_slots-set_new :
    (t : Table) (j : ℕ) (p : Process)
    → j < nprocess - 1
    → get_elem? t j ≡ some none
    → free_slots (set t j (some p)) + 1 ≡ free_slots t
unfolding free_slots
free_slots-set_new t j p lt e =
    free_slots_from-set (nprocess - 1) 0 j t p (omega arith) (omega arith) e

-- A process that is replaced by another one frees no slot.
pub free_slots-set_old :
    (t : Table) (j : ℕ) (p q : Process)
    → get_elem? t j ≡ some (some p)
    → free_slots (set t j (some q)) ≡ free_slots t
unfolding free_slots
free_slots-set_old t j p q e =
    free_slots_from-eq (nprocess - 1) 0 t (set t j (some q))
      (λ u le. ground (arith, free_at-set t j u (some q) e, e))

-- What a search for a free slot has found: the first one from slot `i` on.
find_free-some :
    (n i : ℕ) (t : Table) {j : ℕ}
    → find_free n i t ≡ some j
    → (i ≤ j)
      × (j < i + n)
      × (get_elem? t j ≡ some none)
      × ((u : ℕ) → i ≤ u → u < j → free_at t u ≡ false)
unfolding find_free
find_free-some zero i t h = cc
find_free-some (suc n) i t {j} h = elim (Bool-cases (free_at t i)) [
  | inl now ↦
      let e : i ≡ j = ground (arith, now) in
      (omega arith, omega arith, ground (arith, now, e), λ u le lt. absurd (omega arith))
  | inr later ↦
      let (le, lt, here, first) = find_free-some n (i + 1) t (rw later at h) in
      (
        omega arith,
        omega arith,
        here,
        λ u p q. elim (ℕ_discrete u i) [ yes now ↦ rw now later | no ne ↦ first u (omega arith) q ],
      )
]

find_free-none : (n i : ℕ) (t : Table) → find_free n i t ≡ none → free_slots_from n i t ≡ 0
unfolding find_free free_slots_from
find_free-none zero i t h = refl
find_free-none (suc n) i t h = ground (arith, find_free-none n (i + 1) t)

-- `next_pid` gives the first free slot below 15.
pub next_pid-some :
    (k : Kernel) {j : ℕ} {k1 : Kernel}
    → next_pid k ≡ ok j k1
    → (k1 ≡ k)
      × (j < nprocess - 1)
      × (get_elem? k.process_table j ≡ some none)
      × ((u : ℕ) → u < j → free_at k.process_table u ≡ false)
unfolding next_pid
next_pid-some k {j} {k1} h = elim (Option-cases (find_free (nprocess - 1) 0 k.process_table)) [
  | inl e ↦ absurd (ground (arith, e))
  | inr (i, e) ↦
      let (_, lt, here, first) = find_free-some (nprocess - 1) 0 k.process_table e in
      let same : i ≡ j = ground (arith, e) in
      (
        ground (arith, e),
        rw (← same) lt,
        rw (← same) here,
        λ u q. first u (omega arith) (rw same q),
      )
]

-- `next_pid` fails, and the error is that the table is full, exactly if no slot below 15 is free.
pub next_pid-err :
    (k : Kernel) → (next_pid k ≡ err process_table_is_full k) ↔ (free_slots k.process_table ≡ 0)
unfolding next_pid free_slots
next_pid-err k = elim (Option-cases (find_free (nprocess - 1) 0 k.process_table)) [
  | inl e ↦ (λ h. find_free-none (nprocess - 1) 0 k.process_table e, λ z. ground (arith, e))
  | inr (i, e) ↦ (λ h. absurd (ground (arith, e)), λ z. absurd (taken i z e))
]
  where
    taken :
        (i : ℕ)
        → free_slots_from (nprocess - 1) 0 k.process_table ≡ 0
        → find_free (nprocess - 1) 0 k.process_table ≡ some i
        → ⊥
    taken i z e =
        let (_, lt, here, _) = find_free-some (nprocess - 1) 0 k.process_table e in
        omega (
          arith,
          z,
          free_slots_from-set (nprocess - 1) 0 i k.process_table new_process (omega arith)
              (omega arith) here,
        )
