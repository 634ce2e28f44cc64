-- ===== src/Threads/Select.antt =====
-- kernel/src/thread/mod.rs, `next_tid`: which thread of the table it gives out.
use ferri_os.Base.{
  ℕ, zero, suc, ◌+◌, ◌-◌, ◌≤◌, ◌<◌, ◌≡◌, ◌↔◌, inl, inr, true, false, none, some, List, arith,
  get_elem?, Bool-cases, Option-cases,
}
use native.Mathlib.Decide.{ℕ_discrete}
use ferri_os.Thread.{Thread, is_unused, nthread}
use ferri_os.Threads.{unused_at, find_unused, next_tid}

find_unused-some :
    (n i : ℕ) (table : List Thread) {j : ℕ}
    → find_unused n i table ≡ some j
    → (i ≤ j)
      × (j < i + n)
      × (unused_at table j ≡ true)
      × ((u : ℕ) → i ≤ u → u < j → unused_at table u ≡ false)
unfolding find_unused
find_unused-some zero i table h = cc
find_unused-some (suc n) i table {j} h = elim (Bool-cases (unused_at table i)) [
  | inl now ↦
      let e : i ≡ j = ground (arith, now) in
      (omega arith, omega arith, rw (← e) now, λ u le lt. absurd (omega arith))
  | inr later ↦
      let (le, lt, here, first) = find_unused-some n (i + 1) table (rw later at h) in
      (
        omega arith,
        omega arith,
        here,
        λ u p q. elim (ℕ_discrete u i) [ yes now ↦ rw now later | no ne ↦ first u (omega arith) q ],
      )
]

find_unused-none :
    (n i : ℕ) (table : List Thread)
    → find_unused n i table ≡ none
    → (u : ℕ) → i ≤ u
    → u < i + n
    → unused_at table u ≡ false
unfolding find_unused
find_unused-none zero i table h u p q = absurd (omega arith)
find_unused-none (suc n) i table h u p q = elim (Bool-cases (unused_at table i)) [
  | inl now ↦ absurd (cc (rw now at h))
  | inr later ↦ elim (ℕ_discrete u i) [
    | yes here ↦ rw here later
    | no ne ↦ find_unused-none n (i + 1) table (rw later at h) u (omega arith) (omega arith)
  ]
]

pub unused_at-thread :
    (table : List Thread) (tid : ℕ)
    → unused_at table tid ≡ true
    → (t : Thread) × (get_elem? table tid ≡ some t) × (is_unused t.state ≡ true)
unused_at-thread table tid h = elim (Option-cases (get_elem? table tid)) [
  | inl e ↦ absurd (ground (arith, e))
  | inr (t, e) ↦ (t, e, ground (arith, e))
]

-- `next_tid` gives the first unused thread of the table but never the last one, thread 63; it fails
-- exactly if the threads below that are all in use.
pub next_tid-first :
    (table : List Thread)
    → ((tid : ℕ)
        → next_tid table ≡ some tid
        → (tid < nthread - 1)
          × (unused_at table tid ≡ true)
          × ((u : ℕ) → u < tid → unused_at table u ≡ false))
      × ((next_tid table ≡ none) ↔ ((u : ℕ) → u < nthread - 1 → unused_at table u ≡ false))
unfolding next_tid
next_tid-first table = (
  found,
  (λ h u lt. find_unused-none (nthread - 1) 0 table h u (omega arith) (omega arith), full),
)
  where
    found :
        (tid : ℕ)
        → next_tid table ≡ some tid
        → (tid < nthread - 1)
          × (unused_at table tid ≡ true)
          × ((u : ℕ) → u < tid → unused_at table u ≡ false)
    found tid h =
        let (_, lt, here, first) = find_unused-some (nthread - 1) 0 table h in
        (omega arith, here, λ u q. first u (omega arith) q)

    full : ((u : ℕ) → u < nthread - 1 → unused_at table u ≡ false) → next_tid table ≡ none
    full used = elim (Option-cases (next_tid table)) [
      | inl e ↦ e
      | inr (tid, e) ↦ let (lt, here, _) = found tid e in absurd (cc (used tid lt, here))
    ]
