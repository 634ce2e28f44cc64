-- ===== src/Scheduler/Select.antt =====
-- kernel/src/scheduler/round_robin.rs, `find_next_runnable_thread`: which thread it chooses.
use ferri_os.Base.{
  ℕ, zero, suc, ◌+◌, ◌-◌, ◌%◌, ◌≤◌, ◌<◌, ◌≡◌, ◌↔◌, inl, inr, true, false, Option, none, some, List,
  arith, Bool-cases, Option-cases, sym,
}
use native.Mathlib.Decide.{ℕ_discrete, dec_le}
use ferri_os.Thread.{Thread, nthread}
use ferri_os.Scheduler.{runnable_at, find_from, current_or_last, find_next_runnable_thread}

-- How many threads the search from `current` looks at before `tid`.
abbrev pub turns_until : ℕ → ℕ → ℕ
turns_until current tid = (tid + nthread - (current + 1)) % nthread

-- What a search from round `i` on has found: the thread of round `round`, and none before it.
record Found (i : ℕ) (table : List Thread) (current tid : ℕ) : Type 0 where
  round : ℕ
  from : i ≤ round
  last : round ≤ nthread
  here : tid ≡ (current + round) % nthread
  run : runnable_at table tid ≡ true
  first : (m : ℕ) → i ≤ m → m < round → runnable_at table ((current + m) % nthread) ≡ false

find_from-Found :
    (n i : ℕ) (table : List Thread) (current : ℕ) {tid : ℕ}
    → i + n ≡ nthread + 1
    → find_from n i table current ≡ some tid
    → Found i table current tid
unfolding find_from
find_from-Found zero i table current e h = cc
find_from-Found (suc n) i table current e h =
    elim (Bool-cases (runnable_at table ((current + i) % nthread))) [
      | inl now ↦ record {
        round = i;
        from = omega arith;
        last = omega arith;
        here = ground (arith, now);
        run = ground (arith, now);
        first = λ m p q. absurd (omega arith);
      }
      | inr later ↦
          let rest = find_from-Found n (i + 1) table current (omega arith) (rw later at h) in
          record {
            round = rest.round;
            from = omega (arith, rest.from);
            last = rest.last;
            here = rest.here;
            run = rest.run;
            first = λ m p q. elim (ℕ_discrete m i) [
              | yes now ↦ rw now later
              | no ne ↦ rest.first m (omega arith) q
            ];
          }
    ]

find_from-none :
    (n i : ℕ) (table : List Thread) (current : ℕ)
    → find_from n i table current ≡ none
    → (m : ℕ) → i ≤ m
    → m < i + n
    → runnable_at table ((current + m) % nthread) ≡ false
unfolding find_from
find_from-none zero i table current h m p q = absurd (omega arith)
find_from-none (suc n) i table current h m p q =
    elim (Bool-cases (runnable_at table ((current + i) % nthread))) [
      | inl now ↦ absurd (cc (rw now at h))
      | inr later ↦ elim (ℕ_discrete m i) [
        | yes here ↦ rw here later
        | no ne ↦
            find_from-none n (i + 1) table current (rw later at h) m (omega arith) (omega arith)
      ]
    ]

-- The round at which the search from `c` looks at `u`.
turns_until-round :
    (c u : ℕ) → c < nthread → u < nthread → (c + (turns_until c u + 1)) % nthread ≡ u
turns_until-round c u hc hu = omega arith

turns-le :
    (c t u r : ℕ)
    → c < nthread
    → 1 ≤ r
    → r ≤ nthread
    → t ≡ (c + r) % nthread
    → r ≤ turns_until c u + 1
    → turns_until c t ≤ turns_until c u
turns-le c t u r hc lo hi e le = omega arith

-- The search takes a runnable thread, the first one in the order of the table from the current thread
-- on, round and round; the current thread is the last that it looks at.
pub find_next_runnable_thread-first :
    (table : List Thread) (current_tid : Option ℕ) {tid : ℕ}
    → current_or_last current_tid < nthread
    → find_next_runnable_thread table current_tid ≡ some tid
    → (tid < nthread)
      × (runnable_at table tid ≡ true)
      × ((u : ℕ)
          → u < nthread
          → runnable_at table u ≡ true
          → turns_until (current_or_last current_tid) tid
            ≤ turns_until (current_or_last current_tid) u)
unfolding find_next_runnable_thread
find_next_runnable_thread-first table current_tid {tid} c h =
    (omega (arith, found.here), found.run, λ u lt run. nearest u lt run)
  where
    current : ℕ
    current = current_or_last current_tid

    found : Found 1 table current tid
    found = find_from-Found nthread 1 table current (omega arith) h

    nearest :
        (u : ℕ)
        → u < nthread
        → runnable_at table u ≡ true
        → turns_until current tid ≤ turns_until current u
    nearest u lt run = elim (dec_le found.round (turns_until current u + 1)) [
      | yes le ↦ turns-le current tid u found.round c found.from found.last found.here le
      | no gt ↦ absurd (
          cc (
            sym run,
            rw (turns_until-round current u c lt) at
                (found.first (turns_until current u + 1) (omega arith) (omega arith)),
          ))
    ]

-- The search fails only if no thread is runnable, and then it does.
pub find_next_runnable_thread-none :
    (table : List Thread) (current_tid : Option ℕ)
    → current_or_last current_tid < nthread
    → (find_next_runnable_thread table current_tid ≡ none)
      ↔ ((u : ℕ) → u < nthread → runnable_at table u ≡ false)
unfolding find_next_runnable_thread
find_next_runnable_thread-none table current_tid c = (
  λ h u lt. rw (turns_until-round (current_or_last current_tid) u c lt) at (
      find_from-none nthread 1 table (current_or_last current_tid) h
        (turns_until (current_or_last current_tid) u + 1) (omega arith) (omega arith)),
  λ idle. elim (Option-cases (find_next_runnable_thread table current_tid)) [
    | inl e ↦ e
    | inr (tid, e) ↦
        let (lt, run, _) = find_next_runnable_thread-first table current_tid c e in
        absurd (cc (sym run, idle tid lt))
  ],
)
