-- ===== src/Memory/Path.antt =====
-- kernel/src/memory/va.rs: a walk that adds tables, and a later walk to the same address.
use ferri_os.Base.{
  ℕ, suc, ◌+◌, ◌^◌, ◌≤◌, ◌<◌, ◌≡◌, ◌≢◌, refl, sym, ap, ◌∙◌, ◌⊎◌, inl, inr, true, false, List, [],
  ◌∷◌, arith, Bool-cases, ◌==◌, if◌then◌else◌,
}
use mathlib.Core.Path.{subst}
use ferri_os.Memory.Paging.{Paging}
use ferri_os.Memory.Frames.{Memory, write_entry, zero_frame}
use ferri_os.Memory.Pool.{pool, count}
use ferri_os.Memory.Walk.{user_page, is_present}

module _ (x86 : Paging) where
  open x86 use {
    flags, addr, set_frame, contains, present, flags-set_frame, addr-set_frame, contains-union_left,
    present_lem, unused-present,
  }

  -- A frame that the allocator does not give out.
  abbrev pub IsHeld : Memory → ℕ → Type 0
  IsHeld m f = count f (pool m) ≡ 0

  -- The frames of the pool are different, and their addresses fit in 52 bits.
  pub record IsPool (m : Memory) : Type 0 where
    pub distinct : (f : ℕ) → count f (pool m) ≤ 1
    pub bounded : (f : ℕ) → 0 < count f (pool m) → f < 2 ^ 40

  -- The tables that a walk meets, from `t` on by the indices and as far as entries are present, are
  -- outside the pool. Nothing is said of other entries, which may point to frames of the pool.
  abbrev pub IsWay : List ℕ → ℕ → Memory → Type 0
  IsWay [] t m = IsHeld m t
  IsWay (i ∷ is) t m =
      IsHeld m t × (is_present x86 (m.tables t i) ≡ true → IsWay is (addr (m.tables t i)) m)

  pub IsWay-IsHeld : (is : List ℕ) (t : ℕ) (m : Memory) → IsWay is t m → IsHeld m t
  IsWay-IsHeld [] t m h = h
  IsWay-IsHeld (i ∷ is) t m h = h.0

  -- Entry `i` of `t` points to the table `u`.
  pub record Points (m : Memory) (t i u : ℕ) : Type 0 where
    pub is : is_present x86 (m.tables t i) ≡ true
    pub to : addr (m.tables t i) ≡ u

  -- What a walk may change: frames of the pool, and entries that are not present.
  pub record Extends (m m1 : Memory) : Type 0 where
    pub pooled : IsPool m1
    pub held : (f : ℕ) → IsHeld m f → IsHeld m1 f
    pub kept :
        (t i : ℕ) → IsHeld m t → is_present x86 (m.tables t i) ≡ true → m1.tables t i ≡ m.tables t i

  pub Extends-refl : (m : Memory) → IsPool m → Extends m m
  Extends-refl m h = record { pooled = h; held = λ f e. e; kept = λ t i e p. refl }

  pub Extends-trans : (m m1 m2 : Memory) → Extends m m1 → Extends m1 m2 → Extends m m2
  Extends-trans m m1 m2 e f = record {
    pooled = f.pooled;
    held = λ g h. f.held g (e.held g h);
    kept = λ t i h p.
        let k = e.kept t i h p in f.kept t i (e.held t h) (ap (is_present x86) k ∙ p) ∙ k;
  }

  pub Points-Extends :
      (m m1 : Memory) (t i u : ℕ) → Extends m m1 → IsHeld m t → Points m t i u → Points m1 t i u
  Points-Extends m m1 t i u e h p =
      let k = e.kept t i h p.is in
      record { is = ap (is_present x86) k ∙ p.is; to = ap addr k ∙ p.to }

  -- A new table in a memory whose pool had the frame in front.
  pub user_page-is_present :
      (f : ℕ)
      → f < 2 ^ 40
      → user_page x86 < 2 ^ 12
      → is_present x86 (set_frame f (user_page x86)) ≡ true
  user_page-is_present f h small =
      ap (λ fl. contains fl present) (flags-set_frame f (user_page x86) h small)
      ∙ contains-union_left _ _ (contains-union_left _ _ present_lem)

  -- The memory with a table in the frame `f` below entry `i` of `t`.
  abbrev grown : ℕ → ℕ → ℕ → Memory → Memory
  grown t i f m = write_entry t i (set_frame f (user_page x86)) (zero_frame f m)

  -- The new table has no entry that is present.
  grown-zero : (t i f : ℕ) (a : Memory) (j : ℕ) → t ≢ f → (grown t i f a).tables f j ≡ 0
  grown-zero t i f a j apart = elim (Bool-cases (f == t)) [
    | inl e ↦ absurd (apart (ground (arith, e)))
    | inr e ↦ ground (arith, e)
  ]

  grown-other :
      (t i f : ℕ) (a : Memory) (u j : ℕ)
      → u ≢ f
      → (u ≡ t → j ≢ i)
      → (grown t i f a).tables u j ≡ a.tables u j
  grown-other t i f a u j other apart = elim (Bool-cases (u == t)) [
    | inr e ↦ ground (arith, e, other)
    | inl e ↦ let d = apart (ground (arith, e)) in ground (arith, e, d, other)
  ]

  grown-entry : (t i f : ℕ) (a : Memory) → (grown t i f a).tables t i ≡ set_frame f (user_page x86)
  grown-entry t i f a = ground arith

  -- A pool without its first frame.
  module _ (m : Memory) (f : ℕ) (ps : List ℕ) (front : pool m ≡ f ∷ ps) where
    counts : (g : ℕ) → count g (pool m) ≡ (if f == g then 1 else 0) + count g ps
    counts g = ap (count g) front

    shrinks : (g : ℕ) → count g ps ≤ count g (pool m)
    shrinks g = omega (arith, counts g)

    pub has_front : suc (count f ps) ≡ count f (pool m)
    has_front = ground (arith, counts f)

    held_apart : (g : ℕ) → IsHeld m g → g ≢ f
    held_apart g h e =
        let one : suc (count f ps) ≡ 0 = has_front ∙ ap (λ g. count g (pool m)) (sym e) ∙ h in
        absurd (omega arith)

  -- A way from a table with no entry ends there.
  fresh-IsWay :
      (is : List ℕ) (t : ℕ) (m : Memory) → IsHeld m t → ((j : ℕ) → m.tables t j ≡ 0) → IsWay is t m
  fresh-IsWay [] t m h z = h
  fresh-IsWay (i ∷ is) t m h z =
      (h, λ p. absurd (let d = sym (ap (is_present x86) (z i) ∙ unused-present) ∙ p in cc))

  pub grown-Extends :
      (t i f : ℕ) (ps : List ℕ) (m a : Memory)
      → user_page x86 < 2 ^ 12
      → IsPool m
      → IsHeld m t
      → is_present x86 (m.tables t i) ≡ false
      → pool m ≡ f ∷ ps
      → pool a ≡ ps
      → a.tables ≡ m.tables
      → Extends m (grown t i f a)
        × Points (grown t i f a) t i (addr (set_frame f (user_page x86)))
        × ((is : List ℕ) → IsWay is (addr (set_frame f (user_page x86))) (grown t i f a))
  grown-Extends t i f ps m a small h hold absent front left same =
      let fits : f < 2 ^ 40 = h.bounded f (let e = has_front m f ps front in omega arith) in
      let gone : count f (pool a) ≡ 0 =
        ap (count f) left
        ∙ (let e = has_front m f ps front in let d = h.distinct f in omega arith) in
      let entry = grown-entry t i f a in
      let is_f : addr (set_frame f (user_page x86)) ≡ f =
        addr-set_frame f (user_page x86) fits small in
      let shrinks : (g : ℕ) → count g (pool a) ≤ count g (pool m) =
        λ g. subst (λ qs. count g qs ≤ count g (pool m)) (sym left) (shrinks m f ps front g) in
      (
        record {
          pooled = record {
            distinct = λ g. let e = shrinks g in let d = h.distinct g in omega arith;
            bounded = λ g lt. h.bounded g (let e = shrinks g in omega arith);
          };
          held = λ g e. let c = shrinks g in omega arith;
          kept = λ u j hold is.
              grown-other t i f a u j (held_apart m f ps front u hold) (λ e d. absurd (
                let c =
                  ap (λ u. is_present x86 (m.tables u j)) e
                  ∙ ap (λ j. is_present x86 (m.tables t j)) d in
                cc))
              ∙ ap (λ (f : ℕ → ℕ → ℕ). f u j) same;
        },
        record {
          is = ap (is_present x86) entry ∙ user_page-is_present f fits small;
          to = ap addr entry;
        },
        λ is.
            subst (λ g. IsWay is g (grown t i f a)) (sym is_f)
              (fresh-IsWay is f (grown t i f a) gone
                λ j. grown-zero t i f a j (held_apart m f ps front t hold)),
      )

  entry-cases :
      (t i e : ℕ) (m : Memory) (u j : ℕ)
      → ((u ≡ t) × (j ≡ i) × ((write_entry t i e m).tables u j ≡ e))
        ⊎ ((write_entry t i e m).tables u j ≡ m.tables u j)
  entry-cases t i e m u j = elim (Bool-cases (u == t)) [
    | inr a ↦ inr (ground (arith, a))
    | inl a ↦ elim (Bool-cases (j == i)) [
      | inr b ↦ inr (ground (arith, a, b))
      | inl b ↦ inl (ground (arith, a), ground (arith, b), ground (arith, a, b))
    ]
  ]

  -- An entry that was not present is written.
  pub entry-Extends :
      (t i e : ℕ) (m : Memory)
      → IsPool m
      → is_present x86 (m.tables t i) ≡ false
      → Extends m (write_entry t i e m)
  entry-Extends t i e m h absent = record {
    pooled = record { distinct = h.distinct; bounded = h.bounded };
    held = λ g e. e;
    kept = λ u j out is. elim (entry-cases t i e m u j) [
      | inr w ↦ w
      | inl (a, b, _) ↦ absurd (
          let c =
            ap (λ u. is_present x86 (m.tables u j)) a ∙ ap (λ j. is_present x86 (m.tables t j)) b in
          cc)
    ];
  }

  zeroed_other : (f : ℕ) (a : Memory) (u j : ℕ) → u ≢ f → (zero_frame f a).tables u j ≡ a.tables u j
  zeroed_other f a u j ne = ground (arith, ne)

  -- The first frame of the pool is taken and zeroed.
  pub zeroed-Extends :
      (f : ℕ) (ps : List ℕ) (m a : Memory)
      → IsPool m
      → pool m ≡ f ∷ ps
      → pool a ≡ ps
      → a.tables ≡ m.tables
      → Extends m (zero_frame f a) × IsHeld (zero_frame f a) f
  zeroed-Extends f ps m a h front left same =
      let shrinks : (g : ℕ) → count g (pool a) ≤ count g (pool m) =
        λ g. subst (λ qs. count g qs ≤ count g (pool m)) (sym left) (shrinks m f ps front g) in
      let gone : count f (pool a) ≡ 0 =
        ap (count f) left
        ∙ (let e = has_front m f ps front in let d = h.distinct f in omega arith) in
      let other : (u j : ℕ) → u ≢ f → (zero_frame f a).tables u j ≡ m.tables u j =
        λ u j ne. zeroed_other f a u j ne ∙ ap (λ (f : ℕ → ℕ → ℕ). f u j) same in
      (
        record {
          pooled = record {
            distinct = λ g. let e = shrinks g in let d = h.distinct g in omega arith;
            bounded = λ g lt. h.bounded g (let e = shrinks g in omega arith);
          };
          held = λ g e. let c = shrinks g in omega arith;
          kept = λ u j out is. other u j (held_apart m f ps front u out);
        },
        gone,
      )

  -- The tables on a way are not the frame that is taken.
  pub zeroed-IsWay :
      (is : List ℕ) (t f : ℕ) (ps : List ℕ) (m a : Memory)
      → pool m ≡ f ∷ ps
      → a.tables ≡ m.tables
      → Extends m (zero_frame f a)
      → IsWay is t m
      → IsWay is t (zero_frame f a)
  zeroed-IsWay [] t f ps m a front same e h = e.held t h
  zeroed-IsWay (i ∷ is) t f ps m a front same e (h, next) =
      let k : (zero_frame f a).tables t i ≡ m.tables t i =
        zeroed_other f a t i (held_apart m f ps front t h) ∙ ap (λ (f : ℕ → ℕ → ℕ). f t i) same in
      (
        e.held t h,
        λ p.
            subst (λ n. IsWay is (addr n) (zero_frame f a)) (sym k)
              (zeroed-IsWay is (addr (m.tables t i)) f ps m a front same e
                (next (sym (ap (is_present x86) k) ∙ p))),
      )
