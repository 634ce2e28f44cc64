-- ===== src/Memory/Again.antt =====
-- kernel/src/memory/va.rs: `walk_pagetable` finds again what it has found or made.
use ferri_os.Base.{
  ℕ, ◌^◌, ◌<◌, ◌≡◌, refl, sym, ap, ◌∙◌, ◌⊎◌, inl, inr, Bool, true, false, Option, none, some, List,
  [], ◌∷◌, arith, Bool-cases,
}
use mathlib.Core.Path.{subst}
use ferri_os.Memory.Paging.{Paging}
use ferri_os.Memory.Frames.{Memory, allocate_frame}
use ferri_os.Memory.Pool.{pool, first, rest, allocate_frame-deallocate_frame}
use ferri_os.Memory.Walk.{
  Slot, below, user_page, is_present, next_table, add_table, walk_pagetable, pml4_index, pdpt_index,
  pd_index, pt_index,
}
use ferri_os.Memory.Path.{
  IsHeld, IsPool, IsWay, IsWay-IsHeld, Points, Extends, Extends-refl, Extends-trans, Points-Extends,
  grown-Extends,
}

pub List-cases : (xs : List ℕ) → (xs ≡ []) ⊎ ((x : ℕ) × (ys : List ℕ) × (xs ≡ x ∷ ys))
List-cases [] = inl refl
List-cases (x ∷ xs) = inr (x, xs, refl)

pub allocate_frame-tables : (m : Memory) → (allocate_frame m).1.tables ≡ m.tables
unfolding allocate_frame
allocate_frame-tables m = by_recycled m.recycled_frames
  where
    by_recycled :
        (fs : List ℕ) → (allocate_frame (record m { recycled_frames = fs })).1.tables ≡ m.tables
    by_recycled [] = refl
    by_recycled (f ∷ fs) = refl

module _ (x86 : Paging) where
  open x86 use {addr, set_frame}

  -- What a level of a walk has done that found or made the table `u`. The indices `is` are those of
  -- the levels below.
  pub record Level (is : List ℕ) (t i u : ℕ) (m m1 : Memory) : Type 0 where
    pub extends : Extends x86 m m1
    pub points : Points x86 m1 t i u
    pub way : IsWay x86 is u m1

  made-Level :
      (is : List ℕ) (t i u f : ℕ) (ps : List ℕ) (m a m1 : Memory)
      → user_page x86 < 2 ^ 12
      → IsPool x86 m
      → IsHeld x86 m t
      → is_present x86 (m.tables t i) ≡ false
      → pool m ≡ f ∷ ps
      → pool a ≡ ps
      → a.tables ≡ m.tables
      → add_table x86 t i (some f) a ≡ (some u, m1)
      → Level is t i u m m1
  unfolding add_table
  made-Level is t i u f ps m a m1 small h hold absent front left same r =
      let (extends, points, way) =
        grown-Extends x86 t i f ps m a small h hold absent front left same in
      let is_u : addr (set_frame f (user_page x86)) ≡ u = ground (arith, r) in
      let made = sym (ap (λ (r : Option ℕ × Memory). r.1) r) in
      rw (made, sym is_u) record { extends = extends; points = points; way = way is }

  next_table-Level :
      (is : List ℕ) (t i u : ℕ) (m m1 : Memory)
      → user_page x86 < 2 ^ 12
      → IsPool x86 m
      → IsWay x86 (i ∷ is) t m
      → next_table x86 true t i m ≡ (some u, m1)
      → Level is t i u m m1
  unfolding next_table add_table
  next_table-Level is t i u m m1 small h (hold, next) r =
      elim (Bool-cases (is_present x86 (m.tables t i))) [
        | inl e ↦
            let same : m1 ≡ m = ground (arith, e, r) in
            let is_u : addr (m.tables t i) ≡ u = ground (arith, e, r) in
            rw same record {
              extends = Extends-refl x86 m h;
              points = record { is = e; to = is_u };
              way = subst (λ f. IsWay x86 is f m) is_u (next e);
            }
        | inr e ↦
            let a = (allocate_frame m).1 in
            let (given, left, _) = allocate_frame-deallocate_frame m 0 in
            let made : add_table x86 t i (allocate_frame m).0 a ≡ (some u, m1) =
              ground (arith, e, r) in
            elim (List-cases (pool m)) [
              | inl d ↦ absurd (let o = given ∙ ap first d in ground (arith, o, made))
              | inr (f, ps, d) ↦
                  let o : (allocate_frame m).0 ≡ some f = given ∙ ap first d in
                  made-Level is t i u f ps m a m1 small h hold e d (left ∙ ap rest d)
                    (allocate_frame-tables m) (ap (λ o. add_table x86 t i o a) (sym o) ∙ made)
            ]
      ]

  -- A later walk below a table that is there.
  next_table-Points :
      (t i u : ℕ) (m : Memory) → Points x86 m t i u → next_table x86 false t i m ≡ (some u, m)
  unfolding next_table
  next_table-Points t i u m p = ground (arith, p.is, p.to)

  below-cases :
      (o : Option ℕ) (m m1 : Memory) (k : ℕ → Memory → Option Slot × Memory) (slot : Slot)
      → below x86 o m k ≡ (some slot, m1)
      → (t : ℕ) × (o ≡ some t) × (k t m ≡ (some slot, m1))
  below-cases none m m1 k slot r = absurd (let e = ap (λ (r : Option Slot × Memory). r.0) r in cc)
  below-cases (some t) m m1 k slot r = (t, refl, r)

  level-cases :
      (alloc : Bool) (t i : ℕ) (m : Memory) (k : ℕ → Memory → Option Slot × Memory)
      → {slot : Slot} {m1 : Memory}
      → below x86 (next_table x86 alloc t i m).0 (next_table x86 alloc t i m).1 k ≡ (some slot, m1)
      → (u : ℕ) × (a : Memory) × (next_table x86 alloc t i m ≡ (some u, a))
        × (k u a ≡ (some slot, m1))
  level-cases alloc t i m k {slot} {m1} r =
      let a = (next_table x86 alloc t i m).1 in
      let (u, e, s) = below-cases (next_table x86 alloc t i m).0 a m1 k slot r in
      (u, a, λ j. (e j, a), s)

  below-some :
      {r : Option ℕ × Memory} {u : ℕ} {m : Memory} (k : ℕ → Memory → Option Slot × Memory)
      → r ≡ (some u, m)
      → below x86 r.0 r.1 k ≡ k u m
  below-some k e = λ i. below x86 (e i).0 (e i).1 k

  -- The four tables and three levels of a walk that has come to its end.
  walk-levels :
      (alloc : Bool) (t va : ℕ) (m m1 : Memory) (slot : Slot)
      → walk_pagetable x86 alloc t va m ≡ (some slot, m1)
      → (t1 t2 t3 : ℕ) × (a b : Memory) × (next_table x86 alloc t (pml4_index va) m ≡ (some t1, a))
        × (next_table x86 alloc t1 (pdpt_index va) a ≡ (some t2, b))
        × (next_table x86 alloc t2 (pd_index va) b ≡ (some t3, m1))
        × (slot ≡ record { table = t3; index = pt_index va })
  unfolding walk_pagetable
  walk-levels alloc t va m m1 slot r =
      let (t1, a, e1, r1) = level-cases alloc t (pml4_index va) m _ r in
      let (t2, b, e2, r2) = level-cases alloc t1 (pdpt_index va) a _ r1 in
      let (t3, c, e3, r3) = level-cases alloc t2 (pd_index va) b _ r2 in
      let last : c ≡ m1 = ap (λ (r : Option Slot × Memory). r.1) r3 in
      (t1, t2, t3, a, b, e1, e2, e3 ∙ (λ i. (some t3, last i)), ground (arith, r3))

  -- A walk finds its way where the tables point to each other.
  walk-Points :
      (t t1 t2 t3 va : ℕ) (m : Memory)
      → Points x86 m t (pml4_index va) t1
      → Points x86 m t1 (pdpt_index va) t2
      → Points x86 m t2 (pd_index va) t3
      → walk_pagetable x86 false t va m ≡ (some (record { table = t3; index = pt_index va }), m)
  unfolding walk_pagetable
  walk-Points t t1 t2 t3 va m p1 p2 p3 =
      below-some _ (next_table-Points t (pml4_index va) t1 m p1)
      ∙ below-some _ (next_table-Points t1 (pdpt_index va) t2 m p2)
      ∙ below-some _ (next_table-Points t2 (pd_index va) t3 m p3)

  -- The tables on the way to the place of `va`, which are outside the pool.
  pub record IsPath (t va : ℕ) (m : Memory) (slot : Slot) : Type 0 where
    pub t1 : ℕ
    pub t2 : ℕ
    pub points0 : Points x86 m t (pml4_index va) t1
    pub points1 : Points x86 m t1 (pdpt_index va) t2
    pub points2 : Points x86 m t2 (pd_index va) slot.table
    pub index : slot.index ≡ pt_index va
    pub held0 : IsHeld x86 m t
    pub held1 : IsHeld x86 m t1
    pub held2 : IsHeld x86 m t2
    pub held3 : IsHeld x86 m slot.table

  pub IsPath-Extends :
      (t va : ℕ) (m m1 : Memory) (slot : Slot)
      → Extends x86 m m1
      → IsPath t va m slot
      → IsPath t va m1 slot
  IsPath-Extends t va m m1 slot e p = record {
    t1 = p.t1;
    t2 = p.t2;
    points0 = Points-Extends x86 m m1 t (pml4_index va) p.t1 e p.held0 p.points0;
    points1 = Points-Extends x86 m m1 p.t1 (pdpt_index va) p.t2 e p.held1 p.points1;
    points2 = Points-Extends x86 m m1 p.t2 (pd_index va) slot.table e p.held2 p.points2;
    index = p.index;
    held0 = e.held t p.held0;
    held1 = e.held p.t1 p.held1;
    held2 = e.held p.t2 p.held2;
    held3 = e.held slot.table p.held3;
  }

  pub walk_pagetable-IsPath :
      (t va : ℕ) (m : Memory) (slot : Slot)
      → IsPath t va m slot
      → walk_pagetable x86 false t va m ≡ (some slot, m)
  walk_pagetable-IsPath t va m slot p =
      walk-Points t p.t1 p.t2 slot.table va m p.points0 p.points1 p.points2
      ∙ ap (λ n. (some (record { table = slot.table; index = n }), m)) (sym p.index)

  -- What a walk that may add tables has done when it finds a place for `va`.
  pub record Walked (t va : ℕ) (m m1 : Memory) (slot : Slot) : Type 0 where
    pub again : walk_pagetable x86 false t va m1 ≡ (some slot, m1)
    pub extends : Extends x86 m m1
    pub path : IsPath t va m1 slot

  -- The tables that exist on the way to the place of `va` are outside the pool.
  abbrev pub IsWayTo : ℕ → ℕ → Memory → Type 0
  IsWayTo va t m = IsWay x86 (pml4_index va ∷ pdpt_index va ∷ pd_index va ∷ []) t m

  -- Where `walk_pagetable` adds tables and finds a place for an address, a later walk that adds none
  -- finds the same place and changes nothing. Entries that were present in tables outside the frame
  -- allocator's pool are as before, and the tables on the way are outside the pool then. Before the
  -- walk the pool has no frame twice and none from 2 ^ 40 on, the tables that exist on the way of the
  -- address are outside it, and the flags of a user page are below 2 ^ 12.
  pub walk_pagetable-Walked :
      (t va : ℕ) (m m1 : Memory) (slot : Slot)
      → user_page x86 < 2 ^ 12
      → IsPool x86 m
      → IsWayTo va t m
      → walk_pagetable x86 true t va m ≡ (some slot, m1)
      → Walked t va m m1 slot
  walk_pagetable-Walked t va m m1 slot small h way r =
      let (t1, t2, t3, a, b, e1, e2, e3, is) = walk-levels true t va m m1 slot r in
      let hold = IsWay-IsHeld x86 (pml4_index va ∷ pdpt_index va ∷ pd_index va ∷ []) t m way in
      let l1 =
        next_table-Level (pdpt_index va ∷ pd_index va ∷ []) t (pml4_index va) t1 m a small h way
          e1 in
      let l2 =
        next_table-Level (pd_index va ∷ []) t1 (pdpt_index va) t2 a b small l1.extends.pooled l1.way
          e2 in
      let l3 = next_table-Level [] t2 (pd_index va) t3 b m1 small l2.extends.pooled l2.way e3 in
      let held1 = IsWay-IsHeld x86 (pdpt_index va ∷ pd_index va ∷ []) t1 a l1.way in
      let held2 = IsWay-IsHeld x86 (pd_index va ∷ []) t2 b l2.way in
      let above = Extends-trans x86 a b m1 l2.extends l3.extends in
      let path : IsPath t va m1 (record { table = t3; index = pt_index va }) = record {
        t1 = t1;
        t2 = t2;
        points0 =
            Points-Extends x86 a m1 t (pml4_index va) t1 above (l1.extends.held t hold) l1.points;
        points1 =
            Points-Extends x86 b m1 t1 (pdpt_index va) t2 l3.extends (l2.extends.held t1 held1)
              l2.points;
        points2 = l3.points;
        index = refl;
        held0 = above.held t (l1.extends.held t hold);
        held1 = above.held t1 held1;
        held2 = l3.extends.held t2 held2;
        held3 = l3.way;
      } in
      rw is record {
        again = walk_pagetable-IsPath t va m1 _ path;
        extends = Extends-trans x86 m a m1 l1.extends above;
        path = path;
      }
