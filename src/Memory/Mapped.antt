-- ===== src/Memory/Mapped.antt =====
-- kernel/src/memory/umem.rs: what a round of `alloc_uvm` maps.
use ferri_os.Base.{
  ℕ, ◌^◌, ◌<◌, ◌≡◌, refl, sym, ap, ◌∙◌, inl, inr, true, false, Option, none, some, List, [], ◌∷◌,
  arith, Bool-cases, if◌then◌else◌, ok, Ret, Act, >>=-elim,
}
use ferri_os.Memory.Paging.{Paging}
use ferri_os.Memory.Frames.{Memory, allocate_frame, write_entry, zero_frame}
use ferri_os.Memory.Pool.{pool, first, rest, allocate_frame-deallocate_frame}
use ferri_os.Memory.Walk.{
  Slot, user_page, is_present, walk_pagetable, pml4_index, pdpt_index, pd_index,
}
use ferri_os.Base.{Error, put, ◌>>◌}
use ferri_os.Base.Error.{frame_alloc_failed, page_table_alloc_failed, page_is_already_mapped}
use ferri_os.Memory.Uvm.{
  alloc_page, map_frame, give_up, page_round_up, rollback_alloc_uvm, virt_addr,
}
use ferri_os.Memory.Frames.{deallocate_frame}
use ferri_os.Memory.Path.{
  IsPool, Extends, Extends-trans, entry-Extends, zeroed-Extends, zeroed-IsWay, user_page-is_present,
  has_front,
}
use ferri_os.Memory.Again.{
  List-cases, allocate_frame-tables, IsPath-Extends, IsWayTo, walk_pagetable-IsPath,
  walk_pagetable-Walked,
}

module _ (x86 : Paging) where
  open x86 use {addr, set_frame, addr-set_frame}

  -- A round that fails does not succeed.
  give_up_lem :
      (pml4 oldsz a : ℕ) (e : Error) (m m1 : Memory) → ¬ (give_up x86 pml4 oldsz a e m ≡ ok tt m1)
  unfolding give_up
  give_up_lem pml4 oldsz a e m m1 h =
      >>=-elim (page_round_up oldsz) _ m h
        λ start t _ h. >>=-elim (rollback_alloc_uvm x86 pml4 start a) _ t h λ _ u _ h. absurd cc

  virt_addr_lem :
      (a : ℕ) (m : Memory) {va : ℕ} {m1 : Memory}
      → virt_addr x86 a m ≡ ok va m1
      → (va ≡ a) × (m1 ≡ m)
  virt_addr_lem a m h = (ground arith, ground arith)

  -- What a round has done with its frame.
  record Placed (pml4 a f : ℕ) (m m1 : Memory) : Type 0 where
    slot : Slot
    middle : Memory
    walked : walk_pagetable x86 true pml4 a (zero_frame f m) ≡ (some slot, middle)
    absent : is_present x86 (middle.tables slot.table slot.index) ≡ false
    result : m1 ≡ write_entry slot.table slot.index (set_frame f (user_page x86)) middle

  -- The end of `map_frame`, on the result of the walk.
  abbrev placing : ℕ → ℕ → ℕ → ℕ → Option Slot → Memory → Act Memory (Unit {0})
  placing pml4 oldsz a f o m2 = elim o [
    | none ↦ do put (deallocate_frame f m2); give_up x86 pml4 oldsz a page_table_alloc_failed
    | some slot ↦
        if is_present x86 (m2.tables slot.table slot.index)
        then (do put (deallocate_frame f m2); give_up x86 pml4 oldsz a page_is_already_mapped)
        else put (write_entry slot.table slot.index (set_frame f (user_page x86)) m2)
  ]

  after_walk :
      (pml4 oldsz a f : ℕ) (o : Option Slot) (m2 m1 : Memory)
      → placing pml4 oldsz a f o m2 m2 ≡ ok tt m1
      → (slot : Slot) × (o ≡ some slot)
        × (is_present x86 (m2.tables slot.table slot.index) ≡ false)
        × (m1 ≡ write_entry slot.table slot.index (set_frame f (user_page x86)) m2)
  after_walk pml4 oldsz a f none m2 m1 h =
      absurd (give_up_lem pml4 oldsz a page_table_alloc_failed (deallocate_frame f m2) m1 h)
  after_walk pml4 oldsz a f (some slot) m2 m1 h =
      elim (Bool-cases (is_present x86 (m2.tables slot.table slot.index))) [
        | inl p ↦ absurd (
            give_up_lem pml4 oldsz a page_is_already_mapped (deallocate_frame f m2) m1
              (ground (arith, p, h)))
        | inr p ↦ (slot, refl, p, ground (arith, p, h))
      ]

  map_frame-Placed :
      (pml4 oldsz a f : ℕ) (m m1 : Memory)
      → map_frame x86 pml4 oldsz a f m ≡ ok tt m1
      → Placed pml4 a f m m1
  unfolding map_frame
  map_frame-Placed pml4 oldsz a f m m1 h =
      >>=-elim (virt_addr x86 a) _ (zero_frame f m) h λ va t e h.
        let (va_is, t_is) = virt_addr_lem a (zero_frame f m) e in
        let w = walk_pagetable x86 true pml4 va t in
        let (slot, found, absent, result) = after_walk pml4 oldsz a f w.0 w.1 m1 h in
        record {
          slot = slot;
          middle = w.1;
          walked =
              (λ i. walk_pagetable x86 true pml4 (sym va_is i) (sym t_is i)) ∙ λ i. (found i, w.1);
          absent = absent;
          result = result;
        }

  -- What a round that succeeds has done: `frame` is the first of the pool, and `a` is mapped to it.
  pub record Mapped (pml4 a : ℕ) (m m1 : Memory) : Type 0 where
    pub frame : ℕ
    pub frame_is : first (pool m) ≡ some frame
    pub slot : Slot
    pub found : walk_pagetable x86 false pml4 a m1 ≡ (some slot, m1)
    pub entry : m1.tables slot.table slot.index ≡ set_frame frame (user_page x86)
    pub present : is_present x86 (m1.tables slot.table slot.index) ≡ true
    pub to : addr (m1.tables slot.table slot.index) ≡ frame
    pub extends : Extends x86 m m1

  Placed-Mapped :
      (pml4 a f : ℕ) (ps : List ℕ) (m m' m1 : Memory)
      → user_page x86 < 2 ^ 12
      → IsPool x86 m
      → IsWayTo x86 a pml4 m
      → pool m ≡ f ∷ ps
      → pool m' ≡ ps
      → m'.tables ≡ m.tables
      → Placed pml4 a f m' m1
      → Mapped pml4 a m m1
  Placed-Mapped pml4 a f ps m m' m1 small h way front left same p =
      let e = set_frame f (user_page x86) in
      let fits : f < 2 ^ 40 = h.bounded f (let c = has_front x86 m f ps front in omega arith) in
      let is_f : addr e ≡ f = addr-set_frame f (user_page x86) fits small in
      let (zeroed, _) = zeroed-Extends x86 f ps m m' h front left same in
      let w =
        walk_pagetable-Walked x86 pml4 a (zero_frame f m') p.middle p.slot small zeroed.pooled
          (zeroed-IsWay x86 (pml4_index a ∷ pdpt_index a ∷ pd_index a ∷ []) pml4 f ps m m' front
            same zeroed way)
          p.walked in
      let put = entry-Extends x86 p.slot.table p.slot.index e p.middle w.extends.pooled p.absent in
      let there : (write_entry p.slot.table p.slot.index e p.middle).tables p.slot.table
            p.slot.index
          ≡ e =
        ground arith in
      rw p.result record {
        frame = f;
        frame_is = ap first front;
        slot = p.slot;
        found =
            walk_pagetable-IsPath x86 pml4 a _ p.slot
              (IsPath-Extends x86 pml4 a p.middle _ p.slot put w.path);
        entry = there;
        present = ap (is_present x86) there ∙ user_page-is_present x86 f fits small;
        to = ap addr there ∙ is_f;
        extends =
            Extends-trans x86 m p.middle _
              (Extends-trans x86 m (zero_frame f m') p.middle zeroed w.extends) put;
      }

  -- A round of `alloc_uvm` that succeeds has mapped its address to the first frame of the pool: a walk
  -- finds its place, whose entry is that frame with the flags of a user page, and every entry that was
  -- present in a table outside the pool is as before. Before the round the pool has no frame twice and
  -- none from 2 ^ 40 on, the tables that exist on the way of the address are outside it, and the flags
  -- of a user page are below 2 ^ 12.
  pub alloc_page-Mapped :
      (pml4 oldsz a : ℕ) (m m1 : Memory)
      → user_page x86 < 2 ^ 12
      → IsPool x86 m
      → IsWayTo x86 a pml4 m
      → alloc_page x86 pml4 oldsz a m ≡ ok tt m1
      → Mapped pml4 a m m1
  unfolding alloc_page
  alloc_page-Mapped pml4 oldsz a m m1 small h way r =
      let m' = (allocate_frame m).1 in
      let (given, left, _) = allocate_frame-deallocate_frame m 0 in
      let next : Option ℕ → Ret Memory (Unit {0}) = λ o. elim o [
        | none ↦ give_up x86 pml4 oldsz a frame_alloc_failed m'
        | some f ↦ map_frame x86 pml4 oldsz a f m'
      ] in
      elim (List-cases (pool m)) [
        | inl d ↦ absurd (
            give_up_lem pml4 oldsz a frame_alloc_failed m' m1
              (ap next (sym (given ∙ ap first d)) ∙ r))
        | inr (f, ps, d) ↦
            Placed-Mapped pml4 a f ps m m' m1 small h way d (left ∙ ap rest d)
              (allocate_frame-tables m)
              (map_frame-Placed pml4 oldsz a f m' m1 (ap next (sym (given ∙ ap first d)) ∙ r))
      ]
