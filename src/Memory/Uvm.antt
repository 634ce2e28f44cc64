-- ===== src/Memory/Uvm.antt =====
-- kernel/src/memory/umem.rs: growing and shrinking the user part of an address space.
use ferri_os.Base.{
  ℕ, zero, suc, ◌+◌, ◌-◌, ◌*◌, ◌/◌, ◌^◌, true, false, Option, none, some, if◌then◌else◌, ltb, leb,
  Ret, ok, err, panic, Act, ◌>>=◌, ◌>>◌, pure, throw, fault, get, put, ok_or,
}
use ferri_os.Base.{Error}
use ferri_os.Base.Error.{
  huge_pages_not_supported, page_table_entry_not_present, size_overflow,
  newsz_is_outside_user_space, frame_alloc_failed, page_table_alloc_failed, page_is_already_mapped,
  address_overflow,
}
use ferri_os.Base.Panic.{address_is_not_canonical, out_of_fuel}
use ferri_os.Memory.Paging.{Paging, frame_is, frame_not_present, huge_frame}
use ferri_os.Memory.Frames.{
  Memory, page_size, allocate_frame, deallocate_frame, write_entry, zero_frame,
}
use ferri_os.Memory.Walk.{Slot, user_page, is_present, walk_pagetable}

-- `checked_add` on usize.
abbrev pub checked_add : ℕ → ℕ → Option ℕ
checked_add a b = if ltb (a + b) (2 ^ 64) then some (a + b) else none

-- `& !(PAGE_SIZE - 1)`
abbrev pub page_round_down : ℕ → ℕ
page_round_down n = n / page_size * page_size

unfoldable pub page_round_up : {S : Type 0} → ℕ → Act S ℕ
page_round_up value = do
  v ← ok_or (checked_add value (page_size - 1)) size_overflow
  pure (page_round_down v)

-- `PAGETABLE_USER_SPACE_END << PTE_BASE_ADDRESS`
abbrev pub user_space_top : ℕ
user_space_top = 256 * 2 ^ 39

module _ (x86 : Paging) where
  open x86 use {frame, set_frame, canonical}

  -- `VirtAddr::new`
  abbrev pub virt_addr : ℕ → Act Memory ℕ
  virt_addr va = if canonical va then pure va else fault address_is_not_canonical

  unfoldable pub frame_from_entry : ℕ → Act Memory ℕ
  frame_from_entry e = elim (frame e) [
    | frame_is f ↦ pure f
    | huge_frame ↦ throw huge_pages_not_supported
    | frame_not_present ↦ throw page_table_entry_not_present
  ]

  -- `if pte.flags().contains(PRESENT)`: the frame of the entry goes back and the entry is unused.
  unfoldable pub unmap_slot : Slot → Act Memory (Unit {0})
  unfolding frame_from_entry
  unmap_slot s m =
      if is_present x86 (m.tables s.table s.index)
      then (do
        f ← frame_from_entry (m.tables s.table s.index)
        put (write_entry s.table s.index 0 (deallocate_frame f m)))
          m
      else ok tt m

  -- One round of the loops of `dealloc_uvm` and `rollback_alloc_uvm`.
  unfoldable pub unmap_page : ℕ → ℕ → Act Memory (Unit {0})
  unfolding unmap_slot
  unmap_page pml4 addr = do
    va ← virt_addr addr
    m ← get
    let (s, m') = walk_pagetable x86 false pml4 va m
    put m'
    elim s [ none ↦ pure tt | some slot ↦ unmap_slot slot ]

  -- `while addr < end`
  unfoldable pub unmap_range : ℕ → ℕ → ℕ → ℕ → Act Memory (Unit {0})
  unmap_range zero pml4 addr stop m = panic out_of_fuel
  unmap_range (suc fuel) pml4 addr stop m =
      let round : Ret Memory ℕ =
        (do unmap_page pml4 addr; ok_or (checked_add addr page_size) address_overflow) m in
      if ltb addr stop
      then elim round [
        | ok a t ↦ unmap_range fuel pml4 a stop t
        | err e t ↦ err e t
        | panic p ↦ panic p
      ]
      else ok tt m

  -- A bound on the rounds of a loop over the pages up to `stop`.
  abbrev pub page_fuel : ℕ → ℕ
  page_fuel stop = stop / page_size + 2

  unfoldable pub rollback_alloc_uvm : ℕ → ℕ → ℕ → Act Memory (Unit {0})
  unfolding unmap_range
  rollback_alloc_uvm pml4 start stop = unmap_range (page_fuel stop) pml4 start stop

  unfoldable pub dealloc_uvm : ℕ → ℕ → ℕ → Act Memory ℕ
  unfolding unmap_range page_round_up
  dealloc_uvm pml4 oldsz newsz =
      if leb oldsz newsz
      then pure oldsz
      else do addr ← page_round_up newsz; unmap_range (page_fuel oldsz) pml4 addr oldsz; pure newsz

  -- A failing round of `alloc_uvm`: what it has mapped is unmapped again.
  unfoldable pub give_up : ℕ → ℕ → ℕ → Error → Act Memory (Unit {0})
  unfolding rollback_alloc_uvm page_round_up
  give_up pml4 oldsz addr e = do
    start ← page_round_up oldsz
    rollback_alloc_uvm pml4 start addr
    throw e

  -- One round of the loop of `alloc_uvm`, with the frame that it has got.
  unfoldable pub map_frame : ℕ → ℕ → ℕ → ℕ → Act Memory (Unit {0})
  unfolding give_up
  map_frame pml4 oldsz addr f = do
    m ← get
    put (zero_frame f m)
    va ← virt_addr addr
    m1 ← get
    let (s, m2) = walk_pagetable x86 true pml4 va m1
    put m2
    elim s [
      | none ↦ do put (deallocate_frame f m2); give_up pml4 oldsz addr page_table_alloc_failed
      | some slot ↦
          if is_present x86 (m2.tables slot.table slot.index)
          then (do put (deallocate_frame f m2); give_up pml4 oldsz addr page_is_already_mapped)
          else put (write_entry slot.table slot.index (set_frame f (user_page x86)) m2)
    ]

  unfoldable pub alloc_page : ℕ → ℕ → ℕ → Act Memory (Unit {0})
  unfolding map_frame give_up
  alloc_page pml4 oldsz addr m =
      let (f, m') = allocate_frame m in
      elim f [
        | none ↦ give_up pml4 oldsz addr frame_alloc_failed m'
        | some f ↦ map_frame pml4 oldsz addr f m'
      ]

  -- `while addr < newsz`
  unfoldable pub alloc_range : ℕ → ℕ → ℕ → ℕ → ℕ → Act Memory (Unit {0})
  alloc_range zero pml4 oldsz addr newsz m = panic out_of_fuel
  alloc_range (suc fuel) pml4 oldsz addr newsz m =
      let round : Ret Memory ℕ =
        (do alloc_page pml4 oldsz addr; ok_or (checked_add addr page_size) address_overflow) m in
      if ltb addr newsz
      then elim round [
        | ok a t ↦ alloc_range fuel pml4 oldsz a newsz t
        | err e t ↦ err e t
        | panic p ↦ panic p
      ]
      else ok tt m

  unfoldable pub alloc_uvm : ℕ → ℕ → ℕ → Act Memory ℕ
  unfolding alloc_range page_round_up
  alloc_uvm pml4 oldsz newsz =
      if leb user_space_top newsz
      then throw newsz_is_outside_user_space
      else if ltb newsz oldsz
      then pure oldsz
      else do
        addr ← page_round_up oldsz
        alloc_range (page_fuel newsz) pml4 oldsz addr newsz
        pure newsz
