-- ===== src/Memory/Map.antt =====
-- kernel/src/memory/va.rs: mapping pages through the mapper of the crate `x86_64`, and the
-- translation of an address.
use ferri_os.Base.{
  ℕ, ◌+◌, ◌*◌, ◌/◌, ◌%◌, ◌^◌, Bool, Option, none, some, if◌then◌else◌, ltb, ok, panic, Act, ◌>>=◌,
  ◌>>◌, pure, throw, get, put, ok_or, for_range,
}
use ferri_os.Base.Error.{
  map_page_frame_alloc_failed, map_to_failed, page_offset_overflow, virtual_address_overflow,
}
use ferri_os.Base.Panic.{huge_page_in_walk}
use ferri_os.Memory.Paging.{Paging, frame_is, frame_not_present, huge_frame}
use ferri_os.Memory.Frames.{Memory, page_size, zero_frame}
use ferri_os.Memory.Walk.{pml4_index, pdpt_index, pd_index, pt_index}
use ferri_os.Memory.Uvm.{virt_addr, checked_add}
use ferri_os.Memory.Copy.{allocate_or}

-- `map_to` of `OffsetPageTable`: the page table, the start of the page, the frame and the flags. The
-- result tells whether it succeeded; it may take frames for tables.
pub record Mapper : Type 0 where
  pub map_to : ℕ → ℕ → ℕ → ℕ → Memory → Bool × Memory

-- `checked_mul` on u64.
abbrev pub checked_mul : ℕ → ℕ → Option ℕ
checked_mul a b = if ltb (a * b) (2 ^ 64) then some (a * b) else none

-- `Page::containing_address`, as the address of the page.
abbrev pub page_of : ℕ → ℕ
page_of va = va / page_size * page_size

module _ (x86 : Paging) (mapper : Mapper) where
  open x86 use {frame}
  open mapper use {map_to}

  unfoldable pub map_page : ℕ → ℕ → ℕ → Act Memory (Unit {0})
  unfolding allocate_or
  map_page pml4 page flags = do
    f ← allocate_or map_page_frame_alloc_failed
    m ← get
    let (done, m') = map_to pml4 page f flags (zero_frame f m)
    put m'
    if done then pure tt else throw map_to_failed

  -- One round of the loop of `map_pages`.
  unfoldable pub map_nth_page : ℕ → ℕ → ℕ → ℕ → Act Memory (Unit {0})
  unfolding map_page
  map_nth_page pml4 start_page flags i = do
    offset ← ok_or (checked_mul i page_size) page_offset_overflow
    address ← ok_or (checked_add start_page offset) virtual_address_overflow
    va ← virt_addr x86 address
    map_page pml4 (page_of va) flags

  unfoldable pub map_pages : ℕ → ℕ → ℕ → ℕ → Act Memory (Unit {0})
  unfolding map_nth_page
  map_pages pml4 start_page num_pages flags =
      for_range num_pages 0 (map_nth_page pml4 start_page flags)

module _ (x86 : Paging) where
  open x86 use {frame}

  -- One level of the walk of `translate_addr_inner`.
  abbrev pub table_below : ℕ → ℕ → Act Memory (Option ℕ)
  table_below table index m = elim (frame (m.tables table index)) [
    | frame_is f ↦ ok (some f) m
    | frame_not_present ↦ ok none m
    | huge_frame ↦ panic huge_page_in_walk
  ]

  abbrev pub next_level : Option ℕ → (ℕ → Act Memory (Option ℕ)) → Act Memory (Option ℕ)
  next_level none k = pure none
  next_level (some f) k = k f

  -- `cr3` is the frame of the active table.
  unfoldable pub translate_addr_inner : ℕ → ℕ → Act Memory (Option ℕ)
  translate_addr_inner cr3 va = do
    pdpt ← table_below cr3 (pml4_index va)
    pd ← next_level pdpt λ t. table_below t (pdpt_index va)
    pt ← next_level pd λ t. table_below t (pd_index va)
    page ← next_level pt λ t. table_below t (pt_index va)
    elim page [ none ↦ pure none | some f ↦ pure (some (f * page_size + va % page_size)) ]
