-- ===== src/Memory/Copy.antt =====
-- kernel/src/memory/umem.rs and kmem.rs: making, copying and freeing a whole address space.
use ferri_os.Base.{
  ◌==◌, ℕ, ◌/◌, ◌%◌, ◌^◌, ◌&&◌, if◌then◌else◌, ltb, leb, ok, panic, Act, ◌>>=◌, ◌>>◌, pure, get,
  put, ok_or, for_range, Error,
}
use ferri_os.Base.Error.{
  allocating_frame_failed, failed_to_allocate_pdpt_frame, failed_to_allocate_pd_frame,
  failed_to_allocate_pt_frame, failed_to_allocate_data_frame,
}
use ferri_os.Base.Panic.{assertion_failed}
use ferri_os.Memory.Paging.{Paging}
use ferri_os.Memory.Frames.{Memory, allocate_frame, deallocate_frame, write_entry, zero_frame}
use ferri_os.Memory.Walk.{is_present}
use ferri_os.Memory.Uvm.{frame_from_entry}

-- `USER_CODE_START` and `USER_STACK_TOP` of uprocess/mod.rs.
abbrev pub user_code_start : ℕ
user_code_start = 0x1000_0000_0000

abbrev pub user_stack_top : ℕ
user_stack_top = 0x2000_0000_0000

-- `allocate_frame().ok_or(e)?`
unfoldable pub allocate_or : Error → Act Memory ℕ
allocate_or e m = let (f, m') = allocate_frame m in ok_or f e m'

-- The kernel half of the table of frame `current` over that of frame `f`.
abbrev pub copy_kernel_half : ℕ → ℕ → Memory → Memory
copy_kernel_half current f m = record m {
  tables = λ t j. if t == f && (leb 256 j && ltb j 512) then m.tables current j else m.tables t j;
}

-- `current` is the frame in CR3.
unfoldable pub setup_kvm : ℕ → Act Memory ℕ
unfolding allocate_or
setup_kvm current = do
  f ← allocate_or allocating_frame_failed
  m ← get
  put (copy_kernel_half current f (zero_frame f m))
  pure f

unfoldable pub new_uvm : ℕ → Act Memory ℕ
unfolding setup_kvm
new_uvm current = do
  f ← setup_kvm current
  m ← get
  put (write_entry f (user_code_start / 2 ^ 39 % 512) 0 m)
  m1 ← get
  put (write_entry f (user_stack_top / 2 ^ 39 % 512) 0 m1)
  pure f

module _ (x86 : Paging) where
  open x86 use {flags, addr, set_frame, contains, huge_page}

  -- `set_frame` of the crate `x86_64`, which does not take the flag of a huge page.
  unfoldable pub set_entry_frame : ℕ → ℕ → ℕ → ℕ → Act Memory (Unit {0})
  set_entry_frame table i f fl m =
      if contains fl huge_page
      then panic assertion_failed
      else ok tt (write_entry table i (set_frame f fl) m)

  -- One entry of the outer three loops of `copy_uvm`: a fresh table for the child, and then `below`
  -- copies from the parent's table to it.
  unfoldable pub copy_table :
      Error → (ℕ → ℕ → Act Memory (Unit {0})) → ℕ → ℕ → ℕ → Act Memory (Unit {0})
  unfolding allocate_or set_entry_frame
  copy_table e below parent child i m =
      if is_present x86 (m.tables parent i)
      then (do
        f ← allocate_or e
        m1 ← get
        put (zero_frame f m1)
        m2 ← get
        set_entry_frame child i f (flags (m2.tables parent i))
        m3 ← get
        below (addr (m3.tables parent i)) f)
          m
      else pure tt m

  -- `copy_nonoverlapping` of a page
  abbrev pub copy_page : ℕ → ℕ → Memory → Memory
  copy_page src dst m = record m {
    tables = λ t j. if t == dst then m.tables src j else m.tables t j;
  }

  unfoldable pub copy_leaf : ℕ → ℕ → ℕ → Act Memory (Unit {0})
  unfolding allocate_or set_entry_frame
  copy_leaf parent child i m =
      if is_present x86 (m.tables parent i)
      then (do
        f ← allocate_or failed_to_allocate_data_frame
        m1 ← get
        put (copy_page (addr (m1.tables parent i)) f m1)
        m2 ← get
        set_entry_frame child i f (flags (m2.tables parent i)))
          m
      else pure tt m

  unfoldable pub copy_pt : ℕ → ℕ → Act Memory (Unit {0})
  copy_pt parent child = for_range 512 0 (copy_leaf parent child)

  unfoldable pub copy_pd : ℕ → ℕ → Act Memory (Unit {0})
  copy_pd parent child =
      for_range 512 0 (copy_table failed_to_allocate_pt_frame copy_pt parent child)

  unfoldable pub copy_pdpt : ℕ → ℕ → Act Memory (Unit {0})
  copy_pdpt parent child =
      for_range 512 0 (copy_table failed_to_allocate_pd_frame copy_pd parent child)

  -- The parent's entries 0 to 255, in a new address space.
  unfoldable pub copy_uvm : ℕ → ℕ → Act Memory ℕ
  copy_uvm current parent = do
    child ← new_uvm current
    for_range 256 0 (copy_table failed_to_allocate_pdpt_frame copy_pdpt parent child)
    pure child

  -- One entry of the loops of `free_uvm`: what lies below is freed first.
  unfoldable pub free_entry : (ℕ → Act Memory (Unit {0})) → ℕ → ℕ → Act Memory (Unit {0})
  free_entry below table i m =
      if is_present x86 (m.tables table i)
      then (do
        f ← frame_from_entry x86 (m.tables table i)
        below f
        m1 ← get
        put (deallocate_frame f m1)
        m2 ← get
        put (write_entry table i 0 m2))
          m
      else pure tt m

  unfoldable pub free_pt : ℕ → Act Memory (Unit {0})
  free_pt pt = for_range 512 0 (free_entry (λ _. pure tt) pt)

  unfoldable pub free_pd : ℕ → Act Memory (Unit {0})
  free_pd pd = for_range 512 0 (free_entry free_pt pd)

  unfoldable pub free_pdpt : ℕ → Act Memory (Unit {0})
  free_pdpt pdpt = for_range 512 0 (free_entry free_pd pdpt)

  unfoldable pub free_uvm : ℕ → Act Memory (Unit {0})
  free_uvm pml4 = do
    for_range 256 0 (free_entry free_pdpt pml4)
    m ← get
    put (deallocate_frame pml4 m)
