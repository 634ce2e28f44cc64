-- ===== src/Memory/Walk.antt =====
-- kernel/src/memory/va.rs: the indices of an address and the four-level walk.
use ferri_os.Base.{ℕ, ◌/◌, ◌%◌, ◌^◌, Bool, Option, none, some, if◌then◌else◌}
use ferri_os.Memory.Paging.{Paging}
use ferri_os.Memory.Frames.{Memory, allocate_frame, write_entry, zero_frame}

abbrev pub pml4_index : ℕ → ℕ
pml4_index va = va / 2 ^ 39 % 512

abbrev pub pdpt_index : ℕ → ℕ
pdpt_index va = va / 2 ^ 30 % 512

abbrev pub pd_index : ℕ → ℕ
pd_index va = va / 2 ^ 21 % 512

abbrev pub pt_index : ℕ → ℕ
pt_index va = va / 2 ^ 12 % 512

-- A place in a page table, for the reference to an entry that the walk returns.
pub record Slot : Type 0 where
  pub table : ℕ
  pub index : ℕ

module _ (x86 : Paging) where
  open x86 use {present, writable, user_accessible, union, contains, flags, addr, set_frame}

  -- PRESENT | WRITABLE | USER_ACCESSIBLE
  abbrev pub user_page : ℕ
  user_page = union (union present writable) user_accessible

  abbrev pub is_present : ℕ → Bool
  is_present e = contains (flags e) present

  -- A new table below entry `i` of `table`, if there is a frame for it.
  unfoldable pub add_table : ℕ → ℕ → Option ℕ → Memory → Option ℕ × Memory
  add_table table i none m = (none, m)
  add_table table i (some f) m = (
    some (addr (set_frame f user_page)),
    write_entry table i (set_frame f user_page) (zero_frame f m),
  )

  -- One of the three blocks of `walk_pagetable`: the table below entry `i` of `table`.
  unfoldable pub next_table : Bool → ℕ → ℕ → Memory → Option ℕ × Memory
  unfolding add_table
  next_table alloc table i m =
      if is_present (m.tables table i)
      then (some (addr (m.tables table i)), m)
      else if alloc
      then (let (f, m') = allocate_frame m in add_table table i f m')
      else (none, m)

  -- The walk below a table that is there.
  abbrev pub below : Option ℕ → Memory → (ℕ → Memory → Option Slot × Memory) → Option Slot × Memory
  below none m k = (none, m)
  below (some t) m k = k t m

  -- The place of the entry for `va` in its last table. What the walk has allocated before it finds no
  -- frame stays.
  unfoldable pub walk_pagetable : Bool → ℕ → ℕ → Memory → Option Slot × Memory
  unfolding next_table
  walk_pagetable alloc pml4 va m =
      let (pdpt, m1) = next_table alloc pml4 (pml4_index va) m in
      below pdpt m1 λ t1 m1.
        let (pd, m2) = next_table alloc t1 (pdpt_index va) m1 in
        below pd m2 λ t2 m2.
          let (pt, m3) = next_table alloc t2 (pd_index va) m2 in
          below pt m3 λ t3 m3. (some (record { table = t3; index = pt_index va }), m3)
