-- ===== src/Exec/Space.antt =====
-- kernel/src/exec/mod.rs: writes to the pages of an address space that is being built.
use ferri_os.Base.{
  ℕ, zero, suc, ◌+◌, ◌-◌, ◌/◌, ◌%◌, ◌^◌, min, true, false, not, none, some, List, [], ◌∷◌, ◌++◌,
  ltb, length, ok, err, panic, Act, ◌>>=◌, ◌>>◌, pure, get, put, fail_if, ok_or, replicate,
}
use ferri_os.Base.Error.{exec_address_is_not_mapped, exec_address_is_not_present}
use ferri_os.Base.Panic.{arithmetic_overflow, out_of_fuel}
use ferri_os.Memory.{
  Memory, page_size, walk_pagetable, is_present, virt_addr, write_bytes, write_entry, Mapper,
  map_page,
}
use ferri_os.Memory.Paging.{Paging}
use ferri_os.Base.{take, drop}

-- `a + b` on u64, which the dev profile checks.
unfoldable pub add_u64 : {S : Type 0} → ℕ → ℕ → Act S ℕ
add_u64 a b s = elim (ltb (a + b) (2 ^ 64)) [
  | true ↦ ok (a + b) s
  | false ↦ panic arithmetic_overflow
]

-- `to_le_bytes`, of `n` bytes.
abbrev pub to_le_bytes : ℕ → ℕ → List ℕ
to_le_bytes zero v = []
to_le_bytes (suc n) v = v % 256 ∷ to_le_bytes n (v / 256)

module _ (x86 : Paging) where
  open x86 use {addr, flags, union, set_frame}

  -- The entry of a mapped page, in the copying loops.
  unfoldable pub mapped_entry : ℕ → ℕ → Act Memory ℕ
  mapped_entry pml4 address = do
    va ← virt_addr x86 address
    m ← get
    let (found, m') = walk_pagetable x86 false pml4 va m
    put m'
    slot ← ok_or found exec_address_is_not_mapped
    let entry = m'.tables slot.table slot.index
    fail_if (not (is_present x86 entry)) exec_address_is_not_present
    pure entry

  -- One round of the loop of `copy_to_user_pagetable`: `src` is what is not written yet.
  unfoldable pub copy_chunk : ℕ → ℕ → ℕ → List ℕ → Act Memory ℕ
  unfolding add_u64 mapped_entry
  copy_chunk pml4 dst written src = do
    address ← add_u64 dst written
    entry ← mapped_entry pml4 address
    let to_copy = min (page_size - address % page_size) (length src)
    m ← get
    put (write_bytes (addr entry) (address % page_size) (take to_copy src) m)
    pure to_copy

  -- `while written < src.len()`
  unfoldable pub copy_chunks : ℕ → ℕ → ℕ → ℕ → List ℕ → Act Memory (Unit {0})
  copy_chunks fuel pml4 dst written [] m = ok tt m
  copy_chunks zero pml4 dst written (b ∷ bs) m = panic out_of_fuel
  copy_chunks (suc fuel) pml4 dst written (b ∷ bs) m =
      elim (copy_chunk pml4 dst written (b ∷ bs) m) [
        | ok n t ↦ copy_chunks fuel pml4 dst (written + n) (drop n (b ∷ bs)) t
        | err e t ↦ err e t
        | panic p ↦ panic p
      ]

  -- A chunk has at least one byte, so the length of `src` bounds the rounds.
  unfoldable pub copy_to_user_pagetable : ℕ → ℕ → List ℕ → Act Memory (Unit {0})
  copy_to_user_pagetable pml4 dst src = copy_chunks (length src) pml4 dst 0 src

  unfoldable pub zero_chunk : ℕ → ℕ → ℕ → ℕ → Act Memory ℕ
  unfolding add_u64 mapped_entry
  zero_chunk pml4 start cleared len = do
    address ← add_u64 start cleared
    entry ← mapped_entry pml4 address
    let to_zero = min (page_size - address % page_size) (len - cleared)
    m ← get
    put (write_bytes (addr entry) (address % page_size) (replicate to_zero 0) m)
    pure to_zero

  -- `while cleared < len`
  unfoldable pub zero_chunks : ℕ → ℕ → ℕ → ℕ → ℕ → Act Memory (Unit {0})
  zero_chunks zero pml4 start cleared len m = elim (ltb cleared len) [
    | true ↦ panic out_of_fuel
    | false ↦ ok tt m
  ]
  zero_chunks (suc fuel) pml4 start cleared len m = elim (ltb cleared len) [
    | false ↦ ok tt m
    | true ↦ elim (zero_chunk pml4 start cleared len m) [
      | ok n t ↦ zero_chunks fuel pml4 start (cleared + n) len t
      | err e t ↦ err e t
      | panic p ↦ panic p
    ]
  ]

  unfoldable pub zero_user_range : ℕ → ℕ → ℕ → Act Memory (Unit {0})
  zero_user_range pml4 start len = zero_chunks len pml4 start 0 len

  abbrev pub all_le_bytes : List ℕ → List ℕ
  all_le_bytes [] = []
  all_le_bytes (v ∷ vs) = to_le_bytes 8 v ++ all_le_bytes vs

  unfoldable pub copy_u64_slice_to_user : ℕ → ℕ → List ℕ → Act Memory (Unit {0})
  copy_u64_slice_to_user pml4 dst values = copy_to_user_pagetable pml4 dst (all_le_bytes values)

module _ (x86 : Paging) (mapper : Mapper) where
  open x86 use {addr, flags, union, set_frame}

  -- `entry.set_flags(entry.flags() | flags)` of a page that is there.
  unfoldable pub ensure_user_page_mapping : ℕ → ℕ → ℕ → Act Memory (Unit {0})
  unfolding map_page
  ensure_user_page_mapping pml4 page fl m =
      let (found, m') = walk_pagetable x86 false pml4 page m in
      elim found [
        | none ↦ map_page x86 mapper pml4 page fl m'
        | some slot ↦
            let entry = m'.tables slot.table slot.index in
            elim (is_present x86 entry) [
              | true ↦ ok tt (
                  write_entry slot.table slot.index
                    (set_frame (addr entry) (union (flags entry) fl)) m')
              | false ↦ map_page x86 mapper pml4 page fl m'
            ]
      ]
