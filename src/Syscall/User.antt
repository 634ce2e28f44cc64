-- ===== src/Syscall/User.antt =====
-- kernel/src/syscall/mod.rs: copies between the kernel and the pages of the current process.
use ferri_os.Base.{
  ℕ, zero, suc, ◌+◌, ◌-◌, ◌%◌, ◌^◌, min, false, not, List, [], ◌∷◌, ◌++◌, ltb, ◌==◌, if◌then◌else◌,
  length, ok, err, panic, Act, ◌>>=◌, ◌>>◌, pure, fault, get, put, fail_if, ok_or,
}
use ferri_os.Base.Error.{
  null_pointer, process_not_found, no_page_table, address_is_not_mapped, address_is_not_present,
  address_is_not_user_accessible, address_is_not_writable,
}
use ferri_os.Base.Panic.{capacity_overflow, out_of_fuel}
use ferri_os.Memory.{
  Memory, page_size, walk_pagetable, is_present, virt_addr, read_bytes, write_bytes,
}
use ferri_os.Memory.Paging.{Paging}
use ferri_os.Kernel.{Kernel, current_process, with_memory}
use ferri_os.Exec.{add_u64}
use ferri_os.Base.{take, drop}

-- `cpu.current_process()…page_table…`
unfoldable pub process_page_table : Act Kernel ℕ
process_page_table = do
  entry ← current_process
  process ← ok_or entry process_not_found
  ok_or process.page_table no_page_table

module _ (x86 : Paging) where
  open x86 use {user_accessible, writable, contains, flags, addr}

  -- The entry of the page with byte `copied` of a copy at `ptr`, after its tests.
  unfoldable pub user_entry : ℕ → ℕ → ℕ → Act Memory ℕ
  unfolding add_u64
  user_entry pml4 ptr copied = do
    address ← add_u64 ptr copied
    va ← virt_addr x86 address
    m ← get
    let (found, m') = walk_pagetable x86 false pml4 va m
    put m'
    slot ← ok_or found address_is_not_mapped
    let pte = m'.tables slot.table slot.index
    fail_if (not (is_present x86 pte)) address_is_not_present
    fail_if (not (contains (flags pte) user_accessible)) address_is_not_user_accessible
    pure pte

  -- `while copied < len` of `copy_bytes_from_user`; `n` is `len - copied`.
  unfoldable pub copy_in : ℕ → ℕ → ℕ → ℕ → ℕ → List ℕ → Act Memory (List ℕ)
  copy_in fuel pml4 ptr copied zero bytes m = ok bytes m
  copy_in zero pml4 ptr copied (suc n) bytes m = panic out_of_fuel
  copy_in (suc fuel) pml4 ptr copied (suc n) bytes m = elim (user_entry pml4 ptr copied m) [
    | ok pte t ↦
        let page_offset = (ptr + copied) % page_size in
        let to_copy = min (page_size - page_offset) (suc n) in
        copy_in fuel pml4 ptr (copied + to_copy) (suc n - to_copy)
          (bytes ++ read_bytes (addr pte) page_offset to_copy t) t
    | err e t ↦ err e t
    | panic p ↦ panic p
  ]

  -- `Vec::with_capacity` refuses more than `isize::MAX` bytes. Each round copies at least a byte.
  unfoldable pub copy_bytes_from_user : ℕ → ℕ → Act Kernel (List ℕ)
  unfolding process_page_table copy_in
  copy_bytes_from_user ptr len = do
    fail_if (ptr == 0) null_pointer
    pml4 ← process_page_table
    if ltb len (2 ^ 63)
        then with_memory (copy_in len pml4 ptr 0 len [])
        else fault capacity_overflow

  unfoldable pub writable_entry : ℕ → ℕ → ℕ → Act Memory ℕ
  writable_entry pml4 ptr copied = do
    pte ← user_entry pml4 ptr copied
    fail_if (not (contains (flags pte) writable)) address_is_not_writable
    pure pte

  -- `while copied < bytes.len()` of `copy_to_user`: `bytes` is what is not copied yet.
  unfoldable pub copy_out : ℕ → ℕ → ℕ → ℕ → List ℕ → Act Memory (Unit {0})
  copy_out fuel pml4 ptr copied [] m = ok tt m
  copy_out zero pml4 ptr copied (b ∷ bs) m = panic out_of_fuel
  copy_out (suc fuel) pml4 ptr copied (b ∷ bs) m = elim (writable_entry pml4 ptr copied m) [
    | ok pte t ↦
        let page_offset = (ptr + copied) % page_size in
        let to_copy = min (page_size - page_offset) (length (b ∷ bs)) in
        copy_out fuel pml4 ptr (copied + to_copy) (drop to_copy (b ∷ bs))
          (write_bytes (addr pte) page_offset (take to_copy (b ∷ bs)) t)
    | err e t ↦ err e t
    | panic p ↦ panic p
  ]

  unfoldable pub copy_to_user : ℕ → List ℕ → Act Kernel (Unit {0})
  copy_to_user ptr [] k = ok tt k
  copy_to_user ptr (b ∷ bs) k =
      (do
        fail_if (ptr == 0) null_pointer
        pml4 ← process_page_table
        with_memory (copy_out (length (b ∷ bs)) pml4 ptr 0 (b ∷ bs)))
        k
