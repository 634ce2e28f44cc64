-- ===== src/Heap.antt =====
-- kernel/src/memory/syscalls.rs and `grow_process_heap` of kernel/src/memory/umem.rs: the heap of a
-- process.
pub mod Grow
use ferri_os.Base.{
  ℕ, zero, suc, ◌+◌, ◌-◌, ◌^◌, Bool, true, false, Option, none, some, if◌then◌else◌, ltb, Ret, ok,
  err, panic, Act, ◌>>=◌, ◌>>◌, pure, throw, fault, get, expect, fail_if, is_none,
}
use ferri_os.Base.Error.{no_process}
use ferri_os.Base.Panic.{expect_failed, arithmetic_overflow}
use ferri_os.Memory.{Memory, alloc_uvm, dealloc_uvm}
use ferri_os.Memory.Paging.{Paging}
use ferri_os.Process.{Process}
use ferri_os.Kernel.{Kernel, process_at, current_pid, with_memory}

-- An `isize`: `negsuc n` is -(n + 1).
pub data ℤ : Type 0 where
  pos : ℕ → ℤ
  negsuc : ℕ → ℤ

-- `old_size + n as usize`, which the dev profile checks. A negative `n` wraps around to 2^64 + n.
unfoldable pub new_size : ℕ → ℤ → Act Memory ℕ
new_size old (pos n) m = elim (ltb (old + n) (2 ^ 64)) [
  | true ↦ ok (old + n) m
  | false ↦ panic arithmetic_overflow
]
new_size old (negsuc n) m =
    let n' = 2 ^ 64 - (n + 1) in
    elim (ltb (old + n') (2 ^ 64)) [ true ↦ ok (old + n') m | false ↦ panic arithmetic_overflow ]

-- `get_process_page_table`: the frame of the table stands for the reference to it.
abbrev pub get_process_page_table : Process → Act Memory ℕ
get_process_page_table process = expect process.page_table expect_failed

module _ (x86 : Paging) where
  -- The process as the function leaves it; without a result it has failed.
  unfoldable pub grow_process_heap : ℤ → Process → Act Memory Process
  unfolding new_size
  grow_process_heap n process = do
    let old_size = process.heap_size
    page_table ← get_process_page_table process
    elim n [
      | pos zero ↦ pure process
      | pos (suc i) ↦ do
        wanted ← new_size old_size (pos (suc i))
        size ← alloc_uvm x86 page_table old_size wanted
        pure (record process { heap_size = size })
      | negsuc i ↦ do
        wanted ← new_size old_size (negsuc i)
        size ← dealloc_uvm x86 page_table old_size wanted
        pure (record process { heap_size = size })
    ]

  -- `process_table[pid].unwrap()` is a copy of the process, so the table keeps the old heap size.
  unfoldable pub sbrk : ℤ → Act Kernel ℕ
  unfolding grow_process_heap process_at
  sbrk n = do
    pid ← current_pid
    pid ← expect pid expect_failed
    entry ← process_at pid
    fail_if (is_none entry) no_process
    process ← expect entry expect_failed
    let address = process.heap_size
    with_memory (grow_process_heap n process)
    pure address
