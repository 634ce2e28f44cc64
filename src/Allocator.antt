-- ===== src/Allocator.antt =====
-- kernel/src/allocator/fixed_size_block.rs: the heap of the kernel, as lists of free blocks.
pub mod Blocks
use ferri_os.Base.{
  ℕ, Bool, true, false, Option, none, some, List, [], ◌∷◌, if◌then◌else◌, leb, ◌==◌, Ret, ok, panic,
  Act, get_elem?, set, position, replicate, max,
}
use ferri_os.Base.Panic.{index_out_of_bounds, assertion_failed, unwrap_failed}

-- What the code uses of `linked_list_allocator::Heap`: sizes and alignments are numbers, addresses too.
pub record FallbackHeap (H : Type 0) : Type 0 where
  pub empty : H
  pub init : ℕ → ℕ → H → H
  pub allocate_first_fit : ℕ → ℕ → H → Option ℕ × H
  pub deallocate : ℕ → ℕ → ℕ → H → H

-- `BLOCK_SIZES`
abbrev pub block_sizes : List ℕ
block_sizes = 8 ∷ 16 ∷ 32 ∷ 64 ∷ 128 ∷ 256 ∷ 512 ∷ 1024 ∷ 2048 ∷ []

-- The list of a size holds the addresses of its free blocks; the code keeps the links in the blocks.
pub record FixedSizeBlockAllocator (H : Type 0) : Type 0 where
  pub list_heads : List (List ℕ)
  pub fallback_allocator : H

-- `size_of::<ListNode>()`, and its alignment.
abbrev pub list_node_size : ℕ
list_node_size = 8

unfoldable pub list_index : ℕ → ℕ → Option ℕ
unfolding position
list_index size align = position (λ s. leb (max size align) s) block_sizes

module _ {H : Type 0} (heap : FallbackHeap H) where
  open heap use {empty, init, allocate_first_fit, deallocate}

  -- `FixedSizeBlockAllocator::new`
  abbrev pub new_allocator : FixedSizeBlockAllocator H
  new_allocator = record { list_heads = replicate 9 []; fallback_allocator = empty }

  abbrev pub init_allocator : ℕ → ℕ → FixedSizeBlockAllocator H → FixedSizeBlockAllocator H
  init_allocator heap_start heap_size a = record a {
    fallback_allocator = init heap_start heap_size a.fallback_allocator;
  }

  -- The null pointer is the address 0.
  unfoldable pub fallback_alloc : ℕ → ℕ → Act (FixedSizeBlockAllocator H) ℕ
  fallback_alloc size align a =
      let (found, h) = allocate_first_fit size align a.fallback_allocator in
      elim found [
        | none ↦ ok 0 (record a { fallback_allocator = h })
        | some ptr ↦ ok ptr (record a { fallback_allocator = h })
      ]

  -- `alloc` with the block list `index`.
  unfoldable pub alloc_block : ℕ → Act (FixedSizeBlockAllocator H) ℕ
  unfolding fallback_alloc
  alloc_block index a = elim (get_elem? a.list_heads index) [
    | none ↦ panic index_out_of_bounds
    | some [] ↦ elim (get_elem? block_sizes index) [
      | none ↦ panic index_out_of_bounds
      | some block_size ↦ fallback_alloc block_size block_size a
    ]
    | some (node ∷ rest) ↦ ok node (record a { list_heads = set a.list_heads index rest })
  ]

  unfoldable pub alloc : ℕ → ℕ → Act (FixedSizeBlockAllocator H) ℕ
  unfolding alloc_block fallback_alloc
  alloc size align a = elim (list_index size align) [
    | none ↦ fallback_alloc size align a
    | some index ↦ alloc_block index a
  ]

  -- `dealloc` with the block list `index`.
  unfoldable pub dealloc_block : ℕ → ℕ → Act (FixedSizeBlockAllocator H) (Unit {0})
  dealloc_block ptr index a = elim (get_elem? a.list_heads index) [
    | none ↦ panic index_out_of_bounds
    | some next ↦ elim (get_elem? block_sizes index) [
      | none ↦ panic index_out_of_bounds
      | some block_size ↦
          if leb list_node_size block_size
          then ok tt (record a { list_heads = set a.list_heads index (ptr ∷ next) })
          else panic assertion_failed
    ]
  ]

  unfoldable pub dealloc : ℕ → ℕ → ℕ → Act (FixedSizeBlockAllocator H) (Unit {0})
  unfolding dealloc_block
  dealloc ptr size align a = elim (list_index size align) [
    | none ↦
        if ptr == 0
        then panic unwrap_failed
        else ok tt
            (record a { fallback_allocator = deallocate ptr size align a.fallback_allocator })
    | some index ↦ dealloc_block ptr index a
  ]
