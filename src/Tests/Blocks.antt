-- ===== src/Tests/Blocks.antt =====
-- The theorems on heap blocks and on strings of user memory, on small data.
use ferri_os.Base.{
  ℕ, ◌+◌, ◌<◌, ◌≡◌, ◌≢◌, ◌⊎◌, refl, arith, some, ok, err, ltb, if◌then◌else◌, position,
}
use ferri_os.Base.Error.{argument_is_too_long}
use ferri_os.Allocator.{
  FallbackHeap, FixedSizeBlockAllocator, new_allocator, list_index, dealloc, alloc,
}
use ferri_os.Allocator.Blocks.{dealloc-alloc}
use ferri_os.Syscall.{copy_cstr_from_user}
use ferri_os.Syscall.Arguments.{bytes_at, copy_cstr_from_user_lem}

-- A heap that only grows.
abbrev bump : FallbackHeap ℕ
bump = record {
  empty = 0;
  init = λ start size h. start;
  allocate_first_fit = λ size align h. (some h, h + size);
  deallocate = λ ptr size align h. h;
}

dealloc-alloc_example :
    (b : FixedSizeBlockAllocator ℕ) × (dealloc bump 0x4000 24 8 (new_allocator bump) ≡ ok tt b)
    × (alloc bump 30 8 b ≡ ok 0x4000 (new_allocator bump))
unfolding list_index position
dealloc-alloc_example = dealloc-alloc bump (new_allocator bump) 0x4000 24 8 30 8 2 refl refl refl

-- Three letters and a zero byte at address 100.
abbrev user : ℕ → ℕ
user a = if ltb a 103 then 65 else 0

copy_cstr_from_user_lem_example :
    ((m : ℕ) × (m < 256)
      × (copy_cstr_from_user user 100 256 bump ≡ ok (bytes_at user 100 m) bump)
      × (user (100 + m) ≡ 0)
      × ((j : ℕ) → j < m → user (100 + j) ≢ 0))
    ⊎ ((copy_cstr_from_user user 100 256 bump ≡ err argument_is_too_long bump)
        × ((j : ℕ) → j < 256 → user (100 + j) ≢ 0))
copy_cstr_from_user_lem_example = copy_cstr_from_user_lem user 100 256 bump (omega arith)
