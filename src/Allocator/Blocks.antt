-- ===== src/Allocator/Blocks.antt =====
-- kernel/src/allocator/fixed_size_block.rs: the block sizes, and blocks that come back.
use ferri_os.Base.{
  ℕ, zero, suc, ◌≤◌, ◌<◌, ◌≡◌, refl, ap, ◌⊎◌, inl, inr, Bool, true, false, none, some, List, [],
  ◌∷◌, arith, leb, Bool-cases, Option-cases, ok, get_elem?, set, get_elem?-set, position, max,
  length, get_elem?-in_bounds, get_elem?-eq-some-lt, get_elem?-replicate,
}
use ferri_os.Allocator.{
  FallbackHeap, FixedSizeBlockAllocator, block_sizes, list_node_size, list_index, alloc,
  alloc_block, dealloc, dealloc_block,
}

earlier :
    {A : Type 0} (p : A → Bool) (x : A) (xs : List A) {k : ℕ}
    → p x ≡ false
    → ((j : ℕ) (y : A) → j < k → get_elem? xs j ≡ some y → p y ≡ false)
    → (j : ℕ) (z : A) → j < suc k
    → get_elem? (x ∷ xs) j ≡ some z
    → p z ≡ false
earlier p x xs later first zero z lt f = ground (arith, later, f)
earlier p x xs later first (suc j) z lt f = first j z (omega arith) f

-- What a position is: the first place whose value passes the test.
position-first :
    {A : Type 0} (p : A → Bool) (xs : List A) {i : ℕ}
    → position p xs ≡ some i
    → (x : A) × (get_elem? xs i ≡ some x)
      × (p x ≡ true)
      × ((j : ℕ) (y : A) → j < i → get_elem? xs j ≡ some y → p y ≡ false)
unfolding position
position-first p [] h = cc
position-first p (x ∷ xs) {i} h = elim (Bool-cases (p x)) [
  | inl now ↦
      let e : 0 ≡ i = ground (arith, now) in (x, rw (← e) refl, now, λ j y lt. absurd (omega arith))
  | inr later ↦ elim (Option-cases (position p xs)) [
    | inl missing ↦ absurd (ground (arith, later, missing))
    | inr (k, e) ↦
        let (y, here, passes, first) = position-first p xs e in
        let at : suc k ≡ i = ground (arith, later, e) in
        (
          y,
          rw (← at) here,
          passes,
          λ j z lt f. earlier p x xs later first j z (omega (arith, at, lt)) f,
        )
  ]
]

position-none :
    {A : Type 0} (p : A → Bool) (xs : List A)
    → position p xs ≡ none
    → (j : ℕ) {y : A} → get_elem? xs j ≡ some y
    → p y ≡ false
unfolding position
position-none p [] h j f = cc
position-none p (x ∷ xs) h zero f = ground arith
position-none p (x ∷ xs) h (suc j) f = position-none p xs (ground arith) j f

within_max : (a b s : ℕ) → leb (max a b) s ≡ true → (a ≤ s) × (b ≤ s)
within_max a b s h = (ground arith, ground arith)

over_max : (a b s : ℕ) → leb (max a b) s ≡ false → (s < a) ⊎ (s < b)
over_max a b s h = elim (Bool-cases (leb a s)) [
  | inl small ↦ inr (ground arith)
  | inr large ↦ inl (ground arith)
]

block_sizes-large : (i : ℕ) {b : ℕ} → get_elem? block_sizes i ≡ some b → leb list_node_size b ≡ true
block_sizes-large zero h = ground arith
block_sizes-large (suc zero) h = ground arith
block_sizes-large (suc (suc zero)) h = ground arith
block_sizes-large (suc (suc (suc zero))) h = ground arith
block_sizes-large (suc (suc (suc (suc zero)))) h = ground arith
block_sizes-large (suc (suc (suc (suc (suc zero))))) h = ground arith
block_sizes-large (suc (suc (suc (suc (suc (suc zero)))))) h = ground arith
block_sizes-large (suc (suc (suc (suc (suc (suc (suc zero))))))) h = ground arith
block_sizes-large (suc (suc (suc (suc (suc (suc (suc (suc i)))))))) h =
    ground (arith, get_elem?-replicate 1 i h)

-- The list for a size and an alignment is the first whose blocks are no smaller than both; there is
-- none exactly if one of the two is above 2048.
pub list_index_lem :
    (size align : ℕ)
    → ((list_index size align ≡ none) × ((2048 < size) ⊎ (2048 < align)))
      ⊎ ((i : ℕ) × (block_size : ℕ) × (list_index size align ≡ some i)
          × (get_elem? block_sizes i ≡ some block_size)
          × (size ≤ block_size)
          × (align ≤ block_size)
          × ((j smaller : ℕ)
              → j < i
              → get_elem? block_sizes j ≡ some smaller
              → (smaller < size) ⊎ (smaller < align)))
unfolding list_index
list_index_lem size align = elim (Option-cases (list_index size align)) [
  | inl e ↦ inl (
    e,
    over_max size align 2048 (position-none (λ s. leb (max size align) s) block_sizes e 8 refl),
  )
  | inr (i, e) ↦
      let (b, here, fits, first) = position-first (λ s. leb (max size align) s) block_sizes e in
      inr (
        i,
        b,
        e,
        here,
        (within_max size align b fits).0,
        (within_max size align b fits).1,
        λ j s lt f. over_max size align s (first j s lt f),
      )
]

block_of :
    (size align i : ℕ)
    → list_index size align ≡ some i
    → (b : ℕ) × (get_elem? block_sizes i ≡ some b)
unfolding list_index
block_of size align i e =
    let (b, here, _, _) = position-first (λ s. leb (max size align) s) block_sizes e in (b, here)

set-set_back :
    {A : Type 0} (xs : List A) (i : ℕ) (v w : A)
    → get_elem? xs i ≡ some w
    → set (set xs i v) i w ≡ xs
set-set_back [] i v w h = refl
set-set_back (x ∷ xs) zero v w h = ground arith
set-set_back (x ∷ xs) (suc i) v w h = ap (λ t. x ∷ t) (set-set_back xs i v w h)

-- A block that is freed is the next one given out for any size and alignment with the same list, and
-- the allocator is then as before; both calls succeed, the allocator has a list for every block size.
pub dealloc-alloc :
    {H : Type 0} (heap : FallbackHeap H) (a : FixedSizeBlockAllocator H)
    (ptr size align size' align' i : ℕ)
    → list_index size align ≡ some i
    → list_index size' align' ≡ some i
    → length a.list_heads ≡ length block_sizes
    → (b : FixedSizeBlockAllocator H) × (dealloc heap ptr size align a ≡ ok tt b)
      × (alloc heap size' align' b ≡ ok ptr a)
unfolding dealloc alloc dealloc_block alloc_block
dealloc-alloc heap a ptr size align size' align' i e e' l =
    let (b, here) = block_of size align i e in
    let (next, found) =
      get_elem?-in_bounds a.list_heads i (rw l (get_elem?-eq-some-lt block_sizes i here)) in
    (
      record a { list_heads = set a.list_heads i (ptr ∷ next) },
      ground (arith, found, here, block_sizes-large i here),
      ground (
        arith,
        found,
        get_elem?-set a.list_heads i i (ptr ∷ next),
        set-set_back a.list_heads i (ptr ∷ next) next found,
      ),
    )
