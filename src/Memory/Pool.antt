-- ===== src/Memory/Pool.antt =====
-- kernel/src/memory/mod.rs: the frame allocator as a pool of frames.
use ferri_os.Base.{
  ℕ, zero, suc, ◌+◌, ◌≤◌, ◌≡◌, refl, sym, ap, ◌∙◌, Option, none, some, List, [], ◌∷◌, ◌++◌, arith,
  ◌==◌, if◌then◌else◌, get_elem?, drop,
}
use ferri_os.Memory.Frames.{
  MemoryRegion, Memory, init_frames, usable_frames, allocate_frame, deallocate_frame,
}

-- What the allocator can still give out, in that order.
abbrev pub pool : Memory → List ℕ
pool m = m.recycled_frames ++ drop m.next (usable_frames m.memory_map)

-- A pool gives out its first frame.
abbrev pub first : List ℕ → Option ℕ
first [] = none
first (f ∷ fs) = some f

abbrev pub rest : List ℕ → List ℕ
rest [] = []
rest (f ∷ fs) = fs

first-drop : (xs : List ℕ) (n : ℕ) → get_elem? xs n ≡ first (drop n xs)
first-drop [] zero = refl
first-drop [] (suc n) = refl
first-drop (x ∷ xs) zero = refl
first-drop (x ∷ xs) (suc n) = first-drop xs n

rest-drop : (xs : List ℕ) (n : ℕ) → drop (n + 1) xs ≡ rest (drop n xs)
rest-drop xs n = let e : n + 1 ≡ suc n = omega arith in rw e (by_suc xs n)
  where
    by_suc : (xs : List ℕ) (n : ℕ) → drop (suc n) xs ≡ rest (drop n xs)
    by_suc [] zero = refl
    by_suc [] (suc n) = refl
    by_suc (x ∷ xs) zero = refl
    by_suc (x ∷ xs) (suc n) = by_suc xs n

-- The allocator with the recycled frames `fs`.
abbrev with_recycled : Memory → List ℕ → Memory
with_recycled m fs = record m { recycled_frames = fs }

abbrev IsPool : Memory → Type 0
IsPool m = ((allocate_frame m).0 ≡ first (pool m)) × (pool (allocate_frame m).1 ≡ rest (pool m))

with_recycled-IsPool : (m : Memory) (fs : List ℕ) → IsPool (with_recycled m fs)
unfolding allocate_frame
with_recycled-IsPool m [] =
    (first-drop (usable_frames m.memory_map) m.next, rest-drop (usable_frames m.memory_map) m.next)
with_recycled-IsPool m (f ∷ fs) = (refl, refl)

-- The allocator is the pool: what it gives out is the first frame of the pool, and none exactly if the
-- pool is empty; the pool goes on without it; and a frame that comes back is the next to be given out.
pub allocate_frame-deallocate_frame :
    (m : Memory) (f : ℕ)
    → ((allocate_frame m).0 ≡ first (pool m))
      × (pool (allocate_frame m).1 ≡ rest (pool m))
      × (pool (deallocate_frame f m) ≡ f ∷ pool m)
unfolding deallocate_frame
allocate_frame-deallocate_frame m f =
    let (given, left) = with_recycled-IsPool m m.recycled_frames in (given, left, refl)

-- How often a frame stands in a list.
abbrev pub count : ℕ → List ℕ → ℕ
count f [] = 0
count f (g ∷ gs) = (if g == f then 1 else 0) + count f gs

count-append : (f : ℕ) (xs ys : List ℕ) → count f (xs ++ ys) ≡ count f xs + count f ys
count-append f [] ys = omega arith
count-append f (x ∷ xs) ys = omega (arith, count-append f xs ys)

-- Runs of the kernel from the start of the allocator, with the frames that it holds.
pub data Run (memory_map : List MemoryRegion) : List ℕ → Memory → Type 0 where
  starts : (tables : ℕ → ℕ → ℕ) → Run memory_map [] (init_frames memory_map tables)
  takes :
      (held : List ℕ) (m : Memory) (f : ℕ)
      → Run memory_map held m
      → (allocate_frame m).0 ≡ some f
      → Run memory_map (f ∷ held) (allocate_frame m).1
  finds_none :
      (held : List ℕ) (m : Memory)
      → Run memory_map held m
      → (allocate_frame m).0 ≡ none
      → Run memory_map held (allocate_frame m).1
  gives_back :
      (before after : List ℕ) (m : Memory) (f : ℕ)
      → Run memory_map (before ++ (f ∷ after)) m
      → Run memory_map (before ++ after) (deallocate_frame f m)
  stores :
      (held : List ℕ) (m : Memory) (tables : ℕ → ℕ → ℕ)
      → Run memory_map held m
      → Run memory_map held (record m { tables = tables })

pool_taken :
    (fs : List ℕ) {f : ℕ} → first fs ≡ some f → (g : ℕ) → count g fs ≡ count g (f ∷ rest fs)
pool_taken [] e g = absurd cc
pool_taken (x ∷ fs) {f} e g = let same : x ≡ f = cc in rw same refl

pool_empty : (fs : List ℕ) → first fs ≡ none → rest fs ≡ fs
pool_empty [] e = refl
pool_empty (x ∷ fs) e = absurd cc

-- At every point of a run each usable frame is held or in the pool, as often as the memory map has it.
pub Run-count :
    (memory_map : List MemoryRegion) (held : List ℕ) (m : Memory)
    → Run memory_map held m
    → (f : ℕ) → count f held + count f (pool m) ≡ count f (usable_frames memory_map)
unfolding deallocate_frame
Run-count memory_map held m (starts tables) g = omega arith
Run-count memory_map held m (takes held' m' f run e) g =
    let (given, left) = with_recycled-IsPool m' m'.recycled_frames in
    let ih = Run-count memory_map held' m' run g in
    let taken = pool_taken (pool m') (sym given ∙ e) g in
    let left_count : count g (pool (allocate_frame m').1) ≡ count g (rest (pool m')) =
      ap (count g) left in
    omega (arith, ih, taken, left_count)
Run-count memory_map held m (finds_none held' m' run e) g =
    let (given, left) = with_recycled-IsPool m' m'.recycled_frames in
    rw left (rw (pool_empty (pool m') (sym given ∙ e)) (Run-count memory_map held m' run g))
Run-count memory_map held m (gives_back before after m' f run) g =
    let ih = Run-count memory_map (before ++ (f ∷ after)) m' run g in
    omega (arith, ih, count-append g before (f ∷ after), count-append g before after)
Run-count memory_map held m (stores held' m' tables run) g = Run-count memory_map held' m' run g

-- Where the usable regions of the memory map have no frame in common, no run of allocations and
-- deallocations gives out a frame that is still held.
pub Run-takes_free :
    (memory_map : List MemoryRegion) (held : List ℕ) (m : Memory) {f : ℕ}
    → ((g : ℕ) → count g (usable_frames memory_map) ≤ 1)
    → Run memory_map held m
    → (allocate_frame m).0 ≡ some f
    → count f held ≡ 0
Run-takes_free memory_map held m {f} distinct run e =
    let all = Run-count memory_map (f ∷ held) (allocate_frame m).1 (takes held m f run e) f in
    ground (arith, all, distinct f)
