-- ===== src/Exec/Loops.antt =====
-- kernel/src/exec/mod.rs: the loops that copy and clear by pages come to their end.
use ferri_os.Base.{
  ℕ, zero, suc, ◌+◌, ◌-◌, ◌%◌, ◌≤◌, ◌<◌, ◌≡◌, ◌≢◌, min, false, not, List, [], ◌∷◌, arith, ltb,
  Bool-cases, inl, inr, ltb→lt, length, ok, panic, >>=-elim, ok_or, fail_if, IsFueled,
  bind-IsFueled, ok_or-IsFueled, fail_if-IsFueled,
}
use ferri_os.Base.Error.{exec_address_is_not_mapped, exec_address_is_not_present}
use ferri_os.Base.Panic.{out_of_fuel}
use ferri_os.Memory.{Memory, page_size, virt_addr, walk_pagetable, is_present}
use ferri_os.Memory.Paging.{Paging}
use ferri_os.Base.{drop}
use ferri_os.Exec.Space.{
  add_u64, mapped_entry, copy_chunk, copy_chunks, copy_to_user_pagetable, zero_chunk, zero_chunks,
  zero_user_range,
}

length-drop : (n : ℕ) (xs : List ℕ) → length (drop n xs) ≡ length xs - n
length-drop zero xs = omega arith
length-drop (suc n) [] = omega arith
length-drop (suc n) (x ∷ xs) = omega (arith, length-drop n xs)

add_u64-IsFueled : (a b : ℕ) (m : Memory) → IsFueled (add_u64 a b m)
unfolding add_u64
add_u64-IsFueled a b m h = ground arith

module _ (x86 : Paging) (pml4 : ℕ) where
  mapped_entry-IsFueled : (address : ℕ) (m : Memory) → IsFueled (mapped_entry x86 pml4 address m)
  unfolding mapped_entry
  mapped_entry-IsFueled address m =
      bind-IsFueled (virt_addr x86 address) _ m (λ h. ground arith)
        λ va t _.
          let w = walk_pagetable x86 false pml4 va t in
          bind-IsFueled (ok_or w.0 exec_address_is_not_mapped) _ w.1
            (ok_or-IsFueled w.0 exec_address_is_not_mapped w.1)
            λ slot u _.
              let entry = w.1.tables slot.table slot.index in
              bind-IsFueled (fail_if (not (is_present x86 entry)) exec_address_is_not_present) _ u
                (fail_if-IsFueled (not (is_present x86 entry)) exec_address_is_not_present u)
                λ _ _ _ h. absurd cc

  -- A round copies what the page has room for.
  copy_chunk-IsFueled :
      (dst written : ℕ) (src : List ℕ) (m : Memory)
      → IsFueled (copy_chunk x86 pml4 dst written src m)
  unfolding copy_chunk
  copy_chunk-IsFueled dst written src m =
      bind-IsFueled (add_u64 dst written) _ m (add_u64-IsFueled dst written m) λ address t _.
        bind-IsFueled (mapped_entry x86 pml4 address) _ t (mapped_entry-IsFueled address t)
          λ entry u _ h. absurd cc

  copy_chunk-pos :
      (dst written : ℕ) (src : List ℕ) (m : Memory) {n : ℕ} {t : Memory}
      → copy_chunk x86 pml4 dst written src m ≡ ok n t
      → 0 < length src
      → 0 < n
  unfolding copy_chunk
  copy_chunk-pos dst written src m {n} h pos = >>=-elim (add_u64 dst written) _ m h λ address t _ h.
      >>=-elim (mapped_entry x86 pml4 address) _ t h λ entry u _ h.
        let e : n ≡ min (page_size - address % page_size) (length src) = cc in omega arith

  copy_chunks-IsFueled :
      (fuel dst written : ℕ) (src : List ℕ) (m : Memory)
      → length src ≤ fuel
      → IsFueled (copy_chunks x86 fuel pml4 dst written src m)
  unfolding copy_chunks
  copy_chunks-IsFueled fuel dst written [] m le = λ h. absurd cc
  copy_chunks-IsFueled zero dst written (b ∷ bs) m le = absurd (omega arith)
  copy_chunks-IsFueled (suc fuel) dst written (b ∷ bs) m le =
      bind-IsFueled (copy_chunk x86 pml4 dst written (b ∷ bs))
        (λ n. copy_chunks x86 fuel pml4 dst (written + n) (drop n (b ∷ bs))) m
        (copy_chunk-IsFueled dst written (b ∷ bs) m)
        λ n t e.
          let pos = copy_chunk-pos dst written (b ∷ bs) m e (omega arith) in
          copy_chunks-IsFueled fuel dst (written + n) (drop n (b ∷ bs)) t
            (omega (arith, length-drop n (b ∷ bs)))

  zero_chunk-IsFueled :
      (start cleared len : ℕ) (m : Memory) → IsFueled (zero_chunk x86 pml4 start cleared len m)
  unfolding zero_chunk
  zero_chunk-IsFueled start cleared len m =
      bind-IsFueled (add_u64 start cleared) _ m (add_u64-IsFueled start cleared m) λ address t _.
        bind-IsFueled (mapped_entry x86 pml4 address) _ t (mapped_entry-IsFueled address t)
          λ entry u _ h. absurd cc

  zero_chunk-pos :
      (start cleared len : ℕ) (m : Memory) {n : ℕ} {t : Memory}
      → zero_chunk x86 pml4 start cleared len m ≡ ok n t
      → cleared < len
      → 0 < n
  unfolding zero_chunk
  zero_chunk-pos start cleared len m {n} h pos =
      >>=-elim (add_u64 start cleared) _ m h λ address t _ h.
        >>=-elim (mapped_entry x86 pml4 address) _ t h λ entry u _ h.
          let e : n ≡ min (page_size - address % page_size) (len - cleared) = cc in omega arith

  zero_chunks-IsFueled :
      (fuel start cleared len : ℕ) (m : Memory)
      → len ≤ cleared + fuel
      → IsFueled (zero_chunks x86 fuel pml4 start cleared len m)
  unfolding zero_chunks
  zero_chunks-IsFueled zero start cleared len m le = λ h. ground (arith, h)
  zero_chunks-IsFueled (suc fuel) start cleared len m le = elim (Bool-cases (ltb cleared len)) [
    | inr done ↦ λ h. ground (arith, done, h)
    | inl more ↦
        rw (more, zero_chunks)
          (bind-IsFueled (zero_chunk x86 pml4 start cleared len)
            (λ n. zero_chunks x86 fuel pml4 start (cleared + n) len) m
            (zero_chunk-IsFueled start cleared len m)
            λ n t e.
              let pos = zero_chunk-pos start cleared len m e (ltb→lt cleared len more) in
              zero_chunks-IsFueled fuel start (cleared + n) len t (omega arith))
  ]

-- Both loops of the loader over pages end within the rounds allowed to them, a round for each byte,
-- whatever the page tables hold: each round gets at least a byte further.
pub copy_to_user_pagetable-zero_user_range :
    (x86 : Paging) (pml4 dst len : ℕ) (src : List ℕ) (m : Memory)
    → (copy_to_user_pagetable x86 pml4 dst src m ≢ panic out_of_fuel)
      × (zero_user_range x86 pml4 dst len m ≢ panic out_of_fuel)
unfolding copy_to_user_pagetable zero_user_range
copy_to_user_pagetable-zero_user_range x86 pml4 dst len src m = (
  copy_chunks-IsFueled x86 pml4 (length src) dst 0 src m (omega arith),
  zero_chunks-IsFueled x86 pml4 len dst 0 len m (omega arith),
)
