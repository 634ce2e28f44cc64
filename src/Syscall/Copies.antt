-- ===== src/Syscall/Copies.antt =====
-- kernel/src/syscall/mod.rs, `copy_bytes_from_user`: a copy page by page is a copy byte by byte.
use ferri_os.Base.{
  ℕ, zero, suc, ◌+◌, ◌-◌, ◌%◌, ◌^◌, ◌≤◌, ◌<◌, ◌≡◌, refl, sym, ap, ◌∙◌, min, List, [], ◌∷◌, ◌++◌,
  arith, ltb, ◌==◌, if◌then◌else◌, Ret, ok, err, panic, Act, ◌>>=◌, ◌>>◌, append_assoc, append-nil,
  pure, >>=-ok, fault, fail_if,
}
use ferri_os.Base.Error.{null_pointer}
use ferri_os.Base.Panic.{capacity_overflow}
use ferri_os.Memory.{Memory, page_size, read_byte, read_bytes}
use ferri_os.Memory.Paging.{Paging}
use ferri_os.Kernel.{Kernel, with_memory}
use ferri_os.Syscall.{process_page_table, user_entry, copy_in, copy_bytes_from_user}
use ferri_os.Syscall.Entries.{user_entry-same_page, user_entry-keep}

module _ (x86 : Paging) (pml4 ptr : ℕ) where
  -- Byte `i` of a copy.
  abbrev pub user_byte : ℕ → Act Memory ℕ
  user_byte i = do
    pte ← user_entry x86 pml4 ptr i
    λ m. ok (read_byte (x86.addr pte) ((ptr + i) % page_size) m) m

  -- `n` bytes, each with a walk of its own.
  abbrev pub bytewise : ℕ → ℕ → Act Memory (List ℕ)
  bytewise zero i m = ok [] m
  bytewise (suc n) i m = elim (user_byte i m) [
    | ok b t ↦ elim (bytewise n (suc i) t) [
      | ok bs u ↦ ok (b ∷ bs) u
      | err e u ↦ err e u
      | panic p ↦ panic p
    ]
    | err e t ↦ err e t
    | panic p ↦ panic p
  ]

module _ (x86 : Paging) (pml4 ptr : ℕ) where
  -- Bytes before the result of a copy.
  prefix : List ℕ → Ret Memory (List ℕ) → Ret Memory (List ℕ)
  prefix bs (ok cs m) = ok (bs ++ cs) m
  prefix bs (err e m) = err e m
  prefix bs (panic p) = panic p

  prefix-prefix :
      (bs cs : List ℕ) (r : Ret Memory (List ℕ)) → prefix bs (prefix cs r) ≡ prefix (bs ++ cs) r
  unfolding prefix
  prefix-prefix bs cs (ok ds m) = λ i. ok (sym (append_assoc bs cs ds) i) m
  prefix-prefix bs cs (err e m) = refl
  prefix-prefix bs cs (panic p) = refl

  prefix-[] : (r : Ret Memory (List ℕ)) → prefix [] r ≡ r
  unfolding prefix
  prefix-[] (ok ds m) = refl
  prefix-[] (err e m) = refl
  prefix-[] (panic p) = refl

  bytewise-ok :
      (n i : ℕ) (m : Memory) {pte : ℕ}
      → user_entry x86 pml4 ptr i m ≡ ok pte m
      → bytewise x86 pml4 ptr (suc n) i m
        ≡ prefix
            (read_byte (x86.addr pte) ((ptr + i) % page_size) m ∷ [])
            (bytewise x86 pml4 ptr n (suc i) m)
  unfolding prefix
  bytewise-ok n i m {pte} h =
      >>=-ok (user_byte x86 pml4 ptr i)
        (λ b t. elim (bytewise x86 pml4 ptr n (suc i) t) [
          | ok bs u ↦ ok (b ∷ bs) u
          | err e u ↦ err e u
          | panic p ↦ panic p
        ])
        m (>>=-ok (user_entry x86 pml4 ptr i) _ m h)
      ∙ consed (read_byte (x86.addr pte) ((ptr + i) % page_size) m)
          (bytewise x86 pml4 ptr n (suc i) m)
    where
      consed :
          (b : ℕ) (r : Ret Memory (List ℕ))
          → (pure b >>= λ b _. elim r [
            | ok bs u ↦ ok (b ∷ bs) u
            | err e u ↦ err e u
            | panic p ↦ panic p
          ])
              m
            ≡ prefix (b ∷ []) r
      consed b (ok bs u) = refl
      consed b (err e u) = refl
      consed b (panic p) = refl

  -- The bytes of one page.
  bytewise-page :
      (n rest i o : ℕ) (m : Memory) {pte : ℕ}
      → ((j : ℕ) → j < n → user_entry x86 pml4 ptr (i + j) m ≡ ok pte m)
      → ((j : ℕ) → j < n → (ptr + (i + j)) % page_size ≡ o + j)
      → bytewise x86 pml4 ptr (n + rest) i m
        ≡ prefix (read_bytes (x86.addr pte) o n m) (bytewise x86 pml4 ptr rest (i + n) m)
  unfolding read_bytes
  bytewise-page zero rest i o m there at =
      let e : i + 0 ≡ i = omega arith in
      let f : 0 + rest ≡ rest = omega arith in
      rw (e, f) (sym (prefix-[] (bytewise x86 pml4 ptr rest i m)))
  bytewise-page (suc n) rest i o m {pte} there at =
      let shift : (j : ℕ) → i + suc j ≡ suc i + j = λ j. omega arith in
      let first : i + 0 ≡ i = omega arith in
      let start : (ptr + i) % page_size ≡ o = rw first at (at 0 (omega arith)) ∙ omega arith in
      let ih =
        bytewise-page n rest (suc i) (suc o) m {pte = pte}
          (λ j lt.
            ap (λ x. user_entry x86 pml4 ptr x m) (sym (shift j)) ∙ there (suc j) (omega arith))
          (λ j lt.
            ap (λ x. (ptr + x) % page_size) (sym (shift j))
            ∙ at (suc j) (omega arith)
            ∙ omega arith) in
      let e : suc n + rest ≡ suc (n + rest) = omega arith in
      let f : i + suc n ≡ suc i + n = omega arith in
      rw (e, f)
        (bytewise-ok (n + rest) i m {pte = pte}
            (ap (λ x. user_entry x86 pml4 ptr x m) (sym first) ∙ there 0 (omega arith))
          ∙ rw (start, ih)
              (prefix-prefix (read_byte (x86.addr pte) o m ∷ [])
                (read_bytes (x86.addr pte) (suc o) n m) (bytewise x86 pml4 ptr rest (suc i + n) m)))

  -- A round of the loop over pages, for what `user_entry` gives.
  abbrev round : ℕ → ℕ → ℕ → List ℕ → Ret Memory ℕ → Ret Memory (List ℕ)
  round fuel n i acc r = elim r [
    | ok pte t ↦
        let o = (ptr + i) % page_size in
        let c = min (page_size - o) (suc n) in
        copy_in x86 fuel pml4 ptr (i + c) (suc n - c) (acc ++ read_bytes (x86.addr pte) o c t) t
    | err e t ↦ err e t
    | panic p ↦ panic p
  ]

  -- The bytes of a page, then the bytes after it.
  bytewise-chunk :
      (n i : ℕ) (m : Memory) {pte : ℕ}
      → user_entry x86 pml4 ptr i m ≡ ok pte m
      → (c : ℕ) → c ≡ min (page_size - (ptr + i) % page_size) (suc n)
      → bytewise x86 pml4 ptr (suc n) i m
        ≡ prefix
            (read_bytes (x86.addr pte) ((ptr + i) % page_size) c m)
            (bytewise x86 pml4 ptr (suc n - c) (i + c) m)
  bytewise-chunk n i m {pte} e c is =
      let split : suc n ≡ c + (suc n - c) = omega arith in
      ap (λ x. bytewise x86 pml4 ptr x i m) split
      ∙ bytewise-page c (suc n - c) i ((ptr + i) % page_size) m {pte = pte}
          (λ j lt. user_entry-same_page x86 pml4 ptr i j m (omega arith) ∙ e) (λ j lt. omega arith)

  round-bytewise :
      (fuel n i : ℕ) (acc : List ℕ) (m : Memory)
      → ((n' i' : ℕ) (acc' : List ℕ)
          → n' ≤ fuel
          → copy_in x86 fuel pml4 ptr i' n' acc' m ≡ prefix acc' (bytewise x86 pml4 ptr n' i' m))
      → n ≤ fuel
      → (r : Ret Memory ℕ) → user_entry x86 pml4 ptr i m ≡ r
      → round fuel n i acc r ≡ prefix acc (bytewise x86 pml4 ptr (suc n) i m)
  unfolding prefix
  round-bytewise fuel n i acc m ih le (ok pte t) e =
      let o = (ptr + i) % page_size in
      let c = min (page_size - o) (suc n) in
      let same = user_entry-keep x86 pml4 ptr i m e in
      let e' : user_entry x86 pml4 ptr i m ≡ ok pte m = e ∙ ap (ok pte) same in
      rw same (
        ih (suc n - c) (i + c) (acc ++ read_bytes (x86.addr pte) o c m) (omega arith)
        ∙ sym (
            prefix-prefix acc (read_bytes (x86.addr pte) o c m)
              (bytewise x86 pml4 ptr (suc n - c) (i + c) m))
        ∙ ap (prefix acc) (sym (bytewise-chunk n i m {pte = pte} e' c refl)))
  round-bytewise fuel n i acc m ih le (err c t) e = rw (prefix, e) refl
  round-bytewise fuel n i acc m ih le (panic p) e = rw (prefix, e) refl

  -- The loop over pages, with what it has copied before.
  copy_in-bytewise :
      (fuel n i : ℕ) (acc : List ℕ) (m : Memory)
      → n ≤ fuel
      → copy_in x86 fuel pml4 ptr i n acc m ≡ prefix acc (bytewise x86 pml4 ptr n i m)
  unfolding copy_in prefix
  copy_in-bytewise fuel zero i acc m le = λ j. ok (sym (append-nil acc) j) m
  copy_in-bytewise zero (suc n) i acc m le = absurd (omega arith)
  copy_in-bytewise (suc fuel) (suc n) i acc m le =
      round-bytewise fuel n i acc m (λ n' i' acc' le. copy_in-bytewise fuel n' i' acc' m le)
        (omega arith) (user_entry x86 pml4 ptr i m) refl

-- The copy without pages: every byte on its own.
abbrev pub copy_bytewise : Paging → ℕ → ℕ → Act Kernel (List ℕ)
copy_bytewise x86 ptr len = do
  fail_if (ptr == 0) null_pointer
  pml4 ← process_page_table
  if ltb len (2 ^ 63) then with_memory (bytewise x86 pml4 ptr len 0) else fault capacity_overflow

-- `copy_bytes_from_user`, which looks up each page once and copies what the range has of it, is in
-- every case (the bytes, each error, each panic, and the state) the copy that looks up the page of
-- every byte; its loop never runs out of rounds.
pub copy_bytes_from_user-bytewise :
    (x86 : Paging) (ptr len : ℕ) (k : Kernel)
    → copy_bytes_from_user x86 ptr len k ≡ copy_bytewise x86 ptr len k
unfolding copy_bytes_from_user
copy_bytes_from_user-bytewise x86 ptr len k = λ i.
    (do
      fail_if (ptr == 0) null_pointer
      pml4 ← process_page_table
      if ltb len (2 ^ 63) then with_memory (same pml4 i) else fault capacity_overflow)
      k
  where
    same : (pml4 : ℕ) → copy_in x86 len pml4 ptr 0 len [] ≡ bytewise x86 pml4 ptr len 0
    same pml4 i m =
        (copy_in-bytewise x86 pml4 ptr len len 0 [] m (omega arith)
            ∙ prefix-[] x86 pml4 ptr (bytewise x86 pml4 ptr len 0 m))
          i
