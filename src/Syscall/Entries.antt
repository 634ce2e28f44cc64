-- ===== src/Syscall/Entries.antt =====
-- kernel/src/syscall/mod.rs: the entry of a user page, which is the same for every byte of the page.
use ferri_os.Base.{
  ℕ, ◌+◌, ◌%◌, ◌^◌, ◌<◌, ◌≡◌, refl, sym, ◌∙◌, ◌⊎◌, inl, inr, Bool, true, false, Option, none, some,
  arith, ltb, Bool-cases, Ret, ok, err, panic, ◌>>=◌, ◌>>◌, pure, >>=-ok, >>=-elim, fail_if_lem,
  put, ok_or, fail_if,
}
use ferri_os.Base.{not}
use ferri_os.Base.Error.{
  address_is_not_mapped, address_is_not_present, address_is_not_user_accessible,
}
use ferri_os.Base.Panic.{arithmetic_overflow, address_is_not_canonical}
use ferri_os.Memory.{
  virt_addr, Memory, Slot, walk_pagetable, next_table, is_present, pml4_index, pdpt_index, pd_index,
  pt_index,
}
use ferri_os.Memory.Paging.{Paging}
use ferri_os.Exec.{add_u64}
use ferri_os.Syscall.{user_entry}

next_table-cases :
    (x86 : Paging) (table i : ℕ) (m : Memory)
    → (next_table x86 false table i m ≡ (none, m))
      ⊎ (next_table x86 false table i m ≡ (some (x86.addr (m.tables table i)), m))
unfolding next_table
next_table-cases x86 table i m = elim (Bool-cases (is_present x86 (m.tables table i))) [
  | inl e ↦ inr (ground (arith, e))
  | inr e ↦ inl (ground (arith, e))
]

-- A walk that does not allocate leaves memory alone.
pub walk_pagetable-keep :
    (x86 : Paging) (pml4 va : ℕ) (m : Memory) → (walk_pagetable x86 false pml4 va m).1 ≡ m
unfolding walk_pagetable
walk_pagetable-keep x86 pml4 va m = elim (next_table-cases x86 pml4 (pml4_index va) m) [
  | inl a ↦ rw a refl
  | inr a ↦
      rw a
        (elim (next_table-cases x86 (x86.addr (m.tables pml4 (pml4_index va))) (pdpt_index va) m) [
          | inl b ↦ rw b refl
          | inr b ↦
              rw b
                (elim (next_table-cases x86
                  (x86.addr (m.tables (x86.addr (m.tables pml4 (pml4_index va))) (pdpt_index va)))
                  (pd_index va) m) [ inl c ↦ rw c refl | inr c ↦ rw c refl ])
        ])
]

same_page :
    (va d : ℕ)
    → va % 4096 + d < 4096
    → (pml4_index (va + d) ≡ pml4_index va)
      × (pdpt_index (va + d) ≡ pdpt_index va)
      × (pd_index (va + d) ≡ pd_index va)
      × (pt_index (va + d) ≡ pt_index va)
same_page va d h = (omega arith, omega arith, omega arith, omega arith)

walk-same_page :
    (x86 : Paging) (pml4 va d : ℕ) (m : Memory)
    → va % 4096 + d < 4096
    → walk_pagetable x86 false pml4 (va + d) m ≡ walk_pagetable x86 false pml4 va m
unfolding walk_pagetable
walk-same_page x86 pml4 va d m h = let s = same_page va d h in rw (s.0, s.1, s.2, s.3) refl

module _ (x86 : Paging) (pml4 ptr : ℕ) where
  -- `user_entry` after the walk.
  tested : Option Slot × Memory → Ret Memory ℕ
  tested (none, m) = err address_is_not_mapped m
  tested (some slot, m) =
      (do
        let pte = m.tables slot.table slot.index
        fail_if (not (is_present x86 pte)) address_is_not_present
        fail_if (not (x86.contains (x86.flags pte) x86.user_accessible))
            address_is_not_user_accessible
        pure pte)
        m

  entry_from : Bool → Bool → Option Slot × Memory → Ret Memory ℕ
  entry_from false c w = panic arithmetic_overflow
  entry_from true false w = panic address_is_not_canonical
  entry_from true true w = tested w

  tested_lem :
      (w : Option Slot × Memory) (m : Memory)
      → (do
        put w.1
        slot ← ok_or w.0 address_is_not_mapped
        let pte = w.1.tables slot.table slot.index
        fail_if (not (is_present x86 pte)) address_is_not_present
        fail_if
            (not (x86.contains (x86.flags pte) x86.user_accessible))
            address_is_not_user_accessible
        pure pte)
          m
        ≡ tested w
  unfolding tested
  tested_lem (none, t) m = refl
  tested_lem (some slot, t) m = refl

  user_entry-parts :
      (i : ℕ) (m : Memory)
      → user_entry x86 pml4 ptr i m
        ≡ entry_from
            (ltb (ptr + i) (2 ^ 64))
            (x86.canonical (ptr + i))
            (walk_pagetable x86 false pml4 (ptr + i) m)
  unfolding user_entry entry_from tested
  user_entry-parts i m = elim (Bool-cases (ltb (ptr + i) (2 ^ 64))) [
    | inr o ↦ ground (arith, o)
    | inl o ↦ elim (Bool-cases (x86.canonical (ptr + i))) [
      | inr c ↦ ground (arith, o, c)
      | inl c ↦
          >>=-ok (add_u64 ptr i) _ m (ground (arith, o))
          ∙ >>=-ok (virt_addr x86 (ptr + i)) _ m (ground (arith, c))
          ∙ tested_lem (walk_pagetable x86 false pml4 (ptr + i) m) m
          ∙ rw (o, c) refl
    ]
  ]

  pub user_entry-same_page :
      (i d : ℕ) (m : Memory)
      → (ptr + i) % 4096 + d < 4096
      → user_entry x86 pml4 ptr (i + d) m ≡ user_entry x86 pml4 ptr i m
  user_entry-same_page i d m h =
      let e : ptr + (i + d) ≡ ptr + i + d = omega arith in
      user_entry-parts (i + d) m
      ∙ rw (e, walk-same_page x86 pml4 (ptr + i) d m h, x86.canonical_page (ptr + i) d h, below d h)
          refl
      ∙ sym (user_entry-parts i m)
    where
      below :
          (d : ℕ)
          → (ptr + i) % 4096 + d < 4096
          → ltb (ptr + i + d) (2 ^ 64) ≡ ltb (ptr + i) (2 ^ 64)
      below d h = ground arith

  -- The tests leave memory alone.
  tested-keep : (w : Option Slot × Memory) {pte : ℕ} {t : Memory} → tested w ≡ ok pte t → t ≡ w.1
  unfolding tested
  tested-keep (none, m) h = cc
  tested-keep (some slot, m) h =
      let pte = m.tables slot.table slot.index in
      >>=-elim (fail_if (not (is_present x86 pte)) address_is_not_present) _ m h λ _ t1 e h.
        >>=-elim
          (fail_if (not (x86.contains (x86.flags pte) x86.user_accessible))
            address_is_not_user_accessible)
          _ t1 h
          λ _ t2 f h.
            let e' = (fail_if_lem (not (is_present x86 pte)) address_is_not_present m e).1 in
            let f' =
              (fail_if_lem (not (x86.contains (x86.flags pte) x86.user_accessible))
                address_is_not_user_accessible t1 f).1 in
            cc

  pub user_entry-keep :
      (i : ℕ) (m : Memory) {pte : ℕ} {t : Memory} → user_entry x86 pml4 ptr i m ≡ ok pte t → t ≡ m
  unfolding entry_from
  user_entry-keep i m {pte} {t} h =
      kept (ltb (ptr + i) (2 ^ 64)) (x86.canonical (ptr + i)) (sym (user_entry-parts i m) ∙ h)
    where
      kept :
          (b c : Bool)
          → entry_from b c (walk_pagetable x86 false pml4 (ptr + i) m) ≡ ok pte t
          → t ≡ m
      kept false c h = absurd cc
      kept true false h = absurd cc
      kept true true h =
          tested-keep (walk_pagetable x86 false pml4 (ptr + i) m) h
          ∙ walk_pagetable-keep x86 pml4 (ptr + i) m
