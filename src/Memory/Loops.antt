-- ===== src/Memory/Loops.antt =====
-- kernel/src/memory/umem.rs: rounding to pages, and the loops over pages.
use ferri_os.Base.{
  ℕ, zero, suc, ◌+◌, ◌-◌, ◌*◌, ◌/◌, ◌^◌, ◌≤◌, ◌<◌, ◌≡◌, ◌≢◌, ◌⊎◌, inl, inr, true, arith, ltb, leb,
  Bool-cases, Option-cases, Ret, ok, err, panic, ok_or, pure, ◌>>=◌, ◌>>◌,
}
use ferri_os.Base.{Error, IsFueled, ok-IsFueled, bind-IsFueled}
use ferri_os.Base.Error.{
  size_overflow, page_table_alloc_failed, page_is_already_mapped, frame_alloc_failed,
  address_overflow,
}
use ferri_os.Base.Panic.{out_of_fuel}
use ferri_os.Memory.Paging.{Paging}
use ferri_os.Memory.Frames.{Memory, page_size, allocate_frame, deallocate_frame, zero_frame}
use ferri_os.Memory.Walk.{is_present, walk_pagetable}
use ferri_os.Memory.Uvm.{
  page_round_up, checked_add, unmap_page, unmap_range, rollback_alloc_uvm, dealloc_uvm, page_fuel,
  user_space_top, give_up, map_frame, alloc_page, alloc_range, alloc_uvm,
}

-- Rounding up gives the least multiple of the page size that is not below the value, and fails exactly
-- when the value lies above 2^64 - 4096.
pub page_round_up_lem :
    {S : Type 0} (v : ℕ) (s : S)
    → ((2 ^ 64 < v + page_size) × (page_round_up v s ≡ err size_overflow s))
      ⊎ ((v + page_size ≤ 2 ^ 64)
          × ((q : ℕ) × (page_round_up v s ≡ ok (q * page_size) s)
              × (v ≤ q * page_size)
              × (q * page_size < v + page_size)))
unfolding page_round_up
page_round_up_lem v s = elim (Bool-cases (ltb (v + (page_size - 1)) (2 ^ 64))) [
  | inl fits ↦ inr (
    ground (arith, fits),
    ((v + (page_size - 1)) / page_size, ground (arith, fits), omega arith, omega arith),
  )
  | inr over ↦ inl (ground (arith, over), ground (arith, over))
]

page_round_up-IsFueled : {S : Type 0} (v : ℕ) (s : S) → IsFueled (page_round_up v s)
page_round_up-IsFueled v s h = elim (page_round_up_lem v s) [
  | inl (_, over) ↦ absurd (ground (arith, over, h))
  | inr (_, (q, e, _, _)) ↦ absurd (ground (arith, e, h))
]

page_fuel_lem : (addr stop : ℕ) → stop + page_size ≤ addr + (stop / page_size + 2) * page_size
page_fuel_lem addr stop = omega arith

module _ (x86 : Paging) where
  unmap_page-IsFueled : (pml4 addr : ℕ) (m : Memory) → IsFueled (unmap_page x86 pml4 addr m)
  unfolding unmap_page
  unmap_page-IsFueled pml4 addr m h = ground (arith, h)

  -- One more round of a loop over pages.
  next_page :
      {S A B : Type 0} (r : Ret S A) (addr : ℕ) (loop : ℕ → S → Ret S B)
      → IsFueled r
      → ((t : S) → addr + page_size < 2 ^ 64 → IsFueled (loop (addr + page_size) t))
      → IsFueled {S = S} {A = B}
          (elim (elim r as (λ _. Ret S ℕ) [
            | ok _ t ↦ ok_or (checked_add addr page_size) address_overflow t
            | err e t ↦ err e t
            | panic p ↦ panic p
          ])
            as (λ _. Ret S B) [ ok a t ↦ loop a t | err e t ↦ err e t | panic p ↦ panic p ])
  next_page (ok a t) addr loop h rest e = elim (Bool-cases (ltb (addr + page_size) (2 ^ 64))) [
    | inl fits ↦ rest t (ground (arith, fits)) (rw fits at e)
    | inr over ↦ ground (arith, over, e)
  ]
  next_page (err f t) addr loop h rest e = cc
  next_page (panic p) addr loop h rest e = h (cc)

  unmap_range-IsFueled :
      (fuel pml4 addr stop : ℕ) (m : Memory)
      → 0 < fuel
      → stop + page_size ≤ addr + fuel * page_size
      → IsFueled (unmap_range x86 fuel pml4 addr stop m)
  unfolding unmap_range
  unmap_range-IsFueled zero pml4 addr stop m pos le h = absurd (omega arith)
  unmap_range-IsFueled (suc fuel) pml4 addr stop m pos le h = elim (Bool-cases (ltb addr stop)) [
    | inr done ↦ absurd (ground (arith, done, h))
    | inl more ↦
        next_page (unmap_page x86 pml4 addr m) addr (λ a. unmap_range x86 fuel pml4 a stop)
          (unmap_page-IsFueled pml4 addr m)
          (λ t fits.
            unmap_range-IsFueled fuel pml4 (addr + page_size) stop t (ground arith) (ground arith))
          (rw more at h)
  ]

  give_up-IsFueled :
      (pml4 oldsz addr : ℕ) (e : Error) (m : Memory) → IsFueled (give_up x86 pml4 oldsz addr e m)
  unfolding give_up rollback_alloc_uvm
  give_up-IsFueled pml4 oldsz addr e m =
      bind-IsFueled (page_round_up oldsz) _ m (page_round_up-IsFueled oldsz m) λ start t _.
        bind-IsFueled (rollback_alloc_uvm x86 pml4 start addr) _ t
          (unmap_range-IsFueled (page_fuel x86 addr) pml4 start addr t (omega arith)
            (page_fuel_lem start addr))
          λ _ u _ h. absurd (cc)

  map_frame-IsFueled :
      (pml4 oldsz addr f : ℕ) (m : Memory) → IsFueled (map_frame x86 pml4 oldsz addr f m)
  unfolding map_frame
  map_frame-IsFueled pml4 oldsz addr f m h =
      let walked = walk_pagetable x86 true pml4 addr (zero_frame f m) in
      elim (Bool-cases (x86.canonical addr)) [
        | inr invalid ↦ absurd (ground (arith, invalid, h))
        | inl canonical ↦ elim (Option-cases walked.0) [
          | inl e ↦
              give_up-IsFueled pml4 oldsz addr page_table_alloc_failed (deallocate_frame f walked.1)
                (rw (canonical, map_frame, e) at h)
          | inr (slot, e) ↦
              elim (Bool-cases (is_present x86 (walked.1.tables slot.table slot.index))) [
                | inl mapped ↦
                    give_up-IsFueled pml4 oldsz addr page_is_already_mapped
                      (deallocate_frame f walked.1) (rw (canonical, map_frame, e, mapped) at h)
                | inr free ↦ ok-IsFueled (rw (canonical, map_frame, e, free) at h)
              ]
        ]
      ]

  alloc_page-IsFueled :
      (pml4 oldsz addr : ℕ) (m : Memory) → IsFueled (alloc_page x86 pml4 oldsz addr m)
  unfolding alloc_page
  alloc_page-IsFueled pml4 oldsz addr m h = elim (Option-cases (allocate_frame m).0) [
    | inl e ↦
        give_up-IsFueled pml4 oldsz addr frame_alloc_failed (allocate_frame m).1
          (rw (e, alloc_page) at h)
    | inr (f, e) ↦
        map_frame-IsFueled pml4 oldsz addr f (allocate_frame m).1 (rw (e, alloc_page) at h)
  ]

  alloc_range-IsFueled :
      (fuel pml4 oldsz addr stop : ℕ) (m : Memory)
      → 0 < fuel
      → stop + page_size ≤ addr + fuel * page_size
      → IsFueled (alloc_range x86 fuel pml4 oldsz addr stop m)
  unfolding alloc_range
  alloc_range-IsFueled zero pml4 oldsz addr stop m pos le h = absurd (omega arith)
  alloc_range-IsFueled (suc fuel) pml4 oldsz addr stop m pos le h =
      elim (Bool-cases (ltb addr stop)) [
        | inr done ↦ absurd (ground (arith, done, h))
        | inl more ↦
            next_page (alloc_page x86 pml4 oldsz addr m) addr
              (λ a. alloc_range x86 fuel pml4 oldsz a stop) (alloc_page-IsFueled pml4 oldsz addr m)
              (λ t fits.
                alloc_range-IsFueled fuel pml4 oldsz (addr + page_size) stop t (ground arith)
                  (ground arith))
              (rw more at h)
      ]

  alloc_pages-IsFueled :
      (pml4 oldsz newsz : ℕ) (m : Memory)
      → IsFueled (
          (do
            addr ← page_round_up oldsz
            alloc_range x86 (page_fuel x86 newsz) pml4 oldsz addr newsz
            pure {S = Memory} newsz)
            m)
  alloc_pages-IsFueled pml4 oldsz newsz m =
      bind-IsFueled (page_round_up oldsz) _ m (page_round_up-IsFueled oldsz m) λ addr t _.
        bind-IsFueled (alloc_range x86 (page_fuel x86 newsz) pml4 oldsz addr newsz) _ t
          (alloc_range-IsFueled (page_fuel x86 newsz) pml4 oldsz addr newsz t (omega arith)
            (page_fuel_lem addr newsz))
          λ _ u _ h. absurd (cc)

  unmap_pages-IsFueled :
      (pml4 oldsz newsz : ℕ) (m : Memory)
      → IsFueled (
          (do
            addr ← page_round_up newsz
            unmap_range x86 (page_fuel x86 oldsz) pml4 addr oldsz
            pure {S = Memory} newsz)
            m)
  unmap_pages-IsFueled pml4 oldsz newsz m =
      bind-IsFueled (page_round_up newsz) _ m (page_round_up-IsFueled newsz m) λ addr t _.
        bind-IsFueled (unmap_range x86 (page_fuel x86 oldsz) pml4 addr oldsz) _ t
          (unmap_range-IsFueled (page_fuel x86 oldsz) pml4 addr oldsz t (omega arith)
            (page_fuel_lem addr oldsz))
          λ _ u _ h. absurd (cc)

  -- The rounds allowed to the loops of `alloc_uvm` and `dealloc_uvm` are enough: neither ends for lack
  -- of them.
  pub alloc_uvm-dealloc_uvm :
      (pml4 oldsz newsz : ℕ) (m : Memory)
      → (alloc_uvm x86 pml4 oldsz newsz m ≢ panic out_of_fuel)
        × (dealloc_uvm x86 pml4 oldsz newsz m ≢ panic out_of_fuel)
  unfolding alloc_uvm dealloc_uvm
  alloc_uvm-dealloc_uvm pml4 oldsz newsz m = (
    λ h. elim (Bool-cases (leb user_space_top newsz)) [
      | inl outside ↦ absurd (ground (arith, outside, h))
      | inr inside ↦ elim (Bool-cases (ltb newsz oldsz)) [
        | inl smaller ↦ absurd (ground (arith, inside, smaller, h))
        | inr larger ↦ alloc_pages-IsFueled pml4 oldsz newsz m (rw (inside, larger, alloc_uvm) at h)
      ]
    ],
    λ h. elim (Bool-cases (leb oldsz newsz)) [
      | inl larger ↦ absurd (ground (arith, larger, h))
      | inr smaller ↦ unmap_pages-IsFueled pml4 oldsz newsz m (rw (smaller, dealloc_uvm) at h)
    ],
  )
