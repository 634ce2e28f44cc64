-- ===== src/Syscall/Arguments.antt =====
-- kernel/src/syscall/mod.rs: which strings `copy_cstr_from_user` copies.
use ferri_os.Base.{
  ℕ, zero, suc, ◌+◌, ◌≤◌, ◌<◌, ◌≡◌, ◌≢◌, refl, ◌⊎◌, inl, inr, List, [], ◌∷◌, ◌++◌, arith, ◌==◌,
  Bool-cases, ok, err,
}
use native.Mathlib.Decide.{ℕ_discrete}
use ferri_os.Base.Error.{argument_is_too_long}
use ferri_os.Syscall.{copy_cstr, copy_cstr_from_user}

-- The `n` bytes from `ptr` on.
abbrev pub bytes_at : (ℕ → ℕ) → ℕ → ℕ → List ℕ
bytes_at user ptr zero = []
bytes_at user ptr (suc n) = bytes_at user ptr n ++ (user (ptr + n) ∷ [])

copy_cstr_lem :
    {S : Type 0} (user : ℕ → ℕ) (n i ptr : ℕ) (s : S)
    → ((m : ℕ) × (i ≤ m)
        × (m < i + n)
        × (copy_cstr user n i ptr (bytes_at user ptr i) s ≡ ok (bytes_at user ptr m) s)
        × (user (ptr + m) ≡ 0)
        × ((j : ℕ) → i ≤ j → j < m → user (ptr + j) ≢ 0))
      ⊎ ((copy_cstr user n i ptr (bytes_at user ptr i) s ≡ err argument_is_too_long s)
          × ((j : ℕ) → i ≤ j → j < i + n → user (ptr + j) ≢ 0))
unfolding copy_cstr
copy_cstr_lem user zero i ptr s = inr (refl, λ j le lt. absurd (omega arith))
copy_cstr_lem user (suc n) i ptr s = elim (Bool-cases (user (ptr + i) == 0)) [
  | inl stop ↦ inl (
    i,
    omega arith,
    omega arith,
    ground (arith, stop),
    ground (arith, stop),
    λ j le lt. absurd (omega arith),
  )
  | inr more ↦ elim (copy_cstr_lem user n (suc i) ptr s) [
    | inl (m, le, lt, e, z, before) ↦ inl (
      m,
      omega arith,
      omega arith,
      rw more e,
      z,
      λ j p q. elim (ℕ_discrete j i) [
        | yes now ↦ rw now (λ w. ground (arith, w, more))
        | no ne ↦ before j (omega arith) q
      ],
    )
    | inr (e, before) ↦ inr (
      rw more e,
      λ j p q. elim (ℕ_discrete j i) [
        | yes now ↦ rw now (λ w. ground (arith, w, more))
        | no ne ↦ before j (omega arith) (omega arith)
      ],
    )
  ]
]

-- From an address that is not null, `copy_cstr_from_user` returns the bytes before the first zero byte
-- if there is one among the first `max_len`, and else fails: a string of `max_len` bytes or more does
-- not fit. It never does anything else.
pub copy_cstr_from_user_lem :
    {S : Type 0} (user : ℕ → ℕ) (ptr max_len : ℕ) (s : S)
    → ptr ≢ 0
    → ((m : ℕ) × (m < max_len)
        × (copy_cstr_from_user user ptr max_len s ≡ ok (bytes_at user ptr m) s)
        × (user (ptr + m) ≡ 0)
        × ((j : ℕ) → j < m → user (ptr + j) ≢ 0))
      ⊎ ((copy_cstr_from_user user ptr max_len s ≡ err argument_is_too_long s)
          × ((j : ℕ) → j < max_len → user (ptr + j) ≢ 0))
unfolding copy_cstr_from_user
copy_cstr_from_user_lem user ptr max_len s ne = elim (copy_cstr_lem user max_len 0 ptr s) [
  | inl (m, _, lt, e, z, before) ↦
      inl (m, omega arith, ground (arith, ne, e), z, λ j q. before j (omega arith) q)
  | inr (e, before) ↦ inr (ground (arith, ne, e), λ j q. before j (omega arith) (omega arith))
]
