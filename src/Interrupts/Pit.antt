-- ===== src/Interrupts/Pit.antt =====
-- kernel/src/interrupts.rs, `init_pit_timer`: the divisor that the timer gets.
use ferri_os.Base.{
  ℕ, ◌+◌, ◌*◌, ◌/◌, ◌%◌, ◌≤◌, ◌<◌, ◌≡◌, refl, ◌⊎◌, inl, inr, Bool, true, false, [], ◌∷◌, ◌++◌,
  arith, ltb, ltb→lt, ltb→le, Bool-cases, ok, panic, >>=-ok, >>=-panic, ◌∙◌,
}
use native.Mathlib.Nat.{div-lt_iff_lt-mul, div-mul-le_self, mul-le-mul_right}
use ferri_os.Base.Panic.{assertion_failed}
use ferri_os.Interrupts.{Timer, assert, pit_base_frequency, init_pit_timer}

assert-true : (b : Bool) (t : Timer) → b ≡ true → assert b t ≡ ok tt t
assert-true true t e = refl
assert-true false t e = absurd cc

assert-false : (b : Bool) (t : Timer) → b ≡ false → assert b t ≡ panic assertion_failed
assert-false true t e = absurd cc
assert-false false t e = refl

-- For a frequency from 19 to 1193182 Hz, `init_pit_timer` writes the command and then two bytes, the low
-- one first, that make up the quotient of the base frequency, which is a 16-bit number but 0; for any
-- other frequency it panics at an assertion, never at the division.
pub init_pit_timer_lem :
    (frequency_hz : ℕ) (t : Timer)
    → ((19 ≤ frequency_hz)
        × (frequency_hz ≤ pit_base_frequency)
        × ((low : ℕ) × (high : ℕ) × (low < 256)
            × (high < 256)
            × (0 < low + 256 * high)
            × ((low + 256 * high) * frequency_hz ≤ pit_base_frequency)
            × (pit_base_frequency < (low + 256 * high + 1) * frequency_hz)
            × (init_pit_timer frequency_hz t
                ≡ ok tt (record t {
                  ports =
                      ((t.ports ++ ((0x43, 0x36) ∷ [])) ++ ((0x40, low) ∷ []))
                      ++ ((0x40, high) ∷ []);
                }))))
      ⊎ (((frequency_hz < 19) ⊎ (pit_base_frequency < frequency_hz))
          × (init_pit_timer frequency_hz t ≡ panic assertion_failed))
unfolding init_pit_timer
init_pit_timer_lem f t = elim (Bool-cases (ltb 0 f)) [
  | inr e ↦ inr (inl (omega (arith, ltb→le 0 f e)), ground (arith, e))
  | inl e ↦
      let q = pit_base_frequency / f in
      let pos : 0 < f = ltb→lt 0 f e in
      let (one_to, _) = div-lt_iff_lt-mul {x = pit_base_frequency} {y = 1} pos in
      let (word_to, _) = div-lt_iff_lt-mul {x = pit_base_frequency} {y = 65536} pos in
      let (next_to, _) = div-lt_iff_lt-mul {x = pit_base_frequency} {y = q + 1} pos in
      elim (Bool-cases (ltb 0 q)) [
        | inr z ↦
            let none_left = one_to (omega (arith, ltb→le 0 q z)) in
            inr (
              inr (omega (arith, none_left)),
              >>=-ok (assert (ltb 0 f)) _ t (assert-true (ltb 0 f) t e)
                  ∙ >>=-panic (assert (ltb 0 q)) _ t (assert-false (ltb 0 q) t z),
            )
        | inl z ↦ elim (Bool-cases (ltb q 65536)) [
          | inr w ↦
              let much = mul-le-mul_right {m = 65536} {n = q} f (ltb→le q 65536 w) in
              inr (
                inl (omega (arith, much, div-mul-le_self pit_base_frequency f)),
                >>=-ok (assert (ltb 0 f)) _ t (assert-true (ltb 0 f) t e)
                    ∙ >>=-ok (assert (ltb 0 q)) _ t (assert-true (ltb 0 q) t z)
                    ∙ >>=-panic (assert (ltb q 65536)) _ t (assert-false (ltb q 65536) t w),
              )
          | inl w ↦
              let fits = word_to (ltb→lt q 65536 w) in
              let next = next_to (omega arith) in
              let whole : q % 256 + 256 * (q / 256) ≡ q = omega arith in
              let below = div-mul-le_self pit_base_frequency f in
              let some_left = ltb→lt 0 q z in
              inl (
                omega (arith, fits),
                omega (arith, below, mul-le-mul_right {m = 1} {n = q} f (omega (arith, some_left))),
                (
                  q % 256,
                  q / 256,
                  omega arith,
                  omega (arith, ltb→lt q 65536 w),
                  omega (arith, some_left),
                  rw whole below,
                  rw whole next,
                  >>=-ok (assert (ltb 0 f)) _ t (assert-true (ltb 0 f) t e)
                      ∙ >>=-ok (assert (ltb 0 q)) _ t (assert-true (ltb 0 q) t z)
                      ∙ >>=-ok (assert (ltb q 65536)) _ t (assert-true (ltb q 65536) t w),
                ),
              )
        ]
      ]
]
