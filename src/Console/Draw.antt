-- ===== src/Console/Draw.antt =====
-- kernel/src/console/framebuffer/framebuffer_writer.rs: drawing changes pixels and nothing else.
use ferri_os.Base.{
  ℕ, suc, ◌+◌, ◌-◌, ◌*◌, ◌≤◌, ◌≡◌, refl, ◌∙◌, inl, inr, true, List, [], ◌∷◌, arith, leb, Bool-cases,
  Ret, ok, >>=-ok,
}
use ferri_os.Console.{
  replace, replaced, color_bytes, shade, byte_at, FrameBufferWriter, write_pixel, draw_row,
  draw_rows,
}

-- A change of the pixels alone.
abbrev pub with_buffer : FrameBufferWriter → (ℕ → ℕ) → FrameBufferWriter
with_buffer s b = record s { buffer = b }

abbrev pub Draws : FrameBufferWriter → Ret FrameBufferWriter (Unit {0}) → Type 0
Draws s r = (b : ℕ → ℕ) × (r ≡ ok tt (with_buffer s b))

pub replace-replaced :
    (start stop : ℕ) (bytes : ℕ → ℕ) (s : FrameBufferWriter)
    → start ≤ stop
    → stop ≤ s.buffer_len
    → replace start stop bytes s ≡ ok tt (with_buffer s (replaced start stop bytes s.buffer))
replace-replaced start stop bytes s le fits =
    let a : leb start stop ≡ true = ground arith in
    let b : leb stop s.buffer_len ≡ true = ground arith in rw (a, b) refl

write_pixel-Draws :
    (x y intensity : ℕ) (s : FrameBufferWriter)
    → s.info.bytes_per_pixel ≤ 4
    → Draws s (write_pixel x y intensity s)
unfolding write_pixel
write_pixel-Draws x y intensity s le =
    let n = s.info.bytes_per_pixel in
    let at = (y * s.info.stride + x) * n in
    elim (Bool-cases (leb (at + n) s.buffer_len)) [
      | inr out ↦ (s.buffer, rw out refl)
      | inl inside ↦
          let small : leb n 4 ≡ true = ground arith in
          let ordered : leb at (at + n) ≡ true = ground arith in
          let bytes = color_bytes s.info.pixel_format (shade s.color intensity) intensity in
          (
            replaced at (at + n) (λ j. byte_at bytes (j - at)) s.buffer,
            rw (inside, small, ordered) refl,
          )
    ]

draw_row-Draws :
    (x y : ℕ) (row : List ℕ) (s : FrameBufferWriter)
    → s.info.bytes_per_pixel ≤ 4
    → Draws s (draw_row x y row s)
unfolding draw_row
draw_row-Draws x y [] s le = (s.buffer, refl)
draw_row-Draws x y (i ∷ row) s le =
    let (b, e) = write_pixel-Draws (s.x_pos + x) (s.y_pos + y) i s le in
    let (b', e') = draw_row-Draws (suc x) y row (with_buffer s b) le in
    (b', >>=-ok (write_pixel (s.x_pos + x) (s.y_pos + y) i) (λ _. draw_row (suc x) y row) s e ∙ e')

pub draw_rows-Draws :
    (y : ℕ) (rows : List (List ℕ)) (s : FrameBufferWriter)
    → s.info.bytes_per_pixel ≤ 4
    → Draws s (draw_rows y rows s)
unfolding draw_rows
draw_rows-Draws y [] s le = (s.buffer, refl)
draw_rows-Draws y (row ∷ rows) s le =
    let (b, e) = draw_row-Draws 0 y row s le in
    let (b', e') = draw_rows-Draws (suc y) rows (with_buffer s b) le in
    (b', >>=-ok (draw_row 0 y row) (λ _. draw_rows (suc y) rows) s e ∙ e')
