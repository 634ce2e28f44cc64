-- ===== src/Console/Scroll.antt =====
-- kernel/src/console/framebuffer: the cursor stays on the screen.
use ferri_os.Base.{
  ℕ, ◌+◌, ◌-◌, ◌*◌, ◌%◌, ◌≤◌, ◌<◌, ◌≡◌, refl, ◌∙◌, inl, inr, Bool, true, false, ◌&&◌, ◌||◌, some,
  List, [], ◌∷◌, arith, ltb, ◌==◌, Bool-cases, Option-cases, Ret, ok, >>=-ok, when, fault,
}
use ferri_os.Base.Panic.{index_out_of_bounds}
use native.Mathlib.Nat.{mul-le-mul_right}
use ferri_os.Console.{
  sub_usize, replace, replaced, FrameBufferWriter, Font, draw_char, write_char, put_char, write_str,
  scroll, newline, space, line_feed,
}
use ferri_os.Console.Draw.{with_buffer, Draws, replace-replaced, draw_rows-Draws}

-- A screen of two lines at least, in whose buffer its rows of pixels fit.
pub record IsScreen (s : FrameBufferWriter) : Type 0 where
  pub two_lines : 32 ≤ s.info.height
  pub four_bytes : s.info.bytes_per_pixel ≤ 4
  pub buffer_fits : s.info.height * (s.info.stride * s.info.bytes_per_pixel) ≤ s.buffer_len
  pub line_start : s.y_pos % 16 ≡ 0
  pub on_screen : s.y_pos + 16 ≤ s.info.height

-- A screen with other pixels and another cursor.
IsScreen-moved :
    (s : FrameBufferWriter)
    → IsScreen s
    → (b : ℕ → ℕ) (x y : ℕ) → y % 16 ≡ 0
    → y + 16 ≤ s.info.height
    → IsScreen (record s { buffer = b; x_pos = x; y_pos = y })
IsScreen-moved s is b x y start on = record {
  two_lines = is.two_lines;
  four_bytes = is.four_bytes;
  buffer_fits = is.buffer_fits;
  line_start = start;
  on_screen = on;
}

when-false :
    {S : Type 0} (b : Bool) (m : S → Ret S (Unit {0})) (s : S) → b ≡ false → when b m s ≡ ok tt s
when-false true m s e = absurd cc
when-false false m s e = refl

when-true : {S : Type 0} (b : Bool) (m : S → Ret S (Unit {0})) (s : S) → b ≡ true → when b m s ≡ m s
when-true true m s e = refl
when-true false m s e = absurd cc

sub_usize_lem : (a b : ℕ) (s : FrameBufferWriter) → b ≤ a → sub_usize a b s ≡ ok (a - b) s
sub_usize_lem a b s le = let e : ltb a b ≡ false = ground arith in rw e refl

-- A scroll moves the pixels and takes the cursor one line up.
scroll_lem :
    (s : FrameBufferWriter)
    → IsScreen s
    → 16 ≤ s.y_pos
    → (b : ℕ → ℕ) × (scroll s ≡ ok tt (record s { buffer = b; y_pos = s.y_pos - 16 }))
unfolding scroll
scroll_lem s is le =
    let stride = s.info.stride * s.info.bytes_per_pixel in
    let total = s.info.height * stride in
    let lines =
      mul-le-mul_right {m = 16} {n = s.info.height} stride (omega (arith, is.two_lines)) in
    let rows = mul-le-mul_right {m = s.info.height - 16} {n = s.info.height} stride (omega arith) in
    let a : ltb total (16 * stride) ≡ false = ground (arith, lines) in
    let b : ltb s.buffer_len total ≡ false = ground (arith, is.buffer_fits) in
    let up = replaced 0 (total - 16 * stride) (λ j. s.buffer (j + 16 * stride)) s.buffer in
    let clean = replaced ((s.info.height - 16) * stride) total (λ j. 0) up in
    (
      clean,
      >>=-ok (when (ltb total (16 * stride)) (fault index_out_of_bounds)) _ s
            (when-false (ltb total (16 * stride)) (fault index_out_of_bounds) s a)
          ∙ >>=-ok (when (ltb s.buffer_len total) (fault index_out_of_bounds)) _ s
              (when-false (ltb s.buffer_len total) (fault index_out_of_bounds) s b)
          ∙ >>=-ok (replace 0 (total - 16 * stride) λ j. s.buffer (j + 16 * stride)) _ s (
              replace-replaced 0 (total - 16 * stride) (λ j. s.buffer (j + 16 * stride)) s
                (omega arith) (omega (arith, is.buffer_fits)))
          ∙ >>=-ok (sub_usize s.info.height 16) _ (with_buffer s up)
              (sub_usize_lem s.info.height 16 (with_buffer s up) (omega (arith, is.two_lines)))
          ∙ >>=-ok (replace ((s.info.height - 16) * stride) total λ j. 0) _ (with_buffer s up) (
              replace-replaced ((s.info.height - 16) * stride) total (λ j. 0) (with_buffer s up)
                rows is.buffer_fits)
          ∙ >>=-ok (sub_usize s.y_pos 16) _ (with_buffer s clean)
              (sub_usize_lem s.y_pos 16 (with_buffer s clean) le),
    )

-- Where `put_char` may scroll before a character: on a new line below the last one.
abbrev breaks : ℕ → FrameBufferWriter → Bool
breaks c s = c == line_feed || ltb s.info.width (s.x_pos + 8)

module _ (font : Font) {blank : List (List ℕ)}
    (has_space : font.get_raster space ≡ some blank) where
  draw_char-Draws :
      (c : ℕ) (s : FrameBufferWriter) → s.info.bytes_per_pixel ≤ 4 → Draws s (draw_char font c s)
  unfolding draw_char
  draw_char-Draws c s le = elim (Option-cases (font.get_raster c)) [
    | inr (raster, e) ↦ rw (draw_char, e) (draw_rows-Draws 0 raster s le)
    | inl e ↦ rw (draw_char, e, has_space) (draw_rows-Draws 0 blank s le)
  ]

  -- A line further down at a line break, and no further than the screen.
  write_char-IsScreen :
      (c : ℕ) (s : FrameBufferWriter)
      → IsScreen s
      → (breaks c s ≡ true → s.y_pos + 32 ≤ s.info.height)
      → (s1 : FrameBufferWriter) × (write_char font c s ≡ ok tt s1)
        × IsScreen s1
        × (s1.info ≡ s.info)
  unfolding write_char
  write_char-IsScreen c s is room = elim (Bool-cases (c == line_feed)) [
    | inl e ↦ (
      newline s,
      rw (write_char, e) refl,
      IsScreen-moved s is s.buffer 0 (s.y_pos + 16) (omega (arith, is.line_start))
          (omega (arith, room (ground (arith, e)))),
      refl,
    )
    | inr e ↦ elim (Bool-cases (ltb s.info.width (s.x_pos + 8))) [
      | inl f ↦
          let (b, g) = draw_char-Draws c (newline s) is.four_bytes in
          (
            record (newline s) { buffer = b; x_pos = 8 },
            rw (write_char, e, f) (>>=-ok (draw_char font c) _ (newline s) g),
            IsScreen-moved s is b 8 (s.y_pos + 16) (omega (arith, is.line_start))
                (omega (arith, room (ground (arith, e, f)))),
            refl,
          )
      | inr f ↦
          let (b, g) = draw_char-Draws c s is.four_bytes in
          (
            record s { buffer = b; x_pos = s.x_pos + 8 },
            rw (write_char, e, f) (>>=-ok (draw_char font c) _ s g),
            IsScreen-moved s is b (s.x_pos + 8) s.y_pos is.line_start is.on_screen,
            refl,
          )
    ]
  ]

  put_char-IsScreen :
      (c : ℕ) (s : FrameBufferWriter)
      → IsScreen s
      → (s1 : FrameBufferWriter) × (put_char font c s ≡ ok tt s1) × IsScreen s1 × (s1.info ≡ s.info)
  unfolding put_char
  put_char-IsScreen c s is =
      let above : ltb s.info.height (s.y_pos + 16) ≡ false = ground (arith, is.on_screen) in
      let last = breaks c s && ltb s.info.height (s.y_pos + 32) in
      elim (Bool-cases last) [
        | inr e ↦
            let (s1, g, is1, same) = write_char-IsScreen c s is λ br. ground (arith, e, br) in
            (
              s1,
              >>=-ok (when (ltb s.info.height (s.y_pos + 16)) scroll) _ s
                    (when-false (ltb s.info.height (s.y_pos + 16)) scroll s above)
                  ∙ >>=-ok (when last scroll) _ s (when-false last scroll s e)
                  ∙ g,
              is1,
              same,
            )
        | inl e ↦
            let low : s.info.height < s.y_pos + 32 = ground (arith, e) in
            let (b, g) = scroll_lem s is (omega (arith, low, is.two_lines, is.line_start)) in
            let s' : FrameBufferWriter = record s { buffer = b; y_pos = s.y_pos - 16 } in
            let is' =
              IsScreen-moved s is b s.x_pos (s.y_pos - 16) (omega (arith, is.line_start))
                (omega (arith, is.on_screen)) in
            let (s1, h, is1, same) =
              write_char-IsScreen c s' is'
                λ _. omega (arith, low, is.two_lines, is.line_start, is.on_screen) in
            (
              s1,
              >>=-ok (when (ltb s.info.height (s.y_pos + 16)) scroll) _ s
                    (when-false (ltb s.info.height (s.y_pos + 16)) scroll s above)
                  ∙ >>=-ok (when last scroll) _ s (when-true last scroll s e ∙ g)
                  ∙ h,
              is1,
              same,
            )
      ]

  -- On a screen of two lines at least whose buffer has room for its pixels, and with a font that has
  -- the space, printing any text succeeds: no slice or subtraction of the scrolling code goes wrong,
  -- the line of the cursor (its y, and nothing is said of its x) is a whole line of 16 pixels on the
  -- screen, and the screen stays what it is.
  pub write_str-IsScreen :
      (cs : List ℕ) (s : FrameBufferWriter)
      → IsScreen s
      → (s1 : FrameBufferWriter) × (write_str font cs s ≡ ok tt s1)
        × IsScreen s1
        × (s1.info ≡ s.info)
  unfolding write_str
  write_str-IsScreen [] s is = (s, refl, is, refl)
  write_str-IsScreen (c ∷ cs) s is =
      let (s1, e, is1, same) = put_char-IsScreen c s is in
      let (s2, f, is2, same') = write_str-IsScreen cs s1 is1 in
      (s2, >>=-ok (put_char font c) (λ _. write_str font cs) s e ∙ f, is2, same' ∙ same)
