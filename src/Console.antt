-- ===== src/Console.antt =====
-- kernel/src/console/framebuffer: text on a screen of pixels. Sums and products of positions on a
-- screen are far below 2^64, so only the subtractions and the slices of the code can fail.
pub mod Draw
pub mod Scroll
use ferri_os.Base.{
  ℕ, zero, suc, ◌+◌, ◌-◌, ◌*◌, ◌/◌, ◌%◌, ◌^◌, ◌≤◌, ◌≡◌, Bool, true, false, ◌&&◌, ◌||◌, Option, none,
  some, List, [], ◌∷◌, ltb, leb, ◌==◌, if◌then◌else◌, length, get_elem?, Ret, ok, err, panic, Act,
  ◌>>=◌, ◌>>◌, pure, fault, get, put, expect, when,
}
use ferri_os.Base.Panic.{arithmetic_overflow, index_out_of_bounds, unwrap_failed}

-- `PixelFormat` and `FrameBufferInfo` of the crate `bootloader_api`.
pub data PixelFormat : Type 0 where
  rgb bgr u8 other_format : PixelFormat

pub record FrameBufferInfo : Type 0 where
  pub width : ℕ
  pub height : ℕ
  pub stride : ℕ
  pub bytes_per_pixel : ℕ
  pub pixel_format : PixelFormat

-- `get_raster` of the crate `noto_sans_mono_bitmap`, for the weight and height of the code: the rows of
-- intensities of a character, if the font has it.
pub record Font : Type 0 where
  pub get_raster : ℕ → Option (List (List ℕ))

-- `FrameBufferWriter`, and `ScrollingWriter` around it. The buffer is a function and its length.
pub record FrameBufferWriter : Type 0 where
  pub buffer : ℕ → ℕ
  pub buffer_len : ℕ
  pub info : FrameBufferInfo
  pub x_pos : ℕ
  pub y_pos : ℕ
  pub color : ℕ × ℕ × ℕ

abbrev pub char_width : ℕ
char_width = 8

abbrev pub line_height : ℕ
line_height = 16

abbrev pub line_feed : ℕ
line_feed = 10

-- `a - b` on usize, which the dev profile checks.
abbrev pub sub_usize : ℕ → ℕ → Act FrameBufferWriter ℕ
sub_usize a b = if ltb a b then fault arithmetic_overflow else pure (a - b)

-- Some bytes of the buffer from `start` up to `stop` replaced; a slice outside the buffer is refused.
abbrev pub replaced : ℕ → ℕ → (ℕ → ℕ) → (ℕ → ℕ) → ℕ → ℕ
replaced start stop bytes buffer j = if leb start j && ltb j stop then bytes j else buffer j

abbrev pub replace : ℕ → ℕ → (ℕ → ℕ) → Act FrameBufferWriter (Unit {0})
replace start stop bytes s =
    if leb start stop && leb stop s.buffer_len
    then ok tt (record s { buffer = replaced start stop bytes s.buffer })
    else panic index_out_of_bounds

abbrev pub clear : FrameBufferWriter → FrameBufferWriter
clear s = record s {
  x_pos = 0;
  y_pos = 0;
  buffer = λ j. if ltb j s.buffer_len then 0 else s.buffer j;
}

-- `FrameBufferWriter::new` and `ScrollingWriter::new`
abbrev pub new_writer : (ℕ → ℕ) → ℕ → FrameBufferInfo → FrameBufferWriter
new_writer buffer len info = clear (record {
  buffer = buffer;
  buffer_len = len;
  info = info;
  x_pos = 0;
  y_pos = 0;
  color = (255, 255, 0);
})

abbrev pub newline : FrameBufferWriter → FrameBufferWriter
newline s = record s { x_pos = 0; y_pos = s.y_pos + line_height }

-- The four bytes of a pixel.
abbrev pub color_bytes : PixelFormat → ℕ × ℕ × ℕ → ℕ → List ℕ
color_bytes rgb (r, g, b) intensity = r ∷ g ∷ b ∷ 0 ∷ []
color_bytes bgr (r, g, b) intensity = b ∷ g ∷ r ∷ 0 ∷ []
color_bytes u8 (r, g, b) intensity = intensity ∷ 0 ∷ 0 ∷ 0 ∷ []
color_bytes other_format (r, g, b) intensity = r ∷ g ∷ b ∷ 0 ∷ []

-- `color as u16 * intensity as u16 / 255`
abbrev pub shade : ℕ × ℕ × ℕ → ℕ → ℕ × ℕ × ℕ
shade (r, g, b) intensity = (r * intensity / 255, g * intensity / 255, b * intensity / 255)

abbrev pub byte_at : List ℕ → ℕ → ℕ
byte_at bytes i = elim (get_elem? bytes i) [ none ↦ 0 | some b ↦ b ]

unfoldable pub write_pixel : ℕ → ℕ → ℕ → Act FrameBufferWriter (Unit {0})
write_pixel x y intensity s =
    let pixel_offset = y * s.info.stride + x in
    let bytes = color_bytes s.info.pixel_format (shade s.color intensity) intensity in
    let bytes_per_pixel = s.info.bytes_per_pixel in
    let byte_offset = pixel_offset * bytes_per_pixel in
    if leb (byte_offset + bytes_per_pixel) s.buffer_len
    then (if leb bytes_per_pixel 4
        then replace byte_offset (byte_offset + bytes_per_pixel)
            (λ j. byte_at bytes (j - byte_offset)) s
        else panic index_out_of_bounds)
    else ok tt s

-- The rest of a row of a character, from column `x` of it on.
unfoldable pub draw_row : ℕ → ℕ → List ℕ → Act FrameBufferWriter (Unit {0})
unfolding write_pixel
draw_row x y [] s = ok tt s
draw_row x y (intensity ∷ row) s = elim (write_pixel (s.x_pos + x) (s.y_pos + y) intensity s) [
  | ok _ t ↦ draw_row (suc x) y row t
  | err e t ↦ err e t
  | panic p ↦ panic p
]

unfoldable pub draw_rows : ℕ → List (List ℕ) → Act FrameBufferWriter (Unit {0})
unfolding draw_row
draw_rows y [] s = ok tt s
draw_rows y (row ∷ rows) s = elim (draw_row 0 y row s) [
  | ok _ t ↦ draw_rows (suc y) rows t
  | err e t ↦ err e t
  | panic p ↦ panic p
]

abbrev pub space : ℕ
space = 32

unfoldable pub scroll : Act FrameBufferWriter (Unit {0})
scroll = do
  s ← get
  let stride = s.info.stride * s.info.bytes_per_pixel
  let line_size = line_height * stride
  let total_size = s.info.height * stride
  when (ltb total_size line_size) (fault index_out_of_bounds)
  when (ltb s.buffer_len total_size) (fault index_out_of_bounds)
  replace 0 (total_size - line_size) λ j. s.buffer (j + line_size)
  rows ← sub_usize s.info.height line_height
  replace (rows * stride) total_size λ j. 0
  s ← get
  y ← sub_usize s.y_pos line_height
  put (record s { y_pos = y })

module _ (font : Font) where
  open font use {get_raster}

  unfoldable pub draw_char : ℕ → Act FrameBufferWriter (Unit {0})
  unfolding draw_rows
  draw_char c = elim (get_raster c) [
    | some raster ↦ draw_rows 0 raster
    | none ↦ (do raster ← expect (get_raster space) unwrap_failed; draw_rows 0 raster)
  ]

  unfoldable pub write_char : ℕ → Act FrameBufferWriter (Unit {0})
  unfolding draw_char
  write_char c s = elim (c == line_feed) [
    | true ↦ ok tt (newline s)
    | false ↦
        (do draw_char c; t ← get; put (record t { x_pos = t.x_pos + char_width }))
          (if ltb s.info.width (s.x_pos + char_width) then newline s else s)
  ]

  -- What `write_str` does for a character.
  unfoldable pub put_char : ℕ → Act FrameBufferWriter (Unit {0})
  unfolding scroll write_char
  put_char c = do
    s ← get
    when (ltb s.info.height (s.y_pos + 16)) scroll
    s ← get
    when ((c == line_feed || ltb s.info.width (s.x_pos + 8)) && ltb s.info.height (s.y_pos + 32))
        scroll
    write_char c

  -- `write_str` of the characters of a string.
  unfoldable pub write_str : List ℕ → Act FrameBufferWriter (Unit {0})
  unfolding put_char
  write_str [] s = ok tt s
  write_str (c ∷ cs) s = elim (put_char c s) [
    | ok _ t ↦ write_str cs t
    | err e t ↦ err e t
    | panic p ↦ panic p
  ]
