-- ===== src/Tests/User.antt =====
-- The theorems on the user library and on the console on small data.
use ferri_os.Base.{
  ℕ, zero, suc, ◌+◌, ◌≤◌, ◌<◌, ◌≡◌, refl, some, List, [], ◌∷◌, arith, ltb, ◌==◌, if◌then◌else◌,
  replicate, length, ok, err,
}
use ferri_os.Base.Error.{argument_is_too_long, too_many_arguments}
use ferri_os.Console.{FrameBufferWriter, Font, rgb, new_writer, write_str}
use ferri_os.Console.Scroll.{IsScreen, write_str-IsScreen}
use ferri_os.Syscall.{copy_cstr_from_user, copy_argv, max_arg_len}
use ferri_os.Userlib.{exec, copy_c_string, copy_arg_bufs}
use ferri_os.Userlib.Limits.{Stored, exec-copy_argv}
use ferri_os.Tests.Machine.{machine}

-- A path "i" at 0x1000, an argument "h" at 0x2000, and the pointers at 0x3000.
abbrev user : ℕ → ℕ
user a = if a == 0x1000 then 105 else if a == 0x2000 then 104 else 0

abbrev word : ℕ → ℕ
word a = if a == 0x3000 then 0x2000 else 0

abbrev path : List ℕ
path = 105 ∷ []

abbrev arguments : List (List ℕ)
arguments = (104 ∷ []) ∷ []

Stored-zeros :
    (memory : ℕ → ℕ) (n a : ℕ)
    → ((j : ℕ) → a ≤ j → j < a + n → memory j ≡ 0)
    → Stored memory a (replicate n 0)
Stored-zeros memory zero a h = tt
Stored-zeros memory (suc n) a h = (
  h a (omega arith) (omega arith),
  Stored-zeros memory n (suc a) λ j le lt. h j (omega arith) (omega arith),
)

exec-copy_argv_example :
    (copy_cstr_from_user user 0x1000 max_arg_len machine
      ≡ (if ltb (length path) 256 then ok path machine else err argument_is_too_long machine))
    × (copy_argv user word 0x3000 machine ≡ (
        if ltb (length arguments) 16 then ok arguments machine else err too_many_arguments machine))
unfolding exec copy_c_string copy_arg_bufs
exec-copy_argv_example =
    exec-copy_argv user word path arguments 0x1000 0x3000 machine
      {call = record {
        path_buf = 105 ∷ 0 ∷ replicate 255 0;
        arg_bufs = (104 ∷ 0 ∷ replicate 255 0) ∷ [];
      }}
      refl (omega arith) (omega arith)
      (refl, (refl, Stored-zeros user 255 0x1002 λ j le lt. ground arith))
      (omega arith, (refl, (refl, Stored-zeros user 255 0x2002 λ j le lt. ground arith)), refl)
      (omega arith, tt) ((omega arith, tt), omega arith, tt)

-- Two lines of ten characters, three bytes for a pixel, and a font of one pixel.
abbrev screen : FrameBufferWriter
screen =
    new_writer (λ j. 7) 7680
      (record { width = 80; height = 32; stride = 80; bytes_per_pixel = 3; pixel_format = rgb })

abbrev font : Font
font = record { get_raster = λ c. some ((255 ∷ []) ∷ []) }

screen-IsScreen : IsScreen screen
screen-IsScreen = record {
  two_lines = omega arith;
  four_bytes = omega arith;
  buffer_fits = omega arith;
  line_start = refl;
  on_screen = omega arith;
}

write_str-IsScreen_example :
    (s1 : FrameBufferWriter) × (write_str font (72 ∷ 10 ∷ 10 ∷ 73 ∷ []) screen ≡ ok tt s1)
    × IsScreen s1
    × (s1.info ≡ screen.info)
write_str-IsScreen_example =
    write_str-IsScreen font {blank = (255 ∷ []) ∷ []} refl (72 ∷ 10 ∷ 10 ∷ 73 ∷ []) screen
      screen-IsScreen
