-- ===== src/Userlib.antt =====
-- userlib/src: what a user program hands to `exec`, its arguments, and formatted output.
pub mod Limits
pub mod Calls
use ferri_os.Base.{
  ℕ, zero, suc, ◌+◌, ◌*◌, ◌^◌, ◌≡◌, ◌≢◌, Bool, true, false, ◌||◌, Option, none, some, List, [], ◌∷◌,
  ◌++◌, ltb, leb, ◌==◌, if◌then◌else◌, length, replicate, take, drop,
}

-- `EXEC_MAX_ARGC`, `EXEC_MAX_ARG_LEN` and `PRINT_FMT_BUF_LEN`
abbrev pub exec_max_argc : ℕ
exec_max_argc = 16

abbrev pub exec_max_arg_len : ℕ
exec_max_arg_len = 256

abbrev pub print_fmt_buf_len : ℕ
print_fmt_buf_len = 256

-- The result is `dst` after the call.
unfoldable pub copy_c_string : List ℕ → List ℕ → Option (List ℕ)
copy_c_string src dst =
    if ltb exec_max_arg_len (length src)
    then none
    else some (src ++ (0 ∷ drop (suc (length src)) dst))

-- `[0u8; EXEC_MAX_ARG_LEN + 1]`
abbrev pub empty_buf : List ℕ
empty_buf = replicate (exec_max_arg_len + 1) 0

-- The loop of `exec` over the arguments.
unfoldable pub copy_arg_bufs : List (List ℕ) → Option (List (List ℕ))
copy_arg_bufs [] = some []
copy_arg_bufs (arg ∷ argv) =
    let rest = copy_arg_bufs argv in
    elim (copy_c_string arg empty_buf) [
      | none ↦ none
      | some buf ↦ elim rest [ none ↦ none | some bufs ↦ some (buf ∷ bufs) ]
    ]

-- The buffers that `exec` gives to the system call, or none if it returns an error at once.
pub record ExecCall : Type 0 where
  pub path_buf : List ℕ
  pub arg_bufs : List (List ℕ)

unfoldable pub exec : List ℕ → List (List ℕ) → Option ExecCall
exec path argv =
    if ltb exec_max_argc (length argv) then none else elim (copy_c_string path empty_buf) [
      | none ↦ none
      | some path_buf ↦ elim (copy_arg_bufs argv) [
        | none ↦ none
        | some arg_bufs ↦ some (record { path_buf = path_buf; arg_bufs = arg_bufs })
      ]
    ]

-- `Args`. `argv` reads a pointer of the array, and `str` the string at an address, empty if it is not UTF-8.
pub record Args : Type 0 where
  pub argc : ℕ
  pub argv : ℕ
  pub index : ℕ

unfoldable pub next : (ℕ → ℕ) → (ℕ → List ℕ) → Args → Option (List ℕ) × Args
next word str args =
    if leb args.argc args.index || (args.argv == 0)
    then (none, args)
    else (let arg_ptr = word (args.argv + 8 * args.index) in
        (if arg_ptr == 0 then none else some (str arg_ptr), record args { index = args.index + 1 }))

-- `StackBuf`
pub record StackBuf : Type 0 where
  pub bytes : List ℕ
  pub len : ℕ

abbrev pub new_stack_buf : StackBuf
new_stack_buf = record { bytes = replicate print_fmt_buf_len 0; len = 0 }

unfoldable pub write_str : List ℕ → StackBuf → Option StackBuf
write_str s buf =
    let new_len = buf.len + length s in
    if ltb new_len (2 ^ 64)
    then (if ltb (length buf.bytes) new_len
        then none
        else some (record {
          bytes = take buf.len buf.bytes ++ s ++ drop new_len buf.bytes;
          len = new_len;
        }))
    else none
