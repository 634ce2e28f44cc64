-- ===== src/Userlib/Limits.antt =====
-- userlib/src/syscalls.rs and kernel/src/syscall/mod.rs: which calls of `exec` the kernel can read.
use ferri_os.Base.{
  ℕ, zero, suc, ◌+◌, ◌*◌, ◌≤◌, ◌<◌, ◌≡◌, ◌≢◌, refl, ◌∙◌, inl, inr, true, false, some, List, [], ◌∷◌,
  ◌++◌, append_assoc, append-nil, arith, ltb, ltb→le, ◌==◌, if◌then◌else◌, length, drop, ok, err,
  Bool-cases, Option-cases, >>=-ok,
}
use ferri_os.Base.Error.{argument_is_too_long, too_many_arguments}
use ferri_os.Syscall.{copy_cstr, copy_cstr_from_user, copy_args, copy_argv, max_arg_len}
use ferri_os.Userlib.{exec_max_argc, copy_c_string, copy_arg_bufs, empty_buf, exec, ExecCall}

-- The bytes of a buffer at an address of user memory.
abbrev pub Stored : (ℕ → ℕ) → ℕ → List ℕ → Type 0
Stored user a [] = Unit {0}
Stored user a (b ∷ bs) = (user a ≡ b) × Stored user (suc a) bs

-- A string of Rust with no zero byte in it.
abbrev pub IsCString : List ℕ → Type 0
IsCString [] = Unit {0}
IsCString (b ∷ bs) = (b ≢ 0) × IsCString bs

-- The pointers to buffers and the null pointer after them.
abbrev pub Pointers : (ℕ → ℕ) → (ℕ → ℕ) → ℕ → List (List ℕ) → Type 0
Pointers user word a [] = word a ≡ 0
Pointers user word a (buf ∷ bufs) =
    (word a ≢ 0) × Stored user (word a) buf × Pointers user word (a + 8) bufs

copy_cstr-Stored :
    {S : Type 0} (user : ℕ → ℕ) (src rest : List ℕ) (n i ptr : ℕ) (bytes : List ℕ) (s : S)
    → Stored user (ptr + i) (src ++ (0 ∷ rest))
    → IsCString src
    → copy_cstr user n i ptr bytes s
      ≡ (if ltb (length src) n then ok (bytes ++ src) s else err argument_is_too_long s)
unfolding copy_cstr
copy_cstr-Stored user src rest zero i ptr bytes s at is = ground arith
copy_cstr-Stored user [] rest (suc n) i ptr bytes s (z, _) is =
    let e : (user (ptr + i) == 0) ≡ true = ground (arith, z) in
    let f : ltb 0 (suc n) ≡ true = ground arith in rw (e, f, append-nil bytes) refl
copy_cstr-Stored user (b ∷ src) rest (suc n) i ptr bytes s (byte, at) (ne, is) =
    let e : (user (ptr + i) == 0) ≡ false = ground (arith, byte, ne) in
    let step : suc (ptr + i) ≡ ptr + suc i = omega arith in
    let ih =
      copy_cstr-Stored user src rest n (suc i) ptr (bytes ++ (b ∷ [])) s (rw step at at) is in
    let same : ltb (suc (length src)) (suc n) ≡ ltb (length src) n = ground arith in
    rw e (rw (same, byte) (ih ∙ rw (append_assoc bytes (b ∷ []) src) refl))

-- The kernel reads a stored string if it is shorter than its limit, and else refuses it.
copy_cstr_from_user-Stored :
    {S : Type 0} (user : ℕ → ℕ) (src rest : List ℕ) (max_len ptr : ℕ) (s : S)
    → ptr ≢ 0
    → Stored user ptr (src ++ (0 ∷ rest))
    → IsCString src
    → copy_cstr_from_user user ptr max_len s
      ≡ (if ltb (length src) max_len then ok src s else err argument_is_too_long s)
unfolding copy_cstr_from_user
copy_cstr_from_user-Stored user src rest max_len ptr s ne at is =
    let e : (ptr == 0) ≡ false = ground (arith, ne) in
    let z : ptr ≡ ptr + 0 = omega arith in
    rw e (copy_cstr-Stored user src rest max_len 0 ptr [] s (rw z at at) is)

-- What `copy_c_string` puts into an empty buffer.
copy_c_string_lem :
    (src : List ℕ) {buf : List ℕ}
    → copy_c_string src empty_buf ≡ some buf
    → (rest : List ℕ) × (buf ≡ src ++ (0 ∷ rest)) × (length src ≤ 256)
unfolding copy_c_string
copy_c_string_lem src h = elim (Bool-cases (ltb 256 (length src))) [
  | inl e ↦ absurd (ground (arith, e, h))
  | inr e ↦ (drop (suc (length src)) empty_buf, ground (arith, e, h), ltb→le 256 (length src) e)
]

-- Every argument is a string with no zero byte that is shorter than the limit of the kernel.
abbrev pub AreShort : List (List ℕ) → Type 0
AreShort [] = Unit {0}
AreShort (arg ∷ argv) = IsCString arg × (length arg < max_arg_len) × AreShort argv

copy_arg_bufs-nil : {bufs : List (List ℕ)} → copy_arg_bufs [] ≡ some bufs → bufs ≡ []
unfolding copy_arg_bufs
copy_arg_bufs-nil h = cc

copy_arg_bufs-cons :
    (arg : List ℕ) (argv : List (List ℕ)) {bufs : List (List ℕ)}
    → copy_arg_bufs (arg ∷ argv) ≡ some bufs
    → (buf : List ℕ) × (rest : List (List ℕ)) × (copy_c_string arg empty_buf ≡ some buf)
      × (copy_arg_bufs argv ≡ some rest)
      × (bufs ≡ buf ∷ rest)
unfolding copy_arg_bufs
copy_arg_bufs-cons arg argv h = elim (Option-cases (copy_c_string arg empty_buf)) [
  | inl e ↦ absurd (ground (arith, e, h))
  | inr (buf, e) ↦ elim (Option-cases (copy_arg_bufs argv)) [
    | inl f ↦ absurd (ground (arith, e, f, h))
    | inr (rest, f) ↦ (buf, rest, e, f, ground (arith, e, f, h))
  ]
]

copy_args-stored :
    {S : Type 0} (user word : ℕ → ℕ) (argv bufs : List (List ℕ)) (n i argv_ptr : ℕ)
    (acc : List (List ℕ)) (s : S)
    → copy_arg_bufs argv ≡ some bufs
    → AreShort argv
    → Pointers user word (argv_ptr + 8 * i) bufs
    → copy_args user word n i argv_ptr acc s
      ≡ (if ltb (length argv) n then ok (acc ++ argv) s else err too_many_arguments s)
unfolding copy_args
copy_args-stored user word argv bufs zero i argv_ptr acc s e short at = ground arith
copy_args-stored user word [] bufs (suc n) i argv_ptr acc s e short at =
    let none_left = copy_arg_bufs-nil e in
    let z : (word (argv_ptr + 8 * i) == 0) ≡ true = ground (arith, rw none_left at at) in
    let f : ltb 0 (suc n) ≡ true = ground arith in rw (copy_args, z, f, append-nil acc) refl
copy_args-stored user word (arg ∷ argv) bufs (suc n) i argv_ptr acc s e (is, lt, short) at =
    let (buf, rest, f, g, h) = copy_arg_bufs-cons arg argv e in
    let (ne, stored, after) = rw h at at in
    let (zeros, buf_is, _) = copy_c_string_lem arg f in
    let p = word (argv_ptr + 8 * i) in
    let z : (p == 0) ≡ false = ground (arith, ne) in
    let fits : ltb (length arg) max_arg_len ≡ true = ground (arith, lt) in
    let read : copy_cstr_from_user user p max_arg_len s ≡ ok arg s =
      rw fits at
        (copy_cstr_from_user-Stored user arg zeros max_arg_len p s ne (rw buf_is at stored) is) in
    let next : argv_ptr + 8 * i + 8 ≡ argv_ptr + 8 * (i + 1) = omega arith in
    let ih =
      copy_args-stored user word argv rest n (i + 1) argv_ptr (acc ++ (arg ∷ [])) s g short
        (rw next at after) in
    let same : ltb (suc (length argv)) (suc n) ≡ ltb (length argv) n = ground arith in
    rw (copy_args, z, same)
      (>>=-ok (copy_cstr_from_user user p max_arg_len)
          (λ arg. copy_args user word n (i + 1) argv_ptr (acc ++ (arg ∷ []))) s read
        ∙ ih
        ∙ rw (append_assoc acc (arg ∷ []) argv) refl)

exec_lem :
    (path : List ℕ) (argv : List (List ℕ)) {call : ExecCall}
    → exec path argv ≡ some call
    → (copy_c_string path empty_buf ≡ some call.path_buf)
      × (copy_arg_bufs argv ≡ some call.arg_bufs)
unfolding exec
exec_lem path argv h = elim (Bool-cases (ltb exec_max_argc (length argv))) [
  | inl e ↦ absurd (ground (arith, e, h))
  | inr e ↦ elim (Option-cases (copy_c_string path empty_buf)) [
    | inl f ↦ absurd (ground (arith, e, f, h))
    | inr (path_buf, f) ↦ elim (Option-cases (copy_arg_bufs argv)) [
      | inl g ↦ absurd (ground (arith, e, f, g, h))
      | inr (arg_bufs, g) ↦ (ground (arith, e, f, g, h), ground (arith, e, f, g, h))
    ]
  ]
]

-- What the user library's `exec` puts into memory, for a path and arguments without zero bytes, the
-- kernel reads back exactly: the path if it has fewer than 256 bytes, and the arguments, if each has,
-- when there are fewer than 16 of them. The library also accepts a path of 256 bytes and 16 arguments;
-- there the kernel's copies return their errors.
pub exec-copy_argv :
    {S : Type 0} (user word : ℕ → ℕ) (path : List ℕ) (argv : List (List ℕ)) (path_ptr argv_ptr : ℕ)
    (s : S) {call : ExecCall}
    → exec path argv ≡ some call
    → path_ptr ≢ 0
    → argv_ptr ≢ 0
    → Stored user path_ptr call.path_buf
    → Pointers user word argv_ptr call.arg_bufs
    → IsCString path
    → AreShort argv
    → (copy_cstr_from_user user path_ptr max_arg_len s
        ≡ (if ltb (length path) 256 then ok path s else err argument_is_too_long s))
      × (copy_argv user word argv_ptr s
          ≡ (if ltb (length argv) 16 then ok argv s else err too_many_arguments s))
unfolding copy_argv
exec-copy_argv user word path argv path_ptr argv_ptr s {call} h path_ne argv_ne path_at argv_at is
      short =
    let (path_is, argv_is) = exec_lem path argv h in
    let (zeros, buf_is, _) = copy_c_string_lem path path_is in
    let z : (argv_ptr == 0) ≡ false = ground (arith, argv_ne) in
    let start : argv_ptr ≡ argv_ptr + 8 * 0 = omega arith in
    (
      copy_cstr_from_user-Stored user path zeros max_arg_len path_ptr s path_ne
          (rw buf_is at path_at) is,
      rw z (
          copy_args-stored user word argv call.arg_bufs 16 0 argv_ptr [] s argv_is short
            (rw start at argv_at)),
    )
