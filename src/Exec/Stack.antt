-- ===== src/Exec/Stack.antt =====
-- kernel/src/exec/mod.rs, `setup_user_stack`: where the arguments lie.
use ferri_os.Base.{
  ℕ, ◌+◌, ◌*◌, ◌%◌, ◌≤◌, ◌≡◌, some, List, [], ◌∷◌, ◌++◌, arith, length, ok, ◌>>=◌, ◌>>◌, >>=-elim,
  ok_or, ok_or_lem, pure,
}
use ferri_os.Base.Error.{stack_overflow, argv_overflow}
use ferri_os.Memory.{Memory, checked_mul}
use ferri_os.Memory.Paging.{Paging}
use ferri_os.Exec.Space.{add_u64, copy_to_user_pagetable, copy_u64_slice_to_user}
use ferri_os.Exec.Image.{checked_sub, align_down, push_args, setup_user_stack}

-- The bytes of the arguments with their terminators.
abbrev pub args_size : List (List ℕ) → ℕ
args_size [] = 0
args_size (arg ∷ args) = length arg + 1 + args_size args

length-append : {A : Type 0} (xs ys : List A) → length (xs ++ ys) ≡ length xs + length ys
length-append [] ys = omega arith
length-append (x ∷ xs) ys = omega (arith, length-append xs ys)

checked_sub_lem : (a b : ℕ) {c : ℕ} → checked_sub a b ≡ some c → c + b ≡ a
checked_sub_lem a b h = ground arith

checked_mul_lem : (a b : ℕ) {c : ℕ} → checked_mul a b ≡ some c → c ≡ a * b
checked_mul_lem a b h = ground arith

-- What `push_args` has pushed.
record Pushed (args : List (List ℕ)) (top n sp : ℕ) (ptrs : List ℕ) : Type 0 where
  pub fits : sp + args_size args ≤ top
  pub tight : top ≤ sp + args_size args + 7 * length args
  pub count : length ptrs ≡ n + length args

push_args-Pushed :
    (x86 : Paging) (pml4 : ℕ) (args : List (List ℕ)) (top : ℕ) (before : List ℕ) (m : Memory)
    {sp : ℕ} {ptrs : List ℕ} {m1 : Memory}
    → push_args x86 pml4 args top before m ≡ ok (sp, ptrs) m1
    → Pushed args top (length before) sp ptrs
unfolding push_args
push_args-Pushed x86 pml4 [] top before m h = record {
  fits = ground arith;
  tight = ground arith;
  count = ground arith;
}
push_args-Pushed x86 pml4 (arg ∷ args) top before m h =
    >>=-elim
      (do
        top' ← ok_or (checked_sub top (length arg + 1)) stack_overflow
        copy_to_user_pagetable x86 pml4 (align_down 8 top') arg
        terminator ← add_u64 (align_down 8 top') (length arg)
        copy_to_user_pagetable x86 pml4 terminator (0 ∷ [])
        pure (align_down 8 top'))
      (λ sp. push_args x86 pml4 args sp (before ++ (sp ∷ []))) m h
      λ sp' t first h.
        >>=-elim (ok_or (checked_sub top (length arg + 1)) stack_overflow) _ m first
          λ top' ta e first.
            >>=-elim (copy_to_user_pagetable x86 pml4 (align_down 8 top') arg) _ ta first
              λ _ tb _ first.
                >>=-elim (add_u64 (align_down 8 top') (length arg)) _ tb first
                  λ terminator tc _ first.
                    >>=-elim (copy_to_user_pagetable x86 pml4 terminator (0 ∷ [])) _ tc first
                      λ _ td _ first.
                        let p = push_args-Pushed x86 pml4 args sp' (before ++ (sp' ∷ [])) t h in
                        let at : sp' ≡ align_down 8 top' = ground arith in
                        let less =
                          checked_sub_lem top (length arg + 1)
                            (ok_or_lem (checked_sub top (length arg + 1)) stack_overflow m e).0 in
                        record {
                          fits = omega (arith, p.fits, at, less);
                          tight = omega (arith, p.tight, at, less);
                          count = omega (arith, p.count, length-append before (sp' ∷ []));
                        }

-- Where `setup_user_stack` has put the arguments, their pointers and the three words above `sp`.
pub record Laid (argv : List (List ℕ)) (stack_top sp argc argv_ptr : ℕ) : Type 0 where
  pub counted : argc ≡ length argv
  pub aligned : argv_ptr % 16 ≡ 0
  pub header_below : sp + 24 ≡ argv_ptr
  pub fits : argv_ptr + 8 * (argc + 1) + args_size argv ≤ stack_top
  pub tight : stack_top ≤ argv_ptr + 15 + 8 * (argc + 1) + args_size argv + 7 * argc

-- Whatever the arguments are, when `setup_user_stack` succeeds, it returns their number, argv at a
-- multiple of 16 with the three words of the frame directly under it, everything (the words, the
-- pointers with their null, the strings with their terminators) fits below the top of the stack, and
-- no more than 7 bytes for each string and 15 in all are lost to alignment.
pub setup_user_stack-Laid :
    (x86 : Paging) (pml4 : ℕ) (argv : List (List ℕ)) (stack_top : ℕ) (m : Memory)
    {sp argc argv_ptr : ℕ} {m1 : Memory}
    → setup_user_stack x86 pml4 argv stack_top m ≡ ok (sp, argc, argv_ptr) m1
    → Laid argv stack_top sp argc argv_ptr
unfolding setup_user_stack
setup_user_stack-Laid x86 pml4 argv stack_top m {sp} {argc} {argv_ptr} h =
    >>=-elim (push_args x86 pml4 argv stack_top []) _ m h λ (low, ptrs) ta pushed h.
      >>=-elim (ok_or (checked_mul (length (ptrs ++ (0 ∷ []))) 8) argv_overflow) _ ta h
        λ bytes tb b h. >>=-elim (ok_or (checked_sub low bytes) stack_overflow) _ tb h λ top tc t h.
          >>=-elim (copy_u64_slice_to_user x86 pml4 (align_down 16 top) (ptrs ++ (0 ∷ []))) _ tc h
            λ _ td _ h.
              >>=-elim (ok_or (checked_sub (align_down 16 top) 24) stack_overflow) _ td h
                λ low' te s h.
                  >>=-elim
                    (copy_u64_slice_to_user x86 pml4 low'
                      (0xffff_ffff_ffff_ffff ∷ length argv ∷ align_down 16 top ∷ []))
                    _ te h
                    λ _ tf _ h.
                      let p = push_args-Pushed x86 pml4 argv stack_top [] m pushed in
                      let is_sp : sp ≡ low' = cc in
                      let is_argc : argc ≡ length argv = cc in
                      let is_ptr : argv_ptr ≡ align_down 16 top = cc in
                      let b' =
                        checked_mul_lem (length (ptrs ++ (0 ∷ []))) 8
                          (ok_or_lem (checked_mul (length (ptrs ++ (0 ∷ []))) 8) argv_overflow ta
                            b).0 in
                      let t' =
                        checked_sub_lem low bytes
                          (ok_or_lem (checked_sub low bytes) stack_overflow tb t).0 in
                      let s' =
                        checked_sub_lem (align_down 16 top) 24
                          (ok_or_lem (checked_sub (align_down 16 top) 24) stack_overflow td s).0 in
                      let l' = length-append ptrs (0 ∷ []) in
                      record {
                        counted = is_argc;
                        aligned = omega (arith, is_ptr);
                        header_below = omega (arith, is_sp, is_ptr, s');
                        fits = omega (arith, is_ptr, is_argc, p.fits, p.count, b', t', l');
                        tight = omega (arith, is_ptr, is_argc, p.tight, p.count, b', t', l');
                      }
