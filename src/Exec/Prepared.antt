-- ===== src/Exec/Prepared.antt =====
-- kernel/src/exec/mod.rs, `prepare_exec_image` and `lookup`: the program that is found and its image.
use ferri_os.Base.{
  ℕ, ◌≡◌, ◌≢◌, refl, sym, ◌>>◌, ap, ◌∙◌, true, false, inl, inr, some, List, [], ◌∷◌, ◌++◌, ltb,
  ◌>>=◌, arith, Bool-cases, length, ok, pure, >>=-elim, ok_or, fail_if, fail_if_lem,
}
use ferri_os.Base.Error.{
  stack_overflow, stack_size_overflow, guard_page_overflow, invalid_elf_image,
  allocating_frame_failed, elf_header_is_truncated, bad_elf_magic, unsupported_elf_class,
  unsupported_elf_target,
}
use ferri_os.Base.{ok_or_lem, Act, Bool, Error, ◌==◌, ◌||◌, not}
use ferri_os.Memory.{
  Memory, page_size, virt_addr, checked_mul, page_of, Mapper, map_page, map_pages, new_uvm,
  setup_kvm, allocate_or, allocate_frame, user_stack_top,
}
use ferri_os.Memory.Paging.{Paging}
use ferri_os.Memory.Pool.{pool, first, allocate_frame-deallocate_frame}
use ferri_os.Exec.Elf.{
  Elf64Header, elf_header_size, read_elf_header, elf_header_at, has_magic_bytes, ident_at, magic,
}
use ferri_os.Exec.Image.{
  Exec, checked_sub, load_elf_segments, setup_user_stack, stack_pages, prepare_exec_image,
}
use ferri_os.Exec.Commit.{UserProgram, is_path, lookup}
use ferri_os.Exec.Loaded.{Loaded, load_elf_segments-Loaded}
use ferri_os.Exec.Stack.{Laid, setup_user_stack-Laid}

-- No program of the list has that path.
abbrev pub HaveOtherPaths : List ℕ → List UserProgram → Type 0
HaveOtherPaths path [] = Unit {0}
HaveOtherPaths path (p ∷ programs) = (p.path ≢ path) × HaveOtherPaths path programs

-- `elf` is the image of the first program with that path.
pub record Found (programs : List UserProgram) (path elf : List ℕ) : Type 0 where
  pub before : List UserProgram
  pub after : List UserProgram
  pub is : programs ≡ before ++ (record { path = path; elf = elf } ∷ after)
  pub earlier : HaveOtherPaths path before

is_path-true : (xs ys : List ℕ) → is_path xs ys ≡ true → xs ≡ ys
is_path-true [] [] h = refl
is_path-true [] (y ∷ ys) h = absurd cc
is_path-true (x ∷ xs) [] h = absurd cc
is_path-true (x ∷ xs) (y ∷ ys) h =
    let e : x ≡ y = ground (arith, h) in
    let f = is_path-true xs ys (ground (arith, h)) in λ i. e i ∷ f i

is_path-same : (xs : List ℕ) → is_path xs xs ≡ true
is_path-same [] = refl
is_path-same (x ∷ xs) = ground (arith, is_path-same xs)

is_path-false : (xs ys : List ℕ) → is_path xs ys ≡ false → xs ≢ ys
is_path-false xs ys h e = let d = ap (is_path xs) e in let s = is_path-same xs in absurd cc

pub lookup-Found :
    (programs : List UserProgram) (path : List ℕ) {elf : List ℕ}
    → lookup programs path ≡ some elf
    → Found programs path elf
unfolding lookup
lookup-Found [] path h = absurd cc
lookup-Found (p ∷ programs) path {elf} h = elim (Bool-cases (is_path p.path path)) [
  | inl e ↦
      let same = is_path-true p.path path e in
      let is : p.elf ≡ elf = ground (arith, e, h) in
      record {
        before = [];
        after = programs;
        is = λ i. record { path = same i; elf = is i } ∷ programs;
        earlier = tt;
      }
  | inr e ↦
      let f = lookup-Found programs path (ground (arith, e, h)) in
      record {
        before = p ∷ f.before;
        after = f.after;
        is = ap (λ ps. p ∷ ps) f.is;
        earlier = (is_path-false p.path path e, f.earlier);
      }
]

new_uvm-first :
    (current : ℕ) (m : Memory) {f : ℕ} {m1 : Memory}
    → new_uvm current m ≡ ok f m1
    → first (pool m) ≡ some f
unfolding new_uvm setup_kvm allocate_or
new_uvm-first current m h =
    let (given, _, _) = allocate_frame-deallocate_frame m 0 in
    >>=-elim (setup_kvm current) _ m h λ g ta s h.
      >>=-elim (allocate_or allocating_frame_failed) _ m s λ g' tb a s.
        let o = (ok_or_lem (allocate_frame m).0 allocating_frame_failed (allocate_frame m).1 a).0 in
        ground (arith, given, o, s, h)

-- A test that passes leaves the state to what follows.
passed :
    {A : Type 0} (b : Bool) (e : Error) (k : Act Memory A) (m : Memory) {a : A} {m1 : Memory}
    → (fail_if b e >> k) m ≡ ok a m1
    → k m ≡ ok a m1
passed true e k m h = absurd cc
passed false e k m h = h

read_header_lem :
    (image : List ℕ) (m : Memory) {header : Elf64Header} {m1 : Memory}
    → read_elf_header image m ≡ ok header m1
    → m1 ≡ m
unfolding read_elf_header
read_header_lem image m h =
    let elf = elf_header_at image in
    let h1 = passed (ltb (length image) elf_header_size) elf_header_is_truncated _ m h in
    let h2 = passed (not (has_magic_bytes elf)) bad_elf_magic _ m h1 in
    let h3 =
      passed (not (ident_at elf 4 == 2) || not (ident_at elf 5 == 1)) unsupported_elf_class _ m
        h2 in
    let h4 =
      passed (not (elf.elf_type == 2) || not (elf.machine == 0x3e) || not (elf.version == 1))
        unsupported_elf_target _ m h3 in
    let h5 = passed (not (magic elf == 0x464c457f)) bad_elf_magic (pure elf) m h4 in cc

module _ (x86 : Paging) (mapper : Mapper) where
  open x86 use {present, writable, user_accessible, union}

  -- What a successful `prepare_exec_image` returns for an image and arguments.
  pub record Prepared (elf : List ℕ) (argv : List (List ℕ)) (m : Memory) (prepared : Exec)
      : Type 0 where
    pub header : Elf64Header
    pub header_is : read_elf_header elf m ≡ ok header m
    pub entry_is : prepared.entry ≡ header.entry
    pub table_is : first (pool m) ≡ some prepared.page_table
    pub segments : Loaded x86 mapper elf header prepared.heap_size
    pub stack : Laid argv user_stack_top prepared.user_sp prepared.argc prepared.argv_user_ptr

  -- The stack at the end of `prepare_exec_image`.
  end_of-Prepared :
      (elf : List ℕ) (argv : List (List ℕ)) (m : Memory) (header : Elf64Header)
      (page_table heap_size stack_start guard : ℕ) (t : Memory) {prepared : Exec} {m1 : Memory}
      → read_elf_header elf m ≡ ok header m
      → first (pool m) ≡ some page_table
      → Loaded x86 mapper elf header heap_size
      → (do
        guard_va ← virt_addr x86 guard
        stack_va ← virt_addr x86 stack_start
        map_page x86 mapper page_table (page_of guard_va) (union present writable)
        map_pages x86 mapper page_table
            (page_of stack_va)
            (stack_pages x86 mapper)
            (union (union present writable) user_accessible)
        (user_sp, argc, argv_user_ptr) ← setup_user_stack x86 page_table argv user_stack_top
        pure (record {
          page_table = page_table;
          entry = header.entry;
          user_sp = user_sp;
          argc = argc;
          argv_user_ptr = argv_user_ptr;
          heap_size = heap_size;
        }))
          t
        ≡ ok prepared m1
      → Prepared elf argv m prepared
  end_of-Prepared elf argv m header page_table heap_size stack_start guard t {prepared} b c d h =
      >>=-elim (virt_addr x86 guard) _ t h λ guard_va ta _ h.
        >>=-elim (virt_addr x86 stack_start) _ ta h λ stack_va tb _ h.
          >>=-elim (map_page x86 mapper page_table (page_of guard_va) (union present writable)) _ tb
            h
            λ _ tc _ h.
              >>=-elim
                (map_pages x86 mapper page_table (page_of stack_va) (stack_pages x86 mapper)
                  (union (union present writable) user_accessible))
                _ tc h
                λ _ td _ h.
                  >>=-elim (setup_user_stack x86 page_table argv user_stack_top) _ td h
                    λ (user_sp, argc, argv_user_ptr) te s h.
                      let laid = setup_user_stack-Laid x86 page_table argv user_stack_top td s in
                      let is = done h in
                      rw (sym is) record {
                        header = header;
                        header_is = b;
                        entry_is = refl;
                        table_is = c;
                        segments = d;
                        stack = laid;
                      }
    where
      done : {a b : Exec} {s t : Memory} → pure a s ≡ ok b t → a ≡ b
      done h = cc

  pub prepare_exec_image-Prepared :
      (cr3 : ℕ) (elf : List ℕ) (argv : List (List ℕ)) (m : Memory) {prepared : Exec} {m1 : Memory}
      → prepare_exec_image x86 mapper cr3 elf argv m ≡ ok prepared m1
      → Prepared elf argv m prepared
  unfolding prepare_exec_image
  prepare_exec_image-Prepared cr3 elf argv m h =
      >>=-elim (fail_if (ltb (length elf) elf_header_size) invalid_elf_image) _ m h λ _ ta a h.
        >>=-elim (read_elf_header elf) _ ta h λ header tb b h.
          >>=-elim (new_uvm cr3) _ tb h λ page_table tc c h.
            >>=-elim (load_elf_segments x86 mapper elf header page_table) _ tc h λ heap_size td d h.
              >>=-elim (ok_or (checked_mul (stack_pages x86 mapper) page_size) stack_size_overflow)
                _ td h
                λ stack_bytes te _ h.
                  >>=-elim (ok_or (checked_sub user_stack_top stack_bytes) stack_overflow) _ te h
                    λ stack_start tf _ h.
                      >>=-elim (ok_or (checked_sub stack_start page_size) guard_page_overflow) _ tf
                        h
                        λ guard tg _ h.
                          let start =
                            (fail_if_lem (ltb (length elf) elf_header_size) invalid_elf_image m
                              a).1 in
                          let whole = read_header_lem elf ta b ∙ start in
                          end_of-Prepared elf argv m header page_table heap_size stack_start guard
                            tg (ap (read_elf_header elf) (sym start) ∙ b ∙ ap (ok header) whole)
                            (ap (λ m. first (pool m)) (sym whole) ∙ new_uvm-first cr3 tb c)
                            (load_elf_segments-Loaded x86 mapper elf header page_table tc d) h
