-- ===== src/Exec/Image.antt =====
-- kernel/src/exec/mod.rs: the address space of a program, from its ELF image and its arguments.
use Prim.Native.Nat.{bit_and}
use ferri_os.Base.{
  ℕ, zero, suc, ◌+◌, ◌-◌, ◌*◌, ◌/◌, max, true, false, not, Option, none, some, List, [], ◌∷◌, ◌++◌,
  ltb, ◌==◌, if◌then◌else◌, length, ok, err, panic, Act, ◌>>=◌, ◌>>◌, pure, fail_if, ok_or,
}
use ferri_os.Base.Error.{
  unexpected_program_header_size, program_header_overflow, truncated_program_header,
  invalid_load_segment_sizes, segment_overflow, truncated_load_segment, invalid_segment_address,
  heap_size_overflow, stack_overflow, stack_size_overflow, guard_page_overflow, argv_overflow,
  invalid_elf_image,
}
use ferri_os.Memory.{
  Memory, page_size, virt_addr, checked_add, checked_mul, page_of, Mapper, map_page, map_pages,
  new_uvm, user_stack_top, page_round_down,
}
use ferri_os.Memory.Paging.{Paging}
use ferri_os.Exec.Elf.{
  Elf64Header, Elf64ProgramHeader, elf_header_size, program_header_size, program_header_at,
  read_elf_header,
}
use ferri_os.Base.{take, drop}
use ferri_os.Exec.Space.{
  add_u64, copy_to_user_pagetable, zero_user_range, copy_u64_slice_to_user,
  ensure_user_page_mapping,
}

pub record Exec : Type 0 where
  pub page_table : ℕ
  pub entry : ℕ
  pub user_sp : ℕ
  pub argc : ℕ
  pub argv_user_ptr : ℕ
  pub heap_size : ℕ

-- `checked_sub`
abbrev pub checked_sub : ℕ → ℕ → Option ℕ
checked_sub a b = if ltb a b then none else some (a - b)

unfoldable pub pg_round_up : {S : Type 0} → ℕ → Act S ℕ
pg_round_up value = do
  v ← ok_or (checked_add value (page_size - 1)) heap_size_overflow
  pure (page_round_down v)

-- `& !0x7` and `& !0xF`
abbrev pub align_down : ℕ → ℕ → ℕ
align_down a n = n / a * a

module _ (x86 : Paging) (mapper : Mapper) where
  open x86 use {present, writable, user_accessible, union}

  -- The pages of a segment: `n` more from page `page` on. A step of the range is checked as `VirtAddr` is.
  unfoldable pub map_range : ℕ → ℕ → ℕ → ℕ → Act Memory (Unit {0})
  unfolding ensure_user_page_mapping
  map_range pml4 page flags zero m = ok tt m
  map_range pml4 page flags (suc n) m =
      elim ((do p ← virt_addr x86 page; ensure_user_page_mapping x86 mapper pml4 p flags) m) [
        | ok _ t ↦ map_range pml4 (page + page_size) flags n t
        | err e t ↦ err e t
        | panic p ↦ panic p
      ]

  -- PF_W of a segment's flags.
  abbrev pub segment_flags : Elf64ProgramHeader → ℕ
  segment_flags header =
      if bit_and header.flags 2 == 0
      then union present user_accessible
      else union (union present user_accessible) writable

  -- A LOAD segment that is not empty; the result is the address after it.
  unfoldable pub load_segment : ℕ → List ℕ → Elf64ProgramHeader → Act Memory ℕ
  unfolding map_range zero_user_range copy_to_user_pagetable
  load_segment pml4 image header = do
    let file_start = header.offset
    let file_size = header.filesz
    file_end ← ok_or (checked_add file_start file_size) segment_overflow
    fail_if (ltb (length image) file_end) truncated_load_segment
    segment_start ← virt_addr x86 header.vaddr
    segment_end_u64 ← ok_or (checked_add header.vaddr header.memsz) invalid_segment_address
    segment_end ← virt_addr x86 segment_end_u64
    let start_page = page_of segment_start
    segment_last ← virt_addr x86 (segment_end - 1)
    let end_page = page_of segment_last
    map_range pml4 start_page (segment_flags header)
        ((end_page + page_size - start_page) / page_size)
    zero_user_range x86 pml4 header.vaddr header.memsz
    copy_to_user_pagetable x86 pml4 header.vaddr (take file_size (drop file_start image))
    pure segment_end_u64

  -- What follows the check of the type of a program header.
  unfoldable pub load_header : ℕ → List ℕ → Elf64ProgramHeader → ℕ → Act Memory ℕ
  unfolding load_segment
  load_header pml4 image header max_load_end m = elim (header.prog_type == 1) [
    | false ↦ ok max_load_end m
    | true ↦ elim (ltb header.memsz header.filesz) [
      | true ↦ err invalid_load_segment_sizes m
      | false ↦ elim (header.memsz == 0) [
        | true ↦ ok max_load_end m
        | false ↦
            (do segment_end ← load_segment pml4 image header; pure (max max_load_end segment_end)) m
      ]
    ]
  ]

  -- The rounds of the loop of `load_elf_segments` from header `i` on.
  unfoldable pub load_headers : ℕ → ℕ → List ℕ → ℕ → ℕ → ℕ → Act Memory ℕ
  unfolding load_header
  load_headers zero pml4 image phoff i max_load_end m = ok max_load_end m
  load_headers (suc n) pml4 image phoff i max_load_end m =
      elim ((do
        at ← ok_or (checked_mul i program_header_size) program_header_overflow
        start ← ok_or (checked_add phoff at) program_header_overflow
        stop ← ok_or (checked_add start program_header_size) program_header_overflow
        fail_if (ltb (length image) stop) truncated_program_header
        load_header pml4 image (program_header_at image start) max_load_end)
        m) [
          | ok segments_end t ↦ load_headers n pml4 image phoff (i + 1) segments_end t
          | err e t ↦ err e t
          | panic p ↦ panic p
        ]

  -- The conversions between u64 and usize cannot fail on this machine.
  unfoldable pub load_elf_segments : List ℕ → Elf64Header → ℕ → Act Memory ℕ
  unfolding load_headers pg_round_up
  load_elf_segments image elf pml4 = do
    fail_if (not (elf.phentsize == program_header_size)) unexpected_program_header_size
    max_load_end ← load_headers elf.phnum pml4 image elf.phoff 0 0
    pg_round_up max_load_end

module _ (x86 : Paging) where
  -- The loop of `setup_user_stack` over the arguments, with the pointers that it has pushed.
  unfoldable pub push_args : ℕ → List (List ℕ) → ℕ → List ℕ → Act Memory (ℕ × List ℕ)
  push_args pml4 [] sp argv_ptrs m = ok (sp, argv_ptrs) m
  push_args pml4 (arg ∷ args) sp argv_ptrs m =
      elim ((do
        top ← ok_or (checked_sub sp (length arg + 1)) stack_overflow
        let sp' = align_down 8 top
        copy_to_user_pagetable x86 pml4 sp' arg
        terminator ← add_u64 sp' (length arg)
        copy_to_user_pagetable x86 pml4 terminator (0 ∷ [])
        pure sp')
        m) [
          | ok sp' t ↦ push_args pml4 args sp' (argv_ptrs ++ (sp' ∷ [])) t
          | err e t ↦ err e t
          | panic p ↦ panic p
        ]

  -- The result is the stack pointer, argc and argv.
  unfoldable pub setup_user_stack : ℕ → List (List ℕ) → ℕ → Act Memory (ℕ × ℕ × ℕ)
  unfolding push_args copy_u64_slice_to_user
  setup_user_stack pml4 argv stack_top = do
    pushed ← push_args pml4 argv stack_top []
    let argv_ptrs = pushed.1 ++ (0 ∷ [])
    argv_bytes ← ok_or (checked_mul (length argv_ptrs) 8) argv_overflow
    top ← ok_or (checked_sub pushed.0 argv_bytes) stack_overflow
    let argv_user_ptr = align_down 16 top
    copy_u64_slice_to_user x86 pml4 argv_user_ptr argv_ptrs
    let ustack = 0xffff_ffff_ffff_ffff ∷ length argv ∷ argv_user_ptr ∷ []
    sp ← ok_or (checked_sub argv_user_ptr (length ustack * 8)) stack_overflow
    copy_u64_slice_to_user x86 pml4 sp ustack
    pure (sp, length argv, argv_user_ptr)

module _ (x86 : Paging) (mapper : Mapper) where
  open x86 use {present, writable, user_accessible, union}

  -- `STACK_PAGES`
  abbrev pub stack_pages : ℕ
  stack_pages = 8

  -- `cr3` is the frame of the active table, whose kernel half `new_uvm` copies.
  unfoldable pub prepare_exec_image : ℕ → List ℕ → List (List ℕ) → Act Memory Exec
  unfolding read_elf_header load_elf_segments setup_user_stack new_uvm map_page map_pages
  prepare_exec_image cr3 image argv = do
    fail_if (ltb (length image) elf_header_size) invalid_elf_image
    elf ← read_elf_header image
    page_table ← new_uvm cr3
    heap_size ← load_elf_segments x86 mapper image elf page_table
    stack_bytes ← ok_or (checked_mul stack_pages page_size) stack_size_overflow
    stack_start ← ok_or (checked_sub user_stack_top stack_bytes) stack_overflow
    guard_page_start ← ok_or (checked_sub stack_start page_size) guard_page_overflow
    guard_va ← virt_addr x86 guard_page_start
    stack_va ← virt_addr x86 stack_start
    map_page x86 mapper page_table (page_of guard_va) (union present writable)
    map_pages x86 mapper page_table (page_of stack_va) stack_pages
        (union (union present writable) user_accessible)
    (user_sp, argc, argv_user_ptr) ← setup_user_stack x86 page_table argv user_stack_top
    pure (record {
      page_table = page_table;
      entry = elf.entry;
      user_sp = user_sp;
      argc = argc;
      argv_user_ptr = argv_user_ptr;
      heap_size = heap_size;
    })
