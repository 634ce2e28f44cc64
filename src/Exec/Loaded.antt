-- ===== src/Exec/Loaded.antt =====
-- kernel/src/exec/mod.rs, `load_elf_segments`: what has been checked of every program header.
use ferri_os.Base.{
  ℕ, zero, suc, ◌+◌, ◌*◌, ◌%◌, ◌≤◌, ◌<◌, ◌≡◌, max, false, not, inl, inr, some, List, ltb, ◌==◌,
  ◌>>=◌, arith, Bool-cases, length, ok, pure, >>=-elim, ok_or, ok_or_lem, fail_if, fail_if_lem, ◌-◌,
  ◌/◌, ◌>>◌,
}
use mathlib.Core.Path.{subst}
use native.Mathlib.Decide.{ℕ_discrete}
use ferri_os.Base.Error.{
  unexpected_program_header_size, program_header_overflow, truncated_program_header,
  segment_overflow, truncated_load_segment, invalid_segment_address, heap_size_overflow,
}
use ferri_os.Base.{take, drop}
use ferri_os.Memory.{Memory, page_size, virt_addr, checked_add, checked_mul, page_of, Mapper}
use ferri_os.Memory.Paging.{Paging}
use ferri_os.Exec.Elf.{Elf64Header, Elf64ProgramHeader, program_header_size, program_header_at}
use ferri_os.Exec.Space.{copy_to_user_pagetable, zero_user_range}
use ferri_os.Exec.Image.{
  map_range, segment_flags, load_segment, load_header, load_headers, load_elf_segments, pg_round_up,
}

-- A program header of a loaded image whose memory ends at `top` at the latest.
pub data Segment (image : List ℕ) (top : ℕ) (header : Elf64ProgramHeader) : Type 0 where
  other : (header.prog_type == 1) ≡ false → Segment image top header
  empty : header.filesz ≤ header.memsz → header.memsz ≡ 0 → Segment image top header
  loads :
      header.filesz ≤ header.memsz
      → header.offset + header.filesz ≤ length image
      → header.vaddr + header.memsz ≤ top
      → Segment image top header

Segment-le :
    {image : List ℕ} {top top' : ℕ} {header : Elf64ProgramHeader}
    → top ≤ top'
    → Segment image top header
    → Segment image top' header
Segment-le le (other t) = other t
Segment-le le (empty f z) = empty f z
Segment-le le (loads f o v) = loads f o (omega (arith, le, v))

checked_add_lem : (a b : ℕ) {c : ℕ} → checked_add a b ≡ some c → c ≡ a + b
checked_add_lem a b h = ground arith

checked_mul_is : (a b : ℕ) {c : ℕ} → checked_mul a b ≡ some c → c ≡ a * b
checked_mul_is a b h = ground arith

module _ (x86 : Paging) (mapper : Mapper) where
  load_segment-end :
      (pml4 : ℕ) (image : List ℕ) (header : Elf64ProgramHeader) (m : Memory) {stop : ℕ}
      {m1 : Memory}
      → load_segment x86 mapper pml4 image header m ≡ ok stop m1
      → (header.offset + header.filesz ≤ length image) × (stop ≡ header.vaddr + header.memsz)
  unfolding load_segment
  load_segment-end pml4 image header m h =
      >>=-elim (ok_or (checked_add header.offset header.filesz) segment_overflow) _ m h
        λ file_end ta a h.
          >>=-elim (fail_if (ltb (length image) file_end) truncated_load_segment) _ ta h λ _ tb b h.
            >>=-elim (virt_addr x86 header.vaddr) _ tb h λ start tc _ h.
              >>=-elim (ok_or (checked_add header.vaddr header.memsz) invalid_segment_address) _ tc
                h
                λ end td e h. >>=-elim (virt_addr x86 end) _ td h λ segment_end te _ h.
                  >>=-elim (virt_addr x86 (segment_end - 1)) _ te h λ last tf _ h.
                    >>=-elim
                      (map_range x86 mapper pml4 (page_of start) (segment_flags x86 mapper header)
                        ((page_of last + page_size - page_of start) / page_size))
                      _ tf h
                      λ _ tg _ h.
                        >>=-elim (zero_user_range x86 pml4 header.vaddr header.memsz) _ tg h
                          λ _ th _ h.
                            >>=-elim
                              (copy_to_user_pagetable x86 pml4 header.vaddr
                                (take header.filesz (drop header.offset image)))
                              _ th h
                              λ _ ti _ h.
                                let a' =
                                  checked_add_lem header.offset header.filesz
                                    (ok_or_lem (checked_add header.offset header.filesz)
                                      segment_overflow m a).0 in
                                let e' =
                                  checked_add_lem header.vaddr header.memsz
                                    (ok_or_lem (checked_add header.vaddr header.memsz)
                                      invalid_segment_address tc e).0 in
                                let b' =
                                  (fail_if_lem (ltb (length image) file_end) truncated_load_segment
                                    ta b).0 in
                                (ground (arith, a', b'), ground (arith, e', h))

  -- The end of the memory of the segments so far does not shrink, and covers this one.
  load_header-Segment :
      (pml4 : ℕ) (image : List ℕ) (header : Elf64ProgramHeader) (before : ℕ) (m : Memory) {top : ℕ}
      {m1 : Memory}
      → load_header x86 mapper pml4 image header before m ≡ ok top m1
      → (before ≤ top) × Segment image top header
  unfolding load_header
  load_header-Segment pml4 image header before m h = elim (Bool-cases (header.prog_type == 1)) [
    | inr t ↦ (ground (arith, t, h), other t)
    | inl t ↦ elim (Bool-cases (ltb header.memsz header.filesz)) [
      | inl f ↦ absurd (ground (arith, t, f, h))
      | inr f ↦
          let fits : header.filesz ≤ header.memsz = ground (arith, f) in
          elim (Bool-cases (header.memsz == 0)) [
            | inl z ↦ (ground (arith, t, f, z, h), empty fits (ground (arith, z)))
            | inr z ↦
                >>=-elim (load_segment x86 mapper pml4 image header)
                  (λ stop. pure (max before stop)) m (rw (load_header, t, f, z) at h)
                  λ stop t r h.
                    let (inside, is) = load_segment-end pml4 image header m r in
                    (ground (arith, h), loads fits inside (ground (arith, is, h)))
          ]
    ]
  ]

  -- A round of the loop.
  record Passed (image : List ℕ) (phoff i before top : ℕ) : Type 0 where
    header_inside : phoff + i * 56 + 56 ≤ length image
    grows : before ≤ top
    segment : Segment image top (program_header_at image (phoff + i * 56))

  round-Passed :
      (pml4 : ℕ) (image : List ℕ) (phoff i before : ℕ) (m : Memory) {top : ℕ} {m1 : Memory}
      → (do
        at ← ok_or (checked_mul i program_header_size) program_header_overflow
        start ← ok_or (checked_add phoff at) program_header_overflow
        stop ← ok_or (checked_add start program_header_size) program_header_overflow
        fail_if (ltb (length image) stop) truncated_program_header
        load_header x86 mapper pml4 image (program_header_at image start) before)
          m
        ≡ ok top m1
      → Passed image phoff i before top
  round-Passed pml4 image phoff i before m {top} h =
      >>=-elim (ok_or (checked_mul i program_header_size) program_header_overflow) _ m h
        λ at ta a h.
          >>=-elim (ok_or (checked_add phoff at) program_header_overflow) _ ta h λ start tb b h.
            >>=-elim (ok_or (checked_add start program_header_size) program_header_overflow) _ tb h
              λ stop tc c h.
                >>=-elim (fail_if (ltb (length image) stop) truncated_program_header) _ tc h
                  λ _ td d h.
                    let a' =
                      checked_mul_is i program_header_size
                        (ok_or_lem (checked_mul i program_header_size) program_header_overflow m
                          a).0 in
                    let b' =
                      checked_add_lem phoff at
                        (ok_or_lem (checked_add phoff at) program_header_overflow ta b).0 in
                    let c' =
                      checked_add_lem start program_header_size
                        (ok_or_lem (checked_add start program_header_size) program_header_overflow
                          tb c).0 in
                    let d' =
                      (fail_if_lem (ltb (length image) stop) truncated_program_header tc d).0 in
                    let (grows, segment) =
                      load_header-Segment pml4 image (program_header_at image start) before td h in
                    record {
                      header_inside = ground (arith, a', b', c', d');
                      grows = grows;
                      segment =
                          subst (λ start. Segment image top (program_header_at image start))
                            (omega (arith, a', b')) segment;
                    }

  load_headers-Segment :
      (n pml4 : ℕ) (image : List ℕ) (phoff i before : ℕ) (m : Memory) {top : ℕ} {m1 : Memory}
      → load_headers x86 mapper n pml4 image phoff i before m ≡ ok top m1
      → (before ≤ top)
        × ((j : ℕ)
            → i ≤ j
            → j < i + n
            → (phoff + j * 56 + 56 ≤ length image)
              × Segment image top (program_header_at image (phoff + j * 56)))
  unfolding load_headers
  load_headers-Segment zero pml4 image phoff i before m h =
      (ground (arith, h), λ j le lt. absurd (omega (arith, le, lt)))
  load_headers-Segment (suc n) pml4 image phoff i before m {top} h =
      >>=-elim
        (do
          at ← ok_or (checked_mul i program_header_size) program_header_overflow
          start ← ok_or (checked_add phoff at) program_header_overflow
          stop ← ok_or (checked_add start program_header_size) program_header_overflow
          fail_if (ltb (length image) stop) truncated_program_header
          load_header x86 mapper pml4 image (program_header_at image start) before)
        (λ end. load_headers x86 mapper n pml4 image phoff (i + 1) end) m h
        λ end t r h.
          let p = round-Passed pml4 image phoff i before m r in
          let (grows, later) = load_headers-Segment n pml4 image phoff (i + 1) end t h in
          (
            omega (arith, grows, p.grows),
            λ j le lt. elim (ℕ_discrete i j) [
              | yes e ↦
                  subst
                    (λ j.
                      (phoff + j * 56 + 56 ≤ length image)
                      × Segment image top (program_header_at image (phoff + j * 56)))
                    e (p.header_inside, Segment-le grows p.segment)
              | no ne ↦ later j (ground (arith, le, ne)) (omega (arith, lt))
            ],
          )

  -- What a successful `load_elf_segments` has checked of every program header.
  pub record Loaded (image : List ℕ) (elf : Elf64Header) (heap_start : ℕ) : Type 0 where
    pub header_size : elf.phentsize ≡ 56
    pub aligned : heap_start % 4096 ≡ 0
    pub inside : (i : ℕ) → i < elf.phnum → elf.phoff + i * 56 + 56 ≤ length image
    pub segments :
        (i : ℕ)
        → i < elf.phnum
        → Segment image heap_start (program_header_at image (elf.phoff + i * 56))

  -- When `load_elf_segments` succeeds, whatever the bytes of the image are, every program header lies in
  -- the image, and one of type LOAD has a file size up to its memory size and, unless that is zero, a
  -- file range in the image and a memory range that ends at or below the address that is returned for
  -- the heap, which is a multiple of the page size.
  pub load_elf_segments-Loaded :
      (image : List ℕ) (elf : Elf64Header) (pml4 : ℕ) (m : Memory) {heap_start : ℕ} {m1 : Memory}
      → load_elf_segments x86 mapper image elf pml4 m ≡ ok heap_start m1
      → Loaded image elf heap_start
  unfolding load_elf_segments pg_round_up
  load_elf_segments-Loaded image elf pml4 m {heap_start} h =
      >>=-elim (fail_if (not (elf.phentsize == program_header_size)) unexpected_program_header_size)
        _ m h
        λ _ ta s h.
          >>=-elim (load_headers x86 mapper elf.phnum pml4 image elf.phoff 0 0) _ ta h λ end tb r h.
            >>=-elim (ok_or (checked_add end (page_size - 1)) heap_size_overflow) _ tb h λ v tc a h.
              let s' =
                (fail_if_lem (not (elf.phentsize == program_header_size))
                  unexpected_program_header_size m s).0 in
              let v' =
                checked_add_lem end (page_size - 1)
                  (ok_or_lem (checked_add end (page_size - 1)) heap_size_overflow tb a).0 in
              let is : heap_start ≡ v / 4096 * 4096 = ground (arith, h) in
              let (_, all) = load_headers-Segment elf.phnum pml4 image elf.phoff 0 0 ta r in
              record {
                header_size = ground (arith, s');
                aligned = omega (arith, is);
                inside = λ i lt. (all i (omega arith) (omega (arith, lt))).0;
                segments = λ i lt.
                    Segment-le (omega (arith, is, v')) (all i (omega arith) (omega (arith, lt))).1;
              }
