-- ===== src/Exec/Elf.antt =====
-- kernel/src/exec/mod.rs: the headers of an ELF file. An image is a list of bytes.
use ferri_os.Base.{
  ℕ, ◌+◌, ◌*◌, Bool, ◌&&◌, ◌||◌, not, none, some, List, [], ◌∷◌, ltb, ◌==◌, length, get_elem?, take,
  drop, Act, ◌>>◌, pure, fail_if,
}
use ferri_os.Base.Error.{
  elf_header_is_truncated, bad_elf_magic, unsupported_elf_class, unsupported_elf_target,
}

-- `from_le_bytes`
abbrev pub from_le_bytes : List ℕ → ℕ
from_le_bytes [] = 0
from_le_bytes (b ∷ bs) = b + 256 * from_le_bytes bs

-- The little-endian field of `n` bytes at an offset.
abbrev pub field_at : List ℕ → ℕ → ℕ → ℕ
field_at image offset n = from_le_bytes (take n (drop offset image))

pub record Elf64Header : Type 0 where
  pub ident : List ℕ
  pub elf_type : ℕ
  pub machine : ℕ
  pub version : ℕ
  pub entry : ℕ
  pub phoff : ℕ
  pub shoff : ℕ
  pub flags : ℕ
  pub ehsize : ℕ
  pub phentsize : ℕ
  pub phnum : ℕ
  pub shentsize : ℕ
  pub shnum : ℕ
  pub shstrndx : ℕ

-- `size_of` of the two headers.
abbrev pub elf_header_size : ℕ
elf_header_size = 64

abbrev pub program_header_size : ℕ
program_header_size = 56

-- `read_unaligned` of a header at the start of the image.
abbrev pub elf_header_at : List ℕ → Elf64Header
elf_header_at image = record {
  ident = take 16 image;
  elf_type = field_at image 16 2;
  machine = field_at image 18 2;
  version = field_at image 20 4;
  entry = field_at image 24 8;
  phoff = field_at image 32 8;
  shoff = field_at image 40 8;
  flags = field_at image 48 4;
  ehsize = field_at image 52 2;
  phentsize = field_at image 54 2;
  phnum = field_at image 56 2;
  shentsize = field_at image 58 2;
  shnum = field_at image 60 2;
  shstrndx = field_at image 62 2;
}

pub record Elf64ProgramHeader : Type 0 where
  pub prog_type : ℕ
  pub flags : ℕ
  pub offset : ℕ
  pub vaddr : ℕ
  pub paddr : ℕ
  pub filesz : ℕ
  pub memsz : ℕ
  pub align : ℕ

abbrev pub program_header_at : List ℕ → ℕ → Elf64ProgramHeader
program_header_at image start = record {
  prog_type = field_at image start 4;
  flags = field_at image (start + 4) 4;
  offset = field_at image (start + 8) 8;
  vaddr = field_at image (start + 16) 8;
  paddr = field_at image (start + 24) 8;
  filesz = field_at image (start + 32) 8;
  memsz = field_at image (start + 40) 8;
  align = field_at image (start + 48) 8;
}

-- `elf.ident[i]` of the array of 16 bytes.
abbrev pub ident_at : Elf64Header → ℕ → ℕ
ident_at elf i = elim (get_elem? elf.ident i) [ none ↦ 0 | some b ↦ b ]

-- `Elf64Header::magic`
unfoldable pub magic : Elf64Header → ℕ
magic elf = from_le_bytes (take 4 elf.ident)

-- The comparison of `elf.ident[0..4]` with the bytes 0x7F, E, L, F.
abbrev pub has_magic_bytes : Elf64Header → Bool
has_magic_bytes elf =
    ident_at elf 0 == 0x7f
    && ident_at elf 1 == 0x45
    && ident_at elf 2 == 0x4c
    && ident_at elf 3 == 0x46

unfoldable pub read_elf_header : {S : Type 0} → List ℕ → Act S Elf64Header
unfolding magic
read_elf_header image = do
  fail_if (ltb (length image) elf_header_size) elf_header_is_truncated
  let elf = elf_header_at image
  fail_if (not (has_magic_bytes elf)) bad_elf_magic
  fail_if (not (ident_at elf 4 == 2) || not (ident_at elf 5 == 1)) unsupported_elf_class
  fail_if (not (elf.elf_type == 2) || not (elf.machine == 0x3e) || not (elf.version == 1))
      unsupported_elf_target
  fail_if (not (magic elf == 0x464c457f)) bad_elf_magic
  pure elf
