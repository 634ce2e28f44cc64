-- ===== src/Exec/Header.antt =====
-- kernel/src/exec/mod.rs, `read_elf_header`: a header of the format is read as what it says.
use ferri_os.Base.{
  ℕ, zero, suc, ◌*◌, ◌/◌, ◌^◌, ◌<◌, ◌≡◌, refl, ap, ◌∙◌, false, List, [], ◌∷◌, ◌++◌, arith, ltb,
  length, ok, >>=-ok, fail_if,
}
use ferri_os.Base.Error.{elf_header_is_truncated}
use ferri_os.Exec.Elf.{Elf64Header, elf_header_at, from_le_bytes, read_elf_header}
use ferri_os.Exec.Space.{to_le_bytes}

-- The fields of a header that the format leaves open.
pub record Fields : Type 0 where
  pub entry : ℕ
  pub phoff : ℕ
  pub shoff : ℕ
  pub flags : ℕ
  pub ehsize : ℕ
  pub phentsize : ℕ
  pub phnum : ℕ
  pub shentsize : ℕ
  pub shnum : ℕ
  pub shstrndx : ℕ

-- The start of the file: the magic bytes, 64 bit, little-endian, version 1.
abbrev pub ident_bytes : List ℕ
ident_bytes = 0x7f ∷ 0x45 ∷ 0x4c ∷ 0x46 ∷ 2 ∷ 1 ∷ 1 ∷ 0 ∷ 0 ∷ 0 ∷ 0 ∷ 0 ∷ 0 ∷ 0 ∷ 0 ∷ 0 ∷ []

-- The header of an executable for x86-64 as the format lays it out.
abbrev pub header_bytes : Fields → List ℕ
header_bytes f =
    ident_bytes
    ++ (to_le_bytes 2 2
        ++ (to_le_bytes 2 0x3e
            ++ (to_le_bytes 4 1
                ++ (to_le_bytes 8 f.entry
                    ++ (to_le_bytes 8 f.phoff
                        ++ (to_le_bytes 8 f.shoff
                            ++ (to_le_bytes 4 f.flags
                                ++ (to_le_bytes 2 f.ehsize
                                    ++ (to_le_bytes 2 f.phentsize
                                        ++ (to_le_bytes 2 f.phnum
                                            ++ (to_le_bytes 2 f.shentsize
                                                ++ (to_le_bytes 2 f.shnum
                                                    ++ to_le_bytes 2 f.shstrndx))))))))))))

-- Every field fits in its bytes.
pub record AreInRange (f : Fields) : Type 0 where
  pub entry_lt : f.entry < 2 ^ 64
  pub phoff_lt : f.phoff < 2 ^ 64
  pub shoff_lt : f.shoff < 2 ^ 64
  pub flags_lt : f.flags < 2 ^ 32
  pub ehsize_lt : f.ehsize < 2 ^ 16
  pub phentsize_lt : f.phentsize < 2 ^ 16
  pub phnum_lt : f.phnum < 2 ^ 16
  pub shentsize_lt : f.shentsize < 2 ^ 16
  pub shnum_lt : f.shnum < 2 ^ 16
  pub shstrndx_lt : f.shstrndx < 2 ^ 16

-- The header that the kernel should read.
abbrev pub header_of : Fields → Elf64Header
header_of f = record {
  ident = ident_bytes;
  elf_type = 2;
  machine = 0x3e;
  version = 1;
  entry = f.entry;
  phoff = f.phoff;
  shoff = f.shoff;
  flags = f.flags;
  ehsize = f.ehsize;
  phentsize = f.phentsize;
  phnum = f.phnum;
  shentsize = f.shentsize;
  shnum = f.shnum;
  shstrndx = f.shstrndx;
}

-- The bound of `n` bytes, as a product.
abbrev bytes_bound : ℕ → ℕ
bytes_bound zero = 1
bytes_bound (suc n) = 256 * bytes_bound n

from_le_bytes-to_le_bytes : (n v : ℕ) → v < bytes_bound n → from_le_bytes (to_le_bytes n v) ≡ v
from_le_bytes-to_le_bytes zero v h = omega arith
from_le_bytes-to_le_bytes (suc n) v h =
    let rest = from_le_bytes-to_le_bytes n (v / 256) (omega arith) in omega (arith, rest)

header_at :
    (f : Fields) (rest : List ℕ)
    → AreInRange f
    → elf_header_at (header_bytes f ++ rest) ≡ header_of f
header_at f rest r =
    rw
      (
        from_le_bytes-to_le_bytes 8 f.entry r.entry_lt,
        from_le_bytes-to_le_bytes 8 f.phoff r.phoff_lt,
        from_le_bytes-to_le_bytes 8 f.shoff r.shoff_lt,
        from_le_bytes-to_le_bytes 4 f.flags r.flags_lt,
        from_le_bytes-to_le_bytes 2 f.ehsize r.ehsize_lt,
        from_le_bytes-to_le_bytes 2 f.phentsize r.phentsize_lt,
        from_le_bytes-to_le_bytes 2 f.phnum r.phnum_lt,
        from_le_bytes-to_le_bytes 2 f.shentsize r.shentsize_lt,
        from_le_bytes-to_le_bytes 2 f.shnum r.shnum_lt,
        from_le_bytes-to_le_bytes 2 f.shstrndx r.shstrndx_lt,
      )
      refl

-- An image that begins with a header of the format, whatever its open fields are and whatever follows,
-- passes all checks, and every field that the kernel reads is the one that was written.
pub read_elf_header-header_bytes :
    {S : Type 0} (f : Fields) (rest : List ℕ) (s : S)
    → AreInRange f
    → read_elf_header (header_bytes f ++ rest) s ≡ ok (header_of f) s
unfolding read_elf_header
read_elf_header-header_bytes f rest s r =
    let e : ltb (length (header_bytes f ++ rest)) 64 ≡ false = ground arith in
    >>=-ok (fail_if (ltb (length (header_bytes f ++ rest)) 64) elf_header_is_truncated) _ s
      (rw e refl)
    ∙ ap (λ h. ok h s) (header_at f rest r)
