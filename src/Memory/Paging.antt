-- ===== src/Memory/Paging.antt =====
-- What the kernel uses of the crate `x86_64`: page table entries and their flags.
-- An entry and a set of flags are u64 words, a `PhysFrame` is the number of its 4 KiB frame.
use ferri_os.Base.{ℕ, ◌+◌, ◌%◌, ◌^◌, ◌<◌, ◌≡◌, Bool, true, false}

-- `Result<PhysFrame, FrameError>`
pub data FrameResult : Type 0 where
  frame_is : ℕ → FrameResult
  frame_not_present huge_frame : FrameResult

-- `PageTableEntry` and `PageTableFlags`. An unused entry is the word 0.
pub record Paging : Type 0 where
  pub present : ℕ
  pub writable : ℕ
  pub user_accessible : ℕ
  pub huge_page : ℕ
  pub union : ℕ → ℕ → ℕ
  pub contains : ℕ → ℕ → Bool
  pub flags : ℕ → ℕ
  pub addr : ℕ → ℕ
  pub frame : ℕ → FrameResult
  pub set_frame : ℕ → ℕ → ℕ
  -- what `VirtAddr::new` accepts
  pub canonical : ℕ → Bool
  pub canonical_low : (va : ℕ) → va < 2 ^ 47 → canonical va ≡ true
  -- it looks at the bits from 47 on only
  pub canonical_page : (va d : ℕ) → va % 2 ^ 12 + d < 2 ^ 12 → canonical (va + d) ≡ canonical va
  -- a frame number has 40 bits; the flags used here are among the 12 lowest bits
  pub flags-set_frame : (f fl : ℕ) → f < 2 ^ 40 → fl < 2 ^ 12 → flags (set_frame f fl) ≡ fl
  pub addr-set_frame : (f fl : ℕ) → f < 2 ^ 40 → fl < 2 ^ 12 → addr (set_frame f fl) ≡ f
  pub frame-present :
      (e : ℕ)
      → contains (flags e) present ≡ true
      → contains (flags e) huge_page ≡ false
      → frame e ≡ frame_is (addr e)
  pub unused-present : contains (flags 0) present ≡ false
  pub contains-union_left :
      (a b : ℕ) → contains a present ≡ true → contains (union a b) present ≡ true
  pub present_lem : contains present present ≡ true
  pub user_page-huge_page :
      contains (union (union present writable) user_accessible) huge_page ≡ false
