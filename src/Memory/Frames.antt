-- ===== src/Memory/Frames.antt =====
-- kernel/src/memory/mod.rs: the frame allocator over the boot loader's memory map.
use ferri_os.Base.{
  ℕ, zero, suc, ◌+◌, ◌-◌, ◌/◌, Bool, Option, some, List, [], ◌∷◌, ◌++◌, if◌then◌else◌, get_elem?,
  ◌==◌,
}

-- `PAGE_SIZE`
abbrev pub page_size : ℕ
page_size = 4096

-- `MemoryRegion` of the boot loader.
pub record MemoryRegion : Type 0 where
  pub start : ℕ
  pub stop : ℕ
  pub usable : Bool

-- Physical memory as pages of 512 words, by frame number, with the frame allocator.
-- `recycled_frames` has the end of the vector, where it is pushed and popped, first.
pub record Memory : Type 0 where
  pub memory_map : List MemoryRegion
  pub next : ℕ
  pub recycled_frames : List ℕ
  pub tables : ℕ → ℕ → ℕ

-- `BootInfoFrameAllocator::init`, over memory as it is.
abbrev pub init_frames : List MemoryRegion → (ℕ → ℕ → ℕ) → Memory
init_frames memory_map tables = record {
  memory_map = memory_map;
  next = 0;
  recycled_frames = [];
  tables = tables;
}

-- `n` addresses from `a` on in steps of a page, each as its frame.
abbrev frames_from : ℕ → ℕ → List ℕ
frames_from a zero = []
frames_from a (suc n) = a / page_size ∷ frames_from (a + page_size) n

-- `(start..stop).step_by(PAGE_SIZE)` has one address for each page begun.
abbrev pub region_frames : MemoryRegion → List ℕ
region_frames r = frames_from r.start ((r.stop - r.start + (page_size - 1)) / page_size)

unfoldable pub usable_frames : List MemoryRegion → List ℕ
usable_frames [] = []
usable_frames (r ∷ rs) = if r.usable then region_frames r ++ usable_frames rs else usable_frames rs

-- The counter of the code moves on also where the list has no frame left.
unfoldable pub allocate_frame : Memory → Option ℕ × Memory
allocate_frame m = elim m.recycled_frames [
  | [] ↦ (get_elem? (usable_frames m.memory_map) m.next, record m { next = m.next + 1 })
  | f ∷ fs ↦ (some f, record m { recycled_frames = fs })
]

unfoldable pub deallocate_frame : ℕ → Memory → Memory
deallocate_frame f m = record m { recycled_frames = f ∷ m.recycled_frames }

-- Stores to physical memory.
abbrev pub write_entry : ℕ → ℕ → ℕ → Memory → Memory
write_entry table i e m = record m {
  tables = λ t j. if t == table then (if j == i then e else m.tables t j) else m.tables t j;
}

-- `PageTable::new()` written to a frame, and `write_bytes(.., 0, PAGE_SIZE)`.
abbrev pub zero_frame : ℕ → Memory → Memory
zero_frame f m = record m { tables = λ t j. if t == f then 0 else m.tables t j }
