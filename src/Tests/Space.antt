-- ===== src/Tests/Space.antt =====
-- The theorems on address spaces and trap frames on a small machine.
use ferri_os.Memory.{Memory, next_table, add_table}
use ferri_os.Memory.Path.{IsPool}
use ferri_os.Memory.{map_frame}
use ferri_os.Base.{Ret, err}
use ferri_os.Memory.Mapped.{Mapped, alloc_page-Mapped}
use ferri_os.Memory.Again.{IsWayTo, Walked, walk_pagetable-Walked}
use ferri_os.Base.{
  if◌then◌else◌, ◌==◌, ◌&&◌, ◌+◌, ◌*◌, ◌^◌, ℕ, ◌≡◌, ◌≢◌, refl, some, ok, panic, get_elem?,
}
use ferri_os.Base.Panic.{out_of_fuel}
use ferri_os.Memory.{
  alloc_page, allocate_frame, usable_frames, walk_pagetable, alloc_uvm, dealloc_uvm, is_present,
}
use ferri_os.Memory.Loops.{alloc_uvm-dealloc_uvm}
use ferri_os.Base.{true, List, [], ◌∷◌, arith}
use ferri_os.Memory.{MemoryRegion, init_frames, deallocate_frame}
use ferri_os.Memory.Pool.{
  pool, first, rest, count, allocate_frame-deallocate_frame, takes, starts, Run-takes_free,
}
use ferri_os.Process.{Process}
use ferri_os.Kernel.{Kernel, current_pid}
use ferri_os.Heap.{pos, sbrk}
use ferri_os.Heap.Grow.{sbrk-again}
use ferri_os.Tests.Machine.{machine, after, entries}

alloc_uvm-dealloc_uvm_example :
    (alloc_uvm entries 5 0x2000 0x5000 machine.memory ≢ panic out_of_fuel)
    × (dealloc_uvm entries 5 0x2000 0x5000 machine.memory ≢ panic out_of_fuel)
alloc_uvm-dealloc_uvm_example = alloc_uvm-dealloc_uvm entries 5 0x2000 0x5000 machine.memory

-- The heap has grown by two pages, as far as page tables go.
abbrev grown : Kernel
grown = after machine (sbrk entries (pos 0x2000) machine)

sbrk-again_example :
    (grown ≡ record machine { memory = grown.memory })
    × (pid : ℕ) × (process : Process) × (current_pid machine ≡ ok (some pid) machine)
    × (get_elem? machine.process_table pid ≡ some (some process))
    × (0x2000 ≡ process.heap_size)
    × (◌≡◌ {A = ℕ} 0x2000 0x2000)
unfolding sbrk current_pid alloc_uvm alloc_page allocate_frame usable_frames walk_pagetable
sbrk-again_example =
    sbrk-again entries (pos 0x2000) (pos 0) machine {address = 0x2000} {address' = 0x2000}
      {k1 = grown} {k2 = after grown (sbrk entries (pos 0) grown)} refl refl

allocate_frame-deallocate_frame_example :
    ((allocate_frame machine.memory).0 ≡ first (pool machine.memory))
    × (pool (allocate_frame machine.memory).1 ≡ rest (pool machine.memory))
    × (pool (deallocate_frame 16 machine.memory) ≡ 16 ∷ pool machine.memory)
allocate_frame-deallocate_frame_example = allocate_frame-deallocate_frame machine.memory 16

-- Two usable frames.
abbrev two_frames : List MemoryRegion
two_frames = record { start = 0x10000; stop = 0x12000; usable = true } ∷ []

Run-takes_free_example : count 17 (16 ∷ []) ≡ 0
unfolding allocate_frame usable_frames
Run-takes_free_example =
    Run-takes_free two_frames (16 ∷ []) (allocate_frame (init_frames two_frames λ t i. 0)).1
      (λ g. ground arith) (takes [] (init_frames two_frames λ t i. 0) 16 (starts λ t i. 0) refl)
      refl

-- Four free frames. The kernel half of root 5 has a table, 6, that maps all physical memory: each of
-- its entries points to a frame of its own, the free ones too.
abbrev small : Memory
small = record {
  memory_map = record { start = 0x10000; stop = 0x14000; usable = true } ∷ [];
  next = 0;
  recycled_frames = [];
  tables =
      λ t i. if t == 5 && i == 256 then 6 * 2 ^ 12 + 1 else (if t == 6 then i * 2 ^ 12 + 1 else 0);
}

-- The entry for the free frame 17 is present.
maps_free : is_present entries (small.tables 6 17) ≡ true
maps_free = refl

-- The memory after a walk from root 5.
abbrev walked : Memory
walked = (walk_pagetable entries true 5 0x5000 small).1

small-IsPool : IsPool entries small
unfolding usable_frames
small-IsPool = record { distinct = λ f. ground arith; bounded = λ f lt. ground (arith, lt) }

-- Nothing below the root is on the way of the address yet.
small-IsWayTo : IsWayTo entries 0x5000 5 small
unfolding usable_frames
small-IsWayTo = (refl, λ p. absurd cc)

walk_pagetable-Walked_example :
    Walked entries 5 0x5000 small walked (record { table = 18; index = 5 })
unfolding walk_pagetable next_table add_table allocate_frame usable_frames
walk_pagetable-Walked_example =
    walk_pagetable-Walked entries 5 0x5000 small walked (record { table = 18; index = 5 })
      (omega arith) small-IsPool small-IsWayTo refl

abbrev state_of : Ret Memory (Unit {0}) → Memory
state_of (ok _ m) = m
state_of (err e m) = m
state_of (panic p) = small

alloc_page-Mapped_example :
    Mapped entries 5 0x5000 small (state_of (alloc_page entries 5 0 0x5000 small))
unfolding alloc_page map_frame walk_pagetable next_table add_table allocate_frame usable_frames
alloc_page-Mapped_example =
    alloc_page-Mapped entries 5 0 0x5000 small (state_of (alloc_page entries 5 0 0x5000 small))
      (omega arith) small-IsPool small-IsWayTo refl
