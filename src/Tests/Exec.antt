-- ===== src/Tests/Exec.antt =====
-- The theorems on the program loader on a small machine.
use ferri_os.Base.{
  false, ℕ, ◌+◌, ◌-◌, ◌*◌, refl, List, [], ◌∷◌, if◌then◌else◌, ◌==◌, Ret, ok, err, panic,
}
use ferri_os.Memory.{Memory, Mapper, walk_pagetable, write_bytes, write_byte, user_stack_top}
use ferri_os.Exec.{
  Exec, copy_chunk, copy_chunks, copy_to_user_pagetable, setup_user_stack, commit_exec, UserProgram,
  exec,
}
use ferri_os.Exec.Stack.{Laid, setup_user_stack-Laid}
use ferri_os.Exec.Rollback.{Commits, commit_exec-Commits}
use ferri_os.Exec.Loops.{copy_to_user_pagetable-zero_user_range}
use ferri_os.Base.{◌≢◌}
use ferri_os.Base.Panic.{out_of_fuel}
use ferri_os.Exec.{zero_user_range}
use ferri_os.Exec.Header.{Fields, AreInRange, header_bytes, header_of, read_elf_header-header_bytes}
use ferri_os.Exec.{read_elf_header}
use ferri_os.Base.{◌++◌, ◌≡◌, arith}
use ferri_os.Base.{none, some, true, Bool, replicate, for_range}
use ferri_os.Kernel.{Kernel, current_pid}
use ferri_os.Memory.{write_entry, allocate_frame, usable_frames}
use ferri_os.Exec.{lookup, prepare_exec_image, zero_chunks, zero_chunk, apply_exec}
use ferri_os.Tests.Machine.{machine, entries}

abbrev image : Exec
image = record {
  page_table = 9;
  entry = 0x400000;
  user_sp = 0x700000;
  argc = 1;
  argv_user_ptr = 0x700018;
  heap_size = 0x402000;
}

commit_exec-Commits_example : Commits image machine (commit_exec image machine)
commit_exec-Commits_example = commit_exec-Commits image machine

-- Every page of table 5 has a frame of its own.
abbrev pub mapped : Memory
mapped = record machine.memory {
  tables = λ t i.
      if t == 5
      then 0x6007
      else if t == 6
      then 0x7007
      else if t == 7
      then 0x8007
      else if t == 8
      then (0x100 + i) * 4096 + 7
      else 0;
}

abbrev strings : List (List ℕ)
strings = (104 ∷ 105 ∷ []) ∷ (7 ∷ []) ∷ []

abbrev memory_of : {A : Type 0} → Ret Memory A → Memory
memory_of (ok a m) = m
memory_of (err e m) = m
memory_of (panic p) = mapped

setup_user_stack-Laid_example :
    Laid strings user_stack_top (user_stack_top - 72) 2 (user_stack_top - 48)
unfolding setup_user_stack copy_to_user_pagetable copy_chunks copy_chunk walk_pagetable write_bytes
    write_byte
setup_user_stack-Laid_example =
    setup_user_stack-Laid entries 5 strings user_stack_top mapped
      {m1 = memory_of (setup_user_stack entries 5 strings user_stack_top mapped)} refl

-- A mapper that has no table to map in.
abbrev pub no_mapper : Mapper
no_mapper = record { map_to = λ pml4 page f flags m. (false, m) }

abbrev pub programs : List UserProgram
programs = record { path = 47 ∷ 105 ∷ []; elf = 0x7f ∷ 0x45 ∷ [] } ∷ []

copy_to_user_pagetable-zero_user_range_example :
    (copy_to_user_pagetable entries 5 0x1ffe (1 ∷ 2 ∷ 3 ∷ []) mapped ≢ panic out_of_fuel)
    × (zero_user_range entries 5 0x1ffe 5000 mapped ≢ panic out_of_fuel)
copy_to_user_pagetable-zero_user_range_example =
    copy_to_user_pagetable-zero_user_range entries 5 0x1ffe 5000 (1 ∷ 2 ∷ 3 ∷ []) mapped

abbrev fields : Fields
fields = record {
  entry = 0x401000;
  phoff = 64;
  shoff = 0;
  flags = 0;
  ehsize = 64;
  phentsize = 56;
  phnum = 2;
  shentsize = 0;
  shnum = 0;
  shstrndx = 0;
}

fields-AreInRange : AreInRange fields
fields-AreInRange = record {
  entry_lt = omega arith;
  phoff_lt = omega arith;
  shoff_lt = omega arith;
  flags_lt = omega arith;
  ehsize_lt = omega arith;
  phentsize_lt = omega arith;
  phnum_lt = omega arith;
  shentsize_lt = omega arith;
  shnum_lt = omega arith;
  shstrndx_lt = omega arith;
}

read_elf_header-header_bytes_example :
    read_elf_header (header_bytes fields ++ (7 ∷ [])) machine ≡ ok (header_of fields) machine
read_elf_header-header_bytes_example =
    read_elf_header-header_bytes fields (7 ∷ []) machine fields-AreInRange

-- A mapper that walks, adds the tables that are missing, and writes the entry.
abbrev walking_mapper : Mapper
walking_mapper = record {
  map_to = λ pml4 page f fl m.
      let (s, m1) = walk_pagetable entries true pml4 page m in
      elim s [
        | none ↦ (false, m1)
        | some slot ↦ (true, write_entry slot.table slot.index (f * 4096 + 7) m1)
      ];
}

-- The program header of a LOAD segment: the two bytes of the file from 120 on, and two zeros.
abbrev load_header_bytes : List ℕ
load_header_bytes =
    (1 ∷ 0 ∷ 0 ∷ 0 ∷ 5 ∷ 0 ∷ 0 ∷ 0 ∷ 120 ∷ replicate 7 0)
    ++ (0 ∷ 0 ∷ 0 ∷ 0 ∷ 0 ∷ 16 ∷ 0 ∷ 0 ∷ replicate 8 0)
    ++ (2 ∷ replicate 7 0)
    ++ (4 ∷ replicate 7 0)
    ++ replicate 8 0

abbrev loaded_programs : List UserProgram
loaded_programs =
    record { path = 47 ∷ []; elf = [] }
    ∷ record {
      path = 47 ∷ 105 ∷ [];
      elf = header_bytes (record fields { phnum = 1 }) ++ load_header_bytes ++ (11 ∷ 12 ∷ []);
    }
    ∷ []

-- The machine with 32 frames more.
abbrev roomy : Kernel
roomy = record machine {
  memory = record machine.memory {
    memory_map = record { start = 0x10000; stop = 0x40000; usable = true } ∷ [];
  };
}

abbrev succeeds : Ret Kernel (Unit {0}) → Bool
succeeds (ok _ k) = true
succeeds (err e k) = false
succeeds (panic p) = false

loaded : succeeds (exec entries walking_mapper loaded_programs (47 ∷ 105 ∷ []) strings roomy) ≡ true
unfolding exec lookup prepare_exec_image allocate_frame usable_frames walk_pagetable zero_chunks
    zero_chunk copy_chunks copy_chunk write_bytes write_byte for_range commit_exec current_pid
    apply_exec
loaded = refl
