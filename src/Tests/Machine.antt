-- ===== src/Tests/Machine.antt =====
-- A small machine: page table entries as numbers, two threads and one process.
use ferri_os.Base.{
  ℕ, zero, suc, ◌+◌, ◌-◌, ◌*◌, ◌/◌, ◌%◌, ◌^◌, ◌<◌, ◌≡◌, refl, Bool, true, false, ◌||◌, none, some,
  List, [], ◌∷◌, arith, if◌then◌else◌, ltb, leb, ◌==◌, Ret, ok, err, panic, replicate, get_elem?,
}
use ferri_os.Memory.Paging.{Paging, FrameResult, frame_is, frame_not_present, huge_frame}
use ferri_os.Thread.{Thread, new_thread, new_context, running, runnable, Regs}
use ferri_os.Process.{Process, ProcessState, new_process}
use ferri_os.Kernel.{Kernel}

abbrev is_odd : ℕ → Bool
is_odd a = a % 2 == 1

-- The lowest `n` bits of a bitwise or.
abbrev bit_or : ℕ → ℕ → ℕ → ℕ
bit_or zero a b = 0
bit_or (suc n) a b =
    let rest = bit_or n (a / 2) (b / 2) in (if is_odd a || is_odd b then 1 else 0) + 2 * rest

abbrev has_bit : ℕ → ℕ → Bool
has_bit a b = is_odd (a / b)

pub bit_or-is_odd : (a b : ℕ) → has_bit a 1 ≡ true → has_bit (bit_or 12 a b) 1 ≡ true
bit_or-is_odd a b h = low (is_odd b) (bit_or 11 (a / 2) (b / 2)) (is_odd a) (ground arith)
  where
    low :
        (y : Bool) (rest : ℕ) (x : Bool)
        → x ≡ true
        → has_bit ((if x || y then 1 else 0) + 2 * rest) 1 ≡ true
    low y rest x e = ground arith

abbrev frame_of : ℕ → FrameResult
frame_of e =
    if has_bit (e % 4096) 1
    then (if has_bit (e % 4096) 128 then huge_frame else frame_is (e / 4096))
    else frame_not_present

abbrev is_canonical : ℕ → Bool
is_canonical va = ltb va (2 ^ 47) || leb (2 ^ 64 - 2 ^ 47) va

pub low_canonical : (va : ℕ) → va < 2 ^ 47 → is_canonical va ≡ true
low_canonical va h = ground arith

pub page_canonical : (va d : ℕ) → va % 2 ^ 12 + d < 2 ^ 12 → is_canonical (va + d) ≡ is_canonical va
page_canonical va d h = ground arith

pub frame_of-frame_is :
    (e : ℕ)
    → has_bit (e % 4096) 1 ≡ true
    → has_bit (e % 4096) 128 ≡ false
    → frame_of e ≡ frame_is (e / 4096)
frame_of-frame_is e p h = ground (arith, p, h)

-- The bits of an entry on x86-64, for the frame number and the 12 lowest flags.
abbrev pub entries : Paging
entries = record {
  present = 1;
  writable = 2;
  user_accessible = 4;
  huge_page = 128;
  union = bit_or 12;
  contains = has_bit;
  flags = λ e. e % 4096;
  addr = λ e. e / 4096;
  frame = frame_of;
  set_frame = λ f fl. f * 4096 + fl;
  canonical = is_canonical;
  canonical_low = low_canonical;
  canonical_page = page_canonical;
  flags-set_frame = λ f fl h l. omega arith;
  addr-set_frame = λ f fl h l. omega arith;
  frame-present = frame_of-frame_is;
  unused-present = refl;
  contains-union_left = bit_or-is_odd;
  present_lem = refl;
  user_page-huge_page = refl;
}

abbrev pub stack : ℕ
stack = 0x200000

-- The thread of process 0, in user space or in a system call.
abbrev pub init_thread : Thread
init_thread = record new_thread {
  tid = 0;
  pid = some 0;
  state = running;
  kstack = 0x108000;
  tf = some 0x107f00;
}

abbrev pub kernel_thread : Thread
kernel_thread = record new_thread {
  tid = 1;
  state = runnable;
  kstack = 0x118000;
  context = record new_context { rflags = 0x200 };
}

abbrev pub init_process : Process
init_process = record new_process {
  state = ProcessState.alive;
  threads = some 0 ∷ replicate 7 none;
  nthread = 1;
  page_table = some 5;
  heap_size = 0x2000;
}

abbrev regs_of : ℕ → Regs
regs_of n = record {
  r15 = n;
  r14 = n;
  r13 = n;
  r12 = n;
  rbx = n;
  rbp = n;
  rsp = n;
  rip = n;
  rflags = 2;
}

abbrev pub machine : Kernel
machine = record {
  layout = record {
    kthread_entry = 0x1000;
    init_process_ring3_entry_trampoline = 0x1100;
    fork_return_trampoline = 0x1200;
    user_code_selector = 0x1b;
    user_data_selector = 0x23;
  };
  thread_table = init_thread ∷ kernel_thread ∷ replicate 62 new_thread;
  process_table = some init_process ∷ replicate 15 none;
  cpu = record {
    id = 0;
    scheduler = new_context;
    current_tid = some 0;
    saved_user_rsp = 0x3000;
    kernel_syscall_rsp = 0x108000;
  };
  memory = record {
    memory_map = record { start = 0x10000; stop = 0x20000; usable = true } ∷ [];
    next = 0;
    recycled_frames = [];
    tables = λ t i. 0;
  };
  kernel_page_table_frame = some 4;
  cr3 = 5;
  privilege_stack_0 = 0x107f90;
  interrupts = false;
  swapped_gs = true;
  scheduler_started = true;
  regs = regs_of 9;
  words = λ a. a;
  freed_stacks = [];
}

-- The state in which a call ends.
abbrev pub after : {A : Type 0} → Kernel → Ret Kernel A → Kernel
after k (ok a k1) = k1
after k (err e k1) = k1
after k (panic p) = k

abbrev pub thread_of : List Thread → ℕ → Thread
thread_of table tid = elim (get_elem? table tid) [ none ↦ new_thread | some t ↦ t ]
