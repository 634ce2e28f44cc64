-- ===== src/Thread.antt =====
-- kernel/src/thread and kernel/src/scheduler/context.rs: the records of a thread.
pub mod TrapFrame
use ferri_os.Base.{
  ℕ, ◌+◌, ◌*◌, ◌/◌, ◌%◌, ◌==◌, ◌≡◌, Bool, true, false, Option, none, some, if◌then◌else◌, arith,
}

pub data ThreadState : Type 0 where
  unused embryo sleeping runnable running zombie : ThreadState

-- `==` of the derived `PartialEq`, at the three states that the code compares with.
abbrev pub is_unused : ThreadState → Bool
is_unused unused = true
is_unused _ = false

abbrev pub is_runnable : ThreadState → Bool
is_runnable runnable = true
is_runnable _ = false

abbrev pub is_running : ThreadState → Bool
is_running running = true
is_running _ = false

pub record Context : Type 0 where
  pub r15 : ℕ
  pub r14 : ℕ
  pub r13 : ℕ
  pub r12 : ℕ
  pub rbx : ℕ
  pub rbp : ℕ
  pub rsp : ℕ
  pub rip : ℕ
  pub rflags : ℕ
  pub cs : ℕ
  pub ss : ℕ
  pub rsp3 : ℕ
  pub user_rip : ℕ
  pub user_rdi : ℕ
  pub user_rsi : ℕ

-- `Context::new`
abbrev pub new_context : Context
new_context = record {
  r15 = 0;
  r14 = 0;
  r13 = 0;
  r12 = 0;
  rbx = 0;
  rbp = 0;
  rsp = 0;
  rip = 0;
  rflags = 0;
  cs = 0;
  ss = 0;
  rsp3 = 0;
  user_rip = 0;
  user_rdi = 0;
  user_rsi = 0;
}

-- A trap frame and an entry function are given by their addresses.
pub record Thread : Type 0 where
  pub tid : ℕ
  pub pid : Option ℕ
  pub state : ThreadState
  pub context : Context
  pub kstack : ℕ
  pub tf : Option ℕ
  pub entry : Option ℕ

-- `Thread::new`
abbrev pub new_thread : Thread
new_thread = record {
  tid = 0;
  pid = none;
  state = unused;
  context = new_context;
  kstack = 0;
  tf = none;
  entry = none;
}

-- `NTHREAD`
abbrev pub nthread : ℕ
nthread = 64

-- The registers that `switch_context` saves, as they are when it returns to its caller.
pub record Regs : Type 0 where
  pub r15 : ℕ
  pub r14 : ℕ
  pub r13 : ℕ
  pub r12 : ℕ
  pub rbx : ℕ
  pub rbp : ℕ
  pub rsp : ℕ
  pub rip : ℕ
  pub rflags : ℕ

-- The interrupt flag, bit 9 of RFLAGS.
unfoldable pub interrupt_flag : ℕ → Bool
interrupt_flag n = n / 512 % 2 == 1

-- RFLAGS with that interrupt flag.
unfoldable pub with_interrupt_flag : Bool → ℕ → ℕ
with_interrupt_flag b n = n / 1024 * 1024 + (if b then 512 else 0) + n % 512

pub interrupt_flag-with_interrupt_flag :
    (b : Bool) (n : ℕ) → interrupt_flag (with_interrupt_flag b n) ≡ b
unfolding interrupt_flag with_interrupt_flag
interrupt_flag-with_interrupt_flag true n = ground arith
interrupt_flag-with_interrupt_flag false n = ground arith

-- `pushfq`: the registers with the interrupt flag as it is. `cli` and `sti` are kept in the field
-- `interrupts` of `Kernel` alone, so that bit 9 of `rflags` counts when it is loaded only.
abbrev pub pushed : Bool → Regs → Regs
pushed interrupts r = record r { rflags = with_interrupt_flag interrupts r.rflags }

-- The first half of `switch_context`: `lea rax, [rsp + 8]` and `mov rax, [rsp]` take the stack
-- pointer and the address at which the caller goes on.
abbrev pub save_regs : Regs → Context → Context
save_regs r c = record c {
  r15 = r.r15;
  r14 = r.r14;
  r13 = r.r13;
  r12 = r.r12;
  rbx = r.rbx;
  rbp = r.rbp;
  rsp = r.rsp;
  rip = r.rip;
  rflags = r.rflags;
}

-- Its second half: `push [rsi + 56]` and `ret` jump to the saved address.
abbrev pub load_regs : Context → Regs
load_regs c = record {
  r15 = c.r15;
  r14 = c.r14;
  r13 = c.r13;
  r12 = c.r12;
  rbx = c.rbx;
  rbp = c.rbp;
  rsp = c.rsp;
  rip = c.rip;
  rflags = c.rflags;
}
