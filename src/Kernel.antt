-- ===== src/Kernel.antt =====
-- The state of the kernel: its tables, the CPU record of kernel/src/cpu.rs, the registers that the
-- code writes, and kernel memory as far as trap frames go.
use ferri_os.Base.{
  ℕ, ◌-◌, Bool, true, false, Option, none, some, List, ltb, ok, err, panic, Act, ◌>>=◌, pure,
  expect, get_elem?, set,
}
use ferri_os.Base.Panic.{index_out_of_bounds, arithmetic_overflow}
use ferri_os.Memory.{Memory}
use ferri_os.Thread.{Thread, Context, Regs, new_context}
use ferri_os.Thread.TrapFrame.{Words}
use ferri_os.Process.{Process}

pub record Cpu : Type 0 where
  pub id : ℕ
  pub scheduler : Context
  pub current_tid : Option ℕ
  pub saved_user_rsp : ℕ
  pub kernel_syscall_rsp : ℕ

-- `Cpu::new`
abbrev pub new_cpu : ℕ → Cpu
new_cpu cpu_id = record {
  id = cpu_id;
  scheduler = new_context;
  current_tid = none;
  saved_user_rsp = 0;
  kernel_syscall_rsp = 0;
}

-- Addresses of code, and the selectors of the GDT: fixed by the linker and by gdt.rs.
pub record Layout : Type 0 where
  pub kthread_entry : ℕ
  pub init_process_ring3_entry_trampoline : ℕ
  pub fork_return_trampoline : ℕ
  pub user_code_selector : ℕ
  pub user_data_selector : ℕ

-- `freed_stacks` lists the addresses handed to `dealloc`, the last first.
-- `swapped_gs` tells that the kernel's GS base is active.
pub record Kernel : Type 0 where
  pub layout : Layout
  pub thread_table : List Thread
  pub process_table : List (Option Process)
  pub cpu : Cpu
  pub memory : Memory
  pub kernel_page_table_frame : Option ℕ
  pub cr3 : ℕ
  pub privilege_stack_0 : ℕ
  pub interrupts : Bool
  pub swapped_gs : Bool
  pub scheduler_started : Bool
  pub regs : Regs
  pub words : Words
  pub freed_stacks : List ℕ

-- `table[tid]`
unfoldable pub thread_at : ℕ → Act Kernel Thread
thread_at tid k = expect (get_elem? k.thread_table tid) index_out_of_bounds k

-- A store to `table[tid]`.
unfoldable pub set_thread : ℕ → Thread → Act Kernel (Unit {0})
set_thread tid t k = elim (get_elem? k.thread_table tid) [
  | none ↦ panic index_out_of_bounds
  | some _ ↦ ok tt (record k { thread_table = set k.thread_table tid t })
]

-- `process_table[pid]`
unfoldable pub process_at : ℕ → Act Kernel (Option Process)
process_at pid k = expect (get_elem? k.process_table pid) index_out_of_bounds k

unfoldable pub set_process : ℕ → Option Process → Act Kernel (Unit {0})
set_process pid p k = elim (get_elem? k.process_table pid) [
  | none ↦ panic index_out_of_bounds
  | some _ ↦ ok tt (record k { process_table = set k.process_table pid p })
]

-- `a - b` on u64, which the dev profile checks.
unfoldable pub sub_u64 : ℕ → ℕ → Act Kernel ℕ
sub_u64 a b k = elim (ltb a b) [ true ↦ panic arithmetic_overflow | false ↦ ok (a - b) k ]

-- `Cpu::current_thread`
unfoldable pub current_thread : Act Kernel (Option Thread)
unfolding thread_at
current_thread k = elim k.cpu.current_tid [
  | none ↦ ok none k
  | some tid ↦ (do t ← thread_at tid; pure (some t)) k
]

-- `Cpu::current_pid`
unfoldable pub current_pid : Act Kernel (Option ℕ)
unfolding current_thread
current_pid = do t ← current_thread; elim t [ none ↦ pure none | some t ↦ pure t.pid ]

-- `Cpu::current_process`
unfoldable pub current_process : Act Kernel (Option Process)
unfolding current_pid process_at
current_process = do pid ← current_pid; elim pid [ none ↦ pure none | some pid ↦ process_at pid ]

-- Code of the memory module, over its part of the state.
abbrev pub with_memory : {A : Type 0} → Act Memory A → Act Kernel A
with_memory f k = elim (f k.memory) [
  | ok a m ↦ ok a (record k { memory = m })
  | err e m ↦ err e (record k { memory = m })
  | panic p ↦ panic p
]

-- `Cr3::write`
abbrev pub write_cr3 : ℕ → Act Kernel (Unit {0})
write_cr3 f k = ok tt (record k { cr3 = f })

abbrev pub set_interrupts : Bool → Act Kernel (Unit {0})
set_interrupts b k = ok tt (record k { interrupts = b })
