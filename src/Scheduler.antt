-- ===== src/Scheduler.antt =====
-- kernel/src/scheduler/round_robin.rs: the round robin scheduler. A context switch ends a function
-- of the model: what runs next is the code that the saved registers belong to.
pub mod Select
pub mod Round
pub mod Fair
pub mod Yield
pub mod Invariant
use ferri_os.Base.{
  ℕ, zero, suc, ◌+◌, ◌-◌, ◌%◌, ◌≤◌, Bool, true, false, not, Option, none, some, List, if◌then◌else◌,
  Ret, ok, err, panic, Act, ◌>>=◌, ◌>>◌, pure, fault, get, put, expect, when, get_elem?, is_some,
}
use ferri_os.Base.Panic.{expect_failed, scheduler_already_started, thread_is_not_running, no_pid}
use ferri_os.Thread.{
  ThreadState, runnable, running, is_runnable, is_running, Context, Thread, nthread, save_regs,
  load_regs, pushed, interrupt_flag,
}
use ferri_os.Thread.TrapFrame.{trap_frame_size}
use ferri_os.Kernel.{Kernel, thread_at, set_thread, process_at, sub_u64, write_cr3, set_interrupts}

-- The table is an array of `NTHREAD` threads: an index below that is in it.
abbrev pub runnable_at : List Thread → ℕ → Bool
runnable_at table tid = elim (get_elem? table tid) [ none ↦ false | some t ↦ is_runnable t.state ]

-- The rounds of the loop from `i` on.
unfoldable pub find_from : ℕ → ℕ → List Thread → ℕ → Option ℕ
find_from zero i table current = none
find_from (suc n) i table current =
    let rest = find_from n (i + 1) table current in
    let tid = (current + i) % nthread in if runnable_at table tid then some tid else rest

abbrev pub current_or_last : Option ℕ → ℕ
current_or_last none = nthread - 1
current_or_last (some tid) = tid

unfoldable pub find_next_runnable_thread : List Thread → Option ℕ → Option ℕ
unfolding find_from
find_next_runnable_thread table current_tid =
    find_from nthread 1 table (current_or_last current_tid)

-- kernel/src/memory/kmem.rs
unfoldable pub switch_to_kernel_page_table : Act Kernel (Unit {0})
switch_to_kernel_page_table k = elim k.kernel_page_table_frame [
  | none ↦ ok tt k
  | some f ↦ write_cr3 f k
]

-- kernel/src/memory/umem.rs
unfoldable pub switch_to_user_page_table : Thread → Act Kernel (Unit {0})
unfolding process_at
switch_to_user_page_table t = elim t.pid [
  | none ↦ fault no_pid
  | some pid ↦ do
    entry ← process_at pid
    process ← expect entry expect_failed
    page_table ← expect process.page_table expect_failed
    write_cr3 page_table
]

-- The states of the thread that is chosen and of the one that ran, and the new current thread.
unfoldable pub set_running : ℕ → Act Kernel (Unit {0})
unfolding thread_at set_thread
set_running next_tid = do
  t ← thread_at next_tid
  set_thread next_tid (record t { state = running })
  k ← get
  elim k.cpu.current_tid [
    | none ↦ pure tt
    | some current_tid ↦ do
      c ← thread_at current_tid
      when (is_running c.state) (set_thread current_tid (record c { state = runnable }))
  ]
  k ← get
  put (record k { cpu = record k.cpu { current_tid = some next_tid } })

-- The page table of a user thread's process, or that of the kernel.
unfoldable pub select_page_table : Thread → Act Kernel (Unit {0})
unfolding switch_to_user_page_table switch_to_kernel_page_table
select_page_table t =
    if is_some t.pid then switch_to_user_page_table t else switch_to_kernel_page_table

-- What the CPU and the TSS need for system calls of the thread.
unfoldable pub set_stacks : Thread → Act Kernel (Unit {0})
unfolding sub_u64
set_stacks t = do
  k ← get
  put (record k {
    cpu = record k.cpu { kernel_syscall_rsp = t.kstack; saved_user_rsp = t.context.rsp3 };
  })
  rsp0 ← sub_u64 t.kstack trap_frame_size
  k ← get
  put (record k { privilege_stack_0 = rsp0 })

-- `switch_context(&cpu.scheduler, &table[tid].context)`; its `popfq` sets the interrupt flag too.
unfoldable pub switch_to_thread : Thread → Act Kernel (Unit {0})
switch_to_thread t k = ok tt (record k {
  cpu = record k.cpu { scheduler = save_regs (pushed k.interrupts k.regs) k.cpu.scheduler };
  regs = load_regs t.context;
  interrupts = interrupt_flag t.context.rflags;
})

-- `switch_context(&table[tid].context, &cpu.scheduler)`
unfoldable pub switch_to_scheduler : ℕ → Act Kernel (Unit {0})
unfolding thread_at set_thread
switch_to_scheduler tid = do
  t ← thread_at tid
  k ← get
  set_thread tid (record t { context = save_regs (pushed k.interrupts k.regs) t.context })
  k ← get
  put (record k {
    regs = load_regs k.cpu.scheduler;
    interrupts = interrupt_flag k.cpu.scheduler.rflags;
  })

-- The thread of a round of the loop, up to its context switch.
unfoldable pub dispatch : ℕ → Act Kernel (Unit {0})
unfolding thread_at switch_to_thread
dispatch next_tid = do
  set_running next_tid
  t ← thread_at next_tid
  select_page_table t
  set_stacks t
  switch_to_thread t

-- One round of the loop of `RoundRobin::scheduler`. With no thread to run it waits for an interrupt.
unfoldable pub schedule : Act Kernel (Option ℕ)
schedule k = elim (find_next_runnable_thread k.thread_table k.cpu.current_tid) [
  | none ↦ (do set_interrupts true; pure none) k
  | some next_tid ↦ (do dispatch next_tid; pure (some next_tid)) k
]

-- What `RoundRobin::scheduler` does before its loop.
unfoldable pub start_scheduler : Act Kernel (Unit {0})
start_scheduler = do
  set_interrupts false
  k ← get
  if k.scheduler_started
      then fault scheduler_already_started
      else put (record k { scheduler_started = true })

-- `on_yield`, up to its context switch; `false` if it returns without one.
unfoldable pub on_yield : Act Kernel Bool
unfolding switch_to_kernel_page_table thread_at set_thread switch_to_scheduler
on_yield = do
  set_interrupts false
  switch_to_kernel_page_table
  k ← get
  elim k.cpu.current_tid [
    | none ↦ do set_interrupts true; pure false
    | some current_tid ↦ do
      t ← thread_at current_tid
      if is_running t.state
          then (do
            set_thread current_tid (record t { state = runnable })
            switch_to_scheduler current_tid
            pure true)
          else fault thread_is_not_running
  ]

-- The rest of `on_yield`, when the thread runs again.
abbrev pub resume_on_yield : Act Kernel (Unit {0})
resume_on_yield = set_interrupts true

abbrev pub swapgs : Act Kernel (Unit {0})
swapgs k = ok tt (record k { swapped_gs = not k.swapped_gs })

-- `on_syscall_yield`, up to its context switch. The state of the thread is left alone.
unfoldable pub on_syscall_yield : Act Kernel Bool
unfolding switch_to_kernel_page_table thread_at set_thread switch_to_scheduler
on_syscall_yield = do
  set_interrupts false
  switch_to_kernel_page_table
  k ← get
  elim k.cpu.current_tid [
    | none ↦ do set_interrupts true; pure false
    | some current_tid ↦ do
      t ← thread_at current_tid
      k ← get
      set_thread current_tid
          (record t { context = record t.context { rsp3 = k.cpu.saved_user_rsp } })
      swapgs
      switch_to_scheduler current_tid
      pure true
  ]
