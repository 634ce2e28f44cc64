-- ===== src/Tests/Scheduling.antt =====
-- The scheduler's theorems on a small machine.
use ferri_os.Base.{
  ℕ, zero, suc, get_elem?-replicate, ◌-◌, ◌<◌, ◌≡◌, ◌↔◌, ◌≤◌, refl, true, false, not, none, some,
  arith, get_elem?, panic, replicate, set,
}
use ferri_os.Base.Panic.{thread_is_not_running}
use ferri_os.Thread.{
  Thread, runnable, nthread, new_thread, load_regs, is_running, interrupt_flag, pushed,
}
use ferri_os.Kernel.{Kernel}
use ferri_os.Threads.{next_tid, unused_at}
use ferri_os.Threads.Select.{next_tid-first}
use ferri_os.Scheduler.{
  runnable_at, find_next_runnable_thread, schedule, on_yield, on_syscall_yield, find_from,
  select_page_table, set_stacks, set_running, dispatch,
}
use ferri_os.Scheduler.Select.{find_next_runnable_thread-first, turns_until}
use ferri_os.Scheduler.Round.{state_after, schedule-thread}
use ferri_os.Scheduler.Fair.{PassedOver-lt-nthread, start, round}
use ferri_os.Scheduler.Yield.{on_yield-schedule, on_syscall_yield-schedule, schedule-same_thread}
use ferri_os.Scheduler.Invariant.{IsScheduled, Switch-IsScheduled, from_thread}
use ferri_os.Tests.Machine.{machine, after, thread_of, kernel_thread}

-- The machine when the thread has yielded, and after the round that follows.
abbrev yielded : Kernel
yielded = after machine (on_yield machine)

abbrev switched_on : Kernel
switched_on = after yielded (schedule yielded)

schedule-thread_example :
    (switched_on.cpu.current_tid ≡ some 1)
    × (get_elem? switched_on.thread_table 1
        ≡ some (record kernel_thread { state = state_after (some 0) 1 1 runnable }))
    × (switched_on.process_table ≡ yielded.process_table)
    × (t : Thread) × (get_elem? yielded.thread_table 1 ≡ some t)
    × (switched_on.regs ≡ load_regs t.context)
    × (switched_on.interrupts ≡ interrupt_flag t.context.rflags)
unfolding schedule on_yield find_next_runnable_thread dispatch set_running select_page_table
    set_stacks
schedule-thread_example =
    schedule-thread yielded {next = 1} {k1 = switched_on} refl 1 {w = kernel_thread} refl

find_next_runnable_thread-first_example :
    (1 < nthread)
    × (runnable_at machine.thread_table 1 ≡ true)
    × ((u : ℕ)
        → u < nthread
        → runnable_at machine.thread_table u ≡ true
        → turns_until 0 1 ≤ turns_until 0 u)
unfolding find_next_runnable_thread find_from
find_next_runnable_thread-first_example =
    find_next_runnable_thread-first machine.thread_table (some 0) {tid = 1} (omega arith) refl

next_tid-first_example :
    ((tid : ℕ)
      → next_tid machine.thread_table ≡ some tid
      → (tid < nthread - 1)
        × (unused_at machine.thread_table tid ≡ true)
        × ((u : ℕ) → u < tid → unused_at machine.thread_table u ≡ false))
    × ((next_tid machine.thread_table ≡ none)
        ↔ ((u : ℕ) → u < nthread - 1 → unused_at machine.thread_table u ≡ false))
next_tid-first_example = next_tid-first machine.thread_table

PassedOver-lt-nthread_example : 1 < nthread
unfolding schedule on_yield find_next_runnable_thread dispatch set_running select_page_table
    set_stacks
PassedOver-lt-nthread_example =
    PassedOver-lt-nthread {tid = 0} {first = yielded} {n = 1} {k = switched_on} (omega arith)
      (omega arith) (round {k1 = switched_on} 1 (start refl) refl (omega arith) refl refl)

-- The same states, with thread 1 as the one that ran last.
abbrev later : Kernel
later = record yielded { cpu = record yielded.cpu { current_tid = some 1 } }

on_yield-schedule_example :
    (yielded.regs ≡ load_regs machine.cpu.scheduler)
    × (yielded.interrupts ≡ interrupt_flag machine.cpu.scheduler.rflags)
    × ((after later (schedule later)).regs ≡ pushed false machine.regs)
    × ((after later (schedule later)).interrupts ≡ false)
unfolding schedule on_yield find_next_runnable_thread dispatch set_running select_page_table
    set_stacks
on_yield-schedule_example =
    on_yield-schedule machine yielded later (after later (schedule later)) {tid = 0}
      {w = thread_of yielded.thread_table 0} {s = runnable} refl refl refl refl refl

abbrev called : Kernel
called = after machine (on_syscall_yield machine)

-- Another thread has run, and the caller may go on.
abbrev returning : Kernel
returning = record called {
  cpu = record called.cpu { current_tid = some 1 };
  thread_table =
      set called.thread_table 0 (record (thread_of called.thread_table 0) { state = runnable });
}

on_syscall_yield-schedule_example :
    (called.swapped_gs ≡ not machine.swapped_gs)
    × (called.regs ≡ load_regs machine.cpu.scheduler)
    × (called.interrupts ≡ interrupt_flag machine.cpu.scheduler.rflags)
    × ((after returning (schedule returning)).regs ≡ pushed false machine.regs)
    × ((after returning (schedule returning)).interrupts ≡ false)
    × ((after returning (schedule returning)).cpu.saved_user_rsp ≡ machine.cpu.saved_user_rsp)
unfolding schedule on_syscall_yield find_next_runnable_thread dispatch set_running select_page_table
    set_stacks
on_syscall_yield-schedule_example =
    on_syscall_yield-schedule machine called returning (after returning (schedule returning))
      {tid = 0} {w = thread_of called.thread_table 0} {s = runnable} refl refl refl refl refl

-- The current thread is the only one that can run.
abbrev alone : Kernel
alone = record yielded { thread_table = set yielded.thread_table 1 new_thread }

unused_idle : (n u : ℕ) → runnable_at (replicate n new_thread) u ≡ false
unused_idle zero u = refl
unused_idle (suc n) zero = refl
unused_idle (suc n) (suc u) = unused_idle n u

only_init : (u : ℕ) → u < nthread → runnable_at alone.thread_table u ≡ true → u ≡ 0
unfolding on_yield
only_init zero lt h = refl
only_init (suc zero) lt h = cc
only_init (suc (suc u)) lt h = absurd (ground (arith, h, unused_idle 62 u))

schedule-same_thread_example :
    (◌≡◌ {A = ℕ} 0 0) × (on_yield (after alone (schedule alone)) ≡ panic thread_is_not_running)
unfolding schedule on_yield find_next_runnable_thread dispatch set_running select_page_table
    set_stacks
schedule-same_thread_example =
    schedule-same_thread alone (after alone (schedule alone)) (after alone (schedule alone))
      {tid = 0} {t = thread_of alone.thread_table 0} refl (omega arith) refl refl only_init
      {next = 0} refl refl refl

only_running :
    (u : ℕ) {t : Thread}
    → get_elem? machine.thread_table u ≡ some t
    → is_running t.state ≡ true
    → some 0 ≡ some u
only_running zero h r = refl
only_running (suc zero) h r = cc
only_running (suc (suc u)) h r = absurd (ground (arith, r, get_elem?-replicate 62 u h))

Switch-IsScheduled_example : IsScheduled yielded
unfolding on_yield
Switch-IsScheduled_example =
    Switch-IsScheduled {k = machine} {k1 = yielded}
      (record { size = refl; current = omega arith; single = only_running }) (from_thread refl)
