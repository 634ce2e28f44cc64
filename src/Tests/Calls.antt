-- ===== src/Tests/Calls.antt =====
-- The theorems on system calls on a small machine.
use ferri_os.Base.{
  ℕ, zero, suc, ◌+◌, ◌-◌, ◌≤◌, ◌≡◌, ◌↔◌, inl, refl, some, arith, set, err, get_elem?-replicate,
}
use ferri_os.Base.Error.{process_table_is_full}
use ferri_os.Thread.{running}
use ferri_os.Process.{nprocess}
use ferri_os.Kernel.{Kernel, current_process, set_process}
use ferri_os.Base.{for_range}
use ferri_os.Memory.{
  allocate_frame, copy_uvm, new_uvm, usable_frames, copy_table, free_uvm, free_entry,
}
use ferri_os.Threads.{create_user_thread, find_unused}
use ferri_os.Scheduler.{on_syscall_yield}
use ferri_os.Processes.{
  next_pid, alloc_proc, mark_threads_as_runnable, mark_thread, free_process, free_threads,
  free_thread, free_user_space,
}
use ferri_os.Processes.Slots.{free_slots}
use ferri_os.Processes.Syscalls.{
  finish_fork, set_child_thread, stop_threads, stop_thread, find_zombie, fork, exit, kill,
  wait_round,
}
use ferri_os.Processes.Copied.{Copied, fork-copies}
use ferri_os.Processes.Exit.{Exited, exit-Exited}
use ferri_os.Processes.Kill.{Killed, kill-Killed}
use ferri_os.Processes.Wait.{Reaped, wait_round-zombie}
use ferri_os.Processes.Lifetime.{IsIndexed, start, forks, Run-forks}
use ferri_os.Base.{◌⊎◌, false, true, ok}
use ferri_os.Process.{Process, ret_error}
use ferri_os.Syscall.{exit_if_current_process_killed, sys_exit}
use ferri_os.Syscall.Killed.{exit_if_current_process_killed-Exited}
use ferri_os.Tests.Machine.{machine, after, thread_of, entries, stack, init_thread, init_process}

-- The machine after process 0 has forked.
abbrev forked : Kernel
forked = after machine (fork entries stack machine)

fork-copies_example : Copied stack machine 0x107f00 1 forked
unfolding fork current_process alloc_proc next_pid create_user_thread find_unused copy_uvm new_uvm
    allocate_frame usable_frames for_range copy_table finish_fork set_child_thread set_process
    mark_threads_as_runnable mark_thread
fork-copies_example =
    fork-copies entries stack machine {pid = 1} {k1 = forked} refl 0 init_thread 0x107f00 refl refl
      refl refl (inl (omega arith))

kill-Killed_example : Killed forked 1 (after forked (kill 1 forked))
unfolding fork current_process alloc_proc next_pid create_user_thread find_unused copy_uvm new_uvm
    allocate_frame usable_frames for_range copy_table finish_fork set_child_thread set_process
    mark_threads_as_runnable mark_thread kill
kill-Killed_example = kill-Killed 1 forked {k1 = after forked (kill 1 forked)} refl

-- The child runs, and ends.
abbrev child : Kernel
child = record forked {
  cpu = record forked.cpu { current_tid = some 2 };
  thread_table =
      set forked.thread_table 2 (record (thread_of forked.thread_table 2) { state = running });
}

abbrev exited : Kernel
exited = after child (exit 7 child)

exit-Exited_example : Exited 7 child exited
unfolding fork current_process alloc_proc next_pid create_user_thread find_unused copy_uvm new_uvm
    allocate_frame usable_frames for_range copy_table finish_fork set_child_thread set_process
    mark_threads_as_runnable mark_thread exit stop_threads stop_thread on_syscall_yield
exit-Exited_example = exit-Exited 7 child {k1 = exited} refl

wait_round-zombie_example :
    (i : ℕ) × Reaped exited 0 i (1, 7) (after exited (wait_round entries init_process exited))
unfolding fork current_process alloc_proc next_pid create_user_thread find_unused copy_uvm new_uvm
    allocate_frame usable_frames for_range copy_table finish_fork set_child_thread set_process
    mark_threads_as_runnable mark_thread exit stop_threads stop_thread on_syscall_yield wait_round
    find_zombie free_process free_threads free_thread free_user_space free_uvm free_entry
wait_round-zombie_example =
    wait_round-zombie entries init_process exited {result = (1, 7)}
      {k1 = after exited (wait_round entries init_process exited)} refl

indexed : IsIndexed machine.process_table
unfolding IsIndexed
indexed zero p e = inl (ground arith)
indexed (suc i) p e = absurd (ground (arith, get_elem?-replicate 15 i e))

Run-forks_example :
    IsIndexed forked.process_table
    × (free_slots forked.process_table + 1 ≡ free_slots machine.process_table)
    × (1 ≤ nprocess - 1)
    × ((next_pid forked ≡ err process_table_is_full forked)
        ↔ (1 ≡ free_slots machine.process_table))
unfolding fork current_process alloc_proc next_pid create_user_thread find_unused copy_uvm new_uvm
    allocate_frame usable_frames for_range copy_table finish_fork set_child_thread set_process
    mark_threads_as_runnable mark_thread
Run-forks_example = Run-forks entries machine forked 1 indexed (forks {pid = 1} stack start refl)

-- The child has been killed before it goes on.
abbrev doomed : Kernel
doomed = after child (kill 1 child)

exit_if_current_process_killed-Exited_example :
    (process : Process) × (current_process doomed ≡ ok (some process) doomed)
    × (((process.killed ≡ false) × (after doomed (exit_if_current_process_killed doomed) ≡ doomed))
        ⊎ ((process.killed ≡ true)
            × Exited ret_error doomed (after doomed (exit_if_current_process_killed doomed))))
unfolding fork current_process alloc_proc next_pid create_user_thread find_unused copy_uvm new_uvm
    allocate_frame usable_frames for_range copy_table finish_fork set_child_thread set_process
    mark_threads_as_runnable mark_thread exit stop_threads stop_thread on_syscall_yield kill
    exit_if_current_process_killed sys_exit
exit_if_current_process_killed-Exited_example =
    exit_if_current_process_killed-Exited doomed
      {k1 = after doomed (exit_if_current_process_killed doomed)} refl
