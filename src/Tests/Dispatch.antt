-- ===== src/Tests/Dispatch.antt =====
-- The theorems on the dispatcher and on copies from user memory on a small machine.
use ferri_os.Base.{◌≡◌, refl, true}
use ferri_os.Heap.{pos}
use ferri_os.Kernel.{Kernel, current_process}
use ferri_os.Syscall.{
  copy_bytes_from_user, exit_if_current_process_killed, set_trapframe, sys_getpid,
}
use ferri_os.Processes.Syscalls.{getpid}
use ferri_os.Syscall.Copies.{copy_bytewise, copy_bytes_from_user-bytewise}
use ferri_os.Syscall.Dispatch.{Environment, returns, syscall_dispatch, unless_killed, leave}
use ferri_os.Syscall.Dispatch.Alive.{Dispatched, syscall_dispatch-Dispatched}
use ferri_os.Tests.Machine.{machine, entries, after, stack}
use ferri_os.Tests.Exec.{no_mapper, programs, mapped}

abbrev pub environment : Environment
environment = record {
  x86 = entries;
  mapper = no_mapper;
  programs = programs;
  user_byte = λ k a. 0;
  user_word = λ k a. 0;
  is_utf8 = λ bytes. true;
  ticks = λ k. 100;
  kstack = λ k. stack;
}

-- `getpid` in process 0.
abbrev asked : Kernel
asked = after machine (syscall_dispatch environment 5 0 0 0x107f00 machine)

syscall_dispatch-Dispatched_example : Dispatched machine (returns (pos 0)) asked
unfolding syscall_dispatch unless_killed current_process exit_if_current_process_killed
    set_trapframe sys_getpid getpid leave
syscall_dispatch-Dispatched_example =
    syscall_dispatch-Dispatched environment 5 0 0 0x107f00 machine {o = returns (pos 0)}
      {k1 = asked} refl

copy_bytes_from_user-bytewise_example :
    copy_bytes_from_user entries 0xffc 10 (record machine { memory = mapped })
    ≡ copy_bytewise entries 0xffc 10 (record machine { memory = mapped })
copy_bytes_from_user-bytewise_example =
    copy_bytes_from_user-bytewise entries 0xffc 10 (record machine { memory = mapped })
