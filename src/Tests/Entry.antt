-- ===== src/Tests/Entry.antt =====
-- The theorems on the ways between user mode and the kernel on a small machine.
use ferri_os.Base.{ℕ, ◌≡◌, ◌+◌, refl, true, false, some, inl, arith, set}
use ferri_os.Kernel.{Kernel, current_process, set_process, thread_at}
use ferri_os.Thread.{Thread, Context, running}
use ferri_os.Base.{for_range}
use ferri_os.Memory.{allocate_frame, copy_uvm, new_uvm, usable_frames, copy_table}
use ferri_os.Threads.{create_user_thread, find_unused}
use ferri_os.Processes.{alloc_proc, next_pid, mark_threads_as_runnable, mark_thread}
use ferri_os.Processes.Syscalls.{fork, finish_fork, set_child_thread}
use ferri_os.Syscall.{as_i64}
use ferri_os.Syscall.Dispatch.{syscall_dispatch}
use ferri_os.Syscall.Dispatch.Getpid.{framed, syscall_dispatch-getpid}
use ferri_os.Heap.{pos}
use ferri_os.Userlib.Calls.{getpid, result, at_syscall, user_syscall-result}
use ferri_os.Entry.RegisterFile.{Reg, Registers}
use ferri_os.Entry.Machine.{Core, Processor, syscall}
use ferri_os.Entry.{syscall_entry, back}
use ferri_os.Entry.Call.{entered, resume, syscall_entry-resume}
use ferri_os.Entry.Answered.{answered, getpid-answered}
use ferri_os.Entry.Child.{SameUser, fork-SameUser}
use ferri_os.Entry.Trampolines.{
  Operands, running_context, fork_return_trampoline, init_process_ring3_entry_trampoline,
}
use ferri_os.Entry.First.{started, init_process_ring3_entry_trampoline-started}
use ferri_os.Tests.Machine.{machine, after, thread_of, entries, stack, init_thread, init_process}
use ferri_os.Tests.Dispatch.{environment}

abbrev processor : Processor
processor = record {
  flags_of_syscall = λ n. n;
  flags_of_sysret = λ n. n;
  interrupt_flag = λ n. true;
  lstar = 0x1300;
  user_cs = 0x1b;
  user_ss = 0x23;
  kernel_cs = 0x8;
  kernel_ss = 0x10;
}

-- Registers with a different value in each.
abbrev numbered : ℕ → Registers
numbered n = record {
  rax = n;
  rbx = n + 1;
  rcx = n + 2;
  rdx = n + 3;
  rsi = n + 4;
  rdi = n + 5;
  rbp = n + 6;
  rsp = n + 7;
  r8 = n + 8;
  r9 = n + 9;
  r10 = n + 10;
  r11 = n + 11;
  r12 = n + 12;
  r13 = n + 13;
  r14 = n + 14;
  r15 = n + 15;
}

-- Process 0 in user mode, about to ask for its process id.
abbrev asking : Core
asking = record {
  regs = numbered 5;
  rip = 0x400010;
  rflags = 0x202;
  cs = 0x1b;
  ss = 0x23;
  ds = 0x23;
  es = 0x23;
  kernel = record machine { swapped_gs = false };
}

syscall_entry-resume_example :
    syscall_entry processor environment (numbered 100) (syscall processor asking)
    ≡ resume processor
        (numbered 100)
        0x107fa0
        asking
        (syscall_dispatch environment 5 10 9 0x107fa0 (entered 0x107fa0 asking))
syscall_entry-resume_example =
    syscall_entry-resume processor environment (numbered 100) 0x107fa0 asking refl refl
      (omega arith)

getpid-answered_example :
    syscall_entry processor environment (numbered 100) (syscall processor asking)
    ≡ back (
        answered processor
          (numbered 100)
          0x107fa0
          asking
          (as_i64 0)
          (framed 0x107fa0 0 init_thread (entered 0x107fa0 asking)))
getpid-answered_example =
    getpid-answered processor environment (numbered 100) 0x107fa0 asking 0 init_thread 0
      init_process
      record { tid_is = refl; thread_is = refl; pid_is = refl; process_is = refl; alive = refl }
      refl refl refl (omega arith)

-- The context of the first process, as its creation leaves it.
abbrev first_context : Context
first_context = record init_thread.context {
  cs = 0x1b;
  ss = 0x23;
  rsp3 = 0x7000;
  user_rip = 0x400000;
  user_rdi = 1;
  user_rsi = 0x6ff0;
}

abbrev starting : Core
starting = record asking {
  regs = record asking.regs { rsp = 0x108000 };
  kernel = record machine {
    thread_table = set machine.thread_table 0 (record init_thread { context = first_context });
  };
}

abbrev operands : Operands
operands = record {
  cs = Reg.rcx;
  rsp3 = Reg.rdx;
  rflags = Reg.rsi;
  rip = Reg.rdi;
  user_rdi = Reg.r8;
  user_rsi = Reg.r9;
}

abbrev placed : Context → Registers → Registers
placed ctx regs = record regs {
  rax = ctx.ss;
  rcx = ctx.cs;
  rdx = ctx.rsp3;
  rsi = 0x202;
  rdi = ctx.user_rip;
  r8 = ctx.user_rdi;
  r9 = ctx.user_rsi;
}

-- Its rdi is 0, not the 1 of the context.
init_process_ring3_entry_trampoline-started_example :
    init_process_ring3_entry_trampoline processor operands placed starting
    ≡ some (
        started processor 0x107fd8 first_context
          (record starting { regs = placed first_context starting.regs }))
unfolding running_context thread_at
init_process_ring3_entry_trampoline-started_example =
    init_process_ring3_entry_trampoline-started processor operands placed 0x107fd8 first_context
      starting refl (refl, refl, refl, refl, refl, refl)
      record {
        rax = refl;
        cs = refl;
        rsp3 = refl;
        rflags = refl;
        rip = refl;
        user_rdi = refl;
        user_rsi = refl;
      }
      refl (omega arith)

-- Process 0 calls `fork` from user mode.
abbrev calling : Kernel
calling = framed 0x107fa0 0 init_thread (entered 0x107fa0 asking)

abbrev doubled : Kernel
doubled = after calling (fork entries stack calling)

abbrev child_thread : Thread
child_thread = thread_of doubled.thread_table 2

-- The child, as the scheduler has switched to it.
abbrev child : Core
child = record asking {
  regs = record (numbered 40) { rsp = 0x207f90 };
  kernel = record doubled {
    cpu = record doubled.cpu { current_tid = some 2 };
    thread_table = set doubled.thread_table 2 (record child_thread { state = running });
  };
}

fork-SameUser_example :
    (e : Core) × (fork_return_trampoline processor child ≡ some e) × SameUser asking e
unfolding entered fork current_process alloc_proc next_pid create_user_thread find_unused copy_uvm
    new_uvm allocate_frame usable_frames for_range copy_table finish_fork set_child_thread
    set_process mark_threads_as_runnable mark_thread
fork-SameUser_example =
    fork-SameUser processor entries stack 0x107fa0 asking child calling {pid = 1} {k1 = doubled} 2
      record {
        words_are = refl;
        user_rsp = refl;
        caller = 0;
        thread = record init_thread { tf = some 0x107fa0 };
        caller_is = refl;
        thread_is = refl;
        used = refl;
        frame_is = refl;
        apart = inl (omega arith);
        forked = refl;
      }
      refl
      record {
        thread = record child_thread { state = running };
        given = child_thread;
        given_is = refl;
        current = refl;
        thread_is = refl;
        context = refl;
        tf = refl;
        rsp = refl;
        frame = refl;
      }
      (omega arith) (omega arith)

-- `getpid` of the user library.
user_syscall-result_example :
    result (getpid processor environment (numbered 100) asking) ≡ some (pos 0)
unfolding entered
user_syscall-result_example =
    user_syscall-result processor environment (numbered 100) 5 0 0 0 0x107fa0 asking (pos 0)
      (framed 0x107fa0 0 init_thread (entered 0x107fa0 (at_syscall 5 0 0 0 asking))) refl refl
      (omega arith)
      (syscall_dispatch-getpid environment 0 0 0x107fa0
        record { tid_is = refl; thread_is = refl; pid_is = refl; process_is = refl; alive = refl })
      refl (omega arith)
