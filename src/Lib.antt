-- ===== src/Lib.antt =====
-- FerriOS: the process and memory core of the kernel.
--
-- The kernel keeps a table of 64 threads and a table of 16 processes. A round-robin scheduler
-- switches between its own context and those of the threads; a thread gives the CPU up in `on_yield`
-- (timer, kernel threads) or `on_syscall_yield` (inside a system call). `fork`, `exit`, `wait` and
-- `kill` work on both tables, and `fork` and `sbrk` on page tables and physical frames too. `exec` builds
-- a new address space from a program and gives it to the caller. A system call comes from user mode through
-- an entry in assembler to the dispatcher, which also ends processes that have been killed, as the timer
-- interrupt does. One kernel thread runs asynchronous tasks for the bytes of the keyboard and of the serial
-- line, which interrupts bring.
--
-- Base: native numbers, lists with native indices (Base/Table), Boolean tests (Base/Tests), and code
--   that ends with a result, with `Err` or in a panic (Base/Outcome). `Act S A` is code over a state S.
--   A `&'static str` is a constructor of Error, a panic one of Panic.
-- Memory: kernel/src/memory. Memory/Paging is what the code uses of the crate x86_64, as a record of
--   operations and laws; Memory/Frames is mod.rs, Memory/Walk va.rs, Memory/Uvm and Memory/Copy umem.rs.
--   A page table is the number of its frame, and memory maps a frame and an index to an entry.
--   Memory/Map is the rest of va.rs, over `map_to` of that crate as a parameter, and Memory/Bytes has the
--   bytes of a frame. Memory/Loops, Memory/Pool, Memory/Path, Memory/Again and
--   Memory/Mapped are proofs.
-- Thread, Threads: kernel/src/thread/mod.rs, kthread.rs, uprocess/uthread.rs, scheduler/context.rs, and
--   the stacks of memory/kmem.rs. Thread/TrapFrame stores a trap frame as 14 words of memory.
-- Process, Processes: kernel/src/thread/uprocess/mod.rs; Processes/Syscalls is uprocess/syscalls.rs. The
--   other modules below Processes are proofs, each named for what it is about.
-- Kernel: the state of all that, with kernel/src/cpu.rs and the registers that the code writes.
-- Scheduler: kernel/src/scheduler/round_robin.rs; the modules below it are proofs.
-- Heap: kernel/src/memory/syscalls.rs and `grow_process_heap` of memory/umem.rs.
-- Allocator: kernel/src/allocator/fixed_size_block.rs, over the heap of the crate linked_list_allocator as a
--   parameter.
-- Exec: kernel/src/exec/mod.rs and exec/user_programs.rs, with the programs of the build as a parameter, and
--   `create_user_process_from_path` of thread/uprocess/mod.rs. Exec/Elf reads headers, Exec/Space writes
--   to the pages of the new address space, Exec/Image makes it, Exec/Commit makes it that of the process.
--   A file is a list of bytes. Exec/Rollback, Exec/Loaded, Exec/Prepared, Exec/Whole,
--   Exec/Stack, Exec/Header and Exec/Loops are proofs.
-- Syscall: kernel/src/syscall/mod.rs, with loads from user addresses as functions, the copies through page
--   tables in Syscall/User, and from ksyscall.rs the ends of system calls. Syscall/Numbers is abi/src/lib.rs.
--   Syscall/Dispatch is `syscall_dispatch` with the calls that print, load, wait and end; what the calls
--   use of the machine and of the standard library is its record Environment.
--   Syscall/Dispatch/Alive and Syscall/Dispatch/Getpid are proofs.
-- Entry: the assembler of kernel/src/syscall/mod.rs, and in Entry/Trampolines that of
--   thread/uprocess/uthread.rs, as lists of instructions that Entry/Machine carries out on the registers of
--   Entry/RegisterFile and the kernel's state. What the processor makes of the flags, and what the compiled
--   dispatcher leaves in the registers that it need not keep, are parameters. Memory is the words of the
--   frames; what the compiled code keeps on its stack is no part of it. Entry/Stack, Entry/Call,
--   Entry/Answered, Entry/Returning, Entry/Child and Entry/First are proofs.
-- Task: kernel/src/task and the thread of kernel/src/main.rs that runs it, with the two handlers of
--   kernel/src/interrupts.rs. Task/Interface is what the code uses of the crates crossbeam_queue and
--   futures_util, as records of operations and laws; Task/Machine is the code as steps of the thread, each with
--   one access to what the handlers share, between which interrupts come. A future is its source of bytes, since
--   both futures loop over their stream for ever. Task/Awake and the modules below it are proofs.
-- Console: kernel/src/console/framebuffer, over the font of a crate as a parameter; one record stands for the
--   writer and the scrolling writer around it, whose two copies of the screen's data are the same.
-- Interrupts: the timer of kernel/src/interrupts.rs.
-- Userlib: userlib/src/lib.rs, args.rs, printfmt.rs and `exec` of syscalls.rs. Userlib/Limits puts it
--   together with the copies of the kernel. Userlib/Calls has the other calls, over Entry.
-- Tests: the theorems on a small machine.
--
-- A function that locks a table runs alone here; a call of `switch_context` ends the model of a function,
-- and what follows it is the next step of the thread that it switches to. `wait` is one round of its
-- loop, since each round may end with a switch. `alloc` gives a kernel stack as an argument, and its
-- failure, which the code does not test, is not modelled. Overflow of additions that the code checks is
-- written out; the loops over pages run on fuel, a page for each 4096 bytes below the end and two more,
-- and are proved never to run out of it. The loops of the loader and of the copies have a round for each
-- byte, since each round handles at least one.
--
-- Not modelled: the jump of a kernel thread to its entry, the exceptions, which only print, the interrupt
-- controller, descriptor tables, the serial port, what the tasks print for a byte, `exit` and
-- the entry point of the user library, and the boot code. The VGA
-- text writer and the simple executor are used by nothing, and the bump and linked-list allocators are no part
-- of the build.
pub mod Base
pub mod Memory
pub mod Thread
pub mod Process
pub mod Kernel
pub mod Threads
pub mod Processes
pub mod Heap
pub mod Allocator
pub mod Scheduler
pub mod Exec
pub mod Console
pub mod Interrupts
pub mod Userlib
pub mod Syscall
pub mod Tests
pub mod Entry
pub mod Task
