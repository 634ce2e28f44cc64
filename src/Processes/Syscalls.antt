-- ===== src/Processes/Syscalls.antt =====
-- kernel/src/thread/uprocess/syscalls.rs: fork, getpid, exit, wait and kill.
use ferri_os.Base.{
  ℕ, zero, suc, ◌+◌, ◌-◌, Bool, true, false, ◌&&◌, ◌||◌, not, Option, none, some, List,
  if◌then◌else◌, ◌==◌, is_some_eq, ok, err, panic, Act, ◌>>=◌, ◌>>◌, pure, fault, get, put, expect,
  ok_or, fail_if, when, get_elem?, [], ◌∷◌,
}
use ferri_os.Base.Error.{no_process, init_exiting, no_child_process, this_process_has_killed}
use ferri_os.Base.Panic.{expect_failed, zombie_exit}
use ferri_os.Memory.{copy_uvm}
use ferri_os.Memory.Paging.{Paging}
use ferri_os.Thread.{ThreadState}
use ferri_os.Thread.TrapFrame.{TrapFrame, read_trap_frame, write_trap_frame, trap_frame_size}
use ferri_os.Process.{Process, ProcessState, is_zombie, nprocess}
use ferri_os.Kernel.{
  Kernel, thread_at, set_thread, process_at, set_process, sub_u64, with_memory, current_process,
  current_pid,
}
use ferri_os.Scheduler.{on_syscall_yield}
use ferri_os.Processes.{alloc_proc, mark_threads_as_runnable, free_process}

-- The thread of the child: it enters user space as a copy of the caller whose `fork` returns 0.
unfoldable pub set_child_thread : ℕ → TrapFrame → ℕ → Act Kernel (Unit {0})
unfolding thread_at set_thread sub_u64
set_child_thread child_tid parent_tf parent_user_rsp = do
  child ← thread_at child_tid
  tf ← expect child.tf expect_failed
  k ← get
  put (record k {
    words = write_trap_frame k.words tf (record parent_tf { rax = 0; rsp = parent_user_rsp });
  })
  rsp ← sub_u64 child.kstack trap_frame_size
  set_thread child_tid (record child {
    context = record child.context {
      rip = k.layout.fork_return_trampoline;
      rsp = rsp;
      rsp3 = parent_user_rsp;
      user_rip = parent_tf.rcx;
      user_rdi = parent_tf.rdi;
      user_rsi = parent_tf.rsi;
    };
  })

-- `threads[0].expect(..)`
abbrev pub first_thread : List (Option ℕ) → Option ℕ
first_thread [] = none
first_thread (t ∷ _) = t

-- The end of `fork`, when the child has its page table: the thread goes on as the caller, and the
-- process enters the table.
unfoldable pub finish_fork : Process → Process → ℕ → Act Kernel ℕ
unfolding thread_at
finish_fork current child page_table = do
  k ← get
  tid ← expect k.cpu.current_tid expect_failed
  parent ← thread_at tid
  tf ← expect parent.tf expect_failed
  child_tid ← expect (first_thread child.threads) expect_failed
  set_child_thread child_tid (read_trap_frame k.words tf) k.cpu.saved_user_rsp
  let child' = record child {
    page_table = some page_table;
    ppid = some current.pid;
    heap_size = current.heap_size;
  }
  set_process child'.pid (some child')
  mark_threads_as_runnable child'
  pure child'.pid

module _ (x86 : Paging) where
  -- `kstack` is the stack that `alloc` returns for the child's thread.
  unfoldable pub fork : ℕ → Act Kernel ℕ
  fork kstack = do
    current ← current_process
    current ← expect current expect_failed
    child ← alloc_proc kstack
    pml4 ← expect current.page_table expect_failed
    k ← get
    page_table ← with_memory (copy_uvm x86 k.cr3 pml4)
    finish_fork current child page_table

unfoldable pub getpid : Act Kernel ℕ
getpid = do pid ← current_pid; ok_or pid no_process

-- One round of the loop of `exit` over the process's threads.
unfoldable pub stop_thread : ℕ → ℕ → Act Kernel (Unit {0})
unfolding thread_at set_thread
stop_thread pid tid = do
  t ← thread_at tid
  when (is_some_eq t.pid pid) (set_thread tid (record t { state = ThreadState.zombie }))

unfoldable pub stop_threads : ℕ → List (Option ℕ) → Act Kernel (Unit {0})
stop_threads pid [] k = ok tt k
stop_threads pid (none ∷ threads) k = stop_threads pid threads k
stop_threads pid (some tid ∷ threads) k = elim (stop_thread pid tid k) [
  | ok _ k1 ↦ stop_threads pid threads k1
  | err e k1 ↦ err e k1
  | panic p ↦ panic p
]

-- `exit`, up to its switch to the scheduler; it panics if it comes back.
unfoldable pub exit : ℕ → Act Kernel (Unit {0})
unfolding process_at set_process
exit ret_value = do
  pid ← current_pid
  pid ← ok_or pid no_process
  fail_if (pid == 0) init_exiting
  entry ← process_at pid
  p ← ok_or entry no_process
  let p' = record p { state = ProcessState.zombie; exit_status = ret_value }
  set_process pid (some p')
  stop_threads p'.pid p'.threads
  switched ← on_syscall_yield
  when (not switched) (fault zombie_exit)

-- Whether slot `i` holds a child of `pid`, and a zombie.
abbrev pub is_child : Option Process → ℕ → Bool
is_child none pid = false
is_child (some p) pid = is_some_eq p.ppid pid

abbrev pub is_zombie_slot : Option Process → Bool
is_zombie_slot none = false
is_zombie_slot (some p) = is_zombie p.state

abbrev pub slot : List (Option Process) → ℕ → Option Process
slot table i = elim (get_elem? table i) [ none ↦ none | some p ↦ p ]

-- The search of `wait` from slot `i` on: the first zombie child, and whether there is a child at all.
unfoldable pub find_zombie : ℕ → ℕ → List (Option Process) → ℕ → Bool → Option ℕ × Bool
find_zombie zero i table pid havekids = (none, havekids)
find_zombie (suc n) i table pid havekids =
    let rest = find_zombie n (i + 1) table pid (is_child (slot table i) pid || havekids) in
    if is_child (slot table i) pid && is_zombie_slot (slot table i) then (some i, true) else rest

-- `process_table[i].take()`, and what `wait` does with the zombie.
module _ (x86 : Paging) where
  unfoldable pub reap : ℕ → Act Kernel (Option (ℕ × ℕ))
  unfolding process_at set_process
  reap i = do
    entry ← process_at i
    child ← expect entry expect_failed
    set_process i none
    free_process x86 child
    pure (some (child.pid, child.exit_status))

  -- One round of the loop of `wait` in process `process`, as it was when the call began. Without a
  -- result it has yielded, and the next round follows when the thread runs again.
  unfoldable pub wait_round : Process → Act Kernel (Option (ℕ × ℕ))
  unfolding reap
  wait_round process k =
      let (zombie, havekids) = find_zombie (nprocess - 1) 0 k.process_table process.pid false in
      elim zombie [
        | some i ↦ reap i k
        | none ↦
            (do
              fail_if (not havekids) no_child_process
              fail_if process.killed this_process_has_killed
              on_syscall_yield
              pure none)
              k
      ]

-- The process that `wait` reads before its loop.
unfoldable pub wait_process : Act Kernel Process
wait_process = do p ← current_process; expect p expect_failed

-- Whether slot `i` holds process `pid`.
abbrev pub is_target : Option Process → ℕ → Bool
is_target none pid = false
is_target (some p) pid = p.pid == pid

unfoldable pub find_pid : ℕ → ℕ → List (Option Process) → ℕ → Option ℕ
find_pid zero i table pid = none
find_pid (suc n) i table pid =
    let rest = find_pid n (i + 1) table pid in if is_target (slot table i) pid then some i else rest

unfoldable pub kill : ℕ → Act Kernel (Unit {0})
unfolding find_pid process_at set_process
kill pid = do
  k ← get
  i ← ok_or (find_pid (nprocess - 1) 0 k.process_table pid) no_process
  entry ← process_at i
  proc ← expect entry expect_failed
  set_process i (some (record proc { killed = true }))
