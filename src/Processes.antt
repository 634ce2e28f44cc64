-- ===== src/Processes.antt =====
-- kernel/src/thread/uprocess/mod.rs: the life of a process.
pub mod Fork
pub mod Forked
pub mod Copied
pub mod Wait
pub mod Lifetime
pub mod Exit
pub mod Kill
pub mod Alloc
pub mod Effects
pub mod Slots
pub mod Syscalls
use ferri_os.Base.{
  ℕ, zero, suc, ◌+◌, ◌-◌, Bool, true, false, not, Option, none, some, List, [], ◌∷◌, if◌then◌else◌,
  ltb, leb, ◌==◌, is_none, is_some_eq, Ret, ok, err, panic, Act, ◌>>=◌, ◌>>◌, pure, throw, get, put,
  expect, ok_or, fail_if, when, get_elem?, replicate,
}
use ferri_os.Base.Error.{
  process_table_is_full, tid_gt_nthread, tid_ge_nthread, thread_does_not_belong_to_process,
  cannot_free_cr3_active_page_table,
}
use ferri_os.Memory.{free_uvm}
use ferri_os.Memory.Paging.{Paging}
use ferri_os.Thread.{ThreadState, runnable, Thread, new_thread, nthread}
use ferri_os.Process.{
  Process, ProcessState, add_thread, new_process, nprocess, nthread_per_process, ret_success,
}
use ferri_os.Kernel.{Kernel, thread_at, set_thread, process_at, set_process, sub_u64, with_memory}
use ferri_os.Threads.{create_user_thread, stack_size}

-- `PROCESS_TABLE` at the start.
abbrev pub initial_process_table : List (Option Process)
initial_process_table = replicate nprocess none

abbrev pub free_at : List (Option Process) → ℕ → Bool
free_at table i = elim (get_elem? table i) [ none ↦ false | some p ↦ is_none p ]

-- The rounds of the loop of `next_pid` from `i` on.
unfoldable pub find_free : ℕ → ℕ → List (Option Process) → Option ℕ
find_free zero i table = none
find_free (suc n) i table =
    let rest = find_free n (i + 1) table in if free_at table i then some i else rest

-- The loop stops before the last slot.
unfoldable pub next_pid : Act Kernel ℕ
unfolding find_free
next_pid k = ok_or (find_free (nprocess - 1) 0 k.process_table) process_table_is_full k

-- Code over a local process, in kernel code.
abbrev pub on_process : Process → Act Process (Unit {0}) → Act Kernel Process
on_process p f k = elim (f p) [ ok _ q ↦ ok q k | err e _ ↦ err e k | panic e ↦ panic e ]

unfoldable pub alloc_proc : ℕ → Act Kernel Process
unfolding add_thread set_thread
alloc_proc kstack = do
  pid ← next_pid
  first_thread ← create_user_thread kstack
  process ←
      on_process (record new_process { pid = pid; state = ProcessState.alive })
        (add_thread first_thread.tid)
  set_thread first_thread.tid (record first_thread { pid = some pid })
  pure process

unfoldable pub add_to_process_table : Process → Act Kernel (Unit {0})
unfolding set_process
add_to_process_table p = do
  fail_if (leb nprocess p.pid) process_table_is_full
  set_process p.pid (some p)

-- One round of the loop of `mark_threads_as_runnable`.
unfoldable pub mark_thread : ℕ → Act Kernel (Unit {0})
unfolding thread_at set_thread
mark_thread tid = do
  fail_if (ltb nthread tid) tid_gt_nthread
  t ← thread_at tid
  set_thread tid (record t { state = runnable })

-- The loop of `mark_threads_as_runnable` over the process's array of threads.
unfoldable pub mark_all : List (Option ℕ) → Act Kernel (Unit {0})
mark_all [] k = ok tt k
mark_all (none ∷ threads) k = mark_all threads k
mark_all (some tid ∷ threads) k = elim (mark_thread tid k) [
  | ok _ k1 ↦ mark_all threads k1
  | err e k1 ↦ err e k1
  | panic p ↦ panic p
]

unfoldable pub mark_threads_as_runnable : Process → Act Kernel (Unit {0})
unfolding mark_all
mark_threads_as_runnable p = mark_all p.threads

-- The call of `dealloc` for a kernel stack.
abbrev pub free_stack : ℕ → Act Kernel (Unit {0})
free_stack base k = ok tt (record k { freed_stacks = base ∷ k.freed_stacks })

-- One round of the first loop of `free_process`.
unfoldable pub free_thread : ℕ → ℕ → Act Kernel (Unit {0})
unfolding thread_at set_thread sub_u64
free_thread pid tid = do
  fail_if (leb nthread tid) tid_ge_nthread
  t ← thread_at tid
  fail_if (not (is_some_eq t.pid pid)) thread_does_not_belong_to_process
  when (not (t.kstack == 0)) (do base ← sub_u64 t.kstack stack_size; free_stack base)
  set_thread tid new_thread

unfoldable pub free_threads : ℕ → List (Option ℕ) → Act Kernel (Unit {0})
free_threads pid [] k = ok tt k
free_threads pid (none ∷ threads) k = free_threads pid threads k
free_threads pid (some tid ∷ threads) k = elim (free_thread pid tid k) [
  | ok _ k1 ↦ free_threads pid threads k1
  | err e k1 ↦ err e k1
  | panic p ↦ panic p
]

module _ (x86 : Paging) where
  unfoldable pub free_user_space : Option ℕ → Act Kernel (Unit {0})
  free_user_space none k = ok tt k
  free_user_space (some page_table) k =
      (do
        fail_if (k.cr3 == page_table) cannot_free_cr3_active_page_table
        with_memory (free_uvm x86 page_table))
        k

  unfoldable pub free_process : Process → Act Kernel (Unit {0})
  unfolding set_process
  free_process p = do
    free_threads p.pid p.threads
    free_user_space p.page_table
    set_process p.pid (some new_process)
