-- ===== src/Processes/Effects.antt =====
-- kernel/src/thread/uprocess: what the parts of the system calls leave alone in the process table.
use ferri_os.Base.{
  ℕ, ◌≡◌, ◌∙◌, Bool, Option, none, some, List, [], ◌∷◌, arith, get_elem?, set, ok, Act, >>=-elim,
}
use ferri_os.Memory.{Memory}
use ferri_os.Memory.Paging.{Paging}
use ferri_os.Thread.{Thread}
use ferri_os.Thread.TrapFrame.{TrapFrame}
use ferri_os.Process.{Process, new_process}
use ferri_os.Base.{expect_lem}
use ferri_os.Base.Panic.{index_out_of_bounds}
use ferri_os.Kernel.{Kernel, set_process, thread_at, process_at, current_pid, with_memory}
use ferri_os.Scheduler.{on_syscall_yield}
use ferri_os.Threads.{create_user_thread, next_tid}
use ferri_os.Processes.{
  mark_thread, mark_all, free_thread, free_threads, free_user_space, free_process,
}
use ferri_os.Processes.Syscalls.{set_child_thread, stop_thread, stop_threads}

pub set_process_lem :
    (pid : ℕ) (p : Option Process) (k : Kernel) {k1 : Kernel}
    → set_process pid p k ≡ ok tt k1
    → k1 ≡ record k { process_table = set k.process_table pid p }
unfolding set_process
set_process_lem pid p k h = ground arith

pub thread_at_lem :
    (tid : ℕ) (k : Kernel) {t : Thread} {k1 : Kernel}
    → thread_at tid k ≡ ok t k1
    → (get_elem? k.thread_table tid ≡ some t) × (k1 ≡ k)
unfolding thread_at
thread_at_lem tid k h = expect_lem (get_elem? k.thread_table tid) index_out_of_bounds k h

pub process_at_lem :
    (pid : ℕ) (k : Kernel) {p : Option Process} {k1 : Kernel}
    → process_at pid k ≡ ok p k1
    → (get_elem? k.process_table pid ≡ some p) × (k1 ≡ k)
unfolding process_at
process_at_lem pid k h = expect_lem (get_elem? k.process_table pid) index_out_of_bounds k h

pub current_pid_lem :
    (k : Kernel) {pid : Option ℕ} {k1 : Kernel}
    → current_pid k ≡ ok pid k1
    → (k1 ≡ k) × (current_pid k ≡ ok pid k)
unfolding current_pid
current_pid_lem k h = (ground arith, ground arith)

pub with_memory_lem :
    {A : Type 0} (f : Act Memory A) (k : Kernel) {a : A} {k1 : Kernel}
    → with_memory f k ≡ ok a k1
    → k1 ≡ record k { memory = k1.memory }
with_memory_lem f k h = ground arith

create_user_thread-process_table :
    (kstack : ℕ) (k : Kernel) {t : Thread} {k1 : Kernel}
    → create_user_thread kstack k ≡ ok t k1
    → (k1.process_table ≡ k.process_table)
      × (k1.thread_table ≡ k.thread_table)
      × (next_tid k.thread_table ≡ some t.tid)
unfolding create_user_thread
create_user_thread-process_table kstack k h = (ground arith, ground arith, ground arith)

pub set_child_thread-process_table :
    (tid : ℕ) (tf : TrapFrame) (rsp : ℕ) (k : Kernel) {k1 : Kernel}
    → set_child_thread tid tf rsp k ≡ ok tt k1
    → k1.process_table ≡ k.process_table
unfolding set_child_thread
set_child_thread-process_table tid tf rsp k h = ground arith

pub on_syscall_yield-process_table :
    (k : Kernel) {b : Bool} {k1 : Kernel}
    → on_syscall_yield k ≡ ok b k1
    → k1.process_table ≡ k.process_table
unfolding on_syscall_yield
on_syscall_yield-process_table k h = ground arith

mark_thread-process_table :
    (tid : ℕ) (k : Kernel) {k1 : Kernel}
    → mark_thread tid k ≡ ok tt k1
    → k1.process_table ≡ k.process_table
unfolding mark_thread
mark_thread-process_table tid k h = ground arith

pub mark_all-process_table :
    (threads : List (Option ℕ)) (k : Kernel) {k1 : Kernel}
    → mark_all threads k ≡ ok tt k1
    → k1.process_table ≡ k.process_table
unfolding mark_all
mark_all-process_table [] k h = ground arith
mark_all-process_table (none ∷ threads) k h = mark_all-process_table threads k h
mark_all-process_table (some tid ∷ threads) k h =
    >>=-elim (mark_thread tid) (λ _. mark_all threads) k h
      λ _ k2 e r. mark_all-process_table threads k2 r ∙ mark_thread-process_table tid k e

free_thread-process_table :
    (pid tid : ℕ) (k : Kernel) {k1 : Kernel}
    → free_thread pid tid k ≡ ok tt k1
    → k1.process_table ≡ k.process_table
unfolding free_thread
free_thread-process_table pid tid k h = ground arith

free_threads-process_table :
    (pid : ℕ) (threads : List (Option ℕ)) (k : Kernel) {k1 : Kernel}
    → free_threads pid threads k ≡ ok tt k1
    → k1.process_table ≡ k.process_table
unfolding free_threads
free_threads-process_table pid [] k h = ground arith
free_threads-process_table pid (none ∷ threads) k h = free_threads-process_table pid threads k h
free_threads-process_table pid (some tid ∷ threads) k h =
    >>=-elim (free_thread pid tid) (λ _. free_threads pid threads) k h
      λ _ k2 e r.
        free_threads-process_table pid threads k2 r ∙ free_thread-process_table pid tid k e

stop_thread-process_table :
    (pid tid : ℕ) (k : Kernel) {k1 : Kernel}
    → stop_thread pid tid k ≡ ok tt k1
    → k1.process_table ≡ k.process_table
unfolding stop_thread
stop_thread-process_table pid tid k h = ground arith

pub stop_threads-process_table :
    (pid : ℕ) (threads : List (Option ℕ)) (k : Kernel) {k1 : Kernel}
    → stop_threads pid threads k ≡ ok tt k1
    → k1.process_table ≡ k.process_table
unfolding stop_threads
stop_threads-process_table pid [] k h = ground arith
stop_threads-process_table pid (none ∷ threads) k h = stop_threads-process_table pid threads k h
stop_threads-process_table pid (some tid ∷ threads) k h =
    >>=-elim (stop_thread pid tid) (λ _. stop_threads pid threads) k h
      λ _ k2 e r.
        stop_threads-process_table pid threads k2 r ∙ stop_thread-process_table pid tid k e

free_user_space-process_table :
    (x86 : Paging) (page_table : Option ℕ) (k : Kernel) {k1 : Kernel}
    → free_user_space x86 page_table k ≡ ok tt k1
    → k1.process_table ≡ k.process_table
unfolding free_user_space
free_user_space-process_table x86 none k h = ground arith
free_user_space-process_table x86 (some f) k h = ground arith

-- `free_process` puts a process that is not `None` in the slot.
pub free_process-process_table :
    (x86 : Paging) (p : Process) (k : Kernel) {k1 : Kernel}
    → free_process x86 p k ≡ ok tt k1
    → k1.process_table ≡ set k.process_table p.pid (some new_process)
unfolding free_process
free_process-process_table x86 p k h = >>=-elim (free_threads p.pid p.threads) _ k h λ _ ka ha h.
    >>=-elim (free_user_space x86 p.page_table) _ ka h λ _ kb hb h. ground (
      arith,
      free_threads-process_table p.pid p.threads k ha,
      free_user_space-process_table x86 p.page_table ka hb,
    )
