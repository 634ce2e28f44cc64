-- ===== src/Processes/Forked.antt =====
-- kernel/src/thread/uprocess/syscalls.rs, `fork`: the child process and its thread.
use ferri_os.Base.{
  ℕ, ◌+◌, ◌-◌, ◌<◌, ◌≡◌, ◌∙◌, Option, none, some, List, arith, get_elem?, set, get_elem?-set, ok,
  >>=-elim, expect_lem, expect,
}
use ferri_os.Base.Panic.{expect_failed}
use ferri_os.Memory.{copy_uvm}
use ferri_os.Memory.Paging.{Paging}
use ferri_os.Thread.{Thread}
use ferri_os.Thread.TrapFrame.{new_trap_frame, write_trap_frame, trap_frame_size, Words}
use ferri_os.Process.{Process, nprocess}
use ferri_os.Kernel.{Kernel, current_process, with_memory}
use ferri_os.Threads.{next_tid, stack_size}
use ferri_os.Threads.Select.{next_tid-first, unused_at-thread}
use ferri_os.Processes.{alloc_proc}
use ferri_os.Processes.Alloc.{first_thread_of, alloc_proc-Allocated}
use ferri_os.Processes.Syscalls.{fork}
use ferri_os.Processes.Effects.{with_memory_lem}
use ferri_os.Processes.Fork.{Finished, new_of, finish_fork-Finished}

pub current_process_state :
    (k : Kernel) {p : Option Process} {k1 : Kernel} → current_process k ≡ ok p k1 → k1 ≡ k
unfolding current_process
current_process_state k h = ground arith

-- What `fork` has done when it returns `pid`. In `middle` the child's thread and the copy of the
-- address space are there.
pub record Forked (kstack : ℕ) (k : Kernel) (pid : ℕ) (k1 : Kernel) : Type 0 where
  pub parent : Process
  pub parent_is : current_process k ≡ ok (some parent) k
  pub tid : ℕ
  pub next : next_tid k.thread_table ≡ some tid
  pub pid_lt : pid < nprocess - 1
  pub pid_free : get_elem? k.process_table pid ≡ some none
  pub page_table : ℕ
  pub middle : Kernel
  pub middle_is : middle ≡ record k {
    thread_table = set k.thread_table tid (first_thread_of k.layout kstack tid pid);
    words = write_trap_frame k.words (kstack + stack_size - trap_frame_size) new_trap_frame;
    memory = middle.memory;
  }
  pub finished : Finished kstack pid tid page_table parent middle k1

pub current_process_lem :
    (k : Kernel) {p : Option Process} {parent : Process} {k1 k2 : Kernel}
    → current_process k ≡ ok p k1
    → expect p expect_failed k1 ≡ ok parent k2
    → (k2 ≡ k) × (current_process k ≡ ok (some parent) k)
current_process_lem k {p} {parent} {k1} {k2} h e =
    let (p_is, back) = expect_lem p expect_failed k1 e in
    let s = current_process_state k h in (back ∙ s, ground arith)

set_in_bounds :
    (table : List Thread) (tid : ℕ) (t : Thread)
    → next_tid table ≡ some tid
    → get_elem? (set table tid t) tid ≡ some t
set_in_bounds table tid t h =
    let (_, here, _) = (next_tid-first table).0 tid h in
    let (_, e, _) = unused_at-thread table tid here in
    ground (arith, e, get_elem?-set table tid tid t)

middle_lem :
    (k kc kd ke : Kernel) {table : List Thread} {w : Words}
    → kc ≡ record k { thread_table = table; words = w }
    → kd ≡ kc
    → ke ≡ record kd { memory = ke.memory }
    → ke ≡ record k { thread_table = table; words = w; memory = ke.memory }
middle_lem k kc kd ke made same copied = ground arith

thread_of_middle :
    (k ke : Kernel) (kstack tid pid : ℕ) {w : Words}
    → next_tid k.thread_table ≡ some tid
    → ke ≡ record k {
      thread_table = set k.thread_table tid (first_thread_of k.layout kstack tid pid);
      words = w;
      memory = ke.memory;
    }
    → get_elem? ke.thread_table tid ≡ some (first_thread_of ke.layout kstack tid pid)
thread_of_middle k ke kstack tid pid next e =
    ground (arith, set_in_bounds k.thread_table tid (first_thread_of k.layout kstack tid pid) next)

pub fork-Forked :
    (x86 : Paging) (kstack : ℕ) (k : Kernel) {pid : ℕ} {k1 : Kernel}
    → fork x86 kstack k ≡ ok pid k1
    → Forked kstack k pid k1
unfolding fork new_of
fork-Forked x86 kstack k {pid} {k1} h = >>=-elim current_process _ k h λ current ka ha h.
    >>=-elim (expect current expect_failed) _ ka h λ parent kb hb h.
      >>=-elim (alloc_proc kstack) _ kb h λ child kc hc h.
        >>=-elim (expect parent.page_table expect_failed) _ kc h λ pml4 kd hd h.
          >>=-elim (with_memory (copy_uvm x86 kd.cr3 pml4)) _ kd h λ page_table ke he h.
            let (b_k, parent_is) = current_process_lem k ha hb in
            let made = alloc_proc-Allocated kstack k (rw b_k at hc) in
            let (_, d_c) = expect_lem parent.page_table expect_failed kc hd in
            let copied = with_memory_lem (copy_uvm x86 kd.cr3 pml4) kd he in
            let middle_is = middle_lem k kc kd ke made.result d_c copied in
            let (same, fin) =
              finish_fork-Finished kstack child.pid made.tid page_table parent ke
                (thread_of_middle k ke kstack made.tid child.pid made.next middle_is)
                (rw made.process at h) in
            record {
              parent = parent;
              parent_is = parent_is;
              tid = made.tid;
              next = made.next;
              pid_lt = rw same made.pid_lt;
              pid_free = rw same made.pid_free;
              page_table = page_table;
              middle = ke;
              middle_is = rw same middle_is;
              finished = rw same fin;
            }
