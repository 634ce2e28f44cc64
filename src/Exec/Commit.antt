-- ===== src/Exec/Commit.antt =====
-- kernel/src/exec/mod.rs: the new image becomes that of the current process; and
-- kernel/src/thread/uprocess/mod.rs: the first image of a new process.
use ferri_os.Base.{
  ℕ, Bool, true, false, ◌&&◌, Option, none, some, List, [], ◌∷◌, ◌==◌, get_elem?, set, ok, err,
  panic, Act, ◌>>=◌, ◌>>◌, get, put, ok_or, expect,
}
use ferri_os.Base.Error.{
  exec_program_not_found, program_not_found, no_current_thread_id, no_current_process_id,
  process_table_entry_missing, thread_table_entry_missing, exec_no_trapframe, no_trapframe,
}
use ferri_os.Base.Panic.{expect_failed}
use ferri_os.Memory.{Mapper}
use ferri_os.Memory.Paging.{Paging}
use ferri_os.Thread.{Thread, Context}
use ferri_os.Thread.TrapFrame.{TrapFrame, read_trap_frame, write_trap_frame}
use ferri_os.Process.{Process}
use ferri_os.Kernel.{Kernel, current_pid, thread_at, set_thread, with_memory, write_cr3}
use ferri_os.Processes.{alloc_proc, add_to_process_table, mark_threads_as_runnable}
use ferri_os.Processes.Syscalls.{first_thread}
use ferri_os.Exec.Image.{Exec, prepare_exec_image}

-- A string is the list of its bytes.
pub record UserProgram : Type 0 where
  pub path : List ℕ
  pub elf : List ℕ

abbrev pub is_path : List ℕ → List ℕ → Bool
is_path [] [] = true
is_path [] (y ∷ ys) = false
is_path (x ∷ xs) [] = false
is_path (x ∷ xs) (y ∷ ys) = x == y && is_path xs ys

-- `lookup` in the programs of the build.
unfoldable pub lookup : List UserProgram → List ℕ → Option (List ℕ)
lookup [] path = none
lookup (p ∷ programs) path =
    let rest = lookup programs path in
    elim (is_path p.path path) [ true ↦ some p.elf | false ↦ rest ]

-- `process_table.get_mut(pid).and_then(|p| p.as_mut())`
abbrev pub process_entry : Kernel → ℕ → Option Process
process_entry k pid = elim (get_elem? k.process_table pid) [ none ↦ none | some p ↦ p ]

-- Stores through such references.
abbrev pub put_process : ℕ → Process → Kernel → Kernel
put_process pid p k = record k { process_table = set k.process_table pid (some p) }

abbrev pub put_thread : ℕ → Thread → Kernel → Kernel
put_thread tid t k = record k { thread_table = set k.thread_table tid t }

abbrev pub put_trap_frame : ℕ → TrapFrame → Kernel → Kernel
put_trap_frame a tf k = record k { words = write_trap_frame k.words a tf }

abbrev pub put_saved_user_rsp : ℕ → Kernel → Kernel
put_saved_user_rsp rsp k = record k { cpu = record k.cpu { saved_user_rsp = rsp } }

-- The closure of `commit_exec`.
unfoldable pub apply_exec : ℕ → ℕ → Exec → Act Kernel (Unit {0})
apply_exec current_tid current_pid prepared = do
  k ← get
  process ← ok_or (process_entry k current_pid) process_table_entry_missing
  put (
      put_process current_pid
        (record process { page_table = some prepared.page_table; heap_size = prepared.heap_size })
        k)
  k ← get
  thread ← ok_or (get_elem? k.thread_table current_tid) thread_table_entry_missing
  put (
      put_thread current_tid
        (record thread {
          context = record thread.context {
            rsp3 = prepared.user_sp;
            user_rip = prepared.entry;
            user_rdi = prepared.argc;
            user_rsi = prepared.argv_user_ptr;
          };
        })
        k)
  trap_frame ← ok_or thread.tf exec_no_trapframe
  k ← get
  put (
      put_trap_frame trap_frame
        (record (read_trap_frame k.words trap_frame) {
          rax = 0;
          rdi = prepared.argc;
          rsi = prepared.argv_user_ptr;
          rcx = prepared.entry;
        })
        k)
  k ← get
  put (put_saved_user_rsp prepared.user_sp k)
  write_cr3 prepared.page_table

-- What `commit_exec` keeps for the case that the closure fails.
pub record Snapshot : Type 0 where
  pub old_page_table : Option ℕ
  pub old_heap_size : ℕ
  pub old_context : Context
  pub old_trap_frame : TrapFrame
  pub old_saved_user_rsp : ℕ
  pub old_cr3 : ℕ

-- The thread's part of the rollback.
abbrev pub roll_back_thread : ℕ → Snapshot → Kernel → Kernel
roll_back_thread current_tid s k = elim (get_elem? k.thread_table current_tid) [
  | none ↦ k
  | some thread ↦
      let k1 = put_thread current_tid (record thread { context = s.old_context }) k in
      elim thread.tf [ none ↦ k1 | some a ↦ put_trap_frame a s.old_trap_frame k1 ]
]

abbrev pub roll_back_process : ℕ → Snapshot → Kernel → Kernel
roll_back_process current_pid s k = elim (process_entry k current_pid) [
  | none ↦ k
  | some process ↦
      put_process current_pid
        (record process { page_table = s.old_page_table; heap_size = s.old_heap_size }) k
]

unfoldable pub roll_back : ℕ → ℕ → Snapshot → Kernel → Kernel
roll_back current_tid current_pid s k =
    let k1 = roll_back_thread current_tid s (roll_back_process current_pid s k) in
    record (put_saved_user_rsp s.old_saved_user_rsp k1) { cr3 = s.old_cr3 }

-- `commit_exec` for the current thread and process.
unfoldable pub commit_as : ℕ → ℕ → Exec → Act Kernel (Unit {0})
commit_as tid pid prepared k = elim (process_entry k pid) [
  | none ↦ err process_table_entry_missing k
  | some process ↦ elim (get_elem? k.thread_table tid) [
    | none ↦ err thread_table_entry_missing k
    | some thread ↦ elim thread.tf [
      | none ↦ err exec_no_trapframe k
      | some trap_frame ↦
          let snapshot : Snapshot = record {
            old_page_table = process.page_table;
            old_heap_size = process.heap_size;
            old_context = thread.context;
            old_trap_frame = read_trap_frame k.words trap_frame;
            old_saved_user_rsp = k.cpu.saved_user_rsp;
            old_cr3 = k.cr3;
          } in
          elim (apply_exec tid pid prepared k) [
            | ok _ k1 ↦ ok tt k1
            | err e k1 ↦ err e (roll_back tid pid snapshot k1)
            | panic p ↦ panic p
          ]
    ]
  ]
]

unfoldable pub commit_exec : Exec → Act Kernel (Unit {0})
unfolding commit_as
commit_exec prepared = do
  k ← get
  tid ← ok_or k.cpu.current_tid no_current_thread_id
  pid ← current_pid
  pid ← ok_or pid no_current_process_id
  commit_as tid pid prepared

module _ (x86 : Paging) (mapper : Mapper) (programs : List UserProgram) where
  unfoldable pub exec : List ℕ → List (List ℕ) → Act Kernel (Unit {0})
  exec path argv = do
    elf_image ← ok_or (lookup programs path) exec_program_not_found
    k ← get
    prepared ← with_memory (prepare_exec_image x86 mapper k.cr3 elf_image argv)
    commit_exec prepared

  -- What `create_user_process_from_path` stores in the first thread and its trap frame.
  unfoldable pub set_entry : ℕ → Exec → Act Kernel (Unit {0})
  unfolding thread_at set_thread
  set_entry tid prepared = do
    thread ← thread_at tid
    set_thread tid (record thread {
      context = record thread.context {
        rsp3 = prepared.user_sp;
        user_rip = prepared.entry;
        user_rdi = prepared.argc;
        user_rsi = prepared.argv_user_ptr;
      };
    })
    tf ← ok_or thread.tf no_trapframe
    k ← get
    put (
        put_trap_frame tf
          (record (read_trap_frame k.words tf) {
            rdi = prepared.argc;
            rsi = prepared.argv_user_ptr;
            rcx = prepared.entry;
          })
          k)

  -- `kstack` is the stack that `alloc` returns for the first thread.
  unfoldable pub create_user_process_from_path : ℕ → List ℕ → Act Kernel (Unit {0})
  unfolding set_entry
  create_user_process_from_path kstack path = do
    elf ← ok_or (lookup programs path) program_not_found
    k ← get
    prepared ← with_memory (prepare_exec_image x86 mapper k.cr3 elf [])
    p ← alloc_proc kstack
    let process = record p { page_table = some prepared.page_table; heap_size = prepared.heap_size }
    tid ← expect (first_thread process.threads) expect_failed
    set_entry tid prepared
    add_to_process_table process
    mark_threads_as_runnable process
