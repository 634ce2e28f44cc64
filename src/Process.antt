-- ===== src/Process.antt =====
-- kernel/src/thread/uprocess/mod.rs: the process control block, and abi/src/lib.rs.
use ferri_os.Base.{
  ℕ, ◌+◌, ◌-◌, ◌^◌, Bool, true, false, Option, none, some, List, if◌then◌else◌, ltb, leb, ok, err,
  panic, Act, length, set, replicate,
}
use ferri_os.Base.Error.{too_many_threads_in_process}
use ferri_os.Base.Panic.{index_out_of_bounds}

-- `RetValue` is an i64, given by its bit pattern.
abbrev pub ret_success : ℕ
ret_success = 0

abbrev pub ret_error : ℕ
ret_error = 2 ^ 64 - 1

pub data ProcessState : Type 0 where
  unused alive zombie : ProcessState

abbrev pub is_zombie : ProcessState → Bool
is_zombie zombie = true
is_zombie _ = false

-- A page table is given by its frame.
pub record Process : Type 0 where
  pub pid : ℕ
  pub ppid : Option ℕ
  pub state : ProcessState
  pub threads : List (Option ℕ)
  pub nthread : ℕ
  pub page_table : Option ℕ
  pub exit_status : ℕ
  pub killed : Bool
  pub heap_size : ℕ

-- `NPROCESS` and `NTHREAD_PER_PROCESS`
abbrev pub nprocess : ℕ
nprocess = 16

abbrev pub nthread_per_process : ℕ
nthread_per_process = 8

-- `Process::new`; the same record stands in `free_process`.
abbrev pub new_process : Process
new_process = record {
  pid = 0;
  ppid = none;
  state = unused;
  threads = replicate nthread_per_process none;
  nthread = 0;
  page_table = none;
  exit_status = ret_success;
  killed = false;
  heap_size = 0;
}

-- `Process::add_thread`, over the process.
unfoldable pub add_thread : ℕ → Act Process (Unit {0})
add_thread tid p =
    if leb nthread_per_process p.nthread
    then err too_many_threads_in_process p
    else if ltb p.nthread (length p.threads)
    then ok tt (record p { threads = set p.threads p.nthread (some tid); nthread = p.nthread + 1 })
    else panic index_out_of_bounds
