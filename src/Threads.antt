-- ===== src/Threads.antt =====
-- kernel/src/thread/mod.rs, kthread.rs, uprocess/uthread.rs and memory/kmem.rs: making threads.
-- The address that `alloc` returns for a kernel stack is an argument.
pub mod Select
use ferri_os.Base.{
  replicate, ℕ, zero, suc, ◌+◌, ◌-◌, Bool, true, false, Option, none, some, List, if◌then◌else◌,
  leb, Ret, ok, err, panic, Act, ◌>>=◌, ◌>>◌, pure, throw, get, put, expect, ok_or, get_elem?,
  fail_if,
}
use ferri_os.Base.Error.{thread_table_is_full}
use ferri_os.Base.Panic.{expect_failed}
use ferri_os.Thread.{ThreadState, embryo, runnable, is_unused, Context, Thread, new_thread, nthread}
use ferri_os.Thread.TrapFrame.{trap_frame_size, new_trap_frame, write_trap_frame}
use ferri_os.Kernel.{Kernel, thread_at, set_thread}
use ferri_os.Memory.{user_code_start, user_stack_top}

-- `STACK_SIZE`
abbrev pub stack_size : ℕ
stack_size = 32768

-- `THREAD_TABLE` at the start.
abbrev pub initial_thread_table : List Thread
initial_thread_table = replicate nthread new_thread

abbrev pub unused_at : List Thread → ℕ → Bool
unused_at table tid = elim (get_elem? table tid) [ none ↦ false | some t ↦ is_unused t.state ]

-- The rounds of the loop of `next_tid` from `i` on.
unfoldable pub find_unused : ℕ → ℕ → List Thread → Option ℕ
find_unused zero i table = none
find_unused (suc n) i table =
    let rest = find_unused n (i + 1) table in if unused_at table i then some i else rest

-- The loop stops before the last thread of the table.
unfoldable pub next_tid : List Thread → Option ℕ
next_tid table = find_unused (nthread - 1) 0 table

-- `setup_kstack`, with the stack that `alloc` returned. The code does not test it for null.
unfoldable pub setup_kstack : ℕ → Thread → Act Kernel Thread
setup_kstack kstack t k =
    ok
      (record t {
        kstack = kstack + stack_size;
        context = record t.context { rsp = kstack + stack_size };
        tf = some (kstack + stack_size - trap_frame_size);
      })
      (record k {
        words = write_trap_frame k.words (kstack + stack_size - trap_frame_size) new_trap_frame;
      })

-- `create_kernel_thread`
unfoldable pub create_kernel_thread : ℕ → ℕ → Act Kernel (Unit {0})
unfolding next_tid setup_kstack thread_at set_thread
create_kernel_thread kstack entry = do
  k ← get
  tid ← expect (next_tid k.thread_table) expect_failed
  t ← thread_at tid
  t ← setup_kstack kstack (record t { tid = tid; state = runnable })
  k ← get
  set_thread tid (record t {
    context = record t.context { rip = k.layout.kthread_entry; rflags = 0x200 };
    entry = some entry;
  })

-- `create_user_thread`: the thread is not in the table yet.
unfoldable pub create_user_thread : ℕ → Act Kernel Thread
unfolding next_tid setup_kstack
create_user_thread kstack = do
  k ← get
  tid ← ok_or (next_tid k.thread_table) thread_table_is_full
  t ← setup_kstack kstack (record new_thread { tid = tid; state = embryo })
  k ← get
  pure (record t {
    context = record t.context {
      rip = k.layout.init_process_ring3_entry_trampoline;
      rflags = 0x200;
      cs = k.layout.user_code_selector;
      ss = k.layout.user_data_selector;
      rsp3 = user_stack_top;
      user_rip = user_code_start;
    };
  })

-- `add_to_thread_table`
unfoldable pub add_to_thread_table : Thread → Act Kernel (Unit {0})
unfolding set_thread
add_to_thread_table t = do fail_if (leb nthread t.tid) thread_table_is_full; set_thread t.tid t
