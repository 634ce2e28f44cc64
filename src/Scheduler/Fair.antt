-- ===== src/Scheduler/Fair.antt =====
-- kernel/src/scheduler/round_robin.rs: how long a runnable thread waits for the CPU.
use ferri_os.Base.{ℕ, zero, suc, ◌+◌, ◌≤◌, ◌<◌, ◌≡◌, ◌≢◌, true, some, arith, ok}
use ferri_os.Thread.{nthread}
use ferri_os.Kernel.{Kernel}
use ferri_os.Scheduler.{runnable_at, current_or_last, schedule}
use ferri_os.Scheduler.Select.{turns_until, find_next_runnable_thread-first}
use ferri_os.Scheduler.Round.{schedule-Round}

-- `n` rounds in a row that each chose another thread than `tid`, from the state `first` on. Between
-- two rounds threads run and may change all but the current thread; `tid` is runnable at each round.
pub data PassedOver (tid : ℕ) (first : Kernel) : ℕ → Kernel → Type 0 where
  start : runnable_at first.thread_table tid ≡ true → PassedOver tid first zero first
  round :
      {n : ℕ} {k k1 k2 : Kernel} (next : ℕ)
      → PassedOver tid first n k
      → schedule k ≡ ok (some next) k1
      → next ≢ tid
      → k2.cpu.current_tid ≡ k1.cpu.current_tid
      → runnable_at k2.thread_table tid ≡ true
      → PassedOver tid first (suc n) k2

PassedOver-runnable :
    {tid : ℕ} {first : Kernel} {n : ℕ} {k : Kernel}
    → PassedOver tid first n k
    → runnable_at k.thread_table tid ≡ true
PassedOver-runnable (start r) = r
PassedOver-runnable (round next p s ne e r) = r

-- A round that chooses another thread than one that is runnable comes nearer to that one.
nearer :
    (c next t : ℕ)
    → c < nthread
    → next < nthread
    → t < nthread
    → next ≢ t
    → turns_until c next ≤ turns_until c t
    → turns_until next t < turns_until c t
nearer c next t hc hn ht ne le = omega arith

record Waiting (tid n : ℕ) (first k : Kernel) : Type 0 where
  current : current_or_last k.cpu.current_tid < nthread
  turns :
      n + turns_until (current_or_last k.cpu.current_tid) tid
      ≤ turns_until (current_or_last first.cpu.current_tid) tid

PassedOver-Waiting :
    {tid : ℕ} {first : Kernel} {n : ℕ} {k : Kernel}
    → tid < nthread
    → current_or_last first.cpu.current_tid < nthread
    → PassedOver tid first n k
    → Waiting tid n first k
PassedOver-Waiting lt c (start r) = record { current = c; turns = omega arith }
PassedOver-Waiting {tid} {first} lt c (round {k} {k1} {k2} next p s ne e r) =
    let w = PassedOver-Waiting lt c p in
    let rd = schedule-Round k s in
    let (below, _, least) =
      find_next_runnable_thread-first k.thread_table k.cpu.current_tid w.current rd.chosen in
    let now : k2.cpu.current_tid ≡ some next = ground (arith, e, rd.result) in
    let near =
      nearer (current_or_last k.cpu.current_tid) next tid w.current below lt ne
        (least tid lt (PassedOver-runnable p)) in
    record { current = rw now below; turns = rw now (omega (arith, near, w.turns)) }

-- A thread of the table that is runnable at each of the rounds is chosen at the latest in the 64th: from
-- a state whose current thread is in the table, fewer than 64 rounds in a row choose other threads.
pub PassedOver-lt-nthread :
    {tid : ℕ} {first : Kernel} {n : ℕ} {k : Kernel}
    → tid < nthread
    → current_or_last first.cpu.current_tid < nthread
    → PassedOver tid first n k
    → n < nthread
PassedOver-lt-nthread lt c p = omega (arith, (PassedOver-Waiting lt c p).turns)
