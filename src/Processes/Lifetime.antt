-- ===== src/Processes/Lifetime.antt =====
-- kernel/src/thread/uprocess: the process table over the system calls of a run.
use ferri_os.Base.{
  ℕ, zero, suc, ◌+◌, ◌-◌, ◌≤◌, ◌≡◌, refl, ap, ◌∙◌, ◌⊎◌, inl, inr, true, Option, none, some, List,
  [], ◌∷◌, arith, get_elem?, set, get_elem?-set, ok, err,
}
use ferri_os.Base.{◌≢◌, sym, ◌↔◌}
use native.Mathlib.Decide.{ℕ_discrete}
use ferri_os.Base.Error.{process_table_is_full}
use ferri_os.Memory.Paging.{Paging}
use ferri_os.Process.{Process, new_process, nprocess}
use ferri_os.Kernel.{Kernel}
use ferri_os.Scheduler.{schedule}
use ferri_os.Processes.{next_pid}
use ferri_os.Processes.Slots.{
  Table, free_slots, free_slots-le, free_slots-set_new, free_slots-set_old, next_pid-err,
}
use ferri_os.Processes.Syscalls.{fork, exit, wait_round, kill}
use ferri_os.Processes.Fork.{child_of}
use ferri_os.Processes.Forked.{fork-Forked}
use ferri_os.Process.{ProcessState}
use ferri_os.Scheduler.Round.{schedule-Round}
use ferri_os.Processes.Exit.{exit-Exited}
use ferri_os.Processes.Kill.{kill-Killed}
use ferri_os.Processes.Wait.{wait_round-process_table, wait_round-zombie}

-- Every process with a parent stands in the slot of its number.
unfoldable pub IsIndexed : Table → Type 0
IsIndexed t = (i : ℕ) (p : Process) → get_elem? t i ≡ some (some p) → (p.ppid ≡ none) ⊎ (p.pid ≡ i)

stored_is :
    (t : Table) (i j : ℕ) (p : Process) {q : Process}
    → i ≡ j
    → get_elem? (set t i (some p)) j ≡ some (some q)
    → q ≡ p
stored_is t i j p own e = ground (arith, get_elem?-set t i j (some p))

stored_apart :
    (t : Table) (i j : ℕ) (p : Process) {q : Process}
    → i ≢ j
    → get_elem? (set t i (some p)) j ≡ some (some q)
    → get_elem? t j ≡ some (some q)
stored_apart t i j p ne e = ground (arith, get_elem?-set t i j (some p))

IsIndexed-set :
    (t : Table) (i : ℕ) (p : Process)
    → IsIndexed t
    → (p.ppid ≡ none) ⊎ (p.pid ≡ i)
    → IsIndexed (set t i (some p))
unfolding IsIndexed
IsIndexed-set t i p inv here j q e = elim (ℕ_discrete i j) [
  | yes own ↦
      let same : q ≡ p = stored_is t i j p own e in
      elim here [
        | inl orphan ↦ inl (ap (λ p. p.ppid) same ∙ orphan)
        | inr place ↦ inr (ap (λ p. p.pid) same ∙ (place ∙ own))
      ]
  | no ne ↦ inv j q (stored_apart t i j p ne e)
]

set-set : {A : Type 0} (xs : List A) (i : ℕ) (a b : A) → set (set xs i a) i b ≡ set xs i b
set-set [] i a b = refl
set-set (x ∷ xs) zero a b = refl
set-set (x ∷ xs) (suc i) a b = ap (λ t. x ∷ t) (set-set xs i a b)

schedule-process_table :
    (k : Kernel) {r : Option ℕ} {k1 : Kernel}
    → schedule k ≡ ok r k1
    → k1.process_table ≡ k.process_table
unfolding schedule
schedule-process_table k {r = none} h = ground arith
schedule-process_table k {r = some next} {k1} h =
    ap (λ k. k.process_table) (schedule-Round k h).result

-- A run of the kernel, as far as the process table goes: system calls that succeed and scheduler
-- rounds, one after the other. The number counts the processes that `fork` has made.
pub data Run (x86 : Paging) (k : Kernel) : Kernel → ℕ → Type 0 where
  start : Run x86 k k 0
  forks :
      {k1 k2 : Kernel} {n pid : ℕ} (kstack : ℕ)
      → Run x86 k k1 n
      → fork x86 kstack k1 ≡ ok pid k2
      → Run x86 k k2 (n + 1)
  exits :
      {k1 k2 : Kernel} {n : ℕ} (status : ℕ)
      → Run x86 k k1 n
      → exit status k1 ≡ ok tt k2
      → Run x86 k k2 n
  waits :
      {k1 k2 : Kernel} {n : ℕ} {r : Option (ℕ × ℕ)} (p : Process)
      → Run x86 k k1 n
      → wait_round x86 p k1 ≡ ok r k2
      → Run x86 k k2 n
  kills :
      {k1 k2 : Kernel} {n : ℕ} (pid : ℕ) → Run x86 k k1 n → kill pid k1 ≡ ok tt k2 → Run x86 k k2 n
  schedules :
      {k1 k2 : Kernel} {n : ℕ} {r : Option ℕ}
      → Run x86 k k1 n
      → schedule k1 ≡ ok r k2
      → Run x86 k k2 n

-- A table that keeps the invariant and its free slots.
record Kept (t t1 : Table) : Type 0 where
  pub indexed : IsIndexed t1
  pub slots : free_slots t1 ≡ free_slots t

-- A store over a process, of one that keeps its parent and number or has no parent.
Kept-set :
    (t : Table) (i : ℕ) (p q : Process)
    → IsIndexed t
    → get_elem? t i ≡ some (some p)
    → (q.ppid ≡ none) ⊎ ((q.ppid ≡ p.ppid) × (q.pid ≡ p.pid))
    → Kept t (set t i (some q))
unfolding IsIndexed
Kept-set t i p q inv here same = record {
  indexed = IsIndexed-set t i q inv (elim same [
    | inl orphan ↦ inl orphan
    | inr (parent, number) ↦ elim (inv i p here) [
      | inl none_is ↦ inl (parent ∙ none_is)
      | inr place ↦ inr (number ∙ place)
    ]
  ]);
  slots = free_slots-set_old t i p q here;
}

exit-Kept :
    (status : ℕ) (k : Kernel) {k1 : Kernel}
    → IsIndexed k.process_table
    → exit status k ≡ ok tt k1
    → Kept k.process_table k1.process_table
exit-Kept status k inv h =
    let e = exit-Exited status k h in
    rw e.table_is (
      Kept-set k.process_table e.pid e.process
        (record e.process { state = ProcessState.zombie; exit_status = status }) inv e.process_is
        (inr (refl, refl)))

kill-Kept :
    (pid : ℕ) (k : Kernel) {k1 : Kernel}
    → IsIndexed k.process_table
    → kill pid k ≡ ok tt k1
    → Kept k.process_table k1.process_table
kill-Kept pid k inv h =
    let e = kill-Killed pid k h in
    rw (ap (λ k. k.process_table) e.result) (
      Kept-set k.process_table e.place e.target (record e.target { killed = true }) inv e.target_is
        (inr (refl, refl)))

wait-Kept :
    (x86 : Paging) (p : Process) (k : Kernel) {r : Option (ℕ × ℕ)} {k1 : Kernel}
    → IsIndexed k.process_table
    → wait_round x86 p k ≡ ok r k1
    → Kept k.process_table k1.process_table
unfolding IsIndexed
wait-Kept x86 p k {r = none} {k1} inv h =
    let same = wait_round-process_table x86 p k h in
    record {
      indexed = λ i q e. inv i q (ap (λ t. get_elem? t i) (sym same) ∙ e);
      slots = ap free_slots same;
    }
wait-Kept x86 p k {r = some result} {k1} inv h =
    let (i, e) = wait_round-zombie x86 p k h in
    let place : e.child.pid ≡ i = elim (inv i e.child e.child_is) [
      | inl orphan ↦ absurd (ground (arith, e.ppid_is, orphan))
      | inr place ↦ place
    ] in
    let table : k1.process_table ≡ set k.process_table i (some new_process) =
      rw place at e.table_is ∙ set-set k.process_table i none (some new_process) in
    rw table (Kept-set k.process_table i e.child new_process inv e.child_is (inl refl))

fork-slots :
    (x86 : Paging) (kstack : ℕ) (k : Kernel) {pid : ℕ} {k1 : Kernel}
    → IsIndexed k.process_table
    → fork x86 kstack k ≡ ok pid k1
    → IsIndexed k1.process_table × (free_slots k1.process_table + 1 ≡ free_slots k.process_table)
unfolding child_of
fork-slots x86 kstack k {pid} {k1} inv h =
    let f = fork-Forked x86 kstack k h in
    let child = child_of f.parent pid f.tid f.page_table in
    let table : k1.process_table ≡ set k.process_table pid (some child) =
      ap (λ k. k.process_table) f.finished.result ∙ λ i.
      set (ap (λ k. k.process_table) f.middle_is i) pid (some child) in
    (
      rw table (IsIndexed-set k.process_table pid child inv (inr refl)),
      rw table (free_slots-set_new k.process_table pid child f.pid_lt f.pid_free),
    )

Run-free_slots :
    (x86 : Paging) (k : Kernel) {k1 : Kernel} {n : ℕ}
    → IsIndexed k.process_table
    → Run x86 k k1 n
    → IsIndexed k1.process_table × (free_slots k1.process_table + n ≡ free_slots k.process_table)
Run-free_slots x86 k inv start = (inv, omega arith)
Run-free_slots x86 k inv (forks {k1} kstack r h) =
    let (inv1, e) = Run-free_slots x86 k inv r in
    let (inv2, e2) = fork-slots x86 kstack k1 inv1 h in (inv2, omega arith)
Run-free_slots x86 k inv (exits {k1} status r h) =
    let (inv1, e) = Run-free_slots x86 k inv r in
    let kept = exit-Kept status k1 inv1 h in (kept.indexed, omega (arith, e, kept.slots))
Run-free_slots x86 k inv (waits {k1} p r h) =
    let (inv1, e) = Run-free_slots x86 k inv r in
    let kept = wait-Kept x86 p k1 inv1 h in (kept.indexed, omega (arith, e, kept.slots))
Run-free_slots x86 k inv (kills {k1} pid r h) =
    let (inv1, e) = Run-free_slots x86 k inv r in
    let kept = kill-Kept pid k1 inv1 h in (kept.indexed, omega (arith, e, kept.slots))
Run-free_slots x86 k inv (schedules {k1} r h) =
    let (inv1, e) = Run-free_slots x86 k inv r in
    let same = schedule-process_table k1 h in (rw same inv1, rw same e)

-- From a table in which every process with a parent stands in the slot of its number, a run of
-- successful `fork`, `exit`, `wait` and `kill` calls and scheduler rounds never gives a slot back:
-- the invariant holds at its end, the free slots below 15 are down by the number of forks, which is
-- at most 15, and `next_pid` then fails exactly if the forks have used up all that were free.
pub Run-forks :
    (x86 : Paging) (k k1 : Kernel) (n : ℕ)
    → IsIndexed k.process_table
    → Run x86 k k1 n
    → IsIndexed k1.process_table
      × (free_slots k1.process_table + n ≡ free_slots k.process_table)
      × (n ≤ nprocess - 1)
      × ((next_pid k1 ≡ err process_table_is_full k1) ↔ (n ≡ free_slots k.process_table))
Run-forks x86 k k1 n inv r =
    let (inv1, e) = Run-free_slots x86 k inv r in
    let (there, back) = next_pid-err k1 in
    (
      inv1,
      e,
      omega (arith, e, free_slots-le k.process_table),
      (λ h. omega (arith, e, there h), λ h. back (omega (arith, e, h))),
    )
