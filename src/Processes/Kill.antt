-- ===== src/Processes/Kill.antt =====
-- kernel/src/thread/uprocess/syscalls.rs, `kill`: the process that it marks.
use ferri_os.Base.{
  ℕ, zero, suc, ◌+◌, ◌-◌, ◌≤◌, ◌<◌, ◌≡◌, ap, ◌∙◌, inl, inr, true, false, some, arith, get_elem?,
  set, Bool-cases, ok, >>=-elim, expect, expect_lem, ok_or, ok_or_lem,
}
use native.Mathlib.Decide.{ℕ_discrete}
use ferri_os.Base.Error.{no_process}
use ferri_os.Base.Panic.{expect_failed}
use ferri_os.Process.{Process, nprocess}
use ferri_os.Kernel.{Kernel, process_at}
use ferri_os.Processes.Slots.{Table}
use ferri_os.Processes.Effects.{process_at_lem, set_process_lem}
use ferri_os.Processes.Syscalls.{kill, find_pid, is_target, slot}

find_pid-some :
    (n i : ℕ) (t : Table) (pid : ℕ) {j : ℕ}
    → find_pid n i t pid ≡ some j
    → (j < i + n)
      × (is_target (slot t j) pid ≡ true)
      × ((u : ℕ) → i ≤ u → u < j → is_target (slot t u) pid ≡ false)
unfolding find_pid
find_pid-some zero i t pid h = cc
find_pid-some (suc n) i t pid {j} h = elim (Bool-cases (is_target (slot t i) pid)) [
  | inl now ↦
      let e : i ≡ j = ground (arith, now) in
      (omega arith, rw e at now, λ u le lt. absurd (omega arith))
  | inr later ↦
      let (lt, here, first) = find_pid-some n (i + 1) t pid (rw later at h) in
      (
        omega arith,
        here,
        λ u p q. elim (ℕ_discrete u i) [ yes now ↦ rw now later | no ne ↦ first u (omega arith) q ],
      )
]

-- What `kill` has done: the first of slots 0 to 14 with a process of that number is marked, and nothing
-- else has changed.
pub record Killed (k : Kernel) (pid : ℕ) (k1 : Kernel) : Type 0 where
  pub place : ℕ
  pub target : Process
  pub place_lt : place < nprocess - 1
  pub target_is : get_elem? k.process_table place ≡ some (some target)
  pub pid_is : target.pid ≡ pid
  pub first : (u : ℕ) → u < place → is_target (slot k.process_table u) pid ≡ false
  pub result : k1 ≡ record k {
    process_table = set k.process_table place (some (record target { killed = true }));
  }

target_is_lem :
    (t : Table) (i pid : ℕ) (p : Process)
    → get_elem? t i ≡ some (some p)
    → is_target (slot t i) pid ≡ true
    → p.pid ≡ pid
target_is_lem t i pid p e h = ground (arith, e)

-- A successful `kill` sets the `killed` flag of the first process with that number in slots 0 to 14, and
-- changes nothing else.
pub kill-Killed : (pid : ℕ) (k : Kernel) {k1 : Kernel} → kill pid k ≡ ok tt k1 → Killed k pid k1
unfolding kill
kill-Killed pid k h =
    >>=-elim (ok_or (find_pid (nprocess - 1) 0 k.process_table pid) no_process) _ k h λ i ka ha h.
      >>=-elim (process_at i) _ ka h λ entry kb hb h.
        >>=-elim (expect entry expect_failed) _ kb h λ p kc hc h.
          let (found, a_k) =
            ok_or_lem (find_pid (nprocess - 1) 0 k.process_table pid) no_process k ha in
          let (entry_is, b_a) = process_at_lem i ka hb in
          let (p_is, c_b) = expect_lem entry expect_failed kb hc in
          let back : kc ≡ k = c_b ∙ (b_a ∙ a_k) in
          let (lt, here, first) = find_pid-some (nprocess - 1) 0 k.process_table pid found in
          let target_is : get_elem? k.process_table i ≡ some (some p) =
            rw a_k at entry_is ∙ ap some p_is in
          record {
            place = i;
            target = p;
            place_lt = lt;
            target_is = target_is;
            pid_is = target_is_lem k.process_table i pid p target_is here;
            first = λ u lt. first u (omega arith) lt;
            result = rw back at (set_process_lem i (some (record p { killed = true })) kc h);
          }
