-- ===== src/Processes/Wait.antt =====
-- kernel/src/thread/uprocess/syscalls.rs, `wait`: the search for a zombie child and its end.
use ferri_os.Base.{
  ℕ, zero, suc, ◌+◌, ◌-◌, ◌≤◌, ◌<◌, ◌≡◌, ap, ◌∙◌, inl, inr, Bool, true, false, ◌&&◌, ◌||◌, Option,
  none, some, arith, get_elem?, set, Bool-cases, Option-cases, ok, ◌>>◌, >>=-elim,
}
use native.Mathlib.Decide.{ℕ_discrete}
use ferri_os.Memory.Paging.{Paging}
use ferri_os.Process.{Process, is_zombie, new_process, nprocess}
use ferri_os.Kernel.{Kernel, process_at, set_process}
use ferri_os.Scheduler.{on_syscall_yield}
use ferri_os.Processes.{free_process}
use ferri_os.Base.{expect, expect_lem}
use ferri_os.Base.{fail_if, fail_if_lem, not, pure}
use ferri_os.Base.Error.{no_child_process, this_process_has_killed}
use ferri_os.Base.Panic.{expect_failed}
use ferri_os.Processes.Effects.{
  process_at_lem, set_process_lem, free_process-process_table, on_syscall_yield-process_table,
}
use ferri_os.Processes.Slots.{Table}
use ferri_os.Processes.Syscalls.{is_child, is_zombie_slot, slot, find_zombie, reap, wait_round}

-- Whether slot `i` holds a zombie child of `pid`.
abbrev pub is_done : Table → ℕ → ℕ → Bool
is_done t pid i = is_child (slot t i) pid && is_zombie_slot (slot t i)

find_zombie-some :
    (n i : ℕ) (t : Table) (pid : ℕ) (kids : Bool) {j : ℕ} {b : Bool}
    → find_zombie n i t pid kids ≡ (some j, b)
    → (j < i + n) × (is_done t pid j ≡ true) × ((u : ℕ) → i ≤ u → u < j → is_done t pid u ≡ false)
unfolding find_zombie
find_zombie-some zero i t pid kids h = absurd (ground arith)
find_zombie-some (suc n) i t pid kids {j} {b} h = elim (Bool-cases (is_done t pid i)) [
  | inl now ↦
      let e : i ≡ j = ground (arith, now) in
      (omega arith, rw e at now, λ u le lt. absurd (omega arith))
  | inr later ↦
      let (lt, here, first) =
        find_zombie-some n (i + 1) t pid (is_child (slot t i) pid || kids) (rw later at h) in
      (
        omega arith,
        here,
        λ u p q. elim (ℕ_discrete u i) [ yes now ↦ rw now later | no ne ↦ first u (omega arith) q ],
      )
]

-- What `wait` has done with the zombie in slot `i`.
pub record Reaped (k : Kernel) (pid i : ℕ) (result : ℕ × ℕ) (k1 : Kernel) : Type 0 where
  pub child : Process
  pub slot_lt : i < nprocess - 1
  pub child_is : get_elem? k.process_table i ≡ some (some child)
  pub ppid_is : child.ppid ≡ some pid
  pub state_is : is_zombie child.state ≡ true
  pub first : (u : ℕ) → u < i → is_done k.process_table pid u ≡ false
  pub result_is : result ≡ (child.pid, child.exit_status)
  pub table_is : k1.process_table ≡ set (set k.process_table i none) child.pid (some new_process)

slot_is :
    (t : Table) (pid i : ℕ)
    → is_done t pid i ≡ true
    → (child : Process) × (get_elem? t i ≡ some (some child))
      × (child.ppid ≡ some pid)
      × (is_zombie child.state ≡ true)
slot_is t pid i h = ground arith

reap_lem :
    (x86 : Paging) (i : ℕ) (k : Kernel) {child : Process} {r : Option (ℕ × ℕ)} {k1 : Kernel}
    → get_elem? k.process_table i ≡ some (some child)
    → reap x86 i k ≡ ok r k1
    → (r ≡ some (child.pid, child.exit_status))
      × (k1.process_table ≡ set (set k.process_table i none) child.pid (some new_process))
unfolding reap
reap_lem x86 i k {child} {r} {k1} e h = >>=-elim (process_at i) _ k h λ entry ka ha h.
    >>=-elim (expect entry expect_failed) _ ka h λ c kb hb h.
      >>=-elim (set_process i none) _ kb h λ _ kc hc h.
        >>=-elim (free_process x86 c) _ kc h λ _ kd hd h.
          let (entry_is, a_k) = process_at_lem i k ha in
          let (c_is, b_a) = expect_lem entry expect_failed ka hb in
          let stored = set_process_lem i none kb hc in
          let same : c ≡ child = ground arith in
          let freed = free_process-process_table x86 c kc hd in
          let back : kb ≡ k = b_a ∙ a_k in
          let table : kc.process_table ≡ set k.process_table i none =
            ap (λ k. k.process_table) stored ∙ λ x. set (back x).process_table i none in
          let last : k1 ≡ kd = cc in
          (
            cc,
            ap (λ k. k.process_table) last ∙ freed ∙ λ x.
                set (table x) (same x).pid (some new_process),
          )

-- When a round of `wait` has a result it is the first zombie child in slots 0 to 14: the result is its
-- pid and its exit status, and the slot with the child's number then holds a new, unused process.
pub wait_round-zombie :
    (x86 : Paging) (p : Process) (k : Kernel) {result : ℕ × ℕ} {k1 : Kernel}
    → wait_round x86 p k ≡ ok (some result) k1
    → (i : ℕ) × Reaped k p.pid i result k1
unfolding wait_round
wait_round-zombie x86 p k {result} {k1} h =
    let found = find_zombie (nprocess - 1) 0 k.process_table p.pid false in
    elim (Option-cases found.0) [
      | inl e ↦ absurd (ground (arith, e))
      | inr (i, e) ↦
          let (lt, here, first) =
            find_zombie-some (nprocess - 1) 0 k.process_table p.pid false (λ x. (e x, found.1)) in
          let (child, child_is, ppid_is, state_is) = slot_is k.process_table p.pid i here in
          let (result_is, table_is) = reap_lem x86 i k child_is (rw (e, wait_round) at h) in
          (
            i,
            record {
              child = child;
              slot_lt = omega arith;
              child_is = child_is;
              ppid_is = ppid_is;
              state_is = state_is;
              first = λ u lt. first u (omega arith) lt;
              result_is = cc;
              table_is = table_is;
            },
          )
    ]

yield_part :
    (kids killed : Bool) (k : Kernel) {k1 : Kernel}
    → (do
      fail_if (not kids) no_child_process
      fail_if killed this_process_has_killed
      on_syscall_yield
      pure {S = Kernel} {A = Option (ℕ × ℕ)} none)
        k
      ≡ ok none k1
    → k1.process_table ≡ k.process_table
yield_part kids killed k {k1} h = >>=-elim (fail_if (not kids) no_child_process) _ k h λ _ ka ha h.
    >>=-elim (fail_if killed this_process_has_killed) _ ka h λ _ kb hb h.
      >>=-elim on_syscall_yield _ kb h λ _ kc hc h.
        let (_, a_k) = fail_if_lem (not kids) no_child_process k ha in
        let (_, b_a) = fail_if_lem killed this_process_has_killed ka hb in
        let last : k1 ≡ kc = cc in
        ap (λ k. k.process_table) last
        ∙ (on_syscall_yield-process_table kb hc ∙ ap (λ k. k.process_table) (b_a ∙ a_k))

-- A round without a result leaves the process table alone.
pub wait_round-process_table :
    (x86 : Paging) (p : Process) (k : Kernel) {k1 : Kernel}
    → wait_round x86 p k ≡ ok none k1
    → k1.process_table ≡ k.process_table
unfolding wait_round
wait_round-process_table x86 p k {k1} h =
    let found = find_zombie (nprocess - 1) 0 k.process_table p.pid false in
    elim (Option-cases found.0) [
      | inl e ↦ yield_part found.1 p.killed k (rw (e, wait_round) at h)
      | inr (i, e) ↦
          let (_, here, _) =
            find_zombie-some (nprocess - 1) 0 k.process_table p.pid false (λ x. (e x, found.1)) in
          let (child, child_is, _, _) = slot_is k.process_table p.pid i here in
          let (result_is, _) = reap_lem x86 i k child_is (rw (e, wait_round) at h) in
          absurd (ground (arith, result_is))
    ]
