-- ===== src/Syscall/Dispatch/Alive.antt =====
-- kernel/src/syscall/ksyscall.rs: the dispatcher and killed processes.
use ferri_os.Base.{
  ℕ, ◌≡◌, sym, ap, ◌∙◌, ◌⊎◌, inl, inr, Bool, true, false, some, ok, expect, expect_lem, pure, Act,
  >>=-elim, if◌then◌else◌,
}
use ferri_os.Base.Panic.{expect_failed}
use ferri_os.Process
use ferri_os.Process.{Process}
use ferri_os.Heap.{ℤ}
use ferri_os.Kernel.{Kernel, current_process}
use ferri_os.Processes.Exit.{Exited}
use ferri_os.Processes.Forked.{current_process_state}
use ferri_os.Syscall.{exit_if_current_process_killed, set_trapframe}
use ferri_os.Syscall.Killed.{exit_if_current_process_killed-Exited}
use ferri_os.Syscall.Dispatch.{
  Environment, Outcome, returns, gone, waits, call, unless_killed, leave, syscall_dispatch,
}

-- The process of the current thread, and whether it has been killed.
pub record Current (k : Kernel) (killed : Bool) : Type 0 where
  pub process : Process
  pub process_is : current_process k ≡ ok (some process) k
  pub killed_is : process.killed ≡ killed

if_true :
    {A B : Type 0} (b : Bool) (m n : A → B) {a : A} {r : B}
    → b ≡ true
    → (if b then m else n) a ≡ r
    → m a ≡ r
if_true true m n e h = h
if_true false m n e h = absurd cc

if_false :
    {A B : Type 0} (b : Bool) (m n : A → B) {a : A} {r : B}
    → b ≡ false
    → (if b then m else n) a ≡ r
    → n a ≡ r
if_false false m n e h = h
if_false true m n e h = absurd cc

-- What a check for a killed process has led to.
unless_killed-cases :
    (env : Environment) (rest : Act Kernel Outcome) (k : Kernel) {o : Outcome} {k1 : Kernel}
    → unless_killed env rest k ≡ ok o k1
    → (Current k true × (o ≡ gone) × Exited Process.ret_error k k1)
      ⊎ (Current k false × (rest k ≡ ok o k1))
unfolding unless_killed
unless_killed-cases env rest k {o} {k1} h = >>=-elim current_process _ k h λ entry ka ha h.
    >>=-elim exit_if_current_process_killed _ ka h λ _ kb hb h.
      >>=-elim (expect entry expect_failed) _ kb h λ process kc hc h.
        let (entry_is, same) = expect_lem entry expect_failed kb hc in
        let back = current_process_state k ha in
        let (process', is', ended) = exit_if_current_process_killed-Exited k (rw back at hb) in
        let is : current_process k ≡ ok (some process) k = cc in
        let one : process' ≡ process = cc in
        elim ended [
          | inl (alive, kept) ↦
              let alive' : process.killed ≡ false = cc in
              inr (
                record { process = process; process_is = is; killed_is = alive' },
                ap rest (sym (same ∙ kept)) ∙ if_false process.killed (pure gone) rest alive' h,
              )
          | inr (killed, exited) ↦
              let killed' : process.killed ≡ true = cc in
              let done : ok gone kc ≡ ok o k1 = if_true process.killed (pure gone) rest killed' h in
              let here : k1 ≡ kb = cc in
              inl (
                record { process = process; process_is = is; killed_is = killed' },
                cc,
                rw here exited,
              )
        ]

leave-returns :
    (env : Environment) (outcome : Outcome) (k : Kernel) {v : ℤ} {k1 : Kernel}
    → leave env outcome k ≡ ok (returns v) k1
    → Current k1 false
unfolding leave
leave-returns env (returns w) k {k1 = k1} h =
    elim (unless_killed-cases env (pure (returns w)) k h) [
      | inl (_, e, _) ↦ absurd cc
      | inr (c, e) ↦ let back : k1 ≡ k = cc in rw back c
    ]
leave-returns env gone k h = absurd cc
leave-returns env (waits p) k h = absurd cc

Current-unique : (k : Kernel) → Current k false → Current k true → ⊥
Current-unique k c d =
    let same : c.process ≡ d.process = cc in
    let e : true ≡ false =
      sym d.killed_is ∙ ap (λ (p : Process). p.killed) (sym same) ∙ c.killed_is in
    cc

-- How the dispatcher deals with a killed process.
pub record Dispatched (k : Kernel) (o : Outcome) (k1 : Kernel) : Type 0 where
  -- killed before the call: it is not made, and the process ends
  pub killed_before : Current k true → (o ≡ gone) × Exited Process.ret_error k k1
  -- back in the user program: not killed
  pub alive_after : (v : ℤ) → o ≡ returns v → Current k1 false

-- Whatever the call is and does: if the current process has been killed, the dispatcher does not make
-- the call and the process ends with the error status; and when the dispatcher goes back to the user
-- program with a result, the process that is then current has not been killed.
pub syscall_dispatch-Dispatched :
    (env : Environment) (number arg1 arg2 tf : ℕ) (k : Kernel) {o : Outcome} {k1 : Kernel}
    → syscall_dispatch env number arg1 arg2 tf k ≡ ok o k1
    → Dispatched k o k1
unfolding syscall_dispatch
syscall_dispatch-Dispatched env number arg1 arg2 tf k {o} {k1} h =
    elim (unless_killed-cases env _ k h) [
      | inl (c, e, x) ↦ record { killed_before = λ _. (e, x); alive_after = λ v r. absurd cc }
      | inr (c, h) ↦ record {
        killed_before = λ d. absurd (Current-unique k c d);
        alive_after = λ v r. >>=-elim (set_trapframe tf) _ k h λ _ ka _ h.
            >>=-elim (call env number arg1 arg2) _ ka h
              λ outcome kb _ h. leave-returns env outcome kb (h ∙ ap (λ o. ok o k1) r);
      }
    ]
