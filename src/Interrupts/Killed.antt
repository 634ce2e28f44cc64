-- ===== src/Interrupts/Killed.antt =====
-- kernel/src/interrupts.rs, `timer_interrupt_handler`: ticks, and killed processes in user mode.
use ferri_os.Base.{
  ℕ, ◌+◌, ◌%◌, ◌^◌, ◌≡◌, refl, sym, ap, ◌∙◌, ◌⊎◌, inl, inr, Bool, true, false, some, arith, ltb,
  ◌==◌, if◌then◌else◌, Bool-cases, ok, err, panic, Ret, Act, pure, >>=-elim, expect, expect_lem,
}
use ferri_os.Base.Panic.{expect_failed}
use ferri_os.Process
use ferri_os.Process.{Process}
use ferri_os.Kernel.{Kernel, current_process}
use ferri_os.Processes.Exit.{Exited}
use ferri_os.Processes.Forked.{current_process_state}
use ferri_os.Syscall.{exit_if_current_process_killed}
use ferri_os.Syscall.Killed.{exit_if_current_process_killed-Exited}
use ferri_os.Syscall.Dispatch.Alive.{Current}
use ferri_os.Interrupts.{
  Timer, Interrupted, ended, countup_ticks, killed_now, with_kernel, check_killed, yield_if_started,
  timer_interrupt_handler,
}

killed_now-cases :
    (k : Kernel) {b : Bool} {k1 : Kernel}
    → killed_now k ≡ ok b k1
    → Current k b × (((b ≡ false) × (k1 ≡ k)) ⊎ ((b ≡ true) × Exited Process.ret_error k k1))
unfolding killed_now
killed_now-cases k {b} {k1} h = >>=-elim current_process _ k h λ entry ka ha h.
    >>=-elim exit_if_current_process_killed _ ka h λ _ kb hb h.
      >>=-elim (expect entry expect_failed) _ kb h λ process kc hc h.
        let (entry_is, same) = expect_lem entry expect_failed kb hc in
        let back = current_process_state k ha in
        let (process', is', done) = exit_if_current_process_killed-Exited k (rw back at hb) in
        let is : current_process k ≡ ok (some process) k = cc in
        let one : process' ≡ process = cc in
        let b_is : process.killed ≡ b = cc in
        let here : k1 ≡ kb = cc in
        (
          record { process = process; process_is = is; killed_is = b_is },
          elim done [
            | inl (alive, kept) ↦ let e : b ≡ false = cc in inl (e, here ∙ kept)
            | inr (killed, exited) ↦ let e : b ≡ true = cc in inr (e, rw here exited)
          ],
        )

with_kernel_lem :
    {A : Type 0} (f : Act Kernel A) (t : Timer) {a : A} {t1 : Timer}
    → with_kernel f t ≡ ok a t1
    → (k1 : Kernel) × (f t.kernel ≡ ok a k1) × (t1 ≡ record t { kernel = k1 })
with_kernel_lem {A = A} f t {a} {t1} h = by (f t.kernel) refl h
  where
    by :
        (r : Ret Kernel A)
        → f t.kernel ≡ r
        → with_kernel (λ _. r) t ≡ ok a t1
        → (k1 : Kernel) × (f t.kernel ≡ ok a k1) × (t1 ≡ record t { kernel = k1 })
    by (ok b k1) e h = let same : b ≡ a = cc in (k1, e ∙ ap (λ x. ok x k1) same, cc)
    by (err c k1) e h = absurd cc
    by (panic p) e h = absurd cc

-- What a check has led to in user mode.
abbrev Checked : Timer → Interrupted → Timer → Act Timer Interrupted → Type 0
Checked t o t1 rest =
    (Current t.kernel true
      × (o ≡ ended)
      × Exited Process.ret_error t.kernel t1.kernel
      × (t1.ticks ≡ t.ticks))
    ⊎ (Current t.kernel false × (rest t ≡ ok o t1))

check_killed-Checked :
    (code_segment : ℕ) (rest : Act Timer Interrupted) (t : Timer) {o : Interrupted} {t1 : Timer}
    → code_segment % 4 ≡ 3
    → check_killed code_segment rest t ≡ ok o t1
    → Checked t o t1 rest
unfolding check_killed
check_killed-Checked cs rest t {o} {t1} ring h =
    let user : (cs % 4 == 3) ≡ true = ground (arith, ring) in
    >>=-elim (with_kernel killed_now) (λ killed. if killed then pure ended else rest) t
      (rw (check_killed, user) at h)
      λ b ta hb h.
        let (k1, e, ta_is) = with_kernel_lem killed_now t hb in
        let (c, cases) = killed_now-cases t.kernel e in
        elim cases [
          | inl (b_is, kept) ↦
              let same : ta ≡ t = ta_is ∙ ap (λ k. record t { kernel = k }) kept in
              inr (rw b_is at c, ap rest (sym same) ∙ (rw b_is at h))
          | inr (b_is, exited) ↦
              let over : ok ended ta ≡ ok o t1 = rw b_is at h in
              let last : t1 ≡ ta = cc in
              let kernel_is : t1.kernel ≡ k1 = ap (λ (u : Timer). u.kernel) (last ∙ ta_is) in
              let ticks_is : t1.ticks ≡ t.ticks = ap (λ (u : Timer). u.ticks) (last ∙ ta_is) in
              inl (rw b_is at c, cc, rw kernel_is exited, ticks_is)
        ]

countup_ticks_lem :
    (t : Timer) {t1 : Timer} → countup_ticks t ≡ ok tt t1 → t1 ≡ record t { ticks = t.ticks + 1 }
unfolding countup_ticks
countup_ticks_lem t h = elim (Bool-cases (ltb (t.ticks + 1) (2 ^ 64))) [
  | inl e ↦ let done = rw (countup_ticks, e) at h in cc
  | inr e ↦ let done = rw (countup_ticks, e) at h in absurd cc
]

-- A timer interrupt in user mode counts a tick. If the process has been killed, it ends there with the
-- error status; else nothing has changed but the tick, and the thread gives the CPU up if the scheduler
-- has started and goes on if not.
pub timer_interrupt_handler-Exited :
    (code_segment : ℕ) (t : Timer) {o : Interrupted} {t1 : Timer}
    → code_segment % 4 ≡ 3
    → timer_interrupt_handler code_segment t ≡ ok o t1
    → (Current t.kernel true
        × (o ≡ ended)
        × Exited Process.ret_error t.kernel t1.kernel
        × (t1.ticks ≡ t.ticks + 1))
      ⊎ (Current t.kernel false × (yield_if_started (record t { ticks = t.ticks + 1 }) ≡ ok o t1))
unfolding timer_interrupt_handler
timer_interrupt_handler-Exited cs t {o} {t1} ring h = >>=-elim countup_ticks _ t h λ _ ta counted h.
    let ta_is = countup_ticks_lem t counted in
    let kernel_is : ta.kernel ≡ t.kernel = ap (λ (u : Timer). u.kernel) ta_is in
    let ticks_is : ta.ticks ≡ t.ticks + 1 = ap (λ (u : Timer). u.ticks) ta_is in
    elim (check_killed-Checked cs (check_killed cs yield_if_started) ta ring h) [
      | inl (c, e, x, n) ↦ inl (rw kernel_is at c, e, rw kernel_is at x, n ∙ ticks_is)
      | inr (c, h) ↦ elim (check_killed-Checked cs yield_if_started ta ring h) [
        | inl (c, e, x, n) ↦ inl (rw kernel_is at c, e, rw kernel_is at x, n ∙ ticks_is)
        | inr (c, h) ↦ inr (rw kernel_is at c, ap yield_if_started (sym ta_is) ∙ h)
      ]
    ]
