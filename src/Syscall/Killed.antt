-- ===== src/Syscall/Killed.antt =====
-- kernel/src/syscall/mod.rs, `exit_if_current_process_killed`: a killed process goes no further.
use ferri_os.Base.{
  ℕ, ◌≡◌, refl, ◌⊎◌, inl, inr, Bool, true, false, some, arith, ok, >>=-elim, expect, when,
}
use ferri_os.Base.Panic.{expect_failed}
use ferri_os.Process
use ferri_os.Process.{Process}
use ferri_os.Kernel.{Kernel, current_process}
use ferri_os.Processes.Syscalls.{exit}
use ferri_os.Processes.Exit.{Exited, exit-Exited}
use ferri_os.Processes.Forked.{current_process_lem}
use ferri_os.Syscall.{exit_if_current_process_killed, sys_exit}

sys_exit_lem : (v : ℕ) (k : Kernel) {k1 : Kernel} → sys_exit v k ≡ ok tt k1 → exit v k ≡ ok tt k1
unfolding sys_exit
sys_exit_lem v k h = ground arith

when_lem :
    (b : Bool) (v : ℕ) (k : Kernel) {k1 : Kernel}
    → when b (sys_exit v) k ≡ ok tt k1
    → ((b ≡ true) × (exit v k ≡ ok tt k1)) ⊎ ((b ≡ false) × (k1 ≡ k))
when_lem true v k h = inl (refl, sys_exit_lem v k h)
when_lem false v k h = inr (refl, cc)

-- Where the check for a killed process comes back without a panic, the caller's process is not killed
-- and nothing has changed, or it is killed and has ended as by `exit` with the error status.
pub exit_if_current_process_killed-Exited :
    (k : Kernel) {k1 : Kernel}
    → exit_if_current_process_killed k ≡ ok tt k1
    → (process : Process) × (current_process k ≡ ok (some process) k)
      × (((process.killed ≡ false) × (k1 ≡ k))
          ⊎ ((process.killed ≡ true) × Exited Process.ret_error k k1))
unfolding exit_if_current_process_killed
exit_if_current_process_killed-Exited k {k1} h = >>=-elim current_process _ k h λ entry ka ha h.
    >>=-elim (expect entry expect_failed) _ ka h λ process kb hb h.
      let (back, process_is) = current_process_lem k ha hb in
      (
        process,
        process_is,
        elim (when_lem process.killed Process.ret_error k (rw back at h)) [
          | inl (killed, e) ↦ inr (killed, exit-Exited Process.ret_error k e)
          | inr (alive, same) ↦ inl (alive, same)
        ],
      )
