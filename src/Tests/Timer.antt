-- ===== src/Tests/Timer.antt =====
-- The theorem on the timer at its frequency.
use ferri_os.Base.{ℕ, ◌+◌, ◌*◌, ◌≤◌, ◌<◌, ◌≡◌, ◌⊎◌, [], ◌∷◌, ◌++◌, ok, panic}
use ferri_os.Base.Panic.{assertion_failed}
use ferri_os.Interrupts.{Timer, pit_base_frequency, init_pit_timer}
use ferri_os.Interrupts.Pit.{init_pit_timer_lem}
use ferri_os.Base.{refl, true, false, Ret, err}
use ferri_os.Interrupts.{Interrupted, ended, yielded, yield_if_started, timer_interrupt_handler}
use ferri_os.Interrupts.Killed.{timer_interrupt_handler-Exited}
use ferri_os.Process.{ret_error}
use ferri_os.Processes.Exit.{Exited}
use ferri_os.Syscall.Dispatch.Alive.{Current}
use ferri_os.Kernel.{current_process}
use ferri_os.Syscall.{exit_if_current_process_killed}
use ferri_os.Scheduler.{on_yield}
use ferri_os.Tests.Machine.{machine}

abbrev timer : Timer
timer = record { kernel = machine; ticks = 0; ports = [] }

init_pit_timer_lem_example :
    ((19 ≤ 100)
      × (100 ≤ pit_base_frequency)
      × ((low : ℕ) × (high : ℕ) × (low < 256)
          × (high < 256)
          × (0 < low + 256 * high)
          × ((low + 256 * high) * 100 ≤ pit_base_frequency)
          × (pit_base_frequency < (low + 256 * high + 1) * 100)
          × (init_pit_timer 100 timer
              ≡ ok tt (record timer {
                ports = (([] ++ ((0x43, 0x36) ∷ [])) ++ ((0x40, low) ∷ [])) ++ ((0x40, high) ∷ []);
              }))))
    ⊎ (((100 < 19) ⊎ (pit_base_frequency < 100))
        × (init_pit_timer 100 timer ≡ panic assertion_failed))
init_pit_timer_lem_example = init_pit_timer_lem 100 timer

-- The timer after an interrupt in user mode.
abbrev fired : Timer
fired = timer_of (timer_interrupt_handler 0x1b timer)
  where
    timer_of : Ret Timer Interrupted → Timer
    timer_of (ok o t) = t
    timer_of (err e t) = t
    timer_of (panic p) = timer

timer_interrupt_handler-Exited_example :
    (Current timer.kernel true
      × (yielded ≡ ended)
      × Exited ret_error timer.kernel fired.kernel
      × (fired.ticks ≡ timer.ticks + 1))
    ⊎ (Current timer.kernel false
        × (yield_if_started (record timer { ticks = timer.ticks + 1 }) ≡ ok yielded fired))
unfolding timer_interrupt_handler current_process exit_if_current_process_killed on_yield
timer_interrupt_handler-Exited_example =
    timer_interrupt_handler-Exited 0x1b timer {o = yielded} {t1 = fired} refl refl
