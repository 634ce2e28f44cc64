-- ===== src/Interrupts.antt =====
-- kernel/src/interrupts.rs: the timer. A port write is a port and a byte; the writes are kept in order.
pub mod Pit
pub mod Killed
use ferri_os.Base.{
  ℕ, zero, suc, ◌+◌, ◌*◌, ◌/◌, ◌%◌, ◌^◌, Bool, true, false, Option, none, some, List, [], ◌∷◌, ◌++◌,
  ltb, ◌==◌, if◌then◌else◌, Ret, ok, err, panic, Act, ◌>>=◌, ◌>>◌, pure, fault, get, put, expect,
  when,
}
use ferri_os.Base.Panic.{assertion_failed, arithmetic_overflow, expect_failed}
use ferri_os.Kernel.{Kernel, current_process}
use ferri_os.Process.{Process}
use ferri_os.Scheduler.{on_yield}
use ferri_os.Syscall.{exit_if_current_process_killed}

abbrev pub pit_base_frequency : ℕ
pit_base_frequency = 1193182

pub record Timer : Type 0 where
  pub kernel : Kernel
  pub ticks : ℕ
  pub ports : List (ℕ × ℕ)

abbrev pub write_port : ℕ → ℕ → Act Timer (Unit {0})
write_port port byte t = ok tt (record t { ports = t.ports ++ ((port, byte) ∷ []) })

-- `assert!`
abbrev pub assert : Bool → Act Timer (Unit {0})
assert true t = ok tt t
assert false t = panic assertion_failed

unfoldable pub init_pit_timer : ℕ → Act Timer (Unit {0})
init_pit_timer frequency_hz = do
  assert (ltb 0 frequency_hz)
  let divisor = pit_base_frequency / frequency_hz
  assert (ltb 0 divisor)
  assert (ltb divisor (2 ^ 16))
  write_port 0x43 0x36
  write_port 0x40 (divisor % 256)
  write_port 0x40 (divisor / 256)

unfoldable pub countup_ticks : Act Timer (Unit {0})
countup_ticks t =
    if ltb (t.ticks + 1) (2 ^ 64)
    then ok tt (record t { ticks = t.ticks + 1 })
    else panic arithmetic_overflow

-- Code of the kernel in the handler.
abbrev pub with_kernel : {A : Type 0} → Act Kernel A → Act Timer A
with_kernel f t = elim (f t.kernel) [
  | ok a k ↦ ok a (record t { kernel = k })
  | err e k ↦ err e (record t { kernel = k })
  | panic p ↦ panic p
]

-- `exit_if_current_process_killed`, and whether it has not come back.
unfoldable pub killed_now : Act Kernel Bool
killed_now = do
  entry ← current_process
  exit_if_current_process_killed
  process ← expect entry expect_failed
  pure process.killed

-- How the handler is left: its process has ended, the thread has given the CPU up, or it goes on.
pub data Interrupted : Type 0 where
  ended yielded resumed : Interrupted

-- The end of the handler, after its checks.
unfoldable pub yield_if_started : Act Timer Interrupted
yield_if_started = do
  t ← get
  if t.kernel.scheduler_started then (do with_kernel on_yield; pure yielded) else pure resumed

-- One of the two checks, then the rest. The lowest two bits of the code segment tell the ring.
unfoldable pub check_killed : ℕ → Act Timer Interrupted → Act Timer Interrupted
unfolding killed_now
check_killed code_segment rest t = elim (code_segment % 4 == 3) [
  | false ↦ rest t
  | true ↦ (do killed ← with_kernel killed_now; if killed then pure ended else rest) t
]

-- `timer_interrupt_handler`, without the acknowledgement to the interrupt controller.
unfoldable pub timer_interrupt_handler : ℕ → Act Timer Interrupted
unfolding countup_ticks check_killed yield_if_started
timer_interrupt_handler code_segment = do
  countup_ticks
  check_killed code_segment (check_killed code_segment yield_if_started)
