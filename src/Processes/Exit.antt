-- ===== src/Processes/Exit.antt =====
-- kernel/src/thread/uprocess/syscalls.rs, `exit`: the process and its threads end as zombies.
use ferri_os.Base.{
  ℕ, ◌≡◌, refl, ap, ◌∙◌, inl, inr, Bool, true, false, ◌&&◌, ◌||◌, ◌==◌, Option, none, some, List,
  [], ◌∷◌, arith, if◌then◌else◌, get_elem?, get_elem?-set, set, is_some_eq, Bool-cases,
  Option-cases, ok, >>=-elim, ok_or, ok_or_lem, fail_if, fail_if_lem,
}
use ferri_os.Base.{when, fault, not, sym}
use native.Mathlib.Decide.{ℕ_discrete}
use ferri_os.Scheduler.Yield.{SyscallYielded, on_syscall_yield-SyscallYielded}
use ferri_os.Base.Panic.{zombie_exit}
use ferri_os.Base.Error.{no_process, init_exiting}
use ferri_os.Thread.{Thread, ThreadState, save_regs, load_regs, pushed, interrupt_flag}
use ferri_os.Process.{Process, ProcessState}
use ferri_os.Kernel.{Kernel, process_at, set_process, current_pid}
use ferri_os.Scheduler.{on_syscall_yield}
use ferri_os.Processes.Effects.{
  current_pid_lem, process_at_lem, set_process_lem, stop_threads-process_table,
  on_syscall_yield-process_table,
}
use ferri_os.Processes.Syscalls.{exit, stop_thread, stop_threads}

-- Whether thread `u` is in the process's array of threads.
abbrev pub is_listed : ℕ → List (Option ℕ) → Bool
is_listed u [] = false
is_listed u (none ∷ threads) = is_listed u threads
is_listed u (some tid ∷ threads) = tid == u || is_listed u threads

-- Thread `u` after a call that ends the threads of the list that belong to `pid`.
pub record Stopped (pid : ℕ) (threads : List (Option ℕ)) (u : ℕ) (t : Thread) (k1 : Kernel)
    : Type 0 where
  pub thread : Thread
  pub found : get_elem? k1.thread_table u ≡ some thread
  pub pid_is : thread.pid ≡ t.pid
  pub state_is :
      thread.state
      ≡ (if is_listed u threads && is_some_eq t.pid pid then ThreadState.zombie else t.state)

stop_thread-other :
    (pid tid : ℕ) (k : Kernel) {k1 : Kernel}
    → stop_thread pid tid k ≡ ok tt k1
    → (u : ℕ) (t : Thread) → get_elem? k.thread_table u ≡ some t
    → (tid == u && is_some_eq t.pid pid) ≡ false
    → get_elem? k1.thread_table u ≡ some t
unfolding stop_thread
stop_thread-other pid tid k h u t e other = elim (Option-cases (get_elem? k.thread_table tid)) [
  | inl missing ↦ absurd (ground (arith, missing))
  | inr (c, here) ↦
      ground
        (arith, here, get_elem?-set k.thread_table tid u (record c { state = ThreadState.zombie }))
]

stop_thread-thread :
    (pid tid : ℕ) (k : Kernel) {k1 : Kernel}
    → stop_thread pid tid k ≡ ok tt k1
    → (u : ℕ) (t : Thread) → get_elem? k.thread_table u ≡ some t
    → (t1 : Thread) × (get_elem? k1.thread_table u ≡ some t1)
      × (t1.pid ≡ t.pid)
      × (t1.state ≡ (if tid == u && is_some_eq t.pid pid then ThreadState.zombie else t.state))
unfolding stop_thread
stop_thread-thread pid tid k {k1} h u t e = elim (Bool-cases (tid == u && is_some_eq t.pid pid)) [
  | inl own ↦ (
    record t { state = ThreadState.zombie },
    ground (
      arith,
      e,
      own,
      get_elem?-set k.thread_table tid u (record t { state = ThreadState.zombie }),
    ),
    refl,
    ground (arith, own),
  )
  | inr other ↦ (t, stop_thread-other pid tid k h u t e other, refl, ground (arith, other))
]

stopped_twice :
    (a b c : Bool) (s : ThreadState)
    → (if b && c then ThreadState.zombie else if a && c then ThreadState.zombie else s)
      ≡ (if (a || b) && c then ThreadState.zombie else s)
stopped_twice true true true s = refl
stopped_twice true true false s = refl
stopped_twice true false true s = refl
stopped_twice true false false s = refl
stopped_twice false true true s = refl
stopped_twice false true false s = refl
stopped_twice false false c s = refl

stop_threads-Stopped :
    (pid : ℕ) (threads : List (Option ℕ)) (k : Kernel) {k1 : Kernel}
    → stop_threads pid threads k ≡ ok tt k1
    → (u : ℕ) (t : Thread) → get_elem? k.thread_table u ≡ some t
    → Stopped pid threads u t k1
unfolding stop_threads
stop_threads-Stopped pid [] k h u t e = record {
  thread = t;
  found = ground arith;
  pid_is = refl;
  state_is = refl;
}
stop_threads-Stopped pid (none ∷ threads) k h u t e =
    let s = stop_threads-Stopped pid threads k h u t e in
    record { thread = s.thread; found = s.found; pid_is = s.pid_is; state_is = s.state_is }
stop_threads-Stopped pid (some tid ∷ threads) k h u t e =
    >>=-elim (stop_thread pid tid) (λ _. stop_threads pid threads) k h
      λ _ k2 h1 h2.
        let (t1, e1, pid1, state1) = stop_thread-thread pid tid k h1 u t e in
        let s = stop_threads-Stopped pid threads k2 h2 u t1 e1 in
        record {
          thread = s.thread;
          found = s.found;
          pid_is = s.pid_is ∙ pid1;
          state_is =
              rw (pid1, state1) at s.state_is
              ∙ stopped_twice (tid == u) (is_listed u threads) (is_some_eq t.pid pid) t.state;
        }

found_same : {x y : Option Thread} {a b : Thread} → x ≡ some a → y ≡ x → y ≡ some b → a ≡ b
found_same f g h = cc

switched-thread :
    (k : Kernel) (tid u : ℕ) (t : Thread) {k1 : Kernel}
    → SyscallYielded k tid k1
    → get_elem? k.thread_table u ≡ some t
    → (t1 : Thread) × (get_elem? k1.thread_table u ≡ some t1)
      × (t1.pid ≡ t.pid)
      × (t1.state ≡ t.state)
switched-thread k tid u t {k1} y e = elim (ℕ_discrete u tid) [
  | yes own ↦
      let same : y.thread ≡ t = found_same (y.found) (ap (get_elem? k.thread_table) own) e in
      (
        record y.thread {
          context =
              save_regs (pushed false k.regs)
                (record y.thread.context { rsp3 = k.cpu.saved_user_rsp });
        },
        ap (get_elem? k1.thread_table) own ∙ y.after,
        ap (λ t. t.pid) same,
        ap (λ t. t.state) same,
      )
  | no ne ↦ (t, y.others u ne ∙ e, refl, refl)
]

on_syscall_yield-current :
    (k : Kernel) {k1 : Kernel}
    → on_syscall_yield k ≡ ok true k1
    → (tid : ℕ) × (k.cpu.current_tid ≡ some tid)
unfolding on_syscall_yield
on_syscall_yield-current k h = ground arith

-- What `exit` has done when it has switched to the scheduler.
pub record Exited (status : ℕ) (k k1 : Kernel) : Type 0 where
  pub pid : ℕ
  pub process : Process
  pub pid_is : current_pid k ≡ ok (some pid) k
  pub process_is : get_elem? k.process_table pid ≡ some (some process)
  pub not_init : (pid == 0) ≡ false
  pub table_is :
      k1.process_table
      ≡ set k.process_table pid
          (some (record process { state = ProcessState.zombie; exit_status = status }))
  pub rest : k1 ≡ record k {
    process_table = k1.process_table;
    thread_table = k1.thread_table;
    cr3 = k1.cr3;
    regs = load_regs k.cpu.scheduler;
    interrupts = interrupt_flag k.cpu.scheduler.rflags;
    swapped_gs = not k.swapped_gs;
  }
  pub threads :
      (u : ℕ) (t : Thread)
      → get_elem? k.thread_table u ≡ some t
      → Stopped process.pid process.threads u t k1

stop_thread-thread_table :
    (pid tid : ℕ) (k : Kernel) {k1 : Kernel}
    → stop_thread pid tid k ≡ ok tt k1
    → k1 ≡ record k { thread_table = k1.thread_table }
unfolding stop_thread
stop_thread-thread_table pid tid k h = ground arith

stop_threads-thread_table :
    (pid : ℕ) (threads : List (Option ℕ)) (k : Kernel) {k1 : Kernel}
    → stop_threads pid threads k ≡ ok tt k1
    → k1 ≡ record k { thread_table = k1.thread_table }
unfolding stop_threads
stop_threads-thread_table pid [] k h = ground (arith, h)
stop_threads-thread_table pid (none ∷ threads) k h = stop_threads-thread_table pid threads k h
stop_threads-thread_table pid (some tid ∷ threads) k h =
    >>=-elim (stop_thread pid tid) (λ _. stop_threads pid threads) k h
      λ _ k2 h1 h2.
        ground (
          arith,
          stop_thread-thread_table pid tid k h1,
          stop_threads-thread_table pid threads k2 h2,
        )

-- Of the rest of the state, `exit` changes only the page table, the registers and two flags.
rest_of_exit :
    (status pid : ℕ) (p : Process) (k kf kg k1 : Kernel)
    → kf ≡ record k {
      process_table =
          set k.process_table pid
            (some (record p { state = ProcessState.zombie; exit_status = status }));
    }
    → stop_threads p.pid p.threads kf ≡ ok tt kg
    → on_syscall_yield kg ≡ ok true k1
    → k1 ≡ record k {
      process_table = k1.process_table;
      thread_table = k1.thread_table;
      cr3 = k1.cr3;
      regs = load_regs k.cpu.scheduler;
      interrupts = interrupt_flag k.cpu.scheduler.rflags;
      swapped_gs = not k.swapped_gs;
    }
rest_of_exit status pid p k kf kg k1 stored h1 h2 =
    let (tid, c) = on_syscall_yield-current kg h2 in
    let y = on_syscall_yield-SyscallYielded kg c h2 in
    let t = stop_threads-thread_table p.pid p.threads kf h1 in ground (arith, stored, t, y.rest)

-- The stores of `exit` and its switch, put together.
end_of_exit :
    (status pid : ℕ) (p : Process) (k kf kg k1 : Kernel)
    → kf ≡ record k {
      process_table =
          set k.process_table pid
            (some (record p { state = ProcessState.zombie; exit_status = status }));
    }
    → stop_threads p.pid p.threads kf ≡ ok tt kg
    → on_syscall_yield kg ≡ ok true k1
    → (u : ℕ) (t : Thread) → get_elem? k.thread_table u ≡ some t
    → Stopped p.pid p.threads u t k1
end_of_exit status pid p k kf kg k1 stored h1 h2 u t e =
    let s =
      stop_threads-Stopped p.pid p.threads kf h1 u t
        (ap (λ k. get_elem? k.thread_table u) stored ∙ e) in
    let (tid, c) = on_syscall_yield-current kg h2 in
    let (t1, found, pid_is, state_is) =
      switched-thread kg tid u s.thread (on_syscall_yield-SyscallYielded kg c h2) s.found in
    record {
      thread = t1;
      found = found;
      pid_is = pid_is ∙ s.pid_is;
      state_is = state_is ∙ s.state_is;
    }

when_zombie :
    (b : Bool) (k : Kernel) {k1 : Kernel}
    → when (not b) (fault zombie_exit) k ≡ ok tt k1
    → (b ≡ true) × (k1 ≡ k)
when_zombie true k h = (refl, cc)
when_zombie false k h = cc

-- An `exit` that switches to the scheduler has marked the caller's process, which is not process 0, as a
-- zombie with the given status, and every thread in its array that belongs to it as a zombie; the
-- other threads keep their states, and the process table is otherwise as before. The scheduler's saved
-- registers and interrupt flag are loaded and the GS base is toggled; outside the two tables, these
-- and the page table register, the kernel's state is as before.
pub exit-Exited :
    (status : ℕ) (k : Kernel) {k1 : Kernel} → exit status k ≡ ok tt k1 → Exited status k k1
unfolding exit
exit-Exited status k {k1} h = >>=-elim current_pid _ k h λ found ka ha h.
    >>=-elim (ok_or found no_process) _ ka h λ pid kb hb h.
      >>=-elim (fail_if (pid == 0) init_exiting) _ kb h λ _ kc hc h.
        >>=-elim (process_at pid) _ kc h λ entry kd hd h.
          >>=-elim (ok_or entry no_process) _ kd h λ p ke he h.
            >>=-elim
              (set_process pid
                (some (record p { state = ProcessState.zombie; exit_status = status })))
              _ ke h
              λ _ kf hf h. >>=-elim (stop_threads p.pid p.threads) _ kf h λ _ kg hg h.
                >>=-elim on_syscall_yield _ kg h λ switched kh hh h.
                  let (a_k, current) = current_pid_lem k ha in
                  let (found_is, b_a) = ok_or_lem found no_process ka hb in
                  let (not_init, c_b) = fail_if_lem (pid == 0) init_exiting kb hc in
                  let (entry_is, d_c) = process_at_lem pid kc hd in
                  let (p_is, e_d) = ok_or_lem entry no_process kd he in
                  let (b_is, last) = when_zombie switched kh h in
                  let c_k : kc ≡ k = c_b ∙ (b_a ∙ a_k) in
                  let back : ke ≡ k = e_d ∙ (d_c ∙ c_k) in
                  let stored = rw back at (set_process_lem pid _ ke hf) in
                  let yielded : on_syscall_yield kg ≡ ok true k1 =
                    hh ∙ λ i. ok (b_is i) (sym last i) in
                  record {
                    pid = pid;
                    process = p;
                    pid_is = current ∙ λ i. ok (found_is i) k;
                    process_is = rw c_k at entry_is ∙ ap some p_is;
                    not_init = not_init;
                    table_is =
                        on_syscall_yield-process_table kg yielded
                        ∙ (stop_threads-process_table p.pid p.threads kf hg
                            ∙ ap (λ k. k.process_table) stored);
                    rest = rest_of_exit status pid p k kf kg k1 stored hg yielded;
                    threads = end_of_exit status pid p k kf kg k1 stored hg yielded;
                  }
