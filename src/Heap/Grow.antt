-- ===== src/Heap/Grow.antt =====
-- kernel/src/memory/syscalls.rs: what `sbrk` returns and what it keeps.
use ferri_os.Base.{
  ℕ, ◌≡◌, ap, ◌∙◌, sym, Option, some, arith, get_elem?, ok, >>=-elim, expect, expect_lem, fail_if,
  fail_if_lem, is_none,
}
use ferri_os.Base.Error.{no_process}
use ferri_os.Base.Panic.{expect_failed}
use ferri_os.Memory.{Memory}
use ferri_os.Memory.Paging.{Paging}
use ferri_os.Process.{Process}
use ferri_os.Kernel.{Kernel, process_at, current_pid, with_memory}
use ferri_os.Processes.Effects.{process_at_lem, current_pid_lem, with_memory_lem}
use ferri_os.Heap.{ℤ, grow_process_heap, sbrk}

-- What a successful `sbrk` has done.
record Grown (k : Kernel) (address : ℕ) (k1 : Kernel) : Type 0 where
  pub pid : ℕ
  pub process : Process
  pub pid_is : current_pid k ≡ ok (some pid) k
  pub process_is : get_elem? k.process_table pid ≡ some (some process)
  pub address_is : address ≡ process.heap_size
  pub result : k1 ≡ record k { memory = k1.memory }

moved_on :
    (k ke kf k1 : Kernel)
    → ke ≡ k
    → kf ≡ record ke { memory = kf.memory }
    → k1 ≡ kf
    → k1 ≡ record k { memory = k1.memory }
moved_on k ke kf k1 same grown last = ground arith

sbrk-Grown :
    (x86 : Paging) (n : ℤ) (k : Kernel) {address : ℕ} {k1 : Kernel}
    → sbrk x86 n k ≡ ok address k1
    → Grown k address k1
unfolding sbrk
sbrk-Grown x86 n k {address} {k1} h = >>=-elim current_pid _ k h λ found ka ha h.
    >>=-elim (expect found expect_failed) _ ka h λ pid kb hb h.
      >>=-elim (process_at pid) _ kb h λ entry kc hc h.
        >>=-elim (fail_if (is_none entry) no_process) _ kc h λ _ kd hd h.
          >>=-elim (expect entry expect_failed) _ kd h λ process ke he h.
            >>=-elim (with_memory (grow_process_heap x86 n process)) _ ke h λ _ kf hf h.
              let (a_k, current) = current_pid_lem k ha in
              let (found_is, b_a) = expect_lem found expect_failed ka hb in
              let (entry_is, c_b) = process_at_lem pid kb hc in
              let (_, d_c) = fail_if_lem (is_none entry) no_process kc hd in
              let (process_is, e_d) = expect_lem entry expect_failed kd he in
              let b_k : kb ≡ k = b_a ∙ a_k in
              let same : ke ≡ k = e_d ∙ (d_c ∙ (c_b ∙ b_k)) in
              let grown = with_memory_lem (grow_process_heap x86 n process) ke hf in
              let last : k1 ≡ kf = cc in
              record {
                pid = pid;
                process = process;
                pid_is = current ∙ λ i. ok (found_is i) k;
                process_is = rw b_k at entry_is ∙ ap some process_is;
                address_is = cc;
                result = moved_on k ke kf k1 same grown last;
              }

current_pid-same :
    (k k1 : Kernel) (m : Memory) {pid pid1 : ℕ}
    → k1 ≡ record k { memory = m }
    → current_pid k ≡ ok (some pid) k
    → current_pid k1 ≡ ok (some pid1) k1
    → pid1 ≡ pid
unfolding current_pid
current_pid-same k k1 m e h h1 = ground arith

same_process :
    {x : Option (Option Process)} {p q : Process} → x ≡ some (some p) → x ≡ some (some q) → q ≡ p
same_process h e = cc

-- A successful `sbrk` returns the heap size that the caller's process has in the table, whatever `n` is,
-- and changes nothing outside physical memory: the table keeps that heap size, so the next
-- successful call returns the same address.
pub sbrk-again :
    (x86 : Paging) (n n' : ℤ) (k : Kernel) {address address' : ℕ} {k1 k2 : Kernel}
    → sbrk x86 n k ≡ ok address k1
    → sbrk x86 n' k1 ≡ ok address' k2
    → (k1 ≡ record k { memory = k1.memory })
      × (pid : ℕ) × (process : Process) × (current_pid k ≡ ok (some pid) k)
      × (get_elem? k.process_table pid ≡ some (some process))
      × (address ≡ process.heap_size)
      × (address' ≡ address)
sbrk-again x86 n n' k {address} {address'} {k1} {k2} h h' =
    let g = sbrk-Grown x86 n k h in
    let g' = sbrk-Grown x86 n' k1 h' in
    let pid : g'.pid ≡ g.pid = current_pid-same k k1 k1.memory g.result g.pid_is g'.pid_is in
    let table : k1.process_table ≡ k.process_table = ap (λ k. k.process_table) g.result in
    let process : g'.process ≡ g.process =
      same_process g.process_is (rw (table, pid) at g'.process_is) in
    (
      g.result,
      g.pid,
      g.process,
      g.pid_is,
      g.process_is,
      g.address_is,
      g'.address_is ∙ (ap (λ p. p.heap_size) process ∙ sym g.address_is),
    )
