-- ===== src/Thread/TrapFrame.antt =====
-- kernel/src/thread/trapframe.rs: a trap frame as 14 words of kernel memory.
use ferri_os.Base.{
  ℕ, zero, suc, ◌+◌, ◌*◌, ◌≤◌, ◌<◌, ◌≡◌, refl, ◌⊎◌, inl, inr, List, [], ◌∷◌, arith, ◌==◌,
  if◌then◌else◌, length,
}

-- Kernel memory by the address of each word.
abbrev pub Words : Type 0
Words = ℕ → ℕ

pub record TrapFrame : Type 0 where
  pub r15 : ℕ
  pub r14 : ℕ
  pub r13 : ℕ
  pub r12 : ℕ
  pub rbp : ℕ
  pub rbx : ℕ
  pub rdx : ℕ
  pub rsi : ℕ
  pub rdi : ℕ
  pub rax : ℕ
  pub r11 : ℕ
  pub rcx : ℕ
  pub rip : ℕ
  pub rsp : ℕ

-- `size_of::<TrapFrame>()`
abbrev pub trap_frame_size : ℕ
trap_frame_size = 112

-- `TrapFrame::new`
abbrev pub new_trap_frame : TrapFrame
new_trap_frame = record {
  r15 = 0;
  r14 = 0;
  r13 = 0;
  r12 = 0;
  rbp = 0;
  rbx = 0;
  rdx = 0;
  rsi = 0;
  rdi = 0;
  rax = 0;
  r11 = 0;
  rcx = 0;
  rip = 0;
  rsp = 0;
}

-- The words in the order of `repr(C)`.
abbrev pub words_of : TrapFrame → List ℕ
words_of t =
    t.r15 ∷ t.r14 ∷ t.r13 ∷ t.r12 ∷ t.rbp ∷ t.rbx ∷ t.rdx ∷ t.rsi ∷ t.rdi ∷ t.rax ∷ t.r11 ∷ t.rcx
    ∷ t.rip ∷ t.rsp ∷ []

-- `*tf`
abbrev pub read_trap_frame : Words → ℕ → TrapFrame
read_trap_frame m p = record {
  r15 = m p;
  r14 = m (p + 8);
  r13 = m (p + 16);
  r12 = m (p + 24);
  rbp = m (p + 32);
  rbx = m (p + 40);
  rdx = m (p + 48);
  rsi = m (p + 56);
  rdi = m (p + 64);
  rax = m (p + 72);
  r11 = m (p + 80);
  rcx = m (p + 88);
  rip = m (p + 96);
  rsp = m (p + 104);
}

-- Word `i` of a list, or what stood there.
abbrev pub word_or : List ℕ → ℕ → ℕ → ℕ
word_or [] i d = d
word_or (w ∷ ws) zero d = w
word_or (w ∷ ws) (suc i) d = word_or ws i d

abbrev pub store : Words → ℕ → ℕ → Words
store m p w a = if a == p then w else m a

unfoldable pub store_all : Words → ℕ → List ℕ → Words
store_all m p [] = m
store_all m p (w ∷ ws) = store_all (store m p w) (p + 8) ws

-- `*tf = t`
pub write_trap_frame : Words → ℕ → TrapFrame → Words
unfolding store_all
write_trap_frame m p t = store_all m p (words_of t)

store_all_below : (m : Words) (p : ℕ) (ws : List ℕ) (a : ℕ) → a < p → store_all m p ws a ≡ m a
unfolding store_all
store_all_below m p [] a h = refl
store_all_below m p (w ∷ ws) a h =
    ground (arith, store_all_below (store m p w) (p + 8) ws a (omega arith))

store_all_above :
    (m : Words) (p : ℕ) (ws : List ℕ) (a : ℕ) → p + 8 * length ws ≤ a → store_all m p ws a ≡ m a
unfolding store_all
store_all_above m p [] a h = refl
store_all_above m p (w ∷ ws) a h =
    ground (arith, store_all_above (store m p w) (p + 8) ws a (omega arith))

-- What lies outside the 112 bytes is kept.
pub write_trap_frame-outside :
    (m : Words) (p : ℕ) (t : TrapFrame) (a : ℕ)
    → (a < p) ⊎ (p + trap_frame_size ≤ a)
    → write_trap_frame m p t a ≡ m a
unfolding write_trap_frame
write_trap_frame-outside m p t a (inl h) = store_all_below m p (words_of t) a h
write_trap_frame-outside m p t a (inr h) = store_all_above m p (words_of t) a h

-- Word `i` after the store of a list.
pub store_all-word :
    (m : Words) (p : ℕ) (ws : List ℕ) (i a : ℕ)
    → a ≡ p + 8 * i
    → store_all m p ws a ≡ word_or ws i (m a)
unfolding store_all
store_all-word m p [] i a e = refl
store_all-word m p (w ∷ ws) zero a e =
    ground (arith, store_all_below (store m p w) (p + 8) ws a (omega arith))
store_all-word m p (w ∷ ws) (suc i) a e =
    ground (arith, store_all-word (store m p w) (p + 8) ws i a (omega arith))

-- A trap frame that is read where one was written is that one.
pub read-write_trap_frame :
    (m : Words) (p : ℕ) (t : TrapFrame) → read_trap_frame (write_trap_frame m p t) p ≡ t
unfolding write_trap_frame
read-write_trap_frame m p t = λ k. record {
  r15 = at 0 p (omega arith) k;
  r14 = at 1 (p + 8) (omega arith) k;
  r13 = at 2 (p + 16) (omega arith) k;
  r12 = at 3 (p + 24) (omega arith) k;
  rbp = at 4 (p + 32) (omega arith) k;
  rbx = at 5 (p + 40) (omega arith) k;
  rdx = at 6 (p + 48) (omega arith) k;
  rsi = at 7 (p + 56) (omega arith) k;
  rdi = at 8 (p + 64) (omega arith) k;
  rax = at 9 (p + 72) (omega arith) k;
  r11 = at 10 (p + 80) (omega arith) k;
  rcx = at 11 (p + 88) (omega arith) k;
  rip = at 12 (p + 96) (omega arith) k;
  rsp = at 13 (p + 104) (omega arith) k;
}
  where
    at : (i a : ℕ) → a ≡ p + 8 * i → store_all m p (words_of t) a ≡ word_or (words_of t) i (m a)
    at i a e = store_all-word m p (words_of t) i a e

-- The trap frame at `a` is the same in two memories that agree on its words.
pub read_trap_frame-eq :
    (w v : Words) (a : ℕ)
    → ((x : ℕ) → a ≤ x → x < a + trap_frame_size → w x ≡ v x)
    → read_trap_frame w a ≡ read_trap_frame v a
read_trap_frame-eq w v a h = λ i. record {
  r15 = h a (omega arith) (omega arith) i;
  r14 = h (a + 8) (omega arith) (omega arith) i;
  r13 = h (a + 16) (omega arith) (omega arith) i;
  r12 = h (a + 24) (omega arith) (omega arith) i;
  rbp = h (a + 32) (omega arith) (omega arith) i;
  rbx = h (a + 40) (omega arith) (omega arith) i;
  rdx = h (a + 48) (omega arith) (omega arith) i;
  rsi = h (a + 56) (omega arith) (omega arith) i;
  rdi = h (a + 64) (omega arith) (omega arith) i;
  rax = h (a + 72) (omega arith) (omega arith) i;
  r11 = h (a + 80) (omega arith) (omega arith) i;
  rcx = h (a + 88) (omega arith) (omega arith) i;
  rip = h (a + 96) (omega arith) (omega arith) i;
  rsp = h (a + 104) (omega arith) (omega arith) i;
}

-- A frame is kept by a store of another frame that does not overlap it.
pub read_trap_frame-apart :
    (w : Words) (a p : ℕ) (t : TrapFrame)
    → (a + trap_frame_size ≤ p) ⊎ (p + trap_frame_size ≤ a)
    → read_trap_frame (write_trap_frame w p t) a ≡ read_trap_frame w a
read_trap_frame-apart w a p t apart = read_trap_frame-eq (write_trap_frame w p t) w a λ x le lt.
    write_trap_frame-outside w p t x
      (elim apart [ inl h ↦ inl (omega arith) | inr h ↦ inr (omega arith) ])
