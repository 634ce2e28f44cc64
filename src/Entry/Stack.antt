-- ===== src/Entry/Stack.antt =====
-- kernel/src/syscall/mod.rs, `syscall_entry`: a list of registers that is pushed and popped.
use ferri_os.Base.{
  ℕ, suc, ◌+◌, ◌*◌, ◌^◌, ◌≤◌, ◌<◌, ◌≡◌, refl, sym, ap, ◌∙◌, Bool, true, false, List, [], ◌∷◌, ◌++◌,
  map, arith, length,
}
use ferri_os.Thread.TrapFrame.{Words, store, store_all}
use ferri_os.Entry.RegisterFile.{Reg, Registers, read, write}
use ferri_os.Entry.Machine.{Instruction, Core, Processor, add_word, sub_word, push_word, run}
use ferri_os.Entry.Machine.Instruction.{push, pop}

store-store : (m : Words) (a b v w : ℕ) → a < b → store (store m b w) a v ≡ store (store m a v) b w
store-store m a b v w h = λ i x. at x i
  where
    at : (x : ℕ) → store (store m b w) a v x ≡ store (store m a v) b w x
    at x = ground arith

store_all-store :
    (ws : List ℕ) (m : Words) (b a w : ℕ)
    → b + 8 * length ws ≤ a
    → store_all (store m a w) b ws ≡ store (store_all m b ws) a w
unfolding store_all
store_all-store [] m b a w h = refl
store_all-store (v ∷ ws) m b a w h =
    ap (λ m. store_all m (b + 8) ws) (store-store m b a v w (omega arith))
    ∙ store_all-store ws (store m b v) (b + 8) a w (omega arith)

store_all-snoc :
    (ws : List ℕ) (m : Words) (b w : ℕ)
    → store_all m b (ws ++ (w ∷ [])) ≡ store (store_all m b ws) (b + 8 * length ws) w
unfolding store_all
store_all-snoc [] m b w = ap (λ a. store m a w) here
  where
    here : b ≡ b + 8 * 0
    here = omega arith
store_all-snoc (v ∷ ws) m b w =
    store_all-snoc ws (store m b v) (b + 8) w
    ∙ ap (λ a. store (store_all (store m b v) (b + 8) ws) a w) next
  where
    next : b + 8 + 8 * length ws ≡ b + 8 * suc (length ws)
    next = omega arith

pub add_word_lem : (a b : ℕ) → a + b < 2 ^ 64 → add_word a b ≡ a + b
add_word_lem a b h = ground arith

sub_word_lem : (a b : ℕ) → sub_word (a + b) b ≡ a
sub_word_lem a b = ground arith

-- A register that is not the stack pointer.
abbrev pub is_rsp : Reg → Bool
is_rsp Reg.rsp = true
is_rsp r = false

off_stack :
    (r : Reg) (v : ℕ) (regs : Registers)
    → is_rsp r ≡ false
    → (read r (record regs { rsp = v }) ≡ read r regs) × ((write r v regs).rsp ≡ regs.rsp)
off_stack Reg.rax v regs off = (refl, refl)
off_stack Reg.rbx v regs off = (refl, refl)
off_stack Reg.rcx v regs off = (refl, refl)
off_stack Reg.rdx v regs off = (refl, refl)
off_stack Reg.rsi v regs off = (refl, refl)
off_stack Reg.rdi v regs off = (refl, refl)
off_stack Reg.rbp v regs off = (refl, refl)
off_stack Reg.rsp v regs off = cc
off_stack Reg.r8 v regs off = (refl, refl)
off_stack Reg.r9 v regs off = (refl, refl)
off_stack Reg.r10 v regs off = (refl, refl)
off_stack Reg.r11 v regs off = (refl, refl)
off_stack Reg.r12 v regs off = (refl, refl)
off_stack Reg.r13 v regs off = (refl, refl)
off_stack Reg.r14 v regs off = (refl, refl)
off_stack Reg.r15 v regs off = (refl, refl)

abbrev pub AllOffStack : List Reg → Type 0
AllOffStack [] = Unit {0}
AllOffStack (r ∷ rs) = (is_rsp r ≡ false) × AllOffStack rs

-- The words that a list of pushes leaves, from the lowest address on.
abbrev pub pushed : List Reg → Registers → List ℕ
pushed [] regs = []
pushed (r ∷ rs) regs = pushed rs regs ++ (read r regs ∷ [])

abbrev pub moved : ℕ → Words → Core → Core
moved sp words c = record c {
  regs = record c.regs { rsp = sp };
  kernel = record c.kernel { words = words };
}

length-snoc : (ws : List ℕ) (w : ℕ) → length (ws ++ (w ∷ [])) ≡ suc (length ws)
length-snoc [] w = refl
length-snoc (v ∷ ws) w = ap suc (length-snoc ws w)

length-pushed : (rs : List Reg) (regs : Registers) → length (pushed rs regs) ≡ length rs
length-pushed [] regs = refl
length-pushed (r ∷ rs) regs =
    length-snoc (pushed rs regs) (read r regs) ∙ ap suc (length-pushed rs regs)

pushed-rsp :
    (rs : List Reg) (v : ℕ) (regs : Registers)
    → AllOffStack rs
    → pushed rs (record regs { rsp = v }) ≡ pushed rs regs
pushed-rsp [] v regs off = refl
pushed-rsp (r ∷ rs) v regs (here, off) =
    λ i. pushed-rsp rs v regs off i ++ ((off_stack r v regs here).0 i ∷ [])

pub push_word_lem :
    (v b : ℕ) (c : Core) → c.regs.rsp ≡ b + 8 → push_word v c ≡ moved b (store c.kernel.words b v) c
push_word_lem v b c e =
    let sp : sub_word c.regs.rsp 8 ≡ b = rw e (sub_word_lem b 8) in
    λ i. moved (sp i) (store c.kernel.words (sp i) v) c

-- A list of pushes that ends at `b`.
pub run-pushes :
    (p : Processor) (rs : List Reg) (rest : List Instruction) (b : ℕ) (c : Core)
    → AllOffStack rs
    → c.regs.rsp ≡ b + 8 * length rs
    → run p (map push rs ++ rest) c
      ≡ run p rest (moved b (store_all c.kernel.words b (pushed rs c.regs)) c)
unfolding store_all
run-pushes p [] rest b c off e =
    let sp : c.regs.rsp ≡ b = e ∙ omega arith in λ i. run p rest (moved (sp i) c.kernel.words c)
run-pushes p (r ∷ rs) rest b c (here, off) e =
    let v = read r c.regs in
    let a = b + 8 * length rs in
    let w = c.kernel.words in
    ap (λ c. run p (map push rs ++ rest) c) (push_word_lem v a c (e ∙ omega arith))
    ∙ run-pushes p rs rest b (moved a (store w a v) c) off refl
    ∙ ap (λ ws. run p rest (moved b (store_all (store w a v) b ws) c)) (pushed-rsp rs a c.regs off)
    ∙ ap (λ m. run p rest (moved b m c)) (above v w (pushed rs c.regs) (length-pushed rs c.regs))
  where
    above :
        (v : ℕ) (w : Words) (ws : List ℕ)
        → length ws ≡ length rs
        → store_all (store w (b + 8 * length rs) v) b ws ≡ store_all w b (ws ++ (v ∷ []))
    above v w ws e =
        store_all-store ws w b (b + 8 * length rs) v (omega arith)
        ∙ ap (λ n. store (store_all w b ws) (b + 8 * n) v) (sym e)
        ∙ sym (store_all-snoc ws w b v)

-- The registers that a list of pops leaves, from word `i` of the stack at `b` on.
abbrev pub popped : List Reg → Words → ℕ → ℕ → Registers → Registers
popped [] m b i regs = regs
popped (r ∷ rs) m b i regs =
    popped rs m b (suc i) (write r (m (b + 8 * i)) (record regs { rsp = b + 8 * suc i }))

pub run-pops :
    (p : Processor) (rs : List Reg) (rest : List Instruction) (b i : ℕ) (c : Core)
    → AllOffStack rs
    → c.regs.rsp ≡ b + 8 * i
    → b + 8 * (i + length rs) < 2 ^ 64
    → run p (map pop rs ++ rest) c
      ≡ run p rest (record c { regs = popped rs c.kernel.words b i c.regs })
run-pops p [] rest b i c off e fits = refl
run-pops p (r ∷ rs) rest b i c (here, off) e fits =
    let m = c.kernel.words in
    let next : add_word c.regs.rsp 8 ≡ b + 8 * suc i = next c.regs.rsp e in
    let regs = record c.regs { rsp = b + 8 * suc i } in
    let c1 = record c { regs = write r (m (b + 8 * i)) regs } in
    (λ k.
      run p (map pop rs ++ rest)
        (record c { regs = write r (m (e k)) (record c.regs { rsp = next k }) }))
    ∙ run-pops p rs rest b (suc i) c1 off (off_stack r (m (b + 8 * i)) regs here).1 (omega arith)
  where
    next : (sp : ℕ) → sp ≡ b + 8 * i → add_word sp 8 ≡ b + 8 * suc i
    next sp e = add_word_lem sp 8 (omega arith) ∙ omega arith
