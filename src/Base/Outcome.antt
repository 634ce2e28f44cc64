-- ===== src/Base/Outcome.antt =====
-- How kernel code ends: `Ok`, `Err`, or a panic. The state after an `Err` is kept, since the
-- code does not undo what it did before the error.
use Prim.Native.Nat.{ℕ, zero, suc, ◌+◌}
use mathlib.Core.Path.{◌≡◌, refl}
use mathlib.Core.Option.{Option, none, some}
use mathlib.Core.Bool.{Bool, true, false}

-- The `&'static str` of an `Err`, a constructor for each message of the code.
pub data Error : Type 0 where
  thread_table_is_full process_table_is_full too_many_threads_in_process : Error
  tid_gt_nthread tid_ge_nthread thread_does_not_belong_to_process : Error
  cannot_free_cr3_active_page_table no_process init_exiting : Error
  no_child_process this_process_has_killed no_trapframe program_not_found : Error
  huge_pages_not_supported page_table_entry_not_present allocating_frame_failed : Error
  size_overflow newsz_is_outside_user_space frame_alloc_failed page_table_alloc_failed : Error
  page_is_already_mapped address_overflow frame_allocator_not_initialized : Error
  failed_to_allocate_pdpt_frame failed_to_allocate_pd_frame failed_to_allocate_pt_frame : Error
  failed_to_allocate_data_frame null_argument_pointer argument_is_too_long : Error
  too_many_arguments : Error
  exec_program_not_found invalid_elf_image elf_header_is_truncated bad_elf_magic : Error
  unsupported_elf_class unsupported_elf_target unexpected_program_header_size : Error
  program_header_overflow truncated_program_header invalid_load_segment_sizes : Error
  segment_overflow truncated_load_segment invalid_segment_address heap_size_overflow : Error
  exec_address_is_not_mapped exec_address_is_not_present argument_overflow stack_overflow : Error
  stack_size_overflow guard_page_overflow argv_overflow map_page_frame_alloc_failed : Error
  map_to_failed page_offset_overflow virtual_address_overflow no_current_thread_id : Error
  no_current_process_id process_table_entry_missing thread_table_entry_missing : Error
  exec_no_trapframe null_pointer process_not_found no_page_table : Error
  address_is_not_mapped address_is_not_present address_is_not_user_accessible : Error
  address_is_not_writable : Error

-- What stops the machine: a failed `expect` or index, an overflow that the dev profile checks, or a
-- `panic!` of the code. `out_of_fuel` is the model's own, for a loop that is cut off.
pub data Panic : Type 0 where
  index_out_of_bounds expect_failed arithmetic_overflow : Panic
  scheduler_already_started thread_is_not_running no_pid capacity_overflow : Panic
  address_is_not_canonical zombie_exit out_of_fuel : Panic
  assertion_failed unwrap_failed exit_returned huge_page_in_walk : Panic

pub data Ret (S A : Type 0) : Type 0 where
  ok : A → S → Ret S A
  err : Error → S → Ret S A
  panic : Panic → Ret S A

-- Code over a state `S` that returns an `A`.
abbrev pub Act : Type 0 → Type 0 → Type 0
Act S A = S → Ret S A

infixl 5 ◌>>=◌ ◌>>◌
abbrev pub ◌>>=◌ : {S A B : Type 0} → Act S A → (A → Act S B) → Act S B
◌>>=◌ m f s = elim (m s) [ ok a t ↦ f a t | err e t ↦ err e t | panic p ↦ panic p ]

abbrev pub ◌>>◌ : {S A B : Type 0} → Act S A → Act S B → Act S B
m >> k = m >>= λ _. k

abbrev pub pure : {S A : Type 0} → A → Act S A
pure a s = ok a s

abbrev pub throw : {S A : Type 0} → Error → Act S A
throw e s = err e s

abbrev pub fault : {S A : Type 0} → Panic → Act S A
fault p s = panic p

abbrev pub get : {S : Type 0} → Act S S
get s = ok s s

abbrev pub put : {S : Type 0} → S → Act S (Unit {0})
put t s = ok tt t

-- `.ok_or(e)?`
abbrev pub ok_or : {S A : Type 0} → Option A → Error → Act S A
ok_or none e s = err e s
ok_or (some a) e s = ok a s

-- `.expect(..)` and an index into an array.
abbrev pub expect : {S A : Type 0} → Option A → Panic → Act S A
expect none p s = panic p
expect (some a) p s = ok a s

-- `if c { return Err(e) }`
abbrev pub fail_if : {S : Type 0} → Bool → Error → Act S (Unit {0})
fail_if true e s = err e s
fail_if false e s = ok tt s

abbrev pub when : {S : Type 0} → Bool → Act S (Unit {0}) → Act S (Unit {0})
when true m s = m s
when false m s = ok tt s

-- `for i in a..a + n { body(i)? }`
unfoldable pub for_range : {S : Type 0} → ℕ → ℕ → (ℕ → Act S (Unit {0})) → Act S (Unit {0})
for_range zero i body s = ok tt s
for_range (suc n) i body s = elim (body i s) [
  | ok _ t ↦ for_range n (i + 1) body t
  | err e t ↦ err e t
  | panic p ↦ panic p
]

Ret-bind_elim {ℓ} :
    {S A B : Type 0} {P : Type ℓ} (r : Ret S A) (f : A → Act S B) {b : B} {t : S}
    → elim r [ ok a u ↦ f a u | err e u ↦ err e u | panic p ↦ panic p ] ≡ ok b t
    → ((a : A) (u : S) → r ≡ ok a u → f a u ≡ ok b t → P)
    → P
Ret-bind_elim (ok a u) f h k = k a u refl h
Ret-bind_elim (err e u) f h k = absurd (cc)
Ret-bind_elim (panic p) f h k = absurd (cc)

-- A bind that succeeds, taken apart.
pub >>=-elim {ℓ} :
    {S A B : Type 0} {P : Type ℓ} (m : Act S A) (f : A → Act S B) (s : S) {b : B} {t : S}
    → (m >>= f) s ≡ ok b t
    → ((a : A) (u : S) → m s ≡ ok a u → f a u ≡ ok b t → P)
    → P
>>=-elim m f s h k = Ret-bind_elim (m s) f h k

Ret-bind_err {ℓ} :
    {S A B : Type 0} {P : Type ℓ} (r : Ret S A) (f : A → Act S B) {e : Error} {t : S}
    → elim r [ ok a u ↦ f a u | err e u ↦ err e u | panic p ↦ panic p ] ≡ err e t
    → (r ≡ err e t → P)
    → ((a : A) (u : S) → r ≡ ok a u → f a u ≡ err e t → P)
    → P
Ret-bind_err (ok a u) f h fails k = k a u refl h
Ret-bind_err (err e u) f h fails k = fails (cc)
Ret-bind_err (panic p) f h fails k = absurd (cc)

-- A bind that fails, taken apart: its first part fails or its second.
pub >>=-err {ℓ} :
    {S A B : Type 0} {P : Type ℓ} (m : Act S A) (f : A → Act S B) (s : S) {e : Error} {t : S}
    → (m >>= f) s ≡ err e t
    → (m s ≡ err e t → P)
    → ((a : A) (u : S) → m s ≡ ok a u → f a u ≡ err e t → P)
    → P
>>=-err m f s h fails k = Ret-bind_err (m s) f h fails k

-- A result that is not the panic of a loop without fuel.
abbrev pub IsFueled : {S A : Type 0} → Ret S A → Type 0
IsFueled r = ¬ (r ≡ panic out_of_fuel)

pub ok-IsFueled : {S A : Type 0} {a : A} {s : S} → IsFueled (ok a s)
ok-IsFueled h = cc

pub ok_or-IsFueled : {S A : Type 0} (o : Option A) (e : Error) (s : S) → IsFueled (ok_or o e s)
ok_or-IsFueled none e s h = cc
ok_or-IsFueled (some a) e s h = cc

pub fail_if-IsFueled : {S : Type 0} (b : Bool) (e : Error) (s : S) → IsFueled (fail_if b e s)
fail_if-IsFueled true e s h = cc
fail_if-IsFueled false e s h = cc

Ret-bind-IsFueled :
    {S A B : Type 0} (r : Ret S A) (f : A → Act S B)
    → IsFueled r
    → ((a : A) (t : S) → r ≡ ok a t → IsFueled (f a t))
    → IsFueled {S = S} {A = B}
        (elim r as (λ _. Ret S B) [ ok a u ↦ f a u | err e u ↦ err e u | panic p ↦ panic p ])
Ret-bind-IsFueled (ok a t) f h rest e = rest a t refl e
Ret-bind-IsFueled (err c t) f h rest e = cc
Ret-bind-IsFueled (panic p) f h rest e = h (cc)

pub bind-IsFueled :
    {S A B : Type 0} (m : Act S A) (f : A → Act S B) (s : S)
    → IsFueled (m s)
    → ((a : A) (t : S) → m s ≡ ok a t → IsFueled (f a t))
    → IsFueled ((m >>= f) s)
bind-IsFueled m f s h rest = Ret-bind-IsFueled (m s) f h rest

-- A bind whose first part is known.
pub >>=-ok :
    {S A B : Type 0} (m : Act S A) (f : A → Act S B) (s : S) {a : A} {t : S}
    → m s ≡ ok a t
    → (m >>= f) s ≡ f a t
>>=-ok m f s h = λ i. elim (h i) [ ok a u ↦ f a u | err e u ↦ err e u | panic p ↦ panic p ]

pub >>=-panic :
    {S A B : Type 0} (m : Act S A) (f : A → Act S B) (s : S) {p : Panic}
    → m s ≡ panic p
    → (m >>= f) s ≡ panic p
>>=-panic m f s h = λ i. elim (h i) [ ok a u ↦ f a u | err e u ↦ err e u | panic p ↦ panic p ]

pub ok_or_err :
    {S A : Type 0} (o : Option A) (c : Error) (s : S) {e : Error} {t : S}
    → ok_or o c s ≡ err e t
    → t ≡ s
ok_or_err none c s h = cc
ok_or_err (some a) c s h = cc

pub expect_lem :
    {S A : Type 0} (o : Option A) (p : Panic) (s : S) {a : A} {t : S}
    → expect o p s ≡ ok a t
    → (o ≡ some a) × (t ≡ s)
expect_lem none p s h = cc
expect_lem (some a) p s h = (cc, cc)

pub ok_or_lem :
    {S A : Type 0} (o : Option A) (e : Error) (s : S) {a : A} {t : S}
    → ok_or o e s ≡ ok a t
    → (o ≡ some a) × (t ≡ s)
ok_or_lem none e s h = cc
ok_or_lem (some a) e s h = (cc, cc)

pub fail_if_lem :
    {S : Type 0} (b : Bool) (e : Error) (s : S) {t : S}
    → fail_if b e s ≡ ok tt t
    → (b ≡ false) × (t ≡ s)
fail_if_lem true e s h = cc
fail_if_lem false e s h = (refl, cc)
