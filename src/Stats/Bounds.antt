-- ===== src/Stats/Bounds.antt =====
-- Which exits index an array of the storage outside its bounds.
use hvpp.Prelude.{
  ℕ, ◌+◌, ◌<◌, ◌≡◌, refl, ap, ◌∙◌, Bool, true, false, not, Option, none, some, ltb, leb,
  if◌then◌else◌, arith, sym, Bool-cases, inl, inr, lt→ltb, u32, to_bit,
}
use hvpp.Ept.Rebuild.{◌>>=◌}
use hvpp.Vmexit.{CrAccess, DrAccess}
use hvpp.Vmexit.Reason.{ExitReason, code}
use hvpp.Vmexit.Table.{handlers}
use hvpp.Vmexit.Dispatch.{is_listed, handle-method_of}
use hvpp.Emulate.{IoAccess}
use hvpp.Stats.{
  Array, Exit, Storage, size, detail, increment, increment_detail, handle, cpuid, msr, mov_cr,
  mov_dr, io, put, vmexit, break_if, break_detail, break_handle,
}

-- The widths of the fields that the processor reports.
pub record IsReported (e : Exit) : Type 0 where
  pub vector_lt : e.vector < 256
  pub cr_number_lt : e.cr_number < 16
  pub dr_number_lt : e.dr_number < 8
  pub port_number_lt : e.port_number < 65536
  pub instruction_lt : e.instruction < 4

-- A reason that is not in the enumeration, and a move to or from CR8 and above.
abbrev pub overruns : ExitReason → CrAccess → ℕ → Bool
overruns ExitReason.mov_cr CrAccess.access_to_cr number = leb 8 number
overruns ExitReason.mov_cr CrAccess.access_from_cr number = leb 8 number
overruns (ExitReason.unlisted n) a number = true
overruns r a number = false

abbrev pub is_some {ℓ} : {A : Type ℓ} → Option A → Bool
is_some none = false
is_some (some a) = true

-- Whether a counter lies in its array.
abbrev pub inside : Option (Array × ℕ) → Bool
inside none = true
inside (some (a, i)) = ltb i (size a)

cpuid_inside : (eax : ℕ) → inside (some (cpuid eax)) ≡ true
unfolding cpuid size
cpuid_inside eax = ground arith

rdmsr_inside :
    (ecx : ℕ) → inside (some (msr Array.rdmsr_0 Array.rdmsr_c Array.rdmsr_other ecx)) ≡ true
unfolding msr size
rdmsr_inside ecx = ground arith

wrmsr_inside :
    (ecx : ℕ) → inside (some (msr Array.wrmsr_0 Array.wrmsr_c Array.wrmsr_other ecx)) ≡ true
unfolding msr size
wrmsr_inside ecx = ground arith

mov_cr_inside :
    (a : CrAccess) (n : ℕ) → inside (some (mov_cr a n)) ≡ not (overruns ExitReason.mov_cr a n)
unfolding mov_cr size
mov_cr_inside CrAccess.access_to_cr n = ground arith
mov_cr_inside CrAccess.access_from_cr n = ground arith
mov_cr_inside CrAccess.access_clts n = refl
mov_cr_inside CrAccess.access_lmsw n = refl

mov_dr_inside : (a : DrAccess) (n : ℕ) → n < 8 → inside (some (mov_dr a n)) ≡ true
unfolding mov_dr size
mov_dr_inside DrAccess.access_to_dr n h = ground arith
mov_dr_inside DrAccess.access_from_dr n h = ground arith

io_inside : (a : IoAccess) (n : ℕ) → n < 65536 → inside (some (io a n)) ≡ true
unfolding io size
io_inside IoAccess.access_out n h = ground arith
io_inside IoAccess.access_in n h = ground arith

-- The second counter of an exit whose reason is listed.
pub detail_inside :
    (r : ExitReason) (e : Exit)
    → IsReported e
    → is_listed r ≡ true
    → inside (detail r e) ≡ not (overruns r e.cr_access e.cr_number)
unfolding detail size
detail_inside ExitReason.exception_or_nmi e h l = lt→ltb e.vector 256 h.vector_lt
detail_inside ExitReason.external_interrupt e h l = lt→ltb e.vector 256 h.vector_lt
detail_inside ExitReason.execute_cpuid e h l = cpuid_inside e.eax
detail_inside ExitReason.mov_cr e h l = mov_cr_inside e.cr_access e.cr_number
detail_inside ExitReason.mov_dr e h l = mov_dr_inside e.dr_access e.dr_number h.dr_number_lt
detail_inside ExitReason.execute_io_instruction e h l =
    io_inside e.io_access e.port_number h.port_number_lt
detail_inside ExitReason.execute_rdmsr e h l = rdmsr_inside e.ecx
detail_inside ExitReason.execute_wrmsr e h l = wrmsr_inside e.ecx
detail_inside ExitReason.gdtr_idtr_access e h l = lt→ltb e.instruction 4 h.instruction_lt
detail_inside ExitReason.ldtr_tr_access e h l = lt→ltb e.instruction 4 h.instruction_lt
detail_inside (ExitReason.unlisted n) e h l = absurd (ground (arith, l))
detail_inside r e h l = refl

code_inside : (r : ExitReason) → is_listed r ≡ true → ltb (code r) (size vmexit) ≡ true
unfolding size handlers
code_inside r l = (handle-method_of r).1 ∙ l

code_outside : (r : ExitReason) → is_listed r ≡ false → ltb (code r) (size vmexit) ≡ false
unfolding size handlers
code_outside r l = (handle-method_of r).1 ∙ l

-- No move overruns, and a reason that is not listed does.
pub overruns-is_listed :
    (r : ExitReason) (a : CrAccess) (n : ℕ) → is_listed r ≡ false → overruns r a n ≡ true
overruns-is_listed (ExitReason.unlisted m) a n l = refl
overruns-is_listed r a n l = absurd (ground (arith, l))

increment_inside :
    (s : Storage ℕ) (c : Option (Array × ℕ)) → is_some (increment_detail s c) ≡ inside c
unfolding increment_detail increment
increment_inside s none = refl
increment_inside s (some (a, i)) = ground arith

break_inside : (s : Storage Bool) (c : Option (Array × ℕ)) → is_some (break_detail s c) ≡ inside c
unfolding break_detail break_if
break_inside s none = refl
break_inside s (some (a, i)) = ground arith

is_some-bind {ℓ κ} :
    {A : Type ℓ} {B : Type κ} (m : Option A) (f : A → B)
    → is_some (m >>= λ a. some (f a)) ≡ is_some m
is_some-bind none f = refl
is_some-bind (some a) f = refl

-- For a listed reason the first counter is inside, so the test of its bounds falls away.
pub handle-detail :
    (s : Storage ℕ) (e : Exit)
    → is_listed e.reason ≡ true
    → handle s e
      ≡ increment_detail
          (put s vmexit (code e.reason) (u32 (s vmexit (code e.reason) + 1)))
          (detail e.reason e)
unfolding handle increment
handle-detail s e l =
    ap
      (λ b.
        (if b
          then some (put s vmexit (code e.reason) (u32 (s vmexit (code e.reason) + 1)))
          else none)
        >>= λ s'. increment_detail s' (detail e.reason e))
      (code_inside e.reason l)

pub break_handle-detail :
    (t : Storage Bool) (e : Exit)
    → is_listed e.reason ≡ true
    → break_handle t e ≡ (
        break_detail (put t vmexit (code e.reason) false) (detail e.reason e) >>= λ r.
        some (r.0, to_bit (t vmexit (code e.reason)) + r.1))
unfolding break_handle break_if
break_handle-detail t e l =
    ap
      (λ b.
        ◌>>=◌ {A = Storage Bool × ℕ}
          (if b
            then some (put t vmexit (code e.reason) false, to_bit (t vmexit (code e.reason)))
            else none)
          (λ r.
            ◌>>=◌ {A = Storage Bool × ℕ} (break_detail r.0 (detail e.reason e))
              (λ q. some (q.0, r.1 + q.1))))
      (code_inside e.reason l)

handle-unlisted : (s : Storage ℕ) (e : Exit) → is_listed e.reason ≡ false → handle s e ≡ none
unfolding handle increment
handle-unlisted s e l =
    ap
      (λ b.
        (if b
          then some (put s vmexit (code e.reason) (u32 (s vmexit (code e.reason) + 1)))
          else none)
        >>= λ s'. increment_detail s' (detail e.reason e))
      (code_outside e.reason l)

pub break_handle-unlisted :
    (t : Storage Bool) (e : Exit) → is_listed e.reason ≡ false → break_handle t e ≡ none
unfolding break_handle break_if
break_handle-unlisted t e l =
    ap
      (λ b.
        ◌>>=◌ {A = Storage Bool × ℕ}
          (if b
            then some (put t vmexit (code e.reason) false, to_bit (t vmexit (code e.reason)))
            else none)
          (λ r.
            ◌>>=◌ {A = Storage Bool × ℕ} (break_detail r.0 (detail e.reason e))
              (λ q. some (q.0, r.1 + q.1))))
      (code_outside e.reason l)

-- Counting an exit indexes every array inside its bounds, but for two kinds of exit: a reason above 64,
-- which is behind the array of 65, and a move to or from a control register above 7, such as CR8,
-- whose number indexes an array of 8. So it is with the flags of the breakpoints.
pub handle_bounds :
    (s : Storage ℕ) (t : Storage Bool) (e : Exit)
    → IsReported e
    → (is_some (handle s e) ≡ not (overruns e.reason e.cr_access e.cr_number))
      × (is_some (break_handle t e) ≡ not (overruns e.reason e.cr_access e.cr_number))
handle_bounds s t e h = elim (Bool-cases (is_listed e.reason)) [
  | inl l ↦
      let counted = put s vmexit (code e.reason) (u32 (s vmexit (code e.reason) + 1)) in
      let cleared = put t vmexit (code e.reason) false in
      (
        ap is_some (handle-detail s e l)
            ∙ increment_inside counted (detail e.reason e)
            ∙ detail_inside e.reason e h l,
        ap is_some (break_handle-detail t e l)
            ∙ is_some-bind (break_detail cleared (detail e.reason e))
                (λ r. (r.0, to_bit (t vmexit (code e.reason)) + r.1))
            ∙ break_inside cleared (detail e.reason e)
            ∙ detail_inside e.reason e h l,
      )
  | inr l ↦
      let over = overruns-is_listed e.reason e.cr_access e.cr_number l in
      (
        ap is_some (handle-unlisted s e l) ∙ ap not (sym over),
        ap is_some (break_handle-unlisted t e l) ∙ ap not (sym over),
      )
]
