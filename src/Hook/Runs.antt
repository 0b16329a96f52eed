-- ===== src/Hook/Runs.antt =====
-- Any sequence of EPT violations that src/hvppdrv/vmexit_custom.cpp handles.
use hvpp.Prelude.{
  ℕ, ◌+◌, ◌/◌, ◌^◌, ◌<◌, ◌≡◌, refl, Bool, true, false, ◌==◌, Option, List, [], ◌∷◌, length,
  if◌then◌else◌, ◌∙◌, arith, ap,
}
use mathlib.Core.Path.{subst}
use hvpp.Ept.{Host}
use hvpp.Ept.Translate.{view}
use hvpp.Hook.{Data, Violation, handle_ept_violation}
use hvpp.Hook.Steps.{IsHooked, after_violation, handle_ept_violation_lem}

-- The first violation of the list comes first.
pub handle_all : Host → Data → List Violation → Data
handle_all host d [] = d
handle_all host d (v ∷ vs) = handle_all host (handle_ept_violation host d v) vs

-- The view of an address of the hooked page after the violations: the last one that reads, writes or
-- executes decides.
abbrev pub after_all : Data → List Violation → ℕ → Option (ℕ × ℕ) → Option (ℕ × ℕ)
after_all d [] b old = old
after_all d (v ∷ vs) b old = after_all d vs b (after_violation d v b old)

-- Handling a violation keeps the two pages.
after_all-handle_ept_violation :
    (host : Host) (d : Data) (v : Violation) (vs : List Violation) (b : ℕ) (old : Option (ℕ × ℕ))
    → after_all (handle_ept_violation host d v) vs b old ≡ after_all d vs b old
unfolding handle_ept_violation
after_all-handle_ept_violation host d v [] b old = refl
after_all-handle_ept_violation host d v (w ∷ ws) b old =
    after_all-handle_ept_violation host d v ws b (after_violation d w b old)

if-chain {ℓ} :
    {A : Type ℓ} (c : Bool) (x y z w : A) (f : A → A)
    → x ≡ (if c then f y else y)
    → y ≡ (if c then z else w)
    → x ≡ (if c then f z else w)
if-chain true x y z w f e q = e ∙ ap f q
if-chain false x y z w f e q = e ∙ q

if-same {ℓ} : {A : Type ℓ} (c : Bool) (x : A) → x ≡ (if c then x else x)
if-same true x = refl
if-same false x = refl

-- In data that are ready for them and `n` more, however many violations there are, and in whatever
-- order, the guest's view below 2 ^ 48 changes in the hooked page alone, as each violation says in
-- turn, and the data are ready for `n` more.
pub handle_all_lem :
    (host : Host) (d : Data) (vs : List Violation) (n b : ℕ)
    → IsHooked host (length vs + n) d
    → b < 2 ^ 48
    → IsHooked host n (handle_all host d vs)
      × (view host (handle_all host d vs).ept b ≡ (
          if b / 2 ^ 12 == d.page_exec / 2 ^ 12
          then after_all d vs b (view host d.ept b)
          else view host d.ept b))
unfolding handle_all handle_ept_violation
handle_all_lem host d [] n b h b_lt = (
  subst (λ m. IsHooked host m d) (omega arith) h,
  if-same (b / 2 ^ 12 == d.page_exec / 2 ^ 12) (view host d.ept b),
)
handle_all_lem host d (v ∷ vs) n b h b_lt =
    let first =
      handle_ept_violation_lem host d v (length vs + n) b
        (subst (λ m. IsHooked host m d) (omega arith) h) b_lt in
    let rest = handle_all_lem host (handle_ept_violation host d v) vs n b first.0 b_lt in
    (
      rest.0,
      if-chain (b / 2 ^ 12 == d.page_exec / 2 ^ 12)
          (view host (handle_all host (handle_ept_violation host d v) vs).ept b)
          (view host (handle_ept_violation host d v).ept b)
          (after_violation d v b (view host d.ept b)) (view host d.ept b) (after_all d vs b)
          (rest.1
            ∙ ap
                (λ o.
                  if b / 2 ^ 12 == d.page_exec / 2 ^ 12
                  then o
                  else view host (handle_ept_violation host d v).ept b)
                (after_all-handle_ept_violation host d v vs b
                  (view host (handle_ept_violation host d v).ept b)))
          first.2,
    )
