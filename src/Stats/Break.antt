-- ===== src/Stats/Break.antt =====
-- The flags of the breakpoints are used up.
use hvpp.Prelude.{
  ℕ, ◌+◌, ◌≡◌, refl, ap, sym, ◌∙◌, Bool, true, false, Option, none, some, List, [], ◌∷◌, arith,
  to_bit, Bool-cases, inl, inr,
}
use hvpp.Ept.Rebuild.{◌>>=◌}
use hvpp.Vmexit.Reason.{code}
use hvpp.Vmexit.Dispatch.{is_listed}
use hvpp.Stats.{Array, Exit, Storage, detail, put, vmexit, break_if, break_detail, break_handle}
use hvpp.Stats.Bounds.{inside, break_handle-detail, break_handle-unlisted}

abbrev flag : Option (Array × ℕ) → Storage Bool → Bool
flag none t = false
flag (some (a, i)) t = t a i

abbrev cleared : Option (Array × ℕ) → Storage Bool → Storage Bool
cleared none t = t
cleared (some (a, i)) t = put t a i false

break_detail-inside :
    (t : Storage Bool) (c : Option (Array × ℕ))
    → inside c ≡ true
    → break_detail t c ≡ some (cleared c t, to_bit (flag c t))
unfolding break_detail break_if
break_detail-inside t none h = refl
break_detail-inside t (some (a, i)) h = rw h refl

break_detail-outside :
    (t : Storage Bool) (c : Option (Array × ℕ)) → inside c ≡ false → break_detail t c ≡ none
unfolding break_detail break_if
break_detail-outside t none h = cc
break_detail-outside t (some (a, i)) h = rw h refl

-- A flag that is clear stays so.
cleared-false :
    (c : Option (Array × ℕ)) (t : Storage Bool) (b : Array) (j : ℕ)
    → t b j ≡ false
    → cleared c t b j ≡ false
cleared-false none t b j h = h
cleared-false (some (a, i)) t b j h = ground (arith, h)

put_self : (t : Storage Bool) (a : Array) (i : ℕ) → put t a i false a i ≡ false
put_self t a i = ground arith

flag-cleared : (c : Option (Array × ℕ)) (t : Storage Bool) → flag c (cleared c t) ≡ false
flag-cleared none t = refl
flag-cleared (some (a, i)) t = put_self t a i

flag-cleared_other :
    (c d : Option (Array × ℕ)) (t : Storage Bool) → flag d t ≡ false → flag d (cleared c t) ≡ false
flag-cleared_other c none t h = refl
flag-cleared_other c (some (b, j)) t h = cleared-false c t b j h

-- Neither breakpoint of an exit is set.
abbrev IsQuiet : Storage Bool → Exit → Type 0
IsQuiet t e = (t vmexit (code e.reason) ≡ false) × (flag (detail e.reason e) t ≡ false)

abbrev first : Storage Bool → Exit → Storage Bool
first t e = put t vmexit (code e.reason) false

abbrev last : Storage Bool → Exit → Storage Bool
last t e = cleared (detail e.reason e) (first t e)

break_handle-inside :
    (t : Storage Bool) (e : Exit)
    → is_listed e.reason ≡ true
    → inside (detail e.reason e) ≡ true
    → break_handle t e
      ≡ some (
        last t e,
        to_bit (t vmexit (code e.reason)) + to_bit (flag (detail e.reason e) (first t e)),
      )
break_handle-inside t e l h =
    break_handle-detail t e l
    ∙ ap
        (λ m.
          ◌>>=◌ {A = Storage Bool × ℕ} m (λ r. some (r.0, to_bit (t vmexit (code e.reason)) + r.1)))
        (break_detail-inside (first t e) (detail e.reason e) h)

break_handle-some :
    (t : Storage Bool) (e : Exit) (t' : Storage Bool) (n : ℕ)
    → break_handle t e ≡ some (t', n)
    → (is_listed e.reason ≡ true) × (inside (detail e.reason e) ≡ true) × (t' ≡ last t e)
break_handle-some t e t' n h = elim (Bool-cases (is_listed e.reason)) [
  | inl l ↦ elim (Bool-cases (inside (detail e.reason e))) [
    | inl here ↦ (l, here, cc (h, break_handle-inside t e l here))
    | inr outside ↦
        let stuck : break_handle t e ≡ none =
          break_handle-detail t e l
          ∙ ap
              (λ m.
                ◌>>=◌ {A = Storage Bool × ℕ} m
                  (λ r. some (r.0, to_bit (t vmexit (code e.reason)) + r.1)))
              (break_detail-outside (first t e) (detail e.reason e) outside) in
        absurd (cc (h, stuck))
  ]
  | inr l ↦ absurd (cc (h, break_handle-unlisted t e l))
]

last-IsQuiet : (t : Storage Bool) (e : Exit) → IsQuiet (last t e) e
last-IsQuiet t e = (
  cleared-false (detail e.reason e) (first t e) vmexit (code e.reason)
      (put_self t vmexit (code e.reason)),
  flag-cleared (detail e.reason e) (first t e),
)

IsQuiet-last : (t : Storage Bool) (d e : Exit) → IsQuiet t e → IsQuiet (last t d) e
IsQuiet-last t d e h = (
  cleared-false (detail d.reason d) (first t d) vmexit (code e.reason)
      (cleared-false (some (vmexit, code d.reason)) t vmexit (code e.reason) h.0),
  flag-cleared_other (detail d.reason d) (detail e.reason e) (first t d)
      (flag-cleared_other (some (vmexit, code d.reason)) (detail e.reason e) t h.1),
)

-- The exits of a run, with the number of breaks.
unfoldable pub break_all : Storage Bool → List Exit → Option (Storage Bool × ℕ)
break_all t [] = some (t, 0)
break_all t (e ∷ exits) = do
  (t', n) ← break_handle t e
  (t'', m) ← break_all t' exits
  some (t'', n + m)

some_bind :
    {A B : Type 0} (m : Option A) (f : A → Option B) (b : B)
    → (m >>= f) ≡ some b
    → (a : A) × (m ≡ some a) × (f a ≡ some b)
some_bind none f b h = absurd (cc h)
some_bind (some a) f b h = (a, refl, h)

break_all-IsQuiet :
    (exits : List Exit) (t t' : Storage Bool) (m : ℕ) (e : Exit)
    → break_all t exits ≡ some (t', m)
    → IsQuiet t e
    → IsQuiet t' e
unfolding break_all
break_all-IsQuiet [] t t' m e h q =
    let same : t ≡ t' = cc h in
    (
      ap (λ s. s vmexit (code e.reason)) (sym same) ∙ q.0,
      ap (flag (detail e.reason e)) (sym same) ∙ q.1,
    )
break_all-IsQuiet (d ∷ exits) t t' m e h q =
    let ((u, n), here, after) =
      some_bind (break_handle t d)
        (λ r. ◌>>=◌ {A = Storage Bool × ℕ} (break_all r.0 exits) (λ p. some (p.0, r.1 + p.1)))
        (t', m) h in
    let ((v, k), rest, done) =
      some_bind (break_all u exits) (λ (p : Storage Bool × ℕ). some (p.0, n + p.1)) (t', m) after in
    let end : v ≡ t' = cc done in
    let start : u ≡ last t d = (break_handle-some t d u n here).2 in
    let quiet : IsQuiet u e = (
      ap (λ s. s vmexit (code e.reason)) start ∙ (IsQuiet-last t d e q).0,
      ap (flag (detail e.reason e)) start ∙ (IsQuiet-last t d e q).1,
    ) in
    let rest_quiet = break_all-IsQuiet exits u v k e rest quiet in
    (
      ap (λ s. s vmexit (code e.reason)) (sym end) ∙ rest_quiet.0,
      ap (flag (detail e.reason e)) (sym end) ∙ rest_quiet.1,
    )

-- Once an exit has been handled, another one with the same reason and details is handled without a
-- break, however many exits lie between.
pub break_once :
    (t t' t'' : Storage Bool) (e : Exit) (exits : List Exit) (n m : ℕ)
    → break_handle t e ≡ some (t', n)
    → break_all t' exits ≡ some (t'', m)
    → (t''' : Storage Bool) × (break_handle t'' e ≡ some (t''', 0))
break_once t t' t'' e exits n m h run =
    let (listed, here, now) = break_handle-some t e t' n h in
    let start : IsQuiet t' e = (
      ap (λ s. s vmexit (code e.reason)) now ∙ (last-IsQuiet t e).0,
      ap (flag (detail e.reason e)) now ∙ (last-IsQuiet t e).1,
    ) in
    let quiet = break_all-IsQuiet exits t' t'' m e run start in
    let later : flag (detail e.reason e) (first t'' e) ≡ false =
      flag-cleared_other (some (vmexit, code e.reason)) (detail e.reason e) t'' quiet.1 in
    (
      last t'' e,
      break_handle-inside t'' e listed here
          ∙ ap (λ k. some (last t'' e, k))
              (ap (λ b. to_bit b + to_bit (flag (detail e.reason e) (first t'' e))) quiet.0
                ∙ ap (λ b. 0 + to_bit b) later),
    )
