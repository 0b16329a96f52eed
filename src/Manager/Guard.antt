-- ===== src/Manager/Guard.antt =====
-- Guards on several processors, nested and interleaved.
use hvpp.Prelude.{
  ℕ, zero, suc, ◌≡◌, refl, ap, sym, ◌∙◌, true, false, Option, none, some, List, [], ◌∷◌, ◌==◌,
  ==_iff, if◌then◌else◌, arith, Bool-cases, inl, inr,
}
use hvpp.Manager.{Global, set_allocator, begin_guard, end_guard, restore}

-- A guard begins with the allocator that it sets, or the latest one ends.
pub data Event : Type 0 where
  begins : ℕ → ℕ → Event
  ends : ℕ → Event

pub step : Global → Event → Global
step g (begins cpu a) = begin_guard g cpu a
step g (ends cpu) = end_guard g cpu

pub run : Global → List Event → Global
run g [] = g
run g (e ∷ events) = run (step g e) events

-- How many guards of a processor are open after the events, `none` if one ends that began before them.
abbrev pub shift : ℕ → Event → ℕ → Option ℕ
shift cpu (begins p a) n = if p == cpu then some (suc n) else some n
shift cpu (ends p) zero = if p == cpu then none else some zero
shift cpu (ends p) (suc n) = if p == cpu then some n else some (suc n)

abbrev pub and_then : Option ℕ → (ℕ → Option ℕ) → Option ℕ
and_then none f = none
and_then (some n) f = f n

abbrev pub opened : ℕ → ℕ → List Event → Option ℕ
opened cpu n [] = some n
opened cpu n (e ∷ events) = and_then (shift cpu e n) (λ m. opened cpu m events)

-- the allocator of a processor above those that its guards have saved
abbrev stack : Global → ℕ → List ℕ
stack g cpu = g.allocator cpu ∷ g.guards cpu

abbrev drop : ℕ → List ℕ → List ℕ
drop zero xs = xs
drop (suc n) [] = []
drop (suc n) (x ∷ xs) = drop n xs

restore-same :
    (g : Global) (p cpu : ℕ) (l : List ℕ)
    → (p == cpu) ≡ false
    → stack (restore g p l) cpu ≡ stack g cpu
unfolding set_allocator
restore-same g p cpu [] h = refl
restore-same g p cpu (a ∷ l) h = ground (arith, h)

begin-same :
    (g : Global) (p a cpu : ℕ) → (p == cpu) ≡ false → stack (begin_guard g p a) cpu ≡ stack g cpu
unfolding begin_guard set_allocator
begin-same g p a cpu h = ground (arith, h)

self : (cpu : ℕ) → (cpu == cpu) ≡ true
self cpu = ground arith

begin_self : (g : Global) (a cpu : ℕ) → stack (begin_guard g cpu a) cpu ≡ a ∷ stack g cpu
unfolding begin_guard set_allocator
begin_self g a cpu = rw (self cpu) refl

restore_self :
    (g : Global) (cpu m : ℕ) (l : List ℕ) (x : ℕ) (xs : List ℕ)
    → drop m l ≡ x ∷ xs
    → drop m (stack (restore g cpu l) cpu) ≡ x ∷ xs
unfolding set_allocator
restore_self g cpu zero [] x xs d = absurd (cc d)
restore_self g cpu (suc m) [] x xs d = absurd (cc d)
restore_self g cpu m (a ∷ l) x xs d = rw (self cpu) d

step-stack :
    (g : Global) (e : Event) (cpu n m x : ℕ) (xs : List ℕ)
    → shift cpu e n ≡ some m
    → drop n (stack g cpu) ≡ x ∷ xs
    → drop m (stack (step g e) cpu) ≡ x ∷ xs
unfolding step end_guard
step-stack g (begins p a) cpu n m x xs s d = elim (Bool-cases (p == cpu)) [
  | inl here ↦
      let one : suc n ≡ m = ground (arith, s, here) in
      let same : p ≡ cpu = (==_iff p cpu).0 here in
      ap (λ k. drop k (stack (begin_guard g p a) cpu)) (sym one)
      ∙ ap (λ q. drop (suc n) (stack (begin_guard g q a) cpu)) same
      ∙ ap (drop (suc n)) (begin_self g a cpu)
      ∙ d
  | inr there ↦
      let none_more : n ≡ m = ground (arith, s, there) in
      ap (λ k. drop k (stack (begin_guard g p a) cpu)) (sym none_more)
      ∙ ap (drop n) (begin-same g p a cpu there)
      ∙ d
]
step-stack g (ends p) cpu zero m x xs s d = elim (Bool-cases (p == cpu)) [
  | inl here ↦ absurd (ground (arith, s, here))
  | inr there ↦
      let still : 0 ≡ m = ground (arith, s, there) in
      ap (λ k. drop k (stack (restore g p (g.guards p)) cpu)) (sym still)
      ∙ restore-same g p cpu (g.guards p) there
      ∙ d
]
step-stack g (ends p) cpu (suc n) m x xs s d = elim (Bool-cases (p == cpu)) [
  | inl here ↦
      let less : n ≡ m = ground (arith, s, here) in
      let same : p ≡ cpu = (==_iff p cpu).0 here in
      ap (λ k. drop k (stack (restore g p (g.guards p)) cpu)) (sym less)
      ∙ ap (λ q. drop n (stack (restore g q (g.guards q)) cpu)) same
      ∙ restore_self g cpu n (g.guards cpu) x xs d
  | inr there ↦
      let still : suc n ≡ m = ground (arith, s, there) in
      ap (λ k. drop k (stack (restore g p (g.guards p)) cpu)) (sym still)
      ∙ ap (drop (suc n)) (restore-same g p cpu (g.guards p) there)
      ∙ d
]

and_then-some :
    (o : Option ℕ) (f : ℕ → Option ℕ) (k : ℕ)
    → and_then o f ≡ some k
    → (m : ℕ) × (o ≡ some m) × (f m ≡ some k)
and_then-some none f k h = absurd (cc h)
and_then-some (some m) f k h = (m, refl, h)

run-stack :
    (events : List Event) (g : Global) (cpu n k x : ℕ) (xs : List ℕ)
    → opened cpu n events ≡ some k
    → drop n (stack g cpu) ≡ x ∷ xs
    → drop k (stack (run g events) cpu) ≡ x ∷ xs
unfolding run
run-stack [] g cpu n k x xs h d =
    let same : n ≡ k = ground (arith, h) in ap (λ j. drop j (stack g cpu)) (sym same) ∙ d
run-stack (e ∷ events) g cpu n k x xs h d =
    let (m, now, later) = and_then-some (shift cpu e n) (λ j. opened cpu j events) k h in
    run-stack events (step g e) cpu m k x xs later (step-stack g e cpu n m x xs now d)

-- Whatever guards begin and end on any processors: once all of a processor's own that began have
-- ended, and no other of its own, it uses the allocator from before and has the same guards open.
pub guards_restore :
    (g : Global) (cpu : ℕ) (events : List Event)
    → opened cpu 0 events ≡ some 0
    → ((run g events).allocator cpu ≡ g.allocator cpu) × ((run g events).guards cpu ≡ g.guards cpu)
guards_restore g cpu events h =
    let same = run-stack events g cpu 0 0 (g.allocator cpu) (g.guards cpu) h refl in
    (ground (arith, same), ground (arith, same))
