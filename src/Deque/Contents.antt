-- ===== src/Deque/Contents.antt =====
-- The list of a queue's items, from the front to the back.
use hvpp.Prelude.{
  ℕ, zero, suc, ◌+◌, ◌-◌, ◌%◌, ◌^◌, ◌≤◌, ◌<◌, ◌≡◌, refl, sym, ◌∙◌, ap, ◌⊎◌, arith, ltb,
  if◌then◌else◌, List, [], ◌∷◌, ◌++◌, get_or, set, length, inl, inr, Bool-cases, ltb→lt,
  get_or-set_self, get_or-set_ne,
}
use native.Mathlib.Nat.{mod-eq_of_lt, mod-eq-sub-mod}
use hvpp.Deque.{Deque}

-- A position below twice the capacity wraps at most once.
pub mod-wrap : (x s : ℕ) → x < s + s → x % s ≡ (if ltb x s then x else x - s)
mod-wrap x s h = elim (Bool-cases (ltb x s)) [
  | inl e ↦ rw e (mod-eq_of_lt (ltb→lt x s e))
  | inr e ↦ rw (e, mod-eq-sub-mod {n = x} {m = s} (ground arith)) (mod-eq_of_lt (ground arith))
]

module _ {ℓ} {A : Type ℓ} (capacity : ℕ) (junk : A) where
  -- the item `i` places behind position `f`
  abbrev pub at : List A → ℕ → ℕ → A
  at q f i = get_or q ((f + i) % capacity) junk

  abbrev pub items : List A → ℕ → ℕ → List A
  items q f zero = []
  items q f (suc n) = at q f 0 ∷ items q (suc f) n

  abbrev pub contents : Deque A → List A
  contents d = items d.queue d.first d.count

  pub record IsValid (d : Deque A) : Type ℓ where
    pub length_queue : length d.queue ≡ capacity
    pub first_inside : d.first < capacity
    pub count_fits : d.count ≤ capacity
    pub small : capacity < 2 ^ 62

  at-suc : (q : List A) (f i : ℕ) → at q (suc f) i ≡ at q f (suc i)
  at-suc q f i = ap (λ p. get_or q (p % capacity) junk) (omega arith)

  pub items_ext :
      (q q' : List A) (f f' n : ℕ)
      → ((i : ℕ) → i < n → at q f i ≡ at q' f' i)
      → items q f n ≡ items q' f' n
  items_ext q q' f f' zero h = refl
  items_ext q q' f f' (suc n) h =
      rw
        (
          h 0 (omega arith),
          items_ext q q' (suc f) (suc f') n
              λ i (l : i < n). at-suc q f i ∙ h (suc i) (omega arith) ∙ sym (at-suc q' f' i),
        )
        refl

  pub items_snoc : (q : List A) (f n : ℕ) → items q f (suc n) ≡ items q f n ++ (at q f n ∷ [])
  items_snoc q f zero = refl
  items_snoc q f (suc n) = rw (items_snoc q (suc f) n, at-suc q f n) refl

  -- An item written behind the last one.
  pub items_behind :
      (q : List A) (f n : ℕ) (v : A)
      → length q ≡ capacity
      → f < capacity
      → n < capacity
      → items (set q ((f + n) % capacity) v) f (suc n) ≡ items q f n ++ (v ∷ [])
  items_behind q f n v e h p =
      rw
        (
          items_snoc (set q ((f + n) % capacity) v) f n,
          get_or-set_self q ((f + n) % capacity) v junk (ground (arith, mod-wrap (f + n) capacity)),
          items_ext (set q ((f + n) % capacity) v) q f f n λ i (l : i < n).
              get_or-set_ne q ((f + n) % capacity) ((f + i) % capacity) v junk
                (ground (arith, mod-wrap (f + n) capacity, mod-wrap (f + i) capacity)),
        )
        refl

  -- Position `f` follows `p`, around the end.
  abbrev pub IsNext : ℕ → ℕ → Type 0
  IsNext p f = (suc p ≡ f) ⊎ ((suc p ≡ capacity) × (f ≡ 0))

  at_next :
      (q : List A) (p f i : ℕ)
      → p < capacity
      → suc i < capacity
      → IsNext p f
      → at q (suc p) i ≡ at q f i
  at_next q p f i h l n =
      ap (λ k. get_or q k junk)
        (ground (arith, mod-wrap (suc p + i) capacity, mod-wrap (f + i) capacity))

  pub items_next :
      (q : List A) (p f n : ℕ)
      → p < capacity
      → n < capacity
      → IsNext p f
      → items q (suc p) n ≡ items q f n
  items_next q p f n h l e =
      items_ext q q (suc p) f n λ i (b : i < n). at_next q p f i h (omega arith) e

  pub at_first : (q : List A) (p : ℕ) → p < capacity → at q p 0 ≡ get_or q p junk
  at_first q p h = ap (λ k. get_or q k junk) (ground (arith, mod-wrap (p + 0) capacity))

  -- An item written before the first one.
  pub items_before :
      (q : List A) (p f n : ℕ) (v : A)
      → length q ≡ capacity
      → p < capacity
      → n < capacity
      → IsNext p f
      → items (set q p v) p (suc n) ≡ v ∷ items q f n
  items_before q p f n v e h l next =
      rw
        (
          at_first (set q p v) p h,
          get_or-set_self q p v junk (omega arith),
          items_ext (set q p v) q (suc p) (suc p) n λ i (b : i < n).
              get_or-set_ne q p ((suc p + i) % capacity) v junk
                (ground (arith, mod-wrap (suc p + i) capacity)),
          items_next q p f n h l next,
        )
        refl

  -- The first item taken off: the position of the next is `f'`, unless no item is left.
  pub items_take :
      (q : List A) (f c f' c' : ℕ)
      → f < capacity
      → c ≤ capacity
      → suc c' ≡ c
      → (c' ≡ 0) ⊎ IsNext f f'
      → items q f c ≡ get_or q f junk ∷ items q f' c'
  items_take q f c f' c' h l e (inl z) = rw (sym e, z, at_first q f h) refl
  items_take q f c f' c' h l e (inr n) =
      rw (sym e, at_first q f h, items_next q f f' c' h (omega arith) n) refl

  -- The last item taken off.
  pub items_drop :
      (q : List A) (f c f' c' : ℕ)
      → suc c' ≡ c
      → (c' ≡ 0) ⊎ (f ≡ f')
      → items q f c ≡ items q f' c' ++ (at q f c' ∷ [])
  items_drop q f c f' c' e (inl z) = rw (sym e, z) refl
  items_drop q f c f' c' e (inr g) = rw (sym e, sym g) (items_snoc q f c')
