-- ===== src/Guest/Page.antt =====
-- The walk of addresses in one page of 4 KB: they share their entries, so they keep their distances.
use hvpp.Prelude.{
  ℕ, zero, suc, ◌+◌, ◌*◌, ◌/◌, ◌%◌, ◌^◌, ◌<◌, ◌≡◌, refl, ap, ◌∙◌, ◌⊎◌, inl, inr, Bool, true, false,
  Option, none, some, ltb, ◌==◌, ◌&&◌, if◌then◌else◌, arith,
}
use hvpp.Ept.Shape.{if-All, span}
use hvpp.Guest.{word, large_page, page_frame_number}
use hvpp.Guest.Walk.{entry, translate, or_zero}

pub shift : ℕ → Option ℕ → Option ℕ
shift j none = none
shift j (some a) = some (a + j)

-- A physical address keeps the offset in the page and has 48 bits.
pub IsAt : ℕ → Option ℕ → Type 0
IsAt v none = ◌≡◌ {A = ℕ} 0 0
IsAt v (some a) = (a % 4096 ≡ v % 4096) × (a < 2 ^ 48)

span_same :
    (k v j : ℕ)
    → k < 4
    → v % 4096 + j < 4096
    → ((v + j) / span k ≡ v / span k) × ((v + j) % span k ≡ v % span k + j)
span_same zero v j k_lt h = omega arith
span_same (suc zero) v j k_lt h = omega arith
span_same (suc (suc zero)) v j k_lt h = omega arith
span_same (suc (suc (suc zero))) v j k_lt h = omega arith
span_same (suc (suc (suc (suc k)))) v j k_lt h = absurd (omega arith)

span-IsAt : (k v e : ℕ) → k < 4 → IsAt v (some (e % 2 ^ 48 / span k * span k + v % span k))
unfolding IsAt
span-IsAt zero v e k_lt = omega arith
span-IsAt (suc zero) v e k_lt = omega arith
span-IsAt (suc (suc zero)) v e k_lt = omega arith
span-IsAt (suc (suc (suc zero))) v e k_lt = omega arith
span-IsAt (suc (suc (suc (suc k)))) v e k_lt = absurd (omega arith)

pub translate-IsAt : (k : ℕ) (m : ℕ → ℕ) (f v : ℕ) → k < 4 → IsAt v (translate k m f v)
unfolding translate IsAt
translate-IsAt zero m f v k_lt =
    if-All (IsAt v) (entry 0 m f v % 2 == 1) _ _ (λ p. span-IsAt 0 v (entry 0 m f v) k_lt)
      (λ p. refl)
translate-IsAt (suc k) m f v k_lt =
    if-All (IsAt v) (e % 2 == 1) _ _
      (λ p.
        if-All (IsAt v) (ltb (suc k) 3 && large_page e) _ _ (λ l. span-IsAt (suc k) v e k_lt)
          (λ l. translate-IsAt k m (page_frame_number e) v (omega arith)))
      (λ p. refl)
  where
    e : ℕ
    e = entry (suc k) m f v

shift_step :
    (p l : Bool) (x y j : ℕ) (rest r : Option ℕ)
    → x ≡ y + j
    → rest ≡ shift j r
    → (if p then (if l then some x else rest) else none)
      ≡ shift j (if p then (if l then some y else r) else none)
unfolding shift
shift_step false l x y j rest r h k = refl
shift_step true true x y j rest r h k = ap some h
shift_step true false x y j rest r h k = k

pub translate-shift :
    (k : ℕ) (m : ℕ → ℕ) (f v j : ℕ)
    → k < 4
    → v % 4096 + j < 4096
    → translate k m f (v + j) ≡ shift j (translate k m f v)
unfolding translate shift
translate-shift zero m f v j k_lt h =
    ap (λ q. step (word m (f * 4096 + q % 512 * 8))) (span_same 0 v j k_lt h).0
    ∙ shift_step (e % 2 == 1) true _ _ j none none (omega arith) refl
  where
    e : ℕ
    e = entry 0 m f v

    step : ℕ → Option ℕ
    step w = if w % 2 == 1 then some (w % 2 ^ 48 / 4096 * 4096 + (v + j) % 4096) else none
translate-shift (suc k) m f v j k_lt h =
    ap (λ q. step (word m (f * 4096 + q % 512 * 8))) (span_same (suc k) v j k_lt h).0
    ∙ shift_step (e % 2 == 1) (ltb (suc k) 3 && large_page e) _ _ j _ _
        (omega (arith, (span_same (suc k) v j k_lt h).1))
        (translate-shift k m (page_frame_number e) v j (omega arith) h)
  where
    e : ℕ
    e = entry (suc k) m f v

    step : ℕ → Option ℕ
    step w =
        if w % 2 == 1
        then (if ltb (suc k) 3 && large_page w
            then some (w % 2 ^ 48 / span (suc k) * span (suc k) + (v + j) % span (suc k))
            else translate k m (page_frame_number w) (v + j))
        else none

-- In one page of 4 KB the physical addresses follow each other.
page_cases :
    (v : ℕ) (o : Option ℕ) (next : ℕ → Option ℕ)
    → IsAt v o
    → ((j : ℕ) → v % 4096 + j < 4096 → next j ≡ shift j o)
    → (or_zero o ≡ 0)
      ⊎ ((or_zero o % 4096 ≡ v % 4096)
          × (or_zero o < 2 ^ 48)
          × ((j : ℕ) → v % 4096 + j < 4096 → or_zero (next j) ≡ or_zero o + j))
unfolding IsAt shift or_zero
page_cases v none next h k = inl refl
page_cases v (some a) next h k = inr (h.0, h.1, λ j l. ap or_zero (k j l))

pub page_lem :
    (m : ℕ → ℕ) (f v : ℕ)
    → (or_zero (translate 3 m f v) ≡ 0)
      ⊎ ((or_zero (translate 3 m f v) % 4096 ≡ v % 4096)
          × (or_zero (translate 3 m f v) < 2 ^ 48)
          × ((j : ℕ)
              → v % 4096 + j < 4096
              → or_zero (translate 3 m f (v + j)) ≡ or_zero (translate 3 m f v) + j))
page_lem m f v =
    page_cases v (translate 3 m f v) (λ j. translate 3 m f (v + j))
      (translate-IsAt 3 m f v (omega arith)) (λ j l. translate-shift 3 m f v j (omega arith) l)
