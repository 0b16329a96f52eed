-- ===== src/Bitmap/Bound.antt =====
-- The range operations keep the number of words, and each word a `uint64_t`.
use native.Mathlib.Nat.{div-mul-le_self, div-le_self, le_refl}
use hvpp.Prelude.{
  ℕ, zero, suc, ◌+◌, ◌-◌, ◌*◌, ◌/◌, ◌%◌, ◌^◌, ◌<◌, ◌≡◌, ◌∙◌, bit_and, Bool, true, false, List, ltb,
  ◌==◌, if◌then◌else◌, get_or, set, not64, shl64, shr, length, arith, length-set, Bool-cases, inl,
  inr, [], ◌∷◌,
}
use hvpp.Prelude.Bits.{bit_or-lt, bit_and-le}
use hvpp.Bitmap.{
  offset, word, mask, ones, fill, memset, set_words, clear_words, from_offset, set_range,
  clear_range,
}
use hvpp.Bitmap.Word.{IsWords, length-memset, length-set_unless}

set-IsWords : (ws : List ℕ) (i v : ℕ) → IsWords ws → v < 2 ^ 64 → IsWords (set ws i v)
set-IsWords [] i v h p m = omega arith
set-IsWords (x ∷ ws) zero v h p zero = p
set-IsWords (x ∷ ws) zero v h p (suc m) = h (suc m)
set-IsWords (x ∷ ws) (suc i) v h p zero = h 0
set-IsWords (x ∷ ws) (suc i) v h p (suc m) = set-IsWords ws i v (λ k. h (suc k)) p m

set_unless-IsWords :
    (c : Bool) (ws : List ℕ) (i v : ℕ)
    → IsWords ws
    → v < 2 ^ 64
    → IsWords (if c then ws else set ws i v)
set_unless-IsWords true ws i v h p = h
set_unless-IsWords false ws i v h p = set-IsWords ws i v h p

fill-IsWords : (n : ℕ) (ws : List ℕ) (i v : ℕ) → IsWords ws → v < 2 ^ 64 → IsWords (fill n ws i v)
unfolding fill
fill-IsWords zero ws i v h p = h
fill-IsWords (suc n) ws i v h p = fill-IsWords n (set ws i v) (i + 1) v (set-IsWords ws i v h p) p

memset-IsWords : (ws : List ℕ) (i v n : ℕ) → IsWords ws → v < 2 ^ 64 → IsWords (memset ws i v n)
unfolding memset
memset-IsWords ws i v n h p =
    set_unless-IsWords (n % 8 * 8 == 0) (fill (n / 8) ws i v) (i + n / 8) _ filled (
      bit_or-lt 64 (shr w k * 2 ^ k) (v % 2 ^ k)
        (omega (arith, div-mul-le_self w (2 ^ k), filled (i + n / 8))) (omega arith))
  where
    k : ℕ
    k = n % 8 * 8

    filled : IsWords (fill (n / 8) ws i v)
    filled = fill-IsWords (n / 8) ws i v h p

    w : ℕ
    w = get_or (fill (n / 8) ws i v) (i + n / 8) 0

set_words-IsWords : (ws : List ℕ) (i count : ℕ) → IsWords ws → IsWords (set_words ws i count)
unfolding set_words
set_words-IsWords ws i count h =
    let w = memset-IsWords ws i ones (count / 8) h (omega arith) in
    set_unless-IsWords (count % 64 == 0) (memset ws i ones (count / 8)) (i + count / 64) _ w (
      bit_or-lt 64 (get_or (memset ws i ones (count / 8)) (i + count / 64) 0)
        (mask (count % 64) - 1) (w (i + count / 64)) (omega arith))

clear_words-IsWords : (ws : List ℕ) (i count : ℕ) → IsWords ws → IsWords (clear_words ws i count)
unfolding clear_words
clear_words-IsWords ws i count h =
    let w = memset-IsWords ws i 0 (count / 8) h (omega arith) in
    set_unless-IsWords (count % 64 == 0) (memset ws i 0 (count / 8)) (i + count / 64) _ w (
      omega (
        arith,
        w (i + count / 64),
        bit_and-le _ (get_or (memset ws i 0 (count / 8)) (i + count / 64) 0)
            (not64 (mask (count % 64) - 1)) (le_refl _),
      ))

length-set_words : (ws : List ℕ) (i count : ℕ) → length (set_words ws i count) ≡ length ws
unfolding set_words
length-set_words ws i count =
    length-set_unless (count % 64 == 0) (memset ws i ones (count / 8)) (i + count / 64) _
    ∙ length-memset ws i ones (count / 8)

length-clear_words : (ws : List ℕ) (i count : ℕ) → length (clear_words ws i count) ≡ length ws
unfolding clear_words
length-clear_words ws i count =
    length-set_unless (count % 64 == 0) (memset ws i 0 (count / 8)) (i + count / 64) _
    ∙ length-memset ws i 0 (count / 8)

bit_and-lt : (a b : ℕ) → a < 2 ^ 64 → bit_and a b < 2 ^ 64
bit_and-lt a b h = omega (arith, bit_and-le a a b (le_refl a))

pub length-set_range : (ws : List ℕ) (i n : ℕ) → length (set_range ws i n) ≡ length ws
unfolding set_range
length-set_range ws i n = elim (Bool-cases (offset i == 0)) [
  | inl e ↦ rw e (length-set_words ws (word i) n)
  | inr e ↦ elim (Bool-cases (ltb n (64 - offset i))) [
    | inl f ↦ rw (e, f) (length-set ws (word i) _)
    | inr f ↦
        rw (e, f) (length-set_words _ (word i + 1) (n - (64 - offset i)) ∙ length-set ws (word i) _)
  ]
]

pub length-clear_range : (ws : List ℕ) (i n : ℕ) → length (clear_range ws i n) ≡ length ws
unfolding clear_range
length-clear_range ws i n = elim (Bool-cases (offset i == 0)) [
  | inl e ↦ rw e (length-clear_words ws (word i) n)
  | inr e ↦ elim (Bool-cases (ltb n (64 - offset i))) [
    | inl f ↦ rw (e, f) (length-set ws (word i) _)
    | inr f ↦
        rw (e, f)
          (length-clear_words _ (word i + 1) (n - (64 - offset i)) ∙ length-set ws (word i) _)
  ]
]

pub set_range-IsWords : (ws : List ℕ) (i n : ℕ) → IsWords ws → IsWords (set_range ws i n)
unfolding set_range
set_range-IsWords ws i n h = elim (Bool-cases (offset i == 0)) [
  | inl e ↦ rw e (set_words-IsWords ws (word i) n h)
  | inr e ↦ elim (Bool-cases (ltb n (64 - offset i))) [
    | inl f ↦
        rw (e, f)
          (set-IsWords ws (word i) _ h (
            bit_or-lt 64 w (shr (shl64 (from_offset i) cut) cut) (h (word i))
              (omega (arith, div-le_self (shl64 (from_offset i) cut) (2 ^ cut)))))
    | inr f ↦
        rw (e, f)
          (set_words-IsWords _ (word i + 1) (n - (64 - offset i)) (
            set-IsWords ws (word i) _ h
              (bit_or-lt 64 w (from_offset i) (h (word i)) (omega arith))))
  ]
]
  where
    w : ℕ
    w = get_or ws (word i) 0

    cut : ℕ
    cut = 64 - offset i - n

pub clear_range-IsWords : (ws : List ℕ) (i n : ℕ) → IsWords ws → IsWords (clear_range ws i n)
unfolding clear_range
clear_range-IsWords ws i n h = elim (Bool-cases (offset i == 0)) [
  | inl e ↦ rw e (clear_words-IsWords ws (word i) n h)
  | inr e ↦ elim (Bool-cases (ltb n (64 - offset i))) [
    | inl f ↦ rw (e, f) (set-IsWords ws (word i) _ h (bit_and-lt _ _ (h (word i))))
    | inr f ↦
        rw (e, f)
          (clear_words-IsWords _ (word i + 1) (n - (64 - offset i))
            (set-IsWords ws (word i) _ h (bit_and-lt _ _ (h (word i)))))
  ]
]
