-- ===== src/Bitmap/Word.antt =====
-- The digits of the words that the operations of bitmap.cpp build: masks, cut runs, filled bytes.
use native.Mathlib.Nat.{pow-le-pow_right, one-le-pow}
use hvpp.Prelude.{
  ℕ, zero, suc, ◌+◌, ◌-◌, ◌*◌, ◌/◌, ◌%◌, ◌^◌, ◌≤◌, ◌<◌, ◌≡◌, refl, ap, ◌∙◌, bit_or, Bool, true,
  false, ◌&&◌, List, ltb, leb, ◌==◌, if◌then◌else◌, get_or, set, not64, shl64, shr, length, arith,
  length-set, get_or-set_self, get_or-set_ne, Bool-cases, inl, inr,
}
use hvpp.Prelude.Bits.{bit, bit_zero, bit-bit_or, bit-shr, bit-shl, bit-mod, bit-not}
use hvpp.Bitmap.{offset, mask, fill, memset, from_offset}

-- Each word of the buffer is a `uint64_t`.
abbrev pub IsWords : List ℕ → Type 0
IsWords ws = (m : ℕ) → get_or ws m 0 < 2 ^ 64

two-pow-lt : (r : ℕ) → r < 64 → 2 ^ r < 2 ^ 64
two-pow-lt r h =
    omega (arith, pow-le-pow_right {n = 2} (omega arith) {i = r} {j = 63} (omega arith))

pub mask-eq : (r : ℕ) → r < 64 → mask r ≡ 2 ^ r
mask-eq r h = omega (arith, two-pow-lt r h, ap (λ k. 2 ^ k) {x = r % 64} {y = r} (omega arith))

pub bit_ones : (k i : ℕ) → bit (2 ^ k - 1) i ≡ (if ltb i k then 1 else 0)
bit_ones k i = ground (arith, bit-not k 0 i, bit_zero i, one-le-pow k 2)

pub bit-mask_below : (r i : ℕ) → r < 64 → bit (mask r - 1) i ≡ (if ltb i r then 1 else 0)
bit-mask_below r i h = rw (mask-eq r h) (bit_ones r i)

pub bit-not64 : (x i : ℕ) → x < 2 ^ 64 → i < 64 → bit (not64 x) i ≡ 1 - bit x i
bit-not64 x i h p = ground (arith, bit-not 64 x i)

from_offset-eq : (index : ℕ) → from_offset index ≡ not64 (2 ^ offset index - 1)
from_offset-eq index = omega (
  arith,
  mask-eq (offset index) (omega arith),
  two-pow-lt (offset index) (omega arith),
  one-le-pow (offset index) 2 (omega arith),
)

-- `~mask(o) + 1` has the digits from `o` on.
pub bit-from_offset :
    (index i : ℕ) → i < 64 → bit (from_offset index) i ≡ (if ltb i (offset index) then 0 else 1)
bit-from_offset index i p = rw (from_offset-eq index) (
    ground (
      arith,
      bit-not64 (2 ^ offset index - 1) i,
      bit_ones (offset index) i,
      two-pow-lt (offset index),
      one-le-pow (offset index) 2,
    ))

-- `x << cut >> cut` keeps the digits below `64 - cut`.
pub bit-cut :
    (x cut i : ℕ) → bit (shr (shl64 x cut) cut) i ≡ (if ltb (cut + i) 64 then bit x i else 0)
bit-cut x cut i = ground (
  arith,
  bit-shr (shl64 x cut) cut i,
  bit-mod (x * 2 ^ cut) 64 (cut + i),
  bit-shl x cut (cut + i),
  ap (bit x) {x = cut + i - cut} {y = i} (omega arith),
)

pub length-fill : (n : ℕ) (ws : List ℕ) (i v : ℕ) → length (fill n ws i v) ≡ length ws
unfolding fill
length-fill zero ws i v = refl
length-fill (suc n) ws i v = length-fill n (set ws i v) (i + 1) v ∙ length-set ws i v

pub get_or-set :
    (ws : List ℕ) (i v m : ℕ)
    → i < length ws
    → get_or (set ws i v) m 0 ≡ (if i == m then v else get_or ws m 0)
get_or-set ws i v m h = ground (arith, get_or-set_self ws i v 0, get_or-set_ne ws i m v 0)

pub get_or-fill :
    (n : ℕ) (ws : List ℕ) (i v m : ℕ)
    → i + n ≤ length ws
    → get_or (fill n ws i v) m 0 ≡ (if leb i m && ltb m (i + n) then v else get_or ws m 0)
unfolding fill
get_or-fill zero ws i v m h = ground arith
get_or-fill (suc n) ws i v m h =
    ground (arith, get_or-fill n (set ws i v) (i + 1) v m, length-set ws i v, get_or-set ws i v m)

pub length-set_unless :
    (c : Bool) (ws : List ℕ) (i v : ℕ) → length (if c then ws else set ws i v) ≡ length ws
length-set_unless true ws i v = refl
length-set_unless false ws i v = length-set ws i v

pub length-memset : (ws : List ℕ) (i v n : ℕ) → length (memset ws i v n) ≡ length ws
unfolding memset
length-memset ws i v n =
    length-set_unless (n % 8 * 8 == 0) (fill (n / 8) ws i v) (i + n / 8) _
    ∙ length-fill (n / 8) ws i v

-- The low `k` digits of `v` over the other digits of `w`.
pub bit-merge :
    (k w v b : ℕ)
    → bit (bit_or (shr w k * 2 ^ k) (v % 2 ^ k)) b ≡ (if ltb b k then bit v b else bit w b)
bit-merge k w v b = ground (
  arith,
  bit-bit_or (shr w k * 2 ^ k) (v % 2 ^ k) b,
  bit-shl (shr w k) k b,
  bit-shr w k (b - k),
  bit-mod v k b,
  ap (bit w) {x = k + (b - k)} {y = b},
)

-- One word written after a run of words.
get_or-fill-set :
    (n : ℕ) (ws : List ℕ) (i v x m : ℕ)
    → i + n < length ws
    → get_or (set (fill n ws i v) (i + n) x) m 0
      ≡ (if i + n == m then x else if leb i m && ltb m (i + n) then v else get_or ws m 0)
get_or-fill-set n ws i v x m h =
    ground
      (arith, length-fill n ws i v, get_or-set (fill n ws i v) (i + n) x m, get_or-fill n ws i v m)

-- `memset` writes the digits of `v` to `8 * n` places and leaves the others alone.
pub bit-memset :
    (ws : List ℕ) (i v n m b : ℕ)
    → 64 * i + 8 * n ≤ 64 * length ws
    → b < 64
    → bit (get_or (memset ws i v n) m 0) b ≡ (
        if leb (64 * i) (64 * m + b) && ltb (64 * m + b) (64 * i + 8 * n)
        then bit v b
        else bit (get_or ws m 0) b)
unfolding memset
bit-memset ws i v n m b fits p = elim (Bool-cases (n % 8 * 8 == 0)) [
  | inl e ↦ rw e (ground (arith, get_or-fill (n / 8) ws i v m))
  | inr e ↦ rw e (
      rw (get_or-fill-set (n / 8) ws i v _ m (ground arith)) (
        ground (
          arith,
          bit-merge (n % 8 * 8) (get_or (fill (n / 8) ws i v) (i + n / 8) 0) v b,
          get_or-fill (n / 8) ws i v (i + n / 8),
          ap (λ k. get_or ws k 0) {x = i + n / 8} {y = m},
        )))
]
