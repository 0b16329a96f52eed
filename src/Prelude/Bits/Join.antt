-- ===== src/Prelude/Bits/Join.antt =====
-- A word that `|` joins from a low and a high part, and its parts.
use Prim.Native.Nat.{ℕ, ◌+◌, ◌-◌, ◌*◌, ◌/◌, ◌%◌, ◌^◌, ◌<◌, ◌≤◌, bit_or}
use mathlib.Core.Path.{◌≡◌, sym, ap, ◌∙◌}
use native.Mathlib.Omega.{arith}
use hvpp.Prelude.Bits.Laws.{bit, bit-lt, bit-bit_or, bit-shl, bit-shr, bit-mod, bit_ext}

bit_low : (x k i : ℕ) → i < k → bit x i ≡ bit (x % 2 ^ k) i
bit_low x k i h = ground (arith, bit-mod x k i)

bit_high : (x k i : ℕ) → k ≤ i → bit x i ≡ bit (x / 2 ^ k) (i - k)
bit_high x k i h = ap (bit x) {x = i} {y = k + (i - k)} (omega arith) ∙ sym (bit-shr x k (i - k))

bit-mod_above : (x k i : ℕ) → k ≤ i → bit (x % 2 ^ k) i ≡ 0
bit-mod_above x k i h = ground (arith, bit-mod x k i)

-- The operands do not overlap, so nothing is lost.
pub bit_or-parts : (k x : ℕ) → bit_or (x % 2 ^ k) (x / 2 ^ k * 2 ^ k) ≡ x
bit_or-parts k x = bit_ext (bit_or (x % 2 ^ k) (x / 2 ^ k * 2 ^ k)) x λ i. ground (
  arith,
  bit-bit_or (x % 2 ^ k) (x / 2 ^ k * 2 ^ k) i,
  bit-shl (x / 2 ^ k) k i,
  bit-mod x k i,
  bit_high x k i,
  bit-lt x i,
)

-- For parts that are given, with the word that they make.
pub bit_or-join :
    (k x low high : ℕ) → x % 2 ^ k ≡ low → x / 2 ^ k ≡ high → bit_or low (high * 2 ^ k) ≡ x
bit_or-join k x low high p q =
    ap (λ t. bit_or t (high * 2 ^ k)) (sym p)
    ∙ ap (λ t. bit_or (x % 2 ^ k) (t * 2 ^ k)) (sym q)
    ∙ bit_or-parts k x

-- The halves of `a | b`.
pub bit_or-mod : (k a b : ℕ) → bit_or a b % 2 ^ k ≡ bit_or (a % 2 ^ k) (b % 2 ^ k)
bit_or-mod k a b = bit_ext (bit_or a b % 2 ^ k) (bit_or (a % 2 ^ k) (b % 2 ^ k)) λ i. ground (
  arith,
  bit-mod (bit_or a b) k i,
  bit-mod a k i,
  bit-mod b k i,
  bit-bit_or a b i,
  bit-bit_or (a % 2 ^ k) (b % 2 ^ k) i,
)

pub bit_or-div : (k a b : ℕ) → bit_or a b / 2 ^ k ≡ bit_or (a / 2 ^ k) (b / 2 ^ k)
bit_or-div k a b = bit_ext (bit_or a b / 2 ^ k) (bit_or (a / 2 ^ k) (b / 2 ^ k)) λ i. ground (
  arith,
  bit-shr (bit_or a b) k i,
  bit-shr a k i,
  bit-shr b k i,
  bit-bit_or a b (k + i),
  bit-bit_or (a / 2 ^ k) (b / 2 ^ k) i,
)
