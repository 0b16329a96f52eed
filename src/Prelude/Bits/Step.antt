-- ===== src/Prelude/Bits/Step.antt =====
-- One digit of `bit_and` and `bit_or`. The library explains both by a recursion that counts down a
-- number of digits; any count that is not below the first operand gives the same result.
use Prim.Native.Nat.{
  ℕ, zero, suc, ◌+◌, ◌*◌, ◌/◌, ◌%◌, ◌≤◌, min, max, bit_and, bit_or, digits, bitwise,
  bit_and-bitwise, bit_or-bitwise,
}
use mathlib.Core.Path.{◌≡◌, refl, ap, ◌∙◌}
use native.Mathlib.Decide.{dec_le}
use native.Mathlib.Omega.{arith}

module _ (ended : ℕ → ℕ) (op : ℕ → ℕ → ℕ) where
  one_more :
      (count x y : ℕ) → x ≤ count → digits ended op (suc count) x y ≡ digits ended op count x y
  one_more zero zero y enough = refl
  one_more zero (suc x) y enough = absurd (omega arith)
  one_more (suc count) zero y enough = refl
  one_more (suc count) (suc x) y enough =
      ap (λ high. high * 2 + op (suc x % 2) (y % 2))
        (one_more count (suc x / 2) (y / 2) (omega arith))

  least_count : (count x y : ℕ) → x ≤ count → digits ended op count x y ≡ bitwise ended op x y
  least_count zero x y enough = ap (λ k. digits ended op k x y) {x = 0} {y = x} (omega arith)
  least_count (suc count) x y enough = elim (dec_le x count) [
    | yes below ↦ one_more count x y below ∙ least_count count x y below
    | no above ↦ ap (λ k. digits ended op k x y) {x = suc count} {y = x} (omega arith)
  ]

  -- The lowest digit is split off, if `ended` does so too.
  lowest :
      (x y : ℕ)
      → ended y ≡ ended (y / 2) * 2 + op 0 (y % 2)
      → bitwise ended op x y ≡ bitwise ended op (x / 2) (y / 2) * 2 + op (x % 2) (y % 2)
  lowest zero y split = split
  lowest (suc x) y split =
      ap (λ high. high * 2 + op (suc x % 2) (y % 2))
        (least_count x (suc x / 2) (y / 2) (omega arith))

pub bit_or_step : (a b : ℕ) → bit_or a b ≡ bit_or (a / 2) (b / 2) * 2 + max (a % 2) (b % 2)
bit_or_step x y = simp bit_or-bitwise (lowest (λ rest. rest) max x y (omega arith))

pub bit_and_step : (a b : ℕ) → bit_and a b ≡ bit_and (a / 2) (b / 2) * 2 + min (a % 2) (b % 2)
bit_and_step x y = simp bit_and-bitwise (lowest (λ rest. 0) min x y (omega arith))
