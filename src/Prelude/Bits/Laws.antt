-- ===== src/Prelude/Bits/Laws.antt =====
-- `bit x i` is digit `i` of `x`; two words with the same digits are equal.
use Prim.Native.Nat.{
  ℕ, zero, suc, ◌+◌, ◌-◌, ◌*◌, ◌/◌, ◌%◌, ◌^◌, ◌≤◌, ◌<◌, min, max, bit_and, bit_or, bit_and-bitwise,
}
use mathlib.Core.Path.{◌≡◌, refl, sym, ap, ◌∙◌}
use native.Mathlib.Nat.{pow-suc, div-div-eq-div-mul, div-add-mod, one-le-pow, mul_comm}
use native.Mathlib.Omega.{arith}
use hvpp.Prelude.Tests.{ltb, ◌==◌, if◌then◌else◌}
use hvpp.Prelude.Bits.Step.{bit_or_step, bit_and_step}

-- `(x >> i) & 1`
unfoldable pub bit : ℕ → ℕ → ℕ
bit x zero = x % 2
bit x (suc i) = bit (x / 2) i

pub bit-lt : (x i : ℕ) → bit x i < 2
unfolding bit
bit-lt x zero = omega arith
bit-lt x (suc i) = bit-lt (x / 2) i

pub bit_zero : (i : ℕ) → bit 0 i ≡ 0
unfolding bit
bit_zero zero = refl
bit_zero (suc i) = bit_zero i

pub bit-bit_or : (a b i : ℕ) → bit (bit_or a b) i ≡ max (bit a i) (bit b i)
unfolding bit
bit-bit_or a b zero = omega (arith, bit_or_step a b)
bit-bit_or a b (suc i) =
    ap (λ w. bit w i) (omega (arith, bit_or_step a b)) ∙ bit-bit_or (a / 2) (b / 2) i

pub bit-bit_and : (a b i : ℕ) → bit (bit_and a b) i ≡ min (bit a i) (bit b i)
unfolding bit
bit-bit_and a b zero = omega (arith, bit_and_step a b)
bit-bit_and a b (suc i) =
    ap (λ w. bit w i) (omega (arith, bit_and_step a b)) ∙ bit-bit_and (a / 2) (b / 2) i

two-pow-suc : (k : ℕ) → 2 ^ suc k ≡ 2 * 2 ^ k
two-pow-suc k = pow-suc 2 k ∙ mul_comm (2 ^ k) 2

two-pow-pos : (k : ℕ) → 1 ≤ 2 ^ k
two-pow-pos k = one-le-pow k 2 (omega arith)

half-shr : (x k : ℕ) → x / 2 ^ suc k ≡ x / 2 / 2 ^ k
half-shr x k = rw (two-pow-suc, ← div-div-eq-div-mul x 2 (2 ^ k))

half-shl : (x k : ℕ) → x * 2 ^ suc k ≡ 2 * (x * 2 ^ k)
half-shl x k = omega (arith, ap (λ (t : ℕ). x * t) (two-pow-suc k))

mod-double : (x m : ℕ) → (x % (2 * m) / 2 ≡ x / 2 % m) × (x % (2 * m) % 2 ≡ x % 2)
mod-double x m = (omega (arith, whole, half, div-add-mod (x / 2) m), omega (arith, whole, half))
  where
    half : m * (x / (2 * m)) ≡ m * (x / 2 / m)
    half = ap (λ q. m * q) (sym (div-div-eq-div-mul x 2 m))

    whole : 2 * (m * (x / (2 * m))) + x % (2 * m) ≡ x
    whole = omega (arith, div-add-mod x (2 * m))

half-mod : (x k : ℕ) → (x % 2 ^ suc k / 2 ≡ x / 2 % 2 ^ k) × (x % 2 ^ suc k % 2 ≡ x % 2)
half-mod x k = rw two-pow-suc (mod-double x (2 ^ k))

-- `x >> k`
pub bit-shr : (x k i : ℕ) → bit (x / 2 ^ k) i ≡ bit x (k + i)
unfolding bit
bit-shr x zero i =
    ap (λ w. bit w i) {y = x} (omega arith) ∙ ap (bit x) {x = i} {y = 0 + i} (omega arith)
bit-shr x (suc k) i =
    ap (λ w. bit w i) (half-shr x k)
    ∙ bit-shr (x / 2) k i
    ∙ ap (bit x) {x = suc (k + i)} {y = suc k + i} (omega arith)

-- `x << k`, before the word's width cuts it off
pub bit-shl : (x k i : ℕ) → bit (x * 2 ^ k) i ≡ (if ltb i k then 0 else bit x (i - k))
unfolding bit
bit-shl x zero i = ground (arith, ap (λ w. bit w i) {x = x * 1} {y = x} (omega arith))
bit-shl x (suc k) zero = ground (arith, half-shl x k)
bit-shl x (suc k) (suc i) = ground (arith, half-shl x k, bit-shl x k i)

-- the low `k` digits
pub bit-mod : (x k i : ℕ) → bit (x % 2 ^ k) i ≡ (if ltb i k then bit x i else 0)
unfolding bit
bit-mod x zero i = ground (arith, bit_zero i, ap (λ w. bit w i) {x = x % 1} {y = 0} (omega arith))
bit-mod x (suc k) zero = ground (arith, half-mod x k)
bit-mod x (suc k) (suc i) = ground (arith, half-mod x k, bit-mod (x / 2) k i)

-- `~x` at width `n`
pub bit-not : (n x i : ℕ) → x < 2 ^ n → bit (2 ^ n - 1 - x) i ≡ (if ltb i n then 1 - bit x i else 0)
unfolding bit
bit-not zero x i h =
    ground (arith, bit_zero i, ap (λ w. bit w i) {x = 1 - 1 - x} {y = 0} (omega arith))
bit-not (suc n) x zero h = ground (arith, two-pow-suc n)
bit-not (suc n) x (suc i) h = ground (arith, two-pow-suc n, bit-not n (x / 2) i)

pub bit_above : (n x i : ℕ) → x < 2 ^ n → n ≤ i → bit x i ≡ 0
unfolding bit
bit_above zero x i h p = ground (arith, bit_zero i)
bit_above (suc n) x zero h p = absurd (omega arith)
bit_above (suc n) x (suc i) h p = bit_above n (x / 2) i (omega (arith, two-pow-suc n)) (omega arith)

bit_ext_fuel : (n x y : ℕ) → x ≤ n → y ≤ n → ((i : ℕ) → bit x i ≡ bit y i) → x ≡ y
unfolding bit
bit_ext_fuel zero x y p q h = omega arith
bit_ext_fuel (suc n) x y p q h =
    omega (arith, h 0, bit_ext_fuel n (x / 2) (y / 2) (omega arith) (omega arith) (λ i. h (suc i)))

-- Two numbers with the same digits are equal.
pub bit_ext : (x y : ℕ) → ((i : ℕ) → bit x i ≡ bit y i) → x ≡ y
bit_ext x y h = bit_ext_fuel (x + y) x y (omega arith) (omega arith) h

bit_or_zero : bit_or 0 0 ≡ 0
bit_or_zero = refl

bit_and-zero_left : (b : ℕ) → bit_and 0 b ≡ 0
bit_and-zero_left b = bit_and-bitwise 0 b

pub bit_or-lt : (n a b : ℕ) → a < 2 ^ n → b < 2 ^ n → bit_or a b < 2 ^ n
bit_or-lt zero zero zero p q = omega (arith, bit_or_zero)
bit_or-lt zero zero (suc b) p q = absurd (omega arith)
bit_or-lt zero (suc a) b p q = absurd (omega arith)
bit_or-lt (suc n) a b p q = omega (
  arith,
  two-pow-suc n,
  bit_or_step a b,
  bit_or-lt n (a / 2) (b / 2) (omega (arith, two-pow-suc n)) (omega (arith, two-pow-suc n)),
)

pub bit_and-le : (n a b : ℕ) → a ≤ n → bit_and a b ≤ a
bit_and-le zero zero b p = omega (arith, bit_and_step zero b, bit_and-zero_left b)
bit_and-le zero (suc a) b p = absurd (omega arith)
bit_and-le (suc n) zero b p = omega (arith, bit_and-zero_left b)
bit_and-le (suc n) (suc a) b p =
    omega (arith, bit_and_step (suc a) b, bit_and-le n (suc a / 2) (b / 2) (omega arith))

pub bit-div : (x i : ℕ) → bit x i ≡ x / 2 ^ i % 2
unfolding bit
bit-div x i = ap (bit x) {x = i} {y = i + 0} (omega arith) ∙ sym (bit-shr x i 0)

bit_one : (i : ℕ) → bit 1 i ≡ (if i == 0 then 1 else 0)
unfolding bit
bit_one zero = refl
bit_one (suc i) = ground (arith, bit_zero i)

pub bit_pow : (k i : ℕ) → bit (2 ^ k) i ≡ (if i == k then 1 else 0)
unfolding bit
bit_pow k i =
    ap (λ w. bit w i) {y = 1 * 2 ^ k} (omega arith)
    ∙ bit-shl 1 k i
    ∙ ground (arith, bit_one (i - k))
