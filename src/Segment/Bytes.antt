-- ===== src/Segment/Bytes.antt =====
-- Words of several bytes in memory: what a store changes, and what a load finds after it. Addresses
-- wrap at 2 ^ 64, and the distance from `a` up to `x` is `sub64 x a`.
use native.Mathlib.Nat.{pow-suc}
use hvpp.Prelude.{
  ℕ, zero, suc, ◌+◌, ◌/◌, ◌^◌, ◌<◌, ◌≤◌, ◌≡◌, refl, ap, ◌∙◌, ◌==◌, false, arith, u8, add64, sub64,
  Bool-cases, inl, inr, ==_iff,
}
use hvpp.Segment.{read_bytes, write_bytes}

-- byte `i` of a word
abbrev pub byte : ℕ → ℕ → ℕ
byte value zero = u8 value
byte value (suc i) = byte (value / 256) i

pub write_bytes-outside :
    (n a value x : ℕ) (memory : ℕ → ℕ)
    → a < 2 ^ 64
    → x < 2 ^ 64
    → n ≤ sub64 x a
    → write_bytes memory a n value x ≡ memory x
unfolding write_bytes
write_bytes-outside zero a value x memory ha hx h = refl
write_bytes-outside (suc n) a value x memory ha hx h = elim (Bool-cases (x == a)) [
  | inl same ↦ absurd (omega (arith, (==_iff x a).0 same))
  | inr other ↦
      rw other
        (write_bytes-outside n (add64 a 1) (value / 256) x memory (omega arith) hx (ground arith))
]

pub write_bytes-inside :
    (n i a value : ℕ) (memory : ℕ → ℕ)
    → a < 2 ^ 64
    → i < n
    → n ≤ 2 ^ 64
    → write_bytes memory a n value (add64 a i) ≡ byte value i
unfolding write_bytes
write_bytes-inside zero i a value memory ha hi hn = absurd (omega arith)
write_bytes-inside (suc n) zero a value memory ha hi hn = ground arith
write_bytes-inside (suc n) (suc i) a value memory ha hi hn =
    let other : (add64 a (suc i) == a) ≡ false = ground arith in
    rw other (
      ap (write_bytes memory (add64 a 1) n (value / 256)) {y = add64 (add64 a 1) i} (omega arith)
      ∙ write_bytes-inside n i (add64 a 1) (value / 256) memory (omega arith) (omega arith)
          (omega arith))

-- A load finds the word whose bytes lie there.
pub read_bytes-eq :
    (n a value : ℕ) (memory : ℕ → ℕ)
    → a < 2 ^ 64
    → value < 256 ^ n
    → ((i : ℕ) → i < n → memory (add64 a i) ≡ byte value i)
    → read_bytes memory a n ≡ value
unfolding read_bytes
read_bytes-eq zero a value memory ha hv h = omega arith
read_bytes-eq (suc n) a value memory ha hv h =
    let first : memory a ≡ u8 value =
      ap memory {x = a} {y = add64 a 0} (omega arith) ∙ h 0 (omega arith) in
    let rest =
      read_bytes-eq n (add64 a 1) (value / 256) memory (omega arith) (omega (arith, pow-suc 256 n))
        (λ i l.
          ap memory {x = add64 (add64 a 1) i} {y = add64 a (suc i)} (omega arith)
          ∙ h (suc i) (omega arith)) in
    omega arith

-- Memory that agrees on the bytes gives the same word.
pub read_bytes-ext :
    (n a : ℕ) (memory memory' : ℕ → ℕ)
    → a < 2 ^ 64
    → ((i : ℕ) → i < n → memory (add64 a i) ≡ memory' (add64 a i))
    → read_bytes memory a n ≡ read_bytes memory' a n
unfolding read_bytes
read_bytes-ext zero a memory memory' ha h = refl
read_bytes-ext (suc n) a memory memory' ha h =
    let first : memory a ≡ memory' a =
      ap memory {x = a} {y = add64 a 0} (omega arith)
      ∙ h 0 (omega arith)
      ∙ ap memory' {x = add64 a 0} {y = a} (omega arith) in
    let rest = read_bytes-ext n (add64 a 1) memory memory' (omega arith) (λ i l.
      ap memory {x = add64 (add64 a 1) i} {y = add64 a (suc i)} (omega arith)
      ∙ h (suc i) (omega arith)
      ∙ ap memory' {x = add64 a (suc i)} {y = add64 (add64 a 1) i} (omega arith)) in
    omega arith

-- A store, then a load at the same place.
pub read_bytes-write_bytes :
    (n a value : ℕ) (memory : ℕ → ℕ)
    → a < 2 ^ 64
    → value < 256 ^ n
    → n ≤ 2 ^ 64
    → read_bytes (write_bytes memory a n value) a n ≡ value
read_bytes-write_bytes n a value memory ha hv hn =
    read_bytes-eq n a value (write_bytes memory a n value) ha hv
      (λ i l. write_bytes-inside n i a value memory ha l hn)

-- A load that lies `d` bytes above a store of `n` bytes, and ends before the store comes round again.
pub read_bytes-apart :
    (k d n a value : ℕ) (memory : ℕ → ℕ)
    → a < 2 ^ 64
    → n ≤ d
    → d + k ≤ 2 ^ 64
    → read_bytes (write_bytes memory a n value) (add64 a d) k ≡ read_bytes memory (add64 a d) k
read_bytes-apart k d n a value memory ha hd hk =
    read_bytes-ext k (add64 a d) (write_bytes memory a n value) memory (omega arith) (λ i l.
      write_bytes-outside n a value (add64 (add64 a d) i) memory ha (omega arith) (omega arith))
