-- ===== src/Bitmap/Range.antt =====
-- `set(index, count)` and `clear(index, count)` change exactly the bits of the range.
use native.Mathlib.Nat.{div-le_self}
use hvpp.Prelude.{
  ℕ, ◌+◌, ◌-◌, ◌*◌, ◌/◌, ◌%◌, ◌^◌, ◌≤◌, ◌<◌, ◌≡◌, ap, bit_and, bit_or, true, false, ◌&&◌, List, ltb,
  leb, ◌==◌, if◌then◌else◌, get_or, set, not64, shl64, shr, length, arith, length-set, Bool-cases,
  inl, inr,
}
use hvpp.Prelude.Bits.{bit, bit-lt, bit_zero, bit-bit_or, bit-bit_and}
use hvpp.Bitmap.{
  BitInstructions, Bitmap, test, offset, word, mask, ones, memset, set_words, clear_words,
  from_offset, set_range, clear_range,
}
use hvpp.Bitmap.Word.{
  mask-eq, bit_ones, bit-mask_below, bit-not64, bit-from_offset, bit-cut, get_or-set, length-memset,
  bit-memset,
}

-- `set_words` sets the `count` places from the first of word `i` on, and no other.
pub bit-set_words :
    (ws : List ℕ) (i count m b : ℕ)
    → 64 * i + count ≤ 64 * length ws
    → b < 64
    → bit (get_or (set_words ws i count) m 0) b ≡ (
        if leb (64 * i) (64 * m + b) && ltb (64 * m + b) (64 * i + count)
        then 1
        else bit (get_or ws m 0) b)
unfolding set_words
bit-set_words ws i count m b fits p = elim (Bool-cases (count % 64 == 0)) [
  | inl e ↦ rw e (ground (arith, bit-memset ws i ones (count / 8) m b, bit_ones 64 b))
  | inr e ↦ rw e (
      rw
        (get_or-set (memset ws i ones (count / 8)) (i + count / 64) _ m
          (ground (arith, length-memset ws i ones (count / 8))))
        (ground (
          arith,
          bit-memset ws i ones (count / 8) m b,
          bit_ones 64 b,
          bit-bit_or (get_or (memset ws i ones (count / 8)) m 0) (mask (count % 64) - 1) b,
          bit-mask_below (count % 64) b,
          bit-lt (get_or ws m 0) b,
          ap (λ k. get_or (memset ws i ones (count / 8)) k 0) {x = i + count / 64} {y = m},
        )))
]

mask_below-lt : (r : ℕ) → r < 64 → mask r - 1 < 2 ^ 64
mask_below-lt r h = omega (arith, mask-eq r h)

-- `clear_words` clears the `count` places from the first of word `i` on, and no other.
pub bit-clear_words :
    (ws : List ℕ) (i count m b : ℕ)
    → 64 * i + count ≤ 64 * length ws
    → b < 64
    → bit (get_or (clear_words ws i count) m 0) b ≡ (
        if leb (64 * i) (64 * m + b) && ltb (64 * m + b) (64 * i + count)
        then 0
        else bit (get_or ws m 0) b)
unfolding clear_words
bit-clear_words ws i count m b fits p = elim (Bool-cases (count % 64 == 0)) [
  | inl e ↦ rw e (ground (arith, bit-memset ws i 0 (count / 8) m b, bit_zero b))
  | inr e ↦ rw e (
      rw
        (get_or-set (memset ws i 0 (count / 8)) (i + count / 64) _ m
          (ground (arith, length-memset ws i 0 (count / 8))))
        (ground (
          arith,
          bit-memset ws i 0 (count / 8) m b,
          bit_zero b,
          bit-bit_and (get_or (memset ws i 0 (count / 8)) m 0) (not64 (mask (count % 64) - 1)) b,
          bit-not64 (mask (count % 64) - 1) b,
          bit-mask_below (count % 64) b,
          bit-lt (get_or ws m 0) b,
          ap (λ k. get_or (memset ws i 0 (count / 8)) k 0) {x = i + count / 64} {y = m},
        )))
]

-- A run inside one word, as both functions build it.
abbrev run : ℕ → ℕ → ℕ
run index count = let cut = 64 - offset index - count in shr (shl64 (from_offset index) cut) cut

bit-run :
    (index count b : ℕ)
    → b < 64
    → count ≤ 64 - offset index
    → bit (run index count) b
      ≡ (if leb (offset index) b && ltb b (offset index + count) then 1 else 0)
bit-run index count b p fits =
    ground
      (arith, bit-cut (from_offset index) (64 - offset index - count) b, bit-from_offset index b)

run-lt : (index count : ℕ) → run index count < 2 ^ 64
run-lt index count = omega (
  arith,
  div-le_self (shl64 (from_offset index) (64 - offset index - count))
      (2 ^ (64 - offset index - count)),
)

-- `set(index, count)`, word by word.
pub bit-set_range :
    (ws : List ℕ) (index count m b : ℕ)
    → index + count ≤ 64 * length ws
    → b < 64
    → bit (get_or (set_range ws index count) m 0) b ≡ (
        if leb index (64 * m + b) && ltb (64 * m + b) (index + count)
        then 1
        else bit (get_or ws m 0) b)
unfolding set_range
bit-set_range ws index count m b fits p = elim (Bool-cases (offset index == 0)) [
  | inl e ↦ rw e (ground (arith, bit-set_words ws (word index) count m b))
  | inr e ↦ elim (Bool-cases (ltb count (64 - offset index))) [
    | inl f ↦
        rw (e, f)
          (ground (
            arith,
            get_or-set ws (word index) (bit_or w (run index count)) m,
            bit-bit_or w (run index count) b,
            bit-run index count b,
            bit-lt w b,
            here,
          ))
    | inr f ↦
        rw (e, f)
          (ground (
            arith,
            bit-set_words (set ws (word index) (bit_or w (from_offset index))) (word index + 1)
                (count - (64 - offset index)) m b,
            length-set ws (word index) (bit_or w (from_offset index)),
            get_or-set ws (word index) (bit_or w (from_offset index)) m,
            bit-bit_or w (from_offset index) b,
            bit-from_offset index b,
            bit-lt w b,
            here,
          ))
  ]
]
  where
    w : ℕ
    w = get_or ws (word index) 0

    here : word index ≡ m → w ≡ get_or ws m 0
    here h = ap (λ k. get_or ws k 0) h

-- `clear(index, count)`, word by word.
pub bit-clear_range :
    (ws : List ℕ) (index count m b : ℕ)
    → index + count ≤ 64 * length ws
    → b < 64
    → bit (get_or (clear_range ws index count) m 0) b ≡ (
        if leb index (64 * m + b) && ltb (64 * m + b) (index + count)
        then 0
        else bit (get_or ws m 0) b)
unfolding clear_range
bit-clear_range ws index count m b fits p = elim (Bool-cases (offset index == 0)) [
  | inl e ↦ rw e (ground (arith, bit-clear_words ws (word index) count m b))
  | inr e ↦ elim (Bool-cases (ltb count (64 - offset index))) [
    | inl f ↦
        rw (e, f)
          (ground (
            arith,
            get_or-set ws (word index) (bit_and w (not64 (run index count))) m,
            bit-bit_and w (not64 (run index count)) b,
            bit-not64 (run index count) b,
            run-lt index count,
            bit-run index count b,
            bit-lt w b,
            here,
          ))
    | inr f ↦
        rw (e, f)
          (ground (
            arith,
            bit-clear_words (set ws (word index) below) (word index + 1)
                (count - (64 - offset index)) m b,
            length-set ws (word index) below,
            get_or-set ws (word index) below m,
            bit-bit_and w (mask (offset index) - 1) b,
            bit-mask_below (offset index) b,
            bit-lt w b,
            here,
          ))
  ]
]
  where
    w : ℕ
    w = get_or ws (word index) 0

    below : ℕ
    below = bit_and w (mask (offset index) - 1)

    here : word index ≡ m → w ≡ get_or ws m 0
    here h = ap (λ k. get_or ws k 0) h

module _ (cpu : BitInstructions) (b : Bitmap) where
  -- `set(index, count)` inside the buffer makes `test` true on the range and leaves every other bit
  -- as it was.
  pub test-set_range :
      (index count i : ℕ)
      → index + count ≤ 64 * length b.words
      → test cpu (record b { words = set_range b.words index count }) i
        ≡ (if leb index i && ltb i (index + count) then true else test cpu b i)
  unfolding test
  test-set_range index count i fits = ground (
    arith,
    cpu.bt-eq-bit (set_range b.words index count) i,
    cpu.bt-eq-bit b.words i,
    bit-set_range b.words index count (i / 64) (i % 64),
  )

  -- `clear(index, count)` inside the buffer makes `test` false on the range and leaves every other
  -- bit as it was.
  pub test-clear_range :
      (index count i : ℕ)
      → index + count ≤ 64 * length b.words
      → test cpu (record b { words = clear_range b.words index count }) i
        ≡ (if leb index i && ltb i (index + count) then false else test cpu b i)
  unfolding test
  test-clear_range index count i fits = ground (
    arith,
    cpu.bt-eq-bit (clear_range b.words index count) i,
    cpu.bt-eq-bit b.words i,
    bit-clear_range b.words index count (i / 64) (i % 64),
  )
