-- ===== src/Bitmap/Cpu.antt =====
-- A processor whose bit instructions are computed: the laws of `BitInstructions` can hold.
use native.Mathlib.Decide.{dec_lt}
use hvpp.Prelude.{
  ℕ, zero, suc, ◌+◌, ◌/◌, ◌%◌, ◌^◌, ◌≤◌, ◌<◌, ◌≡◌, ◌≢◌, inl, inr, refl, sym, ap, ◌∙◌, arith, ◌==◌,
  if◌then◌else◌, get_or, Bool-cases,
}
use hvpp.Prelude.Bits.{bit, bit-lt, bit_zero, bit_above, bit_ext}
use hvpp.Bitmap.{BitInstructions}

-- the first position from `i` on, `n` of them at most, whose bit is set
unfoldable pub search_bit : ℕ → ℕ → ℕ → ℕ
search_bit zero i x = i
search_bit (suc n) i x = let rest = search_bit n (i + 1) x in if bit x i == 1 then i else rest

search_bit-le : (n i x : ℕ) → (i ≤ search_bit n i x) × (search_bit n i x ≤ i + n)
unfolding search_bit
search_bit-le zero i x = (omega arith, omega arith)
search_bit-le (suc n) i x = ground (arith, search_bit-le n (i + 1) x)

pub search_bit_below : (n i x j : ℕ) → i ≤ j → j < search_bit n i x → bit x j ≡ 0
unfolding search_bit
search_bit_below zero i x j h p = absurd (omega arith)
search_bit_below (suc n) i x j h p = elim (Bool-cases (bit x i == 1)) [
  | inl e ↦ absurd (ground arith)
  | inr e ↦ elim (Bool-cases (i == j)) [
    | inl f ↦ ap (bit x) {x = j} {y = i} (ground arith) ∙ ground (arith, bit-lt x i)
    | inr f ↦ search_bit_below n (i + 1) x j (ground arith) (ground arith)
  ]
]

pub search_bit_set : (n i x : ℕ) → search_bit n i x < i + n → bit x (search_bit n i x) ≡ 1
unfolding search_bit
search_bit_set zero i x h = absurd (omega arith)
search_bit_set (suc n) i x h = ground (arith, search_bit_set n (i + 1) x)

pub search_bit-lt : (x : ℕ) → x ≢ 0 → x < 2 ^ 64 → search_bit 64 0 x < 64
search_bit-lt x h p = elim (dec_lt (search_bit 64 0 x) 64) [
  | yes l ↦ l
  | no l ↦ absurd (h (bit_ext x 0 (no_bit l)))
]
  where
    no_bit : ¬ (search_bit 64 0 x < 64) → (i : ℕ) → bit x i ≡ bit 0 i
    no_bit l i = elim (dec_lt i 64) [
      | yes below ↦ search_bit_below 64 0 x i (omega arith) (omega arith) ∙ sym (bit_zero i)
      | no above ↦ bit_above 64 x i p (omega arith) ∙ sym (bit_zero i)
    ]

abbrev pub computed_cpu : BitInstructions
computed_cpu = record {
  bsf = λ x. search_bit 64 0 x;
  bt = λ words i. bit (get_or words (i / 64) 0) (i % 64);
  bsf-lt = search_bit-lt;
  bsf_set = λ x h p. search_bit_set 64 0 x (search_bit-lt x h p);
  bsf_below = λ x i h p l. search_bit_below 64 0 x i (omega arith) l;
  bt-eq-bit = λ words i. refl;
}
