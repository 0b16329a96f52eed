-- ===== src/Bitmap/Find.antt =====
-- `find_first_clear(index, count)` looks for a run of clear bits.
use native.Mathlib.Decide.{dec_lt, dec_le}
use hvpp.Prelude.{
  ℕ, zero, suc, ◌+◌, ◌≤◌, ◌<◌, ◌≡◌, ◌⊎◌, ap, Bool, none, some, true, false, leb, if◌then◌else◌,
  arith, Bool-cases, inl, inr,
}
use hvpp.Bitmap.{
  BitInstructions, Bitmap, test, get_length_of, max_int, find_clear_loop, find_first_clear,
}
use hvpp.Bitmap.Word.{IsWords}
use hvpp.Bitmap.Run.{IsRun, get_length_of-IsRun}

module _ (cpu : BitInstructions) (b : Bitmap) where
  -- `count` clear bits from `p` on
  abbrev pub IsFree : ℕ → ℕ → Type 0
  IsFree p count = (i : ℕ) → p ≤ i → i < p + count → test cpu b i ≡ false

  length_past_end :
      (run : Bool) (index count : ℕ)
      → b.size_in_bits ≤ index
      → get_length_of cpu run b index count ≡ 0
  unfolding get_length_of
  length_past_end run index count h = ground arith

  module _ (words : IsWords b.words) (count : ℕ) where
    -- A run of length 0 is measured at the end.
    measured :
        (run : Bool) (index n : ℕ)
        → index ≤ b.size_in_bits
        → IsRun cpu run b index n (get_length_of cpu run b index n)
    measured run index n h = elim (dec_lt index b.size_in_bits) [
      | yes p ↦ get_length_of-IsRun cpu run b words index n p
      | no p ↦ rw (length_past_end run index n (omega arith)) (record {
        fits = omega arith;
        same = λ i q r. absurd (omega arith);
        ends = inl (omega arith);
      })
    ]

    -- One round of the loop: what the skipped run and the measured run are.
    abbrev start_of : ℕ → ℕ
    start_of current = current + get_length_of cpu true b current max_int

    abbrev found_at : ℕ → ℕ
    found_at current = get_length_of cpu false b (start_of current) count

    skipped :
        (current : ℕ)
        → current ≤ b.size_in_bits
        → IsRun cpu true b current max_int (get_length_of cpu true b current max_int)
    skipped current h = measured true current max_int h

    round :
        (current : ℕ)
        → current ≤ b.size_in_bits
        → IsRun cpu false b (start_of current) count (found_at current)
    round current h = measured false (start_of current) count (skipped current h).fits

    -- A long enough run is free.
    found-IsFree :
        (current p : ℕ)
        → current ≤ b.size_in_bits
        → count ≤ found_at current
        → p ≡ start_of current
        → (p + count ≤ b.size_in_bits) × IsFree p count
    found-IsFree current p h long e = (
      omega (arith, (round current h).fits),
      λ i q r. (round current h).same i (omega arith) (omega arith),
    )

    loop_sound :
        (fuel current : ℕ) {p : ℕ}
        → current ≤ b.size_in_bits
        → find_clear_loop cpu fuel b count current ≡ some p
        → (current ≤ p) × (p + count ≤ b.size_in_bits) × IsFree p count
    unfolding find_clear_loop
    loop_sound zero current h e = cc
    loop_sound (suc fuel) current {p = p} h e = elim (Bool-cases (leb count (found_at current))) [
      | inl long ↦
          let at : p ≡ start_of current = ground arith in
          let free = found-IsFree current p h (ground arith) at in (omega arith, free.0, free.1)
      | inr short ↦
          let rest =
            loop_sound fuel (start_of current + found_at current) {p = p} (round current h).fits
              (ground arith) in
          (omega (arith, rest.0), rest.1, rest.2)
    ]

    module _ (small : b.size_in_bits ≤ max_int) (pos : 0 < count) where
      -- A round that goes on has moved forward.
      progress :
          (current : ℕ) → current < b.size_in_bits → current < start_of current + found_at current
      progress current h = ground (
        arith,
        (skipped current (omega arith)).ends,
        (round current (omega arith)).ends,
        (skipped current (omega arith)).fits,
        ap (test cpu b) {x = start_of current + found_at current} {y = current},
        ap (test cpu b) {x = start_of current} {y = current},
      )

      -- No run starts where a round has passed.
      passed :
          (current p : ℕ)
          → current < b.size_in_bits
          → found_at current < count
          → current ≤ p
          → p + count < b.size_in_bits
          → p ≤ start_of current + found_at current
          → ¬ IsFree p count
      passed current p h few q r le free = elim (dec_lt p (start_of current)) [
        | yes before ↦
            cc ((skipped current (omega arith)).same p q before, free p (omega arith) (omega arith))
        | no after ↦ ground (
          arith,
          (round current (omega arith)).ends,
          free (start_of current + found_at current) le,
        )
      ]

      loop_complete :
          (fuel current : ℕ)
          → b.size_in_bits < fuel + current
          → current ≤ b.size_in_bits
          → find_clear_loop cpu fuel b count current ≡ none
          → (p : ℕ) → current ≤ p
          → p + count < b.size_in_bits
          → ¬ IsFree p count
      unfolding find_clear_loop
      loop_complete zero current f h e p q r free = absurd (omega arith)
      loop_complete (suc fuel) current f h e p q r free =
          elim (dec_le p (start_of current + found_at current)) [
            | yes le ↦ passed current p (omega arith) (ground arith) q r le free
            | no past ↦
                loop_complete fuel (start_of current + found_at current)
                  (omega (arith, progress current (omega arith))) (round current h).fits
                  (ground arith) p (omega arith) r free
          ]

module _ (cpu : BitInstructions) (b : Bitmap) (index count : ℕ) (words : IsWords b.words) where
  -- What `find_first_clear(index, count)` returns for a positive count is the start of `count` clear
  -- bits inside the bitmap, at or after `index` if that is a position of the bitmap.
  pub find_first_clear_sound :
      {p : ℕ}
      → 0 < count
      → find_first_clear cpu b index count ≡ some p
      → (p + count ≤ b.size_in_bits)
        × ((index ≤ p) ⊎ (b.size_in_bits ≤ index))
        × ((i : ℕ) → p ≤ i → i < p + count → test cpu b i ≡ false)
  unfolding find_first_clear
  find_first_clear_sound {p = p} pos e =
      let rest =
        loop_sound cpu b words count (b.size_in_bits + 1) start {p = p} (ground arith)
          (ground arith) in
      (rest.1, ground (arith, rest.0), rest.2)
    where
      start : ℕ
      start = if leb b.size_in_bits index then 0 else index

  -- If `find_first_clear(index, count)` returns -1 for a positive count in a bitmap whose size is an
  -- `int`, then no `count` clear bits start at or after `index` and end before the last bit.
  pub find_first_clear_complete :
      b.size_in_bits ≤ max_int
      → 0 < count
      → index < b.size_in_bits
      → find_first_clear cpu b index count ≡ none
      → (p : ℕ) → index ≤ p
      → p + count < b.size_in_bits
      → ¬ IsFree cpu b p count
  unfolding find_first_clear
  find_first_clear_complete small pos inside e p q r =
      loop_complete cpu b words count small pos (b.size_in_bits + 1) index (omega arith)
        (omega arith) (ground arith) p q r
