-- ===== src/Bitmap/All.antt =====
-- `are_bits_set` and `are_bits_clear` against the single bits, and a search for the whole bitmap.
use native.Mathlib.Decide.{dec_le}
use hvpp.Prelude.{
  ℕ, zero, suc, ◌+◌, ◌≤◌, ◌<◌, ◌≡◌, ◌↔◌, inl, inr, refl, sym, ◌∙◌, Bool, true, false, not, none,
  leb, if◌then◌else◌, arith,
}
use hvpp.Bitmap.{
  BitInstructions, Bitmap, test, get_length_of, are_bits, find_first_clear, find_clear_loop,
}
use hvpp.Bitmap.Word.{IsWords}
use hvpp.Bitmap.Run.{IsRun, get_length_of-IsRun}

module _ (cpu : BitInstructions) (run : Bool) (b : Bitmap) (index count : ℕ) where
  -- every bit of the range is `run`
  abbrev pub AllAre : Type 0
  AllAre = (i : ℕ) → index ≤ i → i < index + count → test cpu b i ≡ run

  are_bits-eq :
      are_bits cpu run b index count ≡ true
      → (0 < count)
        × (index + count ≤ b.size_in_bits)
        × (count ≤ get_length_of cpu run b index count)
  unfolding are_bits
  are_bits-eq e = ground arith

  are_bits_all :
      IsRun cpu run b index count (get_length_of cpu run b index count)
      → count ≤ get_length_of cpu run b index count
      → AllAre
  are_bits_all r h i p q = r.same i p (omega arith)

  not_self : (x : Bool) → ¬ (not x ≡ x)
  not_self true e = ground (arith, e)
  not_self false e = ground (arith, e)

  all_long :
      IsRun cpu run b index count (get_length_of cpu run b index count)
      → index + count ≤ b.size_in_bits
      → AllAre
      → count ≤ get_length_of cpu run b index count
  all_long r h all = elim (dec_le count (get_length_of cpu run b index count)) [
    | yes l ↦ l
    | no l ↦ elim r.ends [
      | inl e ↦ omega (arith, e)
      | inr (_, e) ↦ absurd (
          not_self run
            (sym e ∙ all (index + get_length_of cpu run b index count) (omega arith) (omega arith)))
    ]
  ]

  -- `are_bits_set` for `true` and `are_bits_clear` for `false` hold exactly if the range has bits,
  -- lies inside the bitmap and all its bits are so.
  are_bits_iff :
      IsWords b.words
      → (are_bits cpu run b index count ≡ true)
        ↔ ((0 < count) × (index + count ≤ b.size_in_bits) × AllAre)
  unfolding are_bits
  are_bits_iff words = (
    λ e.
        let (pos, inside, long) = are_bits-eq e in
        (
          pos,
          inside,
          are_bits_all (get_length_of-IsRun cpu run b words index count (omega arith)) long,
        ),
    λ (pos, inside, all). ground (
      arith,
      all_long (get_length_of-IsRun cpu run b words index count (omega arith)) inside all,
    ),
  )

loop_full :
    (cpu : BitInstructions) (b : Bitmap) (fuel current : ℕ)
    → find_clear_loop cpu fuel b b.size_in_bits current ≡ none
unfolding find_clear_loop
loop_full cpu b zero current = refl
loop_full cpu b (suc fuel) current = ground arith

-- A search for as many clear bits as the bitmap has always fails, even if all bits are clear.
find_first_clear_full :
    (cpu : BitInstructions) (b : Bitmap) (index : ℕ)
    → 0 < b.size_in_bits
    → find_first_clear cpu b index b.size_in_bits ≡ none
unfolding find_first_clear
find_first_clear_full cpu b index h =
    ground
      (arith, loop_full cpu b (b.size_in_bits + 1) (if leb b.size_in_bits index then 0 else index))
