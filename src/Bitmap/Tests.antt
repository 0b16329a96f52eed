-- ===== src/Bitmap/Tests.antt =====
-- Two searches of a bitmap.
use hvpp.Prelude.{◌≡◌, refl, none, some, [], ◌∷◌}
use hvpp.Bitmap.{
  Bitmap, get_length_of, find_first_clear, find_clear_loop, scan_from, scan, read_word,
}
use hvpp.Bitmap.Cpu.{computed_cpu, search_bit}
use hvpp.Prelude.Bits.{bit}

-- bits 0 to 7 and 12 to 69 of 100 are set
abbrev two_runs : Bitmap
two_runs = record { words = 18446744073709547775 ∷ 63 ∷ []; size_in_bits = 100 }

find-two_runs : find_first_clear computed_cpu two_runs 0 4 ≡ some 8
unfolding find_first_clear find_clear_loop get_length_of scan_from scan read_word search_bit bit
find-two_runs = refl

find-two_runs-none : find_first_clear computed_cpu two_runs 0 40 ≡ none
unfolding find_first_clear find_clear_loop get_length_of scan_from scan read_word search_bit bit
find-two_runs-none = refl
