-- ===== src/Mtrr/Tests.antt =====
-- The memory types of a machine with one fixed and two variable ranges.
use hvpp.Prelude.{true, ◌++◌, ◌≡◌, [], ◌∷◌, ◌==◌, if◌then◌else◌}
use hvpp.Mtrr.{Descriptor, memory_type_of, invalid}
use hvpp.Mtrr.Precedence.{matched, memory_type_of_lem}

abbrev three_ranges : Descriptor
three_ranges = record {
  fixed = record { range = record { begin = 0; end = 65536 }; type = 6 } ∷ [];
  variable =
      record { range = record { begin = 1048576; end = 2097152 }; type = 4 }
      ∷ record { range = record { begin = 1572864; end = 2097152 }; type = 0 }
      ∷ [];
  default_memory_type = 6;
}

memory_type_of_lem_example : memory_type_of true three_ranges 1600000 ≡ (
    let t = matched true (three_ranges.fixed ++ three_ranges.variable) 1600000 in
    if t == invalid then three_ranges.default_memory_type else t)
memory_type_of_lem_example = memory_type_of_lem true three_ranges 1600000
