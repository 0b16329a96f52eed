-- ===== src/Mtrr.antt =====
-- The memory type of a physical address: `mm::mtrr_descriptor_t` of
-- src/hvpp/hvpp/lib/mm/mtrr_descriptor.h, with the registers of src/hvpp/hvpp/ia32/msr/mtrr.h.
-- `msr` is what the processor's registers hold, by their number.
pub mod Precedence
mod Tests
use hvpp.Prelude.{
  ℕ, zero, suc, ◌+◌, ◌-◌, ◌*◌, ◌/◌, ◌%◌, ◌^◌, Bool, true, false, ◌&&◌, ◌||◌, List, [], ◌∷◌, ◌++◌,
  ◌==◌, if◌then◌else◌, add64, shl64, shr, get_or,
}
use hvpp.Prelude.Bits.{bit}
use hvpp.Bitmap.{BitInstructions}
use hvpp.Memory.{PhysicalMemoryRange, physical_contains, from_pfn}

-- a `memory_type` by its number: the registers may hold any byte
abbrev pub uncacheable : ℕ
uncacheable = 0

abbrev pub write_through : ℕ
write_through = 4

abbrev pub write_back : ℕ
write_back = 6

abbrev pub invalid : ℕ
invalid = 255

pub record MtrrRange : Type 0 where
  pub range : PhysicalMemoryRange
  pub type : ℕ

-- `variable` holds the first `variable_count_` entries.
pub record Descriptor : Type 0 where
  pub fixed : List MtrrRange
  pub variable : List MtrrRange
  pub default_memory_type : ℕ

-- The body of the loop in `type` for a range that contains the address, after the test that breaks.
pub overlap : ℕ → MtrrRange → ℕ
overlap result item =
    if result == write_back && (result == write_through || item.type == write_through)
    then write_through
    else result

-- The loop over all ranges works on a copy of each entry, and `is_fixed` compares the address of that
-- copy, a local variable, with the array `variable_`. So it answers alike for every entry: `below` is
-- whether the variable lies below the array in memory.
pub range_loop : Bool → List MtrrRange → ℕ → ℕ → ℕ
range_loop below [] pa result = result
range_loop below (item ∷ items) pa result =
    if physical_contains item.range pa
    then (if below || item.type == uncacheable
        then item.type
        else range_loop below items pa (overlap result item))
    else range_loop below items pa result

pub memory_type_of : Bool → Descriptor → ℕ → ℕ
memory_type_of below d pa =
    let result = range_loop below (d.fixed ++ d.variable) pa invalid in
    if result == invalid then d.default_memory_type else result

-- a fixed-range register: its number, the first address and the size of its 8 ranges
pub record FixedRegister : Type 0 where
  pub msr_id : ℕ
  pub mtrr_base : ℕ
  pub mtrr_size : ℕ

abbrev register : ℕ → ℕ → ℕ → FixedRegister
register i b s = record { msr_id = i; mtrr_base = b; mtrr_size = s }

-- `mtrr_fix_list_t`
abbrev pub fixed_registers : List FixedRegister
fixed_registers =
    register 592 0 65536
    ∷ register 600 524288 16384
    ∷ register 601 655360 16384
    ∷ register 616 786432 4096
    ∷ register 617 819200 4096
    ∷ register 618 851968 4096
    ∷ register 619 884736 4096
    ∷ register 620 917504 4096
    ∷ register 621 950272 4096
    ∷ register 622 983040 4096
    ∷ register 623 1015808 4096
    ∷ []

-- the ranges of one register, `n` of them still to come, from the byte `i` on
abbrev pub register_ranges : ℕ → ℕ → ℕ → ℕ → ℕ → List MtrrRange
register_ranges zero i types range mtrr_size = []
register_ranges (suc n) i types range mtrr_size =
    record {
      range = record { begin = range; end = add64 range mtrr_size };
      type = shr types (8 * i) % 2 ^ 8;
    }
    ∷ register_ranges n (i + 1) types (add64 range mtrr_size) mtrr_size

module _ (msr : ℕ → ℕ) where
  abbrev pub fixed_ranges : List FixedRegister → List MtrrRange
  fixed_ranges [] = []
  fixed_ranges (r ∷ rs) =
      register_ranges 8 0 (msr r.msr_id) r.mtrr_base r.mtrr_size ++ fixed_ranges rs

  -- `mtrr_capabilities_t` is register 0xfe, `mtrr_def_type_t` 0x2ff. Where the fixed ranges are
  -- off, the array keeps what it held.
  abbrev pub check_fixed : List MtrrRange → List MtrrRange
  check_fixed old =
      if bit (msr 254) 8 == 1 && bit (msr 767) 10 == 1 then fixed_ranges fixed_registers else old

  abbrev pub default_type : ℕ
  default_type = msr 767 % 2 ^ 8

  module _ (cpu : BitInstructions) where
    -- The entry of pair `i` of the registers from 0x200 and 0x201 on, or what the array held.
    abbrev pub variable_range : ℕ → MtrrRange → MtrrRange
    variable_range i old =
        let mtrr_base = msr (512 + i * 2) in
        let mtrr_mask = msr (513 + i * 2) in
        let frame = shr mtrr_base 12 % 2 ^ 36 in
        let size = shl64 1 (cpu.bsf (shr mtrr_mask 12 % 2 ^ 36)) in
        if bit mtrr_mask 11 == 1
        then record {
          range = record { begin = from_pfn frame; end = from_pfn (add64 frame size) };
          type = mtrr_base % 2 ^ 8;
        }
        else old

    abbrev pub check_variable : ℕ → ℕ → List MtrrRange → List MtrrRange
    check_variable zero i old = []
    check_variable (suc n) i old =
        variable_range i (get_or old i (record { range = record { begin = 0; end = 0 }; type = 0 }))
        ∷ check_variable n (i + 1) old
