-- ===== src/Segment.antt =====
-- Segment selectors, descriptors and descriptor tables of src/hvpp/hvpp/ia32/arch/segment.h.
-- `segment_access_t` is its 16 bits, `flags`; a descriptor is read from the bytes of memory where it lies.
-- What LAR, LSL and RDMSR answer is in `Hardware`, and `ia32_asm_int3` is a mark in the result.
pub mod Descriptor
pub mod Bytes
mod Tests
use hvpp.Prelude.{
  ℕ, zero, suc, ◌+◌, ◌-◌, ◌*◌, ◌/◌, ◌%◌, ◌^◌, bit_or, Bool, true, false, not, List, [], ◌∷◌, ◌==◌,
  if◌then◌else◌, u8, u16, u32, add64,
}
use hvpp.Prelude.Bits.{bit}

-- `segment_selector_t`, by its `flags`
abbrev pub request_privilege_level : ℕ → ℕ
request_privilege_level selector = selector % 4

abbrev pub table : ℕ → ℕ
table selector = selector / 4 % 2

abbrev pub index : ℕ → ℕ
index selector = selector / 8 % 2 ^ 13

-- `segment_access_t`, by its `flags`
abbrev pub access_type : ℕ → ℕ
access_type access = access % 16

abbrev pub descriptor_type : ℕ → ℕ
descriptor_type access = access / 2 ^ 4 % 2

abbrev pub descriptor_privilege_level : ℕ → ℕ
descriptor_privilege_level access = access / 2 ^ 5 % 4

abbrev pub limit_high : ℕ → ℕ
limit_high access = access / 2 ^ 8 % 16

abbrev pub long_mode : ℕ → ℕ
long_mode access = access / 2 ^ 13 % 2

-- `access.limit_high = value`
pub with_limit_high : ℕ → ℕ → ℕ
with_limit_high access value = access % 2 ^ 8 + value % 16 * 2 ^ 8 + access / 2 ^ 12 * 2 ^ 12

pub record GdtEntry : Type 0 where
  pub limit_low : ℕ
  pub base_address_low : ℕ
  pub base_address_middle : ℕ
  pub access : ℕ
  pub base_address_high : ℕ
  pub base_address_upper : ℕ
  pub must_be_zero : ℕ

pub base_address : GdtEntry → ℕ
base_address e =
    let low =
      bit_or (bit_or e.base_address_low (e.base_address_middle * 2 ^ 16))
        (e.base_address_high * 2 ^ 24) in
    if descriptor_type e.access == 0 then bit_or low (e.base_address_upper * 2 ^ 32) else low

-- `base_address(value)`
pub set_base_address : GdtEntry → ℕ → GdtEntry
set_base_address e value = record e {
  base_address_low = u16 value;
  base_address_middle = u8 (value / 2 ^ 16);
  base_address_high = u8 (value / 2 ^ 24);
  base_address_upper = u32 (value / 2 ^ 32);
}

pub limit : GdtEntry → ℕ
limit e = bit_or e.limit_low (limit_high e.access * 2 ^ 16)

-- `limit(value)`
pub set_limit : GdtEntry → ℕ → GdtEntry
set_limit e value = record e {
  limit_low = u16 value;
  access = with_limit_high e.access (u16 (value / 2 ^ 16));
}

-- The lowest byte comes first.
unfoldable pub read_bytes : (ℕ → ℕ) → ℕ → ℕ → ℕ
read_bytes memory a zero = 0
read_bytes memory a (suc n) = u8 (memory a) + 256 * read_bytes memory (add64 a 1) n

-- `n` bytes of `value` at `a`
unfoldable pub write_bytes : (ℕ → ℕ) → ℕ → ℕ → ℕ → ℕ → ℕ
write_bytes memory a zero value x = memory x
write_bytes memory a (suc n) value x =
    if x == a then u8 value else write_bytes memory (add64 a 1) n (value / 256) x

-- `gdt_entry_t` at an address
unfoldable pub entry_at : (ℕ → ℕ) → ℕ → GdtEntry
entry_at memory a = record {
  limit_low = read_bytes memory a 2;
  base_address_low = read_bytes memory (add64 a 2) 2;
  base_address_middle = read_bytes memory (add64 a 4) 1;
  access = read_bytes memory (add64 a 5) 2;
  base_address_high = read_bytes memory (add64 a 7) 1;
  base_address_upper = read_bytes memory (add64 a 8) 4;
  must_be_zero = read_bytes memory (add64 a 12) 4;
}

pub record DescriptorTable : Type 0 where
  pub limit : ℕ
  pub base_address : ℕ

-- the address of `descriptor_table64_t::at(selector)` and of `gdt_entry_t::at(selector)`
unfoldable pub at : ℕ → ℕ → ℕ
at base selector = add64 base (index selector * 8)

-- `segment_t`
pub record Segment : Type 0 where
  pub base_address : ℕ
  pub limit : ℕ
  pub access : ℕ
  pub unusable : ℕ
  pub selector : ℕ

-- The template argument of `segment_t`, as far as the constructor asks.
pub data Register : Type 0 where
  fs gs other : Register

pub record Hardware : Type 0 where
  pub read_ar : ℕ → ℕ
  pub read_sl : ℕ → ℕ
  pub fs_base : ℕ
  pub gs_base : ℕ
  pub ldtr : ℕ

module _ (hw : Hardware) (memory : ℕ → ℕ) where
  -- `table_entry.base_address()`
  pub base_of : DescriptorTable → ℕ → ℕ
  base_of t selector =
      if table selector == 0
      then base_address (entry_at memory (at t.base_address selector))
      else base_address (
          entry_at memory
            (at (base_address (entry_at memory (at t.base_address hw.ldtr))) selector))

  -- `segment_t(descriptor_table, segment_selector)`, and whether it reaches the breakpoint
  pub segment : Register → DescriptorTable → ℕ → Segment × Bool
  segment register t selector =
      if selector == 0
      then (record { base_address = 0; limit = 0; access = 0; unusable = 1; selector = 0 }, false)
      else (
        record {
          base_address = elim register [
            | Register.fs ↦ hw.fs_base
            | Register.gs ↦ hw.gs_base
            | Register.other ↦ base_of t selector
          ];
          limit = hw.read_sl selector;
          access = with_limit_high (u16 (hw.read_ar selector / 2 ^ 8)) 0;
          unusable = 0;
          selector = selector;
        },
        elim register [ Register.other ↦ not (table selector == 0) | _ ↦ false ],
      )
