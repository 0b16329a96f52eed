-- ===== src/Paging.antt =====
-- src/hvpp/hvpp/ia32/paging.h: the levels of the page-table hierarchy, their descriptors, and the
-- alignment helpers that take a descriptor. An address is a number below 2 ^ 64.
pub mod Align
use hvpp.Prelude.{
  ℕ, ◌+◌, ◌-◌, ◌*◌, ◌^◌, bit_and, ◌==◌, if◌then◌else◌, not, to_bit, not64, add64, shl64, shr, u8,
}

-- `enum class pml : uint8_t`
pub data Pml : Type 0 where
  pt pd pdpt pml4 : Pml

abbrev pub level : Pml → ℕ
level Pml.pt = 0
level Pml.pd = 1
level Pml.pdpt = 2
level Pml.pml4 = 3

-- `pt_t`, `pd_t`, `pdpt_t` and `pml4_t`, named by their level: 512 entries each, and 9 address bits
-- more at each level. `ept_pt_t` and its fellows have the same numbers.
abbrev pub count : ℕ
count = 512

abbrev pub shift : Pml → ℕ
shift Pml.pt = 12
shift Pml.pd = 12 + 9
shift Pml.pdpt = 21 + 9
shift Pml.pml4 = 30 + 9

abbrev pub size : Pml → ℕ
size d = shl64 1 (shift d)

abbrev pub mask : Pml → ℕ
mask d = not64 (size d - 1)

pub page_align : ℕ → Pml → ℕ
page_align va d = bit_and va (mask d)

pub page_align_up : ℕ → Pml → ℕ
page_align_up va d = bit_and (add64 va (size d - 1)) (mask d)

pub byte_offset : ℕ → Pml → ℕ
byte_offset va d = bit_and va (not64 (mask d))

unfoldable pub bytes_to_pages : ℕ → Pml → ℕ
bytes_to_pages n d = shr n (shift d) + to_bit (not (bit_and n (not64 (mask d)) == 0))

pub round_to_pages : ℕ → Pml → ℕ
round_to_pages n d = page_align_up n d
