-- ===== src/Memory.antt =====
-- src/hvpp/hvpp/ia32/memory.h: physical and virtual addresses and ranges of them. An address is a
-- number below 2 ^ 64. The translations between virtual and physical addresses are the kernel's, and
-- are left out, as is `pt_entry`, which reads the page tables at their self-mapping.
pub mod Address
pub mod Range
use hvpp.Prelude.{
  ℕ, ◌+◌, ◌-◌, ◌*◌, ◌/◌, ◌%◌, ◌^◌, bit_and, Bool, ◌&&◌, ◌||◌, not, ltb, leb, ◌==◌, if◌then◌else◌,
  add64, sub64, shl64, shr, u8,
}
use hvpp.Paging.{Pml, level}

-- `enum class memory_type : uint8_t`, by its numbers
pub data MemoryType : Type 0 where
  uncacheable write_combining write_through write_protected write_back invalid : MemoryType

abbrev pub memory_type_code : MemoryType → ℕ
memory_type_code MemoryType.uncacheable = 0
memory_type_code MemoryType.write_combining = 1
memory_type_code MemoryType.write_through = 4
memory_type_code MemoryType.write_protected = 5
memory_type_code MemoryType.write_back = 6
memory_type_code MemoryType.invalid = 255

abbrev pub page_shift : ℕ
page_shift = 12

-- `pa_t::from_pfn`
unfoldable pub from_pfn : ℕ → ℕ
from_pfn frame = shl64 frame page_shift

-- `pa_t::pfn`
unfoldable pub pfn : ℕ → ℕ
pfn pa = shr pa page_shift

-- `va_t::mask`
abbrev pub canonical_mask : ℕ
canonical_mask = 2 ^ 48 - 1

-- `va_t::canonical`
pub canonical : ℕ → ℕ
canonical va = bit_and va canonical_mask

-- `va_t::is_canonical`
pub is_canonical : ℕ → Bool
is_canonical va = leb (add64 (shr va 48) 1) 1

-- `va_t::index`
unfoldable pub index : ℕ → Pml → ℕ
index va l = shr va (page_shift + level l * 9)

-- `va_t::offset`, which `pa_t::offset` repeats
pub offset : ℕ → Pml → ℕ
offset va l = bit_and (index va l) (2 ^ 9 - 1)

-- `memory_range`
pub record MemoryRange : Type 0 where
  pub begin : ℕ
  pub end : ℕ

-- `operator<`, and the comparisons that are made from it
pub range_lt : MemoryRange → MemoryRange → Bool
range_lt a b = ltb a.begin b.begin || (not (ltb b.begin a.begin) && ltb a.end b.end)

abbrev pub range_le : MemoryRange → MemoryRange → Bool
range_le a b = not (range_lt b a)

pub range_eq : MemoryRange → MemoryRange → Bool
range_eq a b = a.begin == b.begin && a.end == b.end

pub from_size : ℕ → ℕ → MemoryRange
from_size base n = record { begin = base; end = add64 base n }

pub contains : MemoryRange → ℕ → Bool
contains r va = leb r.begin va && ltb va r.end

pub size : MemoryRange → ℕ
size r = sub64 r.end r.begin

pub empty : MemoryRange → Bool
empty r = size r == 0

-- `physical_memory_range`
pub record PhysicalMemoryRange : Type 0 where
  pub begin : ℕ
  pub end : ℕ

pub physical_contains : PhysicalMemoryRange → ℕ → Bool
physical_contains r pa = leb r.begin pa && ltb pa r.end

abbrev pub physical_size : PhysicalMemoryRange → ℕ
physical_size r = sub64 r.end r.begin
