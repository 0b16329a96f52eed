-- ===== src/Allocator.antt =====
-- `mm::hypervisor_memory_allocator` of
-- src/hvpp/hvpp/lib/mm/memory_allocator/hypervisor_memory_allocator.h and .cpp: a pool of pages with
-- a bitmap of used pages and, for each first page of a block, the block's length.
-- The bitmap and the map are lists of their own; the code keeps them in the pool's first pages,
-- where the two overlap if the pool has fewer than 8 pages (Allocator/Attach.antt). `hvpp_assert`
-- does nothing, as with HVPP_DISABLE_ASSERT, and the spinlock is left out: each function is one
-- step.
pub mod Valid
pub mod Allocate
pub mod Request
pub mod Free
pub mod Attach
pub mod Total
mod Tests
use Prim.Native.Nat.{min}
use hvpp.Prelude.{
  ℕ, ◌+◌, ◌-◌, ◌*◌, ◌/◌, ◌%◌, ◌^◌, Bool, true, false, ◌&&◌, not, Option, none, some, List, [], ltb,
  leb, ◌==◌, if◌then◌else◌, get_or, set, replicate, add64, sub64, u16, u32, bit_and,
}
use hvpp.Bitmap.{BitInstructions, Bitmap, max_int, set_range, clear_range, find_first_clear}
use hvpp.Paging
use hvpp.Paging.{Pml}

-- A 64-bit word is an address, and 0 is the null pointer. Positions are `int`s, and a
-- `last_page_offset` of -1 is `none`.
pub record Allocator : Type 0 where
  pub base_address : ℕ
  pub capacity : ℕ
  pub page_bitmap : Bitmap
  pub page_bitmap_buffer_size : ℕ
  pub page_allocation_map : List ℕ
  pub page_allocation_map_address : ℕ
  pub page_allocation_map_size : ℕ
  pub last_page_offset : Option ℕ
  pub allocated_bytes : ℕ
  pub free_bytes : ℕ

-- `undefined` is behaviour that C++ leaves undefined: a signed overflow or a wild access.
pub data Outcome {ℓ} (A : Type ℓ) : Type ℓ where
  ok : A → Outcome A
  undefined : Outcome A

infixl 5 ◌>>=◌
abbrev pub ◌>>=◌ {ℓ κ} : {A : Type ℓ} {B : Type κ} → Outcome A → (A → Outcome B) → Outcome B
ok a >>= f = f a
undefined >>= f = undefined

abbrev pub page_size : ℕ
page_size = 4096

-- `std::numeric_limits<pgmap_t>::max() - 1`
abbrev pub max_pages : ℕ
max_pages = 2 ^ 16 - 2

-- `static_cast<int>(bytes_to_pages(size))`, as the low 32 bits
pub pages_of : ℕ → ℕ
pages_of size = u32 (Paging.bytes_to_pages size Pml.pt)

module _ (cpu : BitInstructions) where
  -- `page_bitmap_.find_first_clear(last_page_offset_, page_count)`: from -1 the bitmap is read far
  -- outside its buffer, unless the count alone is too large.
  pub find_from : Bitmap → Option ℕ → ℕ → Outcome (Option ℕ)
  find_from b (some i) n = ok (find_first_clear cpu b i n)
  find_from b none n = if ltb b.size_in_bits n then ok none else undefined

  -- What is done under the lock once the pages from `p` on are chosen.
  pub commit : Allocator → ℕ → ℕ → Allocator
  commit a p n = record a {
    page_bitmap = record a.page_bitmap { words = set_range a.page_bitmap.words p n };
    page_allocation_map = set a.page_allocation_map p (u16 n);
    last_page_offset = some (p + n);
    allocated_bytes = add64 a.allocated_bytes (n * page_size);
    free_bytes = sub64 a.free_bytes (n * page_size);
  }

  -- The product `previous_page_offset * page_size` is one of `int`s.
  pub finish : Allocator → ℕ → ℕ → Outcome (Allocator × Option ℕ)
  finish a p n =
      if ltb max_int (p * page_size)
      then undefined
      else ok (commit a p n, some (add64 a.base_address (p * page_size)))

  -- The second search, from 0; where it fails too, `last_page_offset_` stays -1.
  pub retry : Allocator → ℕ → Outcome (Allocator × Option ℕ)
  retry a n = elim (find_first_clear cpu a.page_bitmap 0 n) [
    | some p ↦ finish a p n
    | none ↦ ok (record a { last_page_offset = none }, none)
  ]

  pub choose : Allocator → ℕ → Option ℕ → Outcome (Allocator × Option ℕ)
  choose a n (some p) = finish a p n
  choose a n none = retry a n

  -- A request for `n` pages, once their number is known to be sound.
  pub request : Allocator → ℕ → Outcome (Allocator × Option ℕ)
  request a n = find_from a.page_bitmap a.last_page_offset n >>= choose a n

  -- `none` beside the new state is a null pointer. A negative page count is used as a length.
  pub allocate : Allocator → ℕ → Outcome (Allocator × Option ℕ)
  allocate a size =
      let n = pages_of (if size == 0 then 1 else size) in
      if ltb max_int n then undefined else if ltb max_pages n then ok (a, none) else request a n

-- `size_t(offset)` of the `int` that `free` computes
pub offset_of : Allocator → ℕ → ℕ
offset_of a address =
    let pages = pages_of (sub64 address a.base_address) in
    if ltb max_int pages then 2 ^ 64 - 2 ^ 32 + pages else pages

pub release : Allocator → ℕ → ℕ → Allocator
release a offset n = record a {
  page_bitmap = record a.page_bitmap { words = clear_range a.page_bitmap.words offset n };
  page_allocation_map = set a.page_allocation_map offset 0;
  allocated_bytes = sub64 a.allocated_bytes (n * page_size);
  free_bytes = add64 a.free_bytes (n * page_size);
}

pub free : Allocator → ℕ → Allocator
free a address =
    let offset = offset_of a address in
    let n = get_or a.page_allocation_map offset 0 in
    if address == 0
    then a
    else if ltb a.capacity (offset * page_size % 2 ^ 64)
    then a
    else if n == 0
    then a
    else release a offset n

abbrev pub contains : Allocator → ℕ → Bool
contains a address = leb a.base_address address && ltb address (add64 a.base_address a.capacity)

-- `attach` moves an unaligned address up to the next page and takes what lies before the address in
-- its page off the size.
pub aligned_address : ℕ → ℕ
aligned_address address =
    if Paging.byte_offset address Pml.pt == 0
    then address
    else add64 (Paging.page_align address Pml.pt) page_size

pub aligned_size : ℕ → ℕ → ℕ
aligned_size address size =
    Paging.page_align (sub64 size (Paging.byte_offset address Pml.pt)) Pml.pt

pub bitmap_size : ℕ → ℕ
bitmap_size size = u32 (Paging.round_to_pages (size / page_size / 8) Pml.pt)

pub map_size : ℕ → ℕ
map_size size = u32 (Paging.round_to_pages (size / page_size) Pml.pt * 2)

-- The fields set before the two allocations.
pub prepare : Allocator → ℕ → ℕ → Allocator
prepare a address size = record a {
  base_address = address;
  capacity = size;
  page_bitmap = record {
    words = replicate (bitmap_size size / 8) 0;
    size_in_bits = u32 (size / page_size);
  };
  page_bitmap_buffer_size = bitmap_size size;
  page_allocation_map = replicate (map_size size / 2) 0;
  page_allocation_map_address = address + bitmap_size size;
  page_allocation_map_size = map_size size;
}

module _ (cpu : BitInstructions) where
  -- The returned pointers are only compared in assertions. The pool's contents are not modelled.
  abbrev pub reserve : Allocator → ℕ → Outcome (Allocator × Bool)
  reserve a size = do
    (a1, bitmap_tmp) ← allocate cpu a a.page_bitmap_buffer_size
    (a2, map_tmp) ← allocate cpu a1 a1.page_allocation_map_size
    ok (record a2 { allocated_bytes = 0; free_bytes = size }, true)

  -- `false` is `std::errc::invalid_argument`.
  abbrev pub attach : Allocator → ℕ → ℕ → Outcome (Allocator × Bool)
  attach a address size =
      let size' = aligned_size address size in
      if ltb size (page_size * 3)
      then ok (a, false)
      else if ltb size' (page_size * 3)
      then ok (a, false)
      else reserve (prepare a (aligned_address address) size') size'

-- The leak checks are assertions.
abbrev pub detach : Allocator → Allocator
detach a =
    if a.base_address == 0
    then a
    else record (free (free a a.base_address) a.page_allocation_map_address) {
      base_address = 0;
      capacity = 0;
      page_bitmap_buffer_size = 0;
      page_allocation_map = [];
      page_allocation_map_address = 0;
      page_allocation_map_size = 0;
      last_page_offset = some 0;
      allocated_bytes = 0;
      free_bytes = 0;
    }
