-- ===== src/Allocator/Attach.antt =====
-- How `attach` cuts the pool out of the memory that it is given.
use hvpp.Prelude.{ℕ, ◌+◌, ◌-◌, ◌*◌, ◌/◌, ◌%◌, ◌^◌, ◌≤◌, ◌<◌, ◌≡◌, arith, ◌==◌, if◌then◌else◌, sub64}
use hvpp.Paging.{Pml}
use hvpp.Paging.Align.{page_align-eq, byte_offset-eq, round_to_pages-eq}
use hvpp.Allocator.{
  Allocator, prepare, aligned_address, aligned_size, page_size, bitmap_size, map_size,
}

aligned_address-eq :
    (address : ℕ)
    → address + page_size < 2 ^ 64
    → aligned_address address
      ≡ (if address % page_size == 0 then address else address / page_size * page_size + page_size)
unfolding aligned_address
aligned_address-eq address h =
    ground (arith, byte_offset-eq address Pml.pt, page_align-eq address Pml.pt)

aligned_size-eq :
    (address size : ℕ)
    → address % page_size ≤ size
    → size < 2 ^ 64
    → aligned_size address size ≡ (size - address % page_size) / page_size * page_size
unfolding aligned_size
aligned_size-eq address size h p =
    rw (byte_offset-eq address Pml.pt)
      (ground (arith, page_align-eq (sub64 size (address % page_size)) Pml.pt))

-- For a page-aligned address the pool is the largest run of whole pages in the given memory.
attach_aligned :
    (address size : ℕ)
    → address + page_size < 2 ^ 64
    → size < 2 ^ 64
    → address % page_size ≡ 0
    → (aligned_address address ≡ address)
      × (aligned_size address size ≤ size)
      × (size < aligned_size address size + page_size)
attach_aligned address size h p e =
    ground (arith, aligned_address-eq address h, aligned_size-eq address size)

-- For an address that lies `r` bytes into its page, with `r` below half a page, and a size that is `r`
-- bytes over whole pages, the pool runs past the end of the given memory by `page_size - 2 * r`
-- bytes: `attach` moves the address up by `page_size - r` but takes only `r` off the size.
attach_overrun :
    (address size : ℕ)
    → address + page_size < 2 ^ 64
    → size < 2 ^ 64
    → 0 < address % page_size
    → address % page_size < page_size / 2
    → address % page_size ≤ size
    → size % page_size ≡ address % page_size
    → aligned_address address + aligned_size address size
      ≡ address + size + (page_size - 2 * (address % page_size))
attach_overrun address size h p low half fits e =
    ground (arith, aligned_address-eq address h, aligned_size-eq address size)

-- A pool of 8 pages up to 2 ^ 27 bytes reserves a bitmap with a bit, and a map with 16 bits, for each
-- page.
reserved_sizes :
    (size : ℕ)
    → 8 * page_size ≤ size
    → size ≤ 2 ^ 27
    → (size / page_size ≤ 8 * bitmap_size size) × (2 * (size / page_size) ≤ map_size size)
unfolding bitmap_size map_size
reserved_sizes size h p = ground (
  arith,
  round_to_pages-eq (size / page_size / 8) Pml.pt,
  round_to_pages-eq (size / page_size) Pml.pt,
)

-- A pool of 3 to 7 pages reserves no byte for the bitmap, so that the map begins at its address.
reserved_overlap :
    (a : Allocator) (address size : ℕ)
    → 3 * page_size ≤ size
    → size < 8 * page_size
    → (bitmap_size size ≡ 0)
      × ((prepare a address size).page_allocation_map_address ≡ address)
      × (0 < (prepare a address size).page_bitmap.size_in_bits)
unfolding bitmap_size prepare
reserved_overlap a address size h p =
    ground (arith, round_to_pages-eq (size / page_size / 8) Pml.pt)
