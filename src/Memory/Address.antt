-- ===== src/Memory/Address.antt =====
-- Page frame numbers, canonical addresses and page-table offsets.
use hvpp.Prelude.{ℕ, ◌+◌, ◌*◌, ◌%◌, ◌^◌, ◌<◌, ◌≡◌, ◌↔◌, arith, true}
use hvpp.Paging.{Pml, byte_offset, page_align}
use hvpp.Paging.Align.{bit_and_low, byte_offset-eq, page_align-eq}
use hvpp.Memory.{from_pfn, pfn, canonical, is_canonical, index, offset}

-- A page frame number of at most 52 bits comes back from its address, and the address of the frame
-- number of any 64-bit address is that address cut down to its page.
from_pfn-pfn :
    (frame pa : ℕ)
    → frame < 2 ^ 52
    → pa < 2 ^ 64
    → (pfn (from_pfn frame) ≡ frame) × (from_pfn (pfn pa) ≡ page_align pa Pml.pt)
unfolding from_pfn pfn
from_pfn-pfn frame pa h p = (omega arith, omega (arith, page_align-eq pa Pml.pt p))

-- `is_canonical` holds exactly for the 64-bit addresses below 2 ^ 48, where `canonical` changes
-- nothing; the canonical addresses of the upper half are not among them.
is_canonical_iff :
    (va : ℕ)
    → va < 2 ^ 64
    → ((is_canonical va ≡ true) ↔ (va < 2 ^ 48)) × ((canonical va ≡ va) ↔ (va < 2 ^ 48))
unfolding is_canonical canonical
is_canonical_iff va h = (ground arith, ground (arith, bit_and_low 48 va))

pub offset-eq : (va : ℕ) (l : Pml) → offset va l ≡ index va l % 2 ^ 9
unfolding offset
offset-eq va l = bit_and_low 9 (index va l)

-- An address below 2 ^ 48 is put together again from its offsets at the four levels, each of them
-- below 512, and its offset in the page.
offset_lem :
    (va : ℕ) (l : Pml)
    → va < 2 ^ 48
    → (offset va Pml.pml4 * 2 ^ 39
          + offset va Pml.pdpt * 2 ^ 30
          + offset va Pml.pd * 2 ^ 21
          + offset va Pml.pt * 2 ^ 12
          + byte_offset va Pml.pt
        ≡ va)
      × (offset va l < 512)
unfolding index
offset_lem va l h = (
  omega (
    arith,
    offset-eq va Pml.pml4,
    offset-eq va Pml.pdpt,
    offset-eq va Pml.pd,
    offset-eq va Pml.pt,
    byte_offset-eq va Pml.pt,
  ),
  omega (arith, offset-eq va l),
)
