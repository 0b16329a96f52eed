-- ===== src/Paging/Align.antt =====
-- The alignment helpers against division by the page size, at every level.
use native.Mathlib.Nat.{one-le-pow, pow-le-pow_right}
use hvpp.Prelude.{
  ℕ, ◌==◌, ◌+◌, ◌-◌, ◌*◌, ◌/◌, ◌%◌, ◌^◌, ◌≤◌, ◌<◌, ◌≡◌, ap, bit_and, arith, if◌then◌else◌, not64,
  add64,
}
use hvpp.Prelude.Bits.{
  bit, bit-lt, bit-bit_and, bit-mod, bit-not, bit-shl, bit-shr, bit_ext, bit_above,
}
use hvpp.Bitmap.Word.{bit_ones}
use hvpp.Paging.{
  Pml, shift, size, page_align, page_align_up, byte_offset, bytes_to_pages, round_to_pages,
}

-- A mask of `k` low digits is the remainder by `2 ^ k`.
pub bit_and_low : (k x : ℕ) → bit_and x (2 ^ k - 1) ≡ x % 2 ^ k
bit_and_low k x =
    bit_ext (bit_and x (2 ^ k - 1)) (x % 2 ^ k)
      λ i. ground (arith, bit-bit_and x (2 ^ k - 1) i, bit_ones k i, bit-mod x k i, bit-lt x i)

two-pow-le : (k : ℕ) → k ≤ 64 → 2 ^ k ≤ 2 ^ 64
two-pow-le k h = pow-le-pow_right {n = 2} (omega arith) h

-- Its complement clears those digits.
pub bit_and_high :
    (k x : ℕ) → k ≤ 64 → x < 2 ^ 64 → bit_and x (not64 (2 ^ k - 1)) ≡ x / 2 ^ k * 2 ^ k
bit_and_high k x h p = bit_ext (bit_and x (not64 (2 ^ k - 1))) (x / 2 ^ k * 2 ^ k) λ i. ground (
  arith,
  bit-bit_and x (not64 (2 ^ k - 1)) i,
  bit-not 64 (2 ^ k - 1) i,
  two-pow-le k h,
  one-le-pow k 2,
  bit_ones k i,
  bit-shl (x / 2 ^ k) k i,
  bit-shr x k (i - k),
  ap (bit x) {x = k + (i - k)} {y = i},
  bit-lt x i,
  bit_above 64 x i p,
)

-- the page size of a level, as a number
abbrev pub page : Pml → ℕ
page d = 2 ^ shift d

pub page_align-eq : (va : ℕ) (d : Pml) → va < 2 ^ 64 → page_align va d ≡ va / page d * page d
unfolding page_align
page_align-eq va Pml.pt h = bit_and_high 12 va (omega arith) h
page_align-eq va Pml.pd h = bit_and_high 21 va (omega arith) h
page_align-eq va Pml.pdpt h = bit_and_high 30 va (omega arith) h
page_align-eq va Pml.pml4 h = bit_and_high 39 va (omega arith) h

pub page_align_up-eq :
    (va : ℕ) (d : Pml) → page_align_up va d ≡ add64 va (size d - 1) / page d * page d
unfolding page_align_up page_align
page_align_up-eq va d = page_align-eq (add64 va (size d - 1)) d (omega arith)

pub byte_offset-eq : (va : ℕ) (d : Pml) → byte_offset va d ≡ va % page d
unfolding byte_offset
byte_offset-eq va Pml.pt = bit_and_low 12 va
byte_offset-eq va Pml.pd = bit_and_low 21 va
byte_offset-eq va Pml.pdpt = bit_and_low 30 va
byte_offset-eq va Pml.pml4 = bit_and_low 39 va

pub round_to_pages-eq :
    (n : ℕ) (d : Pml) → round_to_pages n d ≡ add64 n (size d - 1) / page d * page d
unfolding round_to_pages
round_to_pages-eq n d = page_align_up-eq n d

pub bytes_to_pages-eq :
    (n : ℕ) (d : Pml) → bytes_to_pages n d ≡ n / page d + (if n % page d == 0 then 0 else 1)
unfolding bytes_to_pages
bytes_to_pages-eq n Pml.pt = ground (arith, bit_and_low 12 n)
bytes_to_pages-eq n Pml.pd = ground (arith, bit_and_low 21 n)
bytes_to_pages-eq n Pml.pdpt = ground (arith, bit_and_low 30 n)
bytes_to_pages-eq n Pml.pml4 = ground (arith, bit_and_low 39 n)

-- At every level `page_align` and `byte_offset` split a 64-bit address into a multiple of the page
-- size and a rest below it.
page_align-byte_offset :
    (va : ℕ) (d : Pml)
    → va < 2 ^ 64
    → (page_align va d + byte_offset va d ≡ va)
      × (page_align va d % size d ≡ 0)
      × (byte_offset va d < size d)
page_align-byte_offset va Pml.pt h =
    omega (arith, page_align-eq va Pml.pt h, byte_offset-eq va Pml.pt)
page_align-byte_offset va d h = omega (arith, page_align-eq va d h, byte_offset-eq va d)

-- At every level, where the addition does not wrap, `page_align_up` gives the least multiple of the
-- page size that is not below the address.
page_align_up_lem :
    (va : ℕ) (d : Pml)
    → va + (size d - 1) < 2 ^ 64
    → (va ≤ page_align_up va d)
      × (page_align_up va d < va + size d)
      × (page_align_up va d % size d ≡ 0)
page_align_up_lem va Pml.pt h = omega (arith, page_align_up-eq va Pml.pt)
page_align_up_lem va d h = omega (arith, page_align_up-eq va d)

-- At every level `bytes_to_pages` is the least number of pages that hold the bytes, and
-- `round_to_pages`, where it does not wrap, is the size of that many pages.
bytes_to_pages_lem :
    (n : ℕ) (d : Pml)
    → n + (size d - 1) < 2 ^ 64
    → (n ≤ bytes_to_pages n d * size d)
      × (bytes_to_pages n d * size d < n + size d)
      × (round_to_pages n d ≡ bytes_to_pages n d * size d)
unfolding round_to_pages
bytes_to_pages_lem n Pml.pt h =
    ground (arith, bytes_to_pages-eq n Pml.pt, page_align_up-eq n Pml.pt)
bytes_to_pages_lem n d h = ground (arith, bytes_to_pages-eq n d, page_align_up-eq n d)
