-- ===== src/Memory/Range.antt =====
-- Ranges of addresses: membership and order.
use hvpp.Prelude.{ℕ, ◌+◌, ◌^◌, ◌<◌, ◌≡◌, ◌↔◌, arith, true, sub64, to_bit}
use hvpp.Memory.{MemoryRange, range_lt, range_eq, from_size, contains, size, empty}

-- A range that is made of an address and a size, and does not wrap, has that size, is empty exactly
-- for the size 0, and holds exactly the addresses from its beginning on that are less than the size
-- away.
from_size_lem :
    (base n va : ℕ)
    → base + n < 2 ^ 64
    → va < 2 ^ 64
    → (size (from_size base n) ≡ n)
      × ((empty (from_size base n) ≡ true) ↔ (n ≡ 0))
      × ((contains (from_size base n) va ≡ true) ↔ (sub64 va base < n))
unfolding size from_size empty contains
from_size_lem base n va h p = (ground arith, ground arith, ground arith)

-- For two ranges exactly one of `<`, `==` and `>` holds.
range_lt_total :
    (a b : MemoryRange) → to_bit (range_lt a b) + to_bit (range_eq a b) + to_bit (range_lt b a) ≡ 1
unfolding range_lt range_eq
range_lt_total a b = ground arith

-- `operator<` on ranges is transitive.
range_lt_trans :
    (a b c : MemoryRange) → range_lt a b ≡ true → range_lt b c ≡ true → range_lt a c ≡ true
unfolding range_lt
range_lt_trans a b c h p = ground arith
