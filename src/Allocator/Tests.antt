-- ===== src/Allocator/Tests.antt =====
-- The allocator's theorems at a pool of 16 pages.
use hvpp.Prelude.{
  ℕ, zero, suc, ◌+◌, ◌*◌, ◌≤◌, ◌<◌, ◌≡◌, refl, arith, true, false, ◌&&◌, ltb, leb, ◌==◌,
  if◌then◌else◌, Option, some, none, [], ◌∷◌, replicate, get_or,
}
use hvpp.Prelude.Bits.{bit}
use hvpp.Paging.{bytes_to_pages}
use hvpp.Bitmap.{
  test, find_first_clear, find_clear_loop, get_length_of, scan_from, scan, read_word, set_range,
  set_words, memset, fill,
}
use hvpp.Bitmap.Cpu.{computed_cpu, search_bit}
use hvpp.Bitmap.Word.{IsWords}
use hvpp.Allocator.{
  Allocator, ok, page_size, max_pages, pages_of, find_from, commit, finish, retry, choose, request,
  allocate, free,
}
use hvpp.Allocator.Valid.{pages_at, is_used, IsValid}
use hvpp.Allocator.Request.{allocate_lem, allocate_exhausted}
use hvpp.Allocator.Total.{allocate_total, allocate_succeeds}
use hvpp.Allocator.Free.{free-allocate}

-- no page is in use
abbrev pool : Allocator
pool = record {
  base_address = 1048576;
  capacity = 65536;
  page_bitmap = record { words = 0 ∷ []; size_in_bits = 16 };
  page_bitmap_buffer_size = 4096;
  page_allocation_map = replicate 16 0;
  page_allocation_map_address = 1052672;
  page_allocation_map_size = 8192;
  last_page_offset = some 0;
  allocated_bytes = 0;
  free_bytes = 65536;
}

-- two pages are in use
abbrev pool_two : Allocator
pool_two = record pool {
  page_bitmap = record { words = 3 ∷ []; size_in_bits = 16 };
  page_allocation_map = 2 ∷ replicate 15 0;
  last_page_offset = some 2;
  allocated_bytes = 8192;
  free_bytes = 57344;
}

get_or-replicate : (n o : ℕ) → get_or {A = ℕ} (replicate n 0) o 0 ≡ 0
get_or-replicate zero o = refl
get_or-replicate (suc n) zero = refl
get_or-replicate (suc n) (suc o) = get_or-replicate n o

pool-IsWords : IsWords pool.page_bitmap.words
pool-IsWords zero = omega arith
pool-IsWords (suc m) = omega arith

pool-IsValid : IsValid computed_cpu pool
pool-IsValid = record {
  words = pool-IsWords;
  bits_fit = omega arith;
  map_fits = omega arith;
  whole = refl;
  below_int = omega arith;
  based = omega arith;
  below_top = omega arith;
  inside = λ o h. absurd (omega (arith, get_or-replicate 16 o));
  used = λ o h. absurd (omega (arith, get_or-replicate 16 o));
  apart = λ o o' l h. absurd (omega (arith, get_or-replicate 16 o));
}

allocate-pool : allocate computed_cpu pool 8192 ≡ ok (pool_two, some 1048576)
unfolding allocate pages_of bytes_to_pages request find_from choose finish commit find_first_clear
    find_clear_loop get_length_of scan_from scan read_word search_bit bit set_range set_words memset
    fill
allocate-pool = refl

two_pages : pages_of 8192 ≡ 2
unfolding pages_of bytes_to_pages
two_pages = refl

allocate_lem_example :
    (p : ℕ) × (1048576 ≡ 1048576 + p * page_size)
    × (p + pages_of 8192 ≤ 16)
    × ((i : ℕ) → p ≤ i → i < p + pages_of 8192 → is_used computed_cpu pool i ≡ false)
    × ((i : ℕ)
        → is_used computed_cpu pool_two i
          ≡ (if leb p i && ltb i (p + pages_of 8192) then true else is_used computed_cpu pool i))
    × ((o : ℕ) → pages_at pool_two o ≡ (if p == o then pages_of 8192 else pages_at pool o))
    × IsValid computed_cpu pool_two
allocate_lem_example =
    allocate_lem computed_cpu pool 8192 pool-IsValid (omega arith) (omega arith) allocate-pool

pool_two-IsValid : IsValid computed_cpu pool_two
pool_two-IsValid =
    (allocate_lem computed_cpu pool 8192 pool-IsValid (omega arith) (omega arith) allocate-pool).6

abbrev pool_failed : Allocator
pool_failed = record pool { last_page_offset = none }

allocate-pool_large : allocate computed_cpu pool 69632 ≡ ok (pool_failed, none)
unfolding allocate pages_of bytes_to_pages request find_from choose retry finish commit
    find_first_clear find_clear_loop get_length_of scan_from scan read_word search_bit bit
allocate-pool_large = refl

large_pages : pages_of 69632 ≤ max_pages
unfolding pages_of bytes_to_pages
large_pages = omega arith

one_page : pages_of 4096 ≡ 1
unfolding pages_of bytes_to_pages
one_page = refl

allocate_exhausted_example :
    (pool_failed ≡ record pool { last_page_offset = none })
    × ((p : ℕ)
        → p + pages_of 69632 < 16
        → ¬ ((i : ℕ) → p ≤ i → i < p + pages_of 69632 → is_used computed_cpu pool i ≡ false))
allocate_exhausted_example =
    allocate_exhausted computed_cpu pool 69632 pool-IsValid (omega arith) (omega arith) large_pages
      allocate-pool_large

allocate_total_example : (r : Allocator × Option ℕ) × (allocate computed_cpu pool_two 4096 ≡ ok r)
allocate_total_example =
    allocate_total computed_cpu pool_two pool_two-IsValid 4096 2 (omega arith) (omega arith)
      (omega (arith, one_page)) refl

-- the pages from 2 on are free
rest_free : (j : ℕ) → 2 ≤ j → j < 2 + pages_of 8192 → is_used computed_cpu pool_two j ≡ false
unfolding pages_of bytes_to_pages test bit
rest_free zero h l = absurd (omega arith)
rest_free (suc zero) h l = absurd (omega arith)
rest_free (suc (suc zero)) h l = refl
rest_free (suc (suc (suc zero))) h l = refl
rest_free (suc (suc (suc (suc j)))) h l = absurd (omega arith)

allocate_succeeds_example :
    (a' : Allocator) × (address : ℕ) × (allocate computed_cpu pool_two 8192 ≡ ok (a', some address))
allocate_succeeds_example =
    allocate_succeeds computed_cpu pool_two pool_two-IsValid 8192 2 2 (omega arith) (omega arith)
      (omega (arith, two_pages)) refl (omega (arith, two_pages)) rest_free

free-allocate_example :
    let b = free pool_two 1048576 in
    ((i : ℕ) → is_used computed_cpu b i ≡ is_used computed_cpu pool i)
    × ((o : ℕ) → pages_at b o ≡ pages_at pool o)
    × (b.allocated_bytes ≡ pool.allocated_bytes)
    × (b.free_bytes ≡ pool.free_bytes)
free-allocate_example =
    free-allocate computed_cpu pool 8192 pool-IsValid (omega arith) (omega arith) (omega arith)
      (omega arith) allocate-pool
