-- ===== src/Allocator/Total.antt =====
-- When `allocate` is defined, and when it succeeds.
use hvpp.Prelude.{
  ℕ, ◌+◌, ◌*◌, ◌^◌, ◌≤◌, ◌<◌, ◌≡◌, inl, inr, refl, false, Option, none, some, add64, arith,
  Option-cases,
}
use hvpp.Bitmap.{BitInstructions, find_first_clear}
use hvpp.Bitmap.Find.{find_first_clear_sound}
use hvpp.Allocator.{
  Allocator, Outcome, ok, page_size, max_pages, pages_of, find_from, finish, retry, choose, request,
  allocate, commit,
}
use hvpp.Allocator.Valid.{pages, is_used, IsValid}
use hvpp.Allocator.Request.{pages_of-eq, allocate-eq-request, allocate_exhausted}

module _ (cpu : BitInstructions) (a : Allocator) (v : IsValid cpu a) where
  abbrev Defined : Outcome (Allocator × Option ℕ) → Type 0
  Defined x = (r : Allocator × Option ℕ) × (x ≡ ok r)

  finish_total :
      (i n p : ℕ)
      → 0 < n
      → find_first_clear cpu a.page_bitmap i n ≡ some p
      → Defined (finish cpu a p n)
  unfolding finish
  finish_total i n p pos e =
      let f = find_first_clear_sound cpu a.page_bitmap i n v.words {p = p} pos e in
      (
        (commit cpu a p n, some (add64 a.base_address (p * page_size))),
        ground (arith, f.0, v.whole, v.below_int),
      )

  retry_total : (n : ℕ) → 0 < n → Defined (retry cpu a n)
  unfolding retry
  retry_total n pos = elim (Option-cases (find_first_clear cpu a.page_bitmap 0 n)) [
    | inl f ↦ ((record a { last_page_offset = none }, none), rw (f, retry) refl)
    | inr (p, f) ↦ rw (f, retry) (finish_total 0 n p pos f)
  ]

  request_total : (i n : ℕ) → a.last_page_offset ≡ some i → 0 < n → Defined (request cpu a n)
  unfolding request find_from choose retry finish commit
  request_total i n last pos = elim (Option-cases (find_first_clear cpu a.page_bitmap i n)) [
    | inl f ↦ rw (last, find_from, f) (retry_total n pos)
    | inr (p, f) ↦ rw (last, find_from, f) (finish_total i n p pos f)
  ]

  -- While the search position is not -1, `allocate` of a positive request of at most 65534 pages, from
  -- a valid state, is defined.
  pub allocate_total :
      (size i : ℕ)
      → 0 < size
      → size < 2 ^ 43
      → pages_of size ≤ max_pages
      → a.last_page_offset ≡ some i
      → (r : Allocator × Option ℕ) × (allocate cpu a size ≡ ok r)
  allocate_total size i pos small few last =
      rw (allocate-eq-request cpu a size pos few)
        (request_total i (pages_of size) last (ground (arith, pages_of-eq size)))

  not_null :
      (size p : ℕ) (r : Allocator × Option ℕ)
      → 0 < size
      → size < 2 ^ 43
      → pages_of size ≤ max_pages
      → p + pages_of size < pages a
      → ((j : ℕ) → p ≤ j → j < p + pages_of size → is_used cpu a j ≡ false)
      → allocate cpu a size ≡ ok r
      → (a' : Allocator) × (address : ℕ) × (allocate cpu a size ≡ ok (a', some address))
  not_null size p (a', some address) pos small few inside free e = (a', address, e)
  not_null size p (a', none) pos small few inside free e =
      absurd ((allocate_exhausted cpu a size v pos small few e).1 p inside free)

  -- While the search position is not -1, `allocate` of such a request from a valid state returns a
  -- block if enough free pages in a row end before the pool's last page.
  pub allocate_succeeds :
      (size i p : ℕ)
      → 0 < size
      → size < 2 ^ 43
      → pages_of size ≤ max_pages
      → a.last_page_offset ≡ some i
      → p + pages_of size < pages a
      → ((j : ℕ) → p ≤ j → j < p + pages_of size → is_used cpu a j ≡ false)
      → (a' : Allocator) × (address : ℕ) × (allocate cpu a size ≡ ok (a', some address))
  allocate_succeeds size i p pos small few last inside free =
      let (r, e) = allocate_total size i pos small few last in
      not_null size p r pos small few inside free e
