-- ===== src/Allocator/Request.antt =====
-- `allocate` from the request in bytes to the block, on success and on failure.
use hvpp.Prelude.{
  ℕ, ◌+◌, ◌*◌, ◌/◌, ◌%◌, ◌^◌, ◌≤◌, ◌<◌, ◌≡◌, ◌≢◌, inl, inr, refl, ◌∙◌, true, false, ◌&&◌, none,
  some, ltb, leb, ◌==◌, if◌then◌else◌, arith, Bool-cases, Option-cases,
}
use hvpp.Bitmap.{BitInstructions, find_first_clear}
use hvpp.Bitmap.Find.{find_first_clear_complete}
use hvpp.Paging.{Pml}
use hvpp.Paging.Align.{bytes_to_pages-eq}
use hvpp.Allocator.{
  Allocator, ok, undefined, page_size, max_pages, pages_of, find_from, finish, retry, choose,
  request, allocate, commit,
}
use hvpp.Allocator.Valid.{pages_at, pages, is_used, IsValid}
use hvpp.Allocator.Allocate.{
  Chosen, retry-Chosen, choose_at, commit-IsValid, is_used-commit, pages_at-commit,
}

-- A request below 2 ^ 43 bytes has its pages counted without loss.
pub pages_of-eq :
    (size : ℕ)
    → size < 2 ^ 43
    → pages_of size ≡ size / page_size + (if size % page_size == 0 then 0 else 1)
unfolding pages_of
pages_of-eq size h = ground (arith, bytes_to_pages-eq size Pml.pt)

module _ (cpu : BitInstructions) (a : Allocator) where
  request-Chosen :
      (n : ℕ) {a' : Allocator} {address : ℕ}
      → IsValid cpu a
      → 0 < n
      → n ≤ max_pages
      → request cpu a n ≡ ok (a', some address)
      → Chosen cpu a n a' address
  unfolding request find_from choose retry finish commit
  request-Chosen n v pos small e = elim (Option-cases a.last_page_offset) [
    | inl none_left ↦ elim (Bool-cases (ltb (pages a) n)) [
      | inl big ↦ retry-Chosen cpu a n v pos small (rw (none_left, find_from, big) at e)
      | inr fits ↦ cc (rw (none_left, find_from, fits) at e)
    ]
    | inr (i, last) ↦ elim (Option-cases (find_first_clear cpu a.page_bitmap i n)) [
      | inl f ↦ retry-Chosen cpu a n v pos small (rw (last, find_from, f) at e)
      | inr (p, f) ↦ choose_at cpu a i n p v pos small f (rw (last, find_from, f) at e)
    ]
  ]

  pub allocate-Chosen :
      (size : ℕ) {a' : Allocator} {address : ℕ}
      → IsValid cpu a
      → 0 < size
      → size < 2 ^ 43
      → allocate cpu a size ≡ ok (a', some address)
      → Chosen cpu a (pages_of size) a' address
  unfolding allocate
  allocate-Chosen size v pos small e =
      request-Chosen (pages_of size) v (ground (arith, pages_of-eq size))
        (ground (arith, pages_of-eq size)) (ground (arith, pages_of-eq size))

  -- A successful `allocate` of a positive request below 2 ^ 43 bytes, from a valid state, returns the
  -- address of as many pages as the request needs; they lie in the pool, none of them was in use,
  -- and in the new state exactly they are in use besides the pages that were. The map gains their
  -- block and no other change, and the new state is valid.
  pub allocate_lem :
      (size : ℕ) {a' : Allocator} {address : ℕ}
      → IsValid cpu a
      → 0 < size
      → size < 2 ^ 43
      → allocate cpu a size ≡ ok (a', some address)
      → (p : ℕ) × (address ≡ a.base_address + p * page_size)
        × (p + pages_of size ≤ pages a)
        × ((i : ℕ) → p ≤ i → i < p + pages_of size → is_used cpu a i ≡ false)
        × ((i : ℕ)
            → is_used cpu a' i
              ≡ (if leb p i && ltb i (p + pages_of size) then true else is_used cpu a i))
        × ((o : ℕ) → pages_at a' o ≡ (if p == o then pages_of size else pages_at a o))
        × IsValid cpu a'
  allocate_lem size v pos small e =
      let c = allocate-Chosen size v pos small e in
      (
        c.page_offset,
        c.address-eq,
        c.was_free.inside,
        c.was_free.free,
        rw c.state-eq (λ i. is_used-commit cpu a c.page_offset (pages_of size) i v c.was_free),
        rw c.state-eq (λ o. pages_at-commit cpu a c.page_offset (pages_of size) o v c.was_free),
        rw c.state-eq (commit-IsValid cpu a c.page_offset (pages_of size) v c.was_free),
      )

  finish-ne-none : (p n : ℕ) {a' : Allocator} → finish cpu a p n ≢ ok (a', none)
  unfolding finish
  finish-ne-none p n e = ground arith

  retry_failed :
      (n : ℕ) {a' : Allocator}
      → retry cpu a n ≡ ok (a', none)
      → (a' ≡ record a { last_page_offset = none })
        × (find_first_clear cpu a.page_bitmap 0 n ≡ none)
  unfolding retry
  retry_failed n e = elim (Option-cases (find_first_clear cpu a.page_bitmap 0 n)) [
    | inl f ↦ (cc (rw (f, retry) at e), f)
    | inr (p, f) ↦ absurd (finish-ne-none p n (rw (f, retry) at e))
  ]

  request_failed :
      (n : ℕ) {a' : Allocator}
      → request cpu a n ≡ ok (a', none)
      → (a' ≡ record a { last_page_offset = none })
        × (find_first_clear cpu a.page_bitmap 0 n ≡ none)
  unfolding request find_from choose retry finish commit
  request_failed n e = elim (Option-cases a.last_page_offset) [
    | inl none_left ↦ elim (Bool-cases (ltb (pages a) n)) [
      | inl big ↦ retry_failed n (rw (none_left, find_from, big) at e)
      | inr fits ↦ cc (rw (none_left, find_from, fits) at e)
    ]
    | inr (i, last) ↦ elim (Option-cases (find_first_clear cpu a.page_bitmap i n)) [
      | inl f ↦ retry_failed n (rw (last, find_from, f) at e)
      | inr (p, f) ↦ absurd (finish-ne-none p n (rw (last, find_from, f) at e))
    ]
  ]

  allocate_failed :
      (size : ℕ) {a' : Allocator}
      → 0 < size
      → size < 2 ^ 43
      → pages_of size ≤ max_pages
      → allocate cpu a size ≡ ok (a', none)
      → (a' ≡ record a { last_page_offset = none })
        × (find_first_clear cpu a.page_bitmap 0 (pages_of size) ≡ none)
  unfolding allocate
  allocate_failed size pos small few e =
      request_failed (pages_of size) (ground (arith, pages_of-eq size))

  -- When `allocate` returns a null pointer to a positive request of at most 65534 pages, from a valid
  -- state, only `last_page_offset_` has changed, and no run of free pages that ends before the
  -- pool's last page would have served it.
  pub allocate_exhausted :
      (size : ℕ) {a' : Allocator}
      → IsValid cpu a
      → 0 < size
      → size < 2 ^ 43
      → pages_of size ≤ max_pages
      → allocate cpu a size ≡ ok (a', none)
      → (a' ≡ record a { last_page_offset = none })
        × ((p : ℕ)
            → p + pages_of size < pages a
            → ¬ ((i : ℕ) → p ≤ i → i < p + pages_of size → is_used cpu a i ≡ false))
  allocate_exhausted size v pos small few e =
      let f = allocate_failed size pos small few e in
      (
        f.0,
        λ p inside.
            find_first_clear_complete cpu a.page_bitmap 0 (pages_of size) v.words
              (omega (arith, v.whole, v.below_int)) (ground (arith, pages_of-eq size)) (omega arith)
              f.1 p (omega arith) inside,
      )

  pub allocate-eq-request :
      (size : ℕ)
      → 0 < size
      → pages_of size ≤ max_pages
      → allocate cpu a size ≡ request cpu a (pages_of size)
  unfolding allocate
  allocate-eq-request size pos few = ground arith

  request_from_none :
      (n : ℕ) → a.last_page_offset ≡ none → n ≤ pages a → request cpu a n ≡ undefined
  unfolding request find_from
  request_from_none n last h = rw (last, find_from) (ground arith)

-- After such a failure the search position stays -1, and the next request of a positive number of
-- pages that the pool could hold is undefined: the bitmap is read outside its buffer.
allocate_after_failure :
    (cpu : BitInstructions) (a : Allocator) (size size' : ℕ) {a' : Allocator}
    → 0 < size
    → size < 2 ^ 43
    → pages_of size ≤ max_pages
    → allocate cpu a size ≡ ok (a', none)
    → 0 < size'
    → pages_of size' ≤ max_pages
    → pages_of size' ≤ pages a
    → allocate cpu a' size' ≡ undefined
allocate_after_failure cpu a size size' pos small few e pos' few' inside =
    let f = allocate_failed cpu a size pos small few e in
    rw f.0 (
      allocate-eq-request cpu (record a { last_page_offset = none }) size' pos' few'
      ∙ request_from_none cpu (record a { last_page_offset = none }) (pages_of size') refl inside)
