-- ===== src/Allocator/Free.antt =====
-- `free` gives back exactly the pages of a block, and undoes `allocate`.
use hvpp.Prelude.{
  ℕ, ◌+◌, ◌*◌, ◌^◌, ◌<◌, ◌≡◌, ◌⊎◌, inl, inr, refl, false, ◌&&◌, some, List, [], ◌∷◌, zero, suc, ltb,
  leb, ◌==◌, if◌then◌else◌, arith, sub64, get_or, set, length-set,
}
use native.Mathlib.Decide.{dec_lt}
use hvpp.Bitmap.{BitInstructions}
use hvpp.Bitmap.Word.{get_or-set}
use hvpp.Bitmap.Range.{test-clear_range}
use hvpp.Bitmap.Bound.{clear_range-IsWords, length-clear_range}
use hvpp.Allocator.{Allocator, ok, page_size, pages_of, offset_of, release, free, allocate, commit}
use hvpp.Allocator.Valid.{pages_at, pages, is_used, IsValid}
use hvpp.Allocator.Allocate.{IsFree, commit-IsValid, is_used-commit, pages_at-commit}
use hvpp.Allocator.Request.{pages_of-eq, allocate-Chosen}

module _ (cpu : BitInstructions) (a : Allocator) (o : ℕ) where
  is_used-release :
      (i : ℕ)
      → IsValid cpu a
      → 0 < pages_at a o
      → is_used cpu (release a o (pages_at a o)) i
        ≡ (if leb o i && ltb i (o + pages_at a o) then false else is_used cpu a i)
  unfolding release
  is_used-release i v live =
      test-clear_range cpu a.page_bitmap o (pages_at a o) i
        (omega (arith, v.bits_fit, v.inside o live))

  pages_at-release :
      (i : ℕ)
      → IsValid cpu a
      → 0 < pages_at a o
      → pages_at (release a o (pages_at a o)) i ≡ (if o == i then 0 else pages_at a i)
  unfolding release
  pages_at-release i v live =
      ground (arith, v.inside o live, v.map_fits, get_or-set a.page_allocation_map o 0 i)

  release-IsValid : IsValid cpu a → 0 < pages_at a o → IsValid cpu (release a o (pages_at a o))
  unfolding release
  release-IsValid v live = record {
    words = clear_range-IsWords a.page_bitmap.words o (pages_at a o) v.words;
    bits_fit = omega (arith, v.bits_fit, length-clear_range a.page_bitmap.words o (pages_at a o));
    map_fits = omega (arith, v.map_fits, length-set a.page_allocation_map o 0);
    whole = v.whole;
    below_int = v.below_int;
    based = v.based;
    below_top = v.below_top;
    inside = λ i l. ground (arith, pages_at-release i v live, v.inside i);
    used = λ i l j q r. ground (
      arith,
      pages_at-release i v live,
      is_used-release j v live,
      λ (l' : 0 < pages_at a i). v.used i l' j q,
      v.apart i o,
      v.apart o i,
      live,
    );
    apart = λ i j lt l l'.
        ground (arith, pages_at-release i v live, pages_at-release j v live, v.apart i j lt);
  }

  -- The address of page `o` leads `free` back to `o`.
  offset_of-page : IsValid cpu a → o < pages a → offset_of a (a.base_address + o * page_size) ≡ o
  unfolding offset_of
  offset_of-page v h = rw delta (ground (arith, pages_of-eq (o * page_size), v.whole, v.below_int))
    where
      delta : sub64 (a.base_address + o * page_size) a.base_address ≡ o * page_size
      delta = omega (arith, v.whole, v.below_int)

  free-eq-release :
      IsValid cpu a
      → 0 < pages_at a o
      → free a (a.base_address + o * page_size) ≡ release a o (pages_at a o)
  unfolding free
  free-eq-release v live =
      rw (offset_of-page v (omega (arith, v.inside o live)))
        (ground (arith, v.based, v.whole, v.below_int, v.inside o live))

-- In a valid state, `free` at the first page of a block takes the block's pages, and no other, out
-- of use, takes the block and no other out of the map, and leaves a valid state.
free_lem :
    (cpu : BitInstructions) (a : Allocator) (o : ℕ)
    → IsValid cpu a
    → 0 < pages_at a o
    → let a' = free a (a.base_address + o * page_size) in
      ((i : ℕ)
        → is_used cpu a' i
          ≡ (if leb o i && ltb i (o + pages_at a o) then false else is_used cpu a i))
      × ((i : ℕ) → pages_at a' i ≡ (if o == i then 0 else pages_at a i))
      × IsValid cpu a'
free_lem cpu a o v live = rw (free-eq-release cpu a o v live) (
  λ i. is_used-release cpu a o i v live,
  λ i. pages_at-release cpu a o i v live,
  release-IsValid cpu a o v live,
)

get_or-set_zero : (xs : List ℕ) (i : ℕ) → get_or (set xs i 0) i 0 ≡ 0
get_or-set_zero [] i = refl
get_or-set_zero (x ∷ xs) zero = refl
get_or-set_zero (x ∷ xs) (suc i) = get_or-set_zero xs i

free-cases :
    (a : Allocator) (address : ℕ)
    → let o = offset_of a address in
      (free a address ≡ a) ⊎ (free a address ≡ release a o (pages_at a o))
unfolding free
free-cases a address = ground arith

free-release :
    (a : Allocator) (address n : ℕ)
    → let b = release a (offset_of a address) n in free b address ≡ b
unfolding free release offset_of
free-release a address n =
    ground (arith, get_or-set_zero a.page_allocation_map (offset_of a address))

-- A second `free` of the same address changes nothing, whatever the state and the address.
free_idem : (a : Allocator) (address : ℕ) → free (free a address) address ≡ free a address
free_idem a address = elim (free-cases a address) [
  | inl e ↦ rw e e
  | inr e ↦ rw e (free-release a address (pages_at a (offset_of a address)))
]

free-commit :
    (cpu : BitInstructions) (a : Allocator) (p n : ℕ)
    → IsValid cpu a
    → a.allocated_bytes < 2 ^ 64
    → a.free_bytes < 2 ^ 64
    → IsFree cpu a p n
    → let b = free (commit cpu a p n) (a.base_address + p * page_size) in
      ((i : ℕ) → is_used cpu b i ≡ is_used cpu a i)
      × ((o : ℕ) → pages_at b o ≡ pages_at a o)
      × (b.allocated_bytes ≡ a.allocated_bytes)
      × (b.free_bytes ≡ a.free_bytes)
unfolding commit
free-commit cpu a p n v bytes bytes' f = rw (free-eq-release cpu (commit cpu a p n) p vb live) (
  λ i. ground (
    arith,
    is_used-release cpu (commit cpu a p n) p i vb live,
    is_used-commit cpu a p n i v f,
    at,
    f.free i,
  ),
  λ o. ground (
    arith,
    pages_at-release cpu (commit cpu a p n) p o vb live,
    pages_at-commit cpu a p n o v f,
    no_block,
  ),
  counters.0,
  counters.1,
)
  where
    no_block : pages_at a p ≡ 0
    no_block = elim (dec_lt 0 (pages_at a p)) [
      | yes l ↦ cc (
        v.used p l p (omega arith) (omega arith),
        f.free p (omega arith) (omega (arith, f.positive)),
      )
      | no l ↦ omega arith
    ]

    vb : IsValid cpu (commit cpu a p n)
    vb = commit-IsValid cpu a p n v f

    at : pages_at (commit cpu a p n) p ≡ n
    at = ground (arith, pages_at-commit cpu a p n p v f)

    live : 0 < pages_at (commit cpu a p n) p
    live = rw at f.positive

    counters :
        ((release (commit cpu a p n) p (pages_at (commit cpu a p n) p)).allocated_bytes
          ≡ a.allocated_bytes)
        × ((release (commit cpu a p n) p (pages_at (commit cpu a p n) p)).free_bytes ≡ a.free_bytes)
    counters = rw at (unfold release in (omega (arith, f.small), omega (arith, f.small)))

-- `free` of what `allocate` returned for a positive request below 2 ^ 43 bytes from a valid state
-- puts every page, the map and both counters back.
pub free-allocate :
    (cpu : BitInstructions) (a : Allocator) (size : ℕ) {a' : Allocator} {address : ℕ}
    → IsValid cpu a
    → a.allocated_bytes < 2 ^ 64
    → a.free_bytes < 2 ^ 64
    → 0 < size
    → size < 2 ^ 43
    → allocate cpu a size ≡ ok (a', some address)
    → let b = free a' address in
      ((i : ℕ) → is_used cpu b i ≡ is_used cpu a i)
      × ((o : ℕ) → pages_at b o ≡ pages_at a o)
      × (b.allocated_bytes ≡ a.allocated_bytes)
      × (b.free_bytes ≡ a.free_bytes)
free-allocate cpu a size v bytes bytes' pos small e =
    let c = allocate-Chosen cpu a size v pos small e in
    rw (c.state-eq, c.address-eq)
      (free-commit cpu a c.page_offset (pages_of size) v bytes bytes' c.was_free)
