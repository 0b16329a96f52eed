-- ===== src/Allocator/Allocate.antt =====
-- `allocate` hands out free pages and nothing else.
use hvpp.Prelude.{
  ℕ, ◌+◌, ◌*◌, ◌≤◌, ◌<◌, ◌≡◌, ◌⊎◌, inl, inr, true, false, ◌&&◌, some, ltb, leb, ◌==◌, if◌then◌else◌,
  arith, Option-cases, u16, length-set,
}
use native.Mathlib.Decide.{dec_lt}
use hvpp.Bitmap.{BitInstructions, find_first_clear}
use hvpp.Bitmap.Word.{get_or-set}
use hvpp.Bitmap.Range.{test-set_range}
use hvpp.Bitmap.Bound.{set_range-IsWords, length-set_range}
use hvpp.Bitmap.Find.{find_first_clear_sound}
use hvpp.Allocator.{Allocator, ok, page_size, max_pages, commit, finish, retry}
use hvpp.Allocator.Valid.{pages_at, pages, is_used, IsValid}

module _ (cpu : BitInstructions) (a : Allocator) where
  -- Pages `p` to `p + n` are free, and inside the pool.
  pub record IsFree (p n : ℕ) : Type 0 where
    pub positive : 0 < n
    pub small : n ≤ max_pages
    pub inside : p + n ≤ pages a
    pub free : (i : ℕ) → p ≤ i → i < p + n → is_used cpu a i ≡ false

  pub is_used-commit :
      (p n i : ℕ)
      → IsValid cpu a
      → IsFree p n
      → is_used cpu (commit cpu a p n) i
        ≡ (if leb p i && ltb i (p + n) then true else is_used cpu a i)
  unfolding commit
  is_used-commit p n i v f =
      test-set_range cpu a.page_bitmap p n i (omega (arith, v.bits_fit, f.inside))

  pub pages_at-commit :
      (p n o : ℕ)
      → IsValid cpu a
      → IsFree p n
      → pages_at (commit cpu a p n) o ≡ (if p == o then n else pages_at a o)
  unfolding commit
  pages_at-commit p n o v f = ground (
    arith,
    f.small,
    f.inside,
    f.positive,
    v.map_fits,
    get_or-set a.page_allocation_map p (u16 n) o,
  )

  -- A block and a free run have no page in common.
  block_apart :
      (p n o : ℕ)
      → IsValid cpu a
      → IsFree p n
      → 0 < pages_at a o
      → (o + pages_at a o ≤ p) ⊎ (p + n ≤ o)
  block_apart p n o v f live = elim (dec_lt p o) [
    | yes before ↦ elim (dec_lt o (p + n)) [
      | yes meets ↦
          absurd (clash o (omega arith) meets (v.used o live o (omega arith) (omega arith)))
      | no past ↦ inr (omega arith)
    ]
    | no after ↦ elim (dec_lt p (o + pages_at a o)) [
      | yes meets ↦
          absurd (
            clash p (omega arith) (omega (arith, f.positive)) (v.used o live p (omega arith) meets))
      | no past ↦ inl (omega arith)
    ]
  ]
    where
      clash : (i : ℕ) → p ≤ i → i < p + n → is_used cpu a i ≡ true → ⊥
      clash i q r e = cc (e, f.free i q r)

  pub commit-IsValid : (p n : ℕ) → IsValid cpu a → IsFree p n → IsValid cpu (commit cpu a p n)
  unfolding commit
  commit-IsValid p n v f = record {
    words = set_range-IsWords a.page_bitmap.words p n v.words;
    bits_fit = omega (arith, v.bits_fit, length-set_range a.page_bitmap.words p n);
    map_fits = omega (arith, v.map_fits, length-set a.page_allocation_map p (u16 n));
    whole = v.whole;
    below_int = v.below_int;
    based = v.based;
    below_top = v.below_top;
    inside = λ o live. ground (arith, pages_at-commit p n o v f, v.inside o, f.inside);
    used = λ o live i q r. ground (
      arith,
      pages_at-commit p n o v f,
      is_used-commit p n i v f,
      λ (l : 0 < pages_at a o). v.used o l i q,
    );
    apart = λ o o' lt live live'. ground (
      arith,
      pages_at-commit p n o v f,
      pages_at-commit p n o' v f,
      block_apart p n o v f,
      block_apart p n o' v f,
      v.apart o o' lt,
      f.positive,
    );
  }

  finish_lem :
      (p n : ℕ) {a' : Allocator} {address : ℕ}
      → IsValid cpu a
      → p + n ≤ pages a
      → 0 < n
      → finish cpu a p n ≡ ok (a', some address)
      → (a' ≡ commit cpu a p n) × (address ≡ a.base_address + p * page_size)
  unfolding finish
  finish_lem p n v inside pos e = ground (arith, v.below_int, v.whole, v.below_top)

  -- What `find_first_clear` finds is free.
  found_IsFree :
      (start n p : ℕ)
      → IsValid cpu a
      → 0 < n
      → n ≤ max_pages
      → find_first_clear cpu a.page_bitmap start n ≡ some p
      → IsFree p n
  found_IsFree start n p v pos small e =
      let f = find_first_clear_sound cpu a.page_bitmap start n v.words {p = p} pos e in
      record { positive = pos; small = small; inside = f.0; free = f.2 }

  -- The pages chosen for a request: free, in the pool, and committed.
  pub record Chosen (n : ℕ) (a' : Allocator) (address : ℕ) : Type 0 where
    pub page_offset : ℕ
    pub was_free : IsFree page_offset n
    pub address-eq : address ≡ a.base_address + page_offset * page_size
    pub state-eq : a' ≡ commit cpu a page_offset n

  pub choose_at :
      (start n p : ℕ) {a' : Allocator} {address : ℕ}
      → IsValid cpu a
      → 0 < n
      → n ≤ max_pages
      → find_first_clear cpu a.page_bitmap start n ≡ some p
      → finish cpu a p n ≡ ok (a', some address)
      → Chosen n a' address
  choose_at start n p v pos small found e =
      let f = found_IsFree start n p v pos small found in
      let r = finish_lem p n v f.inside pos e in
      record { page_offset = p; was_free = f; address-eq = r.1; state-eq = r.0 }

  pub retry-Chosen :
      (n : ℕ) {a' : Allocator} {address : ℕ}
      → IsValid cpu a
      → 0 < n
      → n ≤ max_pages
      → retry cpu a n ≡ ok (a', some address)
      → Chosen n a' address
  unfolding retry
  retry-Chosen n v pos small e = elim (Option-cases (find_first_clear cpu a.page_bitmap 0 n)) [
    | inl f ↦ cc (rw (f, retry) at e)
    | inr (p, f) ↦ choose_at 0 n p v pos small f (rw (f, retry) at e)
  ]
