-- ===== src/Allocator/Valid.antt =====
-- The allocator's invariant: the map's blocks are disjoint runs of used pages inside the pool.
use hvpp.Prelude.{ℕ, ◌+◌, ◌*◌, ◌^◌, ◌≤◌, ◌<◌, ◌≡◌, Bool, true, get_or, length}
use hvpp.Bitmap.{BitInstructions, test, max_int}
use hvpp.Bitmap.Word.{IsWords}
use hvpp.Allocator.{Allocator, page_size}

-- The number of pages of the block that starts at page `o`, and 0 if none does.
abbrev pub pages_at : Allocator → ℕ → ℕ
pages_at a o = get_or a.page_allocation_map o 0

abbrev pub pages : Allocator → ℕ
pages a = a.page_bitmap.size_in_bits

module _ (cpu : BitInstructions) where
  -- Page `i` is in use.
  abbrev pub is_used : Allocator → ℕ → Bool
  is_used a i = test cpu a.page_bitmap i

  abbrev pub AllUsed : Allocator → ℕ → ℕ → Type 0
  AllUsed a p n = (i : ℕ) → p ≤ i → i < p + n → is_used a i ≡ true

  pub record IsValid (a : Allocator) : Type 0 where
    pub words : IsWords a.page_bitmap.words
    pub bits_fit : pages a ≤ 64 * length a.page_bitmap.words
    pub map_fits : pages a ≤ length a.page_allocation_map
    pub whole : a.capacity ≡ pages a * page_size
    pub below_int : a.capacity ≤ max_int
    pub based : 0 < a.base_address
    pub below_top : a.base_address + a.capacity < 2 ^ 64
    pub inside : (o : ℕ) → 0 < pages_at a o → o + pages_at a o ≤ pages a
    pub used : (o : ℕ) → 0 < pages_at a o → AllUsed a o (pages_at a o)
    pub apart : (o o' : ℕ) → o < o' → 0 < pages_at a o → 0 < pages_at a o' → o + pages_at a o ≤ o'
