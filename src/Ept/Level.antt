-- ===== src/Ept/Level.antt =====
-- `map_pml4`, `map_pdpt`, `map_pd` and `map_pt` of src/hvpp/hvpp/ept.cpp, level by level, on tables that
-- form a tree.
use hvpp.Prelude.{
  ℕ, zero, suc, ◌+◌, ◌/◌, ◌%◌, ◌^◌, ◌<◌, ◌≤◌, ◌≡◌, refl, inl, inr, true, false, ◌&&◌, ◌==◌, ltb,
  if◌then◌else◌, ◌∙◌, arith, ap, sym, bit_and,
}
use mathlib.Core.Path.{subst}
use hvpp.Paging.Align.{bit_and_low}
use hvpp.Memory.{from_pfn, pfn}
use hvpp.Ept.{
  Epte, Tables, Host, index, present, write, update, update_access, update_type, update_large,
  type_of, map_subtable, map_table,
}
use hvpp.Ept.Shape.{Shape, IsTree, span, index-lt, Bool-All}
use hvpp.Ept.Subtable.{IsSubtable, map_subtable-IsSubtable}
use hvpp.Ept.Walk.{is_open, open-below, open-blank}
use hvpp.Ept.Map.{IsMapped, leaf-IsMapped, below-IsMapped, place}

-- A page frame's address that the page frame number can hold.
abbrev pub IsPage : ℕ → Type 0
IsPage h = (h < 2 ^ 48) × (h % 2 ^ 12 ≡ 0)

abbrev pub IsAccess : ℕ → Type 0
IsAccess x = (0 < x) × (x < 8)

update_type-address :
    (e : Epte) (h type x : ℕ) → IsPage h → from_pfn (update_type e h type x).page_frame_number ≡ h
unfolding update_type update update_access from_pfn pfn
update_type-address e h type x p = omega (arith, p.0, p.1)

update_type-present :
    (e : Epte) (h type x : ℕ) → IsAccess x → present (update_type e h type x) ≡ true
unfolding update_type update update_access present
update_type-present e h type x p = ground (arith, p.0, p.1)

update_type-rights :
    (e : Epte) (h type x : ℕ) → IsAccess x → bit_and (update_type e h type x).access 7 ≡ x
unfolding update_type update update_access
update_type-rights e h type x p = bit_and_low 3 (x % 8) ∙ omega (arith, p.1)

update_large-present :
    (e : Epte) (h type x : ℕ) → IsAccess x → present (update_large e h type true x) ≡ true
unfolding update_large update_type update update_access present
update_large-present e h type x p = ground (arith, p.0, p.1)

module _ (host : Host) (a h x l : ℕ) (h_page : IsPage h) (x_some : IsAccess x) (l_lt : l < 3) where
  -- The two updates that end the descent.
  pt-IsMapped :
      (s : Tables) (σ : Shape) (f : ℕ)
      → IsTree host s σ
      → σ.depth f ≡ 1
      → σ.prefix f ≡ a / span 1
      → IsMapped host s σ 0 f a 0 h x
          (write s f (index a 0) (update_type (s.words f (index a 0)) h (type_of host a) x))
  pt-IsMapped s σ f t d p =
      leaf-IsMapped host s σ 0 f a t (omega arith) d p
        (update_type (s.words f (index a 0)) h (type_of host a) x) h x
        (update_type-present (s.words f (index a 0)) h (type_of host a) x x_some)
        (λ j q. absurd (omega (arith, q)))
        (update_type-address (s.words f (index a 0)) h (type_of host a) x h_page)
        (update_type-rights (s.words f (index a 0)) h (type_of host a) x x_some)

  large-IsMapped :
      (s : Tables) (σ : Shape) (k f : ℕ)
      → IsTree host s σ
      → k < 3
      → σ.depth f ≡ suc k
      → σ.prefix f ≡ a / span (suc k)
      → IsMapped host s σ k f a k h x
          (write s f (index a k) (update_large (s.words f (index a k)) h (type_of host a) true x))
  unfolding update_large
  large-IsMapped s σ k f t k_lt d p =
      leaf-IsMapped host s σ k f a t (omega (arith, k_lt)) d p
        (update_large (s.words f (index a k)) h (type_of host a) true x) h x
        (update_large-present (s.words f (index a k)) h (type_of host a) x x_some)
        (λ j q. (refl, k_lt))
        (update_type-address (s.words f (index a k)) h (type_of host a) x h_page)
        (update_type-rights (s.words f (index a k)) h (type_of host a) x x_some)

  -- The walk goes on through a subtable, found or new, without a large page.
  still_open :
      (s : Tables) (σ : Shape) (k f : ℕ) (r : Tables × ℕ)
      → IsSubtable host s σ k f (index a (suc k)) r
      → l < suc k
      → is_open (suc k) s f a l ≡ true
      → is_open k r.0 r.1 a l ≡ true
  still_open s σ k f r b lt o = elim b.fresh [
    | inl z ↦
        ap (λ g. is_open k r.0 g a l) (sym b.points)
        ∙ (open-below r.0 k f a l lt (ap (λ u. is_open (suc k) u f a l) z ∙ o) b.here).1
    | inr z ↦ open-blank r.0 k r.1 a l z.1
  ]

  -- Each level, on a walk that no large page cuts short.
  pub map_table-IsMapped :
      (k : ℕ) (s : Tables) (σ : Shape) (f : ℕ)
      → IsTree host s σ
      → k < 4
      → l ≤ k
      → σ.depth f ≡ suc k
      → σ.prefix f ≡ a / span (suc k)
      → is_open k s f a l ≡ true
      → s.next + k ≤ host.pages + l
      → IsMapped host s σ k f a l h x (map_table host k s f a h x l).0
  unfolding map_table
  map_table-IsMapped zero s σ f t k_lt l_le d p o room =
      subst (λ n. IsMapped host s σ 0 f a n h x (map_table host 0 s f a h x l).0)
        (omega (arith, l_le)) (pt-IsMapped s σ f t d p)
  map_table-IsMapped (suc k) s σ f t k_lt l_le d p o room =
      Bool-All (λ b. IsMapped host s σ (suc k) f a l h x (if b then large else rest).0)
        (ltb (suc k) 3 && suc k == l)
        (λ q.
          subst (λ n. IsMapped host s σ (suc k) f a n h x large.0) (ground (arith, q))
            (large-IsMapped s σ (suc k) f t (ground (arith, q)) d p))
        (λ q.
          let lt = under q in
          below-IsMapped host s σ k f a l h x t k_lt d p (omega (arith, lt)) sub (b lt) rest.0 (
            map_table-IsMapped k sub.0 (b lt).shape sub.1 (b lt).tree (omega (arith, k_lt))
              (omega (arith, lt)) (b lt).depth_below
              ((b lt).prefix_below ∙ place host s σ (suc k) f a t k_lt d p)
              (still_open s σ k f sub (b lt) lt o) (omega (arith, room, (b lt).grown))))
    where
      i : ℕ
      i = index a (suc k)

      sub : Tables × ℕ
      sub = map_subtable host s f i

      rest : Tables × ℕ × ℕ
      rest = map_table host k sub.0 sub.1 a h x l

      large : Tables × ℕ × ℕ
      large = (write s f i (update_large (s.words f i) h (type_of host a) true x), f, i)

      under : (ltb (suc k) 3 && suc k == l) ≡ false → l < suc k
      under q = ground (arith, q, l_lt, l_le)

      b : l < suc k → IsSubtable host s σ k f i sub
      b lt =
          map_subtable-IsSubtable host s σ k f i t d (index-lt a (suc k)) (omega (arith, room, lt))
            (λ q. (open-below s k f a l lt o q).0)
