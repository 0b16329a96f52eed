-- ===== src/Ept/Entry.antt =====
-- `ept_entry` of src/hvpp/hvpp/ept.cpp, on tables that form a tree: the entry that it finds stands at the
-- level that was asked for, in the table for the address.
use hvpp.Prelude.{
  ℕ, suc, ◌+◌, ◌*◌, ◌/◌, ◌^◌, ◌<◌, ◌≤◌, ◌≡◌, ◌⊎◌, refl, inl, inr, Bool, true, false, ◌||◌, ◌==◌,
  Option, none, some, if◌then◌else◌, ◌∙◌, arith, ap, sym, Bool-cases,
}
use mathlib.Core.Path.{subst}
use mathlib.Core.Option.{some-injective, none-ne-some}
use hvpp.Ept.{Tables, Host, index, present, below_entry, is_large, from_pde, from_pdpte, ept_entry}
use hvpp.Ept.Shape.{Shape, IsPointer, IsTree, span, span-suc, index-lt}
use hvpp.Ept.Walk.{translate, translate-pointer, is_open, open-below, same_above, index-same}

-- The two ways in which a conditional has a value.
if-split {ℓ} :
    {A : Type ℓ} (c : Bool) (x y z : A)
    → (if c then x else y) ≡ z
    → ((c ≡ true) × (x ≡ z)) ⊎ ((c ≡ false) × (y ≡ z))
if-split true x y z e = inl (refl, e)
if-split false x y z e = inr (refl, e)

-- Frame `f` holds the table of level `k` for `a`, with no large page over level `l` from there on.
pub record IsOn (host : Host) (s : Tables) (σ : Shape) (k f a l : ℕ) : Type 0 where
  pub depth_on : σ.depth f ≡ suc k
  pub prefix_on : σ.prefix f ≡ a / span (suc k)
  pub open_on : is_open k s f a l ≡ true
  -- Tables that differ at level `k` and below at most lead there too.
  pub reach_on :
      (s' : Tables) (b : ℕ)
      → ((g j m : ℕ) → σ.depth g ≡ suc m → k < m → s'.words g j ≡ s.words g j)
      → b / span (suc k) ≡ a / span (suc k)
      → translate 3 s' host.root b 7 ≡ translate k s' f b 7

module _ (host : Host) (s : Tables) (σ : Shape) (a l : ℕ) (t : IsTree host s σ) where
  below-IsOn :
      (k f : ℕ)
      → k < 3
      → l < suc k
      → IsOn host s σ (suc k) f a l
      → present (s.words f (index a (suc k))) ≡ true
      → IsOn host s σ k (s.words f (index a (suc k))).page_frame_number a l
  below-IsOn k f k_lt lt o p = record {
    depth_on = r.depth_below;
    prefix_on =
        r.prefix_below
        ∙ ap (λ n. n * 512 + index a (suc k)) o.prefix_on
        ∙ span-suc a (suc k) (omega (arith, k_lt));
    open_on = both.1;
    reach_on = λ s' b same e.
        o.reach_on s' b (λ g j m d lt'. same g j m d (omega (arith, lt')))
          (same_above a b (suc k) (suc (suc k)) (omega arith) (omega (arith, k_lt)) e)
        ∙ translate-pointer s' k f (s.words f (index a (suc k))).page_frame_number b
            (s.words f (index a (suc k)))
            (ap (s'.words f) (index-same a b (suc k) e)
              ∙ same f (index a (suc k)) (suc k) o.depth_on (omega arith))
            p both.0 refl r.all_access;
  }
    where
      both :
          (((s.words f (index a (suc k))).large_page == 1) ≡ false)
          × (is_open k s (s.words f (index a (suc k))).page_frame_number a l ≡ true)
      both = open-below s k f a l lt o.open_on p

      r : IsPointer σ k (σ.prefix f * 512 + index a (suc k)) (s.words f (index a (suc k)))
      r = t.pointer f (index a (suc k)) k o.depth_on (index-lt a (suc k)) p both.0

  small-on :
      (k f : ℕ)
      → l < suc k
      → IsOn host s σ (suc k) f a l
      → ((s.words f (index a (suc k))).large_page == 1) ≡ false
  small-on k f lt o = elim (Bool-cases (present (s.words f (index a (suc k))))) [
    | inl p ↦ (open-below s k f a l lt o.open_on p).0
    | inr p ↦ t.blank f (index a (suc k)) k o.depth_on (index-lt a (suc k)) p
  ]

  -- An entry of level `k` on the walk of `a`.
  abbrev pub Place : ℕ → ℕ × ℕ → Type 0
  Place k (f, i) = IsOn host s σ k f a l × (i ≡ index a k)

  below_entry-Place :
      (k f : ℕ) (r : ℕ × ℕ)
      → k < 3
      → l < suc k
      → IsOn host s σ (suc k) f a l
      → below_entry host s (f, index a (suc k)) a k ≡ some r
      → Place k r
  unfolding below_entry
  below_entry-Place k f r k_lt lt o e =
      elim (if-split (present (s.words f i)) (some below) none (some r) e) [
        | inl (p, q) ↦ subst (Place k) (some-injective below r q) (below-IsOn k f k_lt lt o p, refl)
        | inr (p, q) ↦ absurd (none-ne-some r q)
      ]
    where
      i : ℕ
      i = index a (suc k)

      below : ℕ × ℕ
      below = ((s.words f i).page_frame_number, index a k)

  -- The entry below a `Place`.
  next-Place :
      (k : ℕ) (r q : ℕ × ℕ)
      → k < 3
      → l < suc k
      → Place (suc k) r
      → below_entry host s r a k ≡ some q
      → Place k q
  next-Place k (f, i) q k_lt lt (o, e) b =
      below_entry-Place k f q k_lt lt o (ap (λ j. below_entry host s (f, j) a k) (sym e) ∙ b)

  not_large : (k : ℕ) (r : ℕ × ℕ) → l < suc k → Place (suc k) r → is_large host s r ≡ false
  not_large k (f, i) lt (o, e) = ap (λ j. (s.words f j).large_page == 1) e ∙ small-on k f lt o

  stop_at :
      (k : ℕ) (r q : ℕ × ℕ)
      → l ≤ suc k
      → Place (suc k) r
      → (is_large host s r || l == suc k) ≡ true
      → r ≡ q
      → (l ≡ suc k) × Place (suc k) q
  stop_at k r q le o c e = (stops (Bool-cases (l == suc k)), subst (Place (suc k)) e o)
    where
      stops : ((l == suc k) ≡ true) ⊎ ((l == suc k) ≡ false) → l ≡ suc k
      stops (inl h) = ground (arith, h)
      stops (inr h) = absurd (ground (arith, h, c, not_large k r (ground (arith, le, h)) o))

  from_pde-Place :
      (o : Option (ℕ × ℕ)) (q : ℕ × ℕ)
      → l < 2
      → ((r : ℕ × ℕ) → o ≡ some r → Place 1 r)
      → from_pde host s a l o ≡ some q
      → Place l q
  unfolding from_pde
  from_pde-Place none q l_lt h e = absurd (none-ne-some q e)
  from_pde-Place (some r) q l_lt h e =
      elim (if-split (is_large host s r || l == 1) (some r) (below_entry host s r a 0) (some q) e) [
        | inl (c, w) ↦
            let z = stop_at 0 r q (omega (arith, l_lt)) (h r refl) c (some-injective r q w) in
            subst (λ n. Place n q) (sym z.0) z.1
        | inr (c, w) ↦
            subst (λ n. Place n q) (ground (arith, c, l_lt))
              (next-Place 0 r q (omega arith) (ground (arith, c, l_lt)) (h r refl) w)
      ]

  from_pdpte-Place :
      (o : Option (ℕ × ℕ)) (q : ℕ × ℕ)
      → l < 3
      → ((r : ℕ × ℕ) → o ≡ some r → Place 2 r)
      → from_pdpte host s a l o ≡ some q
      → Place l q
  unfolding from_pdpte
  from_pdpte-Place none q l_lt h e = absurd (none-ne-some q e)
  from_pdpte-Place (some r) q l_lt h e =
      elim (if-split (is_large host s r || l == 2) (some r)
        (from_pde host s a l (below_entry host s r a 1)) (some q) e) [
          | inl (c, w) ↦
              let z = stop_at 1 r q (omega (arith, l_lt)) (h r refl) c (some-injective r q w) in
              subst (λ n. Place n q) (sym z.0) z.1
          | inr (c, w) ↦
              from_pde-Place (below_entry host s r a 1) q (ground (arith, c, l_lt))
                (λ r' w'. next-Place 1 r r' (omega arith) (ground (arith, c, l_lt)) (h r refl) w') w
        ]

  pub ept_entry-Place :
      (q : ℕ × ℕ)
      → l < 3
      → a < 2 ^ 48
      → is_open 3 s host.root a l ≡ true
      → ept_entry host s a l ≡ some q
      → Place l q
  unfolding ept_entry
  ept_entry-Place q l_lt a_lt o e =
      from_pdpte-Place (below_entry host s (host.root, index a 3) a 2) q l_lt
        (λ r w. below_entry-Place 2 host.root r (omega arith) l_lt top w) e
    where
      top : IsOn host s σ 3 host.root a l
      top = record {
        depth_on = t.root_depth;
        prefix_on = t.root_prefix ∙ omega (arith, a_lt);
        open_on = o;
        reach_on = λ s' b same q. refl;
      }
