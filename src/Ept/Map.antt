-- ===== src/Ept/Map.antt =====
-- `map` of src/hvpp/hvpp/ept.cpp against the processor's walk: what `map_pml4` and the functions below
-- it do to tables that form a tree.
use hvpp.Prelude.{
  ℕ, suc, ◌+◌, ◌*◌, ◌/◌, ◌%◌, ◌<◌, ◌≤◌, ◌≡◌, ◌≢◌, ◌⊎◌, refl, inl, inr, true, ◌==◌, some, ◌∙◌, arith,
  ap, sym, bit_and, Bool-cases,
}
use hvpp.Memory.{from_pfn}
use hvpp.Ept.{Epte, Tables, Host, index, present, write}
use hvpp.Ept.Shape.{
  Shape, IsTree, span, span-suc, words-write_self, next-write, words-write_ne, write-IsTree,
}
use hvpp.Ept.Subtable.{IsSubtable}
use hvpp.Ept.Walk.{
  translate, translate-leaf, translate-pointer, translate-none, same_above, index-same,
  translate-same, is_open, open-at, open-pointer,
}

-- What `s'` is, after the table `f` of level `k` has been made to map the page of level `l` that holds
-- `a` to address `h` with the rights `x`.
pub record IsMapped (host : Host) (s : Tables) (σ : Shape) (k f a l h x : ℕ) (s' : Tables)
    : Type 0 where
  pub shape : Shape
  pub tree : IsTree host s' shape
  pub depth_kept : (g : ℕ) → 0 < σ.depth g → shape.depth g ≡ σ.depth g
  pub prefix_kept : (g : ℕ) → 0 < σ.depth g → shape.prefix g ≡ σ.prefix g
  pub grown : s'.next + l ≤ s.next + k
  pub same :
      (g j m : ℕ)
      → σ.depth g ≡ suc m
      → (k < m) ⊎ (σ.prefix g * 512 + j ≢ a / span m)
      → s'.words g j ≡ s.words g j
  pub stays_open : is_open k s' f a l ≡ true
  pub hit : (b : ℕ) → b / span l ≡ a / span l → translate k s' f b 7 ≡ some (h + b % span l, x)
  pub other :
      (b : ℕ)
      → σ.prefix f ≡ b / span (suc k)
      → b / span l ≢ a / span l
      → translate k s' f b 7 ≡ translate k s f b 7

pub cell-ne :
    (σ : Shape) (f g i j k m a : ℕ)
    → σ.depth f ≡ suc k
    → σ.depth g ≡ suc m
    → σ.prefix f * 512 + i ≡ a / span k
    → (k < m) ⊎ (σ.prefix g * 512 + j ≢ a / span m)
    → (f ≢ g) ⊎ (i ≢ j)
cell-ne σ f g i j k m a d e p h = elim (Bool-cases (f == g)) [
  | inr ne ↦ inl (ground (arith, ne))
  | inl c ↦ elim h [
    | inl lt ↦ absurd (omega (arith, d, e, ap σ.depth (same_frame c)))
    | inr ne ↦ inr (λ r. ne (place (same_frame c) r))
  ]
]
  where
    same_frame : (f == g) ≡ true → f ≡ g
    same_frame c = ground (arith, c)

    place : f ≡ g → i ≡ j → σ.prefix g * 512 + j ≡ a / span m
    place q r =
        omega (arith, ap σ.prefix q) ∙ p ∙ ap (λ n. a / span n) (omega (arith, d, e, ap σ.depth q))

module _ (host : Host) (s : Tables) (σ : Shape) (k f a : ℕ) (t : IsTree host s σ) (k_lt : k < 4)
    (d : σ.depth f ≡ suc k) (p : σ.prefix f ≡ a / span (suc k)) where
  abbrev i : ℕ
  i = index a k

  pub place : σ.prefix f * 512 + i ≡ a / span k
  place = ap (λ n. n * 512 + i) p ∙ span-suc a k k_lt

  -- Addresses whose entry at level `l` is another one are translated as before.
  other-same :
      (s' : Tables) (l b : ℕ)
      → l ≤ k
      → ((g j m : ℕ)
          → σ.depth g ≡ suc m
          → (k < m) ⊎ (σ.prefix g * 512 + j ≢ a / span m)
          → s'.words g j ≡ s.words g j)
      → σ.prefix f ≡ b / span (suc k)
      → b / span k ≢ a / span k
      → translate k s' f b 7 ≡ translate k s f b 7
  other-same s' l b h same q ne = translate-same host s s' σ b k f 7 t k_lt d q (λ g m m_le e r.
      same g (index b m) m e (
        inr (λ w. ne (
          same_above a b m k m_le (omega arith)
            (sym (span-suc b m (omega arith)) ∙ ap (λ n. n * 512 + index b m) (sym r) ∙ w)))))

  pub leaf-IsMapped :
      (e : Epte) (h x : ℕ)
      → present e ≡ true
      → ((j : ℕ) → k ≡ suc j → ((e.large_page == 1) ≡ true) × (k < 3))
      → from_pfn e.page_frame_number ≡ h
      → bit_and e.access 7 ≡ x
      → IsMapped host s σ k f a k h x (write s f i e)
  leaf-IsMapped e h x here large address rights = record {
    shape = σ;
    tree =
        write-IsTree host s σ f i e t (λ q. absurd (ground (arith, here, q)))
          (λ j q p' l. absurd (ground (arith, l, (large j (omega (arith, d, q))).0)))
          (λ q. absurd (omega (arith, d, q, (large 2 (omega (arith, d, q))).1)));
    depth_kept = λ g h. refl;
    prefix_kept = λ g h. refl;
    grown = omega (arith, next-write s f i e);
    same = same;
    stays_open = open-at (write s f i e) k f a;
    hit = λ b q.
        translate-leaf (write s f i e) k f b 7 e
          (ap ((write s f i e).words f) (index-same a b k q) ∙ words-write_self s f i e) here large
        ∙ ap (λ n. some (n + b % span k, bit_and e.access 7)) address
        ∙ ap (λ y. some (h + b % span k, y)) rights;
    other = λ b. other-same (write s f i e) k b (omega arith) same;
  }
    where
      same :
          (g j m : ℕ)
          → σ.depth g ≡ suc m
          → (k < m) ⊎ (σ.prefix g * 512 + j ≢ a / span m)
          → (write s f i e).words g j ≡ s.words g j
      same g j m q ne = words-write_ne s f i e g j (cell-ne σ f g i j k m a d q place ne)

-- One level down: what the subtable's mapping is for the table above it.
module _ (host : Host) (s : Tables) (σ : Shape) (k f a l h x : ℕ) (t : IsTree host s σ)
    (k_lt : suc k < 4) (d : σ.depth f ≡ suc (suc k)) (p : σ.prefix f ≡ a / span (suc (suc k)))
    (l_le : l ≤ k) (r : Tables × ℕ) (b : IsSubtable host s σ k f (index a (suc k)) r) (s' : Tables)
    (m : IsMapped host r.0 b.shape k r.1 a l h x s') where
  abbrev CellsSame : Type 0
  CellsSame =
      (g j n : ℕ)
      → σ.depth g ≡ suc n
      → (suc k < n) ⊎ (σ.prefix g * 512 + j ≢ a / span n)
      → s'.words g j ≡ s.words g j

  cells-same : CellsSame
  cells-same g j n q w =
      m.same g j n (b.depth_kept g (omega (arith, q)) ∙ q) (weaker w)
      ∙ b.same g j (omega (arith, q)) (
          cell-ne σ f g (index a (suc k)) j (suc k) n a d q (place host s σ (suc k) f a t k_lt d p)
            w)
    where
      weaker :
          (suc k < n) ⊎ (σ.prefix g * 512 + j ≢ a / span n)
          → (k < n) ⊎ (b.shape.prefix g * 512 + j ≢ a / span n)
      weaker (inl v) = inl (omega (arith, v))
      weaker (inr v) = inr (λ w. v (omega (arith, w, b.prefix_kept g (omega (arith, q)))))

  -- The entry that points to the subtable stays.
  entry-same : s'.words f (index a (suc k)) ≡ r.0.words f (index a (suc k))
  entry-same =
      m.same f (index a (suc k)) (suc k) (b.depth_kept f (omega (arith, d)) ∙ d) (inl (omega arith))

  to_subtable :
      (u : Tables) (c : ℕ)
      → u.words f (index a (suc k)) ≡ r.0.words f (index a (suc k))
      → c / span (suc k) ≡ a / span (suc k)
      → translate (suc k) u f c 7 ≡ translate k u r.1 c 7
  to_subtable u c w q =
      translate-pointer u k f r.1 c (r.0.words f (index a (suc k)))
        (ap (u.words f) (index-same a c (suc k) q) ∙ w) b.here b.small b.points b.all_access

  other-below :
      (c : ℕ)
      → σ.prefix f ≡ c / span (suc (suc k))
      → c / span l ≢ a / span l
      → c / span (suc k) ≡ a / span (suc k)
      → translate (suc k) s' f c 7 ≡ translate (suc k) s f c 7
  other-below c q ne e =
      to_subtable s' c entry-same e
      ∙ m.other c (b.prefix_below ∙ place host s σ (suc k) f a t k_lt d p ∙ sym e) ne
      ∙ elim b.fresh [
        | inl z ↦ sym (to_subtable r.0 c refl e) ∙ ap (λ u. translate (suc k) u f c 7) z
        | inr z ↦
            translate-none r.0 k r.1 c 7 (z.1 (index c k))
            ∙ sym (
                translate-none s (suc k) f c 7
                  (ap (λ n. present (s.words f n)) (index-same a c (suc k) e) ∙ z.0))
      ]

  pub below-IsMapped : IsMapped host s σ (suc k) f a l h x s'
  below-IsMapped = record {
    shape = m.shape;
    tree = m.tree;
    depth_kept = λ g q. ground (arith, m.depth_kept g, b.depth_kept g, q);
    prefix_kept = λ g q. ground (arith, m.prefix_kept g, b.prefix_kept g, b.depth_kept g, q);
    grown = omega (arith, m.grown, b.grown);
    same = cells-same;
    stays_open =
        open-pointer s' k f r.1 a l (r.0.words f (index a (suc k))) entry-same b.small b.points
          m.stays_open;
    hit = λ c q.
        to_subtable s' c entry-same (same_above a c l (suc k) (omega arith) (omega arith) q)
        ∙ m.hit c q;
    other = λ c q ne. elim (Bool-cases (c / span (suc k) == a / span (suc k))) [
      | inl e ↦ other-below c q ne (ground (arith, e))
      | inr e ↦
          other-same host s σ (suc k) f a t k_lt d p s' l c (omega arith) cells-same q
            (ground (arith, e))
    ];
  }
