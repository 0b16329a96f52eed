-- ===== src/Ept/Unmap.antt =====
-- `unmap_entry` of src/hvpp/hvpp/ept.cpp, on an entry that `ept_entry` finds in tables that form a tree.
use hvpp.Prelude.{
  ℕ, suc, ◌+◌, ◌*◌, ◌/◌, ◌^◌, ◌<◌, ◌≤◌, ◌≡◌, ◌≢◌, ◌⊎◌, refl, inl, inr, true, false, ◌==◌, none, ◌∙◌,
  arith, ap, sym, Bool-cases,
}
use mathlib.Core.Path.{subst}
use native.Mathlib.Decide.{dec_le}
use hvpp.Ept.{Tables, Host, cleared, index, present, write, delete}
use hvpp.Ept.Rebuild.{subtable, unmap_with, unmap_subtable, unmap_entry}
use hvpp.Ept.Shape.{
  Shape, IsTree, span, span-suc, words-write_self, next-write, words-write_ne, write-IsTree,
  present-cleared,
}
use hvpp.Ept.Walk.{translate-delete, translate-none, translate-same, same_above, index-same}
use hvpp.Ept.Map.{cell-ne}
use hvpp.Ept.Entry.{IsOn}
use hvpp.Ept.Translate.{HasTree, view}

-- The page of level `k` that holds `a` is no longer mapped, and the rest is as it was.
pub record IsUnmapped (host : Host) (s : Tables) (k a : ℕ) (s' : Tables) : Type 0 where
  pub has_tree : HasTree host s'
  pub next_kept : s'.next ≡ s.next
  pub inside : (b : ℕ) → b / span k ≡ a / span k → view host s' b ≡ none
  pub outside : (b : ℕ) → b < 2 ^ 48 → b / span k ≢ a / span k → view host s' b ≡ view host s b

module _ (host : Host) (s : Tables) (σ : Shape) (k f i a : ℕ) (t : IsTree host s σ) (k_lt : k < 3)
    (o : IsOn host s σ k f a k) (i_eq : i ≡ index a k) where
  place : σ.prefix f * 512 + i ≡ a / span k
  place = omega (arith, i_eq, o.prefix_on, span-suc a k (omega (arith, k_lt)))

  pub clear-IsUnmapped : IsUnmapped host s k a (write s f i cleared)
  unfolding HasTree view
  clear-IsUnmapped = record {
    has_tree = (
      σ,
      write-IsTree host s σ f i cleared t (λ q. refl)
          (λ j d p l. absurd (ground (arith, p, present-cleared))) (λ q. refl),
    );
    next_kept = next-write s f i cleared;
    inside = λ b e.
        o.reach_on (write s f i cleared) b
          (λ g j m d lt.
            words-write_ne s f i cleared g j (cell-ne σ f g i j k m a o.depth_on d place (inl lt)))
          (same_above a b k (suc k) (omega arith) (omega (arith, k_lt)) e)
        ∙ translate-none (write s f i cleared) k f b 7 (
            ap present (
              ap ((write s f i cleared).words f) (index-same a b k e ∙ sym i_eq)
              ∙ words-write_self s f i cleared)
            ∙ present-cleared);
    outside = λ b b_lt ne.
        translate-same host s (write s f i cleared) σ b 3 host.root 7 t (omega arith) t.root_depth
          (t.root_prefix ∙ omega (arith, b_lt))
          (λ g m m_le d p.
            words-write_ne s f i cleared g (index b m)
              (cell-ne σ f g i (index b m) k m a o.depth_on d place (cell b g m ne m_le p)));
  }
    where
      cell :
          (b g m : ℕ)
          → b / span k ≢ a / span k
          → m ≤ 3
          → σ.prefix g ≡ b / span (suc m)
          → (k < m) ⊎ (σ.prefix g * 512 + index b m ≢ a / span m)
      cell b g m ne m_le p = elim (dec_le m k) [
        | no h ↦ inl (omega (arith, h))
        | yes h ↦ inr (λ q. ne (
            same_above a b m k h (omega (arith, k_lt))
              (sym (span-suc b m (omega (arith, m_le))) ∙ omega (arith, p, q))))
      ]

  absent-IsUnmapped : present (s.words f i) ≡ false → IsUnmapped host s k a s
  unfolding HasTree view
  absent-IsUnmapped p = record {
    has_tree = (σ, t);
    next_kept = refl;
    inside = λ b e.
        o.reach_on s b (λ g j m d lt. refl)
          (same_above a b k (suc k) (omega arith) (omega (arith, k_lt)) e)
        ∙ translate-none s k f b 7
            (ap (λ j. present (s.words f j)) (index-same a b k e ∙ sym i_eq) ∙ p);
    outside = λ b b_lt ne. refl;
  }

-- `delete[]` leaves the entries.
delete-IsUnmapped :
    (host : Host) (s s' : Tables) (k a g : ℕ)
    → IsUnmapped host s k a s'
    → IsUnmapped host s k a (delete s' g)
unfolding HasTree view delete
delete-IsUnmapped host s s' k a g u = record {
  has_tree = (σ, kept);
  next_kept = u.next_kept;
  inside = λ b e. view-kept b ∙ u.inside b e;
  outside = λ b b_lt ne. view-kept b ∙ u.outside b b_lt ne;
}
  where
    σ : Shape
    σ = u.has_tree.0

    kept : IsTree host (delete s' g) σ
    kept = record {
      root_depth = u.has_tree.1.root_depth;
      root_prefix = u.has_tree.1.root_prefix;
      pointer = u.has_tree.1.pointer;
      blank = u.has_tree.1.blank;
      top_small = u.has_tree.1.top_small;
      spare = u.has_tree.1.spare;
      distinct = u.has_tree.1.distinct;
      narrow = u.has_tree.1.narrow;
    }

    view-kept : (b : ℕ) → view host (delete s' g) b ≡ view host s' b
    view-kept b = translate-delete s' g 3 host.root b 7

module _ (host : Host) (s : Tables) (σ : Shape) (k f i a : ℕ) (t : IsTree host s σ) (k_lt : k < 3)
    (o : IsOn host s σ k f a k) (i_eq : i ≡ index a k) where
  -- A large entry, or an absent one, at any level.
  pub large-IsUnmapped :
      (unmap : Tables → ℕ → Tables)
      → ((s.words f i).large_page == 1) ≡ true
      → IsUnmapped host s k a (unmap_with unmap s f i)
  unfolding unmap_with subtable
  large-IsUnmapped unmap l = elim (Bool-cases (present (s.words f i))) [
    | inl p ↦
        subst (IsUnmapped host s k a) (rw p (rw l refl))
          (clear-IsUnmapped host s σ k f i a t k_lt o i_eq)
    | inr p ↦
        subst (IsUnmapped host s k a) (rw p refl)
          (absent-IsUnmapped host s σ k f i a t k_lt o i_eq p)
  ]

-- At the level of the PD a table goes too.
pub pde-IsUnmapped :
    (host : Host) (s : Tables) (σ : Shape) (f i a : ℕ)
    → IsTree host s σ
    → IsOn host s σ 1 f a 1
    → i ≡ index a 1
    → IsUnmapped host s 1 a (unmap_entry 1 s f i)
unfolding unmap_with subtable unmap_subtable delete write
pde-IsUnmapped host s σ f i a t o i_eq = elim (Bool-cases ((s.words f i).large_page == 1)) [
  | inl l ↦ large-IsUnmapped host s σ 1 f i a t (omega arith) o i_eq (unmap_subtable 1) l
  | inr l ↦ elim (Bool-cases (present (s.words f i))) [
    | inr p ↦
        subst (IsUnmapped host s 1 a) (rw p refl)
          (absent-IsUnmapped host s σ 1 f i a t (omega arith) o i_eq p)
    | inl p ↦ subst (IsUnmapped host s 1 a) (rw p (rw l refl)) (
        delete-IsUnmapped host s (write s f i cleared) 1 a (s.words f i).page_frame_number
          (clear-IsUnmapped host s σ 1 f i a t (omega arith) o i_eq))
  ]
]
