-- ===== src/Ept/Identity.antt =====
-- `map_identity` and `map_identity_sparse` of src/hvpp/hvpp/ept.cpp.
use hvpp.Prelude.{
  ℕ, zero, suc, ◌+◌, ◌-◌, ◌*◌, ◌/◌, ◌%◌, ◌^◌, ◌<◌, ◌≤◌, ◌≡◌, refl, true, false, ◌==◌, ltb, Option,
  none, some, if◌then◌else◌, ◌∙◌, arith, add64,
}
use mathlib.Core.Path.{subst}
use hvpp.Paging.{Pml}
use hvpp.Ept.{Epte, Tables, Host, map, map_identity_loop, map_identity}
use hvpp.Ept
use hvpp.Ept.Rebuild.{construct}
use hvpp.Ept.Shape.{span, index-lt}
use hvpp.Ept.Walk.{none-open}
use hvpp.Ept.Translate.{
  HasTree, view, is_splittable, IsHost, map_lem, construct_lem, next-construct,
}

-- The view in which exactly the addresses below `pa` are mapped, each to itself.
pub up_to : ℕ → ℕ → ℕ → Option (ℕ × ℕ)
up_to pa x b = if ltb b pa then some (b, x) else none

pub none-is_splittable :
    (host : Host) (s : Tables) (pa l : ℕ)
    → HasTree host s
    → view host s pa ≡ none
    → is_splittable host s pa l ≡ true
unfolding HasTree view is_splittable
none-is_splittable host s pa l (σ, t) h =
    none-open s 3 host.root pa l 7 (λ g. absurd (ground (arith, g, small))) (omega arith) h
  where
    small : ((s.words host.root (Ept.index pa 3)).large_page == 1) ≡ false
    small = t.top_small host.root (Ept.index pa 3) t.root_depth (index-lt pa 3)

module _ (host : Host) (x : ℕ) (x_pos : 0 < x) (x_lt : x < 8) where
  -- The tables map exactly the addresses below `pa`, which begins a page of 2 MB.
  record IsIdentity (s : Tables) (pa : ℕ) : Type 0 where
    has_tree : HasTree host s
    views : (b : ℕ) → b < 2 ^ 48 → view host s b ≡ up_to pa x b
    whole : pa % 2 ^ 21 ≡ 0
    below : pa ≤ 2 ^ 39
    left : s.next + 2 * ((2 ^ 39 - pa) / 2 ^ 21) ≤ host.pages

  map-IsIdentity :
      (s : Tables) (pa : ℕ)
      → IsIdentity s pa
      → pa < 2 ^ 39
      → IsIdentity (map host s pa pa x Pml.pd).0 (add64 pa (2 ^ 21))
  unfolding up_to
  map-IsIdentity s pa v lt = record {
    has_tree = (mapped 0 (omega arith)).0;
    views = λ b b_lt. (mapped b b_lt).2 ∙ ground (arith, v.views b b_lt, v.whole, lt);
    whole = omega (arith, v.whole, lt);
    below = omega (arith, v.whole, lt);
    left = omega (arith, v.whole, lt, v.left, (mapped 0 (omega arith)).1);
  }
    where
      mapped :
          (b : ℕ)
          → b < 2 ^ 48
          → HasTree host (map host s pa pa x Pml.pd).0
            × ((map host s pa pa x Pml.pd).0.next + 1 ≤ s.next + 3)
            × (view host (map host s pa pa x Pml.pd).0 b
                ≡ (if b / span 1 == pa / span 1 then some (pa + b % span 1, x) else view host s b))
      mapped b b_lt =
          map_lem host s pa pa x b Pml.pd v.has_tree (omega (arith, lt)) b_lt (omega arith)
            (omega (arith, lt), v.whole, x_pos, x_lt)
            (none-is_splittable host s pa 1 v.has_tree
              (v.views pa (omega (arith, lt)) ∙ ground arith))
            (omega (arith, v.whole, lt, v.left))

  loop-IsIdentity :
      (n : ℕ) (s : Tables) (pa : ℕ)
      → IsIdentity s pa
      → pa + n * 2 ^ 21 ≤ 2 ^ 39
      → IsIdentity (map_identity_loop host n s pa x) (pa + n * 2 ^ 21)
  unfolding map_identity_loop
  loop-IsIdentity zero s pa v le = subst (IsIdentity s) (omega arith) v
  loop-IsIdentity (suc n) s pa v le =
      subst
        (IsIdentity (map_identity_loop host n (map host s pa pa x Pml.pd).0 (add64 pa (2 ^ 21)) x))
        (omega (arith, le))
        (loop-IsIdentity n (map host s pa pa x Pml.pd).0 (add64 pa (2 ^ 21))
          (map-IsIdentity s pa v (omega (arith, le))) (omega (arith, le)))

-- On the object that the constructor leaves, and with 2 ^ 19 new pages that differ and lie below 2
-- ^ 48, `map_identity` with some rights builds a tree that maps each address below 512 GB to
-- itself, with these rights, and no other address below 2 ^ 48.
pub map_identity_lem :
    (host : Host) (s : Tables) (x b : ℕ)
    → IsHost host
    → 0 < x
    → x < 8
    → b < 2 ^ 48
    → s.next + 2 ^ 19 ≤ host.pages
    → HasTree host (map_identity host (construct host s).0 x)
      × (view host (map_identity host (construct host s).0 x) b
          ≡ (if ltb b (2 ^ 39) then some (b, x) else none))
unfolding map_identity up_to
map_identity_lem host s x b new x_pos x_lt b_lt room = (done.has_tree, done.views b b_lt)
  where
    s0 : Tables
    s0 = (construct host s).0

    start : IsIdentity host x x_pos x_lt s0 0
    start = record {
      has_tree = (construct_lem host s 0 new).0;
      views = λ c c_lt. (construct_lem host s c new).1 ∙ ground arith;
      whole = refl;
      below = omega arith;
      left = omega (arith, room, next-construct host s);
    }

    done : IsIdentity host x x_pos x_lt (map_identity_loop host (2 ^ 18) s0 0 x) (2 ^ 39)
    done = loop-IsIdentity host x x_pos x_lt (2 ^ 18) s0 0 start (omega arith)
