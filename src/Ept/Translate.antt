-- ===== src/Ept/Translate.antt =====
-- What the operations of `ept_t` (src/hvpp/hvpp/ept.cpp) do to the guest's view of memory.
use hvpp.Prelude.{
  ℕ, zero, suc, ◌+◌, ◌/◌, ◌%◌, ◌^◌, ◌<◌, ◌≤◌, ◌≡◌, ◌≢◌, refl, Bool, true, ◌==◌, Option, none, some,
  if◌then◌else◌, ◌∙◌, arith, ap,
}
use hvpp.Paging.{Pml, level}
use hvpp.Ept.{Tables, Host, cleared, index, present, wipe, map}
use hvpp.Ept.Rebuild.{construct}
use hvpp.Ept.Shape.{Shape, IsTree, span, present-cleared, Bool-All}
use hvpp.Ept.Walk.{translate, translate-none, is_open, open-same}
use hvpp.Ept.Map.{IsMapped}
use hvpp.Ept.Level.{map_table-IsMapped}

-- The tables below the root form a tree, on frames that are not handed out again.
unfoldable pub HasTree : Host → Tables → Type 0
HasTree host s = (σ : Shape) × IsTree host s σ

-- The guest's view: the address and the rights that the processor finds for `pa`.
unfoldable pub view : Host → Tables → ℕ → Option (ℕ × ℕ)
view host s pa = translate 3 s host.root pa 7

-- No large page lies over the page of level `l` that holds `pa`.
unfoldable pub is_splittable : Host → Tables → ℕ → ℕ → Bool
is_splittable host s pa l = is_open 3 s host.root pa l

-- A page of level `l` and rights to it.
abbrev pub IsTarget : ℕ → ℕ → ℕ → Type 0
IsTarget h x l = (h < 2 ^ 48) × (h % span l ≡ 0) × (0 < x) × (x < 8)

span-page : (h l : ℕ) → l < 3 → h % span l ≡ 0 → h % 2 ^ 12 ≡ 0
span-page h zero l_lt e = e
span-page h (suc zero) l_lt e = omega (arith, e)
span-page h (suc (suc zero)) l_lt e = omega (arith, e)
span-page h (suc (suc (suc l))) l_lt e = absurd (omega (arith, l_lt))

-- In tables that form a tree, `map` of a page of 4 KB, 2 MB or 1 GB that no larger page covers,
-- with some rights and an aligned host page below 2 ^ 48, leaves a tree, in which every address of
-- the page is translated to its place in the host's page, with the rights given, and every other
-- address below 2 ^ 48 as before. It takes at most one new page for each level between the root
-- and the entry, and these must be left.
pub map_lem :
    (host : Host) (s : Tables) (a h x b : ℕ) (l : Pml)
    → HasTree host s
    → a < 2 ^ 48
    → b < 2 ^ 48
    → level l < 3
    → IsTarget h x (level l)
    → is_splittable host s a (level l) ≡ true
    → s.next + 3 ≤ host.pages + level l
    → HasTree host (map host s a h x l).0
      × ((map host s a h x l).0.next + level l ≤ s.next + 3)
      × (view host (map host s a h x l).0 b ≡ (
          if b / span (level l) == a / span (level l)
          then some (h + b % span (level l), x)
          else view host s b))
unfolding map HasTree view is_splittable
map_lem host s a h x b l (σ, t) a_lt b_lt l_lt (h_lt, whole, x_pos, x_lt) o room = (
  (m.shape, m.tree),
  m.grown,
  Bool-All
      (λ c.
        view host (map host s a h x l).0 b
        ≡ (if c then some (h + b % span (level l), x) else view host s b))
      (b / span (level l) == a / span (level l)) (λ q. m.hit b (ground (arith, q)))
      (λ q. m.other b (t.root_prefix ∙ omega (arith, b_lt)) (ground (arith, q))),
)
  where
    m : IsMapped host s σ 3 host.root a (level l) h x (map host s a h x l).0
    m =
        map_table-IsMapped host a h x (level l) (h_lt, span-page h (level l) l_lt whole)
          (x_pos, x_lt) l_lt 3 s σ host.root t (omega arith) (omega (arith, l_lt)) t.root_depth
          (t.root_prefix ∙ omega (arith, a_lt)) o room

-- The page that was mapped can be mapped again.
pub is_splittable-map :
    (host : Host) (s : Tables) (a h x : ℕ) (l : Pml)
    → HasTree host s
    → a < 2 ^ 48
    → level l < 3
    → IsTarget h x (level l)
    → is_splittable host s a (level l) ≡ true
    → s.next + 3 ≤ host.pages + level l
    → is_splittable host (map host s a h x l).0 a (level l) ≡ true
unfolding map HasTree is_splittable
is_splittable-map host s a h x l (σ, t) a_lt l_lt (h_lt, whole, x_pos, x_lt) o room = m.stays_open
  where
    m : IsMapped host s σ 3 host.root a (level l) h x (map host s a h x l).0
    m =
        map_table-IsMapped host a h x (level l) (h_lt, span-page h (level l) l_lt whole)
          (x_pos, x_lt) l_lt 3 s σ host.root t (omega arith) (omega (arith, l_lt)) t.root_depth
          (t.root_prefix ∙ omega (arith, a_lt)) o room

pub same-splittable :
    (host : Host) (s : Tables) (a b l : ℕ)
    → b / span (suc l) ≡ a / span (suc l)
    → is_splittable host s b l ≡ is_splittable host s a l
unfolding is_splittable
same-splittable host s a b l q = open-same s 3 host.root a b l (omega arith) q

-- What `operator new[]` promises: pages that differ from each other and from the object, at addresses
-- that an entry can hold.
unfoldable pub IsHost : Host → Type 0
IsHost host =
    ((m n : ℕ) → m < n → n < host.pages → host.new_page m ≢ host.new_page n)
    × ((n : ℕ) → n < host.pages → host.new_page n < 2 ^ 36)
    × ((n : ℕ) → n < host.pages → host.root ≢ host.new_page n)

pub next-construct : (host : Host) (s : Tables) → (construct host s).0.next ≡ s.next
unfolding construct wipe
next-construct host s = refl

-- After the constructor, whatever the memory held, the tables form a tree and translate nothing,
-- if the new pages to come differ from each other and from the root and lie below 2 ^ 48.
pub construct_lem :
    (host : Host) (s : Tables) (b : ℕ)
    → IsHost host
    → HasTree host (construct host s).0 × (view host (construct host s).0 b ≡ none)
unfolding construct HasTree view IsHost wipe
construct_lem host s b (distinct, narrow, apart) = (
  (
    σ,
    record {
      root_depth = ground arith;
      root_prefix = refl;
      pointer = λ f i k d i_lt here l. absurd (
          ground (
            arith,
            ap present (root_cleared f i (in_root f (omega (arith, d)))),
            present-cleared,
            here,
          ));
      blank = λ f i k d i_lt q.
          ap (λ e. e.large_page == 1) (root_cleared f i (in_root f (omega (arith, d))));
      top_small = λ f i d i_lt.
          ap (λ e. e.large_page == 1) (root_cleared f i (in_root f (omega (arith, d))));
      spare = λ n h r. ground (arith, apart n r);
      distinct = distinct;
      narrow = narrow;
    },
  ),
  translate-none (wipe s host.root) 3 host.root b 7
      (ap present (root_cleared host.root (index b 3) refl) ∙ present-cleared),
)
  where
    σ : Shape
    σ = record { depth = λ f. if host.root == f then 4 else 0; prefix = λ f. 0 }

    in_root : (f : ℕ) → 0 < σ.depth f → host.root ≡ f
    in_root f h = ground (arith, h)

    root_cleared : (f i : ℕ) → host.root ≡ f → (wipe s host.root).words f i ≡ cleared
    root_cleared f i q = ground (arith, q)
