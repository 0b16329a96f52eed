-- ===== src/Ept/Split.antt =====
-- `split` and `join` of src/hvpp/hvpp/ept.cpp: the pages change their size, and the guest's view is what
-- one `map` of the whole would give.
use hvpp.Prelude.{
  ℕ, zero, suc, ◌+◌, ◌*◌, ◌/◌, ◌%◌, ◌^◌, ◌<◌, ◌≤◌, ◌≡◌, ◌≢◌, refl, true, false, ◌&&◌, ◌==◌, ltb,
  Option, none, some, if◌then◌else◌, ◌∙◌, arith, ap, sym, add64,
}
use hvpp.Paging.{Pml, level, size, page_align}
use hvpp.Paging.Align.{page_align-eq}
use hvpp.Ept.{Tables, Host, ept_entry, map}
use hvpp.Ept.Rebuild.{each, unmap_subtable, unmap_entry, map_pages, split, join}
use hvpp.Ept.Shape.{span, Bool-All}
use hvpp.Ept.Entry.{Place, ept_entry-Place}
use hvpp.Ept.Translate.{
  HasTree, view, is_splittable, IsTarget, map_lem, is_splittable-map, same-splittable,
}
use hvpp.Ept.Identity.{none-is_splittable}
use hvpp.Ept.Unmap.{IsUnmapped, large-IsUnmapped, pde-IsUnmapped}

-- The level above that of the small pages.
abbrev pub above : Pml → ℕ
above to = suc (level to)

-- The view after the first `n` small pages, on the view `old`.
abbrev partly : Pml → ℕ → ℕ → ℕ → ℕ → ℕ → Option (ℕ × ℕ) → Option (ℕ × ℕ)
partly to n g h x b old =
    if b / span (above to) == g / span (above to) && ltb b (g + n * size to)
    then some (h + b % span (above to), x)
    else old

-- A page `g` of the larger level, with `h` as its target.
abbrev pub IsWhole : Pml → ℕ → ℕ → Type 0
IsWhole to g h =
    (level to < 2)
    × (g < 2 ^ 48)
    × (g % span (above to) ≡ 0)
    × (h < 2 ^ 48)
    × (h % span (above to) ≡ 0)

partly-suc :
    (to : Pml) (n g h x b : ℕ) (old : Option (ℕ × ℕ))
    → IsWhole to g h
    → n < 512
    → (if b / span (level to) == add64 g (n * size to) / span (level to)
        then some (add64 h (n * size to) + b % span (level to), x)
        else partly to n g h x b old)
      ≡ partly to (suc n) g h x b old
partly-suc Pml.pt n g h x b old (_, g_lt, g_al, h_lt, h_al) n_lt = ground arith
partly-suc Pml.pd n g h x b old (_, g_lt, g_al, h_lt, h_al) n_lt = ground arith
partly-suc Pml.pdpt n g h x b old w n_lt = absurd (omega (arith, w.0))
partly-suc Pml.pml4 n g h x b old w n_lt = absurd (omega (arith, w.0))

partly-zero :
    (to : Pml) (g h x b : ℕ) (old : Option (ℕ × ℕ)) → IsWhole to g h → partly to 0 g h x b old ≡ old
partly-zero Pml.pt g h x b old (_, g_lt, g_al, _, _) = ground arith
partly-zero Pml.pd g h x b old (_, g_lt, g_al, _, _) = ground arith
partly-zero Pml.pdpt g h x b old w = absurd (omega (arith, w.0))
partly-zero Pml.pml4 g h x b old w = absurd (omega (arith, w.0))

-- After the last round, the whole page.
partly-all :
    (to : Pml) (g h x b : ℕ) (old : Option (ℕ × ℕ))
    → IsWhole to g h
    → partly to 512 g h x b old ≡ (
        if b / span (above to) == g / span (above to)
        then some (h + b % span (above to), x)
        else old)
partly-all Pml.pt g h x b old (_, g_lt, g_al, _, _) = ground arith
partly-all Pml.pd g h x b old (_, g_lt, g_al, _, _) = ground arith
partly-all Pml.pdpt g h x b old w = absurd (omega (arith, w.0))
partly-all Pml.pml4 g h x b old w = absurd (omega (arith, w.0))

-- The address of small page `n`, and its target.
page-IsTarget :
    (to : Pml) (n g h x : ℕ)
    → IsWhole to g h
    → n < 512
    → 0 < x
    → x < 8
    → (add64 g (n * size to) < 2 ^ 48)
      × (add64 g (n * size to) / span (above to) ≡ g / span (above to))
      × (add64 g (n * size to) ≡ g + n * size to)
      × IsTarget (add64 h (n * size to)) x (level to)
page-IsTarget Pml.pt n g h x (_, g_lt, g_al, h_lt, h_al) n_lt x_pos x_lt =
    (omega arith, omega arith, omega arith, (omega arith, omega arith, x_pos, x_lt))
page-IsTarget Pml.pd n g h x (_, g_lt, g_al, h_lt, h_al) n_lt x_pos x_lt =
    (omega arith, omega arith, omega arith, (omega arith, omega arith, x_pos, x_lt))
page-IsTarget Pml.pdpt n g h x w n_lt x_pos x_lt = absurd (omega (arith, w.0))
page-IsTarget Pml.pml4 n g h x w n_lt x_pos x_lt = absurd (omega (arith, w.0))

module _ (host : Host) (to : Pml) (g h x : ℕ) (w : IsWhole to g h) (x_pos : 0 < x) (x_lt : x < 8)
    (s : Tables) (t : HasTree host s) (room : s.next + 3 * 512 ≤ host.pages)
    (inside : (b : ℕ) → b / span (above to) ≡ g / span (above to) → view host s b ≡ none) where
  -- The tables after `n` rounds.
  abbrev rounds : ℕ → Tables
  rounds n = each n (λ s' i. (map host s' (add64 g (i * size to)) (add64 h (i * size to)) x to).0) s

  rounds-view :
      (n : ℕ)
      → n ≤ 512
      → HasTree host (rounds n)
        × ((rounds n).next ≤ s.next + 3 * n)
        × ((b : ℕ) → b < 2 ^ 48 → view host (rounds n) b ≡ partly to n g h x b (view host s b))
  unfolding each
  rounds-view zero n_le = (t, omega arith, λ b b_lt. sym (partly-zero to g h x b (view host s b) w))
  rounds-view (suc n) n_le =
      let before = rounds-view n (omega (arith, n_le)) in
      let page = page-IsTarget to n g h x w (omega (arith, n_le)) x_pos x_lt in
      let step = λ (b : ℕ) (b_lt : b < 2 ^ 48).
        map_lem host (rounds n) (add64 g (n * size to)) (add64 h (n * size to)) x b to before.0
          page.0 b_lt (omega (arith, w.0)) page.3
          (none-is_splittable host (rounds n) (add64 g (n * size to)) (level to) before.0 (
            before.2 (add64 g (n * size to)) page.0
            ∙ rw page.2 (ground (arith, inside (g + n * size to), page.1, page.2))))
          (omega (arith, before.1, room, n_le)) in
      (
        (step 0 (omega arith)).0,
        omega (arith, before.1, (step 0 (omega arith)).1),
        λ b b_lt.
            (step b b_lt).2
            ∙ ap
                (λ o.
                  if b / span (level to) == add64 g (n * size to) / span (level to)
                  then some (add64 h (n * size to) + b % span (level to), x)
                  else o)
                (before.2 b b_lt)
            ∙ partly-suc to n g h x b (view host s b) w (omega (arith, n_le)),
      )

  -- A page that has been mapped can be mapped again, and with it all that share its table.
  round-splittable :
      (n : ℕ)
      → n < 512
      → is_splittable host (rounds (suc n)) (add64 g (n * size to)) (level to) ≡ true
  unfolding each
  round-splittable n n_lt =
      let before = rounds-view n (omega (arith, n_lt)) in
      let page = page-IsTarget to n g h x w n_lt x_pos x_lt in
      is_splittable-map host (rounds n) (add64 g (n * size to)) (add64 h (n * size to)) x to
        before.0 page.0 (omega (arith, w.0)) page.3
        (none-is_splittable host (rounds n) (add64 g (n * size to)) (level to) before.0 (
          before.2 (add64 g (n * size to)) page.0
          ∙ rw page.2 (ground (arith, inside (g + n * size to), page.1, page.2))))
        (omega (arith, before.1, room, n_lt))

  pub rounds-splittable :
      (c : ℕ)
      → c / span (above to) ≡ g / span (above to)
      → is_splittable host (rounds 512) c (level to) ≡ true
  rounds-splittable c q =
      same-splittable host (rounds 512) (add64 g (511 * size to)) c (level to)
        (q ∙ sym (page-IsTarget to 511 g h x w (omega arith) x_pos x_lt).1)
      ∙ round-splittable 511 (omega arith)

-- The view of a page, by its level and by what is outside of it.
abbrev whole : ℕ → ℕ → ℕ → ℕ → ℕ → Option (ℕ × ℕ) → Option (ℕ × ℕ)
whole k b g h x old = if b / span k == g / span k then some (h + b % span k, x) else old

whole-same :
    (m n b g h x : ℕ) (old old' : Option (ℕ × ℕ))
    → m ≡ n
    → (b / span n ≢ g / span n → old ≡ old')
    → whole m b g h x old ≡ whole n b g h x old'
whole-same m n b g h x old old' q e =
    ap (λ k. whole k b g h x old) q
    ∙ Bool-All
        (λ c.
          (if c then some (h + b % span n, x) else old)
          ≡ (if c then some (h + b % span n, x) else old'))
        (b / span n == g / span n) (λ c. refl) (λ c. e (ground (arith, c)))

-- Tables that `split` gives, with the view of `b`, the pages taken, and where they can be mapped again.
abbrev pub SplitResult : Host → Tables → ℕ → ℕ → ℕ → ℕ → Pml → Pml → Type 0
SplitResult host s g h x b from to =
    (s' : Tables) × (split host s g h x from to ≡ some s')
    × HasTree host s'
    × (view host s' b ≡ (
        if b / span (level from) == g / span (level from)
        then some (h + b % span (level from), x)
        else view host s b))
    × (s'.next ≤ s.next + 3 * 512)
    × ((c : ℕ)
        → c / span (level from) ≡ g / span (level from)
        → is_splittable host s' c (level to) ≡ true)

pub split-splittable :
    (host : Host) (s : Tables) (g h x f i b : ℕ) (from to : Pml)
    → level from ≡ suc (level to)
    → IsWhole to g h
    → 0 < x
    → x < 8
    → b < 2 ^ 48
    → HasTree host s
    → is_splittable host s g (level from) ≡ true
    → ept_entry host s g (level from) ≡ some (f, i)
    → ((s.words f i).large_page == 1) ≡ true
    → s.next + 3 * 512 ≤ host.pages
    → SplitResult host s g h x b from to
unfolding split HasTree is_splittable
split-splittable host s g h x f i b from to l_eq w x_pos x_lt b_lt (σ, t) o e large room = (
  s',
  rw e (rw large refl),
  after.0,
  after.2 ∙ partly-all to g h x b (view host s1 b) w ∙ levels,
  omega (arith, after.1, u.next_kept),
  λ c q.
      rounds-splittable host to g h x w x_pos x_lt s1 u.has_tree (omega (arith, room, u.next_kept))
        none_inside c (omega (arith, q, ap (λ n. c / span n) l_eq, ap (λ n. g / span n) l_eq)),
)
  where
    s1 : Tables
    s1 = unmap_entry (level from) s f i

    s' : Tables
    s' = map_pages host s1 g h x to

    p : Place host s σ g (level from) t (level from) (f, i)
    p = ept_entry-Place host s σ g (level from) t (f, i) (omega (arith, l_eq, w.0)) w.1 o e

    u : IsUnmapped host s (level from) g s1
    u =
        large-IsUnmapped host s σ (level from) f i g t (omega (arith, l_eq, w.0)) p.0 p.1
          (unmap_subtable (level from)) large

    none_inside : (c : ℕ) → c / span (above to) ≡ g / span (above to) → view host s1 c ≡ none
    none_inside c q =
        u.inside c (omega (arith, q, ap (λ n. c / span n) l_eq, ap (λ n. g / span n) l_eq))

    after :
        HasTree host s'
        × (s'.next ≤ s1.next + 3 * 512)
        × (view host s' b ≡ partly to 512 g h x b (view host s1 b))
    after = (rounds.0, rounds.1, rounds.2 b b_lt)
      where
        rounds :
            HasTree host s'
            × (s'.next ≤ s1.next + 3 * 512)
            × ((c : ℕ) → c < 2 ^ 48 → view host s' c ≡ partly to 512 g h x c (view host s1 c))
        rounds =
            rounds-view host to g h x w x_pos x_lt s1 u.has_tree (omega (arith, room, u.next_kept))
              none_inside 512 (omega arith)

    levels :
        (if b / span (above to) == g / span (above to)
          then some (h + b % span (above to), x)
          else view host s1 b)
        ≡ (if b / span (level from) == g / span (level from)
            then some (h + b % span (level from), x)
            else view host s b)
    levels =
        whole-same (above to) (level from) b g h x (view host s1 b) (view host s b) (sym l_eq)
          (u.outside b b_lt)

-- Let tables that form a tree have a large entry of level `to` + 1 for the aligned page `g`, which
-- `ept_entry` finds and no larger page covers, and let 3 * 512 new pages be left. Then `split`
-- with some rights gives tables: they form a tree, every address of the page is translated to its
-- place in the aligned host page `h`, with the rights given, and every other address below 2 ^ 48
-- as before.
pub split_lem :
    (host : Host) (s : Tables) (g h x f i b : ℕ) (from to : Pml)
    → level from ≡ suc (level to)
    → IsWhole to g h
    → 0 < x
    → x < 8
    → b < 2 ^ 48
    → HasTree host s
    → is_splittable host s g (level from) ≡ true
    → ept_entry host s g (level from) ≡ some (f, i)
    → ((s.words f i).large_page == 1) ≡ true
    → s.next + 3 * 512 ≤ host.pages
    → (s' : Tables) × (split host s g h x from to ≡ some s')
      × HasTree host s'
      × (view host s' b ≡ (
          if b / span (level from) == g / span (level from)
          then some (h + b % span (level from), x)
          else view host s b))
split_lem host s g h x f i b from to l_eq w x_pos x_lt b_lt t o e large room =
    let r = split-splittable host s g h x f i b from to l_eq w x_pos x_lt b_lt t o e large room in
    (r.0, r.1, r.2, r.3)

-- Let tables that form a tree have an entry that is not large for the aligned page `g` of 2 MB,
-- which `ept_entry` finds and no larger page covers, and let two new pages be left. Then `join`
-- with some rights gives tables: they form a tree, every address of the page is translated to its
-- place in the aligned host page `h`, with the rights given, and every other address below 2 ^ 48
-- as before.
pub join_lem :
    (host : Host) (s : Tables) (g h x f i b : ℕ)
    → IsWhole Pml.pt g h
    → 0 < x
    → x < 8
    → b < 2 ^ 48
    → HasTree host s
    → is_splittable host s g 1 ≡ true
    → ept_entry host s g 1 ≡ some (f, i)
    → ((s.words f i).large_page == 1) ≡ false
    → s.next + 2 ≤ host.pages
    → (s' : Tables) × (join host s g h x Pml.pd ≡ some s')
      × HasTree host s'
      × (view host s' b
          ≡ (if b / span 1 == g / span 1 then some (h + b % span 1, x) else view host s b))
unfolding join HasTree is_splittable
join_lem host s g h x f i b w x_pos x_lt b_lt (σ, t) o e small room = (
  s',
  rw aligned (rw e (rw small refl)),
  after.0,
  after.2 ∙ whole-same 1 1 b g h x (view host s1 b) (view host s b) refl (u.outside b b_lt),
)
  where
    aligned : page_align g Pml.pd ≡ g
    aligned = page_align-eq g Pml.pd (omega (arith, w.1)) ∙ omega (arith, w.2)

    s1 : Tables
    s1 = unmap_entry 1 s f i

    s' : Tables
    s' = (map host s1 g h x Pml.pd).0

    p : Place host s σ g 1 t 1 (f, i)
    p = ept_entry-Place host s σ g 1 t (f, i) (omega arith) w.1 o e

    u : IsUnmapped host s 1 g s1
    u = pde-IsUnmapped host s σ f i g t p.0 p.1

    after :
        HasTree host s'
        × (s'.next + 1 ≤ s1.next + 3)
        × (view host s' b ≡ whole 1 b g h x (view host s1 b))
    after =
        map_lem host s1 g h x b Pml.pd u.has_tree w.1 b_lt (omega arith) (w.3, w.4, x_pos, x_lt)
          (none-is_splittable host s1 g 1 u.has_tree (u.inside g refl))
          (omega (arith, room, u.next_kept))
