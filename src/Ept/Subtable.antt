-- ===== src/Ept/Subtable.antt =====
-- `map_subtable` of src/hvpp/hvpp/ept.cpp, on tables that form a tree.
use hvpp.Prelude.{
  ℕ, suc, ◌+◌, ◌*◌, ◌^◌, ◌<◌, ◌≤◌, ◌≡◌, ◌≢◌, ◌⊎◌, refl, inl, inr, true, false, ◌==◌, if◌then◌else◌,
  ◌∙◌, arith, ap, sym,
}
use hvpp.Memory.{from_pfn, pfn}
use hvpp.Ept.{
  Epte, Tables, Host, cleared, present, write, update, update_access, read_write_execute,
  map_subtable,
}
use hvpp.Ept.Shape.{
  Shape, IsPointer, IsTree, extend, wiped, words-write_self, next-write, words-write_ne, words-wipe,
  present-cleared, write-IsTree, wipe-IsTree, Bool-All,
}

-- What `r`, the tables and the frame of a subtable, is for entry `i` of the table `f`.
pub record IsSubtable (host : Host) (s : Tables) (σ : Shape) (k f i : ℕ) (r : Tables × ℕ)
    : Type 0 where
  pub shape : Shape
  pub tree : IsTree host r.0 shape
  pub depth_kept : (g : ℕ) → 0 < σ.depth g → shape.depth g ≡ σ.depth g
  pub prefix_kept : (g : ℕ) → 0 < σ.depth g → shape.prefix g ≡ σ.prefix g
  pub depth_below : shape.depth r.1 ≡ suc k
  pub prefix_below : shape.prefix r.1 ≡ σ.prefix f * 512 + i
  pub here : present (r.0.words f i) ≡ true
  pub small : ((r.0.words f i).large_page == 1) ≡ false
  pub points : (r.0.words f i).page_frame_number ≡ r.1
  pub all_access : (r.0.words f i).access ≡ read_write_execute
  pub grown : r.0.next ≤ suc s.next
  pub same : (g j : ℕ) → 0 < σ.depth g → (f ≢ g) ⊎ (i ≢ j) → r.0.words g j ≡ s.words g j
  pub fresh :
      (r.0 ≡ s) ⊎ ((present (s.words f i) ≡ false) × ((j : ℕ) → present (r.0.words r.1 j) ≡ false))

pub update-pfn :
    (e : Epte) (page : ℕ) → page < 2 ^ 36 → (update e (from_pfn page) 7).page_frame_number ≡ page
unfolding update from_pfn pfn
update-pfn e page h = omega (arith, h)

pub update-present : (e : Epte) (pa : ℕ) → present (update e pa 7) ≡ true
unfolding update update_access present
update-present e pa = refl

pub update-access : (e : Epte) (pa : ℕ) → (update e pa 7).access ≡ 7
unfolding update update_access
update-access e pa = refl

pub update-large : (e : Epte) (pa : ℕ) → (update e pa 7).large_page ≡ e.large_page
unfolding update update_access
update-large e pa = refl

module _ (host : Host) (s : Tables) (σ : Shape) (k f i : ℕ) (t : IsTree host s σ)
    (d : σ.depth f ≡ suc (suc k)) (i_lt : i < 512) (room : s.next < host.pages) where
  abbrev page : ℕ
  page = host.new_page s.next

  abbrev pointer_to : Epte
  pointer_to = update ((wiped s page).words f i) (from_pfn page) read_write_execute

  abbrev made : Tables
  made = write (wiped s page) f i pointer_to

  found-IsSubtable :
      present (s.words f i) ≡ true
      → ((s.words f i).large_page == 1) ≡ false
      → IsSubtable host s σ k f i (s, (s.words f i).page_frame_number)
  found-IsSubtable p l = record {
    shape = σ;
    tree = t;
    depth_kept = λ g h. refl;
    prefix_kept = λ g h. refl;
    depth_below = r.depth_below;
    prefix_below = r.prefix_below;
    here = p;
    small = l;
    points = refl;
    all_access = r.all_access;
    grown = omega arith;
    same = λ g j h n. refl;
    fresh = inl refl;
  }
    where
      r : IsPointer σ k (σ.prefix f * 512 + i) (s.words f i)
      r = t.pointer f i k d i_lt p l

  page-new : (g : ℕ) → 0 < σ.depth g → page ≢ g
  page-new g h = ground (arith, t.spare s.next (omega arith) room, h)

  wiped_ne : (g j : ℕ) → page ≢ g → (wiped s page).words g j ≡ s.words g j
  wiped_ne g j h = ground (arith, words-wipe s page g j)

  wiped_self : (j : ℕ) → (wiped s page).words page j ≡ cleared
  wiped_self j = ground (arith, words-wipe s page page j)

  made-IsSubtable : present (s.words f i) ≡ false → IsSubtable host s σ k f i (made, page)
  made-IsSubtable p = record {
    shape = τ;
    tree =
        write-IsTree host (wiped s page) τ f i pointer_to
          (wipe-IsTree host s σ k (σ.prefix f * 512 + i) t room) (λ q. small_before)
          (λ k' d' p' l. record {
            depth_below = ground (arith, points_to, page-new f, d, d');
            prefix_below = ground (arith, points_to, page-new f, d);
            all_access = update-access ((wiped s page).words f i) (from_pfn page);
          })
          (λ q. small_before);
    depth_kept = λ g h. ground (arith, page-new g h);
    prefix_kept = λ g h. ground (arith, page-new g h);
    depth_below = ground arith;
    prefix_below = ground arith;
    here = ap present word ∙ update-present ((wiped s page).words f i) (from_pfn page);
    small = ap (λ e. e.large_page == 1) word ∙ small_before;
    points = ap (λ e. e.page_frame_number) word ∙ points_to;
    all_access = ap (λ e. e.access) word ∙ update-access ((wiped s page).words f i) (from_pfn page);
    grown = omega (arith, next-write (wiped s page) f i pointer_to);
    same =
        λ g j h n. words-write_ne (wiped s page) f i pointer_to g j n ∙ wiped_ne g j (page-new g h);
    fresh = inr (
      p,
      λ j.
          ap present (
            words-write_ne (wiped s page) f i pointer_to page j
              (inl (λ q. page-new f (omega (arith, d)) (sym q))))
          ∙ ap present (wiped_self j)
          ∙ present-cleared,
    );
  }
    where
      τ : Shape
      τ = extend σ page k (σ.prefix f * 512 + i)

      word : made.words f i ≡ pointer_to
      word = words-write_self (wiped s page) f i pointer_to

      points_to : pointer_to.page_frame_number ≡ page
      points_to = update-pfn ((wiped s page).words f i) page (t.narrow s.next room)

      small_before : (pointer_to.large_page == 1) ≡ false
      small_before =
          ap (λ n. n == 1) (update-large ((wiped s page).words f i) (from_pfn page))
          ∙ ap (λ e. e.large_page == 1) (wiped_ne f i (page-new f (omega (arith, d))))
          ∙ t.blank f i k d i_lt p

  pub map_subtable-IsSubtable :
      (present (s.words f i) ≡ true → ((s.words f i).large_page == 1) ≡ false)
      → IsSubtable host s σ k f i (map_subtable host s f i)
  unfolding map_subtable
  map_subtable-IsSubtable l =
      Bool-All
        (λ b.
          IsSubtable host s σ k f i
            (if b then (s, (s.words f i).page_frame_number) else (made, page)))
        (present (s.words f i)) (λ p. found-IsSubtable p (l p)) made-IsSubtable
