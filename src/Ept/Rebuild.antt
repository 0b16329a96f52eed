-- ===== src/Ept/Rebuild.antt =====
-- The operations of `ept_t` (src/hvpp/hvpp/ept.cpp) that are made from `map` and `ept_entry`: the
-- constructor, the sparse identity, the removal of entries, and the splitting and joining of pages.
-- A null entry, which the source would dereference, is no result.
use hvpp.Prelude.{
  ℕ, zero, suc, ◌*◌, ◌%◌, ◌^◌, true, false, Option, none, some, List, [], ◌∷◌, ltb, ◌==◌,
  if◌then◌else◌, add64,
}
use hvpp.Paging.{Pml, level, size, page_align, page_align_up}
use hvpp.Memory.{PhysicalMemoryRange, from_pfn}
use hvpp.Ept.{Epte, Tables, Host, cleared, present, write, wipe, delete, type_of, ept_entry}
use hvpp.Ept

-- `ept_ptr_t`
pub record EptPtr : Type 0 where
  pub memory_type : ℕ
  pub page_walk_length : ℕ
  pub enable_access_and_dirty_flags : ℕ
  pub reserved_1 : ℕ
  pub page_frame_number : ℕ

abbrev pub page_walk_length_4 : ℕ
page_walk_length_4 = 3

infixl 1 ◌>>=◌
abbrev pub ◌>>=◌ {ℓ κ} : {A : Type ℓ} {B : Type κ} → Option A → (A → Option B) → Option B
none >>= f = none
some a >>= f = f a

-- The `subtable` of an entry that is present, if it has one.
unfoldable pub subtable : Epte → Option ℕ
subtable e = if e.large_page == 1 then none else some e.page_frame_number

-- `for (i = 0; i < n; ++i)`
unfoldable pub each : ℕ → (Tables → ℕ → Tables) → Tables → Tables
each zero step s = s
each (suc n) step s = step (each n step s) n

abbrev pub on_subtable : (Tables → ℕ → Tables) → Tables → Option ℕ → Tables
on_subtable unmap s none = s
on_subtable unmap s (some f) = unmap s f

-- `unmap_entry`, by what it does to a subtable
unfoldable pub unmap_with : (Tables → ℕ → Tables) → Tables → ℕ → ℕ → Tables
unmap_with unmap s f i =
    if present (s.words f i)
    then write (on_subtable unmap s (subtable (s.words f i))) f i cleared
    else s

-- The switch of `unmap_entry` on the level's number, where `unmap_table` is written out.
unfoldable pub unmap_subtable : ℕ → Tables → ℕ → Tables
unmap_subtable zero s f = s
unmap_subtable (suc zero) s f = delete s f
unmap_subtable (suc (suc k)) s f =
    delete (each 512 (λ s' i. unmap_with (unmap_subtable (suc k)) s' f i) s) f

abbrev pub unmap_entry : ℕ → Tables → ℕ → ℕ → Tables
unmap_entry k = unmap_with (unmap_subtable k)

abbrev pub unmap_table : ℕ → Tables → ℕ → Tables
unmap_table k s f = each 512 (λ s' i. unmap_entry k s' f i) s

module _ (host : Host) where
  open host use {root}

  -- `ept_t()`, on the memory as it was before the object
  unfoldable pub construct : Tables → Tables × EptPtr
  construct s = (
    wipe s root,
    record {
      memory_type = type_of host (from_pfn root) % 2 ^ 3;
      page_walk_length = page_walk_length_4;
      enable_access_and_dirty_flags = 0;
      reserved_1 = 0;
      page_frame_number = root % 2 ^ 36;
    },
  )

  -- `~ept_t()`
  abbrev pub destruct : Tables → Tables
  destruct s = unmap_table 3 s root

  -- The inner loop of `map_identity_sparse`, on fuel: `none` says that it ran out.
  unfoldable pub range_loop : ℕ → Tables → ℕ → ℕ → ℕ → Option Tables
  range_loop zero s pa to access = none
  range_loop (suc n) s pa to access = elim (ltb pa to) [
    | true ↦ range_loop n (Ept.map host s pa pa access Pml.pd).0 (add64 pa (size Pml.pd)) to access
    | false ↦ some s
  ]

  -- No range has more pages than there are addresses.
  abbrev pub map_range : Tables → PhysicalMemoryRange → ℕ → Option Tables
  map_range s range access =
      range_loop (2 ^ 64) s (page_align range.begin Pml.pd) (page_align_up range.end Pml.pd) access

  -- `map_identity_sparse`, on the ranges of `mm::physical_memory_descriptor()`
  unfoldable pub map_identity_sparse : Tables → List PhysicalMemoryRange → ℕ → Option Tables
  map_identity_sparse s [] access = some s
  map_identity_sparse s (range ∷ ranges) access = do
    s' ← map_range s range access
    map_identity_sparse s' ranges access

  -- The loop of `split`: 512 pages of the level `to`.
  abbrev pub map_pages : Tables → ℕ → ℕ → ℕ → Pml → Tables
  map_pages s guest_pa host_pa access to =
      each 512
        (λ s' i.
          (Ept.map host s' (add64 guest_pa (i * size to)) (add64 host_pa (i * size to)) access
            to).0)
        s

  unfoldable pub split : Tables → ℕ → ℕ → ℕ → Pml → Pml → Option Tables
  split s guest_pa host_pa access from to = do
    (f, i) ← ept_entry host s guest_pa (level from)
    some (
        if (s.words f i).large_page == 1
        then map_pages (unmap_entry (level from) s f i) guest_pa host_pa access to
        else s)

  unfoldable pub join : Tables → ℕ → ℕ → ℕ → Pml → Option Tables
  join s guest_pa host_pa access to = do
    (f, i) ← ept_entry host s (page_align guest_pa to) (level to)
    some (
        if (s.words f i).large_page == 1
        then s
        else (Ept.map host (unmap_entry (level to) s f i) (page_align guest_pa to) host_pa access
            to).0)
