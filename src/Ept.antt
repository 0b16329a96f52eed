-- ===== src/Ept.antt =====
-- `ept_t` of src/hvpp/hvpp/ept.h and ept.cpp, with the entries of src/hvpp/hvpp/ia32/ept.h: the tables
-- that translate a guest's physical addresses.
-- Physical memory is frames of 512 entries, whatever they are used for, so an entry that points to a
-- guest's page is followed like one that points to a table. `hvpp_assert` does nothing.
pub mod Rebuild
pub mod Shape
pub mod Subtable
pub mod Map
pub mod Level
pub mod Translate
pub mod Identity
pub mod Entry
pub mod Unmap
pub mod Split
pub mod Sparse
pub mod Stale
pub mod Sample
mod Tests
pub mod Walk
use hvpp.Prelude.{
  ℕ, zero, suc, ◌+◌, ◌-◌, ◌*◌, ◌/◌, ◌%◌, ◌^◌, Bool, true, false, ◌&&◌, ◌||◌, not, Option, none,
  some, List, [], ◌∷◌, ltb, ◌==◌, if◌then◌else◌, to_bit, add64,
}
use hvpp.Paging
use hvpp.Paging.{Pml}
use hvpp.Memory.{from_pfn, pfn}
use hvpp.Mtrr.{Descriptor, memory_type_of}

-- `epte_t` by its common fields; `access` holds the bits of reading, writing and executing.
pub record Epte : Type 0 where
  pub access : ℕ
  pub memory_type : ℕ
  pub ignore_pat : ℕ
  pub large_page : ℕ
  pub accessed : ℕ
  pub dirty : ℕ
  pub user_mode_execute : ℕ
  pub reserved_1 : ℕ
  pub page_frame_number : ℕ
  pub reserved_2 : ℕ
  pub suppress_ve : ℕ

-- `clear`, and what `memset` with 0 leaves
abbrev pub cleared : Epte
cleared = record {
  access = 0;
  memory_type = 0;
  ignore_pat = 0;
  large_page = 0;
  accessed = 0;
  dirty = 0;
  user_mode_execute = 0;
  reserved_1 = 0;
  page_frame_number = 0;
  reserved_2 = 0;
  suppress_ve = 0;
}

-- `access_type::read_write_execute`
abbrev pub read_write_execute : ℕ
read_write_execute = 7

pub present : Epte → Bool
present e = e.access % 2 == 1 || e.access / 2 % 2 == 1 || e.access / 4 % 2 == 1

-- The `update` overloads: each field takes the low bits of the value.
pub update_access : Epte → ℕ → Epte
update_access e access = record e { access = access % 2 ^ 3 }

pub update : Epte → ℕ → ℕ → Epte
update e pa access = record (update_access e access) { page_frame_number = pfn pa % 2 ^ 36 }

pub update_type : Epte → ℕ → ℕ → ℕ → Epte
update_type e pa type access = record (update e pa access) { memory_type = type % 2 ^ 3 }

pub update_large : Epte → ℕ → ℕ → Bool → ℕ → Epte
update_large e pa type large access = record (update_type e pa type access) {
  large_page = to_bit large;
}

-- Entry `i` of the table in frame `f` is `words f i`. `next` counts the pages taken with
-- `operator new[]`, and `deleted` holds the frames given to `delete[]`, the last one first.
pub record Tables : Type 0 where
  pub words : ℕ → ℕ → Epte
  pub next : ℕ
  pub deleted : List ℕ

-- `pa_t::offset`, by the level's number
pub index : ℕ → ℕ → ℕ
index pa level = pa / 2 ^ (12 + level * 9) % 2 ^ 9

pub write : Tables → ℕ → ℕ → Epte → Tables
write s f i e = record s { words = λ f' i'. if f == f' && i == i' then e else s.words f' i' }

-- `memset` of a whole frame
pub wipe : Tables → ℕ → Tables
wipe s f = record s { words = λ f' i'. if f == f' then cleared else s.words f' i' }

-- `delete[]`
pub delete : Tables → ℕ → Tables
delete s f = record s { deleted = f ∷ s.deleted }

-- What the object takes from outside: the frame of `epml4_`, the frames that `operator new[]` returns
-- one after the other, the number of them, and what the memory types of addresses depend on (Mtrr.antt).
pub record Host : Type 0 where
  pub root : ℕ
  pub new_page : ℕ → ℕ
  pub pages : ℕ
  pub below : Bool
  pub mtrr : Descriptor

module _ (host : Host) where
  open host use {root, new_page}

  abbrev type_of : ℕ → ℕ
  type_of pa = memory_type_of host.below host.mtrr pa

  -- The frame of the table below entry `i` of frame `f`.
  pub map_subtable : Tables → ℕ → ℕ → Tables × ℕ
  map_subtable s f i =
      let e = s.words f i in
      let page = new_page s.next in
      if present e then (s, e.page_frame_number) else (
        write (record (wipe s page) { next = suc s.next }) f i
            (update ((wipe s page).words f i) (from_pfn page) read_write_execute),
        page,
      )

  -- `map_pml4`, `map_pdpt`, `map_pd` and `map_pt` by the number of their level, from 3 to 0, on the
  -- table in frame `f`. The result names the entry that is returned.
  pub map_table : ℕ → Tables → ℕ → ℕ → ℕ → ℕ → ℕ → Tables × ℕ × ℕ
  map_table zero s f guest_pa host_pa access level =
      let i = index guest_pa 0 in
      (write s f i (update_type (s.words f i) host_pa (type_of guest_pa) access), f, i)
  map_table (suc k) s f guest_pa host_pa access level =
      let i = index guest_pa (suc k) in
      let sub = map_subtable s f i in
      let rest = map_table k sub.0 sub.1 guest_pa host_pa access level in
      if ltb (suc k) 3 && suc k == level
      then (write s f i (update_large (s.words f i) host_pa (type_of guest_pa) true access), f, i)
      else rest

  pub map : Tables → ℕ → ℕ → ℕ → Pml → Tables × ℕ × ℕ
  map s guest_pa host_pa access level =
      map_table 3 s root guest_pa host_pa access (Paging.level level)

  -- The loop of `map_identity` from `pa` on, `n` rounds of it.
  pub map_identity_loop : ℕ → Tables → ℕ → ℕ → Tables
  map_identity_loop zero s pa access = s
  map_identity_loop (suc n) s pa access =
      map_identity_loop n (map s pa pa access Pml.pd).0 (add64 pa (2 ^ 21)) access

  -- 512 GB are 2 ^ 18 pages of 2 MB.
  pub map_identity : Tables → ℕ → Tables
  map_identity s access = map_identity_loop (2 ^ 18) s 0 access

  -- The entry below entry `i` of frame `f`, if that is present.
  pub below_entry : Tables → ℕ × ℕ → ℕ → ℕ → Option (ℕ × ℕ)
  below_entry s (f, i) pa level =
      if present (s.words f i) then some ((s.words f i).page_frame_number, index pa level) else none

  abbrev is_large : Tables → ℕ × ℕ → Bool
  is_large s (f, i) = (s.words f i).large_page == 1

  -- The last two steps of `ept_entry`, from a PDPT entry and from a PD entry on.
  pub from_pde : Tables → ℕ → ℕ → Option (ℕ × ℕ) → Option (ℕ × ℕ)
  from_pde s pa level none = none
  from_pde s pa level (some pde) =
      if is_large s pde || level == 1 then some pde else below_entry s pde pa 0

  pub from_pdpte : Tables → ℕ → ℕ → Option (ℕ × ℕ) → Option (ℕ × ℕ)
  from_pdpte s pa level none = none
  from_pdpte s pa level (some pdpte) =
      if is_large s pdpte || level == 2
      then some pdpte
      else from_pde s pa level (below_entry s pdpte pa 1)

  -- The frame and the position of the entry, or a null pointer.
  pub ept_entry : Tables → ℕ → ℕ → Option (ℕ × ℕ)
  ept_entry s pa level = from_pdpte s pa level (below_entry s (root, index pa 3) pa 2)
