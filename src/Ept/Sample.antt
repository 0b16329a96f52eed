-- ===== src/Ept/Sample.antt =====
-- A small host, whose object stands in frame 1 and whose `operator new[]` returns the frames from 2 on, one
-- after the other, and tables on it.
use hvpp.Prelude.{◌+◌, ◌*◌, ◌^◌, ◌≤◌, ◌≡◌, refl, true, false, ◌==◌, some, [], arith}
use hvpp.Paging.{Pml}
use hvpp.Memory.{from_pfn, pfn}
use hvpp.Ept.{
  Tables, Host, cleared, present, index, map, map_subtable, ept_entry, below_entry, from_pde,
  from_pdpte, map_table, write, wipe, update, update_access, update_type, update_large,
}
use hvpp.Ept.Rebuild.{construct}
use hvpp.Ept.Walk.{is_open}
use hvpp.Ept.Translate.{HasTree, is_splittable, IsHost, map_lem, construct_lem}
use hvpp.Ept.Identity.{none-is_splittable}
use hvpp.Ept.Split.{IsWhole}

abbrev pub host : Host
host = record {
  root = 1;
  new_page = λ n. n + 2;
  pages = 2 ^ 20;
  below = true;
  mtrr = record { fixed = []; variable = []; default_memory_type = 6 };
}

-- Memory in which every entry is marked large and absent.
abbrev pub memory : Tables
memory = record { words = λ f i. record cleared { large_page = 1 }; next = 0; deleted = [] }

abbrev pub start : Tables
start = (construct host memory).0

pub host-IsHost : IsHost host
unfolding IsHost
host-IsHost =
    (λ m n lt r e. omega (arith, lt, e), λ n r. omega (arith, r), λ n r e. omega (arith, e))

pub present-memory : present (memory.words 9 2) ≡ false
unfolding present
present-memory = refl

pub start-HasTree : HasTree host start
start-HasTree = (construct_lem host memory 0 host-IsHost).0

-- A page of 2 MB at the guest's 4 MB.
abbrev pub large : Tables
large = (map host start 4194304 6291456 7 Pml.pd).0

pub start-room : start.next + 3 ≤ host.pages
unfolding construct wipe
start-room = omega arith

pub page-IsWhole : IsWhole Pml.pt 4194304 6291456
page-IsWhole = (omega arith, omega arith, refl, omega arith, refl)

pub large-HasTree : HasTree host large
large-HasTree =
    (map_lem host start 4194304 6291456 7 0 Pml.pd start-HasTree (omega arith) (omega arith)
      (omega arith) (omega arith, refl, omega arith, omega arith)
      (none-is_splittable host start 4194304 1 start-HasTree
        (construct_lem host memory 4194304 host-IsHost).1)
      (omega (arith, start-room))).0

pub large-is_splittable : is_splittable host large 4194304 1 ≡ true
unfolding is_splittable is_open map map_table map_subtable construct write wipe index present update
    update_access update_type update_large from_pfn pfn
large-is_splittable = refl

pub large-entry : ept_entry host large 4194304 1 ≡ some (3, 2)
unfolding ept_entry from_pdpte from_pde below_entry map map_table map_subtable construct write wipe
    index present update update_access update_type update_large from_pfn pfn
large-entry = refl

pub large-large : ((large.words 3 2).large_page == 1) ≡ true
unfolding map map_table map_subtable construct write wipe index present update update_access
    update_type update_large
large-large = refl

pub large-room : large.next + 3 * 600 ≤ host.pages
unfolding map map_table map_subtable construct write wipe index present update update_access
    update_type update_large
large-room = omega arith

-- A page of 4 KB there.
abbrev pub small : Tables
small = (map host start 4194304 8192 7 Pml.pt).0

pub small-HasTree : HasTree host small
small-HasTree =
    (map_lem host start 4194304 8192 7 0 Pml.pt start-HasTree (omega arith) (omega arith)
      (omega arith) (omega arith, refl, omega arith, omega arith)
      (none-is_splittable host start 4194304 0 start-HasTree
        (construct_lem host memory 4194304 host-IsHost).1)
      start-room).0

pub small-is_splittable : is_splittable host small 4194304 1 ≡ true
unfolding is_splittable is_open map map_table map_subtable construct write wipe index present update
    update_access update_type update_large from_pfn pfn
small-is_splittable = refl

pub small-entry : ept_entry host small 4194304 1 ≡ some (3, 2)
unfolding ept_entry from_pdpte from_pde below_entry map map_table map_subtable construct write wipe
    index present update update_access update_type update_large from_pfn pfn
small-entry = refl

pub small-small : ((small.words 3 2).large_page == 1) ≡ false
unfolding map map_table map_subtable construct write wipe index present update update_access
    update_type update_large
small-small = refl

pub small-room : small.next + 6 ≤ host.pages
unfolding map map_table map_subtable construct write wipe index present update update_access
    update_type update_large
small-room = omega arith

pub small-again : is_splittable host small 4194304 0 ≡ true
unfolding is_splittable is_open map map_table map_subtable construct write wipe index present update
    update_access update_type update_large from_pfn pfn
small-again = refl
