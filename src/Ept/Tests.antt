-- ===== src/Ept/Tests.antt =====
-- The theorems on tables at the sample.
use hvpp.Prelude.{◌+◌, ◌≤◌, ◌≡◌, refl, some, arith}
use hvpp.Paging.{Pml}
use hvpp.Ept.{Tables, map_identity}
use hvpp.Ept.Rebuild.{split}
use hvpp.Ept.Translate.{HasTree, view, map_lem, construct_lem}
use hvpp.Ept.Identity.{map_identity_lem, none-is_splittable}
use hvpp.Ept.Split.{split_lem}
use hvpp.Ept.Sample.{
  host, memory, start, host-IsHost, start-HasTree, large, start-room, page-IsWhole, large-HasTree,
  large-is_splittable, large-entry, large-large, large-room,
}

map_identity_lem_example :
    HasTree host (map_identity host start 7)
    × (view host (map_identity host start 7) 2097152 ≡ some (2097152, 7))
map_identity_lem_example =
    map_identity_lem host memory 7 2097152 host-IsHost (omega arith) (omega arith) (omega arith)
      (omega arith)

map_lem_example :
    HasTree host large
    × (large.next + 1 ≤ start.next + 3)
    × (view host large 4194309 ≡ some (6291461, 7))
map_lem_example =
    map_lem host start 4194304 6291456 7 4194309 Pml.pd start-HasTree (omega arith) (omega arith)
      (omega arith) (omega arith, refl, omega arith, omega arith)
      (none-is_splittable host start 4194304 1 start-HasTree
        (construct_lem host memory 4194304 host-IsHost).1)
      (omega (arith, start-room))

split_lem_example :
    (s' : Tables) × (split host large 4194304 6291456 7 Pml.pd Pml.pt ≡ some s')
    × HasTree host s'
    × (view host s' 4198400 ≡ some (6295552, 7))
split_lem_example =
    split_lem host large 4194304 6291456 7 3 2 4198400 Pml.pd Pml.pt refl page-IsWhole (omega arith)
      (omega arith) (omega arith) large-HasTree large-is_splittable large-entry large-large
      (omega (arith, large-room))
