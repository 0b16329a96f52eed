-- ===== src/Hook/Tests.antt =====
-- The theorems on hooks at the page of 4 KB at address 4 MB, with the page of data at 8 KB.
use hvpp.Prelude.{List, [], ◌∷◌, ◌≡◌, refl, true, false, some, arith}
use hvpp.Ept.Sample.{
  host, large, small, large-HasTree, small-HasTree, large-is_splittable, large-entry, large-large,
  large-room, small-room, small-is_splittable, small-entry, small-small, small-again,
}
use hvpp.Ept.Translate.{HasTree, view}
use hvpp.Hook.{Data, Violation, hook, unhook, handle_ept_violation}
use hvpp.Hook.Runs.{handle_all, handle_all_lem}
use hvpp.Hook.Steps.{IsHooked, handle_ept_violation_lem, hook_lem, unhook_lem}

abbrev before : Data
before = record { ept = large; page_read = 0; page_exec = 0; suppress_rip_adjust = false }

hook_lem_example :
    (d' : Data) × (hook host before 8192 4194304 ≡ some d')
    × IsHooked host 5 d'
    × (view host d'.ept 4194309 ≡ some (4194309, 4))
hook_lem_example =
    hook_lem host before 8192 4194304 3 2 5 4194309 large-HasTree (omega arith, refl)
      (omega arith, refl) (omega arith) large-is_splittable large-entry large-large
      (omega (arith, large-room))

abbrev hooked : Data
hooked = record { ept = small; page_read = 8192; page_exec = 4194304; suppress_rip_adjust = false }

abbrev write_violation : Violation
write_violation = record { data_read = false; data_write = true; data_execute = false }

hooked-IsHooked : IsHooked host 1 hooked
hooked-IsHooked = record {
  has_tree = small-HasTree;
  splittable = small-again;
  room = omega (arith, small-room);
  exec_page = (omega arith, refl);
  read_page = (omega arith, refl);
}

handle_ept_violation_lem_example :
    IsHooked host 0 (handle_ept_violation host hooked write_violation)
    × ((handle_ept_violation host hooked write_violation).suppress_rip_adjust ≡ true)
    × (view host (handle_ept_violation host hooked write_violation).ept 4194309 ≡ some (8197, 3))
handle_ept_violation_lem_example =
    handle_ept_violation_lem host hooked write_violation 0 4194309 hooked-IsHooked (omega arith)

unhook_lem_example :
    (d' : Data) × (unhook host hooked ≡ some d')
    × HasTree host d'.ept
    × (view host d'.ept 4198400 ≡ some (4198400, 7))
unhook_lem_example =
    unhook_lem host hooked 3 2 4198400 small-HasTree (omega arith) (omega arith) small-is_splittable
      small-entry small-small (omega (arith, small-room))

-- The guest writes and then executes.
abbrev execute_violation : Violation
execute_violation = record { data_read = false; data_write = false; data_execute = true }

abbrev twice : List Violation
twice = write_violation ∷ execute_violation ∷ []

twice-IsHooked : IsHooked host 2 hooked
twice-IsHooked = record {
  has_tree = small-HasTree;
  splittable = small-again;
  room = omega (arith, small-room);
  exec_page = (omega arith, refl);
  read_page = (omega arith, refl);
}

handle_all_lem_example :
    IsHooked host 0 (handle_all host hooked twice)
    × (view host (handle_all host hooked twice).ept 4194309 ≡ some (4194309, 4))
handle_all_lem_example = handle_all_lem host hooked twice 0 4194309 twice-IsHooked (omega arith)
