-- ===== src/Hook/Steps.antt =====
-- The handlers of src/hvppdrv/vmexit_custom.cpp against the guest's view of memory.
use hvpp.Prelude.{
  ℕ, suc, ◌+◌, ◌*◌, ◌/◌, ◌%◌, ◌^◌, ◌<◌, ◌≤◌, ◌≡◌, refl, Bool, true, false, ◌||◌, ◌==◌, Option, some,
  if◌then◌else◌, ◌∙◌, arith, ap,
}
use hvpp.Paging.{Pml}
use hvpp.Paging.Align.{bit_and_high}
use hvpp.Ept.Rebuild.{join}
use hvpp.Ept.{Tables, Host, map, ept_entry}
use hvpp.Ept.Translate.{HasTree, view, is_splittable, IsTarget, map_lem, is_splittable-map}
use hvpp.Ept.Shape.{Bool-All}
use hvpp.Ept.Split.{IsWhole, SplitResult, split-splittable, join_lem}
use hvpp.Hook.{
  Data, Violation, execute, read_write, large_page_of, hook, unhook, handle_ept_violation,
}

-- The tables are a tree in which the hooked page of 4 KB can be mapped, `n` times, and both pages are
-- pages.
pub record IsHooked (host : Host) (n : ℕ) (d : Data) : Type 0 where
  pub has_tree : HasTree host d.ept
  pub splittable : is_splittable host d.ept d.page_exec 0 ≡ true
  pub room : d.ept.next + 3 * n ≤ host.pages
  pub exec_page : (d.page_exec < 2 ^ 48) × (d.page_exec % 2 ^ 12 ≡ 0)
  pub read_page : (d.page_read < 2 ^ 48) × (d.page_read % 2 ^ 12 ≡ 0)

-- The view of an address of the hooked page, after a violation on the view `old`.
abbrev pub after_violation : Data → Violation → ℕ → Option (ℕ × ℕ) → Option (ℕ × ℕ)
after_violation d v b old =
    if v.data_read || v.data_write
    then some (d.page_read + b % 2 ^ 12, read_write)
    else (if v.data_execute then some (d.page_exec + b % 2 ^ 12, execute) else old)

module _ (host : Host) (d : Data) (n b : ℕ) (h : IsHooked host (suc n) d) (b_lt : b < 2 ^ 48) where
  -- The data with other tables, and the view that they must give.
  abbrev with_tables : Tables → Data
  with_tables s = record d { suppress_rip_adjust = true; ept = s }

  abbrev Shows : Tables → Option (ℕ × ℕ) → Type 0
  Shows s inside =
      IsHooked host n (with_tables s)
      × (◌≡◌ {A = Bool} true true)
      × (view host s b ≡ (if b / 2 ^ 12 == d.page_exec / 2 ^ 12 then inside else view host d.ept b))

  map-Shows :
      (a x : ℕ)
      → IsTarget a x 0
      → Shows (map host d.ept d.page_exec a x Pml.pt).0 (some (a + b % 2 ^ 12, x))
  map-Shows a x target = (
    record {
      has_tree = mapped.0;
      splittable =
          is_splittable-map host d.ept d.page_exec a x Pml.pt h.has_tree h.exec_page.0 (omega arith)
            target h.splittable (omega (arith, h.room));
      room = omega (arith, h.room, mapped.1);
      exec_page = h.exec_page;
      read_page = h.read_page;
    },
    refl,
    mapped.2,
  )
    where
      mapped :
          HasTree host (map host d.ept d.page_exec a x Pml.pt).0
          × ((map host d.ept d.page_exec a x Pml.pt).0.next + 0 ≤ d.ept.next + 3)
          × (view host (map host d.ept d.page_exec a x Pml.pt).0 b ≡ (
              if b / 2 ^ 12 == d.page_exec / 2 ^ 12
              then some (a + b % 2 ^ 12, x)
              else view host d.ept b))
      mapped =
          map_lem host d.ept d.page_exec a x b Pml.pt h.has_tree h.exec_page.0 b_lt (omega arith)
            target h.splittable (omega (arith, h.room))

  same-Shows : Shows d.ept (view host d.ept b)
  same-Shows = (
    record {
      has_tree = h.has_tree;
      splittable = h.splittable;
      room = omega (arith, h.room);
      exec_page = h.exec_page;
      read_page = h.read_page;
    },
    refl,
    Bool-All (λ c. view host d.ept b ≡ (if c then view host d.ept b else view host d.ept b))
        (b / 2 ^ 12 == d.page_exec / 2 ^ 12) (λ c. refl) (λ c. refl),
  )

-- In data that are ready for `n` + 1 violations, after an EPT violation the guest sees the page of
-- data where it read or wrote, with the rights to read and write only, or else the page of code
-- where it executed, with the right to execute only; it sees every other page below 2 ^ 48 as
-- before. The data are ready for `n` more violations, and the instruction that failed is run
-- again.
pub handle_ept_violation_lem :
    (host : Host) (d : Data) (v : Violation) (n b : ℕ)
    → IsHooked host (suc n) d
    → b < 2 ^ 48
    → IsHooked host n (handle_ept_violation host d v)
      × ((handle_ept_violation host d v).suppress_rip_adjust ≡ true)
      × (view host (handle_ept_violation host d v).ept b ≡ (
          if b / 2 ^ 12 == d.page_exec / 2 ^ 12
          then after_violation d v b (view host d.ept b)
          else view host d.ept b))
unfolding handle_ept_violation
handle_ept_violation_lem host d v n b h b_lt =
    Bool-All
      (λ c.
        Shows host d n b h b_lt (if c then to_read else (if v.data_execute then to_exec else d.ept))
          (if c then some (d.page_read + b % 2 ^ 12, read_write) else on_execute))
      (v.data_read || v.data_write)
      (λ _.
        map-Shows host d n b h b_lt d.page_read 3
          (h.read_page.0, h.read_page.1, omega arith, omega arith))
      (λ _.
        Bool-All
          (λ c.
            Shows host d n b h b_lt (if c then to_exec else d.ept)
              (if c then some (d.page_exec + b % 2 ^ 12, execute) else view host d.ept b))
          v.data_execute
          (λ _.
            map-Shows host d n b h b_lt d.page_exec 4
              (h.exec_page.0, h.exec_page.1, omega arith, omega arith))
          (λ _. same-Shows host d n b h b_lt))
  where
    to_read : Tables
    to_read = (map host d.ept d.page_exec d.page_read read_write Pml.pt).0

    to_exec : Tables
    to_exec = (map host d.ept d.page_exec d.page_exec execute Pml.pt).0

    on_execute : Option (ℕ × ℕ)
    on_execute =
        if v.data_execute then some (d.page_exec + b % 2 ^ 12, execute) else view host d.ept b

whole_view :
    (g a b : ℕ) (old : Option (ℕ × ℕ))
    → g ≡ a / 2 ^ 21 * 2 ^ 21
    → (if b / 2 ^ 21 == g / 2 ^ 21 then some (g + b % 2 ^ 21, 7) else old)
      ≡ (if b / 2 ^ 21 == a / 2 ^ 21 then some (b, 7) else old)
whole_view g a b old q = ground arith

-- Let one large page of 2 MB, which `ept_entry` finds in tables that form a tree and no larger
-- page covers, map the page of code, and let 3 * 513 + 3 * n new pages be left; both pages are
-- aligned and below 2 ^ 48. Then the call to hook gives data that are ready for `n` violations:
-- the guest sees the page of code with the right to execute only, the other pages of the same 2 MB
-- at their own addresses with all rights, and the rest below 2 ^ 48 as before.
pub hook_lem :
    (host : Host) (d : Data) (read_pa exec_pa f i n b : ℕ)
    → HasTree host d.ept
    → (exec_pa < 2 ^ 48) × (exec_pa % 2 ^ 12 ≡ 0)
    → (read_pa < 2 ^ 48) × (read_pa % 2 ^ 12 ≡ 0)
    → b < 2 ^ 48
    → is_splittable host d.ept (large_page_of host exec_pa) 1 ≡ true
    → ept_entry host d.ept (large_page_of host exec_pa) 1 ≡ some (f, i)
    → ((d.ept.words f i).large_page == 1) ≡ true
    → d.ept.next + 3 * 513 + 3 * n ≤ host.pages
    → (d' : Data) × (hook host d read_pa exec_pa ≡ some d')
      × IsHooked host n d'
      × (view host d'.ept b ≡ (
          if b / 2 ^ 12 == exec_pa / 2 ^ 12
          then some (exec_pa + b % 2 ^ 12, execute)
          else (if b / 2 ^ 21 == exec_pa / 2 ^ 21 then some (b, 7) else view host d.ept b)))
unfolding hook
hook_lem host d read_pa exec_pa f i n b t exec_page read_page b_lt o e large room = (
  d',
  rw after_split.1 refl,
  ready,
  mapped.2
      ∙ ap (λ v. if b / 2 ^ 12 == exec_pa / 2 ^ 12 then some (exec_pa + b % 2 ^ 12, execute) else v)
          (after_split.3 ∙ whole_view g exec_pa b (view host d.ept b) g_eq),
)
  where
    g : ℕ
    g = large_page_of host exec_pa

    g_eq : g ≡ exec_pa / 2 ^ 21 * 2 ^ 21
    g_eq = bit_and_high 21 exec_pa (omega arith) (omega (arith, exec_page.0))

    page : IsWhole Pml.pt g g
    page = (
      omega arith,
      omega (arith, g_eq, exec_page.0),
      omega (arith, g_eq),
      omega (arith, g_eq, exec_page.0),
      omega (arith, g_eq),
    )

    after_split : SplitResult host d.ept g g 7 b Pml.pd Pml.pt
    after_split =
        split-splittable host d.ept g g 7 f i b Pml.pd Pml.pt refl page (omega arith) (omega arith)
          b_lt t o e large (omega (arith, room))

    s : Tables
    s = after_split.0

    open_exec : is_splittable host s exec_pa 0 ≡ true
    open_exec = after_split.5 exec_pa (omega (arith, g_eq))

    d' : Data
    d' = record d {
      page_read = read_pa;
      page_exec = exec_pa;
      ept = (map host s exec_pa exec_pa execute Pml.pt).0;
    }

    mapped :
        HasTree host d'.ept
        × (d'.ept.next + 0 ≤ s.next + 3)
        × (view host d'.ept b ≡ (
            if b / 2 ^ 12 == exec_pa / 2 ^ 12
            then some (exec_pa + b % 2 ^ 12, execute)
            else view host s b))
    mapped =
        map_lem host s exec_pa exec_pa execute b Pml.pt after_split.2 exec_page.0 b_lt (omega arith)
          (exec_page.0, exec_page.1, omega arith, omega arith) open_exec
          (omega (arith, room, after_split.4))

    ready : IsHooked host n d'
    ready = record {
      has_tree = mapped.0;
      splittable =
          is_splittable-map host s exec_pa exec_pa execute Pml.pt after_split.2 exec_page.0
            (omega arith) (exec_page.0, exec_page.1, omega arith, omega arith) open_exec
            (omega (arith, room, after_split.4));
      room = omega (arith, room, mapped.1, after_split.4);
      exec_page = exec_page;
      read_page = read_page;
    }

-- Let the page of code lie in 2 MB whose entry `ept_entry` finds, in tables that form a tree, and
-- which is not large and that no larger page covers; let two new pages be left. Then the call to
-- unhook joins them: the guest sees all of them at their own addresses with all rights, and the
-- rest below 2 ^ 48 as before.
pub unhook_lem :
    (host : Host) (d : Data) (f i b : ℕ)
    → HasTree host d.ept
    → d.page_exec < 2 ^ 48
    → b < 2 ^ 48
    → is_splittable host d.ept (large_page_of host d.page_exec) 1 ≡ true
    → ept_entry host d.ept (large_page_of host d.page_exec) 1 ≡ some (f, i)
    → ((d.ept.words f i).large_page == 1) ≡ false
    → d.ept.next + 2 ≤ host.pages
    → (d' : Data) × (unhook host d ≡ some d')
      × HasTree host d'.ept
      × (view host d'.ept b
          ≡ (if b / 2 ^ 21 == d.page_exec / 2 ^ 21 then some (b, 7) else view host d.ept b))
unfolding unhook
unhook_lem host d f i b t exec_lt b_lt o e small room = (
  record d { ept = joined.0 },
  rw joined.1 refl,
  joined.2,
  joined.3 ∙ whole_view g d.page_exec b (view host d.ept b) g_eq,
)
  where
    g : ℕ
    g = large_page_of host d.page_exec

    g_eq : g ≡ d.page_exec / 2 ^ 21 * 2 ^ 21
    g_eq = bit_and_high 21 d.page_exec (omega arith) (omega (arith, exec_lt))

    joined :
        (s' : Tables) × (join host d.ept g g 7 Pml.pd ≡ some s')
        × HasTree host s'
        × (view host s' b
            ≡ (if b / 2 ^ 21 == g / 2 ^ 21 then some (g + b % 2 ^ 21, 7) else view host d.ept b))
    joined =
        join_lem host d.ept g g 7 f i b
          (
            omega arith,
            omega (arith, g_eq, exec_lt),
            omega (arith, g_eq),
            omega (arith, g_eq, exec_lt),
            omega (arith, g_eq),
          )
          (omega arith) (omega arith) b_lt t o e small room
