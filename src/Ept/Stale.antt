-- ===== src/Ept/Stale.antt =====
-- `map_subtable` of src/hvpp/hvpp/ept.cpp over an entry that was mapped without any rights: `update` keeps
-- the mark of a large page.
use hvpp.Prelude.{ℕ, ◌+◌, ◌%◌, ◌^◌, ◌<◌, ◌≡◌, ◌≢◌, refl, true, false, ◌==◌, some, ◌∙◌, arith, ap}
use hvpp.Memory.{from_pfn}
use hvpp.Ept.{
  Epte, Tables, Host, index, present, write, update, update_access, read_write_execute,
  map_subtable,
}
use hvpp.Ept.Shape.{wiped, words-wipe, words-write_self}
use hvpp.Ept.Subtable.{update-pfn, update-present, update-large}
use hvpp.Ept.Walk.{translate, translate-leaf}

-- Let an entry of a PD be absent but marked as a large page, and let the next new page lie below 2
-- ^ 48 and not be the PD. Then `map_subtable` takes that page and leaves the mark: the processor
-- takes the new table for a page of 2 MB, and gives the guest all rights to the memory from there
-- on.
map_subtable-stale :
    (host : Host) (s : Tables) (f b : ℕ)
    → host.new_page s.next < 2 ^ 36
    → host.new_page s.next ≢ f
    → present (s.words f (index b 1)) ≡ false
    → ((s.words f (index b 1)).large_page == 1) ≡ true
    → ((map_subtable host s f (index b 1)).1 ≡ host.new_page s.next)
      × (translate 1 (map_subtable host s f (index b 1)).0 f b 7
          ≡ some (from_pfn (host.new_page s.next) + b % 2 ^ 21, 7))
unfolding map_subtable update update_access
map_subtable-stale host s f b narrow new absent stale = rw absent (
  refl,
  translate-leaf made 1 f b 7 entry (words-write_self (wiped s page) f i entry)
        (update-present before (from_pfn page)) (λ j q. (large, omega arith))
      ∙ ap (λ n. some (from_pfn n + b % 2 ^ 21, 7)) (update-pfn before page narrow),
)
  where
    page : ℕ
    page = host.new_page s.next

    i : ℕ
    i = index b 1

    before : Epte
    before = (wiped s page).words f i

    entry : Epte
    entry = update before (from_pfn page) read_write_execute

    made : Tables
    made = write (wiped s page) f i entry

    kept : before ≡ s.words f i
    kept = ground (arith, words-wipe s page f i, new)

    large : (entry.large_page == 1) ≡ true
    large =
        ap (λ n. n == 1) (update-large before (from_pfn page))
        ∙ ap (λ e. e.large_page == 1) kept
        ∙ stale
