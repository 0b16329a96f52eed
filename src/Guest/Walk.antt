-- ===== src/Guest/Walk.antt =====
-- The processor's walk of the page tables that a CR3 points to, read from physical memory as the
-- manual describes it, and `va_to_pa`, which reads them through the mapper.
use hvpp.Prelude.{
  ℕ, zero, suc, ◌+◌, ◌*◌, ◌/◌, ◌%◌, ◌^◌, ◌≤◌, ◌<◌, ◌≡◌, refl, ap, ◌∙◌, Bool, true, false, Option,
  none, some, ltb, ◌==◌, ◌&&◌, if◌then◌else◌, arith, add64, u8,
}
use hvpp.Paging.{Pml, byte_offset}
use hvpp.Paging.Align.{byte_offset-eq, page}
use hvpp.Memory.{from_pfn, index, offset}
use hvpp.Memory.Address.{offset-eq}
use hvpp.Ept.Shape.{span}
use hvpp.Guest.{
  Guest, memcpy, no_pte, word, present, large_page, page_frame_number, read_entry, from_pt, from_pd,
  from_pdpt, va_to_pa,
}
use hvpp.Guest.Mapper.{mapper_read_write_lem}

-- The entry for `va` in the table of frame `f` and of level `k`.
abbrev pub entry : ℕ → (ℕ → ℕ) → ℕ → ℕ → ℕ
entry k m f va = word m (f * 4096 + va / span k % 512 * 8)

-- The walk from the table of frame `f`, of level `k`: a large page has its address in the bits above
-- the offset in it, below bit 48.
unfoldable pub translate : ℕ → (ℕ → ℕ) → ℕ → ℕ → Option ℕ
translate zero m f va =
    let e = entry 0 m f va in
    if e % 2 == 1 then some (e % 2 ^ 48 / 4096 * 4096 + va % 4096) else none
translate (suc k) m f va =
    let e = entry (suc k) m f va in
    let rest = translate k m (page_frame_number e) va in
    if e % 2 == 1
    then (if ltb (suc k) 3 && large_page e
        then some (e % 2 ^ 48 / span (suc k) * span (suc k) + va % span (suc k))
        else rest)
    else none

-- A large page on the walk has zeros in the bits below its address, from bit 12 on: bit 12 selects the
-- memory type of a large page, and the others are reserved.
unfoldable pub is_plain : ℕ → (ℕ → ℕ) → ℕ → ℕ → Bool
is_plain zero m f va = true
is_plain (suc k) m f va =
    let e = entry (suc k) m f va in
    let rest = is_plain k m (page_frame_number e) va in
    if ltb (suc k) 3 && large_page e then page_frame_number e * 4096 % span (suc k) == 0 else rest

unfoldable pub or_zero : Option ℕ → ℕ
or_zero none = 0
or_zero (some a) = a

word-memcpy : (m : ℕ → ℕ) (a : ℕ) → word (memcpy (λ _. 0) 0 m a 8) 0 ≡ word m a
unfolding word
word-memcpy m a =
    ap
      (λ b.
        u8 (m b)
        + 2 ^ 8 * u8 (m (a + 1))
        + 2 ^ 16 * u8 (m (a + 2))
        + 2 ^ 24 * u8 (m (a + 3))
        + 2 ^ 32 * u8 (m (a + 4))
        + 2 ^ 40 * u8 (m (a + 5))
        + 2 ^ 48 * u8 (m (a + 6))
        + 2 ^ 56 * u8 (m (a + 7)))
      {x = a + 0} {y = a} (omega arith)

entry_address :
    (f va : ℕ) (d : Pml) (k : ℕ)
    → f < 2 ^ 36
    → index va d ≡ va / span k
    → (add64 (from_pfn f) (offset va d * 8) ≡ f * 4096 + va / span k % 512 * 8)
      × (f * 4096 + va / span k % 512 * 8 + 8 ≤ 2 ^ 48)
unfolding from_pfn
entry_address f va d k h e = (omega (arith, offset-eq va d), omega arith)

leaf_address :
    (e va : ℕ) (d : Pml)
    → page_frame_number e * 4096 % page d ≡ 0
    → add64 (from_pfn (page_frame_number e)) (byte_offset va d)
      ≡ e % 2 ^ 48 / page d * page d + va % page d
unfolding from_pfn
leaf_address e va Pml.pt plain = omega (arith, byte_offset-eq va Pml.pt)
leaf_address e va d plain = omega (arith, byte_offset-eq va d)

-- An entry that is absent, large or points to the next table.
large_step :
    (p l : Bool) (s : Guest) (x y : ℕ) (rest : Option (Guest × ℕ)) (r : Option ℕ)
    → (l ≡ true → x ≡ y)
    → (l ≡ false → rest ≡ some (s, or_zero r))
    → ◌≡◌ {A = Option (Guest × ℕ)}
        (elim p [ false ↦ some (s, 0) | true ↦ elim l [ true ↦ some (s, x) | false ↦ rest ] ])
        (some (s, or_zero (if p then (if l then some y else r) else none)))
unfolding or_zero
large_step false l s x y rest r h k = refl
large_step true true s x y rest r h k = ap (λ a. some (s, a)) (h refl)
large_step true false s x y rest r h k = k refl

small_step :
    (p : Bool) (s : Guest) (x y : ℕ)
    → x ≡ y
    → ◌≡◌ {A = Option (Guest × ℕ)}
        (some (s, if p then x else 0))
        (some (s, or_zero (if p then some y else none)))
unfolding or_zero
small_step true s x y e = ap (λ a. some (s, a)) e
small_step false s x y e = refl

pointer_step :
    (p : Bool) (s : Guest) (rest : Option (Guest × ℕ)) (r : Option ℕ)
    → rest ≡ some (s, or_zero r)
    → ◌≡◌ {A = Option (Guest × ℕ)}
        (elim p [ false ↦ some (s, 0) | true ↦ rest ])
        (some (s, or_zero (if p then r else none)))
unfolding or_zero
pointer_step false s rest r h = refl
pointer_step true s rest r h = h

plain_step :
    (l r : Bool) (n : ℕ)
    → (if l then n == 0 else r) ≡ true
    → (l ≡ true → n ≡ 0) × (l ≡ false → r ≡ true)
plain_step l r n h = (ground (arith, h), ground (arith, h))

module _ (window : ℕ) (reserved : window % 4096 ≡ 0) (s : Guest) (unmapped : s.pte ≡ no_pte) where
  read_entry-eq :
      (va f : ℕ) (d : Pml) (k : ℕ)
      → f < 2 ^ 36
      → index va d ≡ va / span k
      → read_entry window s (add64 (from_pfn f) (offset va d * 8)) ≡ some (s, entry k s.memory f va)
  unfolding read_entry
  read_entry-eq va f d k h e =
      ap (read_entry window s) (entry_address f va d k h e).0
      ∙ rw
          (mapper_read_write_lem window reserved (record s { buffer = λ _. 0 })
            (f * 4096 + va / span k % 512 * 8) 0 8 false (entry_address f va d k h e).1 unmapped)
          (ap (λ w. some (s, w)) (word-memcpy s.memory (f * 4096 + va / span k % 512 * 8)))

  from_pt-translate :
      (va f : ℕ)
      → f < 2 ^ 36
      → from_pt window s va f ≡ some (s, or_zero (translate 0 s.memory f va))
  unfolding from_pt translate index
  from_pt-translate va f h =
      rw (read_entry-eq va f Pml.pt 0 h refl)
        (small_step (present e) s _ _ (leaf_address e va Pml.pt (omega arith)))
    where
      e : ℕ
      e = entry 0 s.memory f va

  from_pd-translate :
      (va f : ℕ)
      → f < 2 ^ 36
      → is_plain 1 s.memory f va ≡ true
      → from_pd window s va f ≡ some (s, or_zero (translate 1 s.memory f va))
  unfolding from_pd translate index is_plain
  from_pd-translate va f h plain = rw (read_entry-eq va f Pml.pd 1 h refl) (
      large_step (present e) (large_page e) s _ _ _ _
        (λ l. leaf_address e va Pml.pd ((plain_step (large_page e) _ _ plain).0 l))
        (λ l. from_pt-translate va (page_frame_number e) (omega arith)))
    where
      e : ℕ
      e = entry 1 s.memory f va

  from_pdpt-translate :
      (va f : ℕ)
      → f < 2 ^ 36
      → is_plain 2 s.memory f va ≡ true
      → from_pdpt window s va f ≡ some (s, or_zero (translate 2 s.memory f va))
  unfolding from_pdpt translate index is_plain
  from_pdpt-translate va f h plain = rw (read_entry-eq va f Pml.pdpt 2 h refl) (
      large_step (present e) (large_page e) s _ _ _ _
        (λ l. leaf_address e va Pml.pdpt ((plain_step (large_page e) _ _ plain).0 l))
        (λ l.
          from_pd-translate va (page_frame_number e) (omega arith)
            ((plain_step (large_page e) _ _ plain).1 l)))
    where
      e : ℕ
      e = entry 2 s.memory f va

  -- While the reserved page is unmapped, and if every large page on the walk is plain, `va_to_pa` ends,
  -- leaves the state as it was and gives the address that the walk of the tables of `cr3` gives, or 0
  -- where the walk finds no page.
  pub va_to_pa-translate :
      (va cr3 : ℕ)
      → is_plain 3 s.memory (page_frame_number cr3) va ≡ true
      → va_to_pa window s va cr3
        ≡ some (s, or_zero (translate 3 s.memory (page_frame_number cr3) va))
  unfolding va_to_pa translate index is_plain
  va_to_pa-translate va cr3 plain =
      rw (read_entry-eq va (page_frame_number cr3) Pml.pml4 3 (omega arith) refl) (
        pointer_step (present e) s _ _
          (from_pdpt-translate va (page_frame_number e) (omega arith) plain))
    where
      e : ℕ
      e = entry 3 s.memory (page_frame_number cr3) va
