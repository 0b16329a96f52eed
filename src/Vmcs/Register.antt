-- ===== src/Vmcs/Register.antt =====
-- The accessors by name and by index reach the same fields, and those of a register no other's.
use hvpp.Prelude.{
  ℕ, ◌+◌, ◌*◌, ◌%◌, ◌^◌, ◌<◌, ◌≤◌, ◌≡◌, refl, ap, ◌∙◌, sym, arith, ◌==◌, if◌then◌else◌, true, false,
  Bool-cases, inl, inr,
}
use hvpp.Segment.{Segment}
use hvpp.Vmcs.{
  SegmentRegister, Vmcs, index, guest_base, guest_limit, guest_access_rights, guest_selector,
  encode, encode_full, read_at, write_at, named, set_named, guest_segment, set_guest_segment,
  guest_gdtr, guest_idtr, es, cs, ss, ds, fs, gs, ldtr, tr, access_code, type_code, width_code,
}

base-index : (r : SegmentRegister) → guest_base r ≡ 26630 + index r * 2
unfolding guest_base index encode_full encode access_code type_code width_code
base-index es = refl
base-index cs = refl
base-index ss = refl
base-index ds = refl
base-index fs = refl
base-index gs = refl
base-index ldtr = refl
base-index tr = refl

limit-index : (r : SegmentRegister) → guest_limit r ≡ 18432 + index r * 2
unfolding guest_limit index encode_full encode access_code type_code width_code
limit-index es = refl
limit-index cs = refl
limit-index ss = refl
limit-index ds = refl
limit-index fs = refl
limit-index gs = refl
limit-index ldtr = refl
limit-index tr = refl

access-index : (r : SegmentRegister) → guest_access_rights r ≡ 18452 + index r * 2
unfolding guest_access_rights index encode_full encode access_code type_code width_code
access-index es = refl
access-index cs = refl
access-index ss = refl
access-index ds = refl
access-index fs = refl
access-index gs = refl
access-index ldtr = refl
access-index tr = refl

selector-index : (r : SegmentRegister) → guest_selector r ≡ 2048 + index r * 2
unfolding guest_selector index encode_full encode access_code type_code width_code
selector-index es = refl
selector-index cs = refl
selector-index ss = refl
selector-index ds = refl
selector-index fs = refl
selector-index gs = refl
selector-index ldtr = refl
selector-index tr = refl

index-lt : (r : SegmentRegister) → index r < 8
unfolding index
index-lt es = omega arith
index-lt cs = omega arith
index-lt ss = omega arith
index-lt ds = omega arith
index-lt fs = omega arith
index-lt gs = omega arith
index-lt ldtr = omega arith
index-lt tr = omega arith

-- a register, read and written at the fields that its number gives
abbrev at_index : {A : Type 0} → (ℕ → ℕ → ℕ → ℕ → A) → ℕ → A
at_index f i = f (26630 + i * 2) (18432 + i * 2) (18452 + i * 2) (2048 + i * 2)

named-at_index : (v : Vmcs) (r : SegmentRegister) → named v r ≡ at_index (read_at v) (index r)
unfolding named
named-at_index v r = rw (base-index r, limit-index r, access-index r, selector-index r) refl

set_named-at_index :
    (v : Vmcs) (r : SegmentRegister) (s : Segment)
    → set_named v r s ≡ at_index (λ b l a c. write_at v b l a c s) (index r)
unfolding set_named
set_named-at_index v r s = rw (base-index r, limit-index r, access-index r, selector-index r) refl

guest_segment-at_index : (v : Vmcs) (i : ℕ) → guest_segment v i ≡ at_index (read_at v) i
unfolding guest_segment index
guest_segment-at_index v i =
    rw (base-index es, limit-index es, access-index es, selector-index es) refl

set_guest_segment-at_index :
    (v : Vmcs) (i : ℕ) (s : Segment)
    → set_guest_segment v i s ≡ at_index (λ b l a c. write_at v b l a c s) i
unfolding set_guest_segment index
set_guest_segment-at_index v i s =
    rw (base-index es, limit-index es, access-index es, selector-index es) refl

segment_ext :
    (s t : Segment)
    → s.base_address ≡ t.base_address
    → s.limit ≡ t.limit
    → s.access ≡ t.access
    → s.unusable ≡ t.unusable
    → s.selector ≡ t.selector
    → s ≡ t
segment_ext s t b l a u c =
    λ i. record { base_address = b i; limit = l i; access = a i; unusable = u i; selector = c i }

module _ (v : Vmcs) (i j : ℕ) (s : Segment) (hi : i < 8) (hj : j < 8) (h : s.access < 2 ^ 16) where
  abbrev after : Segment
  after = at_index (read_at (at_index (λ b l a c. write_at v b l a c s) i)) j

  written_same : (j == i) ≡ true → after ≡ s
  unfolding read_at write_at
  written_same e =
      segment_ext after s (ground (arith, e)) (ground (arith, e)) (ground (arith, e))
        (ground (arith, e)) (ground (arith, e))

  written_other : (j == i) ≡ false → after ≡ at_index (read_at v) j
  unfolding read_at write_at
  written_other e =
      segment_ext after (at_index (read_at v) j) (ground (arith, e)) (ground (arith, e))
        (ground (arith, e)) (ground (arith, e)) (ground (arith, e))

  written : after ≡ (if j == i then s else at_index (read_at v) j)
  written = elim (Bool-cases (j == i)) [
    | inl e ↦ rw e (written_same e)
    | inr e ↦ rw e (written_other e)
  ]

-- The fields of GDTR and IDTR lie beside those of the segment registers.
module _ (v : Vmcs) (i : ℕ) (s : Segment) (h : i < 8) where
  abbrev changed : Vmcs
  changed = at_index (λ b l a c. write_at v b l a c s) i

  limit_untouched : (x : ℕ) → 18448 ≤ x → x < 18452 → changed x ≡ v x
  unfolding write_at
  limit_untouched x low high = ground arith

  base_untouched : (x : ℕ) → 26646 ≤ x → changed x ≡ v x
  unfolding write_at
  base_untouched x low = ground arith

  gdtr_untouched : guest_gdtr changed ≡ guest_gdtr v
  unfolding guest_gdtr encode_full encode access_code type_code width_code
  gdtr_untouched = λ k. record {
    limit = limit_untouched 18448 (omega arith) (omega arith) k % 2 ^ 16;
    base_address = base_untouched 26646 (omega arith) k;
  }

  idtr_untouched : guest_idtr changed ≡ guest_idtr v
  unfolding guest_idtr encode_full encode access_code type_code width_code
  idtr_untouched = λ k. record {
    limit = limit_untouched 18450 (omega arith) (omega arith) k % 2 ^ 16;
    base_address = base_untouched 26648 (omega arith) k;
  }

module _ (v : Vmcs) (r q : SegmentRegister) (s : Segment) where
  -- Writing a segment register, by its name or by its number, and then reading one in either way gives the
  -- written value for that register and the old value for every other, and GDTR and IDTR stay.
  pub segment_lem :
      s.access < 2 ^ 16
      → (named (set_guest_segment v (index r) s) q ≡ (if index q == index r then s else named v q))
        × (guest_segment (set_named v r s) (index q)
            ≡ (if index q == index r then s else guest_segment v (index q)))
        × (named (set_named v r s) q ≡ guest_segment (set_guest_segment v (index r) s) (index q))
        × (guest_gdtr (set_named v r s) ≡ guest_gdtr v)
        × (guest_idtr (set_named v r s) ≡ guest_idtr v)
  segment_lem h = (
    named-at_index (set_guest_segment v (index r) s) q
        ∙ ap (λ m. at_index (read_at m) (index q)) (set_guest_segment-at_index v (index r) s)
        ∙ written v (index r) (index q) s (index-lt r) (index-lt q) h
        ∙ ap (λ t. if index q == index r then s else t) (sym (named-at_index v q)),
    guest_segment-at_index (set_named v r s) (index q)
        ∙ ap (λ m. at_index (read_at m) (index q)) (set_named-at_index v r s)
        ∙ written v (index r) (index q) s (index-lt r) (index-lt q) h
        ∙ ap (λ t. if index q == index r then s else t) (sym (guest_segment-at_index v (index q))),
    named-at_index (set_named v r s) q
        ∙ ap (λ m. at_index (read_at m) (index q))
            (set_named-at_index v r s ∙ sym (set_guest_segment-at_index v (index r) s))
        ∙ sym (guest_segment-at_index (set_guest_segment v (index r) s) (index q)),
    ap guest_gdtr (set_named-at_index v r s) ∙ gdtr_untouched v (index r) s (index-lt r),
    ap guest_idtr (set_named-at_index v r s) ∙ idtr_untouched v (index r) s (index-lt r),
  )
