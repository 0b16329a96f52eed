-- ===== src/Emulate/TaskRegister.antt =====
-- LTR: the task register and the descriptor that it marks busy.
use native.Mathlib.Nat.{pow-suc}
use hvpp.Prelude.{
  ℕ, zero, suc, ◌+◌, ◌-◌, ◌*◌, ◌/◌, ◌%◌, ◌^◌, ◌<◌, ◌≤◌, ◌≡◌, ◌⊎◌, refl, ap, sym, ◌∙◌, bit_or, ◌==◌,
  if◌then◌else◌, arith, add64, sub64, inl, inr,
}
use hvpp.Prelude.Bits.{
  bit, bit-lt, bit-mod, bit-shl, bit-shr, bit-bit_or, bit_pow, bit_or-lt, bit_or-join,
}
use hvpp.Segment.{read_bytes, write_bytes, entry_at, at, GdtEntry}
use hvpp.Segment.Bytes.{read_bytes-ext, read_bytes-write_bytes, write_bytes-outside}
use hvpp.Emulate.{
  Guest, Operand, Place, SystemInstruction, handle_ldtr_tr_access, load_tr, read_low_word, set_busy,
  seg_tr,
}

set_busy-lt : (access : ℕ) → access < 2 ^ 16 → set_busy access < 2 ^ 16
unfolding set_busy
set_busy-lt access h = omega (arith, bit_or-lt 4 (access % 2 ^ 4) 2 (omega arith) (omega arith))

read_bytes-lt : (n a : ℕ) (memory : ℕ → ℕ) → read_bytes memory a n < 256 ^ n
unfolding read_bytes
read_bytes-lt zero a memory = omega arith
read_bytes-lt (suc n) a memory = omega (arith, pow-suc 256 n, read_bytes-lt n (add64 a 1) memory)

-- The parts of a descriptor around its access word, after a store to that word.
read_other :
    (d j k v : ℕ) (memory : ℕ → ℕ)
    → d < 2 ^ 64
    → j + k ≤ 16
    → (j + k ≤ 5) ⊎ (7 ≤ j)
    → read_bytes (write_bytes memory (add64 d 5) 2 v) (add64 d j) k
      ≡ read_bytes memory (add64 d j) k
read_other d j k v memory h small (inl below) =
    read_bytes-ext k (add64 d j) (write_bytes memory (add64 d 5) 2 v) memory (omega arith) (λ i l.
      write_bytes-outside 2 (add64 d 5) v (add64 (add64 d j) i) memory (omega arith) (omega arith)
        (omega arith))
read_other d j k v memory h small (inr above) =
    read_bytes-ext k (add64 d j) (write_bytes memory (add64 d 5) 2 v) memory (omega arith) (λ i l.
      write_bytes-outside 2 (add64 d 5) v (add64 (add64 d j) i) memory (omega arith) (omega arith)
        (omega arith))

joined : (a : ℕ) → a < 2 ^ 16 → bit_or (bit_or (a % 2 ^ 4) 2) (a / 2 ^ 4 * 2 ^ 4) ≡ set_busy a
unfolding set_busy
joined a h =
    let low = bit_or-lt 4 (a % 2 ^ 4) 2 (omega arith) (omega arith) in
    bit_or-join 4 (a / 2 ^ 4 * 2 ^ 4 + bit_or (a % 2 ^ 4) 2) (bit_or (a % 2 ^ 4) 2) (a / 2 ^ 4)
      (omega arith) (omega arith)

bit-set_busy : (a i : ℕ) → a < 2 ^ 16 → bit (set_busy a) i ≡ (if i == 1 then 1 else bit a i)
bit-set_busy a i h =
    ap (λ x. bit x i) (sym (joined a h))
    ∙ ground (
      arith,
      bit-bit_or (bit_or (a % 2 ^ 4) 2) (a / 2 ^ 4 * 2 ^ 4) i,
      bit-bit_or (a % 2 ^ 4) 2 i,
      bit-mod a 4 i,
      bit_pow 1 i,
      bit-shl (a / 2 ^ 4) 4 i,
      bit-shr a 4 (i - 4),
      ap (bit a) {x = 4 + (i - 4)} {y = i},
      bit-lt a i,
    )

abbrev pub busy : GdtEntry → GdtEntry
busy e = record e { access = set_busy e.access }

entry_busy :
    (d : ℕ) (memory : ℕ → ℕ)
    → d < 2 ^ 64
    → entry_at (write_bytes memory (add64 d 5) 2 (set_busy (read_bytes memory (add64 d 5) 2))) d
      ≡ busy (entry_at memory d)
unfolding entry_at
entry_busy d memory h =
    let v = set_busy (read_bytes memory (add64 d 5) 2) in
    let m = write_bytes memory (add64 d 5) 2 v in
    let part : (j k : ℕ)
        → j + k ≤ 16
        → (j + k ≤ 5) ⊎ (7 ≤ j)
        → read_bytes m (add64 d j) k ≡ read_bytes memory (add64 d j) k =
      λ j k p q. read_other d j k v memory h p q in
    let first : read_bytes m d 2 ≡ read_bytes memory d 2 =
      ap (λ a. read_bytes m a 2) {x = d} {y = add64 d 0} (omega arith)
      ∙ part 0 2 (omega arith) (inl (omega arith))
      ∙ ap (λ a. read_bytes memory a 2) {x = add64 d 0} {y = d} (omega arith) in
    let written =
      read_bytes-write_bytes 2 (add64 d 5) v memory (omega arith)
        (set_busy-lt (read_bytes memory (add64 d 5) 2) (read_bytes-lt 2 (add64 d 5) memory))
        (omega arith) in
    let low = part 2 2 (omega arith) (inl (omega arith)) in
    let middle = part 4 1 (omega arith) (inl (omega arith)) in
    let high = part 7 1 (omega arith) (inr (omega arith)) in
    let upper = part 8 4 (omega arith) (inr (omega arith)) in
    let zeros = part 12 4 (omega arith) (inr (omega arith)) in
    λ i. record {
      limit_low = first i;
      base_address_low = low i;
      base_address_middle = middle i;
      access = written i;
      base_address_high = high i;
      base_address_upper = upper i;
      must_be_zero = zeros i;
    }

at-lt : (base selector : ℕ) → at base selector < 2 ^ 64
unfolding at
at-lt base selector = omega arith

module _ {World : Type 0} (g : Guest World) (o : Operand) (place : Place) where
  -- the descriptor in the GDT that the operand selects
  abbrev pub descriptor : Guest World → GdtEntry
  descriptor g' = entry_at g'.memory (at g.gdtr.base_address (read_low_word g o place))

  -- LTR sets bit 1 of the access word of the selected descriptor, the flag of a busy TSS, and changes no
  -- other bit of the word, no other part of the 16 bytes of the descriptor, and no byte of memory but
  -- the two of the word. Of TR the selector alone changes: the base address, the limit and the
  -- rights stay those of the old TSS. The other segments, the registers, the tables and the rest of the
  -- guest stay.
  pub ltr_lem :
      (i x j : ℕ)
      → x < 2 ^ 64
      → 2 ≤ sub64 x (add64 (at g.gdtr.base_address (read_low_word g o place)) 5)
      → (descriptor (handle_ldtr_tr_access g o place SystemInstruction.ltr)
          ≡ record (descriptor g) {
            access = (descriptor (handle_ldtr_tr_access g o place SystemInstruction.ltr)).access;
          })
        × (bit (descriptor (handle_ldtr_tr_access g o place SystemInstruction.ltr)).access i
            ≡ (if i == 1 then 1 else bit (descriptor g).access i))
        × ((handle_ldtr_tr_access g o place SystemInstruction.ltr).memory x ≡ g.memory x)
        × ((handle_ldtr_tr_access g o place SystemInstruction.ltr).segment j ≡ (
            if j == seg_tr
            then record (g.segment seg_tr) { selector = read_low_word g o place }
            else g.segment j))
        × (handle_ldtr_tr_access g o place SystemInstruction.ltr ≡ record g {
          memory = (handle_ldtr_tr_access g o place SystemInstruction.ltr).memory;
          segment = (handle_ldtr_tr_access g o place SystemInstruction.ltr).segment;
        })
  unfolding handle_ldtr_tr_access load_tr entry_at
  ltr_lem i x j hx out =
      let d = at g.gdtr.base_address (read_low_word g o place) in
      let small = at-lt g.gdtr.base_address (read_low_word g o place) in
      let after : entry_at
            (write_bytes g.memory (add64 d 5) 2 (set_busy (read_bytes g.memory (add64 d 5) 2))) d
          ≡ busy (entry_at g.memory d) =
        entry_busy d g.memory small in
      (
        after ∙ ap (λ (e : GdtEntry). record (descriptor g) { access = e.access }) (sym after),
        ap (λ e. bit e.access i) after
            ∙ bit-set_busy (descriptor g).access i (read_bytes-lt 2 (add64 d 5) g.memory),
        write_bytes-outside 2 (add64 d 5) (set_busy (read_bytes g.memory (add64 d 5) 2)) x g.memory
            (omega arith) hx out,
        refl,
        refl,
      )
