-- ===== src/Vmcs/Encoding.antt =====
-- The parts of a field's encoding lie apart.
use hvpp.Prelude.{ℕ, ◌+◌, ◌*◌, ◌/◌, ◌%◌, ◌^◌, ◌<◌, ◌≡◌, refl, ap, ◌∙◌, bit_and, bit_or, arith, u16}
use hvpp.Prelude.Bits.{bit_or-join}
use hvpp.Paging.Align.{bit_and_low}
use hvpp.Vmcs.{
  AccessType, FieldType, Width, access_code, type_code, width_code, encode, decode, to_access,
  to_type, to_width, full, high, control, vmexit, guest, host, bits_16, bits_64, bits_32, natural,
}

access_code-lt : (a : AccessType) → access_code a < 2
unfolding access_code
access_code-lt full = omega arith
access_code-lt high = omega arith

type_code-lt : (t : FieldType) → type_code t < 4
unfolding type_code
type_code-lt control = omega arith
type_code-lt vmexit = omega arith
type_code-lt guest = omega arith
type_code-lt host = omega arith

width_code-lt : (w : Width) → width_code w < 4
unfolding width_code
width_code-lt bits_16 = omega arith
width_code-lt bits_64 = omega arith
width_code-lt bits_32 = omega arith
width_code-lt natural = omega arith

to_access-code : (a : AccessType) → to_access (access_code a) ≡ a
unfolding access_code to_access
to_access-code full = refl
to_access-code high = refl

to_type-code : (t : FieldType) → to_type (type_code t) ≡ t
unfolding type_code to_type
to_type-code control = refl
to_type-code vmexit = refl
to_type-code guest = refl
to_type-code host = refl

to_width-code : (w : Width) → to_width (width_code w) ≡ w
unfolding width_code to_width
to_width-code bits_16 = refl
to_width-code bits_64 = refl
to_width-code bits_32 = refl
to_width-code natural = refl

-- the encoding as a number of four digits
joined :
    (a i t w : ℕ)
    → a < 2
    → i < 512
    → t < 4
    → w < 4
    → u16 (bit_or (bit_or (bit_or a (i * 2 ^ 1)) (t * 2 ^ 10)) (w * 2 ^ 13))
      ≡ a + i * 2 + t * 2 ^ 10 + w * 2 ^ 13
joined a i t w ha hi ht hw =
    ap (λ n. u16 (bit_or (bit_or n (t * 2 ^ 10)) (w * 2 ^ 13)))
      (bit_or-join 1 (a + i * 2) a i (omega arith) (omega arith))
    ∙ ap (λ n. u16 (bit_or n (w * 2 ^ 13)))
        (bit_or-join 10 (a + i * 2 + t * 2 ^ 10) (a + i * 2) t (omega arith) (omega arith))
    ∙ ap u16 (
        bit_or-join 13 (a + i * 2 + t * 2 ^ 10 + w * 2 ^ 13) (a + i * 2 + t * 2 ^ 10) w
          (omega arith) (omega arith))
    ∙ omega arith

-- The numbers of the parts, as `decode` takes them from the field.
module _ (a i t w : ℕ) (ha : a < 2) (hi : i < 512) (ht : t < 4) (hw : w < 4) where
  abbrev number : ℕ
  number = a + i * 2 + t * 2 ^ 10 + w * 2 ^ 13

  access_part : bit_and number 1 ≡ a
  access_part = bit_and_low 1 number ∙ omega arith

  type_part : bit_and (number / 2 ^ 10) 3 ≡ t
  type_part = bit_and_low 2 (number / 2 ^ 10) ∙ omega arith

  width_part : bit_and (number / 2 ^ 13) 3 ≡ w
  width_part = bit_and_low 2 (number / 2 ^ 13) ∙ omega arith

  index_part : bit_and (number / 2 ^ 1) 511 ≡ i
  index_part = bit_and_low 9 (number / 2 ^ 1) ∙ omega arith

-- Decoding gives back the parts that an encoding with an index below 512 was made of, and its bit 12 is 0.
pub decode-encode :
    (a : AccessType) (t : FieldType) (w : Width) (i : ℕ)
    → i < 512
    → (decode (encode a t w i) ≡ (a, t, w, i)) × (encode a t w i / 2 ^ 12 % 2 ≡ 0)
unfolding decode encode
decode-encode a t w i h =
    let la = access_code-lt a in
    let lt = type_code-lt t in
    let lw = width_code-lt w in
    let whole = joined (access_code a) i (type_code t) (width_code w) la h lt lw in
    (
      rw
          (
            whole,
            access_part (access_code a) i (type_code t) (width_code w) la h lt lw,
            type_part (access_code a) i (type_code t) (width_code w) la h lt lw,
            width_part (access_code a) i (type_code t) (width_code w) la h lt lw,
            index_part (access_code a) i (type_code t) (width_code w) la h lt lw,
            to_access-code a,
            to_type-code t,
            to_width-code w,
          )
          refl,
      ap (λ n. n / 2 ^ 12 % 2) whole ∙ omega arith,
    )
