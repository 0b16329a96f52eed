-- ===== src/Vmcs/Tests.antt =====
-- The theorems on fields: a write of CS and a read of FS, and the upper half of a field of 64 bits.
use hvpp.Prelude.{◌≡◌, refl, arith, ◌%◌, ◌/◌, ◌^◌}
use hvpp.Segment.{Segment}
use hvpp.Vmcs.{
  Vmcs, SegmentRegister, AccessType, FieldType, Width, encode, decode, index, named, set_named,
  guest_segment, set_guest_segment, guest_gdtr, guest_idtr, guest_base, encode_full, access_code,
  type_code, width_code,
}
use hvpp.Vmcs.Encoding.{decode-encode}
use hvpp.Vmcs.Register.{segment_lem}

abbrev vmcs : Vmcs
vmcs x = x

abbrev code : Segment
code = record { base_address = 0; limit = 4294967295; access = 41115; unusable = 0; selector = 16 }

segment_lem_example :
    (named (set_guest_segment vmcs 1 code) SegmentRegister.fs ≡ named vmcs SegmentRegister.fs)
    × (guest_segment (set_named vmcs SegmentRegister.cs code) 4 ≡ guest_segment vmcs 4)
    × (named (set_named vmcs SegmentRegister.cs code) SegmentRegister.fs
        ≡ guest_segment (set_guest_segment vmcs 1 code) 4)
    × (guest_gdtr (set_named vmcs SegmentRegister.cs code) ≡ guest_gdtr vmcs)
    × (guest_idtr (set_named vmcs SegmentRegister.cs code) ≡ guest_idtr vmcs)
unfolding index
segment_lem_example = segment_lem vmcs SegmentRegister.cs SegmentRegister.fs code (omega arith)

decode-encode_example :
    (decode (encode AccessType.high FieldType.control Width.bits_64 26)
      ≡ (AccessType.high, FieldType.control, Width.bits_64, 26))
    × (encode AccessType.high FieldType.control Width.bits_64 26 / 2 ^ 12 % 2 ≡ 0)
decode-encode_example =
    decode-encode AccessType.high FieldType.control Width.bits_64 26 (omega arith)

-- the code of the base of FS in the processor's manual
fs_base_code : guest_base SegmentRegister.fs ≡ 26638
unfolding guest_base encode_full encode access_code type_code width_code
fs_base_code = refl
