-- ===== src/Segment/Tests.antt =====
-- A segment register loaded from a descriptor.
use hvpp.Prelude.{◌≡◌, refl, ◌==◌, if◌then◌else◌}
use hvpp.Segment.{Register, Hardware, segment, with_limit_high}

-- The selector 16 of a table at 4096.
abbrev hardware : Hardware
hardware = record { read_ar = λ s. 35584; read_sl = λ s. 103; fs_base = 0; gs_base = 0; ldtr = 0 }

loads_task :
    (segment hardware
      (λ a. if a == 4117 then 139 else 7)
      Register.other
      (record { limit = 127; base_address = 4096 })
      16).0.access
    ≡ 139
unfolding segment with_limit_high
loads_task = refl
