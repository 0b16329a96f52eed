-- ===== src/Guest/Tests.antt =====
-- The theorems on guest memory, at concrete inputs.
use mathlib.Core.Path.{subst}
use hvpp.Prelude.{ℕ, zero, suc, ◌+◌, ◌%◌, ◌≤◌, ◌≡◌, refl, ap, sym, ◌∙◌, true, false, some, arith}
use hvpp.Guest.{Guest, no_pte, memcpy, memset, va_to_pa, read_write, word}
use hvpp.Guest.Walk.{translate, is_plain, or_zero, va_to_pa-translate}
use hvpp.Guest.Bytes.{bytes}
use hvpp.Guest.Translator.{IsTranslation, translation, read_lem, write_lem}
use hvpp.Guest.Skip.{read_ignoring_errors}
use hvpp.Guest.Sample.{tables, table_plain, tables-IsTranslation, memcpy-tables}

abbrev window : ℕ
window = 65536

abbrev guest : Guest
guest = record { memory = tables (λ a. a % 256); buffer = λ i. 200 + i; pte = no_pte }

abbrev nothing_left : ℕ → ℕ
nothing_left _ = 0

va_to_pa-translate_example :
    va_to_pa window guest 8199 4096 ≡ some (guest, or_zero (translate 3 guest.memory 1 8199))
va_to_pa-translate_example =
    va_to_pa-translate window refl guest refl 8199 4096 (table_plain (λ a. a % 256) 8199)

va_to_pa_runs : va_to_pa window guest 8199 4096 ≡ some (guest, 20487)
unfolding or_zero translate
va_to_pa_runs =
    va_to_pa-translate_example
    ∙ ap (λ a. some (guest, a)) ((tables-IsTranslation (λ a. a % 256)).maps 8199)

-- 3 bytes over the end of a page
read_lem_example :
    (read_write window guest 4095 4096 0 3 false false
      ≡ some (bytes 3 guest (translation guest.memory 4096) 4095 0 false))
    × ((bytes 3 guest (translation guest.memory 4096) 4095 0 false).0.memory ≡ guest.memory)
read_lem_example =
    read_lem window refl guest 4095 4096 0 3 (omega arith) (omega arith) refl
      (table_plain (λ a. a % 256))

abbrev phys : ℕ → ℕ
phys u = 20480 + u % 4096

written : (k : ℕ) → k ≤ 2 → IsTranslation (bytes k guest phys 4095 0 true).0.memory 4096 phys
unfolding bytes
written zero h = tables-IsTranslation (λ a. a % 256)
written (suc zero) h =
    subst (λ m. IsTranslation m 4096 phys)
      (sym (memcpy-tables (λ a. a % 256) guest.buffer 24575 0 (omega arith)))
      (tables-IsTranslation (memcpy (λ a. a % 256) 24575 guest.buffer 0 1))
written (suc (suc zero)) h =
    subst (λ m. IsTranslation m 4096 phys)
      (sym (
        ap (λ m. memcpy m 20480 guest.buffer 1 1)
          (memcpy-tables (λ a. a % 256) guest.buffer 24575 0 (omega arith))
        ∙ memcpy-tables (memcpy (λ a. a % 256) 24575 guest.buffer 0 1) guest.buffer 20480 1
            (omega arith)))
      (tables-IsTranslation
        (memcpy (memcpy (λ a. a % 256) 24575 guest.buffer 0 1) 20480 guest.buffer 1 1))
written (suc (suc (suc k))) h = absurd (omega arith)

write_lem_example :
    read_write window guest 4095 4096 0 2 true false ≡ some (bytes 2 guest phys 4095 0 true)
write_lem_example =
    write_lem window refl guest 4095 4096 0 2 phys (omega arith) (omega arith) refl written

-- The two bytes lie at the end and at the beginning of the frame.
write_runs :
    ((bytes 2 guest phys 4095 0 true).0.memory 24575 ≡ 200)
    × ((bytes 2 guest phys 4095 0 true).0.memory 20480 ≡ 201)
    × ((bytes 2 guest phys 4095 0 true).1 ≡ 0)
unfolding bytes
write_runs = (refl, refl, refl)

-- The same tables, where the entry of the first page is zero.
abbrev holed : Guest
holed = record guest { memory = memcpy guest.memory 16384 nothing_left 0 8 }

read_ignoring_errors_example :
    read_write window holed 4095 4096 0 3 false true
    ≡ some (record holed { buffer = memset holed.buffer 0 3 }, 0)
unfolding or_zero translate is_plain word
read_ignoring_errors_example =
    read_ignoring_errors window refl holed 4095 4096 0 2 (omega arith) refl refl refl

-- The last byte of that range is mapped, to a byte that is not zero.
holed_runs : translation holed.memory 4096 4097 ≡ 20481
unfolding or_zero translate word
holed_runs = refl
