-- ===== src/Guest/Sample.antt =====
-- Page tables in the frames 1 to 4, each with 512 equal entries that point to the next frame, and data
-- everywhere else: every page of the virtual memory is frame 5.
use mathlib.Core.Path.{fun_ext}
use hvpp.Prelude.{
  ℕ, ◌+◌, ◌*◌, ◌/◌, ◌%◌, ◌≤◌, ◌<◌, ◌≡◌, refl, ap, true, ◌&&◌, ltb, leb, ◌==◌, if◌then◌else◌, arith,
}
use hvpp.Ept.Shape.{span}
use hvpp.Guest.{word, memcpy}
use hvpp.Guest.Walk.{entry, translate, is_plain, or_zero}
use hvpp.Guest.Translator.{IsTranslation, translation}

abbrev pub tables : (ℕ → ℕ) → ℕ → ℕ
tables rest a =
    if leb 4096 a && ltb a 20480
    then (if a % 8 == 0 then 3 else if a % 8 == 1 then 16 * (a / 4096 + 1) else 0)
    else rest a

table_byte :
    (rest : ℕ → ℕ) (f i j : ℕ)
    → 0 < f
    → f < 5
    → i < 512
    → j < 8
    → tables rest (f * 4096 + i * 8 + j)
      ≡ (if j == 0 then 3 else if j == 1 then 16 * (f + 1) else 0)
table_byte rest f i j p f_lt i_lt j_lt = ground arith

table_word :
    (rest : ℕ → ℕ) (f i : ℕ)
    → 0 < f
    → f < 5
    → i < 512
    → word (tables rest) (f * 4096 + i * 8) ≡ 3 + 4096 * (f + 1)
unfolding word
table_word rest f i p f_lt i_lt = omega (
  arith,
  table_byte rest f i 0 p f_lt i_lt (omega arith),
  table_byte rest f i 1 p f_lt i_lt (omega arith),
  table_byte rest f i 2 p f_lt i_lt (omega arith),
  table_byte rest f i 3 p f_lt i_lt (omega arith),
  table_byte rest f i 4 p f_lt i_lt (omega arith),
  table_byte rest f i 5 p f_lt i_lt (omega arith),
  table_byte rest f i 6 p f_lt i_lt (omega arith),
  table_byte rest f i 7 p f_lt i_lt (omega arith),
  ap (tables rest) {x = f * 4096 + i * 8 + 0} {y = f * 4096 + i * 8} (omega arith),
)

table_entry :
    (rest : ℕ → ℕ) (k f u : ℕ) → 0 < f → f < 5 → entry k (tables rest) f u ≡ 3 + 4096 * (f + 1)
table_entry rest k f u p f_lt = table_word rest f (u / span k % 512) p f_lt (omega arith)

-- Every address lies in frame 5.
pub table_translate : (rest : ℕ → ℕ) (u : ℕ) → translation (tables rest) 4096 u ≡ 20480 + u % 4096
unfolding translate or_zero
table_translate rest u = rw (table_entry rest 3 1 u (omega arith) (omega arith)) (
    rw (table_entry rest 2 2 u (omega arith) (omega arith)) (
      rw (table_entry rest 1 3 u (omega arith) (omega arith))
        (rw (table_entry rest 0 4 u (omega arith) (omega arith)) refl)))

pub table_plain : (rest : ℕ → ℕ) (u : ℕ) → is_plain 3 (tables rest) 1 u ≡ true
unfolding is_plain
table_plain rest u = rw (table_entry rest 3 1 u (omega arith) (omega arith)) (
    rw (table_entry rest 2 2 u (omega arith) (omega arith))
      (rw (table_entry rest 1 3 u (omega arith) (omega arith)) refl))

pub tables-IsTranslation : (rest : ℕ → ℕ) → IsTranslation (tables rest) 4096 (λ u. 20480 + u % 4096)
tables-IsTranslation rest = record { plain = table_plain rest; maps = table_translate rest }

-- A byte of the data changes.
pub memcpy-tables :
    (rest source : ℕ → ℕ) (d o : ℕ)
    → 20480 ≤ d
    → memcpy (tables rest) d source o 1 ≡ tables (memcpy rest d source o 1)
memcpy-tables rest source d o h = fun_ext (λ i. ground arith)
