-- ===== src/Bitmap.antt =====
-- `basic_bitmap` of src/hvpp/hvpp/lib/bitmap.h and bitmap.cpp: a caller's buffer of 64-bit words read
-- as a string of bits. Positions and counts are non-negative `int`s, and -1 is `none`. Reading
-- outside the buffer gives 0 and a write there is lost; the laws say when that does not happen.
pub mod Word
pub mod Bound
pub mod Range
pub mod Run
pub mod Find
pub mod Cpu
pub mod All
mod Tests
use Prim.Native.Nat.{min}
use hvpp.Prelude.{
  ℕ, zero, suc, ◌+◌, ◌-◌, ◌*◌, ◌/◌, ◌%◌, ◌^◌, ◌<◌, ◌≡◌, ◌≢◌, bit_and, bit_or, Bool, true, false,
  Option, none, some, List, ltb, leb, ◌==◌, if◌then◌else◌, get_or, set, not64, add64, shl64, shr,
}
use hvpp.Prelude.Bits.{bit}

-- The processor's bit instructions, which the code calls as compiler intrinsics: `_BitScanForward64`
-- behind `ia32_asm_bsf` and `_bittest64` behind `ia32_asm_bt`, with what their manual says.
pub record BitInstructions : Type 0 where
  pub bsf : ℕ → ℕ
  pub bt : List ℕ → ℕ → ℕ
  pub bsf-lt : (x : ℕ) → x ≢ 0 → x < 2 ^ 64 → bsf x < 64
  pub bsf_set : (x : ℕ) → x ≢ 0 → x < 2 ^ 64 → bit x (bsf x) ≡ 1
  pub bsf_below : (x i : ℕ) → x ≢ 0 → x < 2 ^ 64 → i < bsf x → bit x i ≡ 0
  pub bt-eq-bit : (words : List ℕ) (i : ℕ) → bt words i ≡ bit (get_or words (i / 64) 0) (i % 64)

pub record Bitmap : Type 0 where
  pub words : List ℕ
  pub size_in_bits : ℕ

abbrev pub offset : ℕ → ℕ
offset i = i % 64

abbrev pub word : ℕ → ℕ
word i = i / 64

abbrev pub mask : ℕ → ℕ
mask i = shl64 1 (offset i)

abbrev pub size_in_bytes : Bitmap → ℕ
size_in_bytes b = b.size_in_bits / 8

-- `n` whole words of the value `v` from word `i` on
unfoldable pub fill : ℕ → List ℕ → ℕ → ℕ → List ℕ
fill zero words i v = words
fill (suc n) words i v = fill n (set words i v) (i + 1) v

-- `memset(&words[i], c, n)`, where `v` is the word of eight bytes `c`: whole words, then the low
-- bytes of the next one.
unfoldable pub memset : List ℕ → ℕ → ℕ → ℕ → List ℕ
memset words i v n =
    let k = n % 8 * 8 in
    let rest = i + n / 8 in
    let w = fill (n / 8) words i v in
    if k == 0 then w else set w rest (bit_or (shr (get_or w rest 0) k * 2 ^ k) (v % 2 ^ k))

abbrev pub ones : ℕ
ones = 2 ^ 64 - 1

-- From `memset` on: the part of `set(index, count)` that starts at a word's first bit.
unfoldable pub set_words : List ℕ → ℕ → ℕ → List ℕ
set_words words i count =
    let w = memset words i ones (shr count 3) in
    let j = i + count / 64 in
    let r = count % 64 in if r == 0 then w else set w j (bit_or (get_or w j 0) (mask r - 1))

pub clear_words : List ℕ → ℕ → ℕ → List ℕ
clear_words words i count =
    let w = memset words i 0 (shr count 3) in
    let j = i + count / 64 in
    let r = count % 64 in
    if r == 0 then w else set w j (bit_and (get_or w j 0) (not64 (mask r - 1)))

-- the digits from `offset(index)` up, `~mask(offset(index)) + 1`
abbrev pub from_offset : ℕ → ℕ
from_offset index = add64 (not64 (mask (offset index))) 1

-- `set(int index, int count)`
unfoldable pub set_range : List ℕ → ℕ → ℕ → List ℕ
set_range words index count =
    let i = word index in
    let w = get_or words i 0 in
    let bits = 64 - offset index in
    let cut = bits - count in
    if offset index == 0
    then set_words words i count
    else if ltb count bits
    then set words i (bit_or w (shr (shl64 (from_offset index) cut) cut))
    else set_words (set words i (bit_or w (from_offset index))) (i + 1) (count - bits)

-- `clear(int index, int count)`
pub clear_range : List ℕ → ℕ → ℕ → List ℕ
clear_range words index count =
    let i = word index in
    let w = get_or words i 0 in
    let bits = 64 - offset index in
    let cut = bits - count in
    if offset index == 0
    then clear_words words i count
    else if ltb count bits
    then set words i (bit_and w (not64 (shr (shl64 (from_offset index) cut) cut)))
    else clear_words (set words i (bit_and w (mask (offset index) - 1))) (i + 1) (count - bits)

abbrev pub set_bit : List ℕ → ℕ → List ℕ
set_bit words i = set words (word i) (bit_or (get_or words (word i) 0) (mask i))

abbrev pub clear_bit : List ℕ → ℕ → List ℕ
clear_bit words i = set words (word i) (bit_and (get_or words (word i) 0) (not64 (mask i)))

-- `set()` and `clear()` with no argument
abbrev pub set_all : Bitmap → List ℕ
set_all b = memset b.words 0 ones (b.size_in_bits / 8)

abbrev pub clear_all : Bitmap → List ℕ
clear_all b = memset b.words 0 0 (b.size_in_bits / 8)

-- `get_length_of_set` reads each word inverted, `get_length_of_clear` as it is; else they agree.
unfoldable pub read_word : Bool → ℕ → ℕ
read_word true w = not64 w
read_word false w = w

pub record Scan : Type 0 where
  pub next : ℕ
  pub value : ℕ

-- `while (value == 0 && buffer < buffer_max) value = *buffer++`, with `buffer_max - buffer` rounds.
unfoldable pub scan : Bool → List ℕ → ℕ → ℕ → ℕ → Scan
scan run words zero k value = record { next = k; value = value }
scan run words (suc n) k value =
    let rest = scan run words n (k + 1) (read_word run (get_or words k 0)) in
    if value == 0 then rest else record { next = k; value = value }

-- the scan of `get_length_of_*` from `index` over `count` bits
unfoldable pub scan_from : Bool → List ℕ → ℕ → ℕ → Scan
scan_from run words index count =
    let i = word index in
    let rounds = (offset index + count + 63) / 64 in
    scan run words (rounds - 1) (i + 1)
      (shl64 (shr (read_word run (get_or words i 0)) (offset index)) (offset index))

-- `std::numeric_limits<int>::max()`
abbrev pub max_int : ℕ
max_int = 2 ^ 31 - 1

module _ (cpu : BitInstructions) where
  open cpu use {bsf, bt}

  unfoldable pub test : Bitmap → ℕ → Bool
  test b i = if bt b.words i == 0 then false else true

  -- `get_length_of_set` for `true`, `get_length_of_clear` for `false`
  unfoldable pub get_length_of : Bool → Bitmap → ℕ → ℕ → ℕ
  get_length_of run b index count =
      let size = b.size_in_bits in
      let count' = min count (size - index) in
      let s = scan_from run b.words index count' in
      let found = s.next * 64 - index + bsf s.value - 64 in
      if leb size index
      then 0
      else if s.value == 0
      then count'
      else if ltb (size - index) found
      then size - index
      else found

  -- `are_bits_set` and `are_bits_clear`; the second disjunct is the code's test for overflow
  pub are_bits : Bool → Bitmap → ℕ → ℕ → Bool
  are_bits run b index count =
      if ltb b.size_in_bits (index + count)
      then false
      else if leb (index + count) index
      then false
      else leb count (get_length_of run b index count)

  -- `all_set` and `all_clear`
  abbrev pub all_bits : Bool → Bitmap → Bool
  all_bits run b = are_bits run b 0 b.size_in_bits

  -- The loop of `find_first_clear(index, count)`: the fuel is a bound on the rounds.
  unfoldable pub find_clear_loop : ℕ → Bitmap → ℕ → ℕ → Option ℕ
  find_clear_loop zero b count current = none
  find_clear_loop (suc fuel) b count current =
      let start = current + get_length_of true b current max_int in
      let found = get_length_of false b start count in
      let rest = find_clear_loop fuel b count (start + found) in
      if ltb (current + count) b.size_in_bits
      then (if leb count found then some start else rest)
      else none

  unfoldable pub find_first_clear : Bitmap → ℕ → ℕ → Option ℕ
  find_first_clear b index count =
      let start = if leb b.size_in_bits index then 0 else index in
      if ltb b.size_in_bits count
      then none
      else if count == 0
      then some (start / 8 * 8)
      else find_clear_loop (b.size_in_bits + 1) b count start

  -- The same loop of `find_first_set`, whose test is `<=`.
  abbrev pub find_set_loop : ℕ → Bitmap → ℕ → ℕ → Option ℕ
  find_set_loop zero b count current = none
  find_set_loop (suc fuel) b count current =
      let start = current + get_length_of false b current max_int in
      let found = get_length_of true b start count in
      let rest = find_set_loop fuel b count (start + found) in
      if leb (current + count) b.size_in_bits
      then (if leb count found then some start else rest)
      else none

  abbrev pub find_first_set : Bitmap → ℕ → ℕ → Option ℕ
  find_first_set b index count =
      let start = if leb b.size_in_bits index then 0 else index in
      if ltb b.size_in_bits count
      then none
      else if count == 0
      then some (start / 8 * 8)
      else find_set_loop (b.size_in_bits + 1) b count start
