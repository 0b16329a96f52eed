-- ===== src/Bitmap/Run.antt =====
-- `get_length_of_set` and `get_length_of_clear` measure runs.
use Prim.Native.Nat.{min}
use native.Mathlib.Decide.{dec_lt}
use hvpp.Prelude.{
  ℕ, zero, suc, ◌+◌, ◌-◌, ◌*◌, ◌/◌, ◌%◌, ◌^◌, ◌≤◌, ◌<◌, ◌≡◌, ◌≢◌, ◌⊎◌, ap, ◌∙◌, Bool, true, false,
  not, List, ltb, ◌==◌, if◌then◌else◌, get_or, shl64, shr, arith, Bool-cases, inl, inr, ==_iff,
}
use hvpp.Prelude.Bits.{bit, bit-lt, bit_zero, bit-shl, bit-shr, bit-mod}
use hvpp.Bitmap.{
  BitInstructions, Bitmap, test, offset, word, read_word, Scan, scan, scan_from, get_length_of,
}
use hvpp.Bitmap.Word.{IsWords, bit-not64}

-- Bit `i` of the buffer, as the loops see it: 0 where a run goes on.
abbrev pub seen : Bool → List ℕ → ℕ → ℕ
seen run ws i = bit (read_word run (get_or ws (i / 64) 0)) (i % 64)

-- What a scan knows at word `next`: no bit that ends the run stands between `index` and the word
-- before, and `value` holds that word's bits from `index` on.
record Knows (run : Bool) (ws : List ℕ) (index : ℕ) (s : Scan) : Type 0 where
  pub started : index < 64 * s.next
  pub within : s.value < 2 ^ 64
  pub before : (i : ℕ) → index ≤ i → i + 64 < 64 * s.next → seen run ws i ≡ 0
  pub last :
      (b : ℕ)
      → b < 64
      → bit s.value b
        ≡ (if ltb (64 * (s.next - 1) + b) index then 0 else seen run ws (64 * (s.next - 1) + b))

read_word-lt : (run : Bool) (w : ℕ) → w < 2 ^ 64 → read_word run w < 2 ^ 64
unfolding read_word
read_word-lt true w h = omega arith
read_word-lt false w h = h

seen_at :
    (run : Bool) (ws : List ℕ) (k b : ℕ)
    → b < 64
    → seen run ws (64 * k + b) ≡ bit (read_word run (get_or ws k 0)) b
seen_at run ws k b h =
    ap (λ m. bit (read_word run (get_or ws m 0)) ((64 * k + b) % 64)) {x = (64 * k + b) / 64}
      {y = k} (omega arith)
    ∙ ap (bit (read_word run (get_or ws k 0))) {x = (64 * k + b) % 64} {y = b} (omega arith)

-- Below the word in hand and in it, a value of 0 shows no end of the run.
module _ (run : Bool) (ws : List ℕ) (index : ℕ) where
  none_seen :
      {s : Scan}
      → Knows run ws index s
      → (stop : ℕ) → stop ≤ 64
      → ((b : ℕ) → b < stop → bit s.value b ≡ 0)
      → (i : ℕ) → index ≤ i
      → i < 64 * (s.next - 1) + stop
      → seen run ws i ≡ 0
  none_seen {s} k stop small low i p q = elim (Bool-cases (ltb (i + 64) (64 * s.next))) [
    | inl e ↦ k.before i p (ground arith)
    | inr e ↦ ground (
      arith,
      k.started,
      low (i - 64 * (s.next - 1)),
      k.last (i - 64 * (s.next - 1)),
      ap (seen run ws) {x = 64 * (s.next - 1) + (i - 64 * (s.next - 1))} {y = i},
    )
  ]

  Knows-next :
      {k value : ℕ}
      → IsWords ws
      → Knows run ws index (record { next = k; value = value })
      → value ≡ 0
      → Knows run ws index (record { next = k + 1; value = read_word run (get_or ws k 0) })
  Knows-next {k} {value} words old e = record {
    started = omega (arith, old.started);
    within = read_word-lt run (get_or ws k 0) (words k);
    before = λ i p q.
        none_seen old 64 (omega arith) (λ b h. rw e (bit_zero b)) i p (omega (arith, old.started));
    last = λ b h. ground (
      arith,
      old.started,
      seen_at run ws k b,
      ap (λ m. seen run ws (64 * m + b)) {x = k + 1 - 1} {y = k},
    );
  }

  scan-Knows :
      (n k value : ℕ)
      → IsWords ws
      → Knows run ws index (record { next = k; value = value })
      → let s = scan run ws n k value in Knows run ws index s × (s.value ≡ 0 → s.next ≡ k + n)
  unfolding scan
  scan-Knows zero k value words old = (old, λ h. omega arith)
  scan-Knows (suc n) k value words old = elim (Bool-cases (value == 0)) [
    | inl e ↦ rw e (
        let rest =
          scan-Knows n (k + 1) (read_word run (get_or ws k 0)) words
            (Knows-next words old ((==_iff value 0).0 e)) in
        (rest.0, λ h. omega (arith, rest.1 h)))
    | inr e ↦ rw e (old, λ h. ground arith)
  ]

  -- The scan starts with the word of `index`, its lower bits cut off.
  scan_from-Knows :
      (count : ℕ)
      → IsWords ws
      → let s = scan_from run ws index count in
        Knows run ws index s × (s.value ≡ 0 → index + count ≤ 64 * s.next)
  unfolding scan_from
  scan_from-Knows count words =
      let rest =
        scan-Knows ((offset index + count + 63) / 64 - 1) (word index + 1) first words start in
      (rest.0, λ h. omega (arith, rest.1 h))
    where
      w : ℕ
      w = read_word run (get_or ws (word index) 0)

      first : ℕ
      first = shl64 (shr w (offset index)) (offset index)

      bit_first : (b : ℕ) → b < 64 → bit first b ≡ (if ltb b (offset index) then 0 else bit w b)
      bit_first b h = ground (
        arith,
        bit-mod (shr w (offset index) * 2 ^ offset index) 64 b,
        bit-shl (shr w (offset index)) (offset index) b,
        bit-shr w (offset index) (b - offset index),
        ap (bit w) {x = offset index + (b - offset index)} {y = b},
      )

      start : Knows run ws index (record { next = word index + 1; value = first })
      start = record {
        started = omega arith;
        within = omega arith;
        before = λ i p q. absurd (omega arith);
        last = λ b h. ground (
          arith,
          bit_first b h,
          seen_at run ws (word index) b h,
          ap (λ m. seen run ws (64 * m + b)) {x = word index + 1 - 1} {y = word index},
        );
      }

-- `test` reads the bit that the loops see.
test-seen :
    (cpu : BitInstructions) (run : Bool) (b : Bitmap) (i : ℕ)
    → IsWords b.words
    → test cpu b i ≡ (if seen run b.words i == 0 then run else not run)
unfolding test read_word
test-seen cpu true b i words = ground (
  arith,
  cpu.bt-eq-bit b.words i,
  bit-not64 (get_or b.words (i / 64) 0) (i % 64),
  words (i / 64),
  bit-lt (get_or b.words (i / 64) 0) (i % 64),
)
test-seen cpu false b i words = ground (arith, cpu.bt-eq-bit b.words i)

-- What a measured run of length `n` from `index` is.
pub record IsRun (cpu : BitInstructions) (run : Bool) (b : Bitmap) (index count n : ℕ)
    : Type 0 where
  pub fits : index + n ≤ b.size_in_bits
  pub same : (i : ℕ) → index ≤ i → i < index + n → test cpu b i ≡ run
  pub ends :
      (min count (b.size_in_bits - index) ≤ n)
      ⊎ ((index + n < b.size_in_bits) × (test cpu b (index + n) ≡ not run))

module _ (cpu : BitInstructions) (run : Bool) (b : Bitmap) (words : IsWords b.words) where
  -- Where the scan's word has a set digit, its lowest one is the first end of the run.
  scan_end :
      {index : ℕ} {s : Scan}
      → Knows run b.words index s
      → s.value ≢ 0
      → let stop = 64 * (s.next - 1) + cpu.bsf s.value in
        (index ≤ stop)
        × (seen run b.words stop ≡ 1)
        × ((i : ℕ) → index ≤ i → i < stop → seen run b.words i ≡ 0)
  scan_end {index} {s} k found = (
    ground (arith, k.last (cpu.bsf s.value), small, lowest),
    ground (arith, k.last (cpu.bsf s.value), small, lowest),
    λ i p q.
        none_seen run b.words index k (cpu.bsf s.value) (omega (arith, small))
          (λ j h. cpu.bsf_below s.value j found k.within h) i p q,
  )
    where
      small : cpu.bsf s.value < 64
      small = cpu.bsf-lt s.value found k.within

      lowest : bit s.value (cpu.bsf s.value) ≡ 1
      lowest = cpu.bsf_set s.value found k.within

  -- From a position inside the bitmap, `get_length_of_set` or `get_length_of_clear` measures a run
  -- inside the bitmap whose bits all agree, and that is as long as asked for, or ends at the
  -- bitmap's end or at a bit of the other kind.
  pub get_length_of-IsRun :
      (index count : ℕ)
      → index < b.size_in_bits
      → IsRun cpu run b index count (get_length_of cpu run b index count)
  unfolding get_length_of
  get_length_of-IsRun index count inside = elim (Bool-cases (s.value == 0)) [
    | inl e ↦ record {
      fits = ground arith;
      same = λ i p q. ground (
        arith,
        test-seen cpu run b i words,
        none_seen run b.words index k 64 (omega arith)
            (λ j h. rw ((==_iff s.value 0).0 e) (bit_zero j)) i p,
        knows.1,
        k.started,
      );
      ends = inl (ground arith);
    }
    | inr e ↦
        let found = scan_end k (λ h. cc (e, (==_iff s.value 0).1 h)) in
        record {
          fits = ground (arith, found.0, k.started);
          same =
              λ i p q. ground (arith, found.0, k.started, test-seen cpu run b i words, found.2 i p);
          ends = elim (dec_lt stop b.size_in_bits) [
            | yes h ↦ inr (
              ground (arith, found.0, k.started),
              ground (
                arith,
                found.0,
                found.1,
                k.started,
                test-seen cpu run b stop words,
                ap (test cpu b) {x = index + (s.next * 64 - index + cpu.bsf s.value - 64)}
                    {y = stop},
              ),
            )
            | no h ↦ inl (ground (arith, found.0, k.started))
          ];
        }
  ]
    where
      s : Scan
      s = scan_from run b.words index (min count (b.size_in_bits - index))

      knows :
          Knows run b.words index s
          × (s.value ≡ 0 → index + min count (b.size_in_bits - index) ≤ 64 * s.next)
      knows = scan_from-Knows run b.words index (min count (b.size_in_bits - index)) words

      k : Knows run b.words index s
      k = knows.0

      stop : ℕ
      stop = 64 * (s.next - 1) + cpu.bsf s.value
