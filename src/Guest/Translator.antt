-- ===== src/Guest/Translator.antt =====
-- Reading and writing virtual memory against the reference that moves one byte at a time.
use hvpp.Prelude.{
  ℕ, zero, suc, ◌+◌, ◌-◌, ◌%◌, ◌^◌, ◌≤◌, ◌<◌, ◌≡◌, refl, ap, sym, ◌∙◌, inl, inr, Bool, true, false,
  some, ◌==◌, arith, add64, Bool-cases,
}
use mathlib.Core.Path.{subst}
use hvpp.Guest.{
  Guest, no_pte, transfer, page_frame_number, bytes_to_copy, va_to_pa, move, translator_loop,
  read_write,
}
use hvpp.Guest.Mapper.{mapper_read_write_lem, bytes_to_copy_cases, transfer-pte}
use hvpp.Guest.Walk.{translate, is_plain, or_zero, va_to_pa-translate}
use hvpp.Guest.Page.{page_lem}
use hvpp.Guest.Bytes.{bytes, bytes-run, bytes-stop, bytes-memory}

-- What the page tables of `cr3` make of an address, 0 where they end.
abbrev pub translation : (ℕ → ℕ) → ℕ → ℕ → ℕ
translation m cr3 v = or_zero (translate 3 m (page_frame_number cr3) v)

-- All large pages are plain, and the translation is `phys`.
pub record IsTranslation (m : ℕ → ℕ) (cr3 : ℕ) (phys : ℕ → ℕ) : Type 0 where
  pub plain : (v : ℕ) → is_plain 3 m (page_frame_number cr3) v ≡ true
  pub maps : (v : ℕ) → translation m cr3 v ≡ phys v

module _ (window : ℕ) (reserved : window % 4096 ≡ 0) where
  round-stop :
      (fuel : ℕ) (s : Guest) (v cr3 pos size : ℕ) (write : Bool)
      → va_to_pa window s v cr3 ≡ some (s, 0)
      → translator_loop window (suc fuel) s v cr3 pos (suc size) write false ≡ some (s, v)
  unfolding move translator_loop
  round-stop fuel s v cr3 pos size write h =
      let more : (suc size == 0) ≡ false = ground arith in rw (more, translator_loop) (rw h refl)

  round-move :
      (fuel : ℕ) (s : Guest) (v cr3 a pos size : ℕ) (write : Bool)
      → va_to_pa window s v cr3 ≡ some (s, a)
      → 0 < a
      → a < 2 ^ 48
      → s.pte ≡ no_pte
      → translator_loop window (suc fuel) s v cr3 pos (suc size) write false
        ≡ translator_loop window fuel
            (transfer s a pos (bytes_to_copy a (suc size)) write)
            (add64 v (bytes_to_copy a (suc size)))
            cr3
            (pos + bytes_to_copy a (suc size))
            (suc size - bytes_to_copy a (suc size))
            write
            false
  unfolding move translator_loop
  round-move fuel s v cr3 a pos size write h p a_lt e =
      let more : (suc size == 0) ≡ false = ground arith in
      let mapped : (a == 0) ≡ false = ground arith in
      let copied =
        mapper_read_write_lem window reserved s a pos (bytes_to_copy a (suc size)) write
          (omega (arith, bytes_to_copy_cases a (suc size))) e in
      rw (more, translator_loop) (rw h (rw mapped (rw copied refl)))

  -- The loop on fuel, over any translation that the written bytes keep.
  loop-bytes :
      (fuel : ℕ) (s : Guest) (v cr3 pos size : ℕ) (write : Bool) (phys : ℕ → ℕ)
      → size ≤ fuel
      → v < 2 ^ 64
      → v + size ≤ 2 ^ 64
      → s.pte ≡ no_pte
      → ((k : ℕ) → k ≤ size → IsTranslation (bytes k s phys v pos write).0.memory cr3 phys)
      → translator_loop window fuel s v cr3 pos size write false
        ≡ some (bytes size s phys v pos write)
  unfolding translator_loop bytes
  loop-bytes zero s v cr3 pos zero write phys f v_lt b e stable = refl
  loop-bytes (suc fuel) s v cr3 pos zero write phys f v_lt b e stable = refl
  loop-bytes zero s v cr3 pos (suc size) write phys f v_lt b e stable = absurd (omega arith)
  loop-bytes (suc fuel) s v cr3 pos (suc size) write phys f v_lt b e stable =
      elim (Bool-cases (phys v == 0)) [
        | inl h ↦
            let stop : phys v ≡ 0 = ground (arith, h) in
            round-stop fuel s v cr3 pos size write (walked ∙ ap (λ a. some (s, a)) stop)
            ∙ ap some (sym (bytes-stop size s phys v pos write stop))
        | inr h ↦
            let p : 0 < phys v = ground (arith, h) in
            let r = run p in
            round-move fuel s v cr3 (phys v) pos size write walked p r.0 e
            ∙ loop-bytes fuel (transfer s (phys v) pos n write) (add64 v n) cr3 (pos + n)
                (suc size - n) write phys (omega (arith, pieces.0, pieces.2 (omega arith)))
                (omega arith) (omega (arith, pieces.0, pieces.2 (omega arith)))
                (transfer-pte s (phys v) pos n write ∙ e)
                (λ k l.
                  subst (λ x. IsTranslation x.0.memory cr3 phys)
                    (bytes-run n k (n + k) s phys v (phys v) pos write refl r.1 p v_lt
                      (omega (arith, pieces.0, pieces.2 (omega arith))))
                    (stable (n + k) (omega (arith, pieces.0, pieces.2 (omega arith)))))
            ∙ ap some (
                sym (
                  bytes-run n (suc size - n) (suc size) s phys v (phys v) pos write
                    (omega (arith, pieces.0, pieces.2 (omega arith))) r.1 p v_lt
                    (omega (arith, pieces.0, pieces.2 (omega arith)))))
      ]
    where
      now : IsTranslation s.memory cr3 phys
      now = stable 0 (omega arith)

      here : translation s.memory cr3 v ≡ phys v
      here = now.maps v

      walked : va_to_pa window s v cr3 ≡ some (s, phys v)
      walked =
          va_to_pa-translate window reserved s e v cr3 (now.plain v) ∙ ap (λ a. some (s, a)) here

      n : ℕ
      n = bytes_to_copy (phys v) (suc size)

      pieces : (n ≤ suc size) × (n ≤ 4096 - phys v % 4096) × (0 < suc size → 0 < n)
      pieces = bytes_to_copy_cases (phys v) (suc size)

      run : 0 < phys v → (phys v < 2 ^ 48) × ((j : ℕ) → j < n → phys (v + j) ≡ phys v + j)
      run p = elim (page_lem s.memory (page_frame_number cr3) v) [
        | inl z ↦ absurd (omega (arith, here, z, p))
        | inr (same, low, next) ↦ (
          omega (arith, here, low),
          λ j l.
              sym (now.maps (v + j))
              ∙ next j (omega (arith, pieces.1, here, same))
              ∙ ap (λ a. a + j) here,
        )
      ]

  -- A read that reports errors, while the reserved page is unmapped and all large pages are plain, and
  -- for a range of addresses that does not wrap: it ends, and does what reading byte by byte does. It
  -- stops at the first address whose translation is 0 and returns it, with the bytes before it in the
  -- buffer, and else returns 0; the memory stays as it was.
  pub read_lem :
      (s : Guest) (v cr3 pos size : ℕ)
      → v < 2 ^ 64
      → v + size ≤ 2 ^ 64
      → s.pte ≡ no_pte
      → ((u : ℕ) → is_plain 3 s.memory (page_frame_number cr3) u ≡ true)
      → (read_write window s v cr3 pos size false false
          ≡ some (bytes size s (translation s.memory cr3) v pos false))
        × ((bytes size s (translation s.memory cr3) v pos false).0.memory ≡ s.memory)
  unfolding read_write
  read_lem s v cr3 pos size v_lt b e plain = (
    loop-bytes size s v cr3 pos size false (translation s.memory cr3) (omega arith) v_lt b e (λ k l.
        subst (λ m. IsTranslation m cr3 (translation s.memory cr3))
          (sym (bytes-memory k s (translation s.memory cr3) v pos))
          record { plain = plain; maps = λ u. refl }),
    bytes-memory size s (translation s.memory cr3) v pos,
  )

  -- A write that reports errors does what writing byte by byte does, up to the first address whose
  -- translation is 0, which it returns. The reserved page is unmapped, the range of addresses does not
  -- wrap, and no part of the write changes the translation or makes a large page that is not plain.
  pub write_lem :
      (s : Guest) (v cr3 pos size : ℕ) (phys : ℕ → ℕ)
      → v < 2 ^ 64
      → v + size ≤ 2 ^ 64
      → s.pte ≡ no_pte
      → ((k : ℕ) → k ≤ size → IsTranslation (bytes k s phys v pos true).0.memory cr3 phys)
      → read_write window s v cr3 pos size true false ≡ some (bytes size s phys v pos true)
  unfolding read_write
  write_lem s v cr3 pos size phys v_lt b e stable =
      loop-bytes size s v cr3 pos size true phys (omega arith) v_lt b e stable
