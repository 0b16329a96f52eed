-- ===== src/Guest/Skip.antt =====
-- Reading with `ignore_errors` from an address that is not mapped. Such an address stands for the
-- physical address 0, whose offset in the page is 0, so a whole page is skipped from wherever it lies.
use hvpp.Prelude.{
  ℕ, zero, suc, ◌+◌, ◌-◌, ◌≤◌, ◌≡◌, refl, ap, ◌∙◌, true, false, some, ◌%◌, ◌==◌, arith, add64,
}
use hvpp.Paging.{Pml}
use hvpp.Paging.Align.{byte_offset-eq}
use hvpp.Guest.{
  Guest, no_pte, memset, page_frame_number, bytes_to_copy, va_to_pa, move, translator_loop,
  read_write,
}
use hvpp.Guest.Walk.{is_plain, va_to_pa-translate}
use hvpp.Guest.Translator.{translation}

whole_page : (size : ℕ) → size ≤ 4096 → bytes_to_copy 0 size ≡ size
unfolding bytes_to_copy
whole_page size h = ground (arith, byte_offset-eq 0 Pml.pt)

module _ (window : ℕ) (reserved : window % 4096 ≡ 0) where
  loop_end :
      (fuel : ℕ) (s : Guest) (v cr3 pos : ℕ)
      → translator_loop window fuel s v cr3 pos 0 false true ≡ some (s, 0)
  unfolding translator_loop
  loop_end zero s v cr3 pos = refl
  loop_end (suc fuel) s v cr3 pos = refl

  -- While the reserved page is unmapped: a read of 1 to 4096 bytes that ignores errors, from an address
  -- whose walk meets plain large pages only and whose translation is 0, fills the buffer with zeros and
  -- reports no error, whether or not the addresses after the first one are mapped.
  pub read_ignoring_errors :
      (s : Guest) (v cr3 pos size : ℕ)
      → size ≤ 4095
      → s.pte ≡ no_pte
      → is_plain 3 s.memory (page_frame_number cr3) v ≡ true
      → translation s.memory cr3 v ≡ 0
      → read_write window s v cr3 pos (suc size) false true
        ≡ some (record s { buffer = memset s.buffer pos (suc size) }, 0)
  unfolding read_write move translator_loop
  read_ignoring_errors s v cr3 pos size h e plain absent =
      let more : (suc size == 0) ≡ false = ground arith in
      let walked : va_to_pa window s v cr3 ≡ some (s, 0) =
        va_to_pa-translate window reserved s e v cr3 plain ∙ ap (λ a. some (s, a)) absent in
      rw (more, translator_loop)
        (rw walked (
          rw (whole_page (suc size) (omega arith)) (
            ap
              (λ n.
                translator_loop window size (record s { buffer = memset s.buffer pos (suc size) })
                  (add64 v (suc size)) cr3 (pos + suc size) n false true)
              {x = suc size - suc size} {y = 0} (omega arith)
            ∙ loop_end size (record s { buffer = memset s.buffer pos (suc size) })
                (add64 v (suc size)) cr3 (pos + suc size))))
