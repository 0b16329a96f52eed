-- ===== src/Guest/Copy.antt =====
-- Pieces of `memcpy` that follow each other are one copy.
use mathlib.Core.Path.{fun_ext}
use hvpp.Prelude.{ℕ, ◌+◌, ◌-◌, ◌≡◌, ap, Bool, true, false, arith}
use hvpp.Guest.{Guest, memcpy, transfer}

pub memcpy_add :
    (target source : ℕ → ℕ) (d o n k : ℕ)
    → memcpy (memcpy target d source o n) (d + n) source (o + n) k
      ≡ memcpy target d source o (n + k)
memcpy_add target source d o n k =
    fun_ext (λ i. ground (arith, ap source {x = o + n + (i - (d + n))} {y = o + (i - d)}))

pub memcpy_zero : (target source : ℕ → ℕ) (d o : ℕ) → memcpy target d source o 0 ≡ target
memcpy_zero target source d o = fun_ext (λ i. ground arith)

pub transfer_add :
    (s : Guest) (pa pos n k : ℕ) (write : Bool)
    → transfer (transfer s pa pos n write) (pa + n) (pos + n) k write
      ≡ transfer s pa pos (n + k) write
transfer_add s pa pos n k true =
    ap (λ m. record s { memory = m }) (memcpy_add s.memory s.buffer pa pos n k)
transfer_add s pa pos n k false =
    ap (λ m. record s { buffer = m }) (memcpy_add s.buffer s.memory pos pa n k)

pub transfer_zero : (s : Guest) (pa pos : ℕ) (write : Bool) → transfer s pa pos 0 write ≡ s
transfer_zero s pa pos true =
    ap (λ m. record s { memory = m }) (memcpy_zero s.memory s.buffer pa pos)
transfer_zero s pa pos false =
    ap (λ m. record s { buffer = m }) (memcpy_zero s.buffer s.memory pos pa)
