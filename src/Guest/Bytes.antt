-- ===== src/Guest/Bytes.antt =====
-- The reference for a transfer to or from virtual memory: one byte at a time, through a translation that
-- gives 0 where it ends.
use hvpp.Prelude.{
  ℕ, zero, suc, ◌+◌, ◌^◌, ◌≤◌, ◌<◌, ◌≡◌, refl, ap, sym, ◌∙◌, Bool, true, false, ◌==◌, arith, add64,
}
use hvpp.Ept.Shape.{Bool-All}
use hvpp.Guest.{Guest, transfer}
use hvpp.Guest.Copy.{transfer_add, transfer_zero}

unfoldable pub bytes : ℕ → Guest → (ℕ → ℕ) → ℕ → ℕ → Bool → Guest × ℕ
bytes zero s phys v pos write = (s, 0)
bytes (suc n) s phys v pos write = elim (phys v == 0) [
  | true ↦ (s, v)
  | false ↦ bytes n (transfer s (phys v) pos 1 write) phys (add64 v 1) (pos + 1) write
]

pub bytes-stop :
    (n : ℕ) (s : Guest) (phys : ℕ → ℕ) (v pos : ℕ) (write : Bool)
    → phys v ≡ 0
    → bytes (suc n) s phys v pos write ≡ (s, v)
unfolding bytes
bytes-stop n s phys v pos write h = rw (h, bytes) refl

pub bytes-step :
    (n : ℕ) (s : Guest) (phys : ℕ → ℕ) (v a pos : ℕ) (write : Bool)
    → phys v ≡ a
    → 0 < a
    → bytes (suc n) s phys v pos write
      ≡ bytes n (transfer s a pos 1 write) phys (add64 v 1) (pos + 1) write
unfolding bytes
bytes-step n s phys v a pos write h p =
    let differs : (phys v == 0) ≡ false = rw h (ground arith) in
    rw (differs, bytes)
      (ap (λ x. bytes n (transfer s x pos 1 write) phys (add64 v 1) (pos + 1) write) h)

-- Bytes whose physical addresses follow each other go in one piece.
pub bytes-run :
    (n k size : ℕ) (s : Guest) (phys : ℕ → ℕ) (v a pos : ℕ) (write : Bool)
    → n + k ≡ size
    → ((j : ℕ) → j < n → phys (v + j) ≡ a + j)
    → 0 < a
    → v < 2 ^ 64
    → v + n ≤ 2 ^ 64
    → bytes size s phys v pos write
      ≡ bytes k (transfer s a pos n write) phys (add64 v n) (pos + n) write
bytes-run zero k size s phys v a pos write e h p v_lt b =
    ap (λ t. bytes t s phys v pos write) {x = size} {y = k} (omega arith)
    ∙ ap (λ x. bytes k x phys v pos write) (sym (transfer_zero s a pos write))
    ∙ ap (λ u. bytes k (transfer s a pos 0 write) phys u pos write) {x = v} {y = add64 v 0}
        (omega arith)
    ∙ ap (λ u. bytes k (transfer s a pos 0 write) phys (add64 v 0) u write) {x = pos} {y = pos + 0}
        (omega arith)
bytes-run (suc n) k zero s phys v a pos write e h p v_lt b = absurd (omega arith)
bytes-run (suc n) k (suc size) s phys v a pos write e h p v_lt b =
    bytes-step size s phys v a pos write
      (ap phys {x = v} {y = v + 0} (omega arith) ∙ h 0 (omega arith) ∙ (omega arith)) p
    ∙ bytes-run n k size (transfer s a pos 1 write) phys (add64 v 1) (a + 1) (pos + 1) write
        (omega arith)
        (λ j l.
          ap phys {x = add64 v 1 + j} {y = v + suc j} (omega arith)
          ∙ h (suc j) (omega arith)
          ∙ (omega arith))
        (omega arith) (omega arith) (omega arith)
    ∙ ap (λ x. bytes k x phys (add64 (add64 v 1) n) (pos + 1 + n) write)
        (transfer_add s a pos 1 n write)
    ∙ ap (λ q. bytes k (transfer s a pos q write) phys (add64 (add64 v 1) n) (pos + 1 + n) write)
        {x = 1 + n} {y = suc n} (omega arith)
    ∙ ap (λ u. bytes k (transfer s a pos (suc n) write) phys u (pos + 1 + n) write)
        {x = add64 (add64 v 1) n} {y = add64 v (suc n)} (omega arith)
    ∙ ap (λ u. bytes k (transfer s a pos (suc n) write) phys (add64 v (suc n)) u write)
        {x = pos + 1 + n} {y = pos + suc n} (omega arith)

-- Reading leaves the memory as it was.
pub bytes-memory :
    (n : ℕ) (s : Guest) (phys : ℕ → ℕ) (v pos : ℕ)
    → (bytes n s phys v pos false).0.memory ≡ s.memory
unfolding bytes
bytes-memory zero s phys v pos = refl
bytes-memory (suc n) s phys v pos =
    Bool-All
      (λ c.
        (elim c as (λ _. Guest × ℕ) [
          | true ↦ (s, v)
          | false ↦ bytes n (transfer s (phys v) pos 1 false) phys (add64 v 1) (pos + 1) false
        ]).0.memory
        ≡ s.memory)
      (phys v == 0) (λ c. refl)
      (λ c. bytes-memory n (transfer s (phys v) pos 1 false) phys (add64 v 1) (pos + 1))
