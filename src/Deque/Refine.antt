-- ===== src/Deque/Refine.antt =====
-- The operations of a queue against the list of its items.
use hvpp.Prelude.{
  ℕ, zero, suc, ◌+◌, ◌-◌, ◌%◌, ◌^◌, ◌≤◌, ◌<◌, ◌≡◌, refl, sym, ap, ◌∙◌, arith, ◌==◌, if◌then◌else◌,
  List, [], ◌∷◌, ◌++◌, get_or, set, length, length-set, add64,
}
use hvpp.Deque.{Deque, push_front, push_back, pop_front, pop_back, front, back, size}
use hvpp.Deque.Contents.{
  items, contents, IsValid, items_behind, items_before, items_take, items_drop,
}

small : (n : ℕ) → n < 2 ^ 64 → n % 2 ^ 64 ≡ n
small n h = omega arith

next : (n : ℕ) → n < 2 ^ 62 → add64 n 1 ≡ suc n
next n h = omega arith

module _ {ℓ} {A : Type ℓ} (capacity : ℕ) (junk : A) where
  valid :
      (q : List A) (f c : ℕ)
      → length q ≡ capacity
      → f < capacity
      → c ≤ capacity
      → capacity < 2 ^ 62
      → IsValid capacity junk (record { queue = q; first = f; count = c })
  valid q f c e h l s = record { length_queue = e; first_inside = h; count_fits = l; small = s }

  -- `push_back` on a queue that is not full puts the item behind the others.
  pub push_back_lem :
      (d : Deque A) (item : A)
      → IsValid capacity junk d
      → d.count < capacity
      → IsValid capacity junk (push_back capacity junk d item)
        × (contents capacity junk (push_back capacity junk d item)
            ≡ contents capacity junk d ++ (item ∷ []))
  unfolding push_back
  push_back_lem d item v h =
      rw (small (d.first + d.count) (omega arith), next (d.count) (omega arith))
        (
          valid (set d.queue ((d.first + d.count) % capacity) item) d.first (suc d.count)
              (length-set d.queue ((d.first + d.count) % capacity) item ∙ v.length_queue)
              v.first_inside (omega arith) v.small,
          items_behind capacity junk d.queue d.first d.count item v.length_queue v.first_inside h,
        )

  -- `push_front` on a queue that is not full puts the item before the others.
  pub push_front_lem :
      (d : Deque A) (item : A)
      → IsValid capacity junk d
      → d.count < capacity
      → IsValid capacity junk (push_front capacity junk d item)
        × (contents capacity junk (push_front capacity junk d item)
            ≡ item ∷ contents capacity junk d)
  unfolding push_front
  push_front_lem d item v h =
      let p = if d.first == 0 then capacity - 1 else d.first - 1 in
      rw (next (d.count) (omega arith)) (
        valid (set d.queue p item) p (suc d.count) (length-set d.queue p item ∙ v.length_queue)
            (ground arith) (omega arith) v.small,
        items_before capacity junk d.queue p d.first d.count item v.length_queue (ground arith) h
            (ground arith),
      )

  -- On a queue with items, `front` is the first of them and `pop_front` leaves the others.
  pub front-pop_front :
      (d : Deque A)
      → IsValid capacity junk d
      → 0 < d.count
      → IsValid capacity junk (pop_front capacity junk d)
        × (contents capacity junk d
            ≡ front capacity junk d ∷ contents capacity junk (pop_front capacity junk d))
  unfolding pop_front front
  front-pop_front d v h = (
    valid d.queue _ _ v.length_queue (ground arith) (omega arith) v.small,
    items_take capacity junk d.queue d.first d.count _ _ v.first_inside v.count_fits (omega arith)
        (ground arith),
  )

  -- On a queue with items, `back` is the last of them and `pop_back` leaves the others.
  back-pop_back :
      (d : Deque A)
      → IsValid capacity junk d
      → 0 < d.count
      → IsValid capacity junk (pop_back capacity junk d)
        × (contents capacity junk d
            ≡ contents capacity junk (pop_back capacity junk d) ++ (back capacity junk d ∷ []))
  unfolding pop_back back
  back-pop_back d v h = (
    valid d.queue _ _ v.length_queue (ground arith) (omega arith) v.small,
    items_drop capacity junk d.queue d.first d.count _ _ (omega arith) (ground arith)
        ∙ ap
            (λ p.
              contents capacity junk (pop_back capacity junk d)
              ++ (get_or d.queue (p % capacity) junk ∷ []))
            (omega arith),
  )

  length-items : (q : List A) (f n : ℕ) → length (items capacity junk q f n) ≡ n
  length-items q f zero = refl
  length-items q f (suc n) = ap suc (length-items q (suc f) n)

  pub size-contents : (d : Deque A) → size capacity junk d ≡ length (contents capacity junk d)
  unfolding size
  size-contents d = sym (length-items d.queue d.first d.count)
