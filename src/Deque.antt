-- ===== src/Deque.antt =====
-- `fixed_dequeue` of src/hvpp/hvpp/lib/deque.h: a double-ended queue in an array of `Size` items.
-- `hvpp_assert` does nothing, as with HVPP_DISABLE_ASSERT.
pub mod Contents
pub mod Refine
use hvpp.Prelude.{ℕ, ◌+◌, ◌-◌, ◌%◌, ◌^◌, ◌||◌, List, ◌==◌, if◌then◌else◌, get_or, set, add64, sub64}

pub record Deque {ℓ} (A : Type ℓ) : Type ℓ where
  pub queue : List A
  pub first : ℕ
  pub count : ℕ

-- `Size` is at least 1. `junk` stands for what a read out of the array finds.
module _ {ℓ} {A : Type ℓ} (capacity : ℕ) (junk : A) where
  pub push_front : Deque A → A → Deque A
  push_front d item =
      let first = if d.first == 0 then capacity - 1 else d.first - 1 in
      record { queue = set d.queue first item; first = first; count = add64 d.count 1 }

  pub push_back : Deque A → A → Deque A
  push_back d item = record d {
    queue = set d.queue (add64 d.first d.count % capacity) item;
    count = add64 d.count 1;
  }

  pub pop_front : Deque A → Deque A
  pop_front d =
      let first = add64 d.first 1 in
      let count = sub64 d.count 1 in
      record d { first = if count == 0 || first == capacity then 0 else first; count = count }

  pub pop_back : Deque A → Deque A
  pop_back d =
      let count = sub64 d.count 1 in
      record d { first = if count == 0 then 0 else d.first; count = count }

  pub front : Deque A → A
  front d = get_or d.queue d.first junk

  pub back : Deque A → A
  back d = get_or d.queue (sub64 (add64 d.first d.count) 1 % capacity) junk

  pub size : Deque A → ℕ
  size d = d.count
