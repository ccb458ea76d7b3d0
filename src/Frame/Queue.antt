-- ===== src/Frame/Queue.antt =====
-- The bounded queue of the crossbeam-queue crate that holds the free indices, by what its
-- documentation promises: first in, first out; a push fails exactly if the queue is full.
use tierbuf.Prelude.{
  ℕ, ◌≤◌, ◌<◌, ◌≡◌, refl, Bool, true, false, Option, none, some, List, [], ◌∷◌, ◌++◌, length, arith,
  ltb, if◌then◌else◌,
}

pub record ArrayQueue : Type 1 where
  pub Queue : Type 0
  pub new : ℕ → Queue
  pub push : ℕ → Queue → Queue × Bool
  pub pop : Queue → Queue × Option ℕ
  pub len : Queue → ℕ
  pub capacity : Queue → ℕ
  -- Front first.
  pub contents : Queue → List ℕ
  pub contents-new : (cap : ℕ) → contents (new cap) ≡ []
  pub capacity-new : (cap : ℕ) → capacity (new cap) ≡ cap
  pub push-room :
      (x : ℕ) (q : Queue)
      → length (contents q) < capacity q
      → ((push x q).1 ≡ true)
        × (contents (push x q).0 ≡ contents q ++ x ∷ [])
        × (capacity (push x q).0 ≡ capacity q)
  pub push-full : (x : ℕ) (q : Queue) → capacity q ≤ length (contents q) → push x q ≡ (q, false)
  pub pop-empty : (q : Queue) → contents q ≡ [] → pop q ≡ (q, none)
  pub pop-cons :
      (q : Queue) (x : ℕ) (xs : List ℕ)
      → contents q ≡ x ∷ xs
      → ((pop q).1 ≡ some x) × (contents (pop q).0 ≡ xs) × (capacity (pop q).0 ≡ capacity q)
  pub len-contents : (q : Queue) → len q ≡ length (contents q)

-- A list with its capacity meets the promises.
pub record Bounded : Type 0 where
  pub items : List ℕ
  pub bound : ℕ

unfoldable pub bounded_push : ℕ → Bounded → Bounded × Bool
bounded_push x q =
    if ltb (length q.items) q.bound
    then (record { items = q.items ++ x ∷ []; bound = q.bound }, true)
    else (q, false)

bounded_pop_from : List ℕ → Bounded → Bounded × Option ℕ
bounded_pop_from [] q = (q, none)
bounded_pop_from (x ∷ xs) q = (record { items = xs; bound = q.bound }, some x)

unfoldable pub bounded_pop : Bounded → Bounded × Option ℕ
unfolding bounded_pop_from
bounded_pop q = bounded_pop_from q.items q

pub bounded_push-room :
    (x : ℕ) (q : Bounded)
    → length q.items < q.bound
    → ((bounded_push x q).1 ≡ true)
      × ((bounded_push x q).0.items ≡ q.items ++ x ∷ [])
      × ((bounded_push x q).0.bound ≡ q.bound)
unfolding bounded_push
bounded_push-room x q h = ground arith

pub bounded_push-full :
    (x : ℕ) (q : Bounded) → q.bound ≤ length q.items → bounded_push x q ≡ (q, false)
unfolding bounded_push
bounded_push-full x q h = ground arith

pub bounded_pop-empty : (q : Bounded) → q.items ≡ [] → bounded_pop q ≡ (q, none)
unfolding bounded_pop
bounded_pop-empty q h = ground arith

pub bounded_pop-cons :
    (q : Bounded) (x : ℕ) (xs : List ℕ)
    → q.items ≡ x ∷ xs
    → ((bounded_pop q).1 ≡ some x)
      × ((bounded_pop q).0.items ≡ xs)
      × ((bounded_pop q).0.bound ≡ q.bound)
unfolding bounded_pop
bounded_pop-cons q x xs h = ground arith

unfoldable pub list_queue : ArrayQueue
unfolding bounded_push bounded_pop
list_queue = record {
  Queue = Bounded;
  new = λ cap. record { items = []; bound = cap };
  push = bounded_push;
  pop = bounded_pop;
  len = λ q. length q.items;
  capacity = λ q. q.bound;
  contents = λ q. q.items;
  contents-new = λ cap. refl;
  capacity-new = λ cap. refl;
  push-room = bounded_push-room;
  push-full = bounded_push-full;
  pop-empty = bounded_pop-empty;
  pop-cons = bounded_pop-cons;
  len-contents = λ q. refl;
}
