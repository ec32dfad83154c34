-- ===== src/Recorder/Queue.antt =====
-- The single-producer single-consumer queue that src/app/HistThread.hpp shares between threads
-- (rigtorp::SPSCQueue): an interface, with the laws its documentation states.
use abtrda.Prelude.{ℕ, ◌-◌, ◌^◌, ◌≡◌, Option, some, List, [], ◌∷◌, ◌++◌, get_elem?, drop}

pub record Spsc (Q : Type 0) : Type 0 where
  pub contents : Q → List ℕ
  -- `none` when the queue is full.
  pub try_push : ℕ → Q → Option Q
  -- `none` when the queue is empty.
  pub front : Q → Option ℕ
  pub pop : Q → Q
  -- The queue is first in, first out.
  pub contents-try_push :
      (x : ℕ) (q q' : Q) → try_push x q ≡ some q' → contents q' ≡ contents q ++ (x ∷ [])
  pub contents-front : (q : Q) → front q ≡ get_elem? (contents q) 0
  pub contents-pop : (q : Q) → contents (pop q) ≡ drop 1 (contents q)

-- The word that ends the stream: all ones.
abbrev pub end_sentinel : ℕ
end_sentinel = 2 ^ 64 - 1
