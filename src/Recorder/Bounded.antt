-- ===== src/Recorder/Bounded.antt =====
-- A queue of four words, as an instance of the interface of rigtorp::SPSCQueue.
use abtrda.Prelude.{
  ℕ, ◌≡◌, refl, Option, none, some, List, [], ◌∷◌, ◌++◌, arith, ltb, if◌then◌else◌, length,
  get_elem?, drop,
}
use abtrda.Recorder.Queue.{Spsc}

unfoldable pub try_push4 : ℕ → List ℕ → Option (List ℕ)
try_push4 x q = if ltb (length q) 4 then some (q ++ (x ∷ [])) else none

pub contents-try_push4 : (x : ℕ) (q q' : List ℕ) → try_push4 x q ≡ some q' → q' ≡ q ++ (x ∷ [])
unfolding try_push4
contents-try_push4 x q q' h = ground arith

abbrev pub four : Spsc (List ℕ)
four = record {
  contents = λ q. q;
  try_push = try_push4;
  front = λ q. get_elem? q 0;
  pop = drop 1;
  contents-try_push = contents-try_push4;
  contents-front = λ q. refl;
  contents-pop = λ q. refl;
}
