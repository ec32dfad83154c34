-- ===== src/AntiReplay/Accounting.antt =====
-- What the gate promises: it follows the sender's unbounded counter through the 32-bit wrap, and
-- its two counters account for every frame.
use abtrda.Prelude.{
  ℕ, ◌+◌, ◌-◌, ◌^◌, ◌≤◌, ◌<◌, ◌≡◌, refl, ap, ◌∙◌, true, false, List, [], ◌∷◌, arith, ltb,
  if◌then◌else◌, length, u32, u64,
}
use abtrda.AntiReplay.{AntiReplay, fresh, Verdict, accept}

-- The gate once it has accepted the frame that the sender counted as number `hi`.
abbrev pub at_frame : ℕ → AntiReplay
at_frame hi = record { last = u32 hi; have = true }

-- What a gate with an unbounded counter would answer.
abbrev pub ideal : ℕ → ℕ → ℕ → ℕ → Verdict
ideal hi n lost dropped =
    if ltb hi n
    then record {
      accepted = true;
      gate = at_frame n;
      lost = u64 (lost + (n - hi - 1));
      dropped = dropped;
    }
    else record { accepted = false; gate = at_frame hi; lost = lost; dropped = u64 (dropped + 1) }

-- As long as a frame is less than 2^31 ahead of the last accepted one and at most 2^31 behind it,
-- the gate on 32-bit sequence numbers answers as one on the sender's unbounded counter would,
-- whether or not the 32-bit number has wrapped in between.
pub accept-ideal :
    (hi n lost dropped : ℕ)
    → n < hi + 2 ^ 31
    → hi ≤ n + 2 ^ 31
    → accept (at_frame hi) (u32 n) lost dropped ≡ ideal hi n lost dropped
unfolding accept
accept-ideal hi n lost dropped ahead behind = ground arith

-- The gate after a stream of frames, with the number that it has let through.
pub record Tally : Type 0 where
  pub gate : AntiReplay
  pub accepted : ℕ
  pub lost : ℕ
  pub dropped : ℕ

abbrev pub count : Tally → Verdict → Tally
count t v = record {
  gate = v.gate;
  accepted = if v.accepted then t.accepted + 1 else t.accepted;
  lost = v.lost;
  dropped = v.dropped;
}

-- Frames given by the sender's unbounded counter, of which the wire carries 32 bits.
pub offer : Tally → List ℕ → Tally
offer t [] = t
offer t (n ∷ ns) = offer (count t (accept t.gate (u32 n) t.lost t.dropped)) ns

abbrev pub newest : ℕ → ℕ → ℕ
newest hi n = if ltb hi n then n else hi

unfoldable pub highest : ℕ → List ℕ → ℕ
highest hi [] = hi
highest hi (n ∷ ns) = highest (newest hi n) ns

-- Each frame is near the newest one before it.
abbrev pub InWindow : ℕ → List ℕ → Type 0
InWindow hi [] = Unit {0}
InWindow hi (n ∷ ns) = (n < hi + 2 ^ 31) × (hi ≤ n + 2 ^ 31) × InWindow (newest hi n) ns

highest-le : (hi : ℕ) (ns : List ℕ) → hi ≤ highest hi ns
unfolding highest
highest-le hi [] = omega arith
highest-le hi (n ∷ ns) = ground (arith, highest-le (newest hi n) ns)

-- The two equations of a stream that starts behind frame `hi`.
pub record Balanced (hi : ℕ) (ns : List ℕ) (t u : Tally) : Type 0 where
  pub follows : u.gate ≡ at_frame (highest hi ns)
  pub spans : u.accepted + u.lost + hi ≡ t.accepted + t.lost + highest hi ns
  pub counts : u.accepted + u.dropped ≡ t.accepted + t.dropped + length ns

offer_step :
    (hi n : ℕ) (t : Tally)
    → t.gate ≡ at_frame hi
    → n < hi + 2 ^ 31
    → hi ≤ n + 2 ^ 31
    → count t (accept t.gate (u32 n) t.lost t.dropped) ≡ count t (ideal hi n t.lost t.dropped)
offer_step hi n t g ahead behind = ap (count t) (
    ap (λ h. accept h (u32 n) t.lost t.dropped) g ∙ accept-ideal hi n t.lost t.dropped ahead behind)

-- From a gate that stands at frame `hi`.
offer-Balanced :
    (hi : ℕ) (ns : List ℕ) (t : Tally)
    → t.gate ≡ at_frame hi
    → InWindow hi ns
    → t.lost + highest hi ns < 2 ^ 64 + hi
    → t.dropped + length ns < 2 ^ 64
    → Balanced hi ns t (offer t ns)
unfolding offer highest
offer-Balanced hi [] t g w l d = ground arith
offer-Balanced hi (n ∷ ns) t g w l d = rw (offer_step hi n t g w.0 w.1) (
    ground (
      arith,
      highest-le (newest hi n) ns,
      offer-Balanced (newest hi n) ns (count t (ideal hi n t.lost t.dropped)) (ground arith) w.2,
    ))

abbrev pub untouched : Tally
untouched = record { gate = fresh; accepted = 0; lost = 0; dropped = 0 }

-- A fresh gate that is offered frame `first` and then the frames `ns`, each at most 2^31 behind and
-- less than 2^31 ahead of the newest one before it, ends at the newest frame of all. The frames it let
-- through and those it reports lost make up the whole span from `first` to the newest frame; those
-- let through and those it dropped make up all that arrived. (The 64-bit counters do not overflow
-- as long as the span and the number of frames stay below 2^64.)
pub offer_accounts :
    (first : ℕ) (ns : List ℕ)
    → InWindow first ns
    → highest first ns < 2 ^ 64 + first
    → length ns < 2 ^ 64
    → let t = offer untouched (first ∷ ns) in
      (t.gate ≡ at_frame (highest first ns))
      × (t.accepted + t.lost ≡ highest first ns - first + 1)
      × (t.accepted + t.dropped ≡ length ns + 1)
unfolding offer accept
offer_accounts first ns w span n = ground (
  arith,
  highest-le first ns,
  offer-Balanced first ns (record { gate = at_frame first; accepted = 1; lost = 0; dropped = 0 })
      refl w,
)
