-- ===== src/AntiReplay.antt =====
-- The sequence gate of src/app/SingleRecorder.hpp (struct AntiReplay).
pub mod Accounting
mod Tests
use abtrda.Prelude.{ℕ, zero, suc, ◌+◌, Bool, true, false, u64, sub32, ℤ, int32, pos, negsuc}

pub record AntiReplay : Type 0 where
  pub last : ℕ
  pub have : Bool

-- The gate before its first frame.
abbrev pub fresh : AntiReplay
fresh = record { last = 0; have = false }

-- What `accept` answers and leaves: the verdict, the gate, and the two counters it is handed.
pub record Verdict : Type 0 where
  pub accepted : Bool
  pub gate : AntiReplay
  pub lost : ℕ
  pub dropped : ℕ

-- `diff` is the signed distance; a positive one is `suc gap`.
unfoldable pub accept_diff : ℤ → AntiReplay → ℕ → ℕ → ℕ → Verdict
accept_diff (pos (suc gap)) g seq lost dropped = record {
  accepted = true;
  gate = record g { last = seq };
  lost = u64 (lost + gap);
  dropped = dropped;
}
accept_diff (pos zero) g seq lost dropped = record {
  accepted = false;
  gate = g;
  lost = lost;
  dropped = u64 (dropped + 1);
}
accept_diff (negsuc n) g seq lost dropped = record {
  accepted = false;
  gate = g;
  lost = lost;
  dropped = u64 (dropped + 1);
}

unfoldable pub accept_from : Bool → AntiReplay → ℕ → ℕ → ℕ → Verdict
unfolding accept_diff
accept_from false g seq lost dropped = record {
  accepted = true;
  gate = record { last = seq; have = true };
  lost = lost;
  dropped = dropped;
}
accept_from true g seq lost dropped = accept_diff (int32 (sub32 seq g.last)) g seq lost dropped

unfoldable pub accept : AntiReplay → ℕ → ℕ → ℕ → Verdict
unfolding accept_from
accept g seq lost dropped = accept_from g.have g seq lost dropped
