-- ===== src/Recorder/Hist.antt =====
-- The drain loop of HistThread::run in src/app/HistThread.hpp. The samples that are handed to
-- hdr_record_value are kept as a list, oldest first.
pub mod Stream
use abtrda.Prelude.{
  ℕ, ◌+◌, Bool, true, false, Option, none, some, List, [], ◌∷◌, ◌++◌, ◌==◌, if◌then◌else◌, u64,
}
use abtrda.Recorder.Queue.{Spsc, end_sentinel}

pub record Hist : Type 0 where
  pub running : Bool
  pub samples : List ℕ
  pub recorded : ℕ
  pub dropped : ℕ

abbrev pub hist_start : Hist
hist_start = record { running = true; samples = []; recorded = 0; dropped = 0 }

-- A decoder is optional, and may reject a word.
unfoldable pub decoded : Option (ℕ → Option ℕ) → ℕ → Option ℕ
decoded none cyc = some cyc
decoded (some decode) cyc = decode cyc

unfoldable pub take_sample : Option ℕ → Hist → Hist
take_sample none h = record h { dropped = u64 (h.dropped + 1) }
take_sample (some sample) h = record h {
  samples = h.samples ++ (sample ∷ []);
  recorded = u64 (h.recorded + 1);
}

-- The word at the front of the queue.
unfoldable pub hist_word : Option (ℕ → Option ℕ) → ℕ → Hist → Hist
unfolding decoded take_sample
hist_word decode cyc h =
    if cyc == end_sentinel then record h { running = false } else take_sample (decoded decode cyc) h

module _ {Q : Type 0} (Spsc : Spsc Q) where
  unfoldable pub drain : Option ℕ → Option (ℕ → Option ℕ) → Bool → Q → Hist → Hist × Q
  unfolding hist_word
  drain none decode stop q h = ((if stop then record h { running = false } else h), q)
  drain (some cyc) decode stop q h = (hist_word decode cyc h, Spsc.pop q)

  -- One turn of the loop; `stop` is the answer of stop_requested.
  unfoldable pub hist_step : Option (ℕ → Option ℕ) → Bool → Q → Hist → Hist × Q
  unfolding drain
  hist_step decode stop q h = if h.running then drain (Spsc.front q) decode stop q h else (h, q)
