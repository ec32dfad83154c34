-- ===== src/Recorder/Rx.antt =====
-- RxThread of src/app/SingleRecorder.hpp: one poll of the receive loop with the sequence gate, the
-- warmup and the push, and the end marker after the loop.
pub mod Accounting
pub mod Grace
use abtrda.Prelude.{
  ℕ, ◌+◌, ◌^◌, Bool, true, false, Option, none, some, List, [], ◌∷◌, leb, ◌==◌, if◌then◌else◌, u32,
  u64, sub64, ◌>>=◌,
}
use abtrda.Bytes.{slice}
use abtrda.Frame.{Parsed, parse_frame, runt, foreign, stamped}
use abtrda.AntiReplay.{AntiReplay, fresh, Verdict, accept}
use abtrda.Recorder.Queue.{Spsc, end_sentinel}

abbrev pub warmup_discard : ℕ
warmup_discard = 500000

abbrev pub grace_empty_polls : ℕ
grace_empty_polls = 2 ^ 20

-- In the loop, after it while the end marker is pushed, and returned.
pub data Phase : Type 0 where
  polling : Phase
  ending : Phase
  finished : Phase

-- The locals of the thread, and the part of the shared surface that it writes.
pub record Rx (Q : Type 0) : Type 0 where
  pub phase : Phase
  pub gate : AntiReplay
  pub recorded : ℕ
  pub lost : ℕ
  pub dropped : ℕ
  pub grace_empty : ℕ
  pub warmup_seen : ℕ
  pub push_failures : ℕ
  pub to_hist : Q

-- What a poll meets: an empty ring with the sender's flag, or a frame with its arrival time.
pub data Poll : Type 0 where
  empty : Bool → Poll
  arrived : ℕ → List ℕ → Poll

module _ {Q : Type 0} where
  unfoldable pub start : Q → Rx Q
  start q = record {
    phase = polling;
    gate = fresh;
    recorded = 0;
    lost = 0;
    dropped = 0;
    grace_empty = 0;
    warmup_seen = 0;
    push_failures = 0;
    to_hist = q;
  }

  -- The counter advances by one frame, and the other three are reset when it reaches its end.
  unfoldable pub warm : Rx Q → Rx Q
  warm s =
      if s.warmup_seen + 1 == warmup_discard
      then record s { warmup_seen = s.warmup_seen + 1; lost = 0; dropped = 0; push_failures = 0 }
      else record s { warmup_seen = s.warmup_seen + 1 }

  unfoldable pub in_warmup : Rx Q → Bool × Rx Q
  unfolding warm
  in_warmup s = if leb warmup_discard s.warmup_seen then (false, s) else (true, warm s)

  unfoldable pub pushed : Option Q → Rx Q → Rx Q
  pushed (some q) s = record s { to_hist = q; recorded = u64 (s.recorded + 1) }
  pushed none s = record s {
    push_failures = u64 (s.push_failures + 1);
    recorded = u64 (s.recorded + 1);
  }

  unfoldable pub grace : Bool → Rx Q → Rx Q
  grace false s = s
  grace true s =
      if leb grace_empty_polls (u32 (s.grace_empty + 1))
      then record s { grace_empty = u32 (s.grace_empty + 1); phase = ending }
      else record s { grace_empty = u32 (s.grace_empty + 1) }

  unfoldable pub ended : Option Q → Rx Q → Rx Q
  ended (some q) s = record s { to_hist = q; phase = finished }
  ended none s = s

module _ {Q : Type 0} (Spsc : Spsc Q) where
  unfoldable pub deliver : Bool × Rx Q → ℕ → Rx Q
  unfolding pushed
  deliver (true, s) latency = s
  deliver (false, s) latency = pushed (Spsc.try_push latency s.to_hist) s

  -- What follows the gate, whose counters are in the verdict.
  unfoldable pub judged : Verdict → ℕ → Rx Q → Rx Q
  unfolding deliver in_warmup
  judged v latency s =
      let t = record s { gate = v.gate; lost = v.lost; dropped = v.dropped } in
      if v.accepted then deliver (in_warmup t) latency else t

  unfoldable pub on_frame : ℕ → Parsed → Rx Q → Rx Q
  unfolding judged
  on_frame t1 runt s = record s { grace_empty = 0 }
  on_frame t1 foreign s = record s { grace_empty = 0 }
  on_frame t1 (stamped seq t0) s =
      judged (accept s.gate seq s.lost s.dropped) (sub64 t1 t0) (record s { grace_empty = 0 })

  -- One turn of the loop, with the header words that are expected; `none` is a load outside the
  -- frame.
  unfoldable pub poll_once : ℕ × ℕ → Poll → Rx Q → Option (Rx Q)
  unfolding on_frame grace
  poll_once w (empty tx_done) s = some (grace tx_done s)
  poll_once w (arrived t1 f) s = do p ← parse_frame w f; some (on_frame t1 p s)

  unfoldable pub rx_step_in : Phase → ℕ × ℕ → Poll → Rx Q → Option (Rx Q)
  unfolding poll_once ended
  rx_step_in polling w p s = poll_once w p s
  rx_step_in ending w p s = some (ended (Spsc.try_push end_sentinel s.to_hist) s)
  rx_step_in finished w p s = some s

  unfoldable pub rx_step : ℕ × ℕ → Poll → Rx Q → Option (Rx Q)
  unfolding rx_step_in
  rx_step w p s = rx_step_in s.phase w p s

  unfoldable pub rx_run : ℕ × ℕ → List Poll → Rx Q → Option (Rx Q)
  unfolding rx_step
  rx_run w [] s = some s
  rx_run w (p ∷ ps) s = rx_step w p s >>= rx_run w ps
