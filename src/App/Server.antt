-- ===== src/App/Server.antt =====
-- run_server of src/app/Server.hpp: the bytes of a request that follow the ethernet header are copied into a
-- slot of the transmit ring, which has the reply's header already. Slots, frames and stamps of the
-- hardware are arguments.
use Prim.Native.Nat.{bit_or}
use abtrda.Prelude.{
  ℕ, ◌+◌, ◌*◌, ◌^◌, Bool, Option, none, some, List, [], ◌∷◌, ◌++◌, ltb, leb, ◌==◌, if◌then◌else◌,
  length, u64, ◌>>=◌,
}
use abtrda.Bytes.{slice, memcpy}
use abtrda.Recorder.Queue.{Spsc}
use abtrda.Recorder.Rx.{warmup_discard}

pub record Server (Q : Type 0) : Type 0 where
  pub packet_count : ℕ
  pub hw_warmup : ℕ
  pub rx_in_flight : ℕ
  pub tx_seq_in_flight : ℕ
  pub push_failures : ℕ
  pub to_hist : Q

-- What a turn of the inner loop meets: no frame, with the transmit stamp polled; or a frame, with the slots
-- that are asked for in turn (each with the stop flag as it is before the next try), the number of the next
-- transmit frame and the frame's hardware stamp.
pub data ServerTurn : Type 0 where
  idle : Option (ℕ × ℕ) → ServerTurn
  request :
      (frame : List ℕ) (slots : List (Option (List ℕ) × Bool)) (tx_sequence rx_stamp : ℕ)
      → ServerTurn

-- What comes of a turn: the loop goes on, or the server is stopping.
pub data Served (Q : Type 0) : Type 0 where
  serves : Option (List ℕ) → Server Q → Served Q
  stopping : Server Q → Served Q

-- The bytes 14 to 25 of the request in the slot; `none` is a load or a store outside them.
unfoldable pub reflect : List ℕ → List ℕ → Option (List ℕ)
reflect slot f = if leb 26 (length f) then memcpy 14 (slice 14 12 f) slot else none

-- The first slot given, `none` inside when the server is told to stop before that, and outside when the tries
-- that are given run out.
unfoldable pub wait_slot : List (Option (List ℕ) × Bool) → Option (Option (List ℕ))
wait_slot [] = none
wait_slot ((some slot, stop) ∷ rest) = some (some slot)
wait_slot ((none, stop) ∷ rest) = let later = wait_slot rest in if stop then some none else later

module _ {Q : Type 0} (Spsc : Spsc Q) where
  unfoldable pub push_turnaround : Option Q → Server Q → Server Q
  push_turnaround (some q) s = record s { to_hist = q }
  push_turnaround none s = record s { push_failures = u64 (s.push_failures + 1) }

  -- A stamp of the reply in flight closes its sample; others are ignored.
  unfoldable pub on_stamp : Option (ℕ × ℕ) → Server Q → Server Q
  unfolding push_turnaround
  on_stamp none s = s
  on_stamp (some (seq, minor)) s =
      if seq == s.tx_seq_in_flight
      then (if ltb s.hw_warmup warmup_discard
          then record s { hw_warmup = s.hw_warmup + 1 }
          else push_turnaround (Spsc.try_push (bit_or (s.rx_in_flight * 2 ^ 32) minor) s.to_hist) s)
      else s

  -- With hardware stamps, the number of the reply and the stamp of the request are kept.
  unfoldable pub reply : Bool → ℕ → ℕ → Server Q → Server Q
  reply hw_ts tx_sequence rx_stamp s = record s {
    packet_count = u64 (s.packet_count + 1);
    tx_seq_in_flight = (if hw_ts then tx_sequence else s.tx_seq_in_flight);
    rx_in_flight = (if hw_ts then rx_stamp else s.rx_in_flight);
  }

  unfoldable pub reply_in : Bool → List ℕ → ℕ → ℕ → Option (List ℕ) → Server Q → Option (Served Q)
  unfolding reflect reply
  reply_in hw_ts f tx_sequence rx_stamp none s = some (stopping s)
  reply_in hw_ts f tx_sequence rx_stamp (some slot) s = do
    out ← reflect slot f
    some (serves (some out) (reply hw_ts tx_sequence rx_stamp s))

  -- One turn; `none` is a load outside the frame, a store outside the slot, or a wait that never ends.
  unfoldable pub serve : Bool → ServerTurn → Server Q → Option (Served Q)
  unfolding on_stamp wait_slot reply_in
  serve hw_ts (idle stamp) s = some (serves none (if hw_ts then on_stamp stamp s else s))
  serve hw_ts (request f slots tx_sequence rx_stamp) s =
      wait_slot slots >>= λ got. reply_in hw_ts f tx_sequence rx_stamp got s

  -- The replies of a run of turns, oldest first, up to its stop, and the server after it.
  unfoldable pub server_loop :
      Bool → List ServerTurn → List (List ℕ) → Server Q → Option (List (List ℕ) × Server Q)
  unfolding serve
  server_loop hw_ts [] out s = some (out, s)
  server_loop hw_ts (t ∷ ts) out s = serve hw_ts t s >>= λ r. elim r [
    | serves none u ↦ server_loop hw_ts ts out u
    | serves (some f) u ↦ server_loop hw_ts ts (out ++ (f ∷ [])) u
    | stopping u ↦ some (out, u)
  ]
