-- ===== src/App/Client.antt =====
-- run_client of src/app/Client.hpp: a frame is sent, and the client spins for the echo with its number, until a
-- timeout. The clock, whether the run is over, the slots (prefilled as Frame.header_template says), the
-- frames that arrive and the stamps of the hardware are arguments. The pacing of Recorder.Pacing, the
-- histogram thread and the end marker that is pushed for it are left out.
use Prim.Native.Nat.{bit_or}
use abtrda.Prelude.{
  ℕ, ◌+◌, ◌*◌, ◌%◌, ◌^◌, Bool, true, false, not, ◌&&◌, ◌||◌, Option, none, some, List, [], ◌∷◌,
  ◌++◌, ltb, leb, ◌==◌, if◌then◌else◌, length, u32, u64, sub64, ◌>>=◌,
}
use abtrda.Bytes.{slice, store_u, load_u, swap32}
use abtrda.Frame.{off_dst_mac, off_seq, frame_min_bytes}
use abtrda.Recorder.Queue.{Spsc}
use abtrda.Recorder.Rx.{warmup_discard}

-- The part of the configuration that the loop reads, whether the hardware stamps frames (kHwTs), and the
-- time limits in cycles.
pub record ClientConfig : Type 0 where
  pub frame_size : ℕ
  pub client_mac : List ℕ
  pub hw_ts : Bool
  pub timeout_cyc : ℕ

pub record Client (Q : Type 0) : Type 0 where
  pub seq : ℕ
  pub sent : ℕ
  pub recorded : ℕ
  pub timeouts : ℕ
  pub warmup : ℕ
  pub hw_tx_missing : ℕ
  pub push_failures : ℕ
  pub to_hist : Q

-- A frame that arrives: its time, its bytes, its hardware stamp, and the transmit stamps (number and stamp)
-- that are polled after it.
pub record Arrival : Type 0 where
  pub t2 : ℕ
  pub bytes : List ℕ
  pub rx_stamp : ℕ
  pub tx_stamps : List (ℕ × ℕ)

-- A turn of the spin loop: what arrives, and the stop flag and the clock as they are at its end.
pub record Spin : Type 0 where
  pub arrival : Option Arrival
  pub stop : Bool
  pub now : ℕ

unfoldable pub bytes_eq : List ℕ → List ℕ → Bool
bytes_eq [] [] = true
bytes_eq (x ∷ xs) (y ∷ ys) = x == y && bytes_eq xs ys
bytes_eq xs ys = false

-- The frame has the client's address and the number that was sent.
unfoldable pub is_echo : List ℕ → ℕ → List ℕ → Option Bool
unfolding bytes_eq
is_echo mac seq_net f =
    if leb frame_min_bytes (length f) && bytes_eq (slice off_dst_mac 6 f) mac
    then (do rx_seq ← load_u 4 off_seq f; some (rx_seq == seq_net))
    else some false

-- The stamps of earlier frames are passed over; `none` when they run out.
unfoldable pub find_stamp : ℕ → List (ℕ × ℕ) → Option ℕ
find_stamp tx_seq [] = none
find_stamp tx_seq ((seq, minor) ∷ rest) =
    let later = find_stamp tx_seq rest in if seq == tx_seq then some minor else later

-- Whether what arrives is the echo; `none` is a load outside the frame.
unfoldable pub matches : ClientConfig → ℕ → Option Arrival → Option Bool
unfolding is_echo
matches c seq none = some false
matches c seq (some a) = is_echo c.client_mac (swap32 seq) a.bytes

-- The clock and the flag are looked at on every 2048th turn.
abbrev pub gives_up : ClientConfig → ℕ → ℕ → Spin → Bool
gives_up c t1 spins p = u32 spins % 2 ^ 11 == 0 && (p.stop || leb c.timeout_cyc (sub64 p.now t1))

module _ {Q : Type 0} (Spsc : Spsc Q) where
  unfoldable pub push_sample : Option Q → Client Q → Client Q
  push_sample (some q) s = record s { to_hist = q; recorded = u64 (s.recorded + 1) }
  push_sample none s = record s {
    push_failures = u64 (s.push_failures + 1);
    recorded = u64 (s.recorded + 1);
  }

  unfoldable pub hw_sample : ℕ → Option ℕ → Client Q → Client Q
  unfolding push_sample
  hw_sample rx_stamp none s = record s { hw_tx_missing = u64 (s.hw_tx_missing + 1) }
  hw_sample rx_stamp (some minor) s =
      push_sample (Spsc.try_push (bit_or (rx_stamp * 2 ^ 32) minor) s.to_hist) s

  -- A closed round trip: discarded in the warmup, and then recorded.
  unfoldable pub on_echo : ClientConfig → ℕ → ℕ → Arrival → Client Q → Client Q
  unfolding find_stamp hw_sample
  on_echo c t1 tx_seq a s =
      if ltb s.warmup warmup_discard
      then record s { warmup = s.warmup + 1 }
      else (if c.hw_ts
          then hw_sample a.rx_stamp (find_stamp tx_seq a.tx_stamps) s
          else push_sample (Spsc.try_push (sub64 a.t2 t1) s.to_hist) s)

  unfoldable pub received_by_spin : ClientConfig → ℕ → ℕ → Option Arrival → Client Q → Client Q
  unfolding on_echo
  received_by_spin c t1 tx_seq none s = s
  received_by_spin c t1 tx_seq (some a) s = on_echo c t1 tx_seq a s

  -- The spin loop, `spins` turns of it done; `none` when the turns that are given run out.
  unfoldable pub spin_wait :
      ClientConfig → ℕ → ℕ → ℕ → List Spin → Client Q → Option (Bool × Client Q)
  unfolding matches received_by_spin
  spin_wait c t1 tx_seq spins [] s = none
  spin_wait c t1 tx_seq spins (p ∷ ps) s =
      let later = spin_wait c t1 tx_seq (spins + 1) ps s in
      matches c s.seq p.arrival >>= λ echo.
      if echo
      then some (true, received_by_spin c t1 tx_seq p.arrival s)
      else (if gives_up c t1 (spins + 1) p then some (false, s) else later)

  unfoldable pub end_exchange : Bool × Client Q → Client Q
  end_exchange (received, s) = record s {
    timeouts =
        (if not received && leb warmup_discard s.warmup then u64 (s.timeouts + 1) else s.timeouts);
    seq = u32 (s.seq + 1);
  }

  -- A turn of the loop that finds a slot: the frame goes out with its number, and the echo is awaited.
  unfoldable pub exchange :
      ClientConfig → List ℕ → ℕ → ℕ → List Spin → Client Q → Option (List ℕ × Client Q)
  unfolding spin_wait end_exchange
  exchange c slot t1 tx_seq ps s = do
    f ← store_u 4 off_seq (swap32 s.seq) slot
    r ← spin_wait c t1 tx_seq 0 ps (record s { sent = u64 (s.sent + 1) })
    some (f, end_exchange r)

-- A turn of the client's loop: the end of the run, a full ring, or a slot with the time of sending, the number
-- that the ring gives the frame, and the turns of the wait.
pub data ClientTurn : Type 0 where
  ends : ClientTurn
  no_slot : ClientTurn
  sends_in : (slot : List ℕ) (t1 tx_seq : ℕ) (spins : List Spin) → ClientTurn

module _ {Q : Type 0} (Spsc : Spsc Q) where
  -- The frames sent, oldest first, and the client after the run.
  unfoldable pub client_loop :
      ClientConfig → List ClientTurn → List (List ℕ) → Client Q → Option (List (List ℕ) × Client Q)
  unfolding exchange
  client_loop c [] out s = some (out, s)
  client_loop c (ends ∷ ts) out s = some (out, s)
  client_loop c (no_slot ∷ ts) out s = client_loop c ts out s
  client_loop c (sends_in slot t1 tx_seq ps ∷ ts) out s =
      exchange Spsc c slot t1 tx_seq ps s >>= λ r. client_loop c ts (out ++ (r.0 ∷ [])) r.1

  -- A frame size that is too small sends nothing.
  unfoldable pub run_client : ClientConfig → List ClientTurn → Q → Option (List (List ℕ) × Client Q)
  unfolding client_loop
  run_client c ts q =
      let s : Client Q = record {
        seq = 0;
        sent = 0;
        recorded = 0;
        timeouts = 0;
        warmup = 0;
        hw_tx_missing = 0;
        push_failures = 0;
        to_hist = q;
      } in
      let run = client_loop c ts [] s in
      if ltb c.frame_size frame_min_bytes then some ([], s) else run
