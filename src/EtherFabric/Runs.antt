-- ===== src/EtherFabric/Runs.antt =====
-- The theorems on the event queue, the transmit and the receive calls at concrete ports: a receiver of eight
-- buffers and a sender of four, of 128 bytes.
use Prim.Native.Nat.{◌∣◌, bit_and}
use native.Mathlib.Nat.{dvd-mul_right}
use abtrda.Prelude.{
  ℕ, ◌+◌, ◌*◌, ◌^◌, ◌≤◌, ◌≡◌, refl, true, false, Option, none, some, List, [], ◌∷◌, ◌++◌, arith,
  set, replicate,
}
use abtrda.Bytes.{le_bytes, overlay, memcpy}
use abtrda.EtherFabric.Events.{
  EfConfig, EfEvent, EfTx, EfRx, EfState, drain, push_eights, poll_more, poll_event, rx_event,
  tx_event, rx_discard, tx_error,
}
use abtrda.EtherFabric.StampQueue.{StampOp, run_stamps, run_queue, stamps_one, fails, polls}
use abtrda.EtherFabric.StampRun.{run_stamps-run_queue}
use abtrda.EtherFabric.Accounting.{at_hand, Words, AllCounted, poll_event-AllCounted}
use abtrda.EtherFabric.Ctpio.{ctpio_header, tx_lines, tx_descriptor, probe_len}
use abtrda.EtherFabric.Send.{
  EfPort, EfSender, Answer, tx_slot_offset, in_flight, take_tx_slot, poll_tx, acquire_lib,
  ef_acquire, commit_lib, ef_commit, ef_send, took, try_again,
}
use abtrda.EtherFabric.Receive.{marker_seen, ef_try_receive, give_back, ef_release}
use abtrda.EtherFabric.Window.{SendReach, SendReach-window, fresh, sends}
use abtrda.EtherFabric.Tuned.{ef_send-x2522}
use abtrda.EtherFabric.Cycle.{RxReach, Round, RxReach-Round, rx_fresh, finds, idles, releases}

four_divides : 4 ∣ 2 ^ 32
four_divides = dvd-mul_right 4 (2 ^ 30)

eight_divides : 8 ∣ 2 ^ 32
eight_divides = dvd-mul_right 8 (2 ^ 29)

abbrev tuned_config : EfConfig
tuned_config = record {
  has_rx = true;
  has_tx = true;
  payload_poll = true;
  use_ctpio = true;
  hw_timestamps = true;
  x2522 = true;
  nb_rx_bufs = 8;
  nb_tx_bufs = 4;
}

abbrev lib_config : EfConfig
lib_config = record tuned_config { x2522 = false }

abbrev fresh_tx : EfTx
fresh_tx = record {
  stamps = record { tx_stamp = 0 ∷ 0 ∷ 0 ∷ 0 ∷ []; tx_tail = 0; ts_cursor = 0; ts_overflow = 0 };
  ctpio_wins = 0;
  ctpio_fallbacks = 0;
  fallback_per_slot = 0 ∷ 0 ∷ 0 ∷ 0 ∷ [];
  tx_errors = 0;
  tx_ts_events = 0;
}

abbrev fresh_rx : EfRx
fresh_rx = record {
  held_id = 0;
  rx_next_idx = 0;
  rx_pending_push = 0;
  rx_released = 0;
  rx_reposted = 0;
  rx_poll_hits = 0;
  rx_ev_reconciled = 0;
  rx_discards = 0;
  rx_crc_bad = 0;
  rx_dropped = 0;
  rx_ts_raw = 0;
  receive_inits = [];
  receive_pushes = 0;
}

abbrev fresh_state : EfState
fresh_state = record { tx = fresh_tx; rx = fresh_rx; ev_unexpected = 0; events = [] }

-- Two stamped frames, one that failed, and four polls.
abbrev stamp_ops : List StampOp
stamp_ops =
    stamps_one 1000 0 true
    ∷ polls
    ∷ stamps_one 2000 32768 false
    ∷ fails
    ∷ polls
    ∷ polls
    ∷ polls
    ∷ []

run_stamps-run_queue_example : run_stamps tuned_config stamp_ops fresh_tx ≡ run_queue stamp_ops 0 []
run_stamps-run_queue_example =
    run_stamps-run_queue tuned_config refl (omega arith) (omega arith) four_divides stamp_ops
      fresh_tx [] (refl, omega arith, omega arith, refl)
      (omega arith, (omega arith, (omega arith, tt)))

-- A completion, a received frame, a frame with a bad checksum, and an error in the next batch.
abbrev busy_state : EfState
busy_state = record fresh_state {
  events = tx_event (0 ∷ []) true ∷ rx_event 0 64 ∷ rx_discard 1 true ∷ [];
}

fresh-Words : Words fresh_state
fresh-Words = (omega arith, omega arith, omega arith, omega arith, omega arith)

poll_event-AllCounted_example :
    let p = poll_event lib_config 14 false (some (tx_error ∷ [])) busy_state in
    (p.0 ≡ none)
    × (p.1.events ≡ [])
    × AllCounted lib_config refl (at_hand (some (tx_error ∷ [])) busy_state) busy_state p.1
poll_event-AllCounted_example =
    poll_event-AllCounted lib_config refl 14 false (some (tx_error ∷ [])) busy_state
      (omega arith, omega arith, omega arith, omega arith, omega arith)

-- Two slots whose descriptors the library writes as expected.
abbrev probes : List (ℕ × Option ℕ)
probes =
    (2 ^ 48 * 9 + 4096, some (tx_descriptor (9 * 2 ^ 44 + 4096) probe_len))
    ∷ (2 ^ 48 * 9 + 4224, some (tx_descriptor (9 * 2 ^ 44 + 4224) probe_len))
    ∷ []

abbrev lib_port : EfPort
lib_port = record {
  config = lib_config;
  tx_base = 9;
  buf_size = 128;
  tx_dma = 1152 ∷ 1280 ∷ 1408 ∷ 1536 ∷ [];
  tx_desc_base = 0 ∷ 0 ∷ 0 ∷ 0 ∷ [];
  txq_mask = 3;
  ct_threshold = 64;
}

abbrev fresh_sender : EfSender
fresh_sender = record {
  state = fresh_state;
  tx_head = 0;
  tx_slot = 0;
  tx_len = 0;
  tx_ptr = 0;
  tx_slot_base = 0;
  aperture = [];
  txq_added = 0;
  txq_descriptors = 0 ∷ 0 ∷ 0 ∷ 0 ∷ [];
  txq_ids = 0 ∷ 0 ∷ 0 ∷ 0 ∷ [];
  pushed = none;
  taken = [];
}

-- The library is busy once, then takes the frame.
abbrev turns2 : List (Answer × Option (List EfEvent))
turns2 = (try_again, none) ∷ (took, none) ∷ []

one_sent :
    SendReach lib_port
      (record (poll_tx lib_port none (ef_acquire lib_port none 60 fresh_sender).1) {
        taken = (1152, (60, 0)) ∷ [];
        tx_head = 1;
      })
unfolding ef_acquire acquire_lib take_tx_slot poll_tx poll_event drain poll_more push_eights
    ef_commit commit_lib
one_sent =
    sends none 60 1152 turns2 [] fresh_sender _ (fresh fresh_sender fresh-Words refl) (omega arith)
      refl (omega arith, tt) refl

SendReach-window_example :
    in_flight (record (poll_tx lib_port none (ef_acquire lib_port none 60 fresh_sender).1) {
      taken = (1152, (60, 0)) ∷ [];
      tx_head = 1;
    })
    ≤ lib_port.config.nb_tx_bufs
SendReach-window_example =
    SendReach-window lib_port refl refl (omega arith) (omega arith) _ one_sent

abbrev tuned_port : EfPort
tuned_port = record lib_port { config = tuned_config; tx_base = 0 }

abbrev frame60 : List ℕ
frame60 = replicate 60 7

ef_send-x2522_example :
    (m : List ℕ) × (t : EfSender) × (pad : List ℕ) × (ef_send tuned_port none [] frame60
        (replicate 512 0, fresh_sender)
      ≡ some (true, (m, t)))
    × (t.aperture ≡ le_bytes 4 (ctpio_header 64 60) ++ (frame60 ++ pad))
    × (t.tx_slot ≡ 0)
    × (t.tx_head ≡ 1)
    × (t.pushed ≡ some (tx_descriptor 0 60, bit_and 1 3))
    × (t.txq_descriptors ≡ set (0 ∷ 0 ∷ 0 ∷ 0 ∷ []) (bit_and 0 3) (tx_descriptor 0 60))
unfolding tx_lines
ef_send-x2522_example =
    ef_send-x2522 tuned_port none [] frame60 (replicate 512 0) fresh_sender refl (omega arith)
      (omega arith) room
  where
    room : tx_slot_offset tuned_port 0 + tx_lines 60 * 64 ≤ 512
    room = omega arith

-- A frame is found, released, and its buffer given back when the next look finds nothing.
abbrev stamp77 : ℕ → ℕ
stamp77 i = 77

abbrev found_state : EfState
found_state = (ef_try_receive tuned_config 14 128 (λ i. 8) stamp77 none fresh_state).1

abbrev given_state : EfState
given_state =
    (ef_try_receive tuned_config 14 128 (λ i. 0) stamp77 none
      (record found_state { rx = give_back tuned_config found_state.rx })).1

one_round : RxReach tuned_config given_state false 1 1 1
unfolding marker_seen ef_try_receive ef_release memcpy overlay
one_round =
    idles 14 128 (λ i. 0) stamp77 none _ 1 1 0
      (releases 14 128 (replicate 128 0) (replicate 128 0) _ found_state 1 0 0
        (finds 14 128 (λ i. 8) stamp77 none fresh_state 0 0 0
          (rx_fresh fresh_state fresh-Words refl refl refl refl) (omega arith) refl)
        refl)
      refl

RxReach-Round_example :
    Round tuned_config refl refl (omega arith) (omega arith) eight_divides false given_state 1 1 1
RxReach-Round_example =
    RxReach-Round tuned_config refl refl (omega arith) (omega arith) eight_divides given_state false
      1 1 1 one_round
