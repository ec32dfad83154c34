-- ===== src/EtherFabric/Events.antt =====
-- The event queue of src/backends/EtherFabricVirtualInterface/EtherFabricVirtualInterface.hpp: pollEvent with
-- every event it handles, and handleDiscard. The events are those that the library's poll answers, each
-- with what the library's accessors and unbundling functions read from it. Buffers that are given
-- back to the library are logged in the state, in order.
use Prim.Native.Nat.{bit_or}
use abtrda.Prelude.{
  ℕ, ◌+◌, ◌*◌, ◌/◌, ◌%◌, ◌^◌, Bool, false, ◌&&◌, Option, none, some, List, [], ◌∷◌, ◌++◌, leb,
  if◌then◌else◌, length, set, get_or, u16, u32, u64,
}
use abtrda.EtherFabric.{tx_stamp_none, StampRing}

-- The template parameters, and the constant kEfViRxPayloadPoll.
pub record EfConfig : Type 0 where
  pub has_rx : Bool
  pub has_tx : Bool
  pub payload_poll : Bool
  pub use_ctpio : Bool
  pub hw_timestamps : Bool
  pub x2522 : Bool
  pub nb_rx_bufs : ℕ
  pub nb_tx_bufs : ℕ

pub data EfEvent : Type 0 where
  rx_event : (rq_id bytes : ℕ) → EfEvent
  tx_event : (ids : List ℕ) (ctpio : Bool) → EfEvent
  tx_stamped : (rq_id nsec nsec_frac16 : ℕ) (ctpio : Bool) → EfEvent
  rx_discard : (rq_id : ℕ) (crc_bad : Bool) → EfEvent
  rx_multi : (ids : List ℕ) (bytes : ℕ) → EfEvent
  rx_multi_discard : (ids : List ℕ) → EfEvent
  tx_error : EfEvent
  other_event : EfEvent

pub record EfTx : Type 0 where
  pub stamps : StampRing
  pub ctpio_wins : ℕ
  pub ctpio_fallbacks : ℕ
  pub fallback_per_slot : List ℕ
  pub tx_errors : ℕ
  pub tx_ts_events : ℕ

pub record EfRx : Type 0 where
  pub held_id : ℕ
  pub rx_next_idx : ℕ
  pub rx_pending_push : ℕ
  pub rx_released : ℕ
  pub rx_reposted : ℕ
  pub rx_poll_hits : ℕ
  pub rx_ev_reconciled : ℕ
  pub rx_discards : ℕ
  pub rx_crc_bad : ℕ
  pub rx_dropped : ℕ
  pub rx_ts_raw : ℕ
  pub receive_inits : List ℕ
  pub receive_pushes : ℕ

-- The events that are polled and not yet handled stand in `events`.
pub record EfState : Type 0 where
  pub tx : EfTx
  pub rx : EfRx
  pub ev_unexpected : ℕ
  pub events : List EfEvent

-- One completion with the stamp `minor` written at `slot`.
unfoldable pub stamp_at : ℕ → ℕ → StampRing → StampRing
stamp_at slot minor r = record r {
  tx_stamp = set r.tx_stamp slot (bit_or (r.tx_tail * 2 ^ 32) minor);
  tx_tail = u32 (r.tx_tail + 1);
}

-- Completions without a stamp, one for each of a batch.
unfoldable pub stamp_nones : ℕ → List ℕ → StampRing → StampRing
unfolding stamp_at
stamp_nones nb_tx_bufs [] r = r
stamp_nones nb_tx_bufs (i ∷ ids) r =
    stamp_nones nb_tx_bufs ids (stamp_at (r.tx_tail % nb_tx_bufs) tx_stamp_none r)

unfoldable pub count_slots : ℕ → List ℕ → List ℕ → List ℕ
count_slots nb_tx_bufs [] counts = counts
count_slots nb_tx_bufs (i ∷ ids) counts =
    count_slots nb_tx_bufs ids
      (set counts (u32 i % nb_tx_bufs) (u64 (get_or counts (u32 i % nb_tx_bufs) 0 + 1)))

-- Frames that went out from the aperture, and frames that fell back to DMA.
unfoldable pub count_ctpio : EfConfig → List ℕ → Bool → EfTx → EfTx
unfolding count_slots
count_ctpio c ids ctpio t =
    if c.use_ctpio
    then (if ctpio then record t { ctpio_wins = u64 (t.ctpio_wins + length ids) } else record t {
      ctpio_fallbacks = u64 (t.ctpio_fallbacks + length ids);
      fallback_per_slot = count_slots c.nb_tx_bufs ids t.fallback_per_slot;
    })
    else record t { ctpio_fallbacks = u64 (t.ctpio_fallbacks + length ids) }

unfoldable pub on_tx : EfConfig → List ℕ → Bool → EfTx → EfTx
unfolding stamp_nones count_ctpio
on_tx c ids ctpio t = count_ctpio c ids ctpio (record t {
  stamps =
      (if c.hw_timestamps && c.has_tx
        then stamp_nones c.nb_tx_bufs ids t.stamps
        else record t.stamps { tx_tail = u32 (t.stamps.tx_tail + length ids) });
})

-- Quarters of a nanosecond, from the library's nanoseconds and 16-bit fraction.
unfoldable pub minor_of : ℕ → ℕ → ℕ
minor_of nsec nsec_frac16 = u32 (nsec * 4 + nsec_frac16 / 2 ^ 14)

unfoldable pub on_tx_stamped : EfConfig → ℕ → ℕ → Bool → EfTx → EfTx
unfolding stamp_at count_ctpio
on_tx_stamped c rq_id minor ctpio t = count_ctpio c (rq_id ∷ []) ctpio (record t {
  stamps = stamp_at (u32 rq_id % c.nb_tx_bufs) minor t.stamps;
  tx_ts_events = u64 (t.tx_ts_events + 1);
})

unfoldable pub on_tx_error : EfConfig → EfTx → EfTx
unfolding stamp_at
on_tx_error c t = record t {
  tx_errors = u64 (t.tx_errors + 1);
  stamps =
      (if c.hw_timestamps && c.has_tx
        then stamp_at (t.stamps.tx_tail % c.nb_tx_bufs) tx_stamp_none t.stamps
        else record t.stamps { tx_tail = u32 (t.stamps.tx_tail + 1) });
}

-- A buffer goes back to the library.
unfoldable pub receive_init : ℕ → EfRx → EfRx
receive_init id r = record r {
  receive_inits = r.receive_inits ++ (id ∷ []);
  rx_pending_push = u32 (r.rx_pending_push + 1);
}

unfoldable pub handle_discard : EfConfig → ℕ → Bool → EfRx → EfRx
unfolding receive_init
handle_discard c id crc_bad r =
    let d = record r {
      rx_discards = u64 (r.rx_discards + 1);
      rx_crc_bad = (if crc_bad then u64 (r.rx_crc_bad + 1) else r.rx_crc_bad);
    } in
    if c.payload_poll then d else receive_init id d

unfoldable pub discard_all : EfConfig → List ℕ → EfRx → EfRx
unfolding handle_discard
discard_all c [] r = r
discard_all c (i ∷ ids) r = discard_all c ids (handle_discard c (u32 i) false r)

-- The frames of a merged event after the first are dropped.
unfoldable pub drop_rest : List ℕ → EfRx → EfRx
unfolding receive_init
drop_rest [] r = r
drop_rest (i ∷ ids) r =
    drop_rest ids (receive_init i (record r { rx_dropped = u64 (r.rx_dropped + 1) }))

-- What the switch makes of an event: the event is used up and the loop goes on, a frame is answered (its
-- buffer and length), or the poll ends with the event left in place.
pub data Handled : Type 0 where
  goes_on : EfState → Handled
  gives : ℕ → ℕ → EfState → Handled
  stays : Handled

-- A merged receive event whose first buffer is answered; one that unbundles to nothing is used up.
unfoldable pub answer_multi : ℕ → List ℕ → ℕ → EfState → Handled
unfolding drop_rest
answer_multi rx_prefix [] bytes s = goes_on s
answer_multi rx_prefix (i ∷ ids) bytes s =
    gives (u32 i) (u32 (u16 bytes + rx_prefix)) (record s { rx = drop_rest ids s.rx })

unfoldable pub handle_event : EfConfig → ℕ → Bool → EfEvent → EfState → Handled
unfolding on_tx on_tx_stamped minor_of on_tx_error handle_discard discard_all answer_multi
handle_event c rx_prefix want_rx (rx_event rq_id bytes) s =
    if c.payload_poll
    then goes_on
        (record s { rx = record s.rx { rx_ev_reconciled = u64 (s.rx.rx_ev_reconciled + 1) } })
    else (if want_rx then gives rq_id bytes s else stays)
handle_event c rx_prefix want_rx (tx_event ids ctpio) s =
    goes_on (record s { tx = on_tx c ids ctpio s.tx })
handle_event c rx_prefix want_rx (tx_stamped rq_id nsec nsec_frac16 ctpio) s =
    if c.hw_timestamps && c.has_tx
    then goes_on (record s { tx = on_tx_stamped c rq_id (minor_of nsec nsec_frac16) ctpio s.tx })
    else goes_on (record s { ev_unexpected = u64 (s.ev_unexpected + 1) })
handle_event c rx_prefix want_rx (rx_discard rq_id crc_bad) s =
    goes_on (record s { rx = handle_discard c (u32 rq_id) crc_bad s.rx })
handle_event c rx_prefix want_rx (rx_multi ids bytes) s =
    if c.payload_poll
    then goes_on (record s {
      rx = record s.rx { rx_ev_reconciled = u64 (s.rx.rx_ev_reconciled + length ids) };
    })
    else (if want_rx then answer_multi rx_prefix ids bytes s else stays)
handle_event c rx_prefix want_rx (rx_multi_discard ids) s =
    goes_on (record s { rx = discard_all c ids s.rx })
handle_event c rx_prefix want_rx tx_error s = goes_on (record s { tx = on_tx_error c s.tx })
handle_event c rx_prefix want_rx other_event s =
    goes_on (record s { ev_unexpected = u64 (s.ev_unexpected + 1) })

-- What a pass makes of one event: `some` when the poll returns, with the frame it answers.
unfoldable pub drain_on :
    EfEvent
    → List EfEvent
    → EfState
    → (EfState → Option (Option (ℕ × ℕ)) × EfState)
    → Handled
    → Option (Option (ℕ × ℕ)) × EfState
drain_on e es s rest (goes_on t) = rest t
drain_on e es s rest (gives id len t) = (some (some (id, len)), record t { events = es })
drain_on e es s rest stays = (some none, record s { events = e ∷ es })

-- One pass over the events at hand.
unfoldable pub drain :
    EfConfig → ℕ → Bool → List EfEvent → EfState → Option (Option (ℕ × ℕ)) × EfState
unfolding handle_event drain_on
drain c rx_prefix want_rx [] s = (none, record s { events = [] })
drain c rx_prefix want_rx (e ∷ es) s =
    drain_on e es s (λ t. drain c rx_prefix want_rx es t) (handle_event c rx_prefix want_rx e s)

-- With no event at the head of the queue, a receiver pushes what it owes in eights.
unfoldable pub push_eights : EfConfig → Bool → EfRx → EfRx
push_eights c want_rx r =
    if c.has_rx && (want_rx && leb 8 r.rx_pending_push)
    then record r { rx_pending_push = r.rx_pending_push % 8; receive_pushes = r.receive_pushes + 1 }
    else r

-- The second pass ends the poll whatever it leaves.
unfoldable pub second_pass :
    EfConfig → ℕ → Bool → Option (Option (ℕ × ℕ)) × EfState → Option (ℕ × ℕ) × EfState
second_pass c rx_prefix want_rx (none, s) = (none, s)
second_pass c rx_prefix want_rx (some o, s) = (o, s)

-- `polled` is the library's next batch of events, `none` when the queue shows no event.
unfoldable pub poll_more :
    EfConfig
    → ℕ
    → Bool
    → Option (List EfEvent)
    → Option (Option (ℕ × ℕ)) × EfState
    → Option (ℕ × ℕ) × EfState
unfolding drain push_eights second_pass
poll_more c rx_prefix want_rx polled (some o, s) = (o, s)
poll_more c rx_prefix want_rx none (none, s) = (none, record s { rx = push_eights c want_rx s.rx })
poll_more c rx_prefix want_rx (some batch) (none, s) =
    second_pass c rx_prefix want_rx (drain c rx_prefix want_rx batch s)

unfoldable pub poll_event :
    EfConfig → ℕ → Bool → Option (List EfEvent) → EfState → Option (ℕ × ℕ) × EfState
unfolding drain poll_more
poll_event c rx_prefix want_rx polled s =
    poll_more c rx_prefix want_rx polled (drain c rx_prefix want_rx s.events s)
