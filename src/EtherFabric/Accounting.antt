-- ===== src/EtherFabric/Accounting.antt =====
-- What polling makes of the counters, when receive events are only reconciled with the frames found by
-- looking at the buffers (kEfViRxPayloadPoll).
use abtrda.Prelude.{
  ℕ, ◌+◌, ◌%◌, ◌^◌, ◌<◌, ◌≡◌, refl, ap, ◌∙◌, inl, inr, Bool, true, false, ◌&&◌, Option, none, some,
  List, [], ◌∷◌, ◌++◌, arith, if◌then◌else◌, Bool-cases, length, u32, u64,
}
use abtrda.EtherFabric.{tx_stamp_none, StampRing}
use abtrda.EtherFabric.Events.{
  EfConfig, EfEvent, EfTx, EfRx, EfState, stamp_at, stamp_nones, count_ctpio, on_tx, minor_of,
  on_tx_stamped, on_tx_error, handle_discard, discard_all, Handled, handle_event, drain_on, drain,
  push_eights, second_pass, poll_more, poll_event, rx_event, tx_event, tx_stamped, rx_discard,
  rx_multi, rx_multi_discard, tx_error, other_event, goes_on, gives, stays,
}

-- The frames that an event reports as sent, failed, received and discarded, and whether it is unexpected: an
-- event of another kind, or a time stamp where none was asked for.
abbrev pub sent_by : Bool → EfEvent → ℕ
sent_by stamps_on (tx_event ids ctpio) = length ids
sent_by stamps_on (tx_stamped rq_id nsec frac ctpio) = if stamps_on then 1 else 0
sent_by stamps_on e = 0

abbrev pub failed_by : EfEvent → ℕ
failed_by tx_error = 1
failed_by e = 0

abbrev pub received_by : EfEvent → ℕ
received_by (rx_event rq_id bytes) = 1
received_by (rx_multi ids bytes) = length ids
received_by e = 0

abbrev pub discarded_by : EfEvent → ℕ
discarded_by (rx_discard rq_id crc_bad) = 1
discarded_by (rx_multi_discard ids) = length ids
discarded_by e = 0

abbrev pub unexpected_by : Bool → EfEvent → ℕ
unexpected_by stamps_on (tx_stamped rq_id nsec frac ctpio) = if stamps_on then 0 else 1
unexpected_by stamps_on other_event = 1
unexpected_by stamps_on e = 0

abbrev pub total : (EfEvent → ℕ) → List EfEvent → ℕ
total f [] = 0
total f (e ∷ es) = f e + total f es

-- The events that a poll has at hand, with the batch that the library gives it.
abbrev pub at_hand : Option (List EfEvent) → EfState → List EfEvent
at_hand none s = s.events
at_hand (some batch) s = s.events ++ batch

-- The buffers of the receive side stand as they did.
abbrev pub RxKept : EfRx → EfRx → Type 0
RxKept r q =
    (q.rx_poll_hits ≡ r.rx_poll_hits)
    × (q.receive_inits ≡ r.receive_inits)
    × (q.held_id ≡ r.held_id)
    × (q.rx_next_idx ≡ r.rx_next_idx)
    × (q.rx_released ≡ r.rx_released)
    × (q.rx_reposted ≡ r.rx_reposted)
    × (q.rx_ts_raw ≡ r.rx_ts_raw)

-- The counters after events that report so many frames sent, failed, received and discarded, and so
-- many events that the code does not expect. Each
-- completed frame is counted once, as sent from the aperture or by DMA, or as an error.
abbrev pub Counted : EfState → EfState → ℕ → ℕ → ℕ → ℕ → ℕ → Type 0
Counted s t sent failed received discarded unexpected =
    (t.tx.stamps.tx_tail ≡ u32 (s.tx.stamps.tx_tail + sent + failed))
    × (u64 (t.tx.ctpio_wins + t.tx.ctpio_fallbacks)
        ≡ u64 (s.tx.ctpio_wins + s.tx.ctpio_fallbacks + sent))
    × (t.tx.tx_errors ≡ u64 (s.tx.tx_errors + failed))
    × (t.rx.rx_ev_reconciled ≡ u64 (s.rx.rx_ev_reconciled + received))
    × (t.rx.rx_discards ≡ u64 (s.rx.rx_discards + discarded))
    × RxKept s.rx t.rx
    × (t.rx.rx_pending_push % 8 ≡ s.rx.rx_pending_push % 8)
    × (t.ev_unexpected ≡ u64 (s.ev_unexpected + unexpected))

abbrev pub Words : EfState → Type 0
Words s =
    (s.tx.stamps.tx_tail < 2 ^ 32)
    × (s.tx.tx_errors < 2 ^ 64)
    × (s.rx.rx_ev_reconciled < 2 ^ 64)
    × (s.rx.rx_discards < 2 ^ 64)
    × (s.ev_unexpected < 2 ^ 64)

stamp_nones-tail :
    (nb : ℕ) (ids : List ℕ) (r : StampRing)
    → r.tx_tail < 2 ^ 32
    → (stamp_nones nb ids r).tx_tail ≡ u32 (r.tx_tail + length ids)
unfolding stamp_nones stamp_at
stamp_nones-tail nb [] r h = omega arith
stamp_nones-tail nb (i ∷ ids) r h =
    omega (arith, stamp_nones-tail nb ids (stamp_at (r.tx_tail % nb) tx_stamp_none r) (omega arith))

count_ctpio-sum :
    (c : EfConfig) (ids : List ℕ) (ctpio : Bool) (t : EfTx)
    → let u = count_ctpio c ids ctpio t in
      (u.stamps ≡ t.stamps)
      × (u64 (u.ctpio_wins + u.ctpio_fallbacks)
          ≡ u64 (t.ctpio_wins + t.ctpio_fallbacks + length ids))
      × (u.tx_errors ≡ t.tx_errors)
unfolding count_ctpio
count_ctpio-sum c ids ctpio t = ground arith

on_tx-sum :
    (c : EfConfig) (ids : List ℕ) (ctpio : Bool) (t : EfTx)
    → t.stamps.tx_tail < 2 ^ 32
    → let u = on_tx c ids ctpio t in
      (u.stamps.tx_tail ≡ u32 (t.stamps.tx_tail + length ids))
      × (u64 (u.ctpio_wins + u.ctpio_fallbacks)
          ≡ u64 (t.ctpio_wins + t.ctpio_fallbacks + length ids))
      × (u.tx_errors ≡ t.tx_errors)
unfolding on_tx
on_tx-sum c ids ctpio t w =
    let k = count_ctpio-sum c ids ctpio _ in
    (
      ap (λ r. r.tx_tail) k.0 ∙ elim (Bool-cases (c.hw_timestamps && c.has_tx)) [
        | inl e ↦ rw e (stamp_nones-tail c.nb_tx_bufs ids t.stamps w)
        | inr e ↦ rw e refl
      ],
      k.1,
      k.2,
    )

on_tx_stamped-sum :
    (c : EfConfig) (rq_id minor : ℕ) (ctpio : Bool) (t : EfTx)
    → let u = on_tx_stamped c rq_id minor ctpio t in
      (u.stamps.tx_tail ≡ u32 (t.stamps.tx_tail + 1))
      × (u64 (u.ctpio_wins + u.ctpio_fallbacks) ≡ u64 (t.ctpio_wins + t.ctpio_fallbacks + 1))
      × (u.tx_errors ≡ t.tx_errors)
unfolding on_tx_stamped stamp_at
on_tx_stamped-sum c rq_id minor ctpio t =
    let k = count_ctpio-sum c (rq_id ∷ []) ctpio _ in (ap (λ r. r.tx_tail) k.0, k.1, k.2)

on_tx_error-sum :
    (c : EfConfig) (t : EfTx)
    → let u = on_tx_error c t in
      (u.stamps.tx_tail ≡ u32 (t.stamps.tx_tail + 1))
      × (u.ctpio_wins ≡ t.ctpio_wins)
      × (u.ctpio_fallbacks ≡ t.ctpio_fallbacks)
      × (u.tx_errors ≡ u64 (t.tx_errors + 1))
unfolding on_tx_error stamp_at
on_tx_error-sum c t = ground arith

-- A receive side that only the discard count tells from another.
abbrev OnlyDiscards : EfRx → EfRx → ℕ → Type 0
OnlyDiscards r q n =
    (q.rx_discards ≡ u64 (r.rx_discards + n))
    × (q.rx_ev_reconciled ≡ r.rx_ev_reconciled)
    × RxKept r q
    × (q.rx_pending_push ≡ r.rx_pending_push)

pub RxKept-trans : (r q o : EfRx) → RxKept r q → RxKept q o → RxKept r o
RxKept-trans r q o h k = ground (arith, h, k)

module _ (c : EfConfig) (polls : c.payload_poll ≡ true) where
  handle_discard-counts :
      (id : ℕ) (crc_bad : Bool) (r : EfRx) → OnlyDiscards r (handle_discard c id crc_bad r) 1
  unfolding handle_discard
  handle_discard-counts id crc_bad r =
      rw polls (refl, refl, (refl, refl, refl, refl, refl, refl, refl), refl)

  discard_all-counts :
      (ids : List ℕ) (r : EfRx)
      → r.rx_discards < 2 ^ 64
      → OnlyDiscards r (discard_all c ids r) (length ids)
  unfolding discard_all
  discard_all-counts [] r h = (omega arith, refl, (refl, refl, refl, refl, refl, refl, refl), refl)
  discard_all-counts (i ∷ ids) r h =
      let d = handle_discard-counts (u32 i) false r in
      let k = discard_all-counts ids (handle_discard c (u32 i) false r) (omega (arith, d.0)) in
      (
        omega (arith, d.0, k.0),
        k.1 ∙ d.1,
        RxKept-trans r (handle_discard c (u32 i) false r) (discard_all c (i ∷ ids) r) d.2 k.2,
        k.3 ∙ d.3,
      )

  -- Every event is used up, and counted.
  abbrev pub EventCounted : EfEvent → EfState → Handled → Type 0
  EventCounted e s (goes_on t) =
      Counted s t (sent_by (c.hw_timestamps && c.has_tx) e) (failed_by e) (received_by e)
        (discarded_by e) (unexpected_by (c.hw_timestamps && c.has_tx) e)
  EventCounted e s (gives id len t) = ⊥
  EventCounted e s stays = ⊥

  handle_event-EventCounted :
      (rx_prefix : ℕ) (want_rx : Bool) (e : EfEvent) (s : EfState)
      → Words s
      → EventCounted e s (handle_event c rx_prefix want_rx e s)
  unfolding handle_event
  handle_event-EventCounted p w (rx_event rq_id bytes) s h = ground (arith, polls)
  handle_event-EventCounted p w (tx_event ids ctpio) s h =
      ground (arith, on_tx-sum c ids ctpio s.tx h.0)
  handle_event-EventCounted p w (tx_stamped rq_id nsec frac ctpio) s h =
      elim (Bool-cases (c.hw_timestamps && c.has_tx)) [
        | inl e ↦ rw e (ground (arith, on_tx_stamped-sum c rq_id (minor_of nsec frac) ctpio s.tx))
        | inr e ↦ rw e (ground arith)
      ]
  handle_event-EventCounted p w (rx_discard rq_id crc_bad) s h =
      ground (arith, handle_discard-counts (u32 rq_id) crc_bad s.rx)
  handle_event-EventCounted p w (rx_multi ids bytes) s h = ground (arith, polls)
  handle_event-EventCounted p w (rx_multi_discard ids) s h =
      ground (arith, discard_all-counts ids s.rx h.3)
  handle_event-EventCounted p w tx_error s h = ground (arith, on_tx_error-sum c s.tx)
  handle_event-EventCounted p w other_event s h = ground arith

  Counted-trans :
      (s t u : EfState) (a b r d o a' b' r' d' o' : ℕ)
      → Counted s t a b r d o
      → Counted t u a' b' r' d' o'
      → Counted s u (a + a') (b + b') (r + r') (d + d') (o + o')
  Counted-trans s t u a b r d o a' b' r' d' o' h k = ground (arith, h, k)

  pub Counted-Words : (s t : EfState) (a b r d o : ℕ) → Words s → Counted s t a b r d o → Words t
  Counted-Words s t a b r d o w h = (
    omega (arith, h.0),
    omega (arith, h.2),
    omega (arith, h.3),
    omega (arith, h.4),
    omega (arith, h.7),
  )

  -- What events report altogether.
  abbrev pub AllCounted : List EfEvent → EfState → EfState → Type 0
  AllCounted es s t =
      Counted s t (total (sent_by (c.hw_timestamps && c.has_tx)) es) (total failed_by es)
        (total received_by es) (total discarded_by es)
        (total (unexpected_by (c.hw_timestamps && c.has_tx)) es)

  abbrev pub Drained : List EfEvent → EfState → Option (Option (ℕ × ℕ)) × EfState → Type 0
  Drained es s d = (d.0 ≡ none) × (d.1.events ≡ []) × AllCounted es s d.1

  drain_on-Drained :
      (e : EfEvent) (es : List EfEvent) (s : EfState)
      (rest : EfState → Option (Option (ℕ × ℕ)) × EfState)
      → ((t : EfState) → Words t → Drained es t (rest t))
      → (r : Handled) → Words s
      → EventCounted e s r
      → Drained (e ∷ es) s (drain_on e es s rest r)
  unfolding drain_on
  drain_on-Drained e es s rest f (goes_on t) h k =
      let d = f t (Counted-Words s t _ _ _ _ _ h k) in
      (d.0, d.1, Counted-trans s t (rest t).1 _ _ _ _ _ _ _ _ _ _ k d.2)
  drain_on-Drained e es s rest f (gives id len t) h k = absurd k
  drain_on-Drained e es s rest f stays h k = absurd k

  drain-Drained :
      (rx_prefix : ℕ) (want_rx : Bool) (es : List EfEvent) (s : EfState)
      → Words s
      → Drained es s (drain c rx_prefix want_rx es s)
  unfolding drain
  drain-Drained p w [] s h = (refl, refl, ground (arith, h))
  drain-Drained p w (e ∷ es) s h =
      drain_on-Drained e es s (drain c p w es) (drain-Drained p w es) (handle_event c p w e s) h
        (handle_event-EventCounted p w e s h)

  total-append :
      (f : EfEvent → ℕ) (xs ys : List EfEvent) → total f (xs ++ ys) ≡ total f xs + total f ys
  total-append f [] ys = omega arith
  total-append f (x ∷ xs) ys = omega (arith, total-append f xs ys)

  push_eights-Counted :
      (want_rx : Bool) (s : EfState) (t : EfState) (a b r d o : ℕ)
      → Counted s t a b r d o
      → Counted s (record t { rx = push_eights c want_rx t.rx }) a b r d o
  unfolding push_eights
  push_eights-Counted w s t a b r d o h = ground (arith, h)

  second_pass-none :
      (rx_prefix : ℕ) (want_rx : Bool) (d : Option (Option (ℕ × ℕ)) × EfState)
      → d.0 ≡ none
      → second_pass c rx_prefix want_rx d ≡ (none, d.1)
  unfolding second_pass
  second_pass-none p w (none, t) h = refl
  second_pass-none p w (some o, t) h = absurd (ground (arith, h))

  AllCounted-append :
      (xs ys : List EfEvent) (s t u : EfState)
      → AllCounted xs s t
      → AllCounted ys t u
      → AllCounted (xs ++ ys) s u
  AllCounted-append xs ys s t u h k =
      rw
        (
          total-append _ xs ys,
          total-append failed_by xs ys,
          total-append received_by xs ys,
          total-append discarded_by xs ys,
          total-append (unexpected_by _) xs ys,
        )
        (Counted-trans s t u _ _ _ _ _ _ _ _ _ _ h k)

  poll_more-AllCounted :
      (rx_prefix : ℕ) (want_rx : Bool) (polled : Option (List EfEvent)) (s : EfState)
      (d : Option (Option (ℕ × ℕ)) × EfState)
      → Words s
      → Drained s.events s d
      → let p = poll_more c rx_prefix want_rx polled d in
        (p.0 ≡ none) × (p.1.events ≡ []) × AllCounted (at_hand polled s) s p.1
  unfolding poll_more second_pass
  poll_more-AllCounted p w polled s (some o, t) h k = absurd (ground (arith, k.0))
  poll_more-AllCounted p w none s (none, t) h k =
      (refl, k.1, push_eights-Counted w s t _ _ _ _ _ k.2)
  poll_more-AllCounted p w (some batch) s (none, t) h k =
      let d = drain-Drained p w batch t (Counted-Words s t _ _ _ _ _ h k.2) in
      rw (second_pass-none p w (drain c p w batch t) d.0)
        (refl, d.1, AllCounted-append s.events batch s t (drain c p w batch t).1 k.2 d.2)

  -- Where frames are found by looking at the buffers, a poll never answers a frame and leaves no event
  -- behind, whatever the queue gives it: the events that were at hand and those of the new batch are
  -- all counted, each completed frame once (as sent from the aperture, as sent by DMA or as an error) in
  -- the tail of the transmit ring, each received frame as reconciled, each discarded frame as
  -- discarded, each other event as unexpected; no buffer is given back, and receive buffers are only pushed in eights.
  pub poll_event-AllCounted :
      (rx_prefix : ℕ) (want_rx : Bool) (polled : Option (List EfEvent)) (s : EfState)
      → Words s
      → let p = poll_event c rx_prefix want_rx polled s in
        (p.0 ≡ none) × (p.1.events ≡ []) × AllCounted (at_hand polled s) s p.1
  unfolding poll_event
  poll_event-AllCounted p w polled s h =
      poll_more-AllCounted p w polled s (drain c p w s.events s) h (drain-Drained p w s.events s h)
