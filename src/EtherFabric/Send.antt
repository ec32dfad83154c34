-- ===== src/EtherFabric/Send.antt =====
-- The transmit calls of src/backends/EtherFabricVirtualInterface/EtherFabricVirtualInterface.hpp: prefillRing,
-- acquire, commit and send, the tuned path (EfViTuning::X2522Plus) and the library's. What the library's
-- transmit call answers is an argument, one answer for each turn of the loop, each with the batch of
-- events that a poll between two turns would find.
use Prim.Native.Nat.{bit_and}
use abtrda.Prelude.{
  ℕ, zero, suc, ◌+◌, ◌-◌, ◌*◌, ◌%◌, Bool, true, false, Option, none, some, List, [], ◌∷◌, ltb, leb,
  if◌then◌else◌, length, set, get_or, take, u32, u64, sub32, ◌>>=◌,
}
use abtrda.Bytes.{memcpy}
use abtrda.EtherFabric.Events.{EfConfig, EfEvent, EfState, poll_event}
use abtrda.EtherFabric.Ctpio.{aperture_image, tx_descriptor}

-- What the transmit parts of a configuration add: the first transmit slot in the buffers, the size of a
-- slot, the addresses of the slots for DMA, the bases of their descriptors, the mask of the
-- descriptor ring, and the threshold.
pub record EfPort : Type 0 where
  pub config : EfConfig
  pub tx_base : ℕ
  pub buf_size : ℕ
  pub tx_dma : List ℕ
  pub tx_desc_base : List ℕ
  pub txq_mask : ℕ
  pub ct_threshold : ℕ

-- The offset of the frame and of its slot in the buffers, and what has gone to the adapter: the image in
-- the aperture, the descriptors and their identifiers, the last one pushed, and the frames that the
-- library took (address, length and identifier).
pub record EfSender : Type 0 where
  pub state : EfState
  pub tx_head : ℕ
  pub tx_slot : ℕ
  pub tx_len : ℕ
  pub tx_ptr : ℕ
  pub tx_slot_base : ℕ
  pub aperture : List ℕ
  pub txq_added : ℕ
  pub txq_descriptors : List ℕ
  pub txq_ids : List ℕ
  pub pushed : Option (ℕ × ℕ)
  pub taken : List (ℕ × (ℕ × ℕ))

pub data Answer : Type 0 where
  took : Answer
  try_again : Answer
  refused : Answer

abbrev pub tx_hdr_bytes : EfPort → ℕ
tx_hdr_bytes p = if p.config.x2522 then 4 else 0

abbrev pub tx_slot_offset : EfPort → ℕ → ℕ
tx_slot_offset p s = u32 (p.tx_base + s) * p.buf_size

-- The template, cut to the room of a slot, in the first `k` slots.
unfoldable pub prefill_tx_slots : EfPort → ℕ → List ℕ → List ℕ → Option (List ℕ)
prefill_tx_slots p zero template mem = some mem
prefill_tx_slots p (suc k) template mem = do
  m ← prefill_tx_slots p k template mem
  memcpy (tx_slot_offset p k + tx_hdr_bytes p) (take (p.buf_size - tx_hdr_bytes p) template) m

unfoldable pub ef_prefill : EfPort → List ℕ → List ℕ → Option (List ℕ)
unfolding prefill_tx_slots
ef_prefill p template mem = prefill_tx_slots p p.config.nb_tx_bufs template mem

-- The frames in flight.
abbrev pub in_flight : EfSender → ℕ
in_flight s = sub32 s.tx_head s.state.tx.stamps.tx_tail

unfoldable pub take_tx_slot : EfPort → ℕ → EfSender → Option ℕ × EfSender
take_tx_slot p frame_len s =
    let slot = s.tx_head % p.config.nb_tx_bufs in
    let base = tx_slot_offset p slot in
    (
      some (base + tx_hdr_bytes p),
      record s {
        tx_slot = slot;
        tx_len = frame_len;
        tx_slot_base = (if p.config.x2522 then base else s.tx_slot_base);
        tx_ptr = base + tx_hdr_bytes p;
      },
    )

unfoldable pub poll_tx : EfPort → Option (List EfEvent) → EfSender → EfSender
unfolding poll_event
poll_tx p polled s = record s { state = (poll_event p.config 0 false polled s.state).1 }

-- The library's path refuses a frame longer than a slot, and polls once when the ring is full.
unfoldable pub acquire_lib : EfPort → Option (List EfEvent) → ℕ → EfSender → Option ℕ × EfSender
unfolding take_tx_slot poll_tx
acquire_lib p polled frame_len s =
    if ltb p.buf_size frame_len
    then (none, s)
    else (if leb p.config.nb_tx_bufs (in_flight s)
        then (let t = poll_tx p polled s in
            if leb p.config.nb_tx_bufs (in_flight t) then (none, t) else take_tx_slot p frame_len t)
        else take_tx_slot p frame_len s)

unfoldable pub ef_acquire : EfPort → Option (List EfEvent) → ℕ → EfSender → Option ℕ × EfSender
unfolding acquire_lib
ef_acquire p polled frame_len s =
    if p.config.x2522 then take_tx_slot p frame_len s else acquire_lib p polled frame_len s

-- The tuned path: the aperture, then the descriptor in the library's ring, then the push of both.
unfoldable pub commit_x2522 : EfPort → List ℕ → EfSender → Option EfSender
unfolding aperture_image tx_descriptor
commit_x2522 p mem s = do
  image ← aperture_image p.ct_threshold s.tx_slot_base s.tx_len mem
  let di = bit_and s.txq_added p.txq_mask
  let desc = tx_descriptor (get_or p.tx_desc_base s.tx_slot 0) s.tx_len
  some (record s {
    aperture = image;
    txq_descriptors = set s.txq_descriptors di desc;
    txq_ids = set s.txq_ids di s.tx_slot;
    txq_added = u32 (s.txq_added + 1);
    pushed = some (desc, bit_and (u32 (s.txq_added + 1)) p.txq_mask);
    tx_head = u32 (s.tx_head + 1);
  })

abbrev pub count_tx_error : EfSender → EfSender
count_tx_error s = record s {
  state = record s.state { tx = record s.state.tx { tx_errors = u64 (s.state.tx.tx_errors + 1) } };
}

-- The library's path, by the answers of its transmit call; `none` when these run out, the loop still
-- going. A refused frame is counted, and the head stays.
unfoldable pub commit_lib :
    EfPort → List (Answer × Option (List EfEvent)) → EfSender → Option EfSender
unfolding poll_tx
commit_lib p [] s = none
commit_lib p ((took, polled) ∷ rest) s = some (record s {
  taken = (get_or p.tx_dma s.tx_slot 0, (s.tx_len, s.tx_slot)) ∷ s.taken;
  tx_head = u32 (s.tx_head + 1);
})
commit_lib p ((try_again, polled) ∷ rest) s = commit_lib p rest (poll_tx p polled s)
commit_lib p ((refused, polled) ∷ rest) s = some (count_tx_error s)

unfoldable pub ef_commit :
    EfPort → List (Answer × Option (List EfEvent)) → List ℕ → EfSender → Option EfSender
unfolding commit_x2522 commit_lib
ef_commit p answers mem s =
    let tuned = commit_x2522 p mem s in
    let lib = commit_lib p answers s in if p.config.x2522 then tuned else lib

-- `some (false, …)` when there is no room, `none` for a store outside the buffers or a call that
-- never answers.
unfoldable pub send_acquired :
    EfPort
    → List (Answer × Option (List EfEvent))
    → List ℕ
    → List ℕ
    → Option ℕ × EfSender
    → Option (Bool × (List ℕ × EfSender))
unfolding ef_commit
send_acquired p answers frame mem (none, s) = some (false, (mem, s))
send_acquired p answers frame mem (some dst, s) = do
  m ← memcpy dst frame mem
  t ← ef_commit p answers m s
  some (true, (m, t))

unfoldable pub ef_send :
    EfPort
    → Option (List EfEvent)
    → List (Answer × Option (List EfEvent))
    → List ℕ
    → List ℕ × EfSender
    → Option (Bool × (List ℕ × EfSender))
unfolding ef_acquire send_acquired
ef_send p polled answers frame (mem, s) =
    send_acquired p answers frame mem (ef_acquire p polled (u32 (length frame)) s)
