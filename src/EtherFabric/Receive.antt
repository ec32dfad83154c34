-- ===== src/EtherFabric/Receive.antt =====
-- The receive calls of src/backends/EtherFabricVirtualInterface/EtherFabricVirtualInterface.hpp: tryReceive,
-- release, repostReleased, rxFrameComplete and the time stamp of a frame. What the program reads of a
-- buffer that the adapter writes is an argument: the marker (the two bytes of the ethernet type) at each
-- look, and the stamp in the prefix of each buffer.
use abtrda.Prelude.{
  ℕ, zero, suc, ◌+◌, ◌*◌, ◌%◌, Bool, true, false, not, ◌&&◌, ◌||◌, Option, none, some, List, [],
  ◌∷◌, leb, ◌==◌, if◌then◌else◌, u32, u64, sub32, ◌>>=◌,
}
use abtrda.Bytes.{memcpy}
use abtrda.Ring.{bump}
use abtrda.EtherFabric.Events.{EfConfig, EfEvent, EfRx, EfState, receive_init, poll_event}

-- Looks at the marker, up to `k` of them, the first one number `i`.
unfoldable pub marker_seen : ℕ → ℕ → (ℕ → ℕ) → Bool
marker_seen zero i marker = false
marker_seen (suc k) i marker = not (marker i == 0) || marker_seen k (i + 1) marker

abbrev pub marker_spins : EfConfig → ℕ
marker_spins c = if c.x2522 then 8 else 1

-- Released buffers go back to the library one after the other: `k` turns of the loop at most.
unfoldable pub repost : ℕ → ℕ → EfRx → EfRx
unfolding receive_init
repost nb_rx_bufs zero r = r
repost nb_rx_bufs (suc k) r =
    let rest = repost nb_rx_bufs k (
      receive_init (r.rx_reposted % nb_rx_bufs)
        (record r { rx_reposted = u32 (r.rx_reposted + 1) })) in
    if r.rx_reposted == r.rx_released then r else rest

-- There is a turn for each buffer that waits.
unfoldable pub repost_released : ℕ → EfRx → EfRx
unfolding repost
repost_released nb_rx_bufs r = repost nb_rx_bufs (sub32 r.rx_released r.rx_reposted) r

-- The buffer that is due is found filled.
unfoldable pub take_due : EfConfig → (ℕ → ℕ) → EfRx → EfRx
take_due c stamp_in r = record r {
  held_id = r.rx_next_idx;
  rx_next_idx = bump c.nb_rx_bufs r.rx_next_idx;
  rx_poll_hits = u64 (r.rx_poll_hits + 1);
  rx_ts_raw = (if c.hw_timestamps && not c.x2522 then stamp_in r.rx_next_idx else r.rx_ts_raw);
}

-- With no frame, the tuned receiver first gives back what was released.
unfoldable pub receive_idle : EfConfig → ℕ → Option (List EfEvent) → EfState → EfState
unfolding repost_released poll_event
receive_idle c rx_prefix polled s =
    let reposted = repost_released c.nb_rx_bufs s.rx in
    (poll_event c rx_prefix true polled (record s { rx = (if c.x2522 then reposted else s.rx) })).1

-- The frame of a receive event.
unfoldable pub take_event :
    EfConfig → ℕ → ℕ → (ℕ → ℕ) → Option (ℕ × ℕ) × EfState → Option (ℕ × ℕ) × EfState
take_event c rx_prefix buf_size stamp_in (none, s) = (none, s)
take_event c rx_prefix buf_size stamp_in (some (id, len), s) = (
  some (id * buf_size + rx_prefix, sub32 len rx_prefix),
  record s {
    rx = record s.rx {
      held_id = id;
      rx_ts_raw = (if c.hw_timestamps then stamp_in id else s.rx.rx_ts_raw);
    };
  },
)

-- The offset and the length of a frame, `none` when there is none.
unfoldable pub ef_try_receive :
    EfConfig
    → ℕ
    → ℕ
    → (ℕ → ℕ)
    → (ℕ → ℕ)
    → Option (List EfEvent)
    → EfState
    → Option (ℕ × ℕ) × EfState
unfolding marker_seen take_due receive_idle take_event
ef_try_receive c rx_prefix buf_size marker stamp_in polled s =
    if c.payload_poll
    then (if marker_seen (marker_spins c) 0 marker
        then (
          some (s.rx.rx_next_idx * buf_size + rx_prefix, sub32 buf_size rx_prefix),
          record s { rx = take_due c stamp_in s.rx },
        )
        else (none, receive_idle c rx_prefix polled s))
    else take_event c rx_prefix buf_size stamp_in (poll_event c rx_prefix true polled s)

-- Pushes of 64 buffers at least, in eights.
unfoldable pub push_many : EfRx → EfRx
push_many r =
    if leb 64 r.rx_pending_push
    then record r { rx_pending_push = r.rx_pending_push % 8; receive_pushes = r.receive_pushes + 1 }
    else r

unfoldable pub give_back : EfConfig → EfRx → EfRx
unfolding receive_init push_many
give_back c r =
    if c.x2522
    then record r { rx_released = u32 (r.rx_released + 1) }
    else push_many (receive_init r.held_id r)

-- The marker of the held buffer is cleared, so that the next frame in it shows; `none` is a store outside
-- the buffers.
unfoldable pub ef_release : EfConfig → ℕ → ℕ → List ℕ × EfRx → Option (List ℕ × EfRx)
unfolding give_back
ef_release c rx_prefix buf_size (mem, r) = do
  m ←
      if c.payload_poll
      then memcpy (r.held_id * buf_size + rx_prefix + 12) (0 ∷ 0 ∷ []) mem
      else some mem
  some (m, give_back c r)

-- The stamp of the held frame, read when it is asked for or when the frame was found.
unfoldable pub hw_rx_timestamp : EfConfig → (ℕ → ℕ) → EfRx → ℕ
hw_rx_timestamp c stamp_in r = if c.x2522 then stamp_in r.held_id else r.rx_ts_raw

-- All frames that were found in the buffers have had their event.
unfoldable pub rx_frame_complete : EfConfig → ℕ → Option (List EfEvent) → EfState → Bool × EfState
unfolding poll_event
rx_frame_complete c rx_prefix polled s =
    let t = (poll_event c rx_prefix false polled s).1 in
    if c.payload_poll then (leb t.rx.rx_poll_hits t.rx.rx_ev_reconciled, t) else (true, s)
