-- ===== src/AfXdp.antt =====
-- The data path of src/backends/AF_XDP/AFXDP.hpp. The rings belong to libxdp: what its calls answer
-- (reservations, descriptors peeked, completions counted) are arguments, and what they are given
-- are results. An address is an offset in the frame memory.
pub mod Frames
pub mod Setup
mod Tests
use abtrda.Prelude.{
  ℕ, zero, suc, ◌+◌, ◌*◌, Option, none, some, List, [], ◌∷◌, ltb, ◌==◌, if◌then◌else◌, length, u32,
  sub32, ◌>>=◌,
}
use abtrda.Bytes.{memcpy}
use abtrda.Ring.{bump}

pub record XdpTx : Type 0 where
  pub tx_frame_nb : ℕ
  pub pending_tx_addr : ℕ
  pub pending_tx_len : ℕ
  pub outstanding_tx : ℕ

pub record XdpRx : Type 0 where
  pub pending_rx_addr : ℕ

-- A poll of the receive ring: nothing, a fill ring that has no room (the program aborts), or the
-- address and the length of a frame.
pub data Received : Type 0 where
  no_frame : Received
  aborted : Received
  frame_at : ℕ → ℕ → Received

-- `peeked` is the descriptor at the head of the receive ring, `reserved` the fill slots that the
-- reservation gave.
unfoldable pub xdp_receive : Option (ℕ × ℕ) → ℕ → XdpRx → Received × XdpRx
xdp_receive none reserved s = (no_frame, s)
xdp_receive (some (addr, len)) reserved s =
    if reserved == 1 then (frame_at addr len, record s { pending_rx_addr = addr }) else (aborted, s)

-- The address that goes to the fill ring, with the receive slot given back.
abbrev pub xdp_release : XdpRx → ℕ
xdp_release s = s.pending_rx_addr

-- Completions are taken off only while something is outstanding.
unfoldable pub complete_tx : ℕ → XdpTx → XdpTx
complete_tx rcvd s =
    if s.outstanding_tx == 0 then s else record s { outstanding_tx = sub32 s.outstanding_tx rcvd }

-- The turns of the loop in which the reservation failed, by the completions that each found.
unfoldable pub reserve_tx : List ℕ → XdpTx → XdpTx
unfolding complete_tx
reserve_tx [] s = s
reserve_tx (rcvd ∷ rs) s = reserve_tx rs (complete_tx rcvd s)

module _ (tx_pool_frames rx_pool_frames frame_size : ℕ) where
  unfoldable pub xdp_acquire : ℕ → XdpTx → ℕ × XdpTx
  xdp_acquire frame_len s = (
    s.tx_frame_nb * frame_size,
    record s { pending_tx_addr = s.tx_frame_nb * frame_size; pending_tx_len = frame_len },
  )

  unfoldable pub submit_tx : XdpTx → XdpTx
  submit_tx s = record s {
    outstanding_tx = u32 (s.outstanding_tx + 1);
    tx_frame_nb = bump tx_pool_frames s.tx_frame_nb;
  }

  -- The descriptor that is submitted, and the state after the completions that follow.
  unfoldable pub xdp_commit : List ℕ → ℕ → XdpTx → (ℕ × ℕ) × XdpTx
  unfolding reserve_tx submit_tx
  xdp_commit fails rcvd s =
      let r = reserve_tx fails s in
      ((r.pending_tx_addr, r.pending_tx_len), complete_tx rcvd (submit_tx r))

  -- Acquire, copy into the frame memory, commit; `none` is a copy outside it.
  unfoldable pub xdp_send :
      List ℕ → ℕ → List ℕ → List ℕ × XdpTx → Option ((ℕ × ℕ) × (List ℕ × XdpTx))
  unfolding xdp_acquire xdp_commit
  xdp_send fails rcvd frame (mem, s) = do
    let a = xdp_acquire (u32 (length frame)) s
    m ← memcpy a.0 frame mem
    let c = xdp_commit fails rcvd a.1
    some (c.0, (m, c.1))

  -- The template in the first `k` frames.
  unfoldable pub prefill_frames : ℕ → List ℕ → List ℕ → Option (List ℕ)
  prefill_frames zero template mem = some mem
  prefill_frames (suc k) template mem = do
    m ← prefill_frames k template mem
    memcpy (k * frame_size) template m

  -- A template larger than a frame aborts the program.
  unfoldable pub xdp_prefill : List ℕ → List ℕ → Option (List ℕ)
  unfolding prefill_frames
  xdp_prefill template mem =
      let all = prefill_frames tx_pool_frames template mem in
      if ltb frame_size (length template) then none else all

  -- The addresses of the receive frames from number `i` on.
  unfoldable pub fill_addrs : ℕ → ℕ → List ℕ
  fill_addrs zero i = []
  fill_addrs (suc k) i = (tx_pool_frames + i) * frame_size ∷ fill_addrs k (i + 1)

  -- What the fill ring is given at first; a reservation of any other size aborts the program.
  unfoldable pub populate_fill : ℕ → Option (List ℕ)
  unfolding fill_addrs
  populate_fill got =
      let addrs = fill_addrs got 0 in if got == rx_pool_frames then some addrs else none
