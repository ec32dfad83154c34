-- ===== src/AfXdp/Tests.antt =====
-- The theorems on the frames at concrete pools of eight frames of 2048 bytes.
use abtrda.Prelude.{◌+◌, ◌*◌, ◌≤◌, ◌<◌, ◌≡◌, ℕ, List, some, refl, [], ◌∷◌, arith}
use abtrda.Ring.{bump}
use abtrda.AfXdp.{XdpTx, xdp_receive, xdp_acquire, xdp_commit, fill_addrs, populate_fill}
use abtrda.AfXdp.Frames.{
  count_frame, Flow, addresses, Flow-conserves, Between, xdp_commit-apart, starts, delivers, turns,
}

abbrev pool3 : List ℕ
pool3 = 16384 ∷ 18432 ∷ 20480 ∷ []

pool3-populated : populate_fill 8 3 2048 3 ≡ some pool3
unfolding populate_fill
pool3-populated = refl

-- The kernel has delivered the second frame of the fill ring, past a headroom of 256 bytes, and the driver
-- has released it.
released : Flow 2048 pool3 (16384 ∷ 20480 ∷ 18688 ∷ []) [] (record { pending_rx_addr = 18688 })
unfolding xdp_receive
released =
    turns (16384 ∷ 20480 ∷ []) [] (18688, 60) (record { pending_rx_addr = 0 })
      (delivers (16384 ∷ []) (20480 ∷ []) [] (record { pending_rx_addr = 0 }) 18432 18688 60
        (starts (record { pending_rx_addr = 0 })) refl)

Flow-conserves_example :
    count_frame 2048 9 (16384 ∷ 20480 ∷ 18688 ∷ []) + count_frame 2048 9 (addresses []) ≡ 1
Flow-conserves_example =
    Flow-conserves 8 3 2048 (omega arith) 3 pool3 (16384 ∷ 20480 ∷ 18688 ∷ []) []
      (record { pending_rx_addr = 18688 }) 9 pool3-populated released (omega arith) (omega arith)

-- The last frame of the pool is next, and one reservation fails first.
abbrev last_frame : XdpTx
last_frame = record { tx_frame_nb = 7; pending_tx_addr = 0; pending_tx_len = 0; outstanding_tx = 8 }

xdp_commit-apart_example :
    let a = xdp_acquire 8 8 2048 60 last_frame in
    let c = xdp_commit 8 8 2048 (2 ∷ []) 1 a.1 in
    (c.0 ≡ (a.0, 60))
    × (a.0 ≡ 7 * 2048)
    × (a.0 + 2048 ≤ 8 * 2048)
    × Between (a.0 + 60) ((8 + 8) * 2048) 2048 (fill_addrs 8 8 2048 8 0)
    × (c.1.tx_frame_nb ≡ bump 8 7)
    × (c.1.tx_frame_nb < 8)
    × Between (8 * 2048) ((8 + 8) * 2048) 2048 (fill_addrs 8 8 2048 8 0)
xdp_commit-apart_example =
    xdp_commit-apart 8 8 2048 60 (2 ∷ []) 1 last_frame (omega arith) (omega arith)
