-- ===== src/Dpdk/Tests.antt =====
-- The theorems on the data path at concrete buffers.
use abtrda.Prelude.{ℕ, ◌-◌, ◌^◌, ◌≤◌, ◌<◌, ◌≡◌, refl, true, none, some, [], ◌∷◌, arith}
use abtrda.Bytes.{overlay, memcpy}
use abtrda.Dpdk.Rx.{DpdkRx}
use abtrda.Dpdk.Rx.Burst.{turns, turns-burst}
use abtrda.Dpdk.Tx.{Mbuf, Pending, nothing, reused, DpdkTx, dpdk_acquire, dpdk_commit}
use abtrda.Dpdk.Tx.Refcount.{Counted, Counted-positive, starts, acquires, commits, reaps}

-- The array still holds the buffers of an earlier burst.
abbrev used_up : DpdkRx
used_up = record { rx_burst = 1 ∷ 2 ∷ 3 ∷ 4 ∷ []; rx_count = 4; rx_idx = 4; pending_rx = none }

turns-burst_example :
    let t = turns 3 (7 ∷ 8 ∷ 9 ∷ []) used_up in
    (t.0 ≡ (some 7, some 7) ∷ (some 8, some 8) ∷ (some 9, some 9) ∷ [])
    × (t.1.rx_idx ≡ 3)
    × (t.1.rx_count ≡ 3)
turns-burst_example = turns-burst (7 ∷ 8 ∷ 9 ∷ []) used_up (omega arith) (omega arith)

-- A buffer is made for a frame of 60 bytes, which is sent, acquired again, and completed before the second
-- commit.
abbrev idle_tx : DpdkTx
idle_tx = record { tx_template = []; reuse_inline = true; tx_reuse = none; pending_tx = nothing }

abbrev new_mbuf : Mbuf
new_mbuf = record { refcnt = 1; data_len = 0; pkt_len = 0; room = [] }

abbrev sent_mbuf : ℕ → Mbuf
sent_mbuf count = record { refcnt = count; data_len = 60; pkt_len = 60; room = [] }

abbrev tx_with : ℕ → Pending → DpdkTx
tx_with count p = record idle_tx { tx_reuse = some (sent_mbuf count); pending_tx = p }

first_acquire : dpdk_acquire 60 (some new_mbuf) idle_tx ≡ some (true, tx_with 16384 reused)
unfolding dpdk_acquire memcpy overlay
first_acquire = refl

first_commit : dpdk_commit (0 ∷ 1 ∷ []) (tx_with 16384 reused) ≡ some (tx_with 16384 nothing)
unfolding dpdk_commit
first_commit = refl

second_acquire : dpdk_acquire 60 none (tx_with 16384 nothing) ≡ some (true, tx_with 16384 reused)
unfolding dpdk_acquire
second_acquire = refl

second_commit : dpdk_commit (1 ∷ []) (tx_with 16383 reused) ≡ some (tx_with 16383 nothing)
unfolding dpdk_commit
second_commit = refl

counted : Counted 256 (tx_with 16383 nothing) 1
counted =
    let made =
      acquires idle_tx _ 0 60 (some new_mbuf) true (starts idle_tx refl refl) first_acquire in
    let sent = commits _ _ 0 (0 ∷ 1 ∷ []) made refl (omega arith) first_commit in
    let again = acquires _ _ 1 60 none true sent second_acquire in
    let reaped = reaps (tx_with 16384 reused) (sent_mbuf 16384) 1 1 again refl (omega arith) in
    commits _ _ 0 (1 ∷ []) reaped refl (omega arith) second_commit

Counted-positive_example : (1 < 16383) × (1 ≤ 256) × (16383 < 2 ^ 16 - 16384)
Counted-positive_example =
    Counted-positive 256 (tx_with 16383 nothing) 1 (sent_mbuf 16383) (omega arith) counted refl
