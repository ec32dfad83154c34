-- ===== src/I210/Tests.antt =====
-- The theorems on the driver at concrete rings and at a device of plain registers.
use abtrda.Prelude.{ℕ, ◌+◌, ◌*◌, ◌^◌, refl, arith, set, replicate, length-replicate}
use abtrda.I210.Tx.{zero_desc, TxRing, fill_desc, acquire, commit}
use abtrda.I210.Tx.Cursors.{IsValid}
use abtrda.I210.Tx.Reach.{init_tx, TxReach, TxReach-IsValid, starts, commits, writes_back}
use abtrda.I210.Rx.{RxRing, init_rx, try_receive, release}
use abtrda.I210.Rx.Reach.{
  RxReach-IsValid, releases, writes_back, RxReach, starts as rx_starts, IsValid as IsRxValid,
}

-- Eight buffers of 256 bytes, physically where they are.
abbrev ring8 : TxRing
ring8 = init_tx 8 256 (λ a. a) (replicate 8 zero_desc) (replicate 2048 0)

sent_state : TxRing
sent_state = commit 8 256 (λ a. a) (fill_desc 8 256 (λ a. a) 60 ring8)

sent_reached : TxReach 8 256 (λ a. a) sent_state
unfolding acquire sent_state
sent_reached =
    commits 60 ring8 0 (fill_desc 8 256 (λ a. a) 60 ring8) (replicate 2048 0)
      (starts (replicate 8 zero_desc) (replicate 2048 0) refl (length-replicate {A = ℕ} 2048 0))
      refl (length-replicate {A = ℕ} 2048 0)

TxReach-IsValid_example : IsValid 8 256 sent_state
TxReach-IsValid_example =
    TxReach-IsValid 8 256 (λ a. a) sent_state (omega arith) (omega arith) sent_reached

-- The NIC has written a frame of 60 bytes to the first descriptor, and the driver has released it.
abbrev filled_ring : RxRing
filled_ring =
    let r = init_rx 64 2048 (λ a. a) in
    record r { descs = set r.descs 0 (record { pkt_addr = 0; hdr_addr = 1 + 60 * 2 ^ 32 }) }

filled_reached : RxReach 64 2048 (λ a. a) (release 64 2048 (λ a. a) filled_ring)
unfolding try_receive init_rx
filled_reached =
    releases filled_ring 0 60
      (writes_back 0 (record { pkt_addr = 0; hdr_addr = 1 + 60 * 2 ^ 32 })
        (init_rx 64 2048 (λ a. a)) rx_starts)
      refl

RxReach-IsValid_example : IsRxValid 64 (release 64 2048 (λ a. a) filled_ring)
RxReach-IsValid_example =
    RxReach-IsValid 64 2048 (λ a. a) (release 64 2048 (λ a. a) filled_ring) (omega arith)
      (omega arith) filled_reached
