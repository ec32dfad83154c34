-- ===== src/Dpdk/Rx.antt =====
-- Receiving in DPDK.hpp: a burst of packet buffers, handed out one at a time. A buffer is its handle, and
-- what rte_eth_rx_burst would write is an argument.
pub mod Burst
use abtrda.Prelude.{
  ℕ, ◌+◌, Option, none, List, ◌++◌, leb, ◌==◌, if◌then◌else◌, length, get_elem?, drop,
}

pub record DpdkRx : Type 0 where
  pub rx_burst : List ℕ
  pub rx_count : ℕ
  pub rx_idx : ℕ
  pub pending_rx : Option ℕ

-- The burst that the device delivers, over what the array held.
unfoldable pub refill : List ℕ → DpdkRx → DpdkRx
refill next s = record s {
  rx_burst = next ++ drop (length next) s.rx_burst;
  rx_count = length next;
  rx_idx = 0;
}

unfoldable pub take_next : DpdkRx → Option ℕ × DpdkRx
take_next s = let m = get_elem? s.rx_burst s.rx_idx in (m, record s { pending_rx = m })

unfoldable pub dpdk_receive : List ℕ → DpdkRx → Option ℕ × DpdkRx
unfolding refill take_next
dpdk_receive next s =
    let r = refill next s in
    if leb s.rx_count s.rx_idx
    then (if r.rx_count == 0 then (none, r) else take_next r)
    else take_next s

-- The buffer that is freed, with what is left.
unfoldable pub dpdk_release : DpdkRx → Option ℕ × DpdkRx
dpdk_release s = (s.pending_rx, record s { pending_rx = none; rx_idx = s.rx_idx + 1 })
