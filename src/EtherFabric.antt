-- ===== src/EtherFabric.antt =====
-- The hardware time stamp arithmetic of
-- src/backends/EtherFabricVirtualInterface/EtherFabricVirtualInterface.hpp: quarters of a
-- nanosecond, modulo one second, and the ring of transmit stamps.
pub mod Seconds
pub mod Stamps
pub mod Events
pub mod StampQueue
pub mod StampRun
pub mod Accounting
pub mod Ctpio
pub mod Image
pub mod Send
pub mod Window
pub mod Tuned
pub mod Receive
pub mod Cycle
mod Runs
mod Tests
use abtrda.Prelude.{
  ℕ, ◌+◌, ◌-◌, ◌/◌, ◌%◌, ◌^◌, ◌||◌, Option, none, some, List, ltb, leb, ◌==◌, if◌then◌else◌, get_or,
  u32, u64, sub64,
}

abbrev pub one_sec_qns : ℕ
one_sec_qns = 4000000000

abbrev pub qns_overrun : ℕ
qns_overrun = 20

abbrev pub tx_stamp_none : ℕ
tx_stamp_none = 2 ^ 32 - 1

-- A sum at or past the second is folded back, or, when it had gone below zero and wrapped, forward.
unfoldable pub fold_minor : ℕ → ℕ
fold_minor minor =
    if leb one_sec_qns minor
    then (if ltb minor (one_sec_qns + qns_overrun + 2)
        then minor - one_sec_qns
        else u32 (minor + one_sec_qns))
    else minor

unfoldable pub hw_fold_rx : ℕ → ℕ → Option ℕ
unfolding fold_minor
hw_fold_rx raw correction =
    if raw == 2 ^ 32 - 1 then none else some (fold_minor (u32 (raw + correction)))

-- The signed difference, a second added when it is negative.
unfoldable pub hw_delta : ℕ → ℕ → ℕ
hw_delta end_qns begin_qns =
    if ltb end_qns begin_qns then sub64 (end_qns + one_sec_qns) begin_qns else end_qns - begin_qns

unfoldable pub hw_round_trip_from : Option ℕ → ℕ → Option ℕ
hw_round_trip_from none tx = none
hw_round_trip_from (some rx) tx =
    if tx == 0 || tx == tx_stamp_none then none else some (hw_delta rx tx)

unfoldable pub hw_round_trip : ℕ → ℕ → Option ℕ
unfolding hw_round_trip_from
hw_round_trip packed rx_correction =
    hw_round_trip_from (hw_fold_rx (packed / 2 ^ 32) rx_correction) (u32 packed)

unfoldable pub hw_turnaround_from : Option ℕ → ℕ → Option ℕ
hw_turnaround_from none tx = none
hw_turnaround_from (some rx) tx =
    if tx == 0 || tx == tx_stamp_none then none else some (hw_delta tx rx)

unfoldable pub hw_turnaround : ℕ → ℕ → Option ℕ
unfolding hw_turnaround_from
hw_turnaround packed rx_correction =
    hw_turnaround_from (hw_fold_rx (packed / 2 ^ 32) rx_correction) (u32 packed)

-- The ring of transmit stamps: an entry has the sequence number of its frame in the high half and the
-- stamp in the low one.
pub record StampRing : Type 0 where
  pub tx_stamp : List ℕ
  pub tx_tail : ℕ
  pub ts_cursor : ℕ
  pub ts_overflow : ℕ

-- An entry of another frame has overwritten the one that is due: the cursor gives up to the tail.
unfoldable pub take_stamp : ℕ → StampRing → Option (ℕ × ℕ) × StampRing
take_stamp entry r =
    if entry / 2 ^ 32 == r.ts_cursor
    then (some (entry / 2 ^ 32, u32 entry), record r { ts_cursor = u32 (r.ts_cursor + 1) })
    else (none, record r { ts_overflow = u64 (r.ts_overflow + 1); ts_cursor = r.tx_tail })

-- The sequence number and the stamp that are due, on a ring of `nb_tx_bufs` entries.
unfoldable pub poll_tx_timestamp : ℕ → StampRing → Option (ℕ × ℕ) × StampRing
unfolding take_stamp
poll_tx_timestamp nb_tx_bufs r =
    let got = take_stamp (get_or r.tx_stamp (r.ts_cursor % nb_tx_bufs) 0) r in
    if r.ts_cursor == r.tx_tail then (none, r) else got
