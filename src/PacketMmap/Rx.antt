-- ===== src/PacketMmap/Rx.antt =====
-- PacketMmapRx (src/backends/PacketMmap/PacketMmapRx.hpp): the slots that the kernel fills, taken and
-- given back one at a time. Which status words carry the kernel's user bit, and the word that gives
-- a slot back, are parameters.
pub mod Cycle
use abtrda.Prelude.{ℕ, Bool, Option, none, some, List, [], if◌then◌else◌, length, set, get_or}
use abtrda.Bytes.{slice}
use abtrda.PacketMmap.Tx.{advance}

-- A slot: the status, where the frame starts in it, the captured length, and its bytes.
pub record RxSlot : Type 0 where
  pub rx_status : ℕ
  pub tp_mac : ℕ
  pub rx_snaplen : ℕ
  pub bytes : List ℕ

abbrev pub no_rx_slot : RxSlot
no_rx_slot = record { rx_status = 0; tp_mac = 0; rx_snaplen = 0; bytes = [] }

pub record MmapRx : Type 0 where
  pub rx_slots : List RxSlot
  pub next_frame : ℕ

module _ (is_user : ℕ → Bool) (tp_kernel : ℕ) where
  unfoldable pub receive_slot : MmapRx → Option (List ℕ)
  receive_slot r =
      let s = get_or r.rx_slots r.next_frame no_rx_slot in
      if is_user s.rx_status then some (slice s.tp_mac s.rx_snaplen s.bytes) else none

  unfoldable pub release_slot : MmapRx → MmapRx
  unfolding advance
  release_slot r =
      let s = get_or r.rx_slots r.next_frame no_rx_slot in
      record {
        rx_slots = set r.rx_slots r.next_frame (record s { rx_status = tp_kernel });
        next_frame = advance (length r.rx_slots) r.next_frame;
      }
