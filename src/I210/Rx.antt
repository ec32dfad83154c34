-- ===== src/I210/Rx.antt =====
-- The receive ring of Intel_I210 (tryReceive, release and the ring set-up of initRx). The descriptor is
-- the union of I210Registers.hpp: the NIC's status and length are the low and the middle part of
-- the word that holds the header address.
pub mod Reach
use abtrda.Prelude.{
  ℕ, zero, suc, ◌+◌, ◌-◌, ◌*◌, ◌/◌, ◌%◌, ◌^◌, Bool, Option, none, some, List, [], ◌∷◌, ◌++◌, leb,
  ◌==◌, if◌then◌else◌, set, get_or, u32,
}
use abtrda.Ring.{bump}

pub record RxDesc : Type 0 where
  pub pkt_addr : ℕ
  pub hdr_addr : ℕ

abbrev pub zero_rx_desc : RxDesc
zero_rx_desc = record { pkt_addr = 0; hdr_addr = 0 }

abbrev pub status_error : RxDesc → ℕ
status_error d = d.hdr_addr % 2 ^ 32

abbrev pub wb_length : RxDesc → ℕ
wb_length d = d.hdr_addr / 2 ^ 32 % 2 ^ 16

abbrev pub rxd_stat_dd : RxDesc → Bool
rxd_stat_dd d = status_error d % 2 == 1

pub record RxRing : Type 0 where
  pub descs : List RxDesc
  pub tail : ℕ
  pub held : ℕ
  pub rdt : ℕ

abbrev pub rx_free_thresh : ℕ
rx_free_thresh = 32

-- A ring of `n` descriptors with buffers of `buff_size` bytes at the physical addresses `phys`.
module _ (n buff_size : ℕ) (phys : ℕ → ℕ) where
  abbrev pub fresh_desc : ℕ → RxDesc
  fresh_desc i = record { pkt_addr = phys (i * buff_size); hdr_addr = 0 }

  -- The first `k` descriptors as initRx programs them.
  unfoldable pub fresh_descs : ℕ → List RxDesc
  fresh_descs zero = []
  fresh_descs (suc k) = fresh_descs k ++ (fresh_desc k ∷ [])

  unfoldable pub init_rx : RxRing
  unfolding fresh_descs
  init_rx = record { descs = fresh_descs n; tail = 0; held = 0; rdt = u32 (n - 1) }

  -- The offset and the length of a received frame.
  unfoldable pub try_receive : RxRing → Option (ℕ × ℕ)
  try_receive r =
      let d = get_or r.descs r.tail zero_rx_desc in
      if rxd_stat_dd d then some (r.tail * buff_size, wb_length d) else none

  -- The tail register is written once enough descriptors are held.
  unfoldable pub flush : RxRing → RxRing
  flush r =
      if leb rx_free_thresh r.held
      then record r { rdt = u32 ((r.tail + n - 1) % n); held = 0 }
      else r

  unfoldable pub release : RxRing → RxRing
  unfolding flush
  release r = flush (record r {
    descs = set r.descs r.tail (fresh_desc r.tail);
    tail = bump n r.tail;
    held = r.held + 1;
  })
