-- ===== src/I210/Tx.antt =====
-- The transmit ring of Intel_I210 (acquire, commit, send, txReclaim, prefillRing). The descriptor is the
-- union of I210Registers.hpp: the status that the NIC writes back is the olinfoStatus word. The
-- physical addresses come from the DMA library, a parameter.
pub mod Cursors
pub mod Done
pub mod Slots
pub mod Reach
use Prim.Native.Nat.{bit_or}
use abtrda.Prelude.{
  ℕ, zero, suc, ◌+◌, ◌-◌, ◌*◌, ◌%◌, ◌^◌, Bool, true, false, Option, none, some, List, leb, ◌==◌,
  if◌then◌else◌, length, set, get_or, u32, ◌>>=◌,
}
use abtrda.Bytes.{memcpy}
use abtrda.Ring.{bump}

pub record TxDesc : Type 0 where
  pub buffer_addr : ℕ
  pub cmd_type_len : ℕ
  pub olinfo_status : ℕ

abbrev pub zero_desc : TxDesc
zero_desc = record { buffer_addr = 0; cmd_type_len = 0; olinfo_status = 0 }

pub record TxRing : Type 0 where
  pub descs : List TxDesc
  pub buffer : List ℕ
  pub tail : ℕ
  pub clean_head : ℕ
  pub in_flight : ℕ
  pub tdt : ℕ

-- EOP, IFCS, RS, DEXT and the advanced data type.
abbrev pub txd_cmd : ℕ
txd_cmd = 16777216 + 33554432 + 134217728 + 536870912 + 3145728

abbrev pub txd_paylen_shift : ℕ
txd_paylen_shift = 14

abbrev pub txd_stat_dd : TxDesc → Bool
txd_stat_dd d = d.olinfo_status % 2 == 1

-- A ring of `n` descriptors and `n` buffers of `buff_size` bytes; `phys` is the physical address of an
-- offset in the buffer.
module _ (n buff_size : ℕ) (phys : ℕ → ℕ) where
  -- The oldest descriptor in flight, which the NIC has marked done, is given back.
  unfoldable pub retire : TxRing → TxRing
  retire r = record r {
    descs =
        set r.descs r.clean_head
          (record (get_or r.descs r.clean_head zero_desc) { olinfo_status = 0 });
    clean_head = bump n r.clean_head;
    in_flight = r.in_flight - 1;
  }

  unfoldable pub tx_reclaim_from : ℕ → TxRing → TxRing
  unfolding retire
  tx_reclaim_from zero r = r
  tx_reclaim_from (suc k) r =
      let rest = tx_reclaim_from k (retire r) in
      if txd_stat_dd (get_or r.descs r.clean_head zero_desc) then rest else r

  -- The loop ends when nothing is in flight, so that number bounds its turns.
  unfoldable pub tx_reclaim : TxRing → TxRing
  tx_reclaim r = tx_reclaim_from r.in_flight r

  unfoldable pub fill_desc : ℕ → TxRing → TxRing
  fill_desc frame_len r = record r {
    descs = set r.descs r.tail (record {
      buffer_addr = phys (r.tail * buff_size);
      cmd_type_len = bit_or txd_cmd frame_len;
      olinfo_status = u32 (frame_len * 2 ^ txd_paylen_shift);
    });
  }

  -- Room for a frame, the offset of its buffer, once there is a free descriptor.
  unfoldable pub acquire_free : ℕ → TxRing → Option ℕ × TxRing
  unfolding fill_desc
  acquire_free frame_len r =
      if leb n r.in_flight then (none, r) else (some (r.tail * buff_size), fill_desc frame_len r)

  unfoldable pub acquire : ℕ → TxRing → Option ℕ × TxRing
  unfolding acquire_free tx_reclaim
  acquire frame_len r =
      if leb n r.in_flight then acquire_free frame_len (tx_reclaim r) else acquire_free frame_len r

  unfoldable pub commit : TxRing → TxRing
  commit r = record r {
    tail = bump n r.tail;
    in_flight = r.in_flight + 1;
    tdt = u32 (bump n r.tail);
  }

  -- `none` is a copy past the end of the buffer memory.
  unfoldable pub send_into : List ℕ → Option ℕ × TxRing → Option (Bool × TxRing)
  unfolding commit
  send_into frame (none, r) = some (false, r)
  send_into frame (some at, r) = do
    b ← memcpy at frame r.buffer
    some (true, commit (record r { buffer = b }))

  unfoldable pub send : List ℕ → TxRing → Option (Bool × TxRing)
  unfolding send_into acquire
  send frame r = send_into frame (acquire (u32 (length frame)) r)

  -- The template is copied to the first `k` buffers, in order.
  unfoldable pub prefill : ℕ → List ℕ → TxRing → Option TxRing
  prefill zero template r = some r
  prefill (suc k) template r = do
    s ← prefill k template r
    b ← memcpy (k * buff_size) template s.buffer
    some (record s { buffer = b })

  unfoldable pub prefill_ring : List ℕ → TxRing → Option TxRing
  unfolding prefill
  prefill_ring template r = prefill n template r
