-- ===== src/I210/Tx/Cursors.antt =====
-- The cursors of the transmit ring: what the driver's own operations and the NIC's write-back keep.
use Prim.Native.Nat.{bit_or}
use abtrda.Prelude.{
  ℕ, zero, suc, ◌-◌, ◌*◌, ◌^◌, ◌≤◌, ◌<◌, ◌≡◌, refl, ◌⊎◌, inl, inr, Bool, true, false, Option, none,
  some, arith, leb, if◌then◌else◌, Bool-cases, length, length-set, get_or, u32,
}
use abtrda.Ring.{Ahead, Ahead-bump_front, Ahead-bump_back}
use abtrda.I210.Tx.{
  zero_desc, TxRing, txd_cmd, txd_paylen_shift, txd_stat_dd, retire, tx_reclaim_from, tx_reclaim,
  fill_desc, acquire_free, acquire, commit,
}

-- The tail is as many slots ahead of the clean head as descriptors are in flight, never more than
-- the ring has, and the tail register is the tail.
pub record IsValid (n buff_size : ℕ) (r : TxRing) : Type 0 where
  pub sized : length r.descs ≡ n
  pub roomy : length r.buffer ≡ n * buff_size
  pub fits : r.in_flight ≤ n
  pub spans : Ahead n r.clean_head r.in_flight r.tail
  pub posted : r.tdt ≡ r.tail

module _ (n buff_size : ℕ) (phys : ℕ → ℕ) where
  pub retire-IsValid :
      (k : ℕ) (r : TxRing)
      → r.in_flight ≡ suc k
      → IsValid n buff_size r
      → IsValid n buff_size (retire n buff_size phys r)
  unfolding retire
  retire-IsValid k r e v = ground (
    arith,
    length-set r.descs r.clean_head
        (record (get_or r.descs r.clean_head zero_desc) { olinfo_status = 0 }),
    Ahead-bump_back n r.clean_head k r.tail,
  )

  pub tx_reclaim_from-IsValid :
      (k : ℕ) (r : TxRing)
      → k ≤ r.in_flight
      → IsValid n buff_size r
      → IsValid n buff_size (tx_reclaim_from n buff_size phys k r)
  unfolding tx_reclaim_from
  tx_reclaim_from-IsValid zero r h v = v
  tx_reclaim_from-IsValid (suc k) r h v =
      elim (Bool-cases (txd_stat_dd (get_or r.descs r.clean_head zero_desc))) [
        | inl e ↦ rw e (
            tx_reclaim_from-IsValid k (retire n buff_size phys r) (ground arith)
              (retire-IsValid (r.in_flight - 1) r (omega arith) v))
        | inr e ↦ rw e v
      ]

  -- What reclaiming leaves in flight, and that it stops at a descriptor the NIC still has.
  pub record Reclaimed (r s : TxRing) : Type 0 where
    pub fewer : s.in_flight ≤ r.in_flight
    pub same_tail : s.tail ≡ r.tail
    pub same_buffer : s.buffer ≡ r.buffer
    pub stops : (s.in_flight ≡ 0) ⊎ (txd_stat_dd (get_or s.descs s.clean_head zero_desc) ≡ false)

  pub tx_reclaim_from-Reclaimed :
      (k : ℕ) (r : TxRing) → k ≡ r.in_flight → Reclaimed r (tx_reclaim_from n buff_size phys k r)
  unfolding tx_reclaim_from
  tx_reclaim_from-Reclaimed zero r h = ground arith
  tx_reclaim_from-Reclaimed (suc k) r h =
      elim (Bool-cases (txd_stat_dd (get_or r.descs r.clean_head zero_desc))) [
        | inl e ↦
            rw e (
              ground
                (arith, tx_reclaim_from-Reclaimed k (retire n buff_size phys r) (ground arith)))
        | inr e ↦
            rw e
              (record { fewer = omega arith; same_tail = refl; same_buffer = refl; stops = inr e })
      ]

  fill_desc-IsValid :
      (frame_len : ℕ) (r : TxRing)
      → IsValid n buff_size r
      → IsValid n buff_size (fill_desc n buff_size phys frame_len r)
  unfolding fill_desc
  fill_desc-IsValid frame_len r v = ground (
    arith,
    length-set r.descs r.tail (record {
      buffer_addr = phys (r.tail * buff_size);
      cmd_type_len = bit_or txd_cmd frame_len;
      olinfo_status = u32 (frame_len * 2 ^ txd_paylen_shift);
    }),
  )

  -- An offset is given exactly when there is a free descriptor, and it is that of the tail.
  pub record Acquired (o : Option ℕ) (s : TxRing) : Type 0 where
    pub valid : IsValid n buff_size s
    pub gives :
        ((s.in_flight ≡ n) × (o ≡ none)) ⊎ ((s.in_flight < n) × (o ≡ some (s.tail * buff_size)))

  acquire_free-Acquired :
      (frame_len : ℕ) (r : TxRing)
      → IsValid n buff_size r
      → let a = acquire_free n buff_size phys frame_len r in Acquired a.0 a.1
  unfolding acquire_free
  acquire_free-Acquired frame_len r v = elim (Bool-cases (leb n r.in_flight)) [
    | inl e ↦ rw e (record { valid = v; gives = inl (ground arith, refl) })
    | inr e ↦ rw e (record {
      valid = fill_desc-IsValid frame_len r v;
      gives = inr (ground arith, ground arith);
    })
  ]

  acquire_if :
      (b : Bool) (frame_len : ℕ) (r : TxRing)
      → IsValid n buff_size r
      → let a =
          if b
          then acquire_free n buff_size phys frame_len (tx_reclaim n buff_size phys r)
          else acquire_free n buff_size phys frame_len r in
        Acquired a.0 a.1
  unfolding tx_reclaim
  acquire_if true frame_len r v =
      acquire_free-Acquired frame_len (tx_reclaim_from n buff_size phys r.in_flight r)
        (tx_reclaim_from-IsValid r.in_flight r (omega arith) v)
  acquire_if false frame_len r v = acquire_free-Acquired frame_len r v

  pub acquire-Acquired :
      (frame_len : ℕ) (r : TxRing)
      → IsValid n buff_size r
      → let a = acquire n buff_size phys frame_len r in Acquired a.0 a.1
  unfolding acquire
  acquire-Acquired frame_len r v = acquire_if (leb n r.in_flight) frame_len r v

  pub commit-IsValid :
      (r : TxRing)
      → n ≤ 2 ^ 32
      → r.in_flight < n
      → IsValid n buff_size r
      → IsValid n buff_size (commit n buff_size phys r)
  unfolding commit
  commit-IsValid r w h v =
      ground (arith, Ahead-bump_front n r.clean_head r.in_flight r.tail h v.spans)
