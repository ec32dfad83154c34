-- ===== src/I210/Tx/Slots.antt =====
-- The slot, the descriptor and the buffer memory after a send: send of
-- src/backends/IGBCustomPMD/Intel_I210.hpp.
use Prim.Native.Nat.{bit_or}
use native.Mathlib.Nat.{mul-le-mul_right}
use abtrda.Prelude.{
  ℕ, suc, ◌+◌, ◌-◌, ◌*◌, ◌^◌, ◌≤◌, ◌<◌, ◌≡◌, refl, ap, ap₂, subst, ◌∙◌, length-set, get_or,
  get_or-set_self, ◌⊎◌, inl, inr, Bool, true, false, Option, some, List, arith, leb, length, u32,
}
use abtrda.Bytes.{overlay, slice, memcpy}
use abtrda.Bytes.Laws.{length-overlay, slice-overlay_self}
use abtrda.Ring.{bump, Ahead}
use abtrda.I210.Tx.{
  TxDesc, zero_desc, TxRing, txd_cmd, txd_paylen_shift, fill_desc, acquire, commit, send_into, send,
}
use abtrda.I210.Tx.Done.{is_done, Back, Got, acquire-Got}
use abtrda.I210.Tx.Cursors.{IsValid, acquire-Acquired, commit-IsValid}

module _ (n buff_size : ℕ) (phys : ℕ → ℕ) where
  slot_fits : (t : ℕ) → t < n → t * buff_size + buff_size ≤ n * buff_size
  slot_fits t h = omega (arith, mul-le-mul_right {m = suc t} {n = n} buff_size h)

  -- The frame has gone into the slot at the old tail: its descriptor has the buffer's address and the frame's
  -- length, the buffer memory differs only in the frame's bytes, the slots that were taken back for it
  -- are the oldest and were all marked done by the NIC, and the slot is none of those still in flight.
  pub record Sent (frame : List ℕ) (r s : TxRing) : Type 0 where
    pub follows : s.tail ≡ bump n r.tail
    pub writes : s.buffer ≡ overlay (r.tail * buff_size) frame r.buffer
    pub holds : slice (r.tail * buff_size) (length frame) s.buffer ≡ frame
    pub described : get_or s.descs r.tail zero_desc ≡ record {
      buffer_addr = phys (r.tail * buff_size);
      cmd_type_len = bit_or txd_cmd (u32 (length frame));
      olinfo_status = u32 (u32 (length frame) * 2 ^ txd_paylen_shift);
    }
    pub back : ℕ
    pub counted : s.in_flight + back ≡ r.in_flight + 1
    pub moved : Ahead n r.clean_head back s.clean_head
    pub done : (j slot : ℕ) → j < back → Ahead n r.clean_head j slot → is_done r slot ≡ true
    pub unused : Ahead n s.clean_head (s.in_flight - 1) r.tail

  -- The two outcomes of `send`.
  abbrev pub Delivered : List ℕ → TxRing → Bool × TxRing → Type 0
  Delivered frame r o =
      ((o.0 ≡ false) × (o.1 ≡ r) × (r.in_flight ≡ n) × (is_done r r.clean_head ≡ false))
      ⊎ ((o.0 ≡ true) × Sent frame r o.1)

  send_into-Sent :
      (frame : List ℕ) (r m : TxRing)
      → n ≤ 2 ^ 32
      → length frame ≤ buff_size
      → m.in_flight < n
      → Back n buff_size phys r m
      → IsValid n buff_size (fill_desc n buff_size phys (u32 (length frame)) m)
      → (s : TxRing) × (send_into n buff_size phys frame
            (some (m.tail * buff_size), fill_desc n buff_size phys (u32 (length frame)) m)
          ≡ some (true, s))
        × IsValid n buff_size s
        × Sent frame r s
  unfolding send_into memcpy fill_desc commit
  send_into-Sent frame r m w f room b v = (
    commit n buff_size phys full,
    rw inside refl,
    commit-IsValid n buff_size phys full w room (ground (arith, v, kept)),
    record {
      follows = ap (bump n) b.same_tail;
      writes = ap₂ (λ t x. overlay (t * buff_size) frame x) b.same_tail b.same_buffer;
      holds =
          subst (λ t. slice (t * buff_size) (length frame) full.buffer ≡ frame) b.same_tail
            (slice-overlay_self (m.tail * buff_size) frame m.buffer fits);
      described =
          subst (λ t. get_or filled.descs t zero_desc ≡ desc t) b.same_tail
            (get_or-set_self m.descs m.tail (desc m.tail) zero_desc room_for);
      back = b.back;
      counted = omega (arith, b.counted);
      moved = b.moved;
      done = b.done;
      unused =
          subst (Ahead n m.clean_head (m.in_flight + 1 - 1)) b.same_tail (ground (arith, v.spans));
    },
  )
    where
      desc : ℕ → TxDesc
      desc t = record {
        buffer_addr = phys (t * buff_size);
        cmd_type_len = bit_or txd_cmd (u32 (length frame));
        olinfo_status = u32 (u32 (length frame) * 2 ^ txd_paylen_shift);
      }

      filled : TxRing
      filled = fill_desc n buff_size phys (u32 (length frame)) m

      full : TxRing
      full = record filled { buffer = overlay (m.tail * buff_size) frame m.buffer }

      room_for : m.tail < length m.descs
      room_for = omega (arith, v.spans.1, v.sized, length-set m.descs m.tail (desc m.tail))

      fits : m.tail * buff_size + length frame ≤ length m.buffer
      fits = omega (arith, slot_fits m.tail v.spans.1, v.roomy)

      inside : leb (m.tail * buff_size + length frame) (length m.buffer) ≡ true
      inside = ground (arith, fits)

      kept : length (overlay (m.tail * buff_size) frame m.buffer) ≡ length m.buffer
      kept = length-overlay (m.tail * buff_size) frame m.buffer

  -- The result of `send` before and after the offset is known.
  Delivers : List ℕ → TxRing → Option (Bool × TxRing) → Type 0
  Delivers frame r o =
      (sent : Bool) × (s : TxRing) × (o ≡ some (sent, s))
      × IsValid n buff_size s
      × Delivered frame r (sent, s)

  deliver :
      (frame : List ℕ) (r : TxRing) (a : Option ℕ × TxRing)
      → n ≤ 2 ^ 32
      → length frame ≤ buff_size
      → IsValid n buff_size a.1
      → Got n buff_size phys (u32 (length frame)) r a.0 a.1
      → Delivers frame r (send_into n buff_size phys frame a)
  unfolding Delivers send_into
  deliver frame r (o, x) w f v (inl (e, same, full, waits)) = (
    false,
    x,
    ap (λ q. send_into n buff_size phys frame (q, x)) e,
    v,
    inl (refl, same, full, waits),
  )
  deliver frame r (o, x) w f v (inr (m, e, same, room, b)) =
      let (s, eq, u, sent) =
        send_into-Sent frame r m w f room b (subst (IsValid n buff_size) same v) in
      (
        true,
        s,
        ap₂ (λ q y. send_into n buff_size phys frame (q, y)) e same ∙ eq,
        u,
        inr (refl, sent),
      )

  pub send-delivers :
      (frame : List ℕ) (r : TxRing)
      → 0 < n
      → n ≤ 2 ^ 32
      → length frame ≤ buff_size
      → IsValid n buff_size r
      → (sent : Bool) × (s : TxRing) × (send n buff_size phys frame r ≡ some (sent, s))
        × IsValid n buff_size s
        × Delivered frame r (sent, s)
  unfolding send Delivers
  send-delivers frame r z w f v =
      let a = acquire-Acquired n buff_size phys (u32 (length frame)) r v in
      deliver frame r (acquire n buff_size phys (u32 (length frame)) r) w f a.valid
        (acquire-Got n buff_size phys (u32 (length frame)) r z v)
