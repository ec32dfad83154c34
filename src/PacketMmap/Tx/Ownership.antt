-- ===== src/PacketMmap/Tx/Ownership.antt =====
-- Which slots the sender writes: only its own, and only while the kernel does not have them.
use native.Mathlib.Decide.{ℕ_discrete}
use abtrda.Prelude.{
  ℕ, zero, suc, ◌≤◌, ◌<◌, ◌≡◌, refl, ap, ◌≢◌, ◌⊎◌, inl, inr, true, false, some, List, [], ◌∷◌,
  arith, length, set, length-set, get_or, get_or-set_self, u32,
}
use abtrda.Bytes.{overlay, memcpy}
use abtrda.PacketMmap.Tx.{
  Slot, no_slot, MmapTx, Kick, kick, advance, send_frame, prefill_slots, sent, busy, failed,
}

-- The kernel answers something other than busy in the end.
abbrev pub Answers : List Kick → Type 0
Answers [] = ⊥
Answers (sent ∷ ks) = Unit {0}
Answers (busy ∷ ks) = Answers ks
Answers (failed ∷ ks) = Unit {0}

kick-some : (ks : List Kick) → Answers ks → (rest : List Kick) × (kick ks ≡ some rest)
unfolding kick
kick-some [] h = elim h [ ]
kick-some (sent ∷ ks) h = (ks, refl)
kick-some (busy ∷ ks) h = kick-some ks h
kick-some (failed ∷ ks) h = (ks, refl)

-- What a list holds after two writes to it.
set-set : (xs : List Slot) (i : ℕ) (v w : Slot) → set (set xs i v) i w ≡ set xs i w
set-set [] i v w = refl
set-set (x ∷ xs) zero v w = refl
set-set (x ∷ xs) (suc i) v w = ap (◌∷◌ x) (set-set xs i v w)

module _ (available send_request : ℕ) where
  -- The slot as it is handed to the kernel.
  abbrev pub handed : List ℕ → Slot → Slot
  handed frame s = record {
    tp_status = send_request;
    tp_len = u32 (length frame);
    tp_snaplen = u32 (length frame);
    data_area = overlay 0 frame s.data_area;
  }

  send_available :
      (answers : List Kick) (frame : List ℕ) (r : MmapTx)
      → Answers answers
      → r.next_slot < length r.slots
      → length frame ≤ length (get_or r.slots r.next_slot no_slot).data_area
      → (get_or r.slots r.next_slot no_slot).tp_status ≡ available
      → send_frame available send_request answers frame r
        ≡ some (
          true,
          record {
            slots = set r.slots r.next_slot (handed frame (get_or r.slots r.next_slot no_slot));
            next_slot = advance (length r.slots) r.next_slot;
          },
        )
  unfolding send_frame memcpy
  send_available answers frame r a h f e =
      let s = get_or r.slots r.next_slot no_slot in
      let one = record s { tp_len = u32 (length frame); tp_snaplen = u32 (length frame) } in
      let two = record one { data_area = overlay 0 frame s.data_area } in
      let three = record two { tp_status = send_request } in
      let kicked = (kick-some answers a).1 in
      ground (
        arith,
        kicked,
        get_or-set_self r.slots r.next_slot one no_slot h,
        get_or-set_self (set r.slots r.next_slot one) r.next_slot two no_slot
            (omega (arith, length-set r.slots r.next_slot one)),
        set-set r.slots r.next_slot one two,
        set-set r.slots r.next_slot one three,
        set-set (set r.slots r.next_slot one) r.next_slot two three,
        length-set r.slots r.next_slot one,
        length-set (set r.slots r.next_slot one) r.next_slot two,
      )

  send_held :
      (answers : List Kick) (frame : List ℕ) (r : MmapTx)
      → (get_or r.slots r.next_slot no_slot).tp_status ≢ available
      → send_frame available send_request answers frame r ≡ some (false, r)
  unfolding send_frame
  send_held answers frame r ne = ground arith

  -- For a frame that fits the data area of the next slot, and a kernel that in the end answers something
  -- other than busy: when the kernel still has the next slot, nothing is sent and nothing
  -- changes; otherwise that slot is handed to the kernel with the frame and its length (32 bits), the
  -- cursor moves round the ring, and no other slot changes.
  pub send_frame-owned :
      (answers : List Kick) (frame : List ℕ) (r : MmapTx)
      → Answers answers
      → r.next_slot < length r.slots
      → length frame ≤ length (get_or r.slots r.next_slot no_slot).data_area
      → (((get_or r.slots r.next_slot no_slot).tp_status ≢ available)
          × (send_frame available send_request answers frame r ≡ some (false, r)))
        ⊎ (((get_or r.slots r.next_slot no_slot).tp_status ≡ available)
            × (send_frame available send_request answers frame r
                ≡ some (
                  true,
                  record {
                    slots =
                        set r.slots r.next_slot (handed frame (get_or r.slots r.next_slot no_slot));
                    next_slot = advance (length r.slots) r.next_slot;
                  },
                )))
  send_frame-owned answers frame r a h f =
      elim (ℕ_discrete (get_or r.slots r.next_slot no_slot).tp_status available) [
        | yes e ↦ inr (e, send_available answers frame r a h f e)
        | no ne ↦ inl (ne, send_held answers frame r ne)
      ]

  -- The template is in every slot that the kernel does not have.
  abbrev Stamped : List ℕ → List Slot → List Slot → Type 0
  Stamped template [] ts = ts ≡ []
  Stamped template (s ∷ ss) [] = ⊥
  Stamped template (s ∷ ss) (t ∷ ts) =
      (((s.tp_status ≢ available) × (t ≡ s))
        ⊎ ((s.tp_status ≡ available)
            × (t ≡ (record s { data_area = overlay 0 template s.data_area }))))
      × Stamped template ss ts

  abbrev pub Fits : List ℕ → List Slot → Type 0
  Fits template [] = Unit {0}
  Fits template (s ∷ ss) = (length template ≤ length s.data_area) × Fits template ss

  -- A template that fits every data area is written to exactly the slots that the kernel does not
  -- have, whose status and lengths stay as they are; the other slots are left alone.
  prefill_slots-Stamped :
      (template : List ℕ) (ss : List Slot)
      → Fits template ss
      → (ts : List Slot) × (prefill_slots available send_request template ss ≡ some ts)
        × Stamped template ss ts
  unfolding prefill_slots memcpy
  prefill_slots-Stamped template [] h = ([], refl, refl)
  prefill_slots-Stamped template (s ∷ ss) h =
      let (ts, e, st) = prefill_slots-Stamped template ss h.1 in
      elim (ℕ_discrete s.tp_status available) [
        | yes a ↦ (
          (record s { data_area = overlay 0 template s.data_area }) ∷ ts,
          ground (arith, a, e, h.0),
          (inr (a, refl), st),
        )
        | no ne ↦ (s ∷ ts, ground (arith, ne, e), (inl (ne, refl), st))
      ]
