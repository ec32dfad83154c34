-- ===== src/PacketMmap/Rx/Cycle.antt =====
-- The receiver takes the frames in the order of the slots.
use abtrda.Prelude.{
  ℕ, zero, suc, ◌+◌, ◌<◌, ◌≡◌, refl, ap, ap₂, ◌∙◌, Bool, true, Option, some, List, [], ◌∷◌, ◌++◌,
  map, arith, length, set, length-append, append_nil, append_assoc, get_or,
}
use abtrda.Bytes.{slice}
use abtrda.PacketMmap.Tx.{advance}
use abtrda.PacketMmap.Rx.{RxSlot, no_rx_slot, MmapRx, receive_slot, release_slot}

get_or-middle :
    (xs ys : List RxSlot) (s : RxSlot) → get_or (xs ++ (s ∷ ys)) (length xs) no_rx_slot ≡ s
get_or-middle [] ys s = refl
get_or-middle (x ∷ xs) ys s = get_or-middle xs ys s

set-middle :
    (xs ys : List RxSlot) (s t : RxSlot) → set (xs ++ (s ∷ ys)) (length xs) t ≡ xs ++ (t ∷ []) ++ ys
set-middle [] ys s t = refl
set-middle (x ∷ xs) ys s t = ap (◌∷◌ x) (set-middle xs ys s t)

module _ (is_user : ℕ → Bool) (tp_kernel : ℕ) where
  -- The kernel has filled every one of these slots.
  abbrev pub AllUser : List RxSlot → Type 0
  AllUser [] = Unit {0}
  AllUser (s ∷ ss) = (is_user s.rx_status ≡ true) × AllUser ss

  abbrev pub frame_of : RxSlot → List ℕ
  frame_of s = slice s.tp_mac s.rx_snaplen s.bytes

  abbrev pub given_back : RxSlot → RxSlot
  given_back s = record s { rx_status = tp_kernel }

  -- What `k` turns of receive and release give: the frames, and the ring they leave.
  pub receive_run : ℕ → MmapRx → List (Option (List ℕ)) × MmapRx
  receive_run zero r = ([], r)
  receive_run (suc k) r =
      let rest = receive_run k (release_slot is_user tp_kernel r) in
      (receive_slot is_user tp_kernel r ∷ rest.0, rest.1)

  receive_at :
      (done todo : List RxSlot) (s : RxSlot)
      → is_user s.rx_status ≡ true
      → receive_slot is_user tp_kernel
          (record { rx_slots = done ++ (s ∷ todo); next_frame = length done })
        ≡ some (frame_of s)
  unfolding receive_slot
  receive_at done todo s h = rw (get_or-middle done todo s, h) refl

  release_at :
      (done todo : List RxSlot) (s : RxSlot)
      → release_slot is_user tp_kernel
          (record { rx_slots = done ++ (s ∷ todo); next_frame = length done })
        ≡ (record {
          rx_slots = done ++ (given_back s ∷ []) ++ todo;
          next_frame = advance (length done + suc (length todo)) (length done);
        })
  unfolding release_slot
  release_at done todo s =
      rw
        (
          get_or-middle done todo s,
          length-append done (s ∷ todo),
          set-middle done todo s (given_back s),
        )
        refl

  AllTaken : List RxSlot → List RxSlot → Type 0
  AllTaken done todo =
      receive_run (length todo) (record { rx_slots = done ++ todo; next_frame = length done }) ≡ (
        map (λ s. some (frame_of s)) todo,
        record { rx_slots = done ++ map given_back todo; next_frame = 0 },
      )

  cursor_last : (n : ℕ) → advance (n + 1) n ≡ 0
  unfolding advance
  cursor_last n = ground arith

  cursor_step :
      (done : List RxSlot) (s : RxSlot) (k : ℕ)
      → advance (length done + suc (suc k)) (length done) ≡ length (done ++ (s ∷ []))
  unfolding advance
  cursor_step done s k = ground (arith, length-append done (s ∷ []))

  taken : (done todo : List RxSlot) (s : RxSlot) → AllUser (s ∷ todo) → AllTaken done (s ∷ todo)
  unfolding AllTaken receive_run
  taken done [] s h =
      rw (receive_at done [] s h.0, release_at done [] s)
        (ap₂ (λ xs n. (some (frame_of s) ∷ [], record { rx_slots = xs; next_frame = n }))
          (append_nil (done ++ (given_back s ∷ []))) (cursor_last (length done)))
  taken done (t ∷ todo) s h =
      rw
        (
          receive_at done (t ∷ todo) s h.0,
          release_at done (t ∷ todo) s,
          cursor_step done (given_back s) (length todo),
        )
        (ap (λ p. (some (frame_of s) ∷ p.0, p.1)) (taken (done ++ (given_back s ∷ [])) todo t h.1)
          ∙ ap
              (λ xs. (
                map (λ u. some (frame_of u)) (s ∷ t ∷ todo),
                record { rx_slots = xs; next_frame = 0 },
              ))
              (append_assoc done (given_back s ∷ []) (map given_back (t ∷ todo))))

  -- From the first slot of a ring that the kernel has filled, as many turns of receive and release as
  -- the ring has slots give the frame of every slot, in the order of the slots, and leave every slot given back
  -- and the cursor at the first slot again.
  pub receive_run-cycle :
      (slots : List RxSlot)
      → 0 < length slots
      → AllUser slots
      → receive_run (length slots) (record { rx_slots = slots; next_frame = 0 }) ≡ (
        map (λ s. some (frame_of s)) slots,
        record { rx_slots = map given_back slots; next_frame = 0 },
      )
  unfolding AllTaken
  receive_run-cycle [] z h = absurd (omega arith)
  receive_run-cycle (s ∷ slots) z h = taken [] slots s h
