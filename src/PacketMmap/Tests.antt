-- ===== src/PacketMmap/Tests.antt =====
-- The theorems on the rings at concrete slots: status 0 is free, 1 is taken.
use abtrda.Prelude.{
  ℕ, ◌≡◌, refl, ◌≢◌, ◌⊎◌, true, false, some, List, [], ◌∷◌, arith, ◌==◌, replicate,
}
use abtrda.PacketMmap.Tx.{Slot, MmapTx, advance, send_frame, sent, busy}
use abtrda.PacketMmap.Tx.Ownership.{handed, send_frame-owned}
use abtrda.PacketMmap.Rx.{RxSlot}
use abtrda.PacketMmap.Rx.Cycle.{given_back, receive_run, receive_run-cycle}

abbrev free : Slot
free = record { tp_status = 0; tp_len = 0; tp_snaplen = 0; data_area = replicate 64 0 }

abbrev taken_slot : Slot
taken_slot = record { tp_status = 1; tp_len = 0; tp_snaplen = 0; data_area = replicate 64 0 }

-- The last of three slots is next.
abbrev ring3 : MmapTx
ring3 = record { slots = taken_slot ∷ free ∷ free ∷ []; next_slot = 2 }

abbrev frame3 : List ℕ
frame3 = 5 ∷ 6 ∷ 7 ∷ []

send_frame-owned_example :
    ((free.tp_status ≢ 0) × (send_frame 0 1 (busy ∷ sent ∷ []) frame3 ring3 ≡ some (false, ring3)))
    ⊎ ((free.tp_status ≡ 0)
        × (send_frame 0 1 (busy ∷ sent ∷ []) frame3 ring3
            ≡ some (
              true,
              record {
                slots = taken_slot ∷ free ∷ handed 0 1 frame3 free ∷ [];
                next_slot = advance 3 2;
              },
            )))
send_frame-owned_example =
    send_frame-owned 0 1 (busy ∷ sent ∷ []) frame3 ring3 tt (omega arith) (omega arith)

abbrev filled : ℕ → RxSlot
filled b = record { rx_status = 1; tp_mac = 2; rx_snaplen = 1; bytes = 0 ∷ 0 ∷ b ∷ [] }

receive_run-cycle_example :
    receive_run (λ s. s == 1) 0 2 (record { rx_slots = filled 8 ∷ filled 9 ∷ []; next_frame = 0 })
    ≡ (
      some (8 ∷ []) ∷ some (9 ∷ []) ∷ [],
      record {
        rx_slots =
            given_back (λ s. s == 1) 0 (filled 8) ∷ given_back (λ s. s == 1) 0 (filled 9) ∷ [];
        next_frame = 0;
      },
    )
receive_run-cycle_example =
    receive_run-cycle (λ s. s == 1) 0 (filled 8 ∷ filled 9 ∷ []) (omega arith) (refl, (refl, tt))
