-- ===== src/Verbs/Tests.antt =====
-- The theorems on the queues at concrete states.
use abtrda.Prelude.{◌+◌, ◌≤◌, ◌<◌, ◌≡◌, refl, true, false, some, List, [], ◌∷◌, arith}
use abtrda.Verbs.Tx.{VerbsTx, reap_limit, posted, verbs_commit}
use abtrda.Verbs.Tx.Depth.{in_flight, verbs_commit-fits}
use abtrda.Verbs.Rx.{Cqe, VerbsRx, verbs_receive, verbs_release}
use abtrda.Verbs.Rx.Lockstep.{IsLevel, InSlot, verbs_receive-IsLevel}

-- The 128th request of a queue of 256 with a signal every 64, one completion outstanding.
abbrev before : VerbsTx
before = record { tx_buf = []; max_inline = 128; tx_len = 60; tx_count = 127; unreaped = 1 }

verbs_commit-fits_example :
    (in_flight 256 64 2048 (posted 256 64 2048 before) ≡ in_flight 256 64 2048 before + 1)
    × (in_flight 256 64 2048 (posted 256 64 2048 before) ≤ 256)
    × ((s : VerbsTx) × (verbs_commit 256 64 2048 (false ∷ true ∷ []) before ≡ some s)
        × (s.unreaped < reap_limit 256 64 2048)
        × (s.tx_count ≡ 127 + 1))
verbs_commit-fits_example =
    verbs_commit-fits 256 64 2048 (false ∷ true ∷ []) before (omega arith) (omega arith)
      (omega arith) (omega arith) (omega arith) (omega arith)

-- Opcode 15 is invalid, 2 a received frame; entry 1 of eight is there in round zero.
abbrev level8 : VerbsRx
level8 = record { cq_ci = 1; rq_head = 9; cq_dbrec = 1; rq_dbrec = 9; last_slot = 0 }

abbrev entries : List Cqe
entries =
    (record { op_own = 240; wqe_counter = 0; byte_cnt = 0 })
    ∷ (record { op_own = 32; wqe_counter = 9; byte_cnt = 60 })
    ∷ []

level8-IsLevel : IsLevel 15 2 8 8 2048 level8
level8-IsLevel = ground arith

verbs_receive-IsLevel_example :
    let p = verbs_receive 15 2 8 8 2048 entries level8 in
    IsLevel 15 2 8 8 2048 p.1
    × IsLevel 15 2 8 8 2048 (verbs_release 15 2 8 8 2048 level8)
    × InSlot 15 2 8 8 2048 p.0 (record { op_own = 32; wqe_counter = 9; byte_cnt = 60 }) 1
verbs_receive-IsLevel_example =
    verbs_receive-IsLevel 15 2 8 8 2048 3 refl (omega arith) entries level8 (omega arith)
      level8-IsLevel
