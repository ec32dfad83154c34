-- ===== src/Recorder/Tx/Tests.antt =====
-- The theorem on the sender at a concrete run: a full ring in the second turn.
use abtrda.Prelude.{◌≡◌, none, some, List, [], ◌∷◌, map, arith, replicate}
use abtrda.Frame.{stamped}
use abtrda.Frame.Header.{stamp_of}
use abtrda.Recorder.Pacing.{Timespec}
use abtrda.Recorder.Tx.{TxTurn, Tx, tx_run, over, slot}
use abtrda.Recorder.Tx.Numbering.{tx_run-numbered}

abbrev started : Timespec
started = record { tv_sec = 5; tv_nsec = 0 }

abbrev sends_two : List TxTurn
sends_two =
    slot (some (replicate 60 0)) 100 ∷ slot none 110 ∷ slot (some (replicate 60 0)) 120 ∷ over ∷ []

tx_run-numbered_example :
    (t : Tx) × (tx_run 60 10 started sends_two ≡ some t)
    × (map stamp_of t.committed ≡ stamped 0 100 ∷ stamped 1 120 ∷ [])
tx_run-numbered_example = tx_run-numbered 60 10 started sends_two (omega arith) (ground arith)
