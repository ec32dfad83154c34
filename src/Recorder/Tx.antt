-- ===== src/Recorder/Tx.antt =====
-- TxThread::run of src/app/SingleRecorder.hpp: the size guard, and the loop of pacing, acquiring,
-- stamping and committing. Frames committed are kept as a list, oldest first.
pub mod Numbering
mod Tests
use abtrda.Prelude.{
  ℕ, ◌+◌, Bool, true, false, Option, none, some, List, [], ◌∷◌, ◌++◌, ltb, if◌then◌else◌, u32,
  ◌>>=◌,
}
use abtrda.Frame.{frame_min_bytes, stamp_frame}
use abtrda.Recorder.Pacing.{Timespec, interval_ns, next_send}

-- What a turn of the loop meets: the end of the run (time over or a stop), or the slot that the ring
-- gives, if any, and the time of sending.
pub data TxTurn : Type 0 where
  over : TxTurn
  slot : Option (List ℕ) → ℕ → TxTurn

pub record Tx : Type 0 where
  pub seq : ℕ
  pub deadline_at : Timespec
  pub committed : List (List ℕ)
  pub tx_done : Bool

unfoldable pub pace : ℕ → Timespec → Timespec
pace us t = if ltb 0 (interval_ns us) then next_send us t else t

-- The stamped frame is committed; `none` is a store outside the slot.
unfoldable pub send_slot : Option (List ℕ) → ℕ → Tx → Option Tx
send_slot none t0 s = some s
send_slot (some buf) t0 s = do
  f ← stamp_frame s.seq t0 buf
  some (record s { seq = u32 (s.seq + 1); committed = s.committed ++ (f ∷ []) })

unfoldable pub tx_loop : ℕ → List TxTurn → Tx → Option Tx
unfolding send_slot pace
tx_loop us [] s = some s
tx_loop us (over ∷ ts) s = some (record s { tx_done = true })
tx_loop us (slot got t0 ∷ ts) s =
    send_slot got t0 (record s { deadline_at = pace us s.deadline_at }) >>= tx_loop us ts

-- A frame size below the minimum sends nothing and is done at once.
unfoldable pub tx_run : ℕ → ℕ → Timespec → List TxTurn → Option Tx
unfolding tx_loop
tx_run frame_size us now ts =
    let s : Tx = record { seq = 0; deadline_at = now; committed = []; tx_done = false } in
    let rest = tx_loop us ts s in
    if ltb frame_size frame_min_bytes then some (record s { tx_done = true }) else rest
