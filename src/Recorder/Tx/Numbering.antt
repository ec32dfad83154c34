-- ===== src/Recorder/Tx/Numbering.antt =====
-- The numbers and the times that the committed frames carry.
use abtrda.Prelude.{
  ℕ, ◌+◌, ◌^◌, ◌≤◌, ◌<◌, ◌≡◌, refl, sym, ap, ◌∙◌, true, false, Option, none, some, List, [], ◌∷◌,
  ◌++◌, map, arith, ltb, length, append_nil, append_assoc, u32,
}
use abtrda.Frame.{frame_min_bytes, Parsed, stamped}
use abtrda.Frame.Header.{stamp_of}
use abtrda.Frame.RoundTrip.{stamped_buf, stamp_frame-eq, stamp_of-stamped_buf}
use abtrda.Recorder.Pacing.{Timespec}
use abtrda.Recorder.Tx.{TxTurn, Tx, pace, tx_loop, tx_run, over, slot}

-- Every slot that the ring gives holds at least the minimum, and every time has 64 bits.
abbrev pub Roomy : List TxTurn → Type 0
Roomy [] = Unit {0}
Roomy (over ∷ ts) = Unit {0}
Roomy (slot none t0 ∷ ts) = Roomy ts
Roomy (slot (some buf) t0 ∷ ts) = (frame_min_bytes ≤ length buf) × (t0 < 2 ^ 64) × Roomy ts

-- The frames in the order of their turns, numbered from `n` on.
abbrev pub numbered : ℕ → List TxTurn → List Parsed
numbered n [] = []
numbered n (over ∷ ts) = []
numbered n (slot none t0 ∷ ts) = numbered n ts
numbered n (slot (some buf) t0 ∷ ts) = stamped (u32 n) t0 ∷ numbered (n + 1) ts

map-append : (f : List ℕ → Parsed) (xs ys : List (List ℕ)) → map f (xs ++ ys) ≡ map f xs ++ map f ys
map-append f [] ys = refl
map-append f (x ∷ xs) ys = ap (◌∷◌ (f x)) (map-append f xs ys)

Carries : ℕ → List TxTurn → Tx → Option Tx → Type 0
Carries n ts s o =
    (t : Tx) × (o ≡ some t) × (map stamp_of t.committed ≡ map stamp_of s.committed ++ numbered n ts)

tx_loop-Carries :
    (us n : ℕ) (ts : List TxTurn) (s : Tx)
    → s.seq ≡ u32 n
    → Roomy ts
    → Carries n ts s (tx_loop us ts s)
unfolding tx_loop Carries
tx_loop-Carries us n [] s e r = (s, refl, sym (append_nil (map stamp_of s.committed)))
tx_loop-Carries us n (over ∷ ts) s e r =
    (record s { tx_done = true }, refl, sym (append_nil (map stamp_of s.committed)))
tx_loop-Carries us n (slot none t0 ∷ ts) s e r =
    tx_loop-Carries us n ts (record s { deadline_at = pace us s.deadline_at }) e r
tx_loop-Carries us n (slot (some buf) t0 ∷ ts) s e r =
    let f = stamped_buf s.seq t0 buf in
    let next = record s {
      deadline_at = pace us s.deadline_at;
      seq = u32 (s.seq + 1);
      committed = s.committed ++ (f ∷ []);
    } in
    let (t, eq, sent) = tx_loop-Carries us (n + 1) ts next (omega (arith, e)) r.2 in
    let mark = stamp_of-stamped_buf s.seq t0 buf r.0 (omega (arith, e)) r.1 in
    (
      t,
      rw (stamp_frame-eq s.seq t0 buf r.0) eq,
      sent
          ∙ ap (λ xs. xs ++ numbered (n + 1) ts) (map-append stamp_of s.committed (f ∷ []))
          ∙ append_assoc (map stamp_of s.committed) (stamp_of f ∷ []) (numbered (n + 1) ts)
          ∙ ap (λ m. map stamp_of s.committed ++ (m ∷ numbered (n + 1) ts))
              (mark ∙ ap (λ k. stamped k t0) e),
    )

-- For a frame size of at least 26 and slots that hold at least 26 bytes, whatever turns find the ring full,
-- no store leaves a slot, and the frames committed carry the numbers 0, 1, 2 and so on (of 32
-- bits) in order, each with its own time of sending: no number is skipped or repeated.
pub tx_run-numbered :
    (frame_size us : ℕ) (now : Timespec) (ts : List TxTurn)
    → frame_min_bytes ≤ frame_size
    → Roomy ts
    → (t : Tx) × (tx_run frame_size us now ts ≡ some t) × (map stamp_of t.committed ≡ numbered 0 ts)
unfolding tx_run Carries
tx_run-numbered frame_size us now ts h r =
    let s : Tx = record { seq = 0; deadline_at = now; committed = []; tx_done = false } in
    let (t, e, sent) = tx_loop-Carries us 0 ts s refl r in (t, rw large e, sent)
  where
    large : ltb frame_size frame_min_bytes ≡ false
    large = ground (arith, h)
