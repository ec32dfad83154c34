-- ===== src/EtherFabric/Stamps.antt =====
-- Polling the transmit stamps comes to an end, and gives each stamp to its own frame.
use native.Mathlib.Decide.{ℕ_discrete}
use abtrda.Prelude.{
  ℕ, ◌/◌, ◌%◌, ◌^◌, ◌<◌, ◌≡◌, refl, ◌≢◌, ◌⊎◌, inl, inr, true, false, Option, none, some, arith,
  ◌==◌, get_or, sub32,
}
use abtrda.EtherFabric.{StampRing, take_stamp, poll_tx_timestamp}

-- The frames between the cursor and the tail, round the 32-bit numbers.
abbrev behind : StampRing → ℕ
behind r = sub32 r.tx_tail r.ts_cursor

-- A poll answers nothing, or the frame that is due.
abbrev IsDue : Option (ℕ × ℕ) → ℕ → Type 0
IsDue none cursor = Unit {0}
IsDue (some d) cursor = d.0 ≡ cursor

take_stamp-IsDue :
    (entry : ℕ) (r : StampRing)
    → r.ts_cursor < 2 ^ 32
    → r.tx_tail < 2 ^ 32
    → r.ts_cursor ≢ r.tx_tail
    → (behind (take_stamp entry r).1 < behind r)
      × ((take_stamp entry r).1.ts_cursor < 2 ^ 32)
      × IsDue (take_stamp entry r).0 r.ts_cursor
unfolding take_stamp
take_stamp-IsDue entry r c t n = elim (ℕ_discrete (entry / 2 ^ 32) r.ts_cursor) [
  | yes e ↦
      let b : (entry / 2 ^ 32 == r.ts_cursor) ≡ true = ground (arith, e) in
      rw b (ground arith, ground arith, e)
  | no e ↦
      let b : (entry / 2 ^ 32 == r.ts_cursor) ≡ false = ground (arith, e) in
      rw b (ground arith, t, tt)
]

-- With 32-bit numbers, a poll either finds the cursor at the tail, and then answers nothing and
-- changes nothing, or brings the cursor strictly closer to the tail, so that only so many polls as
-- there are frames outstanding find work; a stamp that it answers is that of the frame at the cursor.
poll_tx_timestamp-progress :
    (nb_tx_bufs : ℕ) (r : StampRing)
    → r.ts_cursor < 2 ^ 32
    → r.tx_tail < 2 ^ 32
    → let p = poll_tx_timestamp nb_tx_bufs r in
      ((r.ts_cursor ≡ r.tx_tail) × (p.0 ≡ none) × (p.1 ≡ r))
      ⊎ ((behind p.1 < behind r) × (p.1.ts_cursor < 2 ^ 32) × IsDue p.0 r.ts_cursor)
unfolding poll_tx_timestamp
poll_tx_timestamp-progress nb_tx_bufs r c t = elim (ℕ_discrete r.ts_cursor r.tx_tail) [
  | yes e ↦
      let b : (r.ts_cursor == r.tx_tail) ≡ true = ground (arith, e) in rw b (inl (e, refl, refl))
  | no n ↦
      let b : (r.ts_cursor == r.tx_tail) ≡ false = ground (arith, n) in
      rw b (inr (take_stamp-IsDue (get_or r.tx_stamp (r.ts_cursor % nb_tx_bufs) 0) r c t n))
]
