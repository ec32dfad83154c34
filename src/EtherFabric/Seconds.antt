-- ===== src/EtherFabric/Seconds.antt =====
-- The stamps as points on a circle of one second.
use abtrda.Prelude.{
  ℕ, ◌+◌, ◌-◌, ◌*◌, ◌/◌, ◌%◌, ◌^◌, ◌≤◌, ◌<◌, ◌≡◌, ◌⊎◌, inl, inr, ap, false, ◌||◌, some, arith, ◌==◌,
  u32,
}
use abtrda.EtherFabric.{
  one_sec_qns, qns_overrun, tx_stamp_none, hw_fold_rx, hw_delta, hw_round_trip, hw_turnaround,
}

-- For a raw stamp below a second, a correction of at most 22 quarters forward, or a correction back
-- of `back` quarters as a wrapped 32-bit word, gives the corrected point of the second. (Back corrections
-- are bounded so that the wrapped sum stays clear of the 22 quarters after the second.)
hw_fold_rx-point :
    (raw forward back : ℕ)
    → raw < one_sec_qns
    → forward ≤ qns_overrun + 2
    → 0 < back
    → back ≤ 2 ^ 32 - one_sec_qns - qns_overrun - 2
    → (hw_fold_rx raw forward ≡ some ((raw + forward) % one_sec_qns))
      × (hw_fold_rx raw (2 ^ 32 - back) ≡ some ((raw + one_sec_qns - back) % one_sec_qns))
unfolding hw_fold_rx
hw_fold_rx-point raw forward back r f p b = ground arith

-- Between two points of the second, the difference is the time from the first to the next time the
-- second comes round: below a second, and added to the first it gives the second one.
hw_delta-circle :
    (end_qns begin_qns : ℕ)
    → end_qns < one_sec_qns
    → begin_qns < one_sec_qns
    → (hw_delta end_qns begin_qns < one_sec_qns)
      × ((begin_qns + hw_delta end_qns begin_qns) % one_sec_qns ≡ end_qns)
unfolding hw_delta
hw_delta-circle end_qns begin_qns e b = ground arith

unpack :
    (hi lo : ℕ) → lo < 2 ^ 32 → ((hi * 2 ^ 32 + lo) / 2 ^ 32 ≡ hi) × (u32 (hi * 2 ^ 32 + lo) ≡ lo)
unpack hi lo h = omega arith

-- The difference is the one on the circle.
hw_delta-turn :
    (end_qns begin_qns : ℕ)
    → end_qns < one_sec_qns
    → begin_qns < one_sec_qns
    → hw_delta end_qns begin_qns ≡ (end_qns + one_sec_qns - begin_qns) % one_sec_qns
unfolding hw_delta
hw_delta-turn end_qns begin_qns e b = ground arith

-- A stamp that the decoders take.
stamped_test : (tx : ℕ) → 0 < tx → tx < one_sec_qns → (tx == 0 || tx == tx_stamp_none) ≡ false
stamped_test tx p h = ground arith

-- A raw receive stamp and a correction, and the point of the second that they mean: at most 22 quarters
-- forward, or `back` quarters back as a wrapped 32-bit word.
abbrev pub Corrected : ℕ → ℕ → ℕ → Type 0
Corrected raw correction point =
    ((correction ≤ qns_overrun + 2) × (point ≡ (raw + correction) % one_sec_qns))
    ⊎ ((back : ℕ) × (0 < back)
        × (back ≤ 2 ^ 32 - one_sec_qns - qns_overrun - 2)
        × (correction ≡ 2 ^ 32 - back)
        × (point ≡ (raw + one_sec_qns - back) % one_sec_qns))

fold-Corrected :
    (raw correction point : ℕ)
    → raw < one_sec_qns
    → Corrected raw correction point
    → (hw_fold_rx raw correction ≡ some point) × (point < one_sec_qns)
unfolding hw_fold_rx
fold-Corrected raw correction point r (inl (f, p)) = ground (arith, r, f, p)
fold-Corrected raw correction point r (inr (back, z, b, e, p)) = ground (arith, r, z, b, e, p)

-- A packed sample of a receive stamp below a second and a transmit stamp, not zero, below a second; the
-- receive stamp is corrected by at most 22 quarters forward, or back by a wrapped word (far enough
-- from the 22 quarters), to a point of the second. The client decodes the sample as the time from the
-- transmit stamp on to that point, the server as the time from that point on to the transmit stamp, round
-- the second in both cases.
pub hw_round_trip-wait :
    (raw tx correction point : ℕ)
    → raw < one_sec_qns
    → 0 < tx
    → tx < one_sec_qns
    → Corrected raw correction point
    → (hw_round_trip (raw * 2 ^ 32 + tx) correction
        ≡ some ((point + one_sec_qns - tx) % one_sec_qns))
      × (hw_turnaround (raw * 2 ^ 32 + tx) correction
          ≡ some ((tx + one_sec_qns - point) % one_sec_qns))
unfolding hw_round_trip hw_turnaround
hw_round_trip-wait raw tx correction point r p t c =
    let u = unpack raw tx (omega arith) in
    let f = fold-Corrected raw correction point r c in
    (
      rw (u.0, u.1, f.0, stamped_test tx p t) (ap some (hw_delta-turn point tx f.1 t)),
      rw (u.0, u.1, f.0, stamped_test tx p t) (ap some (hw_delta-turn tx point t f.1)),
    )
