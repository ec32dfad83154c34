-- ===== src/AntiReplay/Tests.antt =====
-- The theorems on the sequence gate at concrete frames.
use abtrda.Prelude.{ℕ, ◌+◌, ◌-◌, ◌^◌, ◌≡◌, refl, [], ◌∷◌, arith, length, u32}
use abtrda.AntiReplay.{accept}
use abtrda.AntiReplay.Accounting.{
  at_frame, ideal, accept-ideal, offer, highest, untouched, offer_accounts,
}

-- A gap of three frames across the wrap of the 32-bit number.
accept-ideal_example :
    accept (at_frame (2 ^ 32 - 2)) (u32 (2 ^ 32 + 2)) 5 1 ≡ ideal (2 ^ 32 - 2) (2 ^ 32 + 2) 5 1
accept-ideal_example = accept-ideal (2 ^ 32 - 2) (2 ^ 32 + 2) 5 1 (omega arith) (omega arith)

highest-three : highest 10 (12 ∷ 11 ∷ 15 ∷ []) ≡ 15
unfolding highest
highest-three = refl

-- Frames 10, 12, 11 (late) and 15.
offer_accounts_example :
    let t = offer untouched (10 ∷ 12 ∷ 11 ∷ 15 ∷ []) in
    (t.gate ≡ at_frame (highest 10 (12 ∷ 11 ∷ 15 ∷ [])))
    × (t.accepted + t.lost ≡ highest 10 (12 ∷ 11 ∷ 15 ∷ []) - 10 + 1)
    × (t.accepted + t.dropped ≡ length {A = ℕ} (12 ∷ 11 ∷ 15 ∷ []) + 1)
offer_accounts_example =
    offer_accounts 10 (12 ∷ 11 ∷ 15 ∷ []) (ground arith) (ground (arith, highest-three))
      (ground arith)
