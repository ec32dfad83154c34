-- ===== src/Ring.antt =====
-- Cursors that go round a ring of `n` slots, `(i + 1) & (n - 1)` in the sources: `n` is a power of two
-- there, so the mask is a remainder.
use native.Mathlib.Nat.{mod_self, mod-eq_of_lt}
use native.Mathlib.Decide.{dec_lt}
use abtrda.Prelude.{ℕ, suc, ◌+◌, ◌%◌, ◌<◌, ◌≡◌, ap, ◌∙◌, ◌⊎◌, inl, inr, arith}

abbrev pub bump : ℕ → ℕ → ℕ
bump n i = (i + 1) % n

pub bump-cases :
    (n i : ℕ) → i < n → ((i + 1 < n) × (bump n i ≡ i + 1)) ⊎ ((i + 1 ≡ n) × (bump n i ≡ 0))
bump-cases n i h = elim (dec_lt (i + 1) n) [
  | yes below ↦ inl (below, mod-eq_of_lt below)
  | no above ↦ let e : i + 1 ≡ n = omega arith in inr (e, ap (λ m. m % n) e ∙ mod_self n)
]

-- Slot `t` is `k` slots ahead of slot `h`, once round at most.
abbrev pub Ahead : ℕ → ℕ → ℕ → ℕ → Type 0
Ahead n h k t = (h < n) × (t < n) × ((t ≡ h + k) ⊎ (t + n ≡ h + k))

pub Ahead-bump_front : (n h k t : ℕ) → k < n → Ahead n h k t → Ahead n h (k + 1) (bump n t)
Ahead-bump_front n h k t b a = ground (arith, bump-cases n t a.1)

pub Ahead-bump_back : (n h k t : ℕ) → k < n → Ahead n h (k + 1) t → Ahead n (bump n h) k t
Ahead-bump_back n h k t b a = ground (arith, bump-cases n h a.0)

pub Ahead-unbump : (n h k t : ℕ) → k < n → h < n → Ahead n (bump n h) k t → Ahead n h (suc k) t
Ahead-unbump n h k t b l a = ground (arith, bump-cases n h l)
