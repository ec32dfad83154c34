-- ===== src/Bits/Split.antt =====
-- Bit operations field by field: a word is a high part over `k` low bits.
use Prim.Native.Nat.{min, max, bit_and, bit_or, bit_or-bitwise}
use native.Mathlib.Nat.{le_refl, pow-suc, div-div-eq-div-mul, mul_comm, mul_assoc}
use abtrda.Prelude.{
  ℕ, zero, suc, ◌+◌, ◌*◌, ◌/◌, ◌%◌, ◌^◌, ◌≤◌, ◌<◌, ◌≡◌, refl, sym, ap, ap₂, ◌∙◌, arith,
}
use abtrda.Bits.{or_digits}
use abtrda.Bits.Clear.{and_digits-suc, bit_and-fuel}
use abtrda.Bits.Mask.{mod_digits, pow_pos}

bit_and-step : (a b : ℕ) → bit_and a b ≡ bit_and (a / 2) (b / 2) * 2 + min (a % 2) (b % 2)
bit_and-step a b =
    bit_and-fuel (suc a) a b (omega arith)
    ∙ and_digits-suc a a b
    ∙ ap (λ x. x * 2 + min (a % 2) (b % 2)) (sym (bit_and-fuel a (a / 2) (b / 2) (omega arith)))

-- What halving does to the two parts.
halved : (m a : ℕ) → 0 < m → ((a % (m * 2)) / 2 ≡ a / 2 % m) × ((a % (m * 2)) % 2 ≡ a % 2)
halved m a h = (omega (arith, mod_digits m a h), omega (arith, mod_digits m a h))

quarter : (a m : ℕ) → a / 2 / m ≡ a / (m * 2)
quarter a m = div-div-eq-div-mul a 2 m ∙ ap (λ j. a / j) (mul_comm 2 m)

pub bit_and-split :
    (k a b : ℕ)
    → bit_and a b ≡ bit_and (a / 2 ^ k) (b / 2 ^ k) * 2 ^ k + bit_and (a % 2 ^ k) (b % 2 ^ k)
bit_and-split zero a b = omega (
  arith,
  ap₂ bit_and (let e : a / 1 ≡ a = omega arith in e) (let e : b / 1 ≡ b = omega arith in e),
  ap₂ bit_and (let e : a % 1 ≡ 0 = omega arith in e) (let e : b % 1 ≡ 0 = omega arith in e),
)
bit_and-split (suc k) a b =
    let m = 2 ^ k in
    let p = pow_pos k in
    let twice : 2 ^ suc k ≡ m * 2 = pow-suc 2 k in
    let high = ap₂ bit_and (quarter a m) (quarter b m) in
    let low =
      bit_and-step (a % (m * 2)) (b % (m * 2))
      ∙ ap₂ ◌+◌ (ap (λ x. x * 2) (ap₂ bit_and (halved m a p).0 (halved m b p).0))
          (ap₂ min (halved m a p).1 (halved m b p).1) in
    rw twice (
      omega (
        arith,
        bit_and-step a b,
        bit_and-split k (a / 2) (b / 2),
        high,
        low,
        mul_assoc (bit_and (a / (m * 2)) (b / (m * 2))) m 2,
        ap (λ x. x * m) high,
      ))

or_digits-suc :
    (n a b : ℕ) → or_digits (suc n) a b ≡ or_digits n (a / 2) (b / 2) * 2 + max (a % 2) (b % 2)
or_digits-suc zero zero b = omega arith
or_digits-suc (suc n) zero b = omega arith
or_digits-suc n (suc a) b = refl

or_digits-fuel : (n m a b : ℕ) → a ≤ n → a ≤ m → or_digits n a b ≡ or_digits m a b
or_digits-fuel zero zero a b h k = refl
or_digits-fuel zero (suc m) zero b h k = refl
or_digits-fuel (suc n) zero zero b h k = refl
or_digits-fuel zero (suc m) (suc a) b h k = absurd (omega arith)
or_digits-fuel (suc n) zero (suc a) b h k = absurd (omega arith)
or_digits-fuel (suc n) (suc m) a b h k = omega (
  arith,
  or_digits-suc n a b,
  or_digits-suc m a b,
  or_digits-fuel n m (a / 2) (b / 2) (omega arith) (omega arith),
)

bit_or-fuel : (n a b : ℕ) → a ≤ n → bit_or a b ≡ or_digits n a b
bit_or-fuel n a b h = bit_or-bitwise a b ∙ or_digits-fuel a n a b (le_refl a) h

bit_or-step : (a b : ℕ) → bit_or a b ≡ bit_or (a / 2) (b / 2) * 2 + max (a % 2) (b % 2)
bit_or-step a b =
    bit_or-fuel (suc a) a b (omega arith)
    ∙ or_digits-suc a a b
    ∙ ap (λ x. x * 2 + max (a % 2) (b % 2)) (sym (bit_or-fuel a (a / 2) (b / 2) (omega arith)))

pub bit_or-split :
    (k a b : ℕ)
    → bit_or a b ≡ bit_or (a / 2 ^ k) (b / 2 ^ k) * 2 ^ k + bit_or (a % 2 ^ k) (b % 2 ^ k)
bit_or-split zero a b = omega (
  arith,
  ap₂ bit_or (let e : a / 1 ≡ a = omega arith in e) (let e : b / 1 ≡ b = omega arith in e),
  ap₂ bit_or (let e : a % 1 ≡ 0 = omega arith in e) (let e : b % 1 ≡ 0 = omega arith in e),
)
bit_or-split (suc k) a b =
    let m = 2 ^ k in
    let p = pow_pos k in
    let twice : 2 ^ suc k ≡ m * 2 = pow-suc 2 k in
    let high = ap₂ bit_or (quarter a m) (quarter b m) in
    let low =
      bit_or-step (a % (m * 2)) (b % (m * 2))
      ∙ ap₂ ◌+◌ (ap (λ x. x * 2) (ap₂ bit_or (halved m a p).0 (halved m b p).0))
          (ap₂ max (halved m a p).1 (halved m b p).1) in
    rw twice (
      omega (
        arith,
        bit_or-step a b,
        bit_or-split k (a / 2) (b / 2),
        low,
        mul_assoc (bit_or (a / (m * 2)) (b / (m * 2))) m 2,
        ap (λ x. x * m) high,
      ))
