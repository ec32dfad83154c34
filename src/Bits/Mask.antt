-- ===== src/Bits/Mask.antt =====
-- A word masked by its `k` low bits is a remainder.
use Prim.Native.Nat.{digits, min, bit_and, bit_and-bitwise}
use native.Mathlib.Nat.{
  le_refl, pow-suc, mod-lt, mod-eq_of_lt, mod-add-div', add-mul-mod_self_right, mul_assoc,
}
use abtrda.Prelude.{ℕ, zero, suc, ◌+◌, ◌-◌, ◌*◌, ◌/◌, ◌%◌, ◌^◌, ◌≤◌, ◌<◌, ◌≡◌, ap, ◌∙◌, arith}

abbrev and_digits : ℕ → ℕ → ℕ → ℕ
and_digits = digits (λ y. 0) min

pub mod_digits : (m x : ℕ) → 0 < m → x % (m * 2) ≡ x / 2 % m * 2 + x % 2
mod_digits m x h =
    let q = x / 2 in
    let y = q % m * 2 + x % 2 in
    let small : y < m * 2 = omega (arith, mod-lt q h) in
    let parts : x ≡ y + q / m * (m * 2) = omega (arith, mod-add-div' q m, mul_assoc (q / m) m 2) in
    ap (λ z. z % (m * 2)) parts ∙ add-mul-mod_self_right y (q / m) (m * 2) ∙ mod-eq_of_lt small

pub pow_pos : (k : ℕ) → 0 < 2 ^ k
pow_pos zero = omega arith
pow_pos (suc k) = omega (arith, pow-suc 2 k, pow_pos k)

and_digits_low : (n k a b : ℕ) → a ≤ n → b + 1 ≡ 2 ^ k → and_digits n a b ≡ a % 2 ^ k
and_digits_low zero k a b h e = omega arith
and_digits_low (suc n) k zero b h e = omega arith
and_digits_low (suc n) zero (suc a) b h e =
    omega (arith, and_digits_low n zero (suc a / 2) (b / 2) (omega arith) (omega arith))
and_digits_low (suc n) (suc k) (suc a) b h e = omega (
  arith,
  pow-suc 2 k,
  ap (λ m. suc a % m) (pow-suc 2 k),
  mod_digits (2 ^ k) (suc a) (omega (arith, pow_pos k)),
  and_digits_low n k (suc a / 2) (b / 2) (omega arith) (omega (arith, pow-suc 2 k)),
)

pub bit_and-low : (k a : ℕ) → bit_and a (2 ^ k - 1) ≡ a % 2 ^ k
bit_and-low k a =
    bit_and-bitwise a _ ∙ and_digits_low a k a _ (le_refl a) (omega (arith, pow_pos k))
