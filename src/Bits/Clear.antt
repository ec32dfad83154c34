-- ===== src/Bits/Clear.antt =====
-- Bits cleared by `reg &= ~mask` read as zero through the mask.
use Prim.Native.Nat.{digits, min, bit_and, bit_and-bitwise}
use native.Mathlib.Nat.{le_refl}
use abtrda.Prelude.{ℕ, zero, suc, ◌+◌, ◌*◌, ◌/◌, ◌%◌, ◌≤◌, ◌<◌, ◌≡◌, refl, sym, ap, ◌∙◌, arith}

abbrev pub and_digits : ℕ → ℕ → ℕ → ℕ
and_digits = digits (λ b. zero) min

-- One more digit, whether or not the number has run out.
pub and_digits-suc :
    (n a b : ℕ) → and_digits (suc n) a b ≡ and_digits n (a / 2) (b / 2) * 2 + min (a % 2) (b % 2)
and_digits-suc zero zero b = omega arith
and_digits-suc (suc n) zero b = omega arith
and_digits-suc n (suc a) b = refl

and_digits-fuel : (n m a b : ℕ) → a ≤ n → a ≤ m → and_digits n a b ≡ and_digits m a b
and_digits-fuel zero zero a b h k = refl
and_digits-fuel zero (suc m) zero b h k = refl
and_digits-fuel (suc n) zero zero b h k = refl
and_digits-fuel zero (suc m) (suc a) b h k = absurd (omega arith)
and_digits-fuel (suc n) zero (suc a) b h k = absurd (omega arith)
and_digits-fuel (suc n) (suc m) a b h k = omega (
  arith,
  and_digits-suc n a b,
  and_digits-suc m a b,
  and_digits-fuel n m (a / 2) (b / 2) (omega arith) (omega arith),
)

min_digits : (a c k : ℕ) → min c k ≡ 0 → min (min a c) k ≡ 0
min_digits a c k h = omega arith

halves : (q r : ℕ) → r < 2 → ((q * 2 + r) / 2 ≡ q) × ((q * 2 + r) % 2 ≡ r)
halves q r h = omega arith

and_digits-masked :
    (n x c k : ℕ) → x ≤ n → c ≤ n → and_digits n c k ≡ 0 → and_digits n (and_digits n x c) k ≡ 0
and_digits-masked zero x c k h j e = refl
and_digits-masked (suc n) x c k h j e =
    let q = and_digits n (x / 2) (c / 2) in
    let two = halves q (min (x % 2) (c % 2)) (omega arith) in
    let tail =
      and_digits-masked n (x / 2) (c / 2) (k / 2) (omega arith) (omega arith)
        (omega (arith, and_digits-suc n c k)) in
    let low = min_digits (x % 2) (c % 2) (k % 2) (omega (arith, and_digits-suc n c k)) in
    rw (and_digits-suc n x c) (
      and_digits-suc n (q * 2 + min (x % 2) (c % 2)) k
      ∙ rw (two.0, two.1) (omega (arith, tail, low)))

and_digits-le : (n x c : ℕ) → x ≤ n → and_digits n x c ≤ x
and_digits-le zero x c h = omega arith
and_digits-le (suc n) x c h =
    omega (arith, and_digits-suc n x c, and_digits-le n (x / 2) (c / 2) (omega arith))

pub bit_and-fuel : (n a b : ℕ) → a ≤ n → bit_and a b ≡ and_digits n a b
bit_and-fuel n a b h = bit_and-bitwise a b ∙ and_digits-fuel a n a b (le_refl a) h

-- Masked by `c`, a word has no bit that `c` lacks.
pub bit_and-masked : (x c k : ℕ) → bit_and c k ≡ 0 → bit_and (bit_and x c) k ≡ 0
bit_and-masked x c k e =
    ap (λ y. bit_and y k) (bit_and-fuel (x + c) x c (omega arith))
    ∙ bit_and-fuel (x + c) (and_digits (x + c) x c) k
        (omega (arith, and_digits-le (x + c) x c (omega arith)))
    ∙ and_digits-masked (x + c) x c k (omega arith) (omega arith)
        (sym (bit_and-fuel (x + c) c k (omega arith)) ∙ e)
