-- ===== src/Bits.antt =====
-- The bit operations of the C++ sources at variables: two words compared without a branch by
-- `((a ^ b) | (c ^ d)) != 0`, and a word packed from two fields by `(hi << k) | lo`. Each lemma is an
-- induction on the digits that the native operation stands for.
pub mod Clear
pub mod Mask
pub mod Split
use Prim.Native.Nat.{digits, max, differ, bit_or, bit_xor, bit_or-bitwise, bit_xor-bitwise}
use native.Mathlib.Nat.{pow-suc, le_refl}
use abtrda.Prelude.{
  ℕ, zero, suc, ◌+◌, ◌*◌, ◌/◌, ◌%◌, ◌^◌, ◌≤◌, ◌<◌, ◌≡◌, refl, sym, ap, ◌∙◌, ◌↔◌, arith,
}

abbrev pub or_digits : ℕ → ℕ → ℕ → ℕ
or_digits = digits (λ y. y) max

abbrev xor_digits : ℕ → ℕ → ℕ → ℕ
xor_digits = digits (λ y. y) differ

differ_self : (a : ℕ) → differ a a ≡ 0
differ_self zero = refl
differ_self (suc a) = differ_self a

differ-eq_zero : (a b : ℕ) → differ a b ≡ 0 → a ≡ b
differ-eq_zero zero b e = sym e
differ-eq_zero (suc a) zero e = e
differ-eq_zero (suc a) (suc b) e = ap suc (differ-eq_zero a b e)

or_digits-eq_zero : (n a b : ℕ) → a ≤ n → or_digits n a b ≡ 0 → (a ≡ 0) × (b ≡ 0)
or_digits-eq_zero zero a b h e = (omega arith, e)
or_digits-eq_zero (suc n) zero b h e = (refl, e)
or_digits-eq_zero (suc n) (suc a) b h e =
    omega (arith, or_digits-eq_zero n (suc a / 2) (b / 2) (omega arith) (omega arith))

xor_digits_self : (n a : ℕ) → a ≤ n → xor_digits n a a ≡ 0
xor_digits_self zero a h = omega arith
xor_digits_self (suc n) zero h = refl
xor_digits_self (suc n) (suc a) h =
    omega (arith, xor_digits_self n (suc a / 2) (omega arith), differ_self (suc a % 2))

xor_digits-eq_zero : (n a b : ℕ) → a ≤ n → xor_digits n a b ≡ 0 → a ≡ b
xor_digits-eq_zero zero a b h e = omega arith
xor_digits-eq_zero (suc n) zero b h e = sym e
xor_digits-eq_zero (suc n) (suc a) b h e = omega (
  arith,
  xor_digits-eq_zero n (suc a / 2) (b / 2) (omega arith) (omega arith),
  differ-eq_zero (suc a % 2) (b % 2) (omega arith),
)

or_digits_fields : (n k a h r : ℕ) → a ≤ n → a ≡ h * 2 ^ k → r < 2 ^ k → or_digits n a r ≡ a + r
or_digits_fields zero k a h r p e fits = omega arith
or_digits_fields (suc n) k zero h r p e fits = omega arith
or_digits_fields (suc n) zero (suc a) h r p e fits = omega (
  arith,
  or_digits_fields n zero (suc a / 2) (suc a / 2) (r / 2) (omega arith) (omega arith) (omega arith),
)
or_digits_fields (suc n) (suc k) (suc a) h r p e fits = omega (
  arith,
  e ∙ twice,
  or_digits_fields n k (suc a / 2) h (r / 2) (omega arith) (omega (arith, e ∙ twice))
      (omega (arith, pow-suc 2 k)),
)
  where
    twice : h * 2 ^ suc k ≡ 2 * (h * 2 ^ k)
    twice = omega (arith, ap (λ (t : ℕ). h * t) (pow-suc 2 k))

bit_xor_self : (a : ℕ) → bit_xor a a ≡ 0
bit_xor_self a = bit_xor-bitwise a a ∙ xor_digits_self a a (le_refl a)

-- `(a ^ b) | (c ^ d)` is zero exactly when both pairs agree.
pub bit_or-bit_xor-eq_zero :
    (a b c d : ℕ) → (bit_or (bit_xor a b) (bit_xor c d) ≡ 0) ↔ ((a ≡ b) × (c ≡ d))
bit_or-bit_xor-eq_zero a b c d = (
  λ e.
      let z =
        or_digits-eq_zero (bit_xor a b) (bit_xor a b) (bit_xor c d) (le_refl _)
          (sym (bit_or-bitwise _ _) ∙ e) in
      (
        xor_digits-eq_zero a a b (le_refl _) (sym (bit_xor-bitwise a b) ∙ z.0),
        xor_digits-eq_zero c c d (le_refl _) (sym (bit_xor-bitwise c d) ∙ z.1),
      ),
  λ e. rw (e.0, e.1, bit_xor_self b, bit_xor_self d),
)

-- `(h << k) | r` is a sum when `r` has at most `k` bits.
pub bit_or_fields : (k h r : ℕ) → r < 2 ^ k → bit_or (h * 2 ^ k) r ≡ h * 2 ^ k + r
bit_or_fields k h r fits =
    bit_or-bitwise (h * 2 ^ k) r ∙ or_digits_fields _ k (h * 2 ^ k) h r (le_refl _) refl fits

or_digits_low : (n k a h b : ℕ) → a ≤ n → a < 2 ^ k → b ≡ h * 2 ^ k → or_digits n a b ≡ a + b
or_digits_low zero k a h b p fits e = omega arith
or_digits_low (suc n) k zero h b p fits e = omega arith
or_digits_low (suc n) zero (suc a) h b p fits e = absurd (omega arith)
or_digits_low (suc n) (suc k) (suc a) h b p fits e =
    let twice : h * 2 ^ suc k ≡ 2 * (h * 2 ^ k) =
      omega (arith, ap (λ (t : ℕ). h * t) (pow-suc 2 k)) in
    omega (
      arith,
      e ∙ twice,
      or_digits_low n k (suc a / 2) h (b / 2) (omega arith) (omega (arith, pow-suc 2 k))
          (omega (arith, e ∙ twice)),
    )

-- The same with the low field first.
pub bit_or_low : (k h r : ℕ) → r < 2 ^ k → bit_or r (h * 2 ^ k) ≡ r + h * 2 ^ k
bit_or_low k h r fits =
    bit_or-bitwise r (h * 2 ^ k) ∙ or_digits_low r k r h (h * 2 ^ k) (le_refl r) fits refl
