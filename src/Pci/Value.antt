-- ===== src/Pci/Value.antt =====
-- The value that the scan writes, field by field.
use Prim.Native.Nat.{bit_and, bit_or}
use abtrda.Prelude.{
  ℕ, ◌+◌, ◌-◌, ◌*◌, ◌/◌, ◌%◌, ◌^◌, ◌<◌, ◌≡◌, refl, ap, ap₂, ◌∙◌, ◌≢◌, inl, inr, true, arith,
  Bool-cases, if◌then◌else◌,
}
use abtrda.Bits.{bit_or_fields, bit_or_low}
use abtrda.Bits.Mask.{bit_and-low}
use abtrda.Bits.Split.{bit_and-split, bit_or-split}
use abtrda.Pci.{itr_indx_mask, is_bound_rx_queue, no_itr_value}

-- The bits around the index, and the index cleared.
index_cleared :
    (v : ℕ) → v < 2 ^ 32 → bit_and v (2 ^ 32 - 1 - itr_indx_mask) ≡ v / 2 ^ 13 * 2 ^ 13 + v % 2 ^ 11
index_cleared v w = omega (
  arith,
  bit_and-split 11 v (2 ^ 32 - 1 - itr_indx_mask),
  bit_and-low 11 (v % 2 ^ 11),
  bit_and-split 2 (v / 2 ^ 11) (2 ^ 21 - 4),
  bit_and-low 19 (v / 2 ^ 11 / 2 ^ 2),
  bit_and-low 0 (v / 2 ^ 11 % 2 ^ 2),
)

pub no_itr_value-fields :
    (v : ℕ) → v < 2 ^ 32 → no_itr_value v ≡ v / 2 ^ 13 * 2 ^ 13 + 3 * 2 ^ 11 + v % 2 ^ 11
unfolding no_itr_value
no_itr_value-fields v w =
    let kept = v / 2 ^ 13 * 2 ^ 13 + v % 2 ^ 11 in
    let high : kept / 2 ^ 11 ≡ v / 2 ^ 13 * 2 ^ 2 = omega arith in
    let low : kept % 2 ^ 11 ≡ v % 2 ^ 11 = omega arith in
    ap (λ x. bit_or x (3 * 2 ^ 11)) (index_cleared v w)
    ∙ bit_or-split 11 kept (3 * 2 ^ 11)
    ∙ ap₂ (λ x y. x * 2 ^ 11 + y)
        (ap (λ x. bit_or x 3) high ∙ bit_or_fields 2 (v / 2 ^ 13) 3 (omega arith))
        (ap (λ x. bit_or x 0) low ∙ bit_or_low 11 0 (v % 2 ^ 11) (omega arith))
    ∙ omega arith

-- The index that the scan reads back.
pub no_itr_value-index :
    (v : ℕ) → v < 2 ^ 32 → bit_and (no_itr_value v) itr_indx_mask ≡ itr_indx_mask
no_itr_value-index v w =
    let x = no_itr_value v in
    let fields = no_itr_value-fields v w in
    omega (
      arith,
      fields,
      bit_and-split 11 x itr_indx_mask,
      bit_and-low 2 (x / 2 ^ 11),
      bit_and-low 0 (x % 2 ^ 11),
    )

-- A bound queue: enabled (bit 30), its reserved bit clear (bit 31), of a type other than 3 (bits 27 and 28),
-- and neither of the values that a register which is not there reads as.
abbrev pub Bound : ℕ → Type 0
Bound v =
    (v / 2 ^ 30 % 2 ≡ 1)
    × (v / 2 ^ 31 % 2 ≡ 0)
    × (v / 2 ^ 27 % 4 ≢ 3)
    × (v ≢ 3735928559)
    × (v ≢ 4294967295)

enable_bit : (v : ℕ) → bit_and v (2 ^ 30) ≡ v / 2 ^ 30 % 2 * 2 ^ 30
enable_bit v =
    omega
      (arith, bit_and-split 30 v (2 ^ 30), bit_and-low 1 (v / 2 ^ 30), bit_and-low 0 (v % 2 ^ 30))

reserved_bit : (v : ℕ) → bit_and v (2 ^ 31) ≡ v / 2 ^ 31 % 2 * 2 ^ 31
reserved_bit v =
    omega
      (arith, bit_and-split 31 v (2 ^ 31), bit_and-low 1 (v / 2 ^ 31), bit_and-low 0 (v % 2 ^ 31))

type_bits : (v : ℕ) → bit_and v (3 * 2 ^ 27) ≡ v / 2 ^ 27 % 4 * 2 ^ 27
type_bits v =
    omega (
      arith,
      bit_and-split 27 v (3 * 2 ^ 27),
      bit_and-low 2 (v / 2 ^ 27),
      bit_and-low 0 (v % 2 ^ 27),
    )

pub is_bound_rx_queue-Bound : (v : ℕ) → is_bound_rx_queue v ≡ true → Bound v
unfolding is_bound_rx_queue
is_bound_rx_queue-Bound v e = ground (arith, enable_bit v, reserved_bit v, type_bits v, e)

pub Bound-is_bound_rx_queue : (v : ℕ) → Bound v → is_bound_rx_queue v ≡ true
unfolding is_bound_rx_queue
Bound-is_bound_rx_queue v b = ground (arith, enable_bit v, reserved_bit v, type_bits v, b)

-- The value a queue's register ends with.
abbrev pub detached : ℕ → ℕ
detached v = if is_bound_rx_queue v then no_itr_value v else v

-- A register with its moderation index set to 3 when its queue is bound, and as it was otherwise.
abbrev pub NoItrWord : ℕ → ℕ → Type 0
NoItrWord v w = (Bound v → w ≡ v / 2 ^ 13 * 2 ^ 13 + 3 * 2 ^ 11 + v % 2 ^ 11) × (¬ Bound v → w ≡ v)

pub detached-NoItrWord : (v : ℕ) → v < 2 ^ 32 → NoItrWord v (detached v)
detached-NoItrWord v w = (
  λ b. rw (Bound-is_bound_rx_queue v b) (no_itr_value-fields v w),
  λ n. elim (Bool-cases (is_bound_rx_queue v)) [
    | inl e ↦ absurd (n (is_bound_rx_queue-Bound v e))
    | inr e ↦ rw e refl
  ],
)
