-- ===== src/Bytes/Laws.antt =====
-- What a load returns after a store: the stored bytes, or those that stood there before.
use abtrda.Prelude.{
  ℕ, zero, suc, ◌+◌, ◌/◌, ◌^◌, ◌≤◌, ◌<◌, ◌≡◌, refl, ap, ap₂, ◌∙◌, List, [], ◌∷◌, ◌++◌, arith,
  length, take, drop, length-take, length-drop, take_add,
}
use abtrda.Bytes.{le_bytes, le_value, overlay, slice, swap32}

pub length-overlay : (at : ℕ) (bs mem : List ℕ) → length (overlay at bs mem) ≡ length mem
unfolding overlay
length-overlay at bs [] = refl
length-overlay zero [] (m ∷ mem) = refl
length-overlay zero (b ∷ bs) (m ∷ mem) = ap suc (length-overlay zero bs mem)
length-overlay (suc at) bs (m ∷ mem) = ap suc (length-overlay at bs mem)

pub slice-overlay_self :
    (at : ℕ) (bs mem : List ℕ)
    → at + length bs ≤ length mem
    → slice at (length bs) (overlay at bs mem) ≡ bs
unfolding overlay
slice-overlay_self zero [] mem h = refl
slice-overlay_self zero (b ∷ bs) [] h = absurd (omega arith)
slice-overlay_self zero (b ∷ bs) (m ∷ mem) h =
    ap (◌∷◌ b) (slice-overlay_self zero bs mem (omega arith))
slice-overlay_self (suc at) bs [] h = absurd (omega arith)
slice-overlay_self (suc at) bs (m ∷ mem) h = slice-overlay_self at bs mem (omega arith)

-- A store behind the slice does not touch it.
pub slice-overlay_before :
    (i n at : ℕ) (bs mem : List ℕ) → i + n ≤ at → slice i n (overlay at bs mem) ≡ slice i n mem
unfolding overlay
slice-overlay_before i zero at bs mem h = refl
slice-overlay_before i (suc n) at bs [] h = refl
slice-overlay_before i (suc n) zero bs (m ∷ mem) h = absurd (omega arith)
slice-overlay_before zero (suc n) (suc at) bs (m ∷ mem) h =
    ap (◌∷◌ m) (slice-overlay_before zero n at bs mem (omega arith))
slice-overlay_before (suc i) (suc n) (suc at) bs (m ∷ mem) h =
    slice-overlay_before i (suc n) at bs mem (omega arith)

-- Nor does a store that ends before it.
pub slice-overlay_after :
    (i n at : ℕ) (bs mem : List ℕ)
    → at + length bs ≤ i
    → slice i n (overlay at bs mem) ≡ slice i n mem
unfolding overlay
slice-overlay_after i n at bs [] h = refl
slice-overlay_after i n zero [] (m ∷ mem) h = refl
slice-overlay_after zero n zero (b ∷ bs) (m ∷ mem) h = absurd (omega arith)
slice-overlay_after (suc i) n zero (b ∷ bs) (m ∷ mem) h =
    slice-overlay_after i n zero bs mem (omega arith)
slice-overlay_after zero n (suc at) bs (m ∷ mem) h = absurd (omega arith)
slice-overlay_after (suc i) n (suc at) bs (m ∷ mem) h =
    slice-overlay_after i n at bs mem (omega arith)

pub drop-drop : (j i m : ℕ) (xs : List ℕ) → j ≡ i + m → drop m (drop i xs) ≡ drop j xs
drop-drop j zero m xs e = ap (λ k. drop k xs) (omega (arith, e))
drop-drop zero (suc i) m xs e = absurd (omega arith)
drop-drop (suc j) (suc i) zero [] e = refl
drop-drop (suc j) (suc i) (suc m) [] e = refl
drop-drop (suc j) (suc i) m (x ∷ xs) e = drop-drop j i m xs (omega arith)

-- A slice of `m + n` bytes is one of `m` bytes and one of `n` bytes behind it.
pub slice_add :
    (i m n k j : ℕ) (xs : List ℕ)
    → k ≡ m + n
    → j ≡ i + m
    → slice i k xs ≡ slice i m xs ++ slice j n xs
slice_add i m n k j xs e f =
    take_add k m n (drop i xs) e ∙ ap (λ ys. slice i m xs ++ take n ys) (drop-drop j i m xs f)

pub length-slice : (i n : ℕ) (xs : List ℕ) → i + n ≤ length xs → length (slice i n xs) ≡ n
length-slice i n xs h = omega (arith, length-take {0} n (drop i xs), length-drop {0} i xs)

pub length-le_bytes : (k v : ℕ) → length (le_bytes k v) ≡ k
unfolding le_bytes
length-le_bytes zero v = refl
length-le_bytes (suc k) v = ap suc (length-le_bytes k (v / 2 ^ 8))

pub le_value-le_bytes4 : (v : ℕ) → v < 2 ^ 32 → le_value (le_bytes 4 v) ≡ v
unfolding le_value le_bytes
le_value-le_bytes4 v h = omega arith

pub le_value-le_bytes8 : (v : ℕ) → v < 2 ^ 64 → le_value (le_bytes 8 v) ≡ v
unfolding le_value le_bytes
le_value-le_bytes8 v h = omega arith

pub swap32-lt : (v : ℕ) → swap32 v < 2 ^ 32
unfolding swap32
swap32-lt v = omega arith

pub swap32-swap32 : (v : ℕ) → v < 2 ^ 32 → swap32 (swap32 v) ≡ v
unfolding swap32
swap32-swap32 v h = omega arith

abbrev pub AreBytes : List ℕ → Type 0
AreBytes [] = Unit {0}
AreBytes (b ∷ bs) = (b < 2 ^ 8) × AreBytes bs

-- Byte strings of one length that stand for one number are one string.
pub le_value-injective :
    (bs cs : List ℕ)
    → length bs ≡ length cs
    → AreBytes bs
    → AreBytes cs
    → le_value bs ≡ le_value cs
    → bs ≡ cs
unfolding le_value
le_value-injective [] [] l p q e = refl
le_value-injective [] (c ∷ cs) l p q e = absurd (omega arith)
le_value-injective (b ∷ bs) [] l p q e = absurd (omega arith)
le_value-injective (b ∷ bs) (c ∷ cs) l p q e =
    ap₂ ◌∷◌ (omega arith) (le_value-injective bs cs (omega arith) p.1 q.1 (omega arith))
