-- ===== src/Frame/Header.antt =====
-- The branchless header check is a comparison of the fourteen header bytes, and no load of the
-- receiver leaves the buffer.
use Prim.Native.Nat.{bit_or, bit_xor}
use native.Mathlib.Decide.{dec_lt, ℕ_discrete}
use abtrda.Prelude.{
  ℕ, zero, suc, ◌+◌, ◌≤◌, ◌<◌, ◌≡◌, refl, sym, ap, ap₂, ◌∙◌, ◌≢◌, ◌↔◌, ◌⊎◌, inl, inr, some, List,
  [], ◌∷◌, ◌++◌, arith, ◌==◌, if◌then◌else◌, length, take, drop, take_add, take-take, drop-take,
}
use abtrda.Bits.{bit_or-bit_xor-eq_zero}
use abtrda.Bytes.Laws.{length-slice, AreBytes, le_value-injective}
use abtrda.Bytes.{le_value, slice, load_u, swap32}
use abtrda.Bytes.Laws.{AreBytes, le_value-injective}
use abtrda.Frame.{Parsed, parse_frame, runt, foreign, stamped}

pub AreBytes-take : (n : ℕ) (xs : List ℕ) → AreBytes xs → AreBytes (take n xs)
AreBytes-take zero xs h = tt
AreBytes-take (suc n) [] h = tt
AreBytes-take (suc n) (x ∷ xs) h = (h.0, AreBytes-take n xs h.1)

pub AreBytes-drop : (n : ℕ) (xs : List ℕ) → AreBytes xs → AreBytes (drop n xs)
AreBytes-drop zero xs h = h
AreBytes-drop (suc n) [] h = tt
AreBytes-drop (suc n) (x ∷ xs) h = AreBytes-drop n xs h.1

-- Fourteen bytes agree exactly when bytes 0 to 7 and bytes 6 to 13 do.
header-overlap :
    (xs ys : List ℕ)
    → (slice 0 14 xs ≡ slice 0 14 ys)
      ↔ ((slice 0 8 xs ≡ slice 0 8 ys) × (slice 6 8 xs ≡ slice 6 8 ys))
header-overlap xs ys = (split, join)
  where
    split :
        slice 0 14 xs ≡ slice 0 14 ys
        → (slice 0 8 xs ≡ slice 0 8 ys) × (slice 6 8 xs ≡ slice 6 8 ys)
    split e = (
      sym (take-take 8 14 xs (omega arith)) ∙ ap (take 8) e ∙ take-take 8 14 ys (omega arith),
      sym (drop-take 14 6 8 xs refl) ∙ ap (drop 6) e ∙ drop-take 14 6 8 ys refl,
    )

    join :
        (slice 0 8 xs ≡ slice 0 8 ys) × (slice 6 8 xs ≡ slice 6 8 ys)
        → slice 0 14 xs ≡ slice 0 14 ys
    join (lo, hi) =
        take_add 14 6 8 xs refl
        ∙ ap₂ ◌++◌
            (sym (take-take 6 8 xs (omega arith)) ∙ ap (take 6) lo ∙ take-take 6 8 ys (omega arith))
            hi
        ∙ sym (take_add 14 6 8 ys refl)

slice-of_words :
    (i : ℕ) (xs ys : List ℕ)
    → i + 8 ≤ length xs
    → i + 8 ≤ length ys
    → AreBytes xs
    → AreBytes ys
    → le_value (slice i 8 xs) ≡ le_value (slice i 8 ys)
    → slice i 8 xs ≡ slice i 8 ys
slice-of_words i xs ys h k p q =
    le_value-injective (slice i 8 xs) (slice i 8 ys)
      (omega (arith, length-slice i 8 xs h, length-slice i 8 ys k))
      (AreBytes-take 8 (drop i xs) (AreBytes-drop i xs p))
      (AreBytes-take 8 (drop i ys) (AreBytes-drop i ys q))

abbrev pub words_of : List ℕ → ℕ × ℕ
words_of hdr = (le_value (slice 0 8 hdr), le_value (slice 6 8 hdr))

abbrev pub stamp_of : List ℕ → Parsed
stamp_of f = stamped (swap32 (le_value (slice 14 4 f))) (le_value (slice 18 8 f))

load_inside :
    (k at : ℕ) (f : List ℕ) → at + k ≤ length f → load_u k at f ≡ some (le_value (slice at k f))
unfolding load_u
load_inside k at f h = ground arith

-- What the test on the two words sees.
abbrev mismatch : List ℕ → List ℕ → ℕ
mismatch f hdr =
    bit_or (bit_xor (le_value (slice 0 8 f)) (le_value (slice 0 8 hdr)))
      (bit_xor (le_value (slice 6 8 f)) (le_value (slice 6 8 hdr)))

parse_long :
    (f hdr : List ℕ)
    → 26 ≤ length f
    → parse_frame (words_of hdr) f
      ≡ (if mismatch f hdr == 0 then some (stamp_of f) else some foreign)
unfolding parse_frame
parse_long f hdr h = ground (
  arith,
  load_inside 8 0 f (omega arith),
  load_inside 8 6 f (omega arith),
  load_inside 4 14 f (omega arith),
  load_inside 8 18 f (omega arith),
)

parse_short : (f hdr : List ℕ) → length f < 26 → parse_frame (words_of hdr) f ≡ some runt
unfolding parse_frame
parse_short f hdr h = ground arith

-- Equal headers make equal words.
mismatch_zero : (f hdr : List ℕ) → slice 0 14 f ≡ slice 0 14 hdr → mismatch f hdr ≡ 0
mismatch_zero f hdr e =
    let words = (header-overlap f hdr).0 e in
    (bit_or-bit_xor-eq_zero _ _ _ _).1 (ap le_value words.0, ap le_value words.1)

pub parse_match :
    (f hdr : List ℕ)
    → 26 ≤ length f
    → slice 0 14 f ≡ slice 0 14 hdr
    → parse_frame (words_of hdr) f ≡ some (stamp_of f)
parse_match f hdr h e = parse_long f hdr h ∙ ground (arith, mismatch_zero f hdr e)

-- Equal words make equal headers, the words being of bytes.
zero_mismatch :
    (f hdr : List ℕ)
    → AreBytes f
    → AreBytes hdr
    → 14 ≤ length f
    → 14 ≤ length hdr
    → mismatch f hdr ≡ 0
    → slice 0 14 f ≡ slice 0 14 hdr
zero_mismatch f hdr p q h k e =
    let words = (bit_or-bit_xor-eq_zero _ _ _ _).0 e in
    (header-overlap f hdr).1 (
      slice-of_words 0 f hdr (omega arith) (omega arith) p q words.0,
      slice-of_words 6 f hdr (omega arith) (omega arith) p q words.1,
    )

-- A receiver that expects the header bytes `hdr` treats a buffer `f` of bytes in one of three ways,
-- and never loads outside it: shorter than 26 bytes it is a runt; otherwise, when its first fourteen
-- bytes are those of `hdr`, it is taken with the big-endian number at byte 14 and the
-- little-endian stamp at byte 18; and when they are not it is foreign.
pub parse_frame_cases :
    (f hdr : List ℕ)
    → AreBytes f
    → AreBytes hdr
    → 14 ≤ length hdr
    → ((length f < 26) × (parse_frame (words_of hdr) f ≡ some runt))
      ⊎ ((26 ≤ length f)
          × (slice 0 14 f ≡ slice 0 14 hdr)
          × (parse_frame (words_of hdr) f ≡ some (stamp_of f)))
      ⊎ ((26 ≤ length f)
          × (slice 0 14 f ≢ slice 0 14 hdr)
          × (parse_frame (words_of hdr) f ≡ some foreign))
parse_frame_cases f hdr p q h = elim (dec_lt (length f) 26) [
  | yes short ↦ inl (short, parse_short f hdr short)
  | no long ↦ elim (ℕ_discrete (mismatch f hdr) 0) [
    | yes same ↦
        let e = zero_mismatch f hdr p q (omega arith) h same in
        inr (inl (omega arith, e, parse_match f hdr (omega arith) e))
    | no differs ↦ inr (
        inr (
          omega arith,
          λ e. differs (mismatch_zero f hdr e),
          parse_long f hdr (omega arith) ∙ ground arith,
        ))
  ]
]
