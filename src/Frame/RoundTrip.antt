-- ===== src/Frame/RoundTrip.antt =====
-- What the sender writes is what the receiver reads.
use abtrda.Prelude.{
  ℕ, ◌/◌, ◌%◌, ◌^◌, ◌≤◌, ◌<◌, ◌≡◌, refl, sym, ap, ap₂, ◌∙◌, Option, some, List, [], ◌∷◌, ◌++◌,
  arith, length, replicate, length-replicate, ◌>>=◌,
}
use abtrda.Bytes.{le_bytes, le_value, overlay, slice, memcpy, store_u, load_u, swap32}
use abtrda.Bytes.Laws.{
  length-overlay, slice-overlay_self, slice-overlay_before, slice_add, length-le_bytes,
  le_value-le_bytes4, le_value-le_bytes8, swap32-lt, swap32-swap32,
}
use abtrda.Frame.Header.{words_of, stamp_of, parse_match}
use abtrda.Frame.{
  header_template, stamp_frame, header_words, expected_words, Parsed, parse_frame, stamped,
}

-- The fourteen header bytes.
abbrev pub header_bytes : List ℕ → List ℕ → ℕ → List ℕ
header_bytes dst src ether =
    dst ++ (src ++ ((ether / 2 ^ 8 % 2 ^ 8) ∷ (ether % 2 ^ 8 % 2 ^ 8) ∷ []))

abbrev headed : List ℕ → List ℕ → ℕ → ℕ → List ℕ
headed dst src ether size =
    overlay 13 ((ether % 2 ^ 8 % 2 ^ 8) ∷ [])
      (overlay 12 ((ether / 2 ^ 8 % 2 ^ 8) ∷ []) (overlay 6 src (overlay 0 dst (replicate size 0))))

length-headed : (dst src : List ℕ) (ether size : ℕ) → length (headed dst src ether size) ≡ size
length-headed dst src ether size = simp (length-overlay, length-replicate)

header_template-headed :
    (size : ℕ) (dst src : List ℕ) (ether : ℕ)
    → length dst ≡ 6
    → length src ≡ 6
    → 14 ≤ size
    → header_template size dst src ether ≡ some (headed dst src ether size)
unfolding header_template memcpy store_u le_bytes
header_template-headed size dst src ether d s h = ground (
  arith,
  length-replicate {A = ℕ} size 0,
  length-overlay 0 dst (replicate size 0),
  length-overlay 6 src (overlay 0 dst (replicate size 0)),
  length-overlay 12 ((ether / 2 ^ 8 % 2 ^ 8) ∷ [])
      (overlay 6 src (overlay 0 dst (replicate size 0))),
)

slice-headed :
    (size : ℕ) (dst src : List ℕ) (ether : ℕ)
    → length dst ≡ 6
    → length src ≡ 6
    → 14 ≤ size
    → slice 0 14 (headed dst src ether size) ≡ header_bytes dst src ether
slice-headed size dst src ether d s h =
    slice_add 0 6 8 14 6 (headed dst src ether size) refl refl
    ∙ ap₂ ◌++◌ first (
        slice_add 6 6 2 8 12 (headed dst src ether size) refl refl
        ∙ ap₂ ◌++◌ second
            (slice_add 12 1 1 2 13 (headed dst src ether size) refl refl ∙ ap₂ ◌++◌ third fourth))
  where
    a : List ℕ
    a = overlay 0 dst (replicate size 0)

    b : List ℕ
    b = overlay 6 src a

    c : List ℕ
    c = overlay 12 ((ether / 2 ^ 8 % 2 ^ 8) ∷ []) b

    length-a : length a ≡ size
    length-a = length-overlay 0 dst (replicate size 0) ∙ length-replicate {A = ℕ} size 0

    length-b : length b ≡ size
    length-b = length-overlay 6 src a ∙ length-a

    length-c : length c ≡ size
    length-c = length-overlay 12 ((ether / 2 ^ 8 % 2 ^ 8) ∷ []) b ∙ length-b

    first : slice 0 6 (headed dst src ether size) ≡ dst
    first =
        slice-overlay_before 0 6 13 ((ether % 2 ^ 8 % 2 ^ 8) ∷ []) c (omega arith)
        ∙ slice-overlay_before 0 6 12 ((ether / 2 ^ 8 % 2 ^ 8) ∷ []) b (omega arith)
        ∙ slice-overlay_before 0 6 6 src a (omega arith)
        ∙ ap (λ n. slice 0 n a) (sym d)
        ∙ slice-overlay_self 0 dst (replicate size 0)
            (omega (arith, length-replicate {A = ℕ} size 0))

    second : slice 6 6 (headed dst src ether size) ≡ src
    second =
        slice-overlay_before 6 6 13 ((ether % 2 ^ 8 % 2 ^ 8) ∷ []) c (omega arith)
        ∙ slice-overlay_before 6 6 12 ((ether / 2 ^ 8 % 2 ^ 8) ∷ []) b (omega arith)
        ∙ ap (λ n. slice 6 n b) (sym s)
        ∙ slice-overlay_self 6 src a (omega (arith, length-a))

    third : slice 12 1 (headed dst src ether size) ≡ (ether / 2 ^ 8 % 2 ^ 8) ∷ []
    third =
        slice-overlay_before 12 1 13 ((ether % 2 ^ 8 % 2 ^ 8) ∷ []) c (omega arith)
        ∙ slice-overlay_self 12 ((ether / 2 ^ 8 % 2 ^ 8) ∷ []) b (omega (arith, length-b))

    fourth : slice 13 1 (headed dst src ether size) ≡ (ether % 2 ^ 8 % 2 ^ 8) ∷ []
    fourth = slice-overlay_self 13 ((ether % 2 ^ 8 % 2 ^ 8) ∷ []) c (omega (arith, length-c))

-- The buffer once it is stamped.
abbrev pub stamped_buf : ℕ → ℕ → List ℕ → List ℕ
stamped_buf seq t0 buf = overlay 18 (le_bytes 8 t0) (overlay 14 (le_bytes 4 (swap32 seq)) buf)

pub stamp_frame-eq :
    (seq t0 : ℕ) (buf : List ℕ)
    → 26 ≤ length buf
    → stamp_frame seq t0 buf ≡ some (stamped_buf seq t0 buf)
unfolding stamp_frame store_u memcpy
stamp_frame-eq seq t0 buf h = ground (
  arith,
  length-le_bytes 4 (swap32 seq),
  length-le_bytes 8 t0,
  length-overlay 14 (le_bytes 4 (swap32 seq)) buf,
)

-- Stamping keeps the header and the length.
slice-stamped_buf :
    (seq t0 : ℕ) (buf : List ℕ) → slice 0 14 (stamped_buf seq t0 buf) ≡ slice 0 14 buf
slice-stamped_buf seq t0 buf =
    slice-overlay_before 0 14 18 (le_bytes 8 t0) (overlay 14 (le_bytes 4 (swap32 seq)) buf)
      (omega arith)
    ∙ slice-overlay_before 0 14 14 (le_bytes 4 (swap32 seq)) buf (omega arith)

length-stamped_buf : (seq t0 : ℕ) (buf : List ℕ) → length (stamped_buf seq t0 buf) ≡ length buf
length-stamped_buf seq t0 buf =
    length-overlay 18 (le_bytes 8 t0) (overlay 14 (le_bytes 4 (swap32 seq)) buf)
    ∙ length-overlay 14 (le_bytes 4 (swap32 seq)) buf

-- The two numbers are read back.
pub stamp_of-stamped_buf :
    (seq t0 : ℕ) (buf : List ℕ)
    → 26 ≤ length buf
    → seq < 2 ^ 32
    → t0 < 2 ^ 64
    → stamp_of (stamped_buf seq t0 buf) ≡ stamped seq t0
stamp_of-stamped_buf seq t0 buf h p q = ap₂ stamped number stamp
  where
    a : List ℕ
    a = overlay 14 (le_bytes 4 (swap32 seq)) buf

    bytes : slice 14 4 (stamped_buf seq t0 buf) ≡ le_bytes 4 (swap32 seq)
    bytes =
        slice-overlay_before 14 4 18 (le_bytes 8 t0) a (omega arith)
        ∙ ap (λ n. slice 14 n a) (sym (length-le_bytes 4 (swap32 seq)))
        ∙ slice-overlay_self 14 (le_bytes 4 (swap32 seq)) buf
            (omega (arith, length-le_bytes 4 (swap32 seq)))

    number : swap32 (le_value (slice 14 4 (stamped_buf seq t0 buf))) ≡ seq
    number =
        ap (λ bs. swap32 (le_value bs)) bytes
        ∙ ap swap32 (le_value-le_bytes4 (swap32 seq) (swap32-lt seq))
        ∙ swap32-swap32 seq p

    stamp : le_value (slice 18 8 (stamped_buf seq t0 buf)) ≡ t0
    stamp =
        ap (λ n. le_value (slice 18 n (stamped_buf seq t0 buf))) (sym (length-le_bytes 8 t0))
        ∙ ap le_value (
            slice-overlay_self 18 (le_bytes 8 t0) a (
              omega (arith, length-le_bytes 8 t0, length-overlay 14 (le_bytes 4 (swap32 seq)) buf)))
        ∙ le_value-le_bytes8 t0 q

-- The buffer that a sender hands over: the header written once, and stamped for each number and
-- time in `old`, oldest first, before it is stamped for the frame at hand.
unfoldable pub sent_frame : List (ℕ × ℕ) → ℕ → ℕ → Option (List ℕ) → Option (List ℕ)
sent_frame [] seq t0 buf = buf >>= stamp_frame seq t0
sent_frame ((s, t) ∷ old) seq t0 buf = sent_frame old seq t0 (buf >>= stamp_frame s t)

expected_words-eq :
    (dst src : List ℕ) (ether : ℕ)
    → length dst ≡ 6
    → length src ≡ 6
    → expected_words dst src ether ≡ some (words_of (headed dst src ether 16))
unfolding expected_words header_words load_u
expected_words-eq dst src ether d s = ground (
  arith,
  header_template-headed 16 dst src ether d s (omega arith),
  length-headed dst src ether 16,
)

-- A buffer that starts with the header is taken as stamped, whatever it carried before.
sent_frame-parsed :
    (old : List (ℕ × ℕ)) (seq t0 : ℕ) (buf hdr : List ℕ)
    → 26 ≤ length buf
    → slice 0 14 buf ≡ slice 0 14 hdr
    → seq < 2 ^ 32
    → t0 < 2 ^ 64
    → (sent_frame old seq t0 (some buf) >>= parse_frame (words_of hdr)) ≡ some (stamped seq t0)
unfolding sent_frame
sent_frame-parsed [] seq t0 buf hdr h e p q =
    ap (λ o. o >>= parse_frame (words_of hdr)) (stamp_frame-eq seq t0 buf h)
    ∙ parse_match (stamped_buf seq t0 buf) hdr (omega (arith, length-stamped_buf seq t0 buf))
        (slice-stamped_buf seq t0 buf ∙ e)
    ∙ ap some (stamp_of-stamped_buf seq t0 buf h p q)
sent_frame-parsed ((s, t) ∷ old) seq t0 buf hdr h e p q =
    ap (λ o. sent_frame old seq t0 o >>= parse_frame (words_of hdr)) (stamp_frame-eq s t buf h)
    ∙ sent_frame-parsed old seq t0 (stamped_buf s t buf) hdr
        (omega (arith, length-stamped_buf s t buf)) (slice-stamped_buf s t buf ∙ e) p q

-- What a receiver that expects frames from `src` to `dst` makes of the sender's buffer.
pub received : List ℕ → List ℕ → ℕ → ℕ → List (ℕ × ℕ) → ℕ → ℕ → Option Parsed
received dst src ether size old seq t0 = do
  w ← expected_words dst src ether
  f ← sent_frame old seq t0 (header_template size dst src ether)
  parse_frame w f

-- For six-byte addresses and a frame of at least 26 bytes, a frame that the sender stamps with a
-- 32-bit number and a 64-bit time is parsed by a receiver that expects the same header as exactly
-- that number and that time, whatever the reused buffer was stamped with before.
pub received-stamped :
    (dst src : List ℕ) (ether size : ℕ) (old : List (ℕ × ℕ)) (seq t0 : ℕ)
    → length dst ≡ 6
    → length src ≡ 6
    → 26 ≤ size
    → seq < 2 ^ 32
    → t0 < 2 ^ 64
    → received dst src ether size old seq t0 ≡ some (stamped seq t0)
unfolding received
received-stamped dst src ether size old seq t0 d s h p q =
    rw
      (
        expected_words-eq dst src ether d s,
        header_template-headed size dst src ether d s (omega arith),
      )
      (sent_frame-parsed old seq t0 (headed dst src ether size) (headed dst src ether 16)
        (omega (arith, length-headed dst src ether size))
        (slice-headed size dst src ether d s (omega arith)
          ∙ sym (slice-headed 16 dst src ether d s (omega arith)))
        p q)
