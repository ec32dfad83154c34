-- ===== src/EtherFabric/Image.antt =====
-- What the aperture and the descriptors say, read back.
use Prim.Native.Nat.{bit_or}
use abtrda.Prelude.{
  ℕ, zero, suc, ◌+◌, ◌-◌, ◌*◌, ◌/◌, ◌%◌, ◌^◌, ◌≤◌, ◌<◌, ◌≡◌, refl, sym, ap, ◌∙◌, true, Option, some,
  List, ◌++◌, arith, leb, length, take, drop, drop-take, u32,
}
use abtrda.Bytes.{le_bytes, slice}
use abtrda.Bytes.Laws.{drop-drop, slice_add}
use abtrda.Bits.{bit_or_fields}
use abtrda.EtherFabric.Ctpio.{
  ctpio_header, tx_lines, line_at, copy_lines, aperture_image, desc_base_of, tx_descriptor,
  probe_len,
}

ctpio_header-sum :
    (ct frame_len : ℕ)
    → frame_len < 2 ^ 12
    → ctpio_header ct frame_len ≡ ct * 2 ^ 16 + 2 ^ 12 + frame_len
unfolding ctpio_header
ctpio_header-sum ct frame_len h =
    let e : bit_or (ct * 2 ^ 16) (2 ^ 12) ≡ (ct * 2 ^ 4 + 1) * 2 ^ 12 =
      bit_or_fields 16 ct (2 ^ 12) (omega arith) ∙ omega arith in
    rw e (bit_or_fields 12 (ct * 2 ^ 4 + 1) frame_len h ∙ omega arith)

copy_lines-slice :
    (k at : ℕ) (mem : List ℕ)
    → at + k * 64 ≤ length mem
    → copy_lines k at mem ≡ some (slice at (k * 64) mem)
unfolding copy_lines line_at
copy_lines-slice zero at mem h = refl
copy_lines-slice (suc k) at mem h =
    let b : leb (at + 64) (length mem) ≡ true = ground (arith, h) in
    rw (b, copy_lines-slice k (at + 64) mem (omega arith))
      (ap some (sym (slice_add at 64 (k * 64) (suc k * 64) (at + 64) mem (omega arith) refl)))

-- The first line without its first word, and the lines after it, are one slice.
first_line :
    (b k j : ℕ) (mem : List ℕ)
    → k ≡ suc j
    → drop 4 (slice b 64 mem) ++ slice (b + 64) (j * 64) mem ≡ slice (b + 4) (k * 64 - 4) mem
first_line b k j mem e =
    let front : drop 4 (slice b 64 mem) ≡ slice (b + 4) 60 mem =
      drop-take 64 4 60 (drop b mem) refl ∙ ap (take 60) (drop-drop (b + 4) b 4 mem refl) in
    rw front
      (sym (slice_add (b + 4) 60 (j * 64) (k * 64 - 4) (b + 64) mem (omega arith) (omega arith)))

-- For a frame shorter than 4096 bytes and a threshold of at most 12 bits, in a slot whose
-- lines lie within the memory: the aperture is given whole lines, fewer than 64 bytes more than the
-- header and the frame need; they are the header word, then the bytes of the slot from the fifth on, so
-- the frame comes first; and the header word reads back as the length of the frame, a request for a
-- time stamp, and the threshold.
pub aperture_image-frame :
    (ct slot_base frame_len : ℕ) (mem : List ℕ)
    → ct < 2 ^ 12
    → frame_len < 2 ^ 12
    → slot_base + tx_lines frame_len * 64 ≤ length mem
    → let n = tx_lines frame_len * 64 in
      let hdr = ctpio_header ct frame_len in
      (aperture_image ct slot_base frame_len mem
        ≡ some (
            le_bytes 4 hdr
            ++ (slice (slot_base + 4) frame_len mem
                ++ slice (slot_base + 4 + frame_len) (n - (4 + frame_len)) mem)))
      × (4 + frame_len ≤ n)
      × (n < 4 + frame_len + 64)
      × (hdr % 2 ^ 12 ≡ frame_len)
      × (hdr / 2 ^ 12 % 2 ^ 4 ≡ 1)
      × (hdr / 2 ^ 16 ≡ ct)
unfolding aperture_image tx_lines line_at
aperture_image-frame ct b l mem c f h =
    let e = ctpio_header-sum ct l f in
    let k = tx_lines l in
    let fits : leb (b + 64) (length mem) ≡ true = ground (arith, h) in
    let word : u32 (ctpio_header ct l) ≡ ctpio_header ct l = omega (arith, e) in
    let rest = copy_lines-slice (k - 1) (b + 64) mem (omega (arith, h)) in
    let parts =
      slice_add (b + 4) l (k * 64 - (4 + l)) (k * 64 - 4) (b + 4 + l) mem (omega arith) refl in
    let image : aperture_image ct b l mem
        ≡ some (
            le_bytes 4 (ctpio_header ct l)
            ++ (slice (b + 4) l mem ++ slice (b + 4 + l) (k * 64 - (4 + l)) mem)) =
      rw (fits, rest, word)
        (ap (λ bs. some (le_bytes 4 (ctpio_header ct l) ++ bs))
          (first_line b k (k - 1) mem (omega arith) ∙ parts)) in
    (image, omega arith, omega arith, omega (arith, e), omega (arith, e), omega (arith, e))

-- What a descriptor says of the frame: the offset in the buffer table, the page order and the length.
abbrev pub Describes : ℕ → ℕ → ℕ → Type 0
Describes desc vaddr frame_len =
    (desc % 2 ^ 44 + desc / 2 ^ 44 % 2 ^ 4 * 2 ^ 48 ≡ vaddr) × (desc / 2 ^ 48 ≡ frame_len)

-- What the probe settled for a slot.
abbrev Probed : ℕ × Option ℕ → ℕ → Type 0
Probed slot base =
    (slot.1 ≡ some (tx_descriptor base probe_len)) × (desc_base_of slot.0 ≡ some base)
