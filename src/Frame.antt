-- ===== src/Frame.antt =====
-- The benchmark frame of src/app/SingleRecorder.hpp: the layout, the prefilled ethernet header, the
-- in-band sequence number and time stamp, and what the receiver makes of a buffer.
pub mod Header
pub mod RoundTrip
mod Tests
use Prim.Native.Nat.{bit_or, bit_xor}
use abtrda.Prelude.{
  ℕ, ◌+◌, ◌/◌, ◌%◌, ◌^◌, Option, some, List, ltb, ◌==◌, if◌then◌else◌, length, replicate, ◌>>=◌,
}
use abtrda.Bytes.{memcpy, store_u, load_u, swap32}

abbrev pub off_dst_mac : ℕ
off_dst_mac = 0

abbrev pub off_src_mac : ℕ
off_src_mac = 6

abbrev pub off_ether_type : ℕ
off_ether_type = 12

abbrev pub off_seq : ℕ
off_seq = 14

abbrev pub off_tx_stamp : ℕ
off_tx_stamp = 18

abbrev pub frame_min_bytes : ℕ
frame_min_bytes = off_tx_stamp + 8

-- A zeroed buffer of `size` bytes with the ethernet header written over it.
unfoldable pub header_template : ℕ → List ℕ → List ℕ → ℕ → Option (List ℕ)
header_template size dst src ether = do
  a ← memcpy off_dst_mac dst (replicate size 0)
  b ← memcpy off_src_mac src a
  c ← store_u 1 off_ether_type (ether / 2 ^ 8) b
  store_u 1 (off_ether_type + 1) (ether % 2 ^ 8) c

-- The sender writes the sequence number in network order and its time stamp in host order.
unfoldable pub stamp_frame : ℕ → ℕ → List ℕ → Option (List ℕ)
stamp_frame seq t0 buf = do a ← store_u 4 off_seq (swap32 seq) buf; store_u 8 off_tx_stamp t0 a

-- The two overlapping words that cover the header: bytes 0 to 7 and bytes 6 to 13.
unfoldable pub header_words : List ℕ → Option (ℕ × ℕ)
header_words f = do lo ← load_u 8 off_dst_mac f; hi ← load_u 8 off_src_mac f; some (lo, hi)

-- The words that the receiver expects, from a header padded to 16 bytes.
unfoldable pub expected_words : List ℕ → List ℕ → ℕ → Option (ℕ × ℕ)
expected_words dst src ether = do hdr ← header_template 16 dst src ether; header_words hdr

pub data Parsed : Type 0 where
  runt : Parsed
  foreign : Parsed
  stamped : ℕ → ℕ → Parsed

unfoldable pub read_stamp : List ℕ → Option Parsed
read_stamp f = do
  seq_net ← load_u 4 off_seq f
  t0 ← load_u 8 off_tx_stamp f
  some (stamped (swap32 seq_net) t0)

-- One OR and one test on the two header words; `none` is a load outside the buffer.
unfoldable pub parse_frame : ℕ × ℕ → List ℕ → Option Parsed
unfolding header_words read_stamp
parse_frame (exp_lo, exp_hi) f = if ltb (length f) frame_min_bytes then some runt else do
  w ← header_words f
  if bit_or (bit_xor w.0 exp_lo) (bit_xor w.1 exp_hi) == 0 then read_stamp f else some foreign
