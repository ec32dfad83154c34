-- ===== src/EtherFabric/Ctpio.antt =====
-- What the tuned transmit path of
-- src/backends/EtherFabricVirtualInterface/EtherFabricVirtualInterface.hpp writes by itself: the frame in the
-- aperture behind its header word, in lines of 64 bytes, and the DMA descriptor, with the check of
-- initX2522PlusTx that the descriptor is the one the library would write. The library's is an argument.
use Prim.Native.Nat.{bit_and, bit_or}
use abtrda.Prelude.{
  ℕ, zero, suc, ◌+◌, ◌-◌, ◌*◌, ◌/◌, ◌^◌, Bool, not, ◌||◌, Option, none, some, List, [], ◌∷◌, ◌++◌,
  leb, ◌==◌, if◌then◌else◌, length, drop, u32, u64, ◌>>=◌,
}
use abtrda.Bytes.{le_bytes, slice}

-- The threshold, the request for a time stamp and the length of the frame.
unfoldable pub ctpio_header : ℕ → ℕ → ℕ
ctpio_header ct_threshold frame_len = bit_or (bit_or (ct_threshold * 2 ^ 16) (2 ^ 12)) frame_len

-- Four bytes of header, the frame, and up to the end of the line.
unfoldable pub tx_lines : ℕ → ℕ
tx_lines frame_len = u32 (frame_len + 4 + 63) / 2 ^ 6

unfoldable pub line_at : ℕ → List ℕ → Option (List ℕ)
line_at at mem = if leb (at + 64) (length mem) then some (slice at 64 mem) else none

-- `k` whole lines.
unfoldable pub copy_lines : ℕ → ℕ → List ℕ → Option (List ℕ)
unfolding line_at
copy_lines zero at mem = some []
copy_lines (suc k) at mem = do
  line ← line_at at mem
  rest ← copy_lines k (at + 64) mem
  some (line ++ rest)

-- The first line is always written, with the header over its first word.
unfoldable pub aperture_image : ℕ → ℕ → ℕ → List ℕ → Option (List ℕ)
unfolding ctpio_header tx_lines line_at copy_lines
aperture_image ct_threshold slot_base frame_len mem = do
  first ← line_at slot_base mem
  rest ← copy_lines (tx_lines frame_len - 1) (slot_base + 64) mem
  some (le_bytes 4 (u32 (ctpio_header ct_threshold frame_len)) ++ (drop 4 first ++ rest))

-- The descriptor of a slot, its length left out: the page order over the offset in the buffer table.
unfoldable pub desc_base_of : ℕ → Option ℕ
desc_base_of vaddr =
    let id_off = bit_and vaddr (2 ^ 48 - 1) in
    let order = vaddr / 2 ^ 48 in
    if not (id_off / 2 ^ 44 == 0) || not (order / 2 ^ 4 == 0)
    then none
    else some (bit_or (order * 2 ^ 44) id_off)

unfoldable pub tx_descriptor : ℕ → ℕ → ℕ
tx_descriptor desc_base frame_len = bit_or desc_base (u64 (frame_len * 2 ^ 48))

abbrev pub probe_len : ℕ
probe_len = 64

-- The probe of one slot: the base of its descriptor, or a refusal. `lib` is the descriptor that the library
-- writes for the slot, `none` when it fails.
unfoldable pub probe_slot : ℕ → Option ℕ → Option ℕ
unfolding desc_base_of tx_descriptor
probe_slot vaddr lib = do
  base ← desc_base_of vaddr
  desc ← lib
  if desc == tx_descriptor base probe_len then some base else none

unfoldable pub probe_slots : List (ℕ × Option ℕ) → Option (List ℕ)
unfolding probe_slot
probe_slots [] = some []
probe_slots ((vaddr, lib) ∷ slots) = do
  base ← probe_slot vaddr lib
  bases ← probe_slots slots
  some (base ∷ bases)

-- The bases of all slots; `none` is a refusal to run. `usable` is the check of the adapter, `push_thresh` the
-- library's threshold for descriptor pushes.
unfoldable pub init_x2522_tx : Bool → ℕ → List (ℕ × Option ℕ) → Option (List ℕ)
unfolding probe_slots
init_x2522_tx usable push_thresh slots =
    let bases = probe_slots slots in
    if usable then (if push_thresh == 0 then none else bases) else none
