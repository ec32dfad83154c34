-- ===== src/Pci.antt =====
-- The i40e register fixes of src/backends/common/PciHelpers.hpp: which queue control registers are real, the
-- scan that detaches their queues from interrupt moderation, the probe, the interval clear and its
-- report. BAR0 is a device whose registers are read and written; how it is found and mapped, and
-- messages and the reads made only for them, are left out.
pub mod Value
pub mod NoItr
mod Tests
use Prim.Native.Nat.{bit_and, bit_or}
use abtrda.Prelude.{
  ℕ, zero, suc, ◌+◌, ◌-◌, ◌*◌, ◌/◌, ◌%◌, ◌^◌, Bool, true, false, not, ◌&&◌, ◌||◌, Option, none,
  some, ltb, leb, ◌==◌, if◌then◌else◌, u32, u64,
}
use abtrda.I210.Regs.{Device}

abbrev pub itr0_0 : ℕ
itr0_0 = 229376

abbrev pub itrn_0_0 : ℕ
itrn_0_0 = 196608

abbrev pub itr_interval_mask : ℕ
itr_interval_mask = 4095

abbrev pub rqctl_base : ℕ
rqctl_base = 237568

abbrev pub rqctl_count : ℕ
rqctl_count = 1536

abbrev pub itr_indx_mask : ℕ
itr_indx_mask = 3 * 2 ^ 11

abbrev pub reg_unimpl : ℕ
reg_unimpl = 3735928559

-- The size of a BAR, from the two numbers of its line.
unfoldable pub bar_size : Option (ℕ × ℕ) → ℕ
bar_size none = 0
bar_size (some (start, end)) =
    if leb start end && not (start == 0) then u64 (end - start + 1) else 0

-- Bound, reserved bit clear, a valid queue type, and no signature of a register that is not there.
unfoldable pub is_bound_rx_queue : ℕ → Bool
is_bound_rx_queue v =
    if v == reg_unimpl || v == 2 ^ 32 - 1
    then false
    else (if bit_and v (2 ^ 30) == 0
        then false
        else (if not (bit_and v (2 ^ 31) == 0)
            then false
            else not (bit_and v (3 * 2 ^ 27) / 2 ^ 27 == 3)))

-- The moderation index of a queue control register set to `indx`.
unfoldable pub with_itr_indx : ℕ → ℕ → ℕ
with_itr_indx before indx =
    bit_or (bit_and before (2 ^ 32 - 1 - itr_indx_mask)) (bit_and (indx * 2 ^ 11) itr_indx_mask)

-- The value that detaches a queue: index 3.
unfoldable pub no_itr_value : ℕ → ℕ
no_itr_value before = bit_or (bit_and before (2 ^ 32 - 1 - itr_indx_mask)) (3 * 2 ^ 11)

-- The register of the interval that the probe loads: the miscellaneous vector has its own.
unfoldable pub itr_offset : ℕ → ℕ → ℕ
itr_offset itr_idx msix =
    if msix == 0 then itr0_0 + itr_idx * 128 else itrn_0_0 + itr_idx * 2048 + (msix - 1) * 4

-- The registers that BAR0 maps; `none` when it ends before the first.
unfoldable pub rqctl_mapped : ℕ → Option ℕ
rqctl_mapped bar0_size =
    if ltb bar0_size (rqctl_base + rqctl_count * 4)
    then (if leb bar0_size rqctl_base then none else some ((bar0_size - rqctl_base) / 4))
    else some rqctl_count

abbrev pub rqctl : ℕ → ℕ
rqctl q = rqctl_base + q * 4

-- The queues that took the index, and those that refused it.
pub record Scan : Type 0 where
  pub patched : ℕ
  pub failed : ℕ

unfoldable pub count_patch : ℕ → Scan → Scan
count_patch after s =
    if bit_and after itr_indx_mask == itr_indx_mask
    then record s { patched = u32 (s.patched + 1) }
    else record s { failed = u32 (s.failed + 1) }

module _ {D : Type 0} (dev : Device D) where
  -- The write, and the read that shows whether it landed.
  unfoldable pub patch_queue : ℕ → ℕ → D → Scan → D × Scan
  unfolding no_itr_value count_patch
  patch_queue reg before d s =
      let (after, e) = dev.read_reg reg (dev.write_reg reg (no_itr_value before) d) in
      (e, count_patch after s)

  unfoldable pub scan_queue : ℕ → D × Scan → D × Scan
  unfolding is_bound_rx_queue patch_queue
  scan_queue q (d, s) =
      let (before, e) = dev.read_reg (rqctl q) d in
      let patched = patch_queue (rqctl q) before e s in
      if is_bound_rx_queue before then patched else (e, s)

  -- The queues from 0 up to `n`.
  unfoldable pub scan_queues : ℕ → D → D × Scan
  unfolding scan_queue
  scan_queues zero d = (d, record { patched = 0; failed = 0 })
  scan_queues (suc n) d = scan_queue n (scan_queues n d)

  unfoldable pub scan_verdict : D × Scan → Bool × D
  scan_verdict (d, s) = if s.patched == 0 && s.failed == 0 then (false, d) else (s.failed == 0, d)

  unfoldable pub set_no_itr_mapped : Option ℕ → D → Bool × D
  unfolding scan_queues scan_verdict
  set_no_itr_mapped none d = (false, d)
  set_no_itr_mapped (some count) d = scan_verdict (scan_queues count d)

  -- `usable` says that the device is known and BAR0 is mapped.
  unfoldable pub set_no_itr : Bool → ℕ → D → Bool × D
  unfolding set_no_itr_mapped rqctl_mapped
  set_no_itr usable bar0_size d =
      let done = set_no_itr_mapped (rqctl_mapped bar0_size) d in if usable then done else (false, d)

  unfoldable pub probe_queue : ℕ → ℕ → ℕ → ℕ → D × ℕ → D × ℕ
  unfolding is_bound_rx_queue with_itr_indx itr_offset
  probe_queue itr_idx interval bar0_size q (d, n) =
      let (before, e) = dev.read_reg (rqctl q) d in
      let off = itr_offset itr_idx (before % 2 ^ 8) in
      let (back, g) = dev.read_reg off (dev.write_reg off (bit_and interval itr_interval_mask) e) in
      let (after, h) =
        dev.read_reg (rqctl q) (dev.write_reg (rqctl q) (with_itr_indx before itr_idx) g) in
      if is_bound_rx_queue before && leb (off + 4) bar0_size then (h, n + 1) else (e, n)

  unfoldable pub probe_queues : ℕ → ℕ → ℕ → ℕ → D → D × ℕ
  unfolding probe_queue
  probe_queues itr_idx interval bar0_size zero d = (d, 0)
  probe_queues itr_idx interval bar0_size (suc n) d =
      probe_queue itr_idx interval bar0_size n (probe_queues itr_idx interval bar0_size n d)

  unfoldable pub probe_mapped : ℕ → ℕ → ℕ → Option ℕ → D → Bool × D
  unfolding probe_queues
  probe_mapped itr_idx interval bar0_size none d = (false, d)
  probe_mapped itr_idx interval bar0_size (some count) d =
      let (e, n) = probe_queues itr_idx interval bar0_size count d in (ltb 0 n, e)

  unfoldable pub itr_probe : Bool → ℕ → ℕ → ℕ → D → Bool × D
  unfolding probe_mapped rqctl_mapped
  itr_probe usable itr_idx interval bar0_size d =
      let done = probe_mapped itr_idx interval bar0_size (rqctl_mapped bar0_size) d in
      if usable && leb itr_idx 2 then done else (false, d)

  -- Both intervals cleared and read back.
  unfoldable pub clear_itr : Bool → D → Bool × D
  clear_itr usable d =
      let (a, e) = dev.read_reg itr0_0 (dev.write_reg itrn_0_0 0 (dev.write_reg itr0_0 0 d)) in
      let (b, f) = dev.read_reg itrn_0_0 e in
      if usable then (bit_and (bit_or a b) itr_interval_mask == 0, f) else (false, d)

  -- Whether the data queue is not throttled.
  unfoldable pub report_itr : Bool → D → Bool × D
  report_itr usable d =
      let (a, e) = dev.read_reg itr0_0 d in
      let (b, f) = dev.read_reg itrn_0_0 e in
      if usable then (bit_and b itr_interval_mask == 0, f) else (false, d)

  unfoldable pub igc_disable_eee : Bool → ℕ → D → Bool × D
  igc_disable_eee usable bar0_size d =
      let (before, e) = dev.read_reg 3632 d in
      let f = dev.write_reg 3632 (bit_and before (2 ^ 32 - 1 - 196608)) e in
      if usable && leb (3632 + 4) bar0_size then (true, f) else (false, d)
