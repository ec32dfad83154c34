-- ===== src/I210/Regs/Check.antt =====
-- The check at the end of the set-up (verifyLowLatencyConfig of Intel_I210): how many warnings it
-- counts.
use Prim.Native.Nat.{bit_and, bit_or}
use abtrda.Prelude.{ℕ, ◌+◌, ◌^◌, Bool, true, false, not, ◌||◌, ◌==◌, if◌then◌else◌}
use abtrda.I210.Regs.{
  Device, reg_ctrl, reg_ctrl_ext, reg_eitr0, reg_eeer, reg_ipcnfg, reg_dmacr, reg_pciemisc,
}
use abtrda.I210.Regs.Phy.{write_phy, read_phy}

abbrev pub reg_tqavctrl : ℕ
reg_tqavctrl = 13680

abbrev pub reg_rxdctl0 : ℕ
reg_rxdctl0 = 49192

abbrev pub reg_txdctl0 : ℕ
reg_txdctl0 = 57384

abbrev pub reg_dvmolr0 : ℕ
reg_dvmolr0 = 49208

-- A bit that is set and should be clear, or clear and should be set, is a warning.
unfoldable pub warn_bit : ℕ → ℕ → Bool → ℕ
warn_bit reg mask expect_clear =
    let bit_set = not (bit_and reg mask == 0) in
    if expect_clear then (if bit_set then 1 else 0) else (if bit_set then 0 else 1)

unfoldable pub warn_eitr : ℕ → ℕ
warn_eitr eitr = if eitr == 65535 || eitr == 65532 then 0 else 1

unfoldable pub warn_eee : ℕ → ℕ
warn_eee eee_adv = if bit_and eee_adv 6 == 0 then 0 else 1

module _ {D : Type 0} (dev : Device D) where
  -- The walk to device 7, register 60, and back.
  unfoldable pub read_eee_adv : D → ℕ × D
  read_eee_adv d =
      let a = (write_phy dev 13 7 d).1 in
      let b = (write_phy dev 14 60 a).1 in
      let c = (write_phy dev 13 (bit_or 16384 7) b).1 in
      let (adv, e) = read_phy dev 14 c in (adv, (write_phy dev 13 0 e).1)

  unfoldable pub verify_low_latency_config : D → ℕ × D
  unfolding warn_bit warn_eitr warn_eee read_eee_adv
  verify_low_latency_config d =
      let (eeer, d1) = dev.read_reg reg_eeer d in
      let (ipcnfg, d2) = dev.read_reg reg_ipcnfg d1 in
      let (dmacr, d3) = dev.read_reg reg_dmacr d2 in
      let (pciemisc, d4) = dev.read_reg reg_pciemisc d3 in
      let (ctrl_ext, d5) = dev.read_reg reg_ctrl_ext d4 in
      let (tqavctrl, d6) = dev.read_reg reg_tqavctrl d5 in
      let (rxdctl, d7) = dev.read_reg reg_rxdctl0 d6 in
      let (txdctl, d8) = dev.read_reg reg_txdctl0 d7 in
      let (eitr, d9) = dev.read_reg reg_eitr0 d8 in
      let (eee_adv, d10) = read_eee_adv d9 in
      let (ctrl, d11) = dev.read_reg reg_ctrl d10 in
      let (dvmolr, d12) = dev.read_reg reg_dvmolr0 d11 in
      (
        warn_bit eeer 458752 true
            + warn_bit ipcnfg 12 true
            + warn_eee eee_adv
            + warn_bit dmacr (2 ^ 31) true
            + warn_bit pciemisc 128 true
            + warn_bit ctrl_ext (2 ^ 20) true
            + warn_bit ctrl_ext (2 ^ 21) true
            + warn_bit tqavctrl 1 true
            + warn_bit ctrl (2 ^ 27) true
            + warn_bit ctrl (2 ^ 28) true
            + warn_eitr eitr
            + warn_bit dvmolr (2 ^ 31) false
            + warn_bit rxdctl (2 ^ 25) false
            + warn_bit txdctl (2 ^ 25) false,
        d12,
      )
