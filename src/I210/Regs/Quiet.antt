-- ===== src/I210/Regs/Quiet.antt =====
-- The configuration against its check, on a device whose configuration registers hold what is written
-- to them.
use Prim.Native.Nat.{bit_and}
use abtrda.Prelude.{ℕ, ◌+◌, ◌-◌, ◌*◌, ◌%◌, ◌^◌, ◌<◌, ◌≡◌, refl, ap, ◌∙◌, ◌≢◌, true, arith}
use abtrda.Bytes.{le_value}
use abtrda.Bits.Clear.{bit_and-masked}
use abtrda.I210.Regs.{
  Device, reg_ctrl_ext, reg_eeer, reg_ipcnfg, reg_dmacr, reg_dmctlx, reg_pciemisc, reg_ral0,
  reg_rah0, clear_bits, read_value, clear_reg, disable_eee, read_mac_address,
}
use abtrda.I210.Regs.Check.{warn_bit}

-- A readable and writable register in the datasheet's sense: it reads as last written, no other
-- register changes with it, and reading changes none.
pub record Plain {D : Type 0} (dev : Device D) : Type 0 where
  pub read_same : (r v : ℕ) (d : D) → read_value dev r (dev.write_reg r v d) ≡ v
  pub read_other :
      (r s v : ℕ) (d : D) → r ≢ s → read_value dev r (dev.write_reg s v d) ≡ read_value dev r d
  pub read_read : (r s : ℕ) (d : D) → read_value dev r (dev.read_reg s d).1 ≡ read_value dev r d

module _ {D : Type 0} (dev : Device D) (plain : Plain dev) where
  clear_reg-same :
      (reg mask k : ℕ) (d : D)
      → bit_and (2 ^ 32 - 1 - mask) k ≡ 0
      → bit_and (read_value dev reg (clear_reg dev reg mask d)) k ≡ 0
  unfolding clear_reg
  clear_reg-same reg mask k d e =
      rw (plain.read_same reg (clear_bits (dev.read_reg reg d).0 mask) (dev.read_reg reg d).1)
        (bit_and-masked (dev.read_reg reg d).0 (2 ^ 32 - 1 - mask) k e)

  clear_reg-other :
      (r reg mask : ℕ) (d : D)
      → r ≢ reg
      → read_value dev r (clear_reg dev reg mask d) ≡ read_value dev r d
  unfolding clear_reg
  clear_reg-other r reg mask d h =
      plain.read_other r reg (clear_bits (dev.read_reg reg d).0 mask) (dev.read_reg reg d).1 h
      ∙ plain.read_read r reg d

  abbrev SeesZero : ℕ → ℕ → D → Type 0
  SeesZero reg mask d = warn_bit (read_value dev reg d) mask true ≡ 0

  warn_bit-clear : (v mask : ℕ) → bit_and v mask ≡ 0 → warn_bit v mask true ≡ 0
  unfolding warn_bit
  warn_bit-clear v mask e = rw e refl

  -- A register that the last three writes of disable_eee leave alone.
  late :
      (r : ℕ) (c : D)
      → r ≢ reg_dmctlx
      → r ≢ reg_pciemisc
      → r ≢ reg_ctrl_ext
      → read_value dev r (
          clear_reg dev reg_ctrl_ext 3145728
            (clear_reg dev reg_pciemisc 128 (dev.write_reg reg_dmctlx 0 c)))
        ≡ read_value dev r c
  late r c x y z =
      let e = dev.write_reg reg_dmctlx 0 c in
      clear_reg-other r reg_ctrl_ext 3145728 (clear_reg dev reg_pciemisc 128 e) z
      ∙ clear_reg-other r reg_pciemisc 128 e y
      ∙ plain.read_other r reg_dmctlx 0 c x

  through : (v w mask : ℕ) → v ≡ w → bit_and w mask ≡ 0 → warn_bit v mask true ≡ 0
  through v w mask e z = warn_bit-clear v mask (ap (λ x. bit_and x mask) e ∙ z)

  -- On such a device, whatever its registers held, the checks of the final verification on the
  -- registers that disableEEE writes (EEER, IPCNFG, DMACR, PCIEMISC and both bits of CTRL_EXT) give no
  -- warning after it.
  disable_eee-quiet :
      (d : D)
      → let e = disable_eee dev d in
        SeesZero reg_eeer 458752 e
        × SeesZero reg_ipcnfg 12 e
        × SeesZero reg_dmacr (2 ^ 31) e
        × SeesZero reg_pciemisc 128 e
        × SeesZero reg_ctrl_ext (2 ^ 20) e
        × SeesZero reg_ctrl_ext (2 ^ 21) e
  unfolding disable_eee
  disable_eee-quiet d =
      let a = clear_reg dev reg_eeer 458752 d in
      let b = clear_reg dev reg_ipcnfg 12 a in
      let c = dev.write_reg reg_dmacr 0 b in
      let e = dev.write_reg reg_dmctlx 0 c in
      let f = clear_reg dev reg_pciemisc 128 e in
      (
        through _ _ 458752
            (late reg_eeer c (ground arith) (ground arith) (ground arith)
              ∙ plain.read_other reg_eeer reg_dmacr 0 b (ground arith)
              ∙ clear_reg-other reg_eeer reg_ipcnfg 12 a (ground arith))
            (clear_reg-same reg_eeer 458752 458752 d refl),
        through _ _ 12
            (late reg_ipcnfg c (ground arith) (ground arith) (ground arith)
              ∙ plain.read_other reg_ipcnfg reg_dmacr 0 b (ground arith))
            (clear_reg-same reg_ipcnfg 12 12 a refl),
        through _ 0 (2 ^ 31)
            (late reg_dmacr c (ground arith) (ground arith) (ground arith)
              ∙ plain.read_same reg_dmacr 0 b)
            refl,
        through _ _ 128 (clear_reg-other reg_pciemisc reg_ctrl_ext 3145728 f (ground arith))
            (clear_reg-same reg_pciemisc 128 128 e refl),
        warn_bit-clear _ (2 ^ 20) (clear_reg-same reg_ctrl_ext 3145728 (2 ^ 20) f refl),
        warn_bit-clear _ (2 ^ 21) (clear_reg-same reg_ctrl_ext 3145728 (2 ^ 21) f refl),
      )

module _ {D : Type 0} (dev : Device D) where
  -- The six bytes that readMacAddress keeps are, lowest first, those of the number whose low 32 bits
  -- are RAL0 and whose next 16 bits are the low half of RAH0.
  read_mac_address-le_value :
      (d : D)
      → (dev.read_reg reg_ral0 d).0 < 2 ^ 32
      → let ral = dev.read_reg reg_ral0 d in
        le_value (read_mac_address dev d).0
        ≡ ral.0 + 2 ^ 32 * ((dev.read_reg reg_rah0 ral.1).0 % 2 ^ 16)
  unfolding read_mac_address le_value
  read_mac_address-le_value d h = omega arith
