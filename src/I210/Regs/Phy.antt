-- ===== src/I210/Regs/Phy.antt =====
-- The PHY behind MDIC (writePhy, readPhy, initPhy of Intel_I210): a command, then at most a hundred
-- reads until the device reports that it is ready.
use Prim.Native.Nat.{bit_and, bit_or}
use abtrda.Prelude.{
  ℕ, zero, suc, ◌+◌, ◌*◌, ◌^◌, Bool, true, false, Option, none, some, ◌==◌, if◌then◌else◌, u16, u32,
}
use abtrda.I210.Regs.{Device, reg_mdic, poll_reg}

abbrev pub mdic_op_write : ℕ
mdic_op_write = 2 ^ 26

abbrev pub mdic_op_read : ℕ
mdic_op_read = 2 * 2 ^ 26

abbrev pub mdic_ready : ℕ
mdic_ready = 2 ^ 28

abbrev pub mdic_error : ℕ
mdic_error = 2 ^ 30

abbrev pub mdic_command : ℕ → ℕ → ℕ → ℕ
mdic_command value reg op = bit_or (bit_or value (u32 (reg * 2 ^ 16))) op

-- The outcome of a transaction from the value that reported ready, if any did.
unfoldable pub write_outcome : Option ℕ → Bool
write_outcome none = false
write_outcome (some mdic) = bit_and mdic mdic_error == 0

unfoldable pub read_outcome : Option ℕ → ℕ
read_outcome none = 0
read_outcome (some mdic) = if bit_and mdic mdic_error == 0 then u16 (bit_and mdic 65535) else 0

abbrev pub phy_bmcr : ℕ
phy_bmcr = 0

abbrev pub phy_anar : ℕ
phy_anar = 4

abbrev pub phy_gbcr : ℕ
phy_gbcr = 9

abbrev pub bmcr_reset : ℕ
bmcr_reset = 2 ^ 15

module _ {D : Type 0} (dev : Device D) where
  unfoldable pub write_phy : ℕ → ℕ → D → Bool × D
  unfolding write_outcome
  write_phy reg value d =
      let p =
        poll_reg dev 100 reg_mdic mdic_ready
          (dev.write_reg reg_mdic (mdic_command value reg mdic_op_write) d) in
      (write_outcome p.0, p.1)

  unfoldable pub read_phy : ℕ → D → ℕ × D
  unfolding read_outcome
  read_phy reg d =
      let p =
        poll_reg dev 100 reg_mdic mdic_ready
          (dev.write_reg reg_mdic (mdic_command 0 reg mdic_op_read) d) in
      (read_outcome p.0, p.1)

  -- At most `k` reads of the control register until its reset bit is clear.
  unfoldable pub await_reset : ℕ → D → D
  await_reset zero d = d
  await_reset (suc k) d =
      let (v, e) = read_phy phy_bmcr d in
      let rest = await_reset k e in if bit_and v bmcr_reset == 0 then e else rest

  -- The advertisements and the restart of auto-negotiation, whose results the driver ignores.
  unfoldable pub advertise : D → D
  advertise d =
      let a = (write_phy phy_anar (1 + 2 ^ 5 + 2 ^ 6 + 2 ^ 7 + 2 ^ 8) d).1 in
      let b = (write_phy phy_gbcr (2 ^ 9) a).1 in (write_phy phy_bmcr (2 ^ 12 + 2 ^ 9) b).1

  unfoldable pub init_phy : D → Bool × D
  unfolding advertise await_reset
  init_phy d =
      let (written, e) = write_phy phy_bmcr bmcr_reset d in
      if written then (true, advertise (await_reset 100 e)) else (false, e)
