-- ===== src/I210/Regs.antt =====
-- The register accesses of Intel_I210 that configure the device: reset, interrupts, power saving, PHY
-- access by MDIC, addresses and the check at the end. The device is a parameter: a state `D` whose
-- registers are read, which may change it, and written. Sleeps and messages are left out.
pub mod Phy
pub mod Check
pub mod Init
pub mod Quiet
use Prim.Native.Nat.{bit_and, bit_or}
use abtrda.Prelude.{
  ℕ, zero, suc, ◌+◌, ◌-◌, ◌*◌, ◌/◌, ◌%◌, ◌^◌, Bool, not, Option, none, some, List, [], ◌∷◌, ◌==◌,
  if◌then◌else◌, get_or,
}

pub record Device (D : Type 0) : Type 0 where
  pub read_reg : ℕ → D → ℕ × D
  pub write_reg : ℕ → ℕ → D → D

-- The offsets of I210Registers.hpp.
abbrev pub reg_ctrl : ℕ
reg_ctrl = 0

abbrev pub reg_status : ℕ
reg_status = 8

abbrev pub reg_ctrl_ext : ℕ
reg_ctrl_ext = 24

abbrev pub reg_mdic : ℕ
reg_mdic = 32

abbrev pub reg_wuc : ℕ
reg_wuc = 48

abbrev pub reg_icr : ℕ
reg_icr = 5376

abbrev pub reg_imc : ℕ
reg_imc = 5388

abbrev pub reg_eicr : ℕ
reg_eicr = 5504

abbrev pub reg_eimc : ℕ
reg_eimc = 5416

abbrev pub reg_eitr0 : ℕ
reg_eitr0 = 5760

abbrev pub reg_eeer : ℕ
reg_eeer = 3632

abbrev pub reg_ipcnfg : ℕ
reg_ipcnfg = 3640

abbrev pub reg_dmacr : ℕ
reg_dmacr = 9480

abbrev pub reg_dmctlx : ℕ
reg_dmctlx = 9492

abbrev pub reg_pciemisc : ℕ
reg_pciemisc = 23480

abbrev pub reg_phy_power_mgmt : ℕ
reg_phy_power_mgmt = 59476

abbrev pub reg_mta : ℕ
reg_mta = 20992

abbrev pub reg_ral0 : ℕ
reg_ral0 = 21504

abbrev pub reg_rah0 : ℕ
reg_rah0 = 21508

abbrev pub irq_disable_all : ℕ
irq_disable_all = 2 ^ 32 - 1

abbrev pub ctrl_dev_rst : ℕ
ctrl_dev_rst = 2 ^ 29

-- `reg &= ~mask` on 32 bits.
abbrev pub clear_bits : ℕ → ℕ → ℕ
clear_bits reg mask = bit_and reg (2 ^ 32 - 1 - mask)

module _ {D : Type 0} (dev : Device D) where
  abbrev pub read_value : ℕ → D → ℕ
  read_value reg d = (dev.read_reg reg d).0

  -- A register is read, and written without the bits of `mask`.
  unfoldable pub clear_reg : ℕ → ℕ → D → D
  clear_reg reg mask d = let (v, e) = dev.read_reg reg d in dev.write_reg reg (clear_bits v mask) e

  -- Reads until a bit of `mask` shows, at most `k` times: the last value read and whether it does.
  unfoldable pub poll_reg : ℕ → ℕ → ℕ → D → Option ℕ × D
  poll_reg zero reg mask d = (none, d)
  poll_reg (suc k) reg mask d =
      let (v, e) = dev.read_reg reg d in
      let rest = poll_reg k reg mask e in if bit_and v mask == 0 then rest else (some v, e)

  unfoldable pub reset : D → D
  unfolding poll_reg
  reset d =
      let (v, e) = dev.read_reg reg_ctrl d in
      (poll_reg 100 reg_status (2 ^ 21) (dev.write_reg reg_ctrl (bit_or v ctrl_dev_rst) e)).1

  -- The throttle registers from number `5 - k` on.
  unfoldable pub write_eitr : ℕ → D → D
  write_eitr zero d = d
  write_eitr (suc k) d = write_eitr k (dev.write_reg (reg_eitr0 + 4 * (4 - k)) 65535 d)

  unfoldable pub disable_interrupts : D → D
  unfolding write_eitr
  disable_interrupts d =
      let a = dev.write_reg reg_imc irq_disable_all d in
      let b = dev.write_reg reg_eimc irq_disable_all a in
      let c = (dev.read_reg reg_icr b).1 in
      let e = (dev.read_reg reg_eicr c).1 in dev.write_reg reg_wuc 0 (write_eitr 5 e)

  -- TX_LPI_EN, RX_LPI_EN and LPI_FC; 1G and 100M advertisement; LX_DECISION; PHYPDEN and PHY_PWR_MGMT.
  unfoldable pub disable_eee : D → D
  unfolding clear_reg
  disable_eee d =
      let a = clear_reg reg_eeer 458752 d in
      let b = clear_reg reg_ipcnfg 12 a in
      let c = dev.write_reg reg_dmacr 0 b in
      let e = dev.write_reg reg_dmctlx 0 c in
      let f = clear_reg reg_pciemisc 128 e in clear_reg reg_ctrl_ext 3145728 f

  unfoldable pub clear_phy_link_down : D → D
  unfolding clear_reg
  clear_phy_link_down d = clear_reg reg_phy_power_mgmt 1 d

  unfoldable pub zero_mta : ℕ → D → D
  zero_mta zero d = d
  zero_mta (suc k) d = zero_mta k (dev.write_reg (reg_mta + (127 - k) * 4) 0 d)

  unfoldable pub zero_multicast_table : D → D
  unfolding zero_mta
  zero_multicast_table d = zero_mta 128 d

  unfoldable pub read_mac_address : D → List ℕ × D
  read_mac_address d =
      let (ral, e) = dev.read_reg reg_ral0 d in
      let (rah, f) = dev.read_reg reg_rah0 e in
      (
        ral % 2 ^ 8
            ∷ ral / 2 ^ 8 % 2 ^ 8
            ∷ ral / 2 ^ 16 % 2 ^ 8
            ∷ ral / 2 ^ 24 % 2 ^ 8
            ∷ rah % 2 ^ 8
            ∷ rah / 2 ^ 8 % 2 ^ 8
            ∷ [],
        f,
      )

  -- CTRL after the PHY is set up: link up set, forced speed and duplex and flow control cleared.
  unfoldable pub set_link_up : D → D
  set_link_up d =
      let (ctrl, e) = dev.read_reg reg_ctrl d in
      dev.write_reg reg_ctrl (clear_bits (bit_or ctrl (2 ^ 6)) (2 ^ 11 + 2 ^ 12 + 2 ^ 27 + 2 ^ 28))
        e

  unfoldable pub is_link_up : D → Bool × D
  is_link_up d = let (v, e) = dev.read_reg reg_status d in (not (bit_and v 2 == 0), e)

  unfoldable pub link_speed_mbps : D → ℕ × D
  link_speed_mbps d =
      let (v, e) = dev.read_reg reg_status d in
      (get_or (10 ∷ 100 ∷ 1000 ∷ 1000 ∷ []) (bit_and v 192 / 2 ^ 6) 0, e)
