-- ===== src/I210/Regs/Init.antt =====
-- The register programming of initRx, initTx, init and shutdown of Intel_I210, once the rings are
-- allocated. Whether the allocations and the bus worked is an argument; the ring addresses and the
-- sizes in bytes come from the DMA library.
use Prim.Native.Nat.{bit_and, bit_or}
use abtrda.Prelude.{
  ℕ, zero, suc, ◌+◌, ◌-◌, ◌*◌, ◌/◌, ◌^◌, Bool, true, false, Option, none, some, ◌==◌, if◌then◌else◌,
  u32,
}
use abtrda.I210.Regs.{
  Device, clear_reg, poll_reg, reset, disable_interrupts, disable_eee, clear_phy_link_down,
  zero_multicast_table, read_mac_address, set_link_up, is_link_up, link_speed_mbps,
}
use abtrda.I210.Regs.Phy.{init_phy}
use abtrda.I210.Regs.Check.{reg_rxdctl0, reg_txdctl0, reg_dvmolr0, verify_low_latency_config}
pub mod Enable

abbrev pub reg_rctl : ℕ
reg_rctl = 256

abbrev pub reg_tctl : ℕ
reg_tctl = 1024

abbrev pub reg_tipg : ℕ
reg_tipg = 1040

abbrev pub reg_rdbal0 : ℕ
reg_rdbal0 = 49152

abbrev pub reg_rdbah0 : ℕ
reg_rdbah0 = 49156

abbrev pub reg_rdlen0 : ℕ
reg_rdlen0 = 49160

abbrev pub reg_srrctl0 : ℕ
reg_srrctl0 = 49164

abbrev pub reg_rdt0 : ℕ
reg_rdt0 = 49176

abbrev pub reg_tdbal0 : ℕ
reg_tdbal0 = 57344

abbrev pub reg_tdbah0 : ℕ
reg_tdbah0 = 57348

abbrev pub reg_tdlen0 : ℕ
reg_tdlen0 = 57352

-- The enable bit of both queue control registers.
abbrev pub queue_enable : ℕ
queue_enable = 2 ^ 25

abbrev pub rctl_rxen : ℕ
rctl_rxen = 2

abbrev pub tctl_en : ℕ
tctl_en = 2

-- RXEN, BAM, SECRC and the buffer size.
unfoldable pub rctl_value : ℕ → ℕ
rctl_value buff_size = bit_or (2 + 2 ^ 15 + 2 ^ 26) (
    if buff_size == 256
    then 3 * 2 ^ 16
    else (if buff_size == 512 then 2 * 2 ^ 16 else (if buff_size == 1024 then 2 ^ 16 else 0)))

-- EN, PSP, CT, BST and RTLC.
abbrev pub tctl_value : ℕ
tctl_value = 2 + 2 ^ 3 + 15 * 2 ^ 4 + 64 * 2 ^ 12 + 2 ^ 24

abbrev pub tipg_default : ℕ
tipg_default = 8 + 8 * 2 ^ 10 + 6 * 2 ^ 20

-- PTHRESH 8, HTHRESH 4, WTHRESH 0 and the enable bit.
abbrev pub rxdctl_value : ℕ
rxdctl_value = 8 + 4 * 2 ^ 8 + queue_enable

-- A ring as the DMA library gives it.
pub record DmaRing : Type 0 where
  pub base : ℕ
  pub size_bytes : ℕ

module _ {D : Type 0} (dev : Device D) where
  -- Whether the enable bit showed within a hundred reads.
  unfoldable pub await_enable : ℕ → D → Bool × D
  unfolding poll_reg
  await_enable reg d =
      let (v, e) = poll_reg dev 100 reg queue_enable d in
      (elim v [ none ↦ false | some x ↦ true ], e)

  unfoldable pub start_rx : ℕ → D → D
  start_rx n d =
      let a = dev.write_reg reg_rdt0 (u32 (n - 1)) d in
      let (dvmolr, b) = dev.read_reg reg_dvmolr0 a in
      dev.write_reg reg_dvmolr0 (bit_or dvmolr (2 ^ 31)) b

  unfoldable pub program_rx : ℕ → DmaRing → D → D
  unfolding rctl_value
  program_rx buff_size ring d =
      let a = dev.write_reg reg_rdbal0 (u32 ring.base) d in
      let b = dev.write_reg reg_rdbah0 (u32 (ring.base / 2 ^ 32)) a in
      let c = dev.write_reg reg_rdlen0 (u32 ring.size_bytes) b in
      let e = dev.write_reg reg_srrctl0 (buff_size / 1024 + 2 ^ 25 + 2 ^ 31) c in
      let f = dev.write_reg reg_rctl (rctl_value buff_size) e in
      let g = dev.write_reg reg_rxdctl0 0 f in
      let h = dev.write_reg reg_rdt0 0 g in dev.write_reg reg_rxdctl0 rxdctl_value h

  -- A queue that is not enabled in time is read once more, for the message.
  unfoldable pub started_rx : ℕ → Bool × D → Bool × D
  unfolding start_rx
  started_rx n (true, e) = (true, start_rx n e)
  started_rx n (false, e) = (false, (dev.read_reg reg_rxdctl0 e).1)

  unfoldable pub init_rx_regs : ℕ → ℕ → Option DmaRing → D → Bool × D
  unfolding program_rx await_enable started_rx
  init_rx_regs n buff_size none d = (false, d)
  init_rx_regs n buff_size (some ring) d =
      started_rx n (await_enable reg_rxdctl0 (program_rx buff_size ring d))

  unfoldable pub program_tx : DmaRing → D → D
  program_tx ring d =
      let a = dev.write_reg reg_tdbal0 (u32 ring.base) d in
      let b = dev.write_reg reg_tdbah0 (u32 (ring.base / 2 ^ 32)) a in
      let c = dev.write_reg reg_tdlen0 (u32 ring.size_bytes) b in
      let e = dev.write_reg reg_txdctl0 0 c in
      let (v, f) = dev.read_reg reg_txdctl0 e in dev.write_reg reg_txdctl0 (bit_or v queue_enable) f

  unfoldable pub start_tx : D → D
  start_tx d = dev.write_reg reg_tctl tctl_value (dev.write_reg reg_tipg tipg_default d)

  unfoldable pub init_tx_regs : Option DmaRing → D → Bool × D
  unfolding program_tx await_enable start_tx
  init_tx_regs none d = (false, d)
  init_tx_regs (some ring) d =
      let (enabled, e) = await_enable reg_txdctl0 (program_tx ring d) in
      if enabled then (true, start_tx e) else (false, e)

  -- At most `k` looks at the link, then the check either way.
  unfoldable pub await_link : ℕ → D → D
  unfolding is_link_up verify_low_latency_config
  await_link zero d = (verify_low_latency_config dev d).1
  await_link (suc k) d =
      let (up, e) = is_link_up dev d in
      let rest = await_link k e in
      if up then (verify_low_latency_config dev (link_speed_mbps dev e).1).1 else rest

  -- The register steps of init before the PHY.
  unfoldable pub quiesce : D → D
  unfolding reset disable_interrupts disable_eee clear_phy_link_down zero_multicast_table
  quiesce d =
      (read_mac_address dev (
        zero_multicast_table dev
          (clear_phy_link_down dev (disable_eee dev (disable_interrupts dev (reset dev d)))))).1

  -- Both queues, for a driver that receives and sends.
  unfoldable pub init_rings : ℕ → ℕ → Option DmaRing → Option DmaRing → D → Bool × D
  unfolding init_rx_regs init_tx_regs await_link
  init_rings n buff_size rx tx d =
      let (rx_ok, e) = init_rx_regs n buff_size rx d in
      let (tx_ok, f) = init_tx_regs tx e in
      if rx_ok then (if tx_ok then (true, await_link 5 f) else (false, f)) else (false, e)

  unfoldable pub init : Bool → ℕ → ℕ → Option DmaRing → Option DmaRing → D → Bool × D
  unfolding quiesce init_phy set_link_up init_rings
  init opened n buff_size rx tx d =
      let (phy, e) = init_phy dev (quiesce d) in
      let rings = init_rings n buff_size rx tx (set_link_up dev e) in
      if opened then (if phy then rings else (false, e)) else (false, d)

  unfoldable pub shutdown : Bool → D → D
  unfolding clear_reg disable_interrupts
  shutdown is_open d =
      let a = clear_reg dev reg_rctl rctl_rxen d in
      let b = clear_reg dev reg_tctl tctl_en a in if is_open then disable_interrupts dev b else d
