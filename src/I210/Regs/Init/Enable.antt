-- ===== src/I210/Regs/Init/Enable.antt =====
-- The receive queue's start on a device whose configuration registers hold what is written to them.
use Prim.Native.Nat.{bit_and}
use abtrda.Prelude.{ℕ, ◌-◌, ◌≡◌, refl, ap, ◌∙◌, ◌≢◌, true, false, some, arith, ◌==◌, u32}
use abtrda.I210.Regs.{Device, read_value}
use abtrda.I210.Regs.Check.{reg_rxdctl0, reg_dvmolr0}
use abtrda.I210.Regs.Quiet.{Plain}
use abtrda.I210.Regs.Init.{
  reg_rdt0, queue_enable, rxdctl_value, DmaRing, await_enable, start_rx, program_rx, started_rx,
  init_rx_regs,
}

module _ {D : Type 0} (dev : Device D) (plain : Plain dev) where
  await_enable-shown :
      (reg : ℕ) (d : D)
      → bit_and (read_value dev reg d) queue_enable ≢ 0
      → await_enable dev reg d ≡ (true, (dev.read_reg reg d).1)
  unfolding await_enable
  await_enable-shown reg d n = rw shown refl
    where
      shown : (bit_and (read_value dev reg d) queue_enable == 0) ≡ false
      shown = ground (arith, n)

  programmed :
      (buff_size : ℕ) (ring : DmaRing) (d : D)
      → read_value dev reg_rxdctl0 (program_rx dev buff_size ring d) ≡ rxdctl_value
  unfolding program_rx
  programmed buff_size ring d = plain.read_same reg_rxdctl0 rxdctl_value _

  init_rx_regs-starts :
      (n buff_size : ℕ) (ring : DmaRing) (d : D)
      → init_rx_regs dev n buff_size (some ring) d
        ≡ (true, start_rx dev n (dev.read_reg reg_rxdctl0 (program_rx dev buff_size ring d)).1)
  unfolding init_rx_regs
  init_rx_regs-starts n buff_size ring d =
      ap (started_rx dev n)
        (await_enable-shown reg_rxdctl0 (program_rx dev buff_size ring d) enabled)
    where
      enabled :
          bit_and (read_value dev reg_rxdctl0 (program_rx dev buff_size ring d)) queue_enable ≢ 0
      enabled = rw (programmed buff_size ring d) (λ e. ground (arith, e))

  start_rx-other :
      (reg n : ℕ) (d : D)
      → reg ≢ reg_rdt0
      → reg ≢ reg_dvmolr0
      → read_value dev reg (start_rx dev n d) ≡ read_value dev reg d
  unfolding start_rx
  start_rx-other reg n d x y =
      plain.read_other reg reg_dvmolr0 _ _ y
      ∙ plain.read_read reg reg_dvmolr0 (dev.write_reg reg_rdt0 (u32 (n - 1)) d)
      ∙ plain.read_other reg reg_rdt0 (u32 (n - 1)) d x

  start_rx-tail : (n : ℕ) (d : D) → read_value dev reg_rdt0 (start_rx dev n d) ≡ u32 (n - 1)
  unfolding start_rx
  start_rx-tail n d =
      plain.read_other reg_rdt0 reg_dvmolr0 _ _ (ground arith)
      ∙ plain.read_read reg_rdt0 reg_dvmolr0 (dev.write_reg reg_rdt0 (u32 (n - 1)) d)
      ∙ plain.read_same reg_rdt0 (u32 (n - 1)) d

  -- On such a device initRx succeeds, whatever the registers held: the queue control register has the
  -- enable bit with the thresholds 8, 4 and 0, and the tail register gives the device all but one
  -- of the `n` descriptors.
  init_rx_regs-enabled :
      (n buff_size : ℕ) (ring : DmaRing) (d : D)
      → let r = init_rx_regs dev n buff_size (some ring) d in
        (r.0 ≡ true)
        × (read_value dev reg_rxdctl0 r.1 ≡ rxdctl_value)
        × (read_value dev reg_rdt0 r.1 ≡ u32 (n - 1))
  init_rx_regs-enabled n buff_size ring d =
      let p = program_rx dev buff_size ring d in
      let e = (dev.read_reg reg_rxdctl0 p).1 in
      rw (init_rx_regs-starts n buff_size ring d) (
        refl,
        start_rx-other reg_rxdctl0 n e (ground arith) (ground arith)
            ∙ plain.read_read reg_rxdctl0 reg_rxdctl0 p
            ∙ programmed buff_size ring d,
        start_rx-tail n e,
      )
