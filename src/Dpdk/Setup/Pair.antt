-- ===== src/Dpdk/Setup/Pair.antt =====
-- The DPDK traits of src/app/TransportTraits.hpp: the settings by driver before a port is prepared,
-- the register fixes after its start, and the life of two ports in one process (--single).
pub mod Order
pub mod Phases
pub mod Steady
use Prim.Native.String.{String}
use text.Mathlib.Text
use abtrda.Action.{Action, ◌>>=◌, ◌>>◌, pure, when}
use abtrda.Prelude.{ℕ, Bool, true, false, not, ◌&&◌, Option, none, some}
use abtrda.Strings.{contains}
use abtrda.Dpdk.Eal.{Env, Process, ask_text, tell, resolve_bdf, i40e_writeback, igc_eee, drive}
use abtrda.Dpdk.Setup.{
  Port, new_port, Dpdk, globally, set_link_speeds, set_symmetric_queues, set_nb_rx_desc,
  set_devargs, set_tx_inline_reuse, prepare, wait_link, init, rx_only, tx_only,
}

-- The part of a RoleConfig that DPDK reads.
pub record Role : Type 0 where
  pub interface : String
  pub driver : String
  pub cpu_core : ℕ
  pub dpdk_bifurcated : Bool
  pub dpdk_afxdp_pmd : Bool

abbrev pub mlx5_devargs : String
mlx5_devargs = "txq_mem_algn=0,txqs_min_inline=0,rxq_cqe_comp_en=0"

abbrev pub sfc_devargs : String
sfc_devargs =
    "perf_profile=low-latency,rx_datapath=ef10,tx_datapath=ef10_simple,stats_update_period_ms=0"

unfoldable pub igc_settings : Action Dpdk (Unit {0})
unfolding set_link_speeds set_symmetric_queues
igc_settings = set_link_speeds 32 >> set_symmetric_queues true

unfoldable pub mlx5_settings : Action Dpdk (Unit {0})
unfolding set_devargs set_tx_inline_reuse set_nb_rx_desc
mlx5_settings = set_devargs mlx5_devargs >> set_tx_inline_reuse true >> set_nb_rx_desc 64

unfoldable pub sfc_settings : Action Dpdk (Unit {0})
unfolding set_devargs set_nb_rx_desc
sfc_settings = set_devargs sfc_devargs >> set_nb_rx_desc 64

abbrev pub is_igc : Role → Bool
is_igc role = Text.◌==◌ role.driver "igc" && not role.dpdk_afxdp_pmd

abbrev pub is_i40e : Role → Bool
is_i40e role = Text.◌==◌ role.driver "i40e"

-- Two ports in their process.
pub record Ports : Type 0 where
  pub tx : Port
  pub rx : Port
  pub process : Process

abbrev pub on_tx : {A : Type 0} → Action Dpdk A → Action Ports A
on_tx m s =
    let (r, d) = m (record { nic = s.tx; process = s.process }) in
    (r, record s { tx = d.nic; process = d.process })

abbrev pub on_rx : {A : Type 0} → Action Dpdk A → Action Ports A
on_rx m s =
    let (r, d) = m (record { nic = s.rx; process = s.process }) in
    (r, record s { rx = d.nic; process = d.process })

abbrev pub in_process : {A : Type 0} → Action Process A → Action Ports A
in_process m s = let (r, p) = m s.process in (r, record s { process = p })

abbrev pub exit_code : Option (Unit {0}) → ℕ
exit_code (some u) = 0
exit_code none = 1

module _ (env : Env) (decimal : ℕ → String) where
  -- The address is looked up while the interface still has its name.
  unfoldable pub dpdk_pre_init : Role → Action Dpdk String
  unfolding igc_settings mlx5_settings sfc_settings contains
  dpdk_pre_init role = do
    bdf ← globally (ask_text env decimal (resolve_bdf role.interface))
    when (is_igc role) igc_settings
    when (contains "mlx5" role.driver && not role.dpdk_afxdp_pmd) mlx5_settings
    when (Text.◌==◌ role.driver "sfc" && not role.dpdk_afxdp_pmd) sfc_settings
    pure bdf

  unfoldable pub dpdk_post_init_fixes : String → Role → Action Process (Unit {0})
  dpdk_post_init_fixes bdf role =
      when (is_i40e role) (tell env decimal (i40e_writeback bdf))
      >> when (is_igc role) (tell env decimal (igc_eee bdf))

  -- DpdkTraits::init.
  unfoldable pub dpdk_init : Bool → Role → Action Dpdk (Unit {0})
  unfolding dpdk_pre_init init dpdk_post_init_fixes
  dpdk_init enable_deferral role = do
    bdf ← dpdk_pre_init role
    init env decimal true role.dpdk_bifurcated role.dpdk_afxdp_pmd enable_deferral
    globally (dpdk_post_init_fixes bdf role)

  -- Both ports are offered to DPDK before either starts it.
  unfoldable pub single_pair : Bool → Role → Role → Action Ports (Unit {0})
  unfolding dpdk_pre_init prepare init dpdk_post_init_fixes wait_link
  single_pair enable_deferral client server = do
    tx_bdf ← on_tx (dpdk_pre_init client)
    rx_bdf ← on_rx (dpdk_pre_init server)
    on_tx (prepare env decimal client.dpdk_bifurcated client.dpdk_afxdp_pmd)
    on_rx (prepare env decimal server.dpdk_bifurcated server.dpdk_afxdp_pmd)
    on_tx (init env decimal false client.dpdk_bifurcated client.dpdk_afxdp_pmd enable_deferral)
    on_rx (init env decimal false server.dpdk_bifurcated server.dpdk_afxdp_pmd enable_deferral)
    in_process (dpdk_post_init_fixes tx_bdf client)
    in_process (dpdk_post_init_fixes rx_bdf server)
    on_tx (wait_link env decimal)
    on_rx (wait_link env decimal)
    in_process (tell env decimal drive)

  -- The exit code of the run.
  unfoldable pub with_single_pair : ℕ → Bool → Role → Role → Process → ℕ × Ports
  unfolding single_pair
  with_single_pair hot_path_core enable_deferral client server p =
      let (r, s) = single_pair enable_deferral client server (record {
        tx = new_port tx_only client.interface hot_path_core client.driver;
        rx = new_port rx_only server.interface hot_path_core server.driver;
        process = p;
      }) in
      (exit_code r, s)
