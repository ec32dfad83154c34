-- ===== src/Dpdk/Setup/Pair/Steady.antt =====
-- What the settings by driver and the register fixes keep.
use Prim.Native.String.{String}
use abtrda.Action.{Keeps, Keeps-bind, Keeps-pure, Keeps-if}
use abtrda.Prelude.{ℕ, refl}
use abtrda.Dpdk.Eal.{Env, resolve_bdf}
use abtrda.Dpdk.Eal.Once.{ask_text-Keeps, quiet_steps}
use abtrda.Dpdk.Setup.{
  Port, Dpdk, globally, assign, set_link_speeds, set_symmetric_queues, set_nb_rx_desc, set_devargs,
  set_tx_inline_reuse,
}
use abtrda.Dpdk.Setup.Quiet.{Leaves, IsSteady, globally-Keeps, assign-Keeps}
use abtrda.Dpdk.Setup.Pair.{
  Role, igc_settings, mlx5_settings, sfc_settings, dpdk_pre_init, dpdk_post_init_fixes,
}

module _ (env : Env) (decimal : ℕ → String) where
  module _ (Q : Dpdk → Type 0) (steady : IsSteady Q) where
    set-Keeps : (f : Port → Port) → Leaves f → Keeps Q (assign f)
    set-Keeps = assign-Keeps Q steady

    igc_settings-Keeps : Keeps Q igc_settings
    unfolding igc_settings set_link_speeds set_symmetric_queues
    igc_settings-Keeps =
        Keeps-bind Q (set-Keeps _ λ n. (refl, refl)) λ _. set-Keeps _ λ n. (refl, refl)

    mlx5_settings-Keeps : Keeps Q mlx5_settings
    unfolding mlx5_settings set_devargs set_tx_inline_reuse set_nb_rx_desc
    mlx5_settings-Keeps =
        Keeps-bind Q
          (Keeps-bind Q (set-Keeps _ λ n. (refl, refl)) λ _. set-Keeps _ λ n. (refl, refl))
          λ _. set-Keeps _ λ n. (refl, refl)

    sfc_settings-Keeps : Keeps Q sfc_settings
    unfolding sfc_settings set_devargs set_nb_rx_desc
    sfc_settings-Keeps =
        Keeps-bind Q (set-Keeps _ λ n. (refl, refl)) λ _. set-Keeps _ λ n. (refl, refl)

    pub pre_init-Keeps : (role : Role) → Keeps Q (dpdk_pre_init env decimal role)
    unfolding dpdk_pre_init
    pre_init-Keeps role =
        Keeps-bind Q
          (globally-Keeps Q λ d.
            ask_text-Keeps env decimal _ (steady.calls_kept d) (resolve_bdf role.interface) refl)
          λ bdf. Keeps-bind Q (Keeps-if Q _ igc_settings-Keeps (Keeps-pure Q tt)) λ _.
            Keeps-bind Q (Keeps-if Q _ mlx5_settings-Keeps (Keeps-pure Q tt)) λ _.
              Keeps-bind Q (Keeps-if Q _ sfc_settings-Keeps (Keeps-pure Q tt)) λ _. Keeps-pure Q bdf

    pub post_init-Keeps :
        (bdf : String) (role : Role)
        → Keeps Q (globally (dpdk_post_init_fixes env decimal bdf role))
    unfolding dpdk_post_init_fixes
    post_init-Keeps bdf role =
        search (Keeps-bind, Keeps-if, Keeps-pure, globally-Keeps, quiet_steps, steady.calls_kept)
          depth 12
