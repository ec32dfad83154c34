-- ===== src/Dpdk/Setup/Pair/Order.antt =====
-- --single on DPDK: both ports are offered before the one start, which then allows both.
use Prim.Native.String.{String}
use abtrda.Action.{Gives-weaken, Gives-then, Action, Keeps, Gives, Gives-kept, Gives-bind}
use abtrda.Prelude.{ℕ, ◌≡◌, refl, Bool, true, false, Option, none, some, List, [], ◌∷◌, arith}
use abtrda.Dpdk.Setup.{Port, new_port, Dpdk, prepare, init, rx_only, tx_only}
use abtrda.Dpdk.Eal.{Env, device, add_unique, drive}
use abtrda.Dpdk.Eal.Once.{init_args, tell-Keeps}
use abtrda.Dpdk.Setup.{Port, Dpdk, prepare, init}
use abtrda.Dpdk.Setup.Quiet.{IsSteady, globally-Keeps, wait_link-Keeps}
use abtrda.Dpdk.Setup.Reach.{fresh_process}
use abtrda.Dpdk.Setup.Offer.{offers, Offered}
use abtrda.Dpdk.Setup.Launch.{Ready, prepare-Ready, Launched, Launched-steady}
use abtrda.Dpdk.Setup.Init.{init-Keeps, init-Launched}
use abtrda.Dpdk.Setup.Pair.Phases.{
  AtTx, AtRx, on_tx-Gives, on_rx-Gives, beside, Anything, Lists, Lists-grows, Unprepared-steady,
  Fresh, TxReady, Behind, BothReady, BothLaunched, other-Fresh, first-Fresh, second-Behind,
  first-Ready, second-Launched, first-Launched,
}
use abtrda.Dpdk.Setup.Pair.Steady.{pre_init-Keeps, post_init-Keeps}
use abtrda.Dpdk.Setup.Pair.{
  Role, Ports, on_tx, on_rx, in_process, exit_code, dpdk_pre_init, dpdk_post_init_fixes,
  single_pair, with_single_pair,
}

module _ (env : Env) (decimal : ℕ → String) where
  tx-pre_init :
      (role : Role)
      → Gives
          (AtTx (Fresh env decimal))
          (on_tx (dpdk_pre_init env decimal role))
          (AtRx (Fresh env decimal))
  tx-pre_init role = Gives-then (other-Fresh env decimal) (
      on_tx-Gives (Fresh env decimal) (Fresh env decimal) λ n.
        beside _ (Gives-kept (pre_init-Keeps env decimal _ (Unprepared-steady env decimal) role)))

  rx-pre_init :
      (role : Role)
      → Gives
          (AtRx (Fresh env decimal))
          (on_rx (dpdk_pre_init env decimal role))
          (AtTx (Fresh env decimal))
  rx-pre_init role = Gives-then (first-Fresh env decimal) (
      on_rx-Gives (Fresh env decimal) (Fresh env decimal) λ n.
        beside _ (Gives-kept (pre_init-Keeps env decimal _ (Unprepared-steady env decimal) role)))

  prepare-off :
      (others : List String → Type 0)
      → ((v : List String) (e : String) → others v → others (add_unique v e))
      → (b a : Bool) → a ≡ false
      → Gives (Offered env others) (prepare env decimal b a) (Ready env decimal others)
  prepare-off others grows b true e = absurd (ground (arith, e))
  prepare-off others grows b false e = prepare-Ready env decimal others grows b

  tx-prepare :
      (b a : Bool)
      → a ≡ false
      → Gives
          (AtTx (Fresh env decimal))
          (on_tx (prepare env decimal b a))
          (AtTx (TxReady env decimal))
  tx-prepare b a e =
      Gives-weaken (λ s q. (q.0.0, q.1))
        (on_tx-Gives (λ o d. Offered env Anything d × (o.prepared ≡ false)) (TxReady env decimal)
          λ n. beside _ (prepare-off Anything (λ v e h. tt) b a e))

  rx-prepare :
      (b a : Bool)
      → a ≡ false
      → Gives
          (AtTx (TxReady env decimal))
          (on_rx (prepare env decimal b a))
          (AtRx (BothReady env decimal))
  rx-prepare b a e = Gives-weaken (second-Behind env decimal) (
      on_rx-Gives (Behind env decimal) (BothReady env decimal)
        λ n. beside _ (prepare-off (Lists n) (Lists-grows n) b a e))

  tx-init :
      (w b a i : Bool)
      → Gives
          (AtRx (BothReady env decimal))
          (on_tx (init env decimal w b a i))
          (AtTx (BothLaunched env decimal))
  tx-init w b a i = Gives-weaken (first-Ready env decimal) (
      on_tx-Gives (BothReady env decimal) (BothLaunched env decimal)
        λ n. beside _ (init-Launched env decimal (Lists n) (Lists-grows n) w b a i))

  on_rx-kept :
      {A : Type 0} {m : Action Dpdk A}
      → ((o : Port) → Keeps (Launched env (Lists o)) m)
      → Gives (AtRx (BothLaunched env decimal)) (on_rx m) (AtRx (BothLaunched env decimal))
  on_rx-kept h =
      on_rx-Gives (BothLaunched env decimal) (BothLaunched env decimal)
        λ n. beside _ (Gives-kept (h n))

  on_tx-kept :
      {A : Type 0} {m : Action Dpdk A}
      → ((o : Port) → Keeps (Launched env (Lists o)) m)
      → Gives (AtTx (BothLaunched env decimal)) (on_tx m) (AtTx (BothLaunched env decimal))
  on_tx-kept h =
      on_tx-Gives (BothLaunched env decimal) (BothLaunched env decimal)
        λ n. beside _ (Gives-kept (h n))

  Launched-Lists : (o : Port) → IsSteady (Launched env (Lists o))
  Launched-Lists o = Launched-steady env decimal (Lists o)

  rx-init :
      (w b a i : Bool)
      → Gives
          (AtTx (BothLaunched env decimal))
          (on_rx (init env decimal w b a i))
          (AtRx (BothLaunched env decimal))
  rx-init w b a i =
      Gives-weaken (second-Launched env decimal)
        (on_rx-kept λ o. init-Keeps env decimal (Lists o) w b a i)

  fixes-kept :
      (bdf : String) (role : Role)
      → Gives
          (AtRx (BothLaunched env decimal))
          (in_process (dpdk_post_init_fixes env decimal bdf role))
          (AtRx (BothLaunched env decimal))
  fixes-kept bdf role = on_rx-kept λ o. post_init-Keeps env decimal _ (Launched-Lists o) bdf role

  single_pair-Gives :
      (i : Bool) (client server : Role)
      → client.dpdk_afxdp_pmd ≡ false
      → server.dpdk_afxdp_pmd ≡ false
      → Gives
          (AtTx (Fresh env decimal))
          (single_pair env decimal i client server)
          (AtRx (BothLaunched env decimal))
  unfolding single_pair
  single_pair-Gives i client server c v = Gives-bind (tx-pre_init client) λ tx_bdf.
      Gives-bind (rx-pre_init server) λ rx_bdf.
        Gives-bind (tx-prepare client.dpdk_bifurcated client.dpdk_afxdp_pmd c) λ _.
          Gives-bind (rx-prepare server.dpdk_bifurcated server.dpdk_afxdp_pmd v) λ _.
            Gives-bind (tx-init false client.dpdk_bifurcated client.dpdk_afxdp_pmd i) λ _.
              Gives-bind (rx-init false server.dpdk_bifurcated server.dpdk_afxdp_pmd i) λ _.
                Gives-bind (fixes-kept tx_bdf client) λ _.
                  Gives-bind (fixes-kept rx_bdf server) λ _.
                    Gives-bind
                      (Gives-weaken (first-Launched env decimal) (
                        Gives-then (second-Launched env decimal)
                          (on_tx-kept λ o. wait_link-Keeps env decimal _ (Launched-Lists o))))
                      λ _.
                        Gives-bind
                          (on_rx-kept λ o. wait_link-Keeps env decimal _ (Launched-Lists o))
                          λ _. on_rx-kept λ o. globally-Keeps _ λ d.
                            tell-Keeps env decimal _ ((Launched-Lists o).calls_kept d) drive refl

  Fresh-ports :
      (n m : Port)
      → n.prepared ≡ false
      → m.prepared ≡ false
      → AtTx (Fresh env decimal) (record { tx = n; rx = m; process = fresh_process })
  Fresh-ports n m e f = (
    (
      record {
        unstarted = refl;
        no_inits = refl;
        no_vdevs = refl;
        kept_others = tt;
        listed = λ t. absurd (ground (arith, t, e));
      },
      e,
    ),
    f,
  )

  exit_code-some : (r : Option (Unit {0})) → exit_code r ≡ 0 → r ≡ some tt
  exit_code-some none e = absurd (ground (arith, e))
  exit_code-some (some u) e = refl

  -- Two ports that DPDK drives without a vdev are set up in one process: when the run exits with 0,
  -- rte_eal_init succeeded exactly once, and the arguments of that one call allow the devices of both ports,
  -- whatever the kernel, DPDK and the other helpers answer.
  pub with_single_pair-offers :
      (hot_path_core : ℕ) (defer : Bool) (client server : Role)
      → client.dpdk_afxdp_pmd ≡ false
      → server.dpdk_afxdp_pmd ≡ false
      → let r = with_single_pair env decimal hot_path_core defer client server fresh_process in
        r.0 ≡ 0
        → (args : List String) × (init_args env r.1.process.calls ≡ args ∷ [])
          × (offers (device r.1.tx.pci) args ≡ true)
          × (offers (device r.1.rx.pci) args ≡ true)
  unfolding with_single_pair
  with_single_pair-offers core defer client server c v e =
      let s : Ports = record {
        tx = new_port tx_only client.interface core client.driver;
        rx = new_port rx_only server.interface core server.driver;
        process = fresh_process;
      } in
      let q =
        (single_pair-Gives defer client server c v).given s (Fresh-ports s.tx s.rx refl refl) tt
          (exit_code-some (single_pair env decimal defer client server s).0 e) in
      (q.0.args, q.0.once, q.0.allows _ q.0.kept_others, q.0.allows _ q.0.own)
