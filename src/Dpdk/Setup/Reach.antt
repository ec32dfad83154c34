-- ===== src/Dpdk/Setup/Reach.antt =====
-- What holds of the process whatever ports are set up in it, in whatever order.
use Prim.Native.String.{String}
use abtrda.Action.{Action, ◌>>=◌, pure, gets, Keeps, Keeps-bind, Keeps-pure, Keeps-if}
use abtrda.Prelude.{
  ℕ, suc, ◌≡◌, refl, ap, ◌∙◌, inl, inr, Bool, true, false, [], if◌then◌else◌, Bool-cases, length,
}
use abtrda.Dpdk.Eal.{Env, Process, add_allowed_bdf, add_vdev, first_init, eal_init, mac_addr}
use abtrda.Dpdk.Eal.Once.{
  init_args, IsQuiet, ask_num-Keeps, quiet_steps, bind_to_vfio-Keeps, first_init-Started,
}
use abtrda.Dpdk.Setup.{
  Port, Dpdk, globally, assign, register, prepare, wait_link, init, stop, shutdown,
}
use abtrda.Dpdk.Setup.Quiet.{
  apply_regime-Keeps, free_pending-Keeps, IsSteady, wait_link-Keeps, bring_up-Keeps,
}

abbrev pub fresh_process : Process
fresh_process = record {
  eal = record { allowed_bdfs = []; vdevs = []; eal_inited = false };
  calls = [];
}

module _ (env : Env) (decimal : ℕ → String) where
  -- The processes that set-ups, waits and shutdowns of any ports lead to, whether they succeed or not.
  pub data DpdkReach : Process → Type 0 where
    starts : DpdkReach fresh_process
    prepares :
        {p : Process} (n : Port) (bifurcated afxdp_pmd : Bool)
        → DpdkReach p
        → DpdkReach
            (prepare env decimal bifurcated afxdp_pmd (record { nic = n; process = p })).1.process
    inits :
        {p : Process} (n : Port) (do_wait bifurcated afxdp_pmd apply_deferral : Bool)
        → DpdkReach p
        → DpdkReach
            (init env decimal do_wait bifurcated afxdp_pmd apply_deferral
              (record { nic = n; process = p })).1.process
    waits :
        {p : Process} (n : Port)
        → DpdkReach p
        → DpdkReach (wait_link env decimal (record { nic = n; process = p })).1.process
    stops :
        {p : Process} (n : Port)
        → DpdkReach p
        → DpdkReach (shutdown env decimal (record { nic = n; process = p })).1.process

  Once : Process → Type 0
  Once p = length (init_args env p.calls) ≡ (if p.eal.eal_inited then 1 else 0)

  Once-quiet : IsQuiet Once
  unfolding Once
  Once-quiet c p e h = rw e h

  AtNic : Dpdk → Type 0
  AtNic d = Once d.process

  AtNic-steady : IsSteady AtNic
  unfolding AtNic
  AtNic-steady = record { calls_kept = λ d. Once-quiet; nic_kept = λ f l d q. q }

  assigned : (f : Port → Port) → Keeps AtNic (assign f)
  unfolding AtNic
  assigned f = record { kept = λ d q. q }

  at_process : {A : Type 0} {m : Action Process A} → Keeps Once m → Keeps AtNic (globally m)
  unfolding AtNic
  at_process h = record { kept = λ d q. h.kept d.process q }

  add_allowed_bdf-Keeps : (bdf : String) → Keeps Once (add_allowed_bdf bdf)
  unfolding Once
  add_allowed_bdf-Keeps bdf = record { kept = λ p q. q }

  add_vdev-Keeps : (arg : String) → Keeps Once (add_vdev arg)
  unfolding Once
  add_vdev-Keeps arg = record { kept = λ p q. q }

  gets-Keeps : {A : Type 0} (f : Dpdk → A) → Keeps AtNic (gets f)
  gets-Keeps f = record { kept = λ d q. q }

  register-Keeps : Keeps AtNic register
  unfolding register
  register-Keeps =
      search (Keeps-bind, assigned, at_process, gets-Keeps, add_allowed_bdf-Keeps) depth 8

  prepare-Keeps :
      (bifurcated afxdp_pmd : Bool) → Keeps AtNic (prepare env decimal bifurcated afxdp_pmd)
  unfolding prepare
  prepare-Keeps b a =
      search
        (
          Keeps-bind, Keeps-if, Keeps-pure, assigned, at_process, gets-Keeps, quiet_steps,
          bind_to_vfio-Keeps, register-Keeps, Once-quiet, add_vdev-Keeps,
        )
        depth 24

  first_init-Once :
      (bdf : String) (lcore : ℕ) (p : Process)
      → Once p
      → p.eal.eal_inited ≡ false
      → Once (first_init env decimal bdf lcore p).1
  unfolding Once
  first_init-Once bdf lcore p q i =
      let s = first_init-Started env decimal bdf lcore p i in
      let none_yet : length (init_args env p.calls) ≡ 0 = q ∙ ap (λ b. if b then 1 else 0) i in
      rw (s.now, s.inits)
        (elim (Bool-cases s.done) [ inl e ↦ rw e (ap suc none_yet) | inr e ↦ rw e none_yet ])

  eal_init-if :
      (bdf : String) (lcore : ℕ) (p : Process) (inited : Bool)
      → p.eal.eal_inited ≡ inited
      → Once p
      → Once ((if inited then pure tt else first_init env decimal bdf lcore) p).1
  eal_init-if bdf lcore p true e q = q
  eal_init-if bdf lcore p false e q = first_init-Once bdf lcore p q e

  eal_init-Keeps : (bdf : String) (lcore : ℕ) → Keeps Once (eal_init env decimal bdf lcore)
  unfolding eal_init ◌>>=◌
  eal_init-Keeps bdf lcore = record {
    kept = λ p q. eal_init-if bdf lcore p p.eal.eal_inited refl q;
  }

  init-Keeps : (w b a d : Bool) → Keeps AtNic (init env decimal w b a d)
  unfolding init
  init-Keeps w b a d =
      let taken = λ (f : Dpdk → Port). gets-Keeps f in
      Keeps-bind AtNic (assigned _) λ _. Keeps-bind AtNic (prepare-Keeps b a) λ _.
        Keeps-bind AtNic (taken _) λ n.
          Keeps-bind AtNic (at_process (eal_init-Keeps n.pci n.lcore)) λ _.
            Keeps-bind AtNic (bring_up-Keeps env decimal AtNic AtNic-steady) λ _.
              Keeps-bind AtNic (taken _) λ m.
                Keeps-bind AtNic (at_process (apply_regime-Keeps env decimal Once Once-quiet m))
                  λ _.
                    Keeps-bind AtNic
                      (at_process
                        (ask_num-Keeps env decimal Once Once-quiet (mac_addr m.port) refl))
                      λ mac. Keeps-bind AtNic (assigned _) λ _.
                        Keeps-if AtNic w (wait_link-Keeps env decimal AtNic AtNic-steady)
                          (Keeps-pure AtNic tt)

  stop-Keeps : Keeps AtNic (stop env decimal)
  unfolding stop
  stop-Keeps =
      search
        (
          Keeps-bind, Keeps-if, Keeps-pure, assigned, at_process, gets-Keeps, quiet_steps,
          Once-quiet, free_pending-Keeps,
        )
        depth 24

  shutdown-Keeps : Keeps AtNic (shutdown env decimal)
  unfolding shutdown
  shutdown-Keeps = search (Keeps-bind, Keeps-if, Keeps-pure, gets-Keeps, stop-Keeps)

  -- However many ports are set up, waited for and shut down in a process, in whatever order and
  -- whatever fails, rte_eal_init succeeds at most once in it, and has succeeded exactly when the process
  -- is marked as initialised.
  pub DpdkReach-once :
      (p : Process)
      → DpdkReach p
      → length (init_args env p.calls) ≡ (if p.eal.eal_inited then 1 else 0)
  unfolding Once AtNic
  DpdkReach-once p starts = refl
  DpdkReach-once p (prepares n b a r) = (prepare-Keeps b a).kept _ (DpdkReach-once _ r)
  DpdkReach-once p (inits n w b a d r) = (init-Keeps w b a d).kept _ (DpdkReach-once _ r)
  DpdkReach-once p (waits n r) =
      (wait_link-Keeps env decimal AtNic AtNic-steady).kept _ (DpdkReach-once _ r)
  DpdkReach-once p (stops n r) = shutdown-Keeps.kept _ (DpdkReach-once _ r)
