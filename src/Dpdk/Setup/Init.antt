-- ===== src/Dpdk/Setup/Init.antt =====
-- DPDK::init on a prepared port: the first one starts DPDK, a later one leaves it as it was started.
use Prim.Native.String.{String}
use abtrda.Action.{
  ◌>>=◌, ◌>>◌, pure, Keeps, Keeps-bind, Keeps-pure, Keeps-if, Gives, Gives-kept, Gives-bind,
}
use abtrda.Prelude.{ℕ, ◌≡◌, refl, sym, ap, subst, Bool, true, some, List, if◌then◌else◌}
use abtrda.Dpdk.Eal.{Env, add_unique, ask_num, eal_init, mac_addr}
use abtrda.Dpdk.Eal.Once.{ask_num-Keeps, eal_init-again}
use abtrda.Dpdk.Setup.{
  Dpdk, globally, assign, member, prepare_vdev, prepare_pci, prepare, apply_regime, wait_link,
  bring_up, init,
}
use abtrda.Dpdk.Setup.Quiet.{
  apply_regime-Keeps, IsSteady, globally-Keeps, member-Keeps, assign-Keeps, wait_link-Keeps,
  bring_up-Keeps,
}
use abtrda.Dpdk.Setup.Launch.{Ready, Ready-assign, Launched, Launched-steady, eal_init-Launched}

module _ (env : Env) (decimal : ℕ → String) where
  -- A prepared port is left as it is.
  prepare-again :
      (b a : Bool) (d : Dpdk) → d.nic.prepared ≡ true → prepare env decimal b a d ≡ (some tt, d)
  unfolding prepare ◌>>=◌
  prepare-again b a d e =
      ap
        (λ t.
          (if t
              then pure tt
              else (assign (λ n. record n { bifurcated = b; afxdp_pmd = a })
                  >> (if a then prepare_vdev env decimal else prepare_pci env decimal)))
            d)
        e

  prepare-Keeps :
      (P : Dpdk → Type 0)
      → ((d : Dpdk) → P d → d.nic.prepared ≡ true)
      → (b a : Bool) → Keeps P (prepare env decimal b a)
  prepare-Keeps P l b a = record {
    kept = λ d q. subst (λ r. P r.1) (sym (prepare-again b a d (l d q))) q;
  }

  module _ (Q : Dpdk → Type 0) (steady : IsSteady Q) where
    -- What follows the start of DPDK.
    after_start-Keeps :
        (w : Bool)
        → Keeps Q (do
          bring_up env decimal
          m ← member (λ n. n)
          globally (apply_regime env decimal m)
          mac ← globally (ask_num env decimal (mac_addr m.port))
          assign (λ n. record n { mac = mac })
          if w then wait_link env decimal else pure tt)
    after_start-Keeps w = Keeps-bind Q (bring_up-Keeps env decimal Q steady) λ _.
        Keeps-bind Q (member-Keeps Q _) λ m.
          Keeps-bind Q
            (globally-Keeps Q λ d. apply_regime-Keeps env decimal _ (steady.calls_kept d) m)
            λ _.
              Keeps-bind Q
                (globally-Keeps Q
                  λ d. ask_num-Keeps env decimal _ (steady.calls_kept d) (mac_addr m.port) refl)
                λ mac.
                  Keeps-bind Q (assign-Keeps Q steady _ λ n. (refl, refl))
                    λ _. Keeps-if Q w (wait_link-Keeps env decimal Q steady) (Keeps-pure Q tt)

  module _ (others : List String → Type 0) where
    eal_init-Keeps :
        (bdf : String) (lcore : ℕ)
        → Keeps (Launched env others) (globally (eal_init env decimal bdf lcore))
    eal_init-Keeps bdf lcore = record {
      kept = λ d q.
          subst (λ r. Launched env others (record d { process = r.1 }))
            (sym (eal_init-again env decimal bdf lcore d.process q.started)) q;
    }

    -- A later init.
    pub init-Keeps : (w b a i : Bool) → Keeps (Launched env others) (init env decimal w b a i)
    unfolding init
    init-Keeps w b a i =
        let Q = Launched env others in
        let steady = Launched-steady env decimal others in
        Keeps-bind Q (assign-Keeps Q steady _ λ n. (refl, refl)) λ _.
          Keeps-bind Q (prepare-Keeps Q (λ d q. q.prepared) b a) λ _.
            Keeps-bind Q (member-Keeps Q _)
              λ n. Keeps-bind Q (eal_init-Keeps n.pci n.lcore) λ _. after_start-Keeps Q steady w

    -- The first init.
    pub init-Launched :
        ((v : List String) (e : String) → others v → others (add_unique v e))
        → (w b a i : Bool)
        → Gives (Ready env decimal others) (init env decimal w b a i) (Launched env others)
    unfolding init
    init-Launched grows w b a i =
        let P = Ready env decimal others in
        let Q = Launched env others in
        let steady = Launched-steady env decimal others in
        Gives-bind (Gives-kept (Ready-assign env decimal others _ λ n. (refl, refl))) λ _.
          Gives-bind (Gives-kept (prepare-Keeps P (λ d q. q.1) b a)) λ _.
            Gives-bind (Gives-kept (member-Keeps P _)) λ n.
              Gives-bind (eal_init-Launched env decimal others grows n.pci n.lcore)
                λ _. Gives-kept (after_start-Keeps Q steady w)
