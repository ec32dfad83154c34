-- ===== src/Dpdk/Setup/Launch.antt =====
-- A port prepared, and DPDK started with what was offered.
use Prim.Native.String
use Prim.Native.String.{String}
use abtrda.Action.{
  ◌>>=◌, ◌>>◌, pure, Keeps, Keeps-bind, Keeps-pure, Keeps-if, Gives, Gives-kept, Gives-bind,
}
use mathlib.Core.Option.{none-ne-some}
use abtrda.Prelude.{
  ℕ, ◌≡◌, refl, sym, ap, ◌∙◌, subst, Bool, true, false, Option, none, some, List, [], ◌∷◌, arith,
  if◌then◌else◌,
}
use abtrda.Dpdk.Eal.{
  Env, Eal, Process, device, has_device, add_unique, file_safe, device_args, base_device, is_nil,
  eal_args, eal_init,
}
use abtrda.Dpdk.Eal.Once.{
  init_args, IsQuiet, quiet_steps, bind_to_vfio-Keeps, offered, marked, Started, first_init-Started,
  eal_init-fresh,
}
use abtrda.Dpdk.Setup.{
  Port, Dpdk, globally, assign, allow_entry, register, resolve, prepare_pci, prepare,
}
use abtrda.Dpdk.Setup.Quiet.{Leaves, IsSteady, globally-Keeps, member-Keeps}
use abtrda.Dpdk.Setup.Offer.{
  offers, offers-behind, offers-flagged, device-allow_entry, add_unique-grows,
  add_unique-has_device, Offered, Offered-steady,
}

module _ (env : Env) (decimal : ℕ → String) (others : List String → Type 0) where
  -- The port is not prepared yet.
  abbrev Unprepared : Dpdk → Type 0
  Unprepared d = Offered env others d × (d.nic.prepared ≡ false)

  abbrev pub Ready : Dpdk → Type 0
  Ready d = Offered env others d × (d.nic.prepared ≡ true)

  unprepared :
      (d : Dpdk) (nic : Port)
      → nic.prepared ≡ false
      → Offered env others d
      → Unprepared (record d { nic = nic })
  unprepared d nic e q = (
    record {
      unstarted = q.unstarted;
      no_inits = q.no_inits;
      no_vdevs = q.no_vdevs;
      kept_others = q.kept_others;
      listed = λ t. absurd (ground (arith, t, e));
    },
    e,
  )

  assigned :
      (f : Port → Port) → ((n : Port) → (f n).prepared ≡ n.prepared) → Keeps Unprepared (assign f)
  assigned f l = record { kept = λ d q. unprepared d (f d.nic) (l d.nic ∙ q.1) q.0 }

  Unprepared-quiet : (d : Dpdk) → IsQuiet (λ p. Unprepared (record d { process = p }))
  Unprepared-quiet d c p e q = ((Offered-steady env decimal others).calls_kept d c p e q.0, q.1)

  resolve-Keeps : Keeps Unprepared (resolve env decimal)
  unfolding resolve
  resolve-Keeps =
      search
        (
          Keeps-bind, Keeps-if, Keeps-pure, assigned, globally-Keeps, member-Keeps, quiet_steps,
          Unprepared-quiet,
        )
        depth 14

  pub Ready-assign : (f : Port → Port) → Leaves f → Keeps Ready (assign f)
  Ready-assign f l = record {
    kept = λ d q. ((Offered-steady env decimal others).nic_kept f l d q.0, (l d.nic).1 ∙ q.1);
  }

  module _ (grows : (v : List String) (e : String) → others v → others (add_unique v e)) where
    -- The registration of the device, and the mark that it is prepared.
    registered : Dpdk → Dpdk
    registered d = record d {
      nic = record d.nic { prepared = true };
      process = record d.process {
        eal = record d.process.eal {
          allowed_bdfs = add_unique d.process.eal.allowed_bdfs (allow_entry d.nic);
        };
      };
    }

    registered-Ready : (d : Dpdk) → Unprepared d → Ready (registered d)
    unfolding registered
    registered-Ready d q = (
      record {
        unstarted = q.0.unstarted;
        no_inits = q.0.no_inits;
        no_vdevs = q.0.no_vdevs;
        kept_others = grows _ (allow_entry d.nic) q.0.kept_others;
        listed = λ e.
            subst
              (λ k. has_device k (add_unique d.process.eal.allowed_bdfs (allow_entry d.nic)) ≡ true)
              (device-allow_entry d.nic)
              (add_unique-has_device (allow_entry d.nic) d.process.eal.allowed_bdfs);
      },
      refl,
    )

    register-Ready : Gives Unprepared register Ready
    unfolding register registered ◌>>=◌
    register-Ready = record { given = λ d q a e. registered-Ready d q }

    prepare_pci-Ready : Gives Unprepared (prepare_pci env decimal) Ready
    unfolding prepare_pci
    prepare_pci-Ready = Gives-bind (Gives-kept resolve-Keeps) λ _.
        Gives-bind (Gives-kept (member-Keeps Unprepared (λ n. n.bifurcated))) λ kept.
          Gives-bind (Gives-kept (member-Keeps Unprepared (λ n. n.pci))) λ pci.
            Gives-bind
              (Gives-kept (
                Keeps-if Unprepared kept (Keeps-pure Unprepared tt) (
                  globally-Keeps Unprepared
                    λ d. bind_to_vfio-Keeps env decimal _ (Unprepared-quiet d) pci)))
              λ _. register-Ready

    prepare-if :
        (bifurcated prepared : Bool) (d : Dpdk) (a : Unit {0})
        → d.nic.prepared ≡ prepared
        → Offered env others d
        → let m =
            if prepared
            then pure tt
            else (assign (λ n. record n { bifurcated = bifurcated; afxdp_pmd = false })
                >> prepare_pci env decimal) in
          (m d).0 ≡ some a → Ready (m d).1
    prepare-if b true d a e q h = (q, e)
    prepare-if b false d a e q h =
        (Gives-bind (Gives-kept (assigned _ λ n. refl)) λ _. prepare_pci-Ready).given d (q, e) a h

    -- A port that does not stand in front of the kernel driver.
    pub prepare-Ready :
        (bifurcated : Bool)
        → Gives (Offered env others) (prepare env decimal bifurcated false) Ready
    unfolding prepare ◌>>=◌
    prepare-Ready b = record { given = λ d q a e. prepare-if b d.nic.prepared d a refl q e }

-- The list with the caller's own device behind it.
abbrev enlisted : String → Eal → Eal
enlisted bdf e = record e { allowed_bdfs = add_unique e.allowed_bdfs bdf }

offered-enlisted : (bdf : String) (e : Eal) → e.vdevs ≡ [] → offered bdf e ≡ enlisted bdf e
offered-enlisted bdf e h = ap (λ v. if is_nil v then enlisted bdf e else e) h

-- DPDK has been started, once: the prepared port's device was on the list that it got, `others` held of
-- the list, and every device of the list is allowed by the arguments.
pub record Launched (env : Env) (others : List String → Type 0) (d : Dpdk) : Type 0 where
  pub started : d.process.eal.eal_inited ≡ true
  pub prepared : d.nic.prepared ≡ true
  pub args : List String
  pub list : List String
  pub once : init_args env d.process.calls ≡ args ∷ []
  pub allows : (key : String) → has_device key list ≡ true → offers key args ≡ true
  pub own : has_device (device d.nic.pci) list ≡ true
  pub kept_others : others list

module _ (env : Env) (decimal : ℕ → String) (others : List String → Type 0) where
  pub Launched-steady : IsSteady (Launched env others)
  Launched-steady = record {
    calls_kept = λ d c p e q. record {
      started = q.started;
      prepared = q.prepared;
      args = q.args;
      list = q.list;
      once = rw e q.once;
      allows = q.allows;
      own = q.own;
      kept_others = q.kept_others;
    };
    nic_kept = λ f l d q. record {
      started = q.started;
      prepared = (l d.nic).1 ∙ q.prepared;
      args = q.args;
      list = q.list;
      once = q.once;
      allows = q.allows;
      own = subst (λ x. has_device (device x) q.list ≡ true) (sym (l d.nic).0) q.own;
      kept_others = q.kept_others;
    };
  }

  allows-eal_args :
      (lcore : ℕ) (e : Eal) (key : String)
      → e.vdevs ≡ []
      → has_device key e.allowed_bdfs ≡ true
      → offers key (eal_args env decimal e lcore) ≡ true
  unfolding eal_args device_args
  allows-eal_args lcore e key v h =
      let prefix =
        String.◌++◌ "abtrda3_" (file_safe (device (base_device e.allowed_bdfs e.vdevs))) in
      offers-behind key
        ("abtrda3"
          ∷ "-l"
          ∷ decimal lcore
          ∷ "--main-lcore"
          ∷ decimal lcore
          ∷ "-n"
          ∷ "4"
          ∷ "--file-prefix"
          ∷ prefix
          ∷ String.◌++◌ "--force-max-simd-bitwidth=" (decimal 256)
          ∷ [])
        (device_args e.allowed_bdfs e.vdevs)
        (subst (λ vs. offers key (device_args e.allowed_bdfs vs) ≡ true) (sym v)
          (offers-flagged key e.allowed_bdfs h))

  module _ (grows : (v : List String) (e : String) → others v → others (add_unique v e)) where
    Launched-when :
        (bdf : String) (lcore : ℕ) (d : Dpdk)
        → Ready env decimal others d
        → (done : Bool) (r : Option (Unit {0}) × Process) (a : Unit {0})
        → r.0 ≡ (if done then some tt else none)
        → r.0 ≡ some a
        → r.1.eal ≡ marked done (enlisted bdf d.process.eal)
        → init_args env r.1.calls ≡ (
            if done
            then eal_args env decimal (enlisted bdf d.process.eal) lcore
              ∷ init_args env d.process.calls
            else init_args env d.process.calls)
        → Launched env others (record d { process = r.1 })
    Launched-when bdf lcore d q false r a o e now inits = absurd (none-ne-some a (sym o ∙ e))
    Launched-when bdf lcore d q true r a o e now inits = record {
      started = ap (λ x. x.eal_inited) now;
      prepared = q.1;
      args = eal_args env decimal (enlisted bdf d.process.eal) lcore;
      list = add_unique d.process.eal.allowed_bdfs bdf;
      once =
          inits
          ∙ ap (λ x. eal_args env decimal (enlisted bdf d.process.eal) lcore ∷ x) q.0.no_inits;
      allows = λ key. allows-eal_args lcore (enlisted bdf d.process.eal) key q.0.no_vdevs;
      own = add_unique-grows (device d.nic.pci) bdf d.process.eal.allowed_bdfs (q.0.listed q.1);
      kept_others = grows d.process.eal.allowed_bdfs bdf q.0.kept_others;
    }

    offered-Launched :
        (bdf : String) (lcore : ℕ) (d : Dpdk)
        → Ready env decimal others d
        → (r : Option (Unit {0}) × Process) (a : Unit {0})
        → Started env decimal bdf lcore d.process r
        → r.0 ≡ some a
        → Launched env others (record d { process = r.1 })
    offered-Launched bdf lcore d q r a s e =
        let w = offered-enlisted bdf d.process.eal q.0.no_vdevs in
        Launched-when bdf lcore d q s.done r a s.outcome e (s.now ∙ ap (marked s.done) w) (
          s.inits
          ∙ ap
              (λ x.
                if s.done
                then eal_args env decimal x lcore ∷ init_args env d.process.calls
                else init_args env d.process.calls)
              w)

    pub eal_init-Launched :
        (bdf : String) (lcore : ℕ)
        → Gives
            (Ready env decimal others)
            (globally (eal_init env decimal bdf lcore))
            (Launched env others)
    eal_init-Launched bdf lcore = record {
      given = λ d q a e.
          let fresh = eal_init-fresh env decimal bdf lcore d.process q.0.unstarted in
          offered-Launched bdf lcore d q (eal_init env decimal bdf lcore d.process) a
            (subst (Started env decimal bdf lcore d.process) (sym fresh)
              (first_init-Started env decimal bdf lcore d.process q.0.unstarted))
            e;
    }
