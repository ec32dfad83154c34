-- ===== src/Dpdk/Setup/Pair/Phases.antt =====
-- The phases of two ports' set-up: before either is prepared, with one prepared, with both, and started.
use Prim.Native.String.{String}
use abtrda.Action.{Action, Gives}
use abtrda.Prelude.{ℕ, ◌≡◌, ◌∙◌, true, false, List, arith}
use abtrda.Dpdk.Eal.{Env, device, has_device, add_unique}
use abtrda.Dpdk.Setup.{Port, Dpdk}
use abtrda.Dpdk.Setup.Quiet.{IsSteady}
use abtrda.Dpdk.Setup.Offer.{add_unique-grows, Offered, Offered-steady}
use abtrda.Dpdk.Setup.Launch.{Ready, Launched}
use abtrda.Dpdk.Setup.Pair.{Ports, on_tx, on_rx}

-- The ports as the transmit port, or the receive port, sees its process.
abbrev pub tx_view : Ports → Dpdk
tx_view s = record { nic = s.tx; process = s.process }

abbrev pub rx_view : Ports → Dpdk
rx_view s = record { nic = s.rx; process = s.process }

-- What holds of one port's view and of the other port.
abbrev pub AtTx : (Port → Dpdk → Type 0) → Ports → Type 0
AtTx P s = P s.rx (tx_view s)

abbrev pub AtRx : (Port → Dpdk → Type 0) → Ports → Type 0
AtRx P s = P s.tx (rx_view s)

module _ {A : Type 0} {m : Action Dpdk A} where
  pub on_tx-Gives :
      (P Q : Port → Dpdk → Type 0)
      → ((n : Port) → Gives (P n) m (Q n))
      → Gives (AtTx P) (on_tx m) (AtTx Q)
  on_tx-Gives P Q h = record { given = λ s p a e. (h s.rx).given (tx_view s) p a e }

  pub on_rx-Gives :
      (P Q : Port → Dpdk → Type 0)
      → ((n : Port) → Gives (P n) m (Q n))
      → Gives (AtRx P) (on_rx m) (AtRx Q)
  on_rx-Gives P Q h = record { given = λ s p a e. (h s.tx).given (rx_view s) p a e }

-- What holds of the view next to what holds of the other port.
pub beside :
    {A : Type 0} {m : Action Dpdk A} {P Q : Dpdk → Type 0} (F : Type 0)
    → Gives P m Q
    → Gives (λ d. P d × F) m (λ d. Q d × F)
beside F h = record { given = λ d p a e. (h.given d p.0 a e, p.1) }

abbrev pub Anything : List String → Type 0
Anything v = Unit {0}

-- The device of a port is on the list.
abbrev pub Lists : Port → List String → Type 0
Lists n v = has_device (device n.pci) v ≡ true

pub Lists-grows : (n : Port) (v : List String) (e : String) → Lists n v → Lists n (add_unique v e)
Lists-grows n v e h = add_unique-grows (device n.pci) e v h

module _ (env : Env) (decimal : ℕ → String) where
  abbrev pub Unprepared : Dpdk → Type 0
  Unprepared d = Offered env Anything d × (d.nic.prepared ≡ false)

  pub Unprepared-steady : IsSteady Unprepared
  Unprepared-steady =
      let steady = Offered-steady env decimal Anything in
      record {
        calls_kept = λ d c p e q. (steady.calls_kept d c p e q.0, q.1);
        nic_kept = λ f l d q. (steady.nic_kept f l d q.0, (l d.nic).1 ∙ q.1);
      }

  abbrev pub Fresh : Port → Dpdk → Type 0
  Fresh o d = Unprepared d × (o.prepared ≡ false)

  abbrev pub TxReady : Port → Dpdk → Type 0
  TxReady o d = Ready env decimal Anything d × (o.prepared ≡ false)

  abbrev pub Behind : Port → Dpdk → Type 0
  Behind o d = Offered env (Lists o) d × (o.prepared ≡ true)

  abbrev pub BothReady : Port → Dpdk → Type 0
  BothReady o d = Ready env decimal (Lists o) d × (o.prepared ≡ true)

  abbrev pub BothLaunched : Port → Dpdk → Type 0
  BothLaunched o d = Launched env (Lists o) d × (o.prepared ≡ true)

  pub other-Fresh : (s : Ports) → AtTx Fresh s → AtRx Fresh s
  other-Fresh s q = (
    (
      record {
        unstarted = q.0.0.unstarted;
        no_inits = q.0.0.no_inits;
        no_vdevs = q.0.0.no_vdevs;
        kept_others = tt;
        listed = λ t. absurd (ground (arith, t, q.1));
      },
      q.1,
    ),
    q.0.1,
  )

  pub first-Fresh : (s : Ports) → AtRx Fresh s → AtTx Fresh s
  first-Fresh s q = (
    (
      record {
        unstarted = q.0.0.unstarted;
        no_inits = q.0.0.no_inits;
        no_vdevs = q.0.0.no_vdevs;
        kept_others = tt;
        listed = λ t. absurd (ground (arith, t, q.1));
      },
      q.1,
    ),
    q.0.1,
  )

  pub second-Behind : (s : Ports) → AtTx TxReady s → AtRx Behind s
  second-Behind s q = (
    record {
      unstarted = q.0.0.unstarted;
      no_inits = q.0.0.no_inits;
      no_vdevs = q.0.0.no_vdevs;
      kept_others = q.0.0.listed q.0.1;
      listed = λ t. absurd (ground (arith, t, q.1));
    },
    q.0.1,
  )

  pub first-Ready : (s : Ports) → AtRx BothReady s → AtTx BothReady s
  first-Ready s q = (
    (
      record {
        unstarted = q.0.0.unstarted;
        no_inits = q.0.0.no_inits;
        no_vdevs = q.0.0.no_vdevs;
        kept_others = q.0.0.listed q.0.1;
        listed = λ t. q.0.0.kept_others;
      },
      q.1,
    ),
    q.0.1,
  )

  pub second-Launched : (s : Ports) → AtTx BothLaunched s → AtRx BothLaunched s
  second-Launched s q = (
    record {
      started = q.0.started;
      prepared = q.1;
      args = q.0.args;
      list = q.0.list;
      once = q.0.once;
      allows = q.0.allows;
      own = q.0.kept_others;
      kept_others = q.0.own;
    },
    q.0.prepared,
  )

  pub first-Launched : (s : Ports) → AtRx BothLaunched s → AtTx BothLaunched s
  first-Launched s q = (
    record {
      started = q.0.started;
      prepared = q.1;
      args = q.0.args;
      list = q.0.list;
      once = q.0.once;
      allows = q.0.allows;
      own = q.0.kept_others;
      kept_others = q.0.own;
    },
    q.0.prepared,
  )
