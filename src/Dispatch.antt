-- ===== src/Dispatch.antt =====
-- src/app/TransportDispatch.hpp: a run mode on a transport named at run time. The traits' own operations are
-- calls, answered by an environment; an exit code of 0 is success, one of 1 is failure.
pub mod Guarded
mod Tests
use Prim.Native.String.{String}
use text.Mathlib.Text
use abtrda.Action.{Action, ◌>>=◌, ◌>>◌, pure, fail, guard}
use abtrda.Prelude.{
  ℕ, Bool, true, false, not, ◌&&◌, ◌||◌, Option, none, some, List, [], ◌∷◌, ◌==◌, if◌then◌else◌,
}

pub data RunMode : Type 0 where
  server : RunMode
  client : RunMode
  tx_gen : RunMode
  rx_sink : RunMode
  single_recorder : RunMode

pub data Transport : Type 0 where
  packet_mmap : Transport
  af_xdp : Transport
  dpdk : Transport
  verbs : Transport
  ef_vi : Transport
  intel_i210 : Transport

-- The transports that were compiled in.
pub record Build : Type 0 where
  pub have_dpdk : Bool
  pub have_verbs : Bool
  pub have_efvi : Bool
  pub have_i210 : Bool

-- The names are tried in this order; one that is not compiled in is unknown.
unfoldable pub with_transport : Build → String → Option Transport
with_transport b name =
    if Text.◌==◌ name "packet_mmap"
    then some packet_mmap
    else (if Text.◌==◌ name "af_xdp"
        then some af_xdp
        else (if b.have_dpdk && Text.◌==◌ name "dpdk"
            then some dpdk
            else (if b.have_verbs && Text.◌==◌ name "verbs"
                then some verbs
                else (if b.have_efvi && Text.◌==◌ name "ef_vi"
                    then some ef_vi
                    else (if b.have_i210 && Text.◌==◌ name "intel_i210"
                        then some intel_i210
                        else none)))))

unfoldable pub paired_rx_tx : Transport → Bool
paired_rx_tx packet_mmap = true
paired_rx_tx tr = false

unfoldable pub single_capable : Transport → Bool
single_capable intel_i210 = false
single_capable tr = true

-- The role's port: the server's or the client's.
pub data Side : Type 0 where
  server_side : Side
  client_side : Side

pub data Nic : Type 0 where
  tx_nic : Nic
  rx_nic : Nic
  duplex_nic : Nic

pub data RunCall : Type 0 where
  preflight : Transport → Side → RunCall
  init_nic : Transport → Side → Nic → RunCall
  pair_init : RunCall
  loop : RunMode → RunCall

-- The calls made so far, the latest first, each with its outcome.
abbrev pub Trace : Type 0
Trace = List (RunCall × Bool)

module _ (ok : RunCall → Trace → Bool) where
  abbrev pub demand : RunCall → Action Trace (Unit {0})
  demand c t = (if ok c t then some tt else none, (c, ok c t) ∷ t)

  abbrev pub enter : RunMode → Action Trace (Unit {0})
  enter m t = (some tt, (loop m, true) ∷ t)

  unfoldable pub both_ways : Transport → Side → RunMode → Action Trace (Unit {0})
  unfolding paired_rx_tx
  both_ways tr side m =
      if paired_rx_tx tr
      then (demand (init_nic tr side tx_nic) >> (demand (init_nic tr side rx_nic) >> enter m))
      else (demand (init_nic tr side duplex_nic) >> enter m)

  unfoldable pub run_mode : Transport → Side → RunMode → Action Trace (Unit {0})
  unfolding both_ways
  run_mode tr side tx_gen = demand (init_nic tr side tx_nic) >> enter tx_gen
  run_mode tr side rx_sink = demand (init_nic tr side rx_nic) >> enter rx_sink
  run_mode tr side server = both_ways tr side server
  run_mode tr side client = both_ways tr side client
  run_mode tr side single_recorder = pure tt

  unfoldable pub run_modes : Transport → Side → RunMode → Action Trace (Unit {0})
  unfolding run_mode
  run_modes tr side m = demand (preflight tr side) >> run_mode tr side m

  abbrev pub run_known :
      Option Transport → (Transport → Action Trace (Unit {0})) → Action Trace (Unit {0})
  run_known none f = fail
  run_known (some tr) f = f tr

  unfoldable pub run_transport : Build → String → Side → RunMode → Action Trace (Unit {0})
  unfolding with_transport run_modes
  run_transport b name side m = run_known (with_transport b name) λ tr. run_modes tr side m

  -- withSinglePair of the transport: DPDK has its own.
  unfoldable pub with_pair : Transport → Action Trace (Unit {0})
  with_pair dpdk = demand pair_init >> enter single_recorder
  with_pair tr =
      demand (init_nic tr client_side tx_nic)
      >> (demand (init_nic tr server_side rx_nic) >> enter single_recorder)

  unfoldable pub run_single_for : Transport → Action Trace (Unit {0})
  unfolding single_capable with_pair
  run_single_for tr = do
    guard (single_capable tr)
    demand (preflight tr client_side)
    demand (preflight tr server_side)
    with_pair tr

  -- The names of the client's and of the server's transport, and the three cores.
  unfoldable pub run_single_recorder : Build → String → String → ℕ → ℕ → ℕ → Action Trace (Unit {0})
  unfolding with_transport run_single_for
  run_single_recorder b transport server_transport hot rx recorder = do
    guard (Text.◌==◌ server_transport transport)
    guard (not (hot == rx || hot == recorder || rx == recorder))
    run_known (with_transport b transport) run_single_for
