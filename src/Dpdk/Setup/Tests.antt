-- ===== src/Dpdk/Setup/Tests.antt =====
-- The set-up of ports run on a host whose every call succeeds.
use Prim.Native.String
use Prim.Native.String.{String}
use abtrda.Action.{◌>>=◌}
use abtrda.Prelude.{
  ℕ, ◌+◌, ◌≤◌, ◌≡◌, refl, true, false, some, List, [], ◌∷◌, ◌==◌, if◌then◌else◌, length,
}
use abtrda.Dpdk.Eal.{Call, Env, Process, device, current_driver, resolve_bdf}
use abtrda.Dpdk.Eal.Once.{init_args}
use abtrda.Dpdk.Setup.{Port, new_port, Dpdk, wait_link, init, tx_only}
use abtrda.Dpdk.Setup.Reach.{fresh_process, DpdkReach-once, starts, inits}
use abtrda.Dpdk.Setup.Offer.{offers}
use abtrda.Dpdk.Setup.Wait.{is_query, is_kick, count, wait_link-bounded}
use abtrda.Dpdk.Setup.Pair.{Role, Ports, with_single_pair}
use abtrda.Dpdk.Setup.Pair.Order.{with_single_pair-offers}

abbrev text_of : Call → String
text_of (resolve_bdf ifname) = String.◌++◌ "0000:" ifname
text_of (current_driver bdf) = "igc"
text_of c = ""

abbrev willing : Env
willing = record {
  ok = λ c cs. true;
  num = λ c cs. 1;
  pair = λ c cs. (64, 256);
  text = λ c cs. text_of c;
}

abbrev decimal : ℕ → String
decimal n = if n == 256 then "256" else (if n == 3 then "3" else "0")

abbrev tx_role : Role
tx_role = record {
  interface = "01";
  driver = "sfc";
  cpu_core = 3;
  dpdk_bifurcated = false;
  dpdk_afxdp_pmd = false;
}

abbrev rx_role : Role
rx_role = record {
  interface = "02";
  driver = "mlx5_core";
  cpu_core = 3;
  dpdk_bifurcated = true;
  dpdk_afxdp_pmd = false;
}

abbrev pair_run : ℕ × Ports
pair_run = with_single_pair willing decimal 3 false tx_role rx_role fresh_process

pair_run-code : pair_run.0 ≡ 0
unfolding with_single_pair ◌>>=◌
pair_run-code = refl

with_single_pair-offers_example :
    (args : List String) × (init_args willing pair_run.1.process.calls ≡ args ∷ [])
    × (offers (device pair_run.1.tx.pci) args ≡ true)
    × (offers (device pair_run.1.rx.pci) args ≡ true)
with_single_pair-offers_example =
    with_single_pair-offers willing decimal 3 false tx_role rx_role refl refl pair_run-code

abbrev one_port : Port
one_port = new_port tx_only "01" 3 "sfc"

abbrev ended : Process
ended =
    (init willing decimal true false false false (record {
      nic = one_port;
      process =
          (init willing decimal false true false false
            (record { nic = one_port; process = fresh_process })).1.process;
    })).1.process

DpdkReach-once_example :
    length (init_args willing ended.calls) ≡ (if ended.eal.eal_inited then 1 else 0)
DpdkReach-once_example =
    DpdkReach-once willing decimal ended
      (inits one_port true false false false (inits one_port false true false false starts))

abbrev down : Env
down = record willing { ok = λ c cs. false }

abbrev waited : Dpdk
waited = (wait_link down decimal (record { nic = one_port; process = fresh_process })).1

wait_link-bounded_example :
    ((wait_link down decimal (record { nic = one_port; process = fresh_process })).0 ≡ some tt)
    × (count is_query waited.process.calls ≤ 0 + 200)
    × (count is_kick waited.process.calls ≤ 0 + 7)
wait_link-bounded_example =
    wait_link-bounded down decimal (record { nic = one_port; process = fresh_process })

-- All the queries and kicks are used up when the link stays down.
waited-queries : count is_query waited.process.calls ≡ 200
unfolding wait_link ◌>>=◌
waited-queries = refl

waited-kicks : count is_kick waited.process.calls ≡ 7
unfolding wait_link ◌>>=◌
waited-kicks = refl
