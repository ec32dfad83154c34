-- ===== src/App/Tests.antt =====
-- The theorems on the client, the server, the generator and the sink at concrete runs.
use abtrda.Prelude.{
  ℕ, zero, suc, ◌+◌, ◌%◌, ◌^◌, ◌≤◌, ◌≡◌, ◌≢◌, refl, Bool, true, false, none, some, List, [], ◌∷◌,
  ◌++◌, map, arith, ◌==◌, length, replicate, length-replicate, u64,
}
use abtrda.Bytes.{slice, store_u, swap32}
use abtrda.Frame.{off_seq}
use abtrda.Recorder.Bounded.{four}
use abtrda.App.Client.{
  ClientConfig, Client, Spin, is_echo, spin_wait, ClientTurn, run_client, ends, no_slot, sends_in,
}
use abtrda.App.Server.{Server, ServerTurn, reflect, server_loop, idle, request}
use abtrda.App.Traffic.{Generator, GeneratorTurn, run_txgen, run_rxsink}
use abtrda.App.Echo.{reflect-is_echo}
use abtrda.App.Rounds.{Tallied}
use abtrda.App.Accounting.{
  Late, Late-Ends, spin_wait-Late, early_along, client_start, Numbered, run_client-Tallied,
}
use abtrda.App.Replies.{Replies, server_loop-Replies}
use abtrda.App.Delivery.{due, given, refused, run_txgen-accepted}

abbrev our_mac : List ℕ
our_mac = 2 ∷ 0 ∷ 0 ∷ 0 ∷ 0 ∷ 1 ∷ []

abbrev slot64 : List ℕ
slot64 = our_mac ++ replicate 58 0

reflect-is_echo_example :
    (f : List ℕ) × (r : List ℕ) × (store_u 4 off_seq (swap32 7) slot64 ≡ some f)
    × (reflect slot64 f ≡ some r)
    × (slice 0 14 r ≡ slice 0 14 slot64)
    × (is_echo our_mac (swap32 7) r ≡ some (7 == 7))
reflect-is_echo_example =
    reflect-is_echo slot64 slot64 our_mac 7 7 (omega arith) (omega arith) refl (omega arith)
      (omega arith)

abbrev config64 : ClientConfig
config64 = record { frame_size = 64; client_mac = our_mac; hw_ts = false; timeout_cyc = 500 }

-- A turn of the wait that meets nothing, at a time past the timeout.
abbrev late_spin : Spin
late_spin = record { arrival = none; stop = false; now = 900 }

abbrev waiting : Client (List ℕ)
waiting = record {
  seq = 3;
  sent = 4;
  recorded = 0;
  timeouts = 0;
  warmup = 2;
  hw_tx_missing = 0;
  push_failures = 0;
  to_hist = [];
}

-- The 2046th and the 2047th turn are done.
spin_wait-Late_example :
    (r : Bool × Client (List ℕ)) × (spin_wait four config64 100 0 2046
        (late_spin ∷ late_spin ∷ [])
        waiting
      ≡ some r)
spin_wait-Late_example =
    spin_wait-Late four config64 100 0 2046 (late_spin ∷ late_spin ∷ []) waiting (omega arith)
      (refl, (refl, tt))

-- A full ring, then one frame whose echo arrives on the first turn of the wait, and the end.
abbrev echo64 : List ℕ
echo64 = our_mac ++ replicate 58 0

abbrev first_wait : List Spin
first_wait =
    record {
      arrival = some (record { t2 = 150; bytes = echo64; rx_stamp = 0; tx_stamps = [] });
      stop = true;
      now = 160;
    }
    ∷ replicate 2047 late_spin

abbrev client_turns : List ClientTurn
client_turns = no_slot ∷ sends_in slot64 100 0 first_wait ∷ ends ∷ []

Late-replicate : (n : ℕ) → Late config64 100 (replicate n late_spin)
Late-replicate zero = tt
Late-replicate (suc n) = (refl, Late-replicate n)

run_client-Tallied_example :
    (r : List (List ℕ) × Client (List ℕ)) × (run_client four config64 client_turns [] ≡ some r)
    × Numbered four 0 client_turns r.0
    × Tallied four 0
        (length r.0)
        (early_along four config64 client_turns (client_start four []))
        r.1
run_client-Tallied_example =
    run_client-Tallied four config64 client_turns [] (omega arith) (omega arith)
      (omega arith, Late-Ends config64 100 0 first_wait enough (refl, Late-replicate 2047), tt)
  where
    enough : 2 ^ 11 ≤ 0 % 2 ^ 11 + suc (length (replicate 2047 late_spin))
    enough = omega (arith, length-replicate 2047 late_spin)

abbrev request64 : List ℕ
request64 = our_mac ++ replicate 58 5

abbrev serving : Server (List ℕ)
serving = record {
  packet_count = 0;
  hw_warmup = 0;
  rx_in_flight = 0;
  tx_seq_in_flight = 0;
  push_failures = 0;
  to_hist = [];
}

-- An idle turn, a request that waits for its slot, and one that meets a stop.
abbrev server_turns : List ServerTurn
server_turns =
    idle (some (0, 77))
    ∷ request request64 ((none, false) ∷ (some slot64, false) ∷ []) 0 5
    ∷ request request64 ((none, true) ∷ []) 1 6
    ∷ []

server_loop-Replies_example :
    (rs : List (List ℕ)) × (t : Server (List ℕ)) × (server_loop four true server_turns [] serving
      ≡ some (rs, t))
    × Replies server_turns rs
    × (t.packet_count ≡ u64 (0 + length rs))
server_loop-Replies_example =
    server_loop-Replies four true server_turns [] serving (omega arith)
      (omega arith, omega arith, (omega arith, tt, tt))

abbrev generator_turns : List GeneratorTurn
generator_turns =
    record { stop = false; slot = some slot64; now_ns = 1000 }
    ∷ record { stop = false; slot = none; now_ns = 2000 }
    ∷ record { stop = false; slot = some slot64; now_ns = 3000 }
    ∷ []

run_txgen-accepted_example :
    (g : Generator) × (run_txgen 3 generator_turns ≡ some g)
    × (g.sent ≡ given (due 3 generator_turns))
    × (g.failed ≡ refused (due 3 generator_turns))
    × (run_rxsink our_mac (map some g.frames) (record { accepted = 0; rejected = 0 })
        ≡ some (record { accepted = g.sent; rejected = 0 }))
    × ((other : List ℕ)
        → our_mac ≢ other
        → run_rxsink other (map some g.frames) (record { accepted = 0; rejected = 0 })
          ≡ some (record { accepted = 0; rejected = g.sent }))
run_txgen-accepted_example =
    run_txgen-accepted our_mac 3 generator_turns (omega arith)
      ((omega arith, refl), (tt, ((omega arith, refl), tt)))
