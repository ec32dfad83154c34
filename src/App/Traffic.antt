-- ===== src/App/Traffic.antt =====
-- run_txgen of src/app/TxGenerator.hpp and run_rxsink of src/app/RxSink.hpp. The slots, the clock, the stop
-- flag and the frames that arrive are arguments; the rates that they print are left out.
use abtrda.Prelude.{
  ℕ, ◌+◌, Bool, not, ◌&&◌, Option, none, some, List, [], ◌∷◌, ◌++◌, ltb, leb, if◌then◌else◌, length,
  u32, u64, ◌>>=◌,
}
use abtrda.Bytes.{slice, store_u, swap32}
use abtrda.App.Client.{bytes_eq}

-- What the generator has sent, oldest first, and its counters.
pub record Generator : Type 0 where
  pub sent : ℕ
  pub failed : ℕ
  pub frames : List (List ℕ)

-- A turn of the loop: the stop flag before it, the slot that the ring gives, and the clock.
pub record GeneratorTurn : Type 0 where
  pub stop : Bool
  pub slot : Option (List ℕ)
  pub now_ns : ℕ

-- The number in network order behind the header, then the time; `none` is a store outside the slot.
unfoldable pub generate : ℕ → GeneratorTurn → Generator → Option Generator
generate i t g = elim t.slot [
  | none ↦ some (record g { failed = u32 (g.failed + 1) })
  | some buf ↦ do
    a ← store_u 4 14 (swap32 i) buf
    f ← store_u 8 18 t.now_ns a
    some (record g { sent = u32 (g.sent + 1); frames = g.frames ++ (f ∷ []) })
]

-- Turn number `i` of `count`, until the flag stops the loop.
unfoldable pub generate_loop : ℕ → ℕ → List GeneratorTurn → Generator → Option Generator
unfolding generate
generate_loop count i [] g = some g
generate_loop count i (t ∷ ts) g =
    let rest = generate i t g >>= generate_loop count (i + 1) ts in
    if ltb i count && not t.stop then rest else some g

unfoldable pub run_txgen : ℕ → List GeneratorTurn → Option Generator
unfolding generate_loop
run_txgen count ts = generate_loop count 0 ts (record { sent = 0; failed = 0; frames = [] })

pub record Sink : Type 0 where
  pub accepted : ℕ
  pub rejected : ℕ

-- A frame for the sink's address is accepted; `none` is a frame too short to have one.
unfoldable pub sink_frame : List ℕ → List ℕ → Sink → Option Sink
sink_frame mac f s =
    if leb 6 (length f)
    then some (
        if bytes_eq (slice 0 6 f) mac
        then record s { accepted = u64 (s.accepted + 1) }
        else record s { rejected = u64 (s.rejected + 1) })
    else none

-- An empty poll changes nothing.
unfoldable pub sink_poll : List ℕ → Option (List ℕ) → Sink → Option Sink
unfolding sink_frame
sink_poll mac none s = some s
sink_poll mac (some f) s = sink_frame mac f s

unfoldable pub run_rxsink : List ℕ → List (Option (List ℕ)) → Sink → Option Sink
unfolding sink_poll
run_rxsink mac [] s = some s
run_rxsink mac (p ∷ ps) s = sink_poll mac p s >>= run_rxsink mac ps
