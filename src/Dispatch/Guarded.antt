-- ===== src/Dispatch/Guarded.antt =====
-- The calls of a run of src/app/TransportDispatch.hpp, up to its loop or to a call that fails.
use Prim.Native.String.{String}
use abtrda.Action.{Action}
use abtrda.Prelude.{◌≡◌, ◌⊎◌, Bool, true, false, Option, none, some, List, [], ◌∷◌, ◌++◌, ◌||◌}
use abtrda.Dispatch.{
  RunMode, server, client, tx_gen, rx_sink, single_recorder, Transport, packet_mmap, Side, tx_nic,
  rx_nic, duplex_nic, RunCall, preflight, init_nic, loop, Trace,
}

abbrev pub is_loop : RunCall → Bool
is_loop (loop m) = true
is_loop c = false

-- Whether a loop was entered.
abbrev pub entered : Trace → Bool
entered [] = false
entered (e ∷ t) = is_loop e.0 || entered t

-- Calls that all succeeded.
abbrev pub granted : List RunCall → Trace
granted [] = []
granted (c ∷ cs) = (c, true) ∷ granted cs

-- Packet_mmap has a socket for each direction; any other transport has one object for both.
abbrev both_needed : Transport → Side → RunMode → List RunCall
both_needed packet_mmap side m =
    loop m
    ∷ init_nic packet_mmap side rx_nic
    ∷ init_nic packet_mmap side tx_nic
    ∷ preflight packet_mmap side
    ∷ []
both_needed tr side m = loop m ∷ init_nic tr side duplex_nic ∷ preflight tr side ∷ []

-- What a mode needs on a transport, the latest first, with the loop at its end.
abbrev pub needed : Transport → Side → RunMode → List RunCall
needed tr side tx_gen = loop tx_gen ∷ init_nic tr side tx_nic ∷ preflight tr side ∷ []
needed tr side rx_sink = loop rx_sink ∷ init_nic tr side rx_nic ∷ preflight tr side ∷ []
needed tr side server = both_needed tr side server
needed tr side client = both_needed tr side client
needed tr side single_recorder = preflight tr side ∷ []

-- One of the calls that are due was refused, those before it were granted, and nothing was called after
-- it.
pub record Refused (due : List RunCall) (t : Trace) : Type 0 where
  pub call : RunCall
  pub before : List RunCall
  pub after : List RunCall
  pub is_due : due ≡ after ++ (call ∷ before)
  pub made : t ≡ (call, false) ∷ granted before
  pub outside : entered t ≡ false

-- Success with exactly these calls, or failure at one of them.
pub Ends : List RunCall → Option (Unit {0}) × Trace → Type 0
Ends due r = ((r.0 ≡ some tt) × (r.1 ≡ granted due)) ⊎ ((r.0 ≡ none) × Refused due r.1)

module _ (ok : RunCall → Trace → Bool) where
  -- A run on the transport of that name, or on none: nothing is done for an unknown name.
  pub Concludes : Option Transport → Side → RunMode → Option (Unit {0}) × Trace → Type 0
  Concludes none side m r = (r.0 ≡ none) × (r.1 ≡ [])
  Concludes (some tr) side m r = Ends (needed tr side m) r
