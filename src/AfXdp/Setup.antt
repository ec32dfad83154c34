-- ===== src/AfXdp/Setup.antt =====
-- The set-up, the shutdown and the move of a socket of src/backends/AF_XDP/AFXDP.hpp: the steps of init
-- and moveFrom. Messages, and the queries made only for them, are left out.
pub mod Life
mod Tests
pub mod Reach
pub mod Shut
pub mod Ladder
pub mod Obtain
pub mod Steps
pub mod Balance
use Prim.Native.String
use Prim.Native.String.{String}
use abtrda.Action.{Action, ◌>>=◌, ◌>>◌, pure, gets, modify, guard, when}
use abtrda.Prelude.{
  ℕ, zero, suc, Bool, true, false, not, Option, none, some, List, [], ◌∷◌, ◌==◌, if◌then◌else◌,
}
use abtrda.Napi.Channels.{XskModes, changed}

pub data XskMode : Type 0 where
  xsk_rx_only : XskMode
  xsk_tx_only : XskMode
  xsk_rx_tx : XskMode

unfoldable pub xsk_has_rx : XskMode → Bool
xsk_has_rx xsk_tx_only = false
xsk_has_rx m = true

unfoldable pub xsk_has_tx : XskMode → Bool
xsk_has_tx xsk_rx_only = false
xsk_has_tx m = true

-- The rungs of the bind ladder.
pub data BindMode : Type 0 where
  zero_copied : BindMode
  native_copy : BindMode
  generic : BindMode

abbrev pub is_copy : BindMode → Bool
is_copy zero_copied = false
is_copy m = true

pub data SockOpt : Type 0 where
  prefer_busy_poll_opt : SockOpt
  busy_poll_opt : SockOpt
  busy_poll_budget_opt : SockOpt

-- What a socket holds: each is a pointer that is not null.
pub data Resource : Type 0 where
  frames : Resource
  umem : Resource
  socket : Resource
  program : Resource

unfoldable pub same : Resource → Resource → Bool
same frames frames = true
same umem umem = true
same socket socket = true
same program program = true
same q r = false

-- What the set-up asks of the kernel, of libxdp and of the NAPI helpers.
pub data XskCall : Type 0 where
  raise_memlock : XskCall
  name_to_index : String → XskCall
  strip_program : String → XskCall
  defer_irqs : String → ℕ → ℕ → XskCall
  combined_one : String → XskCall
  carrier : String → XskCall
  open_program : String → XskCall
  attach_program : ℕ → XskCall
  detach_program : ℕ → XskCall
  close_program : XskCall
  map_frames : ℕ → XskCall
  unmap_frames : ℕ → XskCall
  create_umem : ℕ → ℕ → ℕ → ℕ → XskCall
  delete_umem : XskCall
  reserve_fill : ℕ → XskCall
  create_socket : String → ℕ → Bool → Bool → BindMode → Bool → Bool → XskCall
  delete_socket : XskCall
  socket_fd : XskCall
  set_option : Option ℕ → SockOpt → ℕ → XskCall
  find_map : XskCall
  update_map : ℕ → Option ℕ → XskCall
  napi_id : Option ℕ → XskCall
  apply_busy_poll : ℕ → ℕ → ℕ → ℕ → XskCall
  query_busy_poll : ℕ → XskCall
  strip_native : ℕ → XskCall
  strip_generic : ℕ → XskCall

-- The answer to a call after the calls before it, the latest first; the modes that a socket has.
pub record XskEnv : Type 0 where
  pub ok : XskCall → List XskCall → Bool
  pub num : XskCall → List XskCall → ℕ
  pub modes : Option ℕ → List XskCall → XskModes

pub record Xsk : Type 0 where
  pub interface : String
  pub queue_id : ℕ
  pub bpf_prog_path : String
  pub bind_mode : BindMode
  pub holds : Resource → Bool
  pub ifindex : ℕ
  pub fd : Option ℕ
  pub copy_mode : Bool
  pub custom_bpf : Bool
  pub napi_defer : ℕ
  pub napi_gro : ℕ
  pub napi_susp : ℕ
  pub fill : List ℕ

-- A socket object that holds nothing; a path that is a null pointer is the empty one.
abbrev pub new_xsk : String → ℕ → String → Xsk
new_xsk interface queue_id path = record {
  interface = interface;
  queue_id = queue_id;
  bpf_prog_path = path;
  bind_mode = generic;
  holds = λ r. false;
  ifindex = 0;
  fd = none;
  copy_mode = false;
  custom_bpf = false;
  napi_defer = 0;
  napi_gro = 0;
  napi_susp = 0;
  fill = [];
}

abbrev pub hold : Resource → Bool → Xsk → Xsk
hold q b n = record n { holds = λ r. if same q r then b else n.holds r }

-- A socket object and the calls made so far.
pub record Sys : Type 0 where
  pub xsk : Xsk
  pub calls : List XskCall

abbrev pub set_xsk : (Xsk → Xsk) → Action Sys (Unit {0})
set_xsk f = modify (λ s. record s { xsk = f s.xsk })

abbrev pub get_xsk : {A : Type 0} → (Xsk → A) → Action Sys A
get_xsk f = gets (λ s. f s.xsk)

-- The regime of the two flags.
unfoldable pub set_regime : Bool → Bool → Xsk → Xsk
set_regime enable_deferral true n = record n {
  napi_defer = 2;
  napi_gro = 200000;
  napi_susp = 20000000;
}
set_regime true false n = record n { napi_defer = 2; napi_gro = 200000; napi_susp = 0 }
set_regime false false n = record n { napi_defer = 0; napi_gro = 0; napi_susp = 0 }

module _ (env : XskEnv) where
  abbrev pub ask_xsk : XskCall → Action Sys Bool
  ask_xsk c s = (some (env.ok c s.calls), record s { calls = c ∷ s.calls })

  abbrev pub ask_count : XskCall → Action Sys ℕ
  ask_count c s = (some (env.num c s.calls), record s { calls = c ∷ s.calls })

  abbrev pub ask_id : XskCall → Action Sys (Option ℕ)
  ask_id c s = (
    some (if env.ok c s.calls then some (env.num c s.calls) else none),
    record s { calls = c ∷ s.calls },
  )

  abbrev pub tell_xsk : XskCall → Action Sys (Unit {0})
  tell_xsk c s = (some tt, record s { calls = c ∷ s.calls })

  -- A call whose result the object holds when there is one.
  abbrev pub acquire : Resource → XskCall → Action Sys Bool
  acquire q c s = (
    some (env.ok c s.calls),
    record { xsk = hold q (env.ok c s.calls) s.xsk; calls = c ∷ s.calls },
  )

  -- A call that takes back what the object holds.
  abbrev pub give_back : Resource → XskCall → Action Sys (Unit {0})
  give_back q c s = (some tt, record { xsk = hold q false s.xsk; calls = c ∷ s.calls })

  unfoldable pub apply_deferral_sysfs : Action Sys (Unit {0})
  apply_deferral_sysfs = do
    n ← get_xsk (λ n. n)
    tell_xsk (defer_irqs n.interface n.napi_defer n.napi_gro)

  -- `left` turns.
  unfoldable pub wait_carrier : ℕ → String → Action Sys (Unit {0})
  wait_carrier zero interface s = (some tt, s)
  wait_carrier (suc left) interface s =
      let up = env.ok (carrier interface) s.calls in
      let t = record s { calls = carrier interface ∷ s.calls } in
      let rest = wait_carrier left interface t in if up then (some tt, t) else rest

  unfoldable pub steer_all_traffic : Action Sys (Unit {0})
  unfolding wait_carrier
  steer_all_traffic = do
    n ← get_xsk (λ n. n)
    if n.queue_id == 0
        then (do
          bounced ← ask_xsk (combined_one n.interface)
          when bounced (wait_carrier 60 n.interface))
        else pure tt

  unfoldable pub load_xdp_program : Action Sys (Unit {0})
  unfolding same
  load_xdp_program = do
    n ← get_xsk (λ n. n)
    opened ← acquire program (open_program n.bpf_prog_path)
    if opened
        then (do
          attached ← ask_xsk (attach_program n.ifindex)
          if attached
              then set_xsk (λ n. record n { custom_bpf = true })
              else give_back program close_program)
        else pure tt

  unfoldable pub apply_set_sock_opt : Action Sys (Unit {0})
  apply_set_sock_opt = do
    fd ← get_xsk (λ n. n.fd)
    tell_xsk (set_option fd prefer_busy_poll_opt 1)
    tell_xsk (set_option fd busy_poll_opt 20)
    tell_xsk (set_option fd busy_poll_budget_opt 64)

  unfoldable pub enter_xsks_into_map : Action Sys (Unit {0})
  enter_xsks_into_map = do
    n ← get_xsk (λ n. n)
    found ← ask_xsk find_map
    when found (tell_xsk (update_map n.queue_id n.fd))

  unfoldable pub set_busy_poll_of : Xsk → Option ℕ → Action Sys (Unit {0})
  set_busy_poll_of n none = pure tt
  set_busy_poll_of n (some id) = do
    set ← ask_xsk (apply_busy_poll id n.napi_defer n.napi_gro n.napi_susp)
    when set (tell_xsk (query_busy_poll id))

  -- The kernel's answer overrides the label of the ladder; the regime is set for the NAPI of the socket,
  -- when there is one.
  unfoldable pub verify_config : Action Sys (Unit {0})
  unfolding set_busy_poll_of
  verify_config = do
    n ← get_xsk (λ n. n)
    modes ← gets (λ s. env.modes n.fd s.calls)
    when modes.valid (set_xsk (λ n. record n { copy_mode = not modes.zero_copy }))
    id ← ask_id (napi_id n.fd)
    set_busy_poll_of n id

-- What a move leaves of the old object; the new one is as the old one was.
unfoldable pub moved_xsk : Xsk → Xsk
moved_xsk o = record o { holds = λ r. false; ifindex = 0; fd = none }

-- Two objects of a process, and the calls made so far.
pub record XskPair : Type 0 where
  pub this_xsk : Xsk
  pub that_xsk : Xsk
  pub made : List XskCall

-- What a step of this object leaves.
abbrev pub with_this : XskPair → Sys → XskPair
with_this p s = record p { this_xsk = s.xsk; made = s.calls }

abbrev pub this_of : XskPair → Sys
this_of p = record { xsk = p.this_xsk; calls = p.made }

abbrev pub turned_round : XskPair → XskPair
turned_round p = record p { this_xsk = p.that_xsk; that_xsk = p.this_xsk }
