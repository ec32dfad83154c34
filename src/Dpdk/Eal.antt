-- ===== src/Dpdk/Eal.antt =====
-- src/backends/DPDK/DPDKEal.cpp: the devices that one process offers to DPDK, and the one call of
-- rte_eal_init. Building the argument vector of C strings is left out.
pub mod Once
use Prim.Native.Char.{Char, code}
use Prim.Native.String
use Prim.Native.String.{String}
use text.Mathlib.Text
use abtrda.Action.{Action, ◌>>=◌, ◌>>◌, pure, gets, modify, guard, when}
use abtrda.Prelude.{
  ℕ, ◌^◌, Bool, true, false, not, ◌||◌, Option, none, some, List, [], ◌∷◌, ◌++◌, ◌==◌,
  if◌then◌else◌,
}
use abtrda.Strings.{before}

-- What the set-up asks of the kernel, of DPDK and of the other helpers.
pub data Call : Type 0 where
  rte_eal_init : List String → Call
  get_affinity : Call
  set_affinity : ℕ → Call
  has_vfio : Call
  modprobe_vfio : Call
  current_driver : String → Call
  write_sysfs : String → String → Call
  resolve_bdf : String → Call
  bdf_from_name : String → Call
  detach_xdp : String → Call
  ensure_combined_one : String → Call
  port_by_name : String → Call
  dev_info : ℕ → Call
  socket_id : ℕ → Call
  own_socket : Call
  pool_create : ℕ → ℕ → Call
  dev_configure : ℕ → ℕ → ℕ → Bool → ℕ → Call
  adjust_descs : ℕ → ℕ → ℕ → Call
  rx_queue_setup : ℕ → ℕ → ℕ → ℕ → Call
  tx_queue_setup : ℕ → ℕ → ℕ → ℕ → Call
  dev_start : ℕ → Call
  defer_sysfs : String → ℕ → ℕ → Call
  mac_addr : ℕ → Call
  link_up : ℕ → Call
  set_link_up : ℕ → Call
  free_mbuf : ℕ → Call
  dev_stop : ℕ → Call
  i40e_writeback : String → Call
  igc_eee : String → Call
  drive : Call

-- The answer to a call after the calls before it, the latest first: whether it succeeded, a number, two
-- numbers, a text.
pub record Env : Type 0 where
  pub ok : Call → List Call → Bool
  pub num : Call → List Call → ℕ
  pub pair : Call → List Call → ℕ × ℕ
  pub text : Call → List Call → String

-- The file-scope state.
pub record Eal : Type 0 where
  pub allowed_bdfs : List String
  pub vdevs : List String
  pub eal_inited : Bool

pub record Process : Type 0 where
  pub eal : Eal
  pub calls : List Call

-- The name of a device, without its arguments.
abbrev pub device : String → String
device entry = before 44 entry

unfoldable pub has_device : String → List String → Bool
has_device key [] = false
has_device key (e ∷ es) = Text.◌==◌ (device e) key || has_device key es

unfoldable pub add_unique : List String → String → List String
unfolding has_device
add_unique v entry = if has_device (device entry) v then v else v ++ (entry ∷ [])

-- The characters that the file prefix cannot have.
unfoldable pub file_safe : String → String
file_safe String.[] = String.[]
file_safe (String.◌∷◌ c s) =
    if code c == 58 || code c == 46 || code c == 44
    then String.◌++◌ "_" (file_safe s)
    else String.◌∷◌ c (file_safe s)

abbrev pub front : List String → String
front [] = ""
front (e ∷ es) = e

abbrev pub control_thread_core : ℕ
control_thread_core = 0

unfoldable pub flagged : String → List String → List String
flagged flag [] = []
flagged flag (e ∷ es) = flag ∷ e ∷ flagged flag es

unfoldable pub device_args : List String → List String → List String
unfolding flagged
device_args allowed [] = flagged "-a" allowed
device_args allowed (v ∷ vs) = "--no-pci" ∷ "--in-memory" ∷ flagged "--vdev" (v ∷ vs)

unfoldable pub base_device : List String → List String → String
base_device allowed [] = front allowed
base_device allowed (v ∷ vs) = v

abbrev pub is_nil {ℓ} : {A : Type ℓ} → List A → Bool
is_nil [] = true
is_nil (x ∷ xs) = false

abbrev pub set_eal : (Eal → Eal) → Action Process (Unit {0})
set_eal f = modify (λ p. record p { eal = f p.eal })

abbrev pub add_allowed_bdf : String → Action Process (Unit {0})
add_allowed_bdf bdf = set_eal (λ e. record e { allowed_bdfs = add_unique e.allowed_bdfs bdf })

abbrev pub add_vdev : String → Action Process (Unit {0})
add_vdev arg = set_eal (λ e. record e { vdevs = add_unique e.vdevs arg })

-- `decimal` is std::to_string.
module _ (env : Env) (decimal : ℕ → String) where
  abbrev pub ask : Call → Action Process Bool
  ask c p = (some (env.ok c p.calls), record p { calls = c ∷ p.calls })

  abbrev pub ask_num : Call → Action Process ℕ
  ask_num c p = (some (env.num c p.calls), record p { calls = c ∷ p.calls })

  abbrev pub ask_text : Call → Action Process String
  ask_text c p = (some (env.text c p.calls), record p { calls = c ∷ p.calls })

  -- A call that has to succeed, and one whose outcome is not looked at.
  abbrev pub require : Call → Action Process (Unit {0})
  require c = ask c >>= guard

  -- The number that a call gives when it succeeds.
  abbrev pub require_num : Call → Action Process ℕ
  require_num c p = (
    if env.ok c p.calls then some (env.num c p.calls) else none,
    record p { calls = c ∷ p.calls },
  )

  abbrev pub require_pair : Call → Action Process (ℕ × ℕ)
  require_pair c p = (
    if env.ok c p.calls then some (env.pair c p.calls) else none,
    record p { calls = c ∷ p.calls },
  )

  abbrev pub tell : Call → Action Process (Unit {0})
  tell c = ask c >> pure tt

  unfoldable pub eal_args : Eal → ℕ → List String
  unfolding file_safe device_args base_device before
  eal_args e lcore =
      let prefix =
        String.◌++◌ "abtrda3_" (file_safe (device (base_device e.allowed_bdfs e.vdevs))) in
      "abtrda3"
      ∷ "-l"
      ∷ decimal lcore
      ∷ "--main-lcore"
      ∷ decimal lcore
      ∷ "-n"
      ∷ "4"
      ∷ "--file-prefix"
      ∷ prefix
      ∷ String.◌++◌ "--force-max-simd-bitwidth=" (decimal 256)
      ∷ device_args e.allowed_bdfs e.vdevs

  abbrev pub read_affinity : Action Process (Option ℕ)
  read_affinity p = (
    some (if env.ok get_affinity p.calls then some (env.num get_affinity p.calls) else none),
    record p { calls = get_affinity ∷ p.calls },
  )

  abbrev pub restore : Option ℕ → Action Process (Unit {0})
  restore none = pure tt
  restore (some mask) = tell (set_affinity mask)

  -- The call with the process moved to the control core around it; the affinity that the kernel
  -- answers is set again if it could be read. A set of cores is a number, a core a bit.
  unfoldable pub parked_init : List String → Bool → Action Process Bool
  parked_init args park = do
    saved ← if park then read_affinity else pure none
    when park (tell (set_affinity (2 ^ control_thread_core)))
    rc ← ask (rte_eal_init args)
    restore saved
    pure rc

  unfoldable pub first_init : String → ℕ → Action Process (Unit {0})
  unfolding eal_args parked_init add_unique
  first_init bdf lcore = do
    fresh ← gets (λ p. is_nil p.eal.vdevs)
    when fresh (add_allowed_bdf bdf)
    args ← gets (λ p. eal_args p.eal lcore)
    done ← parked_init args (not (control_thread_core == lcore))
    guard done
    set_eal (λ e. record e { eal_inited = true })

  unfoldable pub eal_init : String → ℕ → Action Process (Unit {0})
  unfolding first_init
  eal_init bdf lcore = do
    inited ← gets (λ p. p.eal.eal_inited)
    if inited then pure tt else first_init bdf lcore

  -- `driver_override` and `drivers_probe`; only the last write counts.
  unfoldable pub bind_to_vfio : String → Action Process (Unit {0})
  bind_to_vfio bdf = do
    loaded ← ask has_vfio
    when (not loaded) (tell modprobe_vfio)
    driver ← ask_text (current_driver bdf)
    let dev = String.◌++◌ "/sys/bus/pci/devices/" bdf
    if Text.◌==◌ driver "vfio-pci"
        then pure tt
        else (tell (write_sysfs (String.◌++◌ dev "/driver_override") "vfio-pci")
            >> tell (write_sysfs (String.◌++◌ dev "/driver/unbind") bdf)
            >> require (write_sysfs "/sys/bus/pci/drivers_probe" bdf))
