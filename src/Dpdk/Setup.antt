-- ===== src/Dpdk/Setup.antt =====
-- The set-up and the shutdown of a port, DPDK::prepare, init, waitLink and shutdown of
-- src/backends/DPDK/DPDK.hpp, and the settings before them. Printing, the statistics and the other reads
-- made for it are left out.
pub mod Pair
pub mod Quiet
pub mod Reach
pub mod Offer
pub mod Launch
mod Tests
pub mod Wait
pub mod Init
use Prim.Native.Nat.{bit_and}
use Prim.Native.String
use Prim.Native.String.{String}
use text.Mathlib.Text
use abtrda.Action.{Action, ◌>>=◌, ◌>>◌, pure, gets, modify, guard, when}
use abtrda.Prelude.{
  ℕ, zero, suc, ◌+◌, ◌%◌, Bool, true, false, not, ◌&&◌, ◌||◌, Option, none, some, ◌∷◌, ltb, ◌==◌,
  if◌then◌else◌, length,
}
use abtrda.Strings.{is_empty}
use abtrda.Dpdk.Eal.{
  Env, Process, add_unique, add_allowed_bdf, add_vdev, ask, ask_num, ask_text, require, require_num,
  require_pair, tell, eal_init, bind_to_vfio, resolve_bdf, bdf_from_name, detach_xdp,
  ensure_combined_one, port_by_name, dev_info, socket_id, own_socket, pool_create, dev_configure,
  adjust_descs, rx_queue_setup, tx_queue_setup, dev_start, defer_sysfs, mac_addr, link_up,
  set_link_up, free_mbuf, dev_stop,
}

pub data DpdkMode : Type 0 where
  rx_only : DpdkMode
  tx_only : DpdkMode
  rx_tx : DpdkMode

pub record Port : Type 0 where
  pub mode : DpdkMode
  pub ifname : String
  pub driver : String
  pub lcore : ℕ
  pub pci : String
  pub port : ℕ
  pub has_pool : Bool
  pub mac : ℕ
  pub prepared : Bool
  pub started : Bool
  pub bifurcated : Bool
  pub afxdp_pmd : Bool
  pub apply_deferral : Bool
  pub link_speeds : ℕ
  pub symmetric_queues : Bool
  pub nb_rx_desc : ℕ
  pub devargs : String
  pub tx_reuse : Option ℕ
  pub tx_reuse_inline : Bool
  pub pending_rx : Option ℕ

abbrev pub new_port : DpdkMode → String → ℕ → String → Port
new_port mode ifname lcore driver = record {
  mode = mode;
  ifname = ifname;
  driver = driver;
  lcore = lcore;
  pci = "";
  port = 0;
  has_pool = false;
  mac = 0;
  prepared = false;
  started = false;
  bifurcated = false;
  afxdp_pmd = false;
  apply_deferral = false;
  link_speeds = 0;
  symmetric_queues = false;
  nb_rx_desc = 256;
  devargs = "";
  tx_reuse = none;
  tx_reuse_inline = false;
  pending_rx = none;
}

unfoldable pub has_rx : DpdkMode → Bool
has_rx tx_only = false
has_rx m = true

unfoldable pub has_tx : DpdkMode → Bool
has_tx rx_only = false
has_tx m = true

-- A port in its process.
pub record Dpdk : Type 0 where
  pub nic : Port
  pub process : Process

-- A step of the process, and an assignment to members.
abbrev pub globally : {A : Type 0} → Action Process A → Action Dpdk A
globally m d = let (r, p) = m d.process in (r, record d { process = p })

abbrev pub assign : (Port → Port) → Action Dpdk (Unit {0})
assign f = modify (λ d. record d { nic = f d.nic })

abbrev pub member : {A : Type 0} → (Port → A) → Action Dpdk A
member f = gets (λ d. f d.nic)

unfoldable pub set_link_speeds : ℕ → Action Dpdk (Unit {0})
set_link_speeds mask = assign (λ n. record n { link_speeds = mask })

unfoldable pub set_symmetric_queues : Bool → Action Dpdk (Unit {0})
set_symmetric_queues on = assign (λ n. record n { symmetric_queues = on })

unfoldable pub set_nb_rx_desc : ℕ → Action Dpdk (Unit {0})
set_nb_rx_desc k = assign (λ n. record n { nb_rx_desc = k })

unfoldable pub set_devargs : String → Action Dpdk (Unit {0})
set_devargs args = assign (λ n. record n { devargs = args })

unfoldable pub set_tx_inline_reuse : Bool → Action Dpdk (Unit {0})
set_tx_inline_reuse on = assign (λ n. record n { tx_reuse_inline = on })

abbrev pub queues : Bool → ℕ
queues used = if used then 1 else 0

-- A kick of the link on the 20th turn and on every 30th after it.
abbrev pub kicks : ℕ → Bool
kicks i = i == 20 || (ltb 20 i && i % 30 == 0)

-- The entry of a device in the allow list.
abbrev pub allow_entry : Port → String
allow_entry n = if is_empty n.devargs then n.pci else String.◌++◌ n.pci (String.◌++◌ "," n.devargs)

unfoldable pub register : Action Dpdk (Unit {0})
unfolding add_unique
register = do
  entry ← member allow_entry
  globally (add_allowed_bdf entry)
  assign (λ n. record n { prepared = true })

module _ (env : Env) (decimal : ℕ → String) where
  -- A vdev in front of the kernel driver.
  unfoldable pub prepare_vdev : Action Dpdk (Unit {0})
  unfolding add_unique
  prepare_vdev = do
    ifname ← member (λ n. n.ifname)
    globally (tell env decimal (detach_xdp ifname))
    globally (tell env decimal (ensure_combined_one ifname))
    count ← gets (λ d. length d.process.eal.vdevs)
    let vname = String.◌++◌ "net_af_xdp" (decimal count)
    globally (
        add_vdev (
          String.◌++◌ vname (
            String.◌++◌ ",iface="
              (String.◌++◌ ifname ",start_queue=0,queue_count=1,mode=drv,busy_budget=64"))))
    assign (λ n. record n { pci = vname; tx_reuse_inline = false; prepared = true })

  unfoldable pub resolve : Action Dpdk (Unit {0})
  resolve = do
    ifname ← member (λ n. n.ifname)
    bdf ← globally (ask_text env decimal (resolve_bdf ifname))
    assign (λ n. record n { pci = bdf })
    if is_empty bdf
        then (do
          named ← globally (ask_text env decimal (bdf_from_name ifname))
          assign (λ n. record n { pci = named })
          guard (not (is_empty named)))
        else pure tt

  unfoldable pub prepare_pci : Action Dpdk (Unit {0})
  unfolding resolve bind_to_vfio register
  prepare_pci = do
    resolve
    kept ← member (λ n. n.bifurcated)
    pci ← member (λ n. n.pci)
    if kept then pure tt else globally (bind_to_vfio env decimal pci)
    register

  unfoldable pub prepare : Bool → Bool → Action Dpdk (Unit {0})
  unfolding prepare_vdev prepare_pci
  prepare bifurcated afxdp_pmd = do
    prepared ← member (λ n. n.prepared)
    if prepared
        then pure tt
        else (assign (λ n. record n { bifurcated = bifurcated; afxdp_pmd = afxdp_pmd })
            >> (if afxdp_pmd then prepare_vdev else prepare_pci))

  -- Where the port's memory lies.
  unfoldable pub memory_socket : ℕ → Action Process ℕ
  memory_socket port p =
      let known = env.ok (socket_id port) p.calls in
      let q = record p { calls = socket_id port ∷ p.calls } in
      if known
      then (some (env.num (socket_id port) p.calls), q)
      else ask_num env decimal own_socket q

  -- The queues of a direction, or both where a driver wants both, up to the start of the port.
  unfoldable pub configure : ℕ → ℕ → Port → Action Process (Unit {0})
  unfolding has_rx has_tx
  configure capabilities sid n = do
    let both = n.afxdp_pmd || n.symmetric_queues
    let rxq = has_rx n.mode || both
    let txq = has_tx n.mode || both
    let fast_free = not (bit_and capabilities 65536 == 0)
    require env decimal (dev_configure n.port (queues rxq) (queues txq) fast_free n.link_speeds)
    descs ← require_pair env decimal (adjust_descs n.port n.nb_rx_desc 256)
    if rxq then require env decimal (rx_queue_setup n.port 0 descs.0 sid) else pure tt
    if txq then require env decimal (tx_queue_setup n.port 0 descs.1 sid) else pure tt
    require env decimal (dev_start n.port)

  unfoldable pub apply_regime : Port → Action Process (Unit {0})
  apply_regime n =
      if n.afxdp_pmd
      then (if n.apply_deferral
          then tell env decimal (defer_sysfs n.ifname 2 200000)
          else tell env decimal (defer_sysfs n.ifname 0 0))
      else pure tt

  -- `left` turns of the loop from turn `i` on.
  unfoldable pub await_link : ℕ → ℕ → ℕ → Action Process (Unit {0})
  await_link zero i port p = (some tt, p)
  await_link (suc left) i port p =
      let up = env.ok (link_up port) p.calls in
      let q = record p { calls = link_up port ∷ p.calls } in
      let kicked = if kicks i then (tell env decimal (set_link_up port) q).1 else q in
      let rest = await_link left (i + 1) port kicked in if up then (some tt, q) else rest

  -- It succeeds whether or not the link came up.
  unfoldable pub wait_link : Action Dpdk (Unit {0})
  unfolding await_link
  wait_link = do port ← member (λ n. n.port); globally (await_link 200 0 port)

  unfoldable pub bring_up : Action Dpdk (Unit {0})
  unfolding memory_socket configure
  bring_up = do
    n ← member (λ n. n)
    port ← globally (require_num env decimal (port_by_name n.pci))
    assign (λ n. record n { port = port })
    capabilities ← globally (require_num env decimal (dev_info port))
    sid ← globally (memory_socket port)
    pool ← globally (ask env decimal (pool_create port sid))
    assign (λ n. record n { has_pool = pool })
    guard pool
    m ← member (λ n. n)
    globally (configure capabilities sid m)
    assign (λ n. record n { started = true })

  unfoldable pub init : Bool → Bool → Bool → Bool → Action Dpdk (Unit {0})
  unfolding prepare eal_init bring_up apply_regime wait_link
  init do_wait bifurcated afxdp_pmd apply_deferral = do
    assign (λ n. record n { apply_deferral = apply_deferral })
    prepare bifurcated afxdp_pmd
    n ← member (λ n. n)
    globally (eal_init env decimal n.pci n.lcore)
    bring_up
    m ← member (λ n. n)
    globally (apply_regime m)
    mac ← globally (ask_num env decimal (mac_addr m.port))
    assign (λ n. record n { mac = mac })
    if do_wait then wait_link else pure tt

  unfoldable pub free_pending : Option ℕ → Action Process (Unit {0})
  free_pending none = pure tt
  free_pending (some mbuf) = tell env decimal (free_mbuf mbuf)

  unfoldable pub stop : Action Dpdk (Unit {0})
  unfolding free_pending has_tx
  stop = do
    n ← member (λ n. n)
    globally (free_pending n.pending_rx)
    assign (λ n. record n { pending_rx = none })
    globally (tell env decimal (dev_stop n.port))
    when (has_tx n.mode)
        (globally (free_pending n.tx_reuse) >> assign (λ n. record n { tx_reuse = none }))
    assign (λ n. record n { started = false })

  unfoldable pub shutdown : Action Dpdk (Unit {0})
  unfolding stop
  shutdown = do started ← member (λ n. n.started); if started then stop else pure tt

-- A move: what the new object takes, and what is left of the old one.
unfoldable pub moved_to : Port → Port
moved_to o = record (new_port o.mode o.ifname o.lcore o.driver) {
  pci = o.pci;
  port = o.port;
  has_pool = o.has_pool;
  mac = o.mac;
  prepared = o.prepared;
  started = o.started;
  bifurcated = o.bifurcated;
  afxdp_pmd = o.afxdp_pmd;
  apply_deferral = o.apply_deferral;
  link_speeds = o.link_speeds;
  symmetric_queues = o.symmetric_queues;
  nb_rx_desc = o.nb_rx_desc;
  devargs = o.devargs;
  tx_reuse = o.tx_reuse;
  tx_reuse_inline = o.tx_reuse_inline;
}

unfoldable pub moved_from : Port → Port
moved_from o = record o {
  ifname = "";
  driver = "";
  pci = "";
  has_pool = false;
  started = false;
  devargs = "";
  tx_reuse = none;
}
