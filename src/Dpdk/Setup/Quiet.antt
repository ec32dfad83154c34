-- ===== src/Dpdk/Setup/Quiet.antt =====
-- What the steps of a port's set-up keep when they do not offer a device or start DPDK.
use Prim.Native.String.{String}
use abtrda.Action.{Action, Keeps, Keeps-bind, Keeps-pure}
use abtrda.Prelude.{
  ℕ, zero, suc, ◌+◌, ◌≡◌, refl, inl, inr, Option, none, some, if◌then◌else◌, Bool-cases,
}
use abtrda.Dpdk.Eal.{Env, Process, tell, socket_id, own_socket, link_up, set_link_up, free_mbuf}
use abtrda.Dpdk.Eal.Once.{called, IsQuiet, tell-Keeps, quiet_steps}
use abtrda.Dpdk.Setup.{
  Port, Dpdk, globally, assign, member, kicks, memory_socket, configure, apply_regime, await_link,
  wait_link, bring_up, free_pending,
}

module _ (env : Env) (decimal : ℕ → String) (P : Process → Type 0) (quiet : IsQuiet P) where
  pub memory_socket-Keeps : (port : ℕ) → Keeps P (memory_socket env decimal port)
  unfolding memory_socket
  memory_socket-Keeps port = record {
    kept = λ p h. elim (Bool-cases (env.ok (socket_id port) p.calls)) [
      | inl e ↦ rw e (quiet (socket_id port) p refl h)
      | inr e ↦
          rw e (quiet own_socket (called (socket_id port) p) refl (quiet (socket_id port) p refl h))
    ];
  }

  pub configure-Keeps :
      (capabilities sid : ℕ) (n : Port) → Keeps P (configure env decimal capabilities sid n)
  unfolding configure
  configure-Keeps capabilities sid n = search (quiet_steps) depth 20

  pub apply_regime-Keeps : (n : Port) → Keeps P (apply_regime env decimal n)
  unfolding apply_regime
  apply_regime-Keeps n = search (quiet_steps) depth 8

  pub await_link-kept :
      (left i port : ℕ) (p : Process) → P p → P (await_link env decimal left i port p).1
  unfolding await_link
  await_link-kept zero i port p h = h
  await_link-kept (suc left) i port p h =
      let q = called (link_up port) p in
      let asked = quiet (link_up port) p refl h in
      let kicked : P (if kicks i then (tell env decimal (set_link_up port) q).1 else q) =
        elim (Bool-cases (kicks i)) [
          | inl e ↦ rw e ((tell-Keeps env decimal P quiet (set_link_up port) refl).kept q asked)
          | inr e ↦ rw e asked
        ] in
      elim (Bool-cases (env.ok (link_up port) p.calls)) [
        | inl e ↦ rw e asked
        | inr e ↦ rw e (await_link-kept left (i + 1) port _ kicked)
      ]

  pub free_pending-Keeps : (mbuf : Option ℕ) → Keeps P (free_pending env decimal mbuf)
  unfolding free_pending
  free_pending-Keeps none = Keeps-pure P tt
  free_pending-Keeps (some mbuf) = tell-Keeps env decimal P quiet (free_mbuf mbuf) refl

-- An assignment that leaves what was offered to DPDK.
abbrev pub Leaves : (Port → Port) → Type 0
Leaves f = (n : Port) → ((f n).pci ≡ n.pci) × ((f n).prepared ≡ n.prepared)

-- What neither a call other than rte_eal_init nor such an assignment touches.
pub record IsSteady (Q : Dpdk → Type 0) : Type 0 where
  pub calls_kept : (d : Dpdk) → IsQuiet (λ p. Q (record d { process = p }))
  pub nic_kept : (f : Port → Port) → Leaves f → (d : Dpdk) → Q d → Q (record d { nic = f d.nic })

module _ (Q : Dpdk → Type 0) where
  pub globally-Keeps :
      {A : Type 0} {m : Action Process A}
      → ((d : Dpdk) → Keeps (λ p. Q (record d { process = p })) m)
      → Keeps Q (globally m)
  globally-Keeps h = record { kept = λ d q. (h d).kept d.process q }

  pub member-Keeps : {A : Type 0} (f : Port → A) → Keeps Q (member f)
  member-Keeps f = record { kept = λ d q. q }

  pub assign-Keeps : IsSteady Q → (f : Port → Port) → Leaves f → Keeps Q (assign f)
  assign-Keeps steady f l = record { kept = λ d q. steady.nic_kept f l d q }

module _ (env : Env) (decimal : ℕ → String) (Q : Dpdk → Type 0) (steady : IsSteady Q) where
  pub wait_link-Keeps : Keeps Q (wait_link env decimal)
  unfolding wait_link
  wait_link-Keeps = Keeps-bind Q (member-Keeps Q (λ n. n.port)) λ port.
      globally-Keeps Q
        λ d. record { kept = await_link-kept env decimal _ (steady.calls_kept d) 200 0 port }

  pub bring_up-Keeps : Keeps Q (bring_up env decimal)
  unfolding bring_up
  bring_up-Keeps =
      search
        (
          Keeps-bind, member-Keeps, assign-Keeps, globally-Keeps, quiet_steps, memory_socket-Keeps,
          configure-Keeps, steady.calls_kept,
        )
        depth 20
