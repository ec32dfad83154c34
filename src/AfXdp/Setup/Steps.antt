-- ===== src/AfXdp/Setup/Steps.antt =====
-- The steps of init that neither obtain nor return anything, and those that obtain.
use Prim.Native.String.{String}
use abtrda.Action.{guard, gets, Keeps, Keeps-bind, Keeps-pure, Keeps-if}
use abtrda.Prelude.{
  ℕ, zero, suc, refl, inl, inr, Bool, true, false, Option, none, List, some, Bool-cases,
}
use abtrda.AfXdp.Setup.{
  XskMode, XskEnv, Xsk, Sys, carrier, wait_carrier, apply_deferral_sysfs, steer_all_traffic,
  set_busy_poll_of, apply_set_sock_opt, enter_xsks_into_map, verify_config,
}
use abtrda.AfXdp.Setup.Life.{put_fill, populate_fill_ring, enter_map}
use abtrda.AfXdp.Setup.Balance.{
  IsSteadyXsk, tell_xsk-Keeps, ask_xsk-Keeps, ask_count-Keeps, ask_id-Keeps, set_xsk-Keeps,
}

pub guard-Keeps : {S : Type 0} (Q : S → Type 0) (b : Bool) → Keeps Q (guard b)
guard-Keeps Q true = record { kept = λ s q. q }
guard-Keeps Q false = record { kept = λ s q. q }

pub gets-Keeps : {S A : Type 0} (Q : S → Type 0) (f : S → A) → Keeps Q (gets f)
gets-Keeps Q f = record { kept = λ s q. q }

module _ (env : XskEnv) (Q : Sys → Type 0) (steady : IsSteadyXsk Q) where
  wait_carrier-kept :
      (left : ℕ) (interface : String) (s : Sys) → Q s → Q (wait_carrier env left interface s).1
  unfolding wait_carrier
  wait_carrier-kept zero interface s q = q
  wait_carrier-kept (suc left) interface s q =
      let asked = steady.call_kept s (carrier interface) refl q in
      elim (Bool-cases (env.ok (carrier interface) s.calls)) [
        | inl e ↦ rw e asked
        | inr e ↦ rw e (wait_carrier-kept left interface _ asked)
      ]

  wait_carrier-Keeps : (left : ℕ) (interface : String) → Keeps Q (wait_carrier env left interface)
  wait_carrier-Keeps left interface = record { kept = wait_carrier-kept left interface }

  ruleset xsk_steps = (
    Keeps-bind, Keeps-if, Keeps-pure, guard-Keeps, gets-Keeps, tell_xsk-Keeps, ask_xsk-Keeps,
    ask_count-Keeps, ask_id-Keeps, set_xsk-Keeps, wait_carrier-Keeps,
  )

  pub apply_deferral_sysfs-Keeps : Keeps Q (apply_deferral_sysfs env)
  unfolding apply_deferral_sysfs
  apply_deferral_sysfs-Keeps = search (xsk_steps, steady) depth 12

  pub steer_all_traffic-Keeps : Keeps Q (steer_all_traffic env)
  unfolding steer_all_traffic
  steer_all_traffic-Keeps = search (xsk_steps, steady) depth 12

  pub apply_set_sock_opt-Keeps : Keeps Q (apply_set_sock_opt env)
  unfolding apply_set_sock_opt
  apply_set_sock_opt-Keeps = search (xsk_steps, steady) depth 12

  enter_xsks_into_map-Keeps : Keeps Q (enter_xsks_into_map env)
  unfolding enter_xsks_into_map
  enter_xsks_into_map-Keeps = search (xsk_steps, steady) depth 12

  set_busy_poll_of-Keeps : (n : Xsk) (id : Option ℕ) → Keeps Q (set_busy_poll_of env n id)
  unfolding set_busy_poll_of
  set_busy_poll_of-Keeps n none = Keeps-pure Q tt
  set_busy_poll_of-Keeps n (some id) = search (xsk_steps, steady) depth 12

  pub verify_config-Keeps : Keeps Q (verify_config env)
  unfolding verify_config
  verify_config-Keeps = search (xsk_steps, steady, set_busy_poll_of-Keeps) depth 14

  module _ (mode : XskMode) (num_rx num_tx frame_size : ℕ) (need_wakeup : Bool) where
    put_fill-Keeps :
        (addrs : Option (List ℕ))
        → Keeps Q (put_fill env mode num_rx num_tx frame_size need_wakeup addrs)
    put_fill-Keeps none = record { kept = λ s q. q }
    put_fill-Keeps (some addrs) = set_xsk-Keeps env Q steady _ λ n. refl

    pub populate_fill_ring-Keeps :
        Keeps Q (populate_fill_ring env mode num_rx num_tx frame_size need_wakeup)
    unfolding populate_fill_ring
    populate_fill_ring-Keeps = search (xsk_steps, put_fill-Keeps) depth 12

    pub enter_map-Keeps : Keeps Q (enter_map env mode num_rx num_tx frame_size need_wakeup)
    unfolding enter_map
    enter_map-Keeps = search (xsk_steps, enter_xsks_into_map-Keeps) depth 12
