-- ===== src/AfXdp/Setup/Reach.antt =====
-- Two socket objects of one process, set up, moved and shut down in any order.
use Prim.Native.String.{String}
use abtrda.Action.{Action, when, pure, Keeps, Keeps-if, Keeps-pure, Gives, Gives-kept, Gives-bind}
use abtrda.Prelude.{
  ℕ, ◌+◌, ◌≡◌, refl, ap, ◌∙◌, Bool, true, false, some, [], arith, if◌then◌else◌, ◌==◌,
}
use abtrda.AfXdp.Setup.{
  XskMode, xsk_has_rx, Resource, frames, umem, program, same, XskEnv, raise_memlock, name_to_index,
  strip_program, Xsk, new_xsk, Sys, set_regime, moved_xsk, XskPair, with_this, this_of,
  turned_round,
}
use abtrda.AfXdp.Setup.Life.{init_found, init_xsk, shutdown_xsk, move_assign}
use abtrda.AfXdp.Setup.Balance.{
  bit, obtained, returned, Balanced, Balanced-steady, tell_xsk-Keeps, ask_count-Keeps,
  set_xsk-Keeps,
}
use abtrda.AfXdp.Setup.Steps.{
  gets-Keeps, apply_deferral_sysfs-Keeps, steer_all_traffic-Keeps, apply_set_sock_opt-Keeps,
  verify_config-Keeps, populate_fill_ring-Keeps, enter_map-Keeps,
}
use abtrda.AfXdp.Setup.Obtain.{without, Lacks, Lacks-steady}
use abtrda.AfXdp.Setup.Ladder.{load_program-Gives, configure_umem-Gives, configure_socket-Gives}
use abtrda.AfXdp.Setup.Shut.{shutdown-Released}

module _ (env : XskEnv) (mode : XskMode) (num_rx num_tx frame_size : ℕ) (need_wakeup : Bool) where
  module _ (k : Resource → ℕ) where
    when-Keeps :
        (Q : Sys → Type 0) (b : Bool) {m : Action Sys (Unit {0})} → Keeps Q m → Keeps Q (when b m)
    when-Keeps Q b h = Keeps-if Q b h (Keeps-pure Q tt)

    loaded-Gives :
        (b : Bool) {m : Action Sys (Unit {0})}
        → Gives (Lacks env k (λ r. true)) m (Lacks env k (without program (λ r. true)))
        → Gives (Lacks env k (λ r. true)) (when b m) (Lacks env k (without program (λ r. true)))
    loaded-Gives true h = h
    loaded-Gives false h = record { given = λ s q a e. (q.0, λ r t. q.1 r refl) }

    init_found-Gives :
        Gives
          (Lacks env k (λ r. true))
          (init_found env mode num_rx num_tx frame_size need_wakeup)
          (Balanced env k)
    unfolding init_found same
    init_found-Gives =
        let empty = Lacks-steady env k (λ r. true) in
        let mapped =
          Lacks-steady env k (without umem (without frames (without program (λ r. true)))) in
        let steady = Balanced-steady env k in
        Gives-bind (Gives-kept (gets-Keeps _ _)) λ n.
          Gives-bind (Gives-kept (tell_xsk-Keeps env _ empty (strip_program n.interface) refl)) λ _.
            Gives-bind (Gives-kept (apply_deferral_sysfs-Keeps env _ empty)) λ _.
              Gives-bind (Gives-kept (when-Keeps _ _ (steer_all_traffic-Keeps env _ empty))) λ _.
                Gives-bind
                  (loaded-Gives (xsk_has_rx mode)
                    (load_program-Gives env k mode num_rx num_tx frame_size need_wakeup))
                  λ _.
                    Gives-bind
                      (configure_umem-Gives env k mode num_rx num_tx frame_size need_wakeup)
                      λ _.
                        Gives-bind
                          (Gives-kept (
                            when-Keeps _ _ (
                              populate_fill_ring-Keeps env _ mapped mode num_rx num_tx frame_size
                                need_wakeup)))
                          λ _.
                            Gives-bind
                              (configure_socket-Gives env k mode num_rx num_tx frame_size
                                need_wakeup _ refl)
                              λ _.
                                Gives-bind (Gives-kept (apply_set_sock_opt-Keeps env _ steady)) λ _.
                                  Gives-bind
                                    (Gives-kept (
                                      when-Keeps _ _ (
                                        enter_map-Keeps env _ steady mode num_rx num_tx frame_size
                                          need_wakeup)))
                                    λ _.
                                      Gives-bind (Gives-kept (verify_config-Keeps env _ steady))
                                        λ _. Gives-kept (Keeps-pure _ true)

    set_regime-holds : (d i : Bool) (n : Xsk) → (set_regime d i n).holds ≡ n.holds
    unfolding set_regime
    set_regime-holds d true n = refl
    set_regime-holds true false n = refl
    set_regime-holds false false n = refl

    found-Gives :
        (b : Bool) {m : Action Sys Bool}
        → Gives (Lacks env k (λ r. true)) m (Balanced env k)
        → Gives (Lacks env k (λ r. true)) (if b then pure false else m) (Balanced env k)
    found-Gives true h = record { given = λ s q a e. q.0 }
    found-Gives false h = h

    init_xsk-Gives :
        (d i : Bool)
        → Gives
            (Lacks env k (λ r. true))
            (init_xsk env mode num_rx num_tx frame_size need_wakeup d i)
            (Balanced env k)
    unfolding init_xsk
    init_xsk-Gives d i =
        let empty = Lacks-steady env k (λ r. true) in
        Gives-bind (Gives-kept (set_xsk-Keeps env _ empty _ (set_regime-holds d i))) λ _.
          Gives-bind (Gives-kept (tell_xsk-Keeps env _ empty raise_memlock refl)) λ _.
            Gives-bind (Gives-kept (gets-Keeps _ _)) λ n.
              Gives-bind (Gives-kept (ask_count-Keeps env _ empty (name_to_index n.interface) refl))
                λ index.
                  Gives-bind (Gives-kept (set_xsk-Keeps env _ empty _ λ n. refl))
                    λ _. found-Gives (index == 0) init_found-Gives

  -- The pairs that set-ups of objects that hold nothing, shutdowns and moves lead to, as long as the process
  -- does not abort.
  pub data XskReach : XskPair → Type 0 where
    starts :
        (interface path other other_path : String) (queue_id other_queue : ℕ)
        → XskReach (record {
          this_xsk = new_xsk interface queue_id path;
          that_xsk = new_xsk other other_queue other_path;
          made = [];
        })
    inits :
        {p : XskPair} (enable_deferral enable_irq_suspend found : Bool)
        → XskReach p
        → ((r : Resource) → p.this_xsk.holds r ≡ false)
        → (init_xsk env mode num_rx num_tx frame_size need_wakeup enable_deferral enable_irq_suspend
            (this_of p)).0
          ≡ some found
        → XskReach (
            with_this p
              (init_xsk env mode num_rx num_tx frame_size need_wakeup enable_deferral
                enable_irq_suspend
                (this_of p)).1)
    shuts :
        {p : XskPair}
        → XskReach p
        → XskReach
            (with_this p (shutdown_xsk env mode num_rx num_tx frame_size need_wakeup (this_of p)).1)
    moves :
        {p : XskPair}
        → XskReach p
        → XskReach (move_assign env mode num_rx num_tx frame_size need_wakeup p)
    turns : {p : XskPair} → XskReach p → XskReach (turned_round p)

  abbrev Even : XskPair → Type 0
  Even p =
      (r : Resource)
      → obtained env r p.made
        ≡ returned r p.made + (bit (p.this_xsk.holds r) + bit (p.that_xsk.holds r))

  moved-Even :
      (p : XskPair) → Even p → Even (move_assign env mode num_rx num_tx frame_size need_wakeup p)
  unfolding move_assign moved_xsk
  moved-Even p q r =
      let k = λ (t : Resource). bit (p.that_xsk.holds t) in
      let s = (shutdown_xsk env mode num_rx num_tx frame_size need_wakeup (this_of p)).1 in
      let v = shutdown-Released env k mode num_rx num_tx frame_size need_wakeup (this_of p) q in
      let w = v.0 r ∙ ap (λ x. returned r s.calls + (bit x + k r)) (v.1 r) in omega (arith, w)

  -- In any order of set-ups of an object that holds nothing, shutdowns and moves between two objects, as
  -- long as the process does not abort (a set-up of an object that still holds something is not among
  -- them): of each kind (frame memory, umem, socket, program), as many were obtained as were returned and are held
  -- by the two objects together, so that a move or a failed step loses none and none is returned twice.
  pub XskReach-balanced :
      (p : XskPair)
      → XskReach p
      → (r : Resource)
      → obtained env r p.made
        ≡ returned r p.made + (bit (p.this_xsk.holds r) + bit (p.that_xsk.holds r))
  XskReach-balanced p (starts i path o op q oq) r = refl
  XskReach-balanced p (inits {p = o} d i found h e t) r =
      (init_xsk-Gives (λ r. bit (o.that_xsk.holds r)) d i).given (this_of o)
        (XskReach-balanced o h, λ r _. e r) found t r
  XskReach-balanced p (shuts {p = o} h) r =
      (shutdown-Released env (λ r. bit (o.that_xsk.holds r)) mode num_rx num_tx frame_size
          need_wakeup (this_of o) (XskReach-balanced o h)).0
        r
  XskReach-balanced p (moves {p = o} h) r = moved-Even o (XskReach-balanced o h) r
  XskReach-balanced p (turns {p = o} h) r = omega (arith, XskReach-balanced o h r)
