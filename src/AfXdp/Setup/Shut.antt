-- ===== src/AfXdp/Setup/Shut.antt =====
-- The shutdown returns what the object holds, and nothing else.
use abtrda.Action.{
  Gives-then, Action, when, pure, Gives, Gives-kept, Gives-bind, Gives-each, Succeeds,
  Succeeds-bind, Succeeds-if, Succeeds-value,
}
use mathlib.Core.Option.{some-injective}
use abtrda.Prelude.{
  ℕ, ◌≡◌, refl, ap, ◌∙◌, subst, inl, inr, Bool, true, false, none, some, ◌∷◌, if◌then◌else◌,
  Bool-cases, ltb,
}
use abtrda.AfXdp.Setup.{
  XskMode, Resource, frames, umem, socket, program, same, XskCall, delete_socket, delete_umem,
  unmap_frames, detach_program, close_program, strip_native, strip_generic, XskEnv, Xsk, hold, Sys,
  set_xsk, tell_xsk, get_xsk, give_back,
}
use abtrda.AfXdp.Setup.Life.{drop_socket, drop_program, strip_interface, shutdown_xsk}
use abtrda.AfXdp.Setup.Balance.{
  gives, effect, Balanced, Balanced-steady, give-Balanced, IsSteadyXsk, tell_xsk-Keeps,
  set_xsk-Keeps, same-eq,
}

-- What is held once `q` is not.
abbrev dropped : Resource → (Resource → Bool) → Resource → Bool
dropped q m r = if same q r then false else m r

module _ (env : XskEnv) (k : Resource → ℕ) where
  abbrev Holding : (Resource → Bool) → Sys → Type 0
  Holding m s = Balanced env k s × ((r : Resource) → s.xsk.holds r ≡ m r)

  Holding-steady : (m : Resource → Bool) → IsSteadyXsk (Holding m)
  Holding-steady m = record {
    call_kept = λ s c e q. ((Balanced-steady env k).call_kept s c e q.0, q.1);
    set_kept = λ f h s q.
        ((Balanced-steady env k).set_kept f h s q.0, λ r. ap (λ x. x r) (h s.xsk) ∙ q.1 r);
  }

  given_back-Holding :
      (q : Resource) (c : XskCall) (m : Resource → Bool)
      → effect c ≡ gives q
      → m q ≡ true
      → Gives (Holding m) (give_back env q c) (Holding (dropped q m))
  given_back-Holding q c m e t = record {
    given = λ s h a o. (
      give-Balanced env k q c s e (h.1 q ∙ t) h.0,
      λ r. ap (λ x. if same q r then false else x) (h.1 r),
    );
  }

  skipped-Holding :
      (q : Resource) (m : Resource → Bool) (s : Sys)
      → m q ≡ false
      → Holding m s
      → Holding (dropped q m) s
  skipped-Holding q m s f h = (
    h.0,
    λ r. elim (Bool-cases (same q r)) [
      | inl t ↦ rw t (h.1 r ∙ subst (λ x. m x ≡ false) (same-eq q r t) f)
      | inr t ↦ rw t (h.1 r)
    ],
  )

  when-Holding :
      (q : Resource) (b : Bool) (m : Resource → Bool) {act : Action Sys (Unit {0})}
      → m q ≡ b
      → (m q ≡ true → Gives (Holding m) act (Holding (dropped q m)))
      → Gives (Holding m) (when b act) (Holding (dropped q m))
  when-Holding q true m e h = h e
  when-Holding q false m e h = record { given = λ s p a t. skipped-Holding q m s e p }

  module _ (mode : XskMode) (num_rx num_tx frame_size : ℕ) (need_wakeup : Bool) where
    drop_socket-Holding :
        (m : Resource → Bool)
        → m socket ≡ true
        → Gives
            (Holding m)
            (drop_socket env mode num_rx num_tx frame_size need_wakeup)
            (Holding (dropped socket m))
    unfolding drop_socket
    drop_socket-Holding m t = Gives-bind (given_back-Holding socket delete_socket m refl t) λ _.
        Gives-kept (
          set_xsk-Keeps env _ (Holding-steady (dropped socket m)) (λ n. record n { fd = none })
            λ n. refl)

    drop_program-Holding :
        (m : Resource → Bool) (index : ℕ)
        → m program ≡ true
        → Gives
            (Holding m)
            (drop_program env mode num_rx num_tx frame_size need_wakeup index)
            (Holding (dropped program m))
    unfolding drop_program
    drop_program-Holding m index t =
        Gives-bind
          (Gives-kept (tell_xsk-Keeps env _ (Holding-steady m) (detach_program index) refl))
          λ _. given_back-Holding program close_program m refl t

    strip_interface-Keeps :
        (Q : Sys → Type 0)
        → IsSteadyXsk Q
        → (index : ℕ)
        → Gives Q (strip_interface env mode num_rx num_tx frame_size need_wakeup index) Q
    unfolding strip_interface
    strip_interface-Keeps Q steady index =
        Gives-bind (Gives-kept (tell_xsk-Keeps env Q steady (strip_native index) refl)) λ _.
          Gives-bind (Gives-kept (tell_xsk-Keeps env Q steady (strip_generic index) refl))
            λ _. Gives-kept (set_xsk-Keeps env Q steady _ λ n. refl)

    -- Nothing is held.
    abbrev pub Released : Sys → Type 0
    Released s = Balanced env k s × ((r : Resource) → s.xsk.holds r ≡ false)

    all_dropped :
        (m : Resource → Bool) (r : Resource)
        → dropped program (dropped frames (dropped umem (dropped socket m))) r ≡ false
    unfolding same
    all_dropped m frames = refl
    all_dropped m umem = refl
    all_dropped m socket = refl
    all_dropped m program = refl

    when-Gives :
        {Q : Sys → Type 0} (b : Bool) {act : Action Sys (Unit {0})}
        → Gives Q act Q
        → Gives Q (when b act) Q
    when-Gives true h = h
    when-Gives false h = record { given = λ s p a e. p }

    read-Holding :
        (s : Sys)
        → Balanced env k s
        → (n : Xsk) → (get_xsk (λ n. n) s).0 ≡ some n
        → Holding n.holds s
    read-Holding s b n e = (b, λ r. ap (λ x. x.holds r) (some-injective s.xsk n e))

    pub shutdown-Gives :
        Gives (Balanced env k) (shutdown_xsk env mode num_rx num_tx frame_size need_wakeup) Released
    unfolding shutdown_xsk same
    shutdown-Gives =
        Gives-each (λ (n : Xsk). Holding n.holds) read-Holding
          λ n.
            Gives-bind (when-Holding socket (n.holds socket) _ refl λ t. drop_socket-Holding _ t)
              λ _.
                Gives-bind
                  (when-Holding umem (n.holds umem) _ refl
                    λ t. given_back-Holding umem delete_umem _ refl t)
                  λ _.
                    Gives-bind
                      (when-Holding frames (n.holds frames) _ refl
                        λ t. given_back-Holding frames (unmap_frames _) _ refl t)
                      λ _.
                        Gives-bind
                          (when-Holding program (n.holds program) _ refl
                            λ t. drop_program-Holding _ n.ifindex t)
                          λ _.
                            Gives-then (λ s h. (h.0, λ r. h.1 r ∙ all_dropped n.holds r))
                              (when-Gives (ltb 0 n.ifindex)
                                (strip_interface-Keeps _ (Holding-steady _) n.ifindex))

    told : (c : XskCall) → Succeeds (tell_xsk env c)
    told c = Succeeds-value (λ s. tt) (λ s. record s { calls = c ∷ s.calls })

    given_back : (q : Resource) (c : XskCall) → Succeeds (give_back env q c)
    given_back q c =
        Succeeds-value (λ s. tt) (λ s. record { xsk = hold q false s.xsk; calls = c ∷ s.calls })

    put : (f : Xsk → Xsk) → Succeeds (set_xsk f)
    put f = Succeeds-value (λ s. tt) (λ s. record s { xsk = f s.xsk })

    got : {A : Type 0} (f : Xsk → A) → Succeeds (get_xsk f)
    got f = Succeeds-value (λ s. f s.xsk) (λ s. s)

    nothing_done : Succeeds {S = Sys} (pure tt)
    nothing_done = Succeeds-value (λ s. tt) (λ s. s)

    shutdown-Succeeds : Succeeds (shutdown_xsk env mode num_rx num_tx frame_size need_wakeup)
    unfolding shutdown_xsk drop_socket drop_program strip_interface
    shutdown-Succeeds =
        search (Succeeds-bind, Succeeds-if, nothing_done, told, given_back, put, got) depth 20

    -- After a shutdown nothing is held.
    pub shutdown-Released :
        (s : Sys)
        → Balanced env k s
        → Released (shutdown_xsk env mode num_rx num_tx frame_size need_wakeup s).1
    shutdown-Released s b = let v = shutdown-Succeeds.value s in shutdown-Gives.given s b v.0 v.1
