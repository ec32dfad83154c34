-- ===== src/AfXdp/Setup/Ladder.antt =====
-- The frame memory, its registration and the bind ladder of init.
use abtrda.Action.{Action, Gives, Gives-kept, Gives-bind, Gives-each}
use mathlib.Core.Option.{some-injective}
use abtrda.Prelude.{
  ℕ, ◌≡◌, refl, inl, inr, Bool, true, false, some, List, [], ◌∷◌, if◌then◌else◌, Bool-cases,
}
use abtrda.AfXdp.Setup.{
  XskMode, BindMode, zero_copied, native_copy, generic, is_copy, Resource, frames, umem, socket,
  program, same, XskCall, map_frames, create_umem, create_socket, socket_fd, XskEnv, Sys, set_xsk,
  acquire,
}
use abtrda.AfXdp.Setup.Life.{configure_umem, climb, configure_socket, load_program}
use abtrda.AfXdp.Setup.Balance.{
  takes, effect, Balanced, Balanced-steady, ask_count-Keeps, set_xsk-Keeps,
}
use abtrda.AfXdp.Setup.Steps.{guard-Keeps, gets-Keeps}
use abtrda.AfXdp.Setup.Obtain.{
  without, Lacks, Lacks-steady, acquire-Lacks, acquire-Gives, maybe_loaded-Gives,
}

module _ (env : XskEnv) (k : Resource → ℕ) where
  -- After a rung of the ladder.
  Tried : (Resource → Bool) → Bool → Sys → Type 0
  Tried l true s = Balanced env k s
  Tried l false s = Lacks env k l s

  rung-Gives :
      (c : XskCall) (l : Resource → Bool)
      → effect c ≡ takes socket
      → l socket ≡ true
      → (s : Sys) → Lacks env k l s
      → (b : Bool) → (acquire env socket c s).0 ≡ some b
      → Tried l b (acquire env socket c s).1
  unfolding same Tried
  rung-Gives c l e m s h true t = (acquire-Lacks env k socket c l e m s h).0
  rung-Gives c l e m s h false t = (
    (acquire-Lacks env k socket c l e m s h).0,
    λ r p. elim (Bool-cases (same socket r)) [
      | inl w ↦ rw w (some-injective _ _ t)
      | inr w ↦ rw w (h.1 r p)
    ],
  )

  module _ (mode : XskMode) (num_rx num_tx frame_size : ℕ) (need_wakeup : Bool) where
    pub load_program-Gives :
        Gives
          (Lacks env k (λ r. true))
          (load_program env mode num_rx num_tx frame_size need_wakeup)
          (Lacks env k (without program (λ r. true)))
    unfolding load_program
    load_program-Gives = Gives-bind (Gives-kept (gets-Keeps _ _)) λ n. maybe_loaded-Gives env k _

    pub configure_umem-Gives :
        Gives
          (Lacks env k (without program (λ r. true)))
          (configure_umem env mode num_rx num_tx frame_size need_wakeup)
          (Lacks env k (without umem (without frames (without program (λ r. true)))))
    unfolding configure_umem same
    configure_umem-Gives =
        Gives-bind (acquire-Gives env k frames (map_frames _) _ refl refl) λ mapped.
          Gives-bind (Gives-kept (guard-Keeps _ mapped)) λ _.
            Gives-bind (acquire-Gives env k umem (create_umem _ _ _ _) _ refl refl)
              λ created. Gives-kept (guard-Keeps _ created)

    rung_if-Gives :
        (l : Resource → Bool) (accepted : Bool) (m : BindMode) {rest : Action Sys (Unit {0})}
        → Gives (Lacks env k l) rest (Balanced env k)
        → Gives
            (Tried l accepted)
            (if accepted
              then set_xsk (λ n. record n { bind_mode = m; copy_mode = is_copy m })
              else rest)
            (Balanced env k)
    unfolding Tried
    rung_if-Gives l true m h = record {
      given = λ s q a e.
          (Balanced-steady env k).set_kept (λ n. record n { bind_mode = m; copy_mode = is_copy m })
            (λ n. refl) s q;
    }
    rung_if-Gives l false m h = h

    climb-Gives :
        (l : Resource → Bool)
        → l socket ≡ true
        → (ms : List BindMode)
        → Gives
            (Lacks env k l)
            (climb env mode num_rx num_tx frame_size need_wakeup ms)
            (Balanced env k)
    unfolding climb
    climb-Gives l e [] = record { given = λ s q a t. q.0 }
    climb-Gives l e (m ∷ ms) = Gives-bind (Gives-kept (gets-Keeps _ _)) λ n.
        Gives-each (Tried l) (rung-Gives (create_socket _ _ _ _ _ _ _) l refl e)
          λ accepted. rung_if-Gives l accepted m (climb-Gives l e ms)

    pub configure_socket-Gives :
        (l : Resource → Bool)
        → l socket ≡ true
        → Gives
            (Lacks env k l)
            (configure_socket env mode num_rx num_tx frame_size need_wakeup)
            (Balanced env k)
    unfolding configure_socket
    configure_socket-Gives l e =
        Gives-bind (Gives-kept (set_xsk-Keeps env _ (Lacks-steady env k l) _ λ n. refl)) λ _.
          Gives-bind (climb-Gives l e (zero_copied ∷ native_copy ∷ generic ∷ [])) λ _.
            Gives-bind (Gives-kept (gets-Keeps _ _)) λ bound.
              Gives-bind (Gives-kept (guard-Keeps _ bound)) λ _.
                Gives-bind
                  (Gives-kept (ask_count-Keeps env _ (Balanced-steady env k) socket_fd refl))
                  λ fd. Gives-kept (set_xsk-Keeps env _ (Balanced-steady env k) _ λ n. refl)
