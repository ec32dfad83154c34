-- ===== src/EtherFabric/Window.antt =====
-- The frames in flight on the transmit path of
-- src/backends/EtherFabricVirtualInterface/EtherFabricVirtualInterface.hpp that goes through the library.
use mathlib.Core.Option.{some-injective}
use abtrda.Prelude.{
  ℕ, ◌+◌, ◌-◌, ◌^◌, ◌≤◌, ◌<◌, ◌≡◌, subst, inl, inr, true, false, ◌&&◌, Option, none, some, List, [],
  ◌∷◌, arith, ltb, leb, if◌then◌else◌, Bool-cases,
}
use abtrda.EtherFabric.Events.{EfEvent}
use abtrda.EtherFabric.Accounting.{
  sent_by, failed_by, total, at_hand, Words, Counted-Words, poll_event-AllCounted,
}
use abtrda.EtherFabric.Send.{
  EfPort, EfSender, Answer, in_flight, take_tx_slot, poll_tx, acquire_lib, ef_acquire, commit_x2522,
  commit_lib, ef_commit, took, try_again, refused,
}

-- The frames that a poll would find completed or failed.
abbrev pub done_by : EfPort → Option (List EfEvent) → EfSender → ℕ
done_by p polled s =
    let es = at_hand polled s.state in
    total (sent_by (p.config.hw_timestamps && p.config.has_tx)) es + total failed_by es

-- The adapter reports only frames that are in flight.
abbrev pub Honest : EfPort → Option (List EfEvent) → EfSender → Type 0
Honest p polled s = done_by p polled s ≤ in_flight s

abbrev pub HonestTurns : EfPort → List (Answer × Option (List EfEvent)) → EfSender → Type 0
HonestTurns p [] s = Unit {0}
HonestTurns p ((took, polled) ∷ rest) s = Unit {0}
HonestTurns p ((try_again, polled) ∷ rest) s =
    Honest p polled s × HonestTurns p rest (poll_tx p polled s)
HonestTurns p ((refused, polled) ∷ rest) s = Unit {0}

-- The senders that a run of calls can lead to: sends that find room and end, calls that find none, and
-- polls.
pub data SendReach (p : EfPort) : EfSender → Type 0 where
  fresh : (s : EfSender) → Words s.state → s.tx_head ≡ s.state.tx.stamps.tx_tail → SendReach p s
  sends :
      (polled : Option (List EfEvent)) (frame_len dst : ℕ)
      (turns : List (Answer × Option (List EfEvent))) (mem : List ℕ) (s t : EfSender)
      → SendReach p s
      → Honest p polled s
      → (ef_acquire p polled frame_len s).0 ≡ some dst
      → HonestTurns p turns (ef_acquire p polled frame_len s).1
      → ef_commit p turns mem (ef_acquire p polled frame_len s).1 ≡ some t
      → SendReach p t
  finds_none :
      (polled : Option (List EfEvent)) (frame_len : ℕ) (s : EfSender)
      → SendReach p s
      → Honest p polled s
      → (ef_acquire p polled frame_len s).0 ≡ none
      → SendReach p (ef_acquire p polled frame_len s).1
  polled_once :
      (polled : Option (List EfEvent)) (s : EfSender)
      → SendReach p s
      → Honest p polled s
      → SendReach p (poll_tx p polled s)

module _ (p : EfPort) (lib : p.config.x2522 ≡ false) (found : p.config.payload_poll ≡ true)
    (nb_pos : 0 < p.config.nb_tx_bufs) (nb_word : p.config.nb_tx_bufs < 2 ^ 32) where
  abbrev Fine : ℕ → EfSender → Type 0
  Fine n s = Words s.state × (s.tx_head < 2 ^ 32) × (in_flight s ≤ n)

  poll_tx-Fine :
      (polled : Option (List EfEvent)) (n : ℕ) (s : EfSender)
      → Honest p polled s
      → Fine n s
      → Fine n (poll_tx p polled s)
  unfolding poll_tx
  poll_tx-Fine polled n s o h =
      let c = (poll_event-AllCounted p.config found 0 false polled s.state h.0).2 in
      (
        Counted-Words p.config found s.state (poll_tx p polled s).state _ _ _ _ _ h.0 c,
        h.1,
        omega (arith, c.0, o, h.2, h.0.0),
      )

  take_tx_slot-Fine :
      (n frame_len : ℕ) (s : EfSender) → Fine n s → Fine n (take_tx_slot p frame_len s).1
  unfolding take_tx_slot
  take_tx_slot-Fine n frame_len s h = h

  -- Room is given only below the size of the ring.
  abbrev Room : Option ℕ × EfSender → Type 0
  Room (none, s) = Fine p.config.nb_tx_bufs s
  Room (some dst, s) = Fine (p.config.nb_tx_bufs - 1) s

  ef_acquire-Room :
      (polled : Option (List EfEvent)) (frame_len : ℕ) (s : EfSender)
      → Honest p polled s
      → Fine p.config.nb_tx_bufs s
      → Room (ef_acquire p polled frame_len s)
  unfolding ef_acquire acquire_lib take_tx_slot
  ef_acquire-Room polled frame_len s o h =
      let t = poll_tx p polled s in
      let k = poll_tx-Fine polled p.config.nb_tx_bufs s o h in
      let nb = p.config.nb_tx_bufs in
      rw lib (elim (Bool-cases (ltb p.buf_size frame_len)) [
        | inl e ↦ rw e h
        | inr e ↦ rw e (elim (Bool-cases (leb nb (in_flight s))) [
          | inl f ↦ rw f (elim (Bool-cases (leb nb (in_flight t))) [
            | inl g ↦ rw g k
            | inr g ↦ rw g (k.0, k.1, ground (arith, g))
          ])
          | inr f ↦ rw f (h.0, h.1, ground (arith, f))
        ])
      ])

  commit_lib-Fine :
      (turns : List (Answer × Option (List EfEvent))) (s t : EfSender)
      → HonestTurns p turns s
      → 0 < p.config.nb_tx_bufs
      → Fine (p.config.nb_tx_bufs - 1) s
      → commit_lib p turns s ≡ some t
      → Fine p.config.nb_tx_bufs t
  unfolding commit_lib
  commit_lib-Fine [] s t o z h e = absurd (ground (arith, e))
  commit_lib-Fine ((took, polled) ∷ rest) s t o z h e =
      subst (Fine p.config.nb_tx_bufs) (some-injective _ _ e)
        (h.0, omega arith, omega (arith, h.1, h.2, h.0.0))
  commit_lib-Fine ((try_again, polled) ∷ rest) s t o z h e =
      commit_lib-Fine rest (poll_tx p polled s) t o.1 z (poll_tx-Fine polled _ s o.0 h) e
  commit_lib-Fine ((refused, polled) ∷ rest) s t o z h e =
      subst (Fine p.config.nb_tx_bufs) (some-injective _ _ e)
        ((h.0.0, omega arith, h.0.2, h.0.3, h.0.4), h.1, omega (arith, h.2))

  after_acquire :
      (o : Option ℕ) (s : EfSender)
      → Room (o, s)
      → ((dst : ℕ) → o ≡ some dst → Fine (p.config.nb_tx_bufs - 1) s)
        × (o ≡ none → Fine p.config.nb_tx_bufs s)
  after_acquire none s h = (λ dst e. absurd (ground (arith, e)), λ e. h)
  after_acquire (some d) s h = (λ dst e. h, λ e. absurd (ground (arith, e)))

  reach-Fine : (s : EfSender) → SendReach p s → Fine p.config.nb_tx_bufs s
  unfolding ef_commit
  reach-Fine _ (fresh s w e) = (w, omega (arith, w.0), omega (arith, w.0))
  reach-Fine _ (sends polled frame_len dst turns mem s t r o a ot e) =
      let room = ef_acquire-Room polled frame_len s o (reach-Fine s r) in
      let acquired = ef_acquire p polled frame_len s in
      commit_lib-Fine turns acquired.1 t ot nb_pos
        ((after_acquire acquired.0 acquired.1 room).0 dst a)
        (subst
          (λ b.
            (if b then commit_x2522 p mem acquired.1 else commit_lib p turns acquired.1) ≡ some t)
          lib e)
  reach-Fine _ (finds_none polled frame_len s r o e) =
      let acquired = ef_acquire p polled frame_len s in
      (after_acquire acquired.0 acquired.1
          (ef_acquire-Room polled frame_len s o (reach-Fine s r))).1
        e
  reach-Fine _ (polled_once polled s r o) =
      poll_tx-Fine polled p.config.nb_tx_bufs s o (reach-Fine s r)

  -- On the library's path, with frames found by looking at the buffers and an adapter that reports only
  -- frames in flight: in every run of sends, refused sends and polls, the frames in flight are at most
  -- the slots of the ring.
  pub SendReach-window : (s : EfSender) → SendReach p s → in_flight s ≤ p.config.nb_tx_bufs
  SendReach-window s r = (reach-Fine s r).2
