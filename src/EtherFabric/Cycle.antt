-- ===== src/EtherFabric/Cycle.antt =====
-- Buffers go round: on the tuned path, what is given back to the library is what was received and released,
-- in order.
use Prim.Native.Nat.{◌∣◌}
use mathlib.Core.Option.{some-injective}
use native.Mathlib.Nat.{zero-mod, mod-mod_of_dvd, mod-add-mod}
use abtrda.Prelude.{
  ℕ, zero, suc, ◌+◌, ◌-◌, ◌*◌, ◌%◌, ◌^◌, ◌≤◌, ◌<◌, ◌≡◌, refl, sym, ap, ap₂, ◌∙◌, subst, Bool, true,
  false, Option, some, List, [], ◌∷◌, ◌++◌, arith, ◌==◌, if◌then◌else◌, u32, sub32, >>=-eq-some,
}
use abtrda.Bytes.{memcpy}
use abtrda.Ring.{bump}
use abtrda.EtherFabric.Events.{EfConfig, EfEvent, EfRx, EfState, receive_init, poll_event}
use abtrda.EtherFabric.Accounting.{RxKept, Words, Counted-Words, poll_event-AllCounted}
use abtrda.EtherFabric.Receive.{
  marker_seen, marker_spins, repost, repost_released, take_due, receive_idle, ef_try_receive,
  give_back, ef_release,
}

-- The buffers of the first `k` frames of a ring of `nb`.
abbrev pub upto : ℕ → ℕ → List ℕ
upto nb zero = []
upto nb (suc k) = upto nb k ++ ((k % nb) ∷ [])

-- Runs of the receiver, with the frames found, released and given back so far, and whether a frame is held. A
-- frame is only found in a buffer that the library has: `nb_rx_bufs` of them at first, and one more
-- for each that was given back.
pub data RxReach (c : EfConfig) : EfState → Bool → ℕ → ℕ → ℕ → Type 0 where
  rx_fresh :
      (s : EfState)
      → Words s
      → s.rx.rx_next_idx ≡ 0
      → s.rx.rx_released ≡ 0
      → s.rx.rx_reposted ≡ 0
      → s.rx.receive_inits ≡ []
      → RxReach c s false 0 0 0
  finds :
      (rx_prefix buf_size : ℕ) (marker stamp_in : ℕ → ℕ) (polled : Option (List EfEvent))
      (s : EfState) (n h k : ℕ)
      → RxReach c s false n h k
      → n < c.nb_rx_bufs + k
      → marker_seen (marker_spins c) 0 marker ≡ true
      → RxReach c (ef_try_receive c rx_prefix buf_size marker stamp_in polled s).1 true (suc n) h k
  idles :
      (rx_prefix buf_size : ℕ) (marker stamp_in : ℕ → ℕ) (polled : Option (List EfEvent))
      (s : EfState) (n h k : ℕ)
      → RxReach c s false n h k
      → marker_seen (marker_spins c) 0 marker ≡ false
      → RxReach c (ef_try_receive c rx_prefix buf_size marker stamp_in polled s).1 false n h h
  releases :
      (rx_prefix buf_size : ℕ) (mem after : List ℕ) (r : EfRx) (s : EfState) (n h k : ℕ)
      → RxReach c s true n h k
      → ef_release c rx_prefix buf_size (mem, s.rx) ≡ some (after, r)
      → RxReach c (record s { rx = r }) false n (suc h) k

repost-counts :
    (nb d : ℕ) (r : EfRx)
    → ((repost nb d r).rx_ev_reconciled ≡ r.rx_ev_reconciled)
      × ((repost nb d r).rx_discards ≡ r.rx_discards)
unfolding repost receive_init
repost-counts nb zero r = (refl, refl)
repost-counts nb (suc d) r = ground (
  arith,
  repost-counts nb d
      (receive_init (r.rx_reposted % nb) (record r { rx_reposted = u32 (r.rx_reposted + 1) })),
)

module _ (nb : ℕ) (nb_pos : 0 < nb) (nb_dvd : nb ∣ 2 ^ 32) where
  -- What a run has made of the buffers.
  abbrev pub Turned : EfRx → ℕ → ℕ → ℕ → Type 0
  Turned r n h k =
      (r.rx_next_idx ≡ n % nb)
      × (r.rx_released ≡ u32 h)
      × (r.rx_reposted ≡ u32 k)
      × (r.receive_inits ≡ upto nb k)
      × (k ≤ h)
      × (h ≤ n)
      × (n ≤ nb + k)

  repost-Turned :
      (d k : ℕ) (r : EfRx) (n h : ℕ)
      → h ≡ k + d
      → d < 2 ^ 32
      → Turned r n h k
      → let q = repost nb d r in Turned q n h h × (q.held_id ≡ r.held_id)
  unfolding repost receive_init
  repost-Turned zero k r n h e b t =
      let same : k ≡ h = omega (arith, e) in
      subst (λ j. Turned r n h j × (r.held_id ≡ r.held_id)) same (t, refl)
  repost-Turned (suc d) k r n h e b t =
      let waits : (r.rx_reposted == r.rx_released) ≡ false = ground (arith, e, t.1, t.2) in
      let next =
        receive_init (r.rx_reposted % nb) (record r { rx_reposted = u32 (r.rx_reposted + 1) }) in
      let id : r.rx_reposted % nb ≡ k % nb = ap (λ j. j % nb) t.2 ∙ mod-mod_of_dvd nb k nb_dvd in
      let inits : next.receive_inits ≡ upto nb (suc k) = ap₂ (λ xs j. xs ++ (j ∷ [])) t.3 id in
      rw waits (
        repost-Turned d (suc k) next n h (omega (arith, e)) (omega arith)
          (t.0, t.1, omega (arith, t.2), inits, omega (arith, e), t.5, omega (arith, t.6)))

  repost_released-Turned :
      (r : EfRx) (n h k : ℕ)
      → nb < 2 ^ 32
      → Turned r n h k
      → Turned (repost_released nb r) n h h × ((repost_released nb r).held_id ≡ r.held_id)
  unfolding repost_released
  repost_released-Turned r n h k w t =
      let turns : sub32 r.rx_released r.rx_reposted ≡ h - k = omega (arith, t) in
      rw turns (repost-Turned (h - k) k r n h (omega (arith, t.4)) (omega (arith, t)) t)

  abbrev pub Held : Bool → EfRx → ℕ → ℕ → Type 0
  Held true r n h = (n ≡ suc h) × (r.held_id ≡ h % nb)
  Held false r n h = n ≡ h

  take_due-Turned :
      (c : EfConfig) (stamp_in : ℕ → ℕ) (r : EfRx) (n h k : ℕ)
      → c.nb_rx_bufs ≡ nb
      → n < nb + k
      → Turned r n h k
      → n ≡ h
      → Turned (take_due c stamp_in r) (suc n) h k × Held true (take_due c stamp_in r) (suc n) h
  unfolding take_due
  take_due-Turned c stamp_in r n h k e b t f =
      let next : bump c.nb_rx_bufs r.rx_next_idx ≡ suc n % nb =
        ap₂ (λ m i. (i + 1) % m) e t.0 ∙ mod-add-mod n nb 1 ∙ ap (λ j. j % nb) (omega arith) in
      (
        (next, t.1, t.2, t.3, t.4, omega (arith, t.5), omega (arith, b)),
        (ap suc f, t.0 ∙ ap (λ j. j % nb) f),
      )

  kept-Turned : (r q : EfRx) (n h k : ℕ) → RxKept r q → Turned r n h k → Turned q n h k
  kept-Turned r q n h k s t = (s.3 ∙ t.0, s.4 ∙ t.1, s.5 ∙ t.2, s.1 ∙ t.3, t.4, t.5, t.6)

module _ (c : EfConfig) (found : c.payload_poll ≡ true) (tuned : c.x2522 ≡ true)
    (nb_pos : 0 < c.nb_rx_bufs) (nb_word : c.nb_rx_bufs < 2 ^ 32)
    (nb_dvd : c.nb_rx_bufs ∣ 2 ^ 32) where
  abbrev pub Round : Bool → EfState → ℕ → ℕ → ℕ → Type 0
  Round b s n h k =
      Words s
      × Turned c.nb_rx_bufs nb_pos nb_dvd s.rx n h k
      × Held c.nb_rx_bufs nb_pos nb_dvd b s.rx n h

  idle-Round :
      (rx_prefix : ℕ) (polled : Option (List EfEvent)) (s : EfState) (n h k : ℕ)
      → Round false s n h k
      → Round false (receive_idle c rx_prefix polled s) n h h
  unfolding receive_idle repost_released
  idle-Round rx_prefix polled s n h k (w, t, e) =
      let q = repost_released c.nb_rx_bufs s.rx in
      let u = record s { rx = q } in
      let counts = repost-counts c.nb_rx_bufs (sub32 s.rx.rx_released s.rx.rx_reposted) s.rx in
      let v : Words u = (
        w.0,
        w.1,
        subst (λ j. j < 2 ^ 64) (sym counts.0) w.2,
        subst (λ j. j < 2 ^ 64) (sym counts.1) w.3,
        w.4,
      ) in
      let p = poll_event-AllCounted c found rx_prefix true polled u v in
      let done = (poll_event c rx_prefix true polled u).1 in
      rw tuned (
        Counted-Words c found u done _ _ _ _ _ v p.2,
        kept-Turned c.nb_rx_bufs nb_pos nb_dvd q done.rx n h h p.2.5
            (repost_released-Turned c.nb_rx_bufs nb_pos nb_dvd s.rx n h k nb_word t).0,
        e,
      )

  release-Round :
      (s : EfState) (n h k : ℕ)
      → Round true s n h k
      → Round false (record s { rx = give_back c s.rx }) n (suc h) k
  unfolding give_back
  release-Round s n h k (w, t, e) =
      rw tuned
        (w, (t.0, omega (arith, t.1), t.2, t.3, omega (arith, t.4), omega (arith, e.0), t.6), e.0)

  receives_frame :
      (rx_prefix buf_size : ℕ) (marker stamp_in : ℕ → ℕ) (polled : Option (List EfEvent))
      (s : EfState)
      → marker_seen (marker_spins c) 0 marker ≡ true
      → (ef_try_receive c rx_prefix buf_size marker stamp_in polled s).1
        ≡ record s { rx = take_due c stamp_in s.rx }
  unfolding ef_try_receive
  receives_frame rx_prefix buf_size marker stamp_in polled s m = rw (found, m) refl

  receives_none :
      (rx_prefix buf_size : ℕ) (marker stamp_in : ℕ → ℕ) (polled : Option (List EfEvent))
      (s : EfState)
      → marker_seen (marker_spins c) 0 marker ≡ false
      → (ef_try_receive c rx_prefix buf_size marker stamp_in polled s).1
        ≡ receive_idle c rx_prefix polled s
  unfolding ef_try_receive
  receives_none rx_prefix buf_size marker stamp_in polled s m = rw (found, m) refl

  take_due-Words :
      (stamp_in : ℕ → ℕ) (s : EfState)
      → Words s
      → Words (record s { rx = take_due c stamp_in s.rx })
  unfolding take_due
  take_due-Words stamp_in s w = w

  -- On the tuned path, in every run in which the adapter fills only buffers that the library has: the
  -- buffers given back to the library are those of the first frames found, round the ring in order and
  -- each as often as it was released; none is given back before its frame is released; and the
  -- held buffer is that of the last frame found.
  pub RxReach-Round : (s : EfState) (b : Bool) (n h k : ℕ) → RxReach c s b n h k → Round b s n h k
  unfolding ef_release
  RxReach-Round _ _ _ _ _ (rx_fresh s w i r p l) =
      (w, (i ∙ sym (zero-mod c.nb_rx_bufs), r, p, l, omega arith, omega arith, omega arith), refl)
  RxReach-Round _ _ _ _ _ (finds rx_prefix buf_size marker stamp_in polled s n h k reach room m) =
      let (w, t, e) = RxReach-Round s false n h k reach in
      let d = take_due-Turned c.nb_rx_bufs nb_pos nb_dvd c stamp_in s.rx n h k refl room t e in
      let counted : Words (record s { rx = take_due c stamp_in s.rx }) =
        take_due-Words stamp_in s w in
      subst (λ t. Round true t (suc n) h k)
        (sym (receives_frame rx_prefix buf_size marker stamp_in polled s m)) (counted, d.0, d.1)
  RxReach-Round _ _ _ _ _ (idles rx_prefix buf_size marker stamp_in polled s n h k reach m) =
      subst (λ t. Round false t n h h)
        (sym (receives_none rx_prefix buf_size marker stamp_in polled s m))
        (idle-Round rx_prefix polled s n h k (RxReach-Round s false n h k reach))
  RxReach-Round _ _ _ _ _ (releases rx_prefix buf_size mem after r s n h k reach e) =
      let stored =
        >>=-eq-some
          (if c.payload_poll
            then memcpy (s.rx.held_id * buf_size + rx_prefix + 12) (0 ∷ 0 ∷ []) mem
            else some mem)
          _ e in
      let same : give_back c s.rx ≡ r = ap (λ p. p.1) (some-injective _ _ stored.2) in
      subst (λ q. Round false (record s { rx = q }) n (suc h) k) same
        (release-Round s n h k (RxReach-Round s true n h k reach))
