-- ===== src/App/Rounds.antt =====
-- How one exchange of run_client, in src/app/Client.hpp, leaves its counters.
use mathlib.Core.Option.{some-injective}
use abtrda.Prelude.{
  ℕ, ◌+◌, ◌^◌, ◌≤◌, ◌<◌, ◌≡◌, refl, sym, ap, ◌∙◌, subst, ◌⊎◌, inl, inr, Bool, true, false, not,
  ◌&&◌, Option, none, some, List, [], ◌∷◌, arith, ltb, leb, if◌then◌else◌, Bool-cases, Option-cases,
  length, length-append, u32, >>=-eq-some,
}
use abtrda.Bytes.{swap32}
use abtrda.Recorder.Queue.{Spsc}
use abtrda.Recorder.Rx.{warmup_discard}
use abtrda.App.Client.{
  ClientConfig, Client, Arrival, Spin, is_echo, find_stamp, matches, gives_up, push_sample,
  hw_sample, on_echo, received_by_spin, spin_wait, end_exchange,
}

module _ {Q : Type 0} (Spsc : Spsc Q) where
  -- A wait in the warmup that ended without an echo: no counter of the client has it.
  abbrev pub early_of : Option (Bool × Client Q) → ℕ
  early_of none = 0
  early_of (some (received, s)) = if not received && ltb s.warmup warmup_discard then 1 else 0

  -- After `n` frames sent, `early` of them unanswered in the warmup, from a queue that had `base` words: the
  -- closed round trips and the timeouts are the rest, nothing else is counted before the warmup is over,
  -- and the queue has grown by what was recorded and not refused.
  abbrev pub Tallied : ℕ → ℕ → ℕ → Client Q → Type 0
  Tallied base n early s =
      (s.sent ≡ n)
      × (s.seq ≡ u32 n)
      × (s.recorded + s.hw_tx_missing + s.warmup + s.timeouts + early ≡ n)
      × (s.warmup ≤ warmup_discard)
      × ((s.warmup ≡ warmup_discard) ⊎ (s.recorded + s.hw_tx_missing + s.timeouts ≡ 0))
      × (s.push_failures ≤ s.recorded)
      × (length (Spsc.contents s.to_hist) + s.push_failures ≡ base + s.recorded)

  -- A wait ends with an echo of the frame, or leaves the client as it was.
  abbrev pub Waited : ClientConfig → ℕ → ℕ → Client Q → Bool × Client Q → Type 0
  Waited c t1 tx_seq s r =
      ((a : Arrival) × (is_echo c.client_mac (swap32 s.seq) a.bytes ≡ some true)
        × (r ≡ (true, on_echo Spsc c t1 tx_seq a s)))
      ⊎ (r ≡ (false, s))

  matched-Waited :
      (c : ClientConfig) (t1 tx_seq : ℕ) (o : Option Arrival) (s : Client Q)
      → matches c s.seq o ≡ some true
      → Waited c t1 tx_seq s (true, received_by_spin Spsc c t1 tx_seq o s)
  unfolding matches received_by_spin
  matched-Waited c t1 tx_seq none s e = absurd (ground (arith, e))
  matched-Waited c t1 tx_seq (some a) s e = inl (a, e, refl)

  left-Waited :
      (c : ClientConfig) (t1 tx_seq : ℕ) (s : Client Q) (r : Bool × Client Q) (up : Bool)
      (later : Option (Bool × Client Q))
      → (later ≡ some r → Waited c t1 tx_seq s r)
      → (if up then some (false, s) else later) ≡ some r
      → Waited c t1 tx_seq s r
  left-Waited c t1 tx_seq s r true later f e = inr (sym (some-injective _ _ e))
  left-Waited c t1 tx_seq s r false later f e = f e

  turn-Waited :
      (c : ClientConfig) (t1 tx_seq : ℕ) (s : Client Q) (r : Bool × Client Q) (up echo : Bool)
      (o : Option Arrival) (later : Option (Bool × Client Q))
      → (later ≡ some r → Waited c t1 tx_seq s r)
      → matches c s.seq o ≡ some echo
      → (if echo
          then some (true, received_by_spin Spsc c t1 tx_seq o s)
          else (if up then some (false, s) else later))
        ≡ some r
      → Waited c t1 tx_seq s r
  turn-Waited c t1 tx_seq s r up true o later f m e =
      subst (Waited c t1 tx_seq s) (some-injective _ _ e) (matched-Waited c t1 tx_seq o s m)
  turn-Waited c t1 tx_seq s r up false o later f m e = left-Waited c t1 tx_seq s r up later f e

  pub spin_wait-Waited :
      (c : ClientConfig) (t1 tx_seq spins : ℕ) (ps : List Spin) (s : Client Q) (r : Bool × Client Q)
      → spin_wait Spsc c t1 tx_seq spins ps s ≡ some r
      → Waited c t1 tx_seq s r
  unfolding spin_wait
  spin_wait-Waited c t1 tx_seq spins [] s r e = absurd (ground (arith, e))
  spin_wait-Waited c t1 tx_seq spins (p ∷ ps) s r e =
      let m = >>=-eq-some (matches c s.seq p.arrival) _ e in
      turn-Waited c t1 tx_seq s r (gives_up c t1 (spins + 1) p) m.0 p.arrival _
        (spin_wait-Waited c t1 tx_seq (spins + 1) ps s r) m.1 m.2

  push_sample-Tallied :
      (base n x : ℕ) (s : Client Q)
      → n + 1 < 2 ^ 64
      → s.recorded + s.hw_tx_missing + s.warmup + s.timeouts ≤ n
      → s.push_failures ≤ s.recorded
      → length (Spsc.contents s.to_hist) + s.push_failures ≡ base + s.recorded
      → let t = push_sample Spsc (Spsc.try_push x s.to_hist) s in
        (t.recorded ≡ s.recorded + 1)
        × (t.push_failures ≤ t.recorded)
        × (length (Spsc.contents t.to_hist) + t.push_failures ≡ base + t.recorded)
        × (t.hw_tx_missing ≡ s.hw_tx_missing)
        × (t.warmup ≡ s.warmup)
        × (t.timeouts ≡ s.timeouts)
        × (t.sent ≡ s.sent)
        × (t.seq ≡ s.seq)
  unfolding push_sample
  push_sample-Tallied base n x s w h f l = elim (Option-cases (Spsc.try_push x s.to_hist)) [
    | inl full ↦ rw full (omega arith, omega arith, omega arith, refl, refl, refl, refl, refl)
    | inr (q, pushes) ↦
        let grows =
          ap length (Spsc.contents-try_push x s.to_hist q pushes)
          ∙ length-append (Spsc.contents s.to_hist) (x ∷ []) in
        rw pushes (omega arith, omega arith, omega (arith, grows), refl, refl, refl, refl, refl)
  ]

  -- The tallies of a client whose frame number `n + 1` is out: those of `n`, one sent.
  abbrev pub Out : ℕ → ℕ → ℕ → Client Q → Type 0
  Out base n early s =
      (s.sent ≡ n + 1)
      × (s.seq ≡ u32 n)
      × (s.recorded + s.hw_tx_missing + s.warmup + s.timeouts + early ≡ n)
      × (s.warmup ≤ warmup_discard)
      × ((s.warmup ≡ warmup_discard) ⊎ (s.recorded + s.hw_tx_missing + s.timeouts ≡ 0))
      × (s.push_failures ≤ s.recorded)
      × (length (Spsc.contents s.to_hist) + s.push_failures ≡ base + s.recorded)

  pushed-Tallied :
      (base n early x : ℕ) (s : Client Q)
      → n + 1 < 2 ^ 64
      → s.warmup ≡ warmup_discard
      → Out base n early s
      → Tallied base
          (n + 1)
          early
          (end_exchange Spsc (true, push_sample Spsc (Spsc.try_push x s.to_hist) s))
  unfolding end_exchange
  pushed-Tallied base n early x s w d o =
      let k = push_sample-Tallied base n x s w (omega (arith, o.2)) o.5 o.6 in
      (
        k.6 ∙ o.0,
        omega (arith, k.7, o.1),
        omega (arith, k, o.2),
        omega (arith, k.4, o.3),
        inl (k.4 ∙ d),
        k.1,
        k.2,
      )

  on_echo-Tallied :
      (c : ClientConfig) (t1 tx_seq : ℕ) (a : Arrival) (base n early : ℕ) (s : Client Q)
      → n + 1 < 2 ^ 64
      → Out base n early s
      → Tallied base (n + 1) early (end_exchange Spsc (true, on_echo Spsc c t1 tx_seq a s))
  unfolding on_echo hw_sample end_exchange
  on_echo-Tallied c t1 tx_seq a base n early s w o =
      elim (Bool-cases (ltb s.warmup warmup_discard)) [
        | inl e ↦ rw e (cold_echo e)
        | inr e ↦
            let full : s.warmup ≡ warmup_discard = ground (arith, e, o.3) in
            rw e (elim (Bool-cases c.hw_ts) [
              | inl h ↦ rw h (elim (Option-cases (find_stamp tx_seq a.tx_stamps)) [
                | inl f ↦ rw f (o.0, omega arith, omega (arith, o.2), o.3, inl full, o.5, o.6)
                | inr (minor, f) ↦ rw f (pushed-Tallied base n early _ s w full o)
              ])
              | inr h ↦ rw h (pushed-Tallied base n early _ s w full o)
            ])
      ]
    where
      cold_echo :
          ltb s.warmup warmup_discard ≡ true
          → Tallied base
              (n + 1)
              early
              (end_exchange Spsc (true, record s { warmup = s.warmup + 1 }))
      cold_echo e =
          let cold : s.recorded + s.hw_tx_missing + s.timeouts ≡ 0 = ground (arith, e, o.4) in
          (o.0, omega arith, omega (arith, o.2), ground (arith, e), inr cold, o.5, o.6)

  unanswered-Tallied :
      (base n early : ℕ) (s : Client Q)
      → n + 1 < 2 ^ 64
      → Out base n early s
      → Tallied base (n + 1) (early + early_of (some (false, s))) (end_exchange Spsc (false, s))
  unfolding end_exchange
  unanswered-Tallied base n early s w o = elim (Bool-cases (leb warmup_discard s.warmup)) [
    | inl e ↦
        let full : s.warmup ≡ warmup_discard = ground (arith, e, o.3) in
        let over : ltb s.warmup warmup_discard ≡ false = ground (arith, full) in
        rw (e, over) (o.0, omega arith, omega (arith, o.2), o.3, inl full, o.5, o.6)
    | inr e ↦
        let cold : ltb s.warmup warmup_discard ≡ true = ground (arith, e) in
        rw (e, cold) (o.0, omega arith, omega (arith, o.2), o.3, o.4, o.5, o.6)
  ]

  pub Waited-Tallied :
      (c : ClientConfig) (t1 tx_seq base n early : ℕ) (s : Client Q) (r : Bool × Client Q)
      → n + 1 < 2 ^ 64
      → Out base n early s
      → Waited c t1 tx_seq s r
      → Tallied base (n + 1) (early + early_of (some r)) (end_exchange Spsc r)
  Waited-Tallied c t1 tx_seq base n early s r w o (inl (a, echo, e)) =
      subst (λ x. Tallied base (n + 1) (early + early_of (some x)) (end_exchange Spsc x)) (sym e)
        (subst
          (λ j. Tallied base (n + 1) j (end_exchange Spsc (true, on_echo Spsc c t1 tx_seq a s)))
          (omega arith) (on_echo-Tallied c t1 tx_seq a base n early s w o))
  Waited-Tallied c t1 tx_seq base n early s r w o (inr e) =
      subst (λ x. Tallied base (n + 1) (early + early_of (some x)) (end_exchange Spsc x)) (sym e)
        (unanswered-Tallied base n early s w o)
