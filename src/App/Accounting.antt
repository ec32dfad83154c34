-- ===== src/App/Accounting.antt =====
-- A whole run of run_client, in src/app/Client.hpp: its end, the numbers of its frames and its counters.
use mathlib.Core.Option.{some-injective}
use abtrda.Prelude.{
  ℕ, suc, ◌+◌, ◌%◌, ◌^◌, ◌≤◌, ◌<◌, ◌≡◌, refl, sym, ap, ◌∙◌, subst, ◌⊎◌, inl, inr, Bool, true, false,
  ◌&&◌, ◌||◌, Option, none, some, List, [], ◌∷◌, ◌++◌, arith, ltb, leb, ◌==◌, if◌then◌else◌,
  Bool-cases, length, append_nil, append_assoc, u32, u64, sub64, >>=-eq-some,
}
use abtrda.Bytes.{le_bytes, le_value, overlay, slice, memcpy, store_u, load_u, swap32}
use abtrda.Bytes.Laws.{length-le_bytes}
use abtrda.Frame.{off_seq}
use abtrda.Recorder.Queue.{Spsc}
use abtrda.App.Client.{
  ClientConfig, Client, Arrival, Spin, bytes_eq, is_echo, matches, gives_up, spin_wait,
  end_exchange, exchange, ClientTurn, client_loop, run_client, ends, no_slot, sends_in,
}
use abtrda.App.Rounds.{early_of, Tallied, spin_wait-Waited, Out, Waited-Tallied}

-- A turn of a wait on which the client gives up, `spins` turns having been done.
abbrev pub Ends : ClientConfig → ℕ → ℕ → List Spin → Type 0
Ends c t1 spins [] = ⊥
Ends c t1 spins (p ∷ ps) = (gives_up c t1 (spins + 1) p ≡ true) ⊎ Ends c t1 (spins + 1) ps

-- Every turn of a wait finds the clock past the timeout, or the stop flag set.
abbrev pub Late : ClientConfig → ℕ → List Spin → Type 0
Late c t1 [] = Unit {0}
Late c t1 (p ∷ ps) = ((p.stop || leb c.timeout_cyc (sub64 p.now t1)) ≡ true) × Late c t1 ps

pub Late-Ends :
    (c : ClientConfig) (t1 spins : ℕ) (ps : List Spin)
    → 2 ^ 11 ≤ spins % 2 ^ 11 + length ps
    → Late c t1 ps
    → Ends c t1 spins ps
Late-Ends c t1 spins [] n l = absurd (omega arith)
Late-Ends c t1 spins (p ∷ ps) n l = elim (Bool-cases (u32 (spins + 1) % 2 ^ 11 == 0)) [
  | inl e ↦ inl (rw e l.0)
  | inr e ↦
      let on : 2 ^ 11 ≤ (spins + 1) % 2 ^ 11 + length ps = ground (arith, e, n) in
      inr (Late-Ends c t1 (spins + 1) ps on l.1)
]

is_echo-some :
    (mac : List ℕ) (seq_net : ℕ) (f : List ℕ) → (b : Bool) × (is_echo mac seq_net f ≡ some b)
unfolding is_echo load_u
is_echo-some mac seq_net f = elim (Bool-cases (leb 26 (length f) && bytes_eq (slice 0 6 f) mac)) [
  | inl e ↦
      let fits : leb 18 (length f) ≡ true = ground (arith, e) in
      (le_value (slice 14 4 f) == seq_net, rw (e, fits) refl)
  | inr e ↦ (false, rw e refl)
]

matches-some :
    (c : ClientConfig) (seq : ℕ) (o : Option Arrival) → (b : Bool) × (matches c seq o ≡ some b)
unfolding matches
matches-some c seq none = (false, refl)
matches-some c seq (some a) = is_echo-some c.client_mac (swap32 seq) a.bytes

module _ {Q : Type 0} (Spsc : Spsc Q) where
  turn_ends :
      (echo up : Bool) (x : Client Q) (s : Client Q) (later : Option (Bool × Client Q))
      → (up ≡ true) ⊎ ((r : Bool × Client Q) × (later ≡ some r))
      → (r : Bool × Client Q) × ((if echo
            then some (true, x)
            else (if up then some (false, s) else later))
          ≡ some r)
  turn_ends true up x s later h = ((true, x), refl)
  turn_ends false true x s later h = ((false, s), refl)
  turn_ends false false x s later (inl e) = absurd (ground (arith, e))
  turn_ends false false x s later (inr r) = r

  or_later : {A B C : Type 0} → A ⊎ B → (B → C) → A ⊎ C
  or_later (inl a) f = inl a
  or_later (inr b) f = inr (f b)

  spin_wait-Ends :
      (c : ClientConfig) (t1 tx_seq spins : ℕ) (ps : List Spin) (s : Client Q)
      → Ends c t1 spins ps
      → (r : Bool × Client Q) × (spin_wait Spsc c t1 tx_seq spins ps s ≡ some r)
  unfolding spin_wait
  spin_wait-Ends c t1 tx_seq spins [] s h = absurd h
  spin_wait-Ends c t1 tx_seq spins (p ∷ ps) s h =
      let m = matches-some c s.seq p.arrival in
      rw m.1 (
        turn_ends m.0 (gives_up c t1 (spins + 1) p) _ s _
          (or_later h (spin_wait-Ends c t1 tx_seq (spins + 1) ps s)))

  -- Whatever arrives, and however many turns a wait has had: once the clock is past the timeout (or the stop
  -- flag is set) for as many turns as are left to the next multiple of 2048, the wait is over.
  pub spin_wait-Late :
      (c : ClientConfig) (t1 tx_seq spins : ℕ) (ps : List Spin) (s : Client Q)
      → 2 ^ 11 ≤ spins % 2 ^ 11 + length ps
      → Late c t1 ps
      → (r : Bool × Client Q) × (spin_wait Spsc c t1 tx_seq spins ps s ≡ some r)
  spin_wait-Late c t1 tx_seq spins ps s n l =
      spin_wait-Ends c t1 tx_seq spins ps s (Late-Ends c t1 spins ps n l)

  -- The wait of a frame that goes out from the client `s`.
  abbrev pub early_in : ClientConfig → ℕ → ℕ → List Spin → Client Q → ℕ
  early_in c t1 tx_seq ps s =
      early_of Spsc (spin_wait Spsc c t1 tx_seq 0 ps (record s { sent = u64 (s.sent + 1) }))

  abbrev early_after : (Client Q → ℕ) → Option (List ℕ × Client Q) → ℕ
  early_after f none = 0
  early_after f (some r) = f r.1

  -- How many frames of a run are unanswered in the warmup.
  abbrev pub early_along : ClientConfig → List ClientTurn → Client Q → ℕ
  early_along c [] s = 0
  early_along c (ends ∷ ts) s = 0
  early_along c (no_slot ∷ ts) s = early_along c ts s
  early_along c (sends_in slot t1 tx_seq ps ∷ ts) s =
      early_in c t1 tx_seq ps s
      + early_after (early_along c ts) (exchange Spsc c slot t1 tx_seq ps s)

  exchange-Tallied :
      (c : ClientConfig) (slot : List ℕ) (t1 tx_seq base n early : ℕ) (ps : List Spin)
      (s : Client Q) (r : List ℕ × Client Q)
      → n + 1 < 2 ^ 64
      → Tallied Spsc base n early s
      → exchange Spsc c slot t1 tx_seq ps s ≡ some r
      → (store_u 4 off_seq (swap32 (u32 n)) slot ≡ some r.0)
        × Tallied Spsc base (n + 1) (early + early_in c t1 tx_seq ps s) r.1
  unfolding exchange
  exchange-Tallied c slot t1 tx_seq base n early ps s r w t e =
      let out = record s { sent = u64 (s.sent + 1) } in
      let f = >>=-eq-some (store_u 4 off_seq (swap32 s.seq) slot) _ e in
      let v = >>=-eq-some (spin_wait Spsc c t1 tx_seq 0 ps out) _ f.2 in
      let o : Out Spsc base n early out = (omega (arith, t.0), t.1, t.2, t.3, t.4, t.5, t.6) in
      let same = some-injective _ _ v.2 in
      (
        ap (λ j. store_u 4 off_seq (swap32 j) slot) (sym t.1) ∙ f.1 ∙ ap (λ x. some x.0) same,
        subst (λ x. Tallied Spsc base (n + 1) (early + early_in c t1 tx_seq ps s) x.1) same
            (subst
              (λ x. Tallied Spsc base (n + 1) (early + early_of Spsc x) (end_exchange Spsc v.0))
              (sym v.1)
              (Waited-Tallied Spsc c t1 tx_seq base n early out v.0 w o
                (spin_wait-Waited Spsc c t1 tx_seq 0 ps out v.0 v.1))),
      )

  -- The frames of a run are those of numbers `n` on, each in its slot.
  abbrev pub Numbered : ℕ → List ClientTurn → List (List ℕ) → Type 0
  Numbered n [] [] = Unit {0}
  Numbered n [] (f ∷ fs) = ⊥
  Numbered n (ends ∷ ts) [] = Unit {0}
  Numbered n (ends ∷ ts) (f ∷ fs) = ⊥
  Numbered n (no_slot ∷ ts) fs = Numbered n ts fs
  Numbered n (sends_in slot t1 tx_seq ps ∷ ts) [] = ⊥
  Numbered n (sends_in slot t1 tx_seq ps ∷ ts) (f ∷ fs) =
      (store_u 4 off_seq (swap32 (u32 n)) slot ≡ some f) × Numbered (n + 1) ts fs

  stopped_at :
      (out : List (List ℕ)) (base n early : ℕ) (s : Client Q) (r : List (List ℕ) × Client Q)
      → Tallied Spsc base n early s
      → (out, s) ≡ r
      → (r.0 ≡ out ++ []) × Tallied Spsc base (n + 0) (early + 0) r.1
  stopped_at out base n early s r t e = (
    ap (λ x. x.0) (sym e) ∙ sym (append_nil out),
    subst (λ x. Tallied Spsc base (n + 0) (early + 0) x.1) e
        (t.0 ∙ omega arith, t.1 ∙ ap u32 (omega arith), omega (arith, t.2), t.3, t.4, t.5, t.6),
  )

  client_loop-Tallied :
      (c : ClientConfig) (ts : List ClientTurn) (out : List (List ℕ)) (base n early : ℕ)
      (s : Client Q) (r : List (List ℕ) × Client Q)
      → n + length ts < 2 ^ 64
      → Tallied Spsc base n early s
      → client_loop Spsc c ts out s ≡ some r
      → (fs : List (List ℕ)) × (r.0 ≡ out ++ fs)
        × Numbered n ts fs
        × Tallied Spsc base (n + length fs) (early + early_along c ts s) r.1
  unfolding client_loop
  client_loop-Tallied c [] out base n early s r w t e =
      let k = stopped_at out base n early s r t (some-injective _ _ e) in ([], k.0, tt, k.1)
  client_loop-Tallied c (ends ∷ ts) out base n early s r w t e =
      let k = stopped_at out base n early s r t (some-injective _ _ e) in ([], k.0, tt, k.1)
  client_loop-Tallied c (no_slot ∷ ts) out base n early s r w t e =
      client_loop-Tallied c ts out base n early s r (omega arith) t e
  client_loop-Tallied c (sends_in slot t1 tx_seq ps ∷ ts) out base n early s r w t e =
      let x = >>=-eq-some (exchange Spsc c slot t1 tx_seq ps s) _ e in
      let k = exchange-Tallied c slot t1 tx_seq base n early ps s x.0 (omega arith) t x.1 in
      let m =
        client_loop-Tallied c ts (out ++ (x.0.0 ∷ [])) base (n + 1)
          (early + early_in c t1 tx_seq ps s) x.0.1 r (omega arith) k.1 x.2 in
      let t = m.3 in
      (
        x.0.0 ∷ m.0,
        m.1 ∙ append_assoc out (x.0.0 ∷ []) m.0,
        (k.0, m.2),
        subst
            (λ o.
              Tallied Spsc base (n + suc (length m.0))
                (early + (early_in c t1 tx_seq ps s + early_after (early_along c ts) o)) r.1)
            (sym x.1)
            (t.0 ∙ omega arith, t.1 ∙ ap u32 (omega arith), omega (arith, t.2), t.3, t.4, t.5, t.6),
      )

  -- Every slot has room for the number, and every wait is ended by the clock or the flag in time.
  abbrev pub Concludes : ClientConfig → List ClientTurn → Type 0
  Concludes c [] = Unit {0}
  Concludes c (ends ∷ ts) = Unit {0}
  Concludes c (no_slot ∷ ts) = Concludes c ts
  Concludes c (sends_in slot t1 tx_seq ps ∷ ts) =
      (18 ≤ length slot) × Ends c t1 0 ps × Concludes c ts

  exchange-returns :
      (c : ClientConfig) (slot : List ℕ) (t1 tx_seq : ℕ) (ps : List Spin) (s : Client Q)
      → 18 ≤ length slot
      → Ends c t1 0 ps
      → (r : List ℕ × Client Q) × (exchange Spsc c slot t1 tx_seq ps s ≡ some r)
  unfolding exchange store_u memcpy
  exchange-returns c slot t1 tx_seq ps s l h =
      let fits : leb (14 + length (le_bytes 4 (swap32 s.seq))) (length slot) ≡ true =
        ground (arith, length-le_bytes 4 (swap32 s.seq)) in
      let v = spin_wait-Ends c t1 tx_seq 0 ps (record s { sent = u64 (s.sent + 1) }) h in
      ((overlay 14 (le_bytes 4 (swap32 s.seq)) slot, end_exchange Spsc v.0), rw (fits, v.1) refl)

  client_loop-returns :
      (c : ClientConfig) (ts : List ClientTurn) (out : List (List ℕ)) (s : Client Q)
      → Concludes c ts
      → (r : List (List ℕ) × Client Q) × (client_loop Spsc c ts out s ≡ some r)
  unfolding client_loop
  client_loop-returns c [] out s h = ((out, s), refl)
  client_loop-returns c (ends ∷ ts) out s h = ((out, s), refl)
  client_loop-returns c (no_slot ∷ ts) out s h = client_loop-returns c ts out s h
  client_loop-returns c (sends_in slot t1 tx_seq ps ∷ ts) out s h =
      let x = exchange-returns c slot t1 tx_seq ps s h.0 h.1 in
      let k = client_loop-returns c ts (out ++ (x.0.0 ∷ [])) x.0.1 h.2 in (k.0, rw x.1 k.1)

  abbrev pub client_start : Q → Client Q
  client_start q = record {
    seq = 0;
    sent = 0;
    recorded = 0;
    timeouts = 0;
    warmup = 0;
    hw_tx_missing = 0;
    push_failures = 0;
    to_hist = q;
  }

  -- With a frame size of at least 26, for fewer than 2^64 turns in which every wait is ended by the clock or
  -- the flag in time and every slot has room: the run returns. Its frames carry the numbers 0, 1, 2 and
  -- so on (of 32 bits), each in the slot of its turn; the recorded round trips, those without a
  -- transmit stamp, those discarded in the warmup and the timeouts, together with the frames that
  -- went unanswered in the warmup (which no counter has), are exactly the frames sent; nothing but the warmup is counted before it is over, and it discards at most
  -- 500000; and the queue has grown by the samples recorded less the pushes that failed.
  pub run_client-Tallied :
      (c : ClientConfig) (ts : List ClientTurn) (q : Q)
      → 26 ≤ c.frame_size
      → length ts < 2 ^ 64
      → Concludes c ts
      → (r : List (List ℕ) × Client Q) × (run_client Spsc c ts q ≡ some r)
        × Numbered 0 ts r.0
        × Tallied Spsc
            (length (Spsc.contents q))
            (length r.0)
            (early_along c ts (client_start q))
            r.1
  unfolding run_client
  run_client-Tallied c ts q size w h =
      let s = client_start q in
      let big : ltb c.frame_size 26 ≡ false = ground (arith, size) in
      let run = client_loop-returns c ts [] s h in
      let k =
        client_loop-Tallied c ts [] (length (Spsc.contents q)) 0 0 s run.0 (omega arith)
          (refl, refl, omega arith, omega arith, inr refl, omega arith, omega arith) run.1 in
      let t = k.3 in
      let sent : 0 + length k.0 ≡ length run.0.0 = omega (arith, ap length k.1) in
      (
        run.0,
        rw (big, run.1) refl,
        subst (Numbered 0 ts) (sym k.1) k.2,
        (t.0 ∙ sent, t.1 ∙ ap u32 sent, omega (arith, t.2, sent), t.3, t.4, t.5, t.6),
      )
