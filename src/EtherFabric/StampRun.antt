-- ===== src/EtherFabric/StampRun.antt =====
-- The transmit stamps of a whole run are those of the queue.
use Prim.Native.Nat.{◌∣◌}
use native.Mathlib.Nat.{mod-eq_of_lt}
use abtrda.Prelude.{
  ℕ, suc, ◌+◌, ◌%◌, ◌^◌, ◌<◌, ◌≡◌, refl, sym, ap, ap₂, ◌∙◌, subst, Bool, true, ◌&&◌, none, List, [],
  ◌∷◌, ◌++◌, arith, length, length-append,
}
use abtrda.EtherFabric.{tx_stamp_none, StampRing, poll_tx_timestamp}
use abtrda.EtherFabric.Events.{
  EfConfig, EfTx, stamp_at, stamp_nones, on_tx, minor_of, on_tx_stamped, on_tx_error,
}
use abtrda.EtherFabric.StampQueue.{
  StampOp, run_stamps, nones, run_queue, Fits, count_ctpio-stamps, Holds-tail, Waits,
  stamp_at-Waits, stamp_nones-Waits, poll-empty, poll-front, stamps_one, completes, fails, polls,
}

module _ (c : EfConfig) (stamps_on : (c.hw_timestamps && c.has_tx) ≡ true) where
  on_tx-ring :
      (ids : List ℕ) (ctpio : Bool) (t : EfTx)
      → (on_tx c ids ctpio t).stamps ≡ stamp_nones c.nb_tx_bufs ids t.stamps
  unfolding on_tx
  on_tx-ring ids ctpio t = rw stamps_on (count_ctpio-stamps c ids ctpio _)

  on_tx_error-ring :
      (t : EfTx)
      → (on_tx_error c t).stamps ≡ stamp_at (t.stamps.tx_tail % c.nb_tx_bufs) tx_stamp_none t.stamps
  unfolding on_tx_error
  on_tx_error-ring t = rw stamps_on refl

  on_tx_stamped-ring :
      (minor : ℕ) (ctpio : Bool) (t : EfTx)
      → t.stamps.tx_tail < 2 ^ 32
      → (on_tx_stamped c t.stamps.tx_tail minor ctpio t).stamps
        ≡ stamp_at (t.stamps.tx_tail % c.nb_tx_bufs) minor t.stamps
  unfolding on_tx_stamped
  on_tx_stamped-ring minor ctpio t w =
      count_ctpio-stamps c (t.stamps.tx_tail ∷ []) ctpio _
      ∙ ap (λ i. stamp_at (i % c.nb_tx_bufs) minor t.stamps) (mod-eq_of_lt w)

stamp_nones-cursor :
    (nb : ℕ) (ids : List ℕ) (r : StampRing) → (stamp_nones nb ids r).ts_cursor ≡ r.ts_cursor
unfolding stamp_nones stamp_at
stamp_nones-cursor nb [] r = refl
stamp_nones-cursor nb (i ∷ ids) r =
    stamp_nones-cursor nb ids (stamp_at (r.tx_tail % nb) tx_stamp_none r)

length-nones : (ids : List ℕ) → length (nones ids) ≡ length ids
length-nones [] = refl
length-nones (i ∷ ids) = ap suc (length-nones ids)

minor_of-word : (nsec nsec_frac16 : ℕ) → minor_of nsec nsec_frac16 < 2 ^ 32
unfolding minor_of
minor_of-word nsec nsec_frac16 = omega arith

module _ (c : EfConfig) (stamps_on : (c.hw_timestamps && c.has_tx) ≡ true)
    (nb_pos : 0 < c.nb_tx_bufs) (nb_word : c.nb_tx_bufs < 2 ^ 32)
    (nb_dvd : c.nb_tx_bufs ∣ 2 ^ 32) where
  abbrev Ready : StampRing → List ℕ → Type 0
  Ready = Waits c.nb_tx_bufs nb_pos nb_word nb_dvd

  tail_word : (r : StampRing) (q : List ℕ) → Ready r q → r.tx_tail < 2 ^ 32
  tail_word r q h = omega (
    arith,
    Holds-tail c.nb_tx_bufs nb_pos nb_word nb_dvd r.tx_stamp r.tx_tail r.ts_cursor q h.1 h.3,
  )

  -- The rest of a run after completions that put `more` at the back.
  after :
      (ops : List StampOp) (t : EfTx) (r : StampRing) (n : ℕ) (q more : List ℕ)
      → ((u : EfTx) (p : List ℕ)
          → Ready u.stamps p
          → Fits c.nb_tx_bufs ops (length p)
          → run_stamps c ops u ≡ run_queue ops u.stamps.ts_cursor p)
      → t.stamps ≡ r
      → r.ts_cursor ≡ n
      → Ready r (q ++ more)
      → Fits c.nb_tx_bufs ops (length q + length more)
      → run_stamps c ops t ≡ run_queue ops n (q ++ more)
  after ops t r n q more rest e cursor w f =
      rest t (q ++ more) (subst (λ s. Ready s (q ++ more)) (sym e) w)
        (subst (Fits c.nb_tx_bufs ops) (sym (length-append q more)) f)
      ∙ ap (λ j. run_queue ops j (q ++ more)) (ap (λ s. s.ts_cursor) e ∙ cursor)

  -- On hardware that stamps transmit frames, with a ring whose size divides 2^32 and completions that
  -- come in the order of sending, never more than the ring's size of them waiting: the polls of any
  -- run, mixed with stamped, plain and failed completions, answer what a queue of stamps would, each
  -- stamp once, in order, with the number of its own frame (a frame that was not stamped has the
  -- stamp that says so).
  pub run_stamps-run_queue :
      (ops : List StampOp) (t : EfTx) (q : List ℕ)
      → Ready t.stamps q
      → Fits c.nb_tx_bufs ops (length q)
      → run_stamps c ops t ≡ run_queue ops t.stamps.ts_cursor q
  unfolding run_stamps run_queue stamp_at
  run_stamps-run_queue [] t q h f = refl
  run_stamps-run_queue (stamps_one nsec frac ctpio ∷ ops) t q h f =
      after ops _ _ t.stamps.ts_cursor q (minor_of nsec frac ∷ []) (run_stamps-run_queue ops)
        (on_tx_stamped-ring c stamps_on (minor_of nsec frac) ctpio t (tail_word t.stamps q h)) refl
        (stamp_at-Waits c.nb_tx_bufs nb_pos nb_word nb_dvd t.stamps q (minor_of nsec frac)
          (minor_of-word nsec frac) f.0 h)
        f.1
  run_stamps-run_queue (completes ids ctpio ∷ ops) t q h f =
      after ops _ _ t.stamps.ts_cursor q (nones ids) (run_stamps-run_queue ops)
        (on_tx-ring c stamps_on ids ctpio t) (stamp_nones-cursor c.nb_tx_bufs ids t.stamps)
        (stamp_nones-Waits c.nb_tx_bufs nb_pos nb_word nb_dvd ids t.stamps q f.0 h)
        (subst (λ k. Fits c.nb_tx_bufs ops (length q + k)) (sym (length-nones ids)) f.1)
  run_stamps-run_queue (fails ∷ ops) t q h f =
      after ops _ _ t.stamps.ts_cursor q (tx_stamp_none ∷ []) (run_stamps-run_queue ops)
        (on_tx_error-ring c stamps_on t) refl
        (stamp_at-Waits c.nb_tx_bufs nb_pos nb_word nb_dvd t.stamps q tx_stamp_none (omega arith)
          f.0 h)
        f.1
  run_stamps-run_queue (polls ∷ ops) t [] h f =
      let e = poll-empty c.nb_tx_bufs nb_pos nb_word nb_dvd t.stamps h in
      rw e (ap (◌∷◌ none) (run_stamps-run_queue ops t [] h f))
  run_stamps-run_queue (polls ∷ ops) t (m ∷ q) h f =
      let p = poll_tx_timestamp c.nb_tx_bufs t.stamps in
      let e = poll-front c.nb_tx_bufs nb_pos nb_word nb_dvd t.stamps m q h in
      ap₂ (◌∷◌) e.0 (
        run_stamps-run_queue ops (record t { stamps = p.1 }) q e.2
          (subst (Fits c.nb_tx_bufs ops) (omega arith) f)
        ∙ ap (λ j. run_queue ops j q) e.1)
