-- ===== src/Dpdk/Rx/Burst.antt =====
-- A burst is handed out whole, in order, and every buffer of it is freed once.
use abtrda.Prelude.{
  ℕ, zero, suc, ◌+◌, ◌≤◌, ◌<◌, ◌≡◌, refl, sym, ap, ◌∙◌, true, false, Option, none, some, List, [],
  ◌∷◌, ◌++◌, map, arith, leb, ◌==◌, length, get_elem?, length-append, append_nil, append_assoc,
  drop,
}
use abtrda.Dpdk.Rx.{DpdkRx, dpdk_receive, dpdk_release}

-- What `k` turns of receive and release hand out and free, and the state they leave; `next` is what the
-- device would deliver.
pub turns : ℕ → List ℕ → DpdkRx → List (Option ℕ × Option ℕ) × DpdkRx
turns zero next s = ([], s)
turns (suc k) next s =
    let r = dpdk_receive next s in
    let f = dpdk_release r.1 in let rest = turns k next f.1 in ((r.0, f.0) ∷ rest.0, rest.1)

get_elem?-middle : (xs ys : List ℕ) (m : ℕ) → get_elem? (xs ++ (m ∷ ys)) (length xs) ≡ some m
get_elem?-middle [] ys m = refl
get_elem?-middle (x ∷ xs) ys m = get_elem?-middle xs ys m

-- Part of the burst is done; `stale` is what the array still holds after it.
abbrev amid : List ℕ → List ℕ → List ℕ → DpdkRx
amid done todo stale = record {
  rx_burst = done ++ (todo ++ stale);
  rx_count = length done + length todo;
  rx_idx = length done;
  pending_rx = none;
}

receive-amid :
    (done todo stale next : List ℕ) (m : ℕ)
    → dpdk_receive next (amid done (m ∷ todo) stale)
      ≡ (some m, record (amid done (m ∷ todo) stale) { pending_rx = some m })
unfolding dpdk_receive
receive-amid done todo stale next m = rw (more, get_elem?-middle done (todo ++ stale) m) refl
  where
    more : leb (length done + suc (length todo)) (length done) ≡ false
    more = ground arith

amid-eq :
    {b c : List ℕ} {i j k l : ℕ}
    → b ≡ c
    → i ≡ j
    → k ≡ l
    → (let r : DpdkRx = record { rx_burst = b; rx_count = i; rx_idx = k; pending_rx = none } in r)
      ≡ (record { rx_burst = c; rx_count = j; rx_idx = l; pending_rx = none })
amid-eq p q r = λ t. record { rx_burst = p t; rx_count = q t; rx_idx = r t; pending_rx = none }

turns-amid :
    (done todo stale next : List ℕ)
    → turns (length todo) next (amid done todo stale)
      ≡ (map (λ m. (some m, some m)) todo, amid (done ++ todo) [] stale)
unfolding turns dpdk_release
turns-amid done [] stale next =
    ap (λ s. ([], s))
      (amid-eq (ap (λ xs. xs ++ stale) (sym (append_nil done)) ∙ refl)
        (omega (arith, length-append done [])) (omega (arith, length-append done [])))
turns-amid done (m ∷ todo) stale next =
    let step =
      amid-eq (sym (append_assoc done (m ∷ []) (todo ++ stale)))
        (omega (arith, length-append done (m ∷ []))) (omega (arith, length-append done (m ∷ []))) in
    rw (receive-amid done todo stale next m) (
      ap (λ s. ((some m, some m) ∷ (turns (length todo) next s).0, (turns (length todo) next s).1))
        step
      ∙ ap (λ p. ((some m, some m) ∷ p.0, p.1)) (turns-amid (done ++ (m ∷ [])) todo stale next)
      ∙ ap (λ xs. (map (λ u. (some u, some u)) (m ∷ todo), amid xs [] stale))
          (append_assoc done (m ∷ []) todo))

asks_device :
    (b : List ℕ) (m : ℕ) (s : DpdkRx)
    → s.rx_count ≤ s.rx_idx
    → dpdk_receive (m ∷ b) s ≡ (
      some m,
      record {
        rx_burst = m ∷ (b ++ drop (suc (length b)) s.rx_burst);
        rx_count = suc (length b);
        rx_idx = 0;
        pending_rx = some m;
      },
    )
unfolding dpdk_receive
asks_device b m s h = rw (more, some_came) refl
  where
    more : leb s.rx_count s.rx_idx ≡ true
    more = ground arith

    some_came : (suc (length b) == 0) ≡ false
    some_came = ground arith

-- The first turn asks the device; it goes on as if the burst had been there.
receive-exhausted :
    (b : List ℕ) (m : ℕ) (s : DpdkRx)
    → s.rx_count ≤ s.rx_idx
    → dpdk_receive (m ∷ b) s
      ≡ dpdk_receive (m ∷ b) (amid [] (m ∷ b) (drop (suc (length b)) s.rx_burst))
receive-exhausted b m s h =
    asks
    ∙ ap (λ r. (some m, record r { pending_rx = some m })) (amid-eq refl (omega arith) refl)
    ∙ sym (receive-amid [] b (drop (suc (length b)) s.rx_burst) (m ∷ b) m)
  where
    fresh : DpdkRx
    fresh = record {
      rx_burst = m ∷ (b ++ drop (suc (length b)) s.rx_burst);
      rx_count = suc (length b);
      rx_idx = 0;
      pending_rx = none;
    }

    asks : dpdk_receive (m ∷ b) s ≡ (some m, record fresh { pending_rx = some m })
    asks = asks_device b m s h

-- When the last burst is used up and the device delivers the burst `b`, not empty, as many turns of
-- receive and release as it has buffers hand out all of them in order and free each one right after, and
-- leave the burst used up, so that the next receive asks the device again.
pub turns-burst :
    (b : List ℕ) (s : DpdkRx)
    → s.rx_count ≤ s.rx_idx
    → 0 < length b
    → let t = turns (length b) b s in
      (t.0 ≡ map (λ m. (some m, some m)) b) × (t.1.rx_idx ≡ length b) × (t.1.rx_count ≡ length b)
unfolding turns
turns-burst [] s h z = absurd (omega arith)
turns-burst (m ∷ b) s h z =
    let stale = drop (suc (length b)) s.rx_burst in
    let start =
      ap
        (λ r.
          let f = dpdk_release r.1 in
          let rest = turns (length b) (m ∷ b) f.1 in ((r.0, f.0) ∷ rest.0, rest.1))
        (receive-exhausted b m s h) in
    let whole = start ∙ turns-amid [] (m ∷ b) stale (m ∷ b) in
    (ap (λ p. p.0) whole, ap (λ p. p.1.rx_idx) whole, ap (λ p. p.1.rx_count) whole ∙ omega arith)
