-- ===== src/EtherFabric/StampQueue.antt =====
-- The ring of transmit stamps as a queue: completions put a stamp at the back, polls take one from the
-- front.
use Prim.Native.Nat.{◌∣◌, bit_or}
use native.Mathlib.Nat.{mod-lt, mod-mod_of_dvd, mod-add-mod}
use abtrda.Prelude.{
  ℕ, ◌+◌, ◌-◌, ◌*◌, ◌/◌, ◌%◌, ◌^◌, ◌≤◌, ◌<◌, ◌≡◌, refl, sym, ap₂, ◌∙◌, subst, ◌≢◌, inl, Bool, true,
  false, Option, none, some, List, [], ◌∷◌, ◌++◌, arith, ◌==◌, length, set, length-append,
  append_nil, append_assoc, length-set, get_or, get_or-set_self, get_or-set_ne, u32,
}
use abtrda.Bits.{bit_or_fields}
use abtrda.Ring.{bump, Ahead, Ahead-unbump}
use abtrda.EtherFabric.{tx_stamp_none, StampRing, take_stamp, poll_tx_timestamp}
use abtrda.EtherFabric.Events.{
  EfConfig, EfTx, stamp_at, stamp_nones, count_ctpio, on_tx, minor_of, on_tx_stamped, on_tx_error,
}

-- What happens to the stamps: a stamped completion of the frame at the tail, a batch of completions with
-- no stamp, an error, and a poll by the program.
pub data StampOp : Type 0 where
  stamps_one : (nsec nsec_frac16 : ℕ) (ctpio : Bool) → StampOp
  completes : (ids : List ℕ) (ctpio : Bool) → StampOp
  fails : StampOp
  polls : StampOp

-- What the polls of a run answer.
unfoldable pub run_stamps : EfConfig → List StampOp → EfTx → List (Option (ℕ × ℕ))
run_stamps c [] t = []
run_stamps c (stamps_one nsec nsec_frac16 ctpio ∷ ops) t =
    run_stamps c ops (on_tx_stamped c t.stamps.tx_tail (minor_of nsec nsec_frac16) ctpio t)
run_stamps c (completes ids ctpio ∷ ops) t = run_stamps c ops (on_tx c ids ctpio t)
run_stamps c (fails ∷ ops) t = run_stamps c ops (on_tx_error c t)
run_stamps c (polls ∷ ops) t =
    let p = poll_tx_timestamp c.nb_tx_bufs t.stamps in
    p.0 ∷ run_stamps c ops (record t { stamps = p.1 })

-- The stamps of a batch.
abbrev pub nones : List ℕ → List ℕ
nones [] = []
nones (i ∷ ids) = tx_stamp_none ∷ nones ids

-- The queue: `n` is the number of the frame whose stamp stands at its front.
unfoldable pub run_queue : List StampOp → ℕ → List ℕ → List (Option (ℕ × ℕ))
unfolding minor_of
run_queue [] n q = []
run_queue (stamps_one nsec nsec_frac16 ctpio ∷ ops) n q =
    run_queue ops n (q ++ (minor_of nsec nsec_frac16 ∷ []))
run_queue (completes ids ctpio ∷ ops) n q = run_queue ops n (q ++ nones ids)
run_queue (fails ∷ ops) n q = run_queue ops n (q ++ (tx_stamp_none ∷ []))
run_queue (polls ∷ ops) n [] = none ∷ run_queue ops n []
run_queue (polls ∷ ops) n (m ∷ q) = some (n, m) ∷ run_queue ops (u32 (n + 1)) q

-- With `k` stamps waiting, the run never has more than `nb` of them waiting.
abbrev pub Fits : ℕ → List StampOp → ℕ → Type 0
Fits nb [] k = Unit {0}
Fits nb (stamps_one nsec nsec_frac16 ctpio ∷ ops) k = (k < nb) × Fits nb ops (k + 1)
Fits nb (completes ids ctpio ∷ ops) k = (k + length ids ≤ nb) × Fits nb ops (k + length ids)
Fits nb (fails ∷ ops) k = (k < nb) × Fits nb ops (k + 1)
Fits nb (polls ∷ ops) k = Fits nb ops (k - 1)

pub count_ctpio-stamps :
    (c : EfConfig) (ids : List ℕ) (ctpio : Bool) (t : EfTx)
    → (count_ctpio c ids ctpio t).stamps ≡ t.stamps
unfolding count_ctpio
count_ctpio-stamps c ids ctpio t = ground arith

module _ (nb : ℕ) (nb_pos : 0 < nb) (nb_word : nb < 2 ^ 32) (nb_dvd : nb ∣ 2 ^ 32) where
  slot_next : (i : ℕ) → u32 (i + 1) % nb ≡ bump nb (i % nb)
  slot_next i = mod-mod_of_dvd nb (i + 1) nb_dvd ∙ sym (mod-add-mod i nb 1)

  -- From frame `i` on, the ring has the stamps `q`, up to the tail.
  abbrev pub Holds : List ℕ → ℕ → ℕ → List ℕ → Type 0
  Holds stamps tail i [] = i ≡ tail
  Holds stamps tail i (m ∷ q) =
      (get_or stamps (i % nb) 0 ≡ i * 2 ^ 32 + m) × (m < 2 ^ 32) × Holds stamps tail (u32 (i + 1)) q

  Holds-Ahead :
      (stamps : List ℕ) (tail i : ℕ) (q : List ℕ)
      → length q ≤ nb
      → Holds stamps tail i q
      → Ahead nb (i % nb) (length q) (tail % nb)
  Holds-Ahead stamps tail i [] b h =
      rw (sym h) (mod-lt i nb_pos, mod-lt i nb_pos, inl (omega arith))
  Holds-Ahead stamps tail i (m ∷ q) b h =
      Ahead-unbump nb (i % nb) (length q) (tail % nb) (omega arith) (mod-lt i nb_pos) (
        subst (λ s. Ahead nb s (length q) (tail % nb)) (slot_next i)
          (Holds-Ahead stamps tail (u32 (i + 1)) q (omega arith) h.2))

  pub Holds-tail :
      (stamps : List ℕ) (tail i : ℕ) (q : List ℕ)
      → i < 2 ^ 32
      → Holds stamps tail i q
      → tail ≡ u32 (i + length q)
  Holds-tail stamps tail i [] b h = omega arith
  Holds-tail stamps tail i (m ∷ q) b h =
      omega (arith, Holds-tail stamps tail (u32 (i + 1)) q (omega arith) h.2)

  Holds-push :
      (stamps : List ℕ) (tail i : ℕ) (q : List ℕ) (m : ℕ)
      → length stamps ≡ nb
      → length q < nb
      → m < 2 ^ 32
      → Holds stamps tail i q
      → Holds (set stamps (tail % nb) (bit_or (tail * 2 ^ 32) m)) (u32 (tail + 1)) i (q ++ (m ∷ []))
  Holds-push stamps tail i [] m l b w h = rw h (
    get_or-set_self stamps (tail % nb) _ 0 (omega (arith, mod-lt tail nb_pos))
        ∙ bit_or_fields 32 tail m w,
    w,
    refl,
  )
  Holds-push stamps tail i (n ∷ q) m l b w h =
      let a = Holds-Ahead stamps tail i (n ∷ q) (omega arith) h in
      let apart : (tail % nb) ≢ (i % nb) = ground (arith, a) in
      (
        get_or-set_ne stamps _ 0 apart ∙ h.0,
        h.1,
        Holds-push stamps tail (u32 (i + 1)) q m l (omega arith) w h.2,
      )

  -- The state of the ring with the stamps `q` waiting.
  abbrev pub Waits : StampRing → List ℕ → Type 0
  Waits r q =
      (length r.tx_stamp ≡ nb)
      × (r.ts_cursor < 2 ^ 32)
      × (length q ≤ nb)
      × Holds r.tx_stamp r.tx_tail r.ts_cursor q

  pub stamp_at-Waits :
      (r : StampRing) (q : List ℕ) (m : ℕ)
      → m < 2 ^ 32
      → length q < nb
      → Waits r q
      → Waits (stamp_at (r.tx_tail % nb) m r) (q ++ (m ∷ []))
  unfolding stamp_at
  stamp_at-Waits r q m w b h = (
    length-set r.tx_stamp (r.tx_tail % nb) _ ∙ h.0,
    h.1,
    omega (arith, length-append q (m ∷ [])),
    Holds-push r.tx_stamp r.tx_tail r.ts_cursor q m h.0 b w h.3,
  )

  pub stamp_nones-Waits :
      (ids : List ℕ) (r : StampRing) (q : List ℕ)
      → length q + length ids ≤ nb
      → Waits r q
      → Waits (stamp_nones nb ids r) (q ++ nones ids)
  unfolding stamp_nones
  stamp_nones-Waits [] r q b h = rw (append_nil q) h
  stamp_nones-Waits (i ∷ ids) r q b h = rw (sym (append_assoc q (tx_stamp_none ∷ []) (nones ids))) (
      stamp_nones-Waits ids _ (q ++ (tx_stamp_none ∷ []))
        (omega (arith, length-append q (tx_stamp_none ∷ [])))
        (stamp_at-Waits r q tx_stamp_none (omega arith) (omega arith) h))

  pub poll-empty : (r : StampRing) → Waits r [] → poll_tx_timestamp nb r ≡ (none, r)
  unfolding poll_tx_timestamp
  poll-empty r h = ground (arith, h)

  pub poll-front :
      (r : StampRing) (m : ℕ) (q : List ℕ)
      → Waits r (m ∷ q)
      → let p = poll_tx_timestamp nb r in
        (p.0 ≡ some (r.ts_cursor, m)) × (p.1.ts_cursor ≡ u32 (r.ts_cursor + 1)) × Waits p.1 q
  unfolding poll_tx_timestamp take_stamp
  poll-front r m q h =
      let t = Holds-tail r.tx_stamp r.tx_tail r.ts_cursor (m ∷ q) h.1 h.3 in
      let seq : get_or r.tx_stamp (r.ts_cursor % nb) 0 / 2 ^ 32 ≡ r.ts_cursor =
        omega (arith, h.3.0) in
      let lo : u32 (get_or r.tx_stamp (r.ts_cursor % nb) 0) ≡ m = omega (arith, h.3.0) in
      let due : (r.ts_cursor == r.tx_tail) ≡ false = ground (arith, t) in
      let mine : (get_or r.tx_stamp (r.ts_cursor % nb) 0 / 2 ^ 32 == r.ts_cursor) ≡ true =
        ground (arith, seq) in
      rw (due, mine) (ap₂ (λ x y. some (x, y)) seq lo, refl, (h.0, omega arith, omega arith, h.3.2))
