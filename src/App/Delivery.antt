-- ===== src/App/Delivery.antt =====
-- The frames and the counters of run_txgen (src/app/TxGenerator.hpp) and run_rxsink (src/app/RxSink.hpp).
use abtrda.Prelude.{
  ℕ, zero, suc, ◌+◌, ◌^◌, ◌≤◌, ◌<◌, ◌≡◌, refl, ap, ap₂, ◌∙◌, ◌≢◌, inl, inr, Bool, true, false,
  if◌then◌else◌, ◌>>=◌, Option, none, some, List, [], ◌∷◌, ◌++◌, map, arith, ltb, leb, Bool-cases,
  length, length-append, u32, u64,
}
use abtrda.Bytes.{le_bytes, overlay, slice, memcpy, store_u, swap32}
use abtrda.Bytes.Laws.{length-overlay, slice-overlay_before, length-le_bytes}
use abtrda.App.Echo.{bytes_eq_self}
use abtrda.App.Client.{bytes_eq}
use abtrda.App.Traffic.{
  Generator, GeneratorTurn, generate, generate_loop, run_txgen, Sink, sink_frame, sink_poll,
  run_rxsink,
}

abbrev AllFor : List ℕ → List (List ℕ) → Type 0
AllFor mac [] = Unit {0}
AllFor mac (f ∷ fs) = (6 ≤ length f) × (slice 0 6 f ≡ mac) × AllFor mac fs

AllFor-snoc :
    (mac : List ℕ) (fs : List (List ℕ)) (f : List ℕ)
    → AllFor mac fs
    → 6 ≤ length f
    → slice 0 6 f ≡ mac
    → AllFor mac (fs ++ (f ∷ []))
AllFor-snoc mac [] f h l e = (l, e, tt)
AllFor-snoc mac (g ∷ fs) f h l e = (h.0, h.1, AllFor-snoc mac fs f h.2 l e)

run_rxsink-AllFor :
    (mac : List ℕ) (fs : List (List ℕ)) (s : Sink)
    → s.accepted + length fs < 2 ^ 64
    → AllFor mac fs
    → run_rxsink mac (map some fs) s ≡ some (record s { accepted = s.accepted + length fs })
unfolding run_rxsink sink_poll sink_frame
run_rxsink-AllFor mac [] s w h = ap (λ n. some (record s { accepted = n })) (omega arith)
run_rxsink-AllFor mac (f ∷ fs) s w h =
    let long : leb 6 (length f) ≡ true = ground (arith, h.0) in
    let next : u64 (s.accepted + 1) ≡ s.accepted + 1 = omega (arith, w) in
    rw (long, h.1, bytes_eq_self mac, next)
      (run_rxsink-AllFor mac fs (record s { accepted = s.accepted + 1 }) (omega arith) h.2
        ∙ ap (λ n. some (record s { accepted = n })) (omega arith))

-- A slot with room for the number and the time, whose header has the sink's address.
abbrev pub SlotFor : List ℕ → Option (List ℕ) → Type 0
SlotFor mac none = Unit {0}
SlotFor mac (some slot) = (26 ≤ length slot) × (slice 0 6 slot ≡ mac)

abbrev pub Addressed : List ℕ → List GeneratorTurn → Type 0
Addressed mac [] = Unit {0}
Addressed mac (t ∷ ts) = SlotFor mac t.slot × Addressed mac ts

-- The slots of the turns that are done when `k` are left: up to a stop.
abbrev pub due : ℕ → List GeneratorTurn → List (Option (List ℕ))
due k [] = []
due zero (t ∷ ts) = []
due (suc k) (t ∷ ts) = if t.stop then [] else t.slot ∷ due k ts

-- How many turns found a slot, and how many a full ring.
abbrev pub given : List (Option (List ℕ)) → ℕ
given [] = 0
given (none ∷ os) = given os
given (some slot ∷ os) = suc (given os)

abbrev pub refused : List (Option (List ℕ)) → ℕ
refused [] = 0
refused (none ∷ os) = suc (refused os)
refused (some slot ∷ os) = refused os

-- Every frame made is counted and has the sink's address, after at most `i` turns.
abbrev Made : List ℕ → ℕ → Generator → Type 0
Made mac i g = (g.sent + g.failed ≤ i) × (length g.frames ≡ g.sent) × AllFor mac g.frames

-- The counters after more turns, in which these slots were met.
abbrev Added : List (Option (List ℕ)) → Generator → Generator → Type 0
Added os g u = (u.sent ≡ g.sent + given os) × (u.failed ≡ g.failed + refused os)

generate-Made :
    (mac : List ℕ) (i now : ℕ) (stop : Bool) (slot : Option (List ℕ)) (g : Generator)
    → i + 1 < 2 ^ 32
    → SlotFor mac slot
    → Made mac i g
    → (u : Generator) × (generate i (record { stop = stop; slot = slot; now_ns = now }) g ≡ some u)
      × Made mac (i + 1) u
      × Added (slot ∷ []) g u
unfolding generate store_u memcpy
generate-Made mac i now stop none g w a m = (
  record g { failed = u32 (g.failed + 1) },
  refl,
  (omega (arith, m), m.1, m.2),
  (omega (arith, m), omega (arith, m)),
)
generate-Made mac i now stop (some slot) g w (l, e) m =
    let number = le_bytes 4 (swap32 i) in
    let time = le_bytes 8 now in
    let b = overlay 14 number slot in
    let f = overlay 18 time b in
    let lb = length-overlay 14 number slot in
    let lf = length-overlay 18 time b in
    let first : leb (14 + length number) (length slot) ≡ true =
      ground (arith, length-le_bytes 4 (swap32 i)) in
    let second : leb (18 + length time) (length b) ≡ true =
      ground (arith, lb, length-le_bytes 8 now) in
    let header : slice 0 6 f ≡ mac =
      slice-overlay_before 0 6 18 time b (omega arith)
      ∙ slice-overlay_before 0 6 14 number slot (omega arith)
      ∙ e in
    (
      record g { sent = u32 (g.sent + 1); frames = g.frames ++ (f ∷ []) },
      rw (first, second) refl,
      (
        omega (arith, m),
        omega (arith, m, length-append g.frames (f ∷ [])),
        AllFor-snoc mac g.frames f m.2 (omega (arith, lb, lf)) header,
      ),
      (omega (arith, m), omega arith),
    )

Added-cons :
    (o : Option (List ℕ)) (os : List (Option (List ℕ))) (g u v : Generator)
    → Added (o ∷ []) g u
    → Added os u v
    → Added (o ∷ os) g v
Added-cons none os g u v a b = (omega (arith, a, b), omega (arith, a, b))
Added-cons (some slot) os g u v a b = (omega (arith, a, b), omega (arith, a, b))

abbrev Loops : List ℕ → ℕ → List (Option (List ℕ)) → Generator → Option Generator → Type 0
Loops mac count os g o = (u : Generator) × (o ≡ some u) × Made mac count u × Added os g u

stays-Loops :
    (mac : List ℕ) (i count : ℕ) (g : Generator)
    → i ≤ count
    → Made mac i g
    → Loops mac count [] g (some g)
stays-Loops mac i count g h m =
    (g, refl, (omega (arith, m, h), m.1, m.2), (omega arith, omega arith))

generate_loop-Loops :
    (mac : List ℕ) (count i k : ℕ) (ts : List GeneratorTurn) (g : Generator)
    → count < 2 ^ 32
    → i + k ≡ count
    → Addressed mac ts
    → Made mac i g
    → Loops mac count (due k ts) g (generate_loop count i ts g)
unfolding generate_loop
generate_loop-Loops mac count i k [] g w b a m = stays-Loops mac i count g (omega (arith, b)) m
generate_loop-Loops mac count i zero (t ∷ ts) g w b a m =
    let over : ltb i count ≡ false = ground (arith, b) in
    rw over (stays-Loops mac i count g (omega (arith, b)) m)
generate_loop-Loops mac count i (suc k) (t ∷ ts) g w b a m =
    let more : ltb i count ≡ true = ground (arith, b) in
    elim (Bool-cases t.stop) [
      | inl e ↦ rw (more, e) (stays-Loops mac i count g (omega (arith, b)) m)
      | inr e ↦
          let (u, x, y, z) =
            generate-Made mac i t.now_ns t.stop t.slot g (omega (arith, b)) a.0 m in
          let (v, p, q, r) =
            generate_loop-Loops mac count (i + 1) k ts u w (omega (arith, b)) a.1 y in
          rw (more, e)
            (
              v,
              ap (λ o. o >>= generate_loop count (i + 1) ts) x ∙ p,
              q,
              Added-cons t.slot (due k ts) g u v z r,
            )
    ]

bytes_eq-eq : (xs ys : List ℕ) → bytes_eq xs ys ≡ true → xs ≡ ys
unfolding bytes_eq
bytes_eq-eq [] [] e = refl
bytes_eq-eq [] (y ∷ ys) e = absurd (ground (arith, e))
bytes_eq-eq (x ∷ xs) [] e = absurd (ground (arith, e))
bytes_eq-eq (x ∷ xs) (y ∷ ys) e =
    ap₂ (λ z zs. z ∷ zs) (ground (arith, e)) (bytes_eq-eq xs ys (ground (arith, e)))

bytes_eq-ne : (xs ys : List ℕ) → xs ≢ ys → bytes_eq xs ys ≡ false
bytes_eq-ne xs ys d = elim (Bool-cases (bytes_eq xs ys)) [
  | inl e ↦ absurd (d (bytes_eq-eq xs ys e))
  | inr e ↦ e
]

-- A sink with another address.
run_rxsink-rejects :
    (mac other : List ℕ) (fs : List (List ℕ)) (s : Sink)
    → mac ≢ other
    → s.rejected + length fs < 2 ^ 64
    → AllFor mac fs
    → run_rxsink other (map some fs) s ≡ some (record s { rejected = s.rejected + length fs })
unfolding run_rxsink sink_poll sink_frame
run_rxsink-rejects mac other [] s d w h = ap (λ n. some (record s { rejected = n })) (omega arith)
run_rxsink-rejects mac other (f ∷ fs) s d w h =
    let long : leb 6 (length f) ≡ true = ground (arith, h.0) in
    let next : u64 (s.rejected + 1) ≡ s.rejected + 1 = omega (arith, w) in
    rw (long, h.1, bytes_eq-ne mac other d, next)
      (run_rxsink-rejects mac other fs (record s { rejected = s.rejected + 1 }) d (omega arith) h.2
        ∙ ap (λ n. some (record s { rejected = n })) (omega arith))

-- For a count of 32 bits and slots with room whose header has the sink's address: the generator returns;
-- of the turns up to a stop, the count or the end, it has counted those that found a slot as sent, one
-- frame each, and those that met a full ring as failed; a sink that is given its frames accepts every
-- one and rejects none; and a sink with another address rejects every one.
pub run_txgen-accepted :
    (mac : List ℕ) (count : ℕ) (ts : List GeneratorTurn)
    → count < 2 ^ 32
    → Addressed mac ts
    → (g : Generator) × (run_txgen count ts ≡ some g)
      × (g.sent ≡ given (due count ts))
      × (g.failed ≡ refused (due count ts))
      × (run_rxsink mac (map some g.frames) (record { accepted = 0; rejected = 0 })
          ≡ some (record { accepted = g.sent; rejected = 0 }))
      × ((other : List ℕ)
          → mac ≢ other
          → run_rxsink other (map some g.frames) (record { accepted = 0; rejected = 0 })
            ≡ some (record { accepted = 0; rejected = g.sent }))
unfolding run_txgen
run_txgen-accepted mac count ts w a =
    let start : Generator = record { sent = 0; failed = 0; frames = [] } in
    let (g, e, m, c) =
      generate_loop-Loops mac count 0 count ts start w (omega arith) a (omega arith, refl, tt) in
    let none_yet : Sink = record { accepted = 0; rejected = 0 } in
    (
      g,
      e,
      c.0 ∙ omega arith,
      c.1 ∙ omega arith,
      run_rxsink-AllFor mac g.frames none_yet (omega (arith, w, m)) m.2
          ∙ ap (λ n. some (record { accepted = n; rejected = 0 })) (omega (arith, m)),
      λ other d.
          run_rxsink-rejects mac other g.frames none_yet d (omega (arith, w, m)) m.2
          ∙ ap (λ n. some (record { accepted = 0; rejected = n })) (omega (arith, m)),
    )
