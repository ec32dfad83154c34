-- ===== src/Verbs/Tx/Depth.antt =====
-- How full the send queue of src/backends/Verbs/Verbs.hpp is.
use native.Mathlib.Decide.{dec_lt}
use native.Mathlib.Nat.{
  mod-add-mod, mod-lt, mul-le-mul_right, div-mul-le_self, div-le_self, le-div_iff_mul-le,
}
use abtrda.Prelude.{
  ℕ, suc, ◌+◌, ◌-◌, ◌*◌, ◌/◌, ◌%◌, ◌^◌, ◌≤◌, ◌<◌, ◌≡◌, refl, sym, ◌∙◌, ◌≢◌, inl, inr, Bool, true,
  false, some, List, [], ◌∷◌, arith, ◌==◌, u32, u64,
}
use abtrda.Ring.{bump, bump-cases}
use abtrda.Verbs.Tx.{VerbsTx, reap_below, reap, reap_limit, posted, verbs_commit}

-- As many polls as are needed find a completion.
abbrev pub hits : List Bool → ℕ
hits [] = 0
hits (true ∷ ps) = suc (hits ps)
hits (false ∷ ps) = hits ps

reap_below-some :
    (limit : ℕ) (ps : List Bool) (u : ℕ)
    → 0 < limit
    → u < limit + hits ps
    → (v : ℕ) × (reap_below limit ps u ≡ some v) × (v < limit) × (v ≤ u)
unfolding reap_below
reap_below-some limit [] u z h = (u, ground arith, omega arith, omega arith)
reap_below-some limit (true ∷ ps) u z h = elim (dec_lt u limit) [
  | yes below ↦ (u, ground arith, below, omega arith)
  | no above ↦
      let (v, e, b, l) = reap_below-some limit ps (u - 1) z (omega arith) in
      (v, ground (arith, e), b, omega arith)
]
reap_below-some limit (false ∷ ps) u z h = elim (dec_lt u limit) [
  | yes below ↦ (u, ground arith, below, omega arith)
  | no above ↦
      let (v, e, b, l) = reap_below-some limit ps u z (omega arith) in
      (v, ground (arith, e), b, omega arith)
]

reap-some :
    (limit : ℕ) (ps : List Bool) (u : ℕ)
    → 1 < limit
    → u ≤ limit
    → 0 < hits ps
    → (v : ℕ) × (reap limit ps u ≡ some v) × (v < limit)
unfolding reap
reap-some limit [] u z h p = absurd (omega arith)
reap-some limit (true ∷ ps) u z h p = elim (dec_lt u 2) [
  | yes few ↦ (u, ground arith, omega arith)
  | no many ↦
      let (v, e, b, l) = reap_below-some limit ps (u - 1) (omega arith) (omega arith) in
      (v, ground (arith, e), b)
]
reap-some limit (false ∷ ps) u z h p = elim (dec_lt u 2) [
  | yes few ↦ (u, ground arith, omega arith)
  | no many ↦
      let (v, e, b, l) = reap_below-some limit ps u (omega arith) (omega arith) in
      (v, ground (arith, e), b)
]

whole : (c : ℕ) → c + 1 < 2 ^ 64 → u64 (c + 1) ≡ c + 1
whole c h = omega arith

-- The next number by its remainder.
next_mod : (n c : ℕ) → 0 < n → ((c + 1) % n ≡ bump n (c % n)) × (c % n < n)
next_mod n c z = (sym (mod-add-mod c n 1), mod-lt c z)

module _ (sq_depth signal_every max_frame : ℕ) where
  -- The requests posted and not known to be complete: a completion covers a whole period.
  abbrev pub in_flight : VerbsTx → ℕ
  in_flight t = t.unreaped * signal_every + t.tx_count % signal_every

  posted_between :
      (t : VerbsTx)
      → t.tx_count + 1 < 2 ^ 64
      → (t.tx_count + 1) % signal_every ≢ 0
      → posted sq_depth signal_every max_frame t ≡ (record t { tx_count = t.tx_count + 1 })
  unfolding posted
  posted_between t c n = rw (whole t.tx_count c, other) refl
    where
      other : ((t.tx_count + 1) % signal_every == 0) ≡ false
      other = ground (arith, n)

  posted_signalled :
      (t : VerbsTx)
      → t.tx_count + 1 < 2 ^ 64
      → t.unreaped + 1 < 2 ^ 32
      → (t.tx_count + 1) % signal_every ≡ 0
      → posted sq_depth signal_every max_frame t
        ≡ (record t { tx_count = t.tx_count + 1; unreaped = t.unreaped + 1 })
  unfolding posted
  posted_signalled t c u e = rw (whole t.tx_count c, e, wide) refl
    where
      wide : u32 (t.unreaped + 1) ≡ t.unreaped + 1
      wide = omega arith

  -- What a request adds to the queue, and to the requests not known to be complete.
  Posted : VerbsTx → VerbsTx → Type 0
  Posted t s =
      (in_flight s ≡ in_flight t + 1)
      × (s.unreaped ≤ t.unreaped + 1)
      × (s.tx_count ≡ t.tx_count + 1)

  posted-Posted :
      (t : VerbsTx)
      → 0 < signal_every
      → t.tx_count + 1 < 2 ^ 64
      → t.unreaped + 1 < 2 ^ 32
      → Posted t (posted sq_depth signal_every max_frame t)
  unfolding Posted
  posted-Posted t z c u =
      elim (bump-cases signal_every (t.tx_count % signal_every)
        (next_mod signal_every t.tx_count z).1) [
          | inl (short, e) ↦
              let rest = next ∙ e in
              rw (posted_between t c (ground (arith, rest))) (ground (arith, rest))
          | inr (full, e) ↦
              let rest = next ∙ e in
              rw (posted_signalled t c u rest) (ground (arith, rest, full, mul-suc t.unreaped))
        ]
    where
      next : (t.tx_count + 1) % signal_every ≡ bump signal_every (t.tx_count % signal_every)
      next = (next_mod signal_every t.tx_count z).0

      mul-suc : (n : ℕ) → (n + 1) * signal_every ≡ n * signal_every + signal_every
      mul-suc n = omega arith

  depth_room :
      (t : VerbsTx)
      → 0 < signal_every
      → t.unreaped < reap_limit sq_depth signal_every max_frame
      → in_flight t + 1 ≤ sq_depth
  depth_room t z h =
      let periods =
        mul-le-mul_right {m = t.unreaped + 1} {n = sq_depth / signal_every} signal_every
          (omega arith) in
      let one = mul-suc t.unreaped in
      omega (
        arith,
        periods,
        one,
        div-mul-le_self sq_depth signal_every,
        (next_mod signal_every t.tx_count z).1,
      )
    where
      mul-suc : (n : ℕ) → (n + 1) * signal_every ≡ n * signal_every + signal_every
      mul-suc n = omega arith

  -- For a queue of 16 bits that holds four signal periods, fewer signalled requests unreaped than the
  -- limit, and polls of which at least one finds a completion: the request that commit posts still
  -- fits the queue with all that are not known to be complete; commit returns; and fewer
  -- signalled requests than the limit are unreaped again, so that the next request fits too.
  pub verbs_commit-fits :
      (polls : List Bool) (t : VerbsTx)
      → 0 < signal_every
      → 4 * signal_every ≤ sq_depth
      → sq_depth < 2 ^ 16
      → t.tx_count + 1 < 2 ^ 64
      → t.unreaped < reap_limit sq_depth signal_every max_frame
      → 0 < hits polls
      → (in_flight (posted sq_depth signal_every max_frame t) ≡ in_flight t + 1)
        × (in_flight (posted sq_depth signal_every max_frame t) ≤ sq_depth)
        × ((s : VerbsTx) × (verbs_commit sq_depth signal_every max_frame polls t ≡ some s)
            × (s.unreaped < reap_limit sq_depth signal_every max_frame)
            × (s.tx_count ≡ t.tx_count + 1))
  unfolding verbs_commit Posted
  verbs_commit-fits polls t z f b c u h =
      let four = (le-div_iff_mul-le {k = signal_every} {x = 4} {y = sq_depth} z).1 f in
      let p = posted-Posted t z c (omega (arith, div-le_self sq_depth signal_every)) in
      let (v, e, below) =
        reap-some (reap_limit sq_depth signal_every max_frame) polls
          (posted sq_depth signal_every max_frame t).unreaped (omega (arith, four))
          (omega (arith, p.1)) h in
      (
        p.0,
        omega (arith, p.0, depth_room t z u),
        (record (posted sq_depth signal_every max_frame t) { unreaped = v }, rw e refl, below, p.2),
      )
