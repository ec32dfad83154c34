-- ===== src/Dpdk/Tx/Refcount.antt =====
-- The reference count of the buffer that is sent again and again, over dpdk_acquire and dpdk_commit of
-- src/backends/DPDK/DPDK.hpp and the device's decrements.
use mathlib.Core.Option.{some-injective}
use abtrda.Prelude.{
  ℕ, ◌+◌, ◌-◌, ◌^◌, ◌≤◌, ◌<◌, ◌≡◌, refl, sym, ◌∙◌, subst, ◌≢◌, ◌⊎◌, inl, inr, Bool, true, false,
  ◌&&◌, Option, none, some, List, arith, leb, Bool-cases, ◌>>=◌, >>=-eq-some,
}
use abtrda.Bytes.{memcpy}
use abtrda.Dpdk.Tx.{
  set_lengths, top_up, tx_burst, inline_safe_len, refcnt_low, refcnt_topup, Mbuf, Pending, nothing,
  reused, fresh_mbuf, DpdkTx, reuse_mbuf, acquire_reused, acquire_fresh, dpdk_acquire, dpdk_commit,
}

-- The sender with the sends of the reused buffer that the device has yet to decrement its count for, at
-- most `n`, the size of its queue.
pub data Counted (n : ℕ) : DpdkTx → ℕ → Type 0 where
  starts : (t : DpdkTx) → t.tx_reuse ≡ none → t.pending_tx ≡ nothing → Counted n t 0
  acquires :
      (t s : DpdkTx) (out frame_len : ℕ) (alloc : Option Mbuf) (got : Bool)
      → Counted n t out
      → dpdk_acquire frame_len alloc t ≡ some (got, s)
      → Counted n s out
  -- The device takes the reused buffer, for which its queue has room at that moment.
  commits :
      (t s : DpdkTx) (out : ℕ) (answers : List ℕ)
      → Counted n t out
      → t.pending_tx ≡ reused
      → out < n
      → dpdk_commit answers t ≡ some s
      → Counted n s (out + 1)
  -- The device takes another buffer.
  commits_other :
      (t s : DpdkTx) (out : ℕ) (answers : List ℕ)
      → Counted n t out
      → t.pending_tx ≢ reused
      → dpdk_commit answers t ≡ some s
      → Counted n s out
  -- The device completes `k` sends, be a buffer acquired or not.
  reaps :
      (t : DpdkTx) (m : Mbuf) (out k : ℕ)
      → Counted n t out
      → t.tx_reuse ≡ some m
      → k ≤ out
      → Counted n (record t { tx_reuse = some (record m { refcnt = m.refcnt - k }) }) (out - k)

-- A count that is good for the sends that are out, one that is good for one more, and the sender's.
abbrev Enough : ℕ → ℕ → Mbuf → Type 0
Enough n out m =
    (refcnt_low + out ≤ m.refcnt + n + 1) × (out ≤ n) × (m.refcnt < 2 ^ 16 - refcnt_topup)

abbrev ForOneMore : ℕ → ℕ → Mbuf → Type 0
ForOneMore n out m = refcnt_low + out ≤ m.refcnt + n

abbrev Kept : ℕ → ℕ → Option Mbuf → Pending → Type 0
Kept n out o p =
    ((o ≡ none) × (p ≢ reused) × (out ≡ 0))
    ⊎ ((m : Mbuf) × (o ≡ some m) × Enough n out m × (p ≡ reused → ForOneMore n out m))

abbrev is_reused : Pending → Bool
is_reused reused = true
is_reused p = false

reuse_mbuf-Enough :
    (n out : ℕ) (alloc : Option Mbuf) (t : DpdkTx) (m : Mbuf)
    → Kept n out t.tx_reuse t.pending_tx
    → reuse_mbuf alloc t ≡ some (some m)
    → Enough n out m
unfolding reuse_mbuf
reuse_mbuf-Enough n out alloc t m (inr (b, e, k, f)) h =
    subst (Enough n out) (some-injective _ _ (some-injective _ _ (rw e at h))) k
reuse_mbuf-Enough n out alloc t m (inl (e, p, z)) h = made alloc (rw e at h)
  where
    made :
        (alloc : Option Mbuf)
        → (elim alloc [
          | none ↦ some none
          | some m ↦
              memcpy 0 t.tx_template m.room
              >>= (λ d. some (some (record m { refcnt = refcnt_topup; room = d })))
        ])
          ≡ some (some m)
        → Enough n out m
    made none g = absurd (ground (arith, g))
    made (some b) g =
        let (d, c, q) = >>=-eq-some (memcpy 0 t.tx_template b.room) _ g in
        subst (Enough n out) (some-injective _ _ (some-injective _ _ q))
          (omega arith, omega arith, omega arith)

acquire_reused-Kept :
    (n out frame_len : ℕ) (t s : DpdkTx) (o : Option (Option Mbuf)) (got : Bool)
    → n < refcnt_low
    → ((m : Mbuf) → o ≡ some (some m) → Enough n out m)
    → Kept n out t.tx_reuse t.pending_tx
    → acquire_reused frame_len o t ≡ some (got, s)
    → Kept n out s.tx_reuse s.pending_tx
unfolding acquire_reused set_lengths top_up
acquire_reused-Kept n out frame_len t s none got h f k e = absurd (ground (arith, e))
acquire_reused-Kept n out frame_len t s (some none) got h f k e =
    subst (λ x. Kept n out x.1.tx_reuse x.1.pending_tx) (some-injective _ _ e) k
acquire_reused-Kept n out frame_len t s (some (some m)) got h f k e =
    subst (λ x. Kept n out x.1.tx_reuse x.1.pending_tx) (some-injective _ _ e)
      (inr (
        set_lengths frame_len (top_up m),
        refl,
        ground (arith, f m refl),
        λ r. ground (arith, f m refl),
      ))

not_reused : (p : Pending) → is_reused p ≡ false → p ≢ reused
not_reused p e q = ground (arith, e, q)

-- A sender with another buffer pending.
other-Kept :
    (n out : ℕ) (o : Option Mbuf) (p q : Pending) → q ≢ reused → Kept n out o p → Kept n out o q
other-Kept n out o p q d (inl (e, x, z)) = inl (e, d, z)
other-Kept n out o p q d (inr (m, e, k, f)) = inr (m, e, k, λ r. absurd (d r))

acquire_fresh-Kept :
    (n out frame_len : ℕ) (t s : DpdkTx) (alloc : Option Mbuf) (got : Bool)
    → Kept n out t.tx_reuse t.pending_tx
    → acquire_fresh frame_len alloc t ≡ some (got, s)
    → Kept n out s.tx_reuse s.pending_tx
unfolding acquire_fresh
acquire_fresh-Kept n out frame_len t s none got k e =
    subst (λ x. Kept n out x.1.tx_reuse x.1.pending_tx) (some-injective _ _ e)
      (other-Kept n out t.tx_reuse t.pending_tx nothing (not_reused nothing refl) k)
acquire_fresh-Kept n out frame_len t s (some m) got k e =
    let (d, c, q) = >>=-eq-some (memcpy 0 _ m.room) _ e in
    subst (λ x. Kept n out x.1.tx_reuse x.1.pending_tx) (some-injective _ _ q)
      (other-Kept n out t.tx_reuse t.pending_tx (fresh_mbuf _) (not_reused (fresh_mbuf _) refl) k)

acquire-Kept :
    (n out frame_len : ℕ) (alloc : Option Mbuf) (t s : DpdkTx) (got : Bool)
    → n < refcnt_low
    → Kept n out t.tx_reuse t.pending_tx
    → dpdk_acquire frame_len alloc t ≡ some (got, s)
    → Kept n out s.tx_reuse s.pending_tx
unfolding dpdk_acquire
acquire-Kept n out frame_len alloc t s got h k e =
    elim (Bool-cases (t.reuse_inline && leb frame_len inline_safe_len)) [
      | inl b ↦
          acquire_reused-Kept n out frame_len t s (reuse_mbuf alloc t) got h
            (λ m q. reuse_mbuf-Enough n out alloc t m k q) k (rw b at e)
      | inr b ↦ acquire_fresh-Kept n out frame_len t s alloc got k (rw b at e)
    ]

-- What a commit makes of the sender.
commit-nothing :
    (answers : List ℕ) (t s : DpdkTx)
    → dpdk_commit answers t ≡ some s
    → record t { pending_tx = nothing } ≡ s
unfolding dpdk_commit
commit-nothing answers t s e =
    let (r, c, q) = >>=-eq-some (tx_burst answers) _ e in some-injective _ _ q

sent-Kept :
    (n out : ℕ) (o : Option Mbuf) (p : Pending)
    → p ≡ reused
    → out < n
    → Kept n out o p
    → Kept n (out + 1) o nothing
sent-Kept n out o p r b (inl (e, x, z)) = absurd (x r)
sent-Kept n out o p r b (inr (m, e, k, f)) =
    inr (m, e, omega (arith, f r, k, b), λ q. absurd (not_reused nothing refl q))

reaped-Kept :
    (n out k : ℕ) (m : Mbuf) (o : Option Mbuf) (p : Pending)
    → n < refcnt_low
    → k ≤ out
    → o ≡ some m
    → Kept n out o p
    → Kept n (out - k) (some (record m { refcnt = m.refcnt - k })) p
reaped-Kept n out k m o p h b e (inl (q, x, z)) = absurd (ground (arith, e, q))
reaped-Kept n out k m o p h b e (inr (u, q, w, f)) =
    let same : u ≡ m = some-injective _ _ (sym q ∙ e) in
    let v : Enough n out m = subst (Enough n out) same w in
    inr (
      record m { refcnt = m.refcnt - k },
      refl,
      omega (arith, v, h, b),
      λ r. omega (arith, subst (ForOneMore n out) same (f r), v, h, b),
    )

Counted-Kept :
    (n : ℕ) (t : DpdkTx) (out : ℕ)
    → n < refcnt_low
    → Counted n t out
    → Kept n out t.tx_reuse t.pending_tx
Counted-Kept n t _ h (starts _ e p) =
    inl (e, subst (λ x. x ≢ reused) (sym p) (not_reused nothing refl), refl)
Counted-Kept n s out h (acquires t _ _ frame_len alloc got c e) =
    acquire-Kept n out frame_len alloc t s got h (Counted-Kept n t out h c) e
Counted-Kept n s _ h (commits t _ out answers c r b e) =
    subst (λ x. Kept n (out + 1) x.tx_reuse x.pending_tx) (commit-nothing answers t s e)
      (sent-Kept n out t.tx_reuse t.pending_tx r b (Counted-Kept n t out h c))
Counted-Kept n s out h (commits_other t _ _ answers c d e) =
    subst (λ x. Kept n out x.tx_reuse x.pending_tx) (commit-nothing answers t s e)
      (other-Kept n out t.tx_reuse t.pending_tx nothing (not_reused nothing refl)
        (Counted-Kept n t out h c))
Counted-Kept n _ _ h (reaps t m out k c e b) =
    reaped-Kept n out k m t.tx_reuse t.pending_tx h b e (Counted-Kept n t out h c)

-- With a transmit queue of fewer than 8191 descriptors, however the sender acquires and commits, on the
-- path of the reused buffer or the other, and the device completes sends in between, also between an
-- acquire and its commit: the count of the reused buffer is above the sends outstanding, so that no
-- completion frees it, and it stays below 2^16 less the top-up, so that no top-up leaves its 16 bits.
pub Counted-positive :
    (n : ℕ) (t : DpdkTx) (out : ℕ) (m : Mbuf)
    → n + 1 < refcnt_low
    → Counted n t out
    → t.tx_reuse ≡ some m
    → (out < m.refcnt) × (out ≤ n) × (m.refcnt < 2 ^ 16 - refcnt_topup)
Counted-positive n t out m h c e = kept (Counted-Kept n t out (omega arith) c)
  where
    kept :
        Kept n out t.tx_reuse t.pending_tx
        → (out < m.refcnt) × (out ≤ n) × (m.refcnt < 2 ^ 16 - refcnt_topup)
    kept (inl (q, x, z)) = absurd (ground (arith, e, q))
    kept (inr (u, q, w, f)) =
        let v : Enough n out m = subst (Enough n out) (some-injective _ _ (sym q ∙ e)) w in
        (omega (arith, v, h), omega (arith, v), omega (arith, v))
