-- ===== src/I210/Tx/Done.antt =====
-- Which descriptors txReclaim of src/backends/IGBCustomPMD/Intel_I210.hpp takes back.
use abtrda.Prelude.{
  ℕ, zero, suc, ◌+◌, ◌*◌, ◌%◌, ◌==◌, ◌≤◌, ◌<◌, ◌≡◌, refl, ◌∙◌, ap, sym, subst, ◌≢◌, ◌⊎◌, inl, inr,
  if◌then◌else◌, Bool, true, false, Option, none, some, arith, leb, Bool-cases, get_or,
  get_or-set_ne,
}
use abtrda.Ring.{bump, Ahead, Ahead-bump_back, Ahead-unbump}
use abtrda.I210.Tx.{
  zero_desc, TxRing, txd_stat_dd, retire, tx_reclaim_from, tx_reclaim, fill_desc, acquire_free,
  acquire,
}
use abtrda.I210.Tx.Cursors.{IsValid, retire-IsValid, Reclaimed, tx_reclaim_from-Reclaimed}

-- The NIC has marked the descriptor of a slot done: bit 0 of the word that it writes back.
abbrev pub is_done : TxRing → ℕ → Bool
is_done r slot = (get_or r.descs slot zero_desc).olinfo_status % 2 == 1

module _ (n buff_size : ℕ) (phys : ℕ → ℕ) where
  -- `s` is `r` after its `back` oldest descriptors, all marked done, were taken back.
  pub record Back (r s : TxRing) : Type 0 where
    pub back : ℕ
    pub counted : s.in_flight + back ≡ r.in_flight
    pub moved : Ahead n r.clean_head back s.clean_head
    pub done : (j slot : ℕ) → j < back → Ahead n r.clean_head j slot → is_done r slot ≡ true
    pub same_tail : s.tail ≡ r.tail
    pub same_buffer : s.buffer ≡ r.buffer
    pub none_back : back ≡ 0 → s ≡ r

  Back-self : (r : TxRing) → IsValid n buff_size r → Back r r
  Back-self r v = record {
    back = 0;
    counted = omega arith;
    moved = (v.spans.0, v.spans.0, inl (omega arith));
    done = λ j slot h a. absurd (omega (arith, h));
    same_tail = refl;
    same_buffer = refl;
    none_back = λ e. refl;
  }

  -- The oldest of the slots taken back, and the ones after it.
  done_next :
      (r : TxRing) (b j slot : ℕ)
      → b < n
      → is_done r r.clean_head ≡ true
      → ((i t : ℕ)
          → i < b
          → Ahead n (bump n r.clean_head) i t
          → is_done (retire n buff_size phys r) t ≡ true)
      → j < suc b
      → Ahead n r.clean_head j slot
      → is_done r slot ≡ true
  unfolding retire
  done_next r b zero slot h e f l a =
      let same : r.clean_head ≡ slot = ground (arith, a) in subst (λ t. is_done r t ≡ true) same e
  done_next r b (suc j) slot h e f l a =
      let apart : r.clean_head ≢ slot = λ q. ground (arith, a, q, h, l) in
      let other =
        get_or-set_ne r.descs (record (get_or r.descs r.clean_head zero_desc) { olinfo_status = 0 })
          zero_desc apart in
      ap txd_stat_dd (sym other)
      ∙ f j slot (omega (arith, l))
          (Ahead-bump_back n r.clean_head j slot (omega (arith, l, h)) (ground (arith, a)))

  fewer :
      (r : TxRing) (k : ℕ)
      → suc k ≡ r.in_flight
      → (retire n buff_size phys r).in_flight + 1 ≡ r.in_flight
  unfolding retire
  fewer r k h = omega (arith, h)

  after :
      (k : ℕ) (r : TxRing)
      → suc k ≡ r.in_flight
      → IsValid n buff_size r
      → is_done r r.clean_head ≡ true
      → Back
          (retire n buff_size phys r)
          (tx_reclaim_from n buff_size phys k (retire n buff_size phys r))
      → (retire n buff_size phys r).in_flight + 1 ≡ r.in_flight
      → Back r (tx_reclaim_from n buff_size phys k (retire n buff_size phys r))
  unfolding retire
  after k r h v e b less =
      let small : b.back < n = omega (arith, b.counted, less, v.fits) in
      record {
        back = suc b.back;
        counted = omega (arith, b.counted, less);
        moved = Ahead-unbump n r.clean_head b.back _ small v.spans.0 b.moved;
        done = λ j slot l a. done_next r b.back j slot small e b.done l a;
        same_tail = b.same_tail;
        same_buffer = b.same_buffer;
        none_back = λ z. absurd (omega (arith, z));
      }

  tx_reclaim_from-Back :
      (k : ℕ) (r : TxRing)
      → k ≡ r.in_flight
      → IsValid n buff_size r
      → Back r (tx_reclaim_from n buff_size phys k r)
  unfolding tx_reclaim_from
  tx_reclaim_from-Back zero r h v = Back-self r v
  tx_reclaim_from-Back (suc k) r h v = elim (Bool-cases (is_done r r.clean_head)) [
    | inl e ↦
        let w = retire-IsValid n buff_size phys k r (sym h) v in
        let less : (retire n buff_size phys r).in_flight + 1 ≡ r.in_flight = fewer r k h in
        let b = tx_reclaim_from-Back k (retire n buff_size phys r) (omega (arith, h, less)) w in
        rw e (after k r h v e b less)
    | inr e ↦ rw e (Back-self r v)
  ]

  -- What acquire makes of a ring: no room, every descriptor being in flight and the oldest not marked done;
  -- or room at the tail, after some were taken back.
  abbrev pub Got : ℕ → TxRing → Option ℕ → TxRing → Type 0
  Got frame_len r o s =
      ((o ≡ none) × (s ≡ r) × (r.in_flight ≡ n) × (is_done r r.clean_head ≡ false))
      ⊎ ((m : TxRing) × (o ≡ some (m.tail * buff_size))
          × (s ≡ fill_desc n buff_size phys frame_len m)
          × (m.in_flight < n)
          × Back r m)

  free-Got :
      (frame_len : ℕ) (r m : TxRing)
      → Back r m
      → m.in_flight ≤ n
      → (m.in_flight ≡ n → (m ≡ r) × (r.in_flight ≡ n) × (is_done r r.clean_head ≡ false))
      → let a = acquire_free n buff_size phys frame_len m in Got frame_len r a.0 a.1
  unfolding acquire_free
  free-Got frame_len r m b f h = elim (Bool-cases (leb n m.in_flight)) [
    | inl e ↦
        let (same, full, stuck) = h (ground (arith, e, f)) in rw e (inl (refl, same, full, stuck))
    | inr e ↦ rw e (inr (m, refl, refl, ground (arith, e), b))
  ]

  stuck :
      (r m : TxRing)
      → 0 < n
      → r.in_flight ≤ n
      → Back r m
      → Reclaimed n buff_size phys r m
      → m.in_flight ≡ n
      → (m ≡ r) × (r.in_flight ≡ n) × (is_done r r.clean_head ≡ false)
  stuck r m z f b c full =
      let same : m ≡ r = b.none_back (omega (arith, b.counted, f, full)) in
      let waits : is_done m m.clean_head ≡ false = ground (arith, c.stops, full, z) in
      (
        same,
        omega (arith, b.counted, f, full),
        subst (λ x. is_done x x.clean_head ≡ false) same waits,
      )

  if_full-Got :
      (b : Bool) (frame_len : ℕ) (r : TxRing)
      → leb n r.in_flight ≡ b
      → 0 < n
      → IsValid n buff_size r
      → let a =
          if b
          then acquire_free n buff_size phys frame_len (tx_reclaim n buff_size phys r)
          else acquire_free n buff_size phys frame_len r in
        Got frame_len r a.0 a.1
  unfolding tx_reclaim
  if_full-Got true frame_len r e z v =
      let m = tx_reclaim_from n buff_size phys r.in_flight r in
      let b = tx_reclaim_from-Back r.in_flight r refl v in
      let c = tx_reclaim_from-Reclaimed n buff_size phys r.in_flight r refl in
      free-Got frame_len r m b (omega (arith, b.counted, v.fits))
        (λ full. stuck r m z v.fits b c full)
  if_full-Got false frame_len r e z v =
      free-Got frame_len r r (Back-self r v) v.fits (λ full. absurd (ground (arith, e, full)))

  pub acquire-Got :
      (frame_len : ℕ) (r : TxRing)
      → 0 < n
      → IsValid n buff_size r
      → let a = acquire n buff_size phys frame_len r in Got frame_len r a.0 a.1
  unfolding acquire
  acquire-Got frame_len r z v = if_full-Got (leb n r.in_flight) frame_len r refl z v
