-- ===== src/AfXdp/Frames.antt =====
-- The places of the transmit and the receive frames of src/backends/AF_XDP/AFXDP.hpp in its memory.
use native.Mathlib.Nat.{mod-lt, mul-div_cancel, mul-le-mul_right}
use native.Mathlib.Decide.{ℕ_discrete}
use mathlib.Core.Option.{some-injective}
use abtrda.Prelude.{
  ℕ, zero, suc, ◌+◌, ◌*◌, ◌/◌, Bool-cases, inl, inr, ◌≤◌, ◌<◌, ◌≡◌, refl, sym, ap, ap₂, ◌∙◌, subst,
  some, List, [], ◌∷◌, ◌++◌, arith, ◌==◌, if◌then◌else◌,
}
use abtrda.Ring.{bump}
use abtrda.AfXdp.{
  XdpTx, XdpRx, xdp_receive, xdp_release, complete_tx, reserve_tx, xdp_acquire, submit_tx,
  xdp_commit, fill_addrs, populate_fill,
}

-- How often a frame, given by its number, is the place of an address of a list.
unfoldable pub count_frame : ℕ → ℕ → List ℕ → ℕ
count_frame size f [] = 0
count_frame size f (x ∷ xs) =
    if x / size == f then suc (count_frame size f xs) else count_frame size f xs

count_frame-append :
    (size f : ℕ) (xs ys : List ℕ)
    → count_frame size f (xs ++ ys) ≡ count_frame size f xs + count_frame size f ys
unfolding count_frame
count_frame-append size f [] ys = omega arith
count_frame-append size f (x ∷ xs) ys = ground (arith, count_frame-append size f xs ys)

-- The fill ring, the receive ring's descriptors and the state of the driver. The kernel takes any frame
-- of the fill ring and hands it on in the receive ring, at any place inside it (past its headroom); the
-- driver receives the first descriptor and releases it.
pub data Flow (size : ℕ) (fill0 : List ℕ) : List ℕ → List (ℕ × ℕ) → XdpRx → Type 0 where
  starts : (s : XdpRx) → Flow size fill0 fill0 [] s
  delivers :
      (before after : List ℕ) (rx : List (ℕ × ℕ)) (s : XdpRx) (addr at len : ℕ)
      → Flow size fill0 (before ++ (addr ∷ after)) rx s
      → at / size ≡ addr / size
      → Flow size fill0 (before ++ after) (rx ++ ((at, len) ∷ [])) s
  turns :
      (fill : List ℕ) (rx : List (ℕ × ℕ)) (d : ℕ × ℕ) (s : XdpRx)
      → Flow size fill0 fill (d ∷ rx) s
      → Flow size fill0
          (fill ++ (xdp_release (xdp_receive (some d) 1 s).1 ∷ []))
          rx
          (xdp_receive (some d) 1 s).1

abbrev pub addresses : List (ℕ × ℕ) → List ℕ
addresses [] = []
addresses (d ∷ rx) = d.0 ∷ addresses rx

count-addresses_snoc :
    (size f at len : ℕ) (rx : List (ℕ × ℕ))
    → count_frame size f (addresses (rx ++ ((at, len) ∷ [])))
      ≡ count_frame size f (addresses rx) + count_frame size f (at ∷ [])
unfolding count_frame
count-addresses_snoc size f at len [] = omega arith
count-addresses_snoc size f at len (d ∷ rx) = ground (arith, count-addresses_snoc size f at len rx)

-- A frame stands as often in the two rings together as it stood in the fill ring at first.
Flow-count :
    (size : ℕ) (fill0 fill : List ℕ) (rx : List (ℕ × ℕ)) (s : XdpRx) (f : ℕ)
    → Flow size fill0 fill rx s
    → count_frame size f fill + count_frame size f (addresses rx) ≡ count_frame size f fill0
unfolding count_frame xdp_receive
Flow-count size fill0 _ _ _ f (starts s) = omega arith
Flow-count size fill0 _ _ _ f (delivers before after rx s addr at len c e) = ground (
  arith,
  count_frame-append size f before (addr ∷ after),
  count_frame-append size f before after,
  count-addresses_snoc size f at len rx,
  Flow-count size fill0 (before ++ (addr ∷ after)) rx s f c,
  e,
)
Flow-count size fill0 _ _ _ f (turns fill rx d s c) =
    ground
      (arith, count_frame-append size f fill (d.0 ∷ []), Flow-count size fill0 fill (d ∷ rx) s f c)

module _ (tx_pool_frames rx_pool_frames frame_size : ℕ) (sized : 0 < frame_size) where
  place : (i : ℕ) → (tx_pool_frames + i) * frame_size / frame_size ≡ tx_pool_frames + i
  place i = mul-div_cancel (tx_pool_frames + i) sized

  fill-before :
      (k i f : ℕ)
      → f < tx_pool_frames + i
      → count_frame frame_size f (fill_addrs tx_pool_frames rx_pool_frames frame_size k i) ≡ 0
  unfolding fill_addrs count_frame
  fill-before zero i f h = refl
  fill-before (suc k) i f h = ground (arith, place i, fill-before k (i + 1) f (omega arith))

  fill-once :
      (k i f : ℕ)
      → tx_pool_frames + i ≤ f
      → f < tx_pool_frames + i + k
      → count_frame frame_size f (fill_addrs tx_pool_frames rx_pool_frames frame_size k i) ≡ 1
  unfolding fill_addrs count_frame
  fill-once zero i f l h = absurd (omega arith)
  fill-once (suc k) i f l h = elim (ℕ_discrete (tx_pool_frames + i) f) [
    | yes e ↦ ground (arith, place i, e, fill-before k (i + 1) f (omega (arith, e)))
    | no e ↦ ground (arith, place i, e, fill-once k (i + 1) f (omega (arith, e)) (omega arith))
  ]

  -- From the fill ring as the driver populates it, in every run of the kernel's deliveries, each at some
  -- place inside the frame it took, and the driver's turns: each frame of the receive pool is in the fill
  -- ring or the receive ring, and in one of them only, once. None is lost, doubled or made up.
  pub Flow-conserves :
      (got : ℕ) (fill0 fill : List ℕ) (rx : List (ℕ × ℕ)) (s : XdpRx) (f : ℕ)
      → populate_fill tx_pool_frames rx_pool_frames frame_size got ≡ some fill0
      → Flow frame_size fill0 fill rx s
      → tx_pool_frames ≤ f
      → f < tx_pool_frames + rx_pool_frames
      → count_frame frame_size f fill + count_frame frame_size f (addresses rx) ≡ 1
  unfolding populate_fill
  Flow-conserves got fill0 fill rx s f p c l h = elim (Bool-cases (got == rx_pool_frames)) [
    | inl e ↦
        let same : fill_addrs tx_pool_frames rx_pool_frames frame_size got 0 ≡ fill0 =
          some-injective _ _ (rw e at p) in
        Flow-count frame_size fill0 fill rx s f c
        ∙ ap (count_frame frame_size f) (sym same)
        ∙ fill-once got 0 f (omega arith) (ground (arith, e))
    | inr e ↦ absurd (ground (arith, e, p))
  ]

-- All these frames lie between two offsets.
abbrev pub Between : ℕ → ℕ → ℕ → List ℕ → Type 0
Between lo hi size [] = Unit {0}
Between lo hi size (a ∷ rest) = (lo ≤ a) × (a + size ≤ hi) × Between lo hi size rest

Between-from :
    (lo lo' hi size : ℕ) (xs : List ℕ) → lo' ≤ lo → Between lo hi size xs → Between lo' hi size xs
Between-from lo lo' hi size [] h b = tt
Between-from lo lo' hi size (x ∷ xs) h b =
    (omega (arith, h, b.0), b.1, Between-from lo lo' hi size xs h b.2)

module _ (tx_pool_frames rx_pool_frames frame_size : ℕ) where
  frame_ends : (i n : ℕ) → i < n → i * frame_size + frame_size ≤ n * frame_size
  frame_ends i n h = omega (arith, mul-le-mul_right {m = suc i} {n = n} frame_size h)

  fill_addrs-Between :
      (k i : ℕ)
      → i + k ≤ rx_pool_frames
      → Between
          (tx_pool_frames * frame_size)
          ((tx_pool_frames + rx_pool_frames) * frame_size)
          frame_size
          (fill_addrs tx_pool_frames rx_pool_frames frame_size k i)
  unfolding fill_addrs
  fill_addrs-Between zero i h = tt
  fill_addrs-Between (suc k) i h = (
    mul-le-mul_right {m = tx_pool_frames} {n = tx_pool_frames + i} frame_size (omega arith),
    frame_ends (tx_pool_frames + i) (tx_pool_frames + rx_pool_frames) (omega arith),
    fill_addrs-Between k (i + 1) (omega arith),
  )

  reserve_tx-keeps :
      (fails : List ℕ) (s : XdpTx)
      → ((reserve_tx fails s).tx_frame_nb ≡ s.tx_frame_nb)
        × ((reserve_tx fails s).pending_tx_addr ≡ s.pending_tx_addr)
        × ((reserve_tx fails s).pending_tx_len ≡ s.pending_tx_len)
  unfolding reserve_tx
  reserve_tx-keeps [] s = (refl, refl, refl)
  reserve_tx-keeps (rcvd ∷ fails) s = ground (arith, reserve_tx-keeps fails (complete_tx rcvd s))

  complete_tx-keeps : (rcvd : ℕ) (s : XdpTx) → (complete_tx rcvd s).tx_frame_nb ≡ s.tx_frame_nb
  unfolding complete_tx
  complete_tx-keeps rcvd s = ground arith

  -- From a frame number in the transmit pool, whatever the reservations and completions answer: the frame
  -- that acquire gives is the one that commit submits, at that number's place in the first part of the
  -- memory; the number moves on round the pool; and the fill ring is given exactly frames of the second
  -- part, all of which begin after the bytes of a frame that is no longer than a place (nothing checks
  -- that it is no longer).
  pub xdp_commit-apart :
      (frame_len : ℕ) (fails : List ℕ) (rcvd : ℕ) (s : XdpTx)
      → s.tx_frame_nb < tx_pool_frames
      → frame_len ≤ frame_size
      → let a = xdp_acquire tx_pool_frames rx_pool_frames frame_size frame_len s in
        let c = xdp_commit tx_pool_frames rx_pool_frames frame_size fails rcvd a.1 in
        (c.0 ≡ (a.0, frame_len))
        × (a.0 ≡ s.tx_frame_nb * frame_size)
        × (a.0 + frame_size ≤ tx_pool_frames * frame_size)
        × Between
            (a.0 + frame_len)
            ((tx_pool_frames + rx_pool_frames) * frame_size)
            frame_size
            (fill_addrs tx_pool_frames rx_pool_frames frame_size rx_pool_frames 0)
        × (c.1.tx_frame_nb ≡ bump tx_pool_frames s.tx_frame_nb)
        × (c.1.tx_frame_nb < tx_pool_frames)
        × Between
            (tx_pool_frames * frame_size)
            ((tx_pool_frames + rx_pool_frames) * frame_size)
            frame_size
            (fill_addrs tx_pool_frames rx_pool_frames frame_size rx_pool_frames 0)
  unfolding xdp_acquire xdp_commit submit_tx
  xdp_commit-apart frame_len fails rcvd s h fits =
      let a = record s {
        pending_tx_addr = s.tx_frame_nb * frame_size;
        pending_tx_len = frame_len;
      } in
      let k = reserve_tx-keeps fails a in
      let moved =
        complete_tx-keeps rcvd
          (submit_tx tx_pool_frames rx_pool_frames frame_size (reserve_tx fails a))
        ∙ ap (bump tx_pool_frames) k.0 in
      (
        ap₂ (λ x y. (x, y)) k.1 k.2,
        refl,
        frame_ends s.tx_frame_nb tx_pool_frames h,
        Between-from (tx_pool_frames * frame_size) (s.tx_frame_nb * frame_size + frame_len)
            ((tx_pool_frames + rx_pool_frames) * frame_size) frame_size _
            (omega (arith, frame_ends s.tx_frame_nb tx_pool_frames h, fits))
            (fill_addrs-Between rx_pool_frames 0 (omega arith)),
        moved,
        subst (λ i. i < tx_pool_frames) (sym moved) (mod-lt (s.tx_frame_nb + 1) (omega arith)),
        fill_addrs-Between rx_pool_frames 0 (omega arith),
      )
