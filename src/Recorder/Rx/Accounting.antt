-- ===== src/Recorder/Rx/Accounting.antt =====
-- The receiver's counters against the queue, over any stream of polls, and the end of its loop.
use abtrda.Prelude.{
  ℕ, ◌+◌, ◌^◌, ◌≤◌, ◌<◌, ◌≡◌, refl, sym, ap, ◌∙◌, subst, ◌⊎◌, inl, inr, Bool, true, false,
  if◌then◌else◌, Option, none, some, List, [], ◌∷◌, arith, Option-cases, length, length-append,
  sub64, ◌>>=◌,
}
use abtrda.Bytes.Laws.{AreBytes}
use abtrda.Frame.{Parsed, parse_frame, runt, foreign, stamped}
use abtrda.Frame.Header.{words_of, stamp_of, parse_frame_cases}
use abtrda.AntiReplay.{Verdict, accept}
use abtrda.Recorder.Queue.{Spsc, end_sentinel}
use abtrda.Recorder.Rx.{
  warmup_discard, Phase, Rx, Poll, start, grace, ended, judged, on_frame, poll_once, rx_step_in,
  rx_run, polling, ending, finished, empty, arrived,
}

-- Every frame that arrives is made of bytes.
abbrev pub OfBytes : List Poll → Type 0
OfBytes [] = Unit {0}
OfBytes (empty tx_done ∷ ps) = OfBytes ps
OfBytes (arrived t1 f ∷ ps) = AreBytes f × OfBytes ps

abbrev pub markers : Phase → ℕ
markers polling = 0
markers ending = 0
markers finished = 1

-- Whether a frame is a stamped one that the gate of `s` accepts.
abbrev pub accepts : {Q : Type 0} → Option Parsed → Rx Q → ℕ
accepts (some (stamped seq t0)) s = if (accept s.gate seq s.lost s.dropped).accepted then 1 else 0
accepts o s = 0

abbrev pub accepts_in : {Q : Type 0} → Phase → ℕ × ℕ → Poll → Rx Q → ℕ
accepts_in polling w (arrived t1 f) s = accepts (parse_frame w f) s
accepts_in ph w p s = 0

-- What holds after `n` polls, in which `a` frames were accepted, of a thread whose queue held `k` words at
-- first.
pub record Sound (n k a : ℕ) (held : ℕ) {Q : Type 0} (s : Rx Q) : Type 0 where
  pub counted : s.warmup_seen + s.recorded ≡ a
  pub balanced : held + s.push_failures ≡ k + s.recorded + markers s.phase
  pub bounded : s.recorded ≤ n
  pub contained : s.push_failures ≤ s.recorded
  pub warming : s.warmup_seen < warmup_discard → s.recorded ≡ 0
  pub capped : s.warmup_seen ≤ warmup_discard

OfBytes-split : (p : Poll) (ps : List Poll) → OfBytes (p ∷ ps) → OfBytes (p ∷ []) × OfBytes ps
OfBytes-split (empty tx_done) ps h = (tt, h)
OfBytes-split (arrived t1 f) ps h = ((h.0, tt), h.1)

module _ {Q : Type 0} (Spsc : Spsc Q) where
  abbrev later : (Rx Q → ℕ) → Option (Rx Q) → ℕ
  later f none = 0
  later f (some s) = f s

  -- How many frames are accepted in a run.
  abbrev pub accepted_along : ℕ × ℕ → List Poll → Rx Q → ℕ
  accepted_along w [] s = 0
  accepted_along w (p ∷ ps) s =
      accepts_in s.phase w p s + later (accepted_along w ps) (rx_step_in Spsc s.phase w p s)

  abbrev held : Rx Q → ℕ
  held s = length (Spsc.contents s.to_hist)

  length-try_push :
      (x : ℕ) (q q' : Q)
      → Spsc.try_push x q ≡ some q'
      → length (Spsc.contents q') ≡ length (Spsc.contents q) + 1
  length-try_push x q q' h =
      ap length (Spsc.contents-try_push x q q' h) ∙ length-append (Spsc.contents q) (x ∷ [])

  judged-Sound :
      (n k a : ℕ) (v : Verdict) (latency : ℕ) (s : Rx Q)
      → n + 1 < 2 ^ 64
      → s.phase ≡ polling
      → Sound n k a (held s) s
      → Sound
          (n + 1)
          k
          (a + (if v.accepted then 1 else 0))
          (held (judged Spsc v latency s))
          (judged Spsc v latency s)
  unfolding judged
  judged-Sound n k a v latency s b p h = elim (Option-cases (Spsc.try_push latency s.to_hist)) [
    | inl full ↦ ground (arith, full)
    | inr (q, pushes) ↦
        let grows = length-try_push latency s.to_hist q pushes in ground (arith, pushes, grows)
  ]

  grace-Sound :
      (n k a : ℕ) (tx_done : Bool) (s : Rx Q)
      → s.phase ≡ polling
      → Sound n k a (held s) s
      → Sound (n + 1) k a (held (grace tx_done s)) (grace tx_done s)
  unfolding grace
  grace-Sound n k a false s p h = ground arith
  grace-Sound n k a true s p h = ground arith

  ended-Sound :
      (n k a : ℕ) (s : Rx Q)
      → s.phase ≡ ending
      → Sound n k a (held s) s
      → let t = ended (Spsc.try_push end_sentinel s.to_hist) s in Sound (n + 1) k a (held t) t
  unfolding ended
  ended-Sound n k a s p h = elim (Option-cases (Spsc.try_push end_sentinel s.to_hist)) [
    | inl full ↦ ground (arith, full)
    | inr (q, pushes) ↦
        let grows = length-try_push end_sentinel s.to_hist q pushes in ground (arith, pushes, grows)
  ]

  on_frame-Sound :
      (n k a t1 : ℕ) (p : Parsed) (s : Rx Q)
      → n + 1 < 2 ^ 64
      → s.phase ≡ polling
      → Sound n k a (held s) s
      → Sound
          (n + 1)
          k
          (a + accepts (some p) s)
          (held (on_frame Spsc t1 p s))
          (on_frame Spsc t1 p s)
  unfolding on_frame
  on_frame-Sound n k a t1 runt s b p h = ground arith
  on_frame-Sound n k a t1 foreign s b p h = ground arith
  on_frame-Sound n k a t1 (stamped seq t0) s b p h =
      judged-Sound n k a (accept s.gate seq s.lost s.dropped) (sub64 t1 t0)
        (record s { grace_empty = 0 }) b p (ground arith)

  -- The header check never loads outside a frame.
  parses :
      (f hdr : List ℕ)
      → AreBytes f
      → AreBytes hdr
      → 14 ≤ length hdr
      → (p : Parsed) × (parse_frame (words_of hdr) f ≡ some p)
  parses f hdr a b h = elim (parse_frame_cases f hdr a b h) [
    | inl (short, e) ↦ (runt, e)
    | inr (inl (long, same, e)) ↦ (stamp_of f, e)
    | inr (inr (long, differs, e)) ↦ (foreign, e)
  ]

  abbrev Stepped : ℕ → ℕ → ℕ → Option (Rx Q) → Type 0
  Stepped n k a o = (t : Rx Q) × (o ≡ some t) × Sound n k a (held t) t

  poll_once-Sound :
      (n k a : ℕ) (hdr : List ℕ) (p : Poll) (s : Rx Q)
      → AreBytes hdr
      → 14 ≤ length hdr
      → OfBytes (p ∷ [])
      → n + 1 < 2 ^ 64
      → s.phase ≡ polling
      → Sound n k a (held s) s
      → Stepped
          (n + 1)
          k
          (a + accepts_in polling (words_of hdr) p s)
          (poll_once Spsc (words_of hdr) p s)
  unfolding poll_once
  poll_once-Sound n k a hdr (empty d) s b l o m ph h = (
    grace d s,
    refl,
    subst (λ j. Sound (n + 1) k j (held (grace d s)) (grace d s)) (omega arith)
        (grace-Sound n k a d s ph h),
  )
  poll_once-Sound n k a hdr (arrived t1 f) s b l o m ph h =
      let (p, e) = parses f hdr o.0 b l in
      (
        on_frame Spsc t1 p s,
        ap (λ o. o >>= λ q. some (on_frame Spsc t1 q s)) e,
        subst
            (λ o.
              Sound (n + 1) k (a + accepts o s) (held (on_frame Spsc t1 p s))
                (on_frame Spsc t1 p s))
            (sym e) (on_frame-Sound n k a t1 p s m ph h),
      )

  rx_step_in-Sound :
      (ph : Phase) (n k a : ℕ) (hdr : List ℕ) (p : Poll) (s : Rx Q)
      → AreBytes hdr
      → 14 ≤ length hdr
      → OfBytes (p ∷ [])
      → n + 1 < 2 ^ 64
      → s.phase ≡ ph
      → Sound n k a (held s) s
      → Stepped
          (n + 1)
          k
          (a + accepts_in ph (words_of hdr) p s)
          (rx_step_in Spsc ph (words_of hdr) p s)
  unfolding rx_step_in
  rx_step_in-Sound polling n k a hdr p s b l o m e h = poll_once-Sound n k a hdr p s b l o m e h
  rx_step_in-Sound ending n k a hdr p s b l o m e h =
      let t = ended (Spsc.try_push end_sentinel s.to_hist) s in
      (t, refl, subst (λ j. Sound (n + 1) k j (held t) t) (omega arith) (ended-Sound n k a s e h))
  rx_step_in-Sound finished n k a hdr p s b l o m e h = (s, refl, ground arith)

  rx_run-Sound :
      (n k a : ℕ) (hdr : List ℕ) (ps : List Poll) (s : Rx Q)
      → AreBytes hdr
      → 14 ≤ length hdr
      → OfBytes ps
      → n + length ps < 2 ^ 64
      → Sound n k a (held s) s
      → Stepped
          (n + length ps)
          k
          (a + accepted_along (words_of hdr) ps s)
          (rx_run Spsc (words_of hdr) ps s)
  unfolding rx_run
  rx_run-Sound n k a hdr [] s b l o m h = (s, refl, ground arith)
  rx_run-Sound n k a hdr (p ∷ ps) s b l o m h =
      let w = words_of hdr in
      let (c, d) = OfBytes-split p ps o in
      let (t, e, i) = rx_step_in-Sound s.phase n k a hdr p s b l c (omega arith) refl h in
      let x = accepts_in s.phase w p s in
      let (u, r, j) = rx_run-Sound (n + 1) k (a + x) hdr ps t b l d (omega arith) i in
      let last : Sound (n + 1 + length ps) k (a + (x + accepted_along w ps t)) (held u) u =
        ground arith in
      (
        u,
        ap (λ o. o >>= rx_run Spsc w ps) e ∙ r,
        subst
            (λ o.
              Sound (n + length (p ∷ ps)) k (a + (x + later (accepted_along w ps) o)) (held u) u)
            (sym e) (ground (arith, last)),
      )

  -- For a receiver that expects a header of bytes and any stream of fewer than 2^64 polls whose
  -- frames are bytes, whatever their lengths and contents: no load leaves a frame, so the run ends
  -- in some state `s`; the queue has grown by exactly the samples recorded less the pushes that
  -- failed, and by one end marker once the thread has finished; every stamped frame that the gate
  -- accepted while the thread polled, and no other, is discarded or recorded; at most 500000 are
  -- discarded, and nothing is recorded before.
  pub rx_run-accounts :
      (hdr : List ℕ) (ps : List Poll) (q : Q)
      → AreBytes hdr
      → 14 ≤ length hdr
      → OfBytes ps
      → length ps < 2 ^ 64
      → (s : Rx Q) × (rx_run Spsc (words_of hdr) ps (start q) ≡ some s)
        × (length (Spsc.contents s.to_hist) + s.push_failures
            ≡ length (Spsc.contents q) + s.recorded + markers s.phase)
        × (s.warmup_seen + s.recorded ≡ accepted_along (words_of hdr) ps (start q))
        × (s.warmup_seen ≤ warmup_discard)
        × ((s.warmup_seen ≡ warmup_discard) ⊎ (s.recorded ≡ 0))
  unfolding start
  rx_run-accounts hdr ps q b l o m =
      let (s, e, i) =
        rx_run-Sound 0 (length (Spsc.contents q)) 0 hdr ps (start q) b l o (omega arith)
          (ground arith) in
      (s, e, i.balanced, i.counted ∙ omega arith, i.capped, ground (arith, i.warming, i.capped))
