-- ===== src/Recorder/Hist/Stream.antt =====
-- The stream of samples from the receiver to the histogram thread, under every interleaving of the
-- two threads.
use abtrda.Prelude.{
  ℕ, ◌≡◌, refl, sym, ap, ◌∙◌, Bool, true, false, not, ◌||◌, Option, none, some, List, [], ◌∷◌, ◌++◌,
  arith, ◌==◌, if◌then◌else◌, get_elem?, append_nil, append_assoc, drop,
}
use abtrda.Recorder.Queue.{Spsc, end_sentinel}
use abtrda.Recorder.Hist.{Hist, hist_start, decoded, take_sample, hist_word, drain, hist_step}

abbrev pub keep : Option ℕ → List ℕ → List ℕ
keep none rest = rest
keep (some x) rest = x ∷ rest

-- What the decoder makes of the words `ws`.
abbrev pub kept : Option (ℕ → Option ℕ) → List ℕ → List ℕ
kept decode [] = []
kept decode (w ∷ ws) = keep (decoded decode w) (kept decode ws)

abbrev pub has_end : List ℕ → Bool
has_end [] = false
has_end (w ∷ ws) = (w == end_sentinel) || has_end ws

-- The words before the first end marker.
abbrev pub until_end : List ℕ → List ℕ
until_end [] = []
until_end (w ∷ ws) = if w == end_sentinel then [] else w ∷ until_end ws

keep-append : (o : Option ℕ) (xs ys : List ℕ) → keep o (xs ++ ys) ≡ keep o xs ++ ys
keep-append none xs ys = refl
keep-append (some x) xs ys = refl

kept-append :
    (decode : Option (ℕ → Option ℕ)) (xs ys : List ℕ)
    → kept decode (xs ++ ys) ≡ kept decode xs ++ kept decode ys
kept-append decode [] ys = refl
kept-append decode (x ∷ xs) ys =
    ap (keep (decoded decode x)) (kept-append decode xs ys)
    ∙ keep-append (decoded decode x) (kept decode xs) (kept decode ys)

take_sample-keep : (o : Option ℕ) (h : Hist) → (take_sample o h).samples ≡ h.samples ++ keep o []
unfolding take_sample
take_sample-keep none h = sym (append_nil h.samples)
take_sample-keep (some x) h = refl

take_sample-running : (o : Option ℕ) (h : Hist) → (take_sample o h).running ≡ h.running
unfolding take_sample
take_sample-running none h = refl
take_sample-running (some x) h = refl

until_end-append_ended : (xs ys : List ℕ) → has_end xs ≡ true → until_end (xs ++ ys) ≡ until_end xs
until_end-append_ended [] ys h = absurd (ground arith)
until_end-append_ended (x ∷ xs) ys h = ground (arith, until_end-append_ended xs ys)

until_end-append_word :
    (xs : List ℕ) (x : ℕ)
    → has_end xs ≡ false
    → until_end (xs ++ (x ∷ [])) ≡ xs ++ until_end (x ∷ [])
until_end-append_word [] x h = refl
until_end-append_word (y ∷ xs) x h = ground (arith, until_end-append_word xs x)

until_end-open : (xs : List ℕ) → has_end xs ≡ false → until_end xs ≡ xs
until_end-open [] h = refl
until_end-open (x ∷ xs) h = ground (arith, until_end-open xs)

has_end-append : (xs ys : List ℕ) → has_end (xs ++ ys) ≡ has_end xs || has_end ys
has_end-append [] ys = refl
has_end-append (x ∷ xs) ys = ground (arith, has_end-append xs ys)

branch-samples :
    (b : Bool) (decode : Option (ℕ → Option ℕ)) (cyc : ℕ) (h : Hist)
    → (if b then record h { running = false } else take_sample (decoded decode cyc) h).samples
      ≡ h.samples ++ kept decode (if b then [] else cyc ∷ [])
branch-samples true decode cyc h = sym (append_nil h.samples)
branch-samples false decode cyc h = take_sample-keep (decoded decode cyc) h

branch-running :
    (b : Bool) (o : Option ℕ) (h : Hist)
    → h.running ≡ true
    → (if b then record h { running = false } else take_sample o h).running ≡ not (b || false)
branch-running true o h r = refl
branch-running false o h r = take_sample-running o h ∙ r

-- What one word adds to the samples, and when it ends the thread.
hist_word-samples :
    (decode : Option (ℕ → Option ℕ)) (cyc : ℕ) (h : Hist)
    → (hist_word decode cyc h).samples ≡ h.samples ++ kept decode (until_end (cyc ∷ []))
unfolding hist_word
hist_word-samples decode cyc h = branch-samples (cyc == end_sentinel) decode cyc h

hist_word-running :
    (decode : Option (ℕ → Option ℕ)) (cyc : ℕ) (h : Hist)
    → h.running ≡ true
    → (hist_word decode cyc h).running ≡ not (has_end (cyc ∷ []))
unfolding hist_word
hist_word-running decode cyc h r = branch-running (cyc == end_sentinel) (decoded decode cyc) h r

module _ {Q : Type 0} (Spsc : Spsc Q) (decode : Option (ℕ → Option ℕ)) where
  -- The words pushed so far with the queue and the histogram thread: the thread's turns (no stop is
  -- requested) come between the pushes in any order.
  pub data Pipe : List ℕ → Q → Hist → Type 0 where
    begins : (q : Q) → Spsc.contents q ≡ [] → Pipe [] q hist_start
    pushes :
        (ws : List ℕ) (q : Q) (h : Hist) (x : ℕ) (q' : Q)
        → Pipe ws q h
        → Spsc.try_push x q ≡ some q'
        → Pipe (ws ++ (x ∷ [])) q' h
    turns :
        (ws : List ℕ) (q : Q) (h : Hist)
        → Pipe ws q h
        → Pipe ws (hist_step Spsc decode false q h).1 (hist_step Spsc decode false q h).0

  -- The words pushed are those popped, then those still queued.
  record Follows (popped ws : List ℕ) (q : Q) (h : Hist) : Type 0 where
    whole : popped ++ Spsc.contents q ≡ ws
    takes : h.samples ≡ kept decode (until_end popped)
    halts : h.running ≡ not (has_end popped)

  popped_word :
      (q : Q) (cyc : ℕ)
      → Spsc.front q ≡ some cyc
      → Spsc.contents q ≡ cyc ∷ Spsc.contents (Spsc.pop q)
  popped_word q cyc e =
      split (Spsc.contents q) (sym (Spsc.contents-front q) ∙ e)
      ∙ ap (◌∷◌ cyc) (sym (Spsc.contents-pop q))
    where
      split : (xs : List ℕ) → get_elem? xs 0 ≡ some cyc → xs ≡ cyc ∷ drop 1 xs
      split [] h = absurd (ground arith)
      split (x ∷ xs) h = ground arith

  word-Follows :
      (popped ws : List ℕ) (q : Q) (h : Hist) (cyc : ℕ)
      → Follows popped ws q h
      → h.running ≡ true
      → Spsc.front q ≡ some cyc
      → Follows (popped ++ (cyc ∷ [])) ws (Spsc.pop q) (hist_word decode cyc h)
  word-Follows popped ws q h cyc f r e = record {
    whole =
        append_assoc popped (cyc ∷ []) (Spsc.contents (Spsc.pop q))
        ∙ ap (◌++◌ popped) (sym (popped_word q cyc e))
        ∙ f.whole;
    takes =
        hist_word-samples decode cyc h
        ∙ ap (λ xs. xs ++ kept decode (until_end (cyc ∷ [])))
            (f.takes ∙ ap (kept decode) (until_end-open popped open_yet))
        ∙ sym (kept-append decode popped (until_end (cyc ∷ [])))
        ∙ ap (kept decode) (sym (until_end-append_word popped cyc open_yet));
    halts =
        hist_word-running decode cyc h r
        ∙ ap not
            (sym (has_end-append popped (cyc ∷ []) ∙ ap (λ b. b || has_end (cyc ∷ [])) open_yet));
  }
    where
      open_yet : has_end popped ≡ false
      open_yet = ground (arith, f.halts, r)

  Tracks : List ℕ → Q → Hist → Type 0
  Tracks ws q h = (popped : List ℕ) × Follows popped ws q h

  drain-Tracks :
      (popped ws : List ℕ) (q : Q) (h : Hist) (o : Option ℕ)
      → Follows popped ws q h
      → h.running ≡ true
      → Spsc.front q ≡ o
      → Tracks ws (drain Spsc o decode false q h).1 (drain Spsc o decode false q h).0
  unfolding drain Tracks
  drain-Tracks popped ws q h none f r e = (popped, f)
  drain-Tracks popped ws q h (some cyc) f r e =
      (popped ++ (cyc ∷ []), word-Follows popped ws q h cyc f r e)

  turn-Tracks :
      (b : Bool) (popped ws : List ℕ) (q : Q) (h : Hist)
      → Follows popped ws q h
      → h.running ≡ b
      → let t = if b then drain Spsc (Spsc.front q) decode false q h else (h, q) in
        Tracks ws t.1 t.0
  unfolding Tracks
  turn-Tracks true popped ws q h f r = drain-Tracks popped ws q h (Spsc.front q) f r refl
  turn-Tracks false popped ws q h f r = (popped, f)

  Pipe-Tracks : (ws : List ℕ) (q : Q) (h : Hist) → Pipe ws q h → Tracks ws q h
  unfolding Tracks hist_step
  Pipe-Tracks _ _ _ (begins q e) = ([], record { whole = e; takes = refl; halts = refl })
  Pipe-Tracks _ _ _ (pushes ws q h x q' p e) =
      let (popped, f) = Pipe-Tracks ws q h p in
      (
        popped,
        record {
          whole =
              ap (◌++◌ popped) (Spsc.contents-try_push x q q' e)
              ∙ sym (append_assoc popped (Spsc.contents q) (x ∷ []))
              ∙ ap (λ xs. xs ++ (x ∷ [])) f.whole;
          takes = f.takes;
          halts = f.halts;
        },
      )
  Pipe-Tracks _ _ _ (turns ws q h p) =
      let (popped, f) = Pipe-Tracks ws q h p in turn-Tracks h.running popped ws q h f refl

  -- However the histogram thread's turns fall between the pushes (no stop being requested), once
  -- it has ended it has recorded, in order, exactly what the decoder makes of the words pushed before the first end
  -- marker; nothing is lost or repeated, and an end marker had been pushed.
  pub Pipe-complete :
      (ws : List ℕ) (q : Q) (h : Hist)
      → Pipe ws q h
      → h.running ≡ false
      → (h.samples ≡ kept decode (until_end ws)) × (has_end ws ≡ true)
  unfolding Tracks
  Pipe-complete ws q h p e =
      let (popped, f) = Pipe-Tracks ws q h p in
      let ended : has_end popped ≡ true = ground (arith, f.halts, e) in
      (
        f.takes
            ∙ ap (kept decode) (
                sym (until_end-append_ended popped (Spsc.contents q) ended) ∙ ap until_end f.whole),
        ap has_end (sym f.whole)
            ∙ has_end-append popped (Spsc.contents q)
            ∙ ap (λ b. b || has_end (Spsc.contents q)) ended,
      )
