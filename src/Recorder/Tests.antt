-- ===== src/Recorder/Tests.antt =====
-- The theorems on the recorder at concrete runs, with a queue of four words.
use abtrda.Prelude.{
  ℕ, ◌+◌, ◌*◌, ◌<◌, ◌≤◌, ◌≡◌, refl, ◌⊎◌, true, false, none, some, List, [], ◌∷◌, ◌++◌, arith,
  length, replicate,
}
use abtrda.Frame.Header.{words_of}
use abtrda.Recorder.Bounded.{try_push4, four}
use abtrda.Recorder.Queue.{end_sentinel}
use abtrda.Recorder.Pacing.{ns_per_sec, deadline, total, deadline-no_drift}
use abtrda.Recorder.Rx.{
  warmup_discard, grace_empty_polls, Rx, Poll, start, rx_run, ending, empty, arrived,
}
use abtrda.Recorder.Rx.Accounting.{markers, accepted_along, rx_run-accounts}
use abtrda.Recorder.Rx.Grace.{rx_run-leaves}
use abtrda.Recorder.Hist.{hist_step}
use abtrda.Recorder.Hist.Stream.{
  kept, has_end, until_end, Pipe, Pipe-complete, begins, pushes, turns,
}

deadline-no_drift_example :
    (total (deadline 1500000 3 (record { tv_sec = 7; tv_nsec = 999999999 }))
      ≡ total (record { tv_sec = 7; tv_nsec = 999999999 }) + 3 * (1500000 * 1000))
    × ((deadline 1500000 3 (record { tv_sec = 7; tv_nsec = 999999999 })).tv_nsec < ns_per_sec)
deadline-no_drift_example =
    deadline-no_drift 1500000 3 (record { tv_sec = 7; tv_nsec = 999999999 }) (omega arith)
      (omega arith)

abbrev header : List ℕ
header = 1 ∷ 2 ∷ 3 ∷ 4 ∷ 5 ∷ 6 ∷ 7 ∷ 8 ∷ 9 ∷ 10 ∷ 11 ∷ 12 ∷ 136 ∷ 181 ∷ []

abbrev polls : List Poll
polls =
    empty false
    ∷ arrived 90 (header ++ (0 ∷ 0 ∷ 0 ∷ 1 ∷ 80 ∷ 0 ∷ 0 ∷ 0 ∷ 0 ∷ 0 ∷ 0 ∷ 0 ∷ []))
    ∷ arrived 95 (1 ∷ 2 ∷ 3 ∷ [])
    ∷ empty true
    ∷ []

rx_run-accounts_example :
    (s : Rx (List ℕ)) × (rx_run four (words_of header) polls (start []) ≡ some s)
    × (length s.to_hist + s.push_failures ≡ length {A = ℕ} [] + s.recorded + markers s.phase)
    × (s.warmup_seen + s.recorded ≡ accepted_along four (words_of header) polls (start []))
    × (s.warmup_seen ≤ warmup_discard)
    × ((s.warmup_seen ≡ warmup_discard) ⊎ (s.recorded ≡ 0))
rx_run-accounts_example =
    rx_run-accounts four header polls [] (ground arith) (omega arith) (ground arith) (omega arith)

rx_run-leaves_example :
    (rx_run four (words_of header) (replicate 5 (empty true)) (start [])
      ≡ some (record (start []) { grace_empty = 5 }))
    × (rx_run four (words_of header) (replicate grace_empty_polls (empty true)) (start [])
        ≡ some (record (start []) { grace_empty = grace_empty_polls; phase = ending }))
unfolding start
rx_run-leaves_example =
    rx_run-leaves four (words_of header) (start []) 5 grace_empty_polls refl refl (omega arith) refl

-- Two samples and the end marker, with the thread's turns in between.
abbrev words3 : List ℕ
words3 = 10 ∷ 11 ∷ end_sentinel ∷ []

piped :
    Pipe four none words3 []
      (record { running = false; samples = 10 ∷ 11 ∷ []; recorded = 2; dropped = 0 })
unfolding try_push4 hist_step
piped = turns _ _ _ (
    turns _ _ _ (
      pushes _ _ _ end_sentinel _
        (pushes _ _ _ 11 _ (turns _ _ _ (pushes _ _ _ 10 _ (begins [] refl) refl)) refl) refl))

Pipe-complete_example : (10 ∷ 11 ∷ [] ≡ kept none (until_end words3)) × (has_end words3 ≡ true)
Pipe-complete_example = Pipe-complete four none words3 [] _ piped refl
