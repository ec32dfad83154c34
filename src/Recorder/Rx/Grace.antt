-- ===== src/Recorder/Rx/Grace.antt =====
-- The end of the receive loop: the grace window of empty polls once the sender is done.
use abtrda.Prelude.{ℕ, zero, suc, ◌+◌, ◌<◌, ◌≡◌, refl, ap, ◌∙◌, true, some, arith, replicate}
use abtrda.Recorder.Queue.{Spsc}
use abtrda.Recorder.Rx.{grace_empty_polls, Rx, rx_step, rx_run, polling, ending, empty}

module _ {Q : Type 0} (Spsc : Spsc Q) where
  empty_step :
      (w : ℕ × ℕ) (s : Rx Q)
      → s.phase ≡ polling
      → s.grace_empty + 1 < grace_empty_polls
      → rx_step Spsc w (empty true) s ≡ some (record s { grace_empty = s.grace_empty + 1 })
  unfolding rx_step
  empty_step w s p h = ground arith

  last_step :
      (w : ℕ × ℕ) (s : Rx Q)
      → s.phase ≡ polling
      → s.grace_empty + 1 ≡ grace_empty_polls
      → rx_step Spsc w (empty true) s
        ≡ some (record s { grace_empty = grace_empty_polls; phase = ending })
  unfolding rx_step
  last_step w s p h = ground arith

  -- From `m` polls before the end of the window.
  grace_run :
      (m : ℕ) (w : ℕ × ℕ) (s : Rx Q)
      → s.phase ≡ polling
      → s.grace_empty + suc m ≡ grace_empty_polls
      → rx_run Spsc w (replicate (suc m) (empty true)) s
        ≡ some (record s { grace_empty = grace_empty_polls; phase = ending })
  unfolding rx_run
  grace_run zero w s p h = rw (last_step w s p (omega arith)) refl
  grace_run (suc m) w s p h =
      rw (empty_step w s p (omega arith))
        (grace_run m w (record s { grace_empty = s.grace_empty + 1 }) p (omega arith))

  grace_waits :
      (m : ℕ) (w : ℕ × ℕ) (s : Rx Q)
      → s.phase ≡ polling
      → s.grace_empty + m < grace_empty_polls
      → rx_run Spsc w (replicate m (empty true)) s
        ≡ some (record s { grace_empty = s.grace_empty + m })
  unfolding rx_run
  grace_waits zero w s p h = ap (λ g. some (record s { grace_empty = g })) (omega arith)
  grace_waits (suc m) w s p h = rw (empty_step w s p (omega arith)) (
      grace_waits m w (record s { grace_empty = s.grace_empty + 1 }) p (omega arith)
      ∙ ap (λ g. some (record s { grace_empty = g })) (omega arith))

  leaves :
      (n : ℕ) (w : ℕ × ℕ) (s : Rx Q)
      → s.phase ≡ polling
      → s.grace_empty ≡ 0
      → n ≡ grace_empty_polls
      → rx_run Spsc w (replicate n (empty true)) s
        ≡ some (record s { grace_empty = grace_empty_polls; phase = ending })
  leaves zero w s p g e = absurd (omega arith)
  leaves (suc m) w s p g e = grace_run m w s p (omega arith)

  -- A thread in its loop, whose last poll brought a frame, is still there after any `m` < 2^20
  -- successive empty polls that find the sender done, and has left the loop after `n` = 2^20 of
  -- them; either way every counter, the gate and the queue are as they were.
  pub rx_run-leaves :
      (w : ℕ × ℕ) (s : Rx Q) (m n : ℕ)
      → s.phase ≡ polling
      → s.grace_empty ≡ 0
      → m < grace_empty_polls
      → n ≡ grace_empty_polls
      → (rx_run Spsc w (replicate m (empty true)) s ≡ some (record s { grace_empty = m }))
        × (rx_run Spsc w (replicate n (empty true)) s
            ≡ some (record s { grace_empty = grace_empty_polls; phase = ending }))
  rx_run-leaves w s m n p g h e = (
    grace_waits m w s p (omega arith) ∙ ap (λ k. some (record s { grace_empty = k })) (omega arith),
    leaves n w s p g e,
  )
