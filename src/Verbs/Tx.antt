-- ===== src/Verbs/Tx.antt =====
-- Sending in Verbs.hpp: every SignalEvery-th request is signalled, and completions are reaped one
-- period later. What the successive calls of ibv_poll_cq answer is a list of Booleans.
pub mod Depth
use abtrda.Prelude.{
  ℕ, ◌+◌, ◌-◌, ◌/◌, ◌%◌, min, Bool, true, false, ◌||◌, Option, none, some, List, [], ◌∷◌, ltb, leb,
  ◌==◌, if◌then◌else◌, length, take, u32, u64, ◌>>=◌,
}
use abtrda.Bytes.{memcpy}

-- The buffer that the frame is written to is the first slot of the registered memory.
pub record VerbsTx : Type 0 where
  pub tx_buf : List ℕ
  pub max_inline : ℕ
  pub tx_len : ℕ
  pub tx_count : ℕ
  pub unreaped : ℕ

-- The backstop loop: polls until fewer than `limit` signalled requests are unreaped; `none` while it
-- still polls when the answers run out.
unfoldable pub reap_below : ℕ → List Bool → ℕ → Option ℕ
reap_below limit [] u = if ltb u limit then some u else none
reap_below limit (got ∷ ps) u =
    let rest = reap_below limit ps (if got then u - 1 else u) in
    if ltb u limit then some u else rest

-- One poll that may find nothing, then the loop.
unfoldable pub reap_some : ℕ → List Bool → ℕ → Option ℕ
unfolding reap_below
reap_some limit [] u = none
reap_some limit (got ∷ ps) u = reap_below limit ps (if got then u - 1 else u)

unfoldable pub reap : ℕ → List Bool → ℕ → Option ℕ
unfolding reap_some
reap limit polls u = if leb 2 u then reap_some limit polls u else some u

module _ (sq_depth signal_every max_frame : ℕ) where
  abbrev pub reap_limit : ℕ
  reap_limit = sq_depth / signal_every - 1

  -- The counters when the request is posted.
  unfoldable pub posted : VerbsTx → VerbsTx
  posted t =
      if u64 (t.tx_count + 1) % signal_every == 0
      then record t { tx_count = u64 (t.tx_count + 1); unreaped = u32 (t.unreaped + 1) }
      else record t { tx_count = u64 (t.tx_count + 1) }

  unfoldable pub verbs_commit : List Bool → VerbsTx → Option VerbsTx
  unfolding posted reap
  verbs_commit polls t = do
    u ← reap reap_limit polls (posted t).unreaped
    some (record (posted t) { unreaped = u })

  unfoldable pub verbs_acquire : ℕ → VerbsTx → VerbsTx
  verbs_acquire frame_len t = record t { tx_len = frame_len }

  unfoldable pub verbs_send : List Bool → List ℕ → VerbsTx → Option (Bool × VerbsTx)
  unfolding verbs_acquire verbs_commit
  verbs_send polls frame t =
      if ltb t.max_inline (length frame) || ltb max_frame (length frame)
      then some (false, t)
      else (memcpy 0 frame t.tx_buf >>= (λ b.
          verbs_commit polls (record (verbs_acquire (u32 (length frame)) t) { tx_buf = b })
          >>= (λ s. some (true, s))))

  unfoldable pub verbs_prefill : List ℕ → VerbsTx → Option VerbsTx
  verbs_prefill template t =
      memcpy 0 (take (min (length template) max_frame) template) t.tx_buf
      >>= (λ b. some (record t { tx_buf = b }))
