-- ===== src/App/Replies.antt =====
-- What the server sends back, and what the generator and the sink count.
use Prim.Native.Nat.{bit_or}
use abtrda.Prelude.{
  ℕ, ◌+◌, ◌*◌, ◌^◌, ◌≤◌, ◌<◌, ◌≡◌, refl, sym, ap, ◌∙◌, ◌⊎◌, inl, inr, Bool, true, false, Option,
  none, some, List, [], ◌∷◌, ◌++◌, arith, leb, if◌then◌else◌, Bool-cases, length, append_nil,
  append_assoc, u64,
}
use abtrda.Bytes.{overlay, slice, memcpy}
use abtrda.Recorder.Queue.{Spsc}
use abtrda.Bytes.Laws.{length-slice}
use abtrda.App.Server.{
  Server, ServerTurn, reflect, wait_slot, push_turnaround, on_stamp, reply, reply_in, serve,
  server_loop, idle, request,
}

-- The replies of the turns up to the stop: one for each request, made in the first slot that was given.
abbrev pub Replies : List ServerTurn → List (List ℕ) → Type 0
Replies [] [] = Unit {0}
Replies [] (r ∷ rs) = ⊥
Replies (idle stamp ∷ ts) rs = Replies ts rs
Replies (request f slots tx_sequence rx_stamp ∷ ts) [] = wait_slot slots ≡ some none
Replies (request f slots tx_sequence rx_stamp ∷ ts) (r ∷ rs) =
    (slot : List ℕ) × (wait_slot slots ≡ some (some slot))
    × (reflect slot f ≡ some r)
    × Replies ts rs

-- A slot with room is given or the server is told to stop.
abbrev pub GivesRoom : List (Option (List ℕ) × Bool) → Type 0
GivesRoom [] = ⊥
GivesRoom ((some slot, stop) ∷ rest) = 26 ≤ length slot
GivesRoom ((none, true) ∷ rest) = Unit {0}
GivesRoom ((none, false) ∷ rest) = GivesRoom rest

-- Requests long enough for the header, the number and the stamp, each with its slot or a stop.
abbrev pub Servable : List ServerTurn → Type 0
Servable [] = Unit {0}
Servable (idle stamp ∷ ts) = Servable ts
Servable (request f slots tx_sequence rx_stamp ∷ ts) =
    (26 ≤ length f) × GivesRoom slots × Servable ts

wait_slot-GivesRoom :
    (slots : List (Option (List ℕ) × Bool))
    → GivesRoom slots
    → (wait_slot slots ≡ some none)
      ⊎ ((slot : List ℕ) × (wait_slot slots ≡ some (some slot)) × (26 ≤ length slot))
unfolding wait_slot
wait_slot-GivesRoom [] h = absurd h
wait_slot-GivesRoom ((some slot, stop) ∷ rest) h = inr (slot, refl, h)
wait_slot-GivesRoom ((none, true) ∷ rest) h = inl refl
wait_slot-GivesRoom ((none, false) ∷ rest) h = wait_slot-GivesRoom rest h

reflect-some :
    (slot f : List ℕ) → 26 ≤ length f → 26 ≤ length slot → (r : List ℕ) × (reflect slot f ≡ some r)
unfolding reflect memcpy
reflect-some slot f h k =
    let body = length-slice 14 12 f h in
    let long : leb 26 (length f) ≡ true = ground (arith, h) in
    let fits : leb (14 + length (slice 14 12 f)) (length slot) ≡ true = ground (arith, body) in
    (overlay 14 (slice 14 12 f) slot, rw (long, fits) refl)

module _ {Q : Type 0} (Spsc : Spsc Q) where
  push_turnaround-count :
      (o : Option Q) (s : Server Q) → (push_turnaround Spsc o s).packet_count ≡ s.packet_count
  unfolding push_turnaround
  push_turnaround-count none s = refl
  push_turnaround-count (some q) s = refl

  on_stamp-count :
      (o : Option (ℕ × ℕ)) (s : Server Q) → (on_stamp Spsc o s).packet_count ≡ s.packet_count
  unfolding on_stamp
  on_stamp-count none s = refl
  on_stamp-count (some (seq, minor)) s = ground (
    arith,
    push_turnaround-count (Spsc.try_push (bit_or (s.rx_in_flight * 2 ^ 32) minor) s.to_hist) s,
  )

  -- For requests of at least 26 bytes, each of which is given a slot of at least 26 bytes or meets a stop:
  -- the loop returns, no load or store having left its buffer. Up to the stop every request has one
  -- reply, in order, in the first slot that was given; idle turns send nothing; and the replies are
  -- counted.
  pub server_loop-Replies :
      (hw_ts : Bool) (ts : List ServerTurn) (out : List (List ℕ)) (s : Server Q)
      → s.packet_count < 2 ^ 64
      → Servable ts
      → (rs : List (List ℕ)) × (t : Server Q) × (server_loop Spsc hw_ts ts out s
          ≡ some (out ++ rs, t))
        × Replies ts rs
        × (t.packet_count ≡ u64 (s.packet_count + length rs))
  unfolding server_loop serve reply_in reply
  server_loop-Replies hw_ts [] out s w h =
      ([], s, ap (λ o. some (o, s)) (sym (append_nil out)), tt, omega arith)
  server_loop-Replies hw_ts (idle stamp ∷ ts) out s w h =
      let t = if hw_ts then on_stamp Spsc stamp s else s in
      let same : t.packet_count ≡ s.packet_count = elim (Bool-cases hw_ts) [
        | inl e ↦ rw e (on_stamp-count stamp s)
        | inr e ↦ rw e refl
      ] in
      let k = server_loop-Replies hw_ts ts out t (omega (arith, same)) h in
      (k.0, k.1, k.2, k.3, omega (arith, same, k.4))
  server_loop-Replies hw_ts (request f slots tx_sequence rx_stamp ∷ ts) out s w h =
      elim (wait_slot-GivesRoom slots h.1) [
        | inl e ↦ ([], s, rw e (ap (λ o. some (o, s)) (sym (append_nil out))), e, omega arith)
        | inr (slot, e, room) ↦
            let r = reflect-some slot f h.0 room in
            let t = reply Spsc hw_ts tx_sequence rx_stamp s in
            let k = server_loop-Replies hw_ts ts (out ++ (r.0 ∷ [])) t (omega arith) h.2 in
            (
              r.0 ∷ k.0,
              k.1,
              rw (e, r.1) (k.2 ∙ ap (λ o. some (o, k.1)) (append_assoc out (r.0 ∷ []) k.0)),
              (slot, e, r.1, k.3),
              omega (arith, k.4),
            )
      ]
