-- ===== src/App/Echo.antt =====
-- The client takes the server's reply to its request for the echo, and no other.
use native.Mathlib.Decide.{ℕ_discrete}
use abtrda.Prelude.{
  ℕ, ◌+◌, ◌^◌, ◌≤◌, ◌<◌, ◌≡◌, refl, sym, ap, ◌∙◌, ◌≢◌, true, some, List, [], ◌∷◌, arith, leb, ◌==◌,
  length, take, drop, take-take,
}
use abtrda.Bytes.{le_bytes, le_value, overlay, slice, memcpy, store_u, load_u, swap32}
use abtrda.Bytes.Laws.{
  length-overlay, slice-overlay_self, slice-overlay_before, length-slice, length-le_bytes,
  le_value-le_bytes4, swap32-lt, swap32-swap32,
}
use abtrda.Frame.{off_seq}
use abtrda.App.Client.{bytes_eq, is_echo}
use abtrda.App.Server.{reflect}

pub bytes_eq_self : (xs : List ℕ) → bytes_eq xs xs ≡ true
unfolding bytes_eq
bytes_eq_self [] = refl
bytes_eq_self (x ∷ xs) = ground (arith, bytes_eq_self xs)

swap32-eq : (a b : ℕ) → a < 2 ^ 32 → b < 2 ^ 32 → (swap32 a == swap32 b) ≡ (a == b)
swap32-eq a b h k = elim (ℕ_discrete a b) [
  | yes e ↦ ap (λ x. swap32 x == swap32 b) e ∙ ground arith ∙ ap (λ x. x == b) (sym e)
  | no n ↦
      let apart : swap32 a ≢ swap32 b =
        λ e. n (sym (swap32-swap32 a h) ∙ ap swap32 e ∙ swap32-swap32 b k) in
      ground (arith, n, apart)
]

-- A request made in any slot and a reply made in a slot with room, whose first bytes are the client's
-- address: no store or load leaves its buffer; the reply has the header of its slot, and the client,
-- waiting for number `expected`, takes it exactly when that is the number of the request.
pub reflect-is_echo :
    (client_slot server_slot mac : List ℕ) (seq expected : ℕ)
    → 26 ≤ length client_slot
    → 26 ≤ length server_slot
    → slice 0 6 server_slot ≡ mac
    → seq < 2 ^ 32
    → expected < 2 ^ 32
    → (f : List ℕ) × (r : List ℕ) × (store_u 4 off_seq (swap32 seq) client_slot ≡ some f)
      × (reflect server_slot f ≡ some r)
      × (slice 0 14 r ≡ slice 0 14 server_slot)
      × (is_echo mac (swap32 expected) r ≡ some (seq == expected))
unfolding reflect is_echo store_u load_u memcpy
reflect-is_echo cs ss mac seq expected c s m h k =
    let word = le_bytes 4 (swap32 seq) in
    let f = overlay 14 word cs in
    let body = slice 14 12 f in
    let r = overlay 14 body ss in
    let lw : length word ≡ 4 = length-le_bytes 4 (swap32 seq) in
    let lf = length-overlay 14 word cs in
    let lb : length body ≡ 12 = length-slice 14 12 f (omega (arith, lf)) in
    let lr = length-overlay 14 body ss in
    let mac_kept : slice 0 6 r ≡ mac = slice-overlay_before 0 6 14 body ss (omega arith) ∙ m in
    let whole : slice 14 12 r ≡ body =
      ap (λ n. slice 14 n r) (sym lb) ∙ slice-overlay_self 14 body ss (omega (arith, lb)) in
    let sent_word : slice 14 4 f ≡ word =
      ap (λ n. slice 14 n f) (sym lw) ∙ slice-overlay_self 14 word cs (omega (arith, lw)) in
    let got_word : slice 14 4 r ≡ word =
      sym (take-take 4 12 (drop 14 r) (omega arith))
      ∙ ap (take 4) whole
      ∙ take-take 4 12 (drop 14 f) (omega arith)
      ∙ sent_word in
    let value : le_value (slice 14 4 r) ≡ swap32 seq =
      ap le_value got_word ∙ le_value-le_bytes4 (swap32 seq) (swap32-lt seq) in
    let stored : leb (14 + length word) (length cs) ≡ true = ground (arith, lw) in
    let copied : leb (14 + length body) (length ss) ≡ true = ground (arith, lb) in
    let long_f : leb 26 (length f) ≡ true = ground (arith, lf) in
    let long_r : leb 26 (length r) ≡ true = ground (arith, lr) in
    let long_word : leb 18 (length r) ≡ true = ground (arith, lr) in
    (
      f,
      r,
      rw stored refl,
      rw (long_f, copied) refl,
      slice-overlay_before 0 14 14 body ss (omega arith),
      rw (long_r, mac_kept, bytes_eq_self mac, long_word, value, swap32-eq seq expected h k) refl,
    )
