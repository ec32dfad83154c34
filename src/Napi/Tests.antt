-- ===== src/Napi/Tests.antt =====
-- The messages at concrete values.
use abtrda.Prelude.{
  ℕ, zero, suc, ◌^◌, ◌≡◌, refl, true, false, none, some, List, [], ◌∷◌, arith, drop,
}
use abtrda.Bytes.{le_bytes, le_value, load_u}
use abtrda.Napi.{set_request, take_attr, walk_attrs, unread, get_busy_poll, set_busy_poll}
use abtrda.Napi.Walk.{
  Attr, attr_bytes, attr_type, attr_value, Encodable, attrs_bytes, set_param, set_params,
  AllEncodable, attr32, attr64,
}
use abtrda.Napi.Reply.{reply_size, reply, get_busy_poll-set_params, set_request-walk_attrs}

abbrev two_attrs : List Attr
two_attrs = attr32 5 2 ∷ attr64 7 (2 ^ 40) ∷ []

two_attrs-AllEncodable : AllEncodable two_attrs
unfolding Encodable
two_attrs-AllEncodable = ((omega arith, omega arith), ((omega arith, omega arith), tt))

get_busy_poll-set_params_example :
    get_busy_poll true 30 true (some (reply_size two_attrs)) (reply 30 0 3 11 two_attrs [])
    ≡ some (record { valid = true; defer_hard_irqs = 2; gro_flush_ns = 0; irq_suspend_ns = 2 ^ 40 })
unfolding set_params set_param attr_type attr_value attrs_bytes attr_bytes le_bytes
get_busy_poll-set_params_example =
    get_busy_poll-set_params 30 0 3 11 two_attrs [] (omega arith) (omega arith) (omega arith)
      (omega arith) two_attrs-AllEncodable

set_request-walk_attrs_example :
    (buf : List ℕ) × (set_request 30 8193 2 200000 20000000 ≡ some (buf, 60))
    × (load_u 4 0 buf ≡ some 60)
    × (walk_attrs 4 (drop 20 buf) 40 unread
        ≡ some (record {
          valid = false;
          defer_hard_irqs = 2;
          gro_flush_ns = 200000;
          irq_suspend_ns = 20000000;
        }))
set_request-walk_attrs_example =
    set_request-walk_attrs 30 8193 2 200000 20000000 (omega arith) (omega arith) (omega arith)
      (omega arith)

-- The kernel's acknowledgement, and a refusal with EPERM.
abbrev ack : ℕ → List ℕ
ack error = 36 ∷ 0 ∷ 0 ∷ 0 ∷ 2 ∷ 0 ∷ 0 ∷ 0 ∷ 2 ∷ 0 ∷ 0 ∷ 0 ∷ 0 ∷ 0 ∷ 0 ∷ 0 ∷ error ∷ 0 ∷ 0 ∷ 0 ∷ []

acknowledged : set_busy_poll true 30 true (some 36) (ack 0) ≡ some true
unfolding set_busy_poll load_u le_value
acknowledged = refl

refused : set_busy_poll true 30 true (some 36) (ack 1) ≡ some false
unfolding set_busy_poll load_u le_value
refused = refl

-- An attribute of length 0 is taken for the next one for ever: no number of turns ends the walk.
empty_attr-stuck : (turns : ℕ) → walk_attrs turns (0 ∷ 0 ∷ 9 ∷ 0 ∷ []) 4 unread ≡ none
unfolding walk_attrs take_attr load_u le_value
empty_attr-stuck zero = refl
empty_attr-stuck (suc turns) = empty_attr-stuck turns
