-- ===== src/Napi/Reply.antt =====
-- A whole reply through the reader, and the request of setBusyPoll through the same reader.
use abtrda.Prelude.{
  ℕ, zero, suc, ◌+◌, ◌-◌, ◌^◌, ◌≤◌, ◌<◌, ◌≡◌, refl, ap, ap₂, ◌∙◌, ◌≢◌, true, false, some, List, [],
  ◌∷◌, ◌++◌, arith, ltb, leb, ◌==◌, length, length-append, drop, replicate, u32,
}
use abtrda.Bytes.{le_bytes, le_value, overlay, memcpy, store_u, load_u}
use abtrda.Napi.{
  nla_align, set_request, NapiParams, walk_attrs, walk_messages, unread, get_busy_poll,
}
use abtrda.Napi.Walk.{
  Attr, attr_bytes, attr_type, attr_value, Encodable, attrs_bytes, set_param, attr_size-ge,
  length-attr_bytes, load_u-within, set_params, AllEncodable, walk_attrs-set_params, headers,
  attr32, attr64,
}

walk_messages-end :
    (turns family : ℕ) (rh : List ℕ) (out : NapiParams)
    → walk_messages turns family rh 0 out ≡ some out
unfolding walk_messages
walk_messages-end zero family rh out = refl
walk_messages-end (suc turns) family rh out = refl

-- One whole message of the family, the last that was received.
walk_messages-own :
    (turns family size : ℕ) (rh : List ℕ) (out next : NapiParams)
    → 16 ≤ size
    → family ≢ 2
    → load_u 4 0 rh ≡ some size
    → load_u 2 4 rh ≡ some family
    → walk_attrs size (drop 20 rh) (size - 20) out ≡ some next
    → walk_messages (suc turns) family rh size out ≡ some (record next { valid = true })
unfolding walk_messages
walk_messages-own turns family size rh out next h f a b c =
    let big : ltb size 16 ≡ false = ground arith in
    let whole : ltb size size ≡ false = ground arith in
    let other : family == 2 ≡ false = ground arith in
    let same : family == family ≡ true = ground arith in
    let done : size - nla_align size ≡ 0 = omega arith in
    rw (a, b, c, big, whole, other, same, done) (walk_messages-end turns family _ _)

abbrev pub reply_size : List Attr → ℕ
reply_size attrs = 20 + length (attrs_bytes attrs)

module _ (family flags seq cmd : ℕ) (attrs : List Attr) (tail : List ℕ) where
  -- A reply of one message with these attributes, in a buffer that goes on behind it.
  abbrev pub reply : List ℕ
  reply = headers (reply_size attrs) family flags seq cmd ++ (attrs_bytes attrs ++ tail)

  reply-size : reply_size attrs < 2 ^ 32 → load_u 4 0 reply ≡ some (reply_size attrs)
  unfolding le_bytes le_value
  reply-size h = load_u-within 4 0 (reply_size attrs) reply (omega arith) (omega arith)

  reply-family : family < 2 ^ 16 → load_u 2 4 reply ≡ some family
  unfolding le_bytes le_value
  reply-family h = load_u-within 2 4 family reply (omega arith) (omega arith)

  reply-attrs : drop 20 reply ≡ attrs_bytes attrs ++ tail
  unfolding le_bytes
  reply-attrs = refl

  few : (more : List Attr) → length more ≤ length (attrs_bytes more)
  unfolding attrs_bytes
  few [] = omega arith
  few (a ∷ more) = omega (
    arith,
    few more,
    length-append (attr_bytes a) (attrs_bytes more),
    length-attr_bytes a,
    attr_size-ge a,
  )

  -- A reply received whole, one message of the family with any attributes of 4 or 8 bytes: no load
  -- leaves the buffer, the walk ends, and the result is marked valid and holds the numbers of the
  -- attributes, the last of each type.
  pub get_busy_poll-set_params :
      family ≢ 0
      → family ≢ 2
      → family < 2 ^ 16
      → reply_size attrs < 2 ^ 32
      → AllEncodable attrs
      → get_busy_poll true family true (some (reply_size attrs)) reply
        ≡ some (record (set_params attrs unread) { valid = true })
  unfolding get_busy_poll
  get_busy_poll-set_params z e f h k =
      let some_family : family == 0 ≡ false = ground arith in
      let whole : leb 16 (reply_size attrs) ≡ true = ground arith in
      let turns : reply_size attrs ≡ suc (19 + length (attrs_bytes attrs)) = omega arith in
      let content : reply_size attrs - 20 ≡ length (attrs_bytes attrs) = omega arith in
      let walked : walk_attrs (reply_size attrs) (drop 20 reply) (reply_size attrs - 20) unread
          ≡ some (set_params attrs unread) =
        ap₂ (λ bs n. walk_attrs (reply_size attrs) bs n unread) reply-attrs content
        ∙ walk_attrs-set_params (reply_size attrs) attrs tail unread (omega (arith, few attrs)) k in
      rw (some_family, whole)
        (ap (λ n. walk_messages n family reply (reply_size attrs) unread) turns
          ∙ walk_messages-own (19 + length (attrs_bytes attrs)) family (reply_size attrs) reply
              unread (set_params attrs unread) (omega arith) e (reply-size h) (reply-family f)
              walked)

abbrev set_attrs : ℕ → ℕ → ℕ → ℕ → List Attr
set_attrs id d g i = attr32 2 id ∷ attr32 5 d ∷ attr64 6 g ∷ attr64 7 i ∷ []

-- The stores of the request fill its buffer from the front.
set_request-bytes :
    (family id d g i : ℕ)
    → set_request family id d g i
      ≡ some (headers 60 family 5 2 14 ++ (attrs_bytes (set_attrs id d g i) ++ replicate 452 0), 60)
unfolding set_request attrs_bytes attr_bytes memcpy store_u overlay le_bytes
set_request-bytes family id d g i = refl

-- The stores of setBusyPoll's request stay in its buffer and end at byte 60, which is the length it
-- states; and the walk of getBusyPoll over its attributes gives back the three numbers that were put
-- in, for any numbers of their widths.
pub set_request-walk_attrs :
    (family napi_id defer_hard_irqs gro_flush_ns irq_suspend_ns : ℕ)
    → napi_id < 2 ^ 32
    → defer_hard_irqs < 2 ^ 32
    → gro_flush_ns < 2 ^ 64
    → irq_suspend_ns < 2 ^ 64
    → (buf : List ℕ) × (set_request family napi_id defer_hard_irqs gro_flush_ns irq_suspend_ns
        ≡ some (buf, 60))
      × (load_u 4 0 buf ≡ some 60)
      × (walk_attrs 4 (drop 20 buf) 40 unread
          ≡ some (record {
            valid = false;
            defer_hard_irqs = defer_hard_irqs;
            gro_flush_ns = gro_flush_ns;
            irq_suspend_ns = irq_suspend_ns;
          }))
unfolding le_bytes le_value load_u Encodable attrs_bytes attr_bytes set_params attr_value attr_type
    set_param
set_request-walk_attrs family id d g i hid hd hg hi =
    let attrs = set_attrs id d g i in
    let encodable : AllEncodable attrs =
      ((omega arith, hid), ((omega arith, hd), ((omega arith, hg), ((omega arith, hi), tt)))) in
    (
      headers 60 family 5 2 14 ++ (attrs_bytes attrs ++ replicate 452 0),
      set_request-bytes family id d g i,
      refl,
      walk_attrs-set_params 4 attrs (replicate 452 0) unread (omega arith) encodable
          ∙ ap
              (λ x. some (record {
                valid = false;
                defer_hard_irqs = x;
                gro_flush_ns = g;
                irq_suspend_ns = i;
              }))
              (let small : u32 d ≡ d = omega arith in small),
    )
