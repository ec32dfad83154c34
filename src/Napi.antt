-- ===== src/Napi.antt =====
-- The netlink messages of src/backends/common/NapiConfig.hpp as bytes: the attributes that a request is made
-- of (putAttr), the request of setBusyPoll, and the walks over a reply of getBusyPoll and resolveFamily. The
-- sockets are left out; the constants are those of the kernel's headers. A walk that does not end in
-- the turns it is given is `none`, as is a load outside the buffer.
pub mod Walk
pub mod Reply
pub mod Channels
mod Tests
use Prim.Native.Nat.{bit_and}
use abtrda.Prelude.{
  ℕ, zero, suc, ◌+◌, ◌-◌, ◌*◌, ◌/◌, Bool, true, false, not, ◌&&◌, ◌||◌, Option, none, some, List,
  [], ◌∷◌, ◌++◌, ltb, leb, ◌==◌, if◌then◌else◌, length, drop, replicate, u16, u32, sub64, ◌>>=◌,
}
use abtrda.Bytes.{memcpy, store_u, load_u}

-- Lengths of attributes and of messages are rounded up to four.
abbrev pub nla_align : ℕ → ℕ
nla_align n = (n + 3) / 4 * 4

-- A buffer and the offset behind what it holds.
unfoldable pub put_attr : ℕ → ℕ → ℕ → List ℕ × ℕ → Option (List ℕ × ℕ)
put_attr size type value (buf, off) = do
  a ← store_u 2 (off + 2) type buf
  b ← store_u 2 off (4 + size) a
  c ← store_u size (off + 4) value b
  some (c, off + nla_align (4 + size))

-- A string without its zero byte.
unfoldable pub put_attr_str : ℕ → List ℕ → List ℕ × ℕ → Option (List ℕ × ℕ)
put_attr_str type s (buf, off) = do
  let len = length s + 1
  a ← store_u 2 (off + 2) type buf
  b ← store_u 2 off (u16 (4 + len)) a
  c ← memcpy (off + 4) (s ++ (0 ∷ [])) b
  some (c, off + nla_align (u16 (4 + len)))

-- The headers of a request; its length is put in when it is complete.
unfoldable pub put_headers : ℕ → ℕ → ℕ → ℕ → List ℕ → Option (List ℕ × ℕ)
put_headers type flags seq cmd buf = do
  a ← store_u 4 0 20 buf
  b ← store_u 2 4 type a
  c ← store_u 2 6 flags b
  d ← store_u 4 8 seq c
  e ← store_u 1 16 cmd d
  f ← store_u 1 17 1 e
  some (f, 20)

unfoldable pub put_length : List ℕ × ℕ → Option (List ℕ × ℕ)
put_length (buf, off) = do a ← store_u 4 0 (u32 off) buf; some (a, off)

unfoldable pub family_request : List ℕ → Option (List ℕ × ℕ)
unfolding put_headers put_attr_str put_length
family_request name = do
  a ← put_headers 16 1 1 3 (replicate 512 0)
  b ← put_attr_str 2 name a
  put_length b

unfoldable pub set_request : ℕ → ℕ → ℕ → ℕ → ℕ → Option (List ℕ × ℕ)
unfolding put_headers put_attr put_length
set_request family napi_id defer_hard_irqs gro_flush_ns irq_suspend_ns = do
  a ← put_headers family 5 2 14 (replicate 512 0)
  b ← put_attr 4 2 napi_id a
  c ← put_attr 4 5 defer_hard_irqs b
  d ← put_attr 8 6 gro_flush_ns c
  e ← put_attr 8 7 irq_suspend_ns d
  put_length e

unfoldable pub get_request : ℕ → ℕ → Option (List ℕ × ℕ)
unfolding put_headers put_attr put_length
get_request family napi_id = do
  a ← put_headers family 1 3 11 (replicate 256 0)
  b ← put_attr 4 2 napi_id a
  put_length b

pub record NapiParams : Type 0 where
  pub valid : Bool
  pub defer_hard_irqs : ℕ
  pub gro_flush_ns : ℕ
  pub irq_suspend_ns : ℕ

-- Eight bytes, or four, or nothing, by the length of the payload.
unfoldable pub read_uint : ℕ → List ℕ → Option ℕ
read_uint plen attr =
    if leb 8 plen then load_u 8 4 attr else (if leb 4 plen then load_u 4 4 attr else some 0)

-- One attribute whose type and payload length were read; the payload is read where it is used.
unfoldable pub take_attr : ℕ → ℕ → List ℕ → NapiParams → Option NapiParams
take_attr type plen attr out =
    if bit_and type 16383 == 5
    then (read_uint plen attr >>= λ v. some (record out { defer_hard_irqs = u32 v }))
    else (if bit_and type 16383 == 6
        then (read_uint plen attr >>= λ v. some (record out { gro_flush_ns = v }))
        else (if bit_and type 16383 == 7
            then (read_uint plen attr >>= λ v. some (record out { irq_suspend_ns = v }))
            else some out))

-- The attributes from `attr` on, with `rem` bytes left in the message. What is left goes below zero in
-- the source when the last one is not aligned, and the walk ends there as it does here at 0.
unfoldable pub walk_attrs : ℕ → List ℕ → ℕ → NapiParams → Option NapiParams
unfolding take_attr
walk_attrs zero attr rem out = if ltb rem 4 then some out else none
walk_attrs (suc turns) attr rem out =
    let rest = λ (nla_len : ℕ). (do
      type ← load_u 2 2 attr
      next ← take_attr type (sub64 nla_len 4) attr out
      walk_attrs turns (drop (nla_align nla_len) attr) (rem - nla_align nla_len) next) in
    let known = load_u 2 0 attr >>= λ nla_len. if ltb rem nla_len then some out else rest nla_len in
    if ltb rem 4 then some out else known

-- The messages from `rh` on, with `n` bytes received and not yet walked. A message of `nlmsg_len` bytes
-- is whole when it holds its header and lies in what was received.
unfoldable pub walk_messages : ℕ → ℕ → List ℕ → ℕ → NapiParams → Option NapiParams
unfolding walk_attrs
walk_messages zero family rh n out = if ltb n 16 then some out else none
walk_messages (suc turns) family rh n out =
    let after = λ (nlmsg_len : ℕ) (next : NapiParams).
      walk_messages turns family (drop (nla_align nlmsg_len) rh) (n - nla_align nlmsg_len) next in
    let own = λ (nlmsg_len : ℕ). walk_attrs nlmsg_len (drop 20 rh) (nlmsg_len - 20) out >>= λ next.
    after nlmsg_len (record next { valid = true }) in
    let message = λ (nlmsg_len type : ℕ).
      if type == 2
      then some out
      else (if type == family then own nlmsg_len else after nlmsg_len out) in
    let known = load_u 4 0 rh >>= λ nlmsg_len.
    if ltb nlmsg_len 16 || ltb n nlmsg_len
    then some out
    else (load_u 2 4 rh >>= λ type. message nlmsg_len type) in
    if ltb n 16 then some out else known

abbrev pub unread : NapiParams
unread = record { valid = false; defer_hard_irqs = 0; gro_flush_ns = 0; irq_suspend_ns = 0 }

-- What the sockets gave: whether one was opened, the family's id, whether the request was sent, and
-- what was received, `n` bytes or fewer than none.
unfoldable pub get_busy_poll : Bool → ℕ → Bool → Option ℕ → List ℕ → Option NapiParams
unfolding walk_messages
get_busy_poll opened family sent none rbuf = some unread
get_busy_poll opened family sent (some n) rbuf =
    if opened && not (family == 0) && sent && leb 16 n
    then walk_messages n family rbuf n unread
    else some unread

-- The reply to setBusyPoll: an acknowledgement is an error message of code 0.
unfoldable pub set_busy_poll : Bool → ℕ → Bool → Option ℕ → List ℕ → Option Bool
set_busy_poll opened family sent none rbuf = some false
set_busy_poll opened family sent (some n) rbuf =
    let verdict = load_u 2 4 rbuf >>= λ type.
    if type == 2 then (load_u 4 16 rbuf >>= λ error. some (error == 0)) else some true in
    if opened && not (family == 0) && sent && leb 16 n then verdict else some false

-- The walk of resolveFamily: the id in the first attribute of type 1; `some none` when the attributes
-- end first.
unfoldable pub find_id : ℕ → List ℕ → ℕ → Option (Option ℕ)
find_id zero attr rem = if ltb rem 4 then some none else none
find_id (suc turns) attr rem =
    let rest = λ (nla_len : ℕ). load_u 2 2 attr >>= λ type.
    if type == 1
    then (load_u 2 4 attr >>= λ id. some (some id))
    else find_id turns (drop (nla_align nla_len) attr) (rem - nla_align nla_len) in
    let known =
      load_u 2 0 attr >>= λ nla_len. if ltb rem nla_len then some none else rest nla_len in
    if ltb rem 4 then some none else known

-- 0 when no message gives the id.
unfoldable pub find_family : ℕ → List ℕ → ℕ → Option ℕ
unfolding find_id
find_family zero rh n = if ltb n 16 then some 0 else none
find_family (suc turns) rh n =
    let after = λ (nlmsg_len : ℕ).
      find_family turns (drop (nla_align nlmsg_len) rh) (n - nla_align nlmsg_len) in
    let own = λ (nlmsg_len : ℕ). find_id nlmsg_len (drop 20 rh) (nlmsg_len - 20) >>= λ found.
    elim found [ some id ↦ some id | none ↦ after nlmsg_len ] in
    let message =
      λ (nlmsg_len type : ℕ). if type == 2 || type == 3 then some 0 else own nlmsg_len in
    let known = load_u 4 0 rh >>= λ nlmsg_len.
    if ltb nlmsg_len 16 || ltb n nlmsg_len
    then some 0
    else (load_u 2 4 rh >>= λ type. message nlmsg_len type) in
    if ltb n 16 then some 0 else known

unfoldable pub resolve_family : Bool → Option ℕ → List ℕ → Option ℕ
unfolding find_family
resolve_family sent none rbuf = some 0
resolve_family sent (some n) rbuf = if sent && leb 16 n then find_family n rbuf n else some 0
