-- ===== src/Napi/Walk.antt =====
-- The walk over the attributes of a reply.
use Prim.Native.Nat.{bit_and}
use abtrda.Prelude.{
  ℕ, zero, suc, ◌+◌, ◌-◌, ◌^◌, ◌≤◌, ◌<◌, ◌≡◌, refl, ap, ap₂, ◌∙◌, inl, inr, true, false, some, List,
  [], ◌∷◌, ◌++◌, arith, ltb, leb, ◌==◌, if◌then◌else◌, Bool-cases, length, length-append,
  append_assoc, drop, replicate, u32, sub64,
}
use abtrda.Bytes.{le_bytes, le_value, slice, load_u}
use abtrda.Napi.{nla_align, NapiParams, read_uint, take_attr, walk_attrs}

-- An attribute of a reply: its type, and a number of four bytes or of eight.
pub data Attr : Type 0 where
  attr32 : ℕ → ℕ → Attr
  attr64 : ℕ → ℕ → Attr

unfoldable pub attr_bytes : Attr → List ℕ
attr_bytes (attr32 type v) = le_bytes 2 8 ++ (le_bytes 2 type ++ le_bytes 4 v)
attr_bytes (attr64 type v) = le_bytes 2 12 ++ (le_bytes 2 type ++ le_bytes 8 v)

unfoldable pub attr_size : Attr → ℕ
attr_size (attr32 type v) = 8
attr_size (attr64 type v) = 12

unfoldable pub attr_type : Attr → ℕ
attr_type (attr32 type v) = type
attr_type (attr64 type v) = type

unfoldable pub attr_value : Attr → ℕ
attr_value (attr32 type v) = v
attr_value (attr64 type v) = v

unfoldable pub Encodable : Attr → Type 0
Encodable (attr32 type v) = (type < 2 ^ 16) × (v < 2 ^ 32)
Encodable (attr64 type v) = (type < 2 ^ 16) × (v < 2 ^ 64)

unfoldable pub attrs_bytes : List Attr → List ℕ
attrs_bytes [] = []
attrs_bytes (a ∷ more) = attr_bytes a ++ attrs_bytes more

-- The parameters with the field that an attribute of type `type` names set to `v`.
unfoldable pub set_param : ℕ → ℕ → NapiParams → NapiParams
set_param type v out =
    if bit_and type 16383 == 5
    then record out { defer_hard_irqs = u32 v }
    else (if bit_and type 16383 == 6
        then record out { gro_flush_ns = v }
        else (if bit_and type 16383 == 7 then record out { irq_suspend_ns = v } else out))

walk_attrs-step :
    (turns len type : ℕ) (attr : List ℕ) (rem : ℕ) (out next : NapiParams)
    → 4 ≤ rem
    → len ≤ rem
    → load_u 2 0 attr ≡ some len
    → load_u 2 2 attr ≡ some type
    → take_attr type (sub64 len 4) attr out ≡ some next
    → walk_attrs (suc turns) attr rem out
      ≡ walk_attrs turns (drop (nla_align len) attr) (rem - nla_align len) next
unfolding walk_attrs
walk_attrs-step turns len type attr rem out next h l e f g =
    let big : ltb rem 4 ≡ false = ground arith in
    let fits : ltb rem len ≡ false = ground arith in rw (e, f, g, big, fits) refl

pub attr_size-ge : (a : Attr) → 8 ≤ attr_size a
unfolding attr_size
attr_size-ge (attr32 type v) = omega arith
attr_size-ge (attr64 type v) = omega arith

nla_align-attr_size : (a : Attr) → nla_align (attr_size a) ≡ attr_size a
unfolding attr_size
nla_align-attr_size (attr32 type v) = refl
nla_align-attr_size (attr64 type v) = refl

payload : (a : Attr) → sub64 (attr_size a) 4 ≡ attr_size a - 4
unfolding attr_size
payload (attr32 type v) = refl
payload (attr64 type v) = refl

attr_type-lt : (a : Attr) → Encodable a → attr_type a < 2 ^ 16
unfolding attr_type Encodable
attr_type-lt (attr32 type v) h = h.0
attr_type-lt (attr64 type v) h = h.0

pub length-attr_bytes : (a : Attr) → length (attr_bytes a) ≡ attr_size a
unfolding attr_bytes le_bytes attr_size
length-attr_bytes (attr32 type v) = refl
length-attr_bytes (attr64 type v) = refl

pub load_u-within :
    (k i v : ℕ) (mem : List ℕ)
    → i + k ≤ length mem
    → le_value (slice i k mem) ≡ v
    → load_u k i mem ≡ some v
unfolding load_u
load_u-within k i v mem h e =
    let fits : leb (i + k) (length mem) ≡ true = ground arith in rw fits (ap some e)

roomy : (a : Attr) (tail : List ℕ) → 8 ≤ length (attr_bytes a ++ tail)
unfolding attr_bytes le_bytes
roomy (attr32 type v) tail = omega arith
roomy (attr64 type v) tail = omega arith

load_u-len : (a : Attr) (tail : List ℕ) → load_u 2 0 (attr_bytes a ++ tail) ≡ some (attr_size a)
unfolding attr_bytes le_bytes attr_size le_value
load_u-len (attr32 type v) tail =
    load_u-within 2 0 8 _ (omega (arith, roomy (attr32 type v) tail)) refl
load_u-len (attr64 type v) tail =
    load_u-within 2 0 12 _ (omega (arith, roomy (attr64 type v) tail)) refl

load_u-type :
    (a : Attr) (tail : List ℕ)
    → attr_type a < 2 ^ 16
    → load_u 2 2 (attr_bytes a ++ tail) ≡ some (attr_type a)
unfolding attr_bytes le_bytes attr_type le_value
load_u-type (attr32 type v) tail h =
    load_u-within 2 2 type _ (omega (arith, roomy (attr32 type v) tail)) (omega arith)
load_u-type (attr64 type v) tail h =
    load_u-within 2 2 type _ (omega (arith, roomy (attr64 type v) tail)) (omega arith)

read_uint-value :
    (a : Attr) (tail : List ℕ)
    → Encodable a
    → read_uint (attr_size a - 4) (attr_bytes a ++ tail) ≡ some (attr_value a)
unfolding attr_bytes le_bytes attr_size attr_value le_value read_uint Encodable
read_uint-value (attr32 type v) tail h =
    load_u-within 4 4 v _ (omega (arith, roomy (attr32 type v) tail)) (omega (arith, h.1))
read_uint-value (attr64 type v) tail h = load_u-within 8 4 v _ (omega arith) (omega (arith, h.1))

take_attr-read :
    (type plen v : ℕ) (attr : List ℕ) (out : NapiParams)
    → read_uint plen attr ≡ some v
    → take_attr type plen attr out ≡ some (set_param type v out)
unfolding take_attr set_param
take_attr-read type plen v attr out e = elim (Bool-cases (bit_and type 16383 == 5)) [
  | inl a ↦ rw (a, e) refl
  | inr a ↦ elim (Bool-cases (bit_and type 16383 == 6)) [
    | inl b ↦ rw (a, b, e) refl
    | inr b ↦ elim (Bool-cases (bit_and type 16383 == 7)) [
      | inl c ↦ rw (a, b, c, e) refl
      | inr c ↦ rw (a, b, c) refl
    ]
  ]
]

drop-attr_bytes : (a : Attr) (tail : List ℕ) → drop (attr_size a) (attr_bytes a ++ tail) ≡ tail
unfolding attr_bytes le_bytes attr_size
drop-attr_bytes (attr32 type v) tail = refl
drop-attr_bytes (attr64 type v) tail = refl

one_attr :
    (turns : ℕ) (a : Attr) (tail : List ℕ) (rem : ℕ) (out : NapiParams)
    → Encodable a
    → walk_attrs (suc turns) (attr_bytes a ++ tail) (attr_size a + rem) out
      ≡ walk_attrs turns tail rem (set_param (attr_type a) (attr_value a) out)
one_attr turns a tail rem out h =
    let next = set_param (attr_type a) (attr_value a) out in
    walk_attrs-step turns (attr_size a) (attr_type a) (attr_bytes a ++ tail) (attr_size a + rem) out
      next (omega (arith, attr_size-ge a)) (omega arith) (load_u-len a tail)
      (load_u-type a tail (attr_type-lt a h))
      (ap (λ n. take_attr (attr_type a) n (attr_bytes a ++ tail) out) (payload a)
        ∙ take_attr-read (attr_type a) (attr_size a - 4) (attr_value a) (attr_bytes a ++ tail) out
            (read_uint-value a tail h))
    ∙ ap₂ (λ bs n. walk_attrs turns bs n next)
        (ap (λ n. drop n (attr_bytes a ++ tail)) (nla_align-attr_size a) ∙ drop-attr_bytes a tail)
        (omega (arith, nla_align-attr_size a))

-- The numbers that a reply gives, in its order: the last attribute of a type counts.
unfoldable pub set_params : List Attr → NapiParams → NapiParams
unfolding set_param
set_params [] out = out
set_params (a ∷ more) out = set_params more (set_param (attr_type a) (attr_value a) out)

abbrev pub AllEncodable : List Attr → Type 0
AllEncodable [] = Unit {0}
AllEncodable (a ∷ more) = Encodable a × AllEncodable more

pub walk_attrs-set_params :
    (turns : ℕ) (attrs : List Attr) (tail : List ℕ) (out : NapiParams)
    → length attrs ≤ turns
    → AllEncodable attrs
    → walk_attrs turns (attrs_bytes attrs ++ tail) (length (attrs_bytes attrs)) out
      ≡ some (set_params attrs out)
unfolding walk_attrs attrs_bytes set_params
walk_attrs-set_params zero [] tail out l h = refl
walk_attrs-set_params (suc turns) [] tail out l h = refl
walk_attrs-set_params zero (a ∷ more) tail out l h = absurd (omega arith)
walk_attrs-set_params (suc turns) (a ∷ more) tail out l h =
    let rest = attrs_bytes more in
    ap₂ (λ bs n. walk_attrs (suc turns) bs n out) (append_assoc (attr_bytes a) rest tail)
      (length-append (attr_bytes a) rest ∙ ap (λ n. n + length rest) (length-attr_bytes a))
    ∙ one_attr turns a (rest ++ tail) (length rest) out h.0
    ∙ walk_attrs-set_params turns more tail _ (omega arith) h.1

-- The headers of a message.
abbrev pub headers : ℕ → ℕ → ℕ → ℕ → ℕ → List ℕ
headers size type flags seq cmd =
    le_bytes 4 size
    ++ (le_bytes 2 type
        ++ (le_bytes 2 flags ++ (le_bytes 4 seq ++ (replicate 4 0 ++ (cmd ∷ 1 ∷ 0 ∷ 0 ∷ [])))))
