-- ===== src/Verbs/Rx/Lockstep.antt =====
-- The receive queue's head stays a whole queue ahead of the completion index, and a frame is read
-- where its request said it would be.
use Prim.Native.Nat.{bit_and}
use native.Mathlib.Nat.{mod-lt, pow-le-pow_right, mul-le-mul_left}
use abtrda.Prelude.{
  ℕ, suc, ◌+◌, ◌-◌, ◌*◌, ◌/◌, ◌%◌, ◌^◌, ◌≤◌, ◌<◌, ◌≡◌, refl, sym, ap, ◌∙◌, subst, ◌≢◌, inl, inr,
  not, ◌||◌, Option, none, some, List, arith, ◌==◌, Bool-cases, get_or, u16, u32,
}
use abtrda.Bits.Mask.{pow_pos, bit_and-low}
use abtrda.Verbs.Rx.{
  Cqe, no_cqe, VerbsRx, owner, consume, complete, verbs_receive, verbs_release, prewritten,
}

module _ (cqe_invalid resp_send : ℕ) (cqe_cnt rq_depth max_frame : ℕ) where
  -- As many receive requests are posted and not completed as the queue has, and the doorbells say so.
  pub record IsLevel (r : VerbsRx) : Type 0 where
    pub level : r.rq_head ≡ u32 (r.cq_ci + rq_depth)
    pub small : r.cq_ci < 2 ^ 32
    pub rq_rung : r.rq_dbrec ≡ r.rq_head % 2 ^ 16
    pub cq_rung : r.cq_dbrec ≡ r.cq_ci % 2 ^ 24

  consume-IsLevel :
      (r : VerbsRx)
      → IsLevel r
      → IsLevel (consume cqe_invalid resp_send cqe_cnt rq_depth max_frame r)
  unfolding consume
  consume-IsLevel r l = ground (arith, l)

  -- The entry `e` is the completion of a received frame, of the round that the index `ci` is in.
  abbrev pub IsFrame : Cqe → ℕ → Type 0
  IsFrame e ci = (e.op_own / 2 ^ 4 ≡ resp_send) × (e.op_own % 2 ≡ ci / cqe_cnt % 2)

  -- What a poll at index `ci` answers from the entry `e`: a frame exactly when it is the completion of one,
  -- of the length that it says, in the slot that its request (and any that is a multiple of the queue's
  -- size away) was written with; and when it is no longer than a slot, inside the registered memory.
  abbrev pub InSlot : Option (ℕ × ℕ) → Cqe → ℕ → Type 0
  InSlot none e ci = ¬ IsFrame e ci
  InSlot (some (at, len)) e ci =
      IsFrame e ci
      × (len ≡ e.byte_cnt)
      × ((p : ℕ)
          → p % rq_depth ≡ e.wqe_counter % rq_depth
          → prewritten cqe_invalid resp_send cqe_cnt rq_depth max_frame p ≡ at)
      × (max_frame ≤ at)
      × (len ≤ max_frame → at + len ≤ max_frame * (1 + rq_depth))

  slot_inside :
      (s : ℕ)
      → s < rq_depth
      → (max_frame ≤ max_frame * (1 + s))
        × (max_frame * (1 + s) + max_frame ≤ max_frame * (1 + rq_depth))
  slot_inside s h = omega (
    arith,
    mul-le-mul_left {m = suc s} {n = rq_depth} max_frame h,
    mul-le-mul_left {m = 1} {n = 1 + s} max_frame (omega arith),
  )

  module _ (k : ℕ) (power : rq_depth ≡ 2 ^ k) (narrow : k ≤ 16) where
    small : (x : ℕ) → x % rq_depth < rq_depth
    small x = mod-lt x (omega (arith, power, pow_pos k))

    masked : (x : ℕ) → bit_and x (rq_depth - 1) ≡ x % rq_depth
    masked x = subst (λ d. bit_and x (d - 1) ≡ x % d) (sym power) (bit_and-low k x)

    depth_word : rq_depth ≤ 2 ^ 16
    depth_word = omega (arith, power, pow-le-pow_right {n = 2} (omega arith) narrow)

    written :
        (p : ℕ)
        → prewritten cqe_invalid resp_send cqe_cnt rq_depth max_frame p
          ≡ max_frame * (1 + p % rq_depth)
    unfolding prewritten
    written p =
        let word : u16 (bit_and p (rq_depth - 1)) ≡ p % rq_depth =
          omega (arith, masked p, small p, depth_word) in
        ap (λ s. max_frame * (1 + s)) word

    -- An entry that is there.
    there :
        (e : Cqe) (r : VerbsRx)
        → IsLevel r
        → e.op_own % 2 ≡ r.cq_ci / cqe_cnt % 2
        → let p = complete cqe_invalid resp_send cqe_cnt rq_depth max_frame e r in
          IsLevel p.1 × InSlot p.0 e r.cq_ci
    unfolding complete
    there e r l o = elim (Bool-cases (e.op_own / 2 ^ 4 == resp_send)) [
      | inl t ↦
          let inside = slot_inside (e.wqe_counter % rq_depth) (small e.wqe_counter) in
          rw (t, masked e.wqe_counter)
            (
              ground (arith, l),
              (
                (ground (arith, t), o),
                refl,
                λ p q. written p ∙ ap (λ s. max_frame * (1 + s)) q,
                inside.0,
                λ h. omega (arith, inside.1, h),
              ),
            )
      | inr f ↦ rw f (consume-IsLevel r l, λ q. absurd (ground (arith, f, q.0)))
    ]

    -- For a receive queue of 2^k slots, `k` at most 16, where the opcode of a received frame is not the
    -- invalid one: a level state stays level through every poll, whatever the completion queue's memory
    -- holds, and through every release. A poll gives a frame exactly when the entry at the index is the
    -- completion of one, with the owner bit of the current round; the frame has the length of the entry
    -- and lies in the slot that the request it answers was written with, past the transmit slot; and
    -- when that length is at most a slot's, it lies inside the registered memory.
    pub verbs_receive-IsLevel :
        (cq : List Cqe) (r : VerbsRx)
        → resp_send ≢ cqe_invalid
        → IsLevel r
        → let p = verbs_receive cqe_invalid resp_send cqe_cnt rq_depth max_frame cq r in
          IsLevel p.1
          × IsLevel (verbs_release cqe_invalid resp_send cqe_cnt rq_depth max_frame r)
          × InSlot p.0 (get_or cq (r.cq_ci % cqe_cnt) no_cqe) r.cq_ci
    unfolding verbs_receive verbs_release
    verbs_receive-IsLevel cq r d l =
        let e = get_or cq (r.cq_ci % cqe_cnt) no_cqe in
        let done = consume-IsLevel r l in
        elim (Bool-cases (
          e.op_own / 2 ^ 4 == cqe_invalid
          || not
              (e.op_own % 2 == owner cqe_invalid resp_send cqe_cnt rq_depth max_frame r.cq_ci))) [
                | inl absent ↦ rw absent (l, done, λ q. absurd (ground (arith, absent, q, d)))
                | inr present ↦
                    let taken = there e r l (ground (arith, present)) in
                    rw present (taken.0, done, taken.1)
              ]
