-- ===== src/Verbs/Rx.antt =====
-- Receiving in Verbs.hpp: the completion queue read in place, its consumer index and the receive
-- queue's head. The opcodes of the completion format are parameters; multi-byte fields and
-- doorbells stand in host order; a completion queue's size is a power of two.
pub mod Lockstep
use Prim.Native.Nat.{bit_and}
use abtrda.Prelude.{
  ℕ, ◌+◌, ◌-◌, ◌*◌, ◌/◌, ◌%◌, ◌^◌, not, ◌||◌, Option, none, some, List, ◌==◌, if◌then◌else◌, get_or,
  u16, u32,
}

-- The completion entry as read: its last byte, the receive request it answers, the frame's length.
pub record Cqe : Type 0 where
  pub op_own : ℕ
  pub wqe_counter : ℕ
  pub byte_cnt : ℕ

abbrev pub no_cqe : Cqe
no_cqe = record { op_own = 0; wqe_counter = 0; byte_cnt = 0 }

-- The two indices, the doorbell words that announce them, and the slot held.
pub record VerbsRx : Type 0 where
  pub cq_ci : ℕ
  pub rq_head : ℕ
  pub cq_dbrec : ℕ
  pub rq_dbrec : ℕ
  pub last_slot : ℕ

-- `cqe_invalid` and `resp_send` are opcodes, the high half of the last byte; the low bit is the owner.
module _ (cqe_invalid resp_send : ℕ) (cqe_cnt rq_depth max_frame : ℕ) where
  -- The owner bit that an entry of the current round carries.
  abbrev pub owner : ℕ → ℕ
  owner ci = if ci / cqe_cnt % 2 == 0 then 0 else 1

  -- Both indices move on, and both doorbells are rung.
  unfoldable pub consume : VerbsRx → VerbsRx
  consume r = record r {
    rq_head = u32 (r.rq_head + 1);
    rq_dbrec = u32 (r.rq_head + 1) % 2 ^ 16;
    cq_ci = u32 (r.cq_ci + 1);
    cq_dbrec = u32 (r.cq_ci + 1) % 2 ^ 24;
  }

  -- A completion that is there: a frame in its slot, or another completion, which is used up.
  unfoldable pub complete : Cqe → VerbsRx → Option (ℕ × ℕ) × VerbsRx
  unfolding consume
  complete e r =
      let slot = bit_and e.wqe_counter (rq_depth - 1) in
      if e.op_own / 2 ^ 4 == resp_send
      then (some (max_frame * (1 + slot), e.byte_cnt), record r { last_slot = slot })
      else (none, consume r)

  -- The offset and the length of a received frame; `cq` is what the queue's memory holds.
  unfoldable pub verbs_receive : List Cqe → VerbsRx → Option (ℕ × ℕ) × VerbsRx
  unfolding complete
  verbs_receive cq r =
      let e = get_or cq (r.cq_ci % cqe_cnt) no_cqe in
      let there = complete e r in
      if e.op_own / 2 ^ 4 == cqe_invalid || not (e.op_own % 2 == owner r.cq_ci)
      then (none, r)
      else there

  unfoldable pub verbs_release : VerbsRx → VerbsRx
  unfolding consume
  verbs_release r = consume r

  -- The address offset that the receive request at position `p` is written with.
  unfoldable pub prewritten : ℕ → ℕ
  prewritten p = max_frame * (1 + u16 (bit_and p (rq_depth - 1)))
