-- ===== src/PacketMmap/Tx.antt =====
-- PacketMmapTx (src/backends/PacketMmap/PacketMmapTx.hpp and PacketMmapTx.cpp): a ring of slots shared
-- with the kernel, each with a status word, two lengths and a data area. The slot pointer is the slot's
-- number; the kernel's status values are parameters.
pub mod Ownership
use abtrda.Prelude.{
  ℕ, ◌+◌, Bool, true, false, Option, none, some, List, [], ◌∷◌, leb, ◌==◌, if◌then◌else◌, length,
  set, get_or, u32, ◌>>=◌,
}
use abtrda.Bytes.{memcpy}

pub record Slot : Type 0 where
  pub tp_status : ℕ
  pub tp_len : ℕ
  pub tp_snaplen : ℕ
  pub data_area : List ℕ

abbrev pub no_slot : Slot
no_slot = record { tp_status = 0; tp_len = 0; tp_snaplen = 0; data_area = [] }

pub record MmapTx : Type 0 where
  pub slots : List Slot
  pub next_slot : ℕ

-- What a call of the kernel's send answers: success, a full queue (EAGAIN or EBUSY), or another error.
pub data Kick : Type 0 where
  sent : Kick
  busy : Kick
  failed : Kick

-- The retry loop over the kernel's answers: those that are left when it ends, `none` while it is
-- still retrying.
unfoldable pub kick : List Kick → Option (List Kick)
kick [] = none
kick (sent ∷ ks) = some ks
kick (busy ∷ ks) = kick ks
kick (failed ∷ ks) = some ks

-- The slot after slot `i`, round the ring.
unfoldable pub advance : ℕ → ℕ → ℕ
advance n i = if leb n (i + 1) then 0 else i + 1

module _ (available send_request : ℕ) where
  unfoldable pub acquire_slot : ℕ → MmapTx → Option (ℕ × MmapTx)
  acquire_slot frame_len r =
      let s = get_or r.slots r.next_slot no_slot in
      if s.tp_status == available
      then some (
        r.next_slot,
        record r {
          slots = set r.slots r.next_slot (record s { tp_len = frame_len; tp_snaplen = frame_len });
        },
      )
      else none

  -- The slot is handed to the kernel; its answers to the retry loop are the first argument.
  unfoldable pub commit_slot : List Kick → MmapTx → Option (List Kick × MmapTx)
  unfolding kick advance
  commit_slot answers r =
      let s = get_or r.slots r.next_slot no_slot in
      let t = record r {
        slots = set r.slots r.next_slot (record s { tp_status = send_request });
        next_slot = advance (length r.slots) r.next_slot;
      } in
      do rest ← kick answers; some (rest, t)

  -- The frame is copied to slot `i` and committed; `none` is a copy past the data area, or a kernel
  -- that is busy to the last of its answers.
  unfoldable pub fill_slot :
      List Kick → List ℕ → Option (ℕ × MmapTx) → MmapTx → Option (Bool × MmapTx)
  unfolding commit_slot
  fill_slot answers frame none r = some (false, r)
  fill_slot answers frame (some (i, a)) r = do
    d ← memcpy 0 frame (get_or a.slots i no_slot).data_area
    c ←
        commit_slot answers
          (record a { slots = set a.slots i (record (get_or a.slots i no_slot) { data_area = d }) })
    some (true, c.1)

  unfoldable pub send_frame : List Kick → List ℕ → MmapTx → Option (Bool × MmapTx)
  unfolding fill_slot acquire_slot
  send_frame answers frame r = fill_slot answers frame (acquire_slot (u32 (length frame)) r) r

  unfoldable pub prefill_slot : List ℕ → Slot → Option Slot
  prefill_slot template s =
      if s.tp_status == available
      then memcpy 0 template s.data_area >>= (λ d. some (record s { data_area = d }))
      else some s

  unfoldable pub prefill_slots : List ℕ → List Slot → Option (List Slot)
  unfolding prefill_slot
  prefill_slots template [] = some []
  prefill_slots template (s ∷ ss) = do
    t ← prefill_slot template s
    ts ← prefill_slots template ss
    some (t ∷ ts)
