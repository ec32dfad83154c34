-- ===== src/I210/Tx/Reach.antt =====
-- The transmit ring in any run: sends, frames written in place and the NIC's write-backs, in any
-- order.
use abtrda.Prelude.{
  ℕ, ◌*◌, ◌^◌, ◌≤◌, ◌<◌, ◌≡◌, subst, Bool, some, List, arith, length, set, length-set, get_or,
}
use abtrda.I210.Tx.{TxDesc, zero_desc, TxRing, acquire, commit, send}
use abtrda.I210.Tx.Cursors.{IsValid, Acquired, acquire-Acquired, commit-IsValid}
use abtrda.I210.Tx.Slots.{send-delivers}

module _ (n buff_size : ℕ) (phys : ℕ → ℕ) where
  -- The cursors after initTx, the tail register being zero after the reset.
  abbrev pub init_tx : List TxDesc → List ℕ → TxRing
  init_tx descs buffer = record {
    descs = descs;
    buffer = buffer;
    tail = 0;
    clean_head = 0;
    in_flight = 0;
    tdt = 0;
  }

  pub data TxReach : TxRing → Type 0 where
    starts :
        (descs : List TxDesc) (buffer : List ℕ)
        → length descs ≡ n
        → length buffer ≡ n * buff_size
        → TxReach (init_tx descs buffer)
    sends :
        (frame : List ℕ) (r : TxRing) (sent : Bool) (s : TxRing)
        → TxReach r
        → length frame ≤ buff_size
        → send n buff_size phys frame r ≡ some (sent, s)
        → TxReach s
    -- A client that acquires room, writes any bytes and commits.
    commits :
        (frame_len : ℕ) (r : TxRing) (at : ℕ) (s : TxRing) (buffer : List ℕ)
        → TxReach r
        → acquire n buff_size phys frame_len r ≡ (some at, s)
        → length buffer ≡ n * buff_size
        → TxReach (commit n buff_size phys (record s { buffer = buffer }))
    -- The NIC writes a status word to any descriptor.
    writes_back :
        (i status : ℕ) (r : TxRing)
        → TxReach r
        → TxReach (record r {
          descs = set r.descs i (record (get_or r.descs i zero_desc) { olinfo_status = status });
        })

  -- For a ring of 1 to 2^32 descriptors, in every state that sends, frames written in place and
  -- write-backs of the NIC lead to, the tail is as many slots ahead of the clean head as descriptors
  -- are in flight, these are at most as many as the ring has, and the tail register is the tail.
  pub TxReach-IsValid : (r : TxRing) → 0 < n → n ≤ 2 ^ 32 → TxReach r → IsValid n buff_size r
  TxReach-IsValid _ z w (starts descs buffer d b) = ground (arith, d, b)
  TxReach-IsValid _ z w (sends frame r sent s p f e) =
      let (sent', s', e', v, x) =
        send-delivers n buff_size phys frame r z w f (TxReach-IsValid r z w p) in
      subst (IsValid n buff_size) (ground (arith, e, e')) v
  TxReach-IsValid _ z w (commits frame_len r at s buffer p e b) =
      let a : Acquired n buff_size phys (some at) s =
        subst (λ q. Acquired n buff_size phys q.0 q.1) e
          (acquire-Acquired n buff_size phys frame_len r (TxReach-IsValid r z w p)) in
      let v = a.valid in
      commit-IsValid n buff_size phys (record s { buffer = buffer }) w (ground (arith, a.gives))
        (ground (arith, v, b))
  TxReach-IsValid _ z w (writes_back i status r p) =
      let v = TxReach-IsValid r z w p in
      ground (
        arith,
        length-set r.descs i (record (get_or r.descs i zero_desc) { olinfo_status = status }),
      )
