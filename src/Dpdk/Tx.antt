-- ===== src/Dpdk/Tx.antt =====
-- Sending in DPDK.hpp: one buffer that is sent again and again, or a fresh one for each frame. A
-- buffer is its reference count, its two lengths and its data room; what rte_pktmbuf_alloc would give
-- is an argument.
pub mod Refcount
use abtrda.Prelude.{
  ℕ, ◌+◌, min, Bool, true, false, ◌&&◌, Option, none, some, List, [], ◌∷◌, ltb, leb, ◌==◌,
  if◌then◌else◌, length, take, u16, ◌>>=◌,
}
use abtrda.Bytes.{memcpy}

abbrev pub inline_safe_len : ℕ
inline_safe_len = 128

abbrev pub refcnt_low : ℕ
refcnt_low = 8192

abbrev pub refcnt_topup : ℕ
refcnt_topup = 16384

pub record Mbuf : Type 0 where
  pub refcnt : ℕ
  pub data_len : ℕ
  pub pkt_len : ℕ
  pub room : List ℕ

-- The buffer that the next commit sends.
pub data Pending : Type 0 where
  nothing : Pending
  reused : Pending
  fresh_mbuf : Mbuf → Pending

pub record DpdkTx : Type 0 where
  pub tx_template : List ℕ
  pub reuse_inline : Bool
  pub tx_reuse : Option Mbuf
  pub pending_tx : Pending

unfoldable pub set_lengths : ℕ → Mbuf → Mbuf
set_lengths frame_len m = record m { data_len = u16 frame_len; pkt_len = frame_len }

-- The count is raised by the top-up whenever it has dipped below the low mark; it has 16 bits.
unfoldable pub top_up : Mbuf → Mbuf
top_up m =
    if ltb m.refcnt refcnt_low then record m { refcnt = u16 (m.refcnt + refcnt_topup) } else m

-- The buffer to send again, made at the first use; `none` is a copy past its room.
unfoldable pub reuse_mbuf : Option Mbuf → DpdkTx → Option (Option Mbuf)
reuse_mbuf alloc t = elim t.tx_reuse [
  | some m ↦ some (some m)
  | none ↦ elim alloc [
    | none ↦ some none
    | some m ↦
        memcpy 0 t.tx_template m.room
        >>= (λ d. some (some (record m { refcnt = refcnt_topup; room = d })))
  ]
]

unfoldable pub acquire_reused : ℕ → Option (Option Mbuf) → DpdkTx → Option (Bool × DpdkTx)
unfolding set_lengths top_up
acquire_reused frame_len none t = none
acquire_reused frame_len (some none) t = some (false, t)
acquire_reused frame_len (some (some m)) t =
    some
      (true, record t { tx_reuse = some (set_lengths frame_len (top_up m)); pending_tx = reused })

unfoldable pub acquire_fresh : ℕ → Option Mbuf → DpdkTx → Option (Bool × DpdkTx)
unfolding set_lengths
acquire_fresh frame_len none t = some (false, record t { pending_tx = nothing })
acquire_fresh frame_len (some m) t =
    memcpy 0 (take (min frame_len (length t.tx_template)) t.tx_template) m.room >>= (λ d.
      some (
        true,
        record t { pending_tx = fresh_mbuf (set_lengths frame_len (record m { room = d })) },
      ))

unfoldable pub dpdk_acquire : ℕ → Option Mbuf → DpdkTx → Option (Bool × DpdkTx)
unfolding acquire_reused acquire_fresh reuse_mbuf
dpdk_acquire frame_len alloc t =
    if t.reuse_inline && leb frame_len inline_safe_len
    then acquire_reused frame_len (reuse_mbuf alloc t) t
    else acquire_fresh frame_len alloc t

-- The device's answers to the retry loop: how many buffers each rte_eth_tx_burst took. `none` while it is
-- still retrying.
unfoldable pub tx_burst : List ℕ → Option (List ℕ)
tx_burst [] = none
tx_burst (taken ∷ ks) = let rest = tx_burst ks in if taken == 0 then rest else some ks

unfoldable pub dpdk_commit : List ℕ → DpdkTx → Option DpdkTx
unfolding tx_burst
dpdk_commit answers t = do rest ← tx_burst answers; some (record t { pending_tx = nothing })

unfoldable pub dpdk_prefill : ℕ → List ℕ → DpdkTx → DpdkTx
dpdk_prefill max_frame template t = record t {
  tx_template = take (min (length template) max_frame) template;
}
