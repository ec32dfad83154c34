-- ===== src/Bytes.antt =====
-- Memory as a list of bytes: `memcpy` and the unaligned loads and stores of
-- src/app/SingleRecorder.hpp (storeU, loadU) on a little-endian host, and the network byte order.
pub mod Laws
use abtrda.Prelude.{
  ℕ, zero, suc, ◌+◌, ◌*◌, ◌/◌, ◌%◌, ◌^◌, Option, none, some, List, [], ◌∷◌, leb, if◌then◌else◌,
  length, take, drop,
}

-- The `k` low bytes of a number, lowest first, and the number that bytes stand for.
unfoldable pub le_bytes : ℕ → ℕ → List ℕ
le_bytes zero v = []
le_bytes (suc k) v = (v % 2 ^ 8) ∷ le_bytes k (v / 2 ^ 8)

unfoldable pub le_value : List ℕ → ℕ
le_value [] = 0
le_value (b ∷ bs) = b + 2 ^ 8 * le_value bs

-- The bytes `bs` over those of `mem` from index `at` on; what would fall outside is lost.
unfoldable pub overlay : ℕ → List ℕ → List ℕ → List ℕ
overlay at bs [] = []
overlay zero [] (m ∷ mem) = m ∷ mem
overlay zero (b ∷ bs) (m ∷ mem) = b ∷ overlay zero bs mem
overlay (suc at) bs (m ∷ mem) = m ∷ overlay at bs mem

abbrev pub slice : ℕ → ℕ → List ℕ → List ℕ
slice at n mem = take n (drop at mem)

-- A store or a load outside the buffer is a fault, `none`.
unfoldable pub memcpy : ℕ → List ℕ → List ℕ → Option (List ℕ)
memcpy at bs mem = if leb (at + length bs) (length mem) then some (overlay at bs mem) else none

unfoldable pub store_u : ℕ → ℕ → ℕ → List ℕ → Option (List ℕ)
store_u size at v mem = memcpy at (le_bytes size v) mem

unfoldable pub load_u : ℕ → ℕ → List ℕ → Option ℕ
load_u size at mem =
    if leb (at + size) (length mem) then some (le_value (slice at size mem)) else none

-- `htonl` and `ntohl` on a little-endian host.
unfoldable pub swap32 : ℕ → ℕ
swap32 v =
    v % 2 ^ 8 * 2 ^ 24
    + v / 2 ^ 8 % 2 ^ 8 * 2 ^ 16
    + v / 2 ^ 16 % 2 ^ 8 * 2 ^ 8
    + v / 2 ^ 24 % 2 ^ 8
