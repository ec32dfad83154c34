-- ===== src/I210/Rx/Reach.antt =====
-- The receive ring in any run of receives and write-backs of the NIC.
use native.Mathlib.Nat.{mod-eq_of_lt, add-mod_right}
use abtrda.Prelude.{
  ℕ, zero, suc, ◌+◌, ◌-◌, ◌%◌, ◌^◌, ◌≤◌, ◌<◌, ◌≡◌, refl, ap, ◌∙◌, ◌⊎◌, inl, inr, some, [], ◌∷◌,
  arith, length, set, length-append, length-set,
}
use abtrda.Ring.{bump, bump-cases, Ahead}
use abtrda.I210.Rx.{
  RxDesc, RxRing, rx_free_thresh, fresh_desc, fresh_descs, init_rx, try_receive, release,
}

-- The tail register trails the tail by the descriptors held and one more, and fewer than 32 are held.
pub record IsValid (n : ℕ) (r : RxRing) : Type 0 where
  pub sized : length r.descs ≡ n
  pub bounded : r.held < rx_free_thresh
  pub trails : Ahead n r.rdt (r.held + 1) r.tail

-- The slot before slot `t`.
back-cases :
    (n t : ℕ)
    → t < n
    → ((t ≡ 0) × ((t + n - 1) % n ≡ n - 1)) ⊎ ((0 < t) × ((t + n - 1) % n ≡ t - 1))
back-cases n zero h = inl (refl, ap (λ m. m % n) (omega arith) ∙ mod-eq_of_lt (omega arith))
back-cases n (suc t) h = inr (
  omega arith,
  ap (λ m. m % n) (omega arith) ∙ add-mod_right t n ∙ mod-eq_of_lt (omega arith) ∙ omega arith,
)

module _ (n buff_size : ℕ) (phys : ℕ → ℕ) where
  length-fresh_descs : (k : ℕ) → length (fresh_descs n buff_size phys k) ≡ k
  unfolding fresh_descs
  length-fresh_descs zero = refl
  length-fresh_descs (suc k) = omega (
    arith,
    length-append (fresh_descs n buff_size phys k) (fresh_desc n buff_size phys k ∷ []),
    length-fresh_descs k,
  )

  pub data RxReach : RxRing → Type 0 where
    starts : RxReach (init_rx n buff_size phys)
    releases :
        (r : RxRing) (at len : ℕ)
        → RxReach r
        → try_receive n buff_size phys r ≡ some (at, len)
        → RxReach (release n buff_size phys r)
    -- The NIC fills any descriptor.
    writes_back :
        (i : ℕ) (d : RxDesc) (r : RxRing)
        → RxReach r
        → RxReach (record r { descs = set r.descs i d })

  release-IsValid :
      (r : RxRing)
      → rx_free_thresh < n
      → n ≤ 2 ^ 32
      → IsValid n r
      → IsValid n (release n buff_size phys r)
  unfolding release
  release-IsValid r b w v = ground (
    arith,
    length-set r.descs r.tail (fresh_desc n buff_size phys r.tail),
    bump-cases n r.tail v.trails.1,
    back-cases n (bump n r.tail) (ground (arith, bump-cases n r.tail v.trails.1)),
  )

  -- For a ring of more than 32 and at most 2^32 descriptors, in every state that receives and the
  -- NIC's write-backs lead to, fewer than 32 descriptors are made ready again and not yet announced, and
  -- the slot in the tail register lies behind the receive cursor by exactly those and one more.
  pub RxReach-IsValid : (r : RxRing) → rx_free_thresh < n → n ≤ 2 ^ 32 → RxReach r → IsValid n r
  unfolding init_rx
  RxReach-IsValid _ b w starts = ground (arith, length-fresh_descs n)
  RxReach-IsValid _ b w (releases r at len p e) = release-IsValid r b w (RxReach-IsValid r b w p)
  RxReach-IsValid _ b w (writes_back i d r p) =
      let v = RxReach-IsValid r b w p in ground (arith, length-set r.descs i d)
