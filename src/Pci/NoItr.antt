-- ===== src/Pci/NoItr.antt =====
-- What the scan does to the queue control registers, on a device whose registers hold what is written
-- to them.
use Prim.Native.Nat.{bit_and}
use native.Mathlib.Decide.{ℕ_discrete}
use abtrda.Prelude.{
  ℕ, zero, suc, ◌+◌, ◌-◌, ◌*◌, ◌/◌, ◌^◌, ◌≤◌, ◌<◌, ◌≡◌, refl, sym, ap, ◌∙◌, subst, ◌≢◌, inl, inr,
  true, some, arith, ltb, leb, ◌==◌, if◌then◌else◌, Bool-cases, u32,
}
use abtrda.Pci.Value.{
  Bound, is_bound_rx_queue-Bound, Bound-is_bound_rx_queue, no_itr_value-index, detached, NoItrWord,
  detached-NoItrWord,
}
use abtrda.I210.Regs.{Device, read_value}
use abtrda.I210.Regs.Quiet.{Plain}
use abtrda.Pci.{
  rqctl_base, rqctl_count, itr_indx_mask, is_bound_rx_queue, no_itr_value, rqctl_mapped, rqctl,
  Scan, count_patch, patch_queue, scan_queue, scan_queues, scan_verdict, set_no_itr_mapped,
  set_no_itr,
}

abbrev Words : {D : Type 0} → Device D → D → Type 0
Words dev d = (r : ℕ) → read_value dev r d < 2 ^ 32

count_patch-index :
    (after : ℕ) (s : Scan)
    → bit_and after itr_indx_mask ≡ itr_indx_mask
    → count_patch after s ≡ record s { patched = u32 (s.patched + 1) }
unfolding count_patch
count_patch-index after s e = rw e refl

module _ {D : Type 0} (dev : Device D) where
  -- How many of the first `n` queues are bound.
  unfoldable bound_count : ℕ → D → ℕ
  bound_count zero d = 0
  bound_count (suc n) d =
      bound_count n d + (if is_bound_rx_queue (read_value dev (rqctl n) d) then 1 else 0)

  bound_count-le : (n : ℕ) (d : D) → bound_count n d ≤ n
  unfolding bound_count
  bound_count-le zero d = omega arith
  bound_count-le (suc n) d = ground (arith, bound_count-le n d)

  bound_count-found :
      (n : ℕ) (d : D)
      → ltb 0 (bound_count n d) ≡ true
      → (q : ℕ) × (q < n) × Bound (read_value dev (rqctl q) d)
  unfolding bound_count
  bound_count-found zero d e = absurd (ground (arith, e))
  bound_count-found (suc n) d e =
      elim (Bool-cases (is_bound_rx_queue (read_value dev (rqctl n) d))) [
        | inl b ↦ (n, omega arith, is_bound_rx_queue-Bound _ b)
        | inr b ↦
            let (q, h, k) = bound_count-found n d (ground (arith, b, e)) in (q, omega (arith, h), k)
      ]

  bound_count-finds :
      (n q : ℕ) (d : D)
      → q < n
      → Bound (read_value dev (rqctl q) d)
      → ltb 0 (bound_count n d) ≡ true
  unfolding bound_count
  bound_count-finds zero q d h b = absurd (omega arith)
  bound_count-finds (suc n) q d h b = elim (ℕ_discrete q n) [
    | yes e ↦
        let v : is_bound_rx_queue (read_value dev (rqctl n) d) ≡ true =
          subst (λ j. is_bound_rx_queue (read_value dev (rqctl j) d) ≡ true) e
            (Bound-is_bound_rx_queue _ b) in
        ground (arith, v)
    | no e ↦ ground (arith, bound_count-finds n q d (omega (arith, e)) b)
  ]

module _ {D : Type 0} (dev : Device D) (plain : Plain dev) where
  -- One queue of the scan, when its register held `v`.
  patch_queue-landed :
      (reg v : ℕ) (d : D) (s : Scan)
      → v < 2 ^ 32
      → patch_queue dev reg v d s ≡ (
        (dev.read_reg reg (dev.write_reg reg (no_itr_value v) d)).1,
        record s { patched = u32 (s.patched + 1) },
      )
  unfolding patch_queue
  patch_queue-landed reg v d s w =
      let after = dev.read_reg reg (dev.write_reg reg (no_itr_value v) d) in
      let index =
        ap (λ x. bit_and x itr_indx_mask) (plain.read_same reg (no_itr_value v) d)
        ∙ no_itr_value-index v w in
      ap (λ x. (after.1, x)) (count_patch-index after.0 s index)

  scan_queue-if :
      (q : ℕ) (d : D) (s : Scan)
      → let before = dev.read_reg (rqctl q) d in
        scan_queue dev q (d, s) ≡ (
          if is_bound_rx_queue before.0
          then patch_queue dev (rqctl q) before.0 before.1 s
          else (before.1, s))
  unfolding scan_queue
  scan_queue-if q d s = refl

  -- The register of its own queue.
  scan_queue-same :
      (q : ℕ) (d : D) (s : Scan)
      → read_value dev (rqctl q) d < 2 ^ 32
      → read_value dev (rqctl q) (scan_queue dev q (d, s)).0 ≡ detached (read_value dev (rqctl q) d)
  scan_queue-same q d s w =
      let v = read_value dev (rqctl q) d in
      let e = (dev.read_reg (rqctl q) d).1 in
      rw (scan_queue-if q d s) (elim (Bool-cases (is_bound_rx_queue v)) [
        | inl b ↦
            rw (b, patch_queue-landed (rqctl q) v e s w)
              (plain.read_read _ _ _ ∙ plain.read_same _ _ e)
        | inr b ↦ rw b (plain.read_read _ _ d)
      ])

  -- The registers of the other queues.
  scan_queue-other :
      (r q : ℕ) (d : D) (s : Scan)
      → read_value dev (rqctl q) d < 2 ^ 32
      → r ≢ rqctl q
      → read_value dev r (scan_queue dev q (d, s)).0 ≡ read_value dev r d
  scan_queue-other r q d s w h =
      let v = read_value dev (rqctl q) d in
      let e = (dev.read_reg (rqctl q) d).1 in
      rw (scan_queue-if q d s) (elim (Bool-cases (is_bound_rx_queue v)) [
        | inl b ↦
            rw (b, patch_queue-landed (rqctl q) v e s w)
              (plain.read_read _ _ _ ∙ plain.read_other _ _ _ e h ∙ plain.read_read _ _ d)
        | inr b ↦ rw b (plain.read_read _ _ d)
      ])

  scan_queue-count :
      (q : ℕ) (d : D) (s : Scan)
      → read_value dev (rqctl q) d < 2 ^ 32
      → (scan_queue dev q (d, s)).1 ≡ (
          if is_bound_rx_queue (read_value dev (rqctl q) d)
          then record s { patched = u32 (s.patched + 1) }
          else s)
  scan_queue-count q d s w =
      let v = read_value dev (rqctl q) d in
      let e = (dev.read_reg (rqctl q) d).1 in
      rw (scan_queue-if q d s) (elim (Bool-cases (is_bound_rx_queue v)) [
        | inl b ↦ rw (b, patch_queue-landed (rqctl q) v e s w) refl
        | inr b ↦ rw b refl
      ])

  not_yet : (n q : ℕ) → q < n → rqctl n ≢ rqctl q
  not_yet n q h e = omega arith

  -- What the scan has not reached is as it was.
  scan_queues-other :
      (n r : ℕ) (d : D)
      → Words dev d
      → ((q : ℕ) → q < n → r ≢ rqctl q)
      → read_value dev r (scan_queues dev n d).0 ≡ read_value dev r d
  unfolding scan_queues
  scan_queues-other zero r d w h = refl
  scan_queues-other (suc n) r d w h =
      let before = scan_queues dev n d in
      let untouched = scan_queues-other n (rqctl n) d w (not_yet n) in
      let fits : read_value dev (rqctl n) before.0 < 2 ^ 32 =
        omega (arith, untouched, w (rqctl n)) in
      scan_queue-other r n before.0 before.1 fits (h n (omega arith))
      ∙ scan_queues-other n r d w (λ q l. h q (omega arith))

  fresh : (n : ℕ) (d : D) → Words dev d → read_value dev (rqctl n) (scan_queues dev n d).0 < 2 ^ 32
  fresh n d w = omega (arith, scan_queues-other n (rqctl n) d w (not_yet n), w (rqctl n))

  scan_queues-visited :
      (n q : ℕ) (d : D)
      → Words dev d
      → q < n
      → read_value dev (rqctl q) (scan_queues dev n d).0 ≡ detached (read_value dev (rqctl q) d)
  unfolding scan_queues
  scan_queues-visited zero q d w h = absurd (omega arith)
  scan_queues-visited (suc n) q d w h =
      let before = scan_queues dev n d in
      elim (Bool-cases (q == n)) [
        | inl b ↦
            subst
              (λ k.
                read_value dev (rqctl k) (scan_queue dev n before).0
                ≡ detached (read_value dev (rqctl k) d))
              (ground (arith, b))
              (scan_queue-same n before.0 before.1 (fresh n d w)
                ∙ ap detached (scan_queues-other n (rqctl n) d w (not_yet n)))
        | inr b ↦
            scan_queue-other (rqctl q) n before.0 before.1 (fresh n d w) (λ e. ground (arith, b))
            ∙ scan_queues-visited n q d w (ground (arith, b))
      ]

  scan_queues-count :
      (n : ℕ) (d : D)
      → n < 2 ^ 32
      → Words dev d
      → (scan_queues dev n d).1 ≡ record { patched = bound_count dev n d; failed = 0 }
  unfolding scan_queues bound_count
  scan_queues-count zero d h w = refl
  scan_queues-count (suc n) d h w =
      let before = scan_queues dev n d in
      let v = read_value dev (rqctl n) before.0 in
      let step = scan_queue-count n before.0 before.1 (fresh n d w) in
      let same = scan_queues-other n (rqctl n) d w (not_yet n) in
      let ih = scan_queues-count n d (omega arith) w in
      let small = bound_count-le dev n d in
      step
      ∙ rw (same, ih)
          (elim (Bool-cases (is_bound_rx_queue (read_value dev (rqctl n) d))) [
            | inl b ↦ rw b (ap (λ x. record { patched = x; failed = 0 }) (omega arith))
            | inr b ↦ rw b (ap (λ x. record { patched = x; failed = 0 }) (omega arith))
          ])

rqctl_mapped-le :
    (bar0_size count : ℕ)
    → rqctl_mapped bar0_size ≡ some count
    → (count ≤ 1536) × (rqctl_base + 4 * count ≤ bar0_size)
unfolding rqctl_mapped
rqctl_mapped-le bar0_size count e =
    elim (Bool-cases (ltb bar0_size (rqctl_base + rqctl_count * 4))) [
      | inl b ↦ elim (Bool-cases (leb bar0_size rqctl_base)) [
        | inl c ↦ ground (arith, b, c, e)
        | inr c ↦
            let n : (bar0_size - rqctl_base) / 4 ≡ count = ground (arith, b, c, e) in
            ground (arith, b, c, n)
      ]
      | inr b ↦ let n : rqctl_count ≡ count = ground (arith, b, e) in ground (arith, b, n)
    ]

module _ {D : Type 0} (dev : Device D) where
  scan_verdict-counted :
      (d : D) (n : ℕ) → scan_verdict dev (d, record { patched = n; failed = 0 }) ≡ (ltb 0 n, d)
  unfolding scan_verdict
  scan_verdict-counted d n = elim (Bool-cases (n == 0)) [
    | inl b ↦ rw b (ap (λ x. (x, d)) (ground (arith, b)))
    | inr b ↦ rw b (ap (λ x. (x, d)) (ground (arith, b)))
  ]

module _ {D : Type 0} (dev : Device D) (plain : Plain dev) where
  set_no_itr-scanned :
      (bar0_size count : ℕ) (d : D)
      → rqctl_mapped bar0_size ≡ some count
      → Words dev d
      → set_no_itr dev true bar0_size d
        ≡ (ltb 0 (bound_count dev count d), (scan_queues dev count d).0)
  unfolding set_no_itr set_no_itr_mapped
  set_no_itr-scanned bar0_size count d m w =
      let small : count < 2 ^ 32 = omega (arith, rqctl_mapped-le bar0_size count m) in
      let found = bound_count dev count d in
      let swept = scan_queues dev count d in
      ap (λ x. set_no_itr_mapped dev x d) m
      ∙ ap (λ s. scan_verdict dev (swept.0, s)) (scan_queues-count dev plain count d small w)
      ∙ scan_verdict-counted dev swept.0 found

  -- On a usable device whose registers hold 32-bit words and read back as what is written to them (a write
  -- that the device refuses is not met), with BAR0 mapped and `count` queue control registers in it: all of
  -- these lie inside BAR0; the result is true exactly when one of their queues is bound, that is enabled,
  -- of a type other than 3, its reserved bit clear, and not the value of a register that is not there;
  -- the register of a bound queue ends with index 3 and its other bits kept, that of any other queue ends
  -- as it was, and so does every register that is none of these.
  pub set_no_itr-NoItrWord :
      (bar0_size count : ℕ) (d : D)
      → rqctl_mapped bar0_size ≡ some count
      → Words dev d
      → let r = set_no_itr dev true bar0_size d in
        (rqctl_base + 4 * count ≤ bar0_size)
        × (r.0 ≡ true → (q : ℕ) × (q < count) × Bound (read_value dev (rqctl q) d))
        × ((q : ℕ) → q < count → Bound (read_value dev (rqctl q) d) → r.0 ≡ true)
        × ((q : ℕ)
            → q < count
            → NoItrWord (read_value dev (rqctl q) d) (read_value dev (rqctl q) r.1))
        × ((x : ℕ)
            → ((q : ℕ) → q < count → x ≢ rqctl q)
            → read_value dev x r.1 ≡ read_value dev x d)
  set_no_itr-NoItrWord bar0_size count d m w = rw (set_no_itr-scanned bar0_size count d m w) (
    (rqctl_mapped-le bar0_size count m).1,
    bound_count-found dev count d,
    λ q h b. bound_count-finds dev count q d h b,
    λ q h.
        subst (NoItrWord (read_value dev (rqctl q) d))
          (sym (scan_queues-visited dev plain count q d w h))
          (detached-NoItrWord (read_value dev (rqctl q) d) (w (rqctl q))),
    λ x h. scan_queues-other dev plain count x d w h,
  )
