-- ===== src/Pci/Tests.antt =====
-- The theorems on the registers at a concrete device.
use abtrda.Prelude.{ℕ, ◌+◌, ◌*◌, ◌^◌, ◌≤◌, ◌<◌, ◌≡◌, refl, ◌≢◌, true, arith, ◌==◌, if◌then◌else◌}
use abtrda.I210.Regs.{Device}
use abtrda.I210.Regs.Quiet.{Plain}
use abtrda.Pci.{rqctl_mapped, rqctl, set_no_itr}
use abtrda.Pci.Value.{Bound, NoItrWord}
use abtrda.Pci.NoItr.{set_no_itr-NoItrWord}

abbrev register_file : Device (ℕ → ℕ)
register_file = record {
  read_reg = λ r d. (d r, d);
  write_reg = λ r v d s. if s == r then v else d s;
}

register_file-Plain : Plain register_file
register_file-Plain = record {
  read_same = λ r v d. ground arith;
  read_other = λ r s v d h. ground arith;
  read_read = λ r s d. refl;
}

-- The second queue is bound, with index 1; every other register is 7.
abbrev one_bound : ℕ → ℕ
one_bound r = if r == rqctl 1 then 2 ^ 30 + 2 ^ 11 + 5 else 7

set_no_itr_finds : (set_no_itr register_file true 237580 one_bound).0 ≡ true
unfolding set_no_itr
set_no_itr_finds = refl

set_no_itr_detaches :
    (set_no_itr register_file true 237580 one_bound).1 (rqctl 1) ≡ 2 ^ 30 + 3 * 2 ^ 11 + 5
unfolding set_no_itr
set_no_itr_detaches = refl

set_no_itr-NoItrWord_example :
    let r = set_no_itr register_file true 237580 one_bound in
    (237568 + 4 * 3 ≤ 237580)
    × (r.0 ≡ true → (q : ℕ) × (q < 3) × Bound (one_bound (rqctl q)))
    × ((q : ℕ) → q < 3 → Bound (one_bound (rqctl q)) → r.0 ≡ true)
    × ((q : ℕ) → q < 3 → NoItrWord (one_bound (rqctl q)) (r.1 (rqctl q)))
    × ((x : ℕ) → ((q : ℕ) → q < 3 → x ≢ rqctl q) → r.1 x ≡ one_bound x)
unfolding rqctl_mapped
set_no_itr-NoItrWord_example =
    set_no_itr-NoItrWord register_file register_file-Plain 237580 3 one_bound refl
      (λ r. ground arith)
