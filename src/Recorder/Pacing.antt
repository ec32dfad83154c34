-- ===== src/Recorder/Pacing.antt =====
-- The sender's pacing in src/app/SingleRecorder.hpp, src/app/TxGenerator.hpp and src/app/Client.hpp:
-- absolute deadlines a fixed interval apart, kept as a timespec. The seconds are a `long` of 64 bits,
-- whose range is not modelled.
use abtrda.Prelude.{
  ℕ, zero, suc, ◌+◌, ◌-◌, ◌*◌, ◌/◌, ◌%◌, ◌^◌, ◌<◌, ◌≡◌, ap, ◌∙◌, arith, leb, if◌then◌else◌, u64,
}

-- The deadline, with the seconds and the nanoseconds below the second.
pub record Timespec : Type 0 where
  pub tv_sec : ℕ
  pub tv_nsec : ℕ

abbrev pub ns_per_sec : ℕ
ns_per_sec = 1000000000

unfoldable pub interval_ns : ℕ → ℕ
interval_ns send_interval_us = u64 (send_interval_us * 1000)

-- At most one carry: both addends are below a second.
unfoldable pub carry : Timespec → Timespec
carry t =
    if leb ns_per_sec t.tv_nsec
    then record { tv_sec = t.tv_sec + 1; tv_nsec = t.tv_nsec - ns_per_sec }
    else t

unfoldable pub next_send : ℕ → Timespec → Timespec
unfolding carry interval_ns
next_send us t = carry (record {
  tv_sec = t.tv_sec + interval_ns us / ns_per_sec;
  tv_nsec = t.tv_nsec + interval_ns us % ns_per_sec;
})

-- The deadline of send number `n`, the clock having been read as `t`.
pub deadline : ℕ → ℕ → Timespec → Timespec
deadline us zero t = t
deadline us (suc n) t = next_send us (deadline us n t)

abbrev pub total : Timespec → ℕ
total t = t.tv_sec * ns_per_sec + t.tv_nsec

next_send-total :
    (us : ℕ) (t : Timespec)
    → us < 2 ^ 32
    → t.tv_nsec < ns_per_sec
    → (total (next_send us t) ≡ total t + us * 1000) × ((next_send us t).tv_nsec < ns_per_sec)
unfolding next_send
next_send-total us t h n = ground arith

-- With an interval of 32 bits of microseconds and a clock reading below a second in its
-- nanoseconds, the deadline of every send is the reading and that many whole intervals, so no
-- rounding accumulates, and its nanoseconds stay below a second.
pub deadline-no_drift :
    (us n : ℕ) (t : Timespec)
    → us < 2 ^ 32
    → t.tv_nsec < ns_per_sec
    → (total (deadline us n t) ≡ total t + n * (us * 1000))
      × ((deadline us n t).tv_nsec < ns_per_sec)
unfolding deadline
deadline-no_drift us zero t h b = (omega arith, b)
deadline-no_drift us (suc n) t h b =
    let (sum, below) = deadline-no_drift us n t h b in
    let (next, bound) = next_send-total us (deadline us n t) h below in
    (next ∙ ap (λ x. x + us * 1000) sum ∙ omega arith, bound)
