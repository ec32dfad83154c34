-- ===== src/EtherFabric/Tests.antt =====
-- The theorems on the time stamps at concrete stamps.
use abtrda.Prelude.{◌+◌, ◌-◌, ◌*◌, ◌%◌, ◌^◌, ◌≡◌, some, inl, arith}
use abtrda.EtherFabric.{one_sec_qns, hw_round_trip, hw_turnaround}
use abtrda.EtherFabric.Seconds.{hw_round_trip-wait}

-- A receive stamp just before the turn of the second, corrected 22 quarters past it.
hw_round_trip-wait_example :
    (hw_round_trip (3999999990 * 2 ^ 32 + 3999999900) 22
      ≡ some ((12 + one_sec_qns - 3999999900) % one_sec_qns))
    × (hw_turnaround (3999999990 * 2 ^ 32 + 3999999900) 22
        ≡ some ((3999999900 + one_sec_qns - 12) % one_sec_qns))
hw_round_trip-wait_example =
    hw_round_trip-wait 3999999990 3999999900 22 12 (omega arith) (omega arith) (omega arith)
      (inl (omega arith, omega arith))
