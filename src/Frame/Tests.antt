-- ===== src/Frame/Tests.antt =====
-- The theorems on the frame at concrete buffers.
use abtrda.Prelude.{ℕ, ◌≤◌, ◌<◌, ◌≡◌, refl, ◌≢◌, ◌⊎◌, some, List, [], ◌∷◌, ◌++◌, arith, length}
use abtrda.Bytes.{slice}
use abtrda.Frame.{parse_frame, runt, foreign, stamped}
use abtrda.Frame.Header.{words_of, stamp_of, parse_frame_cases}
use abtrda.Frame.RoundTrip.{received, received-stamped}

abbrev mac_a : List ℕ
mac_a = 1 ∷ 2 ∷ 3 ∷ 4 ∷ 5 ∷ 6 ∷ []

abbrev mac_b : List ℕ
mac_b = 7 ∷ 8 ∷ 9 ∷ 10 ∷ 11 ∷ 12 ∷ []

received-stamped_example : received mac_a mac_b 35000 60 ((0, 5) ∷ []) 1 77 ≡ some (stamped 1 77)
received-stamped_example =
    received-stamped mac_a mac_b 35000 60 ((0, 5) ∷ []) 1 77 refl refl (omega arith) (omega arith)
      (omega arith)

abbrev frame_a : List ℕ
frame_a = mac_a ++ (mac_b ++ (1 ∷ 2 ∷ 0 ∷ 0 ∷ 0 ∷ 9 ∷ 1 ∷ 0 ∷ 0 ∷ 0 ∷ 0 ∷ 0 ∷ 0 ∷ 0 ∷ []))

parse_frame_cases_example :
    ((length frame_a < 26) × (parse_frame (words_of frame_a) frame_a ≡ some runt))
    ⊎ ((26 ≤ length frame_a)
        × (slice 0 14 frame_a ≡ slice 0 14 frame_a)
        × (parse_frame (words_of frame_a) frame_a ≡ some (stamp_of frame_a)))
    ⊎ ((26 ≤ length frame_a)
        × (slice 0 14 frame_a ≢ slice 0 14 frame_a)
        × (parse_frame (words_of frame_a) frame_a ≡ some foreign))
parse_frame_cases_example =
    parse_frame_cases frame_a frame_a (ground arith) (ground arith) (omega arith)
