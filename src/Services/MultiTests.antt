-- ===== src/Services/MultiTests.antt =====
-- The theorem on MultiStart at three services, the second of which fails.
use chainlink_common.Base.{ℕ, zero, suc, ◌≡◌, ◌⊎◌, List, [], ◌∷◌, Option, none, some}
use chainlink_common.Services.Multi.{MultiStart, start_all}
use chainlink_common.Services.MultiLaws.{Started, Failed, start_all-Started}

-- The service 1 does not start.
abbrev starts : ℕ → Option ℕ
starts zero = none
starts (suc zero) = some 7
starts (suc (suc n)) = none

abbrev closes : ℕ → Option ℕ
closes n = some n

abbrev nothing_started : MultiStart ℕ
nothing_started = record { started = []; calls = [] }

start_all-Started_example :
    (r : List ℕ × MultiStart ℕ) × (start_all starts closes (0 ∷ 1 ∷ 2 ∷ []) nothing_started
      ≡ some r)
    × (Started starts closes nothing_started (0 ∷ 1 ∷ 2 ∷ []) r
        ⊎ Failed starts closes nothing_started (0 ∷ 1 ∷ 2 ∷ []) r)
start_all-Started_example = start_all-Started starts closes (0 ∷ 1 ∷ 2 ∷ []) nothing_started
