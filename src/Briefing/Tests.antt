-- ===== src/Briefing/Tests.antt =====
-- Counts of a concrete catch-up.
use concord_dev.Briefing.{empty_catchup_counts}
use concord_dev.Base.{ℕ, List, [], ◌∷◌}
use concord_dev.Briefing.Counts.{AreSound, count_batches, count_batches-AreSound}

abbrev op_bytes : List ℕ
op_bytes = 1 ∷ 0 ∷ 7 ∷ 0 ∷ 0 ∷ 0 ∷ 0 ∷ 0 ∷ 0 ∷ 0 ∷ 3 ∷ 1 ∷ 0 ∷ 0 ∷ 0 ∷ 0 ∷ 0 ∷ 0 ∷ 99 ∷ []

abbrev batches : List (List (List ℕ))
batches = (op_bytes ∷ (5 ∷ []) ∷ []) ∷ (op_bytes ∷ []) ∷ []

count_batches-AreSound_example :
    AreSound
      (count_batches batches empty_catchup_counts).operation_count
      (count_batches batches empty_catchup_counts)
count_batches-AreSound_example = count_batches-AreSound batches
