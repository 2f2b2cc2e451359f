-- ===== src/Batch/Examples.antt =====
-- A batch at concrete inputs: two targets, of which one is given a second wave.
use graphrefly_rs.Prelude.{ℕ, ◌≡◌, refl, true, none, some, List, [], ◌∷◌, ◌++◌}
use graphrefly_rs.Node.Steps.{Exit}
use graphrefly_rs.Batch.{ActiveBatch, new_batch, commit}
use graphrefly_rs.Batch.Collects.{
  put_all, wave_of, last_wave, defer_all, all_taken, give_all, commits_last_waves,
}

abbrev log_wave : ℕ → ℕ → List (ℕ × ℕ) → List (ℕ × ℕ) × Exit
log_wave t w log = (log ++ (t, w) ∷ [], Exit.returned)

abbrev deferrals : List (ℕ × ℕ)
deferrals = (1, 10) ∷ (2, 20) ∷ (1, 11) ∷ []

log_of_commit :
    give_all log_wave (put_all deferrals []) [] ≡ ((1, 11) ∷ (2, 20) ∷ [], Exit.returned)
log_of_commit = refl

commits_last_waves_example :
    (b : ActiveBatch ℕ) × (defer_all deferrals (some new_batch) ≡ some b)
    × (all_taken deferrals (some new_batch) ≡ true)
    × (commit log_wave b.targets b.deferred [] ≡ give_all log_wave (put_all deferrals []) [])
    × (wave_of 1 (put_all deferrals []) ≡ last_wave 1 none deferrals)
commits_last_waves_example = commits_last_waves log_wave deferrals [] 1
