-- ===== src/Tests/Checkpoints.antt =====
-- A fit of 120 rounds in blocks of 50 that finds a checkpoint of 50 rounds.
use gleanflow.Prelude.{suc, ◌≤◌, ◌≡◌, refl, some, [], ◌∷◌, All, arith}
use gleanflow.Checkpoint.{
  Fitted, loaded, trained, latest, restore, block_size, fit_blocks, fit_from, fit,
}
use gleanflow.Checkpoint.Fit.{IsRestored, Resumes, fit-Resumes}

fit-Resumes_example :
    (answer : Fitted) × (fit (suc 120) 120 50 (50 ∷ []) ≡ some answer)
    × IsRestored (50 ∷ []) (restore (50 ∷ []))
    × All (λ r. r ≤ (restore (50 ∷ [])).1) (50 ∷ [])
    × Resumes 120 50 (restore (50 ∷ [])).0 (restore (50 ∷ [])).1 answer
fit-Resumes_example = fit-Resumes 120 50 (50 ∷ []) (omega arith)

two_blocks :
    fit 3 120 50 (50 ∷ [])
    ≡ some (
        trained (
          record { block = 50; model = some 50; saved = 100 }
          ∷ record { block = 20; model = some 100; saved = 120 }
          ∷ []))
unfolding fit fit_from fit_blocks block_size restore latest
two_blocks = refl

ready_made : fit 1 120 50 (50 ∷ 150 ∷ []) ≡ some (loaded 150)
unfolding fit fit_from restore latest
ready_made = refl
