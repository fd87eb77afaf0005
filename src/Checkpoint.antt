-- ===== src/Checkpoint.antt =====
-- gleanflow/ckpt.py: block-wise training with checkpoints. The classifier is xgboost's: what the code
-- asks of it is a list of calls. A booster file is known by its rounds, as its path is made of them.
pub mod Fit
use gleanflow.Prelude.{
  ℕ, zero, suc, ◌+◌, ◌-◌, Option, none, some, List, [], ◌∷◌, ltb, leb, if◌then◌else◌,
}
use gleanflow.Json.{◌>>=◌}

-- `set_params(n_estimators=block)`, `fit(X, y, xgb_model=model)`, then the save under `saved` rounds.
pub record Block : Type 0 where
  pub block : ℕ
  pub model : Option ℕ
  pub saved : ℕ

-- What `fit` asks of the classifier: to load a finished booster, or to train blocks.
pub data Fitted : Type 0 where
  loaded : ℕ → Fitted
  trained : List Block → Fitted

-- The loop of `restore` over the rounds of the keys that match `round-(\d+)\.json$`.
unfoldable pub latest : List ℕ → Option ℕ → ℕ → Option ℕ × ℕ
latest [] best best_r = (best, best_r)
latest (r ∷ rs) best best_r =
    let newer = latest rs (some r) r in
    let older = latest rs best best_r in if ltb best_r r then newer else older

unfoldable pub restore : List ℕ → Option ℕ × ℕ
restore rounds_listed = latest rounds_listed none 0

-- `min(every, rounds - done)`
unfoldable pub block_size : ℕ → ℕ → ℕ
block_size every left = if leb every left then every else left

-- The loop of `fit` on fuel; `none` while it has not ended.
unfoldable pub fit_blocks : ℕ → ℕ → ℕ → Option ℕ → ℕ → Option (List Block)
fit_blocks zero rounds every booster done = none
fit_blocks (suc fuel) rounds every booster done =
    let block = block_size every (rounds - done) in
    let more = fit_blocks fuel rounds every (some (done + block)) (done + block) in
    if ltb done rounds
    then (more >>= λ bs.
        some (record { block = block; model = booster; saved = done + block } ∷ bs))
    else some []

-- `done >= rounds and booster` of `fit`, where a path is a text that is not empty
unfoldable pub fit_from : ℕ → ℕ → ℕ → Option ℕ → ℕ → Option Fitted
fit_from fuel rounds every none done =
    fit_blocks fuel rounds every none done >>= λ bs. some (trained bs)
fit_from fuel rounds every (some b) done =
    if leb rounds done
    then some (loaded b)
    else (fit_blocks fuel rounds every (some b) done >>= λ bs. some (trained bs))

unfoldable pub fit : ℕ → ℕ → ℕ → List ℕ → Option Fitted
fit fuel rounds every rounds_listed =
    let (booster, done) = restore rounds_listed in fit_from fuel rounds every booster done
