-- ===== src/Fleet/Sizing.antt =====
-- gleanflow/fleet/batch.py: how many jobs `ensure` submits.
use gleanflow.Prelude.{
  ℕ, zero, suc, ◌+◌, ◌-◌, ◌≤◌, min, max, String, Option, none, some, true, List, [], ◌∷◌, ◌++◌,
  filter, drop, length, length-append, length-drop, All, All-append, ◌≡◌, refl, sym, ap, ◌∙◌, arith,
  inl, inr, Option-cases,
}
use gleanflow.Fleet.Batch.{
  Job, Submission, BatchOps, BatchFleet, take, is_live, describe, describe_all, running, submission,
  submit_one, submit_range, ensure,
}

unfoldable pub add_found : {W : Type 0} → Option (Job W) → List (Job W) → List (Job W)
add_found none xs = xs
add_found (some x) xs = x ∷ xs

-- The jobs of a list of ids that the service knows.
unfoldable pub found : {W : Type 0} → (String → Option (Job W)) → List String → List (Job W)
found job [] = []
found job (j ∷ ids) = add_found (job j) (found job ids)

-- What AWS Batch documents: at most 100 jobs are described at a time, those that it knows; a job that
-- was submitted is live under a new id, and the others stay.
pub record IsBatch {S W : Type 0} (batch : BatchOps S W) : Type 0 where
  pub job : S → String → Option (Job W)
  pub describe_found :
      (ids : List String) (s : S) → length ids ≤ 100 → batch.describe_jobs ids s ≡ found (job s) ids
  pub submitted :
      (r : Submission) (s : S)
      → (x : Job W) × (job (batch.submit_job r s).0 (batch.submit_job r s).1 ≡ some x)
        × (is_live x ≡ true)
  pub kept :
      (r : Submission) (s : S) (j : String) (x : Job W)
      → job s j ≡ some x
      → job (batch.submit_job r s).0 j ≡ some x

take-drop : {A : Type 0} (n : ℕ) (xs : List A) → take n xs ++ drop n xs ≡ xs
unfolding take
take-drop zero xs = refl
take-drop (suc n) [] = refl
take-drop (suc n) (x ∷ xs) = ap (◌∷◌ x) (take-drop n xs)

length-take : {A : Type 0} (n : ℕ) (xs : List A) → length (take n xs) ≤ n
unfolding take
length-take zero xs = omega arith
length-take (suc n) [] = omega arith
length-take (suc n) (x ∷ xs) = omega (arith, length-take n xs)

module _ {S W : Type 0} {batch : BatchOps S W} (lawful : IsBatch batch) where
  found-append :
      (job : String → Option (Job W)) (xs ys : List String)
      → found job (xs ++ ys) ≡ found job xs ++ found job ys
  unfolding found add_found
  found-append job [] ys = refl
  found-append job (x ∷ xs) ys = elim (Option-cases (job x)) [
    | inl none_there ↦ rw none_there (found-append job xs ys)
    | inr h ↦ rw h.1 (ap (◌∷◌ h.0) (found-append job xs ys))
  ]

  -- Asking for a hundred at a time asks for all.
  describe-found :
      (fuel : ℕ) (ids : List String) (s : S)
      → length ids ≤ fuel
      → describe batch fuel ids s ≡ found (lawful.job s) ids
  unfolding describe found
  describe-found zero [] s h = refl
  describe-found zero (j ∷ ids) s h = absurd (omega arith)
  describe-found (suc fuel) [] s h = refl
  describe-found (suc fuel) (j ∷ ids) s h =
      let now = lawful.describe_found (take 100 (j ∷ ids)) s (length-take 100 (j ∷ ids)) in
      let later =
        describe-found fuel (drop 100 (j ∷ ids)) s (omega (arith, length-drop 100 (j ∷ ids))) in
      ap (λ l. l ++ describe batch fuel (drop 100 (j ∷ ids)) s) now
      ∙ ap (◌++◌ (found (lawful.job s) (take 100 (j ∷ ids)))) later
      ∙ sym (found-append (lawful.job s) (take 100 (j ∷ ids)) (drop 100 (j ∷ ids)))
      ∙ ap (found (lawful.job s)) (take-drop 100 (j ∷ ids))

  -- The service knows each job of the fleet.
  unfoldable pub IsKnown : BatchFleet S → Type 0
  IsKnown f = All (λ j. (x : Job W) × (lawful.job f.service j ≡ some x)) f.job_ids

  live_count : S → List String → ℕ
  live_count s ids = length (filter is_live (found (lawful.job s) ids))

  running-live_count : (f : BatchFleet S) → running batch f ≡ live_count f.service f.job_ids
  unfolding running describe_all live_count
  running-live_count f =
      ap (λ l. length (filter is_live l))
        (describe-found (length f.job_ids) f.job_ids f.service (omega arith))

  live_count-kept :
      (r : Submission) (s : S) (ids : List String)
      → All (λ j. (x : Job W) × (lawful.job s j ≡ some x)) ids
      → live_count (batch.submit_job r s).0 ids ≡ live_count s ids
  unfolding live_count found add_found
  live_count-kept r s [] h = refl
  live_count-kept r s (j ∷ ids) h =
      let same = lawful.kept r s j h.0.0 h.0.1 in
      let rest = live_count-kept r s ids h.1 in rw (same, h.0.1) (ground (arith, rest))

  live_count-snoc :
      (s : S) (ids : List String) (j : String) (x : Job W)
      → lawful.job s j ≡ some x
      → is_live x ≡ true
      → live_count s (ids ++ j ∷ []) ≡ suc (live_count s ids)
  unfolding live_count found add_found
  live_count-snoc s [] j x h l = rw (h, l) refl
  live_count-snoc s (i ∷ ids) j x h l = elim (Option-cases (lawful.job s i)) [
    | inl none_there ↦ rw none_there (live_count-snoc s ids j x h l)
    | inr k ↦ let rest = live_count-snoc s ids j x h l in rw k.1 (ground (arith, rest))
  ]

  known_kept :
      (r : Submission) (s : S) (ids : List String)
      → All (λ j. (x : Job W) × (lawful.job s j ≡ some x)) ids
      → All (λ j. (x : Job W) × (lawful.job (batch.submit_job r s).0 j ≡ some x)) ids
  known_kept r s [] h = tt
  known_kept r s (j ∷ ids) h = ((h.0.0, lawful.kept r s j h.0.0 h.0.1), known_kept r s ids h.1)

  submit_one-IsKnown : (idx : ℕ) (f : BatchFleet S) → IsKnown f → IsKnown (submit_one batch idx f)
  unfolding IsKnown submit_one
  submit_one-IsKnown idx f h =
      let r = submission batch idx f in
      let new = lawful.submitted r f.service in
      All-append _ f.job_ids ((batch.submit_job r f.service).1 ∷ [])
        (known_kept r f.service f.job_ids h) ((new.0, new.1), tt)

  running-submit_one :
      (idx : ℕ) (f : BatchFleet S)
      → IsKnown f
      → running batch (submit_one batch idx f) ≡ suc (running batch f)
  unfolding IsKnown submit_one
  running-submit_one idx f h =
      let r = submission batch idx f in
      let new = lawful.submitted r f.service in
      running-live_count (submit_one batch idx f)
      ∙ live_count-snoc (batch.submit_job r f.service).0 f.job_ids (batch.submit_job r f.service).1
          new.0 new.1 new.2
      ∙ ap suc (live_count-kept r f.service f.job_ids h ∙ sym (running-live_count f))

  job_ids-submit_one :
      (i : ℕ) (f : BatchFleet S) → length (submit_one batch i f).job_ids ≡ suc (length f.job_ids)
  unfolding submit_one
  job_ids-submit_one i f =
      omega (
        arith,
        length-append f.job_ids ((batch.submit_job (submission batch i f) f.service).1 ∷ []),
      )

  -- The jobs that are submitted are live, one for each turn.
  running-submit_range :
      (k i : ℕ) (f : BatchFleet S)
      → IsKnown f
      → (running batch (submit_range batch k i f) ≡ running batch f + k)
        × (length (submit_range batch k i f).job_ids ≡ length f.job_ids + k)
  unfolding submit_range
  running-submit_range zero i f h = (omega arith, omega arith)
  running-submit_range (suc k) i f h =
      let one = running-submit_one i f h in
      let rest = running-submit_range k (i + 1) (submit_one batch i f) (submit_one-IsKnown i f h) in
      let more = job_ids-submit_one i f in (omega (arith, one, rest.0), omega (arith, more, rest.1))

  -- Where the service knows the fleet's jobs, `ensure(n)` brings the number of live ones up to `n`, or
  -- to `max_workers` where that is less, by as many submissions as are missing.
  pub ensure-running :
      (n : ℕ) (f : BatchFleet S)
      → IsKnown f
      → (running batch (ensure batch n f) ≡ max (running batch f) (min n f.cfg.max_workers))
        × (length (ensure batch n f).job_ids
            ≡ length f.job_ids + (min n f.cfg.max_workers - running batch f))
  unfolding ensure
  ensure-running n f h =
      let live = running batch f in
      let range = running-submit_range (min n f.cfg.max_workers - live) live f h in
      (omega (arith, range.0), range.1)
