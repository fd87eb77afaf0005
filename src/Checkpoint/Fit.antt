-- ===== src/Checkpoint/Fit.antt =====
-- `fit` of ckpt.py resumes from the latest checkpoint and trains what is missing.
use gleanflow.Prelude.{
  ℕ, zero, suc, ◌+◌, ◌-◌, ◌≤◌, ◌<◌, ◌≡◌, refl, sym, ◌∙◌, Option, none, some, false, List, [], ◌∷◌,
  All, ltb, leb, arith, Bool-cases, ◌⊎◌, In, All-map_imp, inl, inr, if◌then◌else◌,
}
use mathlib.Core.Path.{subst}
use gleanflow.Checkpoint.{
  Block, Fitted, loaded, trained, latest, restore, block_size, fit_blocks, fit_from, fit,
}

-- The blocks continue from `model` after `done` rounds, each from the booster that the block before
-- it saved, with at most `every` rounds each, and end at `rounds`.
abbrev pub Continues : ℕ → ℕ → Option ℕ → ℕ → List Block → Type 0
Continues rounds every model done [] = rounds ≤ done
Continues rounds every model done (b ∷ bs) =
    (b.model ≡ model)
    × (1 ≤ b.block)
    × (b.block ≤ every)
    × (b.saved ≡ done + b.block)
    × (b.saved ≤ rounds)
    × Continues rounds every (some b.saved) b.saved bs

block_size_bounds :
    (every rounds done : ℕ)
    → 1 ≤ every
    → done < rounds
    → (1 ≤ block_size every (rounds - done))
      × (block_size every (rounds - done) ≤ every)
      × (done + block_size every (rounds - done) ≤ rounds)
unfolding block_size
block_size_bounds every rounds done h below = (ground arith, ground arith, ground arith)

fit_blocks_lem :
    (fuel rounds every : ℕ) (booster : Option ℕ) (done : ℕ)
    → 1 ≤ every
    → rounds ≤ done + fuel
    → (bs : List Block) × (fit_blocks (suc fuel) rounds every booster done ≡ some bs)
      × Continues rounds every booster done bs
unfolding fit_blocks
fit_blocks_lem zero rounds every booster done h enough =
    let finished : ltb done rounds ≡ false = ground arith in ([], rw finished, omega arith)
fit_blocks_lem (suc fuel) rounds every booster done h enough = elim (Bool-cases (ltb done rounds)) [
  | inl more ↦
      let (some_rounds, small, inside) = block_size_bounds every rounds done h (ground arith) in
      let block = block_size every (rounds - done) in
      let (bs, ends, rest) =
        fit_blocks_lem fuel rounds every (some (done + block)) (done + block) h (omega arith) in
      (
        record { block = block; model = booster; saved = done + block } ∷ bs,
        rw (more, ends),
        (refl, some_rounds, small, refl, inside, rest),
      )
  | inr finished ↦ ([], rw finished, ground arith)
]

latest-first :
    (k : ℕ) (rs : List ℕ) (best : Option ℕ) (r : ℕ)
    → latest (k ∷ rs) best r ≡ (if ltb r k then latest rs (some k) k else latest rs best r)
unfolding latest
latest-first k rs best r = refl

-- The rounds that are found are not below those seen before, nor below any that is listed.
abbrev IsAbove : ℕ → List ℕ → Option ℕ × ℕ → Type 0
IsAbove r rs p = (r ≤ p.1) × All (λ k. k ≤ p.1) rs

latest-IsAbove : (rs : List ℕ) (best : Option ℕ) (r : ℕ) → IsAbove r rs (latest rs best r)
latest-IsAbove [] best r = unfold latest in (omega arith, tt)
latest-IsAbove (k ∷ rs) best r = elim (Bool-cases (ltb r k)) [
  | inl newer ↦
      let same : latest (k ∷ rs) best r ≡ latest rs (some k) k =
        latest-first k rs best r ∙ rw newer in
      let (above, all) = latest-IsAbove rs (some k) k in
      subst (IsAbove r (k ∷ rs)) (sym same) (ground arith, (above, all))
  | inr older ↦
      let same : latest (k ∷ rs) best r ≡ latest rs best r = latest-first k rs best r ∙ rw older in
      let (above, all) = latest-IsAbove rs best r in
      subst (IsAbove r (k ∷ rs)) (sym same) (above, (ground arith, all))
]

-- What `restore` finds: no checkpoint and no rounds, or the booster of the rounds, which are listed.
abbrev pub IsRestored : List ℕ → Option ℕ × ℕ → Type 0
IsRestored rs p = ((p.0 ≡ none) × (p.1 ≡ 0)) ⊎ ((p.0 ≡ some p.1) × In p.1 rs)

each-In : (rs : List ℕ) → All (λ k. In k rs) rs
each-In [] = tt
each-In (k ∷ rs) = (inl refl, All-map_imp rs (λ j i. inr i) (each-In rs))

latest-IsRestored :
    (all rs : List ℕ) (best : Option ℕ) (r : ℕ)
    → All (λ k. In k all) rs
    → IsRestored all (best, r)
    → IsRestored all (latest rs best r)
latest-IsRestored all [] best r inside h = unfold latest in h
latest-IsRestored all (k ∷ rs) best r inside h = elim (Bool-cases (ltb r k)) [
  | inl newer ↦
      let same : latest (k ∷ rs) best r ≡ latest rs (some k) k =
        latest-first k rs best r ∙ rw newer in
      subst (IsRestored all) (sym same)
        (latest-IsRestored all rs (some k) k inside.1 (inr (refl, inside.0)))
  | inr older ↦
      let same : latest (k ∷ rs) best r ≡ latest rs best r = latest-first k rs best r ∙ rw older in
      subst (IsRestored all) (sym same) (latest-IsRestored all rs best r inside.1 h)
]

-- How `fit` has ended: the restored booster is loaded just where there is one with the rounds, and
-- otherwise the blocks continue it, or begin anew.
abbrev pub Resumes : ℕ → ℕ → Option ℕ → ℕ → Fitted → Type 0
Resumes rounds every booster done (loaded b) = (booster ≡ some b) × (rounds ≤ done)
Resumes rounds every booster done (trained bs) =
    ((booster ≡ none) ⊎ (done < rounds)) × Continues rounds every booster done bs

fit_from_lem :
    (fuel rounds every : ℕ) (booster : Option ℕ) (done : ℕ)
    → 1 ≤ every
    → rounds ≤ done + fuel
    → (answer : Fitted) × (fit_from (suc fuel) rounds every booster done ≡ some answer)
      × Resumes rounds every booster done answer
unfolding fit_from
fit_from_lem fuel rounds every none done h enough =
    let (bs, ends, goes_on) = fit_blocks_lem fuel rounds every none done h enough in
    (trained bs, rw ends, (inl refl, goes_on))
fit_from_lem fuel rounds every (some b) done h enough = elim (Bool-cases (leb rounds done)) [
  | inl ready ↦ (loaded b, rw ready, (refl, ground arith))
  | inr more ↦
      let (bs, ends, goes_on) = fit_blocks_lem fuel rounds every (some b) done h enough in
      (trained bs, rw (more, ends), (inr (ground arith), goes_on))
]

-- For blocks of one round or more, `fit` ends within one turn more than the requested rounds. What it
-- resumes from is the checkpoint of the most rounds that are listed, or nothing with no rounds. It
-- loads that booster just where there is one with the requested rounds, and otherwise trains blocks of
-- at most `every` rounds, each from the booster before it, up to the requested rounds.
pub fit-Resumes :
    (rounds every : ℕ) (listed : List ℕ)
    → 1 ≤ every
    → (answer : Fitted) × (fit (suc rounds) rounds every listed ≡ some answer)
      × IsRestored listed (restore listed)
      × All (λ r. r ≤ (restore listed).1) listed
      × Resumes rounds every (restore listed).0 (restore listed).1 answer
unfolding fit restore
fit-Resumes rounds every listed h =
    let (booster, done) = latest listed none 0 in
    let (answer, ends, resumes) = fit_from_lem rounds rounds every booster done h (omega arith) in
    (
      answer,
      ends,
      latest-IsRestored listed listed none 0 (each-In listed) (inl (refl, refl)),
      (latest-IsAbove listed none 0).1,
      resumes,
    )
