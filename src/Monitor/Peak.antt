-- ===== src/Monitor/Peak.antt =====
-- What the sampler of monitor.py reports of its samples.
use gleanflow.Prelude.{
  ℕ, ◌≤◌, ◌<◌, ltb, Bool-cases, ◌≡◌, refl, sym, ap, ◌∙◌, max, some, List, [], ◌∷◌, ◌++◌, map, All,
  In, ◌⊎◌, inl, inr, arith,
}
use gleanflow.Prelude.Dict.{get, get_or}
use gleanflow.Monitor.{
  Machine, Monitor, mem, used, sample, sample_all, start, float_or_null, rounded, stop,
}

max_cases : (a b : ℕ) → (max a b ≡ a) ⊎ (max a b ≡ b)
max_cases a b = elim (Bool-cases (ltb a b)) [
  | inl below ↦ let h : a < b = ground arith in inr (omega arith)
  | inr above ↦ let h : b ≤ a = ground arith in inl (omega arith)
]

-- `p` is the largest of what has been seen: nothing seen is above it, and it is `seen` or was seen.
record IsPeak (seen : ℕ) (ms : List Machine) (p : ℕ) : Type 0 where
  above : seen ≤ p
  all : All (λ m. used m ≤ p) ms
  taken : (p ≡ seen) ⊎ In p (map used ms)

sample_all-IsPeak :
    {W : Type 0} (ms : List Machine) (mon : Monitor W)
    → IsPeak mon.peak_mem ms (sample_all ms mon).peak_mem
unfolding sample_all sample
sample_all-IsPeak [] mon = record { above = omega arith; all = tt; taken = inl refl }
sample_all-IsPeak (m ∷ ms) mon =
    let rest = sample_all-IsPeak ms (sample m mon) in
    let p = (sample_all ms (sample m mon)).peak_mem in
    let seen = max mon.peak_mem (used m) in
    let within : seen ≤ p = rest.above in
    record {
      above = omega arith;
      all = (omega arith, rest.all);
      taken = elim rest.taken [
        | inr later ↦ inr (inr later)
        | inl first ↦ elim (max_cases mon.peak_mem (used m)) [
          | inl old ↦ inl (first ∙ old)
          | inr new ↦ inr (inl (sym (first ∙ new)))
        ]
      ];
    }

sample_all-append :
    {W : Type 0} (ms : List Machine) (m : Machine) (mon : Monitor W)
    → sample m (sample_all ms mon) ≡ sample_all (ms ++ m ∷ []) mon
unfolding sample_all
sample_all-append [] m mon = refl
sample_all-append (n ∷ ms) m mon = sample_all-append ms m (sample n mon)

-- From its start to its stop the monitor keeps the largest of all samples, the first and the last
-- included: that peak, rounded, is in the report, no sample is above it, and one sample is it. The
-- limit in the report is that of the last sample.
pub stop_reports_peak :
    {W : Type 0} (megabytes seconds : ℕ → W) (since : W → W) (t0 : W) (first last : Machine)
    (ms : List Machine)
    → let all = first ∷ (ms ++ last ∷ []) in
      let report = stop megabytes seconds since last (sample_all ms (start t0 first)) in
      (p : ℕ) × (get "peak_mem_mb" report ≡ some (float_or_null (rounded megabytes p)))
      × All (λ m. used m ≤ p) all
      × In p (map used all)
      × (get "limit_mb" report
          ≡ some (float_or_null (rounded megabytes (get_or 0 (mem last).limit))))
unfolding stop get start sample
stop_reports_peak megabytes seconds since t0 first last ms =
    let mon = start t0 first in
    let all = ms ++ last ∷ [] in
    let peak = sample_all-IsPeak all mon in
    let same = ap (λ (x : Monitor _). x.peak_mem) (sample_all-append ms last mon) in
    let p = (sample_all all mon).peak_mem in
    let within : used first ≤ p = let above : max 0 (used first) ≤ p = peak.above in omega arith in
    (
      p,
      ap (λ (q : ℕ). some (float_or_null (rounded megabytes q))) same,
      (within, peak.all),
      elim peak.taken [
        | inl here ↦ let e : p ≡ max 0 (used first) = here in inl (omega arith)
        | inr later ↦ inr later
      ],
      refl,
    )
