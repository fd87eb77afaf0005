-- ===== src/Fleet/Local.antt =====
-- gleanflow/fleet/local.py: `LocalFleet`. A thread is known by the number of its worker; what it runs
-- is `poll_loop`.
use gleanflow.Prelude.{
  ℕ, zero, suc, ◌+◌, ◌≤◌, ◌<◌, Bool, true, List, [], ◌∷◌, ◌++◌, ltb, if◌then◌else◌, max, ◌≡◌, refl,
  arith, Bool-cases, inl, inr,
}

pub record Thread : Type 0 where
  pub idx : ℕ
  pub is_alive : Bool

pub record LocalFleet : Type 0 where
  pub threads : List Thread
  pub n : ℕ
  pub stopped : Bool

unfoldable pub alive_count : List Thread → ℕ
alive_count [] = 0
alive_count (t ∷ ts) = let rest = alive_count ts in if t.is_alive then suc rest else rest

unfoldable pub running : LocalFleet → ℕ
running f = alive_count f.threads

-- `_spawn`: the thread is started.
unfoldable pub spawn : ℕ → Thread
spawn idx = record { idx = idx; is_alive = true }

unfoldable pub add_thread : LocalFleet → LocalFleet
add_thread f = record f { threads = f.threads ++ spawn f.n ∷ []; n = f.n + 1 }

-- The loop of `ensure`, on fuel: no thread ends meanwhile.
unfoldable pub ensure_fuel : ℕ → ℕ → LocalFleet → LocalFleet
ensure_fuel zero n f = f
ensure_fuel (suc fuel) n f =
    let more = ensure_fuel fuel n (add_thread f) in if ltb (running f) n then more else f

-- One turn for each thread asked for is enough.
unfoldable pub ensure : ℕ → LocalFleet → LocalFleet
ensure n f = ensure_fuel n n f

-- `stop_now` sets the event that the threads watch; joining changes nothing here.
unfoldable pub stop_now : LocalFleet → LocalFleet
stop_now f = record f { stopped = true }

alive_count-snoc :
    (ts : List Thread) (i : ℕ) → alive_count (ts ++ spawn i ∷ []) ≡ suc (alive_count ts)
unfolding alive_count spawn
alive_count-snoc [] i = refl
alive_count-snoc (t ∷ ts) i = ground (arith, alive_count-snoc ts i)

ensure_fuel-running :
    (fuel n : ℕ) (f : LocalFleet)
    → n ≤ fuel + running f
    → running (ensure_fuel fuel n f) ≡ max (running f) n
unfolding ensure_fuel running add_thread
ensure_fuel-running zero n f h = omega arith
ensure_fuel-running (suc fuel) n f h =
    let one = alive_count-snoc f.threads f.n in
    elim (Bool-cases (ltb (alive_count f.threads) n)) [
      | inl less ↦
          let rest = ensure_fuel-running fuel n (add_thread f) (omega (arith, one)) in
          let below : alive_count f.threads < n = ground arith in
          rw less (omega (arith, rest, one, below))
      | inr enough ↦
          let above : n ≤ alive_count f.threads = ground arith in rw enough (omega (arith, above))
    ]

-- `ensure` brings the number of live threads up to what is asked for and ends none.
pub ensure-running : (n : ℕ) (f : LocalFleet) → running (ensure n f) ≡ max (running f) n
unfolding ensure
ensure-running n f = ensure_fuel-running n n f (omega arith)
