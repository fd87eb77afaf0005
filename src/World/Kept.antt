-- ===== src/World/Kept.antt =====
-- What every thread of a run leaves alone: the results that are in the store, and the keys of the
-- task objects.
use gleanflow.Prelude.{ℕ, ◌≡◌, refl, ◌∙◌, String, true}
use gleanflow.Markers.{has_result}
use gleanflow.Queue.Local.{key_of, sweep, expired}
use gleanflow.Queue.Local.Lease.{key-sweep_keys}
use gleanflow.World.{World}

module _ {W : Type 0} where
  pub record Keeps (w w' : World W) : Type 0 where
    pub results : (k : String) → has_result w.store k ≡ true → has_result w'.store k ≡ true
    pub names : (r : ℕ) → key_of w'.queue r ≡ key_of w.queue r

  pub Keeps-refl : (w : World W) → Keeps w w
  Keeps-refl w = record { results = λ k h. h; names = λ r. refl }

  pub Keeps-trans : {u v w : World W} → Keeps u v → Keeps v w → Keeps u w
  Keeps-trans a b = record {
    results = λ k h. b.results k (a.results k h);
    names = λ r. b.names r ∙ a.names r;
  }

  pub sweep-Keeps : (now : ℕ) (w : World W) → Keeps w (record w { queue = sweep now w.queue })
  unfolding sweep
  sweep-Keeps now w = record {
    results = λ k h. h;
    names = λ r. key-sweep_keys (expired now w.queue) r w.queue;
  }
