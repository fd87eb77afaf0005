-- ===== src/Controller/Steps.antt =====
-- Chains of steps that may raise, read backwards.
use gleanflow.Prelude.{◌≡◌, refl, Option, none, some}
use gleanflow.Json.{◌>>=◌}

-- A chain of steps that gave a result has gone through its first step.
pub bind_some {ℓ κ} :
    {A : Type ℓ} {B : Type κ} (o : Option A) (k : A → Option B) (b : B)
    → (o >>= k) ≡ some b
    → (a : A) × (o ≡ some a) × (k a ≡ some b)
bind_some none k b e = cc
bind_some (some a) k b e = (a, refl, e)

pub some_inj {ℓ} : {A : Type ℓ} {a b : A} → some a ≡ some b → a ≡ b
some_inj e = cc
