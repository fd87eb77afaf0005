-- ===== src/Markers/Laws.antt =====
-- The markers of markers.py as a client reads them back.
use gleanflow.Prelude.{◌≡◌, ap, true, false, some, String, ◌==◌, eq_refl, arith, if◌then◌else◌}
use gleanflow.Prelude.Dict.{Dict, get-put, has-put}
use gleanflow.Text.{code_at, wrap-eq, ne→==, code-result, code-running, code-failure}
use gleanflow.Json.{Json, as_dict-object}
use gleanflow.Task.{Task}
use gleanflow.Store.{Store}
use gleanflow.Markers.{
  result_key, running_key, failure_key, has_result, read_result, result_body, write_result,
  has_failure, read_failure, failure_body, write_failure, write_running, clear_running,
}

pub result_key-eq : (s t : String) → (result_key s == result_key t) ≡ (s == t)
unfolding result_key
result_key-eq s t = wrap-eq "results/" s t

pub failure_key-eq : (s t : String) → (failure_key s == failure_key t) ≡ (s == t)
unfolding failure_key
failure_key-eq s t = wrap-eq "failures/" s t

-- The three families of markers have no key in common.
pub running-result : (s t : String) → (running_key s == result_key t) ≡ false
unfolding running_key result_key
running-result s t = ne→== _ _ λ e. ground (arith, ap (code_at 1) e, code-running s, code-result t)

pub failure-result : (s t : String) → (failure_key s == result_key t) ≡ false
unfolding failure_key result_key
failure-result s t = ne→== _ _ λ e. ground (arith, ap (code_at 1) e, code-failure s, code-result t)

pub result-failure : (s t : String) → (result_key s == failure_key t) ≡ false
unfolding failure_key result_key
result-failure s t = ne→== _ _ λ e. ground (arith, ap (code_at 1) e, code-result s, code-failure t)

pub running-failure : (s t : String) → (running_key s == failure_key t) ≡ false
unfolding running_key failure_key
running-failure s t =
    ne→== _ _ λ e. ground (arith, ap (code_at 1) e, code-running s, code-failure t)

module _ {W : Type 0} (now : Json W) (t : Task W) (info : Dict (Json W)) (s : Store W) where
  -- After `write_result` exactly the task's own chunk and those done before are done.
  pub has_result-write_result :
      (k : String)
      → has_result (write_result now t info s) k ≡ (if t.key == k then true else has_result s k)
  unfolding has_result write_result
  has_result-write_result k = rw (has-put, result_key-eq)

  -- No failure marker makes a chunk done.
  pub has_result-write_failure :
      (k : String) → has_result (write_failure now t info s) k ≡ has_result s k
  unfolding has_result write_failure
  has_result-write_failure k = rw (has-put, failure-result)

  -- After `write_failure` the task's own chunk is marked as failed, and the others as before.
  pub has_failure-write_failure :
      (k : String)
      → has_failure (write_failure now t info s) k ≡ (if t.key == k then true else has_failure s k)
  unfolding has_failure write_failure
  has_failure-write_failure k = rw (has-put, failure_key-eq)

  pub read_result-write_result :
      read_result (write_result now t info s) t.key ≡ some (result_body now t info)
  unfolding read_result write_result
  read_result-write_result = rw (get-put, eq_refl) (as_dict-object (result_body now t info))

  pub read_failure-write_failure :
      read_failure (write_failure now t info s) t.key ≡ some (failure_body now t info)
  unfolding read_failure write_failure
  read_failure-write_failure = rw (get-put, eq_refl) (as_dict-object (failure_body now t info))

module _ {W : Type 0} where
  pub has_result-write_running :
      (now : Json W) (t : Task W) (w k : String) (s : Store W)
      → has_result (write_running now t w s) k ≡ has_result s k
  unfolding has_result write_running
  has_result-write_running now t w k s = rw (has-put, running-result)

  pub has_result-clear_running :
      (j k : String) (s : Store W) → has_result (clear_running j s) k ≡ has_result s k
  unfolding has_result clear_running
  has_result-clear_running j k s = rw (has-put, running-result)

  pub has_failure-clear_running :
      (j k : String) (s : Store W) → has_failure (clear_running j s) k ≡ has_failure s k
  unfolding has_failure clear_running
  has_failure-clear_running j k s = rw (has-put, running-failure)
