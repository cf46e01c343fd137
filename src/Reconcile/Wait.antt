-- ===== src/Reconcile/Wait.antt =====
-- WaitFor of controllers/utils.go.
use sf_operator.Common.{
  ℕ, zero, suc, ◌+◌, ◌≡◌, Bool, true, false, Option, none, some, arith, ltb, if◌then◌else◌,
}
use sf_operator.Kube.Exec.{Outcome, Exec, ret, panic}

-- A call that answers whether it is done, or panics. The time.Sleep between two calls leaves the state
-- alone.
module _ {W : Type 0} (ensure_fun : Exec W Bool) where
  -- The `for` loop from its top, at `attempt`; `none` is a loop that the fuel does not end.
  unfoldable pub wait_loop : ℕ → ℕ → W → Option (Outcome Bool × W)
  wait_loop zero attempt w = none
  wait_loop (suc fuel) attempt w =
      let (answer, w') = ensure_fun w in
      let rest = wait_loop fuel (attempt + 1) w' in
      elim answer [
        | panic ↦ some (panic, w')
        | ret done ↦
            if done
            then some (ret true, w')
            else if ltb 300 (attempt + 1)
            then some (ret false, w')
            else rest
      ]

  unfoldable pub wait_for : W → Option (Outcome Bool × W)
  wait_for w = wait_loop 301 0 w

  -- Up to `n` calls, until one is done or panics.
  unfoldable pub try_times : ℕ → Exec W Bool
  try_times zero w = (ret false, w)
  try_times (suc n) w =
      let (answer, w') = ensure_fun w in
      let rest = try_times n w' in
      elim answer [ panic ↦ (panic, w') | ret done ↦ if done then (ret true, w') else rest ]

  wait_loop-try_times :
      (n attempt : ℕ) (w : W)
      → attempt + suc n ≡ 301
      → wait_loop (suc n) attempt w ≡ some (try_times (suc n) w)
  unfolding wait_loop try_times
  wait_loop-try_times zero attempt w h = ground arith
  wait_loop-try_times (suc n) attempt w h =
      ground (arith, wait_loop-try_times n (attempt + 1) (ensure_fun w).1)

  -- WaitFor ends: it makes at most 301 calls, stops at the first one that is done or panics, and
  -- answers whether there was one that is done.
  pub wait_for-try_times : (w : W) → wait_for w ≡ some (try_times 301 w)
  unfolding wait_for
  wait_for-try_times w = wait_loop-try_times 300 0 w (omega arith)
