-- ===== src/Reconcile/Loop.antt =====
-- StandaloneReconcile of controllers/softwarefactory_controller.go: the owner, the controller, and the
-- loop around its step.
use sf_operator.Common.{
  ℕ, zero, suc, ◌+◌, String, ◌≡◌, Bool, true, false, Option, none, some, arith, eqb, if◌then◌else◌,
  [], ◌∷◌, refl, inl, inr,
}
use sf_operator.Api.{SoftwareFactory, SoftwareFactorySpec}
use sf_operator.Connections.Controller.{
  SfController, Started, invalid_connections, duplicate_connection, reserved_name, started,
  mk_sf_controller,
}
use sf_operator.Kube.Exec.{Exec, Outcome, Outcome-cases, ret, panic, pure, die, ◌>>=◌}
use sf_operator.Kube.Client.{ApiError, Client}
use sf_operator.Kube.Crud.{get_or_die}
use sf_operator.Kube.Client.{Context}
use sf_operator.Kube.Objects.{GoMap, ConfigMap}
use sf_operator.Reconcile.Steps.{Parts, step}

pub data ReconcileError : Type 0 where
  too_many_attempts : ReconcileError
  api_error : ApiError → ReconcileError

-- The nil error is `none`.
abbrev pub Result : Type 0
Result = Option ReconcileError

module _ {W : Type 0} (owners : Client W ConfigMap) (r : Context) (spec : String)
    (controller_annotations : GoMap) where
  -- The spec and the annotations are written to the owner, if it is there, by a call of r.Client.
  unfoldable pub record_owner : Exec W Result
  unfolding get_or_die
  record_owner = do
    controller_cm ← get_or_die owners r "sf-standalone-owner"
    elim controller_cm [
      | none ↦ pure none
      | some cm ↦ λ w.
          let (reply, w') =
            owners.update false
              (record cm {
                contents = some (("spec", spec) ∷ []);
                annotations = controller_annotations;
              })
              w in
          elim reply.error [ none ↦ (ret none, w') | some e ↦ (ret (some (api_error e)), w') ]
    ]

-- `step` gives the field Ready of the status that Step returns, and `record_spec` is what follows a
-- status that is ready. The time.Sleep between two steps leaves the state alone.
module _ {W : Type 0} (dry_run : Bool) (step : Exec W Bool) (record_spec : Exec W Result) where
  -- The `for` loop from its top, at `attempt`; `none` is a loop that the fuel does not end.
  unfoldable pub reconcile_loop : ℕ → ℕ → W → Option (Outcome Result × W)
  reconcile_loop zero attempt w = none
  reconcile_loop (suc fuel) attempt w =
      let (status, w') = step w in
      let rest = reconcile_loop fuel (attempt + 1) w' in
      elim status [
        | panic ↦ some (panic, w')
        | ret ready ↦
            if dry_run
            then some (ret none, w')
            else if eqb (attempt + 1) 60
            then some (ret (some too_many_attempts), w')
            else if ready
            then some (record_spec w')
            else rest
      ]

  -- Up to `n` steps, until one is ready, and one last step whose answer is not used.
  unfoldable pub steps_then_last : ℕ → Exec W Result
  steps_then_last zero w =
      let (status, w') = step w in
      elim status [ panic ↦ (panic, w') | ret ready ↦ (ret (some too_many_attempts), w') ]
  steps_then_last (suc n) w =
      let (status, w') = step w in
      let rest = steps_then_last n w' in
      elim status [ panic ↦ (panic, w') | ret ready ↦ if ready then record_spec w' else rest ]

  loop-steps :
      (n attempt : ℕ) (w : W)
      → dry_run ≡ false
      → attempt + suc n ≡ 60
      → reconcile_loop (suc n) attempt w ≡ some (steps_then_last n w)
  unfolding reconcile_loop steps_then_last
  loop-steps zero attempt w live h = ground (arith, live)
  loop-steps (suc n) attempt w live h =
      ground (arith, live, loop-steps n (attempt + 1) (step w).1 live)

module _ {W : Type 0} (parts : Parts W) (owners : Client W ConfigMap) (r : Context)
    (marshal : SoftwareFactorySpec → String) (operator : String)
    (controller_annotations : GoMap) where
  unfoldable pub get_standalone_owner : Exec W Bool
  unfolding get_or_die
  get_standalone_owner = do
    cm ← get_or_die owners r "sf-standalone-owner"
    elim cm [ none ↦ pure false | some _ ↦ pure true ]

  -- The owner is created by a call of r.Client without an option, and os.Exit follows an error. The
  -- field Owner is what `set_owner` of a client writes, at the mode of the operator.
  unfoldable pub ensure_standalone_owner : SoftwareFactorySpec → Exec W (Unit {0})
  unfolding get_standalone_owner
  ensure_standalone_owner spec = do
    there ← get_standalone_owner
    if there then pure tt else λ w.
        let (reply, w') =
          owners.create false
            (record {
              name = "sf-standalone-owner";
              namespace = r.ns;
              annotations = none;
              contents = some (("spec", marshal spec) ∷ []);
            })
            w in
        elim reply.error [ none ↦ (ret tt, w') | some _ ↦ (panic, w') ]

  abbrev pub ready_step : SfController → Exec W Bool
  ready_step c = step parts r c operator >>= λ status. pure status.ready

  abbrev pub record_spec_of : SoftwareFactory → Exec W Result
  record_spec_of sf = record_owner owners r (marshal sf.spec) controller_annotations

  -- What follows MkSFController, which exits where it does not start a controller.
  abbrev reconcile_started : SoftwareFactory → Started → W → Option (Outcome Result × W)
  reconcile_started sf (started c) w =
      reconcile_loop r.dry_run (ready_step c) (record_spec_of sf) 60 0 w
  reconcile_started sf (invalid_connections e) w = some (panic, w)
  reconcile_started sf (duplicate_connection name) w = some (panic, w)
  reconcile_started sf reserved_name w = some (panic, w)

  unfoldable pub standalone_reconcile : SoftwareFactory → W → Option (Outcome Result × W)
  unfolding ensure_standalone_owner record_owner reconcile_loop
  standalone_reconcile sf w =
      let (owner, w') = ensure_standalone_owner sf.spec w in
      elim owner [
        | panic ↦ some (panic, w')
        | ret _ ↦ reconcile_started sf (mk_sf_controller sf) w'
      ]

  -- The steps of a controller that starts, or the exit.
  abbrev pub run_started : SoftwareFactory → Started → Exec W Result
  run_started sf (started c) = steps_then_last r.dry_run (ready_step c) (record_spec_of sf) 59
  run_started sf (invalid_connections e) = die
  run_started sf (duplicate_connection name) = die
  run_started sf reserved_name = die

  reconcile_started-run :
      (sf : SoftwareFactory) (s : Started) (w : W)
      → r.dry_run ≡ false
      → reconcile_started sf s w ≡ some (run_started sf s w)
  reconcile_started-run sf (started c) w live =
      loop-steps r.dry_run (ready_step c) (record_spec_of sf) 59 0 w live (omega arith)
  reconcile_started-run sf (invalid_connections e) w live = refl
  reconcile_started-run sf (duplicate_connection name) w live = refl
  reconcile_started-run sf reserved_name w live = refl

  -- Outside a dry run the reconciliation ends: it makes sure of the owner, and exits for a resource
  -- that no controller starts on. Else the controller makes up to 59 steps until one is ready, and
  -- then records the spec; if none was, it makes one more and gives an error, whatever that step
  -- answers. A panic of a step ends it.
  pub standalone_reconcile_steps :
      (sf : SoftwareFactory) (w : W)
      → r.dry_run ≡ false
      → standalone_reconcile sf w
        ≡ some ((ensure_standalone_owner sf.spec >>= λ _. run_started sf (mk_sf_controller sf)) w)
  unfolding standalone_reconcile
  standalone_reconcile_steps sf w live =
      elim (Outcome-cases (ensure_standalone_owner sf.spec w).0) [
        | inl (_, e) ↦
            rw (standalone_reconcile, e)
              (reconcile_started-run sf (mk_sf_controller sf) (ensure_standalone_owner sf.spec w).1
                live)
        | inr e ↦ rw (standalone_reconcile, e) refl
      ]
