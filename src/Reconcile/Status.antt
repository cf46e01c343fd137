-- ===== src/Reconcile/Status.antt =====
-- When Step reports a status that is ready.
use mathlib.Core.Bool.{true≢false}
use sf_operator.Common.{String, ◌≡◌, refl, sym, ap, ◌∙◌, true, false, Option, none, some, []}
use sf_operator.Api.{SoftwareFactoryStatus}
use sf_operator.Connections.Controller.{SfController}
use sf_operator.Kube.Exec.{Exec, ret, ◌>>=◌, >>=-eq-ret}
use sf_operator.Kube.Client.{Context}
use sf_operator.Reconcile.Services.{is_operator_ready}
use sf_operator.Reconcile.Secrets.{validate_zuul_connections_secrets}
use sf_operator.Reconcile.Steps.{Parts, deploy_sf_step, deploy_step, status_of, step}
use sf_operator.Reconcile.Picks.{ret_eq}
use sf_operator.Reconcile.Ready.{ReadyRun, deploy_sf_step_ready}

module _ {W : Type 0} (parts : Parts W) (r : Context) (c : SfController) (operator : String) where
  open parts use {secrets, cleanup, conditions}

  -- What Step does after the validation of the secrets.
  abbrev after_validation : Option String → Exec W SoftwareFactoryStatus
  after_validation err = elim err [
    | some _ ↦ λ w. (ret (record (c.cr.status) { ready = false; conditions = conditions w }), w)
    | none ↦ deploy_step parts r c >>= λ services.
        status_of parts r c operator (is_operator_ready services)
  ]

  validated :
      (err : Option String) (w : W) {status : SoftwareFactoryStatus} {w' : W}
      → after_validation err w ≡ (ret status, w')
      → status.ready ≡ true
      → err ≡ none
  validated none w h ok = refl
  validated (some e) w h ok = absurd (true≢false (sym ok ∙ ap (λ s. s.ready) (sym (ret_eq h))))

  deployed :
      (w : W) {status : SoftwareFactoryStatus} {w' : W}
      → (deploy_sf_step parts c.cr.spec.codesearch [] >>= λ services.
            status_of parts r c operator (is_operator_ready services))
          w
        ≡ (ret status, w')
      → status.ready ≡ true
      → ReadyRun parts c.cr.spec.codesearch w × (status.observed_generation ≡ c.cr.generation)
  deployed w h ok =
      let (services, v, first, last) =
        >>=-eq-ret (deploy_sf_step parts c.cr.spec.codesearch []) _ w h in
      (
        deploy_sf_step_ready parts c.cr.spec.codesearch w first
            (ap (λ s. s.ready) (ret_eq last) ∙ ok),
        ap (λ s. s.observed_generation) (sym (ret_eq last)),
      )

  -- If Step returns a status that is ready, for a resource whose executor is not standalone, then it
  -- cleaned up, the secrets of the connections passed their validation, and the calls that follow are
  -- those of a run of deploySFStep that found all ready; and the status is of the generation of the
  -- resource.
  pub step_ready :
      (w : W) {status : SoftwareFactoryStatus} {w' : W}
      → step parts r c operator w ≡ (ret status, w')
      → status.ready ≡ true
      → c.cr.spec.zuul.executor.standalone ≡ none
      → (v : W) × (u : W) × (cleanup w ≡ (ret tt, v))
        × (validate_zuul_connections_secrets secrets r c.cr.spec.zuul v ≡ (ret none, u))
        × ReadyRun parts c.cr.spec.codesearch u
        × (status.observed_generation ≡ c.cr.generation)
  unfolding step
  step_ready w h ok here =
      let (done, v, first, next) = >>=-eq-ret cleanup _ w h in
      let (err, u, second, last) =
        >>=-eq-ret (validate_zuul_connections_secrets secrets r c.cr.spec.zuul) after_validation v
          next in
      let fine = validated err u last ok in
      let (run, generation) = deployed u (rw (fine, here) at last) ok in
      (v, u, first, rw fine at second, run, generation)
