-- ===== src/Zuulconf/Services.antt =====
-- EnsureZuulComponents: the services of Zuul, once their configuration is there.
use Prim.Native.String.{◌++◌}
use sf_operator.Common.{String, Bool, true, false, ◌&&◌, Option, none, some, [], ◌∷◌, if◌then◌else◌}
use sf_operator.Common.Assoc.{Assoc, insert}
use sf_operator.Api.{ZuulSpec}
use sf_operator.Kube.Exec.{Exec, pure, ◌>>=◌, ◌>>◌}
use sf_operator.Kube.Client.{Client, Context}
use sf_operator.Kube.Crud.{get_or_die, delete_r}
use sf_operator.Reconcile.Services.{service_ready}

unfoldable pub is_executor_enabled : ZuulSpec → Bool
is_executor_enabled zuul = elim zuul.executor.enabled [ none ↦ true | some b ↦ b ]

-- The services, which the other functions of the file deploy from the configuration, and
-- EnsureZuulConfigSecret.
pub record Deployed (F W : Type 0) : Type 0 where
  pub statefulsets : Client W String
  pub ensure_config : Exec W (Option F)
  pub ensure_front_services : Exec W (Unit {0})
  pub ensure_scheduler : F → Exec W Bool
  pub ensure_executor : F → Exec W Bool
  pub ensure_web : F → Exec W Bool
  pub ensure_merger : F → Exec W Bool

abbrev pub entry : String → String
entry name = "|_ " ++ name

-- The range over the services, in the order in which it visits them.
unfoldable pub tally : Assoc Bool → Assoc Bool → Assoc Bool
tally [] status = status
tally ((name, ready) ∷ services) status =
    let noted = insert (entry name) ready status in
    tally services (insert "Zuul" (service_ready "Zuul" noted && ready) noted)

module _ {F W : Type 0} (deployed : Deployed F W) (r : Context) (zuul : ZuulSpec)
    (visit : Assoc Bool → Assoc Bool) where
  open deployed use {
    statefulsets, ensure_config, ensure_front_services, ensure_scheduler, ensure_executor,
    ensure_web, ensure_merger,
  }

  -- Ensure executor removed if disabled.
  unfoldable pub remove_executor : Exec W (Unit {0})
  remove_executor = if is_executor_enabled zuul then pure tt else do
    executor ← get_or_die statefulsets r "zuul-executor"
    elim executor [ none ↦ pure tt | some _ ↦ delete_r statefulsets r "zuul-executor" ]

  unfoldable pub deploy_services : F → Exec W (Assoc Bool)
  deploy_services cfg = do
    ensure_front_services
    scheduler ← ensure_scheduler cfg
    let first_services = insert "Scheduler" scheduler []
    with_executor ←
        if is_executor_enabled zuul
        then (ensure_executor cfg >>= λ executor. pure (insert "Executor" executor first_services))
        else pure first_services
    web ← ensure_web cfg
    merger ← ensure_merger cfg
    pure (insert "Merger" merger (insert "Web" web with_executor))

  abbrev pub waiting : Assoc Bool
  waiting = insert "|_ Config Secrets" false (insert "Zuul" false [])

  abbrev pub configured : Assoc Bool
  configured = insert "|_ Merger" false (
      insert "|_ Web" false (insert "|_ Scheduler" false (insert "|_ Config Secrets" true waiting)))

  unfoldable pub ensure_zuul_components : Exec W (Assoc Bool)
  unfolding remove_executor deploy_services tally
  ensure_zuul_components = do
    remove_executor
    cfg ← ensure_config
    elim cfg [
      | none ↦ pure waiting
      | some f ↦ deploy_services f >>= λ services.
          pure (tally (visit services) (insert "Zuul" true configured))
    ]
