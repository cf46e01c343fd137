-- ===== src/Reconcile/Steps.antt =====
-- The steps of controllers/softwarefactory_controller.go: deployZKAndZuulAndNodepool, deploySFStep,
-- deployStandaloneExectorStep and Step.
use sf_operator.Common.{
  ℕ, String, Bool, true, false, ◌||◌, not, none, some, List, [], ◌∷◌, if◌then◌else◌,
}
use sf_operator.Common.Assoc.{Assoc, insert}
use sf_operator.Api.{SoftwareFactoryStatus, CodesearchSpec}
use sf_operator.Connections.Controller.{SfController}
use sf_operator.Conds.Refresh.{Condition, Params, refresh_condition}
use sf_operator.Kube.Exec.{Exec, ret, pure, ◌>>=◌, ◌>>◌}
use sf_operator.Kube.Client.{Client, Context}
use sf_operator.Kube.Objects.{Secret}
use sf_operator.Reconcile.Services.{names_of, service_ready, is_operator_ready}
use sf_operator.Reconcile.Secrets.{get_secret, validate_zuul_connections_secrets}

-- What the steps call of the other parts of the operator. The state holds the cluster and the
-- conditions of the controller's resource.
pub record Parts (W : Type 0) : Type 0 where
  pub secrets : Client W Secret
  pub conditions : W → List Condition
  pub set_conditions : List Condition → W → W
  pub now : W → ℕ → ℕ
  pub cleanup : Exec W (Unit {0})
  pub deploy_zuul_secrets : Exec W (Unit {0})
  pub ensure_tooling_volume : Exec W (Unit {0})
  pub deploy_git_server : Exec W Bool
  pub deploy_mariadb : Exec W Bool
  pub deploy_logserver : Exec W Bool
  pub deploy_httpd_gateway : Exec W Bool
  pub deploy_hound_search : Exec W Bool
  pub terminate_hound_search : Exec W (Unit {0})
  pub ensure_log_juicer : Exec W Bool
  pub deploy_zookeeper : Exec W Bool
  pub deploy_nodepool : Exec W (Assoc Bool)
  pub deploy_zuul : Exec W (Assoc Bool)
  pub setup_config_job : Exec W Bool
  -- The configuration of Zuul is there, for an executor that is standalone or not.
  pub ensure_zuul_config_secret : Bool → Exec W Bool
  pub ensure_zuul_executor_service : Exec W (Unit {0})
  pub ensure_zuul_executor : Exec W Bool

abbrev pub Services : Type 0
Services = Assoc Bool

-- services[cmp] = status[cmp] for the keys of the status.
unfoldable pub insert_all : Assoc Bool → List String → Services → Services
insert_all status [] services = services
insert_all status (cmp ∷ keys) services =
    insert_all status keys (insert cmp (service_ready cmp status) services)

unfoldable pub is_codesearch_enabled : CodesearchSpec → Bool
is_codesearch_enabled codesearch = elim codesearch.enabled [ none ↦ true | some b ↦ b ]

abbrev pub config_ready : Params
config_ready = record {
  type_ = "ConfigReady";
  status = "True";
  reason = "Ready";
  message = "Config is ready";
}

module _ {W : Type 0} (parts : Parts W) where
  open parts use {
    secrets, conditions, set_conditions, now, cleanup, deploy_zuul_secrets, ensure_tooling_volume,
    deploy_git_server, deploy_mariadb, deploy_logserver, deploy_httpd_gateway, deploy_hound_search,
    terminate_hound_search, ensure_log_juicer, deploy_zookeeper, deploy_nodepool, deploy_zuul,
    setup_config_job, ensure_zuul_config_secret, ensure_zuul_executor_service, ensure_zuul_executor,
  }

  -- What follows the two checks of deployZKAndZuulAndNodepool.
  unfoldable pub deploy_zuul_and_nodepool : Services → Exec W Services
  deploy_zuul_and_nodepool services = do
    nodepool ← deploy_nodepool
    zuul ← deploy_zuul
    let zuul_ready = service_ready "Zuul" zuul
    let deployed = insert "Zuul" zuul_ready (
        insert "NodePoolBuilder" (service_ready "nodepool-builder" nodepool)
          (insert "NodePoolLauncher" (service_ready "nodepool-launcher" nodepool) services))
    pure (if zuul_ready then deployed else insert_all zuul (names_of zuul) deployed)

  unfoldable pub deploy_zk_and_zuul_and_nodepool : Services → Exec W Services
  deploy_zk_and_zuul_and_nodepool services = do
    zookeeper ← deploy_zookeeper
    let with_zk = insert "Zookeeper" zookeeper services
    if not zookeeper
        then pure with_zk
        else if not (service_ready "GitServer" with_zk) || not (service_ready "MariaDB" with_zk)
        then pure with_zk
        else deploy_zuul_and_nodepool with_zk

  -- conds.RefreshCondition on the conditions of the resource.
  abbrev pub refresh : Params → Exec W (Unit {0})
  refresh p w = (ret tt, set_conditions (refresh_condition p (now w) (conditions w)) w)

  -- The companion services, up to deployZKAndZuulAndNodepool.
  unfoldable pub deploy_companions : CodesearchSpec → Services → Exec W Services
  deploy_companions codesearch services = do
    deploy_zuul_secrets
    ensure_tooling_volume
    git_server ← deploy_git_server
    mariadb ← deploy_mariadb
    logserver ← deploy_logserver
    gateway ← deploy_httpd_gateway
    let base = insert "Gateway" gateway (
        insert "Logserver" logserver
          (insert "MariaDB" mariadb (insert "GitServer" git_server services)))
    searching ←
        if is_codesearch_enabled codesearch
        then (deploy_hound_search >>= λ hound_search. pure (insert "HoundSearch" hound_search base))
        else terminate_hound_search >> pure base
    log_juicer ← ensure_log_juicer
    pure (insert "LogJuicer" log_juicer searching)

  -- The last two parts of deploySFStep.
  unfoldable pub configure : Services → Exec W Services
  configure services =
      if not (service_ready "Zuul" services) || not (service_ready "Logserver" services)
      then pure (insert "Config" false services)
      else do
        config ← setup_config_job
        if config then refresh config_ready else pure tt
        pure (insert "Config" config services)

  unfoldable pub deploy_sf_step : CodesearchSpec → Services → Exec W Services
  deploy_sf_step codesearch services = do
    companions ← deploy_companions codesearch services
    deployed ← deploy_zk_and_zuul_and_nodepool companions
    configure deployed

  module _ (r : Context) where
    -- The loop over the names: whether every secret is there.
    unfoldable pub all_there : List String → Exec W Bool
    all_there [] = pure true
    all_there (name ∷ names) = do
      secret ← get_secret secrets r name
      elim secret [ none ↦ pure false | some _ ↦ all_there names ]

    unfoldable pub deploy_standalone_executor_step : Services → Exec W Services
    deploy_standalone_executor_step services = do
      let waiting = insert "Zuul" false services
      there ← all_there ("zuul-keystore-password" ∷ "zuul-ssh-key" ∷ "zookeeper-client-tls" ∷ [])
      if not there then pure waiting else do
        cfg ← ensure_zuul_config_secret true
        if not cfg then pure waiting else do
          ensure_zuul_executor_service
          executor ← ensure_zuul_executor
          pure (insert "Zuul" executor waiting)

    abbrev pub deploy_step : SfController → Exec W Services
    deploy_step c = elim c.cr.spec.zuul.executor.standalone [
      | none ↦ deploy_sf_step c.cr.spec.codesearch []
      | some _ ↦ deploy_standalone_executor_step []
    ]

    abbrev pub status_of : SfController → String → Bool → Exec W SoftwareFactoryStatus
    status_of c operator ready w = (
      ret (record {
        ready = ready;
        observed_generation = c.cr.generation;
        reconciled_by = operator;
        conditions = conditions w;
      }),
      w,
    )

    -- `operator` is what the environment variable OPERATOR_CONDITION_NAME holds.
    unfoldable pub step : SfController → String → Exec W SoftwareFactoryStatus
    step c operator = do
      cleanup
      err ← validate_zuul_connections_secrets secrets r c.cr.spec.zuul
      elim err [
        | some _ ↦ λ w. (ret (record c.cr.status { ready = false; conditions = conditions w }), w)
        | none ↦ deploy_step c >>= λ services. status_of c operator (is_operator_ready services)
      ]
