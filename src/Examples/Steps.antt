-- ===== src/Examples/Steps.antt =====
-- Steps of an operator whose parts are all ready, the loops around them, and the values that are
-- given to Zuul.
use sf_operator.Common.{
  String, ℕ, suc, ltb, ◌≡◌, refl, Bool, true, false, none, some, List, [], ◌∷◌,
}
use sf_operator.Common.Assoc.{Assoc, lookup, insert}
use sf_operator.Kube.Exec.{Outcome, ret, Exec, pure, ◌>>=◌}
use sf_operator.Kube.Client.{Client, missing}
use sf_operator.Conds.Refresh.{Condition, refresh_condition}
use sf_operator.Api.{CodesearchSpec}
use sf_operator.Reconcile.Services.{is_operator_ready, Colors}
use sf_operator.Reconcile.Wait.{wait_for, try_times, wait_for-try_times}
use sf_operator.Reconcile.Steps.{
  Parts, deploy_companions, deploy_zuul_and_nodepool, deploy_zk_and_zuul_and_nodepool, configure,
  deploy_sf_step, is_codesearch_enabled, config_ready,
}
use sf_operator.Reconcile.Ready.{ReadyRun, deploy_sf_step_ready}
use sf_operator.Connections.Controller.{mk_sf_controller}
use sf_operator.Kube.Objects.{ConfigMap}
use sf_operator.Api.{SoftwareFactorySpec}
use sf_operator.Reconcile.Loop.{
  standalone_reconcile, ensure_standalone_owner, run_started, standalone_reconcile_steps,
}
use sf_operator.Api.{SoftwareFactoryStatus}
use sf_operator.Connections.Controller.{SfController}
use sf_operator.Kube.Client.{Context}
use sf_operator.Reconcile.Secrets.{validate_zuul_connections_secrets}
use sf_operator.Reconcile.Steps.{step}
use sf_operator.Reconcile.Complete.{IsAllReady, deploy_sf_step_complete}
use sf_operator.Reconcile.Status.{step_ready}
use sf_operator.Examples.Resources.{factory, controller}

-- The state is the list of conditions.
abbrev zuul_status : Assoc Bool
zuul_status =
    ("Zuul", true)
    ∷ ("|_ Config Secrets", true)
    ∷ ("|_ Scheduler", true)
    ∷ ("|_ Web", true)
    ∷ ("|_ Merger", true)
    ∷ []

abbrev ready_parts : Parts (List Condition)
ready_parts = record {
  secrets = record {
    name_of = λ s. s.name;
    set_owner = λ mode s. s;
    get = λ name w. missing;
    create = λ dry_run s w. (record { object = s; error = none }, w);
    update = λ dry_run s w. (record { object = s; error = none }, w);
    delete = λ dry_run name w. (none, w);
  };
  conditions = λ w. w;
  set_conditions = λ cs w. cs;
  now = λ w i. 0;
  cleanup = pure tt;
  deploy_zuul_secrets = pure tt;
  ensure_tooling_volume = pure tt;
  deploy_git_server = pure true;
  deploy_mariadb = pure true;
  deploy_logserver = pure true;
  deploy_httpd_gateway = pure true;
  deploy_hound_search = pure true;
  terminate_hound_search = pure tt;
  ensure_log_juicer = pure true;
  deploy_zookeeper = pure true;
  deploy_nodepool = pure (("nodepool-launcher", true) ∷ ("nodepool-builder", true) ∷ []);
  deploy_zuul = pure zuul_status;
  setup_config_job = pure true;
  ensure_zuul_config_secret = λ standalone. pure true;
  ensure_zuul_executor_service = pure tt;
  ensure_zuul_executor = pure true;
}

abbrev ready_services : Assoc Bool
ready_services =
    ("GitServer", true)
    ∷ ("MariaDB", true)
    ∷ ("Logserver", true)
    ∷ ("Gateway", true)
    ∷ ("HoundSearch", true)
    ∷ ("LogJuicer", true)
    ∷ ("Zookeeper", true)
    ∷ ("NodePoolLauncher", true)
    ∷ ("NodePoolBuilder", true)
    ∷ ("Zuul", true)
    ∷ ("Config", true)
    ∷ []

abbrev searching : CodesearchSpec
searching = record { enabled = none }

ready_run :
    deploy_sf_step ready_parts searching [] []
    ≡ (ret ready_services, refresh_condition config_ready (λ i. 0) [])
unfolding deploy_sf_step deploy_companions deploy_zk_and_zuul_and_nodepool deploy_zuul_and_nodepool
    configure insert lookup is_codesearch_enabled
ready_run = refl

deploy_sf_step_ready_example : ReadyRun ready_parts searching []
deploy_sf_step_ready_example =
    deploy_sf_step_ready ready_parts searching [] ready_run (unfold is_operator_ready in refl)

-- A controller for connections without secrets.
abbrev open_controller : SfController
open_controller = record controller {
  cr = record factory {
    spec = record (factory.spec) {
      zuul = record (factory.spec.zuul) { gerrit_conns = []; git_hub_conns = [] };
      codesearch = searching;
    };
  };
}

abbrev ready_status : SoftwareFactoryStatus
ready_status = record {
  ready = true;
  observed_generation = 3;
  reconciled_by = "operator";
  conditions = refresh_condition config_ready (λ i. 0) [];
}

abbrev live : Context
live = record { ns = "sf"; standalone = false; dry_run = false }

step_run :
    step ready_parts live open_controller "operator" []
    ≡ (ret ready_status, refresh_condition config_ready (λ i. 0) [])
unfolding step validate_zuul_connections_secrets is_operator_ready deploy_sf_step deploy_companions
    deploy_zk_and_zuul_and_nodepool deploy_zuul_and_nodepool configure insert lookup
    is_codesearch_enabled
step_run = refl

step_ready_example :
    (v : List Condition) × (u : List Condition) × (◌≡◌ {A = Outcome (Unit {0}) × List Condition}
      (ret tt, [])
      (ret tt, v))
    × (validate_zuul_connections_secrets ready_parts.secrets live open_controller.cr.spec.zuul v
        ≡ (ret none, u))
    × ReadyRun ready_parts searching u
    × (ready_status.observed_generation ≡ 3)
step_ready_example = step_ready ready_parts live open_controller "operator" [] step_run refl refl

abbrev colors : Colors
colors = record { cyan = λ s. s; green = λ s. s; red = λ s. s }

abbrev services : Assoc Bool
services = ("Zuul", false) ∷ ("MariaDB", true) ∷ []

-- A call that is done once the count is at 3.
abbrev counting : Exec ℕ Bool
counting n = (ret (ltb 2 n), suc n)

wait_for-try_times_example : wait_for counting 0 ≡ some (try_times counting 301 0)
wait_for-try_times_example = wait_for-try_times counting 0

-- A server without the owner, which creates what it is given and keeps nothing.
abbrev owners : Client (List Condition) ConfigMap
owners = record {
  name_of = λ c. c.name;
  set_owner = λ mode c. c;
  get = λ name w. missing;
  create = λ dry_run c w. (record { object = c; error = none }, w);
  update = λ dry_run c w. (record { object = c; error = none }, w);
  delete = λ dry_run name w. (none, w);
}

abbrev marshal : SoftwareFactorySpec → String
marshal spec = spec.fqdn

standalone_reconcile_steps_example :
    standalone_reconcile ready_parts owners live marshal "operator" none open_controller.cr []
    ≡ some (
        (ensure_standalone_owner ready_parts owners live marshal "operator" none
              open_controller.cr.spec
            >>= λ _.
                run_started ready_parts owners live marshal "operator" none open_controller.cr
                  (mk_sf_controller open_controller.cr))
          [])
standalone_reconcile_steps_example =
    standalone_reconcile_steps ready_parts owners live marshal "operator" none open_controller.cr []
      refl

parts_ready : IsAllReady ready_parts
parts_ready = record {
  zuul_secrets = λ w. (w, refl);
  tooling = λ w. (w, refl);
  git_server = λ w. (w, refl);
  mariadb = λ w. (w, refl);
  logserver = λ w. (w, refl);
  gateway = λ w. (w, refl);
  hound_search = λ w. (w, refl);
  terminate = λ w. (w, refl);
  log_juicer = λ w. (w, refl);
  zookeeper = λ w. (w, refl);
  nodepool = λ w. (w, refl);
  zuul = λ w. (zuul_status, (w, refl), unfold lookup in refl);
  config = λ w. (w, refl);
}

deploy_sf_step_complete_example :
    (services : Assoc Bool) × (v : List Condition) × (deploy_sf_step ready_parts searching [] []
      ≡ (ret services, v))
    × (is_operator_ready services ≡ true)
deploy_sf_step_complete_example = deploy_sf_step_complete ready_parts parts_ready searching []
