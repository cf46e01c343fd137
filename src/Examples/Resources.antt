-- ===== src/Examples/Resources.antt =====
-- A resource with three connections, its secrets and its volumes.
use Prim.Native.Nat.{Ordering, compare}
use sf_operator.Common.{
  ℕ, String, ◌≡◌, ◌↔◌, ◌⊎◌, refl, Bool, true, false, none, some, List, [], ◌∷◌, All, neq_of_test,
  ◌==◌,
}
use sf_operator.Common.Int.{pos}
use sf_operator.Api.{
  GerritConnection, GitHubConnection, GitConnection, ZuulSpec, StorageDefaultSpec, SoftwareFactory,
}
use sf_operator.Kube.Exec.{ret}
use sf_operator.Kube.Client.{Context, Client, Got, not_found, found, missing}
use sf_operator.Kube.Objects.{Secret}
use sf_operator.Conds.Refresh.{Condition, Params, refresh_condition, mk_condition}
use sf_operator.Conds.Settle.{
  IsSettled, refresh_condition_converges, refresh_condition-absent, has_type,
}
use sf_operator.Connections.BaseUrl.{
  resolve_config_base_url, IsBase, resolve_config_base_url-IsBase,
}
use sf_operator.Connections.Controller.{
  SfController, started, IsAccepted, mk_sf_controller, mk_sf_controller-started_iff,
}
use sf_operator.Reconcile.Secrets.{
  IsGitHubServed, IsGerritServed, validate_zuul_connections_secrets,
  validate_zuul_connections_secrets_iff,
}
use sf_operator.Volume.Quantity.{Quantity}
use sf_operator.Volume.Storage.{StorageSpec}
use sf_operator.Volume.Expand.{new_resources, Pvc, StorageClass, is_resizing, reconcile_expand_pvc}
use sf_operator.Volume.Grow.{grown, reconcile_expand_pvc_grows}
use sf_operator.Examples.Store.{store}

abbrev live : Context
live = record { ns = "sf"; standalone = false; dry_run = false }

abbrev gerrit : GerritConnection
gerrit = record {
  name = "review";
  hostname = "review.example.org";
  port = 29418;
  puburl = "";
  username = "zuul";
  canonicalhostname = "";
  password = "";
  sshkey = "review-key";
  git_over_ssh = false;
  verify_ssl = none;
  stream_events = none;
}

abbrev github : GitHubConnection
github = record {
  name = "github.com";
  app_id = pos 42;
  secrets = "github-app";
  server = "";
  canonicalhostname = "";
  verify_ssl = true;
}

abbrev git : GitConnection
git = record { name = "opendev.org"; baseurl = "https://opendev.org"; poll_delay = pos 0 }

abbrev zuul : ZuulSpec
zuul = record {
  gerrit_conns = gerrit ∷ [];
  git_hub_conns = github ∷ [];
  git_lab_conns = [];
  git_conns = git ∷ [];
  pagure_conns = [];
  elastic_search_conns = [];
  smtp_conns = [];
  oidc_authenticators = [];
  default_authenticator = "";
  executor = record {
    enabled = none;
    standalone = none;
    disk_limit_per_job = pos 250;
    ansible_setup_timeout = pos 60;
  };
  scheduler = record { default_hold_expiration = none; max_hold_expiration = some 3600 };
  merger = record {
    git_user_name = "zuul";
    git_user_email = "";
    git_http_low_speed_limit = pos 1000;
    git_http_low_speed_time = pos 30;
    git_timeout = pos 0;
  };
}

abbrev storage_default : StorageDefaultSpec
storage_default = record { class_name = "topolvm"; extra_annotations = [] }

abbrev pub factory : SoftwareFactory
factory = record {
  name = "my-sf";
  generation = 3;
  spec = record {
    fqdn = "sfop.me";
    storage_default = storage_default;
    extra_labels = [];
    config_repository_location = record {
      name = "config";
      branch = "main";
      zuul_connection_name = "review";
      cluster_api_url = "";
      logserver_host = "";
    };
    zuul = zuul;
    codesearch = record { enabled = none };
  };
  status = record { ready = false; observed_generation = 0; reconciled_by = ""; conditions = [] };
}

mk_sf_controller-started_iff_example :
    ((c : SfController) × (mk_sf_controller factory ≡ started c)) ↔ IsAccepted factory
mk_sf_controller-started_iff_example = mk_sf_controller-started_iff factory

resolve_config_base_url-IsBase_example : IsBase (resolve_config_base_url factory)
resolve_config_base_url-IsBase_example = resolve_config_base_url-IsBase factory

-- The configuration is on none of the connections.
abbrev pub elsewhere : SoftwareFactory
elsewhere = record factory {
  spec = record (factory.spec) {
    config_repository_location = record (factory.spec.config_repository_location) {
      zuul_connection_name = "local";
    };
  };
}

abbrev pub controller : SfController
controller = record {
  cr = elsewhere;
  config_base_url = "";
  need_opendev = false;
  logserver_keys = "unknown";
}

abbrev secrets : Client (List Secret) Secret
secrets = store (λ (c : Secret). c.name)

abbrev secret : String → String → Secret
secret name key = record {
  name = name;
  namespace = "sf";
  annotations = none;
  contents = some ((key, "-----BEGIN") ∷ []);
}

abbrev cluster : List Secret
cluster = secret "github-app" "app_key" ∷ secret "review-key" "priv" ∷ []

validate_zuul_connections_secrets_iff_example :
    (validate_zuul_connections_secrets secrets live zuul cluster ≡ (ret none, cluster)) ↔ (
      All (IsGitHubServed secrets live cluster) (github ∷ [])
      × All (IsGerritServed secrets live cluster) (gerrit ∷ []))
validate_zuul_connections_secrets_iff_example =
    validate_zuul_connections_secrets_iff secrets live zuul cluster

abbrev zuul_ready : Params
zuul_ready = record { type_ = "Zuul"; status = "True"; reason = "Complete"; message = "done" }

abbrev zuul_waits : Condition
zuul_waits = record {
  type_ = "Zuul";
  status = "False";
  observed_generation = 0;
  last_transition_time = 7;
  reason = "Awaiting";
  message = "";
}

refresh_condition_converges_example :
    let twice =
      refresh_condition zuul_ready
        (λ i. 9)
        (refresh_condition zuul_ready (λ i. 8) (zuul_waits ∷ [])) in
    (has_type "Zuul" twice ≡ true)
    × All (IsSettled zuul_ready) twice
    × (refresh_condition zuul_ready (λ i. 10) twice ≡ twice)
refresh_condition_converges_example =
    refresh_condition_converges zuul_ready (zuul_waits ∷ []) (neq_of_test "Zuul" "" refl) (λ i. 8)
      (λ i. 9) (λ i. 10)

abbrev bytes : Quantity ℕ
bytes = record {
  is_positive = λ n. elim n [ ℕ.zero ↦ false | ℕ.suc _ ↦ true ];
  is_zero = λ n. elim n [ ℕ.zero ↦ true | ℕ.suc _ ↦ false ];
  cmp = compare;
  qty_1gi = 1024;
}

abbrev class_answer : Bool → Got StorageClass
class_answer true = found (record { name = "topolvm"; allow_volume_expansion = some true })
class_answer false = missing

-- The storage classes, which no one writes.
abbrev classes : Client (List (Pvc ℕ)) StorageClass
classes = record {
  name_of = λ c. c.name;
  set_owner = λ mode c. c;
  get = λ name w. class_answer (name == "topolvm");
  create = λ dry_run c w. (record { object = c; error = some not_found }, w);
  update = λ dry_run c w. (record { object = c; error = some not_found }, w);
  delete = λ dry_run name w. (some not_found, w);
}

abbrev pvcs : Client (List (Pvc ℕ)) (Pvc ℕ)
pvcs = store (λ (p : Pvc ℕ). p.name)

abbrev volume : Pvc ℕ
volume = record {
  name = "logserver-logserver-0";
  capacity = 10;
  resources = new_resources 10;
  conditions = [];
  storage_class_name = some "topolvm";
}

abbrev wanted : ℕ → StorageSpec ℕ
wanted n = record { size = n; class_name = "" }

reconcile_expand_pvc_grows_example :
    ((reconcile_expand_pvc classes pvcs bytes live "logserver-logserver-0"
        (wanted 20)
        (volume ∷ [])).1
      ≡ volume ∷ [])
    ⊎ ((pvc : Pvc ℕ) × (pvcs.get "logserver-logserver-0" (volume ∷ []) ≡ found pvc)
        × (bytes.is_zero pvc.capacity ≡ false)
        × (is_resizing pvc.conditions ≡ false)
        × (compare 20 pvc.capacity ≡ Ordering.gt)
        × (reconcile_expand_pvc classes pvcs bytes live "logserver-logserver-0"
              (wanted 20)
              (volume ∷ [])
            ≡ (ret false, grown classes pvcs bytes live (wanted 20) pvc (volume ∷ []))))
reconcile_expand_pvc_grows_example =
    reconcile_expand_pvc_grows classes pvcs bytes live "logserver-logserver-0" (wanted 20)
      (volume ∷ [])

refresh_condition-absent_example :
    refresh_condition zuul_ready (λ i. 8) [] ≡ mk_condition "Zuul" "Complete" "done" 8 ∷ []
refresh_condition-absent_example =
    refresh_condition-absent zuul_ready (λ i. 8) [] (neq_of_test "Zuul" "" refl) refl
