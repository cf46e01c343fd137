-- ===== src/Examples/Jobs.antt =====
-- Runs of the job of the configuration. The config maps are a list, and one job has succeeded.
use sf_operator.Common.{String, ◌≡◌, refl, true, false, Option, none, some, List, [], ◌∷◌}
use sf_operator.Api.{ConfigRepositoryLocationSpec}
use sf_operator.Kube.Exec.{ret, ◌>>=◌}
use sf_operator.Kube.Client.{Got, Client, Context, found, missing}
use sf_operator.Kube.Objects.{ConfigMap, Secret, deep_equal}
use sf_operator.Kube.Crud.{get_or_die}
use sf_operator.Kube.Ensure.{ensure_config_map}
use sf_operator.ConfigJob.Setup.{
  Parts, cm_name, setup_config_job, setup_base_secrets, run_zuul_internal_tenant_reconfigure,
  secrets_version, extra_settings_checksum,
}
use sf_operator.ConfigJob.Recorded.{
  IsRecorded, HasRun, answered, setup_config_job-Done, run_zuul_internal_tenant_reconfigure-Loses,
}
use sf_operator.Examples.Store.{find, store, store-Deletes}

abbrev live : Context
live = record { ns = "sf"; standalone = false; dry_run = false }

-- A server with what `answer` gives for each name, and which keeps nothing.
abbrev fixed : {A : Type 0} → (A → String) → (String → Got A) → Client (List ConfigMap) A
fixed name answer = record {
  name_of = name;
  set_owner = λ mode o. o;
  get = λ n w. answer n;
  create = λ dry_run o w. (record { object = o; error = none }, w);
  update = λ dry_run o w. (record { object = o; error = none }, w);
  delete = λ dry_run n w. (none, w);
}

abbrev cm : String → List (String × String) → ConfigMap
cm name entries = record {
  name = name;
  namespace = "sf";
  annotations = none;
  contents = some entries;
}

abbrev parts : Parts (List ConfigMap)
parts = record {
  maps = store (λ (c : ConfigMap). c.name);
  secrets = fixed (λ s. s.name) (λ n. missing);
  jobs = fixed (λ j. j.name) (λ n. found (record { name = n; succeeded = 1 }));
  job_names = λ w. "config-base-secret-1" ∷ [];
  deployments = fixed (λ n. n) (λ n. missing);
  ensure_access = λ w. (ret true, w);
  run_command = λ n. record { name = n; succeeded = 0 };
  resource_version = λ s. "7";
  checksum = λ text. text;
  pre_init_script = "init";
  tooling = some (("main.py", "m") ∷ []);
  pod_exec = λ args w. (ret (some "exit status 1"), w);
}

abbrev location : ConfigRepositoryLocationSpec
location = record {
  name = "config";
  branch = "main";
  zuul_connection_name = "review";
  cluster_api_url = "";
  logserver_host = "";
}

-- The tooling is there, and the record of the configuration and of the secrets.
abbrev recorded : List ConfigMap
recorded =
    cm "pymod-sf-operator-config-map" (("main.py", "m") ∷ [])
    ∷ cm "zs-internal-tenant-reconfigure" (
        ("internal-tenant-config-hash", "init") ∷ ("internal-tenant-secrets-version", "1--ns") ∷ [])
    ∷ []

is_done : setup_config_job parts live location recorded ≡ (ret true, recorded)
unfolding setup_config_job setup_base_secrets extra_settings_checksum get_or_die ensure_config_map
    sf_operator.Kube.Ensure.ensure_object deep_equal find
is_done = refl

setup_config_job-Done_example :
    (zkp : Option Secret) × (u : List ConfigMap) × (c : ConfigMap) × (t : ConfigMap) × (get_or_die
        parts.secrets live "zuul-keystore-password" recorded
      ≡ (ret zkp, recorded))
    × (ensure_config_map parts.maps live "pymod-sf-operator" parts.tooling recorded ≡ (ret t, u))
    × (parts.maps.get cm_name u ≡ found c)
    × IsRecorded parts live (secrets_version parts live zkp location) c
    × (parts.ensure_access u ≡ (ret true, recorded))
    × HasRun parts live (secrets_version parts live zkp location) recorded
setup_config_job-Done_example = setup_config_job-Done parts live location recorded recorded is_done

abbrev asked : List ConfigMap
asked = cm "zuul-needs-full-reconfigure-config-map" [] ∷ []

run_zuul_internal_tenant_reconfigure-Loses_example :
    (v : List ConfigMap) × (run_zuul_internal_tenant_reconfigure parts live asked ≡ (ret false, v))
    × (parts.maps.get "zuul-needs-full-reconfigure-config-map" v ≡ missing)
    × (run_zuul_internal_tenant_reconfigure parts live v
        ≡ (parts.pod_exec ("zuul-scheduler" ∷ "tenant-reconfigure" ∷ "internal" ∷ [])
              >>= answered parts live)
            v)
unfolding find
run_zuul_internal_tenant_reconfigure-Loses_example =
    run_zuul_internal_tenant_reconfigure-Loses parts live asked refl
      (store-Deletes (λ (c : ConfigMap). c.name)) (λ args name u. refl)
      (λ args u. ("exit status 1", u, refl)) refl
