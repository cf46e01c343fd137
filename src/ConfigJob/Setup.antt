-- ===== src/ConfigJob/Setup.antt =====
-- SetupBaseSecrets, ClearConfigJob and SetupConfigJob, with runZuulInternalTenantReconfigure of
-- controllers/zuul.go.
use Prim.Native.String.{◌++◌, slice}
use text.Mathlib.Text.{starts_with}
use sf_operator.Common.{
  ℕ, String, Bool, true, false, ◌||◌, not, Option, none, some, List, [], ◌∷◌, if◌then◌else◌, ◌==◌,
  ltb,
}
use sf_operator.Api.{ConfigRepositoryLocationSpec}
use sf_operator.Kube.Exec.{Exec, pure, ◌>>=◌, ◌>>◌}
use sf_operator.Kube.Client.{Client, Context}
use sf_operator.Kube.Objects.{GoMap, ConfigMap, Secret}
use sf_operator.Kube.Crud.{get_or_die, create_r, update_r, delete_r}
use sf_operator.Kube.Ensure.{ensure_config_map}
use sf_operator.Reconcile.Secrets.{data_at}

-- A job: its name, and how many of its pods have succeeded.
pub record Job : Type 0 where
  pub name : String
  pub succeeded : ℕ

-- What the configuration calls: the clients for each kind of object, and the parts that are in other
-- files. `ensure_access` is the first half of SetupBaseSecrets, which makes the service account, the
-- role, the role binding and the token of the job, and gives false where the role is not updated.
pub record Parts (W : Type 0) : Type 0 where
  pub maps : Client W ConfigMap
  pub secrets : Client W Secret
  pub jobs : Client W Job
  pub job_names : W → List String
  pub deployments : Client W String
  pub ensure_access : Exec W Bool
  pub run_command : String → Job
  pub resource_version : Secret → String
  pub checksum : String → String
  pub pre_init_script : String
  pub tooling : GoMap
  -- The error of a command in the pod zuul-scheduler-0.
  pub pod_exec : List String → Exec W (Option String)

abbrev pub cm_name : String
cm_name = "zs-internal-tenant-reconfigure"

module _ {W : Type 0} (parts : Parts W) (r : Context) where
  open parts use {
    maps, secrets, jobs, job_names, deployments, ensure_access, run_command, resource_version,
    checksum, pre_init_script, tooling, pod_exec,
  }

  unfoldable pub setup_base_secrets : String → Exec W Bool
  setup_base_secrets internal_tenant_secrets_version = do
    access ← ensure_access
    if not access then pure false else do
      let job_name = "config-base-secret-" ++ internal_tenant_secrets_version
      job ← get_or_die jobs r job_name
      elim job [
        | none ↦ create_r jobs r (run_command job_name) >> pure false
        | some j ↦ pure (ltb 0 j.succeeded)
      ]

  -- The loop over the jobs.
  unfoldable pub delete_config_jobs : List String → Exec W (Unit {0})
  delete_config_jobs [] = pure tt
  delete_config_jobs (name ∷ names) =
      if starts_with name "config-base-secret-"
      then (delete_r jobs r name >> delete_config_jobs names)
      else delete_config_jobs names

  unfoldable pub clear_config_job : Exec W (Unit {0})
  unfolding delete_config_jobs
  clear_config_job w = delete_config_jobs (job_names w) w

  -- The request for a full reconfiguration is taken away before the command runs.
  unfoldable pub run_zuul_internal_tenant_reconfigure : Exec W Bool
  run_zuul_internal_tenant_reconfigure = do
    full ← get_or_die maps r "zuul-needs-full-reconfigure-config-map"
    args ← elim full [
      | some _ ↦
          delete_r maps r "zuul-needs-full-reconfigure-config-map"
          >> pure ("zuul-scheduler" ∷ "full-reconfigure" ∷ [])
      | none ↦ pure ("zuul-scheduler" ∷ "tenant-reconfigure" ∷ "internal" ∷ [])
    ]
    err ← pod_exec args
    elim err [ none ↦ pure true | some _ ↦ pure false ]

  -- The first five characters of the checksum of the settings, which has more.
  unfoldable pub extra_settings_checksum : ConfigRepositoryLocationSpec → String
  extra_settings_checksum location =
      if not (location.cluster_api_url == "") || not (location.logserver_host == "")
      then slice (checksum (location.cluster_api_url ++ location.logserver_host)) 0 5
      else "ns"

  -- The version of a secret that is missing is empty.
  abbrev pub secrets_version : Option Secret → ConfigRepositoryLocationSpec → String
  secrets_version zkp location =
      "1-"
      ++ ((elim zkp [ none ↦ "" | some s ↦ resource_version s ])
          ++ ("-" ++ extra_settings_checksum location))

  abbrev pub config_hash : String
  config_hash = checksum pre_init_script

  abbrev pub is_recorded : String → ConfigMap → Bool
  is_recorded version cm = not (
      not (config_hash == data_at "internal-tenant-config-hash" cm.contents)
      || not (version == data_at "internal-tenant-secrets-version" cm.contents))

  abbrev pub record_of : String → ConfigMap
  record_of version = record {
    name = cm_name;
    namespace = r.ns;
    annotations = none;
    contents = some (
        ("internal-tenant-config-hash", config_hash)
        ∷ ("internal-tenant-secrets-version", version)
        ∷ []);
  }

  -- Zuul reads its configuration again, and what it has read is recorded. `current` is the record
  -- that there is.
  unfoldable pub reconfigure : String → Option ConfigMap → Exec W Bool
  unfolding run_zuul_internal_tenant_reconfigure
  reconfigure version current = do
    done ← run_zuul_internal_tenant_reconfigure
    if not done then pure false else do
      delete_r deployments r "zuul-web"
      elim current [
        | none ↦ create_r maps r (record_of version) >> pure false
        | some _ ↦ update_r maps r (record_of version) >> pure false
      ]

  unfoldable pub setup_config_job : ConfigRepositoryLocationSpec → Exec W Bool
  unfolding setup_base_secrets reconfigure extra_settings_checksum
  setup_config_job location = do
    zkp ← get_or_die secrets r "zuul-keystore-password"
    let version = secrets_version zkp location
    ensure_config_map maps r "pymod-sf-operator" tooling
    current ← get_or_die maps r cm_name
    installed ← setup_base_secrets version
    if not installed then pure false else elim current [
      | none ↦ reconfigure version none
      | some cm ↦ if is_recorded version cm then pure true else reconfigure version (some cm)
    ]
