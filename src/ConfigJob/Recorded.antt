-- ===== src/ConfigJob/Recorded.antt =====
-- What is so when SetupConfigJob says that the configuration is done, and what a failed
-- reconfiguration loses.
use Prim.Native.String.{◌++◌}
use sf_operator.Common.{
  ◌≤◌, String, ◌≡◌, ◌≢◌, refl, ◌∙◌, Bool, true, false, not, Option, none, some, List, [], ◌∷◌,
  arith, if◌then◌else◌, eq_iff, ltb, Bool-cases, inl, inr,
}
use mathlib.Core.Bool.{true≢false}
use sf_operator.Api.{ConfigRepositoryLocationSpec}
use sf_operator.Kube.Exec.{Exec, ret, pure, ◌>>=◌, ◌>>◌, >>=-eq-ret}
use sf_operator.Kube.Client.{Context, Got, found, missing}
use sf_operator.Kube.Laws.{Deletes}
use sf_operator.Kube.Objects.{ConfigMap, Secret}
use sf_operator.Kube.Crud.{get_or_die, create_r, update_r, delete_r}
use sf_operator.Kube.Reads.{
  get_or_die-found, get_or_die-missing, get_or_die-same, get_or_die-eq-some, get_or_die-again,
  get_or_die-after,
}
use sf_operator.Kube.Ensure.{ensure_config_map}
use sf_operator.Reconcile.Secrets.{data_at}
use sf_operator.ConfigJob.Setup.{
  Job, Parts, cm_name, setup_base_secrets, run_zuul_internal_tenant_reconfigure, secrets_version,
  config_hash, is_recorded, record_of, reconfigure, setup_config_job,
}

module _ {W : Type 0} (parts : Parts W) (r : Context) where
  open parts use {maps, secrets, jobs, deployments, ensure_access, run_command, tooling, pod_exec}

  delete_returns :
      (name : String) (w : W)
      → r.dry_run ≡ false
      → (maps.delete false name w).0 ≡ none
      → delete_r maps r name w ≡ (ret tt, (maps.delete false name w).1)
  unfolding delete_r
  delete_returns name w live done = rw (live, done) refl

  found_there : {g : Got ConfigMap} {c : ConfigMap} → g ≡ found c → g ≢ missing
  found_there e absent = cc

  -- A run of a sequence that ends in false.
  ends_false :
      {A : Type 0} (m : Exec W A) (w : W) {b : Bool} {v : W}
      → (m >> pure false) w ≡ (ret b, v)
      → b ≡ false
  ends_false m w h = let (a, u, e, k) = >>=-eq-ret m (λ _. pure false) w h in cc

  abbrev note : String → Option ConfigMap → Exec W Bool
  note version current = elim current [
    | none ↦ create_r maps r (record_of parts r version) >> pure false
    | some _ ↦ update_r maps r (record_of parts r version) >> pure false
  ]

  note-false :
      (version : String) (current : Option ConfigMap) (w : W) {b : Bool} {v : W}
      → note version current w ≡ (ret b, v)
      → b ≡ false
  note-false version none w h = ends_false (create_r maps r (record_of parts r version)) w h
  note-false version (some c) w h = ends_false (update_r maps r (record_of parts r version)) w h

  abbrev then_note : String → Option ConfigMap → Bool → Exec W Bool
  then_note version current done =
      if not done then pure false else (delete_r deployments r "zuul-web" >> note version current)

  then_note-false :
      (version : String) (current : Option ConfigMap) (done : Bool) (w : W) {b : Bool} {v : W}
      → then_note version current done w ≡ (ret b, v)
      → b ≡ false
  then_note-false version current false w h = cc
  then_note-false version current true w h =
      let (x, u, e, k) =
        >>=-eq-ret (delete_r deployments r "zuul-web") (λ _. note version current) w h in
      note-false version current u k

  reconfigure-false :
      (version : String) (current : Option ConfigMap) (w : W) {b : Bool} {v : W}
      → reconfigure parts r version current w ≡ (ret b, v)
      → b ≡ false
  unfolding reconfigure
  reconfigure-false version current w h =
      let (done, u, e, k) =
        >>=-eq-ret (run_zuul_internal_tenant_reconfigure parts r) (then_note version current) w h in
      then_note-false version current done u k

  -- The job of the secrets has run.
  abbrev pub HasRun : String → W → Type 0
  HasRun version w =
      (job : Job) × (jobs.get ("config-base-secret-" ++ version) w ≡ found job)
      × (1 ≤ job.succeeded)

  abbrev job_result : String → Option Job → Exec W Bool
  job_result name job = elim job [
    | none ↦ create_r jobs r (run_command name) >> pure false
    | some j ↦ pure (ltb 0 j.succeeded)
  ]

  job_result-true :
      (name : String) (job : Option Job) (w v : W)
      → job_result name job w ≡ (ret true, v)
      → (j : Job) × (job ≡ some j) × (v ≡ w) × (1 ≤ j.succeeded)
  job_result-true name none w v h =
      absurd (true≢false (ends_false (create_r jobs r (run_command name)) w h))
  job_result-true name (some j) w v h = (j, refl, ground arith, ground arith)

  abbrev with_access : String → Bool → Exec W Bool
  with_access name access =
      if not access then pure false else (get_or_die jobs r name >>= job_result name)

  with_access-true :
      (name : String) (access : Bool) (w v : W)
      → with_access name access w ≡ (ret true, v)
      → (access ≡ true) × (v ≡ w) × ((j : Job) × (jobs.get name w ≡ found j) × (1 ≤ j.succeeded))
  with_access-true name false w v h = absurd (ground arith)
  with_access-true name true w v h =
      let (o, u, e, k) = >>=-eq-ret (get_or_die jobs r name) (job_result name) w h in
      let (j, some_j, same, ran) = job_result-true name o u v k in
      let (g, at_w) = get_or_die-eq-some jobs r name w (rw some_j at e) in
      (refl, same ∙ at_w, (j, g, ran))

  setup_base_secrets-true :
      (version : String) (w v : W)
      → setup_base_secrets parts r version w ≡ (ret true, v)
      → (ensure_access w ≡ (ret true, v)) × HasRun version v
  unfolding setup_base_secrets
  setup_base_secrets-true version w v h =
      let name = "config-base-secret-" ++ version in
      let (access, u, e, k) = >>=-eq-ret ensure_access (with_access name) w h in
      let (yes_access, same, (j, g, ran)) = with_access-true name access u v k in
      (rw (yes_access, ← same) at e, (j, (rw (← same) at g), ran))

  abbrev decide_record : String → Option ConfigMap → Bool → Exec W Bool
  decide_record version current installed = if not installed then pure false else elim current [
    | none ↦ reconfigure parts r version none
    | some cm ↦
        if is_recorded parts r version cm then pure true else reconfigure parts r version (some cm)
  ]

  -- The record is of this configuration and of this version of the secrets.
  abbrev pub IsRecorded : String → ConfigMap → Type 0
  IsRecorded version cm =
      (data_at "internal-tenant-config-hash" cm.contents ≡ config_hash parts r)
      × (data_at "internal-tenant-secrets-version" cm.contents ≡ version)

  decide_record-true :
      (version : String) (current : Option ConfigMap) (installed : Bool) (w v : W)
      → decide_record version current installed w ≡ (ret true, v)
      → (installed ≡ true)
        × (v ≡ w)
        × ((cm : ConfigMap) × (current ≡ some cm) × IsRecorded version cm)
  decide_record-true version current false w v h = absurd (ground arith)
  decide_record-true version none true w v h =
      absurd (true≢false (reconfigure-false version none w h))
  decide_record-true version (some cm) true w v h =
      elim (Bool-cases (is_recorded parts r version cm)) [
        | inl e ↦ (
          refl,
          ground arith,
          (
            cm,
            refl,
            (
              ground (
                arith,
                eq_iff (config_hash parts r) (data_at "internal-tenant-config-hash" cm.contents),
              ),
              ground
                  (arith, eq_iff version (data_at "internal-tenant-secrets-version" cm.contents)),
            ),
          ),
        )
        | inr e ↦ absurd (true≢false (reconfigure-false version (some cm) w (rw e at h)))
      ]

  -- SetupConfigJob says that it is done only if the record that it reads is of the configuration as
  -- it is and of the secrets as they are, and the job that sets those secrets has succeeded. The
  -- record is read from the state that the tooling leaves, and the call that gives the job its access
  -- starts from that state and leaves the last one: nothing else is written.
  pub setup_config_job-Done :
      (location : ConfigRepositoryLocationSpec) (w v : W)
      → setup_config_job parts r location w ≡ (ret true, v)
      → (zkp : Option Secret) × (u : W) × (cm : ConfigMap) × (t : ConfigMap) × (get_or_die secrets r
            "zuul-keystore-password" w
          ≡ (ret zkp, w))
        × (ensure_config_map maps r "pymod-sf-operator" tooling w ≡ (ret t, u))
        × (maps.get cm_name u ≡ found cm)
        × IsRecorded (secrets_version parts r zkp location) cm
        × (ensure_access u ≡ (ret true, v))
        × HasRun (secrets_version parts r zkp location) v
  unfolding setup_config_job
  setup_config_job-Done location w v h =
      let (zkp, w1, e1, k1) = >>=-eq-ret (get_or_die secrets r "zuul-keystore-password") _ w h in
      let version = secrets_version parts r zkp location in
      let (t, w2, e2, k2) =
        >>=-eq-ret (ensure_config_map maps r "pymod-sf-operator" tooling) _ w1 k1 in
      let (current, w3, e3, k3) = >>=-eq-ret (get_or_die maps r cm_name) _ w2 k2 in
      let (installed, w4, e4, k4) =
        >>=-eq-ret (setup_base_secrets parts r version) (decide_record version current) w3 k3 in
      let (yes_installed, same, (cm, some_cm, recorded)) =
        decide_record-true version current installed w4 v k4 in
      let (access, ran) = setup_base_secrets-true version w3 v (rw (yes_installed, ← same) at e4) in
      let read = get_or_die-same secrets r "zuul-keystore-password" w e1 in
      let noted = get_or_die-same maps r cm_name w2 e3 in
      (
        zkp,
        w2,
        cm,
        t,
        get_or_die-again secrets r "zuul-keystore-password" w e1,
        rw read at e2,
        rw noted at (get_or_die-after maps r cm_name w2 e3 some_cm),
        recorded,
        rw noted at access,
        ran,
      )

  abbrev pub answered : Option String → Exec W Bool
  answered err = elim err [ none ↦ pure true | some _ ↦ pure false ]

  -- Outside a dry run, on a server that deletes what it serves, and if commands in the pod change no
  -- config map and fail: where a full reconfiguration is asked for, the call answers that it is not
  -- done and the request is gone, so that the next try runs the command for the tenant alone and
  -- answers by its error.
  pub run_zuul_internal_tenant_reconfigure-Loses :
      (w : W) {c : ConfigMap}
      → r.dry_run ≡ false
      → Deletes maps
      → ((args : List String) (name : String) (u : W)
          → maps.get name (pod_exec args u).1 ≡ maps.get name u)
      → ((args : List String) (u : W)
          → (e : String) × (v : W) × (pod_exec args u ≡ (ret (some e), v)))
      → maps.get "zuul-needs-full-reconfigure-config-map" w ≡ found c
      → (v : W) × (run_zuul_internal_tenant_reconfigure parts r w ≡ (ret false, v))
        × (maps.get "zuul-needs-full-reconfigure-config-map" v ≡ missing)
        × (run_zuul_internal_tenant_reconfigure parts r v
            ≡ (pod_exec ("zuul-scheduler" ∷ "tenant-reconfigure" ∷ "internal" ∷ []) >>= answered) v)
  unfolding run_zuul_internal_tenant_reconfigure
  run_zuul_internal_tenant_reconfigure-Loses w {c = c} live laws quiet fails g =
      let request : String = "zuul-needs-full-reconfigure-config-map" in
      let args : List String = "zuul-scheduler" ∷ "full-reconfigure" ∷ [] in
      let there : maps.get request w ≢ missing = λ absent. found_there g absent in
      let done = laws.deletes request w there in
      let u = (maps.delete false request w).1 in
      let deleted : delete_r maps r request w ≡ (ret tt, u) = delete_returns request w live done in
      let (e, v, ran) = fails args u in
      let gone : maps.get request v ≡ missing =
        (rw ran at (quiet args request u)) ∙ laws.get-delete request w done in
      (
        v,
        rw (get_or_die-found maps r request w g, deleted, ran) refl,
        gone,
        rw (get_or_die-missing maps r request v gone) refl,
      )
