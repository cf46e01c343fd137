-- ===== src/Examples/Rotations.antt =====
-- Runs of the rotation of the secrets.
use sf_operator.Common.{String, ◌≡◌, ◌≢◌, refl, false, none, some, Option, List, [], ◌∷◌, ◌⊎◌, inr}
use sf_operator.Kube.Exec.{Exec, ret}
use sf_operator.Kube.Client.{Client, Context, found, missing}
use sf_operator.Kube.Objects.{ConfigMap, Secret}
use sf_operator.Rotation.Secrets.{
  rotate_zuul_authenticator_secret, rotate_zuul_db_connection_secret, rotate_zookeeper_tls_secrets,
  rotate_zookeeper_tls_secrets-Together,
}
use sf_operator.Common.Assoc.{insert, lookup}
use sf_operator.Reconcile.Cleanup.{nuke_zk, nuke_zk_clients, nuke_each}
use sf_operator.Kube.Crud.{get_or_die, delete_r, create_r, update_r}
use sf_operator.Kube.Ensure.{ensure_secret_uuid}
use sf_operator.Rotation.Order.{do_rotate_secrets, do_rotate_secrets-IsRotated}
use sf_operator.Rotation.Keystore.{Kazoo, rotate_keystore_password}
use sf_operator.Examples.Store.{
  find, replace, remove, store, store-Persists, store-IsAvailable, store-Deletes,
}

abbrev live : Context
live = record { ns = "sf"; standalone = false; dry_run = false }

abbrev secret : String → String → Secret
secret name text = record {
  name = name;
  namespace = "sf";
  annotations = none;
  contents = some ((name, text) ∷ []);
}

abbrev pub secret_name : Secret → String
secret_name s = s.name

abbrev certificates : List Secret
certificates = secret "zookeeper-server-tls" "a" ∷ secret "zookeeper-client-tls" "b" ∷ []

rotated : rotate_zookeeper_tls_secrets (store secret_name) live certificates ≡ (ret none, [])
unfolding rotate_zookeeper_tls_secrets get_or_die delete_r find remove
rotated = refl

rotate_zookeeper_tls_secrets-Together_example :
    ((v : List Secret) × (rotate_zookeeper_tls_secrets (store secret_name) live certificates
        ≡ (ret none, v))
      × ((find secret_name "zookeeper-server-tls" certificates ≢ missing)
          × (find secret_name "zookeeper-client-tls" certificates ≢ missing))
      × (find secret_name "zookeeper-server-tls" v ≡ missing)
      × (find secret_name "zookeeper-client-tls" v ≡ missing))
    ⊎ ((e : String) × (rotate_zookeeper_tls_secrets (store secret_name) live certificates
          ≡ (ret (some e), certificates))
        × ((find secret_name "zookeeper-server-tls" certificates ≡ missing)
            ⊎ (find secret_name "zookeeper-client-tls" certificates ≡ missing)))
rotate_zookeeper_tls_secrets-Together_example =
    rotate_zookeeper_tls_secrets-Together (store secret_name) live refl
      (store-IsAvailable secret_name) (store-Deletes secret_name) certificates

abbrev broken : Kazoo (List Secret)
broken = record {
  wait = λ w. (ret tt, w);
  delete_pod = λ w. (ret tt, w);
  run_pod_cmd = λ args w. (ret (some "exit status 1"), w);
  save_backup = λ password w. (ret tt, w);
}

abbrev passwords : List Secret
passwords = secret "zuul-keystore-password" "old" ∷ []

abbrev working : Kazoo (List Secret)
working = record {
  wait = λ w. (ret tt, w);
  delete_pod = λ w. (ret tt, w);
  run_pod_cmd = λ args w. (ret none, w);
  save_backup = λ password w. (ret tt, w);
}

-- A server of objects that are none of the secrets.
abbrev idle : {A : Type 0} → (A → String) → Client (List Secret) A
idle name_of = record {
  name_of = name_of;
  set_owner = λ mode o. o;
  get = λ name w. missing;
  create = λ dry_run o w. (record { object = o; error = none }, w);
  update = λ dry_run o w. (record { object = o; error = none }, w);
  delete = λ dry_run name w. (none, w);
}

abbrev map_name : ConfigMap → String
map_name m = m.name

abbrev all_secrets : List Secret
all_secrets =
    secret "zuul-keystore-password" "old"
    ∷ secret "zuul-auth-secret" "past"
    ∷ secret "zuul-db-connection" "db"
    ∷ certificates

abbrev run_rotation : Exec (List Secret) (Option String)
run_rotation =
    do_rotate_secrets (store secret_name) (idle secret_name) (idle secret_name) (idle map_name)
      (idle secret_name) live working (λ w. []) (λ pod container w. w)
      (λ w. inr ("zuul-web-0" ∷ "zuul-executor-0" ∷ [])) "new" "fresh"

abbrev left_secrets : List Secret
left_secrets =
    secret "zuul-auth-secret" "fresh"
    ∷ record {
      name = "zuul-keystore-password";
      namespace = "sf";
      annotations = none;
      contents =
          some (("zuul-keystore-password", "new") ∷ ("zuul-keystore-password-old", "old") ∷ []);
    }
    ∷ []

rotation : run_rotation all_secrets ≡ (ret none, left_secrets)
unfolding do_rotate_secrets rotate_keystore_password rotate_zuul_authenticator_secret
    rotate_zuul_db_connection_secret rotate_zookeeper_tls_secrets nuke_zk nuke_zk_clients nuke_each
    get_or_die delete_r create_r update_r find replace remove insert lookup ensure_secret_uuid
rotation = refl

do_rotate_secrets-IsRotated_example :
    ((s : Secret) × (find secret_name "zuul-auth-secret" left_secrets ≡ found s)
      × (s.contents ≡ some (("zuul-auth-secret", "fresh") ∷ [])))
    × (find secret_name "zuul-db-connection" left_secrets ≡ missing)
    × (find secret_name "zookeeper-server-tls" left_secrets ≡ missing)
    × (find secret_name "zookeeper-client-tls" left_secrets ≡ missing)
do_rotate_secrets-IsRotated_example =
    do_rotate_secrets-IsRotated (store secret_name) (idle secret_name) (idle secret_name)
      (idle map_name) (idle secret_name) live working (λ w. []) (λ pod container w. w) refl
      (store-IsAvailable secret_name) (store-Deletes secret_name)
      (store-Persists secret_name (λ c. c.contents)) (λ o. refl) (λ mode pod name w. refl)
      (λ w. inr ("zuul-web-0" ∷ "zuul-executor-0" ∷ [])) "new" "fresh" all_secrets rotation
