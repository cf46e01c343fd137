-- ===== src/Examples/Cluster.antt =====
-- Runs of the Ensure functions, and of the resize of a volume, on a list of objects.
use sf_operator.Common.{◌≡◌, refl, true, false, none, some, List, [], ◌∷◌}
use sf_operator.Kube.Exec.{ret}
use sf_operator.Kube.Client.{Context, Client, found}
use sf_operator.Kube.Objects.{GoMap, deep_equal, stored, ConfigMap, Secret}
use sf_operator.Kube.Ensure.{
  ensure_config_map, ensure_secret, ensure_secret_uuid, ensure_ssh_key_secret, delete_secret,
  config_map_name,
}
use sf_operator.Kube.Settle.{
  ensure_config_map_settles, ensure_secret_settles, ensure_secret_uuid_once,
}
use sf_operator.Kube.DryRun.{IsInert, dry_run-IsInert}
use sf_operator.Examples.Filling.{
  stored_again, filling, filling-Persists, filling-ServesNormal, filling-IsAvailable,
}
use sf_operator.Examples.Store.{store, store-Persists, store-IsAvailable, store-IsDry}

abbrev live : Context
live = record { ns = "sf"; standalone = false; dry_run = false }

abbrev dry : Context
dry = record { ns = "sf"; standalone = false; dry_run = true }

abbrev maps : Client (List ConfigMap) ConfigMap
maps = store (λ (c : ConfigMap). c.name)

abbrev secrets : Client (List Secret) Secret
secrets = store (λ (c : Secret). c.name)

-- A server that drops maps that are empty.
abbrev drop_map : ConfigMap → ConfigMap
drop_map c = record c { contents = stored c.contents }

abbrev drop_data : Secret → Secret
drop_data c = record c { contents = stored c.contents }

abbrev server : Client (List ConfigMap) ConfigMap
server = filling (λ (c : ConfigMap). c.name) drop_map

abbrev secret_server : Client (List Secret) Secret
secret_server = filling (λ (c : Secret). c.name) drop_data

abbrev tooling : GoMap
tooling = some (("reconnect-zk.py", "import kazoo") ∷ [])

ensure_config_map_settles_example :
    (c : ConfigMap) × (w' : List ConfigMap) × (b : ConfigMap) × (ensure_config_map server live
        "tooling" tooling []
      ≡ (ret c, w'))
    × (server.get (config_map_name "tooling") w' ≡ found b)
    × (deep_equal b.contents tooling ≡ true)
    × (ensure_config_map server live "tooling" tooling w' ≡ (ret b, w'))
ensure_config_map_settles_example =
    ensure_config_map_settles server
      (filling-Persists (λ (c : ConfigMap). c.name) drop_map (λ c. stored c.contents) (λ c. refl)
        (λ c. stored_again c.contents))
      (filling-ServesNormal (λ (c : ConfigMap). c.name) drop_map stored (λ c. c.contents)
        (λ c. stored_again c.contents))
      (filling-IsAvailable (λ (c : ConfigMap). c.name) drop_map) (λ o. refl) live refl "tooling"
      tooling [] (unfold stored in refl) (unfold deep_equal in refl)

abbrev db_secret : Secret
db_secret = record {
  name = "zuul-db";
  namespace = "sf";
  annotations = none;
  contents = some (("password", "old") ∷ []);
}

abbrev db_wanted : Secret
db_wanted = record db_secret { contents = some (("password", "new") ∷ []) }

ensure_secret_uuid_once_example :
    (c : Secret) × (w' : List Secret) × (b : Secret) × (ensure_secret_uuid secrets live "keystore"
        "u1"
        (db_secret ∷ [])
      ≡ (ret c, w'))
    × (secrets.get "keystore" w' ≡ found b)
    × (ensure_secret_uuid secrets live "keystore" "u2" w' ≡ (ret b, w'))
ensure_secret_uuid_once_example =
    ensure_secret_uuid_once secrets (λ c. c.contents)
      (store-Persists (λ (c : Secret). c.name) (λ c. c.contents))
      (store-IsAvailable (λ (c : Secret). c.name)) (λ o. refl) live refl "keystore" "u1" "u2"
      (db_secret ∷ [])

dry_run-IsInert_example :
    IsInert (ensure_config_map maps dry "tooling" tooling)
    × IsInert (ensure_secret secrets dry db_wanted)
    × IsInert (ensure_secret_uuid secrets dry "keystore" "u1")
    × IsInert (ensure_ssh_key_secret secrets dry "keystore" ("pub", "priv"))
    × IsInert (delete_secret secrets dry "keystore")
dry_run-IsInert_example =
    dry_run-IsInert maps secrets dry (store-IsDry (λ (c : ConfigMap). c.name))
      (store-IsDry (λ (c : Secret). c.name)) refl "tooling" "keystore" "u1" tooling db_wanted
      ("pub", "priv")

ensure_secret_settles_example :
    (w' : List Secret) × (b : Secret) × (ensure_secret secret_server live db_wanted (db_secret ∷ [])
      ≡ (ret tt, w'))
    × (secret_server.get "zuul-db" w' ≡ found b)
    × (deep_equal b.contents db_wanted.contents ≡ true)
    × (ensure_secret secret_server live db_wanted w' ≡ (ret tt, w'))
ensure_secret_settles_example =
    ensure_secret_settles secret_server
      (filling-Persists (λ (c : Secret). c.name) drop_data (λ c. stored c.contents) (λ c. refl)
        (λ c. stored_again c.contents))
      (filling-ServesNormal (λ (c : Secret). c.name) drop_data stored (λ c. c.contents)
        (λ c. stored_again c.contents))
      (filling-IsAvailable (λ (c : Secret). c.name) drop_data) (λ o. refl) live refl db_wanted
      (db_secret ∷ []) (unfold stored in refl) (unfold deep_equal in refl)
