-- ===== src/Examples/Cleanup.antt =====
-- A dry run of nukeZK on a cluster of three pods; the state is the list of the pods that were killed.
use sf_operator.Common.{String, ◌≡◌, refl, true, false, none, some, List, inr, [], ◌∷◌}
use sf_operator.Kube.Exec.{ret}
use sf_operator.Kube.Client.{missing, not_found, Client, Context}
use sf_operator.Kube.Laws.{IsDry}
use sf_operator.Kube.Objects.{ConfigMap, Secret}
use sf_operator.Reconcile.Cleanup.{NamedPod, is_zk_client, nuke_zk, kill_all, nuke_zk_dry}

-- A server without objects, which answers to every delete that there is no such object.
abbrev empty : {A : Type 0} → (A → String) → Client (List String) A
empty name_of = record {
  name_of = name_of;
  set_owner = λ mode s. s;
  get = λ name w. missing;
  create = λ dry_run s w. (record { object = s; error = none }, w);
  update = λ dry_run s w. (record { object = s; error = none }, w);
  delete = λ dry_run name w. (some not_found, w);
}

abbrev names : Client (List String) String
names = empty (λ s. s)

abbrev secrets : Client (List String) Secret
secrets = empty (λ (s : Secret). s.name)

abbrev maps : Client (List String) ConfigMap
maps = empty (λ (s : ConfigMap). s.name)

names-IsDry : IsDry names
names-IsDry = record {
  dry_create = λ o w. refl;
  dry_update = λ o w. refl;
  dry_delete = λ name w. refl;
}

abbrev dry : Context
dry = record { ns = "sf"; standalone = false; dry_run = true }

abbrev pods : List String → List NamedPod
pods w =
    record { name = "zuul-web-1"; container = "zuul-web" }
    ∷ record { name = "mariadb-0"; container = "mariadb" }
    ∷ record { name = "nodepool-launcher-1"; container = "nodepool-launcher" }
    ∷ []

abbrev kill : String → String → List String → List String
kill pod container w = pod ∷ w

nuke_zk_dry_example :
    nuke_zk names names secrets maps dry pods kill []
    ≡ (ret tt, kill_all names names secrets maps dry pods kill (pods []) [])
nuke_zk_dry_example =
    nuke_zk_dry names names secrets maps dry pods kill names-IsDry names-IsDry (λ name w. inr refl)
      (λ name w. inr refl) refl []

killed :
    kill_all names names secrets maps dry pods kill (pods []) []
    ≡ "nodepool-launcher-1" ∷ "zuul-web-1" ∷ []
unfolding kill_all is_zk_client
killed = refl
