-- ===== src/Examples/Workloads.antt =====
-- Runs of the functions on statefulsets and deployments.
use sf_operator.Common.{
  String, ◌≡◌, ◌↔◌, refl, Bool, true, false, Option, none, some, List, [], ◌∷◌, All, ◌++◌, Permᴰ,
  arith, ◌==◌, if◌then◌else◌, eq_refl, inr,
}
use sf_operator.Common.Assoc.{Assoc, lookup}
use sf_operator.Common.Int.{ℤ, pos, is_above_zero, geq_int}
use sf_operator.Kube.Exec.{ret}
use sf_operator.Kube.Client.{Client, Context, found}
use sf_operator.Kube.Objects.{deep_equal, stored}
use sf_operator.Workload.Image.{Container, image_changed, image_changed-empty_iff}
use sf_operator.Workload.Annotations.{
  compare_annotations, compare_annotations_in, compare_annotations_any_order,
  compare_annotations-empty_iff,
}
use sf_operator.Workload.Objects.{Template, WorkloadStatus, StatefulSet, Deployment, Pod}
use sf_operator.Workload.Ready.{is_stateful_set_ready, is_stateful_set_ready_iff, IsRunning}
use sf_operator.Workload.Ensure.{ensure_statefulset, ensure_deployment}
use sf_operator.Workload.Settle.{ensure_statefulset_settles, ensure_deployment_settles}
use sf_operator.Workload.Views.{default_replicas, default_grace, view_sts, view_dep}
use sf_operator.Examples.Filling.{
  stored_again, filling, filling-Persists, filling-ServesNormal, filling-IsAvailable,
}

abbrev live : Context
live = record { ns = "sf"; standalone = false; dry_run = false }

abbrev status : WorkloadStatus
status = record {
  observed_generation = pos 2;
  replicas = pos 1;
  ready_replicas = pos 1;
  current_replicas = pos 1;
  available_replicas = pos 1;
}

abbrev container : String → Container (Unit {0})
container image = record { name = "zuul"; image = image; rest = tt }

abbrev template : String → Template (Unit {0})
template image = record {
  annotations = some (("config-hash", image) ∷ []);
  containers = container image ∷ [];
  termination_grace_period_seconds = none;
}

abbrev scheduler : String → StatefulSet (Unit {0})
scheduler image = record {
  name = "zuul-scheduler";
  generation = pos 2;
  replicas = some (pos 1);
  template = template image;
  status = status;
}

abbrev web : String → Deployment (Unit {0}) String
web image = record {
  name = "zuul-web";
  generation = pos 2;
  replicas = some (pos 1);
  strategy = "Recreate";
  template = template image;
  status = status;
}

abbrev sts_name : StatefulSet (Unit {0}) → String
sts_name s = s.name

abbrev dep_name : Deployment (Unit {0}) String → String
dep_name d = d.name

-- A server that fills in a count of replicas and a period of grace, and drops empty annotations.
abbrev fill_template : Template (Unit {0}) → Option ℤ → Template (Unit {0})
fill_template t grace = record {
  annotations = stored t.annotations;
  containers = t.containers;
  termination_grace_period_seconds = grace;
}

abbrev fill_sts : StatefulSet (Unit {0}) → StatefulSet (Unit {0})
fill_sts s = record s {
  replicas = some (default_replicas s.replicas);
  template =
      fill_template s.template (some (default_grace s.template.termination_grace_period_seconds));
}

sts_seen : (s : StatefulSet (Unit {0})) → view_sts (fill_sts s) ≡ view_sts s
unfolding default_replicas default_grace
sts_seen s = rw (stored_again s.template.annotations) refl

abbrev sts_server : Client (List (StatefulSet (Unit {0}))) (StatefulSet (Unit {0}))
sts_server = filling sts_name fill_sts

-- The image of the scheduler is renewed; its period of grace is left out.
ensure_statefulset_settles_example :
    (res : StatefulSet (Unit {0}) × Bool) × (w' : List (StatefulSet (Unit {0}))) × (b : StatefulSet
      (Unit {0}))
    × (ensure_statefulset sts_server live
          (scheduler "zuul:12")
          (some (pos 1))
          (scheduler "zuul:11" ∷ [])
        ≡ (ret res, w'))
    × (sts_server.get "zuul-scheduler" w' ≡ found b)
    × (ensure_statefulset sts_server live (scheduler "zuul:12") (some (pos 1)) w'
        ≡ (ret (b, false), w'))
ensure_statefulset_settles_example =
    ensure_statefulset_settles sts_server
      (filling-Persists sts_name fill_sts view_sts (λ s. refl) sts_seen)
      (filling-ServesNormal sts_name fill_sts stored (λ s. s.template.annotations)
        (λ s. stored_again s.template.annotations))
      (filling-IsAvailable sts_name fill_sts) (λ o. refl) live refl (scheduler "zuul:12")
      (some (pos 1)) (scheduler "zuul:11" ∷ []) (unfold deep_equal in refl) (unfold stored in refl)
      (λ m. refl)

-- A strategy is given by its name, and the empty one is filled in.
abbrev complete : String → String
complete s = if s == "" then "RollingUpdate" else s

complete_again : (s : String) → complete (complete s) ≡ complete s
complete_again s = ground arith

abbrev same_strategy : String → String → Bool
same_strategy s t = s == t

abbrev is_default : String → Bool
is_default s = s == ""

abbrev fill_dep : Deployment (Unit {0}) String → Deployment (Unit {0}) String
fill_dep d = record d {
  replicas = some (default_replicas d.replicas);
  strategy = complete d.strategy;
  template = fill_template d.template d.template.termination_grace_period_seconds;
}

dep_seen : (d : Deployment (Unit {0}) String) → view_dep complete (fill_dep d) ≡ view_dep complete d
unfolding default_replicas
dep_seen d = rw (stored_again d.template.annotations, complete_again d.strategy) refl

abbrev dep_server : Client (List (Deployment (Unit {0}) String)) (Deployment (Unit {0}) String)
dep_server = filling dep_name fill_dep

ensure_deployment_settles_example :
    (res : Deployment (Unit {0}) String × Bool) × (w' : List (Deployment (Unit {0}) String))
    × (b : Deployment (Unit {0}) String) × (ensure_deployment same_strategy is_default dep_server
          live
          (web "zuul:12")
          (some (pos 1))
          (web "zuul:11" ∷ [])
        ≡ (ret res, w'))
    × (dep_server.get "zuul-web" w' ≡ found b)
    × (ensure_deployment same_strategy is_default dep_server live (web "zuul:12") (some (pos 1)) w'
        ≡ (ret (b, false), w'))
ensure_deployment_settles_example =
    ensure_deployment_settles same_strategy is_default complete dep_server
      (filling-Persists dep_name fill_dep (view_dep complete) (λ d. refl) dep_seen)
      (filling-ServesNormal dep_name fill_dep stored (λ d. d.template.annotations)
        (λ d. stored_again d.template.annotations))
      (filling-ServesNormal dep_name fill_dep complete (λ d. d.strategy)
        (λ d. complete_again d.strategy))
      (filling-IsAvailable dep_name fill_dep) (λ o. refl) live refl eq_refl (web "zuul:12")
      (some (pos 1)) (web "zuul:11" ∷ []) (unfold deep_equal in refl) (unfold stored in refl)
      (inr refl) (λ m. refl)

abbrev pod : Pod
pod = record {
  name = "zuul-scheduler-0";
  phase = "Running";
  container_statuses = record { ready = true; waiting = none } ∷ [];
  init_container_statuses = [];
}

is_stateful_set_ready_iff_example :
    (is_stateful_set_ready live (some (pod ∷ [])) (scheduler "zuul:12") ≡ ret true) ↔ (
      (n : ℤ) × ((geq_int (pos 2) (pos 2) ≡ true)
        × (some (pos 1) ≡ some n)
        × (pos 1 ≡ n)
        × (pos 1 ≡ n))
      × (is_above_zero n ≡ true
          → (items : List Pod) × (some (pod ∷ []) ≡ some items) × All IsRunning items))
is_stateful_set_ready_iff_example =
    is_stateful_set_ready_iff live (some (pod ∷ [])) (scheduler "zuul:12") refl

image_changed-empty_iff_example :
    (image_changed (container "zuul:12" ∷ []) (container "zuul:12" ∷ container "sidecar:1" ∷ [])
      ≡ [])
    ↔ ((extra : List String) × ("zuul:12" ∷ "sidecar:1" ∷ [] ≡ ("zuul:12" ∷ []) ++ extra))
image_changed-empty_iff_example =
    image_changed-empty_iff (container "zuul:12" ∷ [])
      (container "zuul:12" ∷ container "sidecar:1" ∷ [])

abbrev old_annotations : Assoc String
old_annotations = ("image", "11") ∷ ("hash", "a") ∷ []

abbrev new_annotations : Assoc String
new_annotations = ("image", "12") ∷ ("serial", "1") ∷ []

compare_annotations-empty_iff_example :
    (compare_annotations old_annotations new_annotations ≡ [])
    ↔ ((key : String) → lookup key old_annotations ≡ lookup key new_annotations)
compare_annotations-empty_iff_example =
    compare_annotations-empty_iff old_annotations new_annotations
      (unfold lookup in (refl, (refl, tt))) (unfold lookup in (refl, (refl, tt)))

compare_annotations_any_order_example :
    compare_annotations_in old_annotations new_annotations
      (("serial", "1") ∷ ("image", "12") ∷ [])
      (("hash", "a") ∷ ("image", "11") ∷ [])
    ≡ compare_annotations old_annotations new_annotations
compare_annotations_any_order_example =
    compare_annotations_any_order old_annotations new_annotations (Permᴰ.swap refl refl)
      (Permᴰ.swap refl refl)
