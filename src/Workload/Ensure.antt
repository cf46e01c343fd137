-- ===== src/Workload/Ensure.antt =====
-- ensureStatefulset and ensureDeployment of controllers/utils.go. The diffs, which are only logged,
-- are left out.
use sf_operator.Common.{
  String, Bool, true, false, ◌&&◌, ◌||◌, not, Option, none, some, List, [], ◌∷◌, if◌then◌else◌,
}
use sf_operator.Common.Int.{ℤ, eq_int}
use sf_operator.Kube.Exec.{Exec, pure, ◌>>=◌}
use sf_operator.Kube.Client.{Client, Context}
use sf_operator.Kube.Objects.{deep_equal}
use sf_operator.Kube.Crud.{get_or_die, create_r, update_object}
use sf_operator.Workload.Image.{image_changed}
use sf_operator.Workload.Objects.{
  Template, StatefulSet, Deployment, get_grace_period, replicas_or_one,
}

-- `len(missing) > 0`
abbrev pub is_some_missing : List String → Bool
is_some_missing [] = false
is_some_missing (image ∷ missing) = true

-- The desired count is given, and is not the current one.
abbrev pub replicas_differ : Option ℤ → Option ℤ → Bool
replicas_differ none current = false
replicas_differ (some n) current = not (eq_int n (replicas_or_one current))

-- The count that the object gets.
abbrev pub forced_replicas : Option ℤ → Option ℤ → Option ℤ
forced_replicas desired current = if replicas_differ desired current then desired else current

module _ {C : Type 0} where
  abbrev pub template_differs : Template C → Template C → Bool
  template_differs desired current =
      is_some_missing (image_changed desired.containers current.containers)
      || not (deep_equal current.annotations desired.annotations)

  unfoldable pub sts_needs_update : StatefulSet C → Option ℤ → StatefulSet C → Bool
  sts_needs_update sts desired_replica_count current =
      replicas_differ desired_replica_count current.replicas
      || template_differs sts.template current.template
      || not (eq_int (get_grace_period current) (get_grace_period sts))

module _ {W A : Type 0} (client : Client W A) (r : Context) where
  -- The shape of both functions: create what is missing, and update by `patch` what `needs` it. The
  -- result is what the caller's variable then holds, and whether the cluster was written to.
  unfoldable pub ensure_by : String → A → (A → Bool) → (A → A) → Exec W (A × Bool)
  unfolding get_or_die create_r update_object
  ensure_by name desired needs patch = do
    found ← get_or_die client r name
    elim found [
      | none ↦ create_r client r desired >>= λ current. pure (current, true)
      | some current ↦
          if needs current
          then (update_object client r (patch current) >>= λ updated. pure (updated, true))
          else pure (current, false)
    ]

module _ {C : Type 0} where
  unfoldable pub patch_sts : StatefulSet C → Option ℤ → StatefulSet C → StatefulSet C
  patch_sts sts desired_replica_count current = record current {
    replicas = forced_replicas desired_replica_count current.replicas;
    template = sts.template;
  }

module _ {W C : Type 0} (client : Client W (StatefulSet C)) (r : Context) where
  unfoldable pub ensure_statefulset : StatefulSet C → Option ℤ → Exec W (StatefulSet C × Bool)
  ensure_statefulset sts desired_replica_count =
      ensure_by client r sts.name sts (sts_needs_update sts desired_replica_count)
        (patch_sts sts desired_replica_count)

-- `same_strategy` is reflect.DeepEqual, and `is_default` compares with the empty strategy.
module _ {S : Type 0} (same_strategy : S → S → Bool) (is_default : S → Bool) where
  abbrev pub strategy_differs : S → S → Bool
  strategy_differs desired current = not (same_strategy current desired) && not (is_default desired)

module _ {C S : Type 0} (same_strategy : S → S → Bool) (is_default : S → Bool) where
  unfoldable pub dep_needs_update : Deployment C S → Option ℤ → Deployment C S → Bool
  dep_needs_update dep desired_replica_count current =
      replicas_differ desired_replica_count current.replicas
      || template_differs dep.template current.template
      || strategy_differs same_strategy is_default dep.strategy current.strategy

  unfoldable pub patch_dep : Deployment C S → Option ℤ → Deployment C S → Deployment C S
  patch_dep dep desired_replica_count current = record current {
    replicas = forced_replicas desired_replica_count current.replicas;
    strategy =
        if strategy_differs same_strategy is_default dep.strategy current.strategy
        then dep.strategy
        else current.strategy;
    template = dep.template;
  }

  module _ {W : Type 0} (client : Client W (Deployment C S)) (r : Context) where
    unfoldable pub ensure_deployment : Deployment C S → Option ℤ → Exec W (Deployment C S × Bool)
    ensure_deployment dep desired_replica_count =
        ensure_by client r dep.name dep (dep_needs_update dep desired_replica_count)
          (patch_dep dep desired_replica_count)
