-- ===== src/Workload/Ready.antt =====
-- IsStatefulSetReady, getPods, IsDeploymentReady and hasCrashLoopBackOff of controllers/utils.go, and
-- IsStatefulSetRolloutDone and IsDeploymentRolloutDone of controllers/libs/base/base.go.
use sf_operator.Common.{
  ◌≡◌, refl, ◌∙◌, ◌↔◌, inl, inr, Bool, true, false, ◌&&◌, ◌||◌, not, Option, none, some, List, [],
  ◌∷◌, arith, ◌==◌, eq_iff, eq_refl, all, any, All, Bool-cases, Option-cases, if◌then◌else◌,
}
use sf_operator.Common.Int.{ℤ, eq_int, geq_int, is_above_zero, eq_int_eq, eq_int_refl}
use sf_operator.Kube.Exec.{Outcome, Outcome-cases, ret, panic}
use sf_operator.Kube.Client.{Context}
use sf_operator.Workload.Objects.{StatefulSet, Deployment, ContainerStatus, Pod, replicas_or_one}

-- The loop over the pods: the pods before the first one that is not ready, and whether there is none.
unfoldable pub ready_pods : List Pod → List Pod × Bool
ready_pods [] = ([], true)
ready_pods (pod ∷ rest) =
    let (pods, ok) = ready_pods rest in
    if not (pod.phase == "Running")
    then ([], false)
    else if all (λ s. s.ready) pod.container_statuses
    then (pod ∷ pods, ok)
    else ([], false)

abbrev get_pods_ok : Outcome (List Pod × Bool) → Outcome Bool
get_pods_ok (ret (pods, ok)) = ret ok
get_pods_ok panic = panic

abbrev when_rolled_out : Outcome Bool → Outcome Bool → Outcome Bool
when_rolled_out (ret true) next = next
when_rolled_out (ret false) next = ret false
when_rolled_out panic next = panic

module _ {C : Type 0} where
  -- `*obj.Spec.Replicas` is read behind the first test of the `&&`.
  unfoldable pub is_stateful_set_rollout_done : StatefulSet C → Outcome Bool
  is_stateful_set_rollout_done obj =
      if geq_int obj.status.observed_generation obj.generation
      then elim obj.replicas [
        | none ↦ panic
        | some n ↦ ret (eq_int obj.status.ready_replicas n && eq_int obj.status.current_replicas n)
      ]
      else ret false

  unfoldable pub is_deployment_rollout_done : {S : Type 0} → Deployment C S → Bool
  is_deployment_rollout_done obj =
      geq_int obj.status.observed_generation obj.generation
      && eq_int obj.status.replicas obj.status.ready_replicas
      && eq_int obj.status.replicas obj.status.available_replicas

  -- `list` is r.Client.List with the labels of the statefulset; `none` is its error.
  unfoldable pub get_pods : Option (List Pod) → StatefulSet C → Outcome (List Pod × Bool)
  get_pods list dep =
      if is_above_zero dep.status.ready_replicas
      then elim list [ none ↦ panic | some items ↦ ret (ready_pods items) ]
      else ret ([], true)

  unfoldable pub is_stateful_set_ready : Context → Option (List Pod) → StatefulSet C → Outcome Bool
  is_stateful_set_ready r list dep =
      if r.dry_run
      then ret true
      else when_rolled_out (is_stateful_set_rollout_done dep) (
          let replicas = replicas_or_one dep.replicas in
          if not (eq_int replicas dep.status.ready_replicas)
          then ret false
          else if is_above_zero replicas
          then get_pods_ok (get_pods list dep)
          else ret true)

  unfoldable pub is_deployment_ready : {S : Type 0} → Context → Deployment C S → Bool
  is_deployment_ready r dep =
      if r.dry_run
      then true
      else if is_deployment_rollout_done dep
      then (if is_above_zero (replicas_or_one dep.replicas)
          then is_above_zero dep.status.ready_replicas
          else true)
      else false

-- One of the containers waits after a crash.
abbrev crashed : ContainerStatus → Bool
crashed cs = elim cs.waiting [ none ↦ false | some reason ↦ reason == "CrashLoopBackOff" ]

-- `selected` is false if the statefulset has no selector; an error of the list is no crash.
unfoldable pub has_crash_loop_back_off : Bool → Option (List Pod) → Bool
has_crash_loop_back_off selected list = if not selected then false else elim list [
  | none ↦ false
  | some pods ↦
      any (λ p. any crashed p.container_statuses || any crashed p.init_container_statuses) pods
]

-- The pod runs and its containers are ready.
abbrev pub IsRunning : Pod → Type 0
IsRunning pod = (pod.phase ≡ "Running") × (all (λ s. s.ready) pod.container_statuses ≡ true)

ready_pods-All : (items : List Pod) → (ready_pods items).1 ≡ true → All IsRunning items
unfolding ready_pods
ready_pods-All [] h = tt
ready_pods-All (pod ∷ rest) h =
    let running : pod.phase ≡ "Running" = ground (arith, eq_iff pod.phase "Running") in
    let ready : all (λ s. s.ready) pod.container_statuses ≡ true =
      ground (arith, eq_iff pod.phase "Running") in
    ((running, ready), ready_pods-All rest (ground (arith, eq_iff pod.phase "Running")))

All-ready_pods : (items : List Pod) → All IsRunning items → (ready_pods items).1 ≡ true
unfolding ready_pods
All-ready_pods [] h = refl
All-ready_pods (pod ∷ rest) ((running, ready), hs) =
    rw (running, ready, eq_refl "Running") (All-ready_pods rest hs)

module _ {C : Type 0} (r : Context) (list : Option (List Pod)) (dep : StatefulSet C)
    (live : r.dry_run ≡ false) where
  abbrev IsRolledOut : ℤ → Type 0
  IsRolledOut n =
      (geq_int dep.status.observed_generation dep.generation ≡ true)
      × (dep.replicas ≡ some n)
      × (dep.status.ready_replicas ≡ n)
      × (dep.status.current_replicas ≡ n)

  rolled_out : is_stateful_set_rollout_done dep ≡ ret true → (n : ℤ) × IsRolledOut n
  unfolding is_stateful_set_rollout_done
  rolled_out h = elim (Bool-cases (geq_int dep.status.observed_generation dep.generation)) [
    | inr stale ↦ ground arith
    | inl up ↦ elim (Option-cases dep.replicas) [
      | inl e ↦ ground arith
      | inr (n, e) ↦ (
        n,
        (
          up,
          e,
          eq_int_eq dep.status.ready_replicas n (ground arith),
          eq_int_eq dep.status.current_replicas n (ground arith),
        ),
      )
    ]
  ]

  rollout-done : {n : ℤ} → IsRolledOut n → is_stateful_set_rollout_done dep ≡ ret true
  unfolding is_stateful_set_rollout_done
  rollout-done {n = n} (up, e, ready, current) = rw (up, e, ready, current, eq_int_refl n) refl

  ready-rollout :
      is_stateful_set_ready r list dep ≡ ret true → is_stateful_set_rollout_done dep ≡ ret true
  unfolding is_stateful_set_ready
  ready-rollout h = elim (Outcome-cases (is_stateful_set_rollout_done dep)) [
    | inr p ↦ ground arith
    | inl (true, e) ↦ e
    | inl (false, e) ↦ ground arith
  ]

  -- What is left of the test once the rollout is done.
  ready_of_rollout :
      {n : ℤ}
      → IsRolledOut n
      → is_stateful_set_ready r list dep
        ≡ (if is_above_zero n then get_pods_ok (get_pods list dep) else ret true)
  unfolding is_stateful_set_ready
  ready_of_rollout {n = n} (up, e, ready, current) =
      rw (live, rollout-done (up, e, ready, current), e, ready, eq_int_refl n) refl

  pods_of_rollout :
      {n : ℤ}
      → IsRolledOut n
      → is_above_zero n ≡ true
      → get_pods list dep ≡ elim list [ none ↦ panic | some items ↦ ret (ready_pods items) ]
  unfolding get_pods
  pods_of_rollout {n = n} (up, e, ready, current) above = rw (ready, above) refl

  abbrev IsListed : Type 0
  IsListed = (items : List Pod) × (list ≡ some items) × All IsRunning items

  ok-IsListed :
      get_pods_ok (elim list [ none ↦ panic | some items ↦ ret (ready_pods items) ]) ≡ ret true
      → IsListed
  ok-IsListed h = elim (Option-cases list) [
    | inl e ↦ ground arith
    | inr (items, e) ↦ (items, e, ready_pods-All items (ground arith))
  ]

  IsListed-ok :
      IsListed
      → get_pods_ok (elim list [ none ↦ panic | some items ↦ ret (ready_pods items) ]) ≡ ret true
  IsListed-ok (items, e, all_run) = rw (e, All-ready_pods items all_run) refl

  -- Outside a dry run, the statefulset is ready exactly if its status is up to date, its count is set
  -- and is both the count of its ready replicas and of its current ones, and, if the count is above
  -- zero, the pods could be listed and each of them runs with all its containers ready.
  pub is_stateful_set_ready_iff :
      (is_stateful_set_ready r list dep ≡ ret true)
      ↔ ((n : ℤ) × IsRolledOut n × (is_above_zero n ≡ true → IsListed))
  is_stateful_set_ready_iff = (
    λ h.
        let (n, out) = rolled_out (ready-rollout h) in
        (
          n,
          out,
          λ above. ok-IsListed (rw (ready_of_rollout out, above, pods_of_rollout out above) at h),
        ),
    λ (n, out, listed). elim (Bool-cases (is_above_zero n)) [
      | inr none_wanted ↦ ready_of_rollout out ∙ rw none_wanted refl
      | inl above ↦
          ready_of_rollout out ∙ rw (above, pods_of_rollout out above) (IsListed-ok (listed above))
    ],
  )
