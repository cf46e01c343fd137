-- ===== src/Reconcile/Cleanup.antt =====
-- cleanup, nukeZKClients and nukeZK of controllers/softwarefactory_controller.go.
use sf_operator.Common.{
  String, ◌≡◌, refl, Bool, true, ◌||◌, none, some, List, [], ◌∷◌, ◌==◌, if◌then◌else◌, Bool-cases,
  ◌⊎◌, inl, inr,
}
use text.Mathlib.Text.{starts_with}
use sf_operator.Kube.Exec.{Exec, ret, pure, ◌>>=◌, ◌>>◌}
use sf_operator.Kube.Client.{Client, Context, not_found}
use sf_operator.Kube.Laws.{IsDry}
use sf_operator.Kube.Objects.{ConfigMap, Secret}
use sf_operator.Kube.Crud.{get_or_die, delete_r}
use sf_operator.Kube.Ensure.{delete_secret}

-- A pod by its name and the name of its first container.
pub record NamedPod : Type 0 where
  pub name : String
  pub container : String

-- In a dry run a delete gives no error but that there is no such object.
abbrev pub Answers : {W A : Type 0} → Client W A → Type 0
Answers {W = W} client =
    (name : String) (w : W)
    → ((client.delete true name w).0 ≡ none) ⊎ ((client.delete true name w).0 ≡ some not_found)

module _ {W D S : Type 0} (deployments : Client W D) (statefulsets : Client W S)
    (secrets : Client W Secret) (maps : Client W ConfigMap) (r : Context) (pods : W → List NamedPod)
    (kill : String → String → W → W) where
  -- `kill` is PodExec of `kill -9 1`, whose error is dropped.
  abbrev run_kill : NamedPod → Exec W (Unit {0})
  run_kill pod w = (ret tt, kill pod.name pod.container w)

  unfoldable pub is_zk_client : NamedPod → Bool
  is_zk_client pod = starts_with pod.name "zuul-" || starts_with pod.name "nodepool-"

  unfoldable pub delete_owner : String → Exec W (Unit {0})
  delete_owner name =
      if name == "zuul-web" || (name == "zuul-weeder" || name == "nodepool-launcher")
      then delete_r deployments r name
      else delete_r statefulsets r name

  unfoldable pub nuke_each : List NamedPod → Exec W (Unit {0})
  nuke_each [] = pure tt
  nuke_each (pod ∷ rest) =
      let others = nuke_each rest in
      if is_zk_client pod then run_kill pod >> delete_owner pod.container >> others else others

  unfoldable pub nuke_zk_clients : Exec W (Unit {0})
  nuke_zk_clients w = nuke_each (pods w) w

  unfoldable pub nuke_zk : Exec W (Unit {0})
  nuke_zk = nuke_zk_clients >> delete_r statefulsets r "zookeeper"

  -- `standalone` is true if the executor of the resource is standalone.
  unfoldable pub cleanup : Bool → Exec W (Unit {0})
  cleanup standalone = do
    if standalone
        then pure tt
        else (get_or_die secrets r "zookeeper-client-tls" >>= λ zk_tls. elim zk_tls [
          | none ↦ nuke_zk
          | some _ ↦ pure tt
        ])
    refresh ← get_or_die maps r "zk-clients-need-refresh-config-map"
    elim refresh [
      | none ↦ pure tt
      | some _ ↦ nuke_zk_clients >> delete_r maps r "zk-clients-need-refresh-config-map"
    ]
    delete_secret secrets r "ca-cert"

  -- What the kills alone do.
  unfoldable pub kill_all : List NamedPod → W → W
  kill_all [] w = w
  kill_all (pod ∷ rest) w =
      if is_zk_client pod then kill_all rest (kill pod.name pod.container w) else kill_all rest w

  module _ (dry_deployments : IsDry deployments) (dry_statefulsets : IsDry statefulsets)
      (answers_deployments : Answers deployments) (answers_statefulsets : Answers statefulsets)
      (on : r.dry_run ≡ true) where
    delete_deployment_dry : (name : String) (w : W) → delete_r deployments r name w ≡ (ret tt, w)
    unfolding delete_r
    delete_deployment_dry name w = elim (answers_deployments name w) [
      | inl e ↦ rw (on, e, dry_deployments.dry_delete name w) refl
      | inr e ↦ rw (on, e, dry_deployments.dry_delete name w) refl
    ]

    delete_statefulset_dry : (name : String) (w : W) → delete_r statefulsets r name w ≡ (ret tt, w)
    unfolding delete_r
    delete_statefulset_dry name w = elim (answers_statefulsets name w) [
      | inl e ↦ rw (on, e, dry_statefulsets.dry_delete name w) refl
      | inr e ↦ rw (on, e, dry_statefulsets.dry_delete name w) refl
    ]

    delete_owner_dry : (name : String) (w : W) → delete_owner name w ≡ (ret tt, w)
    unfolding delete_owner
    delete_owner_dry name w =
        elim (Bool-cases
          (name == "zuul-web" || (name == "zuul-weeder" || name == "nodepool-launcher"))) [
            | inl e ↦ rw e (delete_deployment_dry name w)
            | inr e ↦ rw e (delete_statefulset_dry name w)
          ]

    nuke_each_dry : (ps : List NamedPod) (w : W) → nuke_each ps w ≡ (ret tt, kill_all ps w)
    unfolding nuke_each kill_all
    nuke_each_dry [] w = refl
    nuke_each_dry (pod ∷ rest) w = elim (Bool-cases (is_zk_client pod)) [
      | inl e ↦
          rw (e, delete_owner_dry pod.container (kill pod.name pod.container w))
            (nuke_each_dry rest (kill pod.name pod.container w))
      | inr e ↦ rw e (nuke_each_dry rest w)
    ]

    -- In a dry run, on a server that persists none and whose deletes give no error but that there
    -- is no such object, nukeZK returns, and what is left of it is the kills: the processes of
    -- every listed pod of Zuul and Nodepool are killed in the dry run too.
    pub nuke_zk_dry : (w : W) → nuke_zk w ≡ (ret tt, kill_all (pods w) w)
    unfolding nuke_zk nuke_zk_clients
    nuke_zk_dry w =
        rw (nuke_each_dry (pods w) w) (delete_statefulset_dry "zookeeper" (kill_all (pods w) w))
