-- ===== src/Reconcile/Backing.antt =====
-- What the map of services says of ZooKeeper, Zuul and the configuration.
use mathlib.Core.Bool.{true≢false}
use sf_operator.Common.{
  String, ◌≡◌, ◌≢◌, refl, sym, ◌∙◌, Bool, true, false, ◌||◌, not, List, [], ◌∷◌, arith, eq_iff,
  ◌==◌, if◌then◌else◌, Bool-cases, inl, inr,
}
use sf_operator.Common.Assoc.{Assoc, insert, lookup, lookup-insert, map_laws}
use sf_operator.Kube.Exec.{Exec, ret, pure, ◌>>=◌, >>=-eq-ret}
use sf_operator.Reconcile.Services.{
  service_ready, is_operator_ready, names_of, is_operator_ready-lookup,
}
use sf_operator.Reconcile.Steps.{
  Parts, Services, insert_all, deploy_zuul_and_nodepool, deploy_zk_and_zuul_and_nodepool, configure,
  refresh, config_ready,
}
use sf_operator.Reconcile.Picks.{
  ret_eq, state_eq, picked_then, picked_else, service_ready-insert, not_or_left, not_or_right,
  no_false,
}

-- The call answers true, and takes one state to the other.
abbrev pub HasSucceeded : {W : Type 0} → Exec W Bool → W → W → Type 0
HasSucceeded m w w' = m w ≡ (ret true, w')

module _ {W : Type 0} (parts : Parts W) where
  open parts use {
    deploy_zookeeper, deploy_nodepool, deploy_zuul, setup_config_job, deploy_logserver,
  }

  -- Config is not ready.
  unready-config :
      (services : Services) → is_operator_ready (insert "Config" false services) ≡ false
  unready-config services =
      is_operator_ready-lookup (insert "Config" false services) "Config"
        (lookup-insert "Config" "Config" false services)

  configure_waits :
      (services : Services) (w : W) {final : Services} {w' : W}
      → (not (service_ready "Zuul" services) || not (service_ready "Logserver" services)) ≡ true
      → configure parts services w ≡ (ret final, w')
      → is_operator_ready final ≡ false
  unfolding configure
  configure_waits services w b h =
      let e : insert "Config" false services ≡ _ = ret_eq (rw b at h) in
      rw (← e) (unready-config services)

  configure_continues :
      (services : Services) (w : W) {final : Services} {w' : W}
      → (not (service_ready "Zuul" services) || not (service_ready "Logserver" services)) ≡ false
      → configure parts services w ≡ (ret final, w')
      → (config : Bool) × (v : W) × (setup_config_job w ≡ (ret config, v))
        × (insert "Config" config services ≡ final)
  unfolding configure
  configure_continues services w b h =
      let (config, v, first, last) = >>=-eq-ret setup_config_job _ w (rw b at h) in
      (config, v, first, inserted config v last)
    where
      inserted :
          (config : Bool) (v : W) {final : Services} {w' : W}
          → ((if config then refresh parts config_ready else pure tt) >>= λ _.
                pure (insert "Config" config services))
              v
            ≡ (ret final, w')
          → insert "Config" config services ≡ final
      inserted true v h = ret_eq h
      inserted false v h = ret_eq h

  pub configure-ready :
      (services : Services) (w : W) {final : Services} {w' : W}
      → configure parts services w ≡ (ret final, w')
      → is_operator_ready final ≡ true
      → (service_ready "Zuul" services ≡ true)
        × (service_ready "Logserver" services ≡ true)
        × ((v : W) × HasSucceeded setup_config_job w v)
        × (final ≡ insert "Config" true services)
  configure-ready services w {final = final} h ok =
      elim (Bool-cases
        (not (service_ready "Zuul" services) || not (service_ready "Logserver" services))) [
          | inl b ↦ absurd (true≢false (sym ok ∙ configure_waits services w b h))
          | inr b ↦
              let (config, v, called, e) = configure_continues services w b h in
              let done : config ≡ true =
                no_false final "Config" ok
                  (rw (← e) (lookup-insert "Config" "Config" config services)) in
              (ground arith, ground arith, (v, rw done at called), rw done at (sym e))
        ]

  -- DeployNodepool and then DeployZuul take one state to the other, and the latter reports that Zuul
  -- is ready.
  abbrev pub HasDeployedZuul : W → W → Type 0
  HasDeployedZuul w w' =
      (nodepool : Assoc Bool) × (v : W) × (status : Assoc Bool) × (deploy_nodepool w
        ≡ (ret nodepool, v))
      × (deploy_zuul v ≡ (ret status, w'))
      × (service_ready "Zuul" status ≡ true)

  -- The entries that deploy_zuul_and_nodepool leaves as they are.
  abbrev pub Keeps : Services → Services → Type 0
  Keeps services final =
      (lookup "Gateway" final ≡ lookup "Gateway" services)
      × (lookup "LogJuicer" final ≡ lookup "LogJuicer" services)
      × (lookup "Logserver" final ≡ lookup "Logserver" services)

  unready-insert_all :
      (status : Assoc Bool) (keys : List String) (services : Services)
      → service_ready "Zuul" status ≡ false
      → service_ready "Zuul" services ≡ false
      → service_ready "Zuul" (insert_all status keys services) ≡ false
  unfolding insert_all
  unready-insert_all status [] services z s = s
  unready-insert_all status (key ∷ keys) services z s =
      unready-insert_all status keys (insert key (service_ready key status) services) z (
        ground
          (arith, eq_iff key "Zuul", lookup-insert key "Zuul" (service_ready key status) services))

  abbrev with_zuul : Services → Assoc Bool → Assoc Bool → Services
  with_zuul services nodepool status = insert "Zuul" (service_ready "Zuul" status) (
      insert "NodePoolBuilder" (service_ready "nodepool-builder" nodepool)
        (insert "NodePoolLauncher" (service_ready "nodepool-launcher" nodepool) services))

  with_zuul-Keeps :
      (services : Services) (nodepool status : Assoc Bool)
      → Keeps services (with_zuul services nodepool status)
  with_zuul-Keeps services nodepool status = (simp map_laws, simp map_laws, simp map_laws)

  with_zuul-ready :
      (services : Services) (nodepool status : Assoc Bool)
      → service_ready "Zuul" (with_zuul services nodepool status) ≡ service_ready "Zuul" status
  with_zuul-ready services nodepool status =
      service_ready-insert "Zuul" (service_ready "Zuul" status) _

  zuul_final :
      (services : Services) (nodepool status : Assoc Bool) (v : W) {final : Services} {w' : W}
      → pure {W = W}
          (if service_ready "Zuul" status
            then with_zuul services nodepool status
            else insert_all status (names_of status) (with_zuul services nodepool status))
          v
        ≡ (ret final, w')
      → service_ready "Zuul" final ≡ true
      → (service_ready "Zuul" status ≡ true) × Keeps services final
  zuul_final services nodepool status v h ok = elim (Bool-cases (service_ready "Zuul" status)) [
    | inl z ↦ (
      z,
      rw (← picked_then (service_ready "Zuul" status) _ _ h z)
          (with_zuul-Keeps services nodepool status),
    )
    | inr z ↦ absurd (
        true≢false (
          sym ok
          ∙ rw (← picked_else (service_ready "Zuul" status) _ _ h z) (
              unready-insert_all status (names_of status) (with_zuul services nodepool status) z
                (with_zuul-ready services nodepool status ∙ z))))
  ]

  zuul-ready :
      (services : Services) (w : W) {final : Services} {w' : W}
      → deploy_zuul_and_nodepool parts services w ≡ (ret final, w')
      → service_ready "Zuul" final ≡ true
      → HasDeployedZuul w w' × Keeps services final
  unfolding deploy_zuul_and_nodepool
  zuul-ready services w h ok =
      let (nodepool, v, first, next) = >>=-eq-ret (parts.deploy_nodepool) _ w h in
      let (status, v', second, last) = >>=-eq-ret deploy_zuul _ v next in
      let (z, keeps) = zuul_final services nodepool status v' last ok in
      ((nodepool, v, status, first, rw (state_eq last) at second, z), keeps)

  -- The map once Zookeeper is recorded.
  abbrev with_zk : Bool → Services → Services
  with_zk zookeeper services = insert "Zookeeper" zookeeper services

  with_zk-lookup :
      (name : String) (b : Bool) (services : Services)
      → ("Zookeeper" == name) ≡ false
      → lookup name (with_zk b services) ≡ lookup name services
  with_zk-lookup name b services other = ground (arith, lookup-insert "Zookeeper" name b services)

  with_zk-Keeps :
      (services final : Services) → Keeps (with_zk true services) final → Keeps services final
  with_zk-Keeps services final (g, j, l) = (
    g ∙ with_zk-lookup "Gateway" true services refl,
    j ∙ with_zk-lookup "LogJuicer" true services refl,
    l ∙ with_zk-lookup "Logserver" true services refl,
  )

  with_zk-ready :
      (name : String) (b : Bool) (services : Services)
      → ("Zookeeper" == name) ≡ false
      → service_ready name (with_zk b services) ≡ service_ready name services
  with_zk-ready name b services other =
      rw (with_zk-lookup name b services other, service_ready) refl

  still_absent :
      (b : Bool) (services : Services) {final : Services}
      → with_zk b services ≡ final
      → service_ready "Zuul" services ≡ false
      → service_ready "Zuul" final ≢ true
  still_absent b services e absent ok =
      true≢false (sym ok ∙ rw (← e) (with_zk-ready "Zuul" b services refl ∙ absent))

  abbrev pub IsZkReady : W → W → Services → Services → Type 0
  IsZkReady w w' services final =
      HasDeployedZuul w w'
      × (service_ready "GitServer" services ≡ true)
      × (service_ready "MariaDB" services ≡ true)
      × Keeps services final

  zk_up :
      (services : Services) (v : W) {final : Services} {w' : W}
      → (if not (service_ready "GitServer" (with_zk true services))
              || not (service_ready "MariaDB" (with_zk true services))
            then pure (with_zk true services)
            else deploy_zuul_and_nodepool parts (with_zk true services))
          v
        ≡ (ret final, w')
      → service_ready "Zuul" services ≡ false
      → service_ready "Zuul" final ≡ true
      → IsZkReady v w' services final
  zk_up services v {final = final} h absent ok =
      elim (Bool-cases (
        not (service_ready "GitServer" (with_zk true services))
        || not (service_ready "MariaDB" (with_zk true services)))) [
          | inl b ↦ absurd (still_absent true services (ret_eq (rw b at h)) absent ok)
          | inr b ↦
              let (deployed, keeps) = zuul-ready (with_zk true services) v (rw b at h) ok in
              (
                deployed,
                sym (with_zk-ready "GitServer" true services refl) ∙ not_or_left _ _ b,
                sym (with_zk-ready "MariaDB" true services refl) ∙ not_or_right _ _ b,
                with_zk-Keeps services final keeps,
              )
        ]

  pub zk-ready :
      (services : Services) (w : W) {final : Services} {w' : W}
      → deploy_zk_and_zuul_and_nodepool parts services w ≡ (ret final, w')
      → service_ready "Zuul" services ≡ false
      → service_ready "Zuul" final ≡ true
      → (v : W) × HasSucceeded deploy_zookeeper w v × IsZkReady v w' services final
  unfolding deploy_zk_and_zuul_and_nodepool
  zk-ready services w h absent ok =
      let (zookeeper, v, first, next) = >>=-eq-ret deploy_zookeeper _ w h in
      elim (Bool-cases zookeeper) [
        | inr down ↦ absurd (still_absent false services (ret_eq (rw down at next)) absent ok)
        | inl up ↦ (v, rw up at first, zk_up services v (rw up at next) absent ok)
      ]
