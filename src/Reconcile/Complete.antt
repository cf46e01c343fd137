-- ===== src/Reconcile/Complete.antt =====
-- deploySFStep where every part answers that it is ready.
use sf_operator.Common.{◌≡◌, refl, Bool, true, false, [], ◌∷◌, if◌then◌else◌}
use sf_operator.Common.Assoc.{Assoc, insert, lookup}
use sf_operator.Api.{CodesearchSpec}
use sf_operator.Kube.Exec.{Exec, ret, pure, ◌>>=◌, ◌>>◌}
use sf_operator.Reconcile.Services.{service_ready, is_operator_ready}
use sf_operator.Reconcile.Steps.{
  Parts, Services, is_codesearch_enabled, deploy_companions, deploy_zuul_and_nodepool,
  deploy_zk_and_zuul_and_nodepool, configure, deploy_sf_step,
}

-- The call returns that value from the state.
abbrev pub Returns : {W A : Type 0} → Exec W A → W → A → Type 0
Returns {W = W} m w a = (v : W) × (m w ≡ (ret a, v))

abbrev pub AlwaysReturns : {W A : Type 0} → Exec W A → A → Type 0
AlwaysReturns {W = W} m a = (w : W) → Returns m w a

Returns-bind :
    {W A B : Type 0} (m : Exec W A) (f : A → Exec W B) (w : W) {a : A} {b : B}
    → Returns m w a
    → AlwaysReturns (f a) b
    → Returns (m >>= f) w b
Returns-bind m f w (v, e) next = let (u, d) = next v in (u, rw e d)

-- Every part returns, and is ready.
pub record IsAllReady {W : Type 0} (parts : Parts W) : Type 0 where
  pub zuul_secrets : AlwaysReturns (parts.deploy_zuul_secrets) tt
  pub tooling : AlwaysReturns (parts.ensure_tooling_volume) tt
  pub git_server : AlwaysReturns (parts.deploy_git_server) true
  pub mariadb : AlwaysReturns (parts.deploy_mariadb) true
  pub logserver : AlwaysReturns (parts.deploy_logserver) true
  pub gateway : AlwaysReturns (parts.deploy_httpd_gateway) true
  pub hound_search : AlwaysReturns (parts.deploy_hound_search) true
  pub terminate : AlwaysReturns (parts.terminate_hound_search) tt
  pub log_juicer : AlwaysReturns (parts.ensure_log_juicer) true
  pub zookeeper : AlwaysReturns (parts.deploy_zookeeper) true
  pub nodepool :
      AlwaysReturns
        (parts.deploy_nodepool)
        (("nodepool-launcher", true) ∷ ("nodepool-builder", true) ∷ [])
  pub zuul :
      (w : W)
      → (status : Assoc Bool) × Returns (parts.deploy_zuul) w status
        × (service_ready "Zuul" status ≡ true)
  pub config : AlwaysReturns (parts.setup_config_job) true

abbrev base_ready : Services
base_ready =
    insert "Gateway" true
      (insert "Logserver" true (insert "MariaDB" true (insert "GitServer" true [])))

module _ {W : Type 0} (parts : Parts W) (ready : IsAllReady parts) where
  abbrev companions : Bool → Services
  companions searching =
      insert "LogJuicer" true
        (if searching then insert "HoundSearch" true base_ready else base_ready)

  abbrev search : Bool → Exec W Services
  search searching =
      if searching
      then (parts.deploy_hound_search >>= λ hound_search.
          pure (insert "HoundSearch" hound_search base_ready))
      else parts.terminate_hound_search >> pure base_ready

  search_ready :
      (searching : Bool)
      → AlwaysReturns
          (search searching)
          (if searching then insert "HoundSearch" true base_ready else base_ready)
  search_ready true w =
      Returns-bind parts.deploy_hound_search _ w (ready.hound_search w) (λ v. (v, refl))
  search_ready false w =
      Returns-bind parts.terminate_hound_search _ w (ready.terminate w) (λ v. (v, refl))

  companions_ready :
      (codesearch : CodesearchSpec)
      → AlwaysReturns
          (deploy_companions parts codesearch [])
          (companions (is_codesearch_enabled codesearch))
  unfolding deploy_companions
  companions_ready codesearch w =
      Returns-bind parts.deploy_zuul_secrets _ w (ready.zuul_secrets w) (λ w0.
        Returns-bind parts.ensure_tooling_volume _ w0 (ready.tooling w0) (λ w1.
          Returns-bind parts.deploy_git_server _ w1 (ready.git_server w1) (λ w2.
            Returns-bind parts.deploy_mariadb _ w2 (ready.mariadb w2) (λ w3.
              Returns-bind parts.deploy_logserver _ w3 (ready.logserver w3) (λ w4.
                Returns-bind parts.deploy_httpd_gateway _ w4 (ready.gateway w4) (λ w5.
                  Returns-bind (search (is_codesearch_enabled codesearch))
                    (λ found.
                      parts.ensure_log_juicer >>= λ juicer. pure (insert "LogJuicer" juicer found))
                    w5 (search_ready (is_codesearch_enabled codesearch) w5)
                    (λ w6.
                      Returns-bind parts.ensure_log_juicer
                        (λ juicer. pure (
                          insert "LogJuicer" juicer (
                            if is_codesearch_enabled codesearch
                            then insert "HoundSearch" true base_ready
                            else base_ready)))
                        w6 (ready.log_juicer w6) (λ w7. (w7, refl)))))))))

  abbrev nodepool_status : Assoc Bool
  nodepool_status = ("nodepool-launcher", true) ∷ ("nodepool-builder", true) ∷ []

  -- The map with the services that need ZooKeeper.
  abbrev with_backing : Services → Services
  with_backing services = insert "Zuul" true (
      insert "NodePoolBuilder" true
        (insert "NodePoolLauncher" true (insert "Zookeeper" true services)))

  backing_ready :
      (searching : Bool)
      → AlwaysReturns
          (deploy_zk_and_zuul_and_nodepool parts (companions searching))
          (with_backing (companions searching))
  unfolding deploy_zk_and_zuul_and_nodepool deploy_zuul_and_nodepool insert lookup
  backing_ready true w = Returns-bind parts.deploy_zookeeper _ w (ready.zookeeper w) (λ w1.
      Returns-bind parts.deploy_nodepool _ w1 (ready.nodepool w1) (λ w2.
        let (status, run, ok) = ready.zuul w2 in
        Returns-bind parts.deploy_zuul _ w2 run (λ w3. (w3, rw ok refl))))
  backing_ready false w = Returns-bind parts.deploy_zookeeper _ w (ready.zookeeper w) (λ w1.
      Returns-bind parts.deploy_nodepool _ w1 (ready.nodepool w1) (λ w2.
        let (status, run, ok) = ready.zuul w2 in
        Returns-bind parts.deploy_zuul _ w2 run (λ w3. (w3, rw ok refl))))

  configure_ready :
      (searching : Bool)
      → AlwaysReturns
          (configure parts (with_backing (companions searching)))
          (insert "Config" true (with_backing (companions searching)))
  unfolding configure insert lookup
  configure_ready true w =
      Returns-bind parts.setup_config_job _ w (ready.config w) (λ w1. (_, refl))
  configure_ready false w =
      Returns-bind parts.setup_config_job _ w (ready.config w) (λ w1. (_, refl))

  all_ready :
      (searching : Bool)
      → is_operator_ready (insert "Config" true (with_backing (companions searching))) ≡ true
  unfolding is_operator_ready insert
  all_ready true = refl
  all_ready false = refl

  -- If every part returns from every state and answers that it is ready, DeployNodepool by a map of
  -- its two deployments and DeployZuul by a map in which Zuul is ready, whatever else is in it, then
  -- deploySFStep returns, and every service of its map is ready, with code search or without.
  pub deploy_sf_step_complete :
      (codesearch : CodesearchSpec) (w : W)
      → (services : Services) × (v : W) × (deploy_sf_step parts codesearch [] w ≡ (ret services, v))
        × (is_operator_ready services ≡ true)
  unfolding deploy_sf_step
  deploy_sf_step_complete codesearch w =
      let searching = is_codesearch_enabled codesearch in
      let (v, e) : Returns (deploy_sf_step parts codesearch []) w
          (insert "Config" true (with_backing (companions searching))) =
        Returns-bind (deploy_companions parts codesearch []) _ w (companions_ready codesearch w)
          (λ w1.
            Returns-bind (deploy_zk_and_zuul_and_nodepool parts (companions searching))
              (configure parts) w1 (backing_ready searching w1) (configure_ready searching)) in
      (insert "Config" true (with_backing (companions searching)), v, e, all_ready searching)
