-- ===== src/Reconcile/Ready.antt =====
-- When deploySFStep reports that all is ready.
use mathlib.Core.Bool.{true≢false}
use sf_operator.Common.{String, ◌≡◌, ◌≢◌, refl, sym, ◌∙◌, true, false, some, [], ◌==◌}
use sf_operator.Common.Assoc.{insert, lookup, lookup-insert}
use sf_operator.Api.{CodesearchSpec}
use sf_operator.Kube.Exec.{ret, >>=-eq-ret}
use sf_operator.Reconcile.Services.{service_ready, is_operator_ready, is_operator_ready-lookup}
use sf_operator.Reconcile.Steps.{
  Parts, Services, deploy_companions, deploy_zk_and_zuul_and_nodepool, is_codesearch_enabled,
  deploy_sf_step,
}
use sf_operator.Reconcile.Backing.{HasSucceeded, HasDeployedZuul, configure-ready, zk-ready}
use sf_operator.Reconcile.Companions.{search_in, companions-Reported}

-- Next to the entry of the configuration, a map that is ready has no entry that is not.
entry_true :
    (name : String) (services deployed : Services)
    → services ≡ insert "Config" true deployed
    → ("Config" == name) ≡ false
    → is_operator_ready services ≡ true
    → lookup name deployed ≢ some false
entry_true name services deployed e other ok h = true≢false (
    sym ok
    ∙ is_operator_ready-lookup services name
        (rw e (lookup-insert "Config" name true deployed ∙ rw other h)))

module _ {W : Type 0} (parts : Parts W) where
  open parts use {
    deploy_zuul_secrets, ensure_tooling_volume, deploy_git_server, deploy_mariadb, deploy_logserver,
    deploy_httpd_gateway, ensure_log_juicer, deploy_zookeeper, setup_config_job,
  }

  -- The calls of a step that found all ready, each from the state that the one before it left.
  pub record ReadyRun (codesearch : CodesearchSpec) (w : W) : Type 0 where
    pub w0 : W
    pub w1 : W
    pub w2 : W
    pub w3 : W
    pub w4 : W
    pub w5 : W
    pub w6 : W
    pub w7 : W
    pub w8 : W
    pub w9 : W
    pub w10 : W
    pub base_services : Services
    pub searching : Services
    pub zuul_secrets : deploy_zuul_secrets w ≡ (ret tt, w0)
    pub tooling : ensure_tooling_volume w0 ≡ (ret tt, w1)
    pub git_server : HasSucceeded deploy_git_server w1 w2
    pub mariadb : HasSucceeded deploy_mariadb w2 w3
    pub logserver : HasSucceeded deploy_logserver w3 w4
    pub gateway : HasSucceeded deploy_httpd_gateway w4 w5
    pub search :
        search_in parts (is_codesearch_enabled codesearch) base_services w5 ≡ (ret searching, w6)
    pub log_juicer : HasSucceeded ensure_log_juicer w6 w7
    pub zookeeper : HasSucceeded deploy_zookeeper w7 w8
    pub zuul : HasDeployedZuul parts w8 w9
    pub config : HasSucceeded setup_config_job w9 w10

  -- If deploySFStep returns, on an empty map as Step calls it, and every service of its map is ready,
  -- then it made these calls, each from the state that the one before left: the secrets of Zuul and
  -- the tooling volume; the git server, MariaDB, the log server and the gateway, each of which
  -- answered that it is ready; code search, or its removal; LogJuicer and ZooKeeper, which answered
  -- that they are ready; Nodepool; DeployZuul, which reported that Zuul is ready; and the
  -- configuration job, which answered that it is.
  pub deploy_sf_step_ready :
      (codesearch : CodesearchSpec) (w : W) {services : Services} {w' : W}
      → deploy_sf_step parts codesearch [] w ≡ (ret services, w')
      → is_operator_ready services ≡ true
      → ReadyRun codesearch w
  unfolding deploy_sf_step
  deploy_sf_step_ready codesearch w {services = services} h ok =
      let (companions, w7, first, next) =
        >>=-eq-ret (deploy_companions parts codesearch []) _ w h in
      let (deployed, w9, second, last) =
        >>=-eq-ret (deploy_zk_and_zuul_and_nodepool parts companions) _ w7 next in
      let said = companions-Reported parts codesearch w first in
      let (zuul, logserver, (w10, config), e) = configure-ready parts deployed w9 last ok in
      let (w8, zookeeper, (by_zuul, git_server, mariadb, keeps)) =
        zk-ready parts companions w7 second (said.no_zuul) zuul in
      record {
        w0 = said.w0;
        w1 = said.w1;
        w2 = said.w2;
        w3 = said.w3;
        w4 = said.w4;
        w5 = said.w5;
        w6 = said.w6;
        w7 = w7;
        w8 = w8;
        w9 = w9;
        w10 = w10;
        base_services = said.base_services;
        searching = said.searching;
        zuul_secrets = said.zuul_secrets;
        tooling = said.tooling;
        git_server = said.git_server git_server;
        mariadb = said.mariadb mariadb;
        logserver = said.logserver (rw (← keeps.2, service_ready) logserver);
        gateway =
            said.gateway
              (λ down. entry_true "Gateway" services deployed e refl ok (keeps.0 ∙ down));
        search = said.search;
        log_juicer =
            said.log_juicer
              (λ down. entry_true "LogJuicer" services deployed e refl ok (keeps.1 ∙ down));
        zookeeper = zookeeper;
        zuul = by_zuul;
        config = config;
      }
