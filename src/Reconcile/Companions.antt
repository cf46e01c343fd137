-- ===== src/Reconcile/Companions.antt =====
-- What deploySFStep does up to deployZKAndZuulAndNodepool.
use sf_operator.Common.{
  String, ◌≡◌, ◌≢◌, refl, sym, ◌∙◌, Bool, true, false, Option, none, some, [], ◌==◌, if◌then◌else◌,
}
use sf_operator.Common.Assoc.{insert, lookup, lookup-insert, map_laws}
use sf_operator.Api.{CodesearchSpec}
use sf_operator.Kube.Exec.{Exec, ret, pure, ◌>>=◌, ◌>>◌, >>=-eq-ret}
use sf_operator.Reconcile.Services.{service_ready}
use sf_operator.Reconcile.Steps.{Parts, Services, deploy_companions, is_codesearch_enabled}
use sf_operator.Reconcile.Picks.{ret_eq, state_eq}
use sf_operator.Reconcile.Backing.{HasSucceeded}

ready_at :
    (name : String) (services : Services) {b : Bool}
    → lookup name services ≡ some b
    → service_ready name services ≡ true
    → b ≡ true
ready_at name services h ok = sym (rw (h, service_ready) refl) ∙ ok

not_false : {o : Option Bool} {b : Bool} → o ≡ some b → o ≢ some false → b ≡ true
not_false {b = true} h n = refl
not_false {b = false} h n = absurd (n h)

module _ {W : Type 0} (parts : Parts W) where
  open parts use {
    deploy_zuul_secrets, ensure_tooling_volume, deploy_git_server, deploy_mariadb, deploy_logserver,
    deploy_httpd_gateway, ensure_log_juicer, deploy_zookeeper, setup_config_job,
  }

  abbrev base : Bool → Bool → Bool → Bool → Services
  base git_server mariadb logserver gateway =
      insert "Gateway" gateway
        (insert "Logserver" logserver (insert "MariaDB" mariadb (insert "GitServer" git_server [])))

  abbrev pub search_in : Bool → Services → Exec W Services
  search_in enabled services =
      if enabled
      then (parts.deploy_hound_search >>= λ hound_search.
          pure (insert "HoundSearch" hound_search services))
      else parts.terminate_hound_search >> pure services

  -- Code search adds its own entry at most.
  searching-lookup :
      (enabled : Bool) (services : Services) (w : W) {searching : Services} {w' : W}
      → search_in enabled services w ≡ (ret searching, w')
      → (name : String) → ("HoundSearch" == name) ≡ false
      → lookup name searching ≡ lookup name services
  searching-lookup true services w h name other =
      let (hound_search, v, first, last) = >>=-eq-ret parts.deploy_hound_search _ w h in
      rw (← ret_eq last) (lookup-insert "HoundSearch" name hound_search services ∙ rw other refl)
  searching-lookup false services w h name other =
      let (u, v, first, last) = >>=-eq-ret parts.terminate_hound_search _ w h in
      rw (← ret_eq last) refl

  -- The map of the companions, from what each of them answered.
  companions_map :
      (codesearch : CodesearchSpec) (git_server mariadb logserver gateway log_juicer : Bool)
      (searching services : Services) (w : W) {w' : W}
      → search_in (is_codesearch_enabled codesearch) (base git_server mariadb logserver gateway) w
        ≡ (ret searching, w')
      → insert "LogJuicer" log_juicer searching ≡ services
      → (lookup "Zuul" services ≡ none)
        × (lookup "GitServer" services ≡ some git_server)
        × (lookup "MariaDB" services ≡ some mariadb)
        × (lookup "Logserver" services ≡ some logserver)
        × (lookup "Gateway" services ≡ some gateway)
        × (lookup "LogJuicer" services ≡ some log_juicer)
  unfolding lookup
  companions_map codesearch git_server mariadb logserver gateway log_juicer searching services w h
        e =
      let known = searching-lookup (is_codesearch_enabled codesearch) _ w h in
      (
        rw (← e) (simp (map_laws, known "Zuul" refl, lookup)),
        rw (← e) (simp (map_laws, known "GitServer" refl)),
        rw (← e) (simp (map_laws, known "MariaDB" refl)),
        rw (← e) (simp (map_laws, known "Logserver" refl)),
        rw (← e) (simp (map_laws, known "Gateway" refl)),
        rw (← e) (simp (map_laws)),
      )

  -- What the companions answered, on the way from `w` to `w'`.
  pub record Reported (codesearch : CodesearchSpec) (services : Services) (w w' : W) : Type 0 where
    pub w0 : W
    pub w1 : W
    pub w2 : W
    pub w3 : W
    pub w4 : W
    pub w5 : W
    pub w6 : W
    pub base_services : Services
    pub searching : Services
    pub zuul_secrets : deploy_zuul_secrets w ≡ (ret tt, w0)
    pub tooling : ensure_tooling_volume w0 ≡ (ret tt, w1)
    pub no_zuul : service_ready "Zuul" services ≡ false
    pub git_server :
        service_ready "GitServer" services ≡ true → HasSucceeded deploy_git_server w1 w2
    pub mariadb : service_ready "MariaDB" services ≡ true → HasSucceeded deploy_mariadb w2 w3
    pub logserver : service_ready "Logserver" services ≡ true → HasSucceeded deploy_logserver w3 w4
    pub gateway : lookup "Gateway" services ≢ some false → HasSucceeded deploy_httpd_gateway w4 w5
    pub search : search_in (is_codesearch_enabled codesearch) base_services w5 ≡ (ret searching, w6)
    pub log_juicer : lookup "LogJuicer" services ≢ some false → HasSucceeded ensure_log_juicer w6 w'

  pub companions-Reported :
      (codesearch : CodesearchSpec) (w : W) {services : Services} {w' : W}
      → deploy_companions parts codesearch [] w ≡ (ret services, w')
      → Reported codesearch services w w'
  unfolding deploy_companions
  companions-Reported codesearch w h =
      let (u0, w0, e0, h0) = >>=-eq-ret deploy_zuul_secrets _ w h in
      let (u1, w1, e1, h1) = >>=-eq-ret ensure_tooling_volume _ w0 h0 in
      let (git_server, w2, e2, h2) = >>=-eq-ret deploy_git_server _ w1 h1 in
      let (mariadb, w3, e3, h3) = >>=-eq-ret deploy_mariadb _ w2 h2 in
      let (logserver, w4, e4, h4) = >>=-eq-ret deploy_logserver _ w3 h3 in
      let (gateway, w5, e5, h5) = >>=-eq-ret deploy_httpd_gateway _ w4 h4 in
      let companions = base git_server mariadb logserver gateway in
      let (searching, w6, e6, h6) =
        >>=-eq-ret (search_in (is_codesearch_enabled codesearch) companions) _ w5 h5 in
      let (log_juicer, w7, e7, h7) = >>=-eq-ret ensure_log_juicer _ w6 h6 in
      let (z, g, m, l, gw, j) =
        companions_map codesearch git_server mariadb logserver gateway log_juicer searching _ w5 e6
          (ret_eq h7) in
      record {
        w0 = w0;
        w1 = w1;
        w2 = w2;
        w3 = w3;
        w4 = w4;
        w5 = w5;
        w6 = w6;
        base_services = companions;
        searching = searching;
        zuul_secrets = e0;
        tooling = e1;
        no_zuul = rw (z, service_ready) refl;
        git_server = λ ok. rw (ready_at "GitServer" _ g ok) at e2;
        mariadb = λ ok. rw (ready_at "MariaDB" _ m ok) at e3;
        logserver = λ ok. rw (ready_at "Logserver" _ l ok) at e4;
        gateway = λ ok. rw (not_false gw ok) at e5;
        search = e6;
        log_juicer = λ ok. rw (not_false j ok, state_eq h7) at e7;
      }
