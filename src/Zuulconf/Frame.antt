-- ===== src/Zuulconf/Frame.antt =====
-- What follows the connections in EnsureZuulConfigSecret leaves the sections of the connections.
use Prim.Native.String.{◌++◌}
use sf_operator.Common.{
  String, ◌≡◌, refl, ◌∙◌, Bool, true, false, Option, none, some, List, [], ◌∷◌, arith, ◌==◌, eq_iff,
  All,
}
use sf_operator.Common.Int.{pos}
use sf_operator.Common.Decimal.{decimal}
use sf_operator.Api.{ZuulOidcAuthenticatorSpec, ZuulSpec}
use sf_operator.Connections.Controller.{SfController}
use sf_operator.Zuulconf.Ini.{
  Ini, IsLawful, Settings, value, set_keys, are_named, value-set_keys, value-new_key,
}
use sf_operator.Zuulconf.Sections.{
  connection, authentication, add_section, oidc_settings, add_oidc_authenticator, git_settings,
  add_git_connection, add_default_connections, add_web_client_section,
}
use sf_operator.Zuulconf.Names.{first, connection-eq, connection-ne, connection-ne-authentication}
use sf_operator.Zuulconf.Edits.{add_section-IsChanged}
use sf_operator.Zuulconf.Config.{
  add_authenticators, set_default_auth, set_prometheus, scheduler_settings, executor_settings,
  merger_settings, set_services, git_server_url, default_auth, set_defaults,
}

module _ {F : Type 0} (ini : Ini F) (laws : IsLawful ini) (name : String) where
  abbrev pub at : String → F → Option String
  at key cfg = value ini (connection name) key cfg

  -- The section of the connection is as before.
  abbrev pub IsLeft : (F → F) → Type 0
  IsLeft step = (key : String) (cfg : F) → at key (step cfg) ≡ at key cfg

  pub set_keys-IsLeft :
      (section : String) (settings : Settings)
      → (connection name == section) ≡ false
      → are_named settings ≡ true
      → IsLeft (set_keys ini section settings)
  set_keys-IsLeft section settings n h key cfg = ground (
    arith,
    eq_iff (connection name) section,
    eq_iff section (connection name),
    value-set_keys ini laws section settings (connection name) key cfg h,
  )

  pub new_key-IsLeft :
      (section key text : String)
      → (connection name == section) ≡ false
      → (key == "") ≡ false
      → IsLeft (ini.new_key section key text)
  new_key-IsLeft section key text n h other cfg = ground (
    arith,
    eq_iff (connection name) section,
    eq_iff section (connection name),
    value-new_key ini laws section key text (connection name) other cfg h,
  )

  add_section-IsLeft :
      (section : String) (settings : Settings)
      → (connection name == section) ≡ false
      → are_named settings ≡ true
      → IsLeft (add_section ini section settings)
  add_section-IsLeft section settings n h key cfg = ground (
    arith,
    eq_iff (connection name) section,
    eq_iff section (connection name),
    add_section-IsChanged ini laws section settings cfg h (connection name) key,
  )

  add_git_connection-IsLeft :
      (other url : String)
      → (name == other) ≡ false
      → IsLeft (add_git_connection ini other url (pos 0))
  unfolding add_git_connection are_named
  add_git_connection-IsLeft other url n =
      add_section-IsLeft (connection other) (git_settings url (pos 0))
        (connection-eq name other ∙ n) refl

  add_default_connections-IsLeft :
      (need_opendev : Bool) (url : String)
      → (name == "git-server") ≡ false
      → (need_opendev ≡ true → (name == "opendev.org") ≡ false)
      → IsLeft (add_default_connections ini need_opendev url)
  unfolding add_default_connections
  add_default_connections-IsLeft true url n o key cfg =
      add_git_connection-IsLeft "opendev.org" "https://opendev.org/" (o refl) key
        (add_git_connection ini "git-server" url (pos 0) cfg)
      ∙ add_git_connection-IsLeft "git-server" url n key cfg
  add_default_connections-IsLeft false url n o key cfg =
      add_git_connection-IsLeft "git-server" url n key cfg

  add_web_client_section-IsLeft : IsLeft (add_web_client_section ini)
  unfolding add_web_client_section are_named first
  add_web_client_section-IsLeft =
      add_section-IsLeft "webclient" (("url", some ("http://zuul-web:" ++ decimal 9000)) ∷ [])
        (connection-ne name "webclient" (λ e. ground arith)) refl

  add_oidc_authenticator-IsLeft :
      (a : ZuulOidcAuthenticatorSpec) → IsLeft (add_oidc_authenticator ini a)
  unfolding add_oidc_authenticator are_named
  add_oidc_authenticator-IsLeft a =
      add_section-IsLeft (authentication a.name) (oidc_settings a)
        (connection-ne-authentication name a.name) refl

  add_authenticators-IsLeft :
      (rest : List ZuulOidcAuthenticatorSpec) → IsLeft (add_authenticators ini rest)
  unfolding add_authenticators
  add_authenticators-IsLeft [] key cfg = refl
  add_authenticators-IsLeft (a ∷ rest) key cfg =
      add_authenticators-IsLeft rest key (add_oidc_authenticator ini a cfg)
      ∙ add_oidc_authenticator-IsLeft a key cfg

  set_default_auth-IsLeft : (auth : Option String) → IsLeft (set_default_auth ini auth)
  unfolding set_default_auth
  set_default_auth-IsLeft none key cfg = refl
  set_default_auth-IsLeft (some n) key cfg =
      new_key-IsLeft (authentication n) "default" "true" (connection-ne-authentication name n) refl
        key cfg

  IsLeft-then : (step next : F → F) → IsLeft step → IsLeft next → IsLeft (λ cfg. next (step cfg))
  IsLeft-then step next first second key cfg = second key (step cfg) ∙ first key cfg

  set_prometheus-IsLeft :
      (srvs : List String)
      → All (λ srv. (connection name == srv) ≡ false) srvs
      → IsLeft (set_prometheus ini srvs)
  unfolding set_prometheus
  set_prometheus-IsLeft [] h key cfg = refl
  set_prometheus-IsLeft (srv ∷ srvs) (h, hs) key cfg =
      set_prometheus-IsLeft srvs hs key (ini.new_key srv "prometheus_port" (decimal 9090) cfg)
      ∙ new_key-IsLeft srv "prometheus_port" (decimal 9090) h refl key cfg

  -- The sections of Zuul's services.
  pub ne_service :
      All
        (λ srv. (connection name == srv) ≡ false)
        ("web" ∷ "executor" ∷ "scheduler" ∷ "merger" ∷ [])
  unfolding first
  ne_service = (
    connection-ne name "web" (λ e. omega arith),
    (
      connection-ne name "executor" (λ e. omega arith),
      (
        connection-ne name "scheduler" (λ e. omega arith),
        (connection-ne name "merger" (λ e. omega arith), tt),
      ),
    ),
  )

  set_services-IsLeft : (fqdn : String) (zuul : ZuulSpec) → IsLeft (set_services ini fqdn zuul)
  unfolding set_services are_named
  set_services-IsLeft fqdn zuul =
      let (web, (executor, (scheduler, (merger, _)))) = ne_service in
      IsLeft-then _ (set_keys ini "merger" (merger_settings zuul))
        (IsLeft-then _ (ini.new_key "web" "root" ("https://" ++ (fqdn ++ "/zuul/")))
          (IsLeft-then _ (set_prometheus ini ("web" ∷ "executor" ∷ "scheduler" ∷ "merger" ∷ []))
            (IsLeft-then _ (set_keys ini "executor" (executor_settings zuul))
              (set_keys-IsLeft "scheduler" (scheduler_settings zuul) scheduler refl)
              (set_keys-IsLeft "executor" (executor_settings zuul) executor refl))
            (set_prometheus-IsLeft ("web" ∷ "executor" ∷ "scheduler" ∷ "merger" ∷ []) ne_service))
          (new_key-IsLeft "web" "root" ("https://" ++ (fqdn ++ "/zuul/")) web refl))
        (set_keys-IsLeft "merger" (merger_settings zuul) merger refl)

  pub set_defaults-IsLeft :
      (c : SfController)
      → (name == "git-server") ≡ false
      → (c.need_opendev ≡ true → (name == "opendev.org") ≡ false)
      → IsLeft (set_defaults ini c)
  unfolding set_defaults
  set_defaults-IsLeft c n o =
      let zuul = c.cr.spec.zuul in
      IsLeft-then _ (set_services ini c.cr.spec.fqdn zuul)
        (IsLeft-then _ (set_default_auth ini (default_auth zuul))
          (IsLeft-then _ (add_authenticators ini zuul.oidc_authenticators)
            (IsLeft-then _ (add_web_client_section ini)
              (add_default_connections-IsLeft c.need_opendev (git_server_url zuul) n o)
              add_web_client_section-IsLeft)
            (add_authenticators-IsLeft zuul.oidc_authenticators))
          (set_default_auth-IsLeft (default_auth zuul)))
        (set_services-IsLeft c.cr.spec.fqdn zuul)
