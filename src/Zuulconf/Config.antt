-- ===== src/Zuulconf/Config.antt =====
-- EnsureZuulConfigSecret: the secret zuul-config, with the file zuul.conf.
use Prim.Native.String.{◌++◌}
use Prim.Native.Char.{code}
use sf_operator.Common.{
  ℕ, String, Bool, true, false, not, Option, none, some, List, [], ◌∷◌, if◌then◌else◌, eqb,
}
use sf_operator.Common.Decimal.{decimal, itoa}
use sf_operator.Common.Int.{ℤ, pos, negsuc, eq_int, geq_int, is_above_zero}
use sf_operator.Api.{StandaloneZuulExecutorSpec, ZuulOidcAuthenticatorSpec, ZuulSpec}
use sf_operator.Connections.Controller.{SfController}
use sf_operator.Zuulconf.Ini.{Ini, Settings, set_keys}
use sf_operator.Zuulconf.Sections.{
  unless_empty, when_set, authentication, add_oidc_authenticator, add_web_client_section,
  add_default_connections,
}

-- strings.TrimSuffix(text, ",")
unfoldable pub trim_comma : String → String
trim_comma String.[] = ""
trim_comma (String.◌∷◌ c String.[]) = if eqb (code c) b',' then "" else String.◌∷◌ c String.[]
trim_comma (String.◌∷◌ c (String.◌∷◌ d s)) = String.◌∷◌ c (trim_comma (String.◌∷◌ d s))

unfoldable pub public_hosts : List String → String → String
public_hosts [] zk_host = zk_host
public_hosts (h ∷ hosts) zk_host = public_hosts hosts (zk_host ++ (h ++ ":2281,"))

-- The hosts of ZooKeeper, which has one replica.
unfoldable pub zookeeper_hosts : Option StandaloneZuulExecutorSpec → String → String
unfolding trim_comma public_hosts
zookeeper_hosts standalone ns = trim_comma (elim standalone [
  | some s ↦ elim s.control_plane_public_zk_hostnames [
    | some hosts ↦ public_hosts hosts ""
    | none ↦ s.control_plane_public_zk_hostname ++ ":2281"
  ]
  | none ↦ "zookeeper-0.zookeeper-headless." ++ (ns ++ ":2281,")
])

abbrev pub is_set : {A : Type 0} → Option A → Bool
is_set o = elim o [ none ↦ false | some _ ↦ true ]

abbrev pub show_count : Option ℕ → Option String
show_count o = elim o [ none ↦ none | some n ↦ some (decimal n) ]

abbrev pub at_least : ℤ → ℤ → ℤ
at_least least n = if geq_int n least then n else least

abbrev pub zone_of : Option StandaloneZuulExecutorSpec → Option String
zone_of standalone = elim standalone [ none ↦ none | some s ↦ unless_empty s.zone ]

abbrev pub host_of : Option StandaloneZuulExecutorSpec → Option String
host_of standalone = elim standalone [ none ↦ none | some s ↦ unless_empty s.public_host_name ]

-- The authenticator that is the default: the only one, or else the one that is named.
unfoldable pub default_auth : ZuulSpec → Option String
default_auth zuul = elim zuul.oidc_authenticators [
  | [] ↦ unless_empty zuul.default_authenticator
  | a ∷ more ↦ elim more [ [] ↦ some a.name | _ ∷ _ ↦ unless_empty zuul.default_authenticator ]
]

unfoldable pub git_server_url : ZuulSpec → String
git_server_url zuul = elim zuul.executor.standalone [
  | none ↦ "git://git-server/"
  | some s ↦ "git://" ++ (s.control_plane_public_gs_hostname ++ "/")
]

abbrev pub scheduler_settings : ZuulSpec → Settings
scheduler_settings zuul =
    ("default_hold_expiration", show_count zuul.scheduler.default_hold_expiration)
    ∷ ("max_hold_expiration", show_count zuul.scheduler.max_hold_expiration)
    ∷ []

abbrev pub executor_settings : ZuulSpec → Settings
executor_settings zuul =
    (
      "disk_limit_per_job",
      when_set (not (eq_int zuul.executor.disk_limit_per_job (pos 0)))
          (itoa (at_least (negsuc 0) zuul.executor.disk_limit_per_job)),
    )
    ∷ (
      "ansible_setup_timeout",
      when_set (not (eq_int zuul.executor.ansible_setup_timeout (pos 0)))
          (itoa zuul.executor.ansible_setup_timeout),
    )
    ∷ ("zone", zone_of zuul.executor.standalone)
    ∷ []

abbrev pub merger_settings : ZuulSpec → Settings
merger_settings zuul =
    ("git_user_name", unless_empty zuul.merger.git_user_name)
    ∷ ("git_user_email", unless_empty zuul.merger.git_user_email)
    ∷ (
      "git_http_low_speed_limit",
      when_set (geq_int zuul.merger.git_http_low_speed_limit (pos 0))
          (itoa zuul.merger.git_http_low_speed_limit),
    )
    ∷ (
      "git_http_low_speed_time",
      when_set (geq_int zuul.merger.git_http_low_speed_time (pos 0))
          (itoa zuul.merger.git_http_low_speed_time),
    )
    ∷ (
      "git_timeout",
      when_set (is_above_zero zuul.merger.git_timeout) (itoa zuul.merger.git_timeout),
    )
    ∷ []

module _ {F : Type 0} (ini : Ini F) where
  open ini use {new_key}

  unfoldable pub add_authenticators : List ZuulOidcAuthenticatorSpec → F → F
  unfolding add_oidc_authenticator
  add_authenticators [] cfg = cfg
  add_authenticators (a ∷ rest) cfg = add_authenticators rest (add_oidc_authenticator ini a cfg)

  unfoldable pub set_default_auth : Option String → F → F
  set_default_auth name cfg = elim name [
    | none ↦ cfg
    | some n ↦ new_key (authentication n) "default" "true" cfg
  ]

  -- Enable prometheus metrics.
  unfoldable pub set_prometheus : List String → F → F
  set_prometheus [] cfg = cfg
  set_prometheus (srv ∷ rest) cfg =
      set_prometheus rest (new_key srv "prometheus_port" (decimal 9090) cfg)

  -- The settings of Zuul's services.
  unfoldable pub set_services : String → ZuulSpec → F → F
  unfolding set_keys set_prometheus
  set_services fqdn zuul cfg =
      let scheduled = set_keys ini "scheduler" (scheduler_settings zuul) cfg in
      let executed = set_keys ini "executor" (executor_settings zuul) scheduled in
      let measured = set_prometheus ("web" ∷ "executor" ∷ "scheduler" ∷ "merger" ∷ []) executed in
      let public = new_key "web" "root" ("https://" ++ (fqdn ++ "/zuul/")) measured in
      set_keys ini "merger" (merger_settings zuul) public

  -- What follows the connections of the resource, up to the first secret that is waited for.
  unfoldable pub set_defaults : SfController → F → F
  unfolding add_default_connections add_web_client_section add_authenticators set_default_auth
      set_services git_server_url default_auth
  set_defaults c cfg =
      let zuul = c.cr.spec.zuul in
      let connected = add_default_connections ini c.need_opendev (git_server_url zuul) cfg in
      let served = add_web_client_section ini connected in
      let authenticated = add_authenticators zuul.oidc_authenticators served in
      set_services c.cr.spec.fqdn zuul (set_default_auth (default_auth zuul) authenticated)
