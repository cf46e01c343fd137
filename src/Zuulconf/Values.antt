-- ===== src/Zuulconf/Values.antt =====
-- controllers/zuul.go: what the functions of the connections set in their sections.
use Prim.Native.String.{◌++◌, slice, len}
use text.Mathlib.Text.{starts_with}
use sf_operator.Common.{String, Bool, ◌||◌, not, Option, some, [], ◌∷◌, if◌then◌else◌, ◌==◌, ltb}
use sf_operator.Common.Assoc.{Assoc}
use sf_operator.Common.Decimal.{decimal, itoa}
use sf_operator.Api.{
  GerritConnection, GitHubConnection, GitLabConnection, PagureConnection, ElasticSearchConnection,
  SmtpConnection,
}
use sf_operator.Zuulconf.Ini.{Settings}
use sf_operator.Zuulconf.Sections.{unless_empty, when_set, is_off, show_bool}

abbrev pub gerrit_settings : GerritConnection → String → Settings
gerrit_settings conn password =
    ("driver", some "gerrit")
    ∷ ("server", some conn.hostname)
    ∷ (
      "sshkey",
      some (
          if not (conn.sshkey == "")
          then "/var/lib/zuul-" ++ (conn.sshkey ++ "/..data/priv")
          else "/var/lib/zuul-ssh/..data/priv"),
    )
    ∷ ("gitweb_url_template", some "{baseurl}/plugins/gitiles/{project.name}/+/{sha}^!/")
    ∷ ("user", unless_empty conn.username)
    ∷ ("port", when_set (ltb 0 conn.port) (decimal conn.port))
    ∷ ("baseurl", unless_empty conn.puburl)
    ∷ ("password", when_set (not (conn.password == "")) password)
    ∷ ("canonical_hostname", unless_empty conn.canonicalhostname)
    ∷ ("verify_ssl", when_set (is_off conn.verify_ssl) "false")
    ∷ ("git_over_ssh", when_set conn.git_over_ssh "true")
    ∷ ("stream_events", when_set (is_off conn.stream_events) "false")
    ∷ []

abbrev pub has_app : GitHubConnection → Bool
has_app conn =
    not ("/var/lib/zuul/" ++ (conn.secrets ++ "/app_key") == "" || itoa conn.app_id == "0")

abbrev pub git_hub_keys : GitHubConnection → String → String → Assoc String
git_hub_keys conn api_token webhook_token =
    ("driver", "github")
    ∷ ("app_id", if has_app conn then itoa conn.app_id else "")
    ∷ ("app_key", if has_app conn then "/var/lib/zuul/" ++ (conn.secrets ++ "/app_key") else "")
    ∷ ("api_token", api_token)
    ∷ ("webhook_token", webhook_token)
    ∷ ("sshkey", "/var/lib/zuul-ssh/..data/priv")
    ∷ ("server", conn.server)
    ∷ ("canonical_hostname", conn.canonicalhostname)
    ∷ ("verify_ssl", show_bool conn.verify_ssl)
    ∷ []

abbrev pub git_lab_keys : GitLabConnection → Assoc String
git_lab_keys conn =
    ("driver", "gitlab")
    ∷ ("server", conn.server)
    ∷ ("canonical_hostname", conn.canonical_hostname)
    ∷ ("baseurl", conn.base_url)
    ∷ ("sshkey", "/var/lib/zuul-ssh/..data/priv")
    ∷ ("cloneurl", conn.clone_url)
    ∷ ("keepalive", decimal conn.keep_alive)
    ∷ ("disable_connection_pool", show_bool conn.disable_connection_pool)
    ∷ ("api_token_name", "zuul")
    ∷ []

abbrev pub pagure_keys : PagureConnection → String → Assoc String
pagure_keys conn api_token =
    ("driver", "pagure")
    ∷ ("server", conn.server)
    ∷ ("canonical_hostname", conn.canonical_hostname)
    ∷ ("baseurl", conn.base_url)
    ∷ ("cloneurl", conn.clone_url)
    ∷ ("api_token", api_token)
    ∷ ("app_name", conn.app_name)
    ∷ ("source_whitelist", conn.source_whitelist)
    ∷ []

-- The scheme of a URI and the rest of it: the two tests of the prefix, one after the other.
abbrev pub split_scheme : String → String × String
split_scheme uri =
    let split : String × String =
      if starts_with uri "https://" then ("https://", slice uri 8 (len uri)) else ("", uri) in
    let (scheme, rest) = split in
    if starts_with rest "http://" then ("http://", slice rest 7 (len rest)) else (scheme, rest)

abbrev pub elastic_search_settings : ElasticSearchConnection → String → Settings
elastic_search_settings conn uri =
    ("driver", some "elasticsearch")
    ∷ ("ca_certs", some "/etc/ssl/certs/ca-bundle.crt")
    ∷ ("uri", some uri)
    ∷ ("use_ssl", when_set (is_off conn.use_ssl) "false")
    ∷ ("verify_certs", when_set (is_off conn.verify_certs) "false")
    ∷ []

abbrev pub smtp_settings : SmtpConnection → Option String → Settings
smtp_settings conn password =
    ("driver", some "smtp")
    ∷ ("server", some conn.server)
    ∷ ("port", when_set (ltb 0 conn.port) (decimal conn.port))
    ∷ ("default_from", unless_empty conn.default_from)
    ∷ ("default_to", unless_empty conn.default_to)
    ∷ ("user", unless_empty conn.user)
    ∷ ("password", password)
    ∷ ("use_starttls", when_set (is_off conn.tls) "false")
    ∷ []
