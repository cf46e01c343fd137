-- ===== src/Zuulconf/Changes.antt =====
-- What each function of a connection sets in its section, as a function of the connection and of the
-- secrets that the server has.
use Prim.Native.String.{◌++◌}
use sf_operator.Common.{String, Option, none, some, [], ◌∷◌}
use sf_operator.Api.{
  GerritConnection, GitHubConnection, GitLabConnection, PagureConnection, GitConnection,
  ElasticSearchConnection, SmtpConnection,
}
use sf_operator.Kube.Client.{Client}
use sf_operator.Kube.Objects.{Secret}
use sf_operator.Zuulconf.Ini.{setting}
use sf_operator.Zuulconf.Sections.{unless_empty, git_settings}
use sf_operator.Zuulconf.Values.{
  gerrit_settings, git_hub_keys, git_lab_keys, pagure_keys, split_scheme, elastic_search_settings,
  smtp_settings,
}
use sf_operator.Zuulconf.Reads.{secret_text}
use sf_operator.Zuulconf.Edits.{Change, kept}

unfoldable pub git_change : {W : Type 0} → GitConnection → Change W
git_change conn w key = setting key (git_settings conn.baseurl conn.poll_delay)

module _ {W : Type 0} (client : Client W Secret) where
  unfoldable pub gerrit_change : GerritConnection → Change W
  gerrit_change conn w key =
      setting key (gerrit_settings conn (secret_text client conn.password conn.password w))

  unfoldable pub git_hub_change : GitHubConnection → Change W
  git_hub_change conn w = kept (
      git_hub_keys conn (secret_text client conn.secrets "api_token" w)
        (secret_text client conn.secrets "webhook_token" w))

  unfoldable pub git_lab_change : GitLabConnection → Change W
  git_lab_change conn w key old =
      setting key
        (("api_token", some (secret_text client conn.secrets "api_token" w))
          ∷ ("webhook_token", some (secret_text client conn.secrets "webhook_token" w))
          ∷ [])
        (kept (git_lab_keys conn) key old)

  unfoldable pub pagure_change : PagureConnection → Change W
  pagure_change conn w = kept (pagure_keys conn (secret_text client conn.secrets "api_token" w))

  abbrev pub uri_of : ElasticSearchConnection → W → String
  uri_of conn w =
      let (scheme, rest) = split_scheme conn.uri in
      scheme ++ elim conn.basic_auth_secret [
        | none ↦ rest
        | some name ↦
            secret_text client name "username" w
            ++ (":" ++ (secret_text client name "password" w ++ ("@" ++ rest)))
      ]

  unfoldable pub elastic_search_change : ElasticSearchConnection → Change W
  elastic_search_change conn w key = setting key (elastic_search_settings conn (uri_of conn w))

  abbrev pub password_of : SmtpConnection → W → Option String
  password_of conn w = elim conn.secrets [
    | none ↦ unless_empty conn.password
    | some name ↦ some (secret_text client name "password" w)
  ]

  unfoldable pub smtp_change : SmtpConnection → Change W
  smtp_change conn w key = setting key (smtp_settings conn (password_of conn w))
