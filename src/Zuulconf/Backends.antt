-- ===== src/Zuulconf/Backends.antt =====
-- controllers/zuul.go: the sections of the connections to Elasticsearch and to a mail server.
use Prim.Native.String.{◌++◌}
use sf_operator.Common.{String, Option, none, some}
use sf_operator.Api.{ElasticSearchConnection, SmtpConnection}
use sf_operator.Kube.Exec.{Exec, pure, ◌>>=◌}
use sf_operator.Kube.Client.{Client, Context}
use sf_operator.Kube.Objects.{Secret}
use sf_operator.Reconcile.Secrets.{get_secret_data_from_key}
use sf_operator.Zuulconf.Ini.{Ini, set_keys}
use sf_operator.Zuulconf.Values.{split_scheme, elastic_search_settings, smtp_settings}
use sf_operator.Zuulconf.Sections.{unless_empty, bytes, connection, add_section}

module _ {W : Type 0} (client : Client W Secret) (r : Context) where
  -- The password and then the username of the secret, before the URI without its scheme.
  unfoldable pub with_basic_auth : Option String → String → Exec W String
  unfolding get_secret_data_from_key
  with_basic_auth secret uri = elim secret [
    | none ↦ pure uri
    | some name ↦ get_secret_data_from_key client r name "password" >>= λ password.
        get_secret_data_from_key client r name "username" >>= λ username.
        pure (bytes username ++ (":" ++ (bytes password ++ ("@" ++ uri))))
  ]

  -- The password of the secret, or else the one of the connection.
  unfoldable pub smtp_password : SmtpConnection → Exec W (Option String)
  unfolding get_secret_data_from_key
  smtp_password conn = elim conn.secrets [
    | none ↦ pure (unless_empty conn.password)
    | some name ↦ get_secret_data_from_key client r name "password" >>= λ password.
        pure (some (bytes password))
  ]

module _ {F : Type 0} (ini : Ini F) {W : Type 0} (client : Client W Secret) (r : Context) where
  unfoldable pub add_elastic_search_connection : ElasticSearchConnection → F → Exec W F
  unfolding set_keys with_basic_auth
  add_elastic_search_connection conn cfg = do
    let (scheme, rest) = split_scheme conn.uri
    uri ← with_basic_auth client r conn.basic_auth_secret rest
    pure (add_section ini (connection conn.name) (elastic_search_settings conn (scheme ++ uri)) cfg)

  unfoldable pub add_smtp_connection : SmtpConnection → F → Exec W F
  unfolding set_keys smtp_password
  add_smtp_connection conn cfg = do
    password ← smtp_password client r conn
    pure (add_section ini (connection conn.name) (smtp_settings conn password) cfg)
