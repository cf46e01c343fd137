-- ===== src/Zuulconf/Stores.antt =====
-- The functions of the connections to Elasticsearch and to a mail server are changes of one section.
use Prim.Native.String.{◌++◌}
use sf_operator.Common.{String, ◌≡◌, refl, ◌∙◌, Option, some, arith, Option-cases, inl, inr}
use sf_operator.Api.{ElasticSearchConnection, SmtpConnection}
use sf_operator.Kube.Exec.{>>=-eq-ret, ret, pure, ◌>>=◌}
use sf_operator.Kube.Client.{Client, Context}
use sf_operator.Kube.Objects.{Secret}
use sf_operator.Reconcile.Secrets.{get_secret_data_from_key}
use sf_operator.Zuulconf.Ini.{Ini, IsLawful, setting, are_named}
use sf_operator.Zuulconf.Sections.{bytes, connection, add_section}
use sf_operator.Zuulconf.Values.{split_scheme, elastic_search_settings, smtp_settings}
use sf_operator.Zuulconf.Backends.{
  with_basic_auth, add_elastic_search_connection, smtp_password, add_smtp_connection,
}
use sf_operator.Zuulconf.Reads.{secret_text, get_secret_data_from_key-reads}
use sf_operator.Zuulconf.Edits.{IsEdit, IsEdit-pure, IsEdit-bind, add_section-IsChanged}
use sf_operator.Zuulconf.Changes.{elastic_search_change, smtp_change, uri_of, password_of}

module _ {F : Type 0} (ini : Ini F) (laws : IsLawful ini) {W : Type 0} (client : Client W Secret)
    (r : Context) where
  password-reads :
      (name : String) (w : W) (p : Option String) (w' : W)
      → (get_secret_data_from_key client r name "password" >>= λ password.
            pure (some (bytes password)))
          w
        ≡ (ret p, w')
      → (w' ≡ w) × (p ≡ some (secret_text client name "password" w))
  password-reads name w p w' h =
      let (o, v, e, k) =
        >>=-eq-ret (get_secret_data_from_key client r name "password")
          (λ password. pure (some (bytes password))) w h in
      let (same, told) = get_secret_data_from_key-reads client r name "password" w refl e in
      ground arith

  smtp_password-reads :
      (conn : SmtpConnection) (w : W) (p : Option String) (w' : W)
      → smtp_password client r conn w ≡ (ret p, w')
      → (w' ≡ w) × (p ≡ password_of client conn w)
  unfolding smtp_password
  smtp_password-reads conn w p w' h = elim (Option-cases conn.secrets) [
    | inl e ↦ ground arith
    | inr (name, e) ↦ let (same, told) = password-reads name w p w' (rw e at h) in ground arith
  ]

  credentials-pure :
      (password username : Option String) (rest : String) {a b uri : String} {w v w' : W}
      → pure (bytes username ++ (":" ++ (bytes password ++ ("@" ++ rest)))) v ≡ (ret uri, w')
      → bytes password ≡ b
      → bytes username ≡ a
      → v ≡ w
      → (w' ≡ w) × (uri ≡ a ++ (":" ++ (b ++ ("@" ++ rest))))
  credentials-pure password username rest h e e' same = (cc, cc)

  credentials-reads :
      (name rest : String) (w : W) (uri : String) (w' : W)
      → (get_secret_data_from_key client r name "password" >>= λ password.
            get_secret_data_from_key client r name "username" >>= λ username.
            pure (bytes username ++ (":" ++ (bytes password ++ ("@" ++ rest)))))
          w
        ≡ (ret uri, w')
      → (w' ≡ w)
        × (uri
            ≡ secret_text client name "username" w
              ++ (":" ++ (secret_text client name "password" w ++ ("@" ++ rest))))
  credentials-reads name rest w uri w' h =
      let (o, v, e, k) =
        >>=-eq-ret (get_secret_data_from_key client r name "password")
          (λ password. get_secret_data_from_key client r name "username" >>= λ username.
            pure (bytes username ++ (":" ++ (bytes password ++ ("@" ++ rest)))))
          w h in
      let (same, told) = get_secret_data_from_key-reads client r name "password" w refl e in
      let (u, v', e', k') =
        >>=-eq-ret (get_secret_data_from_key client r name "username")
          (λ username. pure (bytes username ++ (":" ++ (bytes o ++ ("@" ++ rest))))) v k in
      let (same', told') = get_secret_data_from_key-reads client r name "username" v refl e' in
      credentials-pure o u rest k' told (rw same at told') (same' ∙ same)

  basic_auth-reads :
      (conn : ElasticSearchConnection) (w : W) (uri : String) (w' : W)
      → with_basic_auth client r conn.basic_auth_secret (split_scheme conn.uri).1 w ≡ (ret uri, w')
      → (w' ≡ w) × ((split_scheme conn.uri).0 ++ uri ≡ uri_of client conn w)
  unfolding with_basic_auth
  basic_auth-reads conn w uri w' h = elim (Option-cases conn.basic_auth_secret) [
    | inl e ↦ ground arith
    | inr (name, e) ↦
        let (same, told) = credentials-reads name (split_scheme conn.uri).1 w uri w' (rw e at h) in
        ground arith
  ]

  pub add_smtp_connection-IsEdit :
      (conn : SmtpConnection)
      → IsEdit ini W
          (connection conn.name)
          (smtp_change client conn)
          (add_smtp_connection ini client r conn)
  unfolding add_smtp_connection smtp_change are_named
  add_smtp_connection-IsEdit conn =
      IsEdit-bind ini (connection conn.name) (smtp_password client r conn) (λ p. p)
        (password_of client conn) (λ p w key. setting key (smtp_settings conn p))
        (λ p cfg. pure (add_section ini (connection conn.name) (smtp_settings conn p) cfg))
        (smtp_password-reads conn)
        λ p.
          IsEdit-pure ini (connection conn.name) (λ key. setting key (smtp_settings conn p))
            (add_section ini (connection conn.name) (smtp_settings conn p))
            λ cfg.
              add_section-IsChanged ini laws (connection conn.name) (smtp_settings conn p) cfg refl

  pub add_elastic_search_connection-IsEdit :
      (conn : ElasticSearchConnection)
      → IsEdit ini W
          (connection conn.name)
          (elastic_search_change client conn)
          (add_elastic_search_connection ini client r conn)
  unfolding add_elastic_search_connection elastic_search_change are_named
  add_elastic_search_connection-IsEdit conn =
      let scheme = (split_scheme conn.uri).0 in
      let rest = (split_scheme conn.uri).1 in
      IsEdit-bind ini (connection conn.name) (with_basic_auth client r conn.basic_auth_secret rest)
        (λ uri. scheme ++ uri) (uri_of client conn)
        (λ uri w key. setting key (elastic_search_settings conn uri))
        (λ uri cfg. pure (
          add_section ini (connection conn.name) (elastic_search_settings conn (scheme ++ uri))
            cfg))
        (basic_auth-reads conn)
        λ uri.
          IsEdit-pure ini (connection conn.name)
            (λ key. setting key (elastic_search_settings conn (scheme ++ uri)))
            (add_section ini (connection conn.name) (elastic_search_settings conn (scheme ++ uri)))
            λ cfg.
              add_section-IsChanged ini laws (connection conn.name)
                (elastic_search_settings conn (scheme ++ uri)) cfg refl
