-- ===== src/Zuulconf/Ensure.antt =====
-- EnsureZuulConfigSecret: the secret zuul-config, with the file zuul.conf.
use Prim.Native.String.{◌++◌}
use sf_operator.Common.{String, Bool, Option, none, some, List, [], ◌∷◌, if◌then◌else◌}
use sf_operator.Common.Assoc.{Assoc}
use sf_operator.Common.Decimal.{decimal}
use sf_operator.Api.{ZuulSpec}
use sf_operator.Connections.Controller.{SfController}
use sf_operator.Kube.Exec.{Exec, pure, ◌>>=◌, ◌>>◌}
use sf_operator.Kube.Client.{Client, Context}
use sf_operator.Kube.Objects.{Secret}
use sf_operator.Kube.Crud.{get_or_die}
use sf_operator.Kube.Ensure.{ensure_secret}
use sf_operator.Reconcile.Secrets.{data_at, get_secret_data_from_key}
use sf_operator.Zuulconf.Ini.{Ini, set_keys}
use sf_operator.Zuulconf.Sections.{add_git_connection}
use sf_operator.Zuulconf.Review.{
  add_gerrit_connection, add_git_hub_connection, add_git_lab_connection, add_pagure_connection,
}
use sf_operator.Zuulconf.Backends.{add_elastic_search_connection, add_smtp_connection}
use sf_operator.Zuulconf.Dump.{dump_config_ini}
use sf_operator.Zuulconf.Config.{set_defaults, zookeeper_hosts, host_of}

-- One `for` loop over connections.
unfoldable pub add_each : {F W A : Type 0} → (A → F → Exec W F) → List A → F → Exec W F
add_each add [] cfg = pure cfg
add_each add (c ∷ cs) cfg = do added ← add c cfg; add_each add cs added

-- What follows a `return nil` is not reached.
abbrev pub unless_nil :
    {F W : Type 0} → Exec W (Option F) → (F → Exec W (Option F)) → Exec W (Option F)
unless_nil m next = m >>= λ cfg. elim cfg [ none ↦ pure none | some f ↦ next f ]

abbrev pub db_uri : Secret → String
db_uri settings =
    "mariadb+pymysql://"
    ++ (data_at "username" settings.contents
        ++ (":"
            ++ (data_at "password" settings.contents
                ++ ("@"
                    ++ (data_at "host" settings.contents
                        ++ ("/" ++ data_at "database" settings.contents))))))

abbrev pub zuul_config : Context → String → Secret
zuul_config r text = record {
  name = "zuul-config";
  namespace = r.ns;
  annotations = none;
  contents = some (("zuul.conf", text) ∷ []);
}

module _ {F : Type 0} (ini : Ini F) where
  unfoldable pub set_hosts : Context → SfController → F → F
  unfolding set_keys zookeeper_hosts
  set_hosts r c cfg =
      let standalone = c.cr.spec.zuul.executor.standalone in
      let hosts = zookeeper_hosts standalone r.ns in
      let with_hosts = set_keys ini "zookeeper" (("hosts", some hosts) ∷ []) cfg in
      set_keys ini "executor" (("hostname", host_of standalone) ∷ []) with_hosts

  unfoldable pub set_statsd : F → F
  unfolding set_keys
  set_statsd cfg = set_keys ini "statsd" (("port", some (decimal 9125)) ∷ []) cfg

module _ {F : Type 0} (ini : Ini F) {W : Type 0} (client : Client W Secret) (r : Context) where
  unfoldable pub set_database : Bool → F → Exec W (Option F)
  set_database remote_executor cfg = if remote_executor then pure (some cfg) else do
    settings ← get_or_die client r "zuul-db-connection"
    elim settings [
      | none ↦ pure none
      | some s ↦ pure (some (set_keys ini "database" (("dburi", some (db_uri s)) ∷ []) cfg))
    ]

  unfoldable pub set_keystore : F → Exec W (Option F)
  set_keystore cfg = do
    password ← get_secret_data_from_key client r "zuul-keystore-password" ""
    elim password [
      | none ↦ pure none
      | some p ↦ pure (some (set_keys ini "keystore" (("password", some p) ∷ []) cfg))
    ]

  unfoldable pub set_cli_auth : String → Bool → F → Exec W (Option F)
  set_cli_auth fqdn remote_executor cfg = if remote_executor then pure (some cfg) else do
    secret ← get_secret_data_from_key client r "zuul-auth-secret" ""
    elim secret [
      | none ↦ pure none
      | some s ↦ pure (
          some (
            set_keys ini "auth zuul_client"
              (("secret", some s) ∷ ("realm", some ("zuul." ++ fqdn)) ∷ []) cfg))
    ]

  -- The file that is dumped, and it stays in that order.
  unfoldable pub save : F → Exec W (Option F)
  unfolding dump_config_ini
  save cfg =
      let (text, dumped) = dump_config_ini ini cfg in
      ensure_secret client r (zuul_config r text) >> pure (some dumped)

module _ {F : Type 0} (ini : Ini F) {W : Type 0} (client : Client W Secret) (r : Context)
    (visit : Assoc String → Assoc String) where
  unfoldable pub add_connections : ZuulSpec → F → Exec W F
  add_connections zuul cfg = do
    with_gerrit ← add_each (add_gerrit_connection ini client r) zuul.gerrit_conns cfg
    with_git_hub ←
        add_each (add_git_hub_connection ini client r visit) zuul.git_hub_conns with_gerrit
    with_git_lab ←
        add_each (add_git_lab_connection ini client r visit) zuul.git_lab_conns with_git_hub
    with_pagure ← add_each (add_pagure_connection ini client r visit) zuul.pagure_conns with_git_lab
    with_git ←
        add_each (λ c cfg. pure (add_git_connection ini c.name c.baseurl c.poll_delay cfg))
          zuul.git_conns with_pagure
    with_search ←
        add_each (add_elastic_search_connection ini client r) zuul.elastic_search_conns with_git
    add_each (add_smtp_connection ini client r) zuul.smtp_conns with_search

  -- `base` is what LoadConfigINI gives for the file zuul.conf that the operator brings; `none` is
  -- nil, which is returned while a secret is missing.
  unfoldable pub ensure_zuul_config_secret : F → SfController → Bool → Exec W (Option F)
  unfolding add_connections set_database set_keystore set_cli_auth set_hosts set_statsd save
  ensure_zuul_config_secret base c remote_executor = do
    connected ← add_connections c.cr.spec.zuul base
    unless_nil (set_database ini client r remote_executor (set_defaults ini c connected)) λ with_db.
        unless_nil (set_keystore ini client r (set_hosts ini r c with_db)) λ with_keystore.
          unless_nil (set_cli_auth ini client r c.cr.spec.fqdn remote_executor with_keystore)
            λ with_auth. save ini client r (set_statsd ini with_auth)
