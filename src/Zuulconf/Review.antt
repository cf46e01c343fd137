-- ===== src/Zuulconf/Review.antt =====
-- controllers/zuul.go: the sections of the code review connections. The loops over a map are given
-- the order in which the range visits it.
use sf_operator.Common.{String, not, none, some, [], ◌∷◌, if◌then◌else◌, ◌==◌}
use sf_operator.Common.Assoc.{Assoc}
use sf_operator.Api.{GerritConnection, GitHubConnection, GitLabConnection, PagureConnection}
use sf_operator.Kube.Exec.{Exec, pure, ◌>>=◌}
use sf_operator.Kube.Client.{Client, Context}
use sf_operator.Kube.Objects.{Secret}
use sf_operator.Kube.Crud.{get_or_die}
use sf_operator.Reconcile.Secrets.{data_at, get_secret_data_from_key}
use sf_operator.Zuulconf.Ini.{Ini, set_keys}
use sf_operator.Zuulconf.Values.{gerrit_settings, git_hub_keys, git_lab_keys, pagure_keys}
use sf_operator.Zuulconf.Sections.{bytes, connection, add_section, add_keys}

module _ {W : Type 0} (client : Client W Secret) (r : Context) where
  unfoldable pub read_secret_content : String → Exec W String
  unfolding get_or_die
  read_secret_content name = do
    secret ← get_or_die client r name
    elim secret [ none ↦ pure "" | some s ↦ pure (data_at name s.contents) ]

module _ {F : Type 0} (ini : Ini F) {W : Type 0} (client : Client W Secret) (r : Context) where
  open ini use {new_section}

  unfoldable pub add_gerrit_connection : GerritConnection → F → Exec W F
  unfolding set_keys read_secret_content
  add_gerrit_connection conn cfg = do
    password ←
        if not (conn.password == "") then read_secret_content client r conn.password else pure ""
    pure (add_section ini (connection conn.name) (gerrit_settings conn password) cfg)

  -- `visit` gives the entries of a map in the order in which a range visits them.
  module _ (visit : Assoc String → Assoc String) where
    unfoldable pub add_git_hub_connection : GitHubConnection → F → Exec W F
    unfolding add_keys get_secret_data_from_key
    add_git_hub_connection conn cfg = do
      api_token ← get_secret_data_from_key client r conn.secrets "api_token"
      webhook_token ← get_secret_data_from_key client r conn.secrets "webhook_token"
      pure (
          add_keys ini (connection conn.name)
            (visit (git_hub_keys conn (bytes api_token) (bytes webhook_token)))
            (new_section (connection conn.name) cfg))

    -- The two tokens are mandatory, and are set even if they are empty.
    unfoldable pub add_git_lab_connection : GitLabConnection → F → Exec W F
    unfolding add_keys set_keys get_secret_data_from_key
    add_git_lab_connection conn cfg = do
      api_token ← get_secret_data_from_key client r conn.secrets "api_token"
      webhook_token ← get_secret_data_from_key client r conn.secrets "webhook_token"
      let added =
          add_keys ini (connection conn.name) (visit (git_lab_keys conn))
            (new_section (connection conn.name) cfg)
      pure (
          set_keys ini (connection conn.name)
            (("api_token", some (bytes api_token))
              ∷ ("webhook_token", some (bytes webhook_token))
              ∷ [])
            added)

    unfoldable pub add_pagure_connection : PagureConnection → F → Exec W F
    unfolding add_keys get_secret_data_from_key
    add_pagure_connection conn cfg = do
      api_token ← get_secret_data_from_key client r conn.secrets "api_token"
      pure (
          add_keys ini (connection conn.name) (visit (pagure_keys conn (bytes api_token)))
            (new_section (connection conn.name) cfg))
