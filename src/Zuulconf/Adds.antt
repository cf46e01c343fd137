-- ===== src/Zuulconf/Adds.antt =====
-- Each function of a code review connection is the change of that connection's section.
use sf_operator.Common.{
  String, ◌≡◌, refl, ◌∙◌, not, Option, none, some, [], ◌∷◌, arith, if◌then◌else◌, ◌==◌, Bool-cases,
  inl, inr,
}
use sf_operator.Common.Assoc.{Assoc, lookup}
use sf_operator.Api.{
  GerritConnection, GitHubConnection, GitLabConnection, PagureConnection, GitConnection,
}
use sf_operator.Kube.Exec.{Exec, ret, pure, ◌>>=◌}
use sf_operator.Kube.Client.{Client, Context}
use sf_operator.Kube.Objects.{Secret}
use sf_operator.Reconcile.Secrets.{get_secret_data_from_key}
use sf_operator.Zuulconf.Ini.{
  Ini, IsLawful, IsDistinct, setting, are_named, value-set_keys, Settings, set_keys,
}
use sf_operator.Zuulconf.Sections.{
  bytes, connection, add_section, add_keys, git_settings, add_git_connection,
}
use sf_operator.Zuulconf.Values.{gerrit_settings, git_hub_keys, git_lab_keys, pagure_keys}
use sf_operator.Zuulconf.Review.{
  read_secret_content, add_gerrit_connection, add_git_hub_connection, add_git_lab_connection,
  add_pagure_connection,
}
use sf_operator.Zuulconf.Reads.{
  secret_text, get_secret_data_from_key-reads, read_secret_content-reads,
}
use sf_operator.Zuulconf.Edits.{
  Change, kept, IsVisit, IsEdit, IsChanged, IsEdit-pure, IsEdit-bind, add_section-IsChanged,
  add_keys-IsChanged,
}
use sf_operator.Zuulconf.Changes.{
  git_change, gerrit_change, git_hub_change, git_lab_change, pagure_change,
}

module _ {F : Type 0} (ini : Ini F) (laws : IsLawful ini) where
  pub add_git_connection-IsEdit :
      {W : Type 0} (conn : GitConnection)
      → IsEdit ini W
          (connection conn.name)
          (git_change conn)
          (λ cfg. pure (add_git_connection ini conn.name conn.baseurl conn.poll_delay cfg))
  unfolding add_git_connection git_change are_named
  add_git_connection-IsEdit conn =
      IsEdit-pure ini (connection conn.name)
        (λ key. setting key (git_settings conn.baseurl conn.poll_delay))
        (add_section ini (connection conn.name) (git_settings conn.baseurl conn.poll_delay))
        λ cfg.
          add_section-IsChanged ini laws (connection conn.name)
            (git_settings conn.baseurl conn.poll_delay) cfg refl

  module _ {W : Type 0} (client : Client W Secret) (r : Context) where
    gerrit_password :
        (name : String) (w : W) (text : String) (w' : W)
        → (if not (name == "") then read_secret_content client r name else pure "") w
          ≡ (ret text, w')
        → (w' ≡ w) × (text ≡ secret_text client name name w)
    gerrit_password name w text w' h = elim (Bool-cases (name == "")) [
      | inl e ↦ ground arith
      | inr n ↦ read_secret_content-reads client r name w n (rw n at h)
    ]

    pub add_gerrit_connection-IsEdit :
        (conn : GerritConnection)
        → IsEdit ini W
            (connection conn.name)
            (gerrit_change client conn)
            (add_gerrit_connection ini client r conn)
    unfolding add_gerrit_connection gerrit_change are_named
    add_gerrit_connection-IsEdit conn =
        IsEdit-bind ini (connection conn.name)
          (if not (conn.password == "")
            then read_secret_content client r conn.password
            else pure "")
          (λ text. text) (secret_text client conn.password conn.password)
          (λ text w key. setting key (gerrit_settings conn text))
          (λ text cfg.
            pure (add_section ini (connection conn.name) (gerrit_settings conn text) cfg))
          (gerrit_password conn.password)
          λ text.
            IsEdit-pure ini (connection conn.name) (λ key. setting key (gerrit_settings conn text))
              (add_section ini (connection conn.name) (gerrit_settings conn text))
              λ cfg.
                add_section-IsChanged ini laws (connection conn.name) (gerrit_settings conn text)
                  cfg refl

    -- Two tokens of one secret, read one after the other.
    tokens-IsEdit :
        (section name : String) (change : String → String → Change W)
        (step : Option String → Option String → F → Exec W F)
        → ((a b : Option String) → IsEdit ini W section (change (bytes a) (bytes b)) (step a b))
        → IsEdit ini W section
            (λ w.
              change
                (secret_text client name "api_token" w)
                (secret_text client name "webhook_token" w)
                w)
            (λ cfg. get_secret_data_from_key client r name "api_token" >>= λ a.
              get_secret_data_from_key client r name "webhook_token" >>= λ b. step a b cfg)
    tokens-IsEdit section name change step edits =
        IsEdit-bind ini section (get_secret_data_from_key client r name "api_token") bytes
          (secret_text client name "api_token")
          (λ a w. change a (secret_text client name "webhook_token" w) w)
          (λ a cfg. get_secret_data_from_key client r name "webhook_token" >>= λ b. step a b cfg)
          (λ w t w' h. get_secret_data_from_key-reads client r name "api_token" w refl h)
          λ a.
            IsEdit-bind ini section (get_secret_data_from_key client r name "webhook_token") bytes
              (secret_text client name "webhook_token") (change (bytes a)) (step a)
              (λ w t w' h. get_secret_data_from_key-reads client r name "webhook_token" w refl h)
              (edits a)

    module _ (visit : Assoc String → Assoc String) (once : IsVisit visit) where
      -- The keys of a map, set in the order of the range.
      visit-IsChanged :
          (section : String) (entries : Assoc String) (cfg : F)
          → IsDistinct entries
          → lookup "" entries ≡ none
          → IsChanged ini section
              (kept entries)
              cfg
              (add_keys ini section (visit entries) (ini.new_section section cfg))
      unfolding kept
      visit-IsChanged section entries cfg d named other key = ground (
        arith,
        (once entries d).1 key,
        (once entries d).1 "",
        laws.entries-new_section section other cfg,
        add_keys-IsChanged ini laws section (visit entries) (ini.new_section section cfg)
            (once entries d).0 ((once entries d).1 "" ∙ named) other key,
      )

      pub add_git_hub_connection-IsEdit :
          (conn : GitHubConnection)
          → IsEdit ini W
              (connection conn.name)
              (git_hub_change client conn)
              (add_git_hub_connection ini client r visit conn)
      unfolding add_git_hub_connection git_hub_change lookup
      add_git_hub_connection-IsEdit conn =
          tokens-IsEdit (connection conn.name) conn.secrets (λ a b w. kept (git_hub_keys conn a b))
            (λ a b cfg. pure (
              add_keys ini (connection conn.name) (visit (git_hub_keys conn (bytes a) (bytes b)))
                (ini.new_section (connection conn.name) cfg)))
            λ a b.
              IsEdit-pure ini (connection conn.name) (kept (git_hub_keys conn (bytes a) (bytes b)))
                (λ cfg.
                  add_keys ini (connection conn.name)
                    (visit (git_hub_keys conn (bytes a) (bytes b)))
                    (ini.new_section (connection conn.name) cfg))
                λ cfg.
                  visit-IsChanged (connection conn.name) (git_hub_keys conn (bytes a) (bytes b)) cfg
                    (ground arith) refl

      pub add_pagure_connection-IsEdit :
          (conn : PagureConnection)
          → IsEdit ini W
              (connection conn.name)
              (pagure_change client conn)
              (add_pagure_connection ini client r visit conn)
      unfolding add_pagure_connection pagure_change lookup
      add_pagure_connection-IsEdit conn =
          IsEdit-bind ini (connection conn.name)
            (get_secret_data_from_key client r conn.secrets "api_token") bytes
            (secret_text client conn.secrets "api_token") (λ a w. kept (pagure_keys conn a))
            (λ a cfg. pure (
              add_keys ini (connection conn.name) (visit (pagure_keys conn (bytes a)))
                (ini.new_section (connection conn.name) cfg)))
            (λ w t w' h. get_secret_data_from_key-reads client r conn.secrets "api_token" w refl h)
            λ a.
              IsEdit-pure ini (connection conn.name) (kept (pagure_keys conn (bytes a)))
                (λ cfg.
                  add_keys ini (connection conn.name) (visit (pagure_keys conn (bytes a)))
                    (ini.new_section (connection conn.name) cfg))
                λ cfg.
                  visit-IsChanged (connection conn.name) (pagure_keys conn (bytes a)) cfg
                    (ground arith) refl

      abbrev two_tokens : Option String → Option String → Settings
      two_tokens a b = ("api_token", some (bytes a)) ∷ ("webhook_token", some (bytes b)) ∷ []

      git_lab-IsChanged :
          (conn : GitLabConnection) (a b : Option String) (cfg : F)
          → IsChanged ini
              (connection conn.name)
              (λ key old. setting key (two_tokens a b) (kept (git_lab_keys conn) key old))
              cfg
              (set_keys ini (connection conn.name) (two_tokens a b) (
                add_keys ini
                  (connection conn.name)
                  (visit (git_lab_keys conn))
                  (ini.new_section (connection conn.name) cfg)))
      unfolding are_named lookup
      git_lab-IsChanged conn a b cfg other key = ground (
        arith,
        visit-IsChanged (connection conn.name) (git_lab_keys conn) cfg (ground arith) refl other
            key,
        value-set_keys ini laws (connection conn.name) (two_tokens a b) other key
            (add_keys ini (connection conn.name) (visit (git_lab_keys conn))
              (ini.new_section (connection conn.name) cfg))
            refl,
      )

      pub add_git_lab_connection-IsEdit :
          (conn : GitLabConnection)
          → IsEdit ini W
              (connection conn.name)
              (git_lab_change client conn)
              (add_git_lab_connection ini client r visit conn)
      unfolding add_git_lab_connection git_lab_change
      add_git_lab_connection-IsEdit conn =
          tokens-IsEdit (connection conn.name) conn.secrets
            (λ a b w key old.
              setting key (("api_token", some a) ∷ ("webhook_token", some b) ∷ [])
                (kept (git_lab_keys conn) key old))
            (λ a b cfg. pure (
              set_keys ini (connection conn.name) (two_tokens a b) (
                add_keys ini (connection conn.name) (visit (git_lab_keys conn))
                  (ini.new_section (connection conn.name) cfg))))
            λ a b.
              IsEdit-pure ini (connection conn.name)
                (λ key old. setting key (two_tokens a b) (kept (git_lab_keys conn) key old))
                (λ cfg. set_keys ini (connection conn.name) (two_tokens a b) (
                  add_keys ini (connection conn.name) (visit (git_lab_keys conn))
                    (ini.new_section (connection conn.name) cfg)))
                (git_lab-IsChanged conn a b)
