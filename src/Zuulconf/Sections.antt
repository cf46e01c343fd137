-- ===== src/Zuulconf/Sections.antt =====
-- controllers/zuul.go: the sections of the authenticators, of the client and of the git connections,
-- and how a section is written.
use Prim.Native.String.{◌++◌}
use sf_operator.Common.{
  String, Bool, true, false, ◌||◌, not, Option, none, some, [], ◌∷◌, if◌then◌else◌, ◌==◌,
}
use sf_operator.Common.Assoc.{Assoc}
use sf_operator.Common.Decimal.{decimal, itoa}
use sf_operator.Common.Int.{ℤ, pos, eq_int, is_above_zero}
use sf_operator.Api.{ZuulOidcAuthenticatorSpec}
use sf_operator.Zuulconf.Ini.{Ini, Settings, set_keys}

-- A key that is set unless its text is empty.
abbrev pub unless_empty : String → Option String
unless_empty text = if text == "" then none else some text

abbrev pub when_set : Bool → String → Option String
when_set test text = if test then some text else none

-- A pointer that is set and holds false.
abbrev pub is_off : Option Bool → Bool
is_off flag = elim flag [ none ↦ false | some b ↦ not b ]

abbrev pub or_default : String → String → String
or_default text other = if text == "" then other else text

-- What a reader that gave an error leaves: nil.
abbrev pub bytes : Option String → String
bytes content = elim content [ none ↦ "" | some text ↦ text ]

abbrev pub connection : String → String
connection name = "connection " ++ name

abbrev pub authentication : String → String
authentication name = "auth " ++ name

abbrev pub show_bool : Bool → String
show_bool true = "true"
show_bool false = "false"

abbrev pub git_settings : String → ℤ → Settings
git_settings baseurl pool_delay =
    ("driver", some "git")
    ∷ ("baseurl", some baseurl)
    ∷ ("poll_delay", when_set (is_above_zero pool_delay) (itoa pool_delay))
    ∷ []

abbrev pub oidc_settings : ZuulOidcAuthenticatorSpec → Settings
oidc_settings authenticator =
    ("driver", some "OpenIDConnect")
    ∷ ("realm", some authenticator.realm)
    ∷ ("client_id", some authenticator.client_id)
    ∷ ("issuer_id", some authenticator.issuer_id)
    ∷ ("uid_claim", some (or_default authenticator.uid_claim "sub"))
    ∷ (
      "max_validity_time",
      when_set (not (eq_int authenticator.max_validity_time (pos 0)))
          (itoa authenticator.max_validity_time),
    )
    ∷ ("skew", when_set (not (eq_int authenticator.skew (pos 0))) (itoa authenticator.skew))
    ∷ ("scope", some (or_default authenticator.scope "openid profile"))
    ∷ ("authority", unless_empty authenticator.authority)
    ∷ ("audience", unless_empty authenticator.audience)
    ∷ (
      "load_user_info",
      when_set (not authenticator.load_user_info) (show_bool authenticator.load_user_info),
    )
    ∷ ("keys_url", unless_empty authenticator.keys_url)
    ∷ []

module _ {F : Type 0} (ini : Ini F) where
  open ini use {new_section, new_key}

  -- cfg.NewSection(section), and the settings of the section.
  abbrev pub add_section : String → Settings → F → F
  add_section section settings cfg = set_keys ini section settings (new_section section cfg)

  unfoldable pub add_oidc_authenticator : ZuulOidcAuthenticatorSpec → F → F
  unfolding set_keys
  add_oidc_authenticator authenticator =
      add_section (authentication authenticator.name) (oidc_settings authenticator)

  -- The key server is mandatory.
  unfoldable pub add_key_to_section : String → String → String → F → F
  add_key_to_section section field_key field_value cfg =
      if field_key == "server" || not (field_value == "")
      then new_key section field_key (if field_value == "" then "localhost" else field_value) cfg
      else cfg

  -- A range over a map, which visits the entries in the order that is given.
  unfoldable pub add_keys : String → Assoc String → F → F
  unfolding add_key_to_section
  add_keys section [] cfg = cfg
  add_keys section ((key, text) ∷ rest) cfg =
      add_keys section rest (add_key_to_section section key text cfg)

  unfoldable pub add_git_connection : String → String → ℤ → F → F
  unfolding set_keys
  add_git_connection name baseurl pool_delay =
      add_section (connection name) (git_settings baseurl pool_delay)

  unfoldable pub add_web_client_section : F → F
  unfolding set_keys
  add_web_client_section =
      add_section "webclient" (("url", some ("http://zuul-web:" ++ decimal 9000)) ∷ [])

  unfoldable pub add_default_connections : Bool → String → F → F
  unfolding add_git_connection
  add_default_connections need_opendev git_server_url cfg =
      let with_server = add_git_connection "git-server" git_server_url (pos 0) cfg in
      if need_opendev
      then add_git_connection "opendev.org" "https://opendev.org/" (pos 0) with_server
      else with_server
