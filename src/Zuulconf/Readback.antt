-- ===== src/Zuulconf/Readback.antt =====
-- The section of a mail server, read as Zuul's documentation says: a port that is not set is the
-- default, and so is the use of STARTTLS.
use sf_operator.Common.{
  ℕ, zero, suc, String, ◌≡◌, refl, ◌∙◌, Bool, true, false, not, Option, none, some, arith, ◌==◌,
  eq_iff, eq_refl, ltb,
}
use sf_operator.Common.Decimal.{decimal, read_decimal, read_decimal-decimal}
use sf_operator.Api.{SmtpConnection}
use sf_operator.Kube.Exec.{ret}
use sf_operator.Kube.Client.{Client, Context}
use sf_operator.Kube.Objects.{Secret}
use sf_operator.Zuulconf.Ini.{Ini, IsLawful, value, setting}
use sf_operator.Zuulconf.Sections.{bytes, unless_empty, when_set, is_off, connection}
use sf_operator.Zuulconf.Values.{smtp_settings}
use sf_operator.Zuulconf.Changes.{password_of, smtp_change}
use sf_operator.Zuulconf.Backends.{add_smtp_connection}
use sf_operator.Zuulconf.Stores.{add_smtp_connection-IsEdit}

pub record MailServer : Type 0 where
  pub server : String
  pub port : ℕ
  pub default_from : String
  pub default_to : String
  pub user : String
  pub password : String
  pub starttls : Bool

abbrev read_port : Option String → Option ℕ
read_port text = elim text [ none ↦ some 0 | some t ↦ read_decimal t ]

-- Nothing for a section without a server or with a port that is no number.
abbrev pub read_mail_server : (String → Option String) → Option MailServer
read_mail_server key = elim (key "server") [
  | none ↦ none
  | some server ↦ elim (read_port (key "port")) [
    | none ↦ none
    | some port ↦ some (record {
      server = server;
      port = port;
      default_from = bytes (key "default_from");
      default_to = bytes (key "default_to");
      user = bytes (key "user");
      password = bytes (key "password");
      starttls = not (bytes (key "use_starttls") == "false");
    })
  ]
]

module _ {W : Type 0} (client : Client W Secret) where
  -- The mail server that a connection stands for.
  abbrev pub mail_server : SmtpConnection → W → MailServer
  mail_server conn w = record {
    server = conn.server;
    port = conn.port;
    default_from = conn.default_from;
    default_to = conn.default_to;
    user = conn.user;
    password = bytes (password_of client conn w);
    starttls = not (is_off conn.tls);
  }

same_option : (o : Option String) → (elim o [ none ↦ none | some t ↦ some t ]) ≡ o
same_option none = refl
same_option (some t) = refl

read_port-set : (n : ℕ) → read_port (when_set (ltb 0 n) (decimal n)) ≡ some n
read_port-set zero = refl
read_port-set (suc n) = ground (arith, read_decimal-decimal (suc n))

bytes-unless_empty : (text : String) → bytes (unless_empty text) ≡ text
bytes-unless_empty text = ground (arith, eq_iff text "")

starttls-set : (off : Bool) → (bytes (when_set off "false") == "false") ≡ off
starttls-set true = refl
starttls-set false = refl

-- What each key of the section is set to.
module _ (conn : SmtpConnection) (p : Option String) where
  abbrev at : String → Option String
  at key = setting key (smtp_settings conn p) none

  at_server : at "server" ≡ some conn.server
  unfolding setting
  at_server = refl

  at_port : at "port" ≡ when_set (ltb 0 conn.port) (decimal conn.port)
  unfolding setting
  at_port = same_option (when_set (ltb 0 conn.port) (decimal conn.port))

  at_default_from : at "default_from" ≡ unless_empty conn.default_from
  unfolding setting
  at_default_from = same_option (unless_empty conn.default_from)

  at_default_to : at "default_to" ≡ unless_empty conn.default_to
  unfolding setting
  at_default_to = same_option (unless_empty conn.default_to)

  at_user : at "user" ≡ unless_empty conn.user
  unfolding setting
  at_user = same_option (unless_empty conn.user)

  at_password : at "password" ≡ p
  unfolding setting
  at_password = same_option p

  at_use_starttls : at "use_starttls" ≡ when_set (is_off conn.tls) "false"
  unfolding setting
  at_use_starttls = same_option (when_set (is_off conn.tls) "false")

  read_mail_server-settings :
      (get : String → Option String)
      → ((key : String) → get key ≡ at key)
      → read_mail_server get
        ≡ some (record {
          server = conn.server;
          port = conn.port;
          default_from = conn.default_from;
          default_to = conn.default_to;
          user = conn.user;
          password = bytes p;
          starttls = not (is_off conn.tls);
        })
  read_mail_server-settings get told =
      rw
        (
          told "server" ∙ at_server,
          told "port" ∙ at_port,
          read_port-set conn.port,
          told "default_from" ∙ at_default_from,
          told "default_to" ∙ at_default_to,
          told "user" ∙ at_user,
          told "password" ∙ at_password,
          told "use_starttls" ∙ at_use_starttls,
          bytes-unless_empty conn.default_from,
          bytes-unless_empty conn.default_to,
          bytes-unless_empty conn.user,
          starttls-set (is_off conn.tls),
          read_mail_server,
          read_port,
          bytes,
        )
        refl

module _ {F : Type 0} (ini : Ini F) (laws : IsLawful ini) {W : Type 0} (client : Client W Secret)
    (r : Context) where
  -- A connection to a mail server that is added to a file without that section is read back as it
  -- is: its server, port, addresses and user, the password of its secret or else its own, and
  -- whether STARTTLS is used.
  pub read_mail_server-add_smtp_connection :
      (conn : SmtpConnection) (cfg : F) (w : W) (cfg' : F) (v : W)
      → ((key : String) → value ini (connection conn.name) key cfg ≡ none)
      → add_smtp_connection ini client r conn cfg w ≡ (ret cfg', v)
      → read_mail_server (λ key. value ini (connection conn.name) key cfg')
        ≡ some (mail_server client conn w)
  unfolding smtp_change
  read_mail_server-add_smtp_connection conn cfg w cfg' v fresh h =
      let (same, changed) = add_smtp_connection-IsEdit ini laws client r conn cfg w cfg' v h in
      read_mail_server-settings conn (password_of client conn w)
        (λ key. value ini (connection conn.name) key cfg')
        λ key.
          ground
            (arith, changed (connection conn.name) key, fresh key, eq_refl (connection conn.name))
