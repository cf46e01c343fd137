-- ===== src/Examples/Conf.antt =====
-- Runs of the functions on zuul.conf.
use sf_operator.Common.{
  String, ◌≡◌, refl, false, none, some, List, [], ◌∷◌, arith, eq_iff, neq_of_test,
}
use sf_operator.Common.Assoc.{Assoc, lookup}
use sf_operator.Api.{SmtpConnection}
use sf_operator.Kube.Exec.{Outcome, ret, panic}
use sf_operator.Kube.Client.{Client, Context}
use sf_operator.Kube.Objects.{Secret}
use sf_operator.Zuulconf.Ini.{value, value-new_key}
use sf_operator.Zuulconf.Backends.{add_smtp_connection, smtp_password}
use sf_operator.Zuulconf.Dump.{dump_config_ini}
use sf_operator.Zuulconf.Checksum.{ini_sections_checksum, ini_sections_checksum_any_order}
use sf_operator.Zuulconf.Dumped.{value-dump_config_ini, dump_config_ini_any_order}
use sf_operator.Zuulconf.Readback.{
  mail_server, read_mail_server, read_mail_server-add_smtp_connection,
}
use sf_operator.Examples.Store.{find, store}
use sf_operator.Examples.Inifile.{File, file_ini, file_ini-IsLawful, empty_file}

abbrev pub live : Context
live = record { ns = "sf"; standalone = false; dry_run = false }

abbrev secret : String → Assoc String → Secret
secret name entries = record {
  name = name;
  namespace = "sf";
  annotations = none;
  contents = some entries;
}

abbrev pub secrets : Client (List Secret) Secret
secrets = store (λ (s : Secret). s.name)

abbrev pub cluster : List Secret
cluster =
    secret "mail" (("password", "swordfish") ∷ [])
    ∷ secret "zuul-db-connection" (("username", "zuul") ∷ [])
    ∷ secret "zuul-keystore-password" (("zuul-keystore-password", "k") ∷ [])
    ∷ secret "zuul-auth-secret" (("zuul-auth-secret", "a") ∷ [])
    ∷ []

abbrev mail : SmtpConnection
mail = record {
  name = "mail";
  server = "smtp.sfop.me";
  port = 2525;
  default_from = "zuul@sfop.me";
  default_to = "";
  user = "";
  password = "";
  tls = some false;
  secrets = some "mail";
}

abbrev two_keys : File
two_keys =
    file_ini.new_key "statsd" "server" "localhost"
      (file_ini.new_key "statsd" "port" "9125" empty_file)

abbrev two_keys_reversed : File
two_keys_reversed =
    file_ini.new_key "statsd" "port" "9125"
      (file_ini.new_key "statsd" "server" "localhost" empty_file)

same_values :
    (section key : String)
    → value file_ini section key two_keys ≡ value file_ini section key two_keys_reversed
same_values section key = ground (
  arith,
  eq_iff "server" key,
  neq_of_test "server" "port" refl,
  eq_iff "port" key,
  value-new_key file_ini file_ini-IsLawful "statsd" "server" "localhost" section key
      (file_ini.new_key "statsd" "port" "9125" empty_file) refl,
  value-new_key file_ini file_ini-IsLawful "statsd" "port" "9125" section key empty_file refl,
  value-new_key file_ini file_ini-IsLawful "statsd" "port" "9125" section key
      (file_ini.new_key "statsd" "server" "localhost" empty_file) refl,
  value-new_key file_ini file_ini-IsLawful "statsd" "server" "localhost" section key empty_file
      refl,
)

value-dump_config_ini_example :
    value file_ini "statsd" "port" (dump_config_ini file_ini two_keys).1
    ≡ value file_ini "statsd" "port" two_keys
value-dump_config_ini_example =
    value-dump_config_ini file_ini file_ini-IsLawful "statsd" "port" two_keys

dump_config_ini_any_order_example :
    (file_ini.sections (dump_config_ini file_ini two_keys).1
      ≡ file_ini.sections (dump_config_ini file_ini two_keys_reversed).1)
    × ((section : String)
        → file_ini.entries section (dump_config_ini file_ini two_keys).1
          ≡ file_ini.entries section (dump_config_ini file_ini two_keys_reversed).1)
unfolding file_ini empty_file
dump_config_ini_any_order_example =
    dump_config_ini_any_order file_ini file_ini-IsLawful two_keys two_keys_reversed refl same_values

ini_sections_checksum_any_order_example :
    ini_sections_checksum file_ini (λ s. s) two_keys ("statsd" ∷ [])
    ≡ ini_sections_checksum file_ini (λ s. s) two_keys_reversed ("statsd" ∷ [])
unfolding file_ini empty_file
ini_sections_checksum_any_order_example =
    ini_sections_checksum_any_order file_ini file_ini-IsLawful (λ s. s) two_keys two_keys_reversed
      ("statsd" ∷ []) refl same_values

-- The file that a run returns.
abbrev pub file_of : Outcome File → File
file_of (ret f) = f
file_of panic = empty_file

abbrev with_mail : Outcome File × List Secret
with_mail = add_smtp_connection file_ini secrets live mail empty_file cluster

mail_added : with_mail ≡ (ret (file_of with_mail.0), cluster)
unfolding add_smtp_connection smtp_password sf_operator.Reconcile.Secrets.get_secret_data_from_key
    sf_operator.Reconcile.Secrets.get_secret sf_operator.Kube.Crud.get_or_die find
    sf_operator.Reconcile.Secrets.get_value_from_key_secret lookup
mail_added = refl

read_mail_server-add_smtp_connection_example :
    read_mail_server (λ key. value file_ini "connection mail" key (file_of with_mail.0))
    ≡ some (mail_server secrets mail cluster)
unfolding file_ini empty_file lookup
read_mail_server-add_smtp_connection_example =
    read_mail_server-add_smtp_connection file_ini file_ini-IsLawful secrets live mail empty_file
      cluster (file_of with_mail.0) cluster (λ key. refl) mail_added
