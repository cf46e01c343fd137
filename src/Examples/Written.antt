-- ===== src/Examples/Written.antt =====
-- Runs of EnsureZuulConfigSecret and of EnsureZuulComponents.
use sf_operator.Common.{
  String, ◌≡◌, refl, Bool, true, false, Option, none, some, List, [], ◌⊎◌, All,
}
use sf_operator.Common.Assoc.{Assoc, lookup, insert}
use sf_operator.Connections.Controller.{mk_sf_controller}
use sf_operator.Kube.Exec.{Outcome, ret, panic}
use sf_operator.Kube.Objects.{Secret}
use sf_operator.Zuulconf.Ini.{value}
use sf_operator.Zuulconf.Sections.{connection}
use sf_operator.Zuulconf.Review.{read_secret_content, add_gerrit_connection, add_git_hub_connection}
use sf_operator.Zuulconf.Edits.{IsVisit}
use sf_operator.Zuulconf.Refine.{edited}
use sf_operator.Zuulconf.Connected.{edits, add_connections-IsRefined}
use sf_operator.Zuulconf.Ensure.{
  add_each, add_connections, set_database, set_keystore, set_cli_auth, save,
  ensure_zuul_config_secret,
}
use sf_operator.Zuulconf.Waits.{HasSecrets}
use sf_operator.Zuulconf.Sound.{ensure_zuul_config_secret-Decides, ensure_zuul_config_secret-Keeps}
use mathlib.Core.List.Permᴰ.{refl as perm_refl}
use sf_operator.Zuulconf.Services.{
  Deployed, is_executor_enabled, remove_executor, ensure_zuul_components,
}
use sf_operator.Zuulconf.Components.{AllAnswered, ensure_zuul_components-Ready}
use sf_operator.Examples.Conf.{live, secrets, cluster, file_of}
use sf_operator.Examples.Inifile.{File, file_ini, file_ini-IsLawful, empty_file}
use sf_operator.Examples.Resources.{controller, elsewhere}
use sf_operator.Examples.Store.{find, store}

abbrev in_order : Assoc String → Assoc String
in_order m = m

in_order-IsVisit : IsVisit in_order
in_order-IsVisit m d = (d, λ key. refl)

abbrev connected : Outcome File × List Secret
connected = add_connections file_ini secrets live in_order elsewhere.spec.zuul empty_file cluster

all_connected : connected ≡ (ret (file_of connected.0), cluster)
unfolding add_connections add_each add_gerrit_connection read_secret_content add_git_hub_connection
    sf_operator.Reconcile.Secrets.get_secret_data_from_key sf_operator.Reconcile.Secrets.get_secret
    sf_operator.Reconcile.Secrets.get_value_from_key_secret sf_operator.Kube.Crud.get_or_die find
    lookup
all_connected = refl

add_connections-IsRefined_example :
    (cluster ≡ cluster)
    × ((section key : String)
        → value file_ini section key (file_of connected.0)
          ≡ edited
              (edits secrets elsewhere.spec.zuul)
              cluster
              section
              key
              (value file_ini section key empty_file))
add_connections-IsRefined_example =
    add_connections-IsRefined secrets elsewhere.spec.zuul file_ini file_ini-IsLawful live in_order
      in_order-IsVisit empty_file cluster (file_of connected.0) cluster all_connected

abbrev some_file : Option File → File
some_file none = empty_file
some_file (some f) = f

abbrev file_in : Outcome (Option File) → File
file_in (ret o) = some_file o
file_in panic = empty_file

abbrev written : Outcome (Option File) × List Secret
written =
    ensure_zuul_config_secret file_ini secrets live in_order empty_file controller false cluster

is_written : written ≡ (ret (some (file_in written.0)), written.1)
unfolding ensure_zuul_config_secret add_connections add_each add_gerrit_connection
    read_secret_content add_git_hub_connection set_database set_keystore set_cli_auth save
    sf_operator.Reconcile.Secrets.get_secret_data_from_key sf_operator.Reconcile.Secrets.get_secret
    sf_operator.Reconcile.Secrets.get_value_from_key_secret sf_operator.Kube.Crud.get_or_die
    sf_operator.Kube.Crud.create_r sf_operator.Kube.Ensure.ensure_secret
    sf_operator.Kube.Ensure.ensure_object find lookup
is_written = refl

is_accepted : mk_sf_controller elsewhere ≡ sf_operator.Connections.Controller.started controller
is_accepted =
    unfold mk_sf_controller sf_operator.Connections.UserDefined.get_user_defined_connections
      sf_operator.Connections.Duplicates.has_duplicate
      sf_operator.Connections.BaseUrl.resolve_config_base_url in
    refl

ensure_zuul_config_secret-Decides_example :
    ((some (file_in written.0) ≡ none)
      × (written.1 ≡ cluster)
      × ¬ (HasSecrets secrets false cluster))
    ⊎ ((f : File) × (some (file_in written.0) ≡ some f) × HasSecrets secrets false cluster)
ensure_zuul_config_secret-Decides_example =
    ensure_zuul_config_secret-Decides file_ini file_ini-IsLawful secrets live in_order
      in_order-IsVisit empty_file controller false cluster (some (file_in written.0)) written.1
      is_written

ensure_zuul_config_secret-Keeps_example :
    All
      (λ e.
        (key : String)
        → value file_ini (connection e.name) key (file_in written.0)
          ≡ e.change cluster key (value file_ini (connection e.name) key empty_file))
      (edits secrets controller.cr.spec.zuul)
ensure_zuul_config_secret-Keeps_example =
    ensure_zuul_config_secret-Keeps file_ini file_ini-IsLawful secrets live in_order
      in_order-IsVisit empty_file elsewhere controller false cluster (file_in written.0) written.1
      is_accepted refl is_written

-- Services that are ready at once.
abbrev ready_services : Deployed (Unit {0}) (List String)
ready_services = record {
  statefulsets = store (λ (n : String). n);
  ensure_config = λ w. (ret (some tt), w);
  ensure_front_services = λ w. (ret tt, w);
  ensure_scheduler = λ f w. (ret true, w);
  ensure_executor = λ f w. (ret true, w);
  ensure_web = λ f w. (ret true, w);
  ensure_merger = λ f w. (ret true, w);
}

abbrev same_order : Assoc Bool → Assoc Bool
same_order m = m

abbrev reported : Outcome (Assoc Bool) × List String
reported = ensure_zuul_components ready_services live controller.cr.spec.zuul same_order []

abbrev status_in : Outcome (Assoc Bool) → Assoc Bool
status_in (ret s) = s
status_in panic = []

reported_run : reported ≡ (ret (status_in reported.0), [])
unfolding ensure_zuul_components is_executor_enabled
reported_run = refl

zuul_ready : lookup "Zuul" (status_in reported.0) ≡ some true
unfolding ensure_zuul_components is_executor_enabled lookup insert
zuul_ready = refl

ensure_zuul_components-Ready_example :
    (f : Unit {0}) × (u : List String) × (u' : List String) × (remove_executor ready_services live
        controller.cr.spec.zuul same_order []
      ≡ (ret tt, u))
    × (ready_services.ensure_config u ≡ (ret (some f), u'))
    × AllAnswered ready_services live controller.cr.spec.zuul same_order f u' []
ensure_zuul_components-Ready_example =
    ensure_zuul_components-Ready ready_services live controller.cr.spec.zuul same_order []
      (status_in reported.0) [] (λ m. perm_refl m) reported_run zuul_ready
