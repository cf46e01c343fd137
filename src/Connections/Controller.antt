-- ===== src/Connections/Controller.antt =====
-- MkSFController: what is checked of a resource before it is reconciled. The process exits where a
-- check fails.
use mathlib.Core.Bool.{false≢true}
use sf_operator.Common.{
  sym, ◌∙◌, String, ◌≡◌, refl, ◌≢◌, ◌↔◌, Bool, true, false, not, none, some, List, arith, ◌==◌,
  eq_iff, if◌then◌else◌, Bool-cases, inl, inr,
}
use sf_operator.Api.{SoftwareFactory}
use sf_operator.Connections.UserDefined.{Names, get_user_defined_connections}
use sf_operator.Connections.Valid.{
  is_opendev_valid, all_names, get_user_defined_connections_ok,
  get_user_defined_connections-none_iff,
}
use sf_operator.Connections.Duplicates.{contains, has_duplicate}
use sf_operator.Connections.BaseUrl.{resolve_config_base_url}

-- The fields of SFController but for the Kubernetes client.
pub record SfController : Type 0 where
  pub cr : SoftwareFactory
  pub config_base_url : String
  pub need_opendev : Bool
  pub logserver_keys : String

pub data Started : Type 0 where
  invalid_connections : String → Started
  duplicate_connection : String → Started
  reserved_name : Started
  started : SfController → Started

-- What follows GetUserDefinedConnections.
check_names : SoftwareFactory → Names → Started
check_names cr (conns, some e) = invalid_connections e
check_names cr (conns, none) =
    if not (has_duplicate conns == "")
    then duplicate_connection (has_duplicate conns)
    else if contains conns "git-server"
    then reserved_name
    else started (record {
      cr = cr;
      config_base_url = resolve_config_base_url cr;
      need_opendev = not (contains conns "opendev.org");
      logserver_keys = "unknown";
    })

unfoldable pub mk_sf_controller : SoftwareFactory → Started
unfolding check_names
mk_sf_controller cr = check_names cr (get_user_defined_connections cr.spec.zuul)

-- The resource keeps the opendev.org rule, its names show no duplicate and leave git-server free.
pub record IsAccepted (cr : SoftwareFactory) : Type 0 where
  pub opendev : is_opendev_valid cr.spec.zuul ≡ true
  pub unique : has_duplicate (all_names cr.spec.zuul) ≡ ""
  pub free : contains (all_names cr.spec.zuul) "git-server" ≡ false

module _ (cr : SoftwareFactory) where
  check_names-started :
      (conns : List String) (c : SfController)
      → check_names cr (conns, none) ≡ started c
      → (has_duplicate conns ≡ "")
        × (contains conns "git-server" ≡ false)
        × (c.cr ≡ cr)
        × (c.need_opendev ≡ not (contains conns "opendev.org"))
  unfolding check_names
  check_names-started conns c h =
      (ground (arith, eq_iff (has_duplicate conns) ""), ground arith, ground arith, ground arith)

  check_names-accepted :
      (conns : List String)
      → has_duplicate conns ≡ ""
      → contains conns "git-server" ≡ false
      → (c : SfController) × (check_names cr (conns, none) ≡ started c)
  unfolding check_names
  check_names-accepted conns u f = (
    record {
      cr = cr;
      config_base_url = resolve_config_base_url cr;
      need_opendev = not (contains conns "opendev.org");
      logserver_keys = "unknown";
    },
    ground (arith, eq_iff (has_duplicate conns) ""),
  )

  names_ok :
      is_opendev_valid cr.spec.zuul ≡ true
      → mk_sf_controller cr ≡ check_names cr (all_names cr.spec.zuul, none)
  unfolding mk_sf_controller
  names_ok v = rw (get_user_defined_connections_ok cr.spec.zuul v)

  not-started-of-error : (r : Names) (c : SfController) → r.1 ≢ none → check_names cr r ≢ started c
  unfolding check_names
  not-started-of-error (conns, none) c h = absurd (h refl)
  not-started-of-error (conns, some e) c h = λ x. cc

  valid_of_started :
      (c : SfController) → mk_sf_controller cr ≡ started c → is_opendev_valid cr.spec.zuul ≡ true
  unfolding mk_sf_controller
  valid_of_started c h = elim (Bool-cases (is_opendev_valid cr.spec.zuul)) [
    | inl v ↦ v
    | inr w ↦ absurd (
        not-started-of-error (get_user_defined_connections cr.spec.zuul) c
          (λ e. false≢true (sym w ∙ (get_user_defined_connections-none_iff cr.spec.zuul).0 e)) h)
  ]

  -- A controller starts on a resource exactly if every connection named opendev.org is one to that
  -- site, the search for a duplicate name finds none, and no connection is named git-server.
  pub mk_sf_controller-started_iff :
      ((c : SfController) × (mk_sf_controller cr ≡ started c)) ↔ IsAccepted cr
  mk_sf_controller-started_iff = (
    λ s.
        let v = valid_of_started s.0 s.1 in
        let r = check_names-started (all_names cr.spec.zuul) s.0 (sym (names_ok v) ∙ s.1) in
        record { opendev = v; unique = r.0; free = r.1 },
    λ a. rw (names_ok a.opendev) (check_names-accepted (all_names cr.spec.zuul) a.unique a.free),
  )

  -- A controller that starts is for that resource, and adds its own opendev.org connection exactly
  -- if the resource has none of that name.
  pub need_opendev_lem :
      (c : SfController)
      → mk_sf_controller cr ≡ started c
      → (c.cr ≡ cr) × (c.need_opendev ≡ not (contains (all_names cr.spec.zuul) "opendev.org"))
  need_opendev_lem c h =
      let r =
        check_names-started (all_names cr.spec.zuul) c
          (sym (names_ok (valid_of_started c h)) ∙ h) in
      (r.2, r.3)
