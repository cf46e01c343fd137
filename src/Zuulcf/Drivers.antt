-- ===== src/Zuulcf/Drivers.antt =====
-- Which drivers the seven functions of zuulcf.go support, and what they return for the others.
use sf_operator.Common.{
  String, ◌≡◌, ◌≢◌, ◌↔◌, Bool, true, false, ◌||◌, Option, none, some, [], ◌∷◌, arith, ◌==◌, eq_iff,
}
use sf_operator.Common.Assoc.{lookup, insert}
use sf_operator.Zuulcf.Types.{no_reporter, no_trigger}
use sf_operator.Zuulcf.Require.{get_require_check_by_driver, get_require_gate_by_driver}
use sf_operator.Zuulcf.Trigger.{
  get_trigger_check_by_driver, get_trigger_gate_by_driver, get_trigger_post_by_driver,
}
use sf_operator.Zuulcf.Reporters.{get_reporters_check_by_driver, get_reporters_gate_by_driver}

abbrev pub is_supported : String → Bool
is_supported driver = driver == "gerrit" || driver == "gitlab"

-- The result carries no error exactly when the driver is supported.
abbrev pub Supports {ℓ} : {V : Type ℓ} → String → V × Option String → Type 0
Supports driver r = (r.1 ≡ none) ↔ (is_supported driver ≡ true)

-- All seven functions accept the same drivers: each returns no error exactly for "gerrit" and
-- "gitlab", whatever the connection.
pub drivers_agree :
    (driver connection : String)
    → Supports driver (get_require_check_by_driver driver connection)
      × Supports driver (get_require_gate_by_driver driver connection)
      × Supports driver (get_trigger_check_by_driver driver connection)
      × Supports driver (get_trigger_gate_by_driver driver connection)
      × Supports driver (get_trigger_post_by_driver driver connection)
      × Supports driver (get_reporters_check_by_driver driver connection)
      × Supports driver (get_reporters_gate_by_driver driver connection)
unfolding get_require_check_by_driver get_require_gate_by_driver get_trigger_check_by_driver
    get_trigger_gate_by_driver get_trigger_post_by_driver get_reporters_check_by_driver
    get_reporters_gate_by_driver
drivers_agree driver connection = (
  (ground arith, ground arith),
  (ground arith, ground arith),
  (ground arith, ground arith),
  (ground arith, ground arith),
  (ground arith, ground arith),
  (ground arith, ground arith),
  (ground arith, ground arith),
)

-- For an unsupported driver the required states and the check and gate triggers are empty, and both
-- lists of reporters hold three empty ones.
pub unsupported_values :
    (driver connection : String)
    → is_supported driver ≡ false
    → ((get_require_check_by_driver driver connection).0 ≡ [])
      × ((get_require_gate_by_driver driver connection).0 ≡ [])
      × ((get_trigger_check_by_driver driver connection).0 ≡ [])
      × ((get_trigger_gate_by_driver driver connection).0 ≡ [])
      × ((get_reporters_check_by_driver driver connection).0
          ≡ no_reporter ∷ no_reporter ∷ no_reporter ∷ [])
      × ((get_reporters_gate_by_driver driver connection).0
          ≡ no_reporter ∷ no_reporter ∷ no_reporter ∷ [])
unfolding get_require_check_by_driver get_require_gate_by_driver get_trigger_check_by_driver
    get_trigger_gate_by_driver get_reporters_check_by_driver get_reporters_gate_by_driver
unsupported_values driver connection h =
    (ground arith, ground arith, ground arith, ground arith, ground arith, ground arith)

-- Unless the connection bears the name of the internal git server, the post pipeline starts on
-- every `ref-updated` of that server, for every driver; and for a supported driver it starts on the
-- connection too.
pub post_keeps_git_server :
    (driver connection : String)
    → connection ≢ "git-server"
    → (lookup "git-server" (get_trigger_post_by_driver driver connection).0
        ≡ some (record no_trigger { event = "ref-updated" } ∷ []))
      × ((lookup connection (get_trigger_post_by_driver driver connection).0 ≢ none)
          ↔ (is_supported driver ≡ true))
unfolding get_trigger_post_by_driver lookup insert
post_keeps_git_server driver connection h = (
  ground (
    arith,
    eq_iff connection "git-server",
    eq_iff "git-server" connection,
    eq_iff "git-server" "git-server",
  ),
  (
    ground (
      arith,
      eq_iff connection "git-server",
      eq_iff "git-server" connection,
      eq_iff connection connection,
    ),
    ground (
      arith,
      eq_iff connection "git-server",
      eq_iff "git-server" connection,
      eq_iff connection connection,
    ),
  ),
)
