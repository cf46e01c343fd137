-- ===== src/Zuulcf/Gate.antt =====
-- How the gate pipeline differs from the check pipeline.
use sf_operator.Common.{
  String, ◌≡◌, refl, Bool, false, ◌||◌, not, Option, none, some, List, [], ◌∷◌, map, arith, eq_refl,
}
use sf_operator.Common.Int.{ℤ, pos, negsuc, eq_int, ◌<ℤ◌}
use sf_operator.Common.Assoc.{lookup}
use sf_operator.Zuulcf.Types.{
  PipelineRequire, PipelineRequireApproval, PipelineRequireGerritApproval, PipelineDriverReporter,
  PipelineGitLabReporter, PipelineGerritReporter, PipelineReporter,
}
use sf_operator.Zuulcf.Require.{get_require_check_by_driver, get_require_gate_by_driver}
use sf_operator.Zuulcf.Reporters.{get_reporters_check_by_driver, get_reporters_gate_by_driver}
use sf_operator.Zuulcf.Drivers.{is_supported}

abbrev is_merge : Option PipelineGitLabReporter → Bool
is_merge none = false
is_merge (some r) = r.merge

abbrev is_submit : Option PipelineGerritReporter → Bool
is_submit none = false
is_submit (some r) = r.submit

abbrev pub merges_entry : Option PipelineDriverReporter → Bool
merges_entry none = false
merges_entry (some r) = is_submit r.gerrit || is_merge r.gitlab

-- The reporter merges the change on the connection.
abbrev pub merges : String → PipelineReporter → Bool
merges connection r = merges_entry (lookup connection r.reporter)

abbrev vote_gerrit : Option PipelineGerritReporter → ℤ
vote_gerrit none = pos 0
vote_gerrit (some r) = r.verified

abbrev vote_entry : Option PipelineDriverReporter → ℤ
vote_entry none = pos 0
vote_entry (some r) = vote_gerrit r.gerrit

-- The Gerrit vote of the reporter on the connection.
abbrev pub vote : String → PipelineReporter → ℤ
vote connection r = vote_entry (lookup connection r.reporter)

-- A vote of 0 is left out of the YAML, and an approval without a vote asks for nothing.
abbrev asks_vote : PipelineRequireGerritApproval → Bool
asks_vote a =
    not (eq_int a.workflow (pos 0))
    || not (eq_int a.verified (pos 0))
    || not (eq_int a.code_review (pos 0))

abbrev has_approval : List PipelineRequireGerritApproval → Bool
has_approval [] = false
has_approval (a ∷ as') = asks_vote a || has_approval as'

abbrev approved_entry : Option PipelineRequireApproval → Bool
approved_entry none = false
approved_entry (some r) = has_approval r.gerrit.gerrit_approval || r.gitlab.approved

-- A change on the connection needs an approval to enter the pipeline.
abbrev pub needs_approval : String → PipelineRequire → Bool
needs_approval connection r = approved_entry (lookup connection r)

-- Of the three reporters, at the start, on success and on failure, the check pipeline has none that
-- merges; the gate pipeline merges on success, for a supported driver, and on nothing else.
pub only_gate_success_merges :
    (driver connection : String)
    → (map (merges connection) (get_reporters_check_by_driver driver connection).0
        ≡ false ∷ false ∷ false ∷ [])
      × (map (merges connection) (get_reporters_gate_by_driver driver connection).0
          ≡ false ∷ is_supported driver ∷ false ∷ [])
unfolding get_reporters_check_by_driver get_reporters_gate_by_driver lookup
only_gate_success_merges driver connection =
    (ground (arith, eq_refl connection), ground (arith, eq_refl connection))

-- For a supported driver the gate pipeline needs an approval to let a change in, which on Gerrit is a
-- vote other than 0, and the check pipeline needs none; for another driver neither does.
pub gate_needs_approval :
    (driver connection : String)
    → (needs_approval connection (get_require_check_by_driver driver connection).0 ≡ false)
      × (needs_approval connection (get_require_gate_by_driver driver connection).0
          ≡ is_supported driver)
unfolding get_require_check_by_driver get_require_gate_by_driver lookup
gate_needs_approval driver connection =
    (ground (arith, eq_refl connection), ground (arith, eq_refl connection))

check_votes :
    (connection : String)
    → map (vote connection) (get_reporters_check_by_driver "gerrit" connection).0
      ≡ pos 0 ∷ pos 1 ∷ negsuc 0 ∷ []
unfolding get_reporters_check_by_driver lookup
check_votes connection = ground (arith, eq_refl connection)

gate_votes :
    (connection : String)
    → map (vote connection) (get_reporters_gate_by_driver "gerrit" connection).0
      ≡ pos 0 ∷ pos 2 ∷ negsuc 1 ∷ []
unfolding get_reporters_gate_by_driver lookup
gate_votes connection = ground (arith, eq_refl connection)

-- Two rows of votes, at the start, on success and on failure: both are neutral, up and down, and
-- the second says more.
abbrev pub IsStronger : List ℤ → List ℤ → Type 0
IsStronger (s ∷ a ∷ f ∷ []) (s' ∷ a' ∷ f' ∷ []) =
    (s ≡ pos 0) × (s' ≡ pos 0) × (pos 0 <ℤ a) × (a <ℤ a') × (f <ℤ pos 0) × (f' <ℤ f)
IsStronger _ _ = ⊥

-- On Gerrit both pipelines start with no vote, vote up on success and down on failure, and the gate
-- votes count more than the check votes.
pub gate_votes-IsStronger :
    (connection : String)
    → IsStronger
        (map (vote connection) (get_reporters_check_by_driver "gerrit" connection).0)
        (map (vote connection) (get_reporters_gate_by_driver "gerrit" connection).0)
gate_votes-IsStronger connection =
    rw (check_votes connection, gate_votes connection)
      (refl, refl, omega arith, omega arith, omega arith, omega arith)
