-- ===== src/Zuulcf/Values.antt =====
-- The switches of zuulcf.go from a text of the manifest to a value of Zuul's configuration.
use sf_operator.Common.{String, ◌≡◌, refl, ◌↔◌, Bool, ◌||◌, arith, ◌==◌, eq_iff, if◌then◌else◌}
use sf_operator.Common.Int.{pos, negsuc, ◌≤ℤ◌}
use sf_operator.Zuulcf.Types.{GerritVotePoint, GerritWorkflow, GerritCodeReview}

abbrev pub ZuulProjectMergeMode : Type 0
ZuulProjectMergeMode = String

pub get_zuul_project_merge_mode : String → ZuulProjectMergeMode
get_zuul_project_merge_mode mergemode =
    if mergemode == "merge"
    then "merge"
    else if mergemode == "merge-resolve"
    then "merge-resolve"
    else if mergemode == "cherry-pick"
    then "cherry-pick"
    else if mergemode == "squash-merge"
    then "squash-merge"
    else if mergemode == "rebase"
    then "rebase"
    else ""

abbrev pub PipelineManager : Type 0
PipelineManager = String

pub get_zuul_pipeline_manager : String → PipelineManager
get_zuul_pipeline_manager manager =
    if manager == "independent"
    then "independent"
    else if manager == "dependent"
    then "dependent"
    else if manager == "serial"
    then "serial"
    else if manager == "supercedent"
    then "supercedent"
    else "independent"

abbrev pub PipelinePrecedence : Type 0
PipelinePrecedence = String

-- The empty `case "normal":` does not fall through, so the variable keeps its zero value.
pub get_zuul_pipeline_precedence : String → PipelinePrecedence
get_zuul_pipeline_precedence precedence =
    if precedence == "high"
    then "high"
    else if precedence == "low"
    then "low"
    else if precedence == "normal"
    then ""
    else "normal"

unfoldable pub get_zuul_pipeline_reporter_verified : String → GerritVotePoint
get_zuul_pipeline_reporter_verified verified =
    if verified == "2"
    then pos 2
    else if verified == "1"
    then pos 1
    else if verified == "0"
    then pos 0
    else if verified == "-1"
    then negsuc 0
    else if verified == "-2"
    then negsuc 1
    else pos 0

unfoldable pub get_gerrit_workflow_value : String → GerritWorkflow
get_gerrit_workflow_value value =
    if value == "1"
    then pos 1
    else if value == "0"
    then pos 0
    else if value == "-1"
    then negsuc 0
    else pos 0

pub get_gerrit_code_review_value : String → GerritCodeReview
get_gerrit_code_review_value value =
    if value == "2"
    then pos 2
    else if value == "1"
    then pos 1
    else if value == "0"
    then pos 0
    else if value == "-1"
    then negsuc 0
    else if value == "-2"
    then negsuc 1
    else pos 0

abbrev pub is_merge_mode : String → Bool
is_merge_mode m =
    m == "merge"
    || (m == "merge-resolve" || (m == "cherry-pick" || (m == "squash-merge" || m == "rebase")))

abbrev pub is_manager : String → Bool
is_manager m = m == "independent" || (m == "dependent" || (m == "serial" || m == "supercedent"))

-- The five merge modes are kept, and every other text gives the empty mode.
pub merge_mode_kept :
    (m : String) → get_zuul_project_merge_mode m ≡ (if is_merge_mode m then m else "")
unfolding get_zuul_project_merge_mode
merge_mode_kept m = ground (
  arith,
  eq_iff m "merge",
  eq_iff m "merge-resolve",
  eq_iff m "cherry-pick",
  eq_iff m "squash-merge",
  eq_iff m "rebase",
)

-- The four managers are kept, and every other text gives the independent manager.
pub manager_kept :
    (m : String) → get_zuul_pipeline_manager m ≡ (if is_manager m then m else "independent")
unfolding get_zuul_pipeline_manager
manager_kept m =
    ground (
      arith,
      eq_iff m "independent",
      eq_iff m "dependent",
      eq_iff m "serial",
      eq_iff m "supercedent",
    )

-- The precedence is empty exactly for the text "normal".
pub precedence-empty_iff : (p : String) → (get_zuul_pipeline_precedence p ≡ "") ↔ (p ≡ "normal")
unfolding get_zuul_pipeline_precedence
precedence-empty_iff p = (
  ground (
    arith,
    eq_iff p "high",
    eq_iff p "low",
    eq_iff p "normal",
    eq_iff "high" "",
    eq_iff "low" "",
    eq_iff "normal" "",
  ),
  ground (
    arith,
    eq_iff p "high",
    eq_iff p "low",
    eq_iff p "normal",
    eq_iff "normal" "high",
    eq_iff "normal" "low",
  ),
)

-- The two vote readers agree on every text and stay within the five votes; the workflow reader is
-- the same but for "2" and "-2", which it reads as no vote.
pub votes_agree :
    (s : String)
    → (get_gerrit_code_review_value s ≡ get_zuul_pipeline_reporter_verified s)
      × (negsuc 1 ≤ℤ get_zuul_pipeline_reporter_verified s)
      × (get_zuul_pipeline_reporter_verified s ≤ℤ pos 2)
      × (get_gerrit_workflow_value s
          ≡ (if s == "2" || s == "-2" then pos 0 else get_zuul_pipeline_reporter_verified s))
unfolding get_gerrit_code_review_value get_zuul_pipeline_reporter_verified get_gerrit_workflow_value
votes_agree s = (
  refl,
  ground arith,
  ground arith,
  ground (
    arith,
    eq_iff s "2",
    eq_iff s "-2",
    eq_iff s "1",
    eq_iff s "0",
    eq_iff s "-1",
    eq_iff "2" "1",
    eq_iff "2" "0",
    eq_iff "2" "-1",
    eq_iff "-2" "1",
    eq_iff "-2" "0",
    eq_iff "-2" "-1",
  ),
)
