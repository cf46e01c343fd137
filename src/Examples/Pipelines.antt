-- ===== src/Examples/Pipelines.antt =====
-- The values and pipelines that are given to Zuul, at two drivers.
use sf_operator.Common.{String, ◌≡◌, ◌↔◌, false, ◌||◌, [], ◌∷◌, map, ◌==◌, if◌then◌else◌}
use sf_operator.Common.Int.{pos, negsuc, ◌≤ℤ◌}
use sf_operator.Zuulcf.Values.{
  get_zuul_pipeline_precedence, precedence-empty_iff, votes_agree, get_gerrit_code_review_value,
  get_zuul_pipeline_reporter_verified, get_gerrit_workflow_value,
}
use sf_operator.Zuulcf.Require.{get_require_check_by_driver, get_require_gate_by_driver}
use sf_operator.Zuulcf.Trigger.{
  get_trigger_check_by_driver, get_trigger_gate_by_driver, get_trigger_post_by_driver,
}
use sf_operator.Zuulcf.Reporters.{get_reporters_check_by_driver, get_reporters_gate_by_driver}
use sf_operator.Zuulcf.Drivers.{is_supported, Supports, drivers_agree}
use sf_operator.Zuulcf.Gate.{merges, needs_approval, only_gate_success_merges, gate_needs_approval}

precedence-empty_iff_example :
    (get_zuul_pipeline_precedence "normal" ≡ "") ↔ (◌≡◌ {A = String} "normal" "normal")
precedence-empty_iff_example = precedence-empty_iff "normal"

votes_agree_example :
    (get_gerrit_code_review_value "-1" ≡ get_zuul_pipeline_reporter_verified "-1")
    × (negsuc 1 ≤ℤ get_zuul_pipeline_reporter_verified "-1")
    × (get_zuul_pipeline_reporter_verified "-1" ≤ℤ pos 2)
    × (get_gerrit_workflow_value "-1"
        ≡ (if "-1" == "2" || "-1" == "-2" then pos 0 else get_zuul_pipeline_reporter_verified "-1"))
votes_agree_example = votes_agree "-1"

drivers_agree_example :
    Supports "gitlab" (get_require_check_by_driver "gitlab" "gl")
    × Supports "gitlab" (get_require_gate_by_driver "gitlab" "gl")
    × Supports "gitlab" (get_trigger_check_by_driver "gitlab" "gl")
    × Supports "gitlab" (get_trigger_gate_by_driver "gitlab" "gl")
    × Supports "gitlab" (get_trigger_post_by_driver "gitlab" "gl")
    × Supports "gitlab" (get_reporters_check_by_driver "gitlab" "gl")
    × Supports "gitlab" (get_reporters_gate_by_driver "gitlab" "gl")
drivers_agree_example = drivers_agree "gitlab" "gl"

only_gate_success_merges_example :
    (map (merges "gl") (get_reporters_check_by_driver "gitlab" "gl").0 ≡ false ∷ false ∷ false ∷ [])
    × (map (merges "gl") (get_reporters_gate_by_driver "gitlab" "gl").0
        ≡ false ∷ is_supported "gitlab" ∷ false ∷ [])
only_gate_success_merges_example = only_gate_success_merges "gitlab" "gl"

gate_needs_approval_example :
    (needs_approval "gl" (get_require_check_by_driver "gitlab" "gl").0 ≡ false)
    × (needs_approval "gl" (get_require_gate_by_driver "gitlab" "gl").0 ≡ is_supported "gitlab")
gate_needs_approval_example = gate_needs_approval "gitlab" "gl"
