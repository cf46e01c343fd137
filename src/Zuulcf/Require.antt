-- ===== src/Zuulcf/Require.antt =====
-- What a pipeline requires of a change: GetRequireCheckByDriver and GetRequireGateByDriver. A
-- function that returns a value and an error returns the pair.
use Prim.Native.String.{◌++◌}
use sf_operator.Common.{String, true, Option, none, some, [], ◌∷◌, ◌==◌, if◌then◌else◌}
use sf_operator.Zuulcf.Types.{
  PipelineRequire, no_gerrit_approval, no_gerrit_requirement, no_git_lab_requirement,
  no_require_approval,
}
use sf_operator.Zuulcf.Values.{get_gerrit_workflow_value}

-- The text of the error that every driver function ends with.
abbrev pub unsupported : String → String → String
unsupported what driver = what ++ (": Driver of type \"" ++ (driver ++ "\" is not supported"))

unfoldable pub get_require_check_by_driver : String → String → PipelineRequire × Option String
get_require_check_by_driver driver connection =
    if driver == "gerrit"
    then (
      (
        connection,
        record no_require_approval {
          is_open = true;
          gerrit = record no_gerrit_requirement { current_patchset = true };
        },
      )
          ∷ [],
      none,
    )
    else if driver == "gitlab"
    then ((connection, record no_require_approval { is_open = true }) ∷ [], none)
    else ([], some (unsupported "check Pipeline Require" driver))

unfoldable pub get_require_gate_by_driver : String → String → PipelineRequire × Option String
unfolding get_gerrit_workflow_value
get_require_gate_by_driver driver connection =
    if driver == "gerrit"
    then (
      (
        connection,
        record no_require_approval {
          is_open = true;
          gerrit = record no_gerrit_requirement {
            current_patchset = true;
            gerrit_approval =
                record no_gerrit_approval { workflow = get_gerrit_workflow_value "1" } ∷ [];
          };
        },
      )
          ∷ [],
      none,
    )
    else if driver == "gitlab"
    then (
      (
        connection,
        record no_require_approval {
          is_open = true;
          gitlab = record no_git_lab_requirement { approved = true; labels = "workflow" ∷ [] };
        },
      )
          ∷ [],
      none,
    )
    else ([], some (unsupported "gate Pipeline Require" driver))
