-- ===== src/Zuulcf/Trigger.antt =====
-- The events that start a pipeline: GetTriggerCheckByDriver, GetTriggerGateByDriver and
-- GetTriggerPostByDriver.
use sf_operator.Common.{String, Option, none, some, [], ◌∷◌, ◌==◌, if◌then◌else◌}
use sf_operator.Common.Assoc.{insert}
use sf_operator.Zuulcf.Types.{
  PipelineGenericTrigger, no_gerrit_approval, no_git_trigger, no_git_lab_trigger, no_trigger,
}
use sf_operator.Zuulcf.Values.{get_gerrit_workflow_value, get_zuul_pipeline_reporter_verified}
use sf_operator.Zuulcf.Require.{unsupported}

unfoldable pub get_trigger_check_by_driver :
    String → String → PipelineGenericTrigger × Option String
get_trigger_check_by_driver driver connection =
    if driver == "gerrit"
    then (
      (
        connection,
        record no_trigger { event = "patchset-created" }
            ∷ record no_trigger { event = "change-restored" }
            ∷ record no_trigger {
              event = "comment-added";
              comment = "(?i)^(Patch Set [0-9]+:)?( [\\w\\+-]*)*(\\n\\n)?\\s*(recheck|reverify)";
            }
            ∷ [],
      )
          ∷ [],
      none,
    )
    else if driver == "gitlab"
    then (
      (
        connection,
        record no_trigger {
          event = "gl_merge_request";
          git_lab_trigger = record no_git_lab_trigger { action = "comment" ∷ [] };
          comment = "(?i)^\\s*recheck\\s*$";
        }
            ∷ record no_trigger {
              event = "gl_merge_request";
              git_lab_trigger = record no_git_lab_trigger { action = "opened" ∷ "changed" ∷ [] };
            }
            ∷ [],
      )
          ∷ [],
      none,
    )
    else ([], some (unsupported "check Pipeline Trigger" driver))

unfoldable pub get_trigger_gate_by_driver : String → String → PipelineGenericTrigger × Option String
unfolding get_gerrit_workflow_value get_zuul_pipeline_reporter_verified
get_trigger_gate_by_driver driver connection =
    if driver == "gerrit"
    then (
      (
        connection,
        record no_trigger {
          event = "comment-added";
          git_trigger = record no_git_trigger {
            approval = record no_gerrit_approval { workflow = get_gerrit_workflow_value "1" } ∷ [];
          };
        }
            ∷ record no_trigger {
              event = "comment-added";
              git_trigger = record no_git_trigger {
                approval =
                    record no_gerrit_approval { verified = get_zuul_pipeline_reporter_verified "1" }
                    ∷ [];
                username = "zuul";
              };
            }
            ∷ [],
      )
          ∷ [],
      none,
    )
    else if driver == "gitlab"
    then (
      (
        connection,
        record no_trigger {
          event = "gl_merge_request";
          git_lab_trigger = record no_git_lab_trigger { action = "approved" ∷ [] };
        }
            ∷ record no_trigger {
              event = "gl_merge_request";
              git_lab_trigger = record no_git_lab_trigger {
                action = "labeled" ∷ [];
                labels = "workflow" ∷ [];
              };
            }
            ∷ [],
      )
          ∷ [],
      none,
    )
    else ([], some (unsupported "gate Pipeline Trigger" driver))

-- The trigger of the internal git server is there for every driver, and for an unsupported one too.
abbrev git_server_trigger : PipelineGenericTrigger
git_server_trigger = ("git-server", record no_trigger { event = "ref-updated" } ∷ []) ∷ []

unfoldable pub get_trigger_post_by_driver : String → String → PipelineGenericTrigger × Option String
unfolding insert
get_trigger_post_by_driver driver connection =
    if driver == "gerrit"
    then (
      insert connection
          (record no_trigger {
            event = "ref-updated";
            ref = "^refs/heads/master$" ∷ "^refs/heads/main$" ∷ [];
          }
            ∷ [])
          git_server_trigger,
      none,
    )
    else if driver == "gitlab"
    then (
      insert connection
          (record no_trigger {
            event = "gl_push";
            ref = "^refs/heads/master$" ∷ "^refs/heads/main$" ∷ [];
          }
            ∷ [])
          git_server_trigger,
      none,
    )
    else (git_server_trigger, some (unsupported "post Pipeline Trigger" driver))
