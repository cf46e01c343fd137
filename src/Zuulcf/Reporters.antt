-- ===== src/Zuulcf/Reporters.antt =====
-- What a pipeline reports on a change when it starts, succeeds and fails, in that order:
-- GetReportersCheckByDriver and GetReportersGateByDriver.
use sf_operator.Common.{String, true, false, Option, none, some, List, [], ◌∷◌, ◌==◌, if◌then◌else◌}
use sf_operator.Zuulcf.Types.{PipelineReporter, no_git_lab_reporter, no_reporter}
use sf_operator.Zuulcf.Values.{get_zuul_pipeline_reporter_verified}
use sf_operator.Zuulcf.Require.{unsupported}

unfoldable pub get_reporters_check_by_driver :
    String → String → List PipelineReporter × Option String
unfolding get_zuul_pipeline_reporter_verified
get_reporters_check_by_driver driver connection =
    if driver == "gerrit"
    then (
      record {
        reporter =
            (
              connection,
              record {
                gitlab = none;
                gerrit =
                    some (record {
                      submit = false;
                      verified = get_zuul_pipeline_reporter_verified "0";
                    });
              },
            )
            ∷ [];
        sql_reporter = [];
      }
          ∷ record {
            reporter =
                (
                  connection,
                  record {
                    gitlab = none;
                    gerrit = some (record {
                      submit = false;
                      verified = get_zuul_pipeline_reporter_verified "1";
                    });
                  },
                )
                ∷ [];
            sql_reporter = [];
          }
          ∷ record {
            reporter =
                (
                  connection,
                  record {
                    gitlab = none;
                    gerrit = some (record {
                      submit = false;
                      verified = get_zuul_pipeline_reporter_verified "-1";
                    });
                  },
                )
                ∷ [];
            sql_reporter = [];
          }
          ∷ [],
      none,
    )
    else if driver == "gitlab"
    then (
      record {
        reporter =
            (
              connection,
              record {
                gitlab = some (record no_git_lab_reporter {
                  comment = true;
                  approval = false;
                  merge = false;
                });
                gerrit = none;
              },
            )
            ∷ [];
        sql_reporter = [];
      }
          ∷ record {
            reporter =
                (
                  connection,
                  record {
                    gitlab = some (record no_git_lab_reporter {
                      comment = true;
                      approval = true;
                      merge = false;
                    });
                    gerrit = none;
                  },
                )
                ∷ [];
            sql_reporter = [];
          }
          ∷ record {
            reporter =
                (
                  connection,
                  record {
                    gitlab = some (record no_git_lab_reporter {
                      comment = true;
                      approval = false;
                      merge = false;
                    });
                    gerrit = none;
                  },
                )
                ∷ [];
            sql_reporter = [];
          }
          ∷ [],
      none,
    )
    else (
      no_reporter ∷ no_reporter ∷ no_reporter ∷ [],
      some (unsupported "check Pipeline Reporters" driver),
    )

unfoldable pub get_reporters_gate_by_driver :
    String → String → List PipelineReporter × Option String
unfolding get_zuul_pipeline_reporter_verified
get_reporters_gate_by_driver driver connection =
    if driver == "gerrit"
    then (
      record {
        reporter =
            (
              connection,
              record {
                gitlab = none;
                gerrit =
                    some (record {
                      submit = false;
                      verified = get_zuul_pipeline_reporter_verified "0";
                    });
              },
            )
            ∷ [];
        sql_reporter = [];
      }
          ∷ record {
            reporter =
                (
                  connection,
                  record {
                    gitlab = none;
                    gerrit = some (record {
                      submit = true;
                      verified = get_zuul_pipeline_reporter_verified "2";
                    });
                  },
                )
                ∷ [];
            sql_reporter = [];
          }
          ∷ record {
            reporter =
                (
                  connection,
                  record {
                    gitlab = none;
                    gerrit = some (record {
                      submit = false;
                      verified = get_zuul_pipeline_reporter_verified "-2";
                    });
                  },
                )
                ∷ [];
            sql_reporter = [];
          }
          ∷ [],
      none,
    )
    else if driver == "gitlab"
    then (
      record {
        reporter =
            (
              connection,
              record {
                gitlab = some (record no_git_lab_reporter {
                  comment = true;
                  approval = false;
                  merge = false;
                });
                gerrit = none;
              },
            )
            ∷ [];
        sql_reporter = [];
      }
          ∷ record {
            reporter =
                (
                  connection,
                  record {
                    gitlab = some (record no_git_lab_reporter {
                      comment = true;
                      approval = true;
                      merge = true;
                    });
                    gerrit = none;
                  },
                )
                ∷ [];
            sql_reporter = [];
          }
          ∷ record {
            reporter =
                (
                  connection,
                  record {
                    gitlab = some (record no_git_lab_reporter {
                      comment = true;
                      approval = false;
                      merge = false;
                    });
                    gerrit = none;
                  },
                )
                ∷ [];
            sql_reporter = [];
          }
          ∷ [],
      none,
    )
    else (
      no_reporter ∷ no_reporter ∷ no_reporter ∷ [],
      some (unsupported "gate Pipeline Reporters" driver),
    )
