-- ===== src/Zuulcf/Types.antt =====
-- The structures of zuulcf.go that the driver functions fill. A map is an association list, an
-- `omitempty` field that a literal leaves out has its zero value, and a pointer is an option.
use sf_operator.Common.{String, Bool, false, Option, List, []}
use sf_operator.Common.Assoc.{Assoc}
use sf_operator.Common.Int.{ℤ, pos}

-- type GerritVotePoint int8, and the two types defined from it.
abbrev pub GerritVotePoint : Type 0
GerritVotePoint = ℤ

abbrev pub GerritWorkflow : Type 0
GerritWorkflow = GerritVotePoint

abbrev pub GerritCodeReview : Type 0
GerritCodeReview = GerritVotePoint

pub record PipelineRequireGerritApproval : Type 0 where
  pub workflow : GerritWorkflow
  pub verified : GerritVotePoint
  pub code_review : GerritCodeReview

abbrev pub no_gerrit_approval : PipelineRequireGerritApproval
no_gerrit_approval = record { workflow = pos 0; verified = pos 0; code_review = pos 0 }

pub record PipelineGerritRequirement : Type 0 where
  pub username : String
  pub current_patchset : Bool
  pub verified : List GerritVotePoint
  pub gerrit_approval : List PipelineRequireGerritApproval
  pub workflow : GerritWorkflow

abbrev pub no_gerrit_requirement : PipelineGerritRequirement
no_gerrit_requirement = record {
  username = "";
  current_patchset = false;
  verified = [];
  gerrit_approval = [];
  workflow = pos 0;
}

pub record PipelineGitLabRequirement : Type 0 where
  pub merged : Bool
  pub approved : Bool
  pub labels : List String

abbrev pub no_git_lab_requirement : PipelineGitLabRequirement
no_git_lab_requirement = record { merged = false; approved = false; labels = [] }

-- `is_open` is the field `Open`.
pub record PipelineRequireApproval : Type 0 where
  pub is_open : Bool
  pub gerrit : PipelineGerritRequirement
  pub gitlab : PipelineGitLabRequirement

abbrev pub no_require_approval : PipelineRequireApproval
no_require_approval = record {
  is_open = false;
  gerrit = no_gerrit_requirement;
  gitlab = no_git_lab_requirement;
}

abbrev pub PipelineRequire : Type 0
PipelineRequire = Assoc PipelineRequireApproval

pub record PipelineTriggerGitGerrit : Type 0 where
  pub approval : List PipelineRequireApproval

-- type GitGlMergeRequests string, with its constants.
abbrev pub GitGlMergeRequests : Type 0
GitGlMergeRequests = String

pub record PipelineTriggerGitLab : Type 0 where
  pub action : List GitGlMergeRequests
  pub labels : List String
  pub unlabels : List String

abbrev pub no_git_lab_trigger : PipelineTriggerGitLab
no_git_lab_trigger = record { action = []; labels = []; unlabels = [] }

pub record PipelineTriggerGit : Type 0 where
  pub gerrit : PipelineTriggerGitGerrit
  pub approval : List PipelineRequireGerritApproval
  pub username : String

abbrev pub no_git_trigger : PipelineTriggerGit
no_git_trigger = record { gerrit = record { approval = [] }; approval = []; username = "" }

pub record PipelineTrigger : Type 0 where
  pub event : String
  pub comment : String
  pub ref : List String
  pub git_trigger : PipelineTriggerGit
  pub git_lab_trigger : PipelineTriggerGitLab

abbrev pub no_trigger : PipelineTrigger
no_trigger = record {
  event = "";
  comment = "";
  ref = [];
  git_trigger = no_git_trigger;
  git_lab_trigger = no_git_lab_trigger;
}

abbrev pub PipelineTriggerArray : Type 0
PipelineTriggerArray = List PipelineTrigger

abbrev pub PipelineGenericTrigger : Type 0
PipelineGenericTrigger = Assoc PipelineTriggerArray

pub record PipelineGitLabReporter : Type 0 where
  pub comment : Bool
  pub approval : Bool
  pub merge : Bool
  pub labels : List String
  pub unlabels : List String

abbrev pub no_git_lab_reporter : PipelineGitLabReporter
no_git_lab_reporter = record {
  comment = false;
  approval = false;
  merge = false;
  labels = [];
  unlabels = [];
}

pub record PipelineGerritReporter : Type 0 where
  pub submit : Bool
  pub verified : GerritVotePoint

pub record PipelineDriverReporter : Type 0 where
  pub gitlab : Option PipelineGitLabReporter
  pub gerrit : Option PipelineGerritReporter

abbrev pub ReporterMap : Type 0
ReporterMap = Assoc PipelineDriverReporter

pub record PipelineReporter : Type 0 where
  pub reporter : ReporterMap
  pub sql_reporter : List String

-- PipelineReporter{}
abbrev pub no_reporter : PipelineReporter
no_reporter = record { reporter = []; sql_reporter = [] }
