-- ===== src/Workload/Objects.antt =====
-- StatefulSets, Deployments and Pods of the Kubernetes API: the parts that the operator sets or
-- compares. The type parameters are the parts that it only copies.
use sf_operator.Common.{String, Bool, Option, none, some, List}
use sf_operator.Common.Int.{ℤ, pos}
use sf_operator.Kube.Objects.{GoMap}
use sf_operator.Workload.Image.{Container}

-- apiv1.PodTemplateSpec
pub record Template (C : Type 0) : Type 0 where
  pub annotations : GoMap
  pub containers : List (Container C)
  pub termination_grace_period_seconds : Option ℤ

pub record WorkloadStatus : Type 0 where
  pub observed_generation : ℤ
  pub replicas : ℤ
  pub ready_replicas : ℤ
  pub current_replicas : ℤ
  pub available_replicas : ℤ

pub record StatefulSet (C : Type 0) : Type 0 where
  pub name : String
  pub generation : ℤ
  pub replicas : Option ℤ
  pub template : Template C
  pub status : WorkloadStatus

pub record Deployment (C S : Type 0) : Type 0 where
  pub name : String
  pub generation : ℤ
  pub replicas : Option ℤ
  pub strategy : S
  pub template : Template C
  pub status : WorkloadStatus

-- Of each container of the pod: whether it is ready, and the reason for which it waits, if it does.
pub record ContainerStatus : Type 0 where
  pub ready : Bool
  pub waiting : Option String

pub record Pod : Type 0 where
  pub name : String
  pub phase : String
  pub container_statuses : List ContainerStatus
  pub init_container_statuses : List ContainerStatus

abbrev pub get_grace_period : {C : Type 0} → StatefulSet C → ℤ
get_grace_period sts = elim sts.template.termination_grace_period_seconds [
  | none ↦ pos 30
  | some n ↦ n
]

-- A count of 1 is assumed.
abbrev pub replicas_or_one : Option ℤ → ℤ
replicas_or_one none = pos 1
replicas_or_one (some n) = n
