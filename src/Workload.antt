-- ===== src/Workload.antt =====
-- pkg/apis/runtime/v1alpha1: agent runtimes and code interpreters, from which sandboxes are built, and
-- the key of the Router that pkg/workloadmanager/workload_builder.go keeps for them.
pub mod Objects
pub mod Builders
pub mod Created
pub mod Limits
pub mod KeyCache
use agentcube.Prelude.{ℕ, String, ℤ, Option, List, Bool}
use agentcube.Prelude.Dict.{Dict}
use agentcube.Time.{Duration}
use agentcube.Cluster.Pod.{EnvVar, ResourceRequirements, PodTemplate}
use agentcube.Creation.Build.{TargetPort}

-- A pod template stands for `SandboxTemplate`, which is required.
pub record AgentRuntime : Type 0 where
  pub name : String
  pub namespace : String
  pub ports : List TargetPort
  pub template : PodTemplate
  pub session_timeout : Option Duration
  pub max_session_duration : Option Duration

pub record CodeInterpreterSandboxTemplate : Type 0 where
  pub labels : Dict String
  pub annotations : Dict String
  pub runtime_class_name : Option String
  pub image : String
  pub image_pull_policy : String
  pub image_pull_secrets : List String
  pub environment : List EnvVar
  pub command : List String
  pub args : List String
  pub resources : ResourceRequirements

-- `AuthModeType`: an empty text where the field was not set.
abbrev pub auth_mode_picod : String
auth_mode_picod = "picod"

abbrev pub auth_mode_none : String
auth_mode_none = "none"

pub record CodeInterpreterSpec : Type 0 where
  pub ports : List TargetPort
  pub template : CodeInterpreterSandboxTemplate
  pub session_timeout : Option Duration
  pub max_session_duration : Option Duration
  pub warm_pool_size : Option ℤ
  pub auth_mode : String

pub record StatusCondition : Type 0 where
  pub type : String
  pub status : String
  pub observed_generation : ℕ

pub record CodeInterpreter : Type 0 where
  pub name : String
  pub namespace : String
  pub uid : String
  pub generation : ℕ
  pub spec : CodeInterpreterSpec
  -- The status.
  pub ready : Bool
  pub conditions : List StatusCondition
