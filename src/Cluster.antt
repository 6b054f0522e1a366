-- ===== src/Cluster.antt =====
-- The Kubernetes API as pkg/workloadmanager uses it, over a world `W`: a parameter of the model, with
-- the objects of the agent-sandbox API cut down to the fields that the code reads.
pub mod Pod
use agentcube.Prelude.{String, Option, List}
use agentcube.Prelude.Dict.{Dict}
use agentcube.Errors.{Try}
use agentcube.Time.{Time}
use Pod.{PodTemplate}

-- `SandboxGVR` and `SandboxClaimGVR`.
pub data Resource : Type 0 where
  sandboxes sandbox_claims : Resource

pub record Condition : Type 0 where
  pub type : String
  pub status : String

pub record Sandbox : Type 0 where
  pub name : String
  pub namespace : String
  pub labels : Dict String
  pub annotations : Dict String
  pub uid : String
  pub creation_timestamp : Time
  pub pod_template : PodTemplate
  pub shutdown_time : Option Time
  pub conditions : List Condition
  -- The annotation `SandboxPodNameAnnotation`, if it is there.
  pub pod_name_annotation : Option String

pub record OwnerReference : Type 0 where
  pub kind : String
  pub name : String
  pub uid : String

pub record SandboxClaim : Type 0 where
  pub name : String
  pub namespace : String
  pub labels : Dict String
  pub annotations : Dict String
  pub owner_references : List OwnerReference
  pub template_name : String
  -- `Status.SandboxStatus.Name`
  pub status_sandbox_name : String

-- A client of the API server, which acts with the permissions of its token.
pub record Client (W : Type 0) : Type 0 where
  pub create_sandbox : Sandbox → Try W (Unit {0})
  pub create_sandbox_claim : SandboxClaim → Try W (Unit {0})
  pub get_sandbox : String → String → Try W Sandbox
  pub get_sandbox_claim : String → String → Try W SandboxClaim
  pub delete : Resource → String → String → Try W (Unit {0})
