-- ===== src/Cluster/Pod.antt =====
-- The pods of the Kubernetes API, cut down to the fields that pkg/workloadmanager reads or sets.
use agentcube.Prelude.{String, Option, none, List, []}
use agentcube.Prelude.Dict.{Dict}

pub record EnvVar : Type 0 where
  pub name : String
  pub value : String

-- `ResourceRequirements`, by resource name.
pub record ResourceRequirements : Type 0 where
  pub limits : Dict String
  pub requests : Dict String

pub record Container : Type 0 where
  pub name : String
  pub image : String
  pub image_pull_policy : String
  pub env : List EnvVar
  pub command : List String
  pub args : List String
  pub resources : ResourceRequirements

pub record PodSpec : Type 0 where
  pub image_pull_secrets : List String
  pub runtime_class_name : Option String
  pub containers : List Container

pub record PodTemplate : Type 0 where
  pub spec : PodSpec
  pub labels : Dict String
  pub annotations : Dict String

-- Go's zero value.
abbrev pub empty_pod_template : PodTemplate
empty_pod_template = record {
  spec = record { image_pull_secrets = []; runtime_class_name = none; containers = [] };
  labels = [];
  annotations = [];
}
