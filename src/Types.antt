-- ===== src/Types.antt =====
-- pkg/common/types: the record kept for a sandbox, and the requests that create one.
use agentcube.Prelude.{String, List, ◌||◌, ◌==◌, if◌then◌else◌}
use agentcube.Errors.{message, Result, ok, err}
use agentcube.Time.{Time, Duration}

pub record SandboxEntryPoint : Type 0 where
  pub path : String
  pub protocol : String
  pub endpoint : String

pub record SandboxInfo : Type 0 where
  pub kind : String
  pub sandbox_id : String
  pub sandbox_namespace : String
  pub name : String
  pub entry_points : List SandboxEntryPoint
  pub session_id : String
  pub owner_id : String
  pub created_at : Time
  pub expires_at : Time
  pub idle_timeout : Duration
  pub last_activity_at : Time
  pub status : String

pub record CreateSandboxRequest : Type 0 where
  pub kind : String
  pub name : String
  pub namespace : String

pub record CreateSandboxResponse : Type 0 where
  pub kind : String
  pub session_id : String
  pub sandbox_id : String
  pub sandbox_name : String
  pub entry_points : List SandboxEntryPoint
  pub owner_id : String

abbrev pub agent_runtime_kind : String
agent_runtime_kind = "AgentRuntime"

abbrev pub code_interpreter_kind : String
code_interpreter_kind = "CodeInterpreter"

abbrev pub sandbox_kind : String
sandbox_kind = "Sandbox"

abbrev pub sandbox_claims_kind : String
sandbox_claims_kind = "SandboxClaim"

unfoldable pub validate : CreateSandboxRequest → Result (Unit {0})
validate car =
    if car.kind == agent_runtime_kind || car.kind == code_interpreter_kind
    then (if car.namespace == ""
        then err (message "namespace is required")
        else if car.name == ""
        then err (message "name is required")
        else ok tt)
    else err (message "invalid kind")
