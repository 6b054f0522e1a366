-- ===== src/Creation/Build.antt =====
-- pkg/workloadmanager/sandbox_helper.go: the store records of a sandbox that is being created and of
-- one that is ready, and the probe of its entry points.
use agentcube.Prelude.{
  ℕ, ◌+◌, String, Bool, true, false, ◌&&◌, none, some, List, [], ◌∷◌, ◌==◌, if◌then◌else◌,
}
use agentcube.Errors.{wrap, ok, err, Try}
use agentcube.Time.{Time, Duration, is_zero}
use agentcube.Types.{SandboxInfo, SandboxEntryPoint}
use agentcube.Cluster.{Sandbox, Condition}
use agentcube.Collector.{default_sandbox_idle_timeout, is_zero_duration}

pub record TargetPort : Type 0 where
  pub path_prefix : String
  pub protocol : String
  pub port : ℕ

-- `sandboxEntry` of k8s_client.go.
pub record SandboxEntry : Type 0 where
  pub kind : String
  pub session_id : String
  pub owner_id : String
  pub ports : List TargetPort
  pub idle_timeout : Duration

-- `DefaultSandboxTTL`: eight hours.
abbrev pub default_sandbox_ttl : ℕ
default_sandbox_ttl = 28_800_000_000_000

abbrev pub sandbox_status_ready : String
sandbox_status_ready = "ready"

abbrev pub sandbox_status_not_ready : String
sandbox_status_not_ready = "not-ready"

abbrev pub or_default : Duration → Duration
or_default d = if is_zero_duration d then default_sandbox_idle_timeout else d

unfoldable pub build_sandbox_place_holder : Time → Sandbox → SandboxEntry → SandboxInfo
build_sandbox_place_holder now sandbox entry = record {
  kind = entry.kind;
  sandbox_id = "";
  sandbox_namespace = sandbox.namespace;
  name = sandbox.name;
  entry_points = [];
  session_id = entry.session_id;
  owner_id = entry.owner_id;
  created_at = if is_zero sandbox.creation_timestamp then now else sandbox.creation_timestamp;
  expires_at = elim sandbox.shutdown_time [ some t ↦ t | none ↦ now + default_sandbox_ttl ];
  idle_timeout = or_default entry.idle_timeout;
  last_activity_at = 0;
  status = "creating";
}

abbrev has_ready : List Condition → Bool
has_ready [] = false
has_ready (c ∷ conditions) =
    if c.type == "Ready" && c.status == "True" then true else has_ready conditions

unfoldable pub get_sandbox_status : Sandbox → String
get_sandbox_status sandbox =
    if has_ready sandbox.conditions then sandbox_status_ready else sandbox_status_not_ready

module _ (join_host_port : String → ℕ → String) where
  unfoldable pub accesses : String → List TargetPort → List SandboxEntryPoint
  accesses pod_ip [] = []
  accesses pod_ip (p ∷ ports) =
      record {
        path = p.path_prefix;
        protocol = p.protocol;
        endpoint = join_host_port pod_ip p.port;
      }
      ∷ accesses pod_ip ports

  unfoldable pub build_sandbox_info : Sandbox → String → SandboxEntry → SandboxInfo
  build_sandbox_info sandbox pod_ip entry = record {
    kind = entry.kind;
    sandbox_id = sandbox.uid;
    sandbox_namespace = sandbox.namespace;
    name = sandbox.name;
    entry_points = accesses pod_ip entry.ports;
    session_id = entry.session_id;
    owner_id = entry.owner_id;
    created_at = sandbox.creation_timestamp;
    expires_at = elim sandbox.shutdown_time [
      | some t ↦ t
      | none ↦ sandbox.creation_timestamp + default_sandbox_ttl
    ];
    idle_timeout = or_default entry.idle_timeout;
    last_activity_at = 0;
    status = get_sandbox_status sandbox;
  }

  -- One probe: the first entry point that cannot be reached ends it.
  unfoldable pub probe_sandbox_entry_points :
      {W : Type 0} → (String → Try W (Unit {0})) → String → List TargetPort → Try W (Unit {0})
  probe_sandbox_entry_points dial pod_ip [] w = (ok tt, w)
  probe_sandbox_entry_points dial pod_ip (p ∷ ports) w =
      let d = dial (join_host_port pod_ip p.port) w in
      let rest = probe_sandbox_entry_points dial pod_ip ports d.1 in
      elim d.0 [ ok _ ↦ rest | err e ↦ (err (wrap e), d.1) ]
