-- ===== src/Workload/Builders.antt =====
-- `buildSandboxByAgentRuntime` and `buildSandboxByCodeInterpreter` of
-- pkg/workloadmanager/workload_builder.go, and the choice between them in handlers.go. What the
-- listers return, the random names and the clock are arguments.
use agentcube.Prelude.{
  String, ◌<>◌, is_positive, Bool, false, ◌&&◌, Option, none, some, List, [], ◌∷◌, ◌++◌, ◌==◌,
  if◌then◌else◌,
}
use agentcube.Errors.{
  err_agent_runtime_not_found, err_code_interpreter_not_found, err_public_key_missing, wrap,
  is_not_found, map_ok, Result, ok, err,
}
use agentcube.Time.{Time, Duration, pos, add}
use agentcube.Types.{CreateSandboxRequest, sandbox_kind, sandbox_claims_kind, agent_runtime_kind}
use agentcube.Cluster.{Sandbox}
use agentcube.Cluster.Pod.{EnvVar, PodSpec, empty_pod_template}
use agentcube.Collector.{default_sandbox_idle_timeout}
use agentcube.Creation.Answers.{Built}
use agentcube.Creation.Build.{TargetPort, SandboxEntry}
use agentcube.Workload.{AgentRuntime, CodeInterpreter, CodeInterpreterSpec, auth_mode_picod}
use agentcube.Workload.Objects.{
  Texts, BuildSandboxParams, BuildSandboxClaimParams, build_sandbox_object,
  build_sandbox_claim_object, session_id_label_key,
}

-- What is made anew for a session: `uuid.New`, `RandString(8)` and `time.Now`.
pub record Fresh : Type 0 where
  pub session_id : String
  pub suffix : String
  pub now : Time

-- An empty class is the same as none.
unfoldable pub runtime_class : Option String → Option String
runtime_class none = none
runtime_class (some c) = if c == "" then none else some c

abbrev or_idle : Option Duration → Duration
or_idle none = default_sandbox_idle_timeout
or_idle (some d) = d

abbrev or_no_ttl : Option Duration → Duration
or_no_ttl none = pos 0
or_no_ttl (some d) = d

abbrev sandbox_name_of : String → Fresh → String
sandbox_name_of name F = name <> "-" <> F.suffix

unfoldable pub agent_runtime_params :
    Fresh → String → String → String → AgentRuntime → BuildSandboxParams
agent_runtime_params F namespace name owner_id runtime =
    let spec = runtime.template.spec in
    record {
      namespace = namespace;
      workload_name = name;
      sandbox_name = sandbox_name_of name F;
      session_id = F.session_id;
      owner_id = owner_id;
      ttl = or_no_ttl runtime.max_session_duration;
      idle_timeout = or_idle runtime.session_timeout;
      pod_spec = record spec { runtime_class_name = runtime_class spec.runtime_class_name };
      pod_labels = runtime.template.labels;
      pod_annotations = runtime.template.annotations;
    }

unfoldable pub build_sandbox_by_agent_runtime :
    Texts → Fresh → String → String → String → Result AgentRuntime → Result (Sandbox × SandboxEntry)
build_sandbox_by_agent_runtime X F namespace name owner_id (err e) =
    if is_not_found e then err err_agent_runtime_not_found else err (wrap e)
build_sandbox_by_agent_runtime X F namespace name owner_id (ok runtime) = ok (
  build_sandbox_object X F.now (agent_runtime_params F namespace name owner_id runtime),
  record {
    kind = sandbox_kind;
    session_id = F.session_id;
    owner_id = "";
    ports = runtime.ports;
    idle_timeout = or_idle runtime.session_timeout;
  },
)

-- `key` is the cached public key.
unfoldable pub build_code_interpreter_env_vars : String → List EnvVar → String → List EnvVar
build_code_interpreter_env_vars key template_env auth_mode =
    if auth_mode == auth_mode_picod
    then template_env ++ (record { name = "PICOD_AUTH_PUBLIC_KEY"; value = key } ∷ [])
    else template_env

abbrev default_ports : List TargetPort → List TargetPort
default_ports [] = record { path_prefix = "/"; protocol = "HTTP"; port = 8080 } ∷ []
default_ports (p ∷ ports) = p ∷ ports

abbrev pub wants_pool : CodeInterpreterSpec → Bool
wants_pool spec = elim spec.warm_pool_size [ some n ↦ is_positive n | none ↦ false ]

unfoldable pub code_interpreter_pod_spec : String → CodeInterpreterSpec → PodSpec
code_interpreter_pod_spec key spec = record {
  image_pull_secrets = spec.template.image_pull_secrets;
  runtime_class_name = runtime_class spec.template.runtime_class_name;
  containers =
      record {
        name = "code-interpreter";
        image = spec.template.image;
        image_pull_policy = spec.template.image_pull_policy;
        env = build_code_interpreter_env_vars key spec.template.environment spec.auth_mode;
        command = spec.template.command;
        args = spec.template.args;
        resources = spec.template.resources;
      }
      ∷ [];
}

unfoldable pub claim_params :
    Fresh → String → String → String → CodeInterpreter → BuildSandboxClaimParams
claim_params F namespace name owner_id interpreter = record {
  namespace = namespace;
  name = sandbox_name_of name F;
  sandbox_template_name = name;
  session_id = F.session_id;
  owner_id = owner_id;
  idle_timeout = or_idle interpreter.spec.session_timeout;
  owner_reference =
      some (record { kind = "CodeInterpreter"; name = interpreter.name; uid = interpreter.uid });
}

-- The sandbox that stands for a claim until the warm pool gives one.
unfoldable pub simple_sandbox : Fresh → String → String → CodeInterpreterSpec → Sandbox
simple_sandbox F namespace name spec = record {
  name = sandbox_name_of name F;
  namespace = namespace;
  labels = (session_id_label_key, F.session_id) ∷ [];
  annotations = [];
  uid = "";
  creation_timestamp = 0;
  pod_template = empty_pod_template;
  shutdown_time = elim spec.max_session_duration [ some d ↦ some (add F.now d) | none ↦ none ];
  conditions = [];
  pod_name_annotation = none;
}

unfoldable pub build_pooled :
    Texts → Fresh → String → String → String → CodeInterpreter → SandboxEntry → Built
build_pooled X F namespace name owner_id interpreter entry = (
  simple_sandbox F namespace name interpreter.spec,
  some (build_sandbox_claim_object X (claim_params F namespace name owner_id interpreter)),
  record entry { kind = sandbox_claims_kind },
)

unfoldable pub direct_params :
    Fresh → String → String → String → String → CodeInterpreterSpec → BuildSandboxParams
direct_params F key namespace name owner_id spec = record {
  namespace = namespace;
  workload_name = name;
  sandbox_name = sandbox_name_of name F;
  session_id = F.session_id;
  owner_id = owner_id;
  ttl = or_no_ttl spec.max_session_duration;
  idle_timeout = or_idle spec.session_timeout;
  pod_spec = code_interpreter_pod_spec key spec;
  pod_labels = spec.template.labels;
  pod_annotations = spec.template.annotations;
}

unfoldable pub build_direct :
    Texts → Fresh → String → String → String → String → CodeInterpreterSpec → SandboxEntry → Built
build_direct X F key namespace name owner_id spec entry =
    (build_sandbox_object X F.now (direct_params F key namespace name owner_id spec), none, entry)

unfoldable pub build_sandbox_by_code_interpreter :
    Texts → Fresh → String → String → String → String → Result CodeInterpreter → Result Built
build_sandbox_by_code_interpreter X F key namespace name owner_id (err e) =
    if is_not_found e then err err_code_interpreter_not_found else err (wrap e)
build_sandbox_by_code_interpreter X F key namespace name owner_id (ok interpreter) =
    let spec = interpreter.spec in
    let entry : SandboxEntry = record {
      kind = sandbox_kind;
      session_id = F.session_id;
      owner_id = "";
      ports = default_ports spec.ports;
      idle_timeout = or_idle spec.session_timeout;
    } in
    if spec.auth_mode == auth_mode_picod && key == ""
    then err err_public_key_missing
    else if wants_pool spec
    then ok (build_pooled X F namespace name owner_id interpreter entry)
    else ok (build_direct X F key namespace name owner_id spec entry)

-- The informers' listers, by namespace and name.
pub record Informers : Type 0 where
  pub agent_runtime : String → String → Result AgentRuntime
  pub code_interpreter : String → String → Result CodeInterpreter

-- The `switch` of `handleSandboxCreate`, after `Validate`.
unfoldable pub build :
    Texts → Fresh → String → Informers → CreateSandboxRequest → String → Result Built
build X F key I request owner_id =
    if request.kind == agent_runtime_kind
    then map_ok (λ b. (b.0, none, b.1))
        (build_sandbox_by_agent_runtime X F request.namespace request.name owner_id
          (I.agent_runtime request.namespace request.name))
    else build_sandbox_by_code_interpreter X F key request.namespace request.name owner_id
        (I.code_interpreter request.namespace request.name)
