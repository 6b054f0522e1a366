-- ===== src/Workload/Created.antt =====
-- What the builders of pkg/workloadmanager/workload_builder.go make together: the object, the entry
-- and the records that `createSandbox` of handlers.go stores for them.
use agentcube.Prelude.{
  String, ◌≡◌, refl, sym, ap, Option, none, some, ◌&&◌, ◌==◌, if◌then◌else◌, string_discrete,
}
use agentcube.Prelude.Dict.{Dict, lookup}
use agentcube.Errors.{
  is_not_found, Result, ok, err, IfOk, IfOk-if, IfOk-map_ok, IfOk-ok, wrap,
  err_agent_runtime_not_found, err_code_interpreter_not_found,
}
use agentcube.Time.{Time}
use agentcube.Types.{
  SandboxInfo, CreateSandboxRequest, sandbox_kind, sandbox_claims_kind, agent_runtime_kind,
}
use agentcube.Store.{Store}
use agentcube.Cluster
use agentcube.Cluster.{Resource, Sandbox, SandboxClaim, sandboxes, sandbox_claims}
use agentcube.Creation.{Waits, store_cache_info}
use agentcube.Creation.Answers.{Built}
use agentcube.Creation.Build.{SandboxEntry, build_sandbox_info}
use agentcube.Creation.Deletion.{resource_of}
use agentcube.Creation.Rollback.{made}
use agentcube.Workload.{AgentRuntime, CodeInterpreter, auth_mode_picod}
use agentcube.Workload.Objects.{
  build_sandbox_object-IsLabelled, build_sandbox_claim_object-IsLabelled, Texts, BuildSandboxParams,
  BuildSandboxClaimParams, build_sandbox_object, build_sandbox_claim_object, session_id_label_key,
  owner_annotation_key,
}
use agentcube.Workload.Builders.{
  Fresh, Informers, build_sandbox_by_agent_runtime, build_sandbox_by_code_interpreter, build_pooled,
  build_direct, build, wants_pool, agent_runtime_params, direct_params, claim_params,
  simple_sandbox,
}

-- The labels and the annotations of the object that is made.
abbrev pub made_labels : Built → Dict String
made_labels (sandbox, some claim, entry) = claim.labels
made_labels (sandbox, none, entry) = sandbox.labels

abbrev pub made_annotations : Built → Dict String
made_annotations (sandbox, some claim, entry) = claim.annotations
made_annotations (sandbox, none, entry) = sandbox.annotations

-- The object that the entry's kind and the sandbox's name designate.
unfoldable pub designated : Sandbox → SandboxEntry → Resource × String × String
designated sandbox entry = (
  if entry.kind == sandbox_claims_kind then sandbox_claims else sandboxes,
  sandbox.namespace,
  sandbox.name,
)

-- The entry designates the object that is made, which carries the session and its owner.
pub record IsCoherent (owner_id : String) (b : Built) : Type 0 where
  pub same_object : made b.0 b.1 ≡ designated b.0 b.2
  pub session : lookup session_id_label_key (made_labels b) ≡ some b.2.session_id
  pub owner :
      lookup owner_annotation_key (made_annotations b)
      ≡ (if owner_id == "" then none else some owner_id)

module _ (X : Texts) where
  sandbox-IsCoherent :
      (now : Time) (p : BuildSandboxParams) (entry : SandboxEntry)
      → entry.kind ≡ sandbox_kind
      → entry.session_id ≡ p.session_id
      → IsCoherent p.owner_id (build_sandbox_object X now p, none, entry)
  unfolding designated string_discrete
  sandbox-IsCoherent now p entry kind session =
      let l = build_sandbox_object-IsLabelled X now p in
      record { same_object = rw kind refl; session = rw session l.0; owner = l.1 }

  claim-IsCoherent :
      (sandbox : Sandbox) (p : BuildSandboxClaimParams) (entry : SandboxEntry)
      → entry.kind ≡ sandbox_claims_kind
      → entry.session_id ≡ p.session_id
      → sandbox.namespace ≡ p.namespace
      → sandbox.name ≡ p.name
      → IsCoherent p.owner_id (sandbox, some (build_sandbox_claim_object X p), entry)
  unfolding designated string_discrete build_sandbox_claim_object
  claim-IsCoherent sandbox p entry kind session ns n =
      let l = build_sandbox_claim_object-IsLabelled X p in
      record { same_object = rw (kind, ns, n) refl; session = rw session l.0; owner = l.1 }

  module _ (F : Fresh) where
    agent_runtime-IsCoherent :
        (namespace name owner_id : String) (r : Result AgentRuntime)
        → IfOk
            (λ b. IsCoherent owner_id (b.0, none, b.1))
            (build_sandbox_by_agent_runtime X F namespace name owner_id r)
    unfolding build_sandbox_by_agent_runtime agent_runtime_params
    agent_runtime-IsCoherent namespace name owner_id (err e) =
        IfOk-if (λ b. IsCoherent owner_id (b.0, none, b.1)) (is_not_found e)
          (err err_agent_runtime_not_found) (err (wrap e)) tt tt
    agent_runtime-IsCoherent namespace name owner_id (ok r) =
        sandbox-IsCoherent F.now (agent_runtime_params F namespace name owner_id r) _ refl refl

    module _ (key : String) where
      code_interpreter-IsCoherent :
          (namespace name owner_id : String) (r : Result CodeInterpreter)
          → IfOk
              (IsCoherent owner_id)
              (build_sandbox_by_code_interpreter X F key namespace name owner_id r)
      unfolding build_sandbox_by_code_interpreter build_pooled build_direct direct_params
          claim_params simple_sandbox
      code_interpreter-IsCoherent namespace name owner_id (err e) =
          IfOk-if (IsCoherent owner_id) (is_not_found e) (err err_code_interpreter_not_found)
            (err (wrap e)) tt tt
      code_interpreter-IsCoherent namespace name owner_id (ok r) =
          let P = IsCoherent owner_id in
          IfOk-if P (r.spec.auth_mode == auth_mode_picod && key == "") _ _ tt (
            IfOk-if P (wants_pool r.spec) _ _
              (claim-IsCoherent _ (claim_params F namespace name owner_id r) _ refl refl refl refl)
              (sandbox-IsCoherent F.now (direct_params F key namespace name owner_id r.spec) _ refl
                refl))

      -- Whatever `handleSandboxCreate` is given to create, the entry's kind and the sandbox's name
      -- designate the very object that is made, a claim just where the entry says so, and that object
      -- carries the entry's session and the owner, or no owner where there is none.
      pub build-IsCoherent :
          (I : Informers) (request : CreateSandboxRequest) (owner_id : String) (b : Built)
          → build X F key I request owner_id ≡ ok b
          → IsCoherent owner_id b
      unfolding build
      build-IsCoherent I request owner_id b h =
          let P = IsCoherent owner_id in
          IfOk-ok P (build X F key I request owner_id) b
            (IfOk-if P (request.kind == agent_runtime_kind) _ _
              (IfOk-map_ok P (λ b. (b.0, none, b.1)) _
                (agent_runtime-IsCoherent request.namespace request.name owner_id
                  (I.agent_runtime request.namespace request.name)))
              (code_interpreter-IsCoherent request.namespace request.name owner_id
                (I.code_interpreter request.namespace request.name)))
            h

      -- The record that replaces the placeholder once the sandbox is ready still designates the object
      -- that is made, where a sandbox without a claim is the one that was asked for.
      pub record_designates :
          {W : Type 0} (S : Store W) (K : Cluster.Client W) (T : Waits W) (I : Informers)
          (request : CreateSandboxRequest) (owner_id : String) (sandbox : Sandbox)
          (claim : Option SandboxClaim) (entry : SandboxEntry) (placeholder : SandboxInfo)
          (created : Sandbox) (pod_ip : String)
          → build X F key I request owner_id ≡ ok (sandbox, claim, entry)
          → (claim ≡ none → (created.namespace ≡ sandbox.namespace) × (created.name ≡ sandbox.name))
          → let r = store_cache_info S K T placeholder claim created pod_ip entry in
            (resource_of r, r.sandbox_namespace, r.name) ≡ made sandbox claim
      unfolding store_cache_info build_sandbox_info resource_of designated
      record_designates S K T I request owner_id sandbox none entry placeholder created pod_ip h
            same =
          let c = build-IsCoherent I request owner_id (sandbox, none, entry) h in
          rw ((same refl).0, (same refl).1) (sym c.same_object)
      record_designates S K T I request owner_id sandbox (some claim) entry placeholder created
            pod_ip h same =
          let c = build-IsCoherent I request owner_id (sandbox, some claim, entry) h in
          ap (λ t. (t.0, claim.namespace, claim.name)) (sym c.same_object)
