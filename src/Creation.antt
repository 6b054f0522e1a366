-- ===== src/Creation.antt =====
-- pkg/workloadmanager/handlers.go: the creation of a sandbox with its rollback, the answers to a
-- creation and the deletion of a sandbox. A world `W` holds the store, the API server and the clock.
-- The outcomes of reading the request, of `extractOwnerID`, of the workload builders and of
-- `extractUserK8sClient` are arguments; contexts show through the errors that calls return. That a
-- watcher is registered before a creation and removed after it is left to `wait_for_created_sandbox`
-- here, which is a parameter of `createSandbox`, and to the module Watchers.
pub mod Build
pub mod Wait
pub mod Pods
pub mod Probe
pub mod Rollback
pub mod Success
pub mod Answers
pub mod Deletion
use agentcube.Prelude.{
  ℕ, String, Bool, true, false, ◌||◌, Option, none, some, ◌==◌, eqb, if◌then◌else◌,
}
use agentcube.Errors.{
  Error, Reason, status, internal_error, canceled, deadline_exceeded, err_sandbox_creation_timeout,
  err_sandbox_ready_watcher_not_registered, err_sandbox_ready_watcher_closed,
  err_sandbox_ready_watcher_missing_sandbox, err_agent_runtime_not_found,
  err_code_interpreter_not_found, err_no_identity_header, err_public_key_not_cached, root, wrap,
  is_not_found, is_context_error, new_internal_error, message, Result, ok, err, Try, ◌>>=◌, ◌>>◌,
  or_fail, return,
}
use agentcube.Time.{Time}
use agentcube.Types.{
  SandboxInfo, CreateSandboxRequest, CreateSandboxResponse, validate, agent_runtime_kind,
}
use agentcube.Store.{Store}
use agentcube.Cluster
use agentcube.Cluster.{Sandbox, SandboxClaim, sandboxes, sandbox_claims}
use Build.{SandboxEntry, build_sandbox_place_holder, build_sandbox_info}

-- A context error is passed on, any other becomes an internal error.
abbrev pub or_internal : Error → Error
or_internal e = if is_context_error e then e else new_internal_error

-- `createSandbox`, `createSandboxClaim`, `deleteSandbox` and `deleteSandboxClaim` of k8s_client.go
-- wrap the error of the API server; a deletion takes "not found" for success.
module _ {W : Type 0} (K : Cluster.Client W) where
  unfoldable pub create_k8s_resources : Sandbox → Option SandboxClaim → Try W (Unit {0})
  create_k8s_resources sandbox (some claim) =
      or_fail or_internal (or_fail wrap (K.create_sandbox_claim claim))
  create_k8s_resources sandbox none = or_fail or_internal (or_fail wrap (K.create_sandbox sandbox))

  unfoldable pub delete_object : Cluster.Resource → String → String → Try W (Unit {0})
  delete_object r namespace name w =
      let d = K.delete r namespace name w in
      elim d.0 [
        | ok _ ↦ (ok tt, d.1)
        | err e ↦ (if is_not_found e then ok tt else err (wrap e), d.1)
      ]

  -- `rollbackSandboxCreation`: errors are only logged.
  unfoldable pub rollback_sandbox_creation :
      Store W → Sandbox → Option SandboxClaim → String → W → W
  rollback_sandbox_creation S sandbox claim session_id w =
      let w' : W = elim claim [
        | some c ↦ (delete_object sandbox_claims c.namespace c.name w).1
        | none ↦ (delete_object sandboxes sandbox.namespace sandbox.name w).1
      ] in
      (S.delete_sandbox_by_session_id session_id w').1

-- What `createSandbox` waits for and reads of the sandbox: `waitForCreatedSandbox`,
-- `GetSandboxPodIP` and `waitForSandboxEntryPointsReady`.
pub record Waits (W : Type 0) : Type 0 where
  pub now : W → Time
  pub join_host_port : String → ℕ → String
  pub wait_for_created_sandbox : Try W Sandbox
  pub get_sandbox_pod_ip : String → String → String → Try W String
  pub wait_for_sandbox_entry_points_ready : String → SandboxEntry → Try W (Unit {0})

module _ {W : Type 0} (S : Store W) (K : Cluster.Client W) (T : Waits W) where
  abbrev pub pod_name : Sandbox → String
  pod_name created = elim created.pod_name_annotation [ some n ↦ n | none ↦ created.name ]

  -- The record that replaces the placeholder; a claim keeps its own name and times.
  unfoldable pub store_cache_info :
      SandboxInfo → Option SandboxClaim → Sandbox → String → SandboxEntry → SandboxInfo
  store_cache_info placeholder none created pod_ip entry =
      build_sandbox_info T.join_host_port created pod_ip entry
  store_cache_info placeholder (some claim) created pod_ip entry =
      let info = build_sandbox_info T.join_host_port created pod_ip entry in
      record info {
        name = claim.name;
        sandbox_namespace = claim.namespace;
        expires_at = placeholder.expires_at;
        created_at = placeholder.created_at;
      }

  unfoldable pub response_of : SandboxInfo → SandboxEntry → CreateSandboxResponse
  response_of info entry = record {
    kind = info.kind;
    session_id = entry.session_id;
    sandbox_id = info.sandbox_id;
    sandbox_name = info.name;
    entry_points = info.entry_points;
    owner_id = entry.owner_id;
  }

  -- What follows the placeholder: any error from here on is rolled back.
  unfoldable pub create_and_wait :
      SandboxInfo → Sandbox → Option SandboxClaim → SandboxEntry → Try W CreateSandboxResponse
  create_and_wait placeholder sandbox claim entry = do
    create_k8s_resources K sandbox claim
    created ← T.wait_for_created_sandbox
    pod_ip ←
        or_fail or_internal (T.get_sandbox_pod_ip created.namespace created.name (pod_name created))
    or_fail or_internal (T.wait_for_sandbox_entry_points_ready pod_ip entry)
    let info = store_cache_info placeholder claim created pod_ip entry
    or_fail or_internal (S.update_sandbox (some info))
    return (response_of info entry)

  unfoldable pub create_sandbox :
      Sandbox → Option SandboxClaim → SandboxEntry → Try W CreateSandboxResponse
  create_sandbox sandbox claim entry w =
      let placeholder = build_sandbox_place_holder (T.now w) sandbox entry in
      let stored = S.store_sandbox (some placeholder) w in
      elim stored.0 [
        | err e ↦ (err (or_internal e), stored.1)
        | ok _ ↦
            let r = create_and_wait placeholder sandbox claim entry stored.1 in
            (
              r.0,
              elim r.0 [
                | ok _ ↦ r.1
                | err e ↦ rollback_sandbox_creation K S sandbox claim entry.session_id r.1
              ],
            )
      ]
