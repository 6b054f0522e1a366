-- ===== src/Creation/Success.antt =====
-- What a creation that succeeds has done: `createSandbox` of pkg/workloadmanager/handlers.go.
use agentcube.Prelude.{String, ◌≡◌, Option, some}
use agentcube.Errors.{ok}
use agentcube.Types.{CreateSandboxResponse}
use agentcube.Store.{Store}
use agentcube.Cluster
use agentcube.Cluster.{Sandbox, SandboxClaim, Resource, sandboxes, sandbox_claims}
use agentcube.Creation.Build.{SandboxEntry, build_sandbox_place_holder}
use agentcube.Creation.{
  Waits, create_k8s_resources, create_sandbox, response_of, store_cache_info, pod_name,
}

module _ {W : Type 0} (S : Store W) (K : Cluster.Client W) (T : Waits W) where
  -- The steps of a creation that has succeeded, each from the world that the last one left.
  abbrev pub IsCompleted :
      Sandbox → Option SandboxClaim → SandboxEntry → W → CreateSandboxResponse → Type 0
  IsCompleted sandbox claim entry w resp =
      (created : Sandbox) × (pod_ip : String) × let p =
          build_sandbox_place_holder (T.now w) sandbox entry in
        let info = store_cache_info S K T p claim created pod_ip entry in
        let w' = (S.store_sandbox (some p) w).1 in
        let u = (create_k8s_resources K sandbox claim w').1 in
        let u' = (T.wait_for_created_sandbox u).1 in
        let ip = T.get_sandbox_pod_ip created.namespace created.name (pod_name S K T created) u' in
        let v = (T.wait_for_sandbox_entry_points_ready pod_ip entry ip.1).1 in
        ((S.store_sandbox (some p) w).0 ≡ ok tt)
        × ((create_k8s_resources K sandbox claim w').0 ≡ ok tt)
        × ((T.wait_for_created_sandbox u).0 ≡ ok created)
        × (ip.0 ≡ ok pod_ip)
        × ((T.wait_for_sandbox_entry_points_ready pod_ip entry ip.1).0 ≡ ok tt)
        × (resp ≡ response_of S K T info entry)
        × ((S.update_sandbox (some info) v).0 ≡ ok tt)
        × ((S.update_sandbox (some info) v).1 ≡ (create_sandbox S K T sandbox claim entry w).1)
