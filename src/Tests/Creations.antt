-- ===== src/Tests/Creations.antt =====
-- The theorems about creations and deletions at the world of Tests/World.antt.
use agentcube.Prelude.{String, ◌≡◌, refl, true, false, none, [], arith, subst, string_discrete}
use agentcube.Errors.{
  Error, message, root, is_not_found, is_context_error, new_internal_error, err_no_identity_header,
  Result, ok, err,
}
use agentcube.Types.{CreateSandboxRequest, CreateSandboxResponse, validate}
use agentcube.Cluster
use agentcube.Cluster.{Resource, Sandbox, sandboxes}
use agentcube.Creation.{create_sandbox, create_and_wait, create_k8s_resources, delete_object}
use agentcube.Creation.Rollback.{IsRemoval, create_sandbox_failed}
use agentcube.Creation.Answers.{is_refusal, handle_sandbox_create, handle_sandbox_create_refused}
use agentcube.Creation.Deletion.{
  IsSeparate, alive_of, handle_delete_sandbox, handle_delete_sandbox_deleted,
  handle_delete_sandbox_kept, delete_and_respond, resource_of,
}
use agentcube.Tests.World.{
  World, info, sandbox, entry, store, cluster, waits, running, refusing, removal, stuck,
  IsRemoval-stuck, IsSeparate-stuck, reachable,
}

abbrev text_of : Error → String
text_of e = "error"

failed : (create_sandbox store cluster waits sandbox none entry refusing).0 ≡ err new_internal_error
unfolding create_sandbox create_and_wait create_k8s_resources is_context_error root
failed = refl

create_sandbox_failed_example :
    ((create_sandbox store cluster waits sandbox none entry refusing).1.alive sandboxes "ns" "box"
      ≡ false)
    × ((create_sandbox store cluster waits sandbox none entry refusing).1.held "s1" ≡ false)
create_sandbox_failed_example =
    create_sandbox_failed store cluster (λ w. w.alive) (λ w. w.held) removal waits sandbox none
      entry refusing new_internal_error refl failed (λ w. reachable sandboxes "ns" "box" w)
      (λ w. refl)

abbrev answer : CreateSandboxResponse
answer = record {
  kind = "Sandbox";
  session_id = "s1";
  sandbox_id = "u1";
  sandbox_name = "box";
  entry_points = [];
  owner_id = "alice";
}

abbrev request : CreateSandboxRequest
request = record { kind = "AgentRuntime"; name = ""; namespace = "ns" }

refused :
    is_refusal
      (handle_sandbox_create text_of store cluster waits "AgentRuntime"
        (ok request)
        (err err_no_identity_header)
        (λ r o. err (message ""))
        false
        (err (message ""))
        running).0.code
    ≡ true
unfolding handle_sandbox_create validate string_discrete
refused = refl

handle_sandbox_create_refused_example :
    (handle_sandbox_create text_of store cluster waits "AgentRuntime"
      (ok request)
      (err err_no_identity_header)
      (λ r o. err (message ""))
      false
      (err (message ""))
      running).1
    ≡ running
handle_sandbox_create_refused_example =
    handle_sandbox_create_refused text_of store cluster waits "AgentRuntime" (ok request)
      (err err_no_identity_header) (λ r o. err (message "")) false (err (message "")) running
      refused

found : (store.get_sandbox_by_session_id "s1" running).0 ≡ ok info
unfolding string_discrete
found = refl

-- The user's client is the server's one.
as_user :
    (C K : Cluster.Client World) (P : Cluster.Client World → Type 0)
    → Result.ok K ≡ Result.ok C
    → P K
    → P C
as_user C K P e h = let same : K ≡ C = ground arith in subst P same h

deleted_ok :
    (handle_delete_sandbox text_of store cluster true (ok cluster) "s1" running).0.code ≡ 200
unfolding handle_delete_sandbox delete_and_respond resource_of delete_object string_discrete
deleted_ok = refl

handle_delete_sandbox_deleted_example :
    let w' = (handle_delete_sandbox text_of store cluster true (ok cluster) "s1" running).1 in
    (alive_of (λ w. w.alive) w' info ≡ false) × (w'.held "s1" ≡ false)
handle_delete_sandbox_deleted_example =
    handle_delete_sandbox_deleted store (λ w. w.alive) (λ w. w.held) text_of cluster true
      (ok cluster) "s1" running info removal
      (λ C e. as_user C cluster (λ C. IsRemoval store C (λ w. w.alive) (λ w. w.held)) e removal)
      found deleted_ok

kept_alive :
    alive_of
      (λ w. w.alive)
      (handle_delete_sandbox text_of store stuck true (ok stuck) "s1" running).1
      info
    ≡ true
unfolding handle_delete_sandbox delete_and_respond resource_of delete_object is_not_found root
    string_discrete
kept_alive = refl

handle_delete_sandbox_kept_example :
    (handle_delete_sandbox text_of store stuck true (ok stuck) "s1" running).1.held "s1"
    ≡ running.held "s1"
handle_delete_sandbox_kept_example =
    handle_delete_sandbox_kept store (λ w. w.alive) (λ w. w.held) text_of stuck true (ok stuck) "s1"
      running info (IsRemoval-stuck, IsSeparate-stuck)
      (λ C e.
        as_user C stuck
          (λ C. IsRemoval store C (λ w. w.alive) (λ w. w.held) × IsSeparate store C (λ w. w.held)) e
          (IsRemoval-stuck, IsSeparate-stuck))
      found kept_alive
