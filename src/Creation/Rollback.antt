-- ===== src/Creation/Rollback.antt =====
-- What `createSandbox` and `rollbackSandboxCreation` of pkg/workloadmanager/handlers.go leave behind.
use agentcube.Prelude.{String, ◌≡◌, Bool, true, false, Option, none, some, arith, inl, inr, ◌⊎◌}
use agentcube.Errors.{Error, is_not_found, ok, err}
use agentcube.Store.{Store}
use agentcube.Cluster
use agentcube.Cluster.{Sandbox, SandboxClaim, Resource, sandboxes, sandbox_claims}
use agentcube.Creation.Build.{SandboxEntry, build_sandbox_place_holder}
use agentcube.Creation.{
  Waits, create_and_wait, create_sandbox, rollback_sandbox_creation, delete_object,
}

-- The object that a creation makes.
abbrev pub made : Sandbox → Option SandboxClaim → Resource × String × String
made sandbox (some c) = (sandbox_claims, c.namespace, c.name)
made sandbox none = (sandboxes, sandbox.namespace, sandbox.name)

-- The objects of the API server and the sessions of the store: a deletion that succeeds, or finds
-- nothing, leaves nothing, and a deletion in the store affects no object.
pub record IsRemoval {W : Type 0} (S : Store W) (K : Cluster.Client W)
    (alive : W → Resource → String → String → Bool) (held : W → String → Bool) : Type 0 where
  pub delete-ok :
      (r : Resource) (ns n : String) (w : W)
      → (K.delete r ns n w).0 ≡ ok tt
      → alive (K.delete r ns n w).1 r ns n ≡ false
  pub delete-not_found :
      (r : Resource) (ns n : String) (w : W) (e : Error)
      → (K.delete r ns n w).0 ≡ err e
      → is_not_found e ≡ true
      → alive (K.delete r ns n w).1 r ns n ≡ false
  pub delete_session-alive :
      (id : String) (w : W) (r : Resource) (ns n : String)
      → alive (S.delete_sandbox_by_session_id id w).1 r ns n ≡ alive w r ns n
  pub delete_session-ok :
      (id : String) (w : W)
      → (S.delete_sandbox_by_session_id id w).0 ≡ ok tt
      → held (S.delete_sandbox_by_session_id id w).1 id ≡ false

module _ {W : Type 0} (S : Store W) (K : Cluster.Client W)
    (alive : W → Resource → String → String → Bool) (held : W → String → Bool)
    (E : IsRemoval S K alive held) where
  -- Where the API server can be reached for a deletion.
  abbrev pub IsReachable : Resource → String → String → Type 0
  IsReachable r ns n =
      (w : W)
      → ((K.delete r ns n w).0 ≡ ok tt)
        ⊎ ((e : Error) × ((K.delete r ns n w).0 ≡ err e) × (is_not_found e ≡ true))

  abbrev pub IsAvailable : String → Type 0
  IsAvailable id = (w : W) → (S.delete_sandbox_by_session_id id w).0 ≡ ok tt

  deleted :
      (r : Resource) (ns n : String) (w : W)
      → IsReachable r ns n
      → alive (delete_object K r ns n w).1 r ns n ≡ false
  unfolding delete_object
  deleted r ns n w reach = elim (reach w) [
    | inl e ↦ ground (arith, E.delete-ok r ns n w)
    | inr (x, e, gone) ↦ ground (arith, E.delete-not_found r ns n w x)
  ]

  rollback_lem :
      (sandbox : Sandbox) (claim : Option SandboxClaim) (id : String) (w : W)
      → IsReachable (made sandbox claim).0 (made sandbox claim).1 (made sandbox claim).2
      → IsAvailable id
      → (alive
            (rollback_sandbox_creation K S sandbox claim id w)
            (made sandbox claim).0
            (made sandbox claim).1
            (made sandbox claim).2
          ≡ false)
        × (held (rollback_sandbox_creation K S sandbox claim id w) id ≡ false)
  unfolding rollback_sandbox_creation
  rollback_lem sandbox none id w reach avail =
      let r = sandboxes in
      let w' = (delete_object K r sandbox.namespace sandbox.name w).1 in
      (
        ground (
          arith,
          E.delete_session-alive id w' r sandbox.namespace sandbox.name,
          deleted r sandbox.namespace sandbox.name w reach,
        ),
        E.delete_session-ok id w' (avail w'),
      )
  rollback_lem sandbox (some c) id w reach avail =
      let r = sandbox_claims in
      let w' = (delete_object K r c.namespace c.name w).1 in
      (
        ground (
          arith,
          E.delete_session-alive id w' r c.namespace c.name,
          deleted r c.namespace c.name w reach,
        ),
        E.delete_session-ok id w' (avail w'),
      )

  module _ (T : Waits W) where
    -- A creation that fails after its placeholder was stored leaves neither the object that it made
    -- nor a record of its session, provided that the deletions of the rollback get through.
    pub create_sandbox_failed :
        (sandbox : Sandbox) (claim : Option SandboxClaim) (entry : SandboxEntry) (w : W) (e : Error)
        → (S.store_sandbox (some (build_sandbox_place_holder (T.now w) sandbox entry)) w).0 ≡ ok tt
        → (create_sandbox S K T sandbox claim entry w).0 ≡ err e
        → IsReachable (made sandbox claim).0 (made sandbox claim).1 (made sandbox claim).2
        → IsAvailable entry.session_id
        → (alive
              (create_sandbox S K T sandbox claim entry w).1
              (made sandbox claim).0
              (made sandbox claim).1
              (made sandbox claim).2
            ≡ false)
          × (held (create_sandbox S K T sandbox claim entry w).1 entry.session_id ≡ false)
    unfolding create_sandbox
    create_sandbox_failed sandbox claim entry w e stored failed reach avail =
        let p = build_sandbox_place_holder (T.now w) sandbox entry in
        let w' = (S.store_sandbox (some p) w).1 in
        let r = create_and_wait S K T p sandbox claim entry w' in
        let rolled = rollback_lem sandbox claim entry.session_id r.1 reach avail in
        ground (arith, rolled)
