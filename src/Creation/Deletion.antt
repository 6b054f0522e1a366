-- ===== src/Creation/Deletion.antt =====
-- The handler of a deletion request in pkg/workloadmanager/handlers.go.
use agentcube.Prelude.{
  String, ◌≡◌, refl, inl, inr, Bool, true, false, Bool-cases, arith, ◌==◌, if◌then◌else◌,
}
use agentcube.Errors.{
  Error, wrap, root, is_not_found, is_store_not_found, Result, ok, err, Result-cases,
}
use agentcube.Types.{SandboxInfo, sandbox_claims_kind}
use agentcube.Store.{Store}
use agentcube.Cluster
use agentcube.Cluster.{Resource, sandboxes, sandbox_claims}
use agentcube.Creation.{delete_object}
use agentcube.Creation.Answers.{Response, deleted, respond_error}
use agentcube.Creation.Rollback.{IsRemoval}

unfoldable pub resource_of : SandboxInfo → Resource
resource_of sandbox = if sandbox.kind == sandbox_claims_kind then sandbox_claims else sandboxes

-- A read changes no session, and a deletion of an object keeps the sessions.
pub record IsSeparate {W : Type 0} (S : Store W) (K : Cluster.Client W) (held : W → String → Bool)
    : Type 0 where
  pub get-held :
      (id id' : String) (w : W) → held (S.get_sandbox_by_session_id id w).1 id' ≡ held w id'
  pub delete-held :
      (r : Resource) (ns n id : String) (w : W) → held (K.delete r ns n w).1 id ≡ held w id

module _ (error_text : Error → String) {W : Type 0} (S : Store W) (K : Cluster.Client W) where
  -- From the deletion of the object on, with the client of the server or of the user.
  unfoldable pub delete_and_respond : Cluster.Client W → String → SandboxInfo → W → Response × W
  delete_and_respond C session_id sandbox w =
      let d = delete_object C (resource_of sandbox) sandbox.sandbox_namespace sandbox.name w in
      let r = S.delete_sandbox_by_session_id session_id d.1 in
      elim d.0 [
        | err e ↦
            if is_not_found e
            then elim r.0 [
              | err _ ↦ (respond_error 500 "internal server error", r.1)
              | ok _ ↦ (record { code = 200; body = deleted }, r.1)
            ]
            else (respond_error 500 "internal server error", d.1)
        | ok _ ↦ elim r.0 [
          | err _ ↦ (respond_error 500 "internal server error", r.1)
          | ok _ ↦ (record { code = 200; body = deleted }, r.1)
        ]
      ]

  -- `user` is the outcome of `extractUserK8sClient`.
  unfoldable pub handle_delete_sandbox :
      Bool → Result (Cluster.Client W) → String → W → Response × W
  handle_delete_sandbox enable_auth user session_id w =
      let g = S.get_sandbox_by_session_id session_id w in
      elim g.0 [
        | err e ↦ (
          if is_store_not_found e
              then respond_error 404 "Session ID not found, maybe already deleted"
              else respond_error 500 "internal server error",
          g.1,
        )
        | ok sandbox ↦
            if enable_auth
            then elim user [
              | err e ↦ (respond_error 401 (error_text e), g.1)
              | ok client ↦ delete_and_respond client session_id sandbox g.1
            ]
            else delete_and_respond K session_id sandbox g.1
      ]

-- The object of a record, as `alive` sees it.
abbrev pub alive_of :
    {W : Type 0} → (W → Resource → String → String → Bool) → W → SandboxInfo → Bool
alive_of alive w sandbox = alive w (resource_of sandbox) sandbox.sandbox_namespace sandbox.name

delete_object-world :
    {W : Type 0} (C : Cluster.Client W) (r : Resource) (ns n : String) (w : W)
    → (delete_object C r ns n w).1 ≡ (C.delete r ns n w).1
unfolding delete_object
delete_object-world C r ns n w = elim (Result-cases (C.delete r ns n w).0) [
  | inl (u, e) ↦ ground arith
  | inr (x, e) ↦ ground arith
]

wrap-is_not_found : (e : Error) → is_not_found (wrap e) ≡ is_not_found e
unfolding is_not_found root
wrap-is_not_found e = refl

-- What a deletion reports is not "not found".
delete_object_error :
    {W : Type 0} (C : Cluster.Client W) (r : Resource) (ns n : String) (w : W) (e : Error)
    → (delete_object C r ns n w).0 ≡ err e
    → is_not_found e ≡ false
unfolding delete_object is_not_found
delete_object_error C r ns n w e h = elim (Result-cases (C.delete r ns n w).0) [
  | inl (u, f) ↦ absurd (ground arith)
  | inr (x, f) ↦ elim (Bool-cases (is_not_found x)) [
    | inl gone ↦ absurd (ground arith)
    | inr kept ↦ ground (arith, wrap-is_not_found x)
  ]
]

module _ {W : Type 0} (S : Store W) (alive : W → Resource → String → String → Bool)
    (held : W → String → Bool) where
  object_deleted :
      (C : Cluster.Client W) (r : Resource) (ns n : String) (w : W)
      → IsRemoval S C alive held
      → (delete_object C r ns n w).0 ≡ ok tt
      → alive (delete_object C r ns n w).1 r ns n ≡ false
  unfolding delete_object
  object_deleted C r ns n w E h = elim (Result-cases (C.delete r ns n w).0) [
    | inl (u, e) ↦ ground (arith, E.delete-ok r ns n w)
    | inr (x, e) ↦ elim (Bool-cases (is_not_found x)) [
      | inl gone ↦ ground (arith, E.delete-not_found r ns n w x e gone)
      | inr kept ↦ absurd (ground arith)
    ]
  ]

  delete_object-held :
      (C : Cluster.Client W) (r : Resource) (ns n id : String) (w : W)
      → IsSeparate S C held
      → held (delete_object C r ns n w).1 id ≡ held w id
  delete_object-held C r ns n id w F =
      ground (arith, F.delete-held r ns n id w, delete_object-world C r ns n w)

  module _ (error_text : Error → String) (K : Cluster.Client W) where
    delete_and_respond_lem :
        (C : Cluster.Client W) (id : String) (sandbox : SandboxInfo) (w : W)
        → IsRemoval S C alive held
        → let a = delete_and_respond error_text S K C id sandbox w in
          a.0.code ≡ 200 → (alive_of alive a.1 sandbox ≡ false) × (held a.1 id ≡ false)
    unfolding delete_and_respond
    delete_and_respond_lem C id sandbox w E h =
        let r = resource_of sandbox in
        let ns = sandbox.sandbox_namespace in
        let d = delete_object C r ns sandbox.name w in
        let s = S.delete_sandbox_by_session_id id d.1 in
        elim (Result-cases d.0) [
          | inr (x, e) ↦ absurd (ground (arith, delete_object_error C r ns sandbox.name w x))
          | inl (u, e) ↦ elim (Result-cases s.0) [
            | inr (y, f) ↦ absurd (ground arith)
            | inl (v, f) ↦
                let gone = object_deleted C r ns sandbox.name w E e in
                let kept = E.delete_session-alive id d.1 r ns sandbox.name in
                let lost = E.delete_session-ok id d.1 f in (ground arith, ground arith)
          ]
        ]

    delete_and_respond_kept :
        (C : Cluster.Client W) (id : String) (sandbox : SandboxInfo) (w : W)
        → IsRemoval S C alive held
        → IsSeparate S C held
        → let a = delete_and_respond error_text S K C id sandbox w in
          alive_of alive a.1 sandbox ≡ true → held a.1 id ≡ held w id
    unfolding delete_and_respond
    delete_and_respond_kept C id sandbox w E F h =
        let r = resource_of sandbox in
        let ns = sandbox.sandbox_namespace in
        let d = delete_object C r ns sandbox.name w in
        let s = S.delete_sandbox_by_session_id id d.1 in
        let same = delete_object-held C r ns sandbox.name id w F in
        elim (Result-cases d.0) [
          | inr (x, e) ↦ ground (arith, delete_object_error C r ns sandbox.name w x)
          | inl (u, e) ↦
              let gone = object_deleted C r ns sandbox.name w E e in
              let kept = E.delete_session-alive id d.1 r ns sandbox.name in
              elim (Result-cases s.0) [
                | inr (y, f) ↦ absurd (ground arith)
                | inl (v, f) ↦ absurd (ground arith)
              ]
        ]

    -- A deletion that is answered 200, with clients and a store that keep the laws, leaves neither
    -- the object of the record that the store gave nor the session.
    pub handle_delete_sandbox_deleted :
        (enable_auth : Bool) (user : Result (Cluster.Client W)) (id : String) (w : W)
        (sandbox : SandboxInfo)
        → IsRemoval S K alive held
        → ((C : Cluster.Client W) → user ≡ ok C → IsRemoval S C alive held)
        → (S.get_sandbox_by_session_id id w).0 ≡ ok sandbox
        → (handle_delete_sandbox error_text S K enable_auth user id w).0.code ≡ 200
        → let w' = (handle_delete_sandbox error_text S K enable_auth user id w).1 in
          (alive_of alive w' sandbox ≡ false) × (held w' id ≡ false)
    unfolding handle_delete_sandbox
    handle_delete_sandbox_deleted false user id w sandbox E E' got h =
        let w' = (S.get_sandbox_by_session_id id w).1 in
        ground (arith, delete_and_respond_lem K id sandbox w' E)
    handle_delete_sandbox_deleted true user id w sandbox E E' got h =
        let w' = (S.get_sandbox_by_session_id id w).1 in
        elim (Result-cases user) [
          | inr (x, e) ↦ absurd (ground arith)
          | inl (C, e) ↦ ground (arith, delete_and_respond_lem C id sandbox w' (E' C e))
        ]

    -- Whatever a deletion is answered, an object that is still there afterwards has not lost its
    -- session: the record that the store gave is held as before.
    pub handle_delete_sandbox_kept :
        (enable_auth : Bool) (user : Result (Cluster.Client W)) (id : String) (w : W)
        (sandbox : SandboxInfo)
        → IsRemoval S K alive held × IsSeparate S K held
        → ((C : Cluster.Client W) → user ≡ ok C → IsRemoval S C alive held × IsSeparate S C held)
        → (S.get_sandbox_by_session_id id w).0 ≡ ok sandbox
        → alive_of alive (handle_delete_sandbox error_text S K enable_auth user id w).1 sandbox
          ≡ true
        → held (handle_delete_sandbox error_text S K enable_auth user id w).1 id ≡ held w id
    unfolding handle_delete_sandbox
    handle_delete_sandbox_kept false user id w sandbox (E, F) E' got h =
        let w' = (S.get_sandbox_by_session_id id w).1 in
        let same = F.get-held id id w in ground (arith, delete_and_respond_kept K id sandbox w' E F)
    handle_delete_sandbox_kept true user id w sandbox (E, F) E' got h =
        let w' = (S.get_sandbox_by_session_id id w).1 in
        let same = F.get-held id id w in
        elim (Result-cases user) [
          | inr (x, e) ↦ ground arith
          | inl (C, e) ↦
              let (E1, F1) = E' C e in ground (arith, delete_and_respond_kept C id sandbox w' E1 F1)
        ]
