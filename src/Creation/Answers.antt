-- ===== src/Creation/Answers.antt =====
-- The HTTP answers to a creation in pkg/workloadmanager/handlers.go. `error_text` is Go's `Error()`.
use agentcube.Prelude.{
  ℕ, String, ◌≡◌, refl, Bool, true, false, ◌||◌, inl, inr, Option, arith, ◌==◌, eqb, if◌then◌else◌,
}
use agentcube.Errors.{
  Error, status, internal_error, canceled, deadline_exceeded, err_sandbox_creation_timeout,
  err_sandbox_ready_watcher_not_registered, err_sandbox_ready_watcher_closed,
  err_sandbox_ready_watcher_missing_sandbox, err_agent_runtime_not_found,
  err_code_interpreter_not_found, err_no_identity_header, err_public_key_not_cached, root, Result,
  ok, err, Result-cases,
}
use agentcube.Types.{CreateSandboxRequest, CreateSandboxResponse, validate}
use agentcube.Store.{Store}
use agentcube.Cluster
use agentcube.Cluster.{Sandbox, SandboxClaim}
use agentcube.Creation.Build.{SandboxEntry}
use agentcube.Creation.{Waits, create_sandbox}

pub data Body : Type 0 where
  empty : Body
  error_message : String → Body
  created : CreateSandboxResponse → Body
  deleted : Body

pub record Response : Type 0 where
  pub code : ℕ
  pub body : Body

abbrev pub respond_error : ℕ → String → Response
respond_error code text = record { code = code; body = error_message text }

abbrev internal_root : Error → Bool
internal_root (status internal_error _) = true
internal_root err_sandbox_ready_watcher_not_registered = true
internal_root err_sandbox_ready_watcher_closed = true
internal_root err_sandbox_ready_watcher_missing_sandbox = true
internal_root _ = false

unfoldable pub is_internal_sandbox_create_error : Error → Bool
unfolding root
is_internal_sandbox_create_error e = internal_root (root e)

-- What a workload builder makes: the sandbox, the claim of a warm pool, and the entry.
abbrev pub Built : Type 0
Built = Sandbox × Option SandboxClaim × SandboxEntry

-- The codes with which a request is refused before anything is created.
abbrev pub is_refusal : ℕ → Bool
is_refusal code = eqb code 400 || eqb code 401 || eqb code 404 || eqb code 503

module _ (error_text : Error → String) where
  abbrev answer_by_root : Error → Error → Response
  answer_by_root canceled e = record { code = 499; body = empty }
  answer_by_root deadline_exceeded e = respond_error 504 "request timed out"
  answer_by_root err_sandbox_creation_timeout e = respond_error 504 (error_text e)
  answer_by_root r e =
      respond_error 500 (if internal_root r then "internal server error" else error_text e)

  unfoldable pub respond_sandbox_create_error : Error → Response
  unfolding root
  respond_sandbox_create_error e = answer_by_root (root e) e

  abbrev is_not_found_build : Error → Bool
  is_not_found_build err_agent_runtime_not_found = true
  is_not_found_build err_code_interpreter_not_found = true
  is_not_found_build _ = false

  -- `resolveSandboxOwnerID`: the owner, or the status and the text of the refusal.
  unfoldable pub resolve_sandbox_owner_id : Result String → Result String × Response
  unfolding root
  resolve_sandbox_owner_id (ok owner) = (ok owner, record { code = 0; body = empty })
  resolve_sandbox_owner_id (err e) = elim (root e) [
    | err_no_identity_header ↦ (ok "", record { code = 0; body = empty })
    | err_public_key_not_cached ↦ (err e, respond_error 503 "identity verifier not ready")
    | _ ↦ (err e, respond_error 401 "invalid identity token")
  ]

  answer_by_root-code : (r e : Error) → is_refusal (answer_by_root r e).code ≡ false
  answer_by_root-code canceled e = refl
  answer_by_root-code _ e = refl

  respond-code : (e : Error) → is_refusal (respond_sandbox_create_error e).code ≡ false
  unfolding respond_sandbox_create_error
  respond-code e = answer_by_root-code (root e) e

  -- `handleSandboxCreate`: `request` is the decoded body, `owner` the outcome of `extractOwnerID`,
  -- `build` that of the workload builders, and `user` that of `extractUserK8sClient`.
  module _ {W : Type 0} (S : Store W) (K : Cluster.Client W) (T : Waits W) where
    unfoldable pub create_and_respond : Cluster.Client W → String → Built → W → Response × W
    create_and_respond C owner_id (sandbox, claim, entry) w =
        let named = if owner_id == "" then entry else record entry { owner_id = owner_id } in
        let r = create_sandbox S C T sandbox claim named w in
        (
          elim r.0 [
            | err e ↦ respond_sandbox_create_error e
            | ok response ↦ record { code = 200; body = created response }
          ],
          r.1,
        )

    unfoldable pub handle_sandbox_create :
        String
        → Result CreateSandboxRequest
        → Result String
        → (CreateSandboxRequest → String → Result Built)
        → Bool
        → Result (Cluster.Client W)
        → W
        → Response × W
    handle_sandbox_create kind (err e) owner build enable_auth user w =
        (respond_error 400 "Invalid request body", w)
    handle_sandbox_create kind (ok body) owner build enable_auth user w =
        let request = record body { kind = kind } in
        elim (validate request) [
          | err e ↦ (respond_error 400 (error_text e), w)
          | ok _ ↦ elim (resolve_sandbox_owner_id owner).0 [
            | err e ↦ ((resolve_sandbox_owner_id owner).1, w)
            | ok owner_id ↦ elim (build request owner_id) [
              | err e ↦ (
                if is_not_found_build (root e)
                    then respond_error 404 (error_text e)
                    else respond_error 500 "internal server error",
                w,
              )
              | ok built ↦
                  if enable_auth
                  then elim user [
                    | err e ↦ (respond_error 401 (error_text e), w)
                    | ok client ↦ create_and_respond client owner_id built w
                  ]
                  else create_and_respond K owner_id built w
            ]
          ]
        ]

    create_and_respond-code :
        (C : Cluster.Client W) (owner_id : String) (b : Built) (w : W)
        → is_refusal (create_and_respond C owner_id b w).0.code ≡ false
    unfolding create_and_respond
    create_and_respond-code C owner_id (sandbox, claim, entry) w =
        let named = if owner_id == "" then entry else record entry { owner_id = owner_id } in
        elim (Result-cases (create_sandbox S C T sandbox claim named w).0) [
          | inl (r, e) ↦ ground arith
          | inr (x, e) ↦ ground (arith, respond-code x)
        ]

    -- A request that is answered 400, 401, 404 or 503 has changed nothing.
    pub handle_sandbox_create_refused :
        (kind : String) (request : Result CreateSandboxRequest) (owner : Result String)
        (build : CreateSandboxRequest → String → Result Built) (enable_auth : Bool)
        (user : Result (Cluster.Client W)) (w : W)
        → is_refusal (handle_sandbox_create kind request owner build enable_auth user w).0.code
          ≡ true
        → (handle_sandbox_create kind request owner build enable_auth user w).1 ≡ w
    unfolding handle_sandbox_create
    handle_sandbox_create_refused kind (err e) owner build enable_auth user w h = refl
    handle_sandbox_create_refused kind (ok body) owner build enable_auth user w h =
        let request : CreateSandboxRequest = record body { kind = kind } in
        elim (Result-cases (validate request)) [
          | inr (x, e) ↦ ground arith
          | inl (_, e) ↦ elim (Result-cases (resolve_sandbox_owner_id owner).0) [
            | inr (x, f) ↦ ground arith
            | inl (id, f) ↦ elim (Result-cases (build request id)) [
              | inr (x, g) ↦ ground arith
              | inl (b, g) ↦ elim (Result-cases user) [
                | inr (x, u) ↦ ground (arith, create_and_respond-code K id b w)
                | inl (C, u) ↦
                    ground
                      (arith, create_and_respond-code K id b w, create_and_respond-code C id b w)
              ]
            ]
          ]
        ]
