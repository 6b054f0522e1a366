-- ===== src/Router/Sessions.antt =====
-- pkg/router/session_manager.go: a sandbox by its session, or a new one from the workload manager.
use agentcube.Prelude.{
  ℕ, String, ◌<>◌, ◌≡◌, false, Bool-cases, Option-cases, ==_self, ap, Option, none, some, List, [],
  ◌∷◌, arith, ◌==◌, ◌&&◌, eqb, if◌then◌else◌, inl, inr,
}
use agentcube.Errors.{
  wrap, message, new_internal_error, new_session_not_found_error,
  new_sandbox_template_not_found_error, is_store_not_found, Result, ok, err, Result-cases, Try,
}
use agentcube.Time.{pos}
use agentcube.Types.{
  SandboxInfo, CreateSandboxRequest, CreateSandboxResponse, agent_runtime_kind,
  code_interpreter_kind,
}
use agentcube.Store.{Store}
use agentcube.Router.{Net, Claims}

-- What the workload manager answers; `decoded` is `json.Unmarshal` of the body.
pub record HttpAnswer : Type 0 where
  pub status_code : ℕ
  pub body : Result String
  pub decoded : Result CreateSandboxResponse

-- `httpClient.Do` of a POST request with the bearer token and the identity header, `GenerateToken`
-- of the JWT manager if there is one, and the token of the service account.
pub record Manager (W : Type 0) : Type 0 where
  pub workload_mgr_addr : String
  pub post : String → CreateSandboxRequest → Option String → Option String → Try W HttpAnswer
  pub generate_token : Option (List (String × String) → Result String)
  pub auth_token : String

abbrev pub text_option : String → Option String
text_option s = if s == "" then none else some s

-- An empty email is left out.
abbrev pub with_email : String → String → List (String × String) → List (String × String)
with_email key email claims = if email == "" then claims else (key, email) ∷ claims

module _ {W : Type 0} (N : Net) (S : Store W) (M : Manager W) where
  -- `setIdentityHeader`: the header's value, if it is set.
  unfoldable pub identity_header : Option Claims → Option String
  identity_header none = none
  identity_header (some c) = elim M.generate_token [
    | none ↦ none
    | some generate ↦
        elim (generate
          (("sub", c.subject) ∷ ("aud", "workloadmanager") ∷ with_email "email" c.email [])) [
            | ok token ↦ some token
            | err e ↦ none
          ]
  ]

  unfoldable pub endpoint : String → Option String
  endpoint kind =
      if kind == agent_runtime_kind
      then some (M.workload_mgr_addr <> "/v1/agent-runtime")
      else if kind == code_interpreter_kind
      then some (M.workload_mgr_addr <> "/v1/code-interpreter")
      else none

  unfoldable pub sandbox_of : String → CreateSandboxResponse → SandboxInfo
  sandbox_of namespace res = record {
    kind = res.kind;
    sandbox_id = res.sandbox_id;
    sandbox_namespace = namespace;
    name = res.sandbox_name;
    entry_points = res.entry_points;
    session_id = res.session_id;
    owner_id = res.owner_id;
    created_at = 0;
    expires_at = 0;
    idle_timeout = pos 0;
    last_activity_at = 0;
    status = "";
  }

  -- The outcome of an answer that arrived.
  unfoldable pub read_answer : String → String → HttpAnswer → Result SandboxInfo
  read_answer namespace kind a = elim a.body [
    | err e ↦ err (wrap e)
    | ok text ↦
        if eqb a.status_code 200
        then elim a.decoded [
          | err e ↦ err new_internal_error
          | ok res ↦
              if res.session_id == "" then err new_internal_error else ok (sandbox_of namespace res)
        ]
        else if eqb a.status_code 404
        then err (new_sandbox_template_not_found_error kind)
        else if eqb a.status_code 400 && N.mentions text "not found"
        then err (new_sandbox_template_not_found_error kind)
        else err new_internal_error
  ]

  unfoldable pub create_sandbox : Option Claims → String → String → String → Try W SandboxInfo
  create_sandbox claims namespace name kind w = elim (endpoint kind) [
    | none ↦ (err (message ("unsupported kind: " <> kind)), w)
    | some url ↦
        let request : CreateSandboxRequest = record {
          kind = kind;
          name = name;
          namespace = namespace;
        } in
        let r = M.post url request (text_option M.auth_token) (identity_header claims) w in
        (elim r.0 [ err e ↦ err new_internal_error | ok a ↦ read_answer namespace kind a ], r.1)
  ]

  unfoldable pub get_sandbox_by_session :
      Option Claims → String → String → String → String → Try W SandboxInfo
  get_sandbox_by_session claims session_id namespace name kind w =
      if session_id == ""
      then create_sandbox claims namespace name kind w
      else let r = S.get_sandbox_by_session_id session_id w in
        (
          elim r.0 [
            | ok sandbox ↦ ok sandbox
            | err e ↦ if is_store_not_found e then err new_session_not_found_error else err (wrap e)
          ],
          r.1,
        )

  -- What is read off an answer is a session with an identifier, in the namespace asked for.
  read_answer_ok :
      (namespace kind : String) (a : HttpAnswer) (sandbox : SandboxInfo)
      → read_answer namespace kind a ≡ ok sandbox
      → (res : CreateSandboxResponse) × ((a.decoded ≡ ok res)
          × (a.status_code ≡ 200)
          × ((res.session_id == "") ≡ false)
          × (sandbox ≡ sandbox_of namespace res))
  unfolding read_answer
  read_answer_ok namespace kind a sandbox h = elim (Result-cases a.body) [
    | inr (x, e) ↦ absurd (ground arith)
    | inl (text, e) ↦ elim (Bool-cases (eqb a.status_code 200)) [
      | inr f ↦ absurd (ground arith)
      | inl f ↦ elim (Result-cases a.decoded) [
        | inr (y, g) ↦ absurd (ground arith)
        | inl (res, g) ↦ elim (Bool-cases (res.session_id == "")) [
          | inl k ↦ absurd (ground arith)
          | inr k ↦ (res, (g, ground arith, k, ground arith))
        ]
      ]
    ]
  ]

  -- A session that is created for an invocation, which names no session, has an identifier, is in
  -- the namespace of the invocation, and is of a kind that the workload manager serves.
  pub get_sandbox_by_session_created :
      (claims : Option Claims) (namespace name kind : String) (w : W) (sandbox : SandboxInfo)
      → (get_sandbox_by_session claims "" namespace name kind w).0 ≡ ok sandbox
      → ((sandbox.session_id == "") ≡ false)
        × (sandbox.sandbox_namespace ≡ namespace)
        × ((url : String) × (endpoint kind ≡ some url))
  unfolding get_sandbox_by_session create_sandbox sandbox_of
  get_sandbox_by_session_created claims namespace name kind w sandbox h =
      elim (Option-cases (endpoint kind)) [
        | inl e ↦ absurd (ground (arith, ==_self ""))
        | inr (url, e) ↦
            let request : CreateSandboxRequest = record {
              kind = kind;
              name = name;
              namespace = namespace;
            } in
            let r = M.post url request (text_option M.auth_token) (identity_header claims) w in
            elim (Result-cases r.0) [
              | inr (x, f) ↦ absurd (ground (arith, ==_self ""))
              | inl (a, f) ↦
                  let read : read_answer namespace kind a ≡ ok sandbox =
                    ground (arith, ==_self "") in
                  let (res, (_, _, named, built)) = read_answer_ok namespace kind a sandbox read in
                  (ground (arith, named, built), ap (λ x. x.sandbox_namespace) built, (url, e))
            ]
      ]
