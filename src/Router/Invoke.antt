-- ===== src/Router/Invoke.antt =====
-- The handler of an invocation in pkg/router/handlers.go: ownership, the answers to errors, the
-- token for the sandbox, forwarding and the last activity of the session.
use agentcube.Prelude.{
  ℕ, String, ◌≡◌, Bool, true, false, not, Bool-cases, Option, none, some, List, [], ◌∷◌, arith,
  ◌==◌, ◌&&◌, ◌||◌, eqb, if◌then◌else◌, ◌⊎◌, inl, inr,
}
use agentcube.Prelude.Lists.{contains}
use agentcube.Errors.{Error, status, not_found, is_store_not_found, ok, err, Try}
use agentcube.Time.{Time}
use agentcube.Types.{SandboxInfo, sandbox_kind, sandbox_claims_kind}
use agentcube.Store.{Store}
use agentcube.Router.{Net, Url, Claims, Reply, reply, proxied, reply_code}
use agentcube.Router.Sessions.{Manager, get_sandbox_by_session, with_email}
use agentcube.Router.Upstream.{
  Dialer, determine_upstream_url, wait_for_upstream_reachable, upstream_unavailable_response,
}

-- `checkSandboxOwnership`: the text of the refusal, with which 403 is answered, or `none`.
-- `claims` are the caller's, if external authentication is on and has set them.
unfoldable pub check_sandbox_ownership : Bool → Option Claims → SandboxInfo → Option String
check_sandbox_ownership false claims sandbox = none
check_sandbox_ownership true none sandbox = none
check_sandbox_ownership true (some c) sandbox =
    if contains c.roles "admin"
    then none
    else if sandbox.owner_id == ""
    then some "sandbox has no owner record"
    else if sandbox.owner_id == c.subject
    then none
    else some "you do not own this sandbox"

-- What an invocation is served with: the claims of the caller, `GenerateToken`, the proxy, which is
-- given the target, the path, the token and the session, and the clock.
pub record Service (W : Type 0) : Type 0 where
  pub oidc : Bool
  pub retry_count : Option ℕ
  pub now : W → Time
  pub serve : Url → String → String → String → Try W (Unit {0})

module _ (N : Net) where
  -- An error that is a `StatusError` itself; one that wraps it is not taken for it.
  unfoldable pub handle_get_sandbox_error : Error → Reply
  handle_get_sandbox_error (status reason resource) =
      let code = N.status_code reason in
      let masked =
        if eqb code 500 then "internal server error" else N.error_text (status reason resource) in
      reply code masked
  handle_get_sandbox_error e = reply 500 "internal server error"

  module _ {W : Type 0} (S : Store W) (M : Manager W) (D : Dialer W) (V : Service W) where
    -- The token, "" if none is to be sent, or `none` after an answer of 500.
    unfoldable pub generate_sandbox_jwt : Option Claims → SandboxInfo → Option String
    generate_sandbox_jwt claims sandbox =
        if not (sandbox.kind == sandbox_claims_kind) && not (sandbox.kind == sandbox_kind)
        then some ""
        else elim M.generate_token [
          | none ↦ some ""
          | some generate ↦
              let user : List (String × String) = elim claims [
                | none ↦ []
                | some c ↦ ("user_sub", c.subject) ∷ with_email "user_email" c.email []
              ] in
              elim (generate (("session_id", sandbox.session_id) ∷ user)) [
                | ok token ↦ some token
                | err e ↦ none
              ]
        ]

    unfoldable pub resolve_sandbox_target : SandboxInfo → String → W → (Url ⊎ Reply) × W
    resolve_sandbox_target sandbox path w = elim (determine_upstream_url N sandbox path) [
      | err e ↦ (inr (reply 404 (N.error_text e)), w)
      | ok url ↦
          let p = wait_for_upstream_reachable N D V.retry_count url w in
          (
            elim p.0 [
              | ok _ ↦ inl url
              | err e ↦ inr (
                  reply (upstream_unavailable_response N e).0 (upstream_unavailable_response N e).1)
            ],
            p.1,
          )
    ]

    unfoldable pub forward_to_sandbox : Option Claims → SandboxInfo → String → W → Reply × W
    forward_to_sandbox claims sandbox path w =
        let t = resolve_sandbox_target sandbox path w in
        elim t.0 [
          | inr r ↦ (r, t.1)
          | inl url ↦ elim (generate_sandbox_jwt claims sandbox) [
            | none ↦ (reply 500 "failed to sign request", t.1)
            | some token ↦
                let s = V.serve url path token sandbox.session_id t.1 in
                (
                  elim s.0 [
                    | ok _ ↦ proxied
                    | err e ↦
                        reply (upstream_unavailable_response N e).0
                          (upstream_unavailable_response N e).1
                  ],
                  s.1,
                )
          ]
        ]

    -- An activity that cannot be recorded is only logged.
    unfoldable pub touch : SandboxInfo → W → W
    touch sandbox w = (S.update_session_last_activity sandbox.session_id (V.now w) w).1

    unfoldable pub handle_invoke :
        Option Claims → String → String → String → String → String → W → Reply × W
    handle_invoke claims session_id namespace name path kind w =
        let g = get_sandbox_by_session N S M claims session_id namespace name kind w in
        elim g.0 [
          | err e ↦ (handle_get_sandbox_error e, g.1)
          | ok sandbox ↦
              let f = forward_to_sandbox claims sandbox path (touch sandbox g.1) in
              if session_id == ""
              then (f.0, touch sandbox f.1)
              else elim (check_sandbox_ownership V.oidc claims sandbox) [
                | some text ↦ (reply 403 text, g.1)
                | none ↦ (f.0, touch sandbox f.1)
              ]
        ]

    -- With external authentication on, an invocation of an existing session by a caller who is no
    -- administrator, for a sandbox that has no owner or another owner, is answered 403, and nothing
    -- happens after the sandbox is read: it is not forwarded and counts as no activity.
    pub handle_invoke_foreign :
        (c : Claims) (session_id namespace name path kind : String) (w : W) (sandbox : SandboxInfo)
        → V.oidc ≡ true
        → (session_id == "") ≡ false
        → contains c.roles "admin" ≡ false
        → (S.get_sandbox_by_session_id session_id w).0 ≡ ok sandbox
        → (sandbox.owner_id == "" || not (sandbox.owner_id == c.subject)) ≡ true
        → let a = handle_invoke (some c) session_id namespace name path kind w in
          (reply_code a.0 ≡ 403) × (a.1 ≡ (S.get_sandbox_by_session_id session_id w).1)
    unfolding handle_invoke get_sandbox_by_session check_sandbox_ownership
    handle_invoke_foreign c session_id namespace name path kind w sandbox on named plain got
          foreign =
        elim (Bool-cases (sandbox.owner_id == "")) [
          | inl e ↦ (ground arith, ground arith)
          | inr e ↦ (ground arith, ground arith)
        ]

    -- An invocation of a session that the store does not have is answered with the code of "not
    -- found" and ends there; when the store fails otherwise, the answer is 500 with a text that
    -- says nothing of the failure.
    pub handle_invoke_unavailable :
        (claims : Option Claims) (session_id namespace name path kind : String) (w : W) (e : Error)
        → (session_id == "") ≡ false
        → (S.get_sandbox_by_session_id session_id w).0 ≡ err e
        → let a = handle_invoke claims session_id namespace name path kind w in
          (a.1 ≡ (S.get_sandbox_by_session_id session_id w).1)
          × ((is_store_not_found e ≡ true) × (reply_code a.0 ≡ N.status_code not_found)
              ⊎ (is_store_not_found e ≡ false) × (a.0 ≡ reply 500 "internal server error"))
    unfolding handle_invoke get_sandbox_by_session handle_get_sandbox_error
    handle_invoke_unavailable claims session_id namespace name path kind w e named got =
        elim (Bool-cases (is_store_not_found e)) [
          | inl f ↦ (ground arith, inl (f, ground arith))
          | inr f ↦ (ground arith, inr (f, ground arith))
        ]
