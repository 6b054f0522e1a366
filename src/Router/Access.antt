-- ===== src/Router/Access.antt =====
-- What pkg/router demands of a caller before a sandbox is reached: auth.go and the routes of server.go.
use agentcube.Prelude.{
  String, ◌≡◌, ◌≢◌, sym, ◌∙◌, Bool, true, false, ◌||◌, Bool-cases, Option-cases, inl, inr, ◌⊎◌,
  none, some, arith, ◌==◌, eqb,
}
use agentcube.Prelude.Lists.{contains}
use agentcube.Errors.{Error, status, wrap, new_session_not_found_error, ok, Result-cases}
use agentcube.Store.{Store}
use agentcube.Router.{Net, Claims, Reply, proxied, reply_code}
use agentcube.Types.{SandboxInfo}
use agentcube.Router.Sessions.{Manager, get_sandbox_by_session}
use agentcube.Router.Upstream.{Dialer}
use agentcube.Router.Invoke.{
  Service, handle_invoke, check_sandbox_ownership, handle_get_sandbox_error,
}
use agentcube.Router.Limit.{Limiter, try_acquire, release}
use agentcube.Router.Oidc.{OidcValidator, validate_token}
use agentcube.Router.Tokens.{IsAccepted, validate_token_accepts}
use agentcube.Router.Auth.{
  Folding, Handler, bearer_token, oidc_auth_middleware, require_role, concurrency_limit_middleware,
  route, serve_invoke, invoke_handler,
}

-- The codes with which the middlewares refuse a request.
abbrev pub is_refused : Reply → Bool
is_refused r = eqb (reply_code r) 401 || eqb (reply_code r) 403 || eqb (reply_code r) 429

module _ {W : Type 0} (T : Folding) (O : OidcValidator W) (role header : String) where
  -- The request was refused, after at most a look at the provider's keys.
  abbrev pub IsRefused : Limiter × W → Reply × (Limiter × W) → Type 0
  IsRefused (l, w) r =
      (is_refused r.0 ≡ true)
      × (r.1.0 ≡ l)
      × ((r.1.1 ≡ w) ⊎ ((raw_token : String) × (r.1.1 ≡ (validate_token O raw_token w).1)))

  -- The request went to a handler, for a caller whose token is accepted and has the role, while fewer
  -- requests than the limit were being served.
  abbrev pub IsServed : Handler W → Limiter × W → Reply × (Limiter × W) → Type 0
  IsServed handler (l, w) r =
      (raw_token : String) × (c : Claims) × (bearer_token T header ≡ some raw_token)
      × IsAccepted O raw_token w c
      × (contains c.roles role ≡ true)
      × ((try_acquire l).0 ≡ true)
      × (r.0 ≡ (handler (some c) ((try_acquire l).1, (validate_token O raw_token w).1)).0)
      × (r.1.1 ≡ (handler (some c) ((try_acquire l).1, (validate_token O raw_token w).1)).1.1)
      × (r.1.0
          ≡ release (handler (some c) ((try_acquire l).1, (validate_token O raw_token w).1)).1.0)

  route_guarded :
      (handler : Handler W) (l : Limiter) (w : W)
      → IsRefused (l, w) (route T (some O) role header handler none (l, w))
        ⊎ IsServed handler (l, w) (route T (some O) role header handler none (l, w))
  unfolding route oidc_auth_middleware require_role concurrency_limit_middleware
  route_guarded handler l w = elim (Bool-cases (header == "")) [
    | inl e ↦ inl (ground arith, ground arith, inl (ground arith))
    | inr e ↦ elim (Option-cases (bearer_token T header)) [
      | inl f ↦ inl (ground arith, ground arith, inl (ground arith))
      | inr (raw, f) ↦ elim (Bool-cases (raw == "")) [
        | inl g ↦ inl (ground arith, ground arith, inl (ground arith))
        | inr g ↦ elim (Result-cases (validate_token O raw w).0) [
          | inr (x, i) ↦ inl (ground arith, ground arith, inr (raw, ground arith))
          | inl (c, i) ↦ elim (Bool-cases (contains c.roles role)) [
            | inr j ↦ inl (ground arith, ground arith, inr (raw, ground arith))
            | inl j ↦ elim (Bool-cases (try_acquire l).0) [
              | inr k ↦ inl (ground arith, ground arith, inr (raw, ground arith))
              | inl k ↦ inr (
                raw,
                c,
                f,
                (validate_token_accepts O raw w c).0 i,
                j,
                k,
                ground arith,
                ground arith,
                ground arith,
              )
            ]
          ]
        ]
      ]
    ]
  ]

  module _ (N : Net) (S : Store W) (M : Manager W) (D : Dialer W) (V : Service W)
      (session_id namespace name path kind : String) where
    abbrev pub served : Limiter × W → Reply × (Limiter × W)
    served s = serve_invoke T N S M D V (some O) role header session_id namespace name path kind s

    -- A request that is done holds no slot of the limit, however it ended.
    pub serve_invoke_releases : (l : Limiter) (w : W) → (served (l, w)).1.0 ≡ l
    unfolding serve_invoke try_acquire release
    serve_invoke_releases l w =
        elim (route_guarded (invoke_handler T N S M D V session_id namespace name path kind) l w) [
          | inl (_, same, _) ↦ same
          | inr (raw, c, _, _, _, open_slot, _, _, given_back) ↦ ground arith
        ]

    -- The caller is accepted and has the role, and is an administrator or the owner that the store's
    -- record names.
    abbrev pub IsAuthorized : W → Type 0
    IsAuthorized w =
        (raw_token : String) × (c : Claims) × (sandbox : SandboxInfo) × (bearer_token T header
          ≡ some raw_token)
        × IsAccepted O raw_token w c
        × (contains c.roles role ≡ true)
        × ((S.get_sandbox_by_session_id session_id (validate_token O raw_token w).1).0 ≡ ok sandbox)
        × ((contains c.roles "admin" ≡ true)
            ⊎ ((sandbox.owner_id ≡ c.subject) × ((sandbox.owner_id == "") ≡ false)))

    -- The answer is not that of a proxied request, and all that was done is at most to look at the
    -- provider's keys and then to read the session.
    abbrev pub IsUntouched : W → Reply × W → Type 0
    IsUntouched w (answer, v) =
        (answer ≢ proxied)
        × ((v ≡ w)
            ⊎ ((raw_token : String) × (v ≡ (validate_token O raw_token w).1))
            ⊎ ((raw_token : String) × (v
                  ≡ (S.get_sandbox_by_session_id session_id (validate_token O raw_token w).1).1)))

    error_unproxied : (e : Error) → handle_get_sandbox_error N e ≢ proxied
    unfolding handle_get_sandbox_error
    error_unproxied (status reason resource) h = absurd (ground arith)
    error_unproxied _ h = absurd (ground arith)

    refused_unproxied : (answer : Reply) → is_refused answer ≡ true → answer ≢ proxied
    refused_unproxied answer h e = absurd (ground arith)

    invoke_guarded :
        (c : Claims) (w : W)
        → V.oidc ≡ true
        → (session_id == "") ≡ false
        → let r = handle_invoke N S M D V (some c) session_id namespace name path kind w in
          ((sandbox : SandboxInfo) × ((S.get_sandbox_by_session_id session_id w).0 ≡ ok sandbox)
            × ((contains c.roles "admin" ≡ true)
                ⊎ ((sandbox.owner_id ≡ c.subject) × ((sandbox.owner_id == "") ≡ false))))
          ⊎ ((r.0 ≢ proxied) × (r.1 ≡ (S.get_sandbox_by_session_id session_id w).1))
    unfolding handle_invoke get_sandbox_by_session check_sandbox_ownership
    invoke_guarded c w on named = elim (Result-cases (S.get_sandbox_by_session_id session_id w).0) [
      | inr (e, f) ↦ inr (
        λ h.
            absurd (
              ground
                (arith, error_unproxied new_session_not_found_error, error_unproxied (wrap e))),
        ground arith,
      )
      | inl (sandbox, f) ↦ elim (Bool-cases (contains c.roles "admin")) [
        | inl a ↦ inl (sandbox, f, inl a)
        | inr a ↦ elim (Bool-cases (sandbox.owner_id == "")) [
          | inl b ↦ inr (λ h. absurd (ground arith), ground arith)
          | inr b ↦ elim (Bool-cases (sandbox.owner_id == c.subject)) [
            | inl d ↦ inl (sandbox, f, inr (ground arith, b))
            | inr d ↦ inr (λ h. absurd (ground arith), ground arith)
          ]
        ]
      ]
    ]

    -- With external authentication on, a request for an existing session comes from a caller whose
    -- token the router accepts, who has the required role, and who is an administrator or the owner
    -- that the store's record names; or it is not answered as proxied, and nothing is done for it
    -- but, at most, a look at the provider's keys and a read of the session: it is not forwarded and
    -- counts as no activity.
    pub serve_invoke_guarded :
        (l : Limiter) (w : W)
        → V.oidc ≡ true
        → (session_id == "") ≡ false
        → IsAuthorized w ⊎ IsUntouched w ((served (l, w)).0, (served (l, w)).1.1)
    unfolding serve_invoke
    serve_invoke_guarded l w on named =
        elim (route_guarded (invoke_handler T N S M D V session_id namespace name path kind) l w) [
          | inl (refused, _, inl same) ↦ inr (refused_unproxied _ refused, inl same)
          | inl (refused, _, inr looked) ↦ inr (refused_unproxied _ refused, inr (inl looked))
          | inr (raw, c, token, accepted, has_role, _, answer, world, _) ↦
              elim (invoke_guarded c (validate_token O raw w).1 on named) [
                | inl (sandbox, got, owned) ↦
                    inl (raw, c, sandbox, token, accepted, has_role, got, owned)
                | inr (unproxied, read) ↦
                    inr (λ h. unproxied (sym answer ∙ h), inr (inr (raw, world ∙ read)))
              ]
        ]
