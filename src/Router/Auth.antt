-- ===== src/Router/Auth.antt =====
-- pkg/router/auth.go, and the order in which `setupRoutes` of server.go puts the middlewares before a
-- handler. A handler gets the claims that the context holds, the requests being served and the world.
use agentcube.Prelude.{String, Bool, Option, none, some, List, [], ◌∷◌, ◌==◌, ◌<>◌, if◌then◌else◌}
use agentcube.Prelude.Lists.{contains}
use agentcube.Prelude.Texts.{split_n}
use agentcube.Errors.{ok, err}
use agentcube.Store.{Store}
use agentcube.Router.{Net, Claims, Reply, reply}
use agentcube.Router.Sessions.{Manager}
use agentcube.Router.Upstream.{Dialer}
use agentcube.Router.Invoke.{Service, handle_invoke}
use agentcube.Router.Limit.{Limiter, try_acquire, release}
use agentcube.Router.Oidc.{OidcValidator, validate_token}

-- What follows a middleware.
abbrev pub Handler : Type 0 → Type 0
Handler W = Option Claims → Limiter × W → Reply × (Limiter × W)

-- `strings.EqualFold` and `strings.TrimSpace`
pub record Folding : Type 0 where
  pub equal_fold : String → String → Bool
  pub trim_space : String → String

-- The token of an `Authorization` header, or the text of the refusal.
abbrev token_of : Folding → List String → Option String
token_of T (scheme ∷ rest ∷ []) =
    if T.equal_fold scheme "Bearer" then some (T.trim_space rest) else none
token_of T _ = none

unfoldable pub bearer_token : Folding → String → Option String
bearer_token T header = token_of T (split_n 2 header " ")

module _ {W : Type 0} (T : Folding) where
  unfoldable pub oidc_auth_middleware : Option (OidcValidator W) → String → Handler W → Handler W
  oidc_auth_middleware none header next claims (l, w) = next claims (l, w)
  oidc_auth_middleware (some V) header next claims (l, w) =
      if header == ""
      then (reply 401 "missing authorization header", (l, w))
      else elim (bearer_token T header) [
        | none ↦ (reply 401 "invalid authorization header format", (l, w))
        | some raw_token ↦
            let v = validate_token V raw_token w in
            let served : Reply × (Limiter × W) = elim v.0 [
              | err e ↦ (reply 401 "invalid or expired token", (l, v.1))
              | ok c ↦ next (some c) (l, v.1)
            ] in
            if raw_token == "" then (reply 401 "empty bearer token", (l, w)) else served
      ]

  unfoldable pub require_role : String → Handler W → Handler W
  require_role role next none s = (reply 401 "authentication required", s)
  require_role role next (some c) s =
      let served = next (some c) s in
      if contains c.roles role
      then served
      else (reply 403 ("insufficient permissions: missing role " <> role), s)

  -- The slot is given back when the request is done.
  unfoldable pub concurrency_limit_middleware : Handler W → Handler W
  concurrency_limit_middleware next claims (l, w) =
      let r = next claims ((try_acquire l).1, w) in
      if (try_acquire l).0
      then (r.0, (release r.1.0, r.1.1))
      else (reply 429 "server overloaded, please try again later", (l, w))

  -- A route under "/v1": the role is required only where there is a validator.
  unfoldable pub route : Option (OidcValidator W) → String → String → Handler W → Handler W
  route none role header handler =
      oidc_auth_middleware none header (concurrency_limit_middleware handler)
  route (some V) role header handler =
      oidc_auth_middleware (some V) header
        (require_role role (concurrency_limit_middleware handler))

  -- The invocation routes; no claims are set before the first middleware.
  module _ (N : Net) (S : Store W) (M : Manager W) (D : Dialer W) (V : Service W) where
    abbrev pub invoke_handler : String → String → String → String → String → Handler W
    invoke_handler session_id namespace name path kind claims (l, w) =
        let a = handle_invoke N S M D V claims session_id namespace name path kind w in
        (a.0, (l, a.1))

    unfoldable pub serve_invoke :
        Option (OidcValidator W)
        → String
        → String
        → String
        → String
        → String
        → String
        → String
        → Limiter × W
        → Reply × (Limiter × W)
    serve_invoke validator role header session_id namespace name path kind s =
        route validator role header (invoke_handler session_id namespace name path kind) none s
