-- ===== src/Manager.antt =====
-- pkg/workloadmanager/server.go: the routes of the workload manager, with the middleware of auth.go
-- before the handlers of handlers.go. Reviews of tokens and `strings.Fields` are parameters. A
-- handler gets the outcomes of `extractOwnerID`, of a workload builder and of `extractUserK8sClient`
-- as functions of what they read; what the last does to the cache of clients is in Identity.
use agentcube.Prelude.{
  String, ◌≡◌, refl, ◌⊎◌, inl, inr, ◌||◌, Bool, true, false, not, Bool-cases, Option, none, some,
  Option-cases, List, [], ◌∷◌, arith, ◌==◌, ◌&&◌, if◌then◌else◌,
}
use agentcube.Errors.{Error, Result, Result-cases, ok, err, Try}
use agentcube.Time.{Time}
use agentcube.Types.{CreateSandboxRequest, agent_runtime_kind, code_interpreter_kind}
use agentcube.Store.{Store}
use agentcube.Cluster
use agentcube.Cluster.{Resource}
use agentcube.Caches.Tokens
use agentcube.Caches.Tokens.{TokenCache}
use agentcube.Identity.{
  UserInfo, auth_middleware, bearer_of, parse_service_account, validate_service_account_token,
}
use agentcube.Creation.{Waits}
use agentcube.Creation.Answers.{Response, Built, respond_error, handle_sandbox_create}
use agentcube.Creation.Deletion.{handle_delete_sandbox}

-- What a route leads to.
pub data Endpoint : Type 0 where
  health : Endpoint
  create_sandbox_of : String → Endpoint
  delete_session : String → Endpoint

-- The segments of a path under `/v1`.
abbrev post_route : List String → Option Endpoint
post_route (name ∷ []) =
    if name == "agent-runtime"
    then some (create_sandbox_of agent_runtime_kind)
    else if name == "code-interpreter"
    then some (create_sandbox_of code_interpreter_kind)
    else none
post_route _ = none

abbrev delete_route : List String → Option Endpoint
delete_route (name ∷ sessions ∷ session_id ∷ []) =
    if (name == "agent-runtime" || name == "code-interpreter")
      && sessions == "sessions"
      && not (session_id == "")
    then some (delete_session session_id)
    else none
delete_route _ = none

abbrev get_route : List String → Option Endpoint
get_route (name ∷ []) = if name == "health" then some health else none
get_route _ = none

abbrev v1_route : String → List String → Option Endpoint
v1_route method path =
    if method == "POST"
    then post_route path
    else if method == "DELETE"
    then delete_route path
    else none

-- The routes of `setupRoutes`, by the method and the segments of the path: `none` if there is none, as
-- where gin redirects a path that has a trailing slash too many.
unfoldable pub setup_routes : String → List String → Option Endpoint
setup_routes method [] = none
setup_routes method (first ∷ path) =
    if method == "GET"
    then get_route (first ∷ path)
    else if first == "v1"
    then v1_route method path
    else none

pub data Answer : Type 0 where
  healthy : Answer
  no_route : Answer
  answered : Response → Answer

-- A request as the handlers read it: the header `Authorization`, the decoded body and the outcome of
-- `extractOwnerID`.
pub record Request : Type 0 where
  pub method : String
  pub path : List String
  pub authorization : String
  pub body : Result CreateSandboxRequest
  pub owner : Result String

-- What a `Server` is set up with.
pub record Server (W : Type 0) : Type 0 where
  pub store_client : Store W
  pub k8s_client : Cluster.Client W
  pub waits : Waits W
  pub enable_auth : Bool
  pub review : String → Try W (Bool × String)
  pub fields : String → List String
  pub build : CreateSandboxRequest → String → Result Built
  pub user_client : Option UserInfo → Result (Cluster.Client W)

module _ (error_text : Error → String) {W : Type 0} (V : Server W) where
  unfoldable pub handle : Endpoint → Request → Option UserInfo → W → Answer × W
  handle health rq u w = (healthy, w)
  handle (create_sandbox_of kind) rq u w =
      let r =
        handle_sandbox_create error_text V.store_client V.k8s_client V.waits kind rq.body rq.owner
          V.build V.enable_auth (V.user_client u) w in
      (answered r.0, r.1)
  handle (delete_session session_id) rq u w =
      let r =
        handle_delete_sandbox error_text V.store_client V.k8s_client V.enable_auth (V.user_client u)
          session_id w in
      (answered r.0, r.1)

  -- A group's middleware runs before its handlers; `/health` has none.
  unfoldable pub guarded : Endpoint → Time → Request → TokenCache × W → Answer × (TokenCache × W)
  guarded health now rq s = (healthy, s)
  guarded endpoint now rq s =
      let a = auth_middleware V.review V.fields V.enable_auth now rq.authorization s in
      elim a.0 [
        | err e ↦ (answered (respond_error 401 (error_text e)), a.1)
        | ok u ↦ let r = handle endpoint rq u a.1.1 in (r.0, (a.1.0, r.1))
      ]

  unfoldable pub serve : Time → Request → TokenCache × W → Answer × (TokenCache × W)
  serve now rq s = elim (setup_routes rq.method rq.path) [
    | none ↦ (no_route, s)
    | some endpoint ↦ guarded endpoint now rq s
  ]

  -- No review, of the cache or of the API server, gives the request a service account.
  abbrev pub IsUnknown : Time → Request → TokenCache × W → Type 0
  IsUnknown now rq s =
      (token username : String)
      → bearer_of (V.fields rq.authorization) ≡ some token
      → (validate_service_account_token V.review now token s).0 ≡ ok (true, username)
      → parse_service_account username ≡ none

  module _ {X : Type 0} (view : W → X)
      (review-view : (t : String) (w : W) → view (V.review t w).1 ≡ view w) where
    validate-view :
        (now : Time) (token : String) (s : TokenCache × W)
        → view (validate_service_account_token V.review now token s).1.1 ≡ view s.1
    unfolding validate_service_account_token
    validate-view now token (c, w) = elim (Option-cases (Tokens.get now token c).0) [
      | inr ((a, name), e) ↦ ground arith
      | inl e ↦ elim (Result-cases (V.review token w).0) [
        | inl ((a, name), f) ↦ ground (arith, review-view token w)
        | inr (x, f) ↦ ground (arith, review-view token w)
      ]
    ]

    auth_middleware-refuses :
        (now : Time) (rq : Request) (s : TokenCache × W)
        → IsUnknown now rq s
        → let a = auth_middleware V.review V.fields true now rq.authorization s in
          ((e : Error) × (a.0 ≡ err e)) × (view a.1.1 ≡ view s.1)
    unfolding auth_middleware
    auth_middleware-refuses now rq s h = elim (Bool-cases (rq.authorization == "")) [
      | inl e ↦ rw (auth_middleware, e) ((_, refl), refl)
      | inr e ↦ elim (Option-cases (bearer_of (V.fields rq.authorization))) [
        | inl f ↦ rw (auth_middleware, e, f) ((_, refl), refl)
        | inr (token, f) ↦
            let same = validate-view now token s in
            elim (Result-cases (validate_service_account_token V.review now token s).0) [
              | inr (x, g) ↦ rw (auth_middleware, e, f, g) ((_, refl), same)
              | inl ((false, name), g) ↦ rw (auth_middleware, e, f, g) ((_, refl), same)
              | inl ((true, name), g) ↦
                  rw (auth_middleware, e, f, g, h token name f g) ((_, refl), same)
            ]
      ]
    ]

    -- What a caller without a service account is answered.
    abbrev pub IsTurnedAway : Answer → Type 0
    IsTurnedAway a =
        (a ≡ healthy)
        ⊎ (a ≡ no_route)
        ⊎ ((e : Error) × (a ≡ answered (respond_error 401 (error_text e))))

    turned_away :
        (endpoint : Endpoint) (now : Time) (rq : Request) (s : TokenCache × W) (e : Error)
        → V.enable_auth ≡ true
        → let a = auth_middleware V.review V.fields true now rq.authorization s in
          a.0 ≡ err e
          → guarded endpoint now rq s ≡ (healthy, s)
            ⊎ (guarded endpoint now rq s ≡ (answered (respond_error 401 (error_text e)), a.1))
    unfolding guarded
    turned_away health now rq s e on f = inl refl
    turned_away (create_sandbox_of kind) now rq s e on f = inr (simp (guarded, on, f))
    turned_away (delete_session session_id) now rq s e on f = inr (simp (guarded, on, f))

    -- With authentication on, a request whose token no review, cached or new, ties to a service account
    -- gets at most the health of the server, or that there is no such route, or a refusal with 401,
    -- whatever its method and path; and what reviews leave unchanged in the world, as the objects and
    -- the sessions, it leaves unchanged.
    pub serve_unknown :
        (now : Time) (rq : Request) (s : TokenCache × W)
        → V.enable_auth ≡ true
        → IsUnknown now rq s
        → IsTurnedAway (serve now rq s).0 × (view (serve now rq s).1.1 ≡ view s.1)
    unfolding serve
    serve_unknown now rq s on h = elim (Option-cases (setup_routes rq.method rq.path)) [
      | inl e ↦ rw (serve, e) (inr (inl refl), refl)
      | inr (endpoint, e) ↦
          let ((x, g), same) = auth_middleware-refuses now rq s h in
          elim (turned_away endpoint now rq s x on g) [
            | inl f ↦ rw (serve, e, f) (inl refl, refl)
            | inr f ↦ rw (serve, e, f) (inr (inr (x, refl)), same)
          ]
    ]
