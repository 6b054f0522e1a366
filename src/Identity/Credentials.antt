-- ===== src/Identity/Credentials.antt =====
-- Whose permissions a request acts with: `authMiddleware`, `extractUserK8sClient` and the caches of
-- tokens and clients between them, in pkg/workloadmanager.
use agentcube.Prelude.{
  String, ◌<>◌, ◌≡◌, refl, sym, subst, Bool, true, false, Option, some, List, arith, ◌==◌, ◌||◌,
  Bool-cases, Option-cases, inl, inr,
}
use agentcube.Prelude.Dict.{lookup}
use agentcube.Errors.{Result, ok, Try, Result-cases}
use agentcube.Time.{Time}
use agentcube.Caches.Lru.Laws.{IsValid}
use agentcube.Caches.Lru.Entries.{
  Every, Every-discard, Every-move_to_front, Every-rewrite, Every-set,
}
use agentcube.Caches.Tokens
use agentcube.Caches.Tokens.{TokenCache, TokenCacheEntry, is_stale}
use agentcube.Caches.Clients
use agentcube.Caches.Clients.{
  ClientCache, ClientCacheEntry, RestConfig, UserK8sClient, IsColonless, make_cache_key,
  make_cache_key-injective, new_user_k8s_client, new_user_k8s_client-token, is_expired,
  get_or_create_user_k8s_client,
}
use agentcube.Identity.{
  UserInfo, parse_service_account, bearer_of, validate_service_account_token, auth_middleware,
  extract_user_k8s_client,
}

-- The API server gives one name to a token, no namespace has a colon, and a client that is made from
-- a configuration without a token file asks with the token of the configuration.
pub record IsFaithful {W D : Type 0} (review : String → Try W (Bool × String))
    (new_for_config : RestConfig → Result D) (token_of : D → String) (user_of : String → String)
    : Type 0 where
  pub review-name :
      (token name : String) (w : W) → (review token w).0 ≡ ok (true, name) → name ≡ user_of token
  pub namespace-IsColonless :
      (token namespace name : String)
      → parse_service_account (user_of token) ≡ some (namespace, name)
      → IsColonless namespace
  pub config-token :
      (config : RestConfig) (d : D)
      → config.bearer_token_file ≡ ""
      → new_for_config config ≡ ok d
      → token_of d ≡ config.bearer_token

module _ {W D : Type 0} (review : String → Try W (Bool × String)) (base_config : RestConfig)
    (new_for_config : RestConfig → Result D) (token_of : D → String) (user_of : String → String)
    (F : IsFaithful review new_for_config token_of user_of) where
  -- The reviews in the cache give tokens their names.
  abbrev pub IsReviewed : TokenCache → Type 0
  IsReviewed c = Every (λ token e. e.authenticated ≡ true → e.username ≡ user_of token) c.entries

  -- A token of the service account whose namespace and name a cache key joins by a colon.
  abbrev pub IsTokenOf : String → String → Type 0
  IsTokenOf key token =
      (namespace name : String) × (parse_service_account (user_of token) ≡ some (namespace, name))
      × (namespace <> ":" <> name ≡ key)

  -- The clients in the cache act with tokens of the service account that they are kept for.
  abbrev pub IsOwn : ClientCache (UserK8sClient D) → Type 0
  IsOwn c = Every (λ key e. IsTokenOf key (token_of e.client.dynamic_client)) c

  -- The account of a key is one only.
  own_account :
      (token other namespace name : String)
      → parse_service_account (user_of token) ≡ some (namespace, name)
      → IsTokenOf (make_cache_key namespace name) other
      → parse_service_account (user_of other) ≡ some (namespace, name)
  own_account token other namespace name h (ns, n, e, joined) =
      let (a, b) =
        make_cache_key-injective ns namespace n name (F.namespace-IsColonless other ns n e)
          (F.namespace-IsColonless token namespace name h) joined in
      rw (← a, ← b) e

  get-IsReviewed :
      (now : Time) (token : String) (c : TokenCache)
      → IsReviewed c
      → IsReviewed (Tokens.get now token c).1
        × ((name : String) → (Tokens.get now token c).0 ≡ some (true, name) → name ≡ user_of token)
  unfolding Tokens.get
  get-IsReviewed now token c h = elim (Option-cases (lookup token c.entries.cache)) [
    | inl e ↦ (rw (e, Tokens.get) h, λ name found. absurd (ground arith))
    | inr (x, e) ↦ elim (Bool-cases (is_stale now c x)) [
      | inl old ↦ (
        rw (e, Tokens.get, old)
            (Every-discard (λ t y. y.authenticated ≡ true → y.username ≡ user_of t) token c.entries
              h),
        λ name found. absurd (ground arith),
      )
      | inr fresh ↦ (
        rw (e, Tokens.get, fresh)
            (Every-move_to_front (λ t y. y.authenticated ≡ true → y.username ≡ user_of t) token _
              (Every-rewrite (λ t y. y.authenticated ≡ true → y.username ≡ user_of t) token
                (record x { last_access = now }) c.entries h (h token x e))),
        λ name found. ground (arith, h token x e (ground arith)),
      )
    ]
  ]

  put-IsReviewed :
      (now : Time) (token name : String) (a : Bool) (c : TokenCache)
      → IsValid c.entries
      → IsReviewed c
      → (a ≡ true → name ≡ user_of token)
      → IsReviewed (Tokens.put now token a name c)
  unfolding Tokens.put
  put-IsReviewed now token name a c v h named =
      Every-set (λ t y. y.authenticated ≡ true → y.username ≡ user_of t) token _ c.entries v h named

  validate_service_account_token-IsReviewed :
      (now : Time) (token : String) (c : TokenCache) (w : W)
      → IsValid c.entries
      → IsReviewed c
      → let v = validate_service_account_token review now token (c, w) in
        IsReviewed v.1.0 × ((name : String) → v.0 ≡ ok (true, name) → name ≡ user_of token)
  unfolding validate_service_account_token
  validate_service_account_token-IsReviewed now token c w v h =
      let (kept, named) = get-IsReviewed now token c h in
      elim (Option-cases (Tokens.get now token c).0) [
        | inr ((true, name), e) ↦
            (rw (e, validate_service_account_token) kept, λ n f. ground (arith, named name e))
        | inr ((false, name), e) ↦
            (rw (e, validate_service_account_token) kept, λ n f. absurd (ground arith))
        | inl e ↦ elim (Result-cases (review token w).0) [
          | inr (x, f) ↦
              (rw (e, validate_service_account_token, f) kept, λ n g. absurd (ground arith))
          | inl ((true, name), f) ↦ (
            rw (e, validate_service_account_token, f)
                (put-IsReviewed now token name true (Tokens.get now token c).1
                  (Tokens.get-IsValid now token c v) kept (λ _. F.review-name token name w f)),
            λ n g. ground (arith, F.review-name token name w f),
          )
          | inl ((false, name), f) ↦ (
            rw (e, validate_service_account_token, f)
                (put-IsReviewed now token "" false (Tokens.get now token c).1
                  (Tokens.get-IsValid now token c v) kept (λ g. absurd (ground arith))),
            λ n g. absurd (ground arith),
          )
        ]
      ]

  -- A caller who passes has the service account that the API server names for the token.
  auth_middleware-named :
      (fields : String → List String) (now : Time) (header : String) (c : TokenCache) (w : W)
      (u : UserInfo)
      → IsValid c.entries
      → IsReviewed c
      → (auth_middleware review fields true now header (c, w)).0 ≡ ok (some u)
      → parse_service_account (user_of u.user_token) ≡ some (u.namespace, u.service_account_name)
  unfolding auth_middleware
  auth_middleware-named fields now header c w u v h passed =
      elim (Option-cases (bearer_of (fields header))) [
        | inl e ↦ absurd (ground arith)
        | inr (token, e) ↦
            let a = validate_service_account_token review now token (c, w) in
            elim (Result-cases a.0) [
              | inr (x, f) ↦ absurd (ground arith)
              | inl ((false, name), f) ↦ absurd (ground arith)
              | inl ((true, name), f) ↦
                  let named =
                    (validate_service_account_token-IsReviewed now token c w v h).1 name f in
                  elim (Option-cases (parse_service_account name)) [
                    | inl g ↦ absurd (ground arith)
                    | inr ((ns, n), g) ↦ ground (arith, named)
                  ]
            ]
      ]

  module _ (parse_jwt_expiry : String → Time) where
    get-IsOwn :
        (now : Time) (key : String) (c : ClientCache (UserK8sClient D))
        → IsOwn c
        → IsOwn (Clients.get now key c).1
          × ((client : UserK8sClient D)
              → (Clients.get now key c).0 ≡ some client
              → IsTokenOf key (token_of client.dynamic_client))
    unfolding Clients.get
    get-IsOwn now key c h =
        let P : String → ClientCacheEntry (UserK8sClient D) → Type 0 =
          λ k e. IsTokenOf k (token_of e.client.dynamic_client) in
        elim (Option-cases (lookup key c.cache)) [
          | inl e ↦ (rw (e, Clients.get) h, λ client found. absurd (ground arith))
          | inr (x, e) ↦ elim (Bool-cases (is_expired now x)) [
            | inl old ↦ (
              rw (e, Clients.get, old) (Every-discard P key c h),
              λ client found. absurd (ground arith),
            )
            | inr fresh ↦ (
              rw (e, Clients.get, fresh) (Every-move_to_front P key c h),
              λ client found.
                  let same : x.client ≡ client = ground arith in
                  subst (λ d. IsTokenOf key (token_of d.dynamic_client)) same (h key x e),
            )
          ]
        ]

    get_or_create-IsOwn :
        (now : Time) (token namespace name : String) (c : ClientCache (UserK8sClient D))
        → IsValid c
        → IsOwn c
        → IsTokenOf (make_cache_key namespace name) token
        → let r =
            get_or_create_user_k8s_client base_config new_for_config parse_jwt_expiry now token
              namespace name c in
          IsOwn r.1
          × ((client : UserK8sClient D)
              → r.0 ≡ ok client
              → IsTokenOf (make_cache_key namespace name) (token_of client.dynamic_client))
    unfolding get_or_create_user_k8s_client Clients.put
    get_or_create-IsOwn now token namespace name c v h own =
        let P : String → ClientCacheEntry (UserK8sClient D) → Type 0 =
          λ k e. IsTokenOf k (token_of e.client.dynamic_client) in
        let key = make_cache_key namespace name in
        let (kept, found) = get-IsOwn now key c h in
        elim (Option-cases (Clients.get now key c).0) [
          | inr (client, e) ↦ (
            rw (e, get_or_create_user_k8s_client) kept,
            λ d f.
                let same : client ≡ d = ground arith in
                subst (λ d. IsTokenOf key (token_of d.dynamic_client)) same (found client e),
          )
          | inl e ↦
              elim (Result-cases (new_user_k8s_client base_config new_for_config token namespace)) [
                | inr (x, f) ↦
                    (rw (e, get_or_create_user_k8s_client, f) kept, λ d g. absurd (ground arith))
                | inl (client, f) ↦
                    let acts =
                      new_user_k8s_client-token base_config new_for_config token_of token namespace
                        client F.config-token f in
                    let held : IsTokenOf key (token_of client.dynamic_client) =
                      subst (IsTokenOf key) (sym acts) own in
                    (
                      rw (e, get_or_create_user_k8s_client, f, Clients.put)
                          (Every-set P key _ (Clients.get now key c).1
                            (Clients.get-IsValid now key c v) kept held),
                      λ d g.
                          let same : client ≡ d = ground arith in
                          subst (λ d. IsTokenOf key (token_of d.dynamic_client)) same held,
                    )
              ]
        ]

    -- The client that a caller's sandbox is created or deleted with asks with a token of the caller's own
    -- service account, in its namespace and with its name, which is the account that the API server
    -- names for the caller's token; and the clients in the cache stay those of the accounts that they
    -- are kept for, provided that the caches of clients and of reviews were so before. The API server
    -- gives a token one name, and no namespace has a colon.
    pub extract_user_k8s_client-IsOwn :
        (fields : String → List String) (now : Time) (header : String) (t : TokenCache) (w : W)
        (u : UserInfo) (c : ClientCache (UserK8sClient D))
        → IsValid t.entries
        → IsReviewed t
        → IsValid c
        → IsOwn c
        → (auth_middleware review fields true now header (t, w)).0 ≡ ok (some u)
        → let r =
            extract_user_k8s_client parse_jwt_expiry base_config new_for_config now (some u) c in
          let account : Option (String × String) = some (u.namespace, u.service_account_name) in
          (parse_service_account (user_of u.user_token) ≡ account)
          × IsOwn r.1
          × ((client : D)
              → r.0 ≡ ok client
              → parse_service_account (user_of (token_of client)) ≡ account)
    unfolding extract_user_k8s_client
    extract_user_k8s_client-IsOwn fields now header t w u c vt ht vc hc passed =
        let named = auth_middleware-named fields now header t w u vt ht passed in
        let got =
          get_or_create_user_k8s_client base_config new_for_config parse_jwt_expiry now u.user_token
            u.namespace u.service_account_name c in
        let (kept, found) =
          get_or_create-IsOwn now u.user_token u.namespace u.service_account_name c vc hc
            (u.namespace, u.service_account_name, named, refl) in
        elim (Bool-cases
          (u.user_token == "" || u.namespace == "" || u.service_account_name == "")) [
            | inl e ↦ (named, rw (extract_user_k8s_client, e) hc, λ d f. absurd (ground arith))
            | inr e ↦ elim (Result-cases got.0) [
              | inr (x, f) ↦
                  (named, rw (extract_user_k8s_client, e, f) kept, λ d g. absurd (ground arith))
              | inl (client, f) ↦ (
                named,
                rw (extract_user_k8s_client, e, f) kept,
                λ d g.
                    let same : client.dynamic_client ≡ d = ground arith in
                    subst
                      (λ d.
                        parse_service_account (user_of (token_of d))
                        ≡ some (u.namespace, u.service_account_name))
                      same
                      (own_account u.user_token (token_of client.dynamic_client) u.namespace
                        u.service_account_name named (found client f)),
              )
            ]
          ]
