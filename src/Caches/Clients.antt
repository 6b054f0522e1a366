-- ===== src/Caches/Clients.antt =====
-- `ClientCache` of pkg/workloadmanager/client_cache.go, over any type of clients and any reading of
-- a token's expiry, and its use in `GetOrCreateUserK8sClient` of k8s_client.go, whose clients are made
-- by `dynamic.NewForConfig`, a parameter.
use agentcube.Prelude.{
  ℕ, ◌≤◌, ◌≢◌, refl, sym, ap, ◌∙◌, subst, String, ◌<>◌, ◌≡◌, ◌⊎◌, Bool, true, not, ◌&&◌, Option,
  none, some, arith, ltb, eqb, ◌==◌, if◌then◌else◌, Option-cases, Bool-cases, inl, inr, ==_self,
}
use Prim.Native.Char.{Char}
use text.Mathlib.TextLemmas.{nil-append, cons-append}
use agentcube.Prelude.Dict.{lookup}
use agentcube.Errors.{Result, Result-cases, ok, err, wrap}
use agentcube.Time.{Time, is_zero}
use agentcube.Caches.Lru
use agentcube.Caches.Lru.{Lru, new, move_to_front, discard, set}
use agentcube.Caches.Lru.Laws.{IsValid, lookup-discard}
use agentcube.Caches.Lru.Steps.{touch-IsValid, forget-IsValid, lookup-set}

pub record ClientCacheEntry (C : Type 0) : Type 0 where
  pub client : C
  pub token_expiry : Time

abbrev pub ClientCache : Type 0 → Type 0
ClientCache C = Lru (ClientCacheEntry C)

abbrev pub make_cache_key : String → String → String
make_cache_key namespace service_account_name = namespace <> ":" <> service_account_name

module _ {C : Type 0} where
  -- Sizes that are not positive are given as 0.
  unfoldable pub new_client_cache : ℕ → ClientCache C
  new_client_cache max_size = new (if eqb max_size 0 then 100 else max_size)

  abbrev pub is_expired : Time → ClientCacheEntry C → Bool
  is_expired now e = not (is_zero e.token_expiry) && ltb e.token_expiry now

  -- `ClientCache.Get`
  unfoldable pub get : Time → String → ClientCache C → Option C × ClientCache C
  get now key c = elim (lookup key c.cache) [
    | none ↦ (none, c)
    | some e ↦
        if is_expired now e then (none, discard key c) else (some e.client, move_to_front key c)
  ]

  -- `ClientCache.Remove`
  unfoldable pub remove : String → ClientCache C → ClientCache C
  remove key c = Lru.remove key c

  -- `ClientCache.Size`
  unfoldable pub size : ClientCache C → ℕ
  size c = Lru.size c

  module _ (parse_jwt_expiry : String → Time) where
    -- `ClientCache.Set`
    unfoldable pub put : String → String → C → ClientCache C → ClientCache C
    put key token client c =
        set key (record { client = client; token_expiry = parse_jwt_expiry token }) c

  pub get-IsValid :
      (now : Time) (k : String) (c : ClientCache C) → IsValid c → IsValid (get now k c).1
  unfolding get
  get-IsValid now k c v = elim (Option-cases (lookup k c.cache)) [
    | inl e ↦ rw (e, get) v
    | inr (x, e) ↦ elim (Bool-cases (is_expired now x)) [
      | inl old ↦ rw (e, get, old) (forget-IsValid k c e v)
      | inr fresh ↦ rw (e, get, fresh) (touch-IsValid k c e v)
    ]
  ]

  -- A client is handed out only if its entry's token has no expiry or has not expired, and an entry
  -- that has expired is dropped; no other key is affected.
  pub get_lem :
      (now : Time) (k j : String) (c : ClientCache C)
      → ((get now k c).0 ≡ elim (lookup k c.cache) [
        | none ↦ none
        | some e ↦ if is_expired now e then none else some e.client
      ])
        × (lookup j (get now k c).1.cache ≡ (
            if k == j
            then elim (lookup j c.cache) [
              | none ↦ none
              | some e ↦ if is_expired now e then none else some e
            ]
            else lookup j c.cache))
  unfolding get move_to_front
  get_lem now k j c = elim (Option-cases (lookup k c.cache)) [
    | inl e ↦ ground arith
    | inr (x, e) ↦ ground (arith, lookup-discard k j c)
  ]

  module _ (parse_jwt_expiry : String → Time) where
    -- A client that has just been cached is handed out again while its token has not expired.
    pub get-put :
        (now : Time) (key token : String) (client : C) (c : ClientCache C)
        → IsValid c
        → (is_zero (parse_jwt_expiry token) ≡ true) ⊎ (now ≤ parse_jwt_expiry token)
        → (get now key (put parse_jwt_expiry key token client c)).0 ≡ some client
    unfolding get put
    get-put now key token client c v h =
        let e : ClientCacheEntry C = record {
          client = client;
          token_expiry = parse_jwt_expiry token;
        } in
        let held : lookup key (set key e c).cache ≡ some e =
          ground (arith, lookup-set key key e c v, ==_self key) in
        ground (arith, held)

-- What of a `rest.Config` says where the API server is and who asks it.
pub record RestConfig : Type 0 where
  pub host : String
  pub bearer_token : String
  pub bearer_token_file : String

pub record UserK8sClient (D : Type 0) : Type 0 where
  pub dynamic_client : D
  pub namespace : String

module _ {D : Type 0} (base_config : RestConfig) (new_for_config : RestConfig → Result D) where
  unfoldable pub new_user_k8s_client : String → String → Result (UserK8sClient D)
  new_user_k8s_client user_token namespace =
      let config = record base_config { bearer_token = user_token; bearer_token_file = "" } in
      elim (new_for_config config) [
        | err e ↦ err (wrap e)
        | ok client ↦ ok (record { dynamic_client = client; namespace = namespace })
      ]

  unfoldable pub get_or_create_user_k8s_client :
      (String → Time)
      → Time
      → String
      → String
      → String
      → ClientCache (UserK8sClient D)
      → Result (UserK8sClient D) × ClientCache (UserK8sClient D)
  get_or_create_user_k8s_client parse_jwt_expiry now user_token namespace service_account_name c =
      let key = make_cache_key namespace service_account_name in
      let r = get now key c in
      elim r.0 [
        | some cached ↦ (ok cached, r.1)
        | none ↦ elim (new_user_k8s_client user_token namespace) [
          | err e ↦ (err e, r.1)
          | ok client ↦ (ok client, put parse_jwt_expiry key user_token client r.1)
        ]
      ]

  -- A client that is made asks with the token that it is made for, provided that one made from a
  -- configuration without a token file asks with the token of the configuration.
  pub new_user_k8s_client-token :
      (token_of : D → String) (user_token namespace : String) (client : UserK8sClient D)
      → ((config : RestConfig) (d : D)
          → config.bearer_token_file ≡ ""
          → new_for_config config ≡ ok d
          → token_of d ≡ config.bearer_token)
      → new_user_k8s_client user_token namespace ≡ ok client
      → token_of client.dynamic_client ≡ user_token
  unfolding new_user_k8s_client
  new_user_k8s_client-token token_of user_token namespace client L h =
      let config : RestConfig = record base_config {
        bearer_token = user_token;
        bearer_token_file = "";
      } in
      elim (Result-cases (new_for_config config)) [
        | inr (x, e) ↦ absurd (ground arith)
        | inl (d, e) ↦
            let made : d ≡ client.dynamic_client = ground arith in
            subst (λ d. token_of d ≡ user_token) made (L config d refl e)
      ]

abbrev colon : Char
colon = ":"

-- A text without a colon.
abbrev pub IsColonless : String → Type 0
IsColonless String.[] = Unit
IsColonless (String.◌∷◌ c s) = (c ≢ colon) × IsColonless s

abbrev head : String → Char
head String.[] = colon
head (String.◌∷◌ c s) = c

abbrev tail : String → String
tail String.[] = ""
tail (String.◌∷◌ c s) = s

make_cache_key-nil : (name : String) → make_cache_key "" name ≡ String.◌∷◌ colon name
make_cache_key-nil name =
    nil-append (":" <> name)
    ∙ (cons-append colon "" name ∙ ap (λ s. String.◌∷◌ colon s) (nil-append name))

make_cache_key-cons :
    (c : Char) (s name : String)
    → make_cache_key (String.◌∷◌ c s) name ≡ String.◌∷◌ c (make_cache_key s name)
make_cache_key-cons c s name = cons-append c s (":" <> name)

-- A key tells the namespace and the name apart.
pub make_cache_key-injective :
    (a c b d : String)
    → IsColonless a
    → IsColonless c
    → make_cache_key a b ≡ make_cache_key c d
    → (a ≡ c) × (b ≡ d)
make_cache_key-injective String.[] String.[] b d pa pc h =
    (refl, ap tail (sym (make_cache_key-nil b) ∙ (h ∙ make_cache_key-nil d)))
make_cache_key-injective String.[] (String.◌∷◌ y c) b d pa pc h =
    let e = sym (make_cache_key-nil b) ∙ (h ∙ make_cache_key-cons y c d) in
    absurd (pc.0 (sym (ap head e)))
make_cache_key-injective (String.◌∷◌ x a) String.[] b d pa pc h =
    let e = sym (make_cache_key-cons x a b) ∙ (h ∙ make_cache_key-nil d) in
    absurd (pa.0 (ap head e))
make_cache_key-injective (String.◌∷◌ x a) (String.◌∷◌ y c) b d pa pc h =
    let e = sym (make_cache_key-cons x a b) ∙ (h ∙ make_cache_key-cons y c d) in
    let (same, name) = make_cache_key-injective a c b d pa.1 pc.1 (ap tail e) in
    let first : x ≡ y = ap head e in (cc (first, same), name)
