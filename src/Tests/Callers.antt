-- ===== src/Tests/Callers.antt =====
-- The theorems about callers of the router and of the workload manager, at concrete tokens.
use agentcube.Prelude.{
  ℕ, String, ◌≡◌, ap, subst, Option, ◌↔◌, refl, Bool, true, false, some, List, [], ◌∷◌, pos, ◌==◌,
  ◌⊎◌, string_discrete, arith,
}
use Prim.Native.Char.{code}
use agentcube.Prelude.Texts.{split, split_n}
use agentcube.Prelude.Dict.{lookup, insert}
use agentcube.Errors.{Result, ok, Try}
use agentcube.Time.{Time, from_posix}
use agentcube.Json.{
  text, number, array, object, item, nil, Fields, field, end, member, text_claim, number_claim,
  texts,
}
use agentcube.Router.{Claims}
use agentcube.Router.Upstream.{Dialer}
use agentcube.Router.Limit.{new}
use agentcube.Router.Oidc.{
  OidcValidator, validate_token, check_token_algorithm, check_claims, extract_roles_from_claims,
  navigate, parse_audience_claim,
}
use agentcube.Router.Tokens.{IsAccepted, validate_token_accepts}
use agentcube.Router.Auth.{Folding}
use agentcube.Router.Access.{served, IsAuthorized, IsUntouched, serve_invoke_guarded}
use agentcube.Caches.Lru.{new as new_lru, move_to_front, set, without}
use agentcube.Caches.Lru.Laws.{IsValid, new-IsValid}
use agentcube.Caches.Tokens.{TokenCache, TokenCacheEntry, get, put}
use agentcube.Caches.Clients.{ClientCache, RestConfig, UserK8sClient, IsColonless}
use agentcube.Creation.Answers.{resolve_sandbox_owner_id}
use agentcube.Identity.{
  UserInfo, auth_middleware, parse_service_account, validate_service_account_token,
  extract_user_k8s_client,
}
use agentcube.Identity.Owner.{
  extract_owner_id, verify_identity_jwt, resolve_sandbox_owner_id-verified,
}
use agentcube.Identity.Reviews.{IsSteady, IsRetained, IsAnswered, uses_steady}
use agentcube.Identity.Credentials.{IsFaithful, IsReviewed, IsOwn, extract_user_k8s_client-IsOwn}
use agentcube.Tests.World.{World, store, running}
use agentcube.Tests.Routing.{net, manager, service}

abbrev claims : Fields
claims = field "iss" (text "idp") (
    field "sub" (text "alice") (
      field "exp" (number false (pos 2_000_000_000)) (
        field "aud" (array (item (text "agentcube") nil))
          (field "access" (object (field "roles" (array (item (text "user") nil)) end)) end))))

abbrev validator : OidcValidator World
validator = record {
  issuer = "idp";
  audience = "agentcube";
  roles_claim = "access.roles";
  verify_signature = λ raw w. (ok "payload", w);
  header_alg = λ h. ok "RS256";
  unmarshal = λ p. ok claims;
  now = λ w. from_posix (pos 1_000_000_000);
}

abbrev alice : Claims
alice = record { subject = "alice"; email = ""; roles = "user" ∷ [] }

accepted : (validate_token validator "a.b.c" running).0 ≡ ok alice
unfolding validate_token check_token_algorithm check_claims extract_roles_from_claims navigate
    parse_audience_claim split split_n text_claim number_claim member texts from_posix
    string_discrete
accepted = refl

validate_token_accepts_example :
    ((validate_token validator "a.b.c" running).0 ≡ ok alice)
    ↔ IsAccepted validator "a.b.c" running alice
validate_token_accepts_example = validate_token_accepts validator "a.b.c" running alice

abbrev folding : Folding
folding = record { equal_fold = λ s t. s == t; trim_space = λ s. s }

abbrev dialer : Dialer World
dialer = record { dial = λ a w. (ok tt, w); pause = λ w. (ok tt, w) }

named : ("s1" == "") ≡ false
unfolding string_discrete
named = refl

serve_invoke_guarded_example :
    let r =
      served folding validator "user" "Bearer a.b.c" net store manager dialer service "s1" "ns"
        "box" "/run" "AgentRuntime"
        (new 1, running) in
    IsAuthorized folding validator "user" "Bearer a.b.c" net store manager dialer service "s1" "ns"
      "box" "/run" "AgentRuntime" running
    ⊎ IsUntouched folding validator "user" "Bearer a.b.c" net store manager dialer service "s1" "ns"
        "box" "/run" "AgentRuntime" running
        (r.0, r.1.1)
serve_invoke_guarded_example =
    serve_invoke_guarded folding validator "user" "Bearer a.b.c" net store manager dialer service
      "s1" "ns" "box" "/run" "AgentRuntime" (new 1) running refl named

-- An API server that knows one service account.
abbrev account : String
account = "system:serviceaccount:ns:sa"

abbrev review : String → Try ℕ (Bool × String)
review token n = (ok (true, account), n)

abbrev user_of : String → String
user_of token = account

-- A client that is its token.
abbrev new_for_config : RestConfig → Result String
new_for_config config = ok config.bearer_token

abbrev base_config : RestConfig
base_config = record {
  host = "https://10.0.0.1";
  bearer_token = "own";
  bearer_token_file = "/var/run/token";
}

account_parts : parse_service_account account ≡ some ("ns", "sa")
unfolding parse_service_account split split_n string_discrete
account_parts = refl

plain_ns : IsColonless "ns"
plain_ns = (
  λ h. let e : ◌≡◌ {A = ℕ} 110 58 = ap code h in absurd (omega (arith, e)),
  (λ h. let e : ◌≡◌ {A = ℕ} 115 58 = ap code h in absurd (omega (arith, e)), tt),
)

faithful : IsFaithful review new_for_config (λ t. t) user_of
faithful = record {
  review-name = λ token name w h. ground arith;
  namespace-IsColonless = λ token namespace name h.
      let same : "ns" ≡ namespace = ground (arith, account_parts) in
      subst IsColonless same plain_ns;
  config-token = λ config d e h. ground arith;
}

abbrev reviews : TokenCache
reviews = record { entries = new_lru 2; ttl = 300 }

abbrev clients : ClientCache (UserK8sClient String)
clients = new_lru 2

abbrev words : String → List String
words header = "Bearer" ∷ "t" ∷ []

abbrev user : UserInfo
user = record {
  user_token = "t";
  namespace = "ns";
  service_account = account;
  service_account_name = "sa";
}

passes : (auth_middleware review words true 7 "Bearer t" (reviews, 0)).0 ≡ ok (some user)
unfolding auth_middleware validate_service_account_token parse_service_account split split_n
    string_discrete lookup get new_lru
passes = refl

no_reviews : IsReviewed review base_config new_for_config (λ t. t) user_of faithful reviews
unfolding lookup new_lru
no_reviews token e h = absurd (ground arith)

no_clients : IsOwn review base_config new_for_config (λ t. t) user_of faithful clients
unfolding lookup new_lru
no_clients key e h = absurd (ground arith)

extract_user_k8s_client-IsOwn_example :
    let r = extract_user_k8s_client (λ t. 0) base_config new_for_config 7 (some user) clients in
    let own : Option (String × String) = some ("ns", "sa") in
    (parse_service_account account ≡ own)
    × IsOwn review base_config new_for_config (λ t. t) user_of faithful r.1
    × ((client : String) → r.0 ≡ ok client → parse_service_account (user_of client) ≡ own)
extract_user_k8s_client-IsOwn_example =
    extract_user_k8s_client-IsOwn review base_config new_for_config (λ t. t) user_of faithful
      (λ t. 0) words 7 "Bearer t" reviews 0 user clients (new-IsValid 2 (omega arith)) no_reviews
      (new-IsValid 2 (omega arith)) no_clients passes

abbrev reviewed : TokenCacheEntry
reviewed = record { authenticated = true; username = account; last_access = 100 }

abbrev cached : TokenCache
cached = record reviews {
  entries = record { cache = ("t", reviewed) ∷ []; lru_list = "t" ∷ []; max_size = 2 };
}

cached_review : lookup "t" cached.entries.cache ≡ some reviewed
unfolding lookup string_discrete
cached_review = refl

-- The API server would turn the token away.
abbrev revoked : String → Try ℕ (Bool × String)
revoked token n = (ok (false, ""), n)

-- Another token is reviewed between the uses; the cache has room for both.
abbrev asked : List (Time × String)
asked = (300, "t") ∷ (350, "t2") ∷ (600, "t") ∷ (900, "t") ∷ []

asked_in_time : IsSteady "t" cached.ttl 100 asked
unfolding string_discrete
asked_in_time =
    (λ _. omega arith, (λ h. absurd (ground arith), (λ _. omega arith, (λ _. omega arith, tt))))

retained : IsRetained revoked "t" asked (cached, 0)
unfolding validate_service_account_token get put set lookup insert string_discrete move_to_front
    without
retained = (
  λ h. absurd (ground arith),
  (
    λ _. (record reviewed { last_access = 300 }, refl),
    (λ h. absurd (ground arith), (λ h. absurd (ground arith), tt)),
  ),
)

cached-IsValid : IsValid cached.entries
unfolding string_discrete
cached-IsValid = record {
  positive = omega arith;
  bounded = omega arith;
  listed_once = (refl, tt);
  mapped_once = (refl, tt);
  same_length = refl;
  same_keys = λ j. refl;
}

uses_steady_example : IsAnswered revoked "t" account asked (cached, 0)
uses_steady_example =
    uses_steady revoked "t" asked cached 0 reviewed cached-IsValid cached_review refl asked_in_time
      retained

abbrev identity : Fields
identity = field "aud" (text "workloadmanager") (field "sub" (text "alice") end)

abbrev verify : String → String → Result Fields
verify key raw = ok identity

owner :
    (resolve_sandbox_owner_id (λ e. "error") (extract_owner_id verify "pem" "jwt")).0 ≡ ok "alice"
unfolding resolve_sandbox_owner_id extract_owner_id verify_identity_jwt text_claim member
    string_discrete
owner = refl

resolve_sandbox_owner_id-verified_example :
    (("jwt" == "") ≡ true) × (◌≡◌ {A = String} "alice" "")
    ⊎ (claims : Fields) × (verify "pem" "jwt" ≡ ok claims)
      × (("jwt" == "") ≡ false)
      × (("pem" == "") ≡ false)
      × (text_claim "aud" claims ≡ "workloadmanager")
      × ("alice" ≡ text_claim "sub" claims)
      × (("alice" == "") ≡ false)
resolve_sandbox_owner_id-verified_example =
    resolve_sandbox_owner_id-verified verify (λ e. "error") "pem" "jwt" "alice" owner
