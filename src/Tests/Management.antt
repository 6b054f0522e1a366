-- ===== src/Tests/Management.antt =====
-- The theorem about the routes of the workload manager, at the world of Tests/World.antt.
use agentcube.Prelude.{String, ◌≡◌, refl, true, none, [], ◌∷◌, arith, string_discrete}
use agentcube.Prelude.Texts.{split, split_n}
use agentcube.Prelude.Dict.{lookup}
use agentcube.Errors.{Error, message, ok, err}
use agentcube.Caches.Lru.{new}
use agentcube.Caches.Tokens.{TokenCache, get}
use agentcube.Identity.{parse_service_account, validate_service_account_token}
use agentcube.Manager.{Server, Request, IsUnknown, IsTurnedAway, serve, serve_unknown}
use agentcube.Tests.World.{World, store, cluster, waits, running}

abbrev text_of : Error → String
text_of e = "error"

-- Every token is that of a person.
abbrev server : Server World
server = record {
  store_client = store;
  k8s_client = cluster;
  waits = waits;
  enable_auth = true;
  review = λ token w. (ok (true, "alice"), w);
  fields = λ header. "Bearer" ∷ header ∷ [];
  build = λ request owner. err (message "no runtime");
  user_client = λ u. ok cluster;
}

abbrev request : Request
request = record {
  method = "DELETE";
  path = "v1" ∷ "agent-runtime" ∷ "sessions" ∷ "s1" ∷ [];
  authorization = "t1";
  body = err (message "no body");
  owner = ok "";
}

abbrev reviews : TokenCache
reviews = record { entries = new 10; ttl = 5 }

person : parse_service_account "alice" ≡ none
unfolding parse_service_account split split_n string_discrete
person = refl

unknown : IsUnknown text_of server 7 request (reviews, running)
unfolding validate_service_account_token get new lookup
unknown token username b h = ground (arith, person)

serve_unknown_example :
    let r = serve text_of server 7 request (reviews, running) in
    IsTurnedAway text_of server (λ w. w) (λ token w. refl) r.0 × (r.1.1 ≡ running)
serve_unknown_example =
    serve_unknown text_of server (λ w. w) (λ token w. refl) 7 request (reviews, running) refl
      unknown
