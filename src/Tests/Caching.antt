-- ===== src/Tests/Caching.antt =====
-- The theorems about the caches at concrete data.
use agentcube.Prelude.{
  ℕ, ◌≤◌, List, false, String, ◌≡◌, refl, true, some, arith, string_discrete, [], ◌∷◌,
}
use agentcube.Prelude.Dict.{lookup, insert, erase}
use agentcube.Caches.Lru
use agentcube.Caches.Lru.{Lru, new, set}
use agentcube.Caches.History.{
  TokenCall, get_review, put_review, remove_review, perform_review, perform_reviews,
  perform_reviews-bound,
}
use agentcube.Caches.Tokens
use agentcube.Caches.Lru.Laws.{IsValid, new-IsValid}
use agentcube.Caches.Lru.Steps.{set-IsValid}
use agentcube.Caches.Clients
use agentcube.Caches.Clients.{ClientCache, ClientCacheEntry, get_lem, get-put}
use agentcube.Caches.Tokens.{TokenCache, TokenCacheEntry}

-- A cache for one entry.
abbrev single : Lru ℕ
single = new 1

single-IsValid : IsValid single
single-IsValid = new-IsValid 1 (omega arith)

full : IsValid (set "a" 7 single)
full = set-IsValid "a" 7 single single-IsValid

abbrev no_expiry : String → ℕ
no_expiry token = 0

abbrev clients : ClientCache ℕ
clients = Clients.new_client_cache 0

clients-IsValid : IsValid clients
unfolding Clients.new_client_cache
clients-IsValid = new-IsValid 100 (omega arith)

abbrev with_client : ClientCache ℕ
with_client = Clients.put no_expiry "ns:sa" "t" 7 clients

abbrev tokens : TokenCache
tokens = record { entries = new 1; ttl = 10 }

tokens-IsValid : IsValid tokens.entries
tokens-IsValid = new-IsValid 1 (omega arith)

abbrev review : TokenCacheEntry
review = record { authenticated = true; username = "u"; last_access = 5 }

abbrev reviewed : TokenCache
reviewed = record tokens { entries = record (tokens.entries) { cache = ("t", review) ∷ [] } }

held : lookup "t" reviewed.entries.cache ≡ some review
unfolding lookup string_discrete
held = refl

-- Three reviews in a cache for two.
abbrev calls : List TokenCall
calls =
    put_review 0 "t1" true "u1"
    ∷ put_review 1 "t2" true "u2"
    ∷ get_review 2 "t1"
    ∷ put_review 3 "t3" false ""
    ∷ remove_review "t9"
    ∷ []

remaining : Tokens.size (perform_reviews calls (Tokens.new_token_cache 2 0)) ≡ 2
unfolding perform_reviews perform_review Tokens.new_token_cache Tokens.size Tokens.get Tokens.put
    Tokens.remove Lru.size Lru.set Lru.evict_oldest Lru.move_to_front Lru.discard Lru.without
    Lru.back Lru.remove new lookup insert erase string_discrete
remaining = refl

perform_reviews-bound_example :
    let c = perform_reviews calls (Tokens.new_token_cache 2 0) in
    (Tokens.size c ≤ 2) × IsValid c.entries
perform_reviews-bound_example = perform_reviews-bound 2 0 calls
