-- ===== src/Caches/History.antt =====
-- The two caches of pkg/workloadmanager/client_cache.go after any calls of their methods, from their
-- creation on.
use agentcube.Prelude.{
  ℕ, ◌≤◌, ◌≡◌, refl, ◌∙◌, String, Bool, some, List, [], ◌∷◌, arith, eqb, leb, if◌then◌else◌,
  Bool-cases, Option-cases, inl, inr,
}
use agentcube.Prelude.Dict.{lookup}
use agentcube.Prelude.Lists.{length}
use agentcube.Time.{Time}
use agentcube.Caches.Lru
use agentcube.Caches.Lru.{Lru, back, move_to_front, discard, evict_oldest, set, new}
use agentcube.Caches.Lru.Laws.{IsValid, new-IsValid}
use agentcube.Caches.Lru.Steps.{
  remove-IsValid, set-IsValid, forget-IsValid, rewrite-IsValid, touch-IsValid,
}
use agentcube.Caches.Clients
use agentcube.Caches.Clients.{ClientCache}
use agentcube.Caches.Tokens
use agentcube.Caches.Tokens.{TokenCache}

-- A cache is well formed and keeps its limit.
abbrev Keeps : {V : Type 0} → ℕ → Lru V → Type 0
Keeps n c = IsValid c × (c.max_size ≡ n)

module _ {V : Type 0} where
  max_size-evict_oldest : (c : Lru V) → (evict_oldest c).max_size ≡ c.max_size
  unfolding evict_oldest discard
  max_size-evict_oldest c = elim (Option-cases (back c.lru_list)) [
    | inl e ↦ rw (e, evict_oldest) refl
    | inr (k, e) ↦ rw (e, evict_oldest) refl
  ]

  max_size-set : (k : String) (x : V) (c : Lru V) → (set k x c).max_size ≡ c.max_size
  unfolding set move_to_front
  max_size-set k x c = elim (Option-cases (lookup k c.cache)) [
    | inr (old, e) ↦ rw (e, set) refl
    | inl e ↦ elim (Bool-cases (leb c.max_size (length c.cache))) [
      | inl full ↦ rw (e, set, full) (max_size-evict_oldest c)
      | inr room ↦ rw (e, set, room) refl
    ]
  ]

  max_size-remove : (k : String) (c : Lru V) → (Lru.remove k c).max_size ≡ c.max_size
  unfolding Lru.remove discard
  max_size-remove k c = elim (Option-cases (lookup k c.cache)) [
    | inl e ↦ rw (e, Lru.remove) refl
    | inr (x, e) ↦ rw (e, Lru.remove) refl
  ]

  discard-Keeps :
      (n : ℕ) (k : String) (c : Lru V) {e : V}
      → lookup k c.cache ≡ some e
      → Keeps n c
      → Keeps n (discard k c)
  unfolding discard
  discard-Keeps n k c h (v, m) = (forget-IsValid k c h v, m)

  set-Keeps : (n : ℕ) (k : String) (x : V) (c : Lru V) → Keeps n c → Keeps n (set k x c)
  set-Keeps n k x c (v, m) = (set-IsValid k x c v, max_size-set k x c ∙ m)

  remove-Keeps : (n : ℕ) (k : String) (c : Lru V) → Keeps n c → Keeps n (Lru.remove k c)
  remove-Keeps n k c (v, m) = (remove-IsValid k c v, max_size-remove k c ∙ m)

-- The calls of a `TokenCache` that change it.
pub data TokenCall : Type 0 where
  get_review : Time → String → TokenCall
  put_review : Time → String → Bool → String → TokenCall
  remove_review : String → TokenCall

unfoldable pub perform_review : TokenCall → TokenCache → TokenCache
perform_review (get_review now token) c = (Tokens.get now token c).1
perform_review (put_review now token authenticated username) c =
    Tokens.put now token authenticated username c
perform_review (remove_review token) c = Tokens.remove token c

unfoldable pub perform_reviews : List TokenCall → TokenCache → TokenCache
perform_reviews [] c = c
perform_reviews (call ∷ calls) c = perform_reviews calls (perform_review call c)

get_review-Keeps :
    (n : ℕ) (now : Time) (token : String) (c : TokenCache)
    → Keeps n c.entries
    → Keeps n (Tokens.get now token c).1.entries
unfolding Tokens.get move_to_front
get_review-Keeps n now token c (v, m) = elim (Option-cases (lookup token c.entries.cache)) [
  | inl e ↦ rw (e, Tokens.get) (v, m)
  | inr (x, e) ↦ elim (Bool-cases (Tokens.is_stale now c x)) [
    | inl old ↦ rw (e, Tokens.get, old) (discard-Keeps n token c.entries e (v, m))
    | inr fresh ↦ rw (e, Tokens.get, fresh) (rewrite-IsValid token _ c.entries e v, m)
  ]
]

perform_review-Keeps :
    (n : ℕ) (call : TokenCall) (c : TokenCache)
    → Keeps n c.entries
    → Keeps n (perform_review call c).entries
unfolding perform_review Tokens.put Tokens.remove
perform_review-Keeps n (get_review now token) c h = get_review-Keeps n now token c h
perform_review-Keeps n (put_review now token a u) c h = set-Keeps n token _ c.entries h
perform_review-Keeps n (remove_review token) c h = remove-Keeps n token c.entries h

perform_reviews-Keeps :
    (n : ℕ) (calls : List TokenCall) (c : TokenCache)
    → Keeps n c.entries
    → Keeps n (perform_reviews calls c).entries
unfolding perform_reviews
perform_reviews-Keeps n [] c h = h
perform_reviews-Keeps n (call ∷ calls) c h =
    perform_reviews-Keeps n calls (perform_review call c) (perform_review-Keeps n call c h)

-- Whatever calls a new token cache has had, it holds no more reviews than the size it was created
-- with, or than 1000 where that size was not positive, and the map and the list of the cache have
-- the same distinct keys.
pub perform_reviews-bound :
    (max_size ttl : ℕ) (calls : List TokenCall)
    → let c = perform_reviews calls (Tokens.new_token_cache max_size ttl) in
      (Tokens.size c ≤ (if eqb max_size 0 then 1000 else max_size)) × IsValid c.entries
unfolding Tokens.new_token_cache Tokens.size Lru.size new
perform_reviews-bound max_size ttl calls =
    let n = if eqb max_size 0 then 1000 else max_size in
    let (v, m) =
      perform_reviews-Keeps n calls (Tokens.new_token_cache max_size ttl)
        (new-IsValid n (ground arith), refl) in
    (omega (arith, v.bounded, m), v)

-- The calls of a `ClientCache` that change it.
data ClientCall (C : Type 0) : Type 0 where
  get_client : Time → String → ClientCall C
  put_client : String → String → C → ClientCall C
  remove_client : String → ClientCall C

module _ {C : Type 0} (parse_jwt_expiry : String → Time) where
  unfoldable perform_client : ClientCall C → ClientCache C → ClientCache C
  perform_client (get_client now key) c = (Clients.get now key c).1
  perform_client (put_client key token client) c = Clients.put parse_jwt_expiry key token client c
  perform_client (remove_client key) c = Clients.remove key c

  unfoldable perform_clients : List (ClientCall C) → ClientCache C → ClientCache C
  perform_clients [] c = c
  perform_clients (call ∷ calls) c = perform_clients calls (perform_client call c)

  get_client-Keeps :
      (n : ℕ) (now : Time) (key : String) (c : ClientCache C)
      → Keeps n c
      → Keeps n (Clients.get now key c).1
  unfolding Clients.get move_to_front
  get_client-Keeps n now key c (v, m) = elim (Option-cases (lookup key c.cache)) [
    | inl e ↦ rw (e, Clients.get) (v, m)
    | inr (x, e) ↦ elim (Bool-cases (Clients.is_expired now x)) [
      | inl old ↦ rw (e, Clients.get, old) (discard-Keeps n key c e (v, m))
      | inr fresh ↦ rw (e, Clients.get, fresh) (touch-IsValid key c e v, m)
    ]
  ]

  perform_client-Keeps :
      (n : ℕ) (call : ClientCall C) (c : ClientCache C)
      → Keeps n c
      → Keeps n (perform_client call c)
  unfolding perform_client Clients.put Clients.remove
  perform_client-Keeps n (get_client now key) c h = get_client-Keeps n now key c h
  perform_client-Keeps n (put_client key token client) c h = set-Keeps n key _ c h
  perform_client-Keeps n (remove_client key) c h = remove-Keeps n key c h

  perform_clients-Keeps :
      (n : ℕ) (calls : List (ClientCall C)) (c : ClientCache C)
      → Keeps n c
      → Keeps n (perform_clients calls c)
  unfolding perform_clients
  perform_clients-Keeps n [] c h = h
  perform_clients-Keeps n (call ∷ calls) c h =
      perform_clients-Keeps n calls (perform_client call c) (perform_client-Keeps n call c h)

  -- Whatever calls a new client cache has had, it holds no more clients than the size it was created
  -- with, or than 100 where that size was not positive.
  perform_clients-bound :
      (max_size : ℕ) (calls : List (ClientCall C))
      → Clients.size (perform_clients calls (Clients.new_client_cache max_size))
        ≤ (if eqb max_size 0 then 100 else max_size)
  unfolding Clients.new_client_cache Clients.size Lru.size new
  perform_clients-bound max_size calls =
      let n = if eqb max_size 0 then 100 else max_size in
      let (v, m) =
        perform_clients-Keeps n calls (Clients.new_client_cache max_size)
          (new-IsValid n (ground arith), refl) in
      omega (arith, v.bounded, m)
