-- ===== src/Identity/Reviews.antt =====
-- The cached reviews of tokens in pkg/workloadmanager/auth.go.
use agentcube.Prelude.{
  ℕ, ◌-◌, ◌≤◌, String, ◌≡◌, refl, sym, subst, Bool, true, false, Bool-cases, Option-cases, inl, inr,
  some, List, [], ◌∷◌, arith, ◌==◌, ==_self, if◌then◌else◌,
}
use agentcube.Prelude.Dict.{lookup, insert, lookup-insert}
use agentcube.Errors.{Result-cases, ok, Try}
use agentcube.Time.{Time}
use agentcube.Caches.Lru.{move_to_front}
use agentcube.Caches.Lru.Laws.{IsValid, lookup-discard}
use agentcube.Caches.Lru.Steps.{lookup-set}
use agentcube.Caches.Tokens.{
  TokenCache, TokenCacheEntry, is_stale, get, put, get-IsValid, put-IsValid,
}
use agentcube.Identity.{validate_service_account_token}

-- Of the reviews asked for at these times, those of the token come each within a time to live of the
-- one before.
abbrev pub IsSteady : String → ℕ → Time → List (Time × String) → Type 0
IsSteady token ttl last [] = Unit
IsSteady token ttl last ((t, k) ∷ asked) =
    ((k == token) ≡ true → t - last ≤ ttl)
    × IsSteady token ttl (if k == token then t else last) asked

IsSteady-from :
    (token : String) (asked : List (Time × String)) {ttl ttl' : ℕ} {last last' : Time}
    → ttl ≡ ttl'
    → last ≡ last'
    → IsSteady token ttl last asked
    → IsSteady token ttl' last' asked
IsSteady-from token asked {ttl} {ttl'} {last} {last'} e f s =
    subst (λ n. IsSteady token n last' asked) e (subst (λ m. IsSteady token ttl m asked) f s)

module _ {W : Type 0} (review : String → Try W (Bool × String)) where
  -- No review of another token evicts that of the token.
  abbrev pub IsRetained : String → List (Time × String) → TokenCache × W → Type 0
  IsRetained token [] s = Unit
  IsRetained token ((t, k) ∷ asked) s =
      let v = validate_service_account_token review t k s in
      ((k == token) ≡ false → (e : TokenCacheEntry) × (lookup token v.1.0.entries.cache ≡ some e))
      × IsRetained token asked v.1

  -- Every review of the token is answered with the name, and leaves the world as it is: the API server
  -- is not asked.
  abbrev pub IsAnswered : String → String → List (Time × String) → TokenCache × W → Type 0
  IsAnswered token name [] s = Unit
  IsAnswered token name ((t, k) ∷ asked) s =
      let v = validate_service_account_token review t k s in
      ((k == token) ≡ true → (v.0 ≡ ok (true, name)) × (v.1.1 ≡ s.1))
      × IsAnswered token name asked v.1

  held_after :
      (t : Time) (token : String) (c : TokenCache) (w : W) (e : TokenCacheEntry)
      → lookup token c.entries.cache ≡ some e
      → t - e.last_access ≤ c.ttl
      → let v = validate_service_account_token review t token (c, w) in
        (v.1.1 ≡ w)
        × (v.1.0.ttl ≡ c.ttl)
        × (lookup token v.1.0.entries.cache ≡ some (record e { last_access = t }))
        × (v.0 ≡ ok (if e.authenticated then (true, e.username) else (false, "")))
  unfolding validate_service_account_token get move_to_front
  held_after t token c w e h le =
      let x : TokenCacheEntry = record e { last_access = t } in
      let held : lookup token (insert token x c.entries.cache) ≡ some x =
        ground (arith, lookup-insert token token x c.entries.cache, ==_self token) in
      (ground arith, ground arith, ground (arith, held), ground arith)

  own_after :
      (t : Time) (k token : String) (c : TokenCache) (w : W) (e : TokenCacheEntry)
      → (k == token) ≡ true
      → lookup token c.entries.cache ≡ some e
      → t - e.last_access ≤ c.ttl
      → let v = validate_service_account_token review t k (c, w) in
        (v.1.1 ≡ w)
        × (v.1.0.ttl ≡ c.ttl)
        × (lookup token v.1.0.entries.cache ≡ some (record e { last_access = t }))
        × (v.0 ≡ ok (if e.authenticated then (true, e.username) else (false, "")))
  own_after t k token c w e own h le =
      let same : k ≡ token = ground arith in rw same (held_after t token c w e h le)

  get_other :
      (t : Time) (k token : String) (c : TokenCache)
      → (k == token) ≡ false
      → (lookup token (get t k c).1.entries.cache ≡ lookup token c.entries.cache)
        × ((get t k c).1.ttl ≡ c.ttl)
  unfolding get move_to_front
  get_other t k token c other = elim (Option-cases (lookup k c.entries.cache)) [
    | inl e ↦ (ground arith, ground arith)
    | inr (x, e) ↦
        let kept = lookup-discard k token c.entries in
        let written = lookup-insert k token (record x { last_access = t }) c.entries.cache in
        elim (Bool-cases (is_stale t c x)) [
          | inl old ↦ (ground (arith, kept), ground arith)
          | inr fresh ↦ (ground (arith, written), ground arith)
        ]
  ]

  put_other :
      (t : Time) (k token name : String) (a : Bool) (c : TokenCache) (e : TokenCacheEntry)
      → IsValid c.entries
      → (k == token) ≡ false
      → lookup token (put t k a name c).entries.cache ≡ some e
      → lookup token c.entries.cache ≡ some e
  unfolding put
  put_other t k token name a c e v other h =
      let x : TokenCacheEntry = record { authenticated = a; username = name; last_access = t } in
      ground (arith, lookup-set k token x c.entries v)

  -- A review of another token that does not evict the token's leaves it as it is.
  other_after :
      (t : Time) (k token : String) (c : TokenCache) (w : W) (e x : TokenCacheEntry)
      → IsValid c.entries
      → (k == token) ≡ false
      → lookup token c.entries.cache ≡ some e
      → let v = validate_service_account_token review t k (c, w) in
        lookup token v.1.0.entries.cache ≡ some x → (x ≡ e) × (v.1.0.ttl ≡ c.ttl)
  unfolding validate_service_account_token put
  other_after t k token c w e x valid other held after =
      let (same, ttl) = get_other t k token c other in
      let kept = get-IsValid t k c valid in
      elim (Option-cases (get t k c).0) [
        | inr ((a, name), f) ↦ (ground (arith, same), ground (arith, ttl))
        | inl f ↦ elim (Result-cases (review k w).0) [
          | inr (y, g) ↦ (ground (arith, same), ground (arith, ttl))
          | inl ((a, name), g) ↦
              let n = if a then name else "" in
              (
                ground (arith, same, put_other t k token n a (get t k c).1 x kept other),
                ground (arith, ttl),
              )
        ]
      ]

  validate-IsValid :
      (t : Time) (k : String) (c : TokenCache) (w : W)
      → IsValid c.entries
      → IsValid (validate_service_account_token review t k (c, w)).1.0.entries
  unfolding validate_service_account_token
  validate-IsValid t k c w v =
      let kept = get-IsValid t k c v in
      elim (Option-cases (get t k c).0) [
        | inr ((a, name), f) ↦ rw (f, validate_service_account_token) kept
        | inl f ↦ elim (Result-cases (review k w).0) [
          | inr (y, g) ↦ rw (f, validate_service_account_token, g) kept
          | inl ((a, name), g) ↦
              rw (f, validate_service_account_token, g)
                (put-IsValid t k a (if a then name else "") (get t k c).1 kept)
        ]
      ]

  -- Whatever tokens are reviewed, and whatever the API server answers for others, a token whose cached
  -- review accepted it is accepted at every use, without the API server being asked for it, as long
  -- as each use comes within the time to live of the one before and no review of another token evicts
  -- its review from the cache; whatever has become of the token at the API server.
  pub uses_steady :
      (token : String) (asked : List (Time × String)) (c : TokenCache) (w : W) (e : TokenCacheEntry)
      → IsValid c.entries
      → lookup token c.entries.cache ≡ some e
      → e.authenticated ≡ true
      → IsSteady token c.ttl e.last_access asked
      → IsRetained token asked (c, w)
      → IsAnswered token e.username asked (c, w)
  uses_steady token [] c w e valid h a s kept = tt
  uses_steady token ((t, k) ∷ asked) c w e valid h a (within, s) (there, kept) =
      let v = validate_service_account_token review t k (c, w) in
      let valid' = validate-IsValid t k c w valid in
      elim (Bool-cases (k == token)) [
        | inr other ↦
            let (x, found) = there other in
            let (same, ttl) = other_after t k token c w e x valid other h found in
            let found' : lookup token v.1.0.entries.cache ≡ some e = ground (arith, found, same) in
            let last : (if k == token then t else e.last_access) ≡ e.last_access = ground arith in
            let steady = IsSteady-from token asked (sym ttl) last s in
            (
              λ own. absurd (ground arith),
              uses_steady token asked v.1.0 v.1.1 e valid' found' a steady kept,
            )
        | inl own ↦
            let x : TokenCacheEntry = record e { last_access = t } in
            let (same, ttl, found, answer) = own_after t k token c w e own h (within own) in
            let last : (if k == token then t else e.last_access) ≡ t = ground arith in
            let steady = IsSteady-from token asked (sym ttl) last s in
            (
              λ _. (rw (answer, a) refl, same),
              uses_steady token asked v.1.0 v.1.1 x valid' found a steady kept,
            )
      ]
