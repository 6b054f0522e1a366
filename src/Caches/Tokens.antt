-- ===== src/Caches/Tokens.antt =====
-- `TokenCache` of pkg/workloadmanager/client_cache.go. Its time to live slides: an entry found anew
-- is in force for the whole time to live again.
use agentcube.Prelude.{
  ℕ, ◌-◌, String, ◌≡◌, Bool, Option, none, some, arith, ltb, eqb, if◌then◌else◌, Option-cases,
  Bool-cases, inl, inr, ==_self,
}
use agentcube.Prelude.Dict.{lookup, insert, lookup-insert}
use agentcube.Time.{Time}
use agentcube.Caches.Lru
use agentcube.Caches.Lru.{Lru, new, move_to_front, discard, set}
use agentcube.Caches.Lru.Laws.{IsValid, lookup-discard}
use agentcube.Caches.Lru.Steps.{forget-IsValid, rewrite-IsValid, set-IsValid, lookup-set}

pub record TokenCacheEntry : Type 0 where
  pub authenticated : Bool
  pub username : String
  pub last_access : Time

pub record TokenCache : Type 0 where
  pub entries : Lru TokenCacheEntry
  pub ttl : ℕ

-- Sizes and times to live that are not positive are given as 0; the default is five minutes.
unfoldable pub new_token_cache : ℕ → ℕ → TokenCache
new_token_cache max_size ttl = record {
  entries = new (if eqb max_size 0 then 1000 else max_size);
  ttl = if eqb ttl 0 then 300_000_000_000 else ttl;
}

abbrev pub is_stale : Time → TokenCache → TokenCacheEntry → Bool
is_stale now c e = ltb c.ttl (now - e.last_access)

-- `TokenCache.Get`: the review's result, or nothing.
unfoldable pub get : Time → String → TokenCache → Option (Bool × String) × TokenCache
get now token c = elim (lookup token c.entries.cache) [
  | none ↦ (none, c)
  | some e ↦
      if is_stale now c e
      then (none, record c { entries = discard token c.entries })
      else (let d = record (c.entries) {
        cache = insert token (record e { last_access = now }) c.entries.cache;
      } in
          (some (e.authenticated, e.username), record c { entries = move_to_front token d }))
]

-- `TokenCache.Set`
unfoldable pub put : Time → String → Bool → String → TokenCache → TokenCache
put now token authenticated username c = record c {
  entries =
      set token (record { authenticated = authenticated; username = username; last_access = now })
        c.entries;
}

-- `TokenCache.Remove`
unfoldable pub remove : String → TokenCache → TokenCache
remove token c = record c { entries = Lru.remove token c.entries }

-- `TokenCache.Size`
unfoldable pub size : TokenCache → ℕ
size c = Lru.size c.entries

pub put-IsValid :
    (now : Time) (token : String) (a : Bool) (u : String) (c : TokenCache)
    → IsValid c.entries
    → IsValid (put now token a u c).entries
unfolding put
put-IsValid now token a u c v = set-IsValid token _ c.entries v

pub get-IsValid :
    (now : Time) (token : String) (c : TokenCache)
    → IsValid c.entries
    → IsValid (get now token c).1.entries
unfolding get
get-IsValid now token c v = elim (Option-cases (lookup token c.entries.cache)) [
  | inl e ↦ rw (e, get) v
  | inr (x, e) ↦ elim (Bool-cases (is_stale now c x)) [
    | inl old ↦ rw (e, get, old) (forget-IsValid token c.entries e v)
    | inr fresh ↦ rw (e, get, fresh) (rewrite-IsValid token _ c.entries e v)
  ]
]

-- A review that was cached is found, with the result that was cached, by every read within the time
-- to live of the last one; a read after a longer pause finds nothing.
pub get-put_review :
    (now later : Time) (token : String) (a : Bool) (u : String) (c : TokenCache)
    → IsValid c.entries
    → (get later token (put now token a u c)).0
      ≡ (if ltb c.ttl (later - now) then none else some (a, u))
unfolding get put
get-put_review now later token a u c v =
    let e : TokenCacheEntry = record { authenticated = a; username = u; last_access = now } in
    let held : lookup token (set token e c.entries).cache ≡ some e =
      ground (arith, lookup-set token token e c.entries v, ==_self token) in
    ground (arith, held)

-- A read that finds a review starts its time to live again, and one that finds a stale review
-- removes it.
pub get-get :
    (now later : Time) (token : String) (c : TokenCache) (e : TokenCacheEntry)
    → lookup token c.entries.cache ≡ some e
    → (get later token (get now token c).1).0 ≡ (
        if is_stale now c e
        then none
        else if ltb c.ttl (later - now)
        then none
        else some (e.authenticated, e.username))
unfolding get move_to_front
get-get now later token c e h = elim (Bool-cases (is_stale now c e)) [
  | inl old ↦
      let gone : lookup token (discard token c.entries).cache ≡ none =
        ground (arith, lookup-discard token token c.entries, ==_self token) in
      ground (arith, gone)
  | inr fresh ↦
      let x : TokenCacheEntry = record e { last_access = now } in
      let held : lookup token (insert token x c.entries.cache) ≡ some x =
        ground (arith, lookup-insert token token x c.entries.cache, ==_self token) in
      ground (arith, held)
]
