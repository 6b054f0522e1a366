-- ===== src/Tests/Stores.antt =====
-- The theorems about the stores at the servers of Tests/Server.antt.
use agentcube.Prelude.{
  ◌≤◌, ◌≡◌, refl, false, none, some, [], ◌∷◌, arith, ◌==◌, string_discrete, if◌then◌else◌,
}
use agentcube.Prelude.Lists.{All, length}
use agentcube.Prelude.Dict.{lookup, insert}
use agentcube.Errors.{err_not_found, ok, err}
use agentcube.Time.{unix, from_unix}
use agentcube.Types.{SandboxInfo}
use agentcube.Store.Keyspace.{Keyspace, text, sorted, text_at, score_at, exists}
use agentcube.Store.Keys.{
  session_key, expiry_index_key, last_activity_index_key, IsProper, session_key-injective,
}
use agentcube.Store.Session.{WellTyped}
use agentcube.Store.Contract.{Contract}
use agentcube.Store.Redis.{
  redis_store, store_sandbox, list_expired_sandboxes, list_inactive_sandboxes,
  load_sandboxes_by_session_ids, collect_sandboxes, with_last_activity, scores_of,
  update_session_last_activity, get_sandbox_by_session_id,
}
use agentcube.Store.Redis.Driver.{update_session_last_activity_script}
use agentcube.Store.Redis.Sessions.{redis_store-Contract}
use agentcube.Store.Redis.Listing.{Listed, IsNamed, list_expired_sandboxes_due}
use agentcube.Store.Redis.Index.{IsIndexed}
use agentcube.Store.Redis.History.{here, next, stores, Reach-IsIndexed}
use agentcube.Store.Valkey.{valkey_store, delete_sandbox_by_session_id, index_activity}
use agentcube.Store.Valkey.Driver.{first_failed}
use agentcube.Store.Valkey.Sessions.{valkey_store-Contract}
use agentcube.Tests.Server.{
  plain, marshal, unmarshal, redis, redis-IsClient, valkey, valkey-IsValkey,
}

redis_store-Contract_example : Contract (redis_store redis) (λ ks. ks) marshal redis.now
redis_store-Contract_example = redis_store-Contract redis (λ ks. ks) redis-IsClient

valkey_store-Contract_example : Contract (valkey_store valkey) (λ ks. ks) marshal valkey.now
valkey_store-Contract_example = valkey_store-Contract valkey (λ ks. ks) valkey-IsValkey

abbrev empty : Keyspace
empty k = none

-- One session, which expires in the second 2 and was used in the second 5.
abbrev server : Keyspace
server k =
    if session_key "s1" == k
    then some (text "s1")
    else if expiry_index_key == k
    then some (sorted (("s1", 2) ∷ []))
    else if last_activity_index_key == k
    then some (sorted (("s1", 5) ∷ []))
    else none

differ_expiry : ("s1" == "expiry") ≡ false
unfolding string_discrete
differ_expiry = refl

differ_last_activity : ("s1" == "last_activity") ≡ false
unfolding string_discrete
differ_last_activity = refl

s1-IsProper : IsProper "s1"
s1-IsProper = record {
  not_expiry = λ e. ground (arith, differ_expiry);
  not_last_activity = λ e. ground (arith, differ_last_activity);
}

empty-WellTyped : WellTyped empty
unfolding text_at
empty-WellTyped = record { expiry_index = refl; last_activity_index = refl }

marshalled : marshal (plain "s1") ≡ ok "s1"
unfolding marshal string_discrete
marshalled = refl

stored : (store_sandbox redis (some (plain "s1")) empty).0 ≡ ok tt
unfolding store_sandbox marshal string_discrete
stored = refl

abbrev timeless : SandboxInfo
timeless = record (plain "s1") { expires_at = 0 }

not_found : (update_session_last_activity redis "s1" 7 empty).0 ≡ err err_not_found
unfolding update_session_last_activity update_session_last_activity_script exists string_discrete
not_found = refl

held : text_at server (session_key "s1") ≡ some "s1"
unfolding text_at session_key string_discrete
held = refl

got : (get_sandbox_by_session_id redis "s1" server).0 ≡ ok (plain "s1")
unfolding get_sandbox_by_session_id session_key string_discrete unmarshal
got = refl

expired : (list_expired_sandboxes redis 3_000_000_000 10 server).0 ≡ ok (plain "s1" ∷ [])
unfolding list_expired_sandboxes load_sandboxes_by_session_ids collect_sandboxes session_key
    expiry_index_key text_at unmarshal string_discrete unix lookup
expired = refl

list_expired_sandboxes_due_example :
    All (Listed redis (λ ks. ks) redis-IsClient server expiry_index_key 3) (plain "s1" ∷ [])
    × (length (plain "s1" ∷ []) ≤ 10)
unfolding unix
list_expired_sandboxes_due_example =
    list_expired_sandboxes_due redis (λ ks. ks) redis-IsClient 3_000_000_000 10 server
      (plain "s1" ∷ []) expired

server-IsNamed : IsNamed redis (λ ks. ks) redis-IsClient server
unfolding text_at unmarshal
server-IsNamed id b s h u = ground (arith, session_key-injective "s1" id)

abbrev stamped : SandboxInfo
stamped = record (plain "s1") { last_activity_at = 5_000_000_000 }

inactive : (list_inactive_sandboxes redis 6_000_000_000 10 server).0 ≡ ok (stamped ∷ [])
unfolding list_inactive_sandboxes load_sandboxes_by_session_ids collect_sandboxes with_last_activity
    scores_of session_key expiry_index_key last_activity_index_key text_at unmarshal string_discrete
    unix lookup insert from_unix
inactive = refl

empty-IsIndexed : IsIndexed empty
unfolding text_at score_at exists
empty-IsIndexed = record {
  typed = empty-WellTyped;
  aligned = λ id p. record { recorded = refl; expiring = refl; active = refl };
}

Reach-IsIndexed_example : IsIndexed (store_sandbox redis (some (plain "s1")) empty).1
Reach-IsIndexed_example =
    Reach-IsIndexed redis (λ ks. ks) redis-IsClient empty
      (store_sandbox redis (some (plain "s1")) empty).1 empty-IsIndexed
      (next here (stores (plain "s1")) s1-IsProper stored refl)

deletes : (delete_sandbox_by_session_id valkey "s1" empty).0 ≡ ok tt
unfolding delete_sandbox_by_session_id first_failed
deletes = refl

indexes :
    (index_activity valkey "s1" 7_000_000_000 (delete_sandbox_by_session_id valkey "s1" empty).1).0
    ≡ ok tt
unfolding index_activity
indexes = refl
