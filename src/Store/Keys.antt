-- ===== src/Store/Keys.antt =====
-- The keys under which pkg/store/store_redis.go and pkg/store/store_valkey.go keep a session: its
-- record at `session:<id>`, and two sorted sets of session ids, by expiry and by last activity.
use text.Mathlib.TextLemmas.{append_cancel_left}
use agentcube.Prelude.{String, ◌<>◌, ◌≡◌, ◌≢◌, refl, false, arith, ◌==◌, string_discrete}

abbrev pub session_prefix : String
session_prefix = "session:"

unfoldable pub expiry_index_key : String
expiry_index_key = "session:expiry"

unfoldable pub last_activity_index_key : String
last_activity_index_key = "session:last_activity"

unfoldable pub session_key : String → String
session_key session_id = session_prefix <> session_id

-- The session ids whose key is not the key of an index.
pub record IsProper (id : String) : Type 0 where
  pub not_expiry : id ≢ "expiry"
  pub not_last_activity : id ≢ "last_activity"

pub session_key-injective : (i j : String) → session_key i ≡ session_key j → i ≡ j
unfolding session_key
session_key-injective i j = append_cancel_left session_prefix i j

pub session_key-== : (i j : String) → (session_key i == session_key j) ≡ (i == j)
session_key-== i j = ground (arith, session_key-injective i j)

pub session_key-ne-expiry : {id : String} → IsProper id → session_key id ≢ expiry_index_key
unfolding session_key expiry_index_key
session_key-ne-expiry p e = p.not_expiry (append_cancel_left session_prefix _ _ e)

pub session_key-ne-last_activity :
    {id : String} → IsProper id → session_key id ≢ last_activity_index_key
unfolding session_key last_activity_index_key
session_key-ne-last_activity p e = p.not_last_activity (append_cancel_left session_prefix _ _ e)

-- The two ids that are not proper name the indexes themselves.
pub session_key_improper :
    (session_key "expiry" ≡ expiry_index_key)
    × (session_key "last_activity" ≡ last_activity_index_key)
unfolding session_key expiry_index_key last_activity_index_key
session_key_improper = (refl, refl)

index_keys_test : (expiry_index_key == last_activity_index_key) ≡ false
unfolding expiry_index_key last_activity_index_key string_discrete
index_keys_test = refl

pub expiry-ne-last_activity : expiry_index_key ≢ last_activity_index_key
expiry-ne-last_activity e = ground (arith, index_keys_test)
