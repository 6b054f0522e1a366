-- ===== src/Store/Session.antt =====
-- What the keys of pkg/store say of one session id, and what the two writing pipelines of the
-- stores do to it, in the data model of the server alone.
use agentcube.Prelude.{
  ℕ, String, ◌≡◌, ◌≢◌, Option, none, some, List, [], ◌∷◌, arith, ◌==◌, if◌then◌else◌,
}
use agentcube.Store.Keyspace.{
  Keyspace, Command, set_nx, zadd, del, zrem, text_at, score_at, exists, apply, apply_all,
  overwrite, text_at-set_nx, score_at-set_nx, text_at-zadd, score_at-zadd, text_at-del,
  score_at-del, text_at-zrem, score_at-zrem, text_at-overwrite, score_at-overwrite,
}
use agentcube.Store.Keys.{
  session_key, expiry_index_key, last_activity_index_key, IsProper, session_key-==,
  session_key-ne-expiry, session_key-ne-last_activity, expiry-ne-last_activity,
}

-- The stored record, the expiry score and the last-activity score of an id.
pub record Session : Type 0 where
  pub blob : Option String
  pub expiry : Option ℕ
  pub activity : Option ℕ

abbrev pub session_at : Keyspace → String → Session
session_at ks id = record {
  blob = text_at ks (session_key id);
  expiry = score_at ks expiry_index_key id;
  activity = score_at ks last_activity_index_key id;
}

abbrev pub no_session : Session
no_session = record { blob = none; expiry = none; activity = none }

-- The keys of the indexes hold no text.
pub record WellTyped (ks : Keyspace) : Type 0 where
  pub expiry_index : text_at ks expiry_index_key ≡ none
  pub last_activity_index : text_at ks last_activity_index_key ≡ none

abbrev pub store_commands : String → String → ℕ → ℕ → List Command
store_commands id b expiry activity =
    set_nx (session_key id) b
    ∷ zadd expiry_index_key expiry id
    ∷ zadd last_activity_index_key activity id
    ∷ []

abbrev pub delete_commands : String → List Command
delete_commands id =
    del (session_key id) ∷ zrem expiry_index_key id ∷ zrem last_activity_index_key id ∷ []

-- The record that SETNX leaves at a session's key.
abbrev pub kept_or : Keyspace → String → String → Option String
kept_or ks id b = if exists ks (session_key id) then text_at ks (session_key id) else some b

module _ (id b : String) (e a : ℕ) (ks : Keyspace) (p : IsProper id) (t : WellTyped ks) where
  text_at-store_commands :
      (k : String)
      → text_at (apply_all (store_commands id b e a) ks) k ≡ (
          if session_key id == k
          then (if exists ks k then text_at ks k else some b)
          else text_at ks k)
  unfolding apply_all
  text_at-store_commands k = rw (text_at-zadd, text_at-zadd, text_at-set_nx)

  text_at-index :
      (k : String)
      → session_key id ≢ k
      → text_at ks k ≡ none
      → text_at (apply (set_nx (session_key id) b) ks) k ≡ none
  text_at-index k h n = ground (arith, text_at-set_nx (session_key id) b k ks)

  score_at-store_commands :
      (k m : String)
      → score_at (apply_all (store_commands id b e a) ks) k m ≡ (
          if last_activity_index_key == k
          then (if id == m then some a else score_at ks k m)
          else if expiry_index_key == k
          then (if id == m then some e else score_at ks k m)
          else score_at ks k m)
  unfolding apply_all
  score_at-store_commands k m =
      let one = apply (set_nx (session_key id) b) ks in
      let two = apply (zadd expiry_index_key e id) one in
      ground (
        arith,
        score_at-zadd last_activity_index_key a id k m two,
        text_at-zadd expiry_index_key e id last_activity_index_key one,
        text_at-index last_activity_index_key (session_key-ne-last_activity p)
            t.last_activity_index,
        score_at-zadd expiry_index_key e id k m one,
        text_at-index expiry_index_key (session_key-ne-expiry p) t.expiry_index,
        score_at-set_nx (session_key id) b k m ks,
        expiry-ne-last_activity,
      )

  -- The session's scores are written anew and its record is kept if there is one; every other
  -- session stays as it was.
  pub session_at-store_commands :
      (j : String)
      → session_at (apply_all (store_commands id b e a) ks) j ≡ (
          if id == j
          then record { blob = kept_or ks j b; expiry = some e; activity = some a }
          else session_at ks j)
  session_at-store_commands j = ground (
    arith,
    text_at-store_commands (session_key j),
    session_key-== id j,
    score_at-store_commands expiry_index_key j,
    score_at-store_commands last_activity_index_key j,
    expiry-ne-last_activity,
  )

  pub store_commands-WellTyped : WellTyped (apply_all (store_commands id b e a) ks)
  store_commands-WellTyped = ground (
    arith,
    text_at-store_commands expiry_index_key,
    text_at-store_commands last_activity_index_key,
    session_key-ne-last_activity p,
    session_key-ne-expiry p,
  )

module _ (id : String) (ks : Keyspace) (p : IsProper id) where
  text_at-delete_commands :
      (k : String)
      → text_at (apply_all (delete_commands id) ks) k
        ≡ (if session_key id == k then none else text_at ks k)
  unfolding apply_all
  text_at-delete_commands k = rw (text_at-zrem, text_at-zrem, text_at-del)

  score_at-delete_commands :
      (k m : String)
      → score_at (apply_all (delete_commands id) ks) k m ≡ (
          if last_activity_index_key == k
          then (if id == m then none else score_at ks k m)
          else if expiry_index_key == k
          then (if id == m then none else score_at ks k m)
          else if session_key id == k
          then none
          else score_at ks k m)
  unfolding apply_all
  score_at-delete_commands k m =
      let one = apply (del (session_key id)) ks in
      ground (
        arith,
        score_at-zrem last_activity_index_key id k m (apply (zrem expiry_index_key id) one),
        score_at-zrem expiry_index_key id k m one,
        score_at-del (session_key id) k m ks,
        expiry-ne-last_activity,
        session_key-ne-last_activity p,
        session_key-ne-expiry p,
      )

  -- Nothing of the session is left, and every other session stays as it was.
  pub session_at-delete_commands :
      (j : String)
      → session_at (apply_all (delete_commands id) ks) j
        ≡ (if id == j then no_session else session_at ks j)
  session_at-delete_commands j = ground (
    arith,
    text_at-delete_commands (session_key j),
    session_key-== id j,
    score_at-delete_commands expiry_index_key j,
    score_at-delete_commands last_activity_index_key j,
    expiry-ne-last_activity,
  )

  pub delete_commands-WellTyped : WellTyped ks → WellTyped (apply_all (delete_commands id) ks)
  delete_commands-WellTyped t = ground (
    arith,
    text_at-delete_commands expiry_index_key,
    text_at-delete_commands last_activity_index_key,
  )

  pub session_at-overwrite :
      (b j : String)
      → session_at (overwrite (session_key id) b ks) j
        ≡ (if id == j then record (session_at ks j) { blob = some b } else session_at ks j)
  session_at-overwrite b j = ground (
    arith,
    text_at-overwrite (session_key id) b (session_key j) ks,
    session_key-== id j,
    score_at-overwrite (session_key id) b expiry_index_key j ks (session_key-ne-expiry p),
    score_at-overwrite (session_key id) b last_activity_index_key j ks
        (session_key-ne-last_activity p),
  )

  pub overwrite-WellTyped :
      (b : String) → WellTyped ks → WellTyped (overwrite (session_key id) b ks)
  overwrite-WellTyped b t = ground (
    arith,
    text_at-overwrite (session_key id) b expiry_index_key ks,
    text_at-overwrite (session_key id) b last_activity_index_key ks,
    session_key-ne-last_activity p,
    session_key-ne-expiry p,
  )

module _ (id : String) (a : ℕ) (ks : Keyspace) (t : WellTyped ks) where
  pub session_at-touch :
      (j : String)
      → session_at (apply (zadd last_activity_index_key a id) ks) j
        ≡ (if id == j then record (session_at ks j) { activity = some a } else session_at ks j)
  session_at-touch j = ground (
    arith,
    text_at-zadd last_activity_index_key a id (session_key j) ks,
    score_at-zadd last_activity_index_key a id expiry_index_key j ks t.last_activity_index,
    score_at-zadd last_activity_index_key a id last_activity_index_key j ks t.last_activity_index,
    expiry-ne-last_activity,
  )

  pub touch-WellTyped : WellTyped (apply (zadd last_activity_index_key a id) ks)
  touch-WellTyped = ground (
    arith,
    text_at-zadd last_activity_index_key a id expiry_index_key ks,
    text_at-zadd last_activity_index_key a id last_activity_index_key ks,
  )
