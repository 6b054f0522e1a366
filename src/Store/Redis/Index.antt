-- ===== src/Store/Redis/Index.antt =====
-- The record of a session and its entries in the two indexes of pkg/store/store_redis.go come and
-- go together: an invariant of the server under the methods of the store.
use agentcube.Prelude.{
  ℕ, String, Bool, true, false, ◌≡◌, Option, none, some, arith, ◌==◌, if◌then◌else◌,
}
use agentcube.Store.Keyspace.{
  Keyspace, set_nx, zadd, del, zrem, exists, apply, apply_all, overwrite, exists-set_nx,
  exists-overwrite, exists-del, exists-apply,
}
use agentcube.Store.Keys.{
  session_key, expiry_index_key, last_activity_index_key, IsProper, session_key-==,
  session_key-ne-expiry, session_key-ne-last_activity,
}
use agentcube.Store.Session.{
  session_at, WellTyped, store_commands, delete_commands, session_at-store_commands,
  store_commands-WellTyped, session_at-delete_commands, delete_commands-WellTyped,
  session_at-overwrite, overwrite-WellTyped, session_at-touch, touch-WellTyped,
}

abbrev pub has {ℓ} : {A : Type ℓ} → Option A → Bool
has none = false
has (some a) = true

-- The session of the id is there as a whole or not at all.
pub record IsAligned (ks : Keyspace) (id : String) : Type 0 where
  pub recorded : has (session_at ks id).blob ≡ exists ks (session_key id)
  pub expiring : has (session_at ks id).expiry ≡ exists ks (session_key id)
  pub active : has (session_at ks id).activity ≡ exists ks (session_key id)

pub record IsIndexed (ks : Keyspace) : Type 0 where
  pub typed : WellTyped ks
  pub aligned : (id : String) → IsProper id → IsAligned ks id

module _ (id j : String) (ks : Keyspace) (q : IsProper j) where
  exists-store_commands :
      (b : String) (e a : ℕ)
      → exists (apply_all (store_commands id b e a) ks) (session_key j)
        ≡ (if id == j then true else exists ks (session_key j))
  unfolding apply_all
  exists-store_commands b e a =
      let key = session_key j in
      let one = apply (set_nx (session_key id) b) ks in
      let two = apply (zadd expiry_index_key e id) one in
      ground (
        arith,
        exists-apply (zadd last_activity_index_key a id) key two,
        exists-apply (zadd expiry_index_key e id) key one,
        exists-set_nx (session_key id) b key ks,
        session_key-== id j,
        session_key-ne-expiry q,
        session_key-ne-last_activity q,
      )

  exists-delete_commands :
      exists (apply_all (delete_commands id) ks) (session_key j)
      ≡ (if id == j then false else exists ks (session_key j))
  unfolding apply_all
  exists-delete_commands =
      let key = session_key j in
      let one = apply (del (session_key id)) ks in
      let two = apply (zrem expiry_index_key id) one in
      ground (
        arith,
        exists-apply (zrem last_activity_index_key id) key two,
        exists-apply (zrem expiry_index_key id) key one,
        exists-del (session_key id) key ks,
        session_key-== id j,
        session_key-ne-expiry q,
        session_key-ne-last_activity q,
      )

module _ (id : String) (ks : Keyspace) (v : IsIndexed ks) where
  pub store_commands-IsIndexed :
      (b : String) (e a : ℕ) → IsProper id → IsIndexed (apply_all (store_commands id b e a) ks)
  store_commands-IsIndexed b e a p = record {
    typed = store_commands-WellTyped id b e a ks p v.typed;
    aligned = λ j q. ground (
      arith,
      session_at-store_commands id b e a ks p v.typed j,
      exists-store_commands id j ks q b e a,
      v.aligned j q,
    );
  }

  pub delete_commands-IsIndexed : IsProper id → IsIndexed (apply_all (delete_commands id) ks)
  delete_commands-IsIndexed p = record {
    typed = delete_commands-WellTyped id ks p v.typed;
    aligned = λ j q. ground (
      arith,
      session_at-delete_commands id ks p j,
      exists-delete_commands id j ks q,
      v.aligned j q,
    );
  }

  pub overwrite-IsIndexed :
      (b : String)
      → IsProper id
      → exists ks (session_key id) ≡ true
      → IsIndexed (overwrite (session_key id) b ks)
  overwrite-IsIndexed b p there = record {
    typed = overwrite-WellTyped id ks p b v.typed;
    aligned = λ j q. ground (
      arith,
      session_at-overwrite id ks p b j,
      exists-overwrite (session_key id) b (session_key j) ks,
      session_key-== id j,
      v.aligned j q,
    );
  }

  pub touch-IsIndexed :
      (a : ℕ)
      → exists ks (session_key id) ≡ true
      → IsIndexed (apply (zadd last_activity_index_key a id) ks)
  touch-IsIndexed a there = record {
    typed = touch-WellTyped id a ks v.typed;
    aligned = λ j q. ground (
      arith,
      session_at-touch id a ks v.typed j,
      exists-apply (zadd last_activity_index_key a id) (session_key j) ks,
      session_key-ne-last_activity q,
      v.aligned j q,
    );
  }
