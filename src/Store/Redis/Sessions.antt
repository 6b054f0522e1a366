-- ===== src/Store/Redis/Sessions.antt =====
-- pkg/store/store_redis.go keeps the contract of pkg/store/interface.go.
use agentcube.Store.Keyspace.{Keyspace}
use agentcube.Store.Contract.{Contract}
use agentcube.Store.Redis.{redis_store}
use agentcube.Store.Redis.Driver.{Client, IsClient}
use agentcube.Store.Redis.Writes.{
  session_at-store_sandbox, session_at-update_sandbox, session_at-delete_sandbox,
  session_at-update_session_last_activity,
}
use agentcube.Store.Redis.Reads.{get_sandbox-stored, get_sandbox_not_found}

-- Over a client that does what is documented, the Redis store keeps the contract of a store.
pub redis_store-Contract :
    {W : Type 0} (R : Client W) (view : W → Keyspace) (L : IsClient R view)
    → Contract (redis_store R) view R.marshal R.now
redis_store-Contract R view L = record {
  store-ok = session_at-store_sandbox R view L;
  update-ok = session_at-update_sandbox R view L;
  delete-ok = session_at-delete_sandbox R view L;
  activity-ok = session_at-update_session_last_activity R view L;
  get-ok = λ s r b w m held h. get_sandbox-stored R view L s b w m held h;
  get-not_found = get_sandbox_not_found R view L;
}
