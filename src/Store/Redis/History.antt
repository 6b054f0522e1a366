-- ===== src/Store/Redis/History.antt =====
-- Histories of calls of the store of pkg/store/store_redis.go, by any number of clients: each method
-- reaches the server as one pipeline, command or script, which is taken as one step.
use agentcube.Prelude.{String, ◌≡◌, subst, true, some, inl, inr, arith, if◌then◌else◌}
use agentcube.Errors.{ok, Try, Result-cases}
use agentcube.Time.{Time, unix, is_zero}
use agentcube.Types.{SandboxInfo}
use agentcube.Store.Keyspace.{Keyspace}
use agentcube.Store.Keys.{session_key, last_activity_index_key, IsProper}
use agentcube.Store.Session.{delete_commands}
use agentcube.Store.Redis.{
  store_sandbox, update_sandbox, delete_sandbox_by_session_id, update_session_last_activity,
}
use agentcube.Store.Redis.Driver.{Client, IsClient, update_session_last_activity_script}
use agentcube.Store.Redis.Writes.{store_sandbox-view}
use agentcube.Store.Redis.Index.{
  IsIndexed, store_commands-IsIndexed, delete_commands-IsIndexed, overwrite-IsIndexed,
  touch-IsIndexed,
}

pub data Call : Type 0 where
  stores : SandboxInfo → Call
  updates : SandboxInfo → Call
  deletes : String → Call
  touches : String → Time → Call

abbrev pub session_of : Call → String
session_of (stores s) = s.session_id
session_of (updates s) = s.session_id
session_of (deletes id) = id
session_of (touches id at) = id

module _ {W : Type 0} (R : Client W) where
  abbrev pub perform : Call → Try W (Unit {0})
  perform (stores s) = store_sandbox R (some s)
  perform (updates s) = update_sandbox R (some s)
  perform (deletes id) = delete_sandbox_by_session_id R id
  perform (touches id at) = update_session_last_activity R id at

  -- `v` is reached from `w` by calls that report success.
  pub data Reach (w : W) : W → Type 0 where
    here : Reach w w
    next :
        {u v : W}
        → Reach w u
        → (c : Call) → IsProper (session_of c)
        → (perform c u).0 ≡ ok tt
        → v ≡ (perform c u).1
        → Reach w v

module _ {W : Type 0} (R : Client W) (view : W → Keyspace) (L : IsClient R view) (w : W) where
  store_sandbox-IsIndexed :
      (s : SandboxInfo)
      → IsProper s.session_id
      → IsIndexed (view w)
      → (store_sandbox R (some s) w).0 ≡ ok tt
      → IsIndexed (view (store_sandbox R (some s) w).1)
  unfolding store_sandbox
  store_sandbox-IsIndexed s p v h = elim (Result-cases (R.marshal s)) [
    | inl (b, m) ↦
        rw (store_sandbox-view R view L s b w m h)
          (store_commands-IsIndexed s.session_id (view w) v b _ _ p)
    | inr (x, m) ↦ absurd (ground arith)
  ]

  update_sandbox-IsIndexed :
      (s : SandboxInfo)
      → IsProper s.session_id
      → IsIndexed (view w)
      → (update_sandbox R (some s) w).0 ≡ ok tt
      → IsIndexed (view (update_sandbox R (some s) w).1)
  unfolding update_sandbox
  update_sandbox-IsIndexed s p v h = elim (Result-cases (R.marshal s)) [
    | inl (b, m) ↦
        let sent = L.set_xx-ok (session_key s.session_id) b w true in
        subst IsIndexed (ground (arith, sent))
          (overwrite-IsIndexed s.session_id (view w) v b p (ground (arith, sent)))
    | inr (x, m) ↦ absurd (ground arith)
  ]

  delete_sandbox-IsIndexed :
      (id : String)
      → IsProper id
      → IsIndexed (view w)
      → (delete_sandbox_by_session_id R id w).0 ≡ ok tt
      → IsIndexed (view (delete_sandbox_by_session_id R id w).1)
  unfolding delete_sandbox_by_session_id
  delete_sandbox-IsIndexed id p v h =
      subst IsIndexed (ground (arith, L.pipeline-ok (delete_commands id) w))
        (delete_commands-IsIndexed id (view w) v p)

  update_session_last_activity-IsIndexed :
      (id : String) (at : Time)
      → IsIndexed (view w)
      → (update_session_last_activity R id at w).0 ≡ ok tt
      → IsIndexed (view (update_session_last_activity R id at w).1)
  unfolding update_session_last_activity update_session_last_activity_script
  update_session_last_activity-IsIndexed id at v h =
      let score = unix (if is_zero at then R.now w else at) in
      let key = session_key id in
      elim (Result-cases (R.run_update_script key last_activity_index_key id score w).0) [
        | inl (res, e) ↦
            let sent = L.run_update_script-ok key last_activity_index_key id score w res e in
            subst IsIndexed (ground (arith, sent))
              (touch-IsIndexed id (view w) v score (ground (arith, sent)))
        | inr (x, e) ↦ absurd (ground arith)
      ]

  perform-IsIndexed :
      (c : Call)
      → IsProper (session_of c)
      → IsIndexed (view w)
      → (perform R c w).0 ≡ ok tt
      → IsIndexed (view (perform R c w).1)
  perform-IsIndexed (stores s) = store_sandbox-IsIndexed s
  perform-IsIndexed (updates s) = update_sandbox-IsIndexed s
  perform-IsIndexed (deletes id) = delete_sandbox-IsIndexed id
  perform-IsIndexed (touches id at) = λ p. update_session_last_activity-IsIndexed id at

module _ {W : Type 0} (R : Client W) (view : W → Keyspace) (L : IsClient R view) where
  -- However calls that report success follow one another, a session's record and its entries in the
  -- two indexes are there together or not at all, if they were so at the start.
  pub Reach-IsIndexed : (w v : W) → IsIndexed (view w) → Reach R w v → IsIndexed (view v)
  Reach-IsIndexed w v i here = i
  Reach-IsIndexed w v i (next {u} r c p h e) =
      rw e (perform-IsIndexed R view L u c p (Reach-IsIndexed w u i r) h)
