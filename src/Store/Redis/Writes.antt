-- ===== src/Store/Redis/Writes.antt =====
-- What the writing methods of pkg/store/store_redis.go leave on the server.
use agentcube.Prelude.{
  String, true, false, ◌≡◌, ◌≢◌, ◌⊎◌, inl, inr, some, arith, ◌==◌, if◌then◌else◌,
}
use agentcube.Errors.{Error, err_not_found, ok, err, Result-cases}
use agentcube.Time.{Time, unix, is_zero}
use agentcube.Types.{SandboxInfo}
use agentcube.Store.Keyspace.{Keyspace, exists, apply_all}
use agentcube.Store.Keys.{session_key, last_activity_index_key, IsProper}
use agentcube.Store.Session.{
  session_at, no_session, WellTyped, store_commands, delete_commands, kept_or,
  session_at-store_commands, session_at-delete_commands, session_at-overwrite, session_at-touch,
}
use agentcube.Store.Redis.{
  store_sandbox, update_sandbox, delete_sandbox_by_session_id, update_session_last_activity,
}
use agentcube.Store.Redis.Driver.{Client, IsClient, update_session_last_activity_script}

module _ {W : Type 0} (R : Client W) (view : W → Keyspace) (L : IsClient R view) where
  pub store_sandbox-view :
      (s : SandboxInfo) (b : String) (w : W)
      → R.marshal s ≡ ok b
      → (store_sandbox R (some s) w).0 ≡ ok tt
      → view (store_sandbox R (some s) w).1
        ≡ apply_all (store_commands s.session_id b (unix s.expires_at) (unix (R.now w))) (view w)
  unfolding store_sandbox
  store_sandbox-view s b w m h =
      ground (
        arith,
        L.pipeline-ok (store_commands s.session_id b (unix s.expires_at) (unix (R.now w))) w,
      )

  -- A store that reports success has indexed the session and kept its record: the new one, or the
  -- old one if the session was there. No other session is touched.
  pub session_at-store_sandbox :
      (s : SandboxInfo) (b : String) (w : W) (j : String)
      → IsProper s.session_id
      → WellTyped (view w)
      → R.marshal s ≡ ok b
      → (store_sandbox R (some s) w).0 ≡ ok tt
      → session_at (view (store_sandbox R (some s) w).1) j ≡ (
          if s.session_id == j
          then record {
            blob = kept_or (view w) j b;
            expiry = some (unix s.expires_at);
            activity = some (unix (R.now w));
          }
          else session_at (view w) j)
  session_at-store_sandbox s b w j p t m h =
      rw (store_sandbox-view s b w m h)
        (session_at-store_commands s.session_id b _ _ (view w) p t j)

  -- A sandbox without an expiry time, or one that JSON refuses, is reported as an error before
  -- anything is sent to the server.
  pub store_sandbox_refused :
      (s : SandboxInfo) (w : W)
      → (is_zero s.expires_at ≡ true) ⊎ ((e : Error) × (R.marshal s ≡ err e))
      → ((store_sandbox R (some s) w).0 ≢ ok tt) × ((store_sandbox R (some s) w).1 ≡ w)
  unfolding store_sandbox
  store_sandbox_refused s w h = ground arith

  -- An update that reports success found the session's key and replaced the record alone: no score
  -- and no other session is changed.
  pub session_at-update_sandbox :
      (s : SandboxInfo) (b : String) (w : W) (j : String)
      → IsProper s.session_id
      → R.marshal s ≡ ok b
      → (update_sandbox R (some s) w).0 ≡ ok tt
      → (exists (view w) (session_key s.session_id) ≡ true)
        × (session_at (view (update_sandbox R (some s) w).1) j ≡ (
            if s.session_id == j
            then record (session_at (view w) j) { blob = some b }
            else session_at (view w) j))
  unfolding update_sandbox
  session_at-update_sandbox s b w j p m h = ground (
    arith,
    L.set_xx-ok (session_key s.session_id) b w true,
    session_at-overwrite s.session_id (view w) p b j,
  )

  -- After a deletion that reports success nothing of the session is left, and every other session
  -- stays as it was.
  pub session_at-delete_sandbox :
      (id : String) (w : W) (j : String)
      → IsProper id
      → (delete_sandbox_by_session_id R id w).0 ≡ ok tt
      → session_at (view (delete_sandbox_by_session_id R id w).1) j
        ≡ (if id == j then no_session else session_at (view w) j)
  unfolding delete_sandbox_by_session_id
  session_at-delete_sandbox id w j p h =
      ground
        (arith, L.pipeline-ok (delete_commands id) w, session_at-delete_commands id (view w) p j)

  -- An activity update that reports success found the session's key and renewed its activity score
  -- alone, with the given time or, if that is zero, the present.
  pub session_at-update_session_last_activity :
      (id : String) (at : Time) (w : W) (j : String)
      → WellTyped (view w)
      → (update_session_last_activity R id at w).0 ≡ ok tt
      → (exists (view w) (session_key id) ≡ true)
        × (session_at (view (update_session_last_activity R id at w).1) j ≡ (
            if id == j
            then record (session_at (view w) j) {
              activity = some (unix (if is_zero at then R.now w else at));
            }
            else session_at (view w) j))
  unfolding update_session_last_activity update_session_last_activity_script
  session_at-update_session_last_activity id at w j t h =
      let time = if is_zero at then R.now w else at in
      elim (Result-cases
        (R.run_update_script (session_key id) last_activity_index_key id (unix time) w).0) [
          | inl (res, e) ↦
              let sent =
                L.run_update_script-ok (session_key id) last_activity_index_key id (unix time) w res
                  e in
              ground (arith, sent, session_at-touch id (unix time) (view w) t j)
          | inr (x, e) ↦ absurd (ground arith)
        ]

  -- An activity update that answers "not found" found no key of the session, and left the server as
  -- it was: a deleted session does not come back into the index.
  pub update_session_last_activity_not_found :
      (id : String) (at : Time) (w : W)
      → (update_session_last_activity R id at w).0 ≡ err err_not_found
      → (exists (view w) (session_key id) ≡ false)
        × (view (update_session_last_activity R id at w).1 ≡ view w)
  unfolding update_session_last_activity update_session_last_activity_script
  update_session_last_activity_not_found id at w h =
      let time = if is_zero at then R.now w else at in
      elim (Result-cases
        (R.run_update_script (session_key id) last_activity_index_key id (unix time) w).0) [
          | inl (res, e) ↦ ground (
            arith,
            L.run_update_script-ok (session_key id) last_activity_index_key id (unix time) w res e,
          )
          | inr (x, e) ↦ absurd (ground arith)
        ]
