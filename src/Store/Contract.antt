-- ===== src/Store/Contract.antt =====
-- What pkg/store/interface.go promises of an implementation, seen by the sessions on the server.
use agentcube.Prelude.{String, ◌≡◌, none, some, ◌==◌, if◌then◌else◌, true}
use agentcube.Errors.{err_not_found, Result, ok, err}
use agentcube.Time.{Time, unix, is_zero}
use agentcube.Types.{SandboxInfo}
use agentcube.Store.{Store}
use agentcube.Store.Keyspace.{Keyspace, text_at, exists}
use agentcube.Store.Keys.{session_key, IsProper}
use agentcube.Store.Session.{session_at, no_session, WellTyped, kept_or}

-- What each call that reports success does to every session: `marshal` and `now` are what the
-- implementation uses.
pub record Contract {W : Type 0} (S : Store W) (view : W → Keyspace)
    (marshal : SandboxInfo → Result String) (now : W → Time) : Type 0 where
  pub store-ok :
      (s : SandboxInfo) (b : String) (w : W) (j : String)
      → IsProper s.session_id
      → WellTyped (view w)
      → marshal s ≡ ok b
      → (S.store_sandbox (some s) w).0 ≡ ok tt
      → session_at (view (S.store_sandbox (some s) w).1) j ≡ (
          if s.session_id == j
          then record {
            blob = kept_or (view w) j b;
            expiry = some (unix s.expires_at);
            activity = some (unix (now w));
          }
          else session_at (view w) j)
  pub update-ok :
      (s : SandboxInfo) (b : String) (w : W) (j : String)
      → IsProper s.session_id
      → marshal s ≡ ok b
      → (S.update_sandbox (some s) w).0 ≡ ok tt
      → (exists (view w) (session_key s.session_id) ≡ true)
        × (session_at (view (S.update_sandbox (some s) w).1) j ≡ (
            if s.session_id == j
            then record (session_at (view w) j) { blob = some b }
            else session_at (view w) j))
  pub delete-ok :
      (id : String) (w : W) (j : String)
      → IsProper id
      → (S.delete_sandbox_by_session_id id w).0 ≡ ok tt
      → session_at (view (S.delete_sandbox_by_session_id id w).1) j
        ≡ (if id == j then no_session else session_at (view w) j)
  pub activity-ok :
      (id : String) (at : Time) (w : W) (j : String)
      → WellTyped (view w)
      → (S.update_session_last_activity id at w).0 ≡ ok tt
      → (exists (view w) (session_key id) ≡ true)
        × (session_at (view (S.update_session_last_activity id at w).1) j ≡ (
            if id == j
            then record (session_at (view w) j) {
              activity = some (unix (if is_zero at then now w else at));
            }
            else session_at (view w) j))
  pub get-ok :
      (s r : SandboxInfo) (b : String) (w : W)
      → marshal s ≡ ok b
      → text_at (view w) (session_key s.session_id) ≡ some b
      → (S.get_sandbox_by_session_id s.session_id w).0 ≡ ok r
      → r ≡ record s { last_activity_at = 0 }
  pub get-not_found :
      (id : String) (w : W)
      → (S.get_sandbox_by_session_id id w).0 ≡ err err_not_found
      → text_at (view w) (session_key id) ≡ none
