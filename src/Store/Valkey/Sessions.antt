-- ===== src/Store/Valkey/Sessions.antt =====
-- pkg/store/store_valkey.go keeps the contract of pkg/store/interface.go.
use agentcube.Prelude.{
  ==_self, String, true, ◌≡◌, inl, inr, none, some, Option-cases, arith, ◌==◌, if◌then◌else◌,
  string_discrete,
}
use agentcube.Errors.{err_not_found, ok, err, Result-cases}
use agentcube.Time.{Time, unix, is_zero}
use agentcube.Types.{SandboxInfo}
use agentcube.Store.Keyspace.{Keyspace, zadd, exists, text_at, apply, apply_all}
use agentcube.Store.Keys.{session_key, last_activity_index_key, IsProper}
use agentcube.Store.Session.{
  WellTyped, delete_commands-WellTyped, session_at, store_commands, delete_commands,
  session_at-store_commands, session_at-delete_commands, session_at-overwrite, session_at-touch,
}
use agentcube.Store.Contract.{Contract}
use agentcube.Store.Valkey.{
  valkey_store, store_sandbox, update_sandbox, delete_sandbox_by_session_id,
  update_session_last_activity, index_activity, get_sandbox_by_session_id,
}
use agentcube.Store.Valkey.Driver.{Valkey, IsValkey, first_failed}

module _ {W : Type 0} (R : Valkey W) (view : W → Keyspace) (L : IsValkey R view) where
  store_sandbox-view :
      (s : SandboxInfo) (b : String) (w : W)
      → R.marshal s ≡ ok b
      → (store_sandbox R (some s) w).0 ≡ ok tt
      → view (store_sandbox R (some s) w).1
        ≡ apply_all (store_commands s.session_id b (unix s.expires_at) (unix (R.now w))) (view w)
  unfolding store_sandbox
  store_sandbox-view s b w m h =
      let commands = store_commands s.session_id b (unix s.expires_at) (unix (R.now w)) in
      elim (Option-cases (first_failed (R.do_multi commands w).0)) [
        | inl e ↦ ground (arith, L.do_multi-ok commands w e)
        | inr (x, e) ↦ absurd (ground arith)
      ]

  update_sandbox-view :
      (s : SandboxInfo) (b : String) (w : W) (j : String)
      → IsProper s.session_id
      → R.marshal s ≡ ok b
      → (update_sandbox R (some s) w).0 ≡ ok tt
      → (exists (view w) (session_key s.session_id) ≡ true)
        × (session_at (view (update_sandbox R (some s) w).1) j ≡ (
            if s.session_id == j
            then record (session_at (view w) j) { blob = some b }
            else session_at (view w) j))
  unfolding update_sandbox
  update_sandbox-view s b w j p m h =
      elim (Result-cases (R.set_xx (session_key s.session_id) b w).0) [
        | inr (x, e) ↦ absurd (ground arith)
        | inl (msg, e) ↦ elim (string_discrete msg "OK") [
          | no n ↦ absurd (ground arith)
          | yes q ↦
              let sent = L.set_xx-ok (session_key s.session_id) b w (ground arith) in
              ground (arith, sent, session_at-overwrite s.session_id (view w) p b j)
        ]
      ]

  delete_sandbox-view :
      (id : String) (w : W)
      → (delete_sandbox_by_session_id R id w).0 ≡ ok tt
      → view (delete_sandbox_by_session_id R id w).1 ≡ apply_all (delete_commands id) (view w)
  unfolding delete_sandbox_by_session_id
  delete_sandbox-view id w h =
      elim (Option-cases (first_failed (R.do_multi (delete_commands id) w).0)) [
        | inl e ↦ ground (arith, L.do_multi-ok (delete_commands id) w e)
        | inr (x, e) ↦ absurd (ground arith)
      ]

  update_session_last_activity-view :
      (id : String) (at : Time) (w : W)
      → (update_session_last_activity R id at w).0 ≡ ok tt
      → (exists (view w) (session_key id) ≡ true)
        × (view (update_session_last_activity R id at w).1
            ≡ apply
                (zadd last_activity_index_key (unix (if is_zero at then R.now w else at)) id)
                (view w))
  unfolding update_session_last_activity index_activity
  update_session_last_activity-view id at w h =
      let time = if is_zero at then R.now w else at in
      let n = R.exists_count (session_key id) w in
      let c = zadd last_activity_index_key (unix time) id in
      elim (Result-cases n.0) [
        | inr (x, e) ↦ absurd (ground arith)
        | inl (k, e) ↦ elim (Result-cases (R.run c n.1).0) [
          | inr (y, f) ↦ absurd (ground arith)
          | inl (u, f) ↦ ground (
            arith,
            L.exists_count-ok (session_key id) w k e,
            L.exists_count-view (session_key id) w,
            L.run-ok c n.1 f,
          )
        ]
      ]

  get_sandbox-recorded :
      (s r : SandboxInfo) (b : String) (w : W)
      → R.marshal s ≡ ok b
      → text_at (view w) (session_key s.session_id) ≡ some b
      → (get_sandbox_by_session_id R s.session_id w).0 ≡ ok r
      → r ≡ record s { last_activity_at = 0 }
  unfolding get_sandbox_by_session_id
  get_sandbox-recorded s r b w m held h =
      elim (Result-cases (R.get (session_key s.session_id) w).0) [
        | inl (c, e) ↦
            ground (arith, L.get-ok (session_key s.session_id) c w e, L.unmarshal-marshal s b m)
        | inr (x, e) ↦ absurd (ground arith)
      ]

  get_sandbox-missing :
      (id : String) (w : W)
      → (get_sandbox_by_session_id R id w).0 ≡ err err_not_found
      → text_at (view w) (session_key id) ≡ none
  unfolding get_sandbox_by_session_id
  get_sandbox-missing id w h = elim (Result-cases (R.get (session_key id) w).0) [
    | inl (c, e) ↦ elim (Result-cases (R.unmarshal c)) [
      | inl (s, f) ↦ absurd (ground arith)
      | inr (x, f) ↦ absurd (ground arith)
    ]
    | inr (x, e) ↦ ground (arith, L.get-nil (session_key id) w e)
  ]

  -- Over a client that does what is documented, and with no other client acting during a call, the
  -- Valkey store keeps the contract of a store, as the Redis store does.
  pub valkey_store-Contract : Contract (valkey_store R) view R.marshal R.now
  valkey_store-Contract = record {
    store-ok = λ s b w j p t m h.
        rw (store_sandbox-view s b w m h)
          (session_at-store_commands s.session_id b _ _ (view w) p t j);
    update-ok = update_sandbox-view;
    delete-ok =
        λ id w j p h. rw (delete_sandbox-view id w h) (session_at-delete_commands id (view w) p j);
    activity-ok = λ id at w j t h.
        let sent = update_session_last_activity-view id at w h in
        (sent.0, rw sent.1 (session_at-touch id _ (view w) t j));
    get-ok = get_sandbox-recorded;
    get-not_found = get_sandbox-missing;
  }

  -- An activity update whose EXISTS found a session that is deleted before its ZADD leaves the
  -- session in the activity index alone, with neither a record nor an expiry.
  session_at-index_activity_deleted :
      (id : String) (at : Time) (w : W)
      → IsProper id
      → WellTyped (view w)
      → (delete_sandbox_by_session_id R id w).0 ≡ ok tt
      → (index_activity R id at (delete_sandbox_by_session_id R id w).1).0 ≡ ok tt
      → session_at (view (index_activity R id at (delete_sandbox_by_session_id R id w).1).1) id
        ≡ record { blob = none; expiry = none; activity = some (unix at) }
  unfolding index_activity
  session_at-index_activity_deleted id at w p t gone done =
      let w' = (delete_sandbox_by_session_id R id w).1 in
      let c = zadd last_activity_index_key (unix at) id in
      let left = delete_sandbox-view id w gone in
      let t' : WellTyped (view w') = rw left (delete_commands-WellTyped id (view w) p t) in
      elim (Result-cases (R.run c w').0) [
        | inr (x, e) ↦ absurd (ground arith)
        | inl (u, e) ↦ ground (
          arith,
          L.run-ok c w' e,
          left,
          session_at-touch id (unix at) (view w') t' id,
          session_at-delete_commands id (view w) p id,
          ==_self id,
        )
      ]
