-- ===== src/Store/Redis/Reads.antt =====
-- What the reading methods of pkg/store/store_redis.go return.
use agentcube.Prelude.{
  String, true, ◌≤◌, ◌≡◌, none, some, List, [], ◌∷◌, map, arith, Option-cases, inl, inr, ==_self,
}
use agentcube.Prelude.Lists.{length, All, All-map, contains}
use agentcube.Errors.{err_not_found, is_redis_nil, Result, ok, err, Result-cases}
use agentcube.Types.{SandboxInfo}
use agentcube.Store.Keyspace.{Keyspace, text_at}
use agentcube.Store.Keys.{session_key}
use agentcube.Store.Redis.{get_sandbox_by_session_id, collect_sandboxes}
use agentcube.Store.Redis.Driver.{Client, IsClient, fetched}

module _ {W : Type 0} (R : Client W) (view : W → Keyspace) (L : IsClient R view) where
  -- A record that was stored is read back as it was, but for the last activity, which is not part of
  -- the record.
  pub get_sandbox-stored :
      (s : SandboxInfo) (b : String) (w : W) {r : SandboxInfo}
      → R.marshal s ≡ ok b
      → text_at (view w) (session_key s.session_id) ≡ some b
      → (get_sandbox_by_session_id R s.session_id w).0 ≡ ok r
      → r ≡ record s { last_activity_at = 0 }
  unfolding get_sandbox_by_session_id
  get_sandbox-stored s b w m held h = elim (Result-cases (R.get (session_key s.session_id) w).0) [
    | inl (c, e) ↦
        ground (arith, L.get-ok (session_key s.session_id) c w e, L.unmarshal-marshal s b m)
    | inr (x, e) ↦ absurd (ground arith)
  ]

  -- "Not found" is answered only for a session without a record.
  pub get_sandbox_not_found :
      (id : String) (w : W)
      → (get_sandbox_by_session_id R id w).0 ≡ err err_not_found
      → text_at (view w) (session_key id) ≡ none
  unfolding get_sandbox_by_session_id
  get_sandbox_not_found id w h = elim (Result-cases (R.get (session_key id) w).0) [
    | inl (c, e) ↦ absurd (ground arith)
    | inr (x, e) ↦ ground (arith, L.get-nil (session_key id) w e)
  ]

  -- Reading a session changes nothing on the server.
  get_sandbox-view : (id : String) (w : W) → view (get_sandbox_by_session_id R id w).1 ≡ view w
  unfolding get_sandbox_by_session_id
  get_sandbox-view id w = ground (arith, L.get-view (session_key id) w)

  -- `s` is the decoded record of one of the ids.
  abbrev pub Recorded : Keyspace → List String → SandboxInfo → Type 0
  Recorded ks ids s =
      (id : String) × (b : String) × (contains ids id ≡ true)
      × (text_at ks (session_key id) ≡ some b)
      × (R.unmarshal b ≡ ok s)

  Recorded-cons :
      (ks : Keyspace) (i : String) (ids : List String) (s : SandboxInfo)
      → Recorded ks ids s
      → Recorded ks (i ∷ ids) s
  Recorded-cons ks i ids s (id, b, c, t, u) = (id, b, ground arith, t, u)

  abbrev pub Collected : Keyspace → List String → Result (List SandboxInfo) → Type 0
  Collected ks ids (ok found) = All (Recorded ks ids) found × (length found ≤ length ids)
  Collected ks ids (err e) = Unit {0}

  Collected-skip :
      (ks : Keyspace) (i : String) (ids : List String) (r : Result (List SandboxInfo))
      → Collected ks ids r
      → Collected ks (i ∷ ids) r
  Collected-skip ks i ids (ok found) (all, n) =
      (All-map _ _ (Recorded-cons ks i ids) found all, omega arith)
  Collected-skip ks i ids (err e) c = tt

  Collected-take :
      (ks : Keyspace) (i b : String) (ids : List String) (s : SandboxInfo)
      (r : Result (List SandboxInfo))
      → text_at ks (session_key i) ≡ some b
      → R.unmarshal b ≡ ok s
      → Collected ks ids r
      → Collected ks (i ∷ ids) (elim r [ ok result ↦ ok (s ∷ result) | err e ↦ err e ])
  Collected-take ks i b ids s (ok found) t u (all, n) = (
    ((i, b, ground (arith, ==_self i), t, u), All-map _ _ (Recorded-cons ks i ids) found all),
    omega arith,
  )
  Collected-take ks i b ids s (err e) t u c = tt

  pub collect_sandboxes-Collected :
      (ks : Keyspace) (ids : List String)
      → Collected ks ids
          (collect_sandboxes R (map (λ k. fetched (text_at ks k)) (map session_key ids)))
  unfolding collect_sandboxes is_redis_nil
  collect_sandboxes-Collected ks [] = (tt, omega arith)
  collect_sandboxes-Collected ks (i ∷ ids) =
      let rest = collect_sandboxes R (map (λ k. fetched (text_at ks k)) (map session_key ids)) in
      let ih = collect_sandboxes-Collected ks ids in
      elim (Option-cases (text_at ks (session_key i))) [
        | inl e ↦ rw e (Collected-skip ks i ids rest ih)
        | inr (b, e) ↦ elim (Result-cases (R.unmarshal b)) [
          | inl (s, u) ↦ rw (e, u) (Collected-take ks i b ids s rest e u ih)
          | inr (x, u) ↦ rw (e, u) tt
        ]
      ]
