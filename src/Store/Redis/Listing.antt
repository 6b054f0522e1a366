-- ===== src/Store/Redis/Listing.antt =====
-- The two listings of pkg/store/store_redis.go that the garbage collector reads.
use agentcube.Prelude.{
  ℕ, String, true, false, ◌≤◌, ◌≡◌, refl, ap, suc, some, List, [], ◌∷◌, map, arith, ◌==◌, eqb, inl,
  inr, Bool-cases, subst,
}
use agentcube.Prelude.Dict
use agentcube.Prelude.Dict.{Dict, lookup, insert, lookup-insert}
use agentcube.Prelude.Lists.{length, All, All-map, contains}
use agentcube.Errors.{Result, ok, err, Result-cases, map_error, ◌>>=◌}
use agentcube.Time.{Time, unix, from_unix}
use agentcube.Types.{SandboxInfo}
use agentcube.Store.Keyspace.{Keyspace, text_at, score_at, Ranged}
use agentcube.Store.Keys.{session_key, expiry_index_key, last_activity_index_key}
use agentcube.Store.Redis.{
  load_sandboxes_by_session_ids, list_expired_sandboxes, list_inactive_sandboxes,
  with_last_activity, scores_of,
}
use agentcube.Store.Redis.Driver.{Client, IsClient, tolerated}
use agentcube.Store.Redis.Reads.{Recorded, Collected, collect_sandboxes-Collected}

-- `id` is scored at most `max` in the index, with the score `n`.
abbrev pub Due : Keyspace → String → ℕ → String → ℕ → Type 0
Due ks k max id n = (score_at ks k id ≡ some n) × (n ≤ max)

Due_of_contains :
    (ks : Keyspace) (k : String) (max : ℕ) (zs : Dict ℕ) (id : String)
    → All (λ z. (score_at ks k z.0 ≡ some z.1) × (z.1 ≤ max)) zs
    → contains (Dict.keys zs) id ≡ true
    → (n : ℕ) × (score_at ks k id ≡ some n) × (n ≤ max)
Due_of_contains ks k max [] id h c = absurd (ground arith)
Due_of_contains ks k max ((i, n) ∷ zs) id ((e, le), h) c = elim (Bool-cases (i == id)) [
  | inl same ↦ (n, ground arith, le)
  | inr other ↦ Due_of_contains ks k max zs id h (ground arith)
]

length-keys : (zs : Dict ℕ) → length (Dict.keys zs) ≡ length zs
length-keys [] = refl
length-keys ((i, n) ∷ zs) = omega (arith, length-keys zs)

module _ {W : Type 0} (R : Client W) where
  lookup-scores_of_absent :
      (zs : Dict ℕ) (acc : Dict Time) (id : String)
      → contains (Dict.keys zs) id ≡ false
      → lookup id (scores_of R zs acc) ≡ lookup id acc
  unfolding scores_of
  lookup-scores_of_absent [] acc id h = refl
  lookup-scores_of_absent ((i, n) ∷ zs) acc id h = ground (
    arith,
    lookup-scores_of_absent zs (insert i (from_unix n) acc) id,
    lookup-insert i id (from_unix n) acc,
  )

  -- Each listed member is given the instant of its own score.
  lookup-scores_of :
      (ks : Keyspace) (k : String) (max : ℕ) (zs : Dict ℕ) (acc : Dict Time) (id : String)
      → All (λ z. (score_at ks k z.0 ≡ some z.1) × (z.1 ≤ max)) zs
      → contains (Dict.keys zs) id ≡ true
      → (n : ℕ) × (lookup id (scores_of R zs acc) ≡ some (from_unix n))
        × (score_at ks k id ≡ some n)
        × (n ≤ max)
  unfolding scores_of
  lookup-scores_of ks k max [] acc id h c = absurd (ground arith)
  lookup-scores_of ks k max ((i, n) ∷ zs) acc id ((e, le), h) c =
      elim (Bool-cases (contains (Dict.keys zs) id)) [
        | inl later ↦ lookup-scores_of ks k max zs (insert i (from_unix n) acc) id h later
        | inr last ↦ (
          n,
          ground (
            arith,
            lookup-scores_of_absent zs (insert i (from_unix n) acc) id last,
            lookup-insert i id (from_unix n) acc,
          ),
          ground arith,
          le,
        )
      ]

module _ {W : Type 0} (R : Client W) (view : W → Keyspace) (L : IsClient R view) where
  load-Collected :
      (ids : List String) (w : W)
      → Collected R view L (view w) ids (load_sandboxes_by_session_ids R ids w).0
  unfolding load_sandboxes_by_session_ids
  load-Collected [] w = (tt, omega arith)
  load-Collected (i ∷ ids) w =
      let keys = map session_key (i ∷ ids) in
      elim (Bool-cases (tolerated (R.pipeline_get keys w).0.1)) [
        | inl fine ↦
            rw (fine, L.pipeline_get-ok keys w fine)
              (collect_sandboxes-Collected R view L (view w) (i ∷ ids))
        | inr bad ↦ rw bad tt
      ]

  -- `s` is the decoded record of a session that the index `k` scores at most `max`.
  abbrev pub Listed : Keyspace → String → ℕ → SandboxInfo → Type 0
  Listed ks k max s =
      (id : String) × (b : String) × (n : ℕ) × (score_at ks k id ≡ some n)
      × (n ≤ max)
      × (text_at ks (session_key id) ≡ some b)
      × (R.unmarshal b ≡ ok s)

  abbrev Lists : Keyspace → String → ℕ → ℕ → Result (List SandboxInfo) → Type 0
  Lists ks k max limit (ok found) = All (Listed ks k max) found × (length found ≤ limit)
  Lists ks k max limit (err e) = Unit {0}

  Lists-of_Collected :
      (ks : Keyspace) (k : String) (max limit : ℕ) (zs : Dict ℕ) (r : Result (List SandboxInfo))
      → Ranged ks k max limit zs
      → Collected R view L ks (Dict.keys zs) r
      → Lists ks k max limit r
  Lists-of_Collected ks k max limit zs (ok found) g (all, n) = (
    All-map _ _
        (λ s (id, b, c, t, u).
          let (m, e, le) = Due_of_contains ks k max zs id g.scored c in (id, b, m, e, le, t, u))
        found all,
    omega (arith, g.limited, length-keys zs),
  )
  Lists-of_Collected ks k max limit zs (err e) g c = tt

  list_expired-Lists :
      (before : Time) (limit : ℕ) (w : W)
      → Lists
          (view w)
          expiry_index_key
          (unix before)
          limit
          (list_expired_sandboxes R before limit w).0
  unfolding list_expired_sandboxes
  list_expired-Lists before limit w =
      let k = expiry_index_key in
      elim (Bool-cases (eqb limit 0)) [
        | inl none_wanted ↦ rw none_wanted (tt, omega arith)
        | inr some_wanted ↦ elim (Result-cases (R.z_range_by_score k (unix before) limit w).0) [
          | inl (zs, e) ↦
              let w' = (R.z_range_by_score k (unix before) limit w).1 in
              let loaded =
                rw (L.z_range_by_score-view k (unix before) limit w) at
                  (load-Collected (Dict.keys zs) w') in
              rw (some_wanted, e, ◌>>=◌, map_error)
                (Lists-of_Collected (view w) k (unix before) limit zs _
                  (L.z_range_by_score-ok k _ limit w zs e) loaded)
          | inr (x, e) ↦ rw (some_wanted, e, ◌>>=◌, map_error) tt
        ]
      ]

  -- A listing that succeeds holds at most `limit` sandboxes, and each is the record of a session
  -- whose expiry, in whole seconds, is not after the given time in whole seconds.
  pub list_expired_sandboxes_due :
      (before : Time) (limit : ℕ) (w : W) (found : List SandboxInfo)
      → (list_expired_sandboxes R before limit w).0 ≡ ok found
      → All (Listed (view w) expiry_index_key (unix before)) found × (length found ≤ limit)
  list_expired_sandboxes_due before limit w found h =
      subst (Lists (view w) expiry_index_key (unix before) limit) h
        (list_expired-Lists before limit w)

  -- Each record stands under the session id that it names.
  abbrev pub IsNamed : Keyspace → Type 0
  IsNamed ks =
      (id b : String) (s : SandboxInfo)
      → text_at ks (session_key id) ≡ some b
      → R.unmarshal b ≡ ok s
      → s.session_id ≡ id

  -- `r` is a stored record with the instant of its session's activity score, at most `max`.
  abbrev pub Stamped : Keyspace → ℕ → SandboxInfo → Type 0
  Stamped ks max r =
      (b : String) × (n : ℕ) × (s : SandboxInfo) × (score_at ks last_activity_index_key s.session_id
        ≡ some n)
      × (n ≤ max)
      × (text_at ks (session_key s.session_id) ≡ some b)
      × (R.unmarshal b ≡ ok s)
      × (r ≡ record s { last_activity_at = from_unix n })

  with_last_activity-Stamped :
      (ks : Keyspace) (max limit : ℕ) (zs : Dict ℕ)
      → IsNamed ks
      → Ranged ks last_activity_index_key max limit zs
      → (found : List SandboxInfo) → All (Recorded R view L ks (Dict.keys zs)) found
      → All (Stamped ks max) (with_last_activity R (scores_of R zs []) found)
        × (length (with_last_activity R (scores_of R zs []) found) ≡ length found)
  unfolding with_last_activity
  with_last_activity-Stamped ks max limit zs named g [] all = (tt, refl)
  with_last_activity-Stamped ks max limit zs named g (s ∷ found) ((id, b, c, t, u), all) =
      let rest = with_last_activity-Stamped ks max limit zs named g found all in
      let own : s.session_id ≡ id = named id b s t u in
      let (n, e, score, le) =
        lookup-scores_of R ks last_activity_index_key max zs [] s.session_id g.scored (rw own c) in
      (((b, n, s, score, le, rw own t, u, ground arith), rest.0), ap suc rest.1)

  abbrev Stamps : Keyspace → ℕ → ℕ → Result (List SandboxInfo) → Type 0
  Stamps ks max limit (ok found) = All (Stamped ks max) found × (length found ≤ limit)
  Stamps ks max limit (err e) = Unit {0}

  Stamps-of_Collected :
      (ks : Keyspace) (max limit : ℕ) (zs : Dict ℕ) (found : List SandboxInfo)
      → IsNamed ks
      → Ranged ks last_activity_index_key max limit zs
      → Collected R view L ks (Dict.keys zs) (ok found)
      → Stamps ks max limit (ok (with_last_activity R (scores_of R zs []) found))
  Stamps-of_Collected ks max limit zs found named g (all, n) =
      let (stamped, same) = with_last_activity-Stamped ks max limit zs named g found all in
      (stamped, omega (arith, same, g.limited, length-keys zs))

  list_inactive-Stamps :
      (before : Time) (limit : ℕ) (w : W)
      → IsNamed (view w)
      → Stamps (view w) (unix before) limit (list_inactive_sandboxes R before limit w).0
  unfolding list_inactive_sandboxes
  list_inactive-Stamps before limit w named =
      let k = last_activity_index_key in
      let max = unix before in
      let w' = (R.z_range_by_score k max limit w).1 in
      elim (Bool-cases (eqb limit 0)) [
        | inl none_wanted ↦ rw none_wanted (tt, omega arith)
        | inr some_wanted ↦ elim (Result-cases (R.z_range_by_score k max limit w).0) [
          | inl (zs, e) ↦
              let loaded =
                rw (L.z_range_by_score-view k max limit w) at (load-Collected (Dict.keys zs) w') in
              elim (Result-cases (load_sandboxes_by_session_ids R (Dict.keys zs) w').0) [
                | inl (found, l) ↦
                    rw (some_wanted, e, ◌>>=◌, map_error, l)
                      (Stamps-of_Collected (view w) max limit zs found named
                        (L.z_range_by_score-ok k _ limit w zs e) (rw l at loaded))
                | inr (x, l) ↦ rw (some_wanted, e, ◌>>=◌, map_error, l) tt
              ]
          | inr (x, e) ↦ rw (some_wanted, e, ◌>>=◌, map_error) tt
        ]
      ]

  -- Where each record stands under the id that it names, a listing that succeeds holds at most
  -- `limit` sandboxes; each is a stored record whose last activity is set to its session's activity
  -- score, which is not after the given time in whole seconds.
  pub list_inactive_sandboxes-Stamped :
      (before : Time) (limit : ℕ) (w : W) (found : List SandboxInfo)
      → IsNamed (view w)
      → (list_inactive_sandboxes R before limit w).0 ≡ ok found
      → All (Stamped (view w) (unix before)) found × (length found ≤ limit)
  list_inactive_sandboxes-Stamped before limit w found named h =
      subst (Stamps (view w) (unix before) limit) h (list_inactive-Stamps before limit w named)
