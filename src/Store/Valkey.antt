-- ===== src/Store/Valkey.antt =====
-- pkg/store/store_valkey.go over a valkey-go client, JSON and a clock that are parameters. Several
-- commands are sent with `DoMulti`, which is no transaction.
pub mod Driver
pub mod Sessions
use agentcube.Prelude.{
  ℕ, suc, String, Bool, true, false, Option, none, some, List, [], ◌∷◌, map, ◌==◌, eqb, ltb,
  if◌then◌else◌,
}
use agentcube.Prelude.Lists.{length}
use agentcube.Prelude.Dict
use agentcube.Prelude.Dict.{Dict, lookup, insert}
use agentcube.Errors.{
  Error, err_not_found, message, wrap, is_redis_nil, Result, ok, err, Try, return, fail, ◌>>=◌,
  ◌>>◌, require, or_fail,
}
use agentcube.Time.{Time, is_zero, unix, from_unix}
use agentcube.Types.{SandboxInfo}
use agentcube.Store.{Store}
use agentcube.Store.Keyspace.{Command, set_nx, zadd, del, zrem}
use agentcube.Store.Keys.{session_key, expiry_index_key, last_activity_index_key}
use Driver.{Valkey, first_failed}

-- `scores[z.Member] = time.Unix(int64(z.Score), 0)`, for each member in turn.
unfoldable pub scores_of : Dict ℕ → Dict Time → Dict Time
scores_of [] scores = scores
scores_of ((id, score) ∷ zs) scores = scores_of zs (insert id (from_unix score) scores)

unfoldable pub with_last_activity : Dict Time → List SandboxInfo → List SandboxInfo
with_last_activity scores [] = []
with_last_activity scores (s ∷ sandboxes) =
    elim (lookup s.session_id scores) [ none ↦ s | some t ↦ record s { last_activity_at = t } ]
    ∷ with_last_activity scores sandboxes

module _ {W : Type 0} (R : Valkey W) where
  -- An empty text stands for a missing record and is skipped.
  unfoldable pub collect_sandboxes : List String → Result (List SandboxInfo)
  collect_sandboxes [] = ok []
  collect_sandboxes (text ∷ texts) =
      let rest = collect_sandboxes texts in
      if text == "" then rest else elim (R.unmarshal text) [
        | err e ↦ err (wrap e)
        | ok s ↦ elim rest [ ok found ↦ ok (s ∷ found) | err e ↦ err e ]
      ]

  unfoldable pub load_sandboxes_by_session_ids : List String → Try W (List SandboxInfo)
  load_sandboxes_by_session_ids [] w = (ok [], w)
  load_sandboxes_by_session_ids (id ∷ ids) w =
      let r = R.mget (map session_key (id ∷ ids)) w in
      (
        elim r.0 [
          | err e ↦ err (wrap e)
          | ok texts ↦
              if ltb (suc (length ids)) (length texts)
              then err (message "unexpected MGet result size")
              else collect_sandboxes texts
        ],
        r.1,
      )

  unfoldable pub ping : Try W (Unit {0})
  ping = do
    resp ← or_fail wrap R.ping
    require (resp == "PONG") (message "unexpected ping response")

  unfoldable pub get_sandbox_by_session_id : String → Try W SandboxInfo
  get_sandbox_by_session_id session_id w =
      let r = R.get (session_key session_id) w in
      (
        elim r.0 [
          | err e ↦ if is_redis_nil e then err err_not_found else err (wrap e)
          | ok b ↦ elim (R.unmarshal b) [ ok s ↦ ok s | err e ↦ err (wrap e) ]
        ],
        r.1,
      )

  -- The commands, in one batch, and the first error among their responses.
  abbrev do_all : List Command → Try W (Unit {0})
  do_all commands w =
      let r = R.do_multi commands w in
      (elim (first_failed r.0) [ none ↦ ok tt | some e ↦ err (wrap e) ], r.1)

  unfoldable pub store_sandbox : Option SandboxInfo → Try W (Unit {0})
  store_sandbox none w = (err (message "StoreSandbox: sandbox is nil"), w)
  store_sandbox (some s) w =
      if is_zero s.expires_at
      then (err (message "StoreSandbox: sandbox expires time is zero"), w)
      else elim (R.marshal s) [
        | err e ↦ (err (wrap e), w)
        | ok b ↦
            do_all
              (set_nx (session_key s.session_id) b
                ∷ zadd expiry_index_key (unix s.expires_at) s.session_id
                ∷ zadd last_activity_index_key (unix (R.now w)) s.session_id
                ∷ [])
              w
      ]

  -- A nil reply leaves the message empty, so it is the same error as any message but "OK".
  unfoldable pub update_sandbox : Option SandboxInfo → Try W (Unit {0})
  update_sandbox none w = (err (message "UpdateSandbox: sandbox is nil"), w)
  update_sandbox (some s) w = elim (R.marshal s) [
    | err e ↦ (err (wrap e), w)
    | ok b ↦
        let r = R.set_xx (session_key s.session_id) b w in
        (
          elim r.0 [
            | err e ↦
                if is_redis_nil e
                then err (message "UpdateSandbox: key not exists")
                else err (wrap e)
            | ok msg ↦ if msg == "OK" then ok tt else err (message "UpdateSandbox: key not exists")
          ],
          r.1,
        )
  ]

  unfoldable pub delete_sandbox_by_session_id : String → Try W (Unit {0})
  delete_sandbox_by_session_id session_id = do_all (
      del (session_key session_id)
      ∷ zrem expiry_index_key session_id
      ∷ zrem last_activity_index_key session_id
      ∷ [])

  unfoldable pub list_expired_sandboxes : Time → ℕ → Try W (List SandboxInfo)
  list_expired_sandboxes before limit = if eqb limit 0 then return [] else (do
    zs ← or_fail wrap (R.z_range_by_score expiry_index_key (unix before) limit)
    load_sandboxes_by_session_ids (Dict.keys zs))

  unfoldable pub list_inactive_sandboxes : Time → ℕ → Try W (List SandboxInfo)
  list_inactive_sandboxes before limit = if eqb limit 0 then return [] else (do
    zs ← or_fail wrap (R.z_range_by_score last_activity_index_key (unix before) limit)
    sandboxes ← load_sandboxes_by_session_ids (Dict.keys zs)
    return (with_last_activity (scores_of zs []) sandboxes))

  -- The second command of an activity update.
  unfoldable pub index_activity : String → Time → Try W (Unit {0})
  index_activity session_id time =
      or_fail wrap (R.run (zadd last_activity_index_key (unix time) session_id))

  -- EXISTS and ZADD are two commands; the key may go between them.
  unfoldable pub update_session_last_activity : String → Time → Try W (Unit {0})
  update_session_last_activity session_id at w =
      if session_id == ""
      then (err (message "UpdateSessionLastActivity: sessionID is empty"), w)
      else (let time = if is_zero at then R.now w else at in
            do
              n ← or_fail wrap (R.exists_count (session_key session_id))
              elim (eqb n 1) [ true ↦ index_activity session_id time | false ↦ fail err_not_found ])
          w

  abbrev pub valkey_store : Store W
  valkey_store = record {
    ping = ping;
    get_sandbox_by_session_id = get_sandbox_by_session_id;
    store_sandbox = store_sandbox;
    update_sandbox = update_sandbox;
    delete_sandbox_by_session_id = delete_sandbox_by_session_id;
    list_expired_sandboxes = list_expired_sandboxes;
    list_inactive_sandboxes = list_inactive_sandboxes;
    update_session_last_activity = update_session_last_activity;
  }
