-- ===== src/Store/Redis.antt =====
-- pkg/store/store_redis.go over a go-redis client, JSON and a clock that are parameters. The client
-- returns `redis_nil` where go-redis returns `redis.Nil`; texts of error messages are left out.
pub mod Driver
pub mod Writes
pub mod Reads
pub mod Index
pub mod History
pub mod Sessions
pub mod Listing
use agentcube.Prelude.{
  ℕ, String, Bool, true, false, ◌&&◌, not, ◌||◌, Option, none, some, List, [], ◌∷◌, map, ◌==◌, eqb,
  if◌then◌else◌,
}
use agentcube.Prelude.Lists.{length}
use agentcube.Prelude.Dict
use agentcube.Prelude.Dict.{Dict, lookup, insert}
use agentcube.Errors.{
  Error, err_not_found, message, wrap, is_redis_nil, Result, ok, err, Try, return, fail, ◌>>=◌,
  ◌>>◌, require, or_fail,
}
use agentcube.Time.{Time, is_zero, unix, from_unix}
use agentcube.Types.{SandboxInfo}
use agentcube.Store.{Store}
use agentcube.Store.Keyspace.{Command, set_nx, zadd, del, zrem}
use agentcube.Store.Keys.{session_key, expiry_index_key, last_activity_index_key}
use Driver.{Client, tolerated}

-- The first error of a pipeline's commands.
abbrev first_error : List (Option Error) → Option Error
first_error [] = none
first_error (none ∷ es) = first_error es
first_error (some e ∷ es) = some e

module _ {W : Type 0} (R : Client W) where
  -- The loop over the replies of `loadSandboxesBySessionIDs`: a missing record is skipped.
  unfoldable pub collect_sandboxes : List (Result String) → Result (List SandboxInfo)
  collect_sandboxes [] = ok []
  collect_sandboxes (err e ∷ commands) =
      let rest = collect_sandboxes commands in if is_redis_nil e then rest else err (wrap e)
  collect_sandboxes (ok bytes ∷ commands) =
      let rest = collect_sandboxes commands in
      elim (R.unmarshal bytes) [
        | err e ↦ err (wrap e)
        | ok s ↦ elim rest [ ok result ↦ ok (s ∷ result) | err e ↦ err e ]
      ]

  abbrev pipe_error : Option Error → Error
  pipe_error none = message ""
  pipe_error (some e) = wrap e

  unfoldable pub load_sandboxes_by_session_ids : List String → Try W (List SandboxInfo)
  load_sandboxes_by_session_ids [] w = (ok [], w)
  load_sandboxes_by_session_ids (id ∷ ids) w =
      let r = R.pipeline_get (map session_key (id ∷ ids)) w in
      if tolerated r.0.1 then (collect_sandboxes r.0.0, r.1) else (err (pipe_error r.0.1), r.1)

  unfoldable pub ping : Try W (Unit {0})
  ping = do
    resp ← or_fail wrap R.ping
    require (resp == "PONG") (message "unexpected ping response")

  abbrev get_error : Error → Error
  get_error e = if is_redis_nil e then err_not_found else wrap e

  abbrev decode : Result SandboxInfo → Try W SandboxInfo
  decode (ok s) = return s
  decode (err e) = fail (wrap e)

  unfoldable pub get_sandbox_by_session_id : String → Try W SandboxInfo
  get_sandbox_by_session_id session_id = do
    b ← or_fail get_error (R.get (session_key session_id))
    decode (R.unmarshal b)

  abbrev check_commands : List (Option Error) → Try W (Unit {0})
  check_commands [] = fail (message "StoreSandbox: unexpected empty cmder")
  check_commands (e ∷ es) = elim (first_error (e ∷ es)) [
    | none ↦ return tt
    | some x ↦ fail (wrap x)
  ]

  -- `pipe.Exec`: the replies, or the pipeline's error.
  abbrev exec : List Command → Try W (List (Option Error))
  exec commands w =
      let r = R.pipeline commands w in
      elim r.0.1 [ none ↦ (ok r.0.0, r.1) | some e ↦ (err (wrap e), r.1) ]

  unfoldable pub store_sandbox : Option SandboxInfo → Try W (Unit {0})
  store_sandbox none w = (err (message "StoreSandbox: sandbox is nil"), w)
  store_sandbox (some s) w = elim (R.marshal s) [
    | err e ↦ (err (wrap e), w)
    | ok b ↦
        if is_zero s.expires_at
        then (err (message "StoreSandbox: sandbox expired at is zero"), w)
        else (do
          cmder ← exec (
              set_nx (session_key s.session_id) b
              ∷ zadd expiry_index_key (unix s.expires_at) s.session_id
              ∷ zadd last_activity_index_key (unix (R.now w)) s.session_id
              ∷ [])
          check_commands cmder)
            w
  ]

  unfoldable pub update_sandbox : Option SandboxInfo → Try W (Unit {0})
  update_sandbox none = fail (message "UpdateSandbox: sandbox is nil")
  update_sandbox (some s) = elim (R.marshal s) [
    | err e ↦ fail (wrap e)
    | ok b ↦ do
      done ← or_fail wrap (R.set_xx (session_key s.session_id) b)
      require done (message "UpdateSandbox: key does not exist")
  ]

  unfoldable pub delete_sandbox_by_session_id : String → Try W (Unit {0})
  delete_sandbox_by_session_id session_id = do
    _ ← exec (
        del (session_key session_id)
        ∷ zrem expiry_index_key session_id
        ∷ zrem last_activity_index_key session_id
        ∷ [])
    return tt

  unfoldable pub list_expired_sandboxes : Time → ℕ → Try W (List SandboxInfo)
  list_expired_sandboxes before limit = if eqb limit 0 then return [] else (do
    zs ← or_fail wrap (R.z_range_by_score expiry_index_key (unix before) limit)
    load_sandboxes_by_session_ids (Dict.keys zs))

  -- `scores[id] = time.Unix(int64(z.Score), 0)`, for each member in turn.
  unfoldable pub scores_of : Dict ℕ → Dict Time → Dict Time
  scores_of [] scores = scores
  scores_of ((id, score) ∷ zs) scores = scores_of zs (insert id (from_unix score) scores)

  unfoldable pub with_last_activity : Dict Time → List SandboxInfo → List SandboxInfo
  with_last_activity scores [] = []
  with_last_activity scores (s ∷ sandboxes) =
      elim (lookup s.session_id scores) [ none ↦ s | some t ↦ record s { last_activity_at = t } ]
      ∷ with_last_activity scores sandboxes

  unfoldable pub list_inactive_sandboxes : Time → ℕ → Try W (List SandboxInfo)
  list_inactive_sandboxes before limit = if eqb limit 0 then return [] else (do
    zs ← or_fail wrap (R.z_range_by_score last_activity_index_key (unix before) limit)
    sandboxes ← load_sandboxes_by_session_ids (Dict.keys zs)
    return (with_last_activity (scores_of zs []) sandboxes))

  unfoldable pub update_session_last_activity : String → Time → Try W (Unit {0})
  update_session_last_activity session_id at w =
      if session_id == ""
      then (err (message "UpdateSessionLastActivity: sessionID is empty"), w)
      else (let time = if is_zero at then R.now w else at in
            do
              res ← or_fail wrap (
                  R.run_update_script (session_key session_id) last_activity_index_key session_id
                    (unix time))
              if eqb res 0 then fail err_not_found else return tt)
          w

  abbrev pub redis_store : Store W
  redis_store = record {
    ping = ping;
    get_sandbox_by_session_id = get_sandbox_by_session_id;
    store_sandbox = store_sandbox;
    update_sandbox = update_sandbox;
    delete_sandbox_by_session_id = delete_sandbox_by_session_id;
    list_expired_sandboxes = list_expired_sandboxes;
    list_inactive_sandboxes = list_inactive_sandboxes;
    update_session_last_activity = update_session_last_activity;
  }
