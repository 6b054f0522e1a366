-- ===== src/Store/Redis/Driver.antt =====
-- What pkg/store/store_redis.go takes from go-redis, encoding/json and the clock, and what is
-- documented of them: the hypotheses of the theorems about the store.
use agentcube.Prelude.{ℕ, ◌≡◌, String, Bool, true, Option, none, some, List, map, if◌then◌else◌}
use agentcube.Errors.{Error, redis_nil, is_redis_nil, Result, ok, err, Try}
use agentcube.Time.{Time}
use agentcube.Types.{SandboxInfo}
use agentcube.Store.Keyspace.{
  Keyspace, Command, zadd, text_at, exists, apply, apply_all, overwrite, Ranged,
}

pub record Client (W : Type 0) : Type 0 where
  pub now : W → Time
  pub marshal : SandboxInfo → Result String
  pub unmarshal : String → Result SandboxInfo
  pub ping : Try W String
  pub get : String → Try W String
  pub set_xx : String → String → Try W Bool
  -- `pipe.Exec`: the reply of each command, and the first error.
  pub pipeline : List Command → W → (List (Option Error) × Option Error) × W
  pub pipeline_get : List String → W → (List (Result String) × Option Error) × W
  pub z_range_by_score : String → ℕ → ℕ → Try W (List (String × ℕ))
  -- The script `updateSessionLastActivityScript` at two keys, a member and a score.
  pub run_update_script : String → String → String → ℕ → Try W ℕ

-- No error of a pipeline but `redis.Nil`.
abbrev pub tolerated : Option Error → Bool
tolerated none = true
tolerated (some e) = is_redis_nil e

-- The reply to GET.
abbrev pub fetched : Option String → Result String
fetched none = err redis_nil
fetched (some b) = ok b

-- The script, which the server runs as one step.
unfoldable pub update_session_last_activity_script :
    String → String → String → ℕ → Keyspace → ℕ × Keyspace
update_session_last_activity_script key index member score ks =
    if exists ks key then (1, apply (zadd index score member) ks) else (0, ks)

-- The server holds `view w`. A command that succeeds has had its documented effect; nothing is said
-- of the effect of one that fails.
pub record IsClient {W : Type 0} (R : Client W) (view : W → Keyspace) : Type 0 where
  -- A record is read back as it was written, but for the field that JSON leaves out.
  pub unmarshal-marshal :
      (s : SandboxInfo) (b : String)
      → R.marshal s ≡ ok b
      → R.unmarshal b ≡ ok (record s { last_activity_at = 0 })
  pub get-view : (k : String) (w : W) → view (R.get k w).1 ≡ view w
  pub get-ok : (k b : String) (w : W) → (R.get k w).0 ≡ ok b → text_at (view w) k ≡ some b
  pub get-nil :
      (k : String) (w : W) {e : Error}
      → (R.get k w).0 ≡ err e
      → is_redis_nil e ≡ true
      → text_at (view w) k ≡ none
  pub set_xx-ok :
      (k b : String) (w : W) (done : Bool)
      → (R.set_xx k b w).0 ≡ ok done
      → (done ≡ exists (view w) k)
        × (view (R.set_xx k b w).1 ≡ (if done then overwrite k b (view w) else view w))
  pub pipeline-ok :
      (commands : List Command) (w : W)
      → (R.pipeline commands w).0.1 ≡ none
      → view (R.pipeline commands w).1 ≡ apply_all commands (view w)
  pub pipeline_get-view : (ks : List String) (w : W) → view (R.pipeline_get ks w).1 ≡ view w
  pub pipeline_get-ok :
      (ks : List String) (w : W)
      → tolerated (R.pipeline_get ks w).0.1 ≡ true
      → (R.pipeline_get ks w).0.0 ≡ map (λ k. fetched (text_at (view w) k)) ks
  pub z_range_by_score-view :
      (k : String) (max limit : ℕ) (w : W) → view (R.z_range_by_score k max limit w).1 ≡ view w
  pub z_range_by_score-ok :
      (k : String) (max limit : ℕ) (w : W) (zs : List (String × ℕ))
      → (R.z_range_by_score k max limit w).0 ≡ ok zs
      → Ranged (view w) k max limit zs
  pub run_update_script-ok :
      (key index member : String) (score : ℕ) (w : W) (res : ℕ)
      → (R.run_update_script key index member score w).0 ≡ ok res
      → (res ≡ (update_session_last_activity_script key index member score (view w)).0)
        × (view (R.run_update_script key index member score w).1
            ≡ (update_session_last_activity_script key index member score (view w)).1)
