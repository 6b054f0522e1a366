-- ===== src/Store.antt =====
-- pkg/store: the interface of a store (pkg/store/interface.go) over a world `W` on which its calls
-- act, and the two implementations in the child modules.
pub mod Keyspace
pub mod Keys
pub mod Session
pub mod Redis
pub mod Valkey
pub mod Contract
use agentcube.Prelude.{ℕ, String, Option, List}
use agentcube.Errors.{Try}
use agentcube.Time.{Time}
use agentcube.Types.{SandboxInfo}

-- A `nil` sandbox is `none`. Limits are the nonnegative ones: a caller's constant.
pub record Store (W : Type 0) : Type 0 where
  pub ping : Try W (Unit {0})
  pub get_sandbox_by_session_id : String → Try W SandboxInfo
  pub store_sandbox : Option SandboxInfo → Try W (Unit {0})
  pub update_sandbox : Option SandboxInfo → Try W (Unit {0})
  pub delete_sandbox_by_session_id : String → Try W (Unit {0})
  pub list_expired_sandboxes : Time → ℕ → Try W (List SandboxInfo)
  pub list_inactive_sandboxes : Time → ℕ → Try W (List SandboxInfo)
  pub update_session_last_activity : String → Time → Try W (Unit {0})
