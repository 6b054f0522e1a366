-- ===== src/Router.antt =====
-- pkg/router: the session manager, ownership, the upstream of a sandbox, the handler of an
-- invocation and the limit on concurrent requests. `Net` has what the code takes of Go's standard
-- library and of gin for addresses and texts; the codes of `StatusError` are those of apimachinery.
pub mod Sessions
pub mod Upstream
pub mod Invoke
pub mod Limit
pub mod Oidc
pub mod Auth
pub mod Tokens
pub mod Access
pub mod Keys
use agentcube.Prelude.{ℕ, String, List, Bool}
use agentcube.Errors.{Error, Reason, Result}

pub record Url : Type 0 where
  pub scheme : String
  pub host : String

pub record Net : Type 0 where
  pub error_text : Error → String
  -- `StatusError.Status().Code`
  pub status_code : Reason → ℕ
  -- `strings.ToLower`, `strings.Contains` and `strings.HasPrefix`, with the text looked for last.
  pub to_lower : String → String
  pub mentions : String → String → Bool
  pub has_prefix : String → String → Bool
  -- `url.Parse`; whether `net.SplitHostPort` succeeds; `net.JoinHostPort`
  pub parse_url : String → Result Url
  pub has_port : String → Bool
  pub join_host_port : String → String → String

-- The validated identity of a caller.
pub record Claims : Type 0 where
  pub subject : String
  pub email : String
  pub roles : List String

-- What is sent back: a message of the router, or what the sandbox answers through the proxy.
pub data Reply : Type 0 where
  reply : ℕ → String → Reply
  proxied : Reply

abbrev pub reply_code : Reply → ℕ
reply_code (reply code text) = code
reply_code proxied = 0
