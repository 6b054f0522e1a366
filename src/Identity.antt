-- ===== src/Identity.antt =====
-- pkg/workloadmanager/auth.go and identity.go, with `extractUserK8sClient` of handlers.go: who a caller
-- is, and with whose permissions the API server is asked. Reviews of tokens, the verification of a
-- JWT and `strings.Fields` are parameters.
pub mod Owner
pub mod Reviews
pub mod Credentials
use agentcube.Prelude.{
  String, Bool, true, false, not, ◌&&◌, ◌||◌, Option, none, some, List, [], ◌∷◌, ◌==◌,
  if◌then◌else◌,
}
use agentcube.Prelude.Texts.{split}
use agentcube.Errors.{Error, message, wrap, Result, ok, err, Try}
use agentcube.Time.{Time}
use agentcube.Caches.Tokens.{TokenCache, get, put}
use agentcube.Caches.Clients
use agentcube.Caches.Clients.{ClientCache, RestConfig, UserK8sClient, get_or_create_user_k8s_client}

-- What the middleware puts into the context of a request.
pub record UserInfo : Type 0 where
  pub user_token : String
  pub namespace : String
  pub service_account : String
  pub service_account_name : String

-- The parts of a username `system:serviceaccount:<namespace>:<name>`.
abbrev service_account_of : List String → Option (String × String)
service_account_of (a ∷ b ∷ namespace ∷ name ∷ []) =
    if a == "system" && b == "serviceaccount" then some (namespace, name) else none
service_account_of _ = none

unfoldable pub parse_service_account : String → Option (String × String)
parse_service_account username = service_account_of (split username ":")

-- The token of an `Authorization` header, by the words of the header.
abbrev pub bearer_of : List String → Option String
bearer_of (scheme ∷ token ∷ []) = if scheme == "Bearer" then some token else none
bearer_of _ = none

-- `review` is `TokenReviews().Create`: whether the token is authenticated, and its user.
module _ {W : Type 0} (review : String → Try W (Bool × String)) where
  unfoldable pub validate_service_account_token :
      Time → String → TokenCache × W → Result (Bool × String) × (TokenCache × W)
  validate_service_account_token now token (c, w) =
      let g = get now token c in
      let r = review token w in
      elim g.0 [
        | some (authenticated, username) ↦
            (ok (if authenticated then (true, username) else (false, "")), (g.1, w))
        | none ↦ elim r.0 [
          | err e ↦ (err (wrap e), (g.1, r.1))
          | ok (authenticated, name) ↦
              let username = if authenticated then name else "" in
              (
                ok (if authenticated then (true, username) else (false, "")),
                (put now token authenticated username g.1, r.1),
              )
        ]
      ]

  -- The text of a refusal with 401, or what the request's context then holds.
  unfoldable pub auth_middleware :
      (String → List String)
      → Bool
      → Time
      → String
      → TokenCache × W
      → Result (Option UserInfo) × (TokenCache × W)
  auth_middleware fields false now header s = (ok none, s)
  auth_middleware fields true now header s =
      if header == ""
      then (err (message "Missing authorization header"), s)
      else elim (bearer_of (fields header)) [
        | none ↦ (err (message "Invalid authorization header format"), s)
        | some token ↦
            let v = validate_service_account_token now token s in
            elim v.0 [
              | err e ↦ (err (message "Token validation failed"), v.1)
              | ok (authenticated, username) ↦
                  if authenticated
                  then elim (parse_service_account username) [
                    | none ↦ (err (message "Invalid service account format"), v.1)
                    | some (namespace, name) ↦ (
                      ok (
                          some (record {
                            user_token = token;
                            namespace = namespace;
                            service_account = username;
                            service_account_name = name;
                          })),
                      v.1,
                    )
                  ]
                  else (err (message "Invalid or expired token"), v.1)
            ]
      ]

module _ {D : Type 0} (parse_jwt_expiry : String → Time) (base_config : RestConfig)
    (new_for_config : RestConfig → Result D) where
  unfoldable pub extract_user_k8s_client :
      Time
      → Option UserInfo
      → ClientCache (UserK8sClient D)
      → Result D × ClientCache (UserK8sClient D)
  extract_user_k8s_client now none c = (err (message "unable to extract user credentials"), c)
  extract_user_k8s_client now (some u) c =
      let r =
        get_or_create_user_k8s_client base_config new_for_config parse_jwt_expiry now u.user_token
          u.namespace u.service_account_name c in
      if u.user_token == "" || u.namespace == "" || u.service_account_name == ""
      then (err (message "unable to extract user credentials"), c)
      else elim r.0 [ err e ↦ (err (wrap e), r.1) | ok client ↦ (ok client.dynamic_client, r.1) ]
