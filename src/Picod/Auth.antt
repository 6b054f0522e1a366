-- ===== src/Picod/Auth.antt =====
-- pkg/picod/auth.go and the limit on the size of a body in pkg/picod/server.go: what stands before the
-- handlers of the daemon. The parsing of a key and of a token is a parameter.
use agentcube.Prelude.{ℕ, String, Bool, Option, none, some, List, [], ◌∷◌, ◌==◌, ltb, if◌then◌else◌}
use agentcube.Prelude.Texts.{split}
use agentcube.Errors.{message, Result, ok, err}

abbrev pub max_body_size : ℕ
max_body_size = 33_554_432

-- `parse` decodes the PEM block and parses an RSA key; the key that is then kept.
unfoldable pub load_public_key_from_env :
    {Key : Type 0} → (String → Result Key) → String → Result Key
load_public_key_from_env parse key_data =
    if key_data == "" then err (message "environment variable is not set") else parse key_data

abbrev bearer_of : List String → Option String
bearer_of (scheme ∷ token ∷ []) = if scheme == "Bearer" then some token else none
bearer_of _ = none

-- `verify` is `jwt.Parse` with an RSA method, an expiry that is required, and a minute's leeway:
-- whether the token is valid. A refusal is a code; a body is cut off at the limit.
unfoldable pub auth_middleware : (String → Result Bool) → String → Option ℕ
auth_middleware verify header =
    if header == "" then some 401 else elim (bearer_of (split header " ")) [
      | none ↦ some 401
      | some token ↦ elim (verify token) [
        | err e ↦ some 401
        | ok valid ↦ if valid then none else some 401
      ]
    ]

unfoldable pub max_body_size_middleware : ℕ → Option ℕ
max_body_size_middleware content_length =
    if ltb max_body_size content_length then some 413 else none
