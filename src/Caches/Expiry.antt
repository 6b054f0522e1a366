-- ===== src/Caches/Expiry.antt =====
-- `parseJWTExpiry` of pkg/workloadmanager/client_cache.go. Decoding the payload of a token, base64 and
-- JSON, is a parameter.
use agentcube.Prelude.{String, none, some, List, [], ◌∷◌, Option}
use agentcube.Prelude.Texts.{split}
use agentcube.Errors.{Result, ok, err}
use agentcube.Time.{Time, from_posix}
use agentcube.Json.{Fields, Json, number, member}

abbrev payload_of : List String → Option String
payload_of (header ∷ payload ∷ signature ∷ []) = some payload
payload_of _ = none

abbrev expiry_of : Option Json → Time
expiry_of (some (number is_zero i)) = from_posix i
expiry_of _ = 0

-- The zero time where there is no expiry to be read.
unfoldable pub parse_jwt_expiry : (String → Result Fields) → String → Time
parse_jwt_expiry decode token = elim (payload_of (split token ".")) [
  | none ↦ 0
  | some payload ↦ elim (decode payload) [ err e ↦ 0 | ok claims ↦ expiry_of (member "exp" claims) ]
]
