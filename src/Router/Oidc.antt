-- ===== src/Router/Oidc.antt =====
-- pkg/router/oidc.go: the validation of a caller's token. The provider's keys, the decoding of the
-- header and of the payload of a token, and the clock are parameters.
use agentcube.Prelude.{
  ℕ, ◌+◌, ◌-◌, String, Bool, not, ◌&&◌, Option, none, some, List, [], ◌∷◌, ◌==◌, if◌then◌else◌,
}
use agentcube.Prelude.Lists.{contains}
use agentcube.Prelude.Texts.{split_n, split}
use agentcube.Errors.{message, wrap, Result, ok, err, Try}
use agentcube.Time.{Time, from_posix, before}
use agentcube.Json.{Json, text, array, object, Fields, member, text_claim, number_claim, texts}
use agentcube.Router.{Claims}

abbrev pub clock_skew_leeway : ℕ
clock_skew_leeway = 30_000_000_000

pub record OidcValidator (W : Type 0) : Type 0 where
  pub issuer : String
  pub audience : String
  pub roles_claim : String
  -- `KeySet.VerifySignature`: the payload.
  pub verify_signature : String → Try W String
  -- `base64.RawURLEncoding` and `json.Unmarshal` of a header: its "alg".
  pub header_alg : String → Result String
  -- `json.Unmarshal` of a payload into a map.
  pub unmarshal : String → Result Fields
  pub now : W → Time

abbrev pub allowed_signing_algs : List String
allowed_signing_algs =
    "RS256" ∷ "RS384" ∷ "RS512" ∷ "ES256" ∷ "ES384" ∷ "ES512" ∷ "PS256" ∷ "PS384" ∷ "PS512"
    ∷ "EdDSA" ∷ []

-- The header of three parts.
abbrev pub first_of_three : List String → Option String
first_of_three (header ∷ payload ∷ signature ∷ []) = some header
first_of_three _ = none

unfoldable pub parse_audience_claim : Option Json → List String
parse_audience_claim (some (text s)) = s ∷ []
parse_audience_claim (some (array items)) = texts items
parse_audience_claim _ = []

-- The walk along the parts of the path.
unfoldable pub navigate : Json → List String → Option Json
navigate current [] = some current
navigate (object fields) (part ∷ parts) = elim (member part fields) [
  | none ↦ none
  | some v ↦ navigate v parts
]
navigate _ (part ∷ parts) = none

abbrev roles_of : Option Json → List String
roles_of (some (array items)) = texts items
roles_of _ = []

unfoldable pub extract_roles_from_claims : Fields → String → List String
extract_roles_from_claims claims path =
    let parts : List String = elim (member path claims) [
      | some _ ↦ path ∷ []
      | none ↦ split path "."
    ] in
    if path == "" then [] else roles_of (navigate (object claims) parts)

module _ {W : Type 0} (V : OidcValidator W) where
  unfoldable pub check_token_algorithm : String → Result (Unit {0})
  check_token_algorithm raw_token = elim (first_of_three (split_n 3 raw_token ".")) [
    | none ↦ err (message "malformed JWT")
    | some header ↦ elim (V.header_alg header) [
      | err e ↦ err (wrap e)
      | ok alg ↦
          if contains allowed_signing_algs alg
          then ok tt
          else err (message "signing algorithm not supported")
    ]
  ]

  -- `time.Now().After(...)` of the expiry, and `time.Now().Before(...)` of the beginning.
  abbrev pub is_expired : Time → Fields → Bool
  is_expired now claims = before (from_posix (number_claim "exp" claims).1 + clock_skew_leeway) now

  abbrev pub is_early : Time → Fields → Bool
  is_early now claims =
      not (number_claim "nbf" claims).0
      && before now (from_posix (number_claim "nbf" claims).1 - clock_skew_leeway)

  -- The checks on the claims, at an instant.
  unfoldable pub check_claims : Time → Fields → Result Claims
  check_claims now claims =
      if not (text_claim "iss" claims == V.issuer)
      then err (message "invalid issuer")
      else if text_claim "sub" claims == ""
      then err (message "token missing required sub claim")
      else if (number_claim "exp" claims).0
      then err (message "token missing required exp claim")
      else if is_expired now claims
      then err (message "token has expired")
      else if is_early now claims
      then err (message "token is not yet valid")
      else if not (V.audience == "")
          && not (contains (parse_audience_claim (member "aud" claims)) V.audience)
      then err (message "invalid audience")
      else ok (record {
        subject = text_claim "sub" claims;
        email = text_claim "email" claims;
        roles = extract_roles_from_claims claims V.roles_claim;
      })

  unfoldable pub validate_token : String → Try W Claims
  validate_token raw_token w =
      let s = V.verify_signature raw_token w in
      if raw_token == ""
      then (err (message "empty token"), w)
      else elim (check_token_algorithm raw_token) [
        | err e ↦ (err e, w)
        | ok _ ↦ elim s.0 [
          | err e ↦ (err (wrap e), s.1)
          | ok payload ↦ elim (V.unmarshal payload) [
            | err e ↦ (err (wrap e), s.1)
            | ok claims ↦ (check_claims (V.now s.1) claims, s.1)
          ]
        ]
      ]
