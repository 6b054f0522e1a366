-- ===== src/Identity/Owner.antt =====
-- pkg/workloadmanager/identity.go: the owner that the Router's identity token names. The verification
-- of the key and of the token's signature and expiry is a parameter.
use agentcube.Prelude.{
  String, ◌≡◌, true, false, arith, ◌==◌, if◌then◌else◌, inl, inr, Bool-cases, ◌⊎◌,
}
use agentcube.Errors.{
  Error, message, wrap, err_no_identity_header, err_public_key_not_cached, root, Result, ok, err,
  Result-cases,
}
use agentcube.Json.{Fields, text_claim}
use agentcube.Creation.Answers.{resolve_sandbox_owner_id}

-- `verify` parses the key, and then the token with it: the claims of a valid token.
module _ (verify : String → String → Result Fields) where
  unfoldable pub verify_identity_jwt : String → String → Result String
  verify_identity_jwt public_key_pem raw_token = elim (verify public_key_pem raw_token) [
    | err e ↦ err (wrap e)
    | ok claims ↦
        if text_claim "aud" claims == "workloadmanager"
        then (if text_claim "sub" claims == ""
            then err (message "missing sub claim")
            else ok (text_claim "sub" claims))
        else err (message "invalid audience")
  ]

  -- `key` is the cached public key, and the token is the header `X-AgentCube-User-Identity`.
  unfoldable pub extract_owner_id : String → String → Result String
  extract_owner_id key raw_token =
      if raw_token == ""
      then err err_no_identity_header
      else if key == ""
      then err err_public_key_not_cached
      else elim (verify_identity_jwt key raw_token) [
        | err e ↦ err (wrap (message "identity token verification failed"))
        | ok sub ↦ ok sub
      ]

  -- An owner is recorded only where the Router's key verifies the token, which is addressed to the
  -- workload manager and names the owner; with no token there is no owner, and with a token that
  -- cannot be verified the request is refused.
  pub resolve_sandbox_owner_id-verified :
      (text : Error → String) (key raw_token owner : String)
      → (resolve_sandbox_owner_id text (extract_owner_id key raw_token)).0 ≡ ok owner
      → ((raw_token == "") ≡ true) × (owner ≡ "")
        ⊎ (claims : Fields) × (verify key raw_token ≡ ok claims)
          × ((raw_token == "") ≡ false)
          × ((key == "") ≡ false)
          × (text_claim "aud" claims ≡ "workloadmanager")
          × (owner ≡ text_claim "sub" claims)
          × ((owner == "") ≡ false)
  unfolding resolve_sandbox_owner_id extract_owner_id verify_identity_jwt root
  resolve_sandbox_owner_id-verified text key raw_token owner h =
      elim (Bool-cases (raw_token == "")) [
        | inl e ↦ inl (e, ground arith)
        | inr e ↦ elim (Result-cases (verify key raw_token)) [
          | inr (x, f) ↦ absurd (ground arith)
          | inl (claims, f) ↦
              inr (claims, f, e, ground arith, ground arith, ground arith, ground arith)
        ]
      ]
