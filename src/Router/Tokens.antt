-- ===== src/Router/Tokens.antt =====
-- Which tokens pkg/router/oidc.go accepts.
use agentcube.Prelude.{
  ◌+◌, ◌≤◌, String, ◌≡◌, ◌↔◌, refl, true, false, Bool-cases, inl, inr, ◌⊎◌, none, List, [], ◌∷◌,
  arith, ◌==◌,
}
use agentcube.Prelude.Lists.{contains}
use agentcube.Prelude.Texts.{split_n}
use agentcube.Errors.{ok, Result-cases}
use agentcube.Time.{Time, from_posix}
use agentcube.Json.{Fields, member, text_claim, number_claim}
use agentcube.Router.{Claims}
use agentcube.Router.Oidc.{
  OidcValidator, validate_token, check_claims, check_token_algorithm, parse_audience_claim,
  extract_roles_from_claims, clock_skew_leeway, allowed_signing_algs, first_of_three,
}

module _ {W : Type 0} (V : OidcValidator W) where
  -- The claims that a token must make at an instant.
  pub record IsCurrent (now : Time) (claims : Fields) (c : Claims) : Type 0 where
    pub issued : text_claim "iss" claims ≡ V.issuer
    pub named : (text_claim "sub" claims == "") ≡ false
    pub expires : (number_claim "exp" claims).0 ≡ false
    pub unexpired : now ≤ from_posix (number_claim "exp" claims).1 + clock_skew_leeway
    pub begun :
        ((number_claim "nbf" claims).0 ≡ true)
        ⊎ (from_posix (number_claim "nbf" claims).1 ≤ now + clock_skew_leeway)
    pub addressed :
        (V.audience ≡ "")
        ⊎ (contains (parse_audience_claim (member "aud" claims)) V.audience ≡ true)
    pub subject : c.subject ≡ text_claim "sub" claims
    pub email : c.email ≡ text_claim "email" claims
    pub roles : c.roles ≡ extract_roles_from_claims claims V.roles_claim

  check_claims-IsCurrent :
      (now : Time) (claims : Fields) (c : Claims)
      → check_claims V now claims ≡ ok c
      → IsCurrent now claims c
  unfolding check_claims
  check_claims-IsCurrent now claims c h = record {
    issued = ground arith;
    named = ground arith;
    expires = ground arith;
    unexpired = ground arith;
    begun = elim (Bool-cases (number_claim "nbf" claims).0) [
      | inl e ↦ inl e
      | inr e ↦ inr (ground arith)
    ];
    addressed = elim (Bool-cases (V.audience == "")) [
      | inl e ↦ inl (ground arith)
      | inr e ↦ inr (ground arith)
    ];
    subject = ground arith;
    email = ground arith;
    roles = ground arith;
  }

  IsCurrent-check_claims :
      (now : Time) (claims : Fields) (c : Claims)
      → IsCurrent now claims c
      → check_claims V now claims ≡ ok c
  unfolding check_claims
  IsCurrent-check_claims now claims c h =
      let a = h.issued in
      let b = h.named in
      let d = h.expires in
      let e = h.unexpired in
      let f = h.subject in
      let g = h.email in
      let i = h.roles in
      elim (h.begun) [
        | inl x ↦ elim (h.addressed) [ inl y ↦ ground arith | inr y ↦ ground arith ]
        | inr x ↦ elim (h.addressed) [ inl y ↦ ground arith | inr y ↦ ground arith ]
      ]

  -- A token of three parts, signed with a supported algorithm by a key of the provider, with claims
  -- that hold at the instant of the check.
  pub record IsAccepted (raw_token : String) (w : W) (c : Claims) : Type 0 where
    pub header : String
    pub body : String
    pub signature : String
    pub alg : String
    pub payload : String
    pub claims : Fields
    pub given : (raw_token == "") ≡ false
    pub parts : split_n 3 raw_token "." ≡ header ∷ body ∷ signature ∷ []
    pub alg_of : V.header_alg header ≡ ok alg
    pub supported : contains allowed_signing_algs alg ≡ true
    pub verified : (V.verify_signature raw_token w).0 ≡ ok payload
    pub decoded : V.unmarshal payload ≡ ok claims
    pub current : IsCurrent (V.now (V.verify_signature raw_token w).1) claims c

  IsAccepted-validate_token :
      (raw_token : String) (w : W) (c : Claims)
      → IsAccepted raw_token w c
      → (validate_token V raw_token w).0 ≡ ok c
  unfolding validate_token check_token_algorithm
  IsAccepted-validate_token raw_token w c h =
      let a = h.given in
      let b = h.parts in
      let d = h.alg_of in
      let e = h.supported in
      let f = h.verified in
      let g = h.decoded in
      let i =
        IsCurrent-check_claims (V.now (V.verify_signature raw_token w).1) h.claims c h.current in
      ground (arith, i)

  three :
      (parts : List String)
      → (first_of_three parts ≡ none) ⊎ ((a b c : String) × (parts ≡ a ∷ b ∷ c ∷ []))
  three (a ∷ b ∷ c ∷ []) = inr (a, b, c, refl)
  three [] = inl refl
  three (_ ∷ []) = inl refl
  three (_ ∷ _ ∷ []) = inl refl
  three (_ ∷ _ ∷ _ ∷ _ ∷ _) = inl refl

  validate_token-IsAccepted :
      (raw_token : String) (w : W) (c : Claims)
      → (validate_token V raw_token w).0 ≡ ok c
      → IsAccepted raw_token w c
  unfolding validate_token check_token_algorithm
  validate_token-IsAccepted raw_token w c h = elim (three (split_n 3 raw_token ".")) [
    | inl e ↦ absurd (ground arith)
    | inr (header, body, signature, e) ↦ elim (Result-cases (V.header_alg header)) [
      | inr (x, f) ↦ absurd (ground arith)
      | inl (alg, f) ↦ elim (Result-cases (V.verify_signature raw_token w).0) [
        | inr (x, g) ↦ absurd (ground arith)
        | inl (payload, g) ↦ elim (Result-cases (V.unmarshal payload)) [
          | inr (x, i) ↦ absurd (ground arith)
          | inl (claims, i) ↦
              let now = V.now (V.verify_signature raw_token w).1 in
              let checked : check_claims V now claims ≡ ok c = ground arith in
              record {
                header = header;
                body = body;
                signature = signature;
                alg = alg;
                payload = payload;
                claims = claims;
                given = ground arith;
                parts = e;
                alg_of = f;
                supported = ground arith;
                verified = g;
                decoded = i;
                current = check_claims-IsCurrent now claims c checked;
              }
        ]
      ]
    ]
  ]

  -- The router takes a token for a caller's exactly where it is a signed token of its issuer, for its
  -- audience, that names a subject, has begun and not expired, with half a minute's leeway; and the
  -- caller is then the subject, with the e-mail address and the roles that the token gives.
  pub validate_token_accepts :
      (raw_token : String) (w : W) (c : Claims)
      → ((validate_token V raw_token w).0 ≡ ok c) ↔ IsAccepted raw_token w c
  validate_token_accepts raw_token w c =
      (validate_token-IsAccepted raw_token w c, IsAccepted-validate_token raw_token w c)
