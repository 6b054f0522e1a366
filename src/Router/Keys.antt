-- ===== src/Router/Keys.antt =====
-- pkg/router/jwt.go: the signing key of the router, which its replicas share through a secret. Keys,
-- their PEM texts, signatures and the API server are parameters.
use agentcube.Prelude.{
  String, ◌≡◌, refl, Bool-cases, Option-cases, inl, inr, Option, none, some, [], ◌∷◌, arith,
  if◌then◌else◌, string_discrete,
}
use agentcube.Prelude.Dict.{Dict, lookup}
use agentcube.Errors.{Error, message, wrap, is_already_exists, Result, Result-cases, ok, err, Try}

abbrev pub private_key_data_key : String
private_key_data_key = "private.pem"

abbrev pub public_key_data_key : String
public_key_data_key = "public.pem"

-- The secret `picod-router-identity`: `Create` and `Get`, with its data.
pub record Secrets (W : Type 0) : Type 0 where
  pub create : Dict String → Try W (Unit {0})
  pub get : Try W (Dict String)

pub record Block : Type 0 where
  pub type : String
  pub bytes : String

-- `encoding/pem` and `crypto/x509`, over texts of bytes.
pub record Crypto (Key : Type 0) : Type 0 where
  pub encode_to_memory : Block → String
  pub decode : String → Option Block
  pub marshal_private_key : Key → String
  pub marshal_public_key : Key → Result String
  pub parse_private_key : String → Result Key

module _ {Key : Type 0} (P : Crypto Key) where
  unfoldable pub get_public_key_pem : Key → Result String
  get_public_key_pem key = elim (P.marshal_public_key key) [
    | err e ↦ err (wrap e)
    | ok bytes ↦ ok (P.encode_to_memory (record { type = "PUBLIC KEY"; bytes = bytes }))
  ]

  unfoldable pub get_private_key_pem : Key → String
  get_private_key_pem key =
      P.encode_to_memory (record { type = "RSA PRIVATE KEY"; bytes = P.marshal_private_key key })

  -- The type of the block is not looked at.
  unfoldable pub load_private_key_pem : String → Result Key
  load_private_key_pem text = elim (P.decode text) [
    | none ↦ err (message "failed to decode private key PEM block")
    | some block ↦ elim (P.parse_private_key block.bytes) [ err e ↦ err (wrap e) | ok key ↦ ok key ]
  ]

-- What the secret holds of a key.
unfoldable pub secret_data : {Key : Type 0} → Crypto Key → Key → String → Dict String
secret_data P key public_text =
    (private_key_data_key, get_private_key_pem P key) ∷ (public_key_data_key, public_text) ∷ []

module _ {W Key : Type 0} (P : Crypto Key) where
  -- `TryStoreOrLoadJWTKeySecret`, for a key that was generated: the key that is then used. There is no
  -- client outside a cluster.
  unfoldable pub try_store_or_load_jwt_key_secret : Option (Secrets W) → Key → Try W Key
  try_store_or_load_jwt_key_secret none key w = (ok key, w)
  try_store_or_load_jwt_key_secret (some S) key w = elim (get_public_key_pem P key) [
    | err e ↦ (err (wrap e), w)
    | ok public_text ↦
        let c = S.create (secret_data P key public_text) w in
        let g = S.get c.1 in
        elim c.0 [
          | ok _ ↦ (ok key, c.1)
          | err e ↦
              if is_already_exists e
              then (
                elim g.0 [
                  | err x ↦ err (wrap x)
                  | ok data_of ↦ elim (lookup private_key_data_key data_of) [
                    | none ↦ err (message "private key data not found in identity secret")
                    | some text ↦ elim (load_private_key_pem P text) [
                      | err x ↦ err (wrap x)
                      | ok loaded ↦ ok loaded
                    ]
                  ]
                ],
                g.1,
              )
              else (err (wrap e), c.1)
        ]
  ]

-- A secret is created only where there is none, a creation that fails changes nothing, and a read gives
-- what is there.
pub record IsSecrets {W : Type 0} (S : Secrets W) (secret : W → Option (Dict String)) : Type 0 where
  pub create-ok :
      (d : Dict String) (w : W)
      → (S.create d w).0 ≡ ok tt
      → (secret w ≡ none) × (secret (S.create d w).1 ≡ some d)
  pub create-fails :
      (d : Dict String) (w : W) (e : Error)
      → (S.create d w).0 ≡ err e
      → secret (S.create d w).1 ≡ secret w
  pub get-ok : (d : Dict String) (w : W) → (S.get w).0 ≡ ok d → secret w ≡ some d
  pub get-same : (w : W) → secret (S.get w).1 ≡ secret w

-- A block of a private key that is encoded is decoded, and a key that is marshalled is parsed, as it
-- was.
pub record IsCrypto {Key : Type 0} (P : Crypto Key) : Type 0 where
  pub decode-encode :
      (bytes : String)
      → let b : Block = record { type = "RSA PRIVATE KEY"; bytes = bytes } in
        P.decode (P.encode_to_memory b) ≡ some b
  pub parse-marshal : (key : Key) → P.parse_private_key (P.marshal_private_key key) ≡ ok key

load-get_private_key_pem :
    {Key : Type 0} (P : Crypto Key)
    → IsCrypto P
    → (key : Key) → load_private_key_pem P (get_private_key_pem P key) ≡ ok key
unfolding load_private_key_pem get_private_key_pem
load-get_private_key_pem P L key =
    ground (arith, L.decode-encode (P.marshal_private_key key), L.parse-marshal key)

module _ {W Key : Type 0} (P : Crypto Key) (S : Secrets W) (secret : W → Option (Dict String))
    (L : IsSecrets S secret) (C : IsCrypto P) where
  -- The secret holds a key.
  abbrev pub Holds : W → Key → Type 0
  Holds w key =
      (d : Dict String) × (text : String) × (secret w ≡ some d)
      × (lookup private_key_data_key d ≡ some text)
      × (load_private_key_pem P text ≡ ok key)

  try_store_or_load-Holds :
      (key used : Key) (w : W)
      → (try_store_or_load_jwt_key_secret P (some S) key w).0 ≡ ok used
      → Holds (try_store_or_load_jwt_key_secret P (some S) key w).1 used
  unfolding try_store_or_load_jwt_key_secret secret_data lookup string_discrete
  try_store_or_load-Holds key used w h = elim (Result-cases (get_public_key_pem P key)) [
    | inr (x, e) ↦ absurd (ground arith)
    | inl (text, e) ↦
        let d = secret_data P key text in
        let c = S.create d w in
        elim (Result-cases c.0) [
          | inl (tt, f) ↦
              let (was, now) = L.create-ok d w f in
              (
                d,
                get_private_key_pem P key,
                ground (arith, now),
                refl,
                ground (arith, load-get_private_key_pem P C key),
              )
          | inr (x, f) ↦ elim (Bool-cases (is_already_exists x)) [
            | inr g ↦ absurd (ground arith)
            | inl g ↦ elim (Result-cases (S.get c.1).0) [
              | inr (y, i) ↦ absurd (ground arith)
              | inl (found, i) ↦ elim (Option-cases (lookup private_key_data_key found)) [
                | inl j ↦ absurd (ground arith)
                | inr (pem, j) ↦ elim (Result-cases (load_private_key_pem P pem)) [
                  | inr (z, k) ↦ absurd (ground arith)
                  | inl (loaded, k) ↦ (
                    found,
                    pem,
                    ground (arith, L.get-ok found c.1 i, L.get-same c.1),
                    j,
                    ground arith,
                  )
                ]
              ]
            ]
          ]
        ]
  ]

  -- Where a key is held, a router that starts uses that key.
  uses_held :
      (key other used : Key) (w : W)
      → Holds w key
      → (try_store_or_load_jwt_key_secret P (some S) other w).0 ≡ ok used
      → used ≡ key
  unfolding try_store_or_load_jwt_key_secret
  uses_held key other used w (d, text, held, found, parsed) h =
      elim (Result-cases (get_public_key_pem P other)) [
        | inr (x, e) ↦ absurd (ground arith)
        | inl (public_text, e) ↦
            let c = S.create (secret_data P other public_text) w in
            elim (Result-cases c.0) [
              | inl (tt, f) ↦
                  let was = (L.create-ok (secret_data P other public_text) w f).0 in
                  absurd (ground (arith, was))
              | inr (x, f) ↦
                  let kept = L.create-fails (secret_data P other public_text) w x f in
                  elim (Result-cases (S.get c.1).0) [
                    | inr (y, i) ↦ elim (Bool-cases (is_already_exists x)) [
                      | inl g ↦ absurd (ground arith)
                      | inr g ↦ absurd (ground arith)
                    ]
                    | inl (there, i) ↦
                        let same : there ≡ d = ground (arith, L.get-ok there c.1 i, kept) in
                        elim (Bool-cases (is_already_exists x)) [
                          | inr g ↦ absurd (ground arith)
                          | inl g ↦ ground (arith, same)
                        ]
                  ]
            ]
      ]

  -- Routers that start one after another, each with a key of its own, come to sign with one key: the
  -- second, if it starts successfully, uses the key that the first uses, provided that the secret is
  -- not changed in between by others, and that keys survive being marshalled and encoded.
  pub try_store_or_load_agree :
      (first second used used' : Key) (w : W)
      → (try_store_or_load_jwt_key_secret P (some S) first w).0 ≡ ok used
      → (try_store_or_load_jwt_key_secret P
          (some S)
          second
          (try_store_or_load_jwt_key_secret P (some S) first w).1).0
        ≡ ok used'
      → used' ≡ used
  try_store_or_load_agree first second used used' w h h' =
      uses_held used second used' (try_store_or_load_jwt_key_secret P (some S) first w).1
        (try_store_or_load-Holds first used w h) h'
