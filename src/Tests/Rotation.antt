-- ===== src/Tests/Rotation.antt =====
-- The theorems about the keys of the router and the certificates of a component, at small secrets and
-- files.
use agentcube.Prelude.{
  ℕ, String, ◌≡◌, refl, false, Option, none, some, [], ◌∷◌, arith, Option-cases, inl, inr,
  string_discrete,
}
use agentcube.Prelude.Dict.{Dict, lookup}
use agentcube.Errors.{ok, err, status, already_exists, not_found, is_already_exists}
use agentcube.Router.Keys.{
  Crypto, IsCrypto, get_private_key_pem, get_public_key_pem, load_private_key_pem, Secrets,
  IsSecrets, try_store_or_load_jwt_key_secret, try_store_or_load_agree, secret_data,
}
use agentcube.Mtls.{
  CertWatcher, changed, fired, watch_loop, watch_loop_started, new_cert_watcher, IsTogether,
  pool_of,
}

-- Keys that are their own bytes, in a PEM text that is the bytes.
abbrev pem : Crypto String
pem = record {
  encode_to_memory = λ b. b.bytes;
  decode = λ t. some (record { type = "RSA PRIVATE KEY"; bytes = t });
  marshal_private_key = λ k. k;
  marshal_public_key = λ k. ok k;
  parse_private_key = λ t. ok t;
}

pem-IsCrypto : IsCrypto pem
pem-IsCrypto = record { decode-encode = λ b. refl; parse-marshal = λ key. refl }

-- A world that is the secret.
abbrev secrets : Secrets (Option (Dict String))
secrets = record {
  create = λ d w. elim w [
    | none ↦ (ok tt, some d)
    | some old ↦ (err (status already_exists ""), some old)
  ];
  get = λ w. elim w [ none ↦ (err (status not_found ""), none) | some d ↦ (ok d, some d) ];
}

secrets_hold : IsSecrets secrets (λ w. w)
secrets_hold = record {
  create-ok = λ d w h. elim (Option-cases w) [
    | inl e ↦ (e, rw e refl)
    | inr (old, e) ↦ absurd (ground arith)
  ];
  create-fails =
      λ d w x h. elim (Option-cases w) [ inl e ↦ absurd (ground arith) | inr (old, e) ↦ rw e refl ];
  get-ok = λ d w h. elim (Option-cases w) [
    | inl e ↦ absurd (ground arith)
    | inr (old, e) ↦ ground arith
  ];
  get-same = λ w. elim (Option-cases w) [ inl e ↦ rw e refl | inr (old, e) ↦ rw e refl ];
}

first : (try_store_or_load_jwt_key_secret pem (some secrets) "k1" none).0 ≡ ok "k1"
unfolding try_store_or_load_jwt_key_secret get_public_key_pem
first = refl

second :
    (try_store_or_load_jwt_key_secret pem
      (some secrets)
      "k2"
      (try_store_or_load_jwt_key_secret pem (some secrets) "k1" none).1).0
    ≡ ok "k1"
unfolding try_store_or_load_jwt_key_secret get_public_key_pem get_private_key_pem
    load_private_key_pem secret_data lookup string_discrete is_already_exists
second = refl

try_store_or_load_agree_example : ◌≡◌ {A = String} "k1" "k1"
try_store_or_load_agree_example =
    try_store_or_load_agree pem secrets (λ w. w) secrets_hold pem-IsCrypto "k1" "k2" "k1" "k1" none
      first second

-- Files with a generation.
abbrev watcher : CertWatcher ℕ ℕ
watcher = record { ca_file = "ca.pem"; cert = 1; ca_pool = some 1 }

started : new_cert_watcher (λ w. ok w) (λ w. ok w) "ca.pem" (ok tt) 1 ≡ ok watcher
unfolding new_cert_watcher pool_of string_discrete
started = refl

watch_loop_started_example :
    IsTogether
      (λ w. ok w)
      (λ w. ok w)
      (watch_loop (λ w. ok w) (λ w. ok w) ((changed, 2) ∷ (fired, 3) ∷ []) (false, watcher)).1
watch_loop_started_example =
    watch_loop_started (λ w. ok w) (λ w. ok w) "ca.pem" (ok tt) 1 watcher
      ((changed, 2) ∷ (fired, 3) ∷ []) started
