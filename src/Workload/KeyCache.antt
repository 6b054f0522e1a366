-- ===== src/Workload/KeyCache.antt =====
-- The public key of the Router that pkg/workloadmanager/workload_builder.go caches, over a world `W`
-- that holds the secret: `get_secret` is the call of the API server, with the data of the secret.
use agentcube.Prelude.{
  ℕ, zero, suc, ◌+◌, ◌*◌, ◌≤◌, String, ◌≡◌, Bool, true, false, Option, none, some, arith, ◌==◌, ltb,
  if◌then◌else◌, inl, inr,
}
use agentcube.Prelude.Dict.{Dict, lookup}
use agentcube.Errors.{message, ok, err, Result-cases, Try}

abbrev pub public_key_data_key : String
public_key_data_key = "public.pem"

abbrev max_retry_interval : ℕ
max_retry_interval = 10_000_000_000

-- The interval after the next failure: twice as long, at most ten seconds.
unfoldable pub next_interval : ℕ → ℕ
next_interval d = if ltb max_retry_interval (d * 2) then max_retry_interval else d * 2

-- `IsPublicKeyCached`
abbrev pub is_public_key_cached : String → Bool
is_public_key_cached key = if key == "" then false else true

-- The pause before the attempt of a number.
unfoldable pub interval : ℕ → ℕ → ℕ
interval zero d = d
interval (suc n) d = interval n (next_interval d)

-- The pauses grow to ten seconds and no further.
pub interval-bound :
    (n d : ℕ) → d ≤ max_retry_interval → (d ≤ interval n d) × (interval n d ≤ max_retry_interval)
unfolding interval next_interval
interval-bound zero d h = (omega arith, h)
interval-bound (suc n) d h =
    let step : next_interval d ≤ max_retry_interval = ground arith in
    let grow : d ≤ next_interval d = ground arith in
    let rest = interval-bound n (next_interval d) step in (omega (arith, grow, rest.0), rest.1)

module _ {W : Type 0} (get_secret : Try W (Dict String)) (sleep : ℕ → W → W) where
  -- The new cached key, or an error that leaves it.
  unfoldable pub load_public_key_from_secret : Try W String
  load_public_key_from_secret w =
      let s = get_secret w in
      elim s.0 [
        | err e ↦ (err e, s.1)
        | ok secret_data ↦ elim (lookup public_key_data_key secret_data) [
          | none ↦ (err (message "public key not found"), s.1)
          | some public_key_data ↦ (ok public_key_data, s.1)
        ]
      ]

  -- The loop of `InitPublicKeyCache`, for as many attempts as `fuel`: the key, if one was loaded.
  unfoldable pub init_public_key_cache : (fuel : ℕ) → ℕ → W → Option String × W
  init_public_key_cache zero retry_interval w = (none, w)
  init_public_key_cache (suc fuel) retry_interval w =
      let l = load_public_key_from_secret w in
      let rest =
        init_public_key_cache fuel (next_interval retry_interval) (sleep retry_interval l.1) in
      elim l.0 [ ok key ↦ (some key, l.1) | err _ ↦ rest ]

  -- The world at the attempt of a number, where all attempts before it failed.
  unfoldable pub attempt : ℕ → ℕ → W → W
  attempt zero retry_interval w = w
  attempt (suc n) retry_interval w =
      attempt n (next_interval retry_interval)
        (sleep retry_interval (load_public_key_from_secret w).1)

  -- The loop tries until the secret is readable: if it is at some attempt, then with that many
  -- attempts, or more, a key is cached.
  pub init_public_key_cache-loads :
      (n fuel d : ℕ) (w : W) (key : String)
      → (load_public_key_from_secret (attempt n d w)).0 ≡ ok key
      → n + 1 ≤ fuel
      → (k : String) × ((init_public_key_cache fuel d w).0 ≡ some k)
  unfolding init_public_key_cache attempt
  init_public_key_cache-loads n zero d w key h le = absurd (omega arith)
  init_public_key_cache-loads zero (suc fuel) d w key h le = (key, ground arith)
  init_public_key_cache-loads (suc n) (suc fuel) d w key h le =
      let l = load_public_key_from_secret w in
      elim (Result-cases (l.0)) [
        | inl (k, e) ↦ (k, ground arith)
        | inr (x, e) ↦
            let rest =
              init_public_key_cache-loads n fuel (next_interval d) (sleep d l.1) key h
                (omega arith) in
            (rest.0, ground (arith, rest.1))
      ]
