-- ===== src/Mtls.antt =====
-- pkg/mtls: the identities of the components, the wait for certificate files, and the certificate and
-- trust bundle that a watcher keeps. Reading and parsing files is a parameter, and the files do not
-- change while one reload reads them; `Pair` is a certificate
-- with its key, and `Pool` a pool of authorities.
use agentcube.Prelude.{
  ℕ, zero, suc, String, ◌<>◌, ◌≡◌, Bool, true, false, ◌||◌, inl, inr, Option, none, some, List, [],
  ◌∷◌, arith, ◌==◌, if◌then◌else◌,
}
use agentcube.Errors.{message, wrap, Result, Result-cases, ok, err}

-- `configuredTrustDomain` and `configuredNamespace`, of the environment's trimmed text.
unfoldable pub configured_trust_domain : String → String
configured_trust_domain text = if text == "" then "cluster.local" else text

unfoldable pub configured_namespace : String → String
configured_namespace text = if text == "" then "agentcube" else text

unfoldable pub component_spiffe_id : String → String → String → String
component_spiffe_id trust_domain namespace service_account =
    "spiffe://" <> trust_domain <> "/ns/" <> namespace <> "/sa/" <> service_account

pub record Config : Type 0 where
  pub cert_file : String
  pub key_file : String
  pub ca_file : String

-- `stat` tells whether a file is there; `overdue` whether the deadline has passed, and what follows
-- when it has not and the loop sleeps.
module _ {W : Type 0} (stat : String → W → Result Bool) (overdue : W → Bool × W) where
  unfoldable pub missing_files : List String → W → Result (List String)
  missing_files [] w = ok []
  missing_files (path ∷ paths) w =
      let rest = missing_files paths w in
      elim (stat path w) [
        | err e ↦ err (wrap e)
        | ok there ↦ elim rest [
          | err e ↦ err e
          | ok missing ↦ ok (if there then missing else path ∷ missing)
        ]
      ]

  unfoldable pub certificate_files_status : Config → W → Result (List String)
  certificate_files_status cfg w = missing_files (cfg.cert_file ∷ cfg.key_file ∷ cfg.ca_file ∷ []) w

  -- For at most `fuel` looks: `none` if more are needed.
  unfoldable pub wait_loop : (fuel : ℕ) → Config → W → Option (Result (Unit {0})) × W
  wait_loop zero cfg w = (none, w)
  wait_loop (suc fuel) cfg w =
      let s = overdue w in
      let rest = wait_loop fuel cfg s.1 in
      elim (certificate_files_status cfg w) [
        | err e ↦ (some (err (wrap e)), w)
        | ok [] ↦ (some (ok tt), w)
        | ok (path ∷ missing) ↦ if s.0 then (some (err (message "timed out")), s.1) else rest
      ]

  unfoldable pub wait_for_certificate_files :
      (fuel : ℕ) → Config → W → Option (Result (Unit {0})) × W
  wait_for_certificate_files fuel cfg w =
      if cfg.cert_file == "" || cfg.key_file == "" || cfg.ca_file == ""
      then (some (err (message "mTLS requires cert, key, and CA file paths")), w)
      else wait_loop fuel cfg w

-- What a `CertWatcher` serves.
pub record CertWatcher (Pair Pool : Type 0) : Type 0 where
  pub ca_file : String
  pub cert : Pair
  pub ca_pool : Option Pool

-- A change of a file, another event of the file system, an error of the watcher, the timer, and the
-- end of the watcher.
pub data Event : Type 0 where
  changed irrelevant failed fired closed : Event

module _ {W Pair Pool : Type 0} (load_certificate : W → Result Pair)
    (load_ca_pool : W → Result Pool) where
  -- The pool that goes with a certificate.
  unfoldable pub pool_of : String → W → Result (Option Pool)
  pool_of ca_file w =
      if ca_file == ""
      then ok none
      else elim (load_ca_pool w) [ ok pool ↦ ok (some pool) | err e ↦ err e ]

  -- An error is only logged.
  unfoldable pub reload_all : CertWatcher Pair Pool → W → CertWatcher Pair Pool
  reload_all cw w = elim (load_certificate w) [
    | err e ↦ cw
    | ok cert ↦ elim (pool_of cw.ca_file w) [
      | err e ↦ cw
      | ok pool ↦ record cw { cert = cert; ca_pool = pool }
    ]
  ]

  -- `NewCertWatcher`, with the outcome of watching the directories of the files.
  unfoldable pub new_cert_watcher : String → Result (Unit {0}) → W → Result (CertWatcher Pair Pool)
  new_cert_watcher ca_file watching w = elim (load_certificate w) [
    | err e ↦ err (wrap e)
    | ok cert ↦ elim (pool_of ca_file w) [
      | err e ↦ err (wrap e)
      | ok pool ↦ elim watching [
        | err e ↦ err (wrap e)
        | ok _ ↦ ok (record { ca_file = ca_file; cert = cert; ca_pool = pool })
      ]
    ]
  ]

  -- A round of `watchLoop`, with whether the timer of the debounce runs: `none` after its end.
  unfoldable pub watch_round :
      Event → W → Bool × CertWatcher Pair Pool → Option (Bool × CertWatcher Pair Pool)
  watch_round changed w (pending, cw) = some (true, cw)
  watch_round irrelevant w (pending, cw) = some (pending, cw)
  watch_round failed w (pending, cw) = some (pending, cw)
  watch_round fired w (pending, cw) = some (false, reload_all cw w)
  watch_round closed w (pending, cw) = none

  -- What is served after a sequence of events, each with the files at that instant. A timer that does
  -- not run does not fire.
  unfoldable pub watch_loop :
      List (Event × W) → Bool × CertWatcher Pair Pool → Bool × CertWatcher Pair Pool
  watch_loop [] s = s
  watch_loop ((event, w) ∷ events) s = elim (watch_round event w s) [
    | none ↦ s
    | some t ↦ watch_loop events t
  ]

  -- The certificate and the trust bundle were read at one instant.
  abbrev pub IsTogether : CertWatcher Pair Pool → Type 0
  IsTogether cw =
      (w : W) × (load_certificate w ≡ ok cw.cert) × (pool_of cw.ca_file w ≡ ok cw.ca_pool)

  reload_all-IsTogether :
      (cw : CertWatcher Pair Pool) (w : W) → IsTogether cw → IsTogether (reload_all cw w)
  unfolding reload_all
  reload_all-IsTogether cw w h = elim (Result-cases (load_certificate w)) [
    | inr (x, e) ↦ rw (reload_all, e) h
    | inl (cert, e) ↦ elim (Result-cases (pool_of cw.ca_file w)) [
      | inr (x, f) ↦ rw (reload_all, e, f) h
      | inl (pool, f) ↦ rw (reload_all, e, f) (w, e, f)
    ]
  ]

  watch_loop-IsTogether :
      (events : List (Event × W)) (pending : Bool) (cw : CertWatcher Pair Pool)
      → IsTogether cw
      → IsTogether (watch_loop events (pending, cw)).1
  unfolding watch_loop watch_round
  watch_loop-IsTogether [] pending cw h = h
  watch_loop-IsTogether ((changed, w) ∷ events) pending cw h =
      watch_loop-IsTogether events true cw h
  watch_loop-IsTogether ((irrelevant, w) ∷ events) pending cw h =
      watch_loop-IsTogether events pending cw h
  watch_loop-IsTogether ((failed, w) ∷ events) pending cw h =
      watch_loop-IsTogether events pending cw h
  watch_loop-IsTogether ((fired, w) ∷ events) pending cw h =
      watch_loop-IsTogether events false (reload_all cw w) (reload_all-IsTogether cw w h)
  watch_loop-IsTogether ((closed, w) ∷ events) pending cw h = h

  new_cert_watcher-IsTogether :
      (ca_file : String) (watching : Result (Unit {0})) (w : W) (cw : CertWatcher Pair Pool)
      → new_cert_watcher ca_file watching w ≡ ok cw
      → IsTogether cw
  unfolding new_cert_watcher
  new_cert_watcher-IsTogether ca_file watching w cw h = elim (Result-cases (load_certificate w)) [
    | inr (x, e) ↦ absurd (ground arith)
    | inl (cert, e) ↦ elim (Result-cases (pool_of ca_file w)) [
      | inr (x, f) ↦ absurd (ground arith)
      | inl (pool, f) ↦ elim (Result-cases watching) [
        | inr (x, g) ↦ absurd (ground arith)
        | inl (tt, g) ↦ (w, ground arith, ground arith)
      ]
    ]
  ]

  -- Once a watcher has started, however the files change and whichever reloads fail, the certificate
  -- and the trust bundle that are served were read together: by one reload or at the start.
  pub watch_loop_started :
      (ca_file : String) (watching : Result (Unit {0})) (w : W) (cw : CertWatcher Pair Pool)
      → (events : List (Event × W)) → new_cert_watcher ca_file watching w ≡ ok cw
      → IsTogether (watch_loop events (false, cw)).1
  watch_loop_started ca_file watching w cw events h =
      watch_loop-IsTogether events false cw (new_cert_watcher-IsTogether ca_file watching w cw h)
