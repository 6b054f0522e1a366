-- ===== src/Router/Limit.antt =====
-- `concurrencyLimitMiddleware` of pkg/router/server.go: a buffered channel counts the requests that
-- are being served.
use agentcube.Prelude.{
  ℕ, zero, suc, ◌-◌, ◌≤◌, ◌<◌, ◌≡◌, refl, Bool, true, false, arith, ltb, if◌then◌else◌,
}

abbrev pub default_max_concurrent_requests : ℕ
default_max_concurrent_requests = 1000

-- `NewServer`: a limit that is not positive is replaced by the default.
unfoldable pub max_concurrent_requests : ℕ → ℕ
max_concurrent_requests zero = default_max_concurrent_requests
max_concurrent_requests (suc n) = suc n

-- The slots of the channel that are taken; a request that finds none is answered 429.
pub record Limiter : Type 0 where
  pub capacity : ℕ
  pub taken : ℕ

abbrev pub new : ℕ → Limiter
new configured = record { capacity = max_concurrent_requests configured; taken = 0 }

unfoldable pub try_acquire : Limiter → Bool × Limiter
try_acquire s =
    if ltb s.taken s.capacity then (true, record s { taken = suc s.taken }) else (false, s)

unfoldable pub release : Limiter → Limiter
release s = record s { taken = s.taken - 1 }

-- What happens to the middleware: requests arrive, and those that were admitted finish. The index
-- counts the requests that are being served.
pub data Run (configured : ℕ) : Limiter → ℕ → Type 0 where
  start : Run configured (new configured) 0
  admitted :
      {s : Limiter} {n : ℕ}
      → Run configured s n
      → (try_acquire s).0 ≡ true
      → Run configured (try_acquire s).1 (suc n)
  overloaded :
      {s : Limiter} {n : ℕ}
      → Run configured s n
      → (try_acquire s).0 ≡ false
      → Run configured (try_acquire s).1 n
  finished : {s : Limiter} {n : ℕ} → Run configured s (suc n) → Run configured (release s) n

-- The slots that are taken are those of the requests being served, which are never more than the
-- limit; and the limit, which no step changes, is positive.
pub served_bounded :
    (configured : ℕ) (s : Limiter) (n : ℕ)
    → Run configured s n
    → (s.taken ≡ n)
      × (n ≤ s.capacity)
      × (s.capacity ≡ max_concurrent_requests configured)
      × (0 < s.capacity)
unfolding try_acquire release max_concurrent_requests
served_bounded zero s n start = (refl, omega arith, refl, omega arith)
served_bounded (suc c) s n start = (refl, omega arith, refl, omega arith)
served_bounded c s n (admitted {s = s0} {n = n0} r h) =
    let (same, bound, cap, positive) = served_bounded c s0 n0 r in
    (ground (arith, h), ground (arith, h), ground (arith, h), ground (arith, h))
served_bounded c s n (overloaded {s = s0} {n = n0} r h) =
    let (same, bound, cap, positive) = served_bounded c s0 n0 r in
    (ground (arith, h), ground (arith, h), ground (arith, h), ground (arith, h))
served_bounded c s n (finished {s = s0} {n = n0} r) =
    let (same, bound, cap, positive) = served_bounded c s0 (suc n0) r in
    (omega arith, omega arith, cap, positive)

-- A request is turned away only when as many requests as the limit allows are being served.
pub overloaded_full :
    (configured : ℕ) (s : Limiter) (n : ℕ)
    → Run configured s n
    → (try_acquire s).0 ≡ false
    → n ≡ max_concurrent_requests configured
unfolding try_acquire
overloaded_full c s n r h =
    let (same, bound, cap, positive) = served_bounded c s n r in ground arith
