-- ===== src/Errors.antt =====
-- pkg/api/errors.go, pkg/store/error.go and the sentinels of pkg/workloadmanager/handlers.go: Go's
-- errors as values, with `errors.Is` through wrapped errors, and computations that may fail.
-- Formatted message texts are not modelled: `wrap` keeps the error that `%w` keeps.
use agentcube.Prelude.{
  arith, subst, String, ◌≡◌, refl, ◌⊎◌, inl, inr, Bool, true, false, ◌==◌, if◌then◌else◌,
}

-- The reasons of Kubernetes' `StatusError` that the code tells apart.
pub data Reason : Type 0 where
  not_found internal_error service_unavailable timeout server_timeout too_many_requests : Reason
  unexpected_server_error conflict already_exists forbidden : Reason

pub data Error : Type 0 where
  -- `store.ErrNotFound`
  err_not_found : Error
  -- `redis.Nil` and valkey's nil reply: the key does not exist.
  redis_nil : Error
  -- `context.Canceled` and `context.DeadlineExceeded`
  canceled deadline_exceeded : Error
  err_agent_runtime_not_found err_code_interpreter_not_found : Error
  err_template_missing err_public_key_missing : Error
  err_no_identity_header err_public_key_not_cached : Error
  err_sandbox_creation_timeout err_sandbox_ready_watcher_not_registered : Error
  err_sandbox_ready_watcher_closed err_sandbox_ready_watcher_missing_sandbox : Error
  -- A `*StatusError` with the resource that it names.
  status : Reason → String → Error
  -- A transport failure: end of file, reset, refused, lost connection or I/O timeout.
  network : Error
  -- `errors.New` and `fmt.Errorf` without `%w`.
  message : String → Error
  -- `fmt.Errorf` with `%w`.
  wrap : Error → Error

-- What `errors.Is` and `errors.As` find at the end of the chain.
unfoldable pub root : Error → Error
root (wrap e) = root e
root e = e

abbrev session_resource_name : String
session_resource_name = "sessions"

abbrev agent_runtime_resource_name : String
agent_runtime_resource_name = "agentruntimes"

abbrev code_interpreter_resource_name : String
code_interpreter_resource_name = "codeinterpreters"

abbrev pub new_session_not_found_error : Error
new_session_not_found_error = status not_found session_resource_name

abbrev pub workload_resource : String → String
workload_resource kind =
    if kind == "CodeInterpreter"
    then code_interpreter_resource_name
    else agent_runtime_resource_name

abbrev pub new_sandbox_template_not_found_error : String → Error
new_sandbox_template_not_found_error kind = status not_found (workload_resource kind)

abbrev pub new_upstream_unavailable_error : Error
new_upstream_unavailable_error = status service_unavailable ""

-- The cause goes into the text only, so `errors.Is` no longer finds it.
abbrev pub new_internal_error : Error
new_internal_error = status internal_error ""

abbrev is_status_not_found : Error → Bool
is_status_not_found (status not_found _) = true
is_status_not_found _ = false

-- `apierrors.IsNotFound`
unfoldable pub is_not_found : Error → Bool
unfolding root
is_not_found e = is_status_not_found (root e)

abbrev is_status_already_exists : Error → Bool
is_status_already_exists (status already_exists _) = true
is_status_already_exists _ = false

-- `apierrors.IsAlreadyExists`
unfoldable pub is_already_exists : Error → Bool
unfolding root
is_already_exists e = is_status_already_exists (root e)

abbrev is_store_sentinel : Error → Bool
is_store_sentinel err_not_found = true
is_store_sentinel _ = false

-- `errors.Is(err, store.ErrNotFound)`
unfoldable pub is_store_not_found : Error → Bool
unfolding root
is_store_not_found e = is_store_sentinel (root e)

abbrev is_nil_sentinel : Error → Bool
is_nil_sentinel redis_nil = true
is_nil_sentinel _ = false

-- `errors.Is(err, redis.Nil)`, `valkey.IsValkeyNil(err)`
unfoldable pub is_redis_nil : Error → Bool
unfolding root
is_redis_nil e = is_nil_sentinel (root e)

abbrev is_context_sentinel : Error → Bool
is_context_sentinel canceled = true
is_context_sentinel deadline_exceeded = true
is_context_sentinel _ = false

unfoldable pub is_context_error : Error → Bool
unfolding root
is_context_error e = is_context_sentinel (root e)

pub data Result {ℓ} (A : Type ℓ) : Type ℓ where
  ok : A → Result A
  err : Error → Result A

abbrev pub map_error {ℓ} : {A : Type ℓ} → (Error → Error) → Result A → Result A
map_error f (ok a) = ok a
map_error f (err e) = err (f e)

abbrev pub map_ok : {A B : Type 0} → (A → B) → Result A → Result B
map_ok f (ok a) = ok (f a)
map_ok f (err e) = err e

pub Result-cases {ℓ} :
    {A : Type ℓ} (r : Result A) → ((a : A) × (r ≡ ok a)) ⊎ ((e : Error) × (r ≡ err e))
Result-cases (ok a) = inl (a, refl)
Result-cases (err e) = inr (e, refl)

-- What holds of the value, if there is one.
abbrev pub IfOk : {A : Type 0} → (A → Type 0) → Result A → Type 0
IfOk P (ok a) = P a
IfOk P (err e) = Unit

module _ {A : Type 0} (P : A → Type 0) where
  pub IfOk-if : (b : Bool) (r s : Result A) → IfOk P r → IfOk P s → IfOk P (if b then r else s)
  IfOk-if true r s hr hs = hr
  IfOk-if false r s hr hs = hs

  pub IfOk-split :
      (b : Bool) (r s : Result A)
      → (b ≡ true → IfOk P r)
      → (b ≡ false → IfOk P s)
      → IfOk P (if b then r else s)
  IfOk-split true r s hr hs = hr refl
  IfOk-split false r s hr hs = hs refl

  pub IfOk-ok : (r : Result A) (a : A) → IfOk P r → r ≡ ok a → P a
  IfOk-ok (ok b) a h e = let same : b ≡ a = ground arith in subst P same h
  IfOk-ok (err x) a h e = absurd (ground arith)

pub IfOk-map_ok :
    {A B : Type 0} (P : B → Type 0) (f : A → B) (r : Result A)
    → IfOk (λ a. P (f a)) r
    → IfOk P (map_ok f r)
IfOk-map_ok P f (ok a) h = h
IfOk-map_ok P f (err e) h = h

-- A computation on the world `W` outside the program that may fail. A failure keeps its effects.
abbrev pub Try : Type 0 → Type 0 → Type 0
Try W A = W → Result A × W

module _ {W : Type 0} where
  abbrev pub return : {A : Type 0} → A → Try W A
  return a w = (ok a, w)

  abbrev pub fail : {A : Type 0} → Error → Try W A
  fail e w = (err e, w)

  infixl 5 ◌>>=◌ ◌>>◌
  abbrev pub ◌>>=◌ : {A B : Type 0} → Try W A → (A → Try W B) → Try W B
  ◌>>=◌ m f w = elim (m w).0 [ ok a ↦ f a (m w).1 | err e ↦ (err e, (m w).1) ]

  abbrev pub ◌>>◌ : {B : Type 0} → Try W (Unit {0}) → Try W B → Try W B
  m >> k = m >>= λ _. k

  -- `if !b { return nil, err }`
  abbrev pub require : Bool → Error → Try W (Unit {0})
  require b e w = if b then (ok tt, w) else (err e, w)

  -- `if err != nil { return nil, f(err) }`
  abbrev pub or_fail : {A : Type 0} → (Error → Error) → Try W A → Try W A
  or_fail f m w = (map_error f (m w).0, (m w).1)
