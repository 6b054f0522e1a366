-- ===== src/Creation/Wait.antt =====
-- The two waits of `createSandbox` in pkg/workloadmanager/handlers.go, for a sandbox created directly
-- and for one that a claim adopts. The environment decides what happens next: `ReadyEvent` is the
-- branch of a `select` that fires, and `Rounds` reads the contexts and lets a tick of the ticker or
-- the end of the wait pass.
use agentcube.Prelude.{
  ℕ, zero, suc, ◌≡◌, ◌≢◌, refl, Bool, true, false, Option, none, some, String, arith, ◌==◌,
  if◌then◌else◌, Bool-cases, inl, inr, ◌⊎◌,
}
use agentcube.Errors.{
  Error, Reason, status, network, internal_error, service_unavailable, timeout, server_timeout,
  too_many_requests, unexpected_server_error, err_sandbox_creation_timeout,
  err_sandbox_ready_watcher_not_registered, err_sandbox_ready_watcher_closed,
  err_sandbox_ready_watcher_missing_sandbox, root, is_context_error, new_internal_error, Result, ok,
  err, Result-cases,
}
use agentcube.Cluster
use agentcube.Cluster.{Sandbox, SandboxClaim}
use agentcube.Creation.Build.{get_sandbox_status, sandbox_status_ready}

-- The result channel closed, a message with or without a sandbox, the request's context done, or
-- the timer.
pub data ReadyEvent : Type 0 where
  closed : ReadyEvent
  received : Option Sandbox → ReadyEvent
  done : Error → ReadyEvent
  timer : ReadyEvent

-- `none` stands for a channel that is nil.
unfoldable pub wait_for_direct_sandbox_ready : Option ReadyEvent → Result Sandbox
wait_for_direct_sandbox_ready none = err err_sandbox_ready_watcher_not_registered
wait_for_direct_sandbox_ready (some closed) = err err_sandbox_ready_watcher_closed
wait_for_direct_sandbox_ready (some (received none)) = err err_sandbox_ready_watcher_missing_sandbox
wait_for_direct_sandbox_ready (some (received (some s))) = ok s
wait_for_direct_sandbox_ready (some (done e)) = err e
wait_for_direct_sandbox_ready (some timer) = err err_sandbox_creation_timeout

abbrev is_retryable_root : Error → Bool
is_retryable_root (status Reason.not_found _) = true
is_retryable_root (status timeout _) = true
is_retryable_root (status server_timeout _) = true
is_retryable_root (status too_many_requests _) = true
is_retryable_root (status service_unavailable _) = true
is_retryable_root (status internal_error _) = true
is_retryable_root (status unexpected_server_error _) = true
is_retryable_root network = true
is_retryable_root _ = false

unfoldable pub is_retryable_sandbox_read_error : Error → Bool
unfolding root
is_retryable_sandbox_read_error e = if is_context_error e then false else is_retryable_root (root e)

-- The request's context and the context of the wait: their errors, and whether the cause of the
-- latter is the creation timeout.
pub record Contexts : Type 0 where
  pub parent_err : Option Error
  pub wait_err : Option Error
  pub timed_out : Bool

unfoldable pub sandbox_ready_wait_context_error : Contexts → Option Error
sandbox_ready_wait_context_error c = elim c.wait_err [
  | none ↦ none
  | some e ↦
      if c.timed_out
      then some err_sandbox_creation_timeout
      else elim c.parent_err [ some p ↦ some p | none ↦ some e ]
]

abbrev own_context_error : Option Error → Option Error
own_context_error none = none
own_context_error (some e) = if is_context_error e then some e else none

-- `sandboxReadyWaitEnded`: the error with which the wait ends, if it does.
unfoldable pub sandbox_ready_wait_ended : Contexts → Option Error → Option Error
sandbox_ready_wait_ended c read_err = elim (sandbox_ready_wait_context_error c) [
  | some e ↦ some e
  | none ↦ own_context_error read_err
]

pub record Rounds (W : Type 0) : Type 0 where
  pub contexts : W → Contexts
  -- The `select` at the end of a round: whether the wait is done.
  pub tick : W → Bool × W

abbrev error_of {ℓ} : {A : Type ℓ} → Result A → Option Error
error_of (ok a) = none
error_of (err e) = some e

-- What one round decides: an answer, or another round after the `select`.
pub data Decision : Type 0 where
  answer : Result Sandbox → Decision
  again : Decision

Decision-cases : (d : Decision) → ((r : Result Sandbox) × (d ≡ answer r)) ⊎ (d ≡ again)
Decision-cases (answer r) = inl (r, refl)
Decision-cases again = inr refl

module _ {W : Type 0} (K : Cluster.Client W) (R : Rounds W) where
  -- The read of the adopted sandbox.
  unfoldable pub check_sandbox : String → String → W → Decision × W
  check_sandbox namespace name w =
      let s = K.get_sandbox namespace name w in
      (
        elim (sandbox_ready_wait_ended (R.contexts s.1) (error_of s.0)) [
          | some e ↦ answer (err e)
          | none ↦ elim s.0 [
            | err e ↦
                if is_retryable_sandbox_read_error e then again else answer (err new_internal_error)
            | ok created ↦
                if get_sandbox_status created == sandbox_status_ready
                then elim (sandbox_ready_wait_context_error (R.contexts s.1)) [
                  | some e ↦ answer (err e)
                  | none ↦ answer (ok created)
                ]
                else again
          ]
        ],
        s.1,
      )

  -- A round up to its `select`.
  unfoldable pub check_claim : SandboxClaim → W → Decision × W
  check_claim claim w =
      let c = K.get_sandbox_claim claim.namespace claim.name w in
      elim (sandbox_ready_wait_ended (R.contexts c.1) (error_of c.0)) [
        | some e ↦ (answer (err e), c.1)
        | none ↦ elim c.0 [
          | err e ↦ (
            if is_retryable_sandbox_read_error e then again else answer (err new_internal_error),
            c.1,
          )
          | ok adopted ↦
              if adopted.status_sandbox_name == ""
              then (again, c.1)
              else check_sandbox claim.namespace adopted.status_sandbox_name c.1
        ]
      ]

  abbrev ended : Contexts → Result Sandbox
  ended c = elim (sandbox_ready_wait_context_error c) [
    | some e ↦ err e
    -- Not reached: the wait's context has an error once it is done.
    | none ↦ err new_internal_error
  ]

  -- The loop, with fuel for its rounds; `none` means that the fuel ran out.
  unfoldable pub wait_for_claim_sandbox_ready : ℕ → SandboxClaim → W → Option (Result Sandbox) × W
  wait_for_claim_sandbox_ready zero claim w = (none, w)
  wait_for_claim_sandbox_ready (suc fuel) claim w =
      let r = check_claim claim w in
      let t = R.tick r.1 in
      let rest = wait_for_claim_sandbox_ready fuel claim t.1 in
      elim r.0 [
        | answer a ↦ (some a, r.1)
        | again ↦ if t.0 then (some (ended (R.contexts t.1)), t.1) else rest
      ]

  -- The wait of a world is over within `n` further rounds.
  unfoldable pub Ends : SandboxClaim → ℕ → W → Type 0
  Ends claim zero w = (R.tick (check_claim claim w).1).0 ≡ true
  Ends claim (suc n) w =
      ((R.tick (check_claim claim w).1).0 ≡ true) ⊎ Ends claim n (R.tick (check_claim claim w).1).1

  -- The wait returns: a wait that its deadline ends within `n` further rounds needs no more than
  -- `n + 1` rounds.
  pub wait_for_claim_returns :
      (n : ℕ) (claim : SandboxClaim) (w : W)
      → Ends claim n w
      → (r : Result Sandbox) × ((wait_for_claim_sandbox_ready (suc n) claim w).0 ≡ some r)
  unfolding wait_for_claim_sandbox_ready Ends
  wait_for_claim_returns zero claim w h = elim (Decision-cases (check_claim claim w).0) [
    | inl (a, e) ↦ (a, ground arith)
    | inr e ↦ (ended (R.contexts (R.tick (check_claim claim w).1).1), ground arith)
  ]
  wait_for_claim_returns (suc n) claim w h = elim (Decision-cases (check_claim claim w).0) [
    | inl (a, e) ↦ (a, ground arith)
    | inr e ↦
        let t = R.tick (check_claim claim w).1 in
        elim (Bool-cases t.0) [
          | inl done_now ↦ (ended (R.contexts t.1), ground arith)
          | inr goes_on ↦
              let (r, q) = wait_for_claim_returns n claim t.1 (later h goes_on) in
              (r, ground (arith, q))
        ]
  ]
    where
      later : {A : Type 0} {b : Bool} → (b ≡ true) ⊎ A → b ≡ false → A
      later (inl p) q = absurd (ground arith)
      later (inr a) q = a

  check_sandbox-ready :
      (namespace name : String) (w : W) (s : Sandbox)
      → (check_sandbox namespace name w).0 ≡ answer (ok s)
      → get_sandbox_status s ≡ sandbox_status_ready
  unfolding check_sandbox
  check_sandbox-ready namespace name w s h = ground arith

  check_claim-ready :
      (claim : SandboxClaim) (w : W) (s : Sandbox)
      → (check_claim claim w).0 ≡ answer (ok s)
      → get_sandbox_status s ≡ sandbox_status_ready
  unfolding check_claim
  check_claim-ready claim w s h =
      let c = K.get_sandbox_claim claim.namespace claim.name w in
      elim (Result-cases c.0) [
        | inr (x, e) ↦ absurd (ground arith)
        | inl (a, e) ↦
            ground (arith, check_sandbox-ready claim.namespace a.status_sandbox_name c.1 s)
      ]

  ended-ne-ok : (c : Contexts) (s : Sandbox) → ended c ≢ ok s
  ended-ne-ok c s h = ground arith

  -- The wait answers with a sandbox only if that sandbox is ready.
  pub wait_for_claim_ready :
      (fuel : ℕ) (claim : SandboxClaim) (w : W) (s : Sandbox)
      → (wait_for_claim_sandbox_ready fuel claim w).0 ≡ some (ok s)
      → get_sandbox_status s ≡ sandbox_status_ready
  unfolding wait_for_claim_sandbox_ready
  wait_for_claim_ready zero claim w s h = absurd (ground arith)
  wait_for_claim_ready (suc fuel) claim w s h =
      let r = check_claim claim w in
      let t = R.tick r.1 in
      ground (
        arith,
        check_claim-ready claim w s,
        wait_for_claim_ready fuel claim t.1 s,
        ended-ne-ok (R.contexts t.1) s,
      )
