-- ===== src/Tests/Waiting.antt =====
-- The theorems about the waits of a creation and about the notification at concrete data.
use agentcube.Prelude.{◌≡◌, refl, true, false, none, some, ◌==◌, string_discrete}
use agentcube.Errors.{Result, ok}
use agentcube.Cluster.{Sandbox, sandbox_claims}
use agentcube.Creation.Build.{get_sandbox_status}
use agentcube.Creation.Wait.{
  Rounds, wait_for_claim_sandbox_ready, check_claim, check_sandbox, sandbox_ready_wait_ended,
  sandbox_ready_wait_context_error, wait_for_claim_returns, Ends,
}
use agentcube.Watchers.{new, watch_sandbox_once, reconcile, receive}
use agentcube.Watchers.Delivery.{start, watched, reconcile_delivers}
use agentcube.Tests.World.{World, sandbox, claim, cluster, running, idle, put_alive}

-- Contexts that stay open, and a wait that goes on for one round more.
abbrev rounds : Rounds World
rounds = record {
  contexts = λ w. record { parent_err = none; wait_err = none; timed_out = false };
  tick = λ w. (true, w);
}

ends : Ends cluster rounds claim 0 idle
unfolding Ends
ends = refl

wait_for_claim_returns_example :
    (r : Result Sandbox) × ((wait_for_claim_sandbox_ready cluster rounds 1 claim idle).0 ≡ some r)
wait_for_claim_returns_example = wait_for_claim_returns cluster rounds 0 claim idle ends

abbrev adopted : World
adopted = put_alive true sandbox_claims "ns" "claim" running

answered : (wait_for_claim_sandbox_ready cluster rounds 1 claim adopted).0 ≡ some (ok sandbox)
unfolding wait_for_claim_sandbox_ready check_claim check_sandbox sandbox_ready_wait_ended
    sandbox_ready_wait_context_error get_sandbox_status string_discrete
answered = refl

registered : (watch_sandbox_once "ns" "box" new).1.watchers "ns" "box" ≡ some 0
unfolding watch_sandbox_once string_discrete
registered = refl

is_ready : (get_sandbox_status sandbox == "ready") ≡ true
unfolding get_sandbox_status string_discrete
is_ready = refl

reconcile_delivers_example :
    let r' = (reconcile "ns" "box" (ok sandbox) (watch_sandbox_once "ns" "box" new).1).1 in
    ((receive 0 r').0 ≡ some sandbox) × (r'.watchers "ns" "box" ≡ none)
reconcile_delivers_example =
    reconcile_delivers "ns" "box" 0 sandbox (watch_sandbox_once "ns" "box" new).1
      (watched "ns" "box" start) registered is_ready
