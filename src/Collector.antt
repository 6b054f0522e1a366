-- ===== src/Collector.antt =====
-- pkg/workloadmanager/garbage_collection.go: one run of the garbage collector, over a store, the
-- Kubernetes API and a clock. The ticker that starts a run, the deadline of a run and the log lines
-- are not modelled; the errors that a run logs, of listings and of deletions, are its result.
pub mod Dedup
pub mod Safety
use agentcube.Prelude.{
  ℕ, String, ◌-◌, ◌≡◌, Bool, true, false, Option, none, some, List, [], ◌∷◌, ◌++◌, ◌==◌, eqb, ltb,
  if◌then◌else◌,
}
use agentcube.Prelude.Lists.{contains}
use agentcube.Errors.{Error, wrap, is_not_found, Result, ok, err, Try}
use agentcube.Time.{Time, Duration, pos, is_zero, add, before, minute}
use agentcube.Types.{SandboxInfo, sandbox_claims_kind}
use agentcube.Store.{Store}
use agentcube.Cluster
use agentcube.Cluster.{Resource, sandboxes, sandbox_claims}

abbrev pub gc_min_inactive_lookback : ℕ
gc_min_inactive_lookback = minute

abbrev pub gc_candidate_limit : ℕ
gc_candidate_limit = 100

-- `DefaultSandboxIdleTimeout` of k8s_client.go: fifteen minutes.
abbrev pub default_sandbox_idle_timeout : Duration
default_sandbox_idle_timeout = pos 900_000_000_000

abbrev pub is_zero_duration : Duration → Bool
is_zero_duration (pos n) = eqb n 0
is_zero_duration _ = false

-- The test on a candidate: its own idle timeout has passed since its last activity.
unfoldable pub is_idle : Time → SandboxInfo → Bool
is_idle now s =
    let activity_at = if is_zero s.last_activity_at then s.created_at else s.last_activity_at in
    let idle_timeout =
      if is_zero_duration s.idle_timeout then default_sandbox_idle_timeout else s.idle_timeout in
    before (add activity_at idle_timeout) now

-- The loop over the candidates.
unfoldable pub inactive_sandboxes : Time → List SandboxInfo → List SandboxInfo
inactive_sandboxes now [] = []
inactive_sandboxes now (s ∷ candidates) =
    let rest = inactive_sandboxes now candidates in if is_idle now s then s ∷ rest else rest

-- `seen` and `result` of `deduplicateSandboxes` after one list.
unfoldable pub add_unseen :
    List SandboxInfo → List String × List SandboxInfo → List String × List SandboxInfo
add_unseen [] acc = acc
add_unseen (s ∷ list) (seen, result) = add_unseen list (
    if contains seen s.session_id
    then (seen, result)
    else (s.session_id ∷ seen, result ++ (s ∷ [])))

unfoldable pub deduplicate_loop :
    List (List SandboxInfo) → List String × List SandboxInfo → List SandboxInfo
deduplicate_loop [] acc = acc.1
deduplicate_loop (list ∷ lists) acc = deduplicate_loop lists (add_unseen list acc)

unfoldable pub deduplicate_sandboxes : List (List SandboxInfo) → List SandboxInfo
deduplicate_sandboxes lists = deduplicate_loop lists ([], [])

abbrev pub or_empty : Result (List SandboxInfo) → List SandboxInfo
or_empty (ok l) = l
or_empty (err e) = []

-- The error of a listing, which is logged before the run goes on.
abbrev pub listing_error : Result (List SandboxInfo) → List Error
listing_error (ok l) = []
listing_error (err e) = e ∷ []

abbrev pub resource_of : SandboxInfo → Resource
resource_of s = if s.kind == sandbox_claims_kind then sandbox_claims else sandboxes

module _ {W : Type 0} (now : W → Time) (S : Store W) (K : Cluster.Client W) where
  -- `gc.deleteSandbox` and `gc.deleteSandboxClaim`: an object that is gone counts as deleted.
  unfoldable pub delete_object : Resource → String → String → Try W (Unit {0})
  delete_object r namespace name w =
      let d = K.delete r namespace name w in
      elim d.0 [
        | ok _ ↦ (ok tt, d.1)
        | err e ↦ (if is_not_found e then ok tt else err (wrap e), d.1)
      ]

  -- The body of the loop over the sandboxes to be deleted: the errors that it appends.
  unfoldable pub collect_one : SandboxInfo → W → List Error × W
  collect_one s w =
      let d = delete_object (resource_of s) s.sandbox_namespace s.name w in
      elim d.0 [
        | err e ↦ (e ∷ [], d.1)
        | ok _ ↦
            let r = S.delete_sandbox_by_session_id s.session_id d.1 in
            (elim r.0 [ ok _ ↦ [] | err e ↦ e ∷ [] ], r.1)
      ]

  unfoldable pub collect : List SandboxInfo → W → List Error × W
  collect [] w = ([], w)
  collect (s ∷ found) w =
      let one = collect_one s w in let rest = collect found one.1 in (one.0 ++ rest.0, rest.1)

  -- What a run is about to delete, the errors of its two queries, and the world after them.
  unfoldable pub gc_sandboxes : W → List SandboxInfo × List Error × W
  gc_sandboxes w =
      let t = now w in
      let candidates =
        S.list_inactive_sandboxes (t - gc_min_inactive_lookback) gc_candidate_limit w in
      let expired = S.list_expired_sandboxes t gc_candidate_limit candidates.1 in
      (
        deduplicate_sandboxes
            (inactive_sandboxes t (or_empty candidates.0) ∷ or_empty expired.0 ∷ []),
        listing_error candidates.0 ++ listing_error expired.0,
        expired.1,
      )

  unfoldable pub once : W → List Error × W
  once w =
      let (found, errors, w') = gc_sandboxes w in let c = collect found w' in (errors ++ c.0, c.1)
