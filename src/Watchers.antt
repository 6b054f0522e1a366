-- ===== src/Watchers.antt =====
-- pkg/workloadmanager/sandbox_controller.go: the reconciler that tells a waiting creation that its
-- sandbox is ready. The maps are functions; each channel, made with a buffer of one, is a number, and
-- `buffer` holds what was sent and not yet received. Every method holds the lock while it uses the map.
pub mod Delivery
use agentcube.Prelude.{
  ℕ, suc, String, Bool, true, false, ◌&&◌, Option, none, some, ◌==◌, eqb, if◌then◌else◌,
}
use agentcube.Errors.{Error, is_not_found, Result, ok, err}
use agentcube.Cluster.{Sandbox}
use agentcube.Creation.Build.{get_sandbox_status}

pub record Reconciler : Type 0 where
  pub watchers : String → String → Option ℕ
  pub buffer : ℕ → Option Sandbox
  -- The channels below were made.
  pub made : ℕ

abbrev pub new : Reconciler
new = record { watchers = λ ns n. none; buffer = λ c. none; made = 0 }

abbrev pub put_watcher :
    String → String → Option ℕ → (String → String → Option ℕ) → String → String → Option ℕ
put_watcher ns n w watchers ns' n' = if ns == ns' && n == n' then w else watchers ns' n'

abbrev pub put_buffer : ℕ → Option Sandbox → (ℕ → Option Sandbox) → ℕ → Option Sandbox
put_buffer c v buffer d = if eqb c d then v else buffer d

-- `WatchSandboxOnce` returns the channel.
unfoldable pub watch_sandbox_once : String → String → Reconciler → ℕ × Reconciler
watch_sandbox_once ns n r = (
  r.made,
  record {
    watchers = put_watcher ns n (some r.made) r.watchers;
    buffer = put_buffer r.made none r.buffer;
    made = suc r.made;
  },
)

unfoldable pub un_watch_sandbox : String → String → Reconciler → Reconciler
un_watch_sandbox ns n r = record r { watchers = put_watcher ns n none r.watchers }

-- The send under `select` with a default: dropped where the buffer is full.
unfoldable pub send : ℕ → Sandbox → Reconciler → Reconciler
send c sandbox r = elim (r.buffer c) [
  | none ↦ record r { buffer = put_buffer c (some sandbox) r.buffer }
  | some old ↦ r
]

-- `Reconcile` of the sandbox `ns`/`n`, with the outcome of reading it.
unfoldable pub reconcile :
    String → String → Result Sandbox → Reconciler → Result (Unit {0}) × Reconciler
reconcile ns n (err e) r = (if is_not_found e then ok tt else err e, r)
reconcile ns n (ok sandbox) r =
    if get_sandbox_status sandbox == "ready"
    then elim (r.watchers ns n) [
      | none ↦ (ok tt, r)
      | some c ↦ (ok tt, send c sandbox (record r { watchers = put_watcher ns n none r.watchers }))
    ]
    else (ok tt, r)

-- A waiter receives from its channel.
unfoldable pub receive : ℕ → Reconciler → Option Sandbox × Reconciler
receive c r = (r.buffer c, record r { buffer = put_buffer c none r.buffer })
