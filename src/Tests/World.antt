-- ===== src/Tests/World.antt =====
-- A world of objects and sessions, with a store and an API server that act on it.
use agentcube.Prelude.{
  String, ◌≡◌, refl, Bool, true, false, none, some, [], ◌∷◌, arith, ◌==◌, ==_self, if◌then◌else◌,
  Bool-cases, inl, inr, ◌⊎◌,
}
use agentcube.Errors.{
  Error, err_not_found, status, forbidden, not_found, message, is_not_found, root, ok, err,
}
use agentcube.Time.{Time, pos}
use agentcube.Types.{SandboxInfo}
use agentcube.Store.{Store}
use agentcube.Cluster
use agentcube.Cluster.Pod.{empty_pod_template}
use agentcube.Cluster.{Resource, Sandbox, SandboxClaim, sandboxes, sandbox_claims}
use agentcube.Collector.Safety.{same_object, IsEffect}
use agentcube.Creation.{Waits}
use agentcube.Creation.Build.{SandboxEntry}
use agentcube.Creation.Rollback.{IsRemoval}
use agentcube.Creation.Deletion.{IsSeparate}

pub record World : Type 0 where
  pub alive : Resource → String → String → Bool
  pub held : String → Bool
  -- Whether the API server still accepts objects.
  pub accepting : Bool

abbrev pub info : SandboxInfo
info = record {
  kind = "Sandbox";
  sandbox_id = "u1";
  sandbox_namespace = "ns";
  name = "box";
  entry_points = record { path = "/"; protocol = "http"; endpoint = "10.0.0.1:8080" } ∷ [];
  session_id = "s1";
  owner_id = "alice";
  created_at = 1;
  expires_at = 2_000_000_000;
  idle_timeout = pos 1_000_000_000;
  last_activity_at = 1;
  status = "ready";
}

abbrev pub sandbox : Sandbox
sandbox = record {
  name = "box";
  namespace = "ns";
  labels = [];
  annotations = [];
  uid = "u1";
  creation_timestamp = 1;
  pod_template = empty_pod_template;
  shutdown_time = none;
  conditions = record { type = "Ready"; status = "True" } ∷ [];
  pod_name_annotation = none;
}

abbrev pub claim : SandboxClaim
claim = record {
  name = "claim";
  namespace = "ns";
  labels = [];
  annotations = [];
  owner_references = [];
  template_name = "interpreter";
  status_sandbox_name = "box";
}

abbrev pub entry : SandboxEntry
entry = record {
  kind = "Sandbox";
  session_id = "s1";
  owner_id = "alice";
  ports = [];
  idle_timeout = pos 0;
}

abbrev pub put_alive : Bool → Resource → String → String → World → World
put_alive b r ns n w = record w {
  alive = λ r' ns' n'. if same_object r ns n r' ns' n' then b else w.alive r' ns' n';
}

abbrev pub put_held : Bool → String → World → World
put_held b id w = record w { held = λ j. if id == j then b else w.held j }

abbrev pub now : World → Time
now w = 600_000_000_000

abbrev pub store : Store World
store = record {
  ping = λ w. (ok tt, w);
  get_sandbox_by_session_id = λ id w. (if w.held id then ok info else err err_not_found, w);
  store_sandbox = λ s w. elim s [
    | none ↦ (err (message "nil"), w)
    | some s ↦ (ok tt, put_held true s.session_id w)
  ];
  update_sandbox = λ s w. elim s [
    | none ↦ (err (message "nil"), w)
    | some s ↦ (if w.held s.session_id then ok tt else err (message "missing"), w)
  ];
  delete_sandbox_by_session_id = λ id w. (ok tt, put_held false id w);
  list_expired_sandboxes = λ t n w. (ok [], w);
  list_inactive_sandboxes = λ t n w. (if w.held "s1" then ok (info ∷ []) else ok [], w);
  update_session_last_activity = λ id t w. (if w.held id then ok tt else err err_not_found, w);
}

abbrev pub cluster : Cluster.Client World
cluster = record {
  create_sandbox = λ s w. (
    if w.accepting then ok tt else err (message "refused"),
    put_alive w.accepting sandboxes s.namespace s.name w,
  );
  create_sandbox_claim = λ c w. (
    if w.accepting then ok tt else err (message "refused"),
    put_alive w.accepting sandbox_claims c.namespace c.name w,
  );
  get_sandbox =
      λ ns n w. (if w.alive sandboxes ns n then ok sandbox else err (status not_found ""), w);
  get_sandbox_claim =
      λ ns n w. (if w.alive sandbox_claims ns n then ok claim else err (status not_found ""), w);
  delete = λ r ns n w.
      (if w.alive r ns n then ok tt else err (status not_found ""), put_alive false r ns n w);
}

abbrev pub waits : Waits World
waits = record {
  now = now;
  join_host_port = λ ip port. ip;
  wait_for_created_sandbox =
      λ w. (if w.alive sandboxes "ns" "box" then ok sandbox else err (message "timed out"), w);
  get_sandbox_pod_ip = λ ns n pod w. (ok "10.0.0.1", w);
  wait_for_sandbox_entry_points_ready = λ ip e w. (ok tt, w);
}

-- An object and a session of the same sandbox, and nothing yet.
abbrev pub running : World
running =
    put_alive true sandboxes "ns" "box" (
      put_held true "s1" (record { alive = λ r ns n. false; held = λ id. false; accepting = true }))

abbrev pub idle : World
idle = record { alive = λ r ns n. false; held = λ id. false; accepting = true }

abbrev pub refusing : World
refusing = record idle { accepting = false }

same_object_self : (r : Resource) (ns n : String) → same_object r ns n r ns n ≡ true
same_object_self sandboxes ns n = ground (arith, ==_self ns, ==_self n)
same_object_self sandbox_claims ns n = ground (arith, ==_self ns, ==_self n)

pub effect : IsEffect store cluster (λ w. w.alive) (λ w. w.held)
effect = record {
  inactive-alive = λ t limit w r ns n. refl;
  expired-alive = λ t limit w r ns n. refl;
  delete_session-alive = λ id w r ns n. refl;
  delete-alive = λ r ns n w r' ns' n' h. ground (arith, h);
  delete-ok = λ r ns n w h. ground (arith, same_object_self r ns n);
  delete-not_found = λ r ns n w e h g. ground (arith, same_object_self r ns n);
  delete-held = λ r ns n w id. refl;
  delete_session-ok = λ id w h. ground (arith, ==_self id);
  delete_session-held = λ id w j h. ground (arith, h);
}

pub removal : IsRemoval store cluster (λ w. w.alive) (λ w. w.held)
removal = record {
  delete-ok = λ r ns n w h. ground (arith, same_object_self r ns n);
  delete-not_found = λ r ns n w e h g. ground (arith, same_object_self r ns n);
  delete_session-alive = λ id w r ns n. refl;
  delete_session-ok = λ id w h. ground (arith, ==_self id);
}

pub separate : IsSeparate store cluster (λ w. w.held)
separate = record { get-held = λ id id' w. refl; delete-held = λ r ns n id w. refl }

-- An API server that refuses every deletion.
abbrev pub stuck : Cluster.Client World
stuck = record cluster { delete = λ r ns n w. (err (status forbidden ""), w) }

pub effect_stuck : IsEffect store stuck (λ w. w.alive) (λ w. w.held)
unfolding is_not_found root
effect_stuck = record {
  inactive-alive = λ t limit w r ns n. refl;
  expired-alive = λ t limit w r ns n. refl;
  delete_session-alive = λ id w r ns n. refl;
  delete-alive = λ r ns n w r' ns' n' h. refl;
  delete-ok = λ r ns n w h. absurd (ground arith);
  delete-not_found = λ r ns n w e h g. absurd (ground arith);
  delete-held = λ r ns n w id. refl;
  delete_session-ok = λ id w h. ground (arith, ==_self id);
  delete_session-held = λ id w j h. ground (arith, h);
}

pub IsRemoval-stuck : IsRemoval store stuck (λ w. w.alive) (λ w. w.held)
unfolding is_not_found root
IsRemoval-stuck = record {
  delete-ok = λ r ns n w h. absurd (ground arith);
  delete-not_found = λ r ns n w e h g. absurd (ground arith);
  delete_session-alive = λ id w r ns n. refl;
  delete_session-ok = λ id w h. ground (arith, ==_self id);
}

pub IsSeparate-stuck : IsSeparate store stuck (λ w. w.held)
IsSeparate-stuck = record { get-held = λ id id' w. refl; delete-held = λ r ns n id w. refl }

-- Every deletion gets through, or finds nothing.
pub reachable :
    (r : Resource) (ns n : String) (w : World)
    → ((cluster.delete r ns n w).0 ≡ ok tt)
      ⊎ ((e : Error) × ((cluster.delete r ns n w).0 ≡ err e) × (is_not_found e ≡ true))
unfolding is_not_found root
reachable r ns n w = elim (Bool-cases (w.alive r ns n)) [
  | inl h ↦ inl (ground arith)
  | inr h ↦ inr (status not_found "", ground arith, refl)
]
