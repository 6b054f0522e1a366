-- ===== src/Creation/Probe.antt =====
-- `waitForSandboxEntryPointsReady` of pkg/workloadmanager/sandbox_helper.go: a loop that probes until a
-- deadline. `pause` is the `select` after a probe: whether the
-- context is done, and otherwise the interval has passed.
use agentcube.Prelude.{
  ℕ, zero, suc, ◌+◌, ◌≤◌, String, ◌≡◌, Bool, true, Option, none, some, [], ◌∷◌, if◌then◌else◌,
  arith, Bool-cases, inl, inr, ◌⊎◌,
}
use agentcube.Errors.{wrap, Result, ok, err, Try, Result-cases}
use agentcube.Creation.Build.{SandboxEntry, probe_sandbox_entry_points}

module _ {W : Type 0} (probe : Try W (Unit {0})) (pause : W → Bool × W) where
  -- The loop, for at most `fuel` probes: `none` if more are needed.
  unfoldable pub probe_loop : (fuel : ℕ) → W → Option (Result (Unit {0})) × W
  probe_loop zero w = (none, w)
  probe_loop (suc fuel) w =
      let p = probe w in
      let s = pause p.1 in
      let rest = probe_loop fuel s.1 in
      elim p.0 [
        | ok _ ↦ (some (ok tt), p.1)
        | err e ↦ if s.0 then (some (err (wrap e)), s.1) else rest
      ]

  -- The world at the probe of a number, where those before it failed.
  unfoldable pub probe_world : ℕ → W → W
  probe_world zero w = w
  probe_world (suc n) w = probe_world n (pause (probe w).1).1

  -- If the deadline has passed after the probe of a number, or that probe succeeds, the loop has an
  -- answer with that many probes.
  pub probe_loop_ends :
      (n fuel : ℕ) (w : W)
      → ((probe (probe_world n w)).0 ≡ ok tt) ⊎ ((pause (probe (probe_world n w)).1).0 ≡ true)
      → n + 1 ≤ fuel
      → (r : Result (Unit {0})) × ((probe_loop fuel w).0 ≡ some r)
  unfolding probe_loop probe_world
  probe_loop_ends n zero w h le = absurd (omega arith)
  probe_loop_ends zero (suc fuel) w h le = elim (Result-cases (probe w).0) [
    | inl (u, e) ↦ (ok tt, ground arith)
    | inr (x, e) ↦ elim h [
      | inl good ↦ absurd (ground arith)
      | inr over ↦ (err (wrap x), ground arith)
    ]
  ]
  probe_loop_ends (suc n) (suc fuel) w h le = elim (Result-cases (probe w).0) [
    | inl (u, e) ↦ (ok tt, ground arith)
    | inr (x, e) ↦ elim (Bool-cases (pause (probe w).1).0) [
      | inl over ↦ (err (wrap x), ground arith)
      | inr on ↦
          let (r, f) = probe_loop_ends n fuel (pause (probe w).1).1 h (omega arith) in
          (r, ground (arith, f))
    ]
  ]

  -- The loop succeeds only with a probe that does, and the deadline had not passed before it.
  pub probe_loop_ok :
      (fuel : ℕ) (w : W)
      → (probe_loop fuel w).0 ≡ some (ok tt)
      → (n : ℕ) × (n + 1 ≤ fuel) × ((probe (probe_world n w)).0 ≡ ok tt)
  unfolding probe_loop probe_world
  probe_loop_ok zero w h = absurd (ground arith)
  probe_loop_ok (suc fuel) w h = elim (Result-cases (probe w).0) [
    | inl (tt, e) ↦ (0, omega arith, e)
    | inr (x, e) ↦ elim (Bool-cases (pause (probe w).1).0) [
      | inl over ↦ absurd (ground arith)
      | inr on ↦
          let (n, le, f) = probe_loop_ok fuel (pause (probe w).1).1 (ground arith) in
          (suc n, omega arith, f)
    ]
  ]

module _ {W : Type 0} (join_host_port : String → ℕ → String) (dial : String → Try W (Unit {0}))
    (pause : W → Bool × W) where
  -- An entry without ports is ready at once.
  unfoldable pub wait_for_sandbox_entry_points_ready :
      (fuel : ℕ) → String → SandboxEntry → W → Option (Result (Unit {0})) × W
  wait_for_sandbox_entry_points_ready fuel pod_ip entry w = elim entry.ports [
    | [] ↦ (some (ok tt), w)
    | (p ∷ ports) ↦
        probe_loop (probe_sandbox_entry_points join_host_port dial pod_ip (p ∷ ports)) pause fuel w
  ]
