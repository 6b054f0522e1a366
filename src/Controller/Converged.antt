-- ===== src/Controller/Converged.antt =====
-- Reconciliations of pkg/workloadmanager/codeinterpreter_controller.go: what a successful one
-- establishes, and when one changes nothing.
use agentcube.Prelude.{
  String, ℤ, pos, negsuc, is_positive, ◌≡◌, refl, true, false, not, ◌&&◌, Option, some, arith, ◌==◌,
  ==_self,
}
use agentcube.Errors.{ok}
use agentcube.Workload.{CodeInterpreter, auth_mode_none}
use agentcube.Workload.Builders.{wants_pool}
use agentcube.Controller.{
  Reconciler, SandboxTemplate, SandboxWarmPool, network_policy_unmanaged, same_size, new_template,
  updated_template, new_pool, updated_pool, template_differs, pool_differs, ensure_sandbox_template,
  ensure_sandbox_warm_pool, is_up_to_date, update_status, manage, reconcile,
}
use agentcube.Controller.Objects.{ensure_same}
use agentcube.Controller.Pool.{IsApi, IsTemplateOf, IsPoolOf, positive_nonzero}

module _ {W : Type 0} (R : Reconciler W) (key : String)
    (template : W → String → String → Option SandboxTemplate)
    (pool : W → String → String → Option SandboxWarmPool)
    (cached_template : W → String → String → Option SandboxTemplate)
    (cached_pool : W → String → String → Option SandboxWarmPool)
    (L : IsApi R template pool cached_template cached_pool) where
  -- While a warm pool needs the Router's key and the key is not cached, nothing is changed, and the
  -- reconciliation is tried again after five seconds.
  reconcile_waits :
      (ns n : String) (w : W) (ci : CodeInterpreter)
      → (R.get ns n w).0 ≡ ok ci
      → wants_pool ci.spec ≡ true
      → (ci.spec.auth_mode == auth_mode_none) ≡ false
      → key ≡ ""
      → ((reconcile R key ns n w).0 ≡ ok 5_000_000_000) × ((reconcile R key ns n w).1 ≡ w)
  unfolding reconcile manage ensure_sandbox_template
  reconcile_waits ns n w ci got wanted auth uncached =
      let same = L.get-same ns n w in
      let empty : (key == "") ≡ true = rw uncached (==_self "") in
      (ground arith, ground (arith, same))

  same_size_self : (n : ℤ) → same_size n n ≡ true
  same_size_self (pos n) = ground arith
  same_size_self (negsuc n) = ground arith

  same_template :
      (ci : CodeInterpreter) (t : SandboxTemplate)
      → IsTemplateOf R key template pool ci t
      → template_differs R key ci t ≡ false
  unfolding template_differs
  same_template ci t h =
      let a = h.same_pod in let b = h.unmanaged in ground (arith, ==_self network_policy_unmanaged)

  same_pool :
      (ci : CodeInterpreter) (size : ℤ) (p : SandboxWarmPool)
      → IsPoolOf R key template pool ci size p
      → pool_differs R key ci size p ≡ false
  unfolding pool_differs
  same_pool ci size p h =
      rw (h.replicas, h.template_name, same_size_self size, ==_self ci.name) refl

  manage_converged :
      (ci : CodeInterpreter) (size : ℤ) (t : SandboxTemplate) (p : SandboxWarmPool) (w : W)
      → ci.spec.warm_pool_size ≡ some size
      → is_positive size ≡ true
      → (not (ci.spec.auth_mode == auth_mode_none) && key == "") ≡ false
      → (R.templates.get ci.namespace ci.name w).0 ≡ ok t
      → template_differs R key ci t ≡ false
      → (R.pools.get ci.namespace ci.name w).0 ≡ ok p
      → pool_differs R key ci size p ≡ false
      → ((manage R key ci w).0 ≡ ok 0) × ((manage R key ci w).1 ≡ w)
  unfolding manage ensure_sandbox_template ensure_sandbox_warm_pool
  manage_converged ci size t p w wanted positive cached has_t td has_p pd =
      let (a, b) =
        ensure_same R.templates template cached_template (λ t. t.namespace) (λ t. t.name)
          L.templates ci.namespace ci.name (R.set_controller_reference ci) (new_template R key ci)
          (template_differs R key ci) (updated_template R key ci) w t has_t td in
      let (c, d) =
        ensure_same R.pools pool cached_pool (λ p. p.namespace) (λ p. p.name) L.pools ci.namespace
          ci.name (R.set_controller_reference ci) (new_pool R key ci size)
          (pool_differs R key ci size) (updated_pool R key ci size) w p has_p pd in
      let nonzero = positive_nonzero size positive in
      (ground (arith, a, b, c, d, nonzero), ground (arith, a, b, c, d, nonzero))

  -- Where the cluster already has the template and the pool and the status says so, a reconciliation
  -- writes nothing.
  pub reconcile_converged :
      (ns n : String) (w : W) (ci : CodeInterpreter) (size : ℤ) (t : SandboxTemplate)
      (p : SandboxWarmPool)
      → (R.get ns n w).0 ≡ ok ci
      → ci.spec.warm_pool_size ≡ some size
      → is_positive size ≡ true
      → (not (ci.spec.auth_mode == auth_mode_none) && key == "") ≡ false
      → (R.templates.get ci.namespace ci.name w).0 ≡ ok t
      → IsTemplateOf R key template pool ci t
      → (R.pools.get ci.namespace ci.name w).0 ≡ ok p
      → IsPoolOf R key template pool ci size p
      → (ci.ready
          && is_up_to_date R key ci.generation (R.find_status_condition ci.conditions "Ready"))
        ≡ true
      → ((reconcile R key ns n w).0 ≡ ok 0) × ((reconcile R key ns n w).1 ≡ w)
  unfolding reconcile update_status
  reconcile_converged ns n w ci size t p got wanted positive cached has_t good_t has_p good_p
        current =
      let read = L.get-same ns n w in
      let td : template_differs R key ci t ≡ false = same_template ci t good_t in
      let pd : pool_differs R key ci size p ≡ false = same_pool ci size p good_p in
      let (done, still) = manage_converged ci size t p w wanted positive cached has_t td has_p pd in
      (ground (arith, read, done, still), ground (arith, read, done, still))
