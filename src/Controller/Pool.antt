-- ===== src/Controller/Pool.antt =====
-- What a reconciliation in pkg/workloadmanager/codeinterpreter_controller.go leaves in the cluster.
use agentcube.Prelude.{
  String, ℤ, pos, negsuc, is_positive, ◌≡◌, refl, ap, true, false, not, ◌&&◌, Bool-cases,
  Option-cases, inl, inr, Option, some, arith, ◌==◌,
}
use agentcube.Errors.{Result-cases, ok}
use agentcube.Cluster.{OwnerReference}
use agentcube.Cluster.Pod.{PodSpec}
use agentcube.Workload.{CodeInterpreter, auth_mode_none}
use agentcube.Workload.Builders.{wants_pool}
use agentcube.Controller.{
  Reconciler, SandboxTemplate, SandboxWarmPool, network_policy_unmanaged, convert_to_pod_template,
  same_size, new_template, template_differs, updated_template, new_pool, pool_differs, updated_pool,
  ensure_sandbox_template, ensure_sandbox_warm_pool, delete_sandbox_warm_pool,
  delete_sandbox_template, manage,
}
use agentcube.Controller.Objects.{
  ensure, remove, IsCrud, IsFrame, IsEnsured, IsRemoved, ensure_ok, remove_ok, ensure-other,
  remove-other,
}

same_size-eq : (m n : ℤ) → same_size m n ≡ true → m ≡ n
same_size-eq (pos m) (pos n) h = let e : m ≡ n = ground arith in ap pos e
same_size-eq (negsuc m) (negsuc n) h = let e : m ≡ n = ground arith in ap negsuc e
same_size-eq (pos m) (negsuc n) h = absurd (ground arith)
same_size-eq (negsuc m) (pos n) h = absurd (ground arith)

pub positive_nonzero : (n : ℤ) → is_positive n ≡ true → same_size n (pos 0) ≡ false
positive_nonzero (pos n) h = ground arith
positive_nonzero (negsuc n) h = refl

-- The cluster as a reconciler sees it: what it holds of templates and pools, what the cache has of
-- them, and that a write of one kind of object changes no other.
pub record IsApi {W : Type 0} (R : Reconciler W)
    (template : W → String → String → Option SandboxTemplate)
    (pool : W → String → String → Option SandboxWarmPool)
    (cached_template : W → String → String → Option SandboxTemplate)
    (cached_pool : W → String → String → Option SandboxWarmPool) : Type 0 where
  pub templates : IsCrud R.templates template cached_template (λ t. t.namespace) (λ t. t.name)
  pub pools : IsCrud R.pools pool cached_pool (λ p. p.namespace) (λ p. p.name)
  pub pools-keep : (ns n : String) → IsFrame R.pools (λ w. template w ns n)
  pub templates-keep : (ns n : String) → IsFrame R.templates (λ w. pool w ns n)
  pub get-same : (ns n : String) (w : W) → (R.get ns n w).1 ≡ w
  pub status-template :
      (ci : CodeInterpreter) (ns n : String) (w : W)
      → template (R.update_status ci w).1 ns n ≡ template w ns n
  pub status-pool :
      (ci : CodeInterpreter) (ns n : String) (w : W)
      → pool (R.update_status ci w).1 ns n ≡ pool w ns n
  pub deep_equal-self : (s : PodSpec) → R.deep_equal s s ≡ true

module _ {W : Type 0} (R : Reconciler W) (key : String)
    (template : W → String → String → Option SandboxTemplate)
    (pool : W → String → String → Option SandboxWarmPool) where
  -- The template runs what the interpreter specifies.
  pub record IsTemplateOf (ci : CodeInterpreter) (t : SandboxTemplate) : Type 0 where
    pub same_pod :
        R.deep_equal t.pod_template.spec (convert_to_pod_template key ci.spec).spec ≡ true
    pub unmanaged : t.network_policy_management ≡ network_policy_unmanaged

  pub record IsPoolOf (ci : CodeInterpreter) (size : ℤ) (p : SandboxWarmPool) : Type 0 where
    pub replicas : p.replicas ≡ size
    pub template_name : p.template_name ≡ ci.name

  module _ (cached_template : W → String → String → Option SandboxTemplate)
      (cached_pool : W → String → String → Option SandboxWarmPool)
      (L : IsApi R template pool cached_template cached_pool) where
    -- What a reconciliation that begins in one world leaves in another: a template as specified, and a
    -- pool of the size that uses it, the pool being read once the template is there.
    abbrev pub IsPooled : CodeInterpreter → ℤ → W → W → Type 0
    IsPooled ci size w w' =
        let u = (ensure_sandbox_template R key ci w).1 in
        let ns = ci.namespace in
        IsEnsured (IsTemplateOf ci) (cached_template w ns ci.name) (template w ns ci.name)
          (template w' ns ci.name)
        × IsEnsured (IsPoolOf ci size) (cached_pool u ns ci.name) (pool u ns ci.name)
            (pool w' ns ci.name)

    -- Neither of the two, the template being read once the pool is gone.
    abbrev pub IsUnpooled : CodeInterpreter → W → W → Type 0
    IsUnpooled ci w w' =
        let u = (delete_sandbox_warm_pool R key ci w).1 in
        let ns = ci.namespace in
        IsRemoved (cached_pool w ns ci.name) (pool w ns ci.name) (pool w' ns ci.name)
        × IsRemoved (cached_template u ns ci.name) (template u ns ci.name) (template w' ns ci.name)

    fresh-IsTemplateOf :
        (ci : CodeInterpreter) (o : OwnerReference) → IsTemplateOf ci (new_template R key ci o)
    unfolding new_template
    fresh-IsTemplateOf ci o = record {
      same_pod = L.deep_equal-self (convert_to_pod_template key ci.spec).spec;
      unmanaged = refl;
    }

    updated-IsTemplateOf :
        (ci : CodeInterpreter) (t : SandboxTemplate) → IsTemplateOf ci (updated_template R key ci t)
    unfolding updated_template
    updated-IsTemplateOf ci t =
        let self = L.deep_equal-self (convert_to_pod_template key ci.spec).spec in
        record { same_pod = ground (arith, self); unmanaged = refl }

    same-IsTemplateOf :
        (ci : CodeInterpreter) (t : SandboxTemplate)
        → template_differs R key ci t ≡ false
        → IsTemplateOf ci t
    unfolding template_differs
    same-IsTemplateOf ci t h = record { same_pod = ground arith; unmanaged = ground arith }

    same-IsPoolOf :
        (ci : CodeInterpreter) (size : ℤ) (p : SandboxWarmPool)
        → pool_differs R key ci size p ≡ false
        → IsPoolOf ci size p
    unfolding pool_differs
    same-IsPoolOf ci size p h = record {
      replicas = same_size-eq p.replicas size (ground arith);
      template_name = ground arith;
    }

    ensure_sandbox_template_ok :
        (ci : CodeInterpreter) (w : W)
        → (ensure_sandbox_template R key ci w).0 ≡ ok 0
        → IsEnsured
            (IsTemplateOf ci)
            (cached_template w ci.namespace ci.name)
            (template w ci.namespace ci.name)
            (template (ensure_sandbox_template R key ci w).1 ci.namespace ci.name)
    unfolding ensure_sandbox_template new_template updated_template
    ensure_sandbox_template_ok ci w h =
        elim (Bool-cases (not (ci.spec.auth_mode == auth_mode_none) && key == "")) [
          | inl e ↦ absurd (ground arith)
          | inr e ↦
              let E =
                ensure R.templates ci.namespace ci.name (R.set_controller_reference ci)
                  (new_template R key ci) (template_differs R key ci) (updated_template R key ci)
                  w in
              elim (Result-cases E.0) [
                | inr (x, f) ↦ absurd (ground arith)
                | inl (_, f) ↦
                    let same : (ensure_sandbox_template R key ci w).1 ≡ E.1 = ground arith in
                    rw same (
                      ensure_ok R.templates template cached_template (λ t. t.namespace)
                        (λ t. t.name) L.templates (IsTemplateOf ci) ci.namespace ci.name
                        (R.set_controller_reference ci) (new_template R key ci)
                        (template_differs R key ci) (updated_template R key ci) w
                        (λ o. (refl, refl)) (λ a. (refl, refl)) (fresh-IsTemplateOf ci)
                        (updated-IsTemplateOf ci) (same-IsTemplateOf ci) f)
              ]
        ]

    ensure_sandbox_warm_pool_ok :
        (ci : CodeInterpreter) (size : ℤ) (w : W)
        → ci.spec.warm_pool_size ≡ some size
        → is_positive size ≡ true
        → (ensure_sandbox_warm_pool R key ci w).0 ≡ ok tt
        → IsEnsured
            (IsPoolOf ci size)
            (cached_pool w ci.namespace ci.name)
            (pool w ci.namespace ci.name)
            (pool (ensure_sandbox_warm_pool R key ci w).1 ci.namespace ci.name)
    unfolding ensure_sandbox_warm_pool new_pool updated_pool
    ensure_sandbox_warm_pool_ok ci size w wanted positive h =
        let nonzero : same_size size (pos 0) ≡ false = positive_nonzero size positive in
        let E =
          ensure R.pools ci.namespace ci.name (R.set_controller_reference ci)
            (new_pool R key ci size) (pool_differs R key ci size) (updated_pool R key ci size) w in
        let same : (ensure_sandbox_warm_pool R key ci w).1 ≡ E.1 = ground arith in
        rw same (
          ensure_ok R.pools pool cached_pool (λ p. p.namespace) (λ p. p.name) L.pools
            (IsPoolOf ci size) ci.namespace ci.name (R.set_controller_reference ci)
            (new_pool R key ci size) (pool_differs R key ci size) (updated_pool R key ci size) w
            (λ o. (refl, refl)) (λ a. (refl, refl))
            (λ o. record { replicas = refl; template_name = refl })
            (λ p. record { replicas = refl; template_name = refl }) (same-IsPoolOf ci size)
            (ground arith))

    pool-template :
        (ci : CodeInterpreter) (w : W)
        → template (ensure_sandbox_warm_pool R key ci w).1 ci.namespace ci.name
          ≡ template w ci.namespace ci.name
    unfolding ensure_sandbox_warm_pool
    pool-template ci w = elim (Option-cases ci.spec.warm_pool_size) [
      | inl e ↦ ground arith
      | inr (size, e) ↦
          let kept =
            ensure-other R.pools (λ w. template w ci.namespace ci.name)
              (L.pools-keep ci.namespace ci.name) ci.namespace ci.name
              (R.set_controller_reference ci) (new_pool R key ci size) (pool_differs R key ci size)
              (updated_pool R key ci size) w in
          elim (Bool-cases (same_size size (pos 0))) [
            | inl z ↦ ground arith
            | inr z ↦ ground (arith, kept)
          ]
    ]

    pub manage-IsPooled :
        (ci : CodeInterpreter) (size : ℤ) (w : W)
        → ci.spec.warm_pool_size ≡ some size
        → is_positive size ≡ true
        → (manage R key ci w).0 ≡ ok 0
        → IsPooled ci size w (manage R key ci w).1
    unfolding manage
    manage-IsPooled ci size w wanted positive h =
        let wants : wants_pool ci.spec ≡ true = ground arith in
        let u = (ensure_sandbox_template R key ci w).1 in
        let done : (ensure_sandbox_template R key ci w).0 ≡ ok 0 = ground arith in
        let same : (manage R key ci w).1 ≡ (ensure_sandbox_warm_pool R key ci u).1 = ground arith in
        rw (same, pool-template ci u)
          (
            ensure_sandbox_template_ok ci w done,
            ensure_sandbox_warm_pool_ok ci size u wanted positive (ground arith),
          )

    pub manage-IsUnpooled :
        (ci : CodeInterpreter) (w : W)
        → wants_pool ci.spec ≡ false
        → (manage R key ci w).0 ≡ ok 0
        → IsUnpooled ci w (manage R key ci w).1
    unfolding manage delete_sandbox_warm_pool delete_sandbox_template
    manage-IsUnpooled ci w unwanted h =
        let d = remove R.pools ci.namespace ci.name w in
        let first : d.0 ≡ ok tt = ground arith in
        let second : (remove R.templates ci.namespace ci.name d.1).0 ≡ ok tt = ground arith in
        let same : (manage R key ci w).1 ≡ (remove R.templates ci.namespace ci.name d.1).1 =
          ground arith in
        let kept =
          remove-other R.templates (λ w. pool w ci.namespace ci.name)
            (L.templates-keep ci.namespace ci.name) ci.namespace ci.name d.1 in
        rw (same, kept)
          (
            remove_ok R.pools pool cached_pool (λ p. p.namespace) (λ p. p.name) L.pools ci.namespace
                ci.name w first,
            remove_ok R.templates template cached_template (λ t. t.namespace) (λ t. t.name)
                L.templates ci.namespace ci.name d.1 second,
          )
