-- ===== src/Creation/Pods.antt =====
-- `GetSandboxPodIP` of pkg/workloadmanager/k8s_client.go: the address of the pod of a sandbox. The pods
-- are read from the API server by name, or from the informer's lister by label.
use agentcube.Prelude.{
  String, ◌≡◌, Bool, true, false, not, ◌&&◌, Option, none, some, List, [], ◌∷◌, ◌==◌, if◌then◌else◌,
  arith, Bool-cases, Option-cases, inl, inr, ◌⊎◌, subst,
}
use agentcube.Errors.{message, wrap, Result, ok, err, Try, Result-cases}

pub record PodOwner : Type 0 where
  pub kind : String
  pub name : String
  pub controller : Option Bool

pub record Pod : Type 0 where
  pub name : String
  pub owner_references : List PodOwner
  pub phase : String
  pub pod_ip : String

unfoldable pub validate_and_get_pod_ip : Pod → Result String
validate_and_get_pod_ip pod =
    if not (pod.phase == "Running")
    then err (message "pod not running yet")
    else if pod.pod_ip == ""
    then err (message "pod IP not assigned yet")
    else ok pod.pod_ip

-- A reference whose `Controller` is nil counts as the controller's.
abbrev pub owns : String → PodOwner → Bool
owns sandbox_name r =
    r.kind == "Sandbox"
    && r.name == sandbox_name
    && (elim r.controller [ none ↦ true | some b ↦ b ])

unfoldable pub owned_by : String → List PodOwner → Bool
owned_by sandbox_name [] = false
owned_by sandbox_name (r ∷ refs) =
    let rest = owned_by sandbox_name refs in if owns sandbox_name r then true else rest

-- The first pod of the list that the sandbox owns.
unfoldable pub first_owned : String → List Pod → Option Pod
first_owned sandbox_name [] = none
first_owned sandbox_name (pod ∷ pods) =
    let rest = first_owned sandbox_name pods in
    if owned_by sandbox_name pod.owner_references then some pod else rest

-- Whether a pod is one of a list.
pub data Among (p : Pod) : List Pod → Type 0 where
  here : {pods : List Pod} → Among p (p ∷ pods)
  there : {q : Pod} {pods : List Pod} → Among p pods → Among p (q ∷ pods)

-- `get_pod` reads a pod of the namespace by name, and `list_pods` those with the sandbox's label.
module _ {W : Type 0} (get_pod : String → String → Try W Pod)
    (list_pods : String → String → Try W (List Pod)) where
  unfoldable pub get_sandbox_pod_ip : String → String → String → Try W String
  get_sandbox_pod_ip namespace sandbox_name pod_name w =
      let g = get_pod namespace pod_name w in
      let l = list_pods namespace sandbox_name w in
      if pod_name == ""
      then elim l.0 [
        | err e ↦ (err (wrap e), l.1)
        | ok pods ↦ elim (first_owned sandbox_name pods) [
          | none ↦ (err (message "no pod found for sandbox"), l.1)
          | some pod ↦ (validate_and_get_pod_ip pod, l.1)
        ]
      ]
      else elim g.0 [ err e ↦ (err (wrap e), g.1) | ok pod ↦ (validate_and_get_pod_ip pod, g.1) ]

  first_owned-Among :
      (sandbox_name : String) (pods : List Pod) (p : Pod)
      → first_owned sandbox_name pods ≡ some p
      → Among p pods × (owned_by sandbox_name p.owner_references ≡ true)
  unfolding first_owned
  first_owned-Among sandbox_name [] p h = absurd (ground arith)
  first_owned-Among sandbox_name (q ∷ pods) p h =
      elim (Bool-cases (owned_by sandbox_name q.owner_references)) [
        | inl e ↦
            let same : q ≡ p = ground arith in
            (
              subst (λ x. Among x (q ∷ pods)) same here,
              subst (λ x. owned_by sandbox_name x.owner_references ≡ true) same e,
            )
        | inr e ↦
            let (among, owned) = first_owned-Among sandbox_name pods p (ground arith) in
            (there among, owned)
      ]

  abbrev IsAddress : Pod → String → Type 0
  IsAddress p ip = (p.phase ≡ "Running") × (p.pod_ip ≡ ip) × ((ip == "") ≡ false)

  validate-IsAddress : (p : Pod) (ip : String) → validate_and_get_pod_ip p ≡ ok ip → IsAddress p ip
  unfolding validate_and_get_pod_ip
  validate-IsAddress p ip h = (ground arith, ground arith, ground arith)

  -- An address that is returned is the assigned address of a running pod: of the pod that the sandbox
  -- names, or, where it names none, of a pod with the sandbox's label that the sandbox controls.
  get_sandbox_pod_ip_running :
      (namespace sandbox_name pod_name : String) (w : W) (ip : String)
      → (get_sandbox_pod_ip namespace sandbox_name pod_name w).0 ≡ ok ip
      → (p : Pod) × (p.phase ≡ "Running")
        × (p.pod_ip ≡ ip)
        × ((ip == "") ≡ false)
        × (((pod_name == "") ≡ false) × ((get_pod namespace pod_name w).0 ≡ ok p)
            ⊎ (pods : List Pod) × ((pod_name == "") ≡ true)
              × ((list_pods namespace sandbox_name w).0 ≡ ok pods)
              × Among p pods
              × (owned_by sandbox_name p.owner_references ≡ true))
  unfolding get_sandbox_pod_ip
  get_sandbox_pod_ip_running namespace sandbox_name pod_name w ip h =
      elim (Bool-cases (pod_name == "")) [
        | inr e ↦ elim (Result-cases (get_pod namespace pod_name w).0) [
          | inr (x, f) ↦ absurd (ground arith)
          | inl (p, f) ↦
              let (a, b, c) = validate-IsAddress p ip (ground arith) in (p, a, b, c, inl (e, f))
        ]
        | inl e ↦ elim (Result-cases (list_pods namespace sandbox_name w).0) [
          | inr (x, f) ↦ absurd (ground arith)
          | inl (pods, f) ↦ elim (Option-cases (first_owned sandbox_name pods)) [
            | inl g ↦ absurd (ground arith)
            | inr (p, g) ↦
                let (a, b, c) = validate-IsAddress p ip (ground arith) in
                let (among, owned) = first_owned-Among sandbox_name pods p g in
                (p, a, b, c, inr (pods, e, f, among, owned))
          ]
        ]
      ]
