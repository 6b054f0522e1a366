-- ===== src/Controller.antt =====
-- pkg/workloadmanager/codeinterpreter_controller.go: the reconciliation of a code interpreter with its
-- template and its warm pool. A world `W` holds the cluster; `SetControllerReference`, the status
-- conditions of apimachinery and `reflect.DeepEqual` are parameters. The schema of the API requires a
-- template, so the check for one that is missing is not modelled.
pub mod Objects
pub mod Pool
pub mod Converged
use agentcube.Prelude.{
  ℕ, String, ℤ, pos, negsuc, eqb, Bool, true, false, not, ◌&&◌, ◌||◌, Option, none, some, List, [],
  ◌∷◌, ◌++◌, ◌==◌, if◌then◌else◌,
}
use agentcube.Errors.{Error, wrap, is_not_found, Result, ok, err, Try, or_fail, ◌>>=◌, ◌>>◌, return}
use agentcube.Cluster.{OwnerReference}
use agentcube.Cluster.Pod.{PodSpec, PodTemplate, EnvVar}
use agentcube.Workload.{CodeInterpreter, CodeInterpreterSpec, StatusCondition, auth_mode_none}
use agentcube.Workload.Builders.{wants_pool, runtime_class}
use Objects.{Crud, ensure, remove}

pub record SandboxTemplate : Type 0 where
  pub name : String
  pub namespace : String
  pub owner : OwnerReference
  pub pod_template : PodTemplate
  pub network_policy_management : String

pub record SandboxWarmPool : Type 0 where
  pub name : String
  pub namespace : String
  pub owner : OwnerReference
  pub replicas : ℤ
  pub template_name : String

abbrev pub network_policy_unmanaged : String
network_policy_unmanaged = "Unmanaged"

-- What is reconciled with: the API server, `meta.FindStatusCondition` and `SetStatusCondition`.
pub record Reconciler (W : Type 0) : Type 0 where
  pub get : String → String → Try W CodeInterpreter
  pub update_status : CodeInterpreter → Try W (Unit {0})
  pub templates : Crud W SandboxTemplate
  pub pools : Crud W SandboxWarmPool
  pub set_controller_reference : CodeInterpreter → Result OwnerReference
  pub find_status_condition : List StatusCondition → String → Option StatusCondition
  pub set_status_condition : List StatusCondition → StatusCondition → List StatusCondition
  pub deep_equal : PodSpec → PodSpec → Bool

-- `key` is the cached public key. The template's labels and annotations are not taken over.
unfoldable pub convert_to_pod_template : String → CodeInterpreterSpec → PodTemplate
convert_to_pod_template key spec = record {
  spec = record {
    image_pull_secrets = spec.template.image_pull_secrets;
    runtime_class_name = runtime_class spec.template.runtime_class_name;
    containers =
        record {
          name = "codeinterpreter";
          image = spec.template.image;
          image_pull_policy = spec.template.image_pull_policy;
          env =
              if spec.auth_mode == auth_mode_none
              then spec.template.environment
              else spec.template.environment
                ++ (record { name = "PICOD_AUTH_PUBLIC_KEY"; value = key } ∷ []);
          command = spec.template.command;
          args = spec.template.args;
          resources = spec.template.resources;
        }
        ∷ [];
  };
  labels = [];
  annotations = [];
}

abbrev pub same_size : ℤ → ℤ → Bool
same_size (pos m) (pos n) = eqb m n
same_size (negsuc m) (negsuc n) = eqb m n
same_size _ _ = false

module _ {W : Type 0} (R : Reconciler W) (key : String) where
  -- The object that is created, and what of an existing one is to be changed.
  unfoldable pub new_template : CodeInterpreter → OwnerReference → SandboxTemplate
  new_template ci owner = record {
    name = ci.name;
    namespace = ci.namespace;
    owner = owner;
    pod_template = convert_to_pod_template key ci.spec;
    network_policy_management = network_policy_unmanaged;
  }

  abbrev pub pod_template_equal : PodTemplate → PodTemplate → Bool
  pod_template_equal a b = R.deep_equal a.spec b.spec

  unfoldable pub template_differs : CodeInterpreter → SandboxTemplate → Bool
  template_differs ci t =
      not (pod_template_equal t.pod_template (convert_to_pod_template key ci.spec))
      || not (t.network_policy_management == network_policy_unmanaged)

  unfoldable pub updated_template : CodeInterpreter → SandboxTemplate → SandboxTemplate
  updated_template ci t = record t {
    pod_template =
        if pod_template_equal t.pod_template (convert_to_pod_template key ci.spec)
        then t.pod_template
        else convert_to_pod_template key ci.spec;
    network_policy_management = network_policy_unmanaged;
  }

  -- The time after which to try again, 0 if there is no need.
  unfoldable pub ensure_sandbox_template : CodeInterpreter → Try W ℕ
  ensure_sandbox_template ci w =
      if not (ci.spec.auth_mode == auth_mode_none) && key == ""
      then (ok 5_000_000_000, w)
      else (ensure R.templates ci.namespace ci.name (R.set_controller_reference ci)
              (new_template ci) (template_differs ci) (updated_template ci)
            >> return 0)
          w

  unfoldable pub new_pool : CodeInterpreter → ℤ → OwnerReference → SandboxWarmPool
  new_pool ci size owner = record {
    name = ci.name;
    namespace = ci.namespace;
    owner = owner;
    replicas = size;
    template_name = ci.name;
  }

  unfoldable pub pool_differs : CodeInterpreter → ℤ → SandboxWarmPool → Bool
  pool_differs ci size p = not (same_size p.replicas size) || not (p.template_name == ci.name)

  unfoldable pub updated_pool : CodeInterpreter → ℤ → SandboxWarmPool → SandboxWarmPool
  updated_pool ci size p = record p { replicas = size; template_name = ci.name }

  unfoldable pub ensure_sandbox_warm_pool : CodeInterpreter → Try W (Unit {0})
  ensure_sandbox_warm_pool ci w = elim ci.spec.warm_pool_size [
    | none ↦ (ok tt, w)
    | some size ↦
        if same_size size (pos 0)
        then (ok tt, w)
        else ensure R.pools ci.namespace ci.name (R.set_controller_reference ci) (new_pool ci size)
            (pool_differs ci size) (updated_pool ci size) w
  ]

  unfoldable pub delete_sandbox_warm_pool : CodeInterpreter → Try W (Unit {0})
  delete_sandbox_warm_pool ci = remove R.pools ci.namespace ci.name

  unfoldable pub delete_sandbox_template : CodeInterpreter → Try W (Unit {0})
  delete_sandbox_template ci = remove R.templates ci.namespace ci.name

  abbrev pub is_up_to_date : ℕ → Option StatusCondition → Bool
  is_up_to_date generation none = false
  is_up_to_date generation (some c) = c.status == "True" && eqb c.observed_generation generation

  abbrev pub ready_condition : CodeInterpreter → StatusCondition
  ready_condition ci = record {
    type = "Ready";
    status = "True";
    observed_generation = ci.generation;
  }

  unfoldable pub update_status : CodeInterpreter → Try W (Unit {0})
  update_status ci w =
      if ci.ready && is_up_to_date ci.generation (R.find_status_condition ci.conditions "Ready")
      then (ok tt, w)
      else R.update_status
          (record ci {
            ready = true;
            conditions = R.set_status_condition ci.conditions (ready_condition ci);
          })
          w

  -- The template and the pool of an interpreter: the time to wait, or 0 when they are as they should.
  unfoldable pub manage : CodeInterpreter → Try W ℕ
  manage ci w =
      let t = ensure_sandbox_template ci w in
      let p = ensure_sandbox_warm_pool ci t.1 in
      let d = delete_sandbox_warm_pool ci w in
      let e = delete_sandbox_template ci d.1 in
      if wants_pool ci.spec
      then elim t.0 [
        | err x ↦ (err x, t.1)
        | ok n ↦ if eqb n 0 then (elim p.0 [ ok _ ↦ ok 0 | err x ↦ err x ], p.1) else (ok n, t.1)
      ]
      else elim d.0 [
        | err x ↦ (err x, d.1)
        | ok _ ↦ (elim e.0 [ ok _ ↦ ok 0 | err x ↦ err x ], e.1)
      ]

  -- `Reconcile`: the time after which to try again.
  unfoldable pub reconcile : String → String → Try W ℕ
  reconcile namespace name w =
      let g = R.get namespace name w in
      elim g.0 [
        | err e ↦ (if is_not_found e then ok 0 else err e, g.1)
        | ok ci ↦
            let m = manage ci g.1 in
            let u = update_status ci m.1 in
            elim m.0 [
              | err e ↦ (err e, m.1)
              | ok n ↦
                  if eqb n 0 then (elim u.0 [ ok _ ↦ ok 0 | err x ↦ err x ], u.1) else (ok n, m.1)
            ]
      ]
