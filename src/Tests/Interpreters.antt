-- ===== src/Tests/Interpreters.antt =====
-- The theorems about the reconciliation of code interpreters in a small cluster.
use agentcube.Prelude.{
  String, pos, ◌≡◌, refl, true, false, not, ◌&&◌, Option, none, some, [], ◌∷◌, ◌==◌,
  string_discrete,
}
use agentcube.Errors.{ok, is_not_found}
use agentcube.Cluster.{OwnerReference}
use agentcube.Workload.{CodeInterpreter, auth_mode_none}
use agentcube.Controller.{
  Reconciler, SandboxTemplate, SandboxWarmPool, reconcile, manage, ensure_sandbox_template,
  ensure_sandbox_warm_pool, delete_sandbox_warm_pool, delete_sandbox_template, update_status,
  new_template, new_pool, is_up_to_date,
}
use agentcube.Controller.Objects.{ensure, remove}
use agentcube.Controller.Pool.{IsApi, IsTemplateOf, IsPoolOf}
use agentcube.Controller.Converged.{reconcile_converged}
use agentcube.Tests.Cells.{cells, held, cells-IsCrud, cells-IsFrame}
use agentcube.Tests.Workloads.{interpreter, pooled}

pub record Cells : Type 0 where
  pub template : Option SandboxTemplate
  pub pool : Option SandboxWarmPool

abbrev owner : OwnerReference
owner = record { kind = "CodeInterpreter"; name = "py"; uid = "u" }

abbrev put_template : Option SandboxTemplate → Cells → Cells
put_template o w = record w { template = o }

abbrev put_pool : Option SandboxWarmPool → Cells → Cells
put_pool o w = record w { pool = o }

abbrev template_at : Cells → String → String → Option SandboxTemplate
template_at = held (λ w. w.template) put_template (λ t. t.namespace) (λ t. t.name) (λ o w. refl)

abbrev pool_at : Cells → String → String → Option SandboxWarmPool
pool_at = held (λ w. w.pool) put_pool (λ p. p.namespace) (λ p. p.name) (λ o w. refl)

-- A cluster in which there is one interpreter.
abbrev reconciler : CodeInterpreter → Reconciler Cells
reconciler ci = record {
  get = λ ns n w. (ok ci, w);
  update_status = λ ci w. (ok tt, w);
  templates = cells (λ w. w.template) put_template (λ t. t.namespace) (λ t. t.name) (λ o w. refl);
  pools = cells (λ w. w.pool) put_pool (λ p. p.namespace) (λ p. p.name) (λ o w. refl);
  set_controller_reference = λ ci. ok owner;
  find_status_condition = λ conditions type. elim conditions [ [] ↦ none | (c ∷ _) ↦ some c ];
  set_status_condition = λ conditions c. c ∷ [];
  deep_equal = λ a b. true;
}

api : (ci : CodeInterpreter) → IsApi (reconciler ci) template_at pool_at template_at pool_at
unfolding cells held
api ci = record {
  templates =
      cells-IsCrud (λ w. w.template) put_template (λ t. t.namespace) (λ t. t.name) (λ o w. refl);
  pools = cells-IsCrud (λ w. w.pool) put_pool (λ p. p.namespace) (λ p. p.name) (λ o w. refl);
  pools-keep = λ ns n.
      cells-IsFrame (λ w. w.pool) put_pool (λ p. p.namespace) (λ p. p.name) (λ o w. refl)
        (λ w. template_at w ns n) (λ o w. refl);
  templates-keep = λ ns n.
      cells-IsFrame (λ w. w.template) put_template (λ t. t.namespace) (λ t. t.name) (λ o w. refl)
        (λ w. pool_at w ns n) (λ o w. refl);
  get-same = λ ns n w. refl;
  status-template = λ ci ns n w. refl;
  status-pool = λ ci ns n w. refl;
  deep_equal-self = λ s. refl;
}

abbrev nothing : Cells
nothing = record { template = none; pool = none }

abbrev after : Cells
after = (reconcile (reconciler pooled) "pem" "ns" "py" nothing).1

-- The same interpreter with no pool any more.
removed : (reconcile (reconciler interpreter) "pem" "ns" "py" after).0 ≡ ok 0
unfolding reconcile manage delete_sandbox_warm_pool remove cells held ensure_sandbox_template
    string_discrete ensure is_not_found ensure_sandbox_warm_pool update_status new_pool
    delete_sandbox_template new_template
removed = refl

-- The interpreter and the objects as a reconciliation leaves them.
abbrev settled : CodeInterpreter
settled = record pooled {
  ready = true;
  conditions = record { type = "Ready"; status = "True"; observed_generation = 1 } ∷ [];
}

abbrev template : SandboxTemplate
template = new_template (reconciler settled) "pem" settled owner

abbrev pool : SandboxWarmPool
pool = new_pool (reconciler settled) "pem" settled (pos 2) owner

abbrev steady : Cells
steady = record { template = some template; pool = some pool }

has_template : ((reconciler settled).templates.get "ns" "py" steady).0 ≡ ok template
unfolding cells held string_discrete new_template
has_template = refl

has_pool : ((reconciler settled).pools.get "ns" "py" steady).0 ≡ ok pool
unfolding cells held string_discrete new_pool
has_pool = refl

good_template : IsTemplateOf (reconciler settled) "pem" template_at pool_at settled template
unfolding new_template
good_template = record { same_pod = refl; unmanaged = refl }

good_pool : IsPoolOf (reconciler settled) "pem" template_at pool_at settled (pos 2) pool
unfolding new_pool
good_pool = record { replicas = refl; template_name = refl }

cached : (not (settled.spec.auth_mode == auth_mode_none) && "pem" == "") ≡ false
unfolding string_discrete
cached = refl

current :
    (settled.ready
      && is_up_to_date
          (reconciler settled)
          "pem"
          settled.generation
          ((reconciler settled).find_status_condition settled.conditions "Ready"))
    ≡ true
unfolding string_discrete
current = refl

reconcile_converged_example :
    ((reconcile (reconciler settled) "pem" "ns" "py" steady).0 ≡ ok 0)
    × ((reconcile (reconciler settled) "pem" "ns" "py" steady).1 ≡ steady)
reconcile_converged_example =
    reconcile_converged (reconciler settled) "pem" template_at pool_at template_at pool_at
      (api settled) "ns" "py" steady settled (pos 2) template pool refl refl refl cached
      has_template good_template has_pool good_pool current
