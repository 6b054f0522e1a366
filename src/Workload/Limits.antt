-- ===== src/Workload/Limits.antt =====
-- The pods and the times that pkg/workloadmanager/workload_builder.go gives a session.
use agentcube.Prelude.{
  ℕ, ◌+◌, pos, String, ◌≡◌, refl, ◌&&◌, ◌≢◌, none, some, List, [], ◌∷◌, ◌++◌, arith, ◌==◌, ==_self,
  if◌then◌else◌, eqb, not,
}
use agentcube.Prelude.Lists.{Distinct}
use agentcube.Prelude.Dict.{keys, lookup, insert, copy, lookup-insert, lookup-nil}
use agentcube.Errors.{ok, IfOk-ok, IfOk-if, IfOk-split}
use agentcube.Time.{Time}
use agentcube.Cluster.{Sandbox}
use agentcube.Cluster.Pod.{EnvVar, Container}
use agentcube.Creation.Answers.{Built}
use agentcube.Creation.Build.{build_sandbox_place_holder, default_sandbox_ttl}
use agentcube.Workload.{CodeInterpreter, auth_mode_picod}
use agentcube.Workload.Objects.{
  Texts, BuildSandboxParams, build_sandbox_object, session_labels, session_id_label_key,
  sandbox_name_label_key, lookup-copy,
}
use agentcube.Workload.Builders.{
  Fresh, build_sandbox_by_code_interpreter, build_pooled, build_direct, direct_params,
  simple_sandbox, build_code_interpreter_env_vars, code_interpreter_pod_spec, wants_pool,
}

-- The pod of a session has the session's identifier and the sandbox's name as labels, whatever the
-- template says of these two, and every other label as the template says it.
pub build_sandbox_object-labels :
    (X : Texts) (now : Time) (p : BuildSandboxParams) (k : String)
    → Distinct (keys p.pod_labels)
    → lookup k (build_sandbox_object X now p).pod_template.labels ≡ (
        if sandbox_name_label_key == k
        then some p.sandbox_name
        else if session_id_label_key == k
        then some p.session_id
        else lookup k p.pod_labels)
unfolding build_sandbox_object session_labels
build_sandbox_object-labels X now p k d =
    let template = copy p.pod_labels [] in
    let session = insert session_id_label_key p.session_id template in
    ground (
      arith,
      lookup-insert sandbox_name_label_key k p.sandbox_name session,
      lookup-insert session_id_label_key k p.session_id template,
      lookup-copy k p.pod_labels [] d,
      lookup-nil {V = String} k,
    )

-- The end of a session that is being created, counted from the time of its build: after the maximal
-- duration if one is set that is positive, on both paths. A duration of 0 means eight hours without a
-- warm pool, and an end at once with one.
pub expires_at-build :
    (X : Texts) (F : Fresh) (key namespace name owner_id : String) (r : CodeInterpreter) (b : Built)
    (now : Time) (d : ℕ)
    → build_sandbox_by_code_interpreter X F key namespace name owner_id (ok r) ≡ ok b
    → r.spec.max_session_duration ≡ some (pos d)
    → (build_sandbox_place_holder now b.0 b.2).expires_at
      ≡ F.now + (if eqb d 0 && not (wants_pool r.spec) then default_sandbox_ttl else d)
unfolding build_sandbox_by_code_interpreter build_pooled build_direct direct_params simple_sandbox
    build_sandbox_object build_sandbox_place_holder
expires_at-build X F key namespace name owner_id r b now d h m =
    let P : Built → Type 0 = λ b.
      (build_sandbox_place_holder now b.0 b.2).expires_at
      ≡ F.now + (if eqb d 0 && not (wants_pool r.spec) then default_sandbox_ttl else d) in
    IfOk-ok P (build_sandbox_by_code_interpreter X F key namespace name owner_id (ok r)) b
      (IfOk-if P (r.spec.auth_mode == auth_mode_picod && key == "") _ _ tt (
        IfOk-split P (wants_pool r.spec) _ _ (λ pool. rw (pool, m) (ground arith))
          (λ direct. rw (direct, m) (ground arith))))
      h

-- A sandbox that authenticates its caller is created with a key to verify it by.
abbrev pub HasKey : String → Sandbox → Type 0
HasKey key s =
    (c : Container) × (before : List EnvVar) × (s.pod_template.spec.containers ≡ c ∷ [])
    × (c.env ≡ before ++ (record { name = "PICOD_AUTH_PUBLIC_KEY"; value = key } ∷ []))

pub build_direct-HasKey :
    (X : Texts) (F : Fresh) (key namespace name owner_id : String) (r : CodeInterpreter) (b : Built)
    → build_sandbox_by_code_interpreter X F key namespace name owner_id (ok r) ≡ ok b
    → r.spec.auth_mode ≡ auth_mode_picod
    → (key ≢ "") × (b.1 ≡ none → HasKey key b.0)
unfolding build_sandbox_by_code_interpreter build_pooled build_direct direct_params
    build_sandbox_object code_interpreter_pod_spec build_code_interpreter_env_vars
build_direct-HasKey X F key namespace name owner_id r b h m =
    let P : Built → Type 0 = λ b. (key ≢ "") × (b.1 ≡ none → HasKey key b.0) in
    IfOk-ok P (build_sandbox_by_code_interpreter X F key namespace name owner_id (ok r)) b
      (IfOk-split P (r.spec.auth_mode == auth_mode_picod && key == "") _ _ (λ _. tt)
        (λ cached.
          IfOk-if P (wants_pool r.spec) _ _ (λ e. absurd (ground arith), λ n. absurd (ground arith))
            (
              λ e. absurd (ground arith),
              λ _. (_, r.spec.template.environment, refl, rw (m, ==_self auth_mode_picod) refl),
            )))
      h
