-- ===== src/Tests/Workloads.antt =====
-- The theorems about the builders of sandboxes at two small code interpreters.
use agentcube.Prelude.{
  ℕ, suc, ◌+◌, ◌≡◌, refl, false, String, none, some, [], ◌∷◌, pos, string_discrete,
}
use agentcube.Prelude.Dict.{Dict, lookup}
use agentcube.Errors.{status, not_found, message, Result, ok, err}
use agentcube.Types.{CreateSandboxRequest}
use agentcube.Creation.{store_cache_info}
use agentcube.Creation.Answers.{Built}
use agentcube.Creation.Build.{SandboxEntry, build_sandbox_place_holder}
use agentcube.Creation.Deletion.{resource_of}
use agentcube.Creation.Rollback.{made}
use agentcube.Workload.{CodeInterpreter, CodeInterpreterSpec}
use agentcube.Workload.Objects.{Texts, BuildSandboxParams, session_id_label_key}
use agentcube.Workload.Builders.{
  Fresh, Informers, build, build_sandbox_by_code_interpreter, build_pooled, build_direct,
  direct_params,
}
use agentcube.Workload.Created.{IsCoherent, build-IsCoherent, record_designates}
use agentcube.Workload.Limits.{expires_at-build}
use agentcube.Workload.KeyCache.{load_public_key_from_secret, attempt}
use agentcube.Tests.World.{info, store, cluster, waits}

abbrev texts : Texts
texts = record { sha256_hex = λ s. s; duration_text = λ d. "15m0s" }

abbrev fresh : Fresh
fresh = record { session_id = "s1"; suffix = "abcdefgh"; now = 100 }

abbrev spec : CodeInterpreterSpec
spec = record {
  ports = [];
  template = record {
    labels = (session_id_label_key, "forged") ∷ ("app", "py") ∷ [];
    annotations = [];
    runtime_class_name = some "";
    image = "python";
    image_pull_policy = "Always";
    image_pull_secrets = [];
    environment = [];
    command = [];
    args = [];
    resources = record { limits = []; requests = [] };
  };
  session_timeout = none;
  max_session_duration = some (pos 0);
  warm_pool_size = none;
  auth_mode = "picod";
}

abbrev pub interpreter : CodeInterpreter
interpreter = record {
  name = "py";
  namespace = "ns";
  uid = "u";
  generation = 1;
  spec = spec;
  ready = false;
  conditions = [];
}

abbrev pub pooled : CodeInterpreter
pooled = record interpreter { spec = record spec { warm_pool_size = some (pos 2) } }

abbrev informers : CodeInterpreter → Informers
informers r = record {
  agent_runtime = λ ns n. err (status not_found "");
  code_interpreter = λ ns n. ok r;
}

abbrev ask : CreateSandboxRequest
ask = record { kind = "CodeInterpreter"; name = "py"; namespace = "ns" }

abbrev entry_of : String → SandboxEntry
entry_of kind = record {
  kind = kind;
  session_id = "s1";
  owner_id = "";
  ports = record { path_prefix = "/"; protocol = "HTTP"; port = 8080 } ∷ [];
  idle_timeout = pos 900_000_000_000;
}

abbrev claimed : Built
claimed = build_pooled texts fresh "ns" "py" "alice" pooled (entry_of "Sandbox")

built : build texts fresh "pem" (informers pooled) ask "alice" ≡ ok claimed
unfolding build build_sandbox_by_code_interpreter string_discrete
built = refl

build-IsCoherent_example : IsCoherent "alice" claimed
build-IsCoherent_example =
    build-IsCoherent texts fresh "pem" (informers pooled) ask "alice" claimed built

abbrev direct : Built
direct = build_direct texts fresh "pem" "ns" "py" "" spec (entry_of "Sandbox")

built_direct :
    build_sandbox_by_code_interpreter texts fresh "pem" "ns" "py" "" (ok interpreter) ≡ ok direct
unfolding build_sandbox_by_code_interpreter string_discrete
built_direct = refl

built_ask : build texts fresh "pem" (informers interpreter) ask "" ≡ ok direct
unfolding build build_sandbox_by_code_interpreter string_discrete
built_ask = refl

record_designates_example :
    let r = store_cache_info store cluster waits info none direct.0 "10.0.0.1" direct.2 in
    (resource_of r, r.sandbox_namespace, r.name) ≡ made direct.0 none
unfolding build_direct
record_designates_example =
    record_designates texts fresh "pem" store cluster waits (informers interpreter) ask "" direct.0
      none direct.2 info direct.0 "10.0.0.1" built_ask (λ _. (refl, refl))

abbrev params : BuildSandboxParams
params = direct_params fresh "pem" "ns" "py" "" spec

expires_at-build_example :
    (build_sandbox_place_holder 7 direct.0 direct.2).expires_at ≡ 100 + 28_800_000_000_000
expires_at-build_example =
    expires_at-build texts fresh "pem" "ns" "py" "" interpreter direct 7 0 built_direct refl

-- A secret that appears at the second attempt.
abbrev secret : ℕ → Result (Dict String) × ℕ
secret n =
    (elim n [ suc (suc _) ↦ ok (("public.pem", "pem") ∷ []) | _ ↦ err (message "absent") ], n)

readable :
    (load_public_key_from_secret secret (λ d n. suc n) (attempt secret (λ d n. suc n) 2 100 0)).0
    ≡ ok "pem"
unfolding load_public_key_from_secret attempt lookup string_discrete
readable = refl
