-- ===== src/Workload/Objects.antt =====
-- The objects of pkg/workloadmanager/workload_builder.go, and `sha256Short` of identity.go. The hash
-- in hexadecimal digits and Go's text of a duration are parameters.
use agentcube.Prelude.{
  String, ◌≡◌, refl, false, Option, none, some, [], ◌∷◌, arith, ◌==◌, if◌then◌else◌,
  string_discrete, Bool-cases, inl, inr,
}
use agentcube.Prelude.Dict.{Dict, keys, lookup, insert, copy, lookup-insert, lookup-insert_self}
use agentcube.Prelude.Lists.{Distinct, contains}
use agentcube.Time.{Time, Duration, pos, add}
use agentcube.Cluster.{Sandbox, SandboxClaim, OwnerReference}
use agentcube.Cluster.Pod.{PodSpec}
use agentcube.Collector.{is_zero_duration}
use agentcube.Creation.Build.{default_sandbox_ttl, or_default}
use Prim.Native.String.{slice}

abbrev pub session_id_label_key : String
session_id_label_key = "runtime.agentcube.io/session-id"

abbrev pub workload_name_label_key : String
workload_name_label_key = "runtime.agentcube.io/workload-name"

abbrev pub sandbox_name_label_key : String
sandbox_name_label_key = "runtime.agentcube.io/sandbox-name"

abbrev pub idle_timeout_annotation_key : String
idle_timeout_annotation_key = "runtime.agentcube.io/idle-timeout"

abbrev pub owner_annotation_key : String
owner_annotation_key = "agentcube.io/owner"

abbrev pub owner_hash_label_key : String
owner_hash_label_key = "agentcube.io/owner-hash"

pub record BuildSandboxParams : Type 0 where
  pub namespace : String
  pub workload_name : String
  pub sandbox_name : String
  pub session_id : String
  pub owner_id : String
  pub ttl : Duration
  pub idle_timeout : Duration
  pub pod_spec : PodSpec
  pub pod_labels : Dict String
  pub pod_annotations : Dict String

pub record BuildSandboxClaimParams : Type 0 where
  pub namespace : String
  pub name : String
  pub sandbox_template_name : String
  pub session_id : String
  pub owner_id : String
  pub idle_timeout : Duration
  pub owner_reference : Option OwnerReference

-- The parameters that are not code of the repository.
pub record Texts : Type 0 where
  pub sha256_hex : String → String
  pub duration_text : Duration → String

unfoldable pub sha256_short : (String → String) → String → String
sha256_short sha256_hex s = slice (sha256_hex s) 0 63

-- `0` stands for "not given".
abbrev pub or_default_ttl : Duration → Duration
or_default_ttl d = if is_zero_duration d then pos default_sandbox_ttl else d

-- The labels and annotations of an object, with the metadata of its owner.
abbrev own_labels : Texts → String → Dict String → Dict String
own_labels X owner_id labels =
    if owner_id == ""
    then labels
    else insert owner_hash_label_key (sha256_short X.sha256_hex owner_id) labels

abbrev own_annotations : String → Dict String → Dict String
own_annotations owner_id annotations =
    if owner_id == "" then annotations else insert owner_annotation_key owner_id annotations

-- The labels of the pod: those of the template, over which the session's are written.
unfoldable pub session_labels : BuildSandboxParams → Dict String
session_labels params =
    insert sandbox_name_label_key params.sandbox_name
      (insert session_id_label_key params.session_id (copy params.pod_labels []))

unfoldable pub build_sandbox_object : Texts → Time → BuildSandboxParams → Sandbox
build_sandbox_object X now params = record {
  name = params.sandbox_name;
  namespace = params.namespace;
  labels = own_labels X params.owner_id (
      (session_id_label_key, params.session_id)
      ∷ (workload_name_label_key, params.workload_name)
      ∷ ("managed-by", "agentcube-workload-manager")
      ∷ []);
  annotations =
      own_annotations params.owner_id
        ((idle_timeout_annotation_key, X.duration_text (or_default params.idle_timeout)) ∷ []);
  uid = "";
  creation_timestamp = 0;
  pod_template = record {
    spec = params.pod_spec;
    labels = session_labels params;
    annotations = copy params.pod_annotations [];
  };
  shutdown_time = some (add now (or_default_ttl params.ttl));
  conditions = [];
  pod_name_annotation = none;
}

unfoldable pub build_sandbox_claim_object : Texts → BuildSandboxClaimParams → SandboxClaim
build_sandbox_claim_object X params = record {
  name = params.name;
  namespace = params.namespace;
  labels =
      own_labels X params.owner_id
        ((session_id_label_key, params.session_id) ∷ (sandbox_name_label_key, params.name) ∷ []);
  annotations =
      own_annotations params.owner_id
        ((idle_timeout_annotation_key, X.duration_text (or_default params.idle_timeout)) ∷ []);
  owner_references = elim params.owner_reference [ some r ↦ r ∷ [] | none ↦ [] ];
  template_name = params.sandbox_template_name;
  status_sandbox_name = "";
}

-- The session that an object's labels name, and the owner that its annotations name.
abbrev pub IsLabelled : String → String → Dict String → Dict String → Type 0
IsLabelled session_id owner_id labels annotations =
    (lookup session_id_label_key labels ≡ some session_id)
    × (lookup owner_annotation_key annotations ≡ (if owner_id == "" then none else some owner_id))

pub build_sandbox_object-IsLabelled :
    (X : Texts) (now : Time) (p : BuildSandboxParams)
    → let s = build_sandbox_object X now p in
      IsLabelled p.session_id p.owner_id s.labels s.annotations
unfolding build_sandbox_object insert lookup string_discrete
build_sandbox_object-IsLabelled X now p = elim (Bool-cases (p.owner_id == "")) [
  | inl h ↦ (rw h refl, rw h refl)
  | inr h ↦ (rw h refl, rw h refl)
]

pub build_sandbox_claim_object-IsLabelled :
    (X : Texts) (p : BuildSandboxClaimParams)
    → let c = build_sandbox_claim_object X p in
      IsLabelled p.session_id p.owner_id c.labels c.annotations
unfolding build_sandbox_claim_object insert lookup string_discrete
build_sandbox_claim_object-IsLabelled X p = elim (Bool-cases (p.owner_id == "")) [
  | inl h ↦ (rw h refl, rw h refl)
  | inr h ↦ (rw h refl, rw h refl)
]

lookup-absent : (d : Dict String) (k : String) → contains (keys d) k ≡ false → lookup k d ≡ none
unfolding lookup
lookup-absent [] k h = refl
lookup-absent ((j, v) ∷ d) k h = ground (arith, lookup-absent d k)

-- Copied entries are written over those of the target.
pub lookup-copy :
    (j : String) (src d : Dict String)
    → Distinct (keys src)
    → lookup j (copy src d) ≡ (elim (lookup j src) [ some v ↦ some v | none ↦ lookup j d ])
unfolding copy lookup
lookup-copy j [] d h = refl
lookup-copy j ((k, v) ∷ src) d h =
    ground
      (arith, lookup-copy j src (insert k v d) h.1, lookup-insert k j v d, lookup-absent src k h.0)

pub lookup-session_labels :
    (p : BuildSandboxParams) → lookup session_id_label_key (session_labels p) ≡ some p.session_id
unfolding session_labels string_discrete
lookup-session_labels p = ground (
  arith,
  lookup-insert sandbox_name_label_key session_id_label_key p.sandbox_name
      (insert session_id_label_key p.session_id (copy p.pod_labels [])),
  lookup-insert_self session_id_label_key p.session_id (copy p.pod_labels []),
)
