-- ===== src/Collector/Dedup.antt =====
-- `deduplicateSandboxes` of pkg/workloadmanager/garbage_collection.go against its description: the
-- first sandbox of each session id, in order.
use agentcube.Prelude.{
  String, ◌≡◌, refl, ap, true, false, Option, none, some, List, [], ◌∷◌, ◌++◌, arith, ◌==◌,
  if◌then◌else◌, Bool-cases, inl, inr,
}
use agentcube.Prelude.Lists.{contains, contains-append, Distinct, All, All-append}
use agentcube.Types.{SandboxInfo}
use agentcube.Collector.{add_unseen, deduplicate_loop, deduplicate_sandboxes}

-- The first sandbox with a session id.
pub find : String → List SandboxInfo → Option SandboxInfo
find id [] = none
find id (s ∷ list) = if s.session_id == id then some s else find id list

abbrev pub ids : List SandboxInfo → List String
ids [] = []
ids (s ∷ list) = s.session_id ∷ ids list

abbrev pub concat : List (List SandboxInfo) → List SandboxInfo
concat [] = []
concat (list ∷ lists) = list ++ concat lists

abbrev first_of_two : Option SandboxInfo → Option SandboxInfo → Option SandboxInfo
first_of_two none o = o
first_of_two (some s) o = some s

find-append :
    (id : String) (xs ys : List SandboxInfo)
    → find id (xs ++ ys) ≡ first_of_two (find id xs) (find id ys)
unfolding find
find-append id [] ys = refl
find-append id (s ∷ xs) ys = ground (arith, find-append id xs ys)

pub contains-find :
    (id : String) (xs : List SandboxInfo)
    → contains (ids xs) id ≡ elim (find id xs) [ none ↦ false | some s ↦ true ]
unfolding find
contains-find id [] = refl
contains-find id (s ∷ xs) = ground (arith, contains-find id xs)

ids-append : (xs ys : List SandboxInfo) → ids (xs ++ ys) ≡ ids xs ++ ids ys
ids-append [] ys = refl
ids-append (x ∷ xs) ys = ap (◌∷◌ x.session_id) (ids-append xs ys)

Distinct-snoc :
    (xs : List SandboxInfo) (s : SandboxInfo)
    → Distinct (ids xs)
    → contains (ids xs) s.session_id ≡ false
    → Distinct (ids (xs ++ (s ∷ [])))
Distinct-snoc [] s d h = (refl, tt)
Distinct-snoc (x ∷ xs) s (new, d) h = (
  rw (ids-append xs (s ∷ []), contains-append (ids xs) (s.session_id ∷ []) x.session_id)
      (ground arith),
  Distinct-snoc xs s d (ground arith),
)

-- What the loop keeps: `seen` has the ids of `result`, which are distinct.
record IsLoop (acc : List String × List SandboxInfo) : Type 0 where
  same : (id : String) → contains acc.0 id ≡ contains (ids acc.1) id
  once : Distinct (ids acc.1)

abbrev push : SandboxInfo → List String × List SandboxInfo → List String × List SandboxInfo
push s (seen, result) = (s.session_id ∷ seen, result ++ (s ∷ []))

push-IsLoop :
    (s : SandboxInfo) (acc : List String × List SandboxInfo)
    → contains acc.0 s.session_id ≡ false
    → IsLoop acc
    → IsLoop (push s acc)
push-IsLoop s (seen, result) h v = record {
  same = λ id.
      rw (ids-append result (s ∷ []), contains-append (ids result) (s.session_id ∷ []) id)
        (ground (arith, v.same id));
  once = Distinct-snoc result s v.once (ground (arith, v.same s.session_id));
}

add_unseen-IsLoop :
    (list : List SandboxInfo) (acc : List String × List SandboxInfo)
    → IsLoop acc
    → IsLoop (add_unseen list acc)
unfolding add_unseen
add_unseen-IsLoop [] acc v = v
add_unseen-IsLoop (s ∷ list) (seen, result) v = elim (Bool-cases (contains seen s.session_id)) [
  | inl old ↦ rw old (add_unseen-IsLoop list (seen, result) v)
  | inr new ↦
      rw new (add_unseen-IsLoop list (push s (seen, result)) (push-IsLoop s (seen, result) new v))
]

find-add_unseen :
    (id : String) (list : List SandboxInfo) (acc : List String × List SandboxInfo)
    → IsLoop acc
    → find id (add_unseen list acc).1 ≡ first_of_two (find id acc.1) (find id list)
unfolding add_unseen find
find-add_unseen id [] (seen, result) v = ground arith
find-add_unseen id (s ∷ list) (seen, result) v = elim (Bool-cases (contains seen s.session_id)) [
  | inl old ↦
      rw (old, find)
        (ground
          (arith, find-add_unseen id list (seen, result) v, v.same id, contains-find id result))
  | inr new ↦
      rw (new, find)
        (ground (
          arith,
          find-add_unseen id list (push s (seen, result)) (push-IsLoop s (seen, result) new v),
          find-append id result (s ∷ []),
        ))
]

loop_lem :
    (id : String) (lists : List (List SandboxInfo)) (acc : List String × List SandboxInfo)
    → IsLoop acc
    → Distinct (ids (deduplicate_loop lists acc))
      × (find id (deduplicate_loop lists acc)
          ≡ first_of_two (find id acc.1) (find id (concat lists)))
unfolding deduplicate_loop find
loop_lem id [] acc v = (v.once, ground arith)
loop_lem id (list ∷ lists) acc v =
    let (d, e) = loop_lem id lists (add_unseen list acc) (add_unseen-IsLoop list acc v) in
    (d, ground (arith, e, find-add_unseen id list acc v, find-append id list (concat lists)))

-- The merged list names no session twice, and for every session id it has the first sandbox with
-- that id in the lists, or none where they have none.
pub deduplicate_sandboxes_lem :
    (id : String) (lists : List (List SandboxInfo))
    → Distinct (ids (deduplicate_sandboxes lists))
      × (find id (deduplicate_sandboxes lists) ≡ find id (concat lists))
unfolding deduplicate_sandboxes find
deduplicate_sandboxes_lem id lists =
    loop_lem id lists ([], []) (record { same = λ j. refl; once = tt })

-- What holds of every sandbox of the lists holds of every merged one.
All-add_unseen :
    (P : SandboxInfo → Type 0) (list : List SandboxInfo) (acc : List String × List SandboxInfo)
    → All P list
    → All P acc.1
    → All P (add_unseen list acc).1
unfolding add_unseen
All-add_unseen P [] acc h k = k
All-add_unseen P (s ∷ list) (seen, result) (p, h) k =
    elim (Bool-cases (contains seen s.session_id)) [
      | inl old ↦ rw (old, All) (All-add_unseen P list (seen, result) h k)
      | inr new ↦
          rw (new, All)
            (All-add_unseen P list (push s (seen, result)) h
              (All-append P result (s ∷ []) k (p, tt)))
    ]

pub All-deduplicate_two :
    (P : SandboxInfo → Type 0) (xs ys : List SandboxInfo)
    → All P xs
    → All P ys
    → All P (deduplicate_sandboxes (xs ∷ ys ∷ []))
unfolding deduplicate_sandboxes deduplicate_loop
All-deduplicate_two P xs ys hx hy =
    All-add_unseen P ys (add_unseen xs ([], [])) hy (All-add_unseen P xs ([], []) hx tt)
