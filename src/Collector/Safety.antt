-- ===== src/Collector/Safety.antt =====
-- What a run of pkg/workloadmanager/garbage_collection.go deletes and what it leaves alone, by the
-- documented effects of the API server and the contract of the store.
use agentcube.Prelude.{
  ℕ, zero, suc, ◌+◌, ◌<◌, String, ◌-◌, ◌≡◌, ◌↔◌, ◌||◌, if◌then◌else◌, eqb, ==_self, refl, ◌∙◌, Bool,
  true, false, ◌&&◌, List, [], ◌∷◌, ◌++◌, arith, ◌==◌, Bool-cases, inl, inr,
}
use mathlib.Core.List.{append-nil}
use agentcube.Prelude.Lists.{contains, All}
use agentcube.Errors.{Error, is_not_found, Result, ok, err, Result-cases}
use agentcube.Time.{Time, Duration, pos, negsuc, add, before}
use agentcube.Types.{SandboxInfo}
use agentcube.Store.{Store}
use agentcube.Cluster
use agentcube.Cluster.{Resource, sandboxes, sandbox_claims}
use agentcube.Collector.{
  is_idle, is_zero_duration, default_sandbox_idle_timeout, listing_error, inactive_sandboxes,
  deduplicate_sandboxes, or_empty, resource_of, delete_object, collect_one, collect, gc_sandboxes,
  once, gc_min_inactive_lookback, gc_candidate_limit,
}
use agentcube.Collector.Dedup.{ids, contains-find, deduplicate_sandboxes_lem, All-deduplicate_two}

abbrev eq_resource : Resource → Resource → Bool
eq_resource sandboxes sandboxes = true
eq_resource sandbox_claims sandbox_claims = true
eq_resource _ _ = false

abbrev pub same_object : Resource → String → String → Resource → String → String → Bool
same_object r namespace name r' namespace' name' =
    eq_resource r r' && (namespace == namespace' && name == name')

-- That a time plus a timeout is before another time; a timeout of 0 stands for fifteen minutes.
abbrev pub IsPast : Duration → Time → Time → Type 0
IsPast (pos zero) last now = last + 900_000_000_000 < now
IsPast (pos (suc n)) last now = last + suc n < now
IsPast (negsuc n) last now = last - suc n < now

-- The idle timeout of a session, its own or the default, has passed since its last activity, or since
-- its creation if none is recorded.
abbrev pub IsOverdue : Time → SandboxInfo → Type 0
IsOverdue now s =
    IsPast s.idle_timeout (if eqb s.last_activity_at 0 then s.created_at else s.last_activity_at)
      now

before_lem :
    (d : Duration) (last now : Time)
    → IsPast d last now ↔ (
        before (add last (if is_zero_duration d then default_sandbox_idle_timeout else d)) now
        ≡ true)
before_lem (pos zero) last now = (λ h. ground arith, λ h. ground arith)
before_lem (pos (suc n)) last now = (λ h. ground arith, λ h. ground arith)
before_lem (negsuc n) last now = (λ h. ground arith, λ h. ground arith)

is_idle-IsOverdue : (now : Time) (s : SandboxInfo) → IsOverdue now s ↔ (is_idle now s ≡ true)
unfolding is_idle
is_idle-IsOverdue now s =
    before_lem s.idle_timeout
      (if eqb s.last_activity_at 0 then s.created_at else s.last_activity_at) now

-- `s` is the record of the object.
abbrev pub names : Resource → String → String → SandboxInfo → Bool
names r namespace name s = same_object (resource_of s) s.sandbox_namespace s.name r namespace name

-- Which objects the API server has, and which sessions the store has. A deletion affects the object
-- or session that it names alone, and removes it if it succeeds, or finds that it is not there.
pub record IsEffect {W : Type 0} (S : Store W) (K : Cluster.Client W)
    (alive : W → Resource → String → String → Bool) (held : W → String → Bool) : Type 0 where
  pub inactive-alive :
      (t : Time) (limit : ℕ) (w : W) (r : Resource) (ns n : String)
      → alive (S.list_inactive_sandboxes t limit w).1 r ns n ≡ alive w r ns n
  pub expired-alive :
      (t : Time) (limit : ℕ) (w : W) (r : Resource) (ns n : String)
      → alive (S.list_expired_sandboxes t limit w).1 r ns n ≡ alive w r ns n
  pub delete_session-alive :
      (id : String) (w : W) (r : Resource) (ns n : String)
      → alive (S.delete_sandbox_by_session_id id w).1 r ns n ≡ alive w r ns n
  pub delete-alive :
      (r : Resource) (ns n : String) (w : W) (r' : Resource) (ns' n' : String)
      → same_object r ns n r' ns' n' ≡ false
      → alive (K.delete r ns n w).1 r' ns' n' ≡ alive w r' ns' n'
  pub delete-ok :
      (r : Resource) (ns n : String) (w : W)
      → (K.delete r ns n w).0 ≡ ok tt
      → alive (K.delete r ns n w).1 r ns n ≡ false
  pub delete-not_found :
      (r : Resource) (ns n : String) (w : W) (e : Error)
      → (K.delete r ns n w).0 ≡ err e
      → is_not_found e ≡ true
      → alive (K.delete r ns n w).1 r ns n ≡ false
  pub delete-held :
      (r : Resource) (ns n : String) (w : W) (id : String)
      → held (K.delete r ns n w).1 id ≡ held w id
  pub delete_session-ok :
      (id : String) (w : W)
      → (S.delete_sandbox_by_session_id id w).0 ≡ ok tt
      → held (S.delete_sandbox_by_session_id id w).1 id ≡ false
  pub delete_session-held :
      (id : String) (w : W) (j : String)
      → held w j ≡ false
      → held (S.delete_sandbox_by_session_id id w).1 j ≡ false

module _ {W : Type 0} (now : W → Time) (S : Store W) (K : Cluster.Client W)
    (alive : W → Resource → String → String → Bool) (held : W → String → Bool)
    (E : IsEffect S K alive held) where
  collect_one-alive :
      (s : SandboxInfo) (w : W) (r : Resource) (ns n : String)
      → names r ns n s ≡ false
      → alive (collect_one now S K s w).1 r ns n ≡ alive w r ns n
  unfolding collect_one delete_object
  collect_one-alive s w r ns n other =
      let d = K.delete (resource_of s) s.sandbox_namespace s.name w in
      ground (
        arith,
        E.delete-alive (resource_of s) s.sandbox_namespace s.name w r ns n other,
        E.delete_session-alive s.session_id d.1 r ns n,
      )

  collect-alive :
      (found : List SandboxInfo) (w : W) (r : Resource) (ns n : String)
      → All (λ s. names r ns n s ≡ false) found
      → alive (collect now S K found w).1 r ns n ≡ alive w r ns n
  unfolding collect
  collect-alive [] w r ns n h = refl
  collect-alive (s ∷ found) w r ns n (other, h) =
      collect-alive found (collect_one now S K s w).1 r ns n h ∙ collect_one-alive s w r ns n other

  spared :
      (t : Time) (r : Resource) (ns n : String) (candidates : List SandboxInfo)
      → All (λ s. IsOverdue t s → names r ns n s ≡ false) candidates
      → All (λ s. names r ns n s ≡ false) (inactive_sandboxes t candidates)
  unfolding inactive_sandboxes
  spared t r ns n [] h = tt
  spared t r ns n (s ∷ candidates) (one, h) =
      let rest = spared t r ns n candidates h in
      elim (Bool-cases (is_idle t s)) [
        | inl idle ↦ rw (idle, All) (one ((is_idle-IsOverdue t s).1 idle), rest)
        | inr active ↦ rw (active, All) rest
      ]

  -- What the two queries of a run list.
  abbrev pub idle_candidates : W → List SandboxInfo
  idle_candidates w = or_empty (S.list_inactive_sandboxes (now w - 60_000_000_000) 100 w).0

  abbrev pub expired_sandboxes : W → List SandboxInfo
  expired_sandboxes w =
      let w' = (S.list_inactive_sandboxes (now w - 60_000_000_000) 100 w).1 in
      or_empty (S.list_expired_sandboxes (now w) 100 w').0

  -- A run leaves an object there, or missing, as it was, unless a session that the store lists names it: one of those without activity for a minute whose own idle timeout,
  -- fifteen minutes if it is 0, has passed since the last activity; or one of the expired sessions.
  pub once_spares :
      (w : W) (r : Resource) (ns n : String)
      → All (λ s. IsOverdue (now w) s → names r ns n s ≡ false) (idle_candidates w)
      → All (λ s. names r ns n s ≡ false) (expired_sandboxes w)
      → alive (once now S K w).1 r ns n ≡ alive w r ns n
  unfolding once gc_sandboxes
  once_spares w r ns n h g =
      let t = now w in
      let back = t - gc_min_inactive_lookback in
      let candidates = S.list_inactive_sandboxes back gc_candidate_limit w in
      let expired = S.list_expired_sandboxes t gc_candidate_limit candidates.1 in
      collect-alive _ expired.1 r ns n (
        All-deduplicate_two (λ s. names r ns n s ≡ false)
          (inactive_sandboxes t (or_empty candidates.0)) (or_empty expired.0) (spared t r ns n _ h)
          g)
      ∙ (E.expired-alive t gc_candidate_limit candidates.1 r ns n
          ∙ E.inactive-alive back gc_candidate_limit w r ns n)

  -- A session's record outlives its object: if the object of `s` is there after `s` was processed,
  -- no session has been removed from the store.
  pub collect_one_keeps_record :
      (s : SandboxInfo) (w : W) (id : String)
      → alive (collect_one now S K s w).1 (resource_of s) s.sandbox_namespace s.name ≡ true
      → held (collect_one now S K s w).1 id ≡ held w id
  unfolding collect_one delete_object
  collect_one_keeps_record s w id h =
      let r = resource_of s in
      let d = K.delete r s.sandbox_namespace s.name w in
      let kept = E.delete-held r s.sandbox_namespace s.name w id in
      let same = E.delete_session-alive s.session_id d.1 r s.sandbox_namespace s.name in
      elim (Result-cases d.0) [
        | inl (_, e) ↦ ground (arith, E.delete-ok r s.sandbox_namespace s.name w, same, kept)
        | inr (x, e) ↦
            ground (arith, E.delete-not_found r s.sandbox_namespace s.name w x e, same, kept)
      ]

  collect_one-held :
      (s : SandboxInfo) (w : W) (id : String)
      → held w id ≡ false
      → held (collect_one now S K s w).1 id ≡ false
  unfolding collect_one delete_object
  collect_one-held s w id h =
      let r = resource_of s in
      let d = K.delete r s.sandbox_namespace s.name w in
      ground (
        arith,
        E.delete-held r s.sandbox_namespace s.name w id,
        E.delete_session-held s.session_id d.1 id,
      )

  collect_one_ok :
      (s : SandboxInfo) (w : W)
      → (collect_one now S K s w).0 ≡ []
      → held (collect_one now S K s w).1 s.session_id ≡ false
  unfolding collect_one delete_object
  collect_one_ok s w h =
      let d = K.delete (resource_of s) s.sandbox_namespace s.name w in
      ground (arith, E.delete_session-ok s.session_id d.1)

  collect-held :
      (found : List SandboxInfo) (w : W) (id : String)
      → held w id ≡ false
      → held (collect now S K found w).1 id ≡ false
  unfolding collect
  collect-held [] w id h = h
  collect-held (s ∷ found) w id h =
      collect-held found (collect_one now S K s w).1 id (collect_one-held s w id h)

  append-eq-nil : (xs ys : List Error) → xs ++ ys ≡ [] → (xs ≡ []) × (ys ≡ [])
  append-eq-nil [] ys h = (refl, h)
  append-eq-nil (x ∷ xs) ys h = absurd (ground arith)

  collect_all :
      (found : List SandboxInfo) (w : W) (id : String)
      → (collect now S K found w).0 ≡ []
      → contains (ids found) id ≡ true
      → held (collect now S K found w).1 id ≡ false
  unfolding collect
  collect_all [] w id h c = absurd (ground arith)
  collect_all (s ∷ found) w id h c =
      let one = collect_one now S K s w in
      let (first, others) = append-eq-nil one.0 (collect now S K found one.1).0 h in
      elim (Bool-cases (s.session_id == id)) [
        | inl same ↦ collect-held found one.1 id (ground (arith, collect_one_ok s w first))
        | inr other ↦ collect_all found one.1 id others (ground arith)
      ]

  once_clean :
      (w : W)
      → (once now S K w).0 ≡ []
      → ((collect now S K (gc_sandboxes now S K w).0 (gc_sandboxes now S K w).2).0 ≡ [])
        × (listing_error (S.list_inactive_sandboxes (now w - 60_000_000_000) 100 w).0 ≡ [])
        × (listing_error
              (S.list_expired_sandboxes
                (now w)
                100
                (S.list_inactive_sandboxes (now w - 60_000_000_000) 100 w).1).0
            ≡ [])
  unfolding once gc_sandboxes
  once_clean w h =
      let g = gc_sandboxes now S K w in
      let (queries, deletions) = append-eq-nil g.1 (collect now S K g.0 g.2).0 h in
      let (a, b) = append-eq-nil _ _ queries in (deletions, a, b)

  collected :
      (w : W) (id : String)
      → (once now S K w).0 ≡ []
      → contains (ids (inactive_sandboxes (now w) (idle_candidates w) ++ expired_sandboxes w)) id
        ≡ true
      → held (once now S K w).1 id ≡ false
  unfolding once gc_sandboxes
  collected w id h c =
      let t = now w in
      let back = t - gc_min_inactive_lookback in
      let candidates = S.list_inactive_sandboxes back gc_candidate_limit w in
      let expired = S.list_expired_sandboxes t gc_candidate_limit candidates.1 in
      let xs = inactive_sandboxes t (or_empty candidates.0) in
      let ys = or_empty expired.0 in
      let lists = xs ∷ ys ∷ [] in
      collect_all (deduplicate_sandboxes lists) expired.1 id (once_clean w h).0 (
        ground (
          arith,
          contains-find id (deduplicate_sandboxes lists),
          contains-find id (xs ++ ys),
          (deduplicate_sandboxes_lem id lists).1,
          append-nil ys,
        ))

  ids-append :
      (xs ys : List SandboxInfo) (id : String)
      → contains (ids (xs ++ ys)) id ≡ (contains (ids xs) id || contains (ids ys) id)
  ids-append [] ys id = refl
  ids-append (x ∷ xs) ys id = ground (arith, ids-append xs ys id)

  candidates_gone :
      (P : String → Type 0) (t : Time) (candidates : List SandboxInfo)
      → ((id : String) → contains (ids (inactive_sandboxes t candidates)) id ≡ true → P id)
      → All (λ s. IsOverdue t s → P s.session_id) candidates
  unfolding inactive_sandboxes
  candidates_gone P t [] h = tt
  candidates_gone P t (s ∷ candidates) h = (
    λ late.
        let idle = (is_idle-IsOverdue t s).0 late in
        h s.session_id (ground (arith, idle, ==_self s.session_id)),
    candidates_gone P t candidates (λ id found.
        h id (elim (Bool-cases (is_idle t s)) [
          | inl idle ↦ ground arith
          | inr active ↦ ground arith
        ])),
  )

  listed_gone :
      (P : String → Type 0) (listed : List SandboxInfo)
      → ((id : String) → contains (ids listed) id ≡ true → P id)
      → All (λ s. P s.session_id) listed
  listed_gone P [] h = tt
  listed_gone P (s ∷ listed) h = (
    h s.session_id (ground (arith, ==_self s.session_id)),
    listed_gone P listed (λ id found. h id (ground arith)),
  )

  listing_ok : (r : Result (List SandboxInfo)) → listing_error r ≡ [] → r ≡ ok (or_empty r)
  listing_ok (ok l) h = refl
  listing_ok (err e) h = absurd (ground arith)

  -- The store has no such session after a run.
  abbrev pub IsCollected : W → String → Type 0
  IsCollected w id = held (once now S K w).1 id ≡ false

  -- A run that meets no error, of a listing or of a deletion, was given the two lists for which it asks
  -- the store, with a limit of a hundred each: sessions without activity for a minute, and expired
  -- sessions. After it, the
  -- store has none of the sessions of the first list whose own idle timeout, fifteen minutes if it is
  -- 0, has passed since the last activity, and none of the second list. Sessions beyond the two lists
  -- may be left.
  pub once_collects :
      (w : W)
      → (once now S K w).0 ≡ []
      → let candidates = S.list_inactive_sandboxes (now w - 60_000_000_000) 100 w in
        (candidates.0 ≡ ok (idle_candidates w))
        × ((S.list_expired_sandboxes (now w) 100 candidates.1).0 ≡ ok (expired_sandboxes w))
        × All (λ s. IsOverdue (now w) s → IsCollected w s.session_id) (idle_candidates w)
        × All (λ s. IsCollected w s.session_id) (expired_sandboxes w)
  once_collects w h =
      let (_, a, b) = once_clean w h in
      let xs = inactive_sandboxes (now w) (idle_candidates w) in
      let ys = expired_sandboxes w in
      (
        listing_ok _ a,
        listing_ok _ b,
        candidates_gone (IsCollected w) (now w) (idle_candidates w)
            (λ id found. collected w id h (ground (arith, ids-append xs ys id))),
        listed_gone (IsCollected w) ys
            (λ id found. collected w id h (ground (arith, ids-append xs ys id))),
      )
