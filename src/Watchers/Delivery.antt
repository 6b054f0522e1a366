-- ===== src/Watchers/Delivery.antt =====
-- That the notification of pkg/workloadmanager/sandbox_controller.go is never dropped.
use agentcube.Prelude.{
  ℕ, ◌<◌, String, ◌≡◌, refl, true, Bool-cases, ◌&&◌, none, some, Option-cases, ◌==◌, arith, inl,
  inr, ==_self, subst,
}
use agentcube.Errors.{Result, ok, err}
use agentcube.Cluster.{Sandbox}
use agentcube.Creation.Build.{get_sandbox_status}
use agentcube.Watchers.{
  Reconciler, new, watch_sandbox_once, un_watch_sandbox, send, reconcile, receive,
}

-- What creations, the controller and waiters do to the reconciler, in any order.
pub data Reach : Reconciler → Type 0 where
  start : Reach new
  watched : (ns n : String) {r : Reconciler} → Reach r → Reach (watch_sandbox_once ns n r).1
  unwatched : (ns n : String) {r : Reconciler} → Reach r → Reach (un_watch_sandbox ns n r)
  reconciled :
      (ns n : String) (got : Result Sandbox) {r : Reconciler}
      → Reach r
      → Reach (reconcile ns n got r).1
  received : (c : ℕ) {r : Reconciler} → Reach r → Reach (receive c r).1

-- A registered channel was made, is empty, and is registered once.
pub record IsFresh (r : Reconciler) : Type 0 where
  pub known : (ns n : String) (c : ℕ) → r.watchers ns n ≡ some c → c < r.made
  pub empty : (ns n : String) (c : ℕ) → r.watchers ns n ≡ some c → r.buffer c ≡ none
  pub single :
      (ns n ns' n' : String) (c : ℕ)
      → r.watchers ns n ≡ some c
      → r.watchers ns' n' ≡ some c
      → ((ns == ns') && (n == n')) ≡ true

watch-IsFresh : (ns n : String) (r : Reconciler) → IsFresh r → IsFresh (watch_sandbox_once ns n r).1
unfolding watch_sandbox_once
watch-IsFresh ns n r h = record {
  known = λ ns' n' c e. elim (Bool-cases (ns == ns' && n == n')) [
    | inl f ↦ ground arith
    | inr f ↦ ground (arith, h.known ns' n' c)
  ];
  empty = λ ns' n' c e. elim (Bool-cases (ns == ns' && n == n')) [
    | inl f ↦ ground arith
    | inr f ↦ ground (arith, h.known ns' n' c, h.empty ns' n' c)
  ];
  single = λ ns1 n1 ns2 n2 c e1 e2.
      ground (arith, h.known ns1 n1 c, h.known ns2 n2 c, h.single ns1 n1 ns2 n2 c);
}

unwatch-IsFresh : (ns n : String) (r : Reconciler) → IsFresh r → IsFresh (un_watch_sandbox ns n r)
unfolding un_watch_sandbox
unwatch-IsFresh ns n r h = record {
  known = λ ns' n' c e. ground (arith, h.known ns' n' c);
  empty = λ ns' n' c e. ground (arith, h.empty ns' n' c);
  single = λ ns1 n1 ns2 n2 c e1 e2. ground (arith, h.single ns1 n1 ns2 n2 c);
}

-- A channel that is no longer registered may hold something.
send-IsFresh :
    (ns n : String) (c : ℕ) (sandbox : Sandbox) (r : Reconciler)
    → IsFresh r
    → r.watchers ns n ≡ some c
    → IsFresh (send c sandbox (un_watch_sandbox ns n r))
unfolding send un_watch_sandbox
send-IsFresh ns n c sandbox r h found =
    let clear = h.empty ns n c found in
    record {
      known = λ ns' n' d e. ground (arith, h.known ns' n' d);
      empty = λ ns' n' d e. ground (arith, h.empty ns' n' d, h.single ns n ns' n' c found);
      single = λ ns1 n1 ns2 n2 d e1 e2. ground (arith, h.single ns1 n1 ns2 n2 d);
    }

sent_lem :
    (ns n : String) (c : ℕ) (sandbox : Sandbox) (r : Reconciler)
    → (get_sandbox_status sandbox == "ready") ≡ true
    → r.watchers ns n ≡ some c
    → send c sandbox (un_watch_sandbox ns n r) ≡ (reconcile ns n (ok sandbox) r).1
unfolding reconcile un_watch_sandbox
sent_lem ns n c sandbox r ready found = ground arith

reconcile-IsFresh :
    (ns n : String) (got : Result Sandbox) (r : Reconciler)
    → IsFresh r
    → IsFresh (reconcile ns n got r).1
unfolding reconcile
reconcile-IsFresh ns n (err e) r h = h
reconcile-IsFresh ns n (ok sandbox) r h =
    elim (Bool-cases (get_sandbox_status sandbox == "ready")) [
      | inr f ↦ subst (λ x. IsFresh x) (ground arith) h
      | inl f ↦ elim (Option-cases (r.watchers ns n)) [
        | inl g ↦ subst (λ x. IsFresh x) (ground arith) h
        | inr (c, g) ↦
            subst (λ x. IsFresh x) (sent_lem ns n c sandbox r f g)
              (send-IsFresh ns n c sandbox r h g)
      ]
    ]

receive-IsFresh : (c : ℕ) (r : Reconciler) → IsFresh r → IsFresh (receive c r).1
unfolding receive
receive-IsFresh c r h = record {
  known = h.known;
  empty = λ ns n d e. ground (arith, h.empty ns n d e);
  single = h.single;
}

pub Reach-IsFresh : (r : Reconciler) → Reach r → IsFresh r
Reach-IsFresh r start = record {
  known = λ ns n c e. absurd (ground arith);
  empty = λ ns n c e. refl;
  single = λ ns1 n1 ns2 n2 c e1 e2. absurd (ground arith);
}
Reach-IsFresh r (watched ns n {r = q} h) = watch-IsFresh ns n q (Reach-IsFresh q h)
Reach-IsFresh r (unwatched ns n {r = q} h) = unwatch-IsFresh ns n q (Reach-IsFresh q h)
Reach-IsFresh r (reconciled ns n got {r = q} h) = reconcile-IsFresh ns n got q (Reach-IsFresh q h)
Reach-IsFresh r (received c {r = q} h) = receive-IsFresh c q (Reach-IsFresh q h)

-- Whatever was done before, when a registered sandbox is reconciled and found ready, it is put into
-- the buffer of its waiter's channel, never dropped, and the registration is gone.
pub reconcile_delivers :
    (ns n : String) (c : ℕ) (sandbox : Sandbox) (r : Reconciler)
    → Reach r
    → r.watchers ns n ≡ some c
    → (get_sandbox_status sandbox == "ready") ≡ true
    → let r' = (reconcile ns n (ok sandbox) r).1 in
      ((receive c r').0 ≡ some sandbox) × (r'.watchers ns n ≡ none)
unfolding reconcile send receive
reconcile_delivers ns n c sandbox r reach found ready =
    let clear = (Reach-IsFresh r reach).empty ns n c found in
    (ground arith, ground (arith, ==_self ns, ==_self n))
