-- ===== src/Controller/Objects.antt =====
-- The objects of one kind in the API server, and the two patterns in which
-- pkg/workloadmanager/codeinterpreter_controller.go keeps one: it is created, updated or left, or it is
-- removed.
use agentcube.Prelude.{
  String, ◌≡◌, ◌≢◌, Bool, true, false, Bool-cases, inl, inr, ◌⊎◌, Option, none, some, arith,
  if◌then◌else◌,
}
use agentcube.Errors.{
  Error, wrap, is_not_found, is_already_exists, Result, Result-cases, ok, err, Try,
}
use agentcube.Cluster.{OwnerReference}

pub record Crud (W A : Type 0) : Type 0 where
  pub get : String → String → Try W A
  pub create : A → Try W (Unit {0})
  pub update : A → Try W (Unit {0})
  pub delete : A → Try W (Unit {0})

module _ {W A : Type 0} (K : Crud W A) where
  -- `owner` is the outcome of `SetControllerReference`.
  unfoldable pub ensure :
      String
      → String
      → Result OwnerReference
      → (OwnerReference → A)
      → (A → Bool)
      → (A → A)
      → Try W (Unit {0})
  ensure namespace name owner fresh differs updated w =
      let g = K.get namespace name w in
      elim g.0 [
        | ok a ↦
            let u = K.update (updated a) g.1 in
            if differs a
            then (elim u.0 [ ok _ ↦ ok tt | err e ↦ err (wrap e) ], u.1)
            else (ok tt, g.1)
        | err e ↦
            if is_not_found e
            then elim owner [
              | err x ↦ (err (wrap x), g.1)
              | ok o ↦
                  let c = K.create (fresh o) g.1 in
                  (
                    elim c.0 [
                      | ok _ ↦ ok tt
                      | err x ↦ if is_already_exists x then ok tt else err (wrap x)
                    ],
                    c.1,
                  )
            ]
            else (err (wrap e), g.1)
      ]

  unfoldable pub remove : String → String → Try W (Unit {0})
  remove namespace name w =
      let g = K.get namespace name w in
      elim g.0 [
        | err e ↦ (if is_not_found e then ok tt else err (wrap e), g.1)
        | ok a ↦
            let d = K.delete a g.1 in
            (
              elim d.0 [ ok _ ↦ ok tt | err e ↦ if is_not_found e then ok tt else err (wrap e) ],
              d.1,
            )
      ]

-- What the API server holds of a kind, as `view`, and what the cache of the manager's client has of it,
-- which may be behind: reads are of the cache and change nothing, and a write that succeeds is one of
-- the API server.
pub record IsCrud {W A : Type 0} (K : Crud W A) (view cached : W → String → String → Option A)
    (namespace_of name_of : A → String) : Type 0 where
  pub get-same : (ns n : String) (w : W) → (K.get ns n w).1 ≡ w
  pub get-ok : (ns n : String) (w : W) (a : A) → (K.get ns n w).0 ≡ ok a → cached w ns n ≡ some a
  pub get-missing :
      (ns n : String) (w : W) (e : Error)
      → (K.get ns n w).0 ≡ err e
      → is_not_found e ≡ true
      → cached w ns n ≡ none
  pub named :
      (ns n : String) (w : W) (a : A)
      → cached w ns n ≡ some a
      → (namespace_of a ≡ ns) × (name_of a ≡ n)
  pub create-ok :
      (a : A) (w : W)
      → (K.create a w).0 ≡ ok tt
      → view (K.create a w).1 (namespace_of a) (name_of a) ≡ some a
  pub create-exists :
      (a : A) (w : W) (e : Error)
      → (K.create a w).0 ≡ err e
      → is_already_exists e ≡ true
      → (view w (namespace_of a) (name_of a) ≢ none)
        × (view (K.create a w).1 (namespace_of a) (name_of a) ≡ view w (namespace_of a) (name_of a))
  pub update-ok :
      (a : A) (w : W)
      → (K.update a w).0 ≡ ok tt
      → view (K.update a w).1 (namespace_of a) (name_of a) ≡ some a
  pub delete-ok :
      (a : A) (w : W)
      → (K.delete a w).0 ≡ ok tt
      → view (K.delete a w).1 (namespace_of a) (name_of a) ≡ none
  pub delete-missing :
      (a : A) (w : W) (e : Error)
      → (K.delete a w).0 ≡ err e
      → is_not_found e ≡ true
      → view (K.delete a w).1 (namespace_of a) (name_of a) ≡ none

-- What becomes of an object `before` that was read as `read`, where it is to be as `P` says: it is not
-- touched, or is so after; and it is so after if it was read as it was.
abbrev pub IsEnsured : {A : Type 0} → (A → Type 0) → Option A → Option A → Option A → Type 0
IsEnsured {A} P read before after =
    ((after ≡ before) ⊎ ((a : A) × (after ≡ some a) × P a))
    × (read ≡ before → (a : A) × (after ≡ some a) × P a)

-- Likewise for an object that is to be removed.
abbrev pub IsRemoved : {A : Type 0} → Option A → Option A → Option A → Type 0
IsRemoved read before after = ((after ≡ before) ⊎ (after ≡ none)) × (read ≡ before → after ≡ none)

-- What the writes of a kind leave alone.
pub record IsFrame {W A X : Type 0} (K : Crud W A) (other : W → X) : Type 0 where
  pub get-other : (ns n : String) (w : W) → other (K.get ns n w).1 ≡ other w
  pub create-other : (a : A) (w : W) → other (K.create a w).1 ≡ other w
  pub update-other : (a : A) (w : W) → other (K.update a w).1 ≡ other w
  pub delete-other : (a : A) (w : W) → other (K.delete a w).1 ≡ other w

module _ {W A : Type 0} (K : Crud W A) (view cached : W → String → String → Option A)
    (namespace_of name_of : A → String) (L : IsCrud K view cached namespace_of name_of) where
  -- After a success the object is as `P` says, if that holds of what does not differ, of updated
  -- objects and of new ones; or it is as it was, and was not read as it was.
  pub ensure_ok :
      (P : A → Type 0) (ns n : String) (owner : Result OwnerReference) (fresh : OwnerReference → A)
      (differs : A → Bool) (updated : A → A) (w : W)
      → ((o : OwnerReference) → (namespace_of (fresh o) ≡ ns) × (name_of (fresh o) ≡ n))
      → ((a : A) → (namespace_of (updated a) ≡ namespace_of a) × (name_of (updated a) ≡ name_of a))
      → ((o : OwnerReference) → P (fresh o))
      → ((a : A) → P (updated a))
      → ((a : A) → differs a ≡ false → P a)
      → (ensure K ns n owner fresh differs updated w).0 ≡ ok tt
      → IsEnsured P
          (cached w ns n)
          (view w ns n)
          (view (ensure K ns n owner fresh differs updated w).1 ns n)
  unfolding ensure
  ensure_ok P ns n owner fresh differs updated w placed moved good_fresh good_updated good h =
      let g = K.get ns n w in
      let read = L.get-same ns n w in
      elim (Result-cases g.0) [
        | inl (a, e) ↦
            let got = L.get-ok ns n w a e in
            elim (Bool-cases (differs a)) [
              | inr same ↦ (
                inl (ground (arith, read)),
                λ current. (a, ground (arith, read, got, current), good a same),
              )
              | inl differ ↦
                  let after : view (ensure K ns n owner fresh differs updated w).1 ns n
                      ≡ some (updated a) =
                    ground (arith, L.update-ok (updated a) g.1, moved a, L.named ns n w a got) in
                  (inr (updated a, after, good_updated a), λ _. (updated a, after, good_updated a))
            ]
        | inr (x, e) ↦ elim (Bool-cases (is_not_found x)) [
          | inr f ↦ absurd (ground arith)
          | inl f ↦
              let missing = L.get-missing ns n w x e f in
              elim (Result-cases owner) [
                | inr (y, i) ↦ absurd (ground arith)
                | inl (o, i) ↦ elim (Result-cases (K.create (fresh o) g.1).0) [
                  | inl (_, j) ↦
                      let after : view (ensure K ns n owner fresh differs updated w).1 ns n
                          ≡ some (fresh o) =
                        ground (arith, L.create-ok (fresh o) g.1, placed o) in
                      (inr (fresh o, after, good_fresh o), λ _. (fresh o, after, good_fresh o))
                  | inr (y, j) ↦ elim (Bool-cases (is_already_exists y)) [
                    | inr k ↦ absurd (ground arith)
                    | inl k ↦
                        let (there, kept) = L.create-exists (fresh o) g.1 y j k in
                        (
                          inl (ground (arith, read, kept, placed o)),
                          λ current.
                              absurd (there (ground (arith, read, missing, current, placed o))),
                        )
                  ]
                ]
              ]
        ]
      ]

  -- An object that does not differ is left alone.
  pub ensure_same :
      (ns n : String) (owner : Result OwnerReference) (fresh : OwnerReference → A)
      (differs : A → Bool) (updated : A → A) (w : W) (a : A)
      → (K.get ns n w).0 ≡ ok a
      → differs a ≡ false
      → ((ensure K ns n owner fresh differs updated w).0 ≡ ok tt)
        × ((ensure K ns n owner fresh differs updated w).1 ≡ w)
  unfolding ensure
  ensure_same ns n owner fresh differs updated w a got same =
      (ground arith, ground (arith, L.get-same ns n w))

  -- After a success there is no object, or it is as it was, and was not read as it was.
  pub remove_ok :
      (ns n : String) (w : W)
      → (remove K ns n w).0 ≡ ok tt
      → IsRemoved (cached w ns n) (view w ns n) (view (remove K ns n w).1 ns n)
  unfolding remove
  remove_ok ns n w h =
      let g = K.get ns n w in
      let read = L.get-same ns n w in
      elim (Result-cases g.0) [
        | inr (x, e) ↦ elim (Bool-cases (is_not_found x)) [
          | inr f ↦ absurd (ground arith)
          | inl f ↦
              let missing = L.get-missing ns n w x e f in
              (inl (ground (arith, read)), λ current. ground (arith, read, missing, current))
        ]
        | inl (a, e) ↦
            let at = L.named ns n w a (L.get-ok ns n w a e) in
            elim (Result-cases (K.delete a g.1).0) [
              | inl (_, f) ↦
                  let after : view (remove K ns n w).1 ns n ≡ none =
                    ground (arith, L.delete-ok a g.1, at) in
                  (inr after, λ _. after)
              | inr (x, f) ↦ elim (Bool-cases (is_not_found x)) [
                | inr i ↦ absurd (ground arith)
                | inl i ↦
                    let after : view (remove K ns n w).1 ns n ≡ none =
                      ground (arith, L.delete-missing a g.1 x f i, at) in
                    (inr after, λ _. after)
              ]
            ]
      ]

module _ {W A X : Type 0} (K : Crud W A) (other : W → X) (F : IsFrame K other) where
  pub ensure-other :
      (ns n : String) (owner : Result OwnerReference) (fresh : OwnerReference → A)
      (differs : A → Bool) (updated : A → A) (w : W)
      → other (ensure K ns n owner fresh differs updated w).1 ≡ other w
  unfolding ensure
  ensure-other ns n owner fresh differs updated w =
      let g = K.get ns n w in
      let same = F.get-other ns n w in
      elim (Result-cases g.0) [
        | inl (a, e) ↦ elim (Bool-cases (differs a)) [
          | inr d ↦ ground (arith, same)
          | inl d ↦ ground (arith, same, F.update-other (updated a) g.1)
        ]
        | inr (x, e) ↦ elim (Bool-cases (is_not_found x)) [
          | inr f ↦ ground (arith, same)
          | inl f ↦ elim (Result-cases owner) [
            | inr (y, i) ↦ ground (arith, same)
            | inl (o, i) ↦ ground (arith, same, F.create-other (fresh o) g.1)
          ]
        ]
      ]

  pub remove-other : (ns n : String) (w : W) → other (remove K ns n w).1 ≡ other w
  unfolding remove
  remove-other ns n w =
      let g = K.get ns n w in
      let same = F.get-other ns n w in
      elim (Result-cases g.0) [
        | inr (x, e) ↦ ground (arith, same)
        | inl (a, e) ↦ ground (arith, same, F.delete-other a g.1)
      ]
