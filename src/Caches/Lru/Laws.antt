-- ===== src/Caches/Lru/Laws.antt =====
-- The invariant of the two caches of pkg/workloadmanager/client_cache.go: the map and the list have
-- the same keys, once each, and no more than the maximum.
use agentcube.Prelude.{
  ℕ, suc, ◌≤◌, ◌<◌, String, ◌≡◌, refl, true, false, none, some, List, [], ◌∷◌, arith, ◌==◌,
  if◌then◌else◌,
}
use agentcube.Prelude.Dict
use agentcube.Prelude.Dict.{Dict, lookup, insert, erase, lookup-insert, lookup-erase}
use agentcube.Prelude.Lists.{length, contains, Distinct}
use agentcube.Caches.Lru.{Lru, without, back, new, discard}

pub contains-without :
    (k j : String) (xs : List String)
    → contains (without k xs) j ≡ (if k == j then false else contains xs j)
unfolding without
contains-without k j [] = ground arith
contains-without k j (x ∷ xs) = ground (arith, contains-without k j xs)

pub without_absent : (k : String) (xs : List String) → contains xs k ≡ false → without k xs ≡ xs
unfolding without
without_absent k [] h = refl
without_absent k (x ∷ xs) h = ground (arith, without_absent k xs)

pub without-Distinct : (k : String) (xs : List String) → Distinct xs → Distinct (without k xs)
unfolding without
without-Distinct k [] d = tt
without-Distinct k (x ∷ xs) (new, d) =
    ground (arith, without-Distinct k xs d, contains-without k x xs)

pub length-without :
    (k : String) (xs : List String)
    → Distinct xs
    → contains xs k ≡ true
    → length xs ≡ suc (length (without k xs))
unfolding without
length-without k [] d h = absurd (ground arith)
length-without k (x ∷ xs) (new, d) h = ground (arith, length-without k xs d, without_absent k xs)

pub back-contains : (xs : List String) (k : String) → back xs ≡ some k → contains xs k ≡ true
unfolding back
back-contains [] k h = cc
back-contains (x ∷ []) k h = ground arith
back-contains (x ∷ y ∷ xs) k h = ground (arith, back-contains (y ∷ xs) k h)

pub back-nonempty : (xs : List String) → back xs ≡ none → xs ≡ []
unfolding back
back-nonempty [] h = refl
back-nonempty (x ∷ []) h = cc
back-nonempty (x ∷ y ∷ xs) h = absurd (ground (arith, back-nonempty (y ∷ xs) h))

module _ {V : Type 0} where
  pub keys-erase : (k : String) (d : Dict V) → Dict.keys (erase k d) ≡ without k (Dict.keys d)
  unfolding erase without
  keys-erase k [] = refl
  keys-erase k ((j, v) ∷ d) = ground (arith, keys-erase k d)

  pub length-keys : (d : Dict V) → length (Dict.keys d) ≡ length d
  length-keys [] = refl
  length-keys ((j, v) ∷ d) = ground (arith, length-keys d)

  pub contains-lookup :
      (k : String) (d : Dict V)
      → contains (Dict.keys d) k ≡ elim (lookup k d) [ none ↦ false | some v ↦ true ]
  unfolding lookup
  contains-lookup k [] = refl
  contains-lookup k ((j, v) ∷ d) = ground (arith, contains-lookup k d)

  pub keys-insert_old :
      (k : String) (v : V) (d : Dict V)
      → contains (Dict.keys d) k ≡ true
      → Dict.keys (insert k v d) ≡ Dict.keys d
  unfolding insert
  keys-insert_old k v [] h = cc
  keys-insert_old k v ((j, w) ∷ d) h = ground (arith, keys-insert_old k v d)

  pub contains-insert :
      (k j : String) (v : V) (d : Dict V)
      → contains (Dict.keys (insert k v d)) j ≡ (if k == j then true else contains (Dict.keys d) j)
  unfolding insert
  contains-insert k j v [] = ground arith
  contains-insert k j v ((i, w) ∷ d) = ground (arith, contains-insert k j v d)

  pub length-insert_new :
      (k : String) (v : V) (d : Dict V)
      → contains (Dict.keys d) k ≡ false
      → length (insert k v d) ≡ suc (length d)
  unfolding insert
  length-insert_new k v [] h = refl
  length-insert_new k v ((j, w) ∷ d) h = ground (arith, length-insert_new k v d)

  pub insert-Distinct :
      (k : String) (v : V) (d : Dict V)
      → Distinct (Dict.keys d)
      → Distinct (Dict.keys (insert k v d))
  unfolding insert
  insert-Distinct k v [] u = (refl, tt)
  insert-Distinct k v ((j, w) ∷ d) (new, u) =
      ground (arith, insert-Distinct k v d u, contains-insert k j v d)

  pub record IsValid (c : Lru V) : Type 0 where
    pub positive : 0 < c.max_size
    pub bounded : length c.cache ≤ c.max_size
    pub listed_once : Distinct c.lru_list
    pub mapped_once : Distinct (Dict.keys c.cache)
    pub same_length : length c.lru_list ≡ length c.cache
    pub same_keys : (k : String) → contains c.lru_list k ≡ contains (Dict.keys c.cache) k

  pub new-IsValid : (n : ℕ) → 0 < n → IsValid (new n)
  unfolding new
  new-IsValid n h = record {
    positive = h;
    bounded = omega arith;
    listed_once = tt;
    mapped_once = tt;
    same_length = refl;
    same_keys = λ k. refl;
  }

  pub discard-IsValid :
      (k : String) (c : Lru V)
      → contains (Dict.keys c.cache) k ≡ true
      → IsValid c
      → IsValid (discard k c)
  unfolding discard
  discard-IsValid k c h v =
      let n = length-keys (erase k c.cache) in
      let m = length-keys c.cache in
      let e = keys-erase k c.cache in
      let a = length-without k (Dict.keys c.cache) v.mapped_once h in
      let b = length-without k c.lru_list v.listed_once (ground (arith, v.same_keys k)) in
      let shorter : suc (length (erase k c.cache)) ≡ length c.cache = ground (arith, n, m, e, a) in
      record {
        positive = v.positive;
        bounded = omega (arith, shorter, v.bounded);
        listed_once = without-Distinct k c.lru_list v.listed_once;
        mapped_once = rw e (without-Distinct k (Dict.keys c.cache) v.mapped_once);
        same_length = omega (arith, shorter, b, v.same_length);
        same_keys = λ j. rw e (
            ground (
              arith,
              contains-without k j c.lru_list,
              contains-without k j (Dict.keys c.cache),
              v.same_keys j,
            ));
      }

  pub length-discard :
      (k : String) (c : Lru V)
      → contains (Dict.keys c.cache) k ≡ true
      → IsValid c
      → suc (length (discard k c).cache) ≡ length c.cache
  unfolding discard
  length-discard k c h v = ground (
    arith,
    length-keys (erase k c.cache),
    length-keys c.cache,
    keys-erase k c.cache,
    length-without k (Dict.keys c.cache) v.mapped_once h,
  )

  pub contains-discard :
      (k j : String) (c : Lru V)
      → contains (Dict.keys (discard k c).cache) j
        ≡ (if k == j then false else contains (Dict.keys c.cache) j)
  unfolding discard
  contains-discard k j c =
      ground (arith, keys-erase k c.cache, contains-without k j (Dict.keys c.cache))

  pub lookup-discard :
      (k j : String) (c : Lru V)
      → lookup j (discard k c).cache ≡ (if k == j then none else lookup j c.cache)
  unfolding discard
  lookup-discard k j c = lookup-erase k j c.cache

  pub max_size-discard : (k : String) (c : Lru V) → (discard k c).max_size ≡ c.max_size
  unfolding discard
  max_size-discard k c = refl
