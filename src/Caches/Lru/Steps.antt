-- ===== src/Caches/Lru/Steps.antt =====
-- Every method of the two caches of pkg/workloadmanager/client_cache.go keeps the invariant, and
-- what can be looked up after it.
use agentcube.Prelude.{
  ◌<◌, String, ◌≡◌, Bool, true, false, Option, none, some, ◌∷◌, arith, ◌==◌, leb, if◌then◌else◌,
  Bool-cases, Option-cases, inl, inr, ==_self,
}
use agentcube.Prelude.Dict
use agentcube.Prelude.Dict.{Dict, lookup, insert, erase, lookup-insert, lookup-erase}
use agentcube.Prelude.Lists.{length, contains}
use agentcube.Caches.Lru.{Lru, back, move_to_front, discard, evict_oldest, remove, set}
use agentcube.Caches.Lru.Laws.{
  IsValid, contains-without, without-Distinct, length-without, back-contains, back-nonempty,
  contains-lookup, length-insert_new, contains-insert, insert-Distinct, keys-insert_old,
  discard-IsValid, length-keys, length-discard, contains-discard, lookup-discard, max_size-discard,
}

abbrev pub is_some_of : Option String → String → Bool
is_some_of none j = false
is_some_of (some i) j = i == j

module _ {V : Type 0} where
  move_to_front-IsValid :
      (k : String) (c : Lru V)
      → contains (Dict.keys c.cache) k ≡ true
      → IsValid c
      → IsValid (move_to_front k c)
  unfolding move_to_front
  move_to_front-IsValid k c h v = record {
    positive = v.positive;
    bounded = v.bounded;
    listed_once = (
      ground (arith, contains-without k k c.lru_list, ==_self k),
      without-Distinct k c.lru_list v.listed_once,
    );
    mapped_once = v.mapped_once;
    same_length = omega (
      arith,
      v.same_length,
      length-without k c.lru_list v.listed_once (ground (arith, v.same_keys k)),
    );
    same_keys = λ j. ground (arith, contains-without k j c.lru_list, v.same_keys j);
  }

  -- Looking a key up, as the methods do, moves it to the front and keeps the invariant.
  pub touch-IsValid :
      (k : String) (c : Lru V) {e : V}
      → lookup k c.cache ≡ some e
      → IsValid c
      → IsValid (move_to_front k c)
  touch-IsValid k c h v = move_to_front-IsValid k c (ground (arith, contains-lookup k c.cache)) v

  pub forget-IsValid :
      (k : String) (c : Lru V) {e : V}
      → lookup k c.cache ≡ some e
      → IsValid c
      → IsValid (discard k c)
  forget-IsValid k c h v = discard-IsValid k c (ground (arith, contains-lookup k c.cache)) v

  pub remove-IsValid : (k : String) (c : Lru V) → IsValid c → IsValid (remove k c)
  unfolding remove
  remove-IsValid k c v = elim (Option-cases (lookup k c.cache)) [
    | inl e ↦ rw (e, remove) v
    | inr (x, e) ↦ rw (e, remove) (forget-IsValid k c e v)
  ]

  -- The oldest entry goes, and there is one whenever the cache holds any.
  pub evict_oldest_lem :
      (c : Lru V)
      → IsValid c
      → 0 < length c.cache
      → (k : String) × (back c.lru_list ≡ some k)
        × (evict_oldest c ≡ discard k c)
        × (contains (Dict.keys c.cache) k ≡ true)
  unfolding evict_oldest
  evict_oldest_lem c v h = elim (Option-cases (back c.lru_list)) [
    | inl e ↦ absurd (ground (arith, back-nonempty c.lru_list e, v.same_length))
    | inr (k, e) ↦
        (k, e, rw (e, evict_oldest), ground (arith, back-contains c.lru_list k e, v.same_keys k))
  ]

  insert_new-IsValid :
      (k : String) (x : V) (d : Lru V)
      → contains (Dict.keys d.cache) k ≡ false
      → length d.cache < d.max_size
      → IsValid d
      → IsValid (record d { cache = insert k x d.cache; lru_list = k ∷ d.lru_list })
  insert_new-IsValid k x d fresh room v = record {
    positive = v.positive;
    bounded = omega (arith, length-insert_new k x d.cache fresh, room);
    listed_once = (ground (arith, v.same_keys k), v.listed_once);
    mapped_once = insert-Distinct k x d.cache v.mapped_once;
    same_length = omega (arith, length-insert_new k x d.cache fresh, v.same_length);
    same_keys = λ j. ground (arith, contains-insert k j x d.cache, v.same_keys j);
  }

  insert_old-IsValid :
      (k : String) (x : V) (c : Lru V)
      → contains (Dict.keys c.cache) k ≡ true
      → IsValid c
      → IsValid (record c { cache = insert k x c.cache })
  insert_old-IsValid k x c old v =
      let e = keys-insert_old k x c.cache old in
      let n = length-keys (insert k x c.cache) in
      let same : length (insert k x c.cache) ≡ length c.cache =
        ground (arith, n, e, length-keys c.cache) in
      record {
        positive = v.positive;
        bounded = omega (arith, same, v.bounded);
        listed_once = v.listed_once;
        mapped_once = rw e v.mapped_once;
        same_length = omega (arith, same, v.same_length);
        same_keys = λ j. rw e (v.same_keys j);
      }

  -- Room is made for a new key.
  make_room-IsValid :
      (k : String) (c : Lru V)
      → contains (Dict.keys c.cache) k ≡ false
      → IsValid c
      → let d = if leb c.max_size (length c.cache) then evict_oldest c else c in
        IsValid d × (contains (Dict.keys d.cache) k ≡ false) × (length d.cache < d.max_size)
  make_room-IsValid k c fresh v = elim (Bool-cases (leb c.max_size (length c.cache))) [
    | inr room ↦ rw room (v, fresh, ground arith)
    | inl full ↦
        let (j, e, out, held) = evict_oldest_lem c v (ground (arith, v.positive)) in
        rw (full, out)
          (
            discard-IsValid j c held v,
            ground (arith, contains-discard j k c),
            omega (arith, length-discard j c held v, max_size-discard j c, v.bounded),
          )
  ]

  -- An entry rewritten in place and moved to the front.
  pub rewrite-IsValid :
      (k : String) (x : V) (c : Lru V) {e : V}
      → lookup k c.cache ≡ some e
      → IsValid c
      → IsValid (move_to_front k (record c { cache = insert k x c.cache }))
  rewrite-IsValid k x c h v =
      let held : contains (Dict.keys c.cache) k ≡ true =
        ground (arith, contains-lookup k c.cache) in
      let d : Lru V = record c { cache = insert k x c.cache } in
      touch-IsValid k d {e = x} (ground (arith, lookup-insert k k x c.cache, ==_self k))
        (insert_old-IsValid k x c held v)

  -- A write keeps the cache well formed: not larger than its limit, with the same distinct keys in
  -- the map and in the list.
  pub set-IsValid : (k : String) (x : V) (c : Lru V) → IsValid c → IsValid (set k x c)
  unfolding set
  set-IsValid k x c v = elim (Option-cases (lookup k c.cache)) [
    | inr (old, e) ↦ rw (e, set) (rewrite-IsValid k x c e v)
    | inl e ↦
        let (w, fresh, room) =
          make_room-IsValid k c (ground (arith, contains-lookup k c.cache)) v in
        rw (e, set) (insert_new-IsValid k x _ fresh room w)
  ]

  -- The key that a write of `k` pushes out: the least recently used one of a full cache, if `k` is new.
  abbrev pub victim : String → Lru V → Option String
  victim k c = elim (lookup k c.cache) [
    | some e ↦ none
    | none ↦ if leb c.max_size (length c.cache) then back c.lru_list else none
  ]

  lookup-set_full :
      (k j i : String) (x : V) (c : Lru V)
      → lookup k c.cache ≡ none
      → leb c.max_size (length c.cache) ≡ true
      → back c.lru_list ≡ some i
      → evict_oldest c ≡ discard i c
      → lookup j (set k x c).cache
        ≡ (if k == j then some x else if i == j then none else lookup j c.cache)
  unfolding set
  lookup-set_full k j i x c e full last out =
      rw (e, set, full, out)
        (ground (arith, lookup-insert k j x (discard i c).cache, lookup-discard i j c))

  -- After a write the key has the new entry, the victim is gone, and every other key is unchanged.
  pub lookup-set :
      (k j : String) (x : V) (c : Lru V)
      → IsValid c
      → lookup j (set k x c).cache
        ≡ (if k == j then some x else if is_some_of (victim k c) j then none else lookup j c.cache)
  unfolding set move_to_front
  lookup-set k j x c v = elim (Option-cases (lookup k c.cache)) [
    | inr (old, e) ↦ ground (arith, lookup-insert k j x c.cache)
    | inl e ↦ elim (Bool-cases (leb c.max_size (length c.cache))) [
      | inr room ↦ ground (arith, lookup-insert k j x c.cache)
      | inl full ↦
          let (i, last, out, held) = evict_oldest_lem c v (ground (arith, v.positive)) in
          let found = lookup-set_full k j i x c e full last out in ground (arith, found)
    ]
  ]
