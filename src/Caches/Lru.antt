-- ===== src/Caches/Lru.antt =====
-- What the two caches of pkg/workloadmanager/client_cache.go share: a map from keys to entries and
-- the `list.List` of the entries, the most recently used first. An entry never changes its key or
-- its list element, so the list is that of the keys.
pub mod Entries
pub mod Laws
pub mod Steps
use agentcube.Prelude.{ℕ, String, Option, none, some, List, [], ◌∷◌, leb, ◌==◌, if◌then◌else◌}
use agentcube.Prelude.Dict.{Dict, lookup, insert, erase}
use agentcube.Prelude.Lists.{length}

pub record Lru (V : Type 0) : Type 0 where
  pub cache : Dict V
  pub lru_list : List String
  pub max_size : ℕ

-- `lruList.Remove(element)`
unfoldable pub without : String → List String → List String
without k [] = []
without k (x ∷ xs) = let rest = without k xs in if x == k then rest else x ∷ rest

-- `lruList.Back()`
unfoldable pub back : List String → Option String
back [] = none
back (x ∷ []) = some x
back (x ∷ y ∷ xs) = back (y ∷ xs)

module _ {V : Type 0} where
  unfoldable pub new : ℕ → Lru V
  new max_size = record { cache = []; lru_list = []; max_size = max_size }

  -- `lruList.MoveToFront(entry.element)`
  unfoldable pub move_to_front : String → Lru V → Lru V
  move_to_front k c = record c { lru_list = k ∷ without k c.lru_list }

  -- `lruList.Remove(entry.element)` and `delete(cache, key)`
  unfoldable pub discard : String → Lru V → Lru V
  discard k c = record c { cache = erase k c.cache; lru_list = without k c.lru_list }

  -- `evictOldest`
  unfoldable pub evict_oldest : Lru V → Lru V
  evict_oldest c = elim (back c.lru_list) [ none ↦ c | some k ↦ discard k c ]

  -- `Remove`
  unfoldable pub remove : String → Lru V → Lru V
  remove k c = elim (lookup k c.cache) [ none ↦ c | some e ↦ discard k c ]

  -- The entry of a key written in place, or pushed to the front of a cache with room for it.
  unfoldable pub set : String → V → Lru V → Lru V
  set k v c = elim (lookup k c.cache) [
    | some e ↦ move_to_front k (record c { cache = insert k v c.cache })
    | none ↦
        let d = if leb c.max_size (length c.cache) then evict_oldest c else c in
        record d { cache = insert k v d.cache; lru_list = k ∷ d.lru_list }
  ]

  -- `Size`
  unfoldable pub size : Lru V → ℕ
  size c = length c.cache
