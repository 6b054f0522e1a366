-- ===== src/Caches/Lru/Entries.antt =====
-- What holds of every entry of a cache of pkg/workloadmanager/client_cache.go.
use agentcube.Prelude.{String, ◌≡◌, subst, Bool-cases, inl, inr, true, some, arith, ◌==◌}
use agentcube.Prelude.Dict.{lookup, insert, lookup-insert}
use agentcube.Caches.Lru.{Lru, move_to_front, discard, set}
use agentcube.Caches.Lru.Laws.{IsValid, lookup-discard}
use agentcube.Caches.Lru.Steps.{lookup-set}

module _ {V : Type 0} (P : String → V → Type 0) where
  abbrev pub Every : Lru V → Type 0
  Every c = (k : String) (x : V) → lookup k c.cache ≡ some x → P k x

  pub Every-discard : (k : String) (c : Lru V) → Every c → Every (discard k c)
  Every-discard k c h j x e = h j x (ground (arith, lookup-discard k j c))

  pub Every-move_to_front : (k : String) (c : Lru V) → Every c → Every (move_to_front k c)
  unfolding move_to_front
  Every-move_to_front k c h = h

  at_key : (k j : String) (x y : V) → (k == j) ≡ true → x ≡ y → P k x → P j y
  at_key k j x y e f h =
      let same : k ≡ j = ground arith in subst (λ i. P i y) same (subst (P k) f h)

  pub Every-rewrite :
      (k : String) (x : V) (c : Lru V)
      → Every c
      → P k x
      → Every (record c { cache = insert k x c.cache })
  Every-rewrite k x c h p j y e = elim (Bool-cases (k == j)) [
    | inl same ↦ at_key k j x y same (ground (arith, lookup-insert k j x c.cache)) p
    | inr other ↦ h j y (ground (arith, lookup-insert k j x c.cache))
  ]

  pub Every-set : (k : String) (x : V) (c : Lru V) → IsValid c → Every c → P k x → Every (set k x c)
  Every-set k x c v h p j y e = elim (Bool-cases (k == j)) [
    | inl same ↦ at_key k j x y same (ground (arith, lookup-set k j x c v)) p
    | inr other ↦ h j y (ground (arith, lookup-set k j x c v))
  ]
