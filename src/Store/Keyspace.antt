-- ===== src/Store/Keyspace.antt =====
-- The documented data model of Redis and Valkey, in which the hypotheses about the two clients are
-- stated: keys that hold a text or a sorted set, and what the commands that the stores send do to
-- them. A sorted set that loses its last member is gone. Scores are the Unix seconds that the stores
-- write, which a float holds exactly.
use agentcube.Prelude.{
  ℕ, ◌≤◌, ◌≡◌, ◌≢◌, refl, sym, ◌∙◌, String, Bool, true, false, Option, none, some, List, [], ◌∷◌,
  arith, ◌==◌, if◌then◌else◌,
}
use agentcube.Prelude.Dict
use agentcube.Prelude.Dict.{Dict, lookup, insert, erase}
use agentcube.Prelude.Lists.{length, All, contains, Distinct}

pub data Entry : Type 0 where
  text : String → Entry
  sorted : Dict ℕ → Entry

abbrev pub Keyspace : Type 0
Keyspace = String → Option Entry

abbrev entry_text : Option Entry → Option String
entry_text (some (text t)) = some t
entry_text _ = none

abbrev entry_score : Option Entry → String → Option ℕ
entry_score (some (sorted z)) m = lookup m z
entry_score _ m = none

-- GET and ZSCORE.
unfoldable pub text_at : Keyspace → String → Option String
text_at ks k = entry_text (ks k)

unfoldable pub score_at : Keyspace → String → String → Option ℕ
score_at ks k m = entry_score (ks k) m

abbrev is_present : Option Entry → Bool
is_present none = false
is_present (some e) = true

-- EXISTS.
unfoldable pub exists : Keyspace → String → Bool
exists ks k = is_present (ks k)

pub data Command : Type 0 where
  set_nx : String → String → Command
  zadd : String → ℕ → String → Command
  del : String → Command
  zrem : String → String → Command

abbrev as_sorted : Dict ℕ → Option Entry
as_sorted [] = none
as_sorted (e ∷ z) = some (sorted (e ∷ z))

-- What a command makes of the entry of its key. A command at a key of the wrong kind fails.
abbrev change : Command → Option Entry → Option Entry
change (set_nx k b) none = some (text b)
change (set_nx k b) (some e) = some e
change (zadd k s m) none = some (sorted (insert m s []))
change (zadd k s m) (some (sorted z)) = some (sorted (insert m s z))
change (zadd k s m) (some (text t)) = some (text t)
change (del k) e = none
change (zrem k m) (some (sorted z)) = as_sorted (erase m z)
change (zrem k m) none = none
change (zrem k m) (some (text t)) = some (text t)

abbrev pub target : Command → String
target (set_nx k b) = k
target (zadd k s m) = k
target (del k) = k
target (zrem k m) = k

unfoldable pub apply : Command → Keyspace → Keyspace
apply c ks j = if target c == j then change c (ks j) else ks j

unfoldable pub apply_all : List Command → Keyspace → Keyspace
apply_all [] ks = ks
apply_all (c ∷ cs) ks = apply_all cs (apply c ks)

-- SET with XX, at an existing key.
unfoldable pub overwrite : String → String → Keyspace → Keyspace
overwrite k b ks j = if k == j then some (text b) else ks j

-- ZRANGEBYSCORE key -inf max LIMIT 0 limit: members of least score, in order of their score.
pub record Ranged (ks : Keyspace) (k : String) (max limit : ℕ) (zs : List (String × ℕ))
    : Type 0 where
  pub scored : All (λ z. (score_at ks k z.0 ≡ some z.1) × (z.1 ≤ max)) zs
  pub limited : length zs ≤ limit
  pub once : Distinct (Dict.keys zs)
  pub least :
      (m : String) (s : ℕ)
      → score_at ks k m ≡ some s
      → s ≤ max
      → contains (Dict.keys zs) m ≡ false
      → (limit ≤ length zs) × All (λ z. z.1 ≤ s) zs

entry_score-zadd :
    (k : String) (s : ℕ) (m n : String) (e : Option Entry)
    → entry_text e ≡ none
    → entry_score (change (zadd k s m) e) n ≡ (if m == n then some s else entry_score e n)
entry_score-zadd k s m n none h =
    Dict.lookup-insert m n s [] ∙ ground (arith, Dict.lookup-nil {V = ℕ} n)
entry_score-zadd k s m n (some (sorted z)) h = Dict.lookup-insert m n s z
entry_score-zadd k s m n (some (text t)) h = cc

entry_score-as_sorted : (z : Dict ℕ) (n : String) → entry_score (as_sorted z) n ≡ lookup n z
entry_score-as_sorted [] n = sym (Dict.lookup-nil n)
entry_score-as_sorted (e ∷ z) n = refl

entry_text-as_sorted : (z : Dict ℕ) → entry_text (as_sorted z) ≡ none
entry_text-as_sorted [] = refl
entry_text-as_sorted (e ∷ z) = refl

entry_score-zrem :
    (k m n : String) (e : Option Entry)
    → entry_score (change (zrem k m) e) n ≡ (if m == n then none else entry_score e n)
entry_score-zrem k m n none = ground arith
entry_score-zrem k m n (some (sorted z)) =
    entry_score-as_sorted (erase m z) n ∙ Dict.lookup-erase m n z
entry_score-zrem k m n (some (text t)) = ground arith

entry_text-zrem :
    (k m : String) (e : Option Entry) → entry_text (change (zrem k m) e) ≡ entry_text e
entry_text-zrem k m none = refl
entry_text-zrem k m (some (sorted z)) = entry_text-as_sorted (erase m z)
entry_text-zrem k m (some (text t)) = refl

-- What the commands do to the texts and scores that can be read.
pub text_at-set_nx :
    (k b j : String) (ks : Keyspace)
    → text_at (apply (set_nx k b) ks) j
      ≡ (if k == j then (if exists ks j then text_at ks j else some b) else text_at ks j)
unfolding text_at apply exists
text_at-set_nx k b j ks = ground arith

pub score_at-set_nx :
    (k b j m : String) (ks : Keyspace) → score_at (apply (set_nx k b) ks) j m ≡ score_at ks j m
unfolding score_at apply exists
score_at-set_nx k b j m ks = ground arith

pub text_at-zadd :
    (k : String) (s : ℕ) (m j : String) (ks : Keyspace)
    → text_at (apply (zadd k s m) ks) j ≡ text_at ks j
unfolding text_at apply
text_at-zadd k s m j ks = ground arith

pub score_at-zadd :
    (k : String) (s : ℕ) (m j n : String) (ks : Keyspace)
    → text_at ks k ≡ none
    → score_at (apply (zadd k s m) ks) j n
      ≡ (if k == j then (if m == n then some s else score_at ks j n) else score_at ks j n)
unfolding score_at text_at apply
score_at-zadd k s m j n ks h = ground (arith, entry_score-zadd k s m n (ks j))

pub text_at-del :
    (k j : String) (ks : Keyspace)
    → text_at (apply (del k) ks) j ≡ (if k == j then none else text_at ks j)
unfolding text_at apply
text_at-del k j ks = ground arith

pub score_at-del :
    (k j m : String) (ks : Keyspace)
    → score_at (apply (del k) ks) j m ≡ (if k == j then none else score_at ks j m)
unfolding score_at apply
score_at-del k j m ks = ground arith

pub text_at-zrem : (k m j : String) (ks : Keyspace) → text_at (apply (zrem k m) ks) j ≡ text_at ks j
unfolding text_at apply
text_at-zrem k m j ks = ground (arith, entry_text-zrem k m (ks j))

pub score_at-zrem :
    (k m j n : String) (ks : Keyspace)
    → score_at (apply (zrem k m) ks) j n
      ≡ (if k == j then (if m == n then none else score_at ks j n) else score_at ks j n)
unfolding score_at apply
score_at-zrem k m j n ks = ground (arith, entry_score-zrem k m n (ks j))

pub text_at-overwrite :
    (k b j : String) (ks : Keyspace)
    → text_at (overwrite k b ks) j ≡ (if k == j then some b else text_at ks j)
unfolding text_at overwrite
text_at-overwrite k b j ks = ground arith

-- At a key that holds no sorted set.
pub score_at-overwrite :
    (k b j m : String) (ks : Keyspace) → k ≢ j → score_at (overwrite k b ks) j m ≡ score_at ks j m
unfolding score_at overwrite
score_at-overwrite k b j m ks h = ground arith

pub exists_of_text : (ks : Keyspace) (k b : String) → text_at ks k ≡ some b → exists ks k ≡ true
unfolding exists text_at
exists_of_text ks k b h = ground arith

pub exists-set_nx :
    (k b j : String) (ks : Keyspace)
    → exists (apply (set_nx k b) ks) j ≡ (if k == j then true else exists ks j)
unfolding exists apply
exists-set_nx k b j ks = ground arith

pub exists-overwrite :
    (k b j : String) (ks : Keyspace)
    → exists (overwrite k b ks) j ≡ (if k == j then true else exists ks j)
unfolding exists overwrite
exists-overwrite k b j ks = ground arith

pub exists-del :
    (k j : String) (ks : Keyspace)
    → exists (apply (del k) ks) j ≡ (if k == j then false else exists ks j)
unfolding exists apply
exists-del k j ks = ground arith

-- A command leaves the other keys alone.
pub exists-apply :
    (c : Command) (j : String) (ks : Keyspace) → target c ≢ j → exists (apply c ks) j ≡ exists ks j
unfolding exists apply
exists-apply c j ks h = ground arith
