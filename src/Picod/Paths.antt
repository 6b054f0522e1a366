-- ===== src/Picod/Paths.antt =====
-- The paths that pkg/picod/files.go computes with: `filepath.Clean`, `Join` and `Rel` of Unix, on
-- the names between the slashes. A clean absolute path is the list of its names.
use agentcube.Prelude.{
  String, ◌≡◌, refl, Bool, true, false, ◌||◌, Bool-cases, List, [], ◌∷◌, ◌++◌, arith, ◌==◌,
  if◌then◌else◌, inl, inr, ==_self,
}

abbrev pub Names : Type 0
Names = List String

-- A path as it is given: whether it begins with a slash, and what `strings.Split` finds after it.
pub record Raw : Type 0 where
  pub absolute : Bool
  pub parts : Names

abbrev pub from_root : Names → Raw
from_root parts = record { absolute = true; parts = parts }

abbrev pub dotdot : String
dotdot = ".."

abbrev is_skipped : String → Bool
is_skipped s = s == "" || s == "."

abbrev reverse_onto : Names → Names → Names
reverse_onto [] ys = ys
reverse_onto (x ∷ xs) ys = reverse_onto xs (x ∷ ys)

abbrev pub reverse : Names → Names
reverse xs = reverse_onto xs []

abbrev drop_last : Names → Names
drop_last [] = []
drop_last (x ∷ xs) = xs

-- `out` is what has been written, the last name first. At the root ".." is dropped.
unfoldable pub clean_rooted : Names → Names → Names
clean_rooted out [] = reverse_onto out []
clean_rooted out (p ∷ ps) =
    clean_rooted (if is_skipped p then out else if p == dotdot then drop_last out else p ∷ out) ps

-- In a relative path ".." that has nothing to go back over is kept.
abbrev go_back : Names → Names
go_back [] = dotdot ∷ []
go_back (x ∷ xs) = if x == dotdot then dotdot ∷ x ∷ xs else xs

unfoldable pub clean_relative : Names → Names → Names
clean_relative out [] = reverse_onto out []
clean_relative out (p ∷ ps) =
    clean_relative (if is_skipped p then out else if p == dotdot then go_back out else p ∷ out) ps

-- `filepath.Clean`, and the leading slash taken off.
unfoldable pub clean : Raw → Names
clean p = if p.absolute then clean_rooted [] p.parts else clean_relative [] p.parts

-- `filepath.Join` of an absolute path and a cleaned one.
unfoldable pub join : Names → Names → Names
join base path = clean_rooted [] (base ++ path)

abbrev dots : Names → Names
dots [] = []
dots (b ∷ base) = dotdot ∷ dots base

-- `filepath.Rel` of two clean absolute paths, which does not fail.
unfoldable pub rel : Names → Names → Names
rel [] target = target
rel (b ∷ base) [] = dots (b ∷ base)
rel (b ∷ base) (t ∷ target) =
    let rest = rel base target in if b == t then rest else dots (b ∷ base) ++ (t ∷ target)

-- `strings.HasPrefix(rel, "../") || rel == ".."`
unfoldable pub escapes : Names → Bool
escapes [] = false
escapes (x ∷ xs) = x == dotdot

-- `target` is `base` or lies below it.
abbrev pub IsWithin : Names → Names → Type 0
IsWithin base target = (rest : Names) × (target ≡ base ++ rest)

-- A relative path that does not lead upwards belongs to a path below the base.
pub rel-IsWithin : (base target : Names) → escapes (rel base target) ≡ false → IsWithin base target
unfolding rel escapes
rel-IsWithin [] target h = (target, refl)
rel-IsWithin (b ∷ base) [] h = absurd (ground (arith, ==_self dotdot))
rel-IsWithin (b ∷ base) (t ∷ target) h = elim (Bool-cases (b == t)) [
  | inr e ↦ absurd (ground (arith, ==_self dotdot))
  | inl e ↦
      let (rest, same) = rel-IsWithin base target (ground arith) in (rest, ground (arith, same))
]

-- Names that `filepath.Clean` leaves alone.
abbrev pub IsPlain : Names → Type 0
IsPlain [] = Unit
IsPlain (x ∷ xs) = (is_skipped x ≡ false) × ((x == dotdot) ≡ false) × IsPlain xs

reverse_onto-IsPlain : (xs ys : Names) → IsPlain xs → IsPlain ys → IsPlain (reverse_onto xs ys)
reverse_onto-IsPlain [] ys hx hy = hy
reverse_onto-IsPlain (x ∷ xs) ys hx hy = reverse_onto-IsPlain xs (x ∷ ys) hx.2 (hx.0, hx.1, hy)

drop_last-IsPlain : (xs : Names) → IsPlain xs → IsPlain (drop_last xs)
drop_last-IsPlain [] h = tt
drop_last-IsPlain (x ∷ xs) h = h.2

clean_rooted-IsPlain : (out ps : Names) → IsPlain out → IsPlain (clean_rooted out ps)
unfolding clean_rooted
clean_rooted-IsPlain out [] h = reverse_onto-IsPlain out [] h tt
clean_rooted-IsPlain out (p ∷ ps) h = elim (Bool-cases (is_skipped p)) [
  | inl e ↦ rw e (clean_rooted-IsPlain out ps h)
  | inr e ↦ elim (Bool-cases (p == dotdot)) [
    | inl f ↦ rw (e, f) (clean_rooted-IsPlain (drop_last out) ps (drop_last-IsPlain out h))
    | inr f ↦ rw (e, f) (clean_rooted-IsPlain (p ∷ out) ps (e, f, h))
  ]
]

pub join-IsPlain : (base path : Names) → IsPlain (join base path)
unfolding join
join-IsPlain base path = clean_rooted-IsPlain [] (base ++ path) tt

-- Plain names are written out as they are.
clean_rooted-plain : (out ps : Names) → IsPlain ps → clean_rooted out ps ≡ reverse_onto out ps
unfolding clean_rooted
clean_rooted-plain out [] h = refl
clean_rooted-plain out (p ∷ ps) h = rw (h.0, h.1) (clean_rooted-plain (p ∷ out) ps h.2)

append-IsPlain : (xs ys : Names) → IsPlain xs → IsPlain ys → IsPlain (xs ++ ys)
append-IsPlain [] ys hx hy = hy
append-IsPlain (x ∷ xs) ys hx hy = (hx.0, hx.1, append-IsPlain xs ys hx.2 hy)

pub join-plain : (base path : Names) → IsPlain base → IsPlain path → join base path ≡ base ++ path
unfolding join
join-plain base path hb hp = clean_rooted-plain [] (base ++ path) (append-IsPlain base path hb hp)

pub clean-absolute : (parts : Names) → IsPlain (clean (from_root parts))
unfolding clean
clean-absolute parts = clean_rooted-IsPlain [] parts tt

pub rel-append : (base rest : Names) → rel base (base ++ rest) ≡ rest
unfolding rel
rel-append [] rest = refl
rel-append (b ∷ base) rest = ground (arith, ==_self b, rel-append base rest)

pub escapes-plain : (names : Names) → IsPlain names → escapes names ≡ false
unfolding escapes
escapes-plain [] h = refl
escapes-plain (x ∷ xs) h = h.1
