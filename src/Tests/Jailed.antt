-- ===== src/Tests/Jailed.antt =====
-- The theorems about paths and modes at concrete data, and an upload below a symbolic link.
use agentcube.Prelude.{
  ℕ, ◌+◌, ◌*◌, ◌≡◌, refl, Bool, true, false, some, [], ◌∷◌, ◌++◌, arith, ◌==◌, string_discrete,
  subst, Bool-cases, inl, inr, ◌⊎◌, if◌then◌else◌,
}
use agentcube.Errors.{Error, message, Result, ok, err}
use agentcube.Picod.Modes.{parse_file_mode, print_file_mode, parse-print_file_mode}
use agentcube.Picod.Paths.{
  Names, Raw, from_root, reverse, clean, clean_rooted, clean_relative, join, rel, escapes, IsWithin,
  IsPlain,
}
use agentcube.Picod.Jail.{
  Files, resolve_workspace, sanitize_path, check_ancestor, mkdir_safe, IsDeepest, here, above,
  sanitize_path-IsWithin, mkdir_safe-IsWithin,
}

-- A workspace with a file `b`, in which `link` points to the root and nothing else is there; the world counts the
-- directories that are made.
abbrev pub resolved : Names → Result Names
resolved [] = ok []
resolved (a ∷ []) = if a == "work" then ok ("work" ∷ []) else err (message "missing")
resolved (a ∷ b ∷ []) =
    if a == "work"
    then (if b == "link"
        then ok []
        else if b == "b"
        then ok ("work" ∷ "b" ∷ [])
        else err (message "missing"))
    else err (message "missing")
resolved (a ∷ b ∷ c ∷ names) = err (message "missing")

abbrev is_there : Result Names → Bool
is_there (ok names) = true
is_there (err e) = false

abbrev pub files : Files ℕ
files = record {
  eval_symlinks = λ names w. resolved names;
  lstat = λ names w. is_there (resolved names);
  mkdir_all = λ names w. (ok tt, w + 1);
}

work-IsPlain : IsPlain ("work" ∷ [])
unfolding string_discrete
work-IsPlain = (refl, refl, tt)

file-IsPlain : IsPlain ("work" ∷ "b" ∷ [])
unfolding string_discrete
file-IsPlain = (refl, refl, (refl, refl, tt))

pub resolved-IsPlain : (names found : Names) → resolved names ≡ ok found → IsPlain found
resolved-IsPlain [] found h = let same : [] ≡ found = ground arith in subst IsPlain same tt
resolved-IsPlain (a ∷ []) found h = elim (Bool-cases (a == "work")) [
  | inl e ↦ let same : ("work" ∷ []) ≡ found = ground arith in subst IsPlain same work-IsPlain
  | inr e ↦ absurd (ground arith)
]
resolved-IsPlain (a ∷ b ∷ []) found h = elim (Bool-cases (a == "work")) [
  | inr e ↦ absurd (ground arith)
  | inl e ↦ elim (Bool-cases (b == "link")) [
    | inl f ↦ let same : [] ≡ found = ground arith in subst IsPlain same tt
    | inr f ↦ elim (Bool-cases (b == "b")) [
      | inr g ↦ absurd (ground arith)
      | inl g ↦
          let same : ("work" ∷ "b" ∷ []) ≡ found = ground arith in subst IsPlain same file-IsPlain
    ]
  ]
]
resolved-IsPlain (a ∷ b ∷ c ∷ names) found h = absurd (ground arith)

abbrev pub climbing : Raw
climbing = record { absolute = false; parts = "a" ∷ ".." ∷ "b" ∷ [] }

accepted : sanitize_path files (some ("work" ∷ [])) climbing 0 ≡ ok ("work" ∷ "b" ∷ [])
unfolding sanitize_path resolve_workspace clean clean_relative join clean_rooted rel escapes
    string_discrete
accepted = refl

sanitize_path-IsWithin_example :
    IsWithin (resolve_workspace files ("work" ∷ []) 0) ("work" ∷ "b" ∷ [])
    × IsPlain ("work" ∷ "b" ∷ [])
sanitize_path-IsWithin_example =
    sanitize_path-IsWithin files ("work" ∷ []) climbing 0 ("work" ∷ "b" ∷ [])
      (λ names found h. resolved-IsPlain names found h) accepted

abbrev rooted : Names
rooted = ".." ∷ ".." ∷ "etc" ∷ "passwd" ∷ []

missing :
    files.eval_symlinks (resolve_workspace files ("work" ∷ []) 0 ++ clean (from_root rooted)) 0
    ≡ err (message "missing")
unfolding resolve_workspace clean clean_rooted string_discrete
missing = refl

work_resolved : IsPlain (resolve_workspace files ("work" ∷ []) 0)
unfolding resolve_workspace string_discrete
work_resolved = (refl, refl, tt)

-- A path below the link is accepted unresolved while it is not there, and making its directory is
-- refused.
below_link :
    sanitize_path files
      (some ("work" ∷ []))
      (record { absolute = false; parts = "link" ∷ "new" ∷ [] })
      0
    ≡ ok ("work" ∷ "link" ∷ "new" ∷ [])
unfolding sanitize_path resolve_workspace clean clean_relative join clean_rooted rel escapes
    string_discrete
below_link = refl

below_link_refused : (mkdir_safe files ("work" ∷ []) ("work" ∷ "link" ∷ "new" ∷ []) 0).1 ≡ 0
unfolding mkdir_safe check_ancestor resolve_workspace rel escapes string_discrete
below_link_refused = refl

work_there : files.lstat (reverse ("work" ∷ [])) 0 ≡ true
unfolding string_discrete
work_there = refl

new_missing : files.lstat (reverse ("new" ∷ "work" ∷ [])) 0 ≡ false
unfolding string_discrete
new_missing = refl

deepest : IsDeepest files 0 ("new" ∷ "work" ∷ []) ("work" ∷ [])
deepest = above "new" ("work" ∷ []) ("work" ∷ []) new_missing (here ("work" ∷ []) work_there)

directory_made : (mkdir_safe files ("work" ∷ []) ("work" ∷ "new" ∷ []) 0).0 ≡ ok tt
unfolding mkdir_safe check_ancestor resolve_workspace rel escapes string_discrete
directory_made = refl

mkdir_safe-IsWithin_example :
    let made = mkdir_safe files ("work" ∷ []) ("work" ∷ "new" ∷ []) 0 in
    ((e : Error) × (made ≡ (err e, 0)))
    ⊎ (made ≡ files.mkdir_all ("work" ∷ "new" ∷ []) 0)
      × (found : Names) × ((files.eval_symlinks (reverse ("work" ∷ [])) 0 ≡ ok found)
          × IsWithin (resolve_workspace files ("work" ∷ []) 0) found)
mkdir_safe-IsWithin_example =
    mkdir_safe-IsWithin files ("work" ∷ []) ("work" ∷ "new" ∷ []) ("work" ∷ []) 0 deepest

parse-print_file_mode_example : parse_file_mode (print_file_mode 7 5 5) ≡ 7 * 64 + 5 * 8 + 5
parse-print_file_mode_example =
    parse-print_file_mode 7 5 5 (omega arith) (omega arith) (omega arith)
