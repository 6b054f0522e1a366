-- ===== src/Picod/Jail.antt =====
-- `sanitizePath` and `mkdirSafe` of pkg/picod/files.go. The file system is a parameter: a world `W`
-- that the calls read or change.
use agentcube.Prelude.{
  String, ◌≡◌, subst, Bool, true, false, Bool-cases, Option, none, some, [], ◌∷◌, ◌++◌, arith,
  if◌then◌else◌, inl, inr, ◌⊎◌, refl,
}
use agentcube.Errors.{Error, message, wrap, Result, ok, err, Result-cases, Try}
use agentcube.Picod.Paths.{
  Names, Raw, from_root, reverse, clean, join, rel, escapes, IsWithin, IsPlain, rel-IsWithin,
  join-IsPlain, join-plain, clean-absolute, rel-append, escapes-plain,
}

pub record Files (W : Type 0) : Type 0 where
  -- `filepath.EvalSymlinks` and `os.Lstat` (whether it succeeds) of an absolute path.
  pub eval_symlinks : Names → W → Result Names
  pub lstat : Names → W → Bool
  -- `os.MkdirAll`
  pub mkdir_all : Names → Try W (Unit {0})

module _ {W : Type 0} (F : Files W) where
  -- Where the workspace is, without symbolic links if they can be resolved.
  unfoldable pub resolve_workspace : Names → W → Names
  resolve_workspace workspace w = elim (F.eval_symlinks workspace w) [
    | ok resolved ↦ resolved
    | err e ↦ workspace
  ]

  -- The workspace is absolute and clean, as `setWorkspace` leaves it; `none` where it is not set.
  unfoldable pub sanitize_path : Option Names → Raw → W → Result Names
  sanitize_path none p w = err (message "workspace directory not initialized")
  sanitize_path (some workspace) p w =
      let resolved = resolve_workspace workspace w in
      let candidate = join resolved (clean p) in
      if escapes (rel resolved candidate)
      then err (message "access denied: path escapes workspace jail")
      else elim (F.eval_symlinks candidate w) [
        | ok final ↦
            if escapes (rel resolved final)
            then err (message "access denied: resolved path escapes workspace jail via symlink")
            else ok final
        | err e ↦ ok candidate
      ]

  -- The walk up to the deepest ancestor that exists: whether it lies in the workspace. The names are
  -- those of the path, the last one first; at the root the walk ends.
  unfoldable pub check_ancestor : Names → Names → W → Result (Unit {0})
  check_ancestor resolved [] w = elim (F.lstat [] w) [
    | true ↦ elim (F.eval_symlinks [] w) [
      | err e ↦ err (wrap e)
      | ok found ↦
          if escapes (rel resolved found)
          then err (message "access denied: path escapes workspace jail via symlink")
          else ok tt
    ]
    | false ↦ ok tt
  ]
  check_ancestor resolved (x ∷ above) w =
      let rest = check_ancestor resolved above w in
      let existing = reverse (x ∷ above) in
      elim (F.lstat existing w) [
        | true ↦ elim (F.eval_symlinks existing w) [
          | err e ↦ err (wrap e)
          | ok found ↦
              if escapes (rel resolved found)
              then err (message "access denied: path escapes workspace jail via symlink")
              else ok tt
        ]
        | false ↦ rest
      ]

  unfoldable pub mkdir_safe : Names → Names → Try W (Unit {0})
  mkdir_safe workspace dir w =
      elim (check_ancestor (resolve_workspace workspace w) (reverse dir) w) [
        | err e ↦ (err e, w)
        | ok _ ↦ F.mkdir_all dir w
      ]

  -- A path that is accepted begins with the names of the workspace and has no name that leads back,
  -- provided that
  -- `filepath.EvalSymlinks` gives clean paths.
  pub sanitize_path-IsWithin :
      (workspace : Names) (p : Raw) (w : W) (q : Names)
      → ((names found : Names) → F.eval_symlinks names w ≡ ok found → IsPlain found)
      → sanitize_path (some workspace) p w ≡ ok q
      → IsWithin (resolve_workspace workspace w) q × IsPlain q
  unfolding sanitize_path
  sanitize_path-IsWithin workspace p w q plain h =
      let resolved = resolve_workspace workspace w in
      let candidate = join resolved (clean p) in
      elim (Bool-cases (escapes (rel resolved candidate))) [
        | inl e ↦ absurd (ground arith)
        | inr e ↦ elim (Result-cases (F.eval_symlinks candidate w)) [
          | inr (x, f) ↦
              let same : candidate ≡ q = ground arith in
              (
                subst (IsWithin resolved) same (rel-IsWithin resolved candidate e),
                subst IsPlain same (join-IsPlain resolved (clean p)),
              )
          | inl (final, f) ↦ elim (Bool-cases (escapes (rel resolved final))) [
            | inl g ↦ absurd (ground arith)
            | inr g ↦
                let same : final ≡ q = ground arith in
                (
                  subst (IsWithin resolved) same (rel-IsWithin resolved final g),
                  subst IsPlain same (plain candidate final f),
                )
          ]
        ]
      ]

  -- An accepted path that can be resolved is the place that the requested one leads to.
  pub sanitize_path-resolved :
      (workspace : Names) (p : Raw) (w : W) (q : Names)
      → (found : Names) × (F.eval_symlinks q w ≡ ok found)
      → sanitize_path (some workspace) p w ≡ ok q
      → F.eval_symlinks (join (resolve_workspace workspace w) (clean p)) w ≡ ok q
  unfolding sanitize_path
  sanitize_path-resolved workspace p w q (found, there) h =
      let resolved = resolve_workspace workspace w in
      let candidate = join resolved (clean p) in
      elim (Bool-cases (escapes (rel resolved candidate))) [
        | inl e ↦ absurd (ground arith)
        | inr e ↦ elim (Result-cases (F.eval_symlinks candidate w)) [
          | inr (x, f) ↦ absurd (ground arith)
          | inl (final, f) ↦ elim (Bool-cases (escapes (rel resolved final))) [
            | inl g ↦ absurd (ground arith)
            | inr g ↦ ground arith
          ]
        ]
      ]

  -- An absolute path is taken from the workspace, whatever ".." it has: where nothing is there yet,
  -- it is accepted as the path below the workspace that its cleaned names give.
  pub sanitize_path-absolute :
      (workspace parts : Names) (w : W) (e : Error)
      → IsPlain (resolve_workspace workspace w)
      → F.eval_symlinks (resolve_workspace workspace w ++ clean (from_root parts)) w ≡ err e
      → sanitize_path (some workspace) (from_root parts) w
        ≡ ok (resolve_workspace workspace w ++ clean (from_root parts))
  unfolding sanitize_path
  sanitize_path-absolute workspace parts w e plain gone =
      let p = from_root parts in
      let resolved = resolve_workspace workspace w in
      let tail = clean-absolute parts in
      ground (
        arith,
        join-plain resolved (clean p) plain tail,
        rel-append resolved (clean p),
        escapes-plain (clean p) tail,
      )

  -- `top` is the deepest ancestor of a path that exists, both with the last name first.
  pub data IsDeepest (w : W) : Names → Names → Type 0 where
    here : (names : Names) → F.lstat (reverse names) w ≡ true → IsDeepest w names names
    above :
        (x : String) (names top : Names)
        → F.lstat (reverse (x ∷ names)) w ≡ false
        → IsDeepest w names top
        → IsDeepest w (x ∷ names) top

  check_here :
      (resolved names : Names) (w : W)
      → F.lstat (reverse names) w ≡ true
      → check_ancestor resolved names w ≡ ok tt
      → (found : Names) × ((F.eval_symlinks (reverse names) w ≡ ok found) × IsWithin resolved found)
  unfolding check_ancestor
  check_here resolved [] w there h = elim (Result-cases (F.eval_symlinks [] w)) [
    | inr (x, e) ↦ absurd (ground arith)
    | inl (found, e) ↦ (found, (e, rel-IsWithin resolved found (ground arith)))
  ]
  check_here resolved (x ∷ names) w there h =
      elim (Result-cases (F.eval_symlinks (reverse (x ∷ names)) w)) [
        | inr (y, e) ↦ absurd (ground arith)
        | inl (found, e) ↦ (found, (e, rel-IsWithin resolved found (ground arith)))
      ]

  check_deepest :
      (w : W) (resolved names top : Names)
      → IsDeepest w names top
      → check_ancestor resolved names w ≡ ok tt
      → check_ancestor resolved top w ≡ ok tt
  unfolding check_ancestor
  check_deepest w resolved names top (here _ there) h = h
  check_deepest w resolved _ top (above x names _ missing d) h =
      check_deepest w resolved names top d (ground arith)

  top_exists : (w : W) (names top : Names) → IsDeepest w names top → F.lstat (reverse top) w ≡ true
  top_exists w names top (here _ there) = there
  top_exists w names top (above x _ _ missing d) = top_exists w _ top d

  -- Unless the deepest ancestor that exists resolves to a place in the workspace, no directory is
  -- made: the call is refused and changes nothing. Otherwise it does what `os.MkdirAll` does, or is
  -- refused and changes nothing.
  pub mkdir_safe-IsWithin :
      (workspace dir top : Names) (w : W)
      → IsDeepest w (reverse dir) top
      → ((e : Error) × (mkdir_safe workspace dir w ≡ (err e, w)))
        ⊎ (mkdir_safe workspace dir w ≡ F.mkdir_all dir w)
          × (found : Names) × ((F.eval_symlinks (reverse top) w ≡ ok found)
              × IsWithin (resolve_workspace workspace w) found)
  unfolding mkdir_safe
  mkdir_safe-IsWithin workspace dir top w d =
      let resolved = resolve_workspace workspace w in
      elim (Result-cases (check_ancestor resolved (reverse dir) w)) [
        | inr (x, e) ↦ inl (x, rw (mkdir_safe, e) refl)
        | inl (_, e) ↦
            let (found, inside) =
              check_here resolved top w (top_exists w (reverse dir) top d)
                (check_deepest w resolved (reverse dir) top d e) in
            inr (rw (mkdir_safe, e) refl, found, inside)
      ]
