-- ===== src/Picod/Transfers.antt =====
-- The handlers of pkg/picod/files.go that upload, download and list files. A request is what gin binds
-- it to; `decode` is the base64 decoder.
use agentcube.Prelude.{
  ℕ, String, ◌≡◌, refl, false, Bool-cases, some, List, [], ◌∷◌, arith, ◌==◌, if◌then◌else◌, inl,
  inr, ◌⊎◌, ◌≤◌,
}
use Prim.Native.String.{slice, len}
use text.Mathlib.Text.{starts_with}
use agentcube.Errors.{Result, ok, err, Result-cases}
use agentcube.Picod.Paths.{Names, rel, join, clean, IsWithin, IsPlain}
use agentcube.Picod.Jail.{
  sanitize_path, resolve_workspace, sanitize_path-IsWithin, sanitize_path-resolved,
}
use agentcube.Picod.Modes.{parse_file_mode, parse_file_mode-bound}
use agentcube.Picod.Disk.{
  Disk, Answer, refuse, info_answer, FileStat, FileEntry, dir, listing, content,
}

pub record UploadFileRequest : Type 0 where
  pub path : String
  pub content : String
  pub mode : String

-- The form of a multipart upload: the file that is opened may fail to be read.
pub record UploadForm : Type 0 where
  pub path : String
  pub file : Result (Result (List ℕ))
  pub mode : String

-- `strings.TrimPrefix(path, "/")`
abbrev trim_slash : String → String
trim_slash path = if starts_with path "/" then slice path 1 (len path) else path

-- Entries whose information cannot be read are left out.
unfoldable pub readable : List (String × Result FileStat) → List FileEntry
readable [] = []
readable ((name, ok stat) ∷ entries) = record { name = name; stat = stat } ∷ readable entries
readable ((name, err e) ∷ entries) = readable entries

module _ {W : Type 0} (D : Disk W) (workspace : Names) where
  -- What follows the write of a file.
  unfoldable pub answer_written : Names → W → Answer
  answer_written path w = elim (D.stat path w) [
    | err e ↦ refuse 500 "Failed to get file info"
    | ok stat ↦ info_answer (record { path = rel workspace path; stat = stat })
  ]

  -- From the creation of the directory on.
  unfoldable pub save : Names → List ℕ → String → W → Answer × W
  save path bytes mode w =
      let m = D.files.mkdir_all (dir path) w in
      let f = D.write_file path bytes (parse_file_mode (D.bytes mode)) m.1 in
      elim m.0 [
        | err e ↦ (refuse 500 "Failed to create directory", m.1)
        | ok _ ↦ (
          elim f.0 [ err e ↦ refuse 500 "Failed to write file" | ok _ ↦ answer_written path f.1 ],
          f.1,
        )
      ]

  unfoldable pub handle_json_base64_upload :
      (String → Result (List ℕ)) → Result UploadFileRequest → W → Answer × W
  handle_json_base64_upload decode (err e) w = (refuse 400 "invalid request", w)
  handle_json_base64_upload decode (ok req) w =
      elim (sanitize_path D.files (some workspace) (D.raw req.path) w) [
        | err e ↦ (refuse 400 "access denied", w)
        | ok path ↦ elim (decode req.content) [
          | err e ↦ (refuse 400 "Invalid base64 content", w)
          | ok bytes ↦ save path bytes req.mode w
        ]
      ]

  -- The directory is made before the uploaded file is opened.
  unfoldable pub handle_multipart_upload : UploadForm → W → Answer × W
  handle_multipart_upload form w =
      if form.path == "" then (refuse 400 "Missing 'path' field", w) else elim form.file [
        | err e ↦ (refuse 400 "Failed to get file", w)
        | ok opened ↦ elim (sanitize_path D.files (some workspace) (D.raw form.path) w) [
          | err e ↦ (refuse 400 "access denied", w)
          | ok path ↦ elim opened [
            | ok bytes ↦ save path bytes form.mode w
            | err e ↦
                let m = D.files.mkdir_all (dir path) w in
                (
                  elim m.0 [
                    | err e ↦ refuse 500 "Failed to create directory"
                    | ok _ ↦ refuse 500 "Failed to open uploaded file"
                  ],
                  m.1,
                )
          ]
        ]
      ]

  unfoldable pub download_file_handler : String → W → Answer
  download_file_handler path w =
      if path == ""
      then refuse 400 "Missing file path"
      else elim (sanitize_path D.files (some workspace) (D.raw (trim_slash path)) w) [
        | err e ↦ refuse 400 "access denied"
        | ok safe ↦ elim (D.stat safe w) [
          | err e ↦
              if D.is_not_exist e
              then refuse 404 "File not found"
              else refuse 500 "Failed to get file info"
          | ok stat ↦
              if stat.is_dir
              then refuse 400 "Path is a directory, not a file"
              else record { code = 200; body = content safe }
        ]
      ]

  unfoldable pub list_files_handler : String → W → Answer
  list_files_handler path w =
      if path == ""
      then refuse 400 "Missing 'path' query parameter"
      else elim (sanitize_path D.files (some workspace) (D.raw path) w) [
        | err e ↦ refuse 400 "access denied"
        | ok safe ↦ elim (D.read_dir safe w) [
          | err e ↦
              if D.is_not_exist e
              then refuse 404 "Directory not found"
              else refuse 500 "Failed to read directory"
          | ok entries ↦ record { code = 200; body = listing (readable entries) }
        ]
      ]

  -- What is served is the file that a path leads to.
  abbrev pub IsServed : String → W → Type 0
  IsServed path w =
      (safe : Names) × (stat : FileStat) × ((download_file_handler path w).body ≡ content safe)
      × (D.files.eval_symlinks
            (join (resolve_workspace D.files workspace w) (clean (D.raw (trim_slash path)))) w
          ≡ ok safe)
      × IsWithin (resolve_workspace D.files workspace w) safe
      × IsPlain safe
      × (D.stat safe w ≡ ok stat)
      × (stat.is_dir ≡ false)

  -- The file that is served is the one that the requested path, taken from the workspace, leads to
  -- with all symbolic links followed; it is no directory, and lies in the workspace. What the system
  -- has information on can be resolved, and `filepath.EvalSymlinks` gives clean paths.
  pub download_file_handler-IsServed :
      (path : String) (w : W)
      → ((names found : Names) → D.files.eval_symlinks names w ≡ ok found → IsPlain found)
      → ((names : Names) (stat : FileStat)
          → D.stat names w ≡ ok stat
          → (found : Names) × (D.files.eval_symlinks names w ≡ ok found))
      → (download_file_handler path w).code ≡ 200
      → IsServed path w
  unfolding download_file_handler
  download_file_handler-IsServed path w plain resolves h = elim (Bool-cases (path == "")) [
    | inl e ↦ absurd (ground arith)
    | inr e ↦
        elim (Result-cases (sanitize_path D.files (some workspace) (D.raw (trim_slash path)) w)) [
          | inr (x, f) ↦ absurd (ground arith)
          | inl (safe, f) ↦
              let (within, plain_names) =
                sanitize_path-IsWithin D.files workspace (D.raw (trim_slash path)) w safe plain f in
              elim (Result-cases (D.stat safe w)) [
                | inr (x, g) ↦ elim (Bool-cases (D.is_not_exist x)) [
                  | inl i ↦ absurd (ground arith)
                  | inr i ↦ absurd (ground arith)
                ]
                | inl (stat, g) ↦ elim (Bool-cases stat.is_dir) [
                  | inl i ↦ absurd (ground arith)
                  | inr i ↦ (
                    safe,
                    stat,
                    ground arith,
                    sanitize_path-resolved D.files workspace (D.raw (trim_slash path)) w safe
                        (resolves safe stat g) f,
                    within,
                    plain_names,
                    g,
                    i,
                  )
                ]
              ]
        ]
  ]

  -- What an upload does, by the code of its answer.
  abbrev pub IsUploaded : (String → Result (List ℕ)) → Result UploadFileRequest → W → Type 0
  IsUploaded decode r w =
      let a = handle_json_base64_upload decode r w in
      (a.0.code ≡ 400) × (a.1 ≡ w)
      ⊎ (req : UploadFileRequest) × (path : Names) × (bytes : List ℕ) × (r ≡ ok req)
        × (sanitize_path D.files (some workspace) (D.raw req.path) w ≡ ok path)
        × (decode req.content ≡ ok bytes)
        × IsWithin (resolve_workspace D.files workspace w) path
        × (parse_file_mode (D.bytes req.mode) ≤ 511)
        × let mode = parse_file_mode (D.bytes req.mode) in
          ((a.0.code ≡ 500)
            ⊎ (a.0.code ≡ 200)
              × ((D.files.mkdir_all (dir path) w).0 ≡ ok tt)
              × ((D.write_file path bytes mode (D.files.mkdir_all (dir path) w).1).0 ≡ ok tt)
              × (a.1 ≡ (D.write_file path bytes mode (D.files.mkdir_all (dir path) w).1).1))

  -- An upload is answered 400, and has changed nothing; or the request is well formed, the path it
  -- names is accepted, as one whose names are those of the workspace and more, and its content is
  -- decoded. It is then answered 500, or 200: the directory of the path was made, and the decoded
  -- content was written at the path, with the mode that the request names, of the nine permission bits,
  -- and nothing was done after that. `filepath.EvalSymlinks` gives clean paths.
  pub handle_json_base64_upload_lem :
      (decode : String → Result (List ℕ)) (r : Result UploadFileRequest) (w : W)
      → ((names found : Names) → D.files.eval_symlinks names w ≡ ok found → IsPlain found)
      → IsUploaded decode r w
  unfolding handle_json_base64_upload save answer_written
  handle_json_base64_upload_lem decode (err e) w plain = inl (refl, refl)
  handle_json_base64_upload_lem decode (ok req) w plain =
      elim (Result-cases (sanitize_path D.files (some workspace) (D.raw req.path) w)) [
        | inr (x, e) ↦ inl (ground arith, ground arith)
        | inl (path, e) ↦ elim (Result-cases (decode req.content)) [
          | inr (x, f) ↦ inl (ground arith, ground arith)
          | inl (bytes, f) ↦
              let (within, _) =
                sanitize_path-IsWithin D.files workspace (D.raw req.path) w path plain e in
              let mode = parse_file_mode (D.bytes req.mode) in
              let m = D.files.mkdir_all (dir path) w in
              let s = D.write_file path bytes mode m.1 in
              inr (
                req,
                path,
                bytes,
                refl,
                e,
                f,
                within,
                parse_file_mode-bound (D.bytes req.mode),
                elim (Result-cases m.0) [
                  | inr (x, g) ↦ inl (ground arith)
                  | inl (u, g) ↦ elim (Result-cases s.0) [
                    | inr (x, i) ↦ inl (ground arith)
                    | inl (v, i) ↦ elim (Result-cases (D.stat path s.1)) [
                      | inr (x, j) ↦ inl (ground arith)
                      | inl (stat, j) ↦ inr (ground arith, ground arith, ground arith, ground arith)
                    ]
                  ]
                ],
              )
        ]
      ]
