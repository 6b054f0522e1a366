-- ===== src/Picod/Execute.antt =====
-- `ExecuteHandler` of pkg/picod/execute.go. The process, `time.ParseDuration` and the formatting of the
-- texts are parameters; the order in which a Go map gives the environment is that of the list.
use agentcube.Prelude.{
  ℕ, String, ◌<>◌, ◌≡◌, refl, sym, ap, subst, ◌∙◌, Bool, true, false, Bool-cases, Option-cases,
  Option, none, some, List, [], ◌∷◌, ◌++◌, ℤ, pos, arith, ◌==◌, ==_self, if◌then◌else◌, inl, inr,
  ◌⊎◌,
}
use agentcube.Prelude.Dict.{Dict}
use agentcube.Errors.{Result, ok, err, Result-cases}
use agentcube.Time.{Time, Duration}
use agentcube.Picod.Paths.{Names, IsWithin, IsPlain}
use agentcube.Picod.Jail.{sanitize_path, mkdir_safe, resolve_workspace, sanitize_path-IsWithin}
use agentcube.Picod.Disk.{Disk}

abbrev pub timeout_exit_code : ℤ
timeout_exit_code = pos 124

pub record ExecuteRequest : Type 0 where
  pub command : List String
  pub timeout : String
  pub working_dir : String
  pub env : Dict String

pub record ExecuteResponse : Type 0 where
  pub stdout : String
  pub stderr : String
  pub exit_code : ℤ
  pub start_time : Time
  pub end_time : Time

-- What is run: the executable, its arguments, the directory, the environment if one is set, and the
-- time it may take.
pub record Command : Type 0 where
  pub executable : String
  pub args : List String
  pub directory : Names
  pub env : Option (List String)
  pub timeout : Duration

-- How `cmd.Run` ended: what was written, the state of the process if there was one, whether the
-- context's deadline had passed then, and an error.
pub record Ran : Type 0 where
  pub stdout : String
  pub stderr : String
  pub process_state : Option ℤ
  pub deadline_exceeded : Bool
  pub error : Option String
  pub start_time : Time
  pub end_time : Time

pub data Answer : Type 0 where
  refused : ℕ → String → Answer
  executed : ExecuteResponse → Answer

abbrev pub code_of : Answer → ℕ
code_of (refused code text) = code
code_of (executed r) = 200

-- The exit code and the standard error.
unfoldable pub outcome : (Duration → String) → Command → Ran → ℤ × String
outcome timed_out c r =
    if r.deadline_exceeded
    then (timeout_exit_code, r.stderr <> timed_out c.timeout)
    else elim r.process_state [
      | some code ↦ (code, r.stderr)
      | none ↦
          let stderr = if r.stderr == "" then r.stderr else r.stderr <> "\n" in
          (pos 1, elim r.error [ none ↦ stderr | some e ↦ stderr <> e ])
    ]

abbrev assignments : Dict String → List String
assignments [] = []
assignments ((k, v) ∷ env) = (k <> "=" <> v) ∷ assignments env

List-cases : {A : Type 0} (xs : List A) → (xs ≡ []) ⊎ ((x : A) × (ys : List A) × (xs ≡ x ∷ ys))
List-cases [] = inl refl
List-cases (x ∷ xs) = inr (x, xs, refl)

Either-cases : {A B : Type 0} (e : A ⊎ B) → ((a : A) × (e ≡ inl a)) ⊎ ((b : B) × (e ≡ inr b))
Either-cases (inl a) = inl (a, refl)
Either-cases (inr b) = inr (b, refl)

module _ {W : Type 0} (D : Disk W) (workspace : Names) (parse_duration : String → Result Duration)
    (timed_out : Duration → String) (environ : List String) (run : Command → W → Ran × W) where
  -- The duration, sixty seconds if none is asked for.
  unfoldable pub timeout_duration : String → Result Duration
  timeout_duration text = if text == "" then ok (pos 60_000_000_000) else parse_duration text

  -- The directory to run in, which is made if it is missing, or the refusal.
  unfoldable pub working_directory : String → W → (Names ⊎ ℕ × String) × W
  working_directory text w =
      if text == ""
      then (inl workspace, w)
      else elim (sanitize_path D.files (some workspace) (D.raw text) w) [
        | err e ↦ (inr (400, "Invalid working directory"), w)
        | ok safe ↦
            let m = mkdir_safe D.files workspace safe w in
            elim (D.stat safe w) [
              | ok stat ↦ (inl safe, w)
              | err e ↦
                  if D.is_not_exist e
                  then (
                    elim m.0 [
                      | ok _ ↦ inl safe
                      | err x ↦ inr (500, "Failed to create working directory")
                    ],
                    m.1,
                  )
                  else (inl safe, w)
            ]
      ]

  unfoldable pub run_command : Command → W → Answer × W
  run_command c w =
      let r = run c w in
      let (exit_code, stderr) = outcome timed_out c r.0 in
      (
        executed (record {
          stdout = r.0.stdout;
          stderr = stderr;
          exit_code = exit_code;
          start_time = r.0.start_time;
          end_time = r.0.end_time;
        }),
        r.1,
      )

  unfoldable pub command_of : String → List String → Names → Dict String → Duration → Command
  command_of executable args directory env timeout = record {
    executable = executable;
    args = args;
    directory = directory;
    env = elim env [ [] ↦ none | (e ∷ env) ↦ some (environ ++ assignments (e ∷ env)) ];
    timeout = timeout;
  }

  unfoldable pub execute_handler : Result ExecuteRequest → W → Answer × W
  execute_handler (err e) w = (refused 400 "invalid request", w)
  execute_handler (ok req) w = elim req.command [
    | [] ↦ (refused 400 "command cannot be empty", w)
    | (executable ∷ args) ↦ elim (timeout_duration req.timeout) [
      | err e ↦ (refused 400 "Invalid timeout format", w)
      | ok timeout ↦
          let d = working_directory req.working_dir w in
          elim d.0 [
            | inr (code, text) ↦ (refused code text, d.1)
            | inl directory ↦ run_command (command_of executable args directory req.env timeout) d.1
          ]
    ]
  ]

  found :
      (text : String) (w : W) (safe d : Names)
      → (text == "") ≡ false
      → sanitize_path D.files (some workspace) (D.raw text) w ≡ ok safe
      → (working_directory text w).0 ≡ inl d
      → safe ≡ d
  unfolding working_directory
  found text w safe d e f h = elim (Result-cases (D.stat safe w)) [
    | inl (stat, g) ↦ ground arith
    | inr (x, g) ↦ elim (Bool-cases (D.is_not_exist x)) [
      | inr i ↦ ground arith
      | inl i ↦ elim (Result-cases (mkdir_safe D.files workspace safe w).0) [
        | inl (u, j) ↦ ground arith
        | inr (y, j) ↦ absurd (ground arith)
      ]
    ]
  ]

  working_directory-IsWithin :
      (text : String) (w : W) (d : Names)
      → ((names found : Names) → D.files.eval_symlinks names w ≡ ok found → IsPlain found)
      → (working_directory text w).0 ≡ inl d
      → (d ≡ workspace) ⊎ IsWithin (resolve_workspace D.files workspace w) d
  unfolding working_directory
  working_directory-IsWithin text w d plain h = elim (Bool-cases (text == "")) [
    | inl e ↦ inl (ground arith)
    | inr e ↦ elim (Result-cases (sanitize_path D.files (some workspace) (D.raw text) w)) [
      | inr (x, f) ↦ absurd (ground arith)
      | inl (safe, f) ↦
          let within = (sanitize_path-IsWithin D.files workspace (D.raw text) w safe plain f).0 in
          let same : safe ≡ d = found text w safe d e f h in
          inr (subst (IsWithin (resolve_workspace D.files workspace w)) same within)
    ]
  ]

  -- How a command that was run is answered.
  abbrev pub IsAnswerOf : Ran → ExecuteResponse → Type 0
  IsAnswerOf r answer =
      (answer.stdout ≡ r.stdout)
      × (answer.exit_code ≡ (
          if r.deadline_exceeded
          then timeout_exit_code
          else elim r.process_state [ some code ↦ code | none ↦ pos 1 ]))

  run_command-IsAnswerOf :
      (c : Command) (w : W) (answer : ExecuteResponse)
      → (run_command c w).0 ≡ executed answer
      → IsAnswerOf (run c w).0 answer
  unfolding run_command outcome
  run_command-IsAnswerOf c w answer h =
      let r = (run c w).0 in
      elim (Bool-cases r.deadline_exceeded) [
        | inl e ↦ (ground arith, ground arith)
        | inr e ↦ elim (Option-cases r.process_state) [
          | inl f ↦ (ground arith, ground arith)
          | inr (code, f) ↦ (ground arith, ground arith)
        ]
      ]

  -- The time that a request gives a command, in nanoseconds: a minute if the text is empty.
  abbrev pub IsTimeOf : String → Duration → Type 0
  IsTimeOf text d =
      (text ≡ "" → d ≡ pos 60_000_000_000) × ((text == "") ≡ false → parse_duration text ≡ ok d)

  timeout_duration-IsTimeOf :
      (text : String) (d : Duration) → timeout_duration text ≡ ok d → IsTimeOf text d
  unfolding timeout_duration
  timeout_duration-IsTimeOf text d h =
      (λ e. let same : (text == "") ≡ true = rw e (==_self "") in ground arith, λ e. ground arith)

  -- A command that is answered as executed is the one that was asked for; it was run in the workspace
  -- or in a directory below it, for sixty seconds if no time was given and else for the time given,
  -- and is answered with its own exit code if it ended, with 124 where the time had passed, and with 1
  -- where there was no process; provided that `filepath.EvalSymlinks` gives clean paths.
  pub execute_handler_executed :
      (req : ExecuteRequest) (w : W) (answer : ExecuteResponse)
      → ((names found : Names) → D.files.eval_symlinks names w ≡ ok found → IsPlain found)
      → (execute_handler (ok req) w).0 ≡ executed answer
      → (c : Command) × (v : W) × (req.command ≡ c.executable ∷ c.args)
        × IsTimeOf req.timeout c.timeout
        × ((c.directory ≡ workspace) ⊎ IsWithin (resolve_workspace D.files workspace w) c.directory)
        × ((execute_handler (ok req) w).1 ≡ (run c v).1)
        × IsAnswerOf (run c v).0 answer
  unfolding execute_handler command_of run_command
  execute_handler_executed req w answer plain h = elim (List-cases req.command) [
    | inl e ↦ absurd (ground arith)
    | inr (executable, args, e) ↦ elim (Result-cases (timeout_duration req.timeout)) [
      | inr (x, f) ↦ absurd (ground arith)
      | inl (timeout, f) ↦ elim (Either-cases (working_directory req.working_dir w).0) [
        | inr ((code, text), g) ↦ absurd (ground arith)
        | inl (directory, g) ↦
            let c = command_of executable args directory req.env timeout in
            let v = (working_directory req.working_dir w).1 in
            let same : execute_handler (ok req) w ≡ run_command c v =
              rw (execute_handler, e, f, g) refl in
            (
              c,
              v,
              e,
              timeout_duration-IsTimeOf req.timeout timeout f,
              working_directory-IsWithin req.working_dir w directory plain g,
              ap (λ r. r.1) same,
              run_command-IsAnswerOf c v answer (sym (ap (λ r. r.0) same) ∙ h),
            )
      ]
    ]
  ]
