-- ===== src/Tests/Daemon.antt =====
-- The theorems about transfers and commands in a small workspace, and about the pod and the probe of a
-- sandbox.
use agentcube.Prelude.{
  ℕ, suc, ◌+◌, String, ◌≡◌, refl, Bool, true, false, pos, none, some, List, [], ◌∷◌, arith, ◌⊎◌,
  inl, inr, ltb, if◌then◌else◌, string_discrete,
}
use agentcube.Errors.{message, Result, Result-cases, ok, err, Try}
use agentcube.Time.{Duration}
use agentcube.Picod.Paths.{Names, clean, clean_rooted, clean_relative, join, rel, escapes, IsWithin}
use agentcube.Picod.Jail.{resolve_workspace, sanitize_path}
use agentcube.Picod.Disk.{Disk, FileStat}
use agentcube.Picod.Transfers.{
  download_file_handler, download_file_handler-IsServed, handle_json_base64_upload_lem, IsServed,
  IsUploaded, UploadFileRequest,
}
use agentcube.Picod.Execute.{
  ExecuteRequest, ExecuteResponse, Command, Ran, execute_handler, execute_handler_executed,
  executed, timeout_duration, IsTimeOf, IsAnswerOf, working_directory, run_command, command_of,
  outcome,
}
use agentcube.Creation.Pods.{
  Pod, get_sandbox_pod_ip, owned_by, first_owned, validate_and_get_pod_ip,
}
use agentcube.Creation.Probe.{probe_loop, probe_world, probe_loop_ends}
use agentcube.Tests.Jailed.{files, resolved, climbing, resolved-IsPlain}

abbrev stat : FileStat
stat = record { size = 1; modified = 2; mode = "-rw-r--r--"; is_dir = false }

-- The world counts what is written.
abbrev disk : Disk ℕ
disk = record {
  files = files;
  write_file = λ names bytes mode w. (ok tt, w + 1);
  stat = λ names w. elim (resolved names) [ ok found ↦ ok stat | err e ↦ err e ];
  read_dir = λ names w. ok [];
  is_not_exist = λ e. true;
  raw = λ s. climbing;
  bytes = λ s. [];
}

abbrev work : Names
work = "work" ∷ []

downloaded : (download_file_handler disk work "a/../b" 0).code ≡ 200
unfolding download_file_handler sanitize_path resolve_workspace clean clean_relative join
    clean_rooted rel escapes string_discrete
downloaded = refl

resolves :
    (names : Names) (s : FileStat)
    → disk.stat names 0 ≡ ok s
    → (found : Names) × (files.eval_symlinks names 0 ≡ ok found)
resolves names s h = elim (Result-cases (resolved names)) [
  | inl (found, e) ↦ (found, e)
  | inr (x, e) ↦ absurd (ground arith)
]

download_file_handler-IsServed_example : IsServed disk work "a/../b" 0
download_file_handler-IsServed_example =
    download_file_handler-IsServed disk work "a/../b" 0
      (λ names found h. resolved-IsPlain names found h) (λ names s h. resolves names s h) downloaded

abbrev decode : String → Result (List ℕ)
decode s = ok (104 ∷ [])

abbrev upload : Result UploadFileRequest
upload = ok (record { path = "a/../b"; content = "aA=="; mode = "" })

handle_json_base64_upload_lem_example : IsUploaded disk work decode upload 0
handle_json_base64_upload_lem_example =
    handle_json_base64_upload_lem disk work decode upload 0
      (λ names found h. resolved-IsPlain names found h)

abbrev late : Ran
late = record {
  stdout = "";
  stderr = "";
  process_state = some (pos 0);
  deadline_exceeded = true;
  error = none;
  start_time = 1;
  end_time = 2;
}

abbrev run : Command → ℕ → Ran × ℕ
run c w = (late, w + 1)

abbrev parse_duration : String → Result Duration
parse_duration s = err (message "invalid")

abbrev sleep : ExecuteRequest
sleep = record { command = "sleep" ∷ "100" ∷ []; timeout = ""; working_dir = ""; env = [] }

abbrev answer : ExecuteResponse
answer = record {
  stdout = "";
  stderr = "timed out";
  exit_code = pos 124;
  start_time = 1;
  end_time = 2;
}

slept :
    (execute_handler disk work parse_duration (λ d. "timed out") [] run (ok sleep) 0).0
    ≡ executed answer
unfolding execute_handler timeout_duration working_directory run_command command_of outcome
    string_discrete
slept = refl

execute_handler_executed_example :
    (c : Command) × (v : ℕ) × (sleep.command ≡ c.executable ∷ c.args)
    × IsTimeOf disk work parse_duration (λ d. "timed out") [] run sleep.timeout c.timeout
    × ((c.directory ≡ work) ⊎ IsWithin (resolve_workspace files work 0) c.directory)
    × ((execute_handler disk work parse_duration (λ d. "timed out") [] run (ok sleep) 0).1
        ≡ (run c v).1)
    × IsAnswerOf disk work parse_duration (λ d. "timed out") [] run (run c v).0 answer
execute_handler_executed_example =
    execute_handler_executed disk work parse_duration (λ d. "timed out") [] run sleep 0 answer
      (λ names found h. resolved-IsPlain names found h) slept

abbrev pod : Pod
pod = record {
  name = "box-pod";
  owner_references = record { kind = "Sandbox"; name = "box"; controller = none } ∷ [];
  phase = "Running";
  pod_ip = "10.0.0.1";
}

abbrev get_pod : String → String → Try ℕ Pod
get_pod namespace name w = (ok pod, w)

abbrev list_pods : String → String → Try ℕ (List Pod)
list_pods namespace name w = (ok (pod ∷ []), w)

addressed : (get_sandbox_pod_ip get_pod list_pods "ns" "box" "" 0).0 ≡ ok "10.0.0.1"
unfolding get_sandbox_pod_ip first_owned owned_by validate_and_get_pod_ip string_discrete
addressed = refl

-- A sandbox that answers at the third probe.
abbrev probe : Try ℕ (Unit {0})
probe n = (if ltb n 2 then err (message "refused") else ok tt, suc n)

abbrev pause : ℕ → Bool × ℕ
pause n = (false, n)

third : ((probe (probe_world probe pause 2 0)).0 ≡ ok tt)
unfolding probe_world
third = refl

probe_loop_ends_example : (r : Result (Unit {0})) × ((probe_loop probe pause 3 0).0 ≡ some r)
probe_loop_ends_example = probe_loop_ends probe pause 2 3 0 (inl third) (omega arith)

ready : (probe_loop probe pause 5 0).0 ≡ some (ok tt)
unfolding probe_loop
ready = refl
