-- ===== src/Tests/Routing.antt =====
-- The theorems about the router at concrete data.
use agentcube.Prelude.{
  ℕ, suc, ◌≤◌, ◌<◌, ◌≡◌, refl, true, false, not, ◌||◌, none, some, [], ◌==◌, string_discrete, ◌⊎◌,
}
use text.Mathlib.Text.{starts_with}
use agentcube.Errors.{not_found, message, ok, err}
use agentcube.Types.{SandboxInfo, SandboxEntryPoint}
use agentcube.Router.{Net, Url, Claims, reply_code}
use agentcube.Router.Sessions.{
  Manager, HttpAnswer, get_sandbox_by_session, create_sandbox, read_answer, endpoint, sandbox_of,
}
use agentcube.Router.Upstream.{
  Dialer, build_url, matched, determine_upstream_url, Among, IsUnmatched, IsCounted,
  determine_upstream_url_ok,
}
use agentcube.Router.Invoke.{Service, handle_invoke, handle_invoke_foreign}
use agentcube.Router.Limit.{
  Run, start, admitted, try_acquire, new, max_concurrent_requests, served_bounded,
}
use agentcube.Tests.World.{World, info, store, running, idle}

abbrev pub net : Net
net = record {
  error_text = λ e. "connection refused";
  status_code = λ r. elim r [ not_found ↦ 404 | _ ↦ 500 ];
  to_lower = λ s. s;
  mentions = λ text part. text == part;
  has_prefix = starts_with;
  parse_url = λ s. ok (record { scheme = "http"; host = s });
  has_port = λ s. true;
  join_host_port = λ h p. h;
}

abbrev answer : HttpAnswer
answer = record {
  status_code = 200;
  body = ok "";
  decoded = ok (record {
    kind = "AgentRuntime";
    session_id = "s2";
    sandbox_id = "u2";
    sandbox_name = "box2";
    entry_points = [];
    owner_id = "";
  });
}

abbrev pub manager : Manager World
manager = record {
  workload_mgr_addr = "http://wm";
  post = λ url request bearer identity w. (ok answer, w);
  generate_token = none;
  auth_token = "";
}

abbrev dialer : Dialer World
dialer = record { dial = λ a w. (err (message "connection refused"), w); pause = λ w. (ok tt, w) }

abbrev pub service : Service World
service = record {
  oidc = true;
  retry_count = some 2;
  now = λ w. 7;
  serve = λ url path token session w. (ok tt, w);
}

abbrev mallory : Claims
mallory = record { subject = "mallory"; email = ""; roles = [] }

created :
    (get_sandbox_by_session net store manager none "" "ns" "box2" "AgentRuntime" idle).0
    ≡ ok (
        sandbox_of net store manager "ns" (record {
          kind = "AgentRuntime";
          session_id = "s2";
          sandbox_id = "u2";
          sandbox_name = "box2";
          entry_points = [];
          owner_id = "";
        }))
unfolding get_sandbox_by_session create_sandbox endpoint read_answer string_discrete
created = refl

abbrev made : SandboxInfo
made = sandbox_of net store manager "ns" (record {
  kind = "AgentRuntime";
  session_id = "s2";
  sandbox_id = "u2";
  sandbox_name = "box2";
  entry_points = [];
  owner_id = "";
})

found : (store.get_sandbox_by_session_id "s1" running).0 ≡ ok info
unfolding string_discrete
found = refl

named : ("s1" == "") ≡ false
unfolding string_discrete
named = refl

foreign : (info.owner_id == "" || not (info.owner_id == "mallory")) ≡ true
unfolding string_discrete
foreign = refl

handle_invoke_foreign_example :
    let a =
      handle_invoke net store manager dialer service
        (some mallory)
        "s1"
        "ns"
        "box"
        "/run"
        "AgentRuntime"
        running in
    (reply_code a.0 ≡ 403) × (a.1 ≡ (store.get_sandbox_by_session_id "s1" running).1)
handle_invoke_foreign_example =
    handle_invoke_foreign net store manager dialer service mallory "s1" "ns" "box" "/run"
      "AgentRuntime" running info refl named refl found foreign

-- A dialer that counts, in a world that is a number.
abbrev counting : Dialer ℕ
counting = record {
  dial = λ a n. (err (message "connection refused"), suc n);
  pause = λ n. (ok tt, n);
}

counted : IsCounted net counting (λ n. n)
counted = record { dials-dial = λ a n. refl; dials-pause = λ n. refl }

abbrev target : Url
target = record { scheme = "http"; host = "10.0.0.1:8080" }

abbrev upstream : Url
upstream = record { scheme = "http"; host = "http://10.0.0.1:8080" }

determined : determine_upstream_url net info "/run" ≡ ok upstream
unfolding determine_upstream_url matched build_url string_discrete
determined = refl

determine_upstream_url_ok_example :
    (ep : SandboxEntryPoint) × (Among net ep info.entry_points
      × (build_url net ep.protocol ep.endpoint ≡ ok upstream)
      × ((starts_with "/run" ep.path ≡ true) ⊎ IsUnmatched net "/run" info.entry_points)
      × ((upstream.host == "") ≡ false))
determine_upstream_url_ok_example = determine_upstream_url_ok net info "/run" upstream determined

one_free : (try_acquire (new 1)).0 ≡ true
unfolding try_acquire max_concurrent_requests
one_free = refl

served : Run 1 (try_acquire (new 1)).1 1
served = admitted start one_free

served_bounded_example :
    ((try_acquire (new 1)).1.taken ≡ 1)
    × (1 ≤ (try_acquire (new 1)).1.capacity)
    × ((try_acquire (new 1)).1.capacity ≡ max_concurrent_requests 1)
    × (0 < (try_acquire (new 1)).1.capacity)
served_bounded_example = served_bounded 1 (try_acquire (new 1)).1 1 served

none_free : (try_acquire (try_acquire (new 1)).1).0 ≡ false
unfolding try_acquire max_concurrent_requests
none_free = refl
