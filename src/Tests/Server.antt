-- ===== src/Tests/Server.antt =====
-- A Redis and a Valkey client over a server that keeps the documented data model by definition. The
-- JSON of a sandbox is its session id, for the sandboxes that differ from `plain` in nothing else,
-- and a range query answers for indexes of at most one member.
use agentcube.Prelude.{
  ℕ, String, ◌≡◌, refl, Bool, true, false, ◌&&◌, Bool-cases, Option, none, some, Option-cases, List,
  [], ◌∷◌, map, arith, subst, ◌==◌, eqb, leb, ==_self, if◌then◌else◌, inl, inr,
}
use agentcube.Prelude.Dict.{lookup}
use agentcube.Errors.{Error, redis_nil, is_redis_nil, message, root, Result, ok, err}
use agentcube.Time.{Duration, pos}
use agentcube.Types.{SandboxInfo, SandboxEntryPoint}
use agentcube.Store.Keyspace.{
  Keyspace, Entry, text, sorted, text_at, score_at, exists, apply, apply_all, overwrite, Ranged,
}
use agentcube.Store.Redis.Driver.{Client, IsClient, fetched, update_session_last_activity_script}
use agentcube.Store.Valkey.Driver.{Valkey, IsValkey, text_or_empty}

abbrev pub plain : String → SandboxInfo
plain id = record {
  kind = "Sandbox";
  sandbox_id = "u1";
  sandbox_namespace = "ns";
  name = "box";
  entry_points = [];
  session_id = id;
  owner_id = "alice";
  created_at = 1;
  expires_at = 2_000_000_000;
  idle_timeout = pos 0;
  last_activity_at = 0;
  status = "ready";
}

abbrev no_points : List SandboxEntryPoint → Bool
no_points [] = true
no_points (p ∷ ps) = false

abbrev no_timeout : Duration → Bool
no_timeout (pos n) = eqb n 0
no_timeout _ = false

abbrev is_plain : SandboxInfo → Bool
is_plain s =
    s.kind == "Sandbox"
    && s.sandbox_id == "u1"
    && s.sandbox_namespace == "ns"
    && s.name == "box"
    && no_points s.entry_points
    && s.owner_id == "alice"
    && eqb s.created_at 1
    && eqb s.expires_at 2_000_000_000
    && no_timeout s.idle_timeout
    && s.status == "ready"

unfoldable pub marshal : SandboxInfo → Result String
marshal s = if is_plain s then ok s.session_id else err (message "")

unfoldable pub unmarshal : String → Result SandboxInfo
unmarshal b = ok (plain b)

unmarshal-marshal :
    (s : SandboxInfo) (b : String)
    → marshal s ≡ ok b
    → unmarshal b ≡ ok (record s { last_activity_at = 0 })
unfolding marshal unmarshal
unmarshal-marshal s b h = ground arith

abbrev range_of : Option Entry → ℕ → ℕ → Result (List (String × ℕ))
range_of none max limit = ok []
range_of (some (sorted ((m, s) ∷ []))) max limit =
    if leb s max then (if eqb limit 0 then ok [] else ok ((m, s) ∷ [])) else ok []
range_of (some e) max limit = err (message "")

range_of-Ranged :
    (k : String) (max limit : ℕ) (ks : Keyspace) (zs : List (String × ℕ)) (e : Option Entry)
    → ks k ≡ e
    → range_of e max limit ≡ ok zs
    → Ranged ks k max limit zs
unfolding score_at lookup
range_of-Ranged k max limit ks zs none h r =
    let same : [] ≡ zs = ground arith in
    subst (Ranged ks k max limit) same (record {
      scored = tt;
      limited = omega arith;
      once = tt;
      least = λ m s f le out. absurd (ground arith);
    })
range_of-Ranged k max limit ks zs (some (text t)) h r = absurd (ground arith)
range_of-Ranged k max limit ks zs (some (sorted [])) h r = absurd (ground arith)
range_of-Ranged k max limit ks zs (some (sorted (a ∷ b ∷ z))) h r = absurd (ground arith)
range_of-Ranged k max limit ks zs (some (sorted ((m, s) ∷ []))) h r =
    elim (Bool-cases (leb s max)) [
      | inr f ↦
          let same : [] ≡ zs = ground arith in
          subst (Ranged ks k max limit) same (record {
            scored = tt;
            limited = omega arith;
            once = tt;
            least = λ m' s' f' le out. absurd (ground arith);
          })
      | inl f ↦ elim (Bool-cases (eqb limit 0)) [
        | inl g ↦
            let same : [] ≡ zs = ground arith in
            subst (Ranged ks k max limit) same (record {
              scored = tt;
              limited = omega arith;
              once = tt;
              least = λ m' s' f' le out. (ground arith, tt);
            })
        | inr g ↦
            let same : ((m, s) ∷ []) ≡ zs = ground arith in
            subst (Ranged ks k max limit) same (record {
              scored = ((ground (arith, ==_self m), ground arith), tt);
              limited = ground arith;
              once = (refl, tt);
              least = λ m' s' f' le out. absurd (ground arith);
            })
      ]
    ]

abbrev read : Option Entry → Result String
read none = err redis_nil
read (some (text b)) = ok b
read (some (sorted z)) = err (message "")

abbrev pub redis : Client Keyspace
redis = record {
  now = λ ks. 5_000_000_000;
  marshal = marshal;
  unmarshal = unmarshal;
  ping = λ ks. (ok "PONG", ks);
  get = λ k ks. (read (ks k), ks);
  set_xx = λ k b ks. (ok (exists ks k), if exists ks k then overwrite k b ks else ks);
  pipeline = λ commands ks. ((map (λ c. none) commands, none), apply_all commands ks);
  pipeline_get = λ keys ks. ((map (λ k. fetched (text_at ks k)) keys, none), ks);
  z_range_by_score = λ k max limit ks. (range_of (ks k) max limit, ks);
  run_update_script = λ key index member score ks.
      let r = update_session_last_activity_script key index member score ks in (ok r.0, r.1);
}

read-ok : (k b : String) (ks : Keyspace) → read (ks k) ≡ ok b → text_at ks k ≡ some b
unfolding text_at
read-ok k b ks h = ground arith

read-nil :
    (k : String) (ks : Keyspace) (e : Error)
    → read (ks k) ≡ err e
    → is_redis_nil e ≡ true
    → text_at ks k ≡ none
unfolding text_at is_redis_nil root
read-nil k ks e h n = elim (Option-cases (ks k)) [
  | inl f ↦ ground arith
  | inr (text t, f) ↦ absurd (ground arith)
  | inr (sorted z, f) ↦ ground arith
]

pub redis-IsClient : IsClient redis (λ ks. ks)
redis-IsClient = record {
  unmarshal-marshal = unmarshal-marshal;
  get-view = λ k w. refl;
  get-ok = λ k b w h. read-ok k b w h;
  get-nil = λ k w {e} h n. read-nil k w e h n;
  set_xx-ok = λ k b w done h. ground arith;
  pipeline-ok = λ commands w h. refl;
  pipeline_get-view = λ keys w. refl;
  pipeline_get-ok = λ keys w h. refl;
  z_range_by_score-view = λ k max limit w. refl;
  z_range_by_score-ok = λ k max limit w zs h. range_of-Ranged k max limit w zs (w k) refl h;
  run_update_script-ok = λ key index member score w res h. ground arith;
}

abbrev pub valkey : Valkey Keyspace
valkey = record {
  now = λ ks. 5_000_000_000;
  marshal = marshal;
  unmarshal = unmarshal;
  ping = λ ks. (ok "PONG", ks);
  get = λ k ks. (read (ks k), ks);
  set_xx = λ k b ks. (
    if exists ks k then ok "OK" else err redis_nil,
    if exists ks k then overwrite k b ks else ks,
  );
  mget = λ keys ks. (ok (map (λ k. text_or_empty (text_at ks k)) keys), ks);
  exists_count = λ k ks. (ok (if exists ks k then 1 else 0), ks);
  run = λ c ks. (ok tt, apply c ks);
  do_multi = λ commands ks. (map (λ c. none) commands, apply_all commands ks);
  z_range_by_score = λ k max limit ks. (range_of (ks k) max limit, ks);
}

pub valkey-IsValkey : IsValkey valkey (λ ks. ks)
valkey-IsValkey = record {
  unmarshal-marshal = unmarshal-marshal;
  get-ok = λ k b w h. read-ok k b w h;
  get-nil = λ k w {e} h n. read-nil k w e h n;
  set_xx-ok = λ k b w h. ground arith;
  mget-view = λ keys w. refl;
  mget-ok = λ keys w texts h. ground arith;
  exists_count-view = λ k w. refl;
  exists_count-ok = λ k w n h. ground arith;
  run-ok = λ c w h. refl;
  do_multi-ok = λ commands w h. refl;
  z_range_by_score-view = λ k max limit w. refl;
  z_range_by_score-ok = λ k max limit w zs h. range_of-Ranged k max limit w zs (w k) refl h;
}
