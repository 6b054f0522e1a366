-- ===== src/Router/Upstream.antt =====
-- The upstream of a sandbox in pkg/router/handlers.go: the entry point for a path, its address, and
-- the preflight connection. `Dialer` is `net.Dialer` and the wait between two attempts.
use agentcube.Prelude.{
  ℕ, zero, suc, ◌+◌, ◌≤◌, String, ◌<>◌, ◌≡◌, refl, sym, subst, Option-cases, Bool, true, false, not,
  Bool-cases, Option, none, some, List, [], ◌∷◌, arith, ◌==◌, ◌&&◌, ◌||◌, if◌then◌else◌, ◌⊎◌, inl,
  inr,
}
use agentcube.Errors.{Error, wrap, message, Result, ok, err, Result-cases, Try}
use agentcube.Types.{SandboxInfo, SandboxEntryPoint}
use agentcube.Router.{Net, Url}

pub record Dialer (W : Type 0) : Type 0 where
  pub dial : String → Try W (Unit {0})
  -- `time.After` against `ctx.Done()`: the error of a context that ends.
  pub pause : Try W (Unit {0})

list-cases {ℓ} : {A : Type ℓ} (l : List A) → (l ≡ []) ⊎ ((x : A) × (xs : List A) × (l ≡ x ∷ xs))
list-cases [] = inl refl
list-cases (x ∷ xs) = inr (x, xs, refl)

module _ (N : Net) where
  unfoldable pub build_url : String → String → Result Url
  build_url protocol endpoint =
      let full =
        if not (protocol == "") && not (N.mentions endpoint "://")
        then N.to_lower protocol <> ("://" <> endpoint)
        else endpoint in
      elim (N.parse_url full) [
        | err e ↦ err (wrap e)
        | ok url ↦ if url.host == "" then err (message "missing host") else ok url
      ]

  -- The first entry point whose path begins the path of the request.
  unfoldable pub matched : String → List SandboxEntryPoint → Option SandboxEntryPoint
  matched path [] = none
  matched path (ep ∷ eps) = if N.has_prefix path ep.path then some ep else matched path eps

  abbrev pub head : List SandboxEntryPoint → Option SandboxEntryPoint
  head [] = none
  head (ep ∷ eps) = some ep

  unfoldable pub determine_upstream_url : SandboxInfo → String → Result Url
  determine_upstream_url sandbox path = elim (matched path sandbox.entry_points) [
    | some ep ↦ build_url ep.protocol ep.endpoint
    | none ↦ elim (head sandbox.entry_points) [
      | none ↦ err (message "no entry point found for sandbox")
      | some ep ↦ build_url ep.protocol ep.endpoint
    ]
  ]

  unfoldable pub connection_refused_retryable : Error → Bool
  connection_refused_retryable e = N.mentions (N.to_lower (N.error_text e)) "connection refused"

  unfoldable pub preflight_target_address : Url → String
  preflight_target_address url =
      if url.host == ""
      then ""
      else if N.has_port url.host
      then url.host
      else if N.to_lower url.scheme == "https"
      then N.join_host_port url.host "443"
      else N.join_host_port url.host "80"

  unfoldable pub upstream_unavailable_response : Error → ℕ × String
  upstream_unavailable_response e =
      let text = N.to_lower (N.error_text e) in
      if connection_refused_retryable e
      then (502, "sandbox unreachable")
      else if N.mentions text "deadline exceeded" || N.mentions text "timeout"
      then (504, "sandbox timeout")
      else (503, "sandbox unreachable")

  module _ {W : Type 0} (D : Dialer W) where
    -- One attempt, and as many retries as `n`; a retry waits first, and only a refusal is retried.
    unfoldable pub dial_attempts : String → ℕ → Try W (Unit {0})
    dial_attempts address zero w =
        let r = D.dial address w in (elim r.0 [ ok _ ↦ ok tt | err e ↦ err (wrap e) ], r.1)
    dial_attempts address (suc n) w =
        let r = D.dial address w in
        let p = D.pause r.1 in
        let rest = dial_attempts address n p.1 in
        elim r.0 [
          | ok _ ↦ (ok tt, r.1)
          | err e ↦
              if connection_refused_retryable e
              then elim p.0 [ ok _ ↦ rest | err x ↦ (err x, p.1) ]
              else (err (wrap e), r.1)
        ]

    -- A retry count that is negative, `none` here, leaves no attempt.
    unfoldable pub wait_for_upstream_reachable : Option ℕ → Url → Try W (Unit {0})
    wait_for_upstream_reachable retry_count url w =
        let address = preflight_target_address url in
        if address == ""
        then (ok tt, w)
        else elim retry_count [ none ↦ (ok tt, w) | some n ↦ dial_attempts address n w ]

    -- How often the dialer was called, as `dials` counts it.
    pub record IsCounted (dials : W → ℕ) : Type 0 where
      pub dials-dial : (a : String) (w : W) → dials (D.dial a w).1 ≡ suc (dials w)
      pub dials-pause : (w : W) → dials (D.pause w).1 ≡ dials w

    dial_attempts-bound :
        (dials : W → ℕ) (C : IsCounted dials) (address : String) (n : ℕ) (w : W)
        → dials (dial_attempts address n w).1 ≤ suc n + dials w
    unfolding dial_attempts
    dial_attempts-bound dials C address zero w = ground (arith, C.dials-dial address w)
    dial_attempts-bound dials C address (suc n) w =
        let r = D.dial address w in
        let p = D.pause r.1 in
        let bound = dial_attempts-bound dials C address n p.1 in
        let one = C.dials-dial address w in
        let none_more = C.dials-pause r.1 in
        elim (Result-cases r.0) [
          | inl (u, e) ↦ ground arith
          | inr (x, e) ↦ elim (Bool-cases (connection_refused_retryable x)) [
            | inr f ↦ ground arith
            | inl f ↦ elim (Result-cases p.0) [
              | inl (v, g) ↦ ground arith
              | inr (y, g) ↦ ground arith
            ]
          ]
        ]

    -- Before a request is forwarded, the upstream is dialled at most once more than the configured
    -- number of retries.
    pub wait_for_upstream_reachable-bound :
        (dials : W → ℕ) (C : IsCounted dials) (n : ℕ) (url : Url) (w : W)
        → dials (wait_for_upstream_reachable (some n) url w).1 ≤ suc n + dials w
    unfolding wait_for_upstream_reachable
    wait_for_upstream_reachable-bound dials C n url w =
        let bound = dial_attempts-bound dials C (preflight_target_address url) n w in ground arith

  -- Whether an entry point is listed.
  abbrev pub Among : SandboxEntryPoint → List SandboxEntryPoint → Type 0
  Among ep [] = ⊥
  Among ep (x ∷ xs) = (x ≡ ep) ⊎ Among ep xs

  -- No entry point's path begins the path of the request.
  abbrev pub IsUnmatched : String → List SandboxEntryPoint → Type 0
  IsUnmatched path [] = Unit
  IsUnmatched path (x ∷ xs) = (N.has_prefix path x.path ≡ false) × IsUnmatched path xs

  matched-none :
      (path : String) (eps : List SandboxEntryPoint)
      → matched path eps ≡ none
      → IsUnmatched path eps
  unfolding matched
  matched-none path [] h = tt
  matched-none path (x ∷ xs) h = elim (Bool-cases (N.has_prefix path x.path)) [
    | inl e ↦ absurd (ground arith)
    | inr e ↦ (e, matched-none path xs (ground arith))
  ]

  matched-some :
      (path : String) (eps : List SandboxEntryPoint) (ep : SandboxEntryPoint)
      → matched path eps ≡ some ep
      → Among ep eps × (N.has_prefix path ep.path ≡ true)
  unfolding matched
  matched-some path [] ep h = absurd (ground arith)
  matched-some path (x ∷ xs) ep h = elim (Bool-cases (N.has_prefix path x.path)) [
    | inl e ↦
        let same : x ≡ ep = ground arith in
        (inl same, subst (λ y. N.has_prefix path y.path ≡ true) same e)
    | inr e ↦ let (there, begins) = matched-some path xs ep (ground arith) in (inr there, begins)
  ]

  build_url-host :
      (protocol endpoint : String) (url : Url)
      → build_url protocol endpoint ≡ ok url
      → (url.host == "") ≡ false
  unfolding build_url
  build_url-host protocol endpoint url h =
      let full =
        if not (protocol == "") && not (N.mentions endpoint "://")
        then N.to_lower protocol <> ("://" <> endpoint)
        else endpoint in
      elim (Result-cases (N.parse_url full)) [
        | inr (x, e) ↦ absurd (ground arith)
        | inl (u, e) ↦ elim (Bool-cases (u.host == "")) [
          | inl f ↦ absurd (ground arith)
          | inr f ↦ let same : u ≡ url = ground arith in subst (λ y. (y.host == "") ≡ false) same f
        ]
      ]

  -- A target that is found is the address of an entry point of the sandbox, which begins the path
  -- of the request unless no entry point does, and it names a host.
  pub determine_upstream_url_ok :
      (sandbox : SandboxInfo) (path : String) (url : Url)
      → determine_upstream_url sandbox path ≡ ok url
      → (ep : SandboxEntryPoint) × (Among ep sandbox.entry_points
          × (build_url ep.protocol ep.endpoint ≡ ok url)
          × ((N.has_prefix path ep.path ≡ true) ⊎ IsUnmatched path sandbox.entry_points)
          × ((url.host == "") ≡ false))
  unfolding determine_upstream_url
  determine_upstream_url_ok sandbox path url h =
      elim (Option-cases (matched path sandbox.entry_points)) [
        | inr (ep, e) ↦
            let (there, begins) = matched-some path sandbox.entry_points ep e in
            let made : build_url ep.protocol ep.endpoint ≡ ok url = ground arith in
            (ep, (there, made, inl begins, build_url-host ep.protocol ep.endpoint url made))
        | inl e ↦ elim (list-cases sandbox.entry_points) [
          | inl f ↦ absurd (ground arith)
          | inr (ep, eps, f) ↦
              let made : build_url ep.protocol ep.endpoint ≡ ok url = ground arith in
              (
                ep,
                (
                  subst (λ l. Among ep l) (sym f) (inl refl),
                  made,
                  inr (matched-none path sandbox.entry_points e),
                  build_url-host ep.protocol ep.endpoint url made,
                ),
              )
        ]
      ]
