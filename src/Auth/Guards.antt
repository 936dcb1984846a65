-- ===== src/Auth/Guards.antt =====
-- packages/service/src/operator-auth.ts: what the same-origin check lets through.
use btcr2_aggregation.Prelude.{
  ◌≡◌, ◌==◌, refl, true, false, Option, none, some, String, or_option, eq_iff, eq_refl, arith, ◌↔◌,
  Bool-cases, inl, inr,
}
use btcr2_aggregation.Phases.{contains}
use btcr2_aggregation.Auth.{Headers, mutating_methods, same_host, check_origin, require_same_origin}

module _ (url_host : String → Option String) where
  -- The origin that a request states: its `Origin`, or else its `Referer`.
  abbrev pub stated_origin : Headers → Option String
  stated_origin headers = or_option headers.origin headers.referer

  -- A request that forges nothing.
  pub data SameOrigin (method : String) (headers : Headers) : Type 0 where
    inert : contains mutating_methods method ≡ false → SameOrigin method headers
    unstated : stated_origin headers ≡ none → SameOrigin method headers
    blank : stated_origin headers ≡ some "" → SameOrigin method headers
    matching :
        (origin host : String)
        → stated_origin headers ≡ some origin
        → url_host origin ≡ some host
        → headers.host ≡ some host
        → (host == "") ≡ false
        → SameOrigin method headers

  admits :
      (method : String) (headers : Headers)
      → SameOrigin method headers
      → require_same_origin url_host method headers ≡ true
  unfolding require_same_origin
  admits method headers (inert e) = rw e refl
  admits method headers (unstated e) = ground (arith, e)
  admits method headers (blank e) = rw e (ground arith)
  admits method headers (matching origin host e u h n) =
      rw (e, u, h, n, eq_refl host) (ground arith)

  hosts :
      (a b : Option String)
      → same_host url_host a b ≡ true
      → (host : String) × (a ≡ some host) × (b ≡ some host) × ((host == "") ≡ false)
  hosts none b h = ground (arith, h)
  hosts (some a) none h = ground (arith, h)
  hosts (some a) (some b) h = (a, refl, ground (arith, eq_iff a b), ground (arith, eq_iff a b))

  stated :
      (method : String) (headers : Headers) (o : Option String)
      → stated_origin headers ≡ o
      → check_origin url_host o headers.host ≡ true
      → SameOrigin method headers
  stated method headers none e h = unstated e
  stated method headers (some origin) e h = elim (Bool-cases (origin == "")) [
    | inl b ↦ blank (rw ((eq_iff origin "").0 b) at e)
    | inr b ↦
        let (host, u, k, n) = hosts (url_host origin) headers.host (rw b at h) in
        matching origin host e u k n
  ]

  -- The same-origin check lets a request through exactly if its method changes nothing, or it
  -- states no origin, or the host of the origin that it states is the non-empty host it was sent
  -- to.
  pub require_same_origin-eq-true_iff :
      (method : String) (headers : Headers)
      → (require_same_origin url_host method headers ≡ true) ↔ SameOrigin method headers
  unfolding require_same_origin
  require_same_origin-eq-true_iff method headers = (forward, admits method headers)
    where
      forward : require_same_origin url_host method headers ≡ true → SameOrigin method headers
      forward = elim (Bool-cases (contains mutating_methods method)) [
        | inl e ↦ λ h. stated method headers (stated_origin headers) refl (rw e at h)
        | inr e ↦ λ h. inert e
      ]
