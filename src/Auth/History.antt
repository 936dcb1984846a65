-- ===== src/Auth/History.antt =====
-- packages/service/src/operator-auth.ts: who has a session, over any history of requests.
use btcr2_aggregation.Prelude.{
  ◌+◌, ◌≡◌, ◌==◌, refl, sym, subst, Bool, true, false, List, [], ◌∷◌, Option, none, some, String, ℕ,
  ltb, or_else, eq_iff, ◌⊎◌, inl, inr, Bool-cases,
}
use btcr2_aggregation.OrderedMap.{get, has, set}
use btcr2_aggregation.OrderedMap.Laws.{has-set, has_of_has-delete, has_of_get}
use btcr2_aggregation.Auth.{
  LoginThrottle, AuthConfig, AuthState, LoginBody, json, unparsable, json_null, password_matches,
  destroy, is_valid, check, check_expiry, login, logout, require_operator, read_body, admit_attempt,
  compare_password,
}
use btcr2_aggregation.Auth.Sessions.{Supplies}

-- The requests that touch the sessions or the throttle.
pub data Request : Type 0 where
  logs_in : (key minted : String) (now : ℕ) (body : LoginBody) → Request
  logs_out : (cookie : Option String) → Request
  is_guarded : (cookie : Option String) (now : ℕ) → Request

abbrev pub no_sessions : AuthState
no_sessions = record { sessions = []; attempts = [] }

module _ (digest : String → String) (config : AuthConfig) where
  unfoldable pub serve : Request → AuthState → AuthState
  serve (logs_in key minted now body) s = (login digest config key minted now body s).1
  serve (logs_out cookie) s = logout cookie s
  serve (is_guarded cookie now) s = (require_operator cookie now s).1

  -- The requests in order, the first one first.
  unfoldable pub serve_all : List Request → AuthState → AuthState
  serve_all [] s = s
  serve_all (r ∷ rs) s = serve_all rs (serve r s)

  -- Some login of the history minted the id for the operator's password.
  pub data Granted (id : String) : List Request → Type 0 where
    now_granted :
        {key : String} {now : ℕ} {body : LoginBody} {rs : List Request}
        → Supplies digest config body
        → Granted id (logs_in key id now body ∷ rs)
    granted_later : {r : Request} {rs : List Request} → Granted id rs → Granted id (r ∷ rs)

  module _ (id : String) where
    -- A request adds no session of the id, unless it is a login that mints it.
    login-origin :
        (key minted : String) (now : ℕ) (body : LoginBody) (s : AuthState)
        → has id (login digest config key minted now body s).1.sessions ≡ true
        → (has id s.sessions ≡ true) ⊎ ((minted ≡ id) × Supplies digest config body)
    unfolding login
    login-origin key minted now body s = admitted (check config.throttle key now s.attempts)
      where
        compared :
            (password : String) (t : AuthState)
            → t.sessions ≡ s.sessions
            → has id (compare_password digest config key minted now password t).1.sessions ≡ true
            → (has id s.sessions ≡ true)
              ⊎ ((minted ≡ id) × (password_matches digest password config.expected_password ≡ true))
        compared password t e h =
            elim (Bool-cases (password_matches digest password config.expected_password)) [
              | inr n ↦ inl (subst (λ m. has id m ≡ true) e (rw n at h))
              | inl y ↦
                  let entered : has id (set minted (now + config.session_ttl_ms) t.sessions)
                      ≡ true =
                    rw y at h in
                  elim (Bool-cases (minted == id)) [
                    | inl same ↦ inr ((eq_iff minted id).0 same, y)
                    | inr other ↦ inl (
                        subst (λ m. has id m ≡ true) e
                          (rw (has-set id minted (now + config.session_ttl_ms) t.sessions, other) at
                            entered))
                  ]
            ]

        bodied :
            (b : LoginBody) (t : AuthState)
            → t.sessions ≡ s.sessions
            → has id (read_body digest config key minted now b t).1.sessions ≡ true
            → (has id s.sessions ≡ true) ⊎ ((minted ≡ id) × Supplies digest config b)
        bodied unparsable t e h = inl (subst (λ m. has id m ≡ true) e h)
        bodied json_null t e h = inl (subst (λ m. has id m ≡ true) e h)
        bodied (json p) t e h = elim (compared (or_else p "") t e h) [
          | inl k ↦ inl k
          | inr (k, y) ↦ inr (k, record { password = p; parsed = refl; matched = y })
        ]

        admitted :
            (a : Bool × LoginThrottle)
            → has id (admit_attempt digest config key minted now a body s).1.sessions ≡ true
            → (has id s.sessions ≡ true) ⊎ ((minted ≡ id) × Supplies digest config body)
        admitted (true, a) h = bodied body (record s { attempts = a }) refl h
        admitted (false, a) h = inl h

    logout-origin :
        (cookie : Option String) (s : AuthState)
        → has id (logout cookie s).sessions ≡ true
        → has id s.sessions ≡ true
    unfolding logout destroy
    logout-origin none s h = h
    logout-origin (some c) s h = elim (Bool-cases (c == "")) [
      | inl e ↦ rw e at h
      | inr e ↦ has_of_has-delete id c s.sessions (rw e at h)
    ]

    guard-origin :
        (cookie : Option String) (now : ℕ) (s : AuthState)
        → has id (require_operator cookie now s).1.sessions ≡ true
        → has id s.sessions ≡ true
    unfolding require_operator is_valid
    guard-origin none now s h = h
    guard-origin (some c) now s h = elim (Bool-cases (c == "")) [
      | inl e ↦ rw e at h
      | inr e ↦ checked (get c s.sessions) (rw e at h)
    ]
      where
        checked :
            (o : Option ℕ)
            → has id (check_expiry o c now s.sessions).1 ≡ true
            → has id s.sessions ≡ true
        checked none k = k
        checked (some x) k = elim (Bool-cases (ltb x now)) [
          | inl e ↦ has_of_has-delete id c s.sessions (rw e at k)
          | inr e ↦ rw e at k
        ]

    serve-origin :
        (r : Request) (rs : List Request) (s : AuthState)
        → has id (serve r s).sessions ≡ true
        → (has id s.sessions ≡ true) ⊎ Granted id (r ∷ rs)
    unfolding serve
    serve-origin (logs_in key minted now body) rs s h =
        elim (login-origin key minted now body s h) [
          | inl k ↦ inl k
          | inr (same, y) ↦
              inr (subst (λ m. Granted id (logs_in key m now body ∷ rs)) (sym same) (now_granted y))
        ]
    serve-origin (logs_out cookie) rs s h = inl (logout-origin cookie s h)
    serve-origin (is_guarded cookie now) rs s h = inl (guard-origin cookie now s h)

    pub serve_all-origin :
        (rs : List Request) (s : AuthState)
        → has id (serve_all rs s).sessions ≡ true
        → (has id s.sessions ≡ true) ⊎ Granted id rs
    unfolding serve_all
    serve_all-origin [] s h = inl h
    serve_all-origin (r ∷ rs) s h = elim (serve_all-origin rs (serve r s) h) [
      | inl k ↦ serve-origin r rs s k
      | inr g ↦ inr (granted_later g)
    ]

    pub admitted-has :
        (now : ℕ) (s : AuthState)
        → (require_operator (some id) now s).0 ≡ true
        → has id s.sessions ≡ true
    unfolding require_operator is_valid
    admitted-has now s h = elim (Bool-cases (id == "")) [
      | inl e ↦ cc (rw e at h)
      | inr e ↦ found (get id s.sessions) refl (rw e at h)
    ]
      where
        found :
            (o : Option ℕ)
            → get id s.sessions ≡ o
            → (check_expiry o id now s.sessions).0 ≡ true
            → has id s.sessions ≡ true
        found none e k = cc
        found (some x) e k = has_of_get id s.sessions x e

  -- Over any history of logins, logouts and guarded requests of a fresh service, the guard lets
  -- a session id through only if some login of the history minted it for the operator's password.
  pub require_operator-Granted :
      (rs : List Request) (id : String) (now : ℕ)
      → (require_operator (some id) now (serve_all rs no_sessions)).0 ≡ true
      → Granted id rs
  unfolding has
  require_operator-Granted rs id now h =
      elim (serve_all-origin id rs no_sessions (admitted-has id now (serve_all rs no_sessions) h)) [
        | inl k ↦ cc
        | inr g ↦ g
      ]
