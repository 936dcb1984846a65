-- ===== src/Auth/Logout.antt =====
-- packages/service/src/operator-auth.ts: sessions from login to logout.
use btcr2_aggregation.Prelude.{
  ◌+◌, ◌≡◌, ◌==◌, refl, Bool, true, false, List, [], ◌∷◌, Option, none, some, String, ℕ,
  if◌then◌else◌, ltb, leb, or_else, eq_refl, arith, inl, inr, Bool-cases,
}
use btcr2_aggregation.OrderedMap.{get, has}
use btcr2_aggregation.OrderedMap.Laws.{Distinct, get-set, has-delete, set-Distinct, delete-Distinct}
use btcr2_aggregation.Auth.{
  SessionStore, LoginThrottle, AuthConfig, AuthState, LoginBody, json, unparsable, json_null,
  logged_in, password_matches, create, destroy, is_valid, check, check_expiry, login, logout,
  require_operator, admit_attempt, compare_password, admitted_session,
}
use btcr2_aggregation.Auth.History.{
  Request, logs_in, logs_out, is_guarded, no_sessions, serve, serve_all, Granted, serve_all-origin,
  admitted-has,
}

module _ (digest : String → String) (config : AuthConfig) where
  compared-Distinct :
      (key minted : String) (now : ℕ) (password : String) (s : AuthState)
      → Distinct s.sessions
      → Distinct (compare_password digest config key minted now password s).1.sessions
  unfolding create
  compared-Distinct key minted now password s d =
      elim (Bool-cases (password_matches digest password config.expected_password)) [
        | inl e ↦ rw e (set-Distinct minted _ s.sessions d)
        | inr e ↦ rw e d
      ]

  admitted-Distinct :
      (key minted : String) (now : ℕ) (a : Bool × LoginThrottle) (body : LoginBody) (s : AuthState)
      → Distinct s.sessions
      → Distinct (admit_attempt digest config key minted now a body s).1.sessions
  admitted-Distinct key minted now (false, a) body s d = d
  admitted-Distinct key minted now (true, a) unparsable s d = d
  admitted-Distinct key minted now (true, a) json_null s d = d
  admitted-Distinct key minted now (true, a) (json p) s d =
      compared-Distinct key minted now (or_else p "") (record s { attempts = a }) d

  checked-Distinct :
      (o : Option ℕ) (c : String) (now : ℕ) (m : SessionStore)
      → Distinct m
      → Distinct (check_expiry o c now m).1
  checked-Distinct none c now m d = d
  checked-Distinct (some x) c now m d = elim (Bool-cases (ltb x now)) [
    | inl e ↦ rw e (delete-Distinct c m d)
    | inr e ↦ rw e d
  ]

  serve-Distinct :
      (r : Request) (s : AuthState)
      → Distinct s.sessions
      → Distinct (serve digest config r s).sessions
  unfolding serve login logout require_operator destroy is_valid
  serve-Distinct (logs_in key minted now body) s d =
      admitted-Distinct key minted now (check config.throttle key now s.attempts) body s d
  serve-Distinct (logs_out none) s d = d
  serve-Distinct (logs_out (some c)) s d = elim (Bool-cases (c == "")) [
    | inl e ↦ rw e d
    | inr e ↦ rw e (delete-Distinct c s.sessions d)
  ]
  serve-Distinct (is_guarded none now) s d = d
  serve-Distinct (is_guarded (some c) now) s d = guarded (c == "")
    where
      guarded :
          (b : Bool)
          → Distinct
              (if b then (false, s) else admitted_session (is_valid c now s.sessions) s).1.sessions
      guarded true = d
      guarded false = checked-Distinct (get c s.sessions) c now s.sessions d

  serve_all-Distinct :
      (rs : List Request) (s : AuthState)
      → Distinct s.sessions
      → Distinct (serve_all digest config rs s).sessions
  unfolding serve_all
  serve_all-Distinct [] s d = d
  serve_all-Distinct (r ∷ rs) s d =
      serve_all-Distinct rs (serve digest config r s) (serve-Distinct r s d)

  logout-absent :
      (id : String) (s : AuthState)
      → Distinct s.sessions
      → (id == "") ≡ false
      → has id (logout (some id) s).sessions ≡ false
  unfolding logout destroy
  logout-absent id s d e = rw e (rw (has-delete id id s.sessions d, eq_refl id) refl)

  blank-denied :
      (id : String) (now : ℕ) (s : AuthState)
      → (id == "") ≡ true
      → (require_operator (some id) now s).0 ≡ false
  unfolding require_operator
  blank-denied id now s e = rw e refl

  -- After a logout, whatever came before it and comes after it, the guard lets the same session
  -- id through only if a login after the logout minted it anew for the operator's password: a
  -- replayed cookie is refused.
  pub logout-is_final :
      (before later : List Request) (id : String) (now : ℕ)
      → (require_operator (some id) now (
          serve_all digest config later
            (logout (some id) (serve_all digest config before no_sessions)))).0
        ≡ true
      → Granted digest config id later
  logout-is_final before later id now h = elim (Bool-cases (id == "")) [
    | inl e ↦ cc (blank-denied id now _ e, h)
    | inr e ↦
        elim (serve_all-origin digest config id later _ (admitted-has digest config id now _ h)) [
          | inr g ↦ g
          | inl k ↦ cc (
            logout-absent id (serve_all digest config before no_sessions)
                (serve_all-Distinct before no_sessions tt) e,
            k,
          )
        ]
  ]

  module _ (key minted : String) (now : ℕ) (body : LoginBody) (s : AuthState)
      (named : (minted == "") ≡ false) where
    looked_up :
        (later : ℕ) (t : AuthState)
        → get minted t.sessions ≡ some (now + config.session_ttl_ms)
        → (require_operator (some minted) later t).0 ≡ leb later (now + config.session_ttl_ms)
    unfolding require_operator is_valid
    looked_up later t e = rw named (rw e (ground arith))

    compared-opens :
        (password : String) (t : AuthState) (later : ℕ)
        → (compare_password digest config key minted now password t).0 ≡ logged_in minted
        → (require_operator
            (some minted)
            later
            (compare_password digest config key minted now password t).1).0
          ≡ leb later (now + config.session_ttl_ms)
    unfolding create
    compared-opens password t later h =
        elim (Bool-cases (password_matches digest password config.expected_password)) [
          | inr e ↦ cc (rw e at h)
          | inl e ↦ rw e (looked_up later _ (opened t))
        ]
      where
        opened :
            (t : AuthState)
            → get minted (create config.session_ttl_ms minted now t.sessions)
              ≡ some (now + config.session_ttl_ms)
        opened t =
            rw (get-set minted minted (now + config.session_ttl_ms) t.sessions, eq_refl minted) refl

    admitted-opens :
        (a : Bool × LoginThrottle) (b : LoginBody) (later : ℕ)
        → (admit_attempt digest config key minted now a b s).0 ≡ logged_in minted
        → (require_operator
            (some minted)
            later
            (admit_attempt digest config key minted now a b s).1).0
          ≡ leb later (now + config.session_ttl_ms)
    admitted-opens (false, a) b later h = cc
    admitted-opens (true, a) unparsable later h = cc
    admitted-opens (true, a) json_null later h = cc
    admitted-opens (true, a) (json p) later h =
        compared-opens (or_else p "") (record s { attempts = a }) later h

    -- After a login that succeeds, minting a non-empty session id, the guard lets that id through
    -- up to the session's lifetime, that millisecond included, and refuses it afterwards.
    pub login-opens :
        (later : ℕ)
        → (login digest config key minted now body s).0 ≡ logged_in minted
        → (require_operator (some minted) later (login digest config key minted now body s).1).0
          ≡ leb later (now + config.session_ttl_ms)
    unfolding login
    login-opens later h = admitted-opens (check config.throttle key now s.attempts) body later h
