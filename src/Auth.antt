-- ===== src/Auth.antt =====
-- packages/service/src/operator-auth.ts: the operator's sessions, the login throttle, the login
-- and logout handlers, and the two guards. The clock is an argument in milliseconds, and the
-- digest, the fresh session id and the URL parser are parameters. The login is the whole handler,
-- uninterrupted; its two parts, which other requests may come between, are in Auth/Overlap.
pub mod Guards
pub mod Sessions
pub mod History
pub mod Logout
pub mod Overlap
pub mod Throttle
use btcr2_aggregation.Prelude.{
  ◌+◌, ◌==◌, ◌&&◌, ◌||◌, not, Bool, true, false, List, [], ◌∷◌, Option, none, some, String, ℕ,
  if◌then◌else◌, ltb, or_else, or_option,
}
use btcr2_aggregation.OrderedMap.{OrderedMap, get, set, delete}
use btcr2_aggregation.Phases.{contains}

-- The sessions, each with its `expiresAt`.
abbrev pub SessionStore : Type 0
SessionStore = OrderedMap ℕ

-- `SessionStore.create`, with the id that `newSessionId` mints.
unfoldable pub create : ℕ → String → ℕ → SessionStore → SessionStore
unfolding set
create ttl_ms id now sessions = set id (now + ttl_ms) sessions

abbrev pub check_expiry : Option ℕ → String → ℕ → SessionStore → Bool × SessionStore
check_expiry none id now sessions = (false, sessions)
check_expiry (some expires_at) id now sessions =
    if ltb expires_at now then (false, delete id sessions) else (true, sessions)

-- `SessionStore.isValid`, which evicts an expired session.
unfoldable pub is_valid : String → ℕ → SessionStore → Bool × SessionStore
unfolding get delete
is_valid id now sessions = check_expiry (get id sessions) id now sessions

unfoldable pub destroy : String → SessionStore → SessionStore
unfolding delete
destroy id sessions = delete id sessions

pub record Attempts : Type 0 where
  pub count : ℕ
  pub reset_at : ℕ

pub record ThrottleOptions : Type 0 where
  pub max_attempts : ℕ
  pub window_ms : ℕ

abbrev pub LoginThrottle : Type 0
LoginThrottle = OrderedMap Attempts

module _ (opts : ThrottleOptions) where
  abbrev pub check_attempts : Option Attempts → String → ℕ → LoginThrottle → Bool × LoginThrottle
  check_attempts none key now attempts = (true, attempts)
  check_attempts (some r) key now attempts =
      if ltb r.reset_at now
      then (true, delete key attempts)
      else (ltb r.count opts.max_attempts, attempts)

  -- `LoginThrottle.check`.
  unfoldable pub check : String → ℕ → LoginThrottle → Bool × LoginThrottle
  unfolding get delete
  check key now attempts = check_attempts (get key attempts) key now attempts

  abbrev pub failed_attempts : Option Attempts → ℕ → Attempts
  failed_attempts none now = record { count = 1; reset_at = now + opts.window_ms }
  failed_attempts (some r) now =
      if ltb r.reset_at now
      then record { count = 1; reset_at = now + opts.window_ms }
      else record { count = r.count + 1; reset_at = r.reset_at }

  -- `LoginThrottle.fail`.
  unfoldable pub fail : String → ℕ → LoginThrottle → LoginThrottle
  unfolding get set
  fail key now attempts = set key (failed_attempts (get key attempts) now) attempts

-- `LoginThrottle.reset`.
unfoldable pub reset : String → LoginThrottle → LoginThrottle
unfolding delete
reset key attempts = delete key attempts

-- The body of a login request: text that does not parse, the JSON value `null` (whose property
-- read throws), or a value with a string `password` or without one.
pub data LoginBody : Type 0 where
  unparsable json_null : LoginBody
  json : Option String → LoginBody

pub data LoginResponse : Type 0 where
  too_many_attempts bad_body invalid_credentials internal_error : LoginResponse
  logged_in : String → LoginResponse

pub record AuthConfig : Type 0 where
  pub throttle : ThrottleOptions
  pub expected_password : String
  pub session_ttl_ms : ℕ

pub record AuthState : Type 0 where
  pub sessions : SessionStore
  pub attempts : LoginThrottle

module _ (digest : String → String) where
  unfoldable pub password_matches : String → String → Bool
  password_matches supplied expected = digest supplied == digest expected

  module _ (config : AuthConfig) (key minted : String) (now : ℕ) where
    abbrev pub compare_password : String → AuthState → LoginResponse × AuthState
    compare_password password s =
        if password_matches password config.expected_password
        then (
          logged_in minted,
          record {
            sessions = create config.session_ttl_ms minted now s.sessions;
            attempts = reset key s.attempts;
          },
        )
        else (invalid_credentials, record s { attempts = fail config.throttle key now s.attempts })

    abbrev pub read_body : LoginBody → AuthState → LoginResponse × AuthState
    read_body unparsable s = (bad_body, s)
    read_body json_null s = (internal_error, s)
    read_body (json password) s = compare_password (or_else password "") s

    abbrev pub admit_attempt :
        Bool × LoginThrottle → LoginBody → AuthState → LoginResponse × AuthState
    admit_attempt (true, attempts) body s = read_body body (record s { attempts = attempts })
    admit_attempt (false, attempts) body s = (too_many_attempts, record s { attempts = attempts })

    -- `loginHandler`: throttle, parse, compare, issue.
    unfoldable pub login : LoginBody → AuthState → LoginResponse × AuthState
    unfolding password_matches check create reset fail
    login body s = admit_attempt (check config.throttle key now s.attempts) body s

-- `logoutHandler`, on the session cookie.
unfoldable pub logout : Option String → AuthState → AuthState
unfolding destroy
logout none s = s
logout (some id) s = if id == "" then s else record s { sessions = destroy id s.sessions }

abbrev pub admitted_session : Bool × SessionStore → AuthState → Bool × AuthState
admitted_session (valid, sessions) s = (valid, record s { sessions = sessions })

-- `requireOperator`: whether the request reaches its handler.
unfoldable pub require_operator : Option String → ℕ → AuthState → Bool × AuthState
unfolding is_valid
require_operator none now s = (false, s)
require_operator (some id) now s =
    if id == "" then (false, s) else admitted_session (is_valid id now s.sessions) s

abbrev pub mutating_methods : List String
mutating_methods = "POST" ∷ "PUT" ∷ "PATCH" ∷ "DELETE" ∷ []

pub record Headers : Type 0 where
  pub origin : Option String
  pub referer : Option String
  pub host : Option String

module _ (url_host : String → Option String) where
  abbrev pub same_host : Option String → Option String → Bool
  same_host none host = false
  same_host (some origin_host) none = false
  same_host (some origin_host) (some host) = not (host == "") && (origin_host == host)

  abbrev pub check_origin : Option String → Option String → Bool
  check_origin none host = true
  check_origin (some origin) host = if origin == "" then true else same_host (url_host origin) host

  -- `requireSameOrigin`: whether the request reaches its handler.
  unfoldable pub require_same_origin : String → Headers → Bool
  unfolding contains
  require_same_origin method headers =
      if contains mutating_methods method
      then check_origin (or_option headers.origin headers.referer) headers.host
      else true
