-- ===== src/Auth/Overlap.antt =====
-- packages/service/src/operator-auth.ts, `loginHandler` in its two parts: what runs when a request
-- arrives, up to `await c.req.json()`, and what runs when its body has been read. Between the two
-- the event loop runs parts of other requests, so several requests are pending at once.
use btcr2_aggregation.Prelude.{
  ◌≡◌, refl, Bool, true, false, List, [], ◌∷◌, Option, none, some, String, ℕ, zero, suc,
}
use btcr2_aggregation.Auth.{
  LoginThrottle, check, create, fail, reset, password_matches, AuthConfig, AuthState, LoginBody,
  LoginResponse, too_many_attempts, read_body, admit_attempt, login,
}

-- A login request: its client, and the body that it turns out to have.
pub record LoginRequest : Type 0 where
  pub from : String
  pub body : LoginBody

-- The shared state, and the requests that passed the throttle and whose bodies are being read.
pub record Logins : Type 0 where
  pub auth : AuthState
  pub pending : List LoginRequest

-- A request arrives; or the body of the pending request at a position has been read, at a time, and
-- the session id given is the one that the handler would mint.
pub data LoginMove : Type 0 where
  arrives : LoginRequest → ℕ → LoginMove
  is_read : ℕ → String → ℕ → LoginMove

abbrev pub skipping : {A : Type 0} → A → Option (A × List A) → Option (A × List A)
skipping x none = none
skipping x (some (y, ys)) = some (y, x ∷ ys)

-- The element at a position, and the others.
unfoldable pub take_out : {A : Type 0} → ℕ → List A → Option (A × List A)
take_out n [] = none
take_out zero (x ∷ xs) = some (x, xs)
take_out (suc n) (x ∷ xs) = skipping x (take_out n xs)

-- Who has been answered, and what.
abbrev pub LoginAnswer : Type 0
LoginAnswer = Option (String × LoginResponse)

module _ (digest : String → String) (config : AuthConfig) where
  abbrev pub admit_request : LoginRequest → Bool × LoginThrottle → Logins → LoginAnswer × Logins
  admit_request r (true, attempts) s =
      (none, record s { auth = record s.auth { attempts = attempts }; pending = r ∷ s.pending })
  admit_request r (false, attempts) s =
      (some (r.from, too_many_attempts), record s { auth = record s.auth { attempts = attempts } })

  -- `loginHandler` up to its `await`.
  unfoldable pub begin_login : LoginRequest → ℕ → Logins → LoginAnswer × Logins
  unfolding check
  begin_login r now s = admit_request r (check config.throttle r.from now s.auth.attempts) s

  abbrev pub answer_request :
      String → ℕ → Option (LoginRequest × List LoginRequest) → Logins → LoginAnswer × Logins
  answer_request minted now none s = (none, s)
  answer_request minted now (some (r, others)) s =
      let (response, auth) = read_body digest config r.from minted now r.body s.auth in
      (some (r.from, response), record { auth = auth; pending = others })

  -- `loginHandler` from its `await` on.
  unfoldable pub finish_login : ℕ → String → ℕ → Logins → LoginAnswer × Logins
  unfolding take_out password_matches create fail reset
  finish_login position minted now s = answer_request minted now (take_out position s.pending) s

  unfoldable pub move : LoginMove → Logins → LoginAnswer × Logins
  unfolding begin_login finish_login
  move (arrives r now) s = begin_login r now s
  move (is_read position minted now) s = finish_login position minted now s

  -- Both parts of a request that nothing else interrupts.
  module _ (r : LoginRequest) (minted : String) (now : ℕ) where
    abbrev at_once : LoginAnswer × Logins → LoginAnswer × Logins
    at_once (none, s) = finish_login 0 minted now s
    at_once (some a, s) = (some a, s)

    admitted_at_once :
        (c : Bool × LoginThrottle) (s : Logins)
        → at_once (admit_request r c s) ≡ (
          some (r.from, (admit_attempt digest config r.from minted now c r.body s.auth).0),
          record s { auth = (admit_attempt digest config r.from minted now c r.body s.auth).1 },
        )
    unfolding finish_login
    admitted_at_once (true, attempts) s = refl
    admitted_at_once (false, attempts) s = refl

    -- A request that nothing else interrupts is handled as the whole handler does.
    at_once-eq-login :
        (s : Logins)
        → at_once (begin_login r now s) ≡ (
          some (r.from, (login digest config r.from minted now r.body s.auth).0),
          record s { auth = (login digest config r.from minted now r.body s.auth).1 },
        )
    unfolding begin_login login check
    at_once-eq-login s = admitted_at_once (check config.throttle r.from now s.auth.attempts) s
