-- ===== src/Auth/Sessions.antt =====
-- packages/service/src/operator-auth.ts: who has a session, over any history of requests.
use btcr2_aggregation.Prelude.{
  ◌≡◌, refl, Bool, true, false, Option, String, ℕ, or_else, ◌↔◌, inl, inr, Bool-cases,
}
use btcr2_aggregation.Auth.{
  LoginThrottle, AuthConfig, AuthState, LoginBody, json, unparsable, json_null, logged_in,
  password_matches, check, login, read_body, admit_attempt,
}

module _ (digest : String → String) (config : AuthConfig) where
  -- The password that a body supplies is the operator's.
  pub record Supplies (body : LoginBody) : Type 0 where
    pub password : Option String
    pub parsed : body ≡ json password
    pub matched : password_matches digest (or_else password "") config.expected_password ≡ true

  module _ (key minted : String) (now : ℕ) where
    bodied :
        (body : LoginBody) (s : AuthState)
        → ((read_body digest config key minted now body s).0 ≡ logged_in minted) ↔ Supplies body
    bodied unparsable s = (λ h. cc, λ p. cc (p.parsed))
    bodied json_null s = (λ h. cc, λ p. cc (p.parsed))
    bodied (json password) s =
        elim (Bool-cases (password_matches digest (or_else password "") config.expected_password)) [
          | inl e ↦
              (λ h. record { password = password; parsed = refl; matched = e }, λ p. rw e refl)
          | inr e ↦ (λ h. cc (rw e at h), λ p. cc (p.parsed, p.matched, e))
        ]

    admitted :
        (a : Bool × LoginThrottle) (body : LoginBody) (s : AuthState)
        → ((admit_attempt digest config key minted now a body s).0 ≡ logged_in minted)
          ↔ ((a.0 ≡ true) × Supplies body)
    admitted (true, attempts) body s =
        let (f, g) = bodied body (record s { attempts = attempts }) in
        (λ h. (refl, f h), λ p. g p.1)
    admitted (false, attempts) body s = (λ h. cc, λ p. cc (p.0))

    -- A login succeeds exactly if the throttle admits the client and the body supplies the
    -- operator's password.
    pub login-eq-logged_in_iff :
        (body : LoginBody) (s : AuthState)
        → ((login digest config key minted now body s).0 ≡ logged_in minted)
          ↔ (((check config.throttle key now s.attempts).0 ≡ true) × Supplies body)
    unfolding login
    login-eq-logged_in_iff body s = admitted (check config.throttle key now s.attempts) body s
