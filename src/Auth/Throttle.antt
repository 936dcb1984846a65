-- ===== src/Auth/Throttle.antt =====
-- packages/service/src/operator-auth.ts: how often a client can guess the password, over any
-- interleaving of its requests with each other and with those of other clients.
use btcr2_aggregation.Prelude.{
  ◌+◌, ◌≡◌, ◌==◌, ◌≤◌, refl, sym, subst, ◌<◌, Bool, true, false, List, [], ◌∷◌, Option, none, some,
  String, ℕ, All, ◌&&◌, zero, suc, if◌then◌else◌, ltb, or_else, eq_iff, eq_refl, arith, ◌⊎◌, inl,
  inr, Bool-cases,
}
use btcr2_aggregation.OrderedMap.{get}
use btcr2_aggregation.OrderedMap.Laws.{get-set, get-delete_other}
use btcr2_aggregation.Auth.{
  Attempts, LoginThrottle, check_attempts, failed_attempts, check, fail, reset, AuthConfig,
  AuthState, LoginBody, json, unparsable, json_null, LoginResponse, invalid_credentials,
  password_matches, read_body,
}
use btcr2_aggregation.Auth.Overlap.{
  LoginRequest, Logins, LoginMove, LoginAnswer, arrives, is_read, skipping, take_out, admit_request,
  begin_login, answer_request, finish_login, move,
}

module _ (digest : String → String) (config : AuthConfig) where
  abbrev is_denial : LoginResponse → Bool
  is_denial invalid_credentials = true
  is_denial _ = false

  abbrev is_denial_of : String → LoginAnswer → Bool
  is_denial_of k none = false
  is_denial_of k (some (from, response)) = (from == k) && is_denial response

  -- How many guesses of a client the moves, in their order, compare with the password and refuse.
  unfoldable pub denials : String → List LoginMove → Logins → ℕ
  denials k [] s = 0
  denials k (m ∷ rest) s =
      let (answer, s') = move digest config m s in
      let n = denials k rest s' in if is_denial_of k answer then suc n else n

  -- How many requests of a client are pending.
  unfoldable pub waiting : String → List LoginRequest → ℕ
  waiting k [] = 0
  waiting k (r ∷ rest) = let n = waiting k rest in if r.from == k then suc n else n

  -- Never more than so many requests of the client are pending at once.
  abbrev pub AtMost : String → ℕ → List LoginMove → Logins → Type 0
  AtMost k c [] s = Unit
  AtMost k c (m ∷ rest) s =
      (waiting k (move digest config m s).1.pending ≤ c)
      × AtMost k c rest (move digest config m s).1

  -- A body without the password.
  abbrev pub wrong_guess : LoginBody → Bool
  wrong_guess (json p) =
      if password_matches digest (or_else p "") config.expected_password then false else true
  wrong_guess _ = true

  -- A request that is another client's, or lacks the password.
  abbrev pub Lacking : String → LoginRequest → Type 0
  Lacking k r = ((r.from == k) ≡ false) ⊎ (wrong_guess r.body ≡ true)

  abbrev pub InWindow : ℕ → ℕ → Type 0
  InWindow start now = (start ≤ now) × (now ≤ start + config.throttle.window_ms)

  -- A move in the window; a request that arrives is another client's or lacks the password.
  abbrev pub Guessing : String → ℕ → LoginMove → Type 0
  Guessing k start (arrives r now) = Lacking k r × InWindow start now
  Guessing k start (is_read position minted now) = InWindow start now

  module _ (k : String) (start : ℕ) where
    -- What the throttle has counted of the client, in a window that outlasts the guessing.
    abbrev Counted : Option Attempts → ℕ → Type 0
    Counted none n = n ≡ 0
    Counted (some r) n = (r.count ≡ n) × (start + config.throttle.window_ms ≤ r.reset_at)

    other_compared :
        (from minted : String) (now : ℕ) (b : LoginBody) (t : AuthState)
        → (from == k) ≡ false
        → get k (read_body digest config from minted now b t).1.attempts ≡ get k t.attempts
    unfolding fail reset
    other_compared from minted now unparsable t e = refl
    other_compared from minted now json_null t e = refl
    other_compared from minted now (json p) t e =
        elim (Bool-cases (password_matches digest (or_else p "") config.expected_password)) [
          | inl y ↦ rw y (get-delete_other k from t.attempts e)
          | inr n ↦ rw n (
              rw
                (
                  get-set k from (failed_attempts config.throttle (get from t.attempts) now)
                      t.attempts,
                  e,
                )
                refl)
        ]

    -- What a wrong guess of the client leads to: no denial and nothing counted, or a denial that
    -- is counted.
    abbrev Outcome : Option Attempts → ℕ → LoginResponse × AuthState → Type 0
    Outcome o now answer =
        ((is_denial answer.0 ≡ false) × (get k answer.1.attempts ≡ o))
        ⊎ ((is_denial answer.0 ≡ true)
            × (get k answer.1.attempts ≡ some (failed_attempts config.throttle o now)))

    guess_compared :
        (o : Option Attempts) (now : ℕ) (minted : String) (b : LoginBody) (t : AuthState)
        → get k t.attempts ≡ o
        → wrong_guess b ≡ true
        → Outcome o now (read_body digest config k minted now b t)
    unfolding fail
    guess_compared o now minted unparsable t e w = inl (refl, e)
    guess_compared o now minted json_null t e w = inl (refl, e)
    guess_compared o now minted (json p) t e w =
        elim (Bool-cases (password_matches digest (or_else p "") config.expected_password)) [
          | inl y ↦ cc (rw y at w)
          | inr y ↦ rw y (
              inr (
                refl,
                rw
                    (
                      get-set k k (failed_attempts config.throttle (get k t.attempts) now)
                          t.attempts,
                      eq_refl k,
                      e,
                    )
                    refl,
              ))
        ]

    failed_attempts-Counted :
        (o : Option Attempts) (n now : ℕ)
        → Counted o n
        → start ≤ now
        → now ≤ start + config.throttle.window_ms
        → Counted (some (failed_attempts config.throttle o now)) (suc n)
    failed_attempts-Counted none n now c early late = (ground arith, ground arith)
    failed_attempts-Counted (some r) n now c early late =
        let open_window : ltb r.reset_at now ≡ false = ground (arith, c.1, late) in
        rw open_window (omega (arith, c.0), c.1)

    -- Another client's arrival leaves the client's count alone.
    other_checked :
        (o : Option Attempts) (from : String) (now : ℕ) (t : LoginThrottle)
        → (from == k) ≡ false
        → get k (check_attempts config.throttle o from now t).1 ≡ get k t
    other_checked none from now t e = refl
    other_checked (some r) from now t e = elim (Bool-cases (ltb r.reset_at now)) [
      | inl y ↦ rw y (get-delete_other k from t e)
      | inr n ↦ rw n refl
    ]

    -- There is room for another guess of the client.
    abbrev Room : ℕ → Type 0
    Room n = (n ≡ 0) ⊎ (n < config.throttle.max_attempts)

    own_checked :
        (o : Option Attempts) (n now : ℕ) (t : LoginThrottle)
        → get k t ≡ o
        → Counted o n
        → now ≤ start + config.throttle.window_ms
        → Counted (get k (check_attempts config.throttle o k now t).1) n
          × ((check_attempts config.throttle o k now t).0 ≡ true → Room n)
    own_checked none n now t e c late = (rw e c, λ h. inl c)
    own_checked (some r) n now t e c late =
        let still_open : ltb r.reset_at now ≡ false = ground (arith, c.1, late) in
        rw still_open (rw e c, λ h. inr (ground (arith, c.0, h)))

    module _ (c : ℕ) (m : 1 ≤ config.throttle.max_attempts) where
      -- What the client has been refused and what it has pending stay within the bound.
      abbrev Holds : Logins → ℕ → Type 0
      Holds s n =
          Counted (get k s.auth.attempts) n
          × (n + waiting k s.pending ≤ config.throttle.max_attempts + c)
          × All (Lacking k) s.pending

      -- What one move leads to, after so many denials.
      abbrev Next : LoginAnswer × Logins → ℕ → Type 0
      Next (answer, s) n =
          ((is_denial_of k answer ≡ false) × Holds s n)
          ⊎ ((is_denial_of k answer ≡ true) × Holds s (suc n))

      admitted-Next :
          (r : LoginRequest) (n : ℕ) (s : Logins) (admitted : Bool × LoginThrottle)
          → Lacking k r
          → Counted (get k admitted.1) n
          → (admitted.0 ≡ true → (r.from == k) ≡ true → Room n)
          → waiting k (admit_request digest config r admitted s).1.pending ≤ suc c
          → Holds s n
          → Next (admit_request digest config r admitted s) n
      unfolding waiting
      admitted-Next r n s (false, attempts) l counted room few h =
          inl (ground arith, (counted, h.1, h.2))
      admitted-Next r n s (true, attempts) l counted room few h = elim (Bool-cases (r.from == k)) [
        | inl same ↦
            let few' = rw same at few in
            let room' = room refl same in
            inl (refl, (counted, rw same (ground (arith, m, few', room')), (l, h.2)))
        | inr other ↦ inl (refl, (counted, rw other h.1, (l, h.2)))
      ]

      arrives-Next :
          (r : LoginRequest) (now n : ℕ) (s : Logins)
          → Guessing k start (arrives r now)
          → waiting k (begin_login digest config r now s).1.pending ≤ suc c
          → Holds s n
          → Next (begin_login digest config r now s) n
      unfolding begin_login check
      arrives-Next r now n s g few h = elim (Bool-cases (r.from == k)) [
        | inr other ↦
            admitted-Next r n s _ g.0
              (rw (other_checked (get r.from s.auth.attempts) r.from now s.auth.attempts other) h.0)
              (λ a same. cc) few h
        | inl same ↦
            let checked = own (sym ((eq_iff r.from k).0 same)) in
            admitted-Next r n s _ g.0 checked.0 (λ a e. checked.1 a) few h
      ]
        where
          own :
              k ≡ r.from
              → let a =
                  check_attempts config.throttle
                    (get r.from s.auth.attempts)
                    r.from
                    now
                    s.auth.attempts in
                Counted (get k a.1) n × (a.0 ≡ true → Room n)
          own e =
              subst
                (λ f.
                  let a =
                    check_attempts config.throttle (get f s.auth.attempts) f now s.auth.attempts in
                  Counted (get k a.1) n × (a.0 ≡ true → Room n))
                e (own_checked (get k s.auth.attempts) n now s.auth.attempts refl h.0 g.1.1)

      -- What taking a request out of the pending ones leaves.
      abbrev Taken : List LoginRequest → Option (LoginRequest × List LoginRequest) → Type 0
      Taken rs none = Unit
      Taken rs (some (r, others)) =
          (waiting k rs ≡ waiting k (r ∷ others)) × (Lacking k r × All (Lacking k) others)

      skipping-Taken :
          (r : LoginRequest) (rs : List LoginRequest)
          (o : Option (LoginRequest × List LoginRequest))
          → Lacking k r
          → Taken rs o
          → Taken (r ∷ rs) (skipping r o)
      unfolding waiting
      skipping-Taken r rs none l h = tt
      skipping-Taken r rs (some (q, others)) l h = (ground (arith, h.0), (h.1.0, (l, h.1.1)))

      take_out-Taken :
          (n : ℕ) (rs : List LoginRequest) → All (Lacking k) rs → Taken rs (take_out n rs)
      unfolding take_out
      take_out-Taken n [] a = tt
      take_out-Taken zero (r ∷ rs) a = (refl, a)
      take_out-Taken (suc n) (r ∷ rs) a =
          skipping-Taken r rs (take_out n rs) a.0 (take_out-Taken n rs a.1)

      -- The body of the client's own request has been read.
      own_answered :
          (n now : ℕ) (others : List LoginRequest) (a : LoginResponse × AuthState)
          (o : Option Attempts)
          → Counted o n
          → InWindow start now
          → n + suc (waiting k others) ≤ config.throttle.max_attempts + c
          → All (Lacking k) others
          → Outcome o now a
          → Next (some (k, a.0), record { auth = a.1; pending = others }) n
      own_answered n now others a o counted window bound all (inl (quiet, e)) =
          inl (ground (arith, quiet), (rw e counted, ground (arith, bound), all))
      own_answered n now others a o counted window bound all (inr (denied, e)) = inr (
        rw (eq_refl k, denied) refl,
        (
          rw e (failed_attempts-Counted o n now counted window.0 window.1),
          omega (arith, bound),
          all,
        ),
      )

      answered-Next :
          (o : Option (LoginRequest × List LoginRequest)) (minted : String) (now n : ℕ) (s : Logins)
          → InWindow start now
          → Taken s.pending o
          → Holds s n
          → Next (answer_request digest config minted now o s) n
      unfolding waiting
      answered-Next none minted now n s window taken h = inl (refl, h)
      answered-Next (some (r, others)) minted now n s window taken h =
          elim (Bool-cases (r.from == k)) [
            | inr other ↦
                let kept = other_compared r.from minted now r.body s.auth other in
                inl (rw other refl, (rw kept h.0, ground (arith, taken.0, h.1, other), taken.1.1))
            | inl same ↦ own (sym ((eq_iff r.from k).0 same)) (ground (arith, taken.1.0, same)) same
          ]
        where
          own :
              k ≡ r.from
              → wrong_guess r.body ≡ true
              → (r.from == k) ≡ true
              → let a = read_body digest config r.from minted now r.body s.auth in
                Next (some (r.from, a.0), record { auth = a.1; pending = others }) n
          own e w same =
              subst
                (λ f.
                  let a = read_body digest config f minted now r.body s.auth in
                  Next (some (f, a.0), record { auth = a.1; pending = others }) n)
                e
                (own_answered n now others (read_body digest config k minted now r.body s.auth)
                  (get k s.auth.attempts) h.0 window (ground (arith, taken.0, h.1, same)) taken.1.1
                  (guess_compared (get k s.auth.attempts) now minted r.body s.auth refl w))

      move-Next :
          (v : LoginMove) (n : ℕ) (s : Logins)
          → Guessing k start v
          → waiting k (move digest config v s).1.pending ≤ suc c
          → Holds s n
          → Next (move digest config v s) n
      unfolding move finish_login
      move-Next (arrives r now) n s g few h = arrives-Next r now n s g few h
      move-Next (is_read position minted now) n s g few h =
          answered-Next (take_out position s.pending) minted now n s g
            (take_out-Taken position s.pending h.2) h

      denials_bound :
          (ms : List LoginMove) (n : ℕ) (s : Logins)
          → All (Guessing k start) ms
          → AtMost k (suc c) ms s
          → Holds s n
          → denials k ms s + n ≤ config.throttle.max_attempts + c
      unfolding denials
      denials_bound [] n s all few h = omega (arith, h.1)
      denials_bound (v ∷ ms) n s all few h = elim (move-Next v n s all.0 few.0 h) [
        | inl (quiet, h') ↦ rw quiet (denials_bound ms n _ all.1 few.1 h')
        | inr (denied, h') ↦
            let later = denials_bound ms (suc n) _ all.1 few.1 h' in
            rw denied (omega (arith, later))
      ]

    none_waiting : (rs : List LoginRequest) → waiting k rs ≡ 0 → All (Lacking k) rs
    unfolding waiting
    none_waiting [] e = tt
    none_waiting (r ∷ rs) e = (inl (ground (arith, e)), none_waiting rs (ground (arith, e)))

    -- With a limit of at least one attempt, take a client that the throttle has no record of and
    -- that has no request pending, and any moves of the handler within one window, in whatever
    -- order the parts of all requests run, in which this client's requests lack the password and
    -- other clients' are arbitrary. If the client never has more than c + 1 requests pending at
    -- once, then at most the limit and c more of its guesses are compared with the password and
    -- refused; so at most the limit when it sends one request at a time.
    pub denials-le :
        (c : ℕ) (ms : List LoginMove) (s : Logins)
        → 1 ≤ config.throttle.max_attempts
        → get k s.auth.attempts ≡ none
        → waiting k s.pending ≡ 0
        → All (Guessing k start) ms
        → AtMost k (suc c) ms s
        → denials k ms s ≤ config.throttle.max_attempts + c
    denials-le c ms s m e idle all few =
        let bound =
          denials_bound c m ms 0 s all few
            (rw e refl, omega (arith, idle), none_waiting s.pending idle) in
        omega (arith, bound)
