-- ===== src/Tests/Requests.antt =====
-- packages/service/src/operator-auth.ts: sessions, the throttle and the guards, run.
use btcr2_aggregation.Prelude.{
  ◌≡◌, ◌≤◌, refl, inr, true, List, [], ◌∷◌, Option, none, some, String, arith, leb, ◌+◌, ◌==◌,
  if◌then◌else◌, All,
}
use btcr2_aggregation.OrderedMap.{get}
use btcr2_aggregation.Auth.{
  AuthConfig, LoginBody, logged_in, login, logout, require_operator, Headers, password_matches,
}
use btcr2_aggregation.Auth.History.{
  Request, logs_in, no_sessions, serve, serve_all, Granted, require_operator-Granted,
}
use btcr2_aggregation.Auth.Logout.{logout-is_final, login-opens}
use btcr2_aggregation.Auth.Overlap.{LoginRequest, LoginMove, Logins, arrives, is_read, move}
use btcr2_aggregation.Auth.Throttle.{denials, waiting, AtMost, Guessing, denials-le}

abbrev digest : String → String
digest s = s

abbrev auth : AuthConfig
auth = record {
  throttle = record { max_attempts = 2; window_ms = 300000 };
  expected_password = "secret";
  session_ttl_ms = 1000;
}

abbrev good : LoginBody
good = LoginBody.json (some "secret")

abbrev bad : LoginBody
bad = LoginBody.json (some "guess")

abbrev history : List Request
history = logs_in "b" "s0" 4 bad ∷ logs_in "a" "s1" 5 good ∷ []

let_through : (require_operator (some "s1") 7 (serve_all digest auth history no_sessions)).0 ≡ true
unfolding require_operator serve_all serve login
let_through = refl

require_operator-Granted_example : Granted digest auth "s1" history
require_operator-Granted_example = require_operator-Granted digest auth history "s1" 7 let_through

abbrev again : List Request
again = logs_in "a" "s1" 9 good ∷ []

let_through_again :
    (require_operator (some "s1") 10 (
      serve_all digest auth again
        (logout (some "s1") (serve_all digest auth history no_sessions)))).0
    ≡ true
unfolding require_operator serve_all logout serve login
let_through_again = refl

logout-is_final_example : Granted digest auth "s1" again
logout-is_final_example = logout-is_final digest auth history again "s1" 10 let_through_again

succeeded : (login digest auth "a" "s1" 5 good no_sessions).0 ≡ logged_in "s1"
unfolding login
succeeded = refl

login-opens_example :
    (require_operator (some "s1") 1006 (login digest auth "a" "s1" 5 good no_sessions).1).0
    ≡ leb 1006 (5 + auth.session_ttl_ms)
login-opens_example = login-opens digest auth "a" "s1" 5 good no_sessions refl 1006 succeeded

abbrev guess : LoginRequest
guess = record { from = "a"; body = bad }

-- One guess, and then two whose bodies are read after both have arrived.
abbrev guesses : List LoginMove
guesses =
    arrives guess 1
    ∷ is_read 0 "s" 2
    ∷ arrives guess 3
    ∷ arrives guess 4
    ∷ is_read 0 "s" 5
    ∷ is_read 0 "s" 6
    ∷ arrives guess 7
    ∷ []

abbrev idle : Logins
idle = record { auth = no_sessions; pending = [] }

-- The last of the three passed a limit of two.
overlapping : denials digest auth "a" guesses idle ≡ 3
unfolding denials move password_matches
overlapping = refl

no_record : get "a" no_sessions.attempts ≡ none
unfolding get
no_record = refl

none_pending : waiting digest auth "a" idle.pending ≡ 0
unfolding waiting
none_pending = refl

guesses-Guessing : All (Guessing digest auth "a" 1) guesses
unfolding password_matches
guesses-Guessing = (
  (inr refl, (omega arith, omega arith)),
  (
    (omega arith, omega arith),
    (
      (inr refl, (omega arith, omega arith)),
      (
        (inr refl, (omega arith, omega arith)),
        (
          (omega arith, omega arith),
          ((omega arith, omega arith), ((inr refl, (omega arith, omega arith)), tt)),
        ),
      ),
    ),
  ),
)

guesses-AtMost : AtMost digest auth "a" 2 guesses idle
unfolding move waiting password_matches
guesses-AtMost = (
  omega arith,
  (omega arith, (omega arith, (omega arith, (omega arith, (omega arith, (omega arith, tt)))))),
)

denials-le_example : denials digest auth "a" guesses idle ≤ 2 + 1
denials-le_example =
    denials-le digest auth "a" 1 1 guesses idle (omega arith) no_record none_pending
      guesses-Guessing guesses-AtMost

abbrev host_of : String → Option String
host_of url = if url == "https://evil" then some "evil" else some "host"

abbrev forged : Headers
forged = record { origin = some "https://evil"; referer = none; host = some "host" }
