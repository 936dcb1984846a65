-- ===== src/Tests/Publishing.antt =====
-- The properties of the kill switch and of the broadcast at concrete inputs.
use btcr2_aggregation.Prelude.{
  ◌+◌, ◌*◌, ◌≡◌, ◌≤◌, ◌==◌, refl, Bool, true, false, List, [], ◌∷◌, none, some, String, ℕ, zero,
  suc, All, arith,
}
use btcr2_aggregation.Cohorts.Config.{cas_beacon}
use btcr2_aggregation.OrderedMap.{has}
use btcr2_aggregation.OrderedMap.Laws.{Distinct}
use btcr2_aggregation.Settings.{Values}
use btcr2_aggregation.Wiring.{
  CohortTables, Event, advertised, provides_tx_data, signing_complete, cohort_uses_live_path, steps,
}
use btcr2_aggregation.Wiring.KillSwitch.{IsEngaged, IsSince, IsOfLive, steps-narrow}
use btcr2_aggregation.Broadcast.{
  Reply, accepts, throws, BroadcastConfirmOptions, attempts_of, send_with_retry, Polls,
  await_confirmation, Run, never, handle_signing_complete,
}
use btcr2_aggregation.Broadcast.Sending.{IsRun, send_with_retry-IsRun}
use btcr2_aggregation.Broadcast.Reporting.{
  EndsWith, await_confirmation-EndsWith, IsOrderly, handle_signing_complete-IsOrderly, IsReported,
  handle_signing_complete-IsReported,
}

abbrev stored : Values
stored = record {
  service_name = none;
  default_beacon_type = cas_beacon;
  default_size = 3;
  default_threshold = 3;
  default_discovery_window_ms = none;
  default_funding_window_ms = none;
  terms_text = none;
}

-- One cohort advertised at 50, and the switch engaged at 100.
abbrev switched : CohortTables
switched = record {
  settings = record {
    paused = false;
    broadcast_disabled = true;
    broadcast_disabled_at_ms = some 100;
    discovery_window_ceiling_ms = none;
    values = stored;
    env_defaults = stored;
    dropped_seeds = [];
  };
  advertised_at = ("early", 50) ∷ [];
  cohort_funding_windows = [];
  funding_watches = [];
  last_funding_view = [];
  effects = [];
}

abbrev after_switch : List Event
after_switch =
    advertised "late" 120
    ∷ provides_tx_data "late"
    ∷ provides_tx_data "early"
    ∷ signing_complete "early"
    ∷ []

engaged : IsEngaged 100 switched.settings
unfolding IsEngaged
engaged = (refl, refl)

since : All (IsSince 100) after_switch
unfolding IsSince
since = (omega arith, (tt, (tt, (tt, tt))))

early_once : Distinct switched.advertised_at
unfolding has
early_once = (refl, tt)

steps-narrow_example :
    ((id : String)
      → cohort_uses_live_path (steps after_switch switched) id ≡ true
      → cohort_uses_live_path switched id ≡ true)
    × All (IsOfLive (cohort_uses_live_path switched)) (steps after_switch switched).effects
steps-narrow_example = steps-narrow 100 switched after_switch engaged early_once refl since

abbrev known : String → Bool
known message = message == "already known"

abbrev unreachable : String → Bool
unreachable message = message == "fetch failed"

abbrev three_attempts : BroadcastConfirmOptions
three_attempts = record { send_retry_attempts = some 3; expected_txid = some "t" }

-- The first send fails, the later ones are accepted.
abbrev replies : ℕ → Reply
replies zero = throws "fetch failed" false false
replies (suc n) = accepts "t"

send_with_retry-IsRun_example :
    IsRun known unreachable three_attempts
      (attempts_of three_attempts)
      replies
      0
      (attempts_of three_attempts)
      (send_with_retry known unreachable three_attempts replies)
send_with_retry-IsRun_example = send_with_retry-IsRun known unreachable three_attempts replies

abbrev clock : ℕ → ℕ
clock k = k * 10

abbrev confirmed_third : ℕ → Bool
confirmed_third (suc (suc zero)) = true
confirmed_third _ = false

abbrev polls : Polls
polls = record { now = clock; aborted = λ k. false; is_confirmed = confirmed_third }

moves : (k : ℕ) → polls.now k + 10 ≤ polls.now (k + 1)
moves k = omega arith

enough : 45 ≤ polls.now 0 + 5 * 10
enough = omega arith

await_confirmation-EndsWith_example : EndsWith polls 45 0 (await_confirmation polls 45 6 0)
await_confirmation-EndsWith_example = await_confirmation-EndsWith polls 45 10 5 0 moves enough

abbrev run : Run
run = record {
  should_broadcast = true;
  extraction_failure = none;
  options = three_attempts;
  reply = replies;
  polls = polls;
  deadline = 45;
  stop = never;
}

handle_signing_complete-IsOrderly_example :
    IsOrderly "c1" (handle_signing_complete known unreachable "c1" 6 run)
handle_signing_complete-IsOrderly_example =
    handle_signing_complete-IsOrderly known unreachable "c1" 6 run

handle_signing_complete-IsReported_example :
    IsReported known unreachable "c1" run
      (send_with_retry known unreachable three_attempts replies).outcome
      (handle_signing_complete known unreachable "c1" 6 run)
handle_signing_complete-IsReported_example =
    handle_signing_complete-IsReported known unreachable "c1" 10 5 run refl refl refl moves enough
