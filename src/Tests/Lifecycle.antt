-- ===== src/Tests/Lifecycle.antt =====
-- packages/service/src/operator-cohorts.ts: the operator's actions and the settlements, run.
use btcr2_aggregation.Prelude.{◌≡◌, refl, true, false, List, [], ◌∷◌, none, some, arith, ◌↔◌}
use btcr2_aggregation.OrderedMap.{remember, get, has, set, delete, evict}
use btcr2_aggregation.Intents.{read, declare}
use btcr2_aggregation.Phases.{phase_in}
use btcr2_aggregation.Cohorts.Draft.{effective_windows, validate_draft}
use btcr2_aggregation.Cohorts.Draft.Validation.{Describes, validate_draft-eq-ok_iff}
use btcr2_aggregation.Cohorts.Config.{ok, build_cohort_config}
use btcr2_aggregation.Cohorts.State.{
  find_open, remember_terminal, repair_advert_slot, arm_window_timer, note_advertised,
  clear_window_timer, State, Fate, is_paused,
}
use btcr2_aggregation.Cohorts.Drafts.{with_service_defaults, draft_entry, create_draft}
use btcr2_aggregation.Cohorts.Lifecycle.{
  launch, advertise_draft, cancel_cohort, settle_rejected, fire_window_timer, forget_terminal,
  canceled_reason, window_expired_reason, terminal_record,
}
use btcr2_aggregation.Cohorts.Reads.{cohort_fate}
use btcr2_aggregation.Cohorts.Step.{
  Event, creates, advertises, cancels, rejects, step, initial, Reach, fresh, next,
}
use btcr2_aggregation.Cohorts.Invariant.{IsValid}
use btcr2_aggregation.Cohorts.Invariant.Steps.{Reach-IsValid}
use btcr2_aggregation.Cohorts.Fate.{IsSettled}
use btcr2_aggregation.Cohorts.Fate.Narration.{
  cancel_cohort-settle_rejected, fire_window_timer-settle_rejected,
}
use btcr2_aggregation.Cohorts.Fate.Dismissal.{cohort_fate-forget_terminal}
use btcr2_aggregation.Cohorts.Fate.Origin.{WasCanceled, cohort_fate-WasCanceled}
use btcr2_aggregation.Tests.Data.{
  Session, runner, opts, curve, body, parsed_draft, config, windows, live, live-IsValid,
}

-- The history of a cohort: drafted, advertised, canceled, and its completion rejected.
abbrev canceled_history : List (Event Session)
canceled_history = rejects "c1" "stopped" ∷ cancels "c1" ∷ advertises "d1" ∷ creates "d1" body ∷ []

abbrev drafted : State Session
drafted = step curve opts runner (creates "d1" body) (initial [] none)

abbrev canceled_state : State Session
canceled_state =
    step curve opts runner (rejects "c1" "stopped")
      (step curve opts runner (cancels "c1") (step curve opts runner (advertises "d1") drafted))

canceled_run : Reach curve opts runner canceled_history canceled_state
canceled_run =
    next (rejects "c1" "stopped")
      (next (cancels "c1") (next (advertises "d1") (next (creates "d1" body) (fresh [] none))))

Reach-IsValid_example : IsValid canceled_state
Reach-IsValid_example = Reach-IsValid runner opts curve canceled_run

read_as_canceled : cohort_fate "c1" canceled_state ≡ true
unfolding cohort_fate step initial create_draft advertise_draft cancel_cohort settle_rejected get
    has read is_paused validate_draft with_service_defaults build_cohort_config draft_entry set
    delete evict launch arm_window_timer effective_windows note_advertised repair_advert_slot
    clear_window_timer find_open phase_in remember_terminal terminal_record declare remember
read_as_canceled = refl

cohort_fate-WasCanceled_example : WasCanceled "c1" canceled_history
cohort_fate-WasCanceled_example =
    cohort_fate-WasCanceled curve opts runner "c1" canceled_run read_as_canceled

validate_draft-eq-ok_iff_example :
    (validate_draft body true opts.cohort_ttl ≡ ok parsed_draft)
    ↔ Describes body true opts.cohort_ttl parsed_draft
validate_draft-eq-ok_iff_example = validate_draft-eq-ok_iff body true opts.cohort_ttl parsed_draft

abbrev canceled_live : State Session
canceled_live = (cancel_cohort runner opts "c1" (live "Advertised" false)).0

live_config : get "c1" (live "Advertised" false).advertised ≡ some config
unfolding get
live_config = refl

live_windows : get "c1" (live "Advertised" false).advertised_windows ≡ some windows
unfolding get
live_windows = refl

live_timer : has "c1" (live "Advertised" false).window_timers ≡ true
unfolding has
live_timer = refl

cancel_cohort-settle_rejected_example :
    (get "c1" (settle_rejected runner opts "c1" "gone" canceled_live).terminal
      ≡ some (record {
        config = config;
        reason = canceled_reason;
        fate = Fate.canceled;
        windows = windows;
      }))
    × (cohort_fate "c1" (settle_rejected runner opts "c1" "gone" canceled_live) ≡ true)
    × IsSettled "c1" (settle_rejected runner opts "c1" "gone" canceled_live)
cancel_cohort-settle_rejected_example =
    cancel_cohort-settle_rejected runner opts "c1" "gone" config windows (live "Advertised" false)
      (live-IsValid "Advertised" false) live_config live_windows

abbrev lapsed : State Session
lapsed =
    settle_rejected runner opts "c1" "gone"
      (fire_window_timer runner opts "c1" (live "Advertised" false))

fire_window_timer-settle_rejected_example :
    (get "c1" lapsed.terminal
      ≡ some (record {
        config = config;
        reason = window_expired_reason;
        fate = Fate.expired;
        windows = windows;
      }))
    × (cohort_fate "c1" lapsed ≡ has "c1" (live "Advertised" false).dismissed_canceled)
    × IsSettled "c1" lapsed
fire_window_timer-settle_rejected_example =
    fire_window_timer-settle_rejected runner opts "c1" "gone" config windows
      (live "Advertised" false) (live-IsValid "Advertised" false) live_timer live_config
      live_windows

abbrev failed : State Session
failed = settle_rejected runner opts "c1" "" (live "Advertised" false)

cohort_fate-forget_terminal_example :
    cohort_fate "c0" (forget_terminal runner opts "c0" (live "Advertised" false)).0
    ≡ cohort_fate "c0" (live "Advertised" false)
cohort_fate-forget_terminal_example =
    cohort_fate-forget_terminal runner opts "c0" "c0" (live "Advertised" false)
      (live-IsValid "Advertised" false) (omega arith)
