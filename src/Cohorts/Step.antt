-- ===== src/Cohorts/Step.antt =====
-- packages/service/src/operator-cohorts.ts as a state machine: the operator's actions, the
-- settlements and timers that the event loop delivers, and the runner's own progress, one at a
-- time and in any order. An action that is refused leaves the state as it was.
use btcr2_aggregation.Prelude.{false, Option, none, String, List, [], ◌∷◌}
use btcr2_aggregation.Cohorts.Config.{RecoveryKeys, Result, ok, refused}
use btcr2_aggregation.Cohorts.Draft.{DraftInput}
use btcr2_aggregation.Cohorts.State.{Settings, Options, State, Runner}
use btcr2_aggregation.Cohorts.Drafts.{create_draft, update_draft, discard_draft}
use btcr2_aggregation.Cohorts.Lifecycle.{
  advertise_draft, readvertise_expired, settle_completed, settle_rejected, fire_window_timer,
  cancel_cohort, finalize_cohort, forget_terminal, stop_service,
}

pub data Event (S : Type 0) : Type 0 where
  creates : String → DraftInput → Event S
  updates : String → DraftInput → Event S
  discards : String → Event S
  advertises : String → Event S
  readvertises : String → Event S
  cancels : String → Event S
  finalizes : String → Event S
  forgets : String → Event S
  completes : String → Event S
  rejects : String → String → Event S
  window_fires : String → Event S
  progresses : S → Event S
  changes_settings : Option Settings → Event S
  stops_service : Event S

-- The state after a fallible action.
abbrev pub after : {S R : Type 0} → State S → Result (State S × R) → State S
after s (ok (s', r)) = s'
after s (refused e) = s

module _ {S : Type 0} (keys : RecoveryKeys) (opts : Options) (runner : Runner S) where
  unfoldable pub step : Event S → State S → State S
  step (creates draft_id input) s = after s (create_draft keys opts draft_id input s)
  step (updates draft_id input) s = after s (update_draft keys opts draft_id input s)
  step (discards draft_id) s = (discard_draft draft_id s).0
  step (advertises draft_id) s = (advertise_draft runner opts draft_id s).0
  step (readvertises cohort_id) s = (readvertise_expired runner opts cohort_id s).0
  step (cancels cohort_id) s = (cancel_cohort runner opts cohort_id s).0
  step (finalizes cohort_id) s = (finalize_cohort runner opts cohort_id s).0
  step (forgets cohort_id) s = (forget_terminal runner opts cohort_id s).0
  step (completes cohort_id) s = settle_completed runner opts cohort_id s
  step (rejects cohort_id message) s = settle_rejected runner opts cohort_id message s
  step (window_fires cohort_id) s = fire_window_timer runner opts cohort_id s
  step (progresses session) s = record s { session = session }
  step (changes_settings settings) s = record s { settings = settings }
  step stops_service s = stop_service s

-- A fresh service over a session.
unfoldable pub initial : {S : Type 0} → S → Option Settings → State S
initial session settings = record {
  session = session;
  drafts = [];
  advertised = [];
  terminal = [];
  dismissed_canceled = [];
  advertised_windows = [];
  window_timers = [];
  advert_slot_owner = none;
  intents = [];
  settings = settings;
  stopped = false;
  calls = [];
}

module _ {S : Type 0} (keys : RecoveryKeys) (opts : Options) (runner : Runner S) where
  -- The states that a service can be in, with the events so far, the latest first.
  pub data Reach : List (Event S) → State S → Type 0 where
    fresh : (session : S) (settings : Option Settings) → Reach [] (initial session settings)
    next :
        {past : List (Event S)} {s : State S} (e : Event S)
        → Reach past s
        → Reach (e ∷ past) (step keys opts runner e s)
