-- ===== src/Monitor/Notes.antt =====
-- packages/service/src/monitor.ts: one function for each note of the monitor, and the fold of events and
-- notes in any order.
use btcr2_aggregation.Prelude.{
  ◌||◌, ◌&&◌, not, Bool, true, false, List, [], ◌∷◌, Option, none, some, String, ℕ, if◌then◌else◌,
}
use btcr2_aggregation.OrderedMap.{get, has, delete}
use btcr2_aggregation.Phases.{phase_in, open_phases, in_flight_phases}
use btcr2_aggregation.Funding.{is_funded}
use btcr2_aggregation.Wiring.{FundingView}
use btcr2_aggregation.Monitor.{
  CohortChip, canceled, EndedRecord, ServiceMode, live, CohortMonitor, Session, entry_for,
  remember_entry, remember_ended, remember_funding, snapshot_capacity, snapshot_seats,
  record_operator_action, record_service_action,
}
use btcr2_aggregation.Monitor.Fold.{MonitorEvent, on_event}

-- What the service and the operator tell the monitor.
pub data Note : Type 0 where
  note_funding : String → FundingView → Note
  note_canceled dismiss_ended : String → Note
  note_operator_action : Option String → String → Note
  note_esplora_observation : Bool → Note

unfoldable pub keeps_funded : Option FundingView → FundingView → Bool
unfolding is_funded
keeps_funded none view = false
keeps_funded (some previous) view = is_funded previous.state && not (is_funded view.state)

unfoldable pub is_live : ServiceMode → Bool
is_live live = true
is_live _ = false

unfoldable pub is_canceled : CohortChip → Bool
is_canceled canceled = true
is_canceled _ = false

unfoldable pub ended_canceled : Option EndedRecord → Bool
unfolding is_canceled
ended_canceled none = false
ended_canceled (some r) = is_canceled r.chip

module _ (now : ℕ) where
  -- `noteFunding`: nothing outside the live mode, and a funded cohort stays funded.
  unfoldable pub on_note_funding :
      ServiceMode → String → FundingView → CohortMonitor → CohortMonitor
  unfolding get is_funded is_live remember_funding keeps_funded
  on_note_funding mode cohort_id view m =
      if not (is_live mode)
      then m
      else if keeps_funded (get cohort_id m.funding_views) view
      then m
      else remember_funding cohort_id view m

  unfoldable pub on_note_canceled : Session → String → CohortMonitor → CohortMonitor
  unfolding get is_canceled ended_canceled snapshot_seats record_operator_action entry_for
      snapshot_capacity remember_entry remember_ended
  on_note_canceled session cohort_id m =
      let seats = snapshot_seats session cohort_id m in
      let m' = record_operator_action now cohort_id "Operator canceled this cohort." m in
      let m'' =
        remember_entry cohort_id (snapshot_capacity session cohort_id (entry_for cohort_id m'))
          m' in
      if ended_canceled (get cohort_id m.ended)
      then m
      else remember_ended cohort_id
          (record {
            chip = canceled;
            seats_joined = seats.0;
            capacity = seats.1;
            reason = none;
            via_fallback = false;
            at_ms = now;
          })
          m''

  -- The text of the operator's record of a dismissal is an argument.
  unfoldable pub on_dismiss_ended : Session → String → String → CohortMonitor → CohortMonitor × Bool
  unfolding has phase_in delete record_service_action
  on_dismiss_ended session dismissed_text cohort_id m =
      let phase = session.get_cohort_phase cohort_id in
      if not (has cohort_id m.ended)
      then (m, false)
      else if phase_in open_phases phase || phase_in in_flight_phases phase
      then (m, false)
      else (
        record_service_action now dismissed_text (record m {
          ended = delete cohort_id m.ended;
          entries = delete cohort_id m.entries;
          funding_views = delete cohort_id m.funding_views;
        }),
        true,
      )

  unfoldable pub on_note_operator_action : Option String → String → CohortMonitor → CohortMonitor
  unfolding record_service_action record_operator_action
  on_note_operator_action none text m = record_service_action now text m
  on_note_operator_action (some cohort_id) text m = record_operator_action now cohort_id text m

  -- The notes. `dismissed_record_text` is the wording of a dismissal's record.
  unfoldable pub on_note :
      (String → String) → ServiceMode → Session → Note → CohortMonitor → CohortMonitor
  unfolding on_note_funding on_note_canceled on_dismiss_ended on_note_operator_action
  on_note dismissed_record_text mode session (note_funding cohort_id view) m =
      on_note_funding mode cohort_id view m
  on_note dismissed_record_text mode session (note_canceled cohort_id) m =
      on_note_canceled session cohort_id m
  on_note dismissed_record_text mode session (dismiss_ended cohort_id) m =
      (on_dismiss_ended session (dismissed_record_text cohort_id) cohort_id m).0
  on_note dismissed_record_text mode session (note_operator_action cohort_id text) m =
      on_note_operator_action cohort_id text m
  on_note dismissed_record_text mode session (note_esplora_observation ok) m = record m {
    esplora_reachable = ok;
  }

-- A listener's event or a note, with the time and the session at that time.
pub data Input : Type 0 where
  event : ℕ → Session → String → MonitorEvent → Input
  note : ℕ → Session → Note → Input

module _ (dismissed_record_text : String → String) (mode : ServiceMode) where
  unfoldable pub fold_one : Input → CohortMonitor → CohortMonitor
  unfolding on_event on_note
  fold_one (event now session cohort_id e) m = on_event now session cohort_id e m
  fold_one (note now session n) m = on_note now dismissed_record_text mode session n m

  -- The inputs in order, the first one first.
  unfoldable pub fold_all : List Input → CohortMonitor → CohortMonitor
  unfolding fold_one
  fold_all [] m = m
  fold_all (i ∷ later) m = fold_all later (fold_one i m)
