-- ===== src/Monitor/Reads.antt =====
-- packages/service/src/monitor.ts: the summary, the counts and the small reads. The fields of the records that the source
-- leaves out when they are undefined are optional here.
use btcr2_aggregation.Prelude.{
  ◌+◌, ◌&&◌, not, Bool, true, false, List, [], ◌∷◌, ◌++◌, Option, none, some, String, ℕ,
  if◌then◌else◌, map, is_some,
}
use btcr2_aggregation.OrderedMap.{OrderedMap, get, values}
use btcr2_aggregation.Phases.{contains, phase_in, open_phases, in_flight_phases}
use btcr2_aggregation.Funding.{FundingStateName, waiting, awaiting_confirmation, is_funded}
use btcr2_aggregation.Wiring.{FundingView}
use btcr2_aggregation.Settings.{RuntimeSettings}
use btcr2_aggregation.Monitor.{
  CohortChip, filling, co_signing, needs_funding, failed, anchored, fallback, EndedRecord,
  ServiceMode, hermetic, CohortMonitor, SessionCohort, Session,
}
use btcr2_aggregation.Monitor.Notes.{is_live, ended_canceled}

pub record CohortSummary : Type 0 where
  pub cohort_id : String
  pub chip : CohortChip
  pub seats_joined : ℕ
  pub capacity : ℕ
  pub phase : String
  pub reason : Option String
  pub at_ms : Option ℕ

-- The chip of a phase; `none` for the phases that give no row.
unfoldable pub phase_chip : Option String → Option CohortChip
unfolding phase_in
phase_chip phase =
    if phase_in open_phases phase
    then some filling
    else if phase_in in_flight_phases phase
    then some co_signing
    else none

abbrev pub funding_chip : CohortChip → Option FundingView → CohortChip
unfolding is_funded
funding_chip chip none = chip
funding_chip chip (some view) = if is_funded view.state then chip else needs_funding

unfoldable pub live_row :
    SessionCohort → Option FundingView → Option String → Option CohortChip → List CohortSummary
unfolding is_funded
live_row c view (some phase) (some chip) =
    record {
      cohort_id = c.cohort_id;
      chip = funding_chip chip view;
      seats_joined = c.participants;
      capacity = c.min_participants;
      phase = phase;
      reason = none;
      at_ms = none;
    }
    ∷ []
live_row c view phase none = []
live_row c view none (some chip) = []

-- The loop of `summary` over the session's cohorts.
unfoldable pub live_rows : Session → CohortMonitor → List SessionCohort → List CohortSummary
unfolding get phase_chip live_row
live_rows session m [] = []
live_rows session m (c ∷ cs) =
    let phase = session.get_cohort_phase c.cohort_id in
    live_row c (get c.cohort_id m.funding_views) phase (phase_chip phase) ++ live_rows session m cs

abbrev pub ended_row : String → EndedRecord → CohortSummary
ended_row id r = record {
  cohort_id = id;
  chip = r.chip;
  seats_joined = r.seats_joined;
  capacity = r.capacity;
  phase = "ended";
  reason = r.reason;
  at_ms = some r.at_ms;
}

-- The loop over the ended records, which leaves out the live ids.
unfoldable pub ended_rows : List String → OrderedMap EndedRecord → List CohortSummary
unfolding contains
ended_rows live_ids [] = []
ended_rows live_ids ((id, r) ∷ records) =
    let rest = ended_rows live_ids records in
    if contains live_ids id then rest else ended_row id r ∷ rest

unfoldable pub row_ids : List CohortSummary → List String
row_ids rows = map (λ row. row.cohort_id) rows

unfoldable pub summary : Session → CohortMonitor → List CohortSummary
unfolding live_rows ended_rows row_ids
summary session m =
    let rows = live_rows session m session.cohorts in rows ++ ended_rows (row_ids rows) m.ended

pub record ServiceMetrics : Type 0 where
  pub open_count : ℕ
  pub in_flight : ℕ
  pub anchored_count : ℕ
  pub failed_count : ℕ

unfoldable pub count_if : {A : Type 0} → (A → Bool) → List A → ℕ
count_if p [] = 0
count_if p (x ∷ xs) = let rest = count_if p xs in if p x then rest + 1 else rest

unfoldable pub is_failed : EndedRecord → Bool
is_failed r = chip_failed r.chip
  where
    chip_failed : CohortChip → Bool
    chip_failed failed = true
    chip_failed _ = false

unfoldable pub is_anchored : EndedRecord → Bool
is_anchored r = chip_anchored r.chip
  where
    chip_anchored : CohortChip → Bool
    chip_anchored anchored = true
    chip_anchored fallback = true
    chip_anchored _ = false

unfoldable pub service_metrics : Session → CohortMonitor → ServiceMetrics
unfolding phase_in values count_if is_failed is_anchored
service_metrics session m = record {
  open_count =
      count_if (λ c. phase_in open_phases (session.get_cohort_phase c.cohort_id)) session.cohorts;
  in_flight =
      count_if
        (λ c.
          not (phase_in open_phases (session.get_cohort_phase c.cohort_id))
          && phase_in in_flight_phases (session.get_cohort_phase c.cohort_id))
        session.cohorts;
  anchored_count = count_if is_anchored (values m.ended);
  failed_count = count_if is_failed (values m.ended);
}

abbrev pub awaits : Option FundingView → Bool
awaits none = false
awaits (some view) = not (is_some view.terminal) && unpaid view.state
  where
    unpaid : FundingStateName → Bool
    unpaid waiting = true
    unpaid awaiting_confirmation = true
    unpaid _ = false

-- `publicFunding`: whether the cohort awaits its funding.
unfoldable pub public_funding : ServiceMode → String → CohortMonitor → Bool
unfolding get is_live ended_canceled
public_funding mode id m =
    if not (is_live mode)
    then false
    else if ended_canceled (get id m.ended)
    then false
    else awaits (get id m.funding_views)

pub record ServiceHealth : Type 0 where
  pub mode : ServiceMode
  pub esplora_reachable : Option Bool
  pub paused : Bool
  pub broadcast_disabled : Bool

abbrev pub reachable : ServiceMode → Bool → Option Bool
reachable hermetic ok = none
reachable _ ok = some ok

-- `serviceHealth`; `none` is the "n/a" of a hermetic service.
unfoldable pub service_health : ServiceMode → Option RuntimeSettings → CohortMonitor → ServiceHealth
service_health mode none m = record {
  mode = mode;
  esplora_reachable = reachable mode m.esplora_reachable;
  paused = false;
  broadcast_disabled = false;
}
service_health mode (some s) m = record {
  mode = mode;
  esplora_reachable = reachable mode m.esplora_reachable;
  paused = s.paused;
  broadcast_disabled = s.broadcast_disabled;
}
