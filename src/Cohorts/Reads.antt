-- ===== src/Cohorts/Reads.antt =====
-- packages/service/src/operator-cohorts.ts: the public directory and status, the operator's list,
-- and the anonymous fate of a cohort.
pub mod Directory
use btcr2_aggregation.Prelude.{
  ◌||◌, Bool, true, false, Option, none, some, String, ℕ, if◌then◌else◌, List, [], ◌∷◌, ◌++◌, map,
  keep_if, length,
}
use btcr2_aggregation.OrderedMap.{OrderedMap, get, has, values}
use btcr2_aggregation.Phases.{contains, phase_in, open_phases, display_phases}
use btcr2_aggregation.Cohorts.Config.{BeaconType, CohortConfig}
use btcr2_aggregation.Cohorts.State.{
  advertised, expired, canceled, CohortState, OperatorCohortDto, DraftEntry, Fate, TerminalRecord,
  LiveCohort, Options, State, Runner, is_paused,
}
use btcr2_aggregation.Cohorts.Lifecycle.{threshold_of, capacity_of}

pub record DirectoryCohortDto : Type 0 where
  pub cohort_id : String
  pub beacon_type : BeaconType
  pub network : String
  pub threshold : ℕ
  pub capacity : ℕ
  pub joined : ℕ
  pub phase : String

pub record ServiceStatusDto : Type 0 where
  pub up : Bool
  pub network : String
  pub open_cohorts : ℕ
  pub paused : Bool

unfoldable pub directory_row : Options → LiveCohort → CohortConfig → String → DirectoryCohortDto
unfolding threshold_of capacity_of
directory_row opts cohort config phase = record {
  cohort_id = cohort.id;
  beacon_type = config.beacon_type;
  network = opts.active_network;
  threshold = threshold_of config;
  capacity = capacity_of config;
  joined = cohort.participants;
  phase = phase;
}

-- The loop body: a live cohort is shown if it is advertised and in a displayed phase.
unfoldable pub shown_row :
    Options → LiveCohort → Option CohortConfig → Option String → List DirectoryCohortDto
shown_row opts cohort none phase = []
shown_row opts cohort (some config) none = []
shown_row opts cohort (some config) (some phase) =
    if contains display_phases phase then directory_row opts cohort config phase ∷ [] else []

unfoldable pub fate_state : Fate → CohortState
fate_state Fate.expired = expired
fate_state Fate.canceled = canceled

unfoldable pub terminal_dto : Options → String × TerminalRecord → OperatorCohortDto
unfolding threshold_of capacity_of fate_state
terminal_dto opts (cohort_id, r) = record {
  draft_id = cohort_id;
  beacon_type = r.config.beacon_type;
  network = opts.active_network;
  threshold = threshold_of r.config;
  capacity = capacity_of r.config;
  joined = 0;
  state = fate_state r.fate;
  reason = some r.reason;
  discovery_window_ms = none;
  funding_window_ms = none;
  default_discovery_window_ms = none;
  default_funding_window_ms = none;
}

unfoldable pub live_dto : DirectoryCohortDto → OperatorCohortDto
live_dto row = record {
  draft_id = row.cohort_id;
  beacon_type = row.beacon_type;
  network = row.network;
  threshold = row.threshold;
  capacity = row.capacity;
  joined = row.joined;
  state = advertised;
  reason = none;
  discovery_window_ms = none;
  funding_window_ms = none;
  default_discovery_window_ms = none;
  default_funding_window_ms = none;
}

unfoldable pub is_open_row : DirectoryCohortDto → Bool
is_open_row row = contains open_phases row.phase

module _ {S : Type 0} (runner : Runner S) (opts : Options) where
  unfoldable pub rows_of : List LiveCohort → State S → List DirectoryCohortDto
  rows_of [] s = []
  rows_of (cohort ∷ cohorts) s =
      shown_row opts cohort (get cohort.id s.advertised) (runner.cohort_phase s.session cohort.id)
      ++ rows_of cohorts s

  unfoldable pub directory : State S → List DirectoryCohortDto
  unfolding rows_of
  directory s = rows_of (runner.cohorts s.session) s

  unfoldable pub open_count : State S → ℕ
  open_count s = length (keep_if is_open_row (directory s))

  unfoldable pub status : State S → ServiceStatusDto
  unfolding open_count
  status s = record {
    up = true;
    network = opts.active_network;
    open_cohorts = open_count s;
    paused = is_paused s.settings;
  }

  unfoldable pub list_cohorts : State S → List OperatorCohortDto
  list_cohorts s =
      map (λ (d : DraftEntry). d.dto) (values s.drafts)
      ++ (map live_dto (directory s) ++ map (terminal_dto opts) s.terminal)

abbrev pub is_canceled_record : Option TerminalRecord → Bool
is_canceled_record none = false
is_canceled_record (some r) = elim r.fate [ Fate.canceled ↦ true | Fate.expired ↦ false ]

module _ {S : Type 0} where
  -- The one anonymous bit: a retained cancel, whether or not its record was dismissed.
  unfoldable pub cohort_fate : String → State S → Bool
  cohort_fate cohort_id s =
      is_canceled_record (get cohort_id s.terminal) || has cohort_id s.dismissed_canceled

  unfoldable pub pending_window_timers : State S → ℕ
  pending_window_timers s = length s.window_timers
