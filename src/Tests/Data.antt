-- ===== src/Tests/Data.antt =====
-- A runner whose session is the list of its cohorts with their phases, and states to run on.
use btcr2_aggregation.Prelude.{refl, Bool, true, false, List, [], ◌∷◌, none, some, String, arith}
use btcr2_aggregation.OrderedMap.{OrderedMap, get, has, delete}
use btcr2_aggregation.Cohorts.Config.{BeaconType, CohortConfig, RecoveryKeys}
use btcr2_aggregation.Cohorts.Draft.{
  Wire, WireText, DraftInput, CohortTtl, DraftWindows, ValidDraft,
}
use btcr2_aggregation.Cohorts.State.{Runner, Options, State, LiveCohort, Settings, Fate}
use btcr2_aggregation.Cohorts.Invariant.{IsValid}

abbrev pub Session : Type 0
Session = OrderedMap String

abbrev next_id : Session → String
next_id [] = "c1"
next_id (e ∷ s) = "c2"

abbrev live_cohort : String × String → LiveCohort
live_cohort e = record { id = e.0; participants = 2 }

abbrev live_cohorts : Session → List LiveCohort
live_cohorts [] = []
live_cohorts (e ∷ s) = live_cohort e ∷ live_cohorts s

abbrev pub runner : Runner Session
runner = record {
  advertise_cohort = λ c s. (next_id s, (next_id s, "Advertised") ∷ s);
  stop_cohort = λ id s. delete id s;
  trigger_fallback = λ id s. (s, false);
  cohort_phase = λ s id. get id s;
  cohorts = live_cohorts;
}

abbrev pub opts : Options
opts = record {
  active_network = "mutinynet";
  recovery_key = none;
  auto_fallback_on_stall = true;
  cohort_ttl = CohortTtl.finite 600000;
  has_republisher = true;
}

abbrev pub curve : RecoveryKeys
curve = record { is_point = λ k. true; throwaway = "00ff" }

abbrev pub body : DraftInput
body = record {
  beacon_type = WireText.text "CASBeacon";
  size = Wire.int 3;
  threshold = Wire.int 2;
  discovery_window_ms = Wire.int 120000;
  funding_window_ms = Wire.absent;
}

abbrev pub parsed_draft : ValidDraft
parsed_draft = record {
  beacon_type = BeaconType.cas_beacon;
  size = 3;
  threshold = 2;
  windows = record { discovery_window_ms = some 120000; funding_window_ms = none };
}

abbrev pub config : CohortConfig
config = record {
  beacon_type = BeaconType.cas_beacon;
  min_participants = 3;
  max_participants = some 3;
  network = "mutinynet";
  recovery_key = "00ff";
  recovery_sequence = 144;
  fallback_threshold = some 2;
}

abbrev pub windows : DraftWindows
windows = record {
  explicit = record { discovery_window_ms = some 120000; funding_window_ms = none };
  defaults = record { discovery_window_ms = none; funding_window_ms = none };
}

abbrev pub settings : Bool → Settings
settings p = record {
  paused = p;
  default_beacon_type = BeaconType.smt_beacon;
  default_size = 2;
  default_threshold = 2;
  default_discovery_window_ms = none;
  default_funding_window_ms = none;
}

-- A service with one advertised cohort in the given phase, one canceled record, and the timer of
-- the advertised cohort armed.
abbrev pub live : String → Bool → State Session
live phase p = record {
  session = ("c1", phase) ∷ [];
  drafts = [];
  advertised = ("c1", config) ∷ [];
  terminal =
      (
        "c0",
        record { config = config; reason = "canceled"; fate = Fate.canceled; windows = windows },
      )
      ∷ [];
  dismissed_canceled = [];
  advertised_windows = ("c1", windows) ∷ [];
  window_timers = ("c1", 120000) ∷ [];
  advert_slot_owner = some "c1";
  intents = [];
  settings = some (settings p);
  stopped = false;
  calls = [];
}

pub live-IsValid : (phase : String) (p : Bool) → IsValid (live phase p)
unfolding has
live-IsValid phase p = (
  tt,
  record { distinct = (refl, tt); bounded = omega arith },
  record { distinct = tt; bounded = omega arith },
  record { distinct = tt; bounded = omega arith },
  record {
    advertised_distinct = (refl, tt);
    windows_distinct = (refl, tt);
    timers_bounded = record { distinct = (refl, tt); bounded = omega arith };
    windows_follow = λ id. refl;
    timers_live = λ id h. h;
    stopped_quiet = λ h. cc;
  },
)
