-- ===== src/Monitor.antt =====
-- packages/service/src/monitor.ts: what the monitor keeps of each cohort, folded from the runner's and
-- the broadcaster's events. The runner's session at the time of an event is an argument, as are the
-- time and the service's mode. Log lines are not modelled.
pub mod Fold
pub mod Notes
pub mod Reads
pub mod Detail
pub mod Bounds
pub mod Latches
pub mod Counting
use btcr2_aggregation.Prelude.{
  ◌+◌, ◌==◌, Bool, true, false, List, [], ◌∷◌, ◌++◌, Option, none, some, String, ℕ, if◌then◌else◌,
  ltb, length, or_else, keep_if,
}
use btcr2_aggregation.OrderedMap.{OrderedMap, get, has, set, delete, remember, values, keys}
use btcr2_aggregation.Wiring.{FundingView}

abbrev pub max_monitored : ℕ
max_monitored = 24

abbrev pub max_terminal : ℕ
max_terminal = 24

abbrev pub activity_ring_size : ℕ
activity_ring_size = 200

abbrev pub operator_actions_ring_size : ℕ
operator_actions_ring_size = 100

pub data MemberStatus : Type 0 where
  pending seated : MemberStatus

pub data MemberRound : Type 0 where
  joined submitted validated nonce_sent rejected : MemberRound

pub data ActivityLevel : Type 0 where
  info good warn bad : ActivityLevel

-- The line of an activity, by what it says. The operator's texts are fixed, and differ from the
-- lines that the events write.
pub data ActivityText : Type 0 where
  opted_in was_seated submitted_update validated_data rejected_data sent_nonce :
      String → ActivityText
  keygen_finalized signing_round_started falling_back co_signing_complete confirmed_on_chain :
      ActivityText
  message_rejected : String → String → String → ActivityText
  failed_for broadcast_failed tx_broadcast operator_text : String → ActivityText

pub record ActivityEntry : Type 0 where
  pub id : ℕ
  pub t : ℕ
  pub level : ActivityLevel
  pub text : ActivityText

pub data CohortChip : Type 0 where
  filling co_signing needs_funding co_signed co_signed_fallback fallback anchored canceled failed :
      CohortChip

-- The chip is one of the six of `EndedChip`.
pub record EndedRecord : Type 0 where
  pub chip : CohortChip
  pub seats_joined : ℕ
  pub capacity : ℕ
  pub reason : Option String
  pub via_fallback : Bool
  pub at_ms : ℕ

pub record MemberRecord : Type 0 where
  pub status : MemberStatus
  pub since : ℕ
  pub round : MemberRound
  pub submitted_at : Option ℕ
  pub participant_pk : Option String
  pub communication_pk : Option String

pub record MonitorEntry : Type 0 where
  pub members : OrderedMap MemberRecord
  pub capacity : ℕ
  pub beacon_address : Option String
  pub fell_back : Bool
  pub nonces_sent : OrderedMap (Unit {0})
  pub signing_complete : Bool
  pub activity : List ActivityEntry
  pub activity_seq : ℕ

pub data ServiceMode : Type 0 where
  hermetic live_no_broadcast live : ServiceMode

pub record CohortMonitor : Type 0 where
  pub entries : OrderedMap MonitorEntry
  pub ended : OrderedMap EndedRecord
  pub funding_views : OrderedMap FundingView
  pub operator_actions : List ActivityEntry
  pub operator_action_seq : ℕ
  pub esplora_reachable : Bool

-- What the runner's session has of a cohort, and of the path that its result took.
pub record SessionCohort : Type 0 where
  pub cohort_id : String
  pub participants : ℕ
  pub min_participants : ℕ
  pub effective_fallback_threshold : ℕ
  pub pending_updates : List String

pub record Session : Type 0 where
  pub cohorts : List SessionCohort
  pub get_cohort : String → Option SessionCohort
  pub get_cohort_phase : String → Option String
  pub took_script_path : String → Bool

abbrev pub fresh_monitor : CohortMonitor
fresh_monitor = record {
  entries = [];
  ended = [];
  funding_views = [];
  operator_actions = [];
  operator_action_seq = 0;
  esplora_reachable = true;
}

abbrev pub fresh_entry : MonitorEntry
fresh_entry = record {
  members = [];
  capacity = 0;
  beacon_address = none;
  fell_back = false;
  nonces_sent = [];
  signing_complete = false;
  activity = [];
  activity_seq = 0;
}

abbrev pub fresh_member : ℕ → MemberRecord
fresh_member now = record {
  status = seated;
  since = now;
  round = joined;
  submitted_at = none;
  participant_pk = none;
  communication_pk = none;
}

-- `while (ring.length > size) ring.shift()`.
unfoldable pub shift_to : {A : Type 0} → ℕ → List A → List A
shift_to size [] = []
shift_to size (x ∷ xs) =
    let rest = shift_to size xs in if ltb size (length xs + 1) then rest else x ∷ xs

-- `entryFor`; each caller puts the entry into the table.
unfoldable pub entry_for : String → CohortMonitor → MonitorEntry
unfolding get
entry_for cohort_id m = or_else (get cohort_id m.entries) fresh_entry

unfoldable pub member_for : ℕ → String → MonitorEntry → MemberRecord
unfolding get
member_for now did e = or_else (get did e.members) (fresh_member now)

unfoldable pub append_activity : ℕ → ActivityLevel → ActivityText → MonitorEntry → MonitorEntry
unfolding shift_to
append_activity now level text e = record e {
  activity =
      shift_to activity_ring_size
        (e.activity ++ record { id = e.activity_seq; t = now; level = level; text = text } ∷ []);
  activity_seq = e.activity_seq + 1;
}

-- `remember`.
unfoldable pub remember_entry : String → MonitorEntry → CohortMonitor → CohortMonitor
unfolding remember
remember_entry cohort_id e m = record m { entries = remember max_monitored cohort_id e m.entries }

unfoldable pub remember_ended : String → EndedRecord → CohortMonitor → CohortMonitor
unfolding remember
remember_ended cohort_id r m = record m { ended = remember max_terminal cohort_id r m.ended }

unfoldable pub remember_funding : String → FundingView → CohortMonitor → CohortMonitor
unfolding remember
remember_funding cohort_id view m = record m {
  funding_views = remember max_terminal cohort_id view m.funding_views;
}

abbrev pub with_capacity : Option SessionCohort → MonitorEntry → MonitorEntry
with_capacity none e = e
with_capacity (some c) e = record e { capacity = c.min_participants }

unfoldable pub snapshot_capacity : Session → String → MonitorEntry → MonitorEntry
snapshot_capacity session cohort_id e = with_capacity (session.get_cohort cohort_id) e

unfoldable pub is_seated : MemberRecord → Bool
is_seated member = is_status_seated member.status
  where
    is_status_seated : MemberStatus → Bool
    is_status_seated seated = true
    is_status_seated pending = false

unfoldable pub seated_count : MonitorEntry → ℕ
unfolding is_seated values
seated_count e = length (keep_if is_seated (values e.members))

abbrev pub seats_of : Option SessionCohort → Option MonitorEntry → ℕ × ℕ
unfolding seated_count
seats_of (some c) e = (c.participants, c.min_participants)
seats_of none (some e) = (seated_count e, e.capacity)
seats_of none none = (0, 0)

unfoldable pub snapshot_seats : Session → String → CohortMonitor → ℕ × ℕ
unfolding get seated_count
snapshot_seats session cohort_id m =
    seats_of (session.get_cohort cohort_id) (get cohort_id m.entries)

-- The text of the last entry of a ring is the operator's text.
unfoldable pub last_says : String → List ActivityEntry → Bool
last_says text [] = false
last_says text (a ∷ []) = says a.text
  where
    says : ActivityText → Bool
    says (operator_text other) = other == text
    says _ = false
last_says text (a ∷ b ∷ ring) = last_says text (b ∷ ring)

unfoldable pub record_operator_action : ℕ → String → String → CohortMonitor → CohortMonitor
unfolding entry_for last_says append_activity remember_entry
record_operator_action now cohort_id text m =
    let e = entry_for cohort_id m in
    if last_says text e.activity
    then m
    else remember_entry cohort_id (append_activity now info (operator_text text) e) m

unfoldable pub record_service_action : ℕ → String → CohortMonitor → CohortMonitor
unfolding last_says shift_to
record_service_action now text m = if last_says text m.operator_actions then m else record m {
  operator_actions = shift_to operator_actions_ring_size (
      m.operator_actions
      ++ record { id = m.operator_action_seq; t = now; level = info; text = operator_text text }
        ∷ []);
  operator_action_seq = m.operator_action_seq + 1;
}
