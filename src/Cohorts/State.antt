-- ===== src/Cohorts/State.antt =====
-- packages/service/src/operator-cohorts.ts: the state of `createOperatorCohorts` and its internal
-- helpers. The aggregation runner is a parameter: `S` is its state, and `Runner S` its calls.
use mathlib.Core.List.{reverse}
use btcr2_aggregation.Prelude.{
  ◌&&◌, Bool, false, not, List, [], ◌∷◌, ◌++◌, Option, none, some, String, ℕ, if◌then◌else◌, ltb,
  ◌==◌,
}
use btcr2_aggregation.OrderedMap.{OrderedMap, set, delete, evict}
use btcr2_aggregation.Phases.{phase_in, open_phases}
use btcr2_aggregation.Intents.{CohortIntents}
use btcr2_aggregation.Cohorts.Config.{BeaconType, CohortConfig}
use btcr2_aggregation.Cohorts.Draft.{
  CohortTtl, unset, not_finite, finite, CohortWindows, DraftWindows, effective_windows,
}

pub data CohortState : Type 0 where
  draft advertised expired canceled : CohortState

pub record OperatorCohortDto : Type 0 where
  pub draft_id : String
  pub beacon_type : BeaconType
  pub network : String
  pub threshold : ℕ
  pub capacity : ℕ
  pub joined : ℕ
  pub state : CohortState
  pub reason : Option String
  pub discovery_window_ms : Option ℕ
  pub funding_window_ms : Option ℕ
  pub default_discovery_window_ms : Option ℕ
  pub default_funding_window_ms : Option ℕ

pub record DraftEntry : Type 0 where
  pub config : CohortConfig
  pub dto : OperatorCohortDto
  pub windows : DraftWindows

pub data Fate : Type 0 where
  expired canceled : Fate

pub record TerminalRecord : Type 0 where
  pub config : CohortConfig
  pub reason : String
  pub fate : Fate
  pub windows : DraftWindows

-- The runtime settings that this module reads.
pub record Settings : Type 0 where
  pub paused : Bool
  pub default_beacon_type : BeaconType
  pub default_size : ℕ
  pub default_threshold : ℕ
  pub default_discovery_window_ms : Option ℕ
  pub default_funding_window_ms : Option ℕ

-- A live cohort of the runner's session, by its id and the number of its participants.
pub record LiveCohort : Type 0 where
  pub id : String
  pub participants : ℕ

-- The library calls: `advertiseCohort`, `stopCohort`, `triggerFallback` (and whether it was
-- rejected), `session.getCohortPhase` and `session.cohorts`.
pub record Runner (S : Type 0) : Type 0 where
  pub advertise_cohort : CohortConfig → S → String × S
  pub stop_cohort : String → S → S
  pub trigger_fallback : String → S → S × Bool
  pub cohort_phase : S → String → Option String
  pub cohorts : S → List LiveCohort

pub record Options : Type 0 where
  pub active_network : String
  pub recovery_key : Option String
  pub auto_fallback_on_stall : Bool
  pub cohort_ttl : CohortTtl
  pub has_republisher : Bool

-- The calls into the collaborators that the service wires in, in the order in which they are made.
pub data Call : Type 0 where
  on_advertised : String → CohortWindows → Call
  on_cancel : String → Call
  stop : String → Call
  on_finalize : String → Call
  republish : String → CohortConfig → Call
  clear_advert : Call

pub record State (S : Type 0) : Type 0 where
  pub session : S
  pub drafts : OrderedMap DraftEntry
  pub advertised : OrderedMap CohortConfig
  pub terminal : OrderedMap TerminalRecord
  pub dismissed_canceled : OrderedMap (Unit {0})
  pub advertised_windows : OrderedMap DraftWindows
  pub window_timers : OrderedMap ℕ
  pub advert_slot_owner : Option String
  pub intents : CohortIntents
  pub settings : Option Settings
  pub stopped : Bool
  pub calls : List Call

abbrev pub max_terminal : ℕ
max_terminal = 24

abbrev pub max_dismissed_canceled : ℕ
max_dismissed_canceled = max_terminal

-- `opts.settings?.paused`.
unfoldable pub is_paused : Option Settings → Bool
is_paused none = false
is_paused (some s) = s.paused

-- Whether a window timer is armed at all: a positive window, strictly below a finite lifetime.
unfoldable pub arms_timer : CohortTtl → ℕ → Bool
arms_timer (finite ttl) ms = ltb 0 ms && ltb ms ttl
arms_timer unset ms = ltb 0 ms
arms_timer not_finite ms = ltb 0 ms

unfoldable pub owns_slot : Option String → String → Bool
owns_slot none settled = false
owns_slot (some owner) settled = owner == settled

module _ {S : Type 0} where
  abbrev pub call : Call → State S → State S
  call c s = record s { calls = s.calls ++ c ∷ [] }

  -- `clearTimeout` and `delete` of a timer that is there; nothing otherwise.
  unfoldable pub clear_window_timer : String → State S → State S
  clear_window_timer cohort_id s = record s { window_timers = delete cohort_id s.window_timers }

  unfoldable pub arm_window_timer : Options → String → Option ℕ → State S → State S
  unfolding arms_timer
  arm_window_timer opts cohort_id none s = s
  arm_window_timer opts cohort_id (some ms) s =
      if arms_timer opts.cohort_ttl ms && not s.stopped
      then record s { window_timers = evict max_terminal (set cohort_id ms s.window_timers) }
      else s

  unfoldable pub note_advertised : String → DraftWindows → State S → State S
  note_advertised cohort_id windows s = call (on_advertised cohort_id (effective_windows windows)) s

  unfoldable pub remember_terminal : String → TerminalRecord → State S → State S
  remember_terminal cohort_id r s = record s {
    terminal = evict max_terminal (set cohort_id r s.terminal);
  }

module _ {S : Type 0} (runner : Runner S) where
  -- The first entry, in the given order, whose cohort is in an open phase.
  unfoldable pub find_open : S → OrderedMap CohortConfig → Option (String × CohortConfig)
  find_open session [] = none
  find_open session ((cohort_id, config) ∷ rest) =
      let later = find_open session rest in
      if phase_in open_phases (runner.cohort_phase session cohort_id)
      then some (cohort_id, config)
      else later

  abbrev pub reinstall : Option (String × CohortConfig) → State S → State S
  reinstall none s = call clear_advert (record s { advert_slot_owner = none })
  reinstall (some (cohort_id, config)) s =
      call (republish cohort_id config) (record s { advert_slot_owner = some cohort_id })

  -- Re-publish the newest advertised cohort that is still open, if the settled one held the slot.
  unfoldable pub repair_advert_slot : Options → String → State S → State S
  unfolding owns_slot
  repair_advert_slot opts settled s =
      if opts.has_republisher && owns_slot s.advert_slot_owner settled
      then reinstall (find_open s.session (reverse s.advertised)) s
      else s
