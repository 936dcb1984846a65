-- ===== src/Cohorts/Lifecycle.antt =====
-- packages/service/src/operator-cohorts.ts: advertise and re-advertise, the settlement of a
-- cohort, the discovery-window timer, cancel, finalize, and the dismissal of a terminal record.
use btcr2_aggregation.Prelude.{
  ◌||◌, Bool, true, false, Option, none, some, String, ℕ, if◌then◌else◌, ◌==◌, or_else, [],
}
use btcr2_aggregation.OrderedMap.{get, has, set, delete, evict}
use btcr2_aggregation.Phases.{phase_in, open_phases, in_flight_phases, finalizable_phases}
use btcr2_aggregation.Intents.{CohortIntent, canceled, window_expired, declare, read, clear}
use btcr2_aggregation.Cohorts.Config.{CohortConfig}
use btcr2_aggregation.Cohorts.Draft.{DraftWindows, effective_windows, no_windows}
use btcr2_aggregation.Cohorts.State.{
  advertised, OperatorCohortDto, DraftEntry, Fate, TerminalRecord, Options, State, Runner,
  on_cancel, on_finalize, stop, call, is_paused, clear_window_timer, arm_window_timer,
  note_advertised, remember_terminal, repair_advert_slot, max_dismissed_canceled,
}

pub data AdvertiseResult : Type 0 where
  shown : OperatorCohortDto → AdvertiseResult
  paused : AdvertiseResult
  unknown : AdvertiseResult

pub data CancelResult : Type 0 where
  ok unknown : CancelResult

pub data FinalizeResult : Type 0 where
  ok unknown not_signing : FinalizeResult

abbrev pub canceled_reason : String
canceled_reason = "canceled by the operator"

abbrev pub window_expired_reason : String
window_expired_reason = "the discovery window closed"

-- `config.fallbackThreshold ?? config.minParticipants`, and the capacity likewise.
unfoldable pub threshold_of : CohortConfig → ℕ
threshold_of c = or_else c.fallback_threshold c.min_participants

unfoldable pub capacity_of : CohortConfig → ℕ
capacity_of c = or_else c.max_participants c.min_participants

-- An advertised row carries no window field and no reason.
unfoldable pub advertised_dto : String → OperatorCohortDto → OperatorCohortDto
advertised_dto cohort_id dto = record dto {
  draft_id = cohort_id;
  joined = 0;
  state = advertised;
  reason = none;
  discovery_window_ms = none;
  funding_window_ms = none;
  default_discovery_window_ms = none;
  default_funding_window_ms = none;
}

unfoldable pub readvertised_dto : String → String → CohortConfig → OperatorCohortDto
unfolding threshold_of capacity_of
readvertised_dto network cohort_id config = record {
  draft_id = cohort_id;
  beacon_type = config.beacon_type;
  network = network;
  threshold = threshold_of config;
  capacity = capacity_of config;
  joined = 0;
  state = advertised;
  reason = none;
  discovery_window_ms = none;
  funding_window_ms = none;
  default_discovery_window_ms = none;
  default_funding_window_ms = none;
}

-- The message of a rejection, or the fixed text when it is empty.
unfoldable pub reason_string : String → String
reason_string message = if message == "" then "cohort expired" else message

-- What a rejection files: the declared intent decides the fate, and never the message.
unfoldable pub terminal_record :
    Option CohortIntent → CohortConfig → String → DraftWindows → TerminalRecord
unfolding reason_string
terminal_record (some canceled) config message windows = record {
  config = config;
  reason = canceled_reason;
  fate = Fate.canceled;
  windows = windows;
}
terminal_record (some window_expired) config message windows = record {
  config = config;
  reason = window_expired_reason;
  fate = Fate.expired;
  windows = windows;
}
terminal_record none config message windows = record {
  config = config;
  reason = reason_string message;
  fate = Fate.expired;
  windows = windows;
}

-- The default of the last parameter of `rememberTerminal`.
abbrev pub or_no_windows : Option DraftWindows → DraftWindows
or_no_windows w = or_else w (record { explicit = no_windows; defaults = no_windows })

-- The fate of a dismissed cancel, carried out of the record.
unfoldable pub carry_fate : {S : Type 0} → Fate → String → State S → State S
carry_fate Fate.expired cohort_id s = s
carry_fate Fate.canceled cohort_id s = record s {
  dismissed_canceled = evict max_dismissed_canceled (set cohort_id tt s.dismissed_canceled);
}

module _ {S : Type 0} (runner : Runner S) (opts : Options) where
  -- What both advertise paths do with a configuration and its windows, `prune` being the removal
  -- of the draft or of the terminal record that it came from.
  unfoldable pub launch :
      (State S → State S) → CohortConfig → DraftWindows → State S → String × State S
  launch prune config windows s =
      let (cohort_id, session) = runner.advertise_cohort config s.session in
      let entered : State S = record s {
        session = session;
        advertised = set cohort_id config s.advertised;
        advertised_windows = set cohort_id windows s.advertised_windows;
        advert_slot_owner = some cohort_id;
      } in
      let noted = note_advertised cohort_id windows (prune entered) in
      (
        cohort_id,
        arm_window_timer opts cohort_id (effective_windows windows).discovery_window_ms noted,
      )

  abbrev pub advertise_entry : Option DraftEntry → String → State S → State S × AdvertiseResult
  advertise_entry none draft_id s = (s, unknown)
  advertise_entry (some entry) draft_id s =
      let (cohort_id, s') =
        launch (λ t. record t { drafts = delete draft_id t.drafts }) entry.config entry.windows s in
      (s', shown (advertised_dto cohort_id entry.dto))

  unfoldable pub advertise_draft : String → State S → State S × AdvertiseResult
  advertise_draft draft_id s =
      if is_paused s.settings
      then (s, paused)
      else advertise_entry (get draft_id s.drafts) draft_id s

  abbrev pub readvertise_record :
      Option TerminalRecord → String → State S → State S × AdvertiseResult
  readvertise_record none cohort_id s = (s, unknown)
  readvertise_record (some r) cohort_id s =
      let (new_id, s') =
        launch (λ t. record t { terminal = delete cohort_id t.terminal }) r.config r.windows s in
      (s', shown (readvertised_dto opts.active_network new_id r.config))

  unfoldable pub readvertise_expired : String → State S → State S × AdvertiseResult
  readvertise_expired cohort_id s =
      if is_paused s.settings
      then (s, paused)
      else readvertise_record (get cohort_id s.terminal) cohort_id s

  -- What both branches of `settleCompletion` drop.
  unfoldable pub drop_cohort : String → State S → State S
  drop_cohort cohort_id s =
      let s' = clear_window_timer cohort_id (record s {
        advertised = delete cohort_id s.advertised;
        advertised_windows = delete cohort_id s.advertised_windows;
      }) in
      record s' { intents = clear cohort_id s'.intents }

  -- The completion promise resolved.
  unfoldable pub settle_completed : String → State S → State S
  unfolding drop_cohort
  settle_completed cohort_id s = repair_advert_slot runner opts cohort_id (drop_cohort cohort_id s)

  abbrev pub file_terminal :
      Option CohortConfig
      → String
      → String
      → Option CohortIntent
      → Option DraftWindows
      → State S
      → State S
  file_terminal none cohort_id message intent windows s = s
  file_terminal (some config) cohort_id message intent windows s =
      remember_terminal cohort_id (terminal_record intent config message (or_no_windows windows)) s

  -- The completion promise was rejected with this message.
  unfoldable pub settle_rejected : String → String → State S → State S
  unfolding drop_cohort
  settle_rejected cohort_id message s = repair_advert_slot runner opts cohort_id (
      file_terminal (get cohort_id s.advertised) cohort_id message (read cohort_id s.intents)
        (get cohort_id s.advertised_windows) (drop_cohort cohort_id s))

  abbrev pub stop_cohort : String → State S → State S
  stop_cohort cohort_id s =
      call (stop cohort_id) (record s { session = runner.stop_cohort cohort_id s.session })

  -- The armed timer of a cohort fires; without one there is nothing to fire.
  unfoldable pub fire_window_timer : String → State S → State S
  fire_window_timer cohort_id s =
      if has cohort_id s.window_timers
      then stop_cohort cohort_id (record s {
        window_timers = delete cohort_id s.window_timers;
        intents = declare cohort_id window_expired s.intents;
      })
      else s

  unfoldable pub cancel_cohort : String → State S → State S × CancelResult
  cancel_cohort cohort_id s =
      if has cohort_id s.advertised
      then (let declared : State S = record s { intents = declare cohort_id canceled s.intents } in
          let told = call (on_cancel cohort_id) (clear_window_timer cohort_id declared) in
          (repair_advert_slot runner opts cohort_id (stop_cohort cohort_id told), CancelResult.ok))
      else (s, CancelResult.unknown)

  abbrev pub finalized : String → S × Bool → State S → State S × FinalizeResult
  finalized cohort_id (session, true) s = (record s { session = session }, not_signing)
  finalized cohort_id (session, false) s =
      (call (on_finalize cohort_id) (record s { session = session }), FinalizeResult.ok)

  unfoldable pub finalize_cohort : String → State S → State S × FinalizeResult
  finalize_cohort cohort_id s =
      if has cohort_id s.advertised
      then (if phase_in finalizable_phases (runner.cohort_phase s.session cohort_id)
          then finalized cohort_id (runner.trigger_fallback cohort_id s.session) s
          else (s, not_signing))
      else (s, FinalizeResult.unknown)

  -- `phase && (OPEN_PHASES.has(phase) || IN_FLIGHT_PHASES.has(phase))`.
  unfoldable pub still_live : S → String → Bool
  still_live session cohort_id =
      phase_in open_phases (runner.cohort_phase session cohort_id)
      || phase_in in_flight_phases (runner.cohort_phase session cohort_id)

  abbrev pub forget_record : Option TerminalRecord → String → State S → State S × Bool
  forget_record none cohort_id s = (s, false)
  forget_record (some r) cohort_id s =
      if still_live s.session cohort_id
      then (s, false)
      else (let carried = carry_fate r.fate cohort_id s in
          (record carried { terminal = delete cohort_id carried.terminal }, true))

  unfoldable pub forget_terminal : String → State S → State S × Bool
  unfolding still_live carry_fate
  forget_terminal cohort_id s = forget_record (get cohort_id s.terminal) cohort_id s

-- `service.stop()`: the abort signal clears every armed timer.
unfoldable pub stop_service : {S : Type 0} → State S → State S
stop_service s = record s { stopped = true; window_timers = [] }
