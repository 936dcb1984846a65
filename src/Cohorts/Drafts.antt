-- ===== src/Cohorts/Drafts.antt =====
-- packages/service/src/operator-cohorts.ts: `createDraft`, `updateDraft` and `discardDraft`.
pub mod Parity
use btcr2_aggregation.Prelude.{
  Bool, true, false, Option, none, some, String, ℕ, if◌then◌else◌, or_else,
}
use btcr2_aggregation.OrderedMap.{has, set, delete}
use btcr2_aggregation.Cohorts.Config.{
  BeaconType, cas_beacon, smt_beacon, CohortConfig, RecoveryKeys, DraftError, Result, ok, refused,
  ◌>>=◌, build_cohort_config,
}
use btcr2_aggregation.Cohorts.Draft.{
  Wire, WireText, text, DraftInput, CohortWindows, DraftWindows, ValidDraft, no_windows,
  validate_draft, beacon_name,
}
use btcr2_aggregation.Cohorts.State.{draft, OperatorCohortDto, DraftEntry, Settings, Options, State}

-- `input.beaconType ?? default`.
unfoldable pub beacon_or : WireText → BeaconType → WireText
unfolding beacon_name
beacon_or WireText.absent d = text (beacon_name d)
beacon_or WireText.null d = text (beacon_name d)
beacon_or (text t) d = text t
beacon_or WireText.other d = WireText.other

-- Whether a field is given at all.
unfoldable pub supplied : Wire → Bool
supplied Wire.absent = false
supplied Wire.null = false
supplied (Wire.int n) = true
supplied (Wire.negative n) = true
supplied Wire.other = true

-- `input.threshold ?? (sizeSupplied ? undefined : default)`.
unfoldable pub wire_or : Wire → Wire → Wire
wire_or Wire.absent d = d
wire_or Wire.null d = d
wire_or (Wire.int n) d = Wire.int n
wire_or (Wire.negative n) d = Wire.negative n
wire_or Wire.other d = Wire.other

unfoldable pub with_service_defaults : Option Settings → DraftInput → DraftInput
unfolding beacon_or supplied wire_or
with_service_defaults none input = input
with_service_defaults (some s) input = record input {
  beacon_type = beacon_or input.beacon_type s.default_beacon_type;
  size = if supplied input.size then input.size else Wire.int s.default_size;
  threshold =
      wire_or input.threshold
        (if supplied input.size then Wire.absent else Wire.int s.default_threshold);
}

unfoldable pub current_defaults : Option Settings → CohortWindows
current_defaults none = no_windows
current_defaults (some s) = record {
  discovery_window_ms = s.default_discovery_window_ms;
  funding_window_ms = s.default_funding_window_ms;
}

-- The row of a draft, its window fields included.
unfoldable pub draft_dto : String → String → ValidDraft → DraftWindows → OperatorCohortDto
draft_dto draft_id network v windows = record {
  draft_id = draft_id;
  beacon_type = v.beacon_type;
  network = network;
  threshold = v.threshold;
  capacity = v.size;
  joined = 0;
  state = draft;
  reason = none;
  discovery_window_ms = windows.explicit.discovery_window_ms;
  funding_window_ms = windows.explicit.funding_window_ms;
  default_discovery_window_ms = windows.defaults.discovery_window_ms;
  default_funding_window_ms = windows.defaults.funding_window_ms;
}

module _ (keys : RecoveryKeys) (opts : Options) where
  -- The entry that a validated body is stored as: the same build on create and on edit.
  unfoldable pub draft_entry : Option Settings → String → ValidDraft → Result DraftEntry
  unfolding draft_dto current_defaults
  draft_entry settings draft_id v = do
    config ←
        build_cohort_config keys v.size v.beacon_type opts.active_network opts.recovery_key
          (some v.threshold)
    let windows : DraftWindows = record {
      explicit = v.windows;
      defaults = current_defaults settings;
    }
    ok (record {
      config = record config { max_participants = some v.size };
      dto = draft_dto draft_id opts.active_network v windows;
      windows = windows;
    })

module _ {S : Type 0} (keys : RecoveryKeys) (opts : Options) where
  -- `draftId` is a fresh `randomUUID()`.
  unfoldable pub create_draft : String → DraftInput → State S → Result (State S × OperatorCohortDto)
  unfolding draft_entry
  create_draft draft_id input s = do
    v ←
        validate_draft (with_service_defaults s.settings input) opts.auto_fallback_on_stall
          opts.cohort_ttl
    entry ← draft_entry keys opts s.settings draft_id v
    ok (record s { drafts = set draft_id entry s.drafts }, entry.dto)

  unfoldable pub replace_draft :
      String → DraftInput → State S → Result (State S × Option OperatorCohortDto)
  unfolding draft_entry
  replace_draft draft_id input s = do
    v ← validate_draft input opts.auto_fallback_on_stall opts.cohort_ttl
    entry ← draft_entry keys opts s.settings draft_id v
    ok (record s { drafts = set draft_id entry s.drafts }, some entry.dto)

  -- `ok none` is the answer for an id that is no draft, whatever the body says.
  unfoldable pub update_draft :
      String → DraftInput → State S → Result (State S × Option OperatorCohortDto)
  unfolding replace_draft
  update_draft draft_id input s =
      if has draft_id s.drafts then replace_draft draft_id input s else ok (s, none)

unfoldable pub discard_draft : {S : Type 0} → String → State S → State S × Bool
discard_draft draft_id s = (record s { drafts = delete draft_id s.drafts }, has draft_id s.drafts)
