-- ===== src/Settings.antt =====
-- packages/service/src/runtime-settings.ts: the settings that an operator changes at run time, from
-- the seed of the environment on. The warnings that the seed logs are not modelled.
pub mod Seed
pub mod Validity
pub mod Merging
pub mod Saving
pub mod History
pub mod Drafting
use btcr2_aggregation.Prelude.{
  ◌+◌, ◌*◌, ◌/◌, ◌%◌, ◌==◌, ◌&&◌, ◌||◌, not, Bool, true, false, List, [], ◌∷◌, Option, none, some,
  String, ℕ, if◌then◌else◌, ltb, nat_eq, or_else,
}
use btcr2_aggregation.Prelude.Checked.{Checked, valid, problem, ◌>>=◌, ◌>>◌, problem_if}
use btcr2_aggregation.Prelude.Text.{trim, utf16_length}
use btcr2_aggregation.Cohorts.Config.{BeaconType, cas_beacon, smt_beacon}
use btcr2_aggregation.Cohorts.Draft.{Wire, WireText, one_minute_ms}
use btcr2_aggregation.Cohorts.State as Cohorts

pub data SettingsError : Type 0 where
  service_name_too_long beacon_type_error size_error threshold_error : SettingsError
  discovery_window_error funding_window_error terms_too_long : SettingsError
  discovery_window_ceiling_error : ℕ → SettingsError

-- The seven values, as they stand or as the environment set them.
pub record Values : Type 0 where
  pub service_name : Option String
  pub default_beacon_type : BeaconType
  pub default_size : ℕ
  pub default_threshold : ℕ
  pub default_discovery_window_ms : Option ℕ
  pub default_funding_window_ms : Option ℕ
  pub terms_text : Option String

-- The body of a save. A missing field keeps its value, and a `null` window clears it.
pub record SettingsPatch : Type 0 where
  pub service_name : Option String
  pub default_beacon_type : WireText
  pub default_size : Wire
  pub default_threshold : Wire
  pub default_discovery_window_ms : Wire
  pub default_funding_window_ms : Wire
  pub terms_text : Option String

pub record RuntimeSettings : Type 0 where
  pub paused : Bool
  pub broadcast_disabled : Bool
  pub broadcast_disabled_at_ms : Option ℕ
  pub discovery_window_ceiling_ms : Option ℕ
  pub values : Values
  pub env_defaults : Values
  pub dropped_seeds : List String

abbrev pub max_service_name_chars : ℕ
max_service_name_chars = 200

abbrev pub max_terms_chars : ℕ
max_terms_chars = 20000

unfoldable pub trim_to_undefined : Option String → Option String
trim_to_undefined none = none
trim_to_undefined (some value) =
    let trimmed = trim value in if trimmed == "" then none else some trimmed

-- `patch.x !== undefined ? trimToUndefined(patch.x) : x.value`.
unfoldable pub next_text : Option String → Option String → Option String
unfolding trim_to_undefined
next_text none current = current
next_text (some value) current = trim_to_undefined (some value)

unfoldable pub too_long : ℕ → Option String → Bool
unfolding utf16_length
too_long maximum none = false
too_long maximum (some value) = ltb maximum (utf16_length value)

-- `patch.x ?? x.value`, and the test of the beacon type.
unfoldable pub next_beacon_type : WireText → BeaconType → Checked SettingsError BeaconType
next_beacon_type WireText.absent current = valid current
next_beacon_type WireText.null current = valid current
next_beacon_type (WireText.text t) current =
    if t == "CASBeacon"
    then valid cas_beacon
    else if t == "SMTBeacon"
    then valid smt_beacon
    else problem beacon_type_error
next_beacon_type WireText.other current = problem beacon_type_error

-- `patch.x ?? x.value`, and the test that it is a whole number from 1 on.
unfoldable pub next_count : SettingsError → Wire → ℕ → Checked SettingsError ℕ
next_count e Wire.absent current = if ltb current 1 then problem e else valid current
next_count e Wire.null current = if ltb current 1 then problem e else valid current
next_count e (Wire.int n) current = if ltb n 1 then problem e else valid n
next_count e (Wire.negative n) current = problem e
next_count e Wire.other current = problem e

-- `validateWindow`: no window, or whole minutes, at least one.
unfoldable pub whole_minutes : SettingsError → ℕ → Checked SettingsError (Option ℕ)
whole_minutes e ms =
    if ltb ms one_minute_ms || not (nat_eq (ms % one_minute_ms) 0)
    then problem e
    else valid (some ms)

unfoldable pub kept_window : SettingsError → Option ℕ → Checked SettingsError (Option ℕ)
unfolding whole_minutes
kept_window e none = valid none
kept_window e (some ms) = whole_minutes e ms

unfoldable pub next_window : SettingsError → Wire → Option ℕ → Checked SettingsError (Option ℕ)
unfolding whole_minutes kept_window
next_window e Wire.absent current = kept_window e current
next_window e Wire.null current = valid none
next_window e (Wire.int ms) current = whole_minutes e ms
next_window e (Wire.negative n) current = problem e
next_window e Wire.other current = problem e

-- The discovery window against the ceiling that the cohort lifetime sets.
unfoldable pub under_ceiling : Option ℕ → Option ℕ → Checked SettingsError (Unit {0})
under_ceiling (some ms) (some ceiling) =
    problem_if (ltb ceiling ms) (discovery_window_ceiling_error ceiling)
under_ceiling (some ms) none = valid tt
under_ceiling none ceiling = valid tt

-- The checks of `applySettings`, in its order, and the values that it would write.
unfoldable pub next_values : SettingsPatch → Option ℕ → Values → Checked SettingsError Values
unfolding next_text too_long next_beacon_type next_count next_window under_ceiling
next_values patch ceiling v = do
  let name = next_text patch.service_name v.service_name
  problem_if (too_long max_service_name_chars name) service_name_too_long
  beacon_type ← next_beacon_type patch.default_beacon_type v.default_beacon_type
  size ← next_count size_error patch.default_size v.default_size
  threshold ← next_count threshold_error patch.default_threshold v.default_threshold
  problem_if (ltb size threshold) threshold_error
  discovery ←
      next_window discovery_window_error patch.default_discovery_window_ms
        v.default_discovery_window_ms
  under_ceiling discovery ceiling
  funding ←
      next_window funding_window_error patch.default_funding_window_ms v.default_funding_window_ms
  let terms = next_text patch.terms_text v.terms_text
  problem_if (too_long max_terms_chars terms) terms_too_long
  valid (record {
    service_name = name;
    default_beacon_type = beacon_type;
    default_size = size;
    default_threshold = threshold;
    default_discovery_window_ms = discovery;
    default_funding_window_ms = funding;
    terms_text = terms;
  })

abbrev pub saved :
    Checked SettingsError Values → RuntimeSettings → RuntimeSettings × Option SettingsError
saved (problem e) s = (s, some e)
saved (valid v) s = (record s { values = v }, none)

-- `applySettings`: the state afterwards, and the message of a refusal.
unfoldable pub apply_settings :
    SettingsPatch → RuntimeSettings → RuntimeSettings × Option SettingsError
unfolding next_values
apply_settings patch s = saved (next_values patch s.discovery_window_ceiling_ms s.values) s

unfoldable pub pause : RuntimeSettings → RuntimeSettings
pause s = record s { paused = true }

unfoldable pub resume : RuntimeSettings → RuntimeSettings
resume s = record s { paused = false }

-- `disableBroadcast`, at the given time.
unfoldable pub disable_broadcast : ℕ → RuntimeSettings → RuntimeSettings
disable_broadcast now s =
    if s.broadcast_disabled
    then s
    else record s { broadcast_disabled = true; broadcast_disabled_at_ms = some now }

-- What the operator does to the settings.
pub data Action : Type 0 where
  saves : SettingsPatch → Action
  pauses resumes : Action
  disables : ℕ → Action

unfoldable pub act : Action → RuntimeSettings → RuntimeSettings
unfolding apply_settings pause resume disable_broadcast
act (saves patch) s = (apply_settings patch s).0
act pauses s = pause s
act resumes s = resume s
act (disables now) s = disable_broadcast now s

-- The actions in order, the first one first.
unfoldable pub act_all : List Action → RuntimeSettings → RuntimeSettings
unfolding act
act_all [] s = s
act_all (a ∷ later) s = act_all later (act a s)

-- The settings that the cohorts read.
unfoldable pub cohort_settings : RuntimeSettings → Cohorts.Settings
cohort_settings s = record {
  paused = s.paused;
  default_beacon_type = s.values.default_beacon_type;
  default_size = s.values.default_size;
  default_threshold = s.values.default_threshold;
  default_discovery_window_ms = s.values.default_discovery_window_ms;
  default_funding_window_ms = s.values.default_funding_window_ms;
}
