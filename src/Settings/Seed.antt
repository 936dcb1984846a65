-- ===== src/Settings/Seed.antt =====
-- packages/service/src/runtime-settings.ts, `createRuntimeSettings`: how the seed becomes settings.
-- The numbers of the seed that the environment names are whole numbers in each call here.
use btcr2_aggregation.Prelude.{
  ◌*◌, ◌/◌, ◌==◌, ◌++◌, false, List, [], ◌∷◌, Option, none, some, String, ℕ, if◌then◌else◌, ltb,
  min, or_else,
}
use btcr2_aggregation.Cohorts.Config.{BeaconType, cas_beacon, smt_beacon}
use btcr2_aggregation.Cohorts.Draft.{Wire, one_minute_ms}
use btcr2_aggregation.Settings.{
  Values, RuntimeSettings, max_service_name_chars, max_terms_chars, trim_to_undefined, too_long,
}

pub record RuntimeSettingsSeed : Type 0 where
  pub service_name : Option String
  pub default_beacon_type : Option String
  pub default_size : Wire
  pub default_threshold : Wire
  pub default_discovery_window_ms : Wire
  pub default_funding_window_ms : Wire
  pub terms_text : Option String
  pub discovery_window_ceiling_ms : Wire

-- `numericKnob` with `requireInteger`: a malformed number falls back.
unfoldable pub numeric_knob : Wire → Option ℕ → ℕ → Option ℕ
numeric_knob Wire.absent fallback minimum = fallback
numeric_knob Wire.null fallback minimum = fallback
numeric_knob (Wire.int n) fallback minimum = if ltb n minimum then fallback else some n
numeric_knob (Wire.negative n) fallback minimum = fallback
numeric_knob Wire.other fallback minimum = fallback

-- A knob with a fallback, `numericKnob(...)!`.
unfoldable pub counted_knob : Wire → ℕ → ℕ
unfolding numeric_knob
counted_knob raw fallback = or_else (numeric_knob raw (some fallback) 1) fallback

unfoldable pub whole_minutes_at_or_below : Option ℕ → Option ℕ
whole_minutes_at_or_below none = none
whole_minutes_at_or_below (some ms) = some ((ms / one_minute_ms) * one_minute_ms)

-- A window above the ceiling becomes the ceiling.
unfoldable pub clamped : Option ℕ → Option ℕ → Option ℕ
clamped (some ms) (some ceiling) = if ltb ceiling ms then some ceiling else some ms
clamped (some ms) none = some ms
clamped none ceiling = none

unfoldable pub seeded_beacon_type : Option String → BeaconType
seeded_beacon_type none = cas_beacon
seeded_beacon_type (some t) = if t == "SMTBeacon" then smt_beacon else cas_beacon

-- `textKnob`: the value, and the name of a seed that is dropped for its length.
unfoldable pub text_knob : String → Option String → ℕ → Option String × List String
unfolding trim_to_undefined too_long
text_knob name raw maximum =
    let trimmed = trim_to_undefined raw in
    if too_long maximum trimmed then (none, name ∷ []) else (trimmed, [])

unfoldable pub seeded_ceiling : RuntimeSettingsSeed → Option ℕ
unfolding whole_minutes_at_or_below numeric_knob
seeded_ceiling seed =
    whole_minutes_at_or_below (numeric_knob seed.discovery_window_ceiling_ms none one_minute_ms)

unfoldable pub seeded_discovery : RuntimeSettingsSeed → Option ℕ
unfolding whole_minutes_at_or_below numeric_knob clamped seeded_ceiling
seeded_discovery seed = whole_minutes_at_or_below (
    clamped
      (whole_minutes_at_or_below (numeric_knob seed.default_discovery_window_ms none one_minute_ms))
      (seeded_ceiling seed))

unfoldable pub seeded_values : RuntimeSettingsSeed → Values
unfolding seeded_beacon_type counted_knob seeded_discovery whole_minutes_at_or_below numeric_knob
    text_knob
seeded_values seed =
    let size = counted_knob seed.default_size 2 in
    record {
      service_name = (text_knob "SERVICE_NAME" seed.service_name max_service_name_chars).0;
      default_beacon_type = seeded_beacon_type seed.default_beacon_type;
      default_size = size;
      default_threshold = min (counted_knob seed.default_threshold size) size;
      default_discovery_window_ms = seeded_discovery seed;
      default_funding_window_ms =
          whole_minutes_at_or_below
            (numeric_knob seed.default_funding_window_ms none one_minute_ms);
      terms_text = (text_knob "TERMS_TEXT" seed.terms_text max_terms_chars).0;
    }

unfoldable pub create_runtime_settings : RuntimeSettingsSeed → RuntimeSettings
unfolding seeded_values seeded_ceiling text_knob
create_runtime_settings seed = record {
  paused = false;
  broadcast_disabled = false;
  broadcast_disabled_at_ms = none;
  discovery_window_ceiling_ms = seeded_ceiling seed;
  values = seeded_values seed;
  env_defaults = seeded_values seed;
  dropped_seeds =
      (text_knob "SERVICE_NAME" seed.service_name max_service_name_chars).1
      ++ (text_knob "TERMS_TEXT" seed.terms_text max_terms_chars).1;
}
