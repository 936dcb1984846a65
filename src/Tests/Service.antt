-- ===== src/Tests/Service.antt =====
-- The properties of the settings, the kill switch and the broadcast at concrete inputs.
use btcr2_aggregation.Prelude.{◌≡◌, ◌↔◌, refl, inr, true, false, [], ◌∷◌, none, some}
use btcr2_aggregation.Cohorts.Config.{cas_beacon, ok}
use btcr2_aggregation.Cohorts.Draft.{Wire, WireText, CohortTtl, no_windows, validate_draft}
use btcr2_aggregation.Cohorts.Drafts.{with_service_defaults}
use btcr2_aggregation.Settings.{
  SettingsPatch, RuntimeSettings, Values, saves, disables, pauses, act_all, apply_settings,
  cohort_settings,
}
use btcr2_aggregation.Settings.Seed.{RuntimeSettingsSeed, create_runtime_settings}
use btcr2_aggregation.Settings.Validity.{IsValid}
use btcr2_aggregation.Settings.History.{IsSound, create_runtime_settings-IsSound}
use btcr2_aggregation.Settings.Merging.{Merges}
use btcr2_aggregation.Settings.Saving.{apply_settings-accepts_iff}
use btcr2_aggregation.Settings.Drafting.{empty_body, act_all-drafts}

abbrev seed : RuntimeSettingsSeed
seed = record {
  service_name = some "pilot";
  default_beacon_type = none;
  default_size = Wire.int 3;
  default_threshold = Wire.int 3;
  default_discovery_window_ms = Wire.absent;
  default_funding_window_ms = Wire.absent;
  terms_text = none;
  discovery_window_ceiling_ms = Wire.int 600000;
}

abbrev shrink : SettingsPatch
shrink = record {
  service_name = none;
  default_beacon_type = WireText.absent;
  default_size = Wire.int 2;
  default_threshold = Wire.int 2;
  default_discovery_window_ms = Wire.int 120000;
  default_funding_window_ms = Wire.absent;
  terms_text = none;
}

abbrev started : RuntimeSettings
started = record {
  paused = false;
  broadcast_disabled = false;
  broadcast_disabled_at_ms = none;
  discovery_window_ceiling_ms = none;
  values = record {
    service_name = none;
    default_beacon_type = cas_beacon;
    default_size = 3;
    default_threshold = 3;
    default_discovery_window_ms = none;
    default_funding_window_ms = none;
    terms_text = none;
  };
  env_defaults = record {
    service_name = none;
    default_beacon_type = cas_beacon;
    default_size = 3;
    default_threshold = 3;
    default_discovery_window_ms = none;
    default_funding_window_ms = none;
    terms_text = none;
  };
  dropped_seeds = [];
}

abbrev shrunk : Values
shrunk = record started.values {
  default_size = 2;
  default_threshold = 2;
  default_discovery_window_ms = some 120000;
}

create_runtime_settings-IsSound_example :
    IsSound (act_all (saves shrink ∷ pauses ∷ disables 5 ∷ []) (create_runtime_settings seed))
create_runtime_settings-IsSound_example =
    create_runtime_settings-IsSound seed (saves shrink ∷ pauses ∷ disables 5 ∷ [])

apply_settings-accepts_iff_example :
    (apply_settings shrink started ≡ (record started { values = shrunk }, none))
    ↔ (Merges shrink started.values shrunk × IsValid none shrunk)
apply_settings-accepts_iff_example = apply_settings-accepts_iff shrink started shrunk

act_all-drafts_example :
    validate_draft
      (with_service_defaults
        (some (cohort_settings (act_all (pauses ∷ []) (create_runtime_settings seed))))
        empty_body)
      true
      CohortTtl.unset
    ≡ ok (record {
      beacon_type =
          (act_all (pauses ∷ []) (create_runtime_settings seed)).values.default_beacon_type;
      size = (act_all (pauses ∷ []) (create_runtime_settings seed)).values.default_size;
      threshold = (act_all (pauses ∷ []) (create_runtime_settings seed)).values.default_threshold;
      windows = no_windows;
    })
act_all-drafts_example = act_all-drafts seed (pauses ∷ []) true CohortTtl.unset (inr refl)
