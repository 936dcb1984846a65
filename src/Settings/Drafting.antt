-- ===== src/Settings/Drafting.antt =====
-- packages/service/src/runtime-settings.ts with packages/service/src/operator-cohorts.ts: the settings
-- as the defaults of a draft.
use btcr2_aggregation.Prelude.{◌≡◌, ◌⊎◌, Bool, true, List, some, refl, inl}
use btcr2_aggregation.Cohorts.Config.{ok}
use btcr2_aggregation.Cohorts.Draft.{
  Wire, WireText, DraftInput, CohortTtl, no_windows, validate_draft,
}
use btcr2_aggregation.Cohorts.Draft.Validation.{validate_draft-eq-ok_iff}
use btcr2_aggregation.Cohorts.Drafts.{with_service_defaults, beacon_or, wire_or, supplied}
use btcr2_aggregation.Settings.{RuntimeSettings, Action, act_all, cohort_settings}
use btcr2_aggregation.Settings.Seed.{RuntimeSettingsSeed, create_runtime_settings}
use btcr2_aggregation.Settings.Validity.{IsValid}
use btcr2_aggregation.Settings.History.{IsSound, create_runtime_settings-IsSound}

-- The body of a draft that leaves everything to the service.
abbrev pub empty_body : DraftInput
empty_body = record {
  beacon_type = WireText.absent;
  size = Wire.absent;
  threshold = Wire.absent;
  discovery_window_ms = Wire.absent;
  funding_window_ms = Wire.absent;
}

sound-drafts :
    (s : RuntimeSettings) (auto_fallback : Bool) (ttl : CohortTtl)
    → IsSound s
    → (s.values.default_threshold ≡ s.values.default_size) ⊎ (auto_fallback ≡ true)
    → validate_draft (with_service_defaults (some (cohort_settings s)) empty_body) auto_fallback ttl
      ≡ ok (record {
        beacon_type = s.values.default_beacon_type;
        size = s.values.default_size;
        threshold = s.values.default_threshold;
        windows = no_windows;
      })
unfolding IsSound IsValid with_service_defaults cohort_settings beacon_or wire_or supplied
sound-drafts s auto_fallback ttl (name, size, threshold, below, discovery, under, funding, terms)
      promised =
    (validate_draft-eq-ok_iff _ auto_fallback ttl _).1 (record {
      kind = refl;
      seats = refl;
      seated = size;
      signers = inl refl;
      signed = threshold;
      signed_by_seats = below;
      promised = promised;
      discovery = inl refl;
      funding = inl refl;
      fits = tt;
    })

-- From any seed and through any sequence of saves, pauses, resumes and kill switches, the settings
-- are defaults that the draft validator accepts: an empty body becomes the draft of the default size,
-- threshold and beacon type, when the default threshold is the default size or the fallback is on.
pub act_all-drafts :
    (seed : RuntimeSettingsSeed) (actions : List Action) (auto_fallback : Bool) (ttl : CohortTtl)
    → ((act_all actions (create_runtime_settings seed)).values.default_threshold
        ≡ (act_all actions (create_runtime_settings seed)).values.default_size)
      ⊎ (auto_fallback ≡ true)
    → validate_draft
        (with_service_defaults
          (some (cohort_settings (act_all actions (create_runtime_settings seed))))
          empty_body)
        auto_fallback
        ttl
      ≡ ok (record {
        beacon_type = (act_all actions (create_runtime_settings seed)).values.default_beacon_type;
        size = (act_all actions (create_runtime_settings seed)).values.default_size;
        threshold = (act_all actions (create_runtime_settings seed)).values.default_threshold;
        windows = no_windows;
      })
act_all-drafts seed actions auto_fallback ttl promised =
    sound-drafts (act_all actions (create_runtime_settings seed)) auto_fallback ttl
      (create_runtime_settings-IsSound seed actions) promised
