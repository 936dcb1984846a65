-- ===== src/Settings/History.antt =====
-- packages/service/src/runtime-settings.ts: the settings through the life of the service.
use btcr2_aggregation.Prelude.{◌≡◌, List, [], ◌∷◌, refl, inl, inr, Bool-cases}
use btcr2_aggregation.Prelude.Checked.{Checked, valid, problem}
use btcr2_aggregation.Settings.{
  SettingsError, Values, RuntimeSettings, apply_settings, saved, pause, resume, disable_broadcast,
  Action, saves, pauses, resumes, disables, act, act_all,
}
use btcr2_aggregation.Settings.Seed.{RuntimeSettingsSeed, create_runtime_settings}
use btcr2_aggregation.Settings.Validity.{IsValid, seeded_values-IsValid}
use btcr2_aggregation.Settings.Saving.{next_values-Merges}

-- The settings hold values that a save would accept.
unfoldable pub IsSound : RuntimeSettings → Type 0
unfolding IsValid
IsSound s = IsValid s.discovery_window_ceiling_ms s.values

saved-IsSound :
    (c : Checked SettingsError Values) (s : RuntimeSettings)
    → ((w : Values) → c ≡ valid w → IsValid s.discovery_window_ceiling_ms w)
    → IsSound s
    → IsSound ((saved c s).0)
unfolding IsSound
saved-IsSound (problem e) s keep h = h
saved-IsSound (valid w) s keep h = keep w refl

act-IsSound : (a : Action) (s : RuntimeSettings) → IsSound s → IsSound (act a s)
unfolding act IsSound apply_settings pause resume disable_broadcast
act-IsSound (saves patch) s h =
    saved-IsSound _ s
      (λ w e. (next_values-Merges patch s.discovery_window_ceiling_ms s.values w e).1) h
act-IsSound pauses s h = h
act-IsSound resumes s h = h
act-IsSound (disables now) s h = elim (Bool-cases s.broadcast_disabled) [
  | inl already ↦ rw already h
  | inr first ↦ rw first h
]

act_all-IsSound :
    (actions : List Action) (s : RuntimeSettings) → IsSound s → IsSound (act_all actions s)
unfolding act_all
act_all-IsSound [] s h = h
act_all-IsSound (a ∷ later) s h = act_all-IsSound later (act a s) (act-IsSound a s h)

-- From any seed and through any sequence of saves, pauses, resumes and kill switches, the settings
-- hold a name and terms within their bounds, a size and a threshold of at least 1 with the
-- threshold at most the size, and windows that are whole minutes, the discovery window at most the
-- ceiling.
pub create_runtime_settings-IsSound :
    (seed : RuntimeSettingsSeed) (actions : List Action)
    → IsSound (act_all actions (create_runtime_settings seed))
unfolding create_runtime_settings IsSound
create_runtime_settings-IsSound seed actions =
    act_all-IsSound actions (create_runtime_settings seed) (seeded_values-IsValid seed)
