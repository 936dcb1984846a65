-- ===== src/Settings/Saving.antt =====
-- packages/service/src/runtime-settings.ts, `applySettings`: which saves are accepted.
use btcr2_aggregation.Prelude.{◌≡◌, ◌↔◌, Option, none, ℕ, ltb, refl, ap, subst}
use btcr2_aggregation.Prelude.Checked.{
  Checked, valid, problem, problem_if, problem_if-eq-valid, valid-injective, >>=-of_valid,
}
use btcr2_aggregation.Settings.{
  SettingsError, Values, SettingsPatch, RuntimeSettings, max_service_name_chars, max_terms_chars,
  too_long, next_count, next_window, under_ceiling, next_values, next_text, next_beacon_type,
  apply_settings, saved,
}
use btcr2_aggregation.Settings.Validity.{
  IsValid, too_long-IsWithin, next_count-positive, next_window-IsWindow, under_ceiling-IsUnder,
}
use btcr2_aggregation.Settings.Merging.{
  Merges, next_text-MergesText, MergesText-next_text, next_beacon_type-MergesBeacon,
  MergesBeacon-next_beacon_type, next_count-MergesCount, MergesCount-next_count,
  next_window-MergesWindow, MergesWindow-next_window, IsWithin-too_long, IsUnder-under_ceiling,
  not_above, below-size,
}

module _ (patch : SettingsPatch) (ceiling : Option ℕ) (v : Values) where
  -- A save that passes the checks merges, and merges to valid values.
  pub next_values-Merges :
      (w : Values) → next_values patch ceiling v ≡ valid w → Merges patch v w × IsValid ceiling w
  unfolding next_values IsValid Merges
  next_values-Merges w h =
      let name = next_text patch.service_name v.service_name in
      let terms = next_text patch.terms_text v.terms_text in
      >>=-of_valid
        (problem_if (too_long max_service_name_chars name) SettingsError.service_name_too_long) _ h
        λ u hn h1.
          >>=-of_valid (next_beacon_type patch.default_beacon_type v.default_beacon_type) _ h1
            λ b hb h2.
              >>=-of_valid (next_count SettingsError.size_error patch.default_size v.default_size) _
                h2
                λ size hs h3.
                  >>=-of_valid
                    (next_count SettingsError.threshold_error patch.default_threshold
                      v.default_threshold)
                    _ h3
                    λ k hk h4.
                      >>=-of_valid (problem_if (ltb size k) SettingsError.threshold_error) _ h4
                        λ u4 hl h5.
                          >>=-of_valid
                            (next_window SettingsError.discovery_window_error
                              patch.default_discovery_window_ms v.default_discovery_window_ms)
                            _ h5
                            λ d hd h6. >>=-of_valid (under_ceiling d ceiling) _ h6 λ u6 hu h7.
                              >>=-of_valid
                                (next_window SettingsError.funding_window_error
                                  patch.default_funding_window_ms v.default_funding_window_ms)
                                _ h7
                                λ f hf h8.
                                  >>=-of_valid
                                    (problem_if (too_long max_terms_chars terms)
                                      SettingsError.terms_too_long)
                                    _ h8
                                    λ u8 ht h9.
                                      subst (λ x. Merges patch v x × IsValid ceiling x)
                                        (valid-injective h9)
                                        (
                                          (
                                            next_text-MergesText patch.service_name v.service_name,
                                            next_beacon_type-MergesBeacon patch.default_beacon_type
                                                v.default_beacon_type hb,
                                            next_count-MergesCount SettingsError.size_error
                                                patch.default_size v.default_size hs,
                                            next_count-MergesCount SettingsError.threshold_error
                                                patch.default_threshold v.default_threshold hk,
                                            next_window-MergesWindow
                                                SettingsError.discovery_window_error
                                                patch.default_discovery_window_ms
                                                v.default_discovery_window_ms hd,
                                            next_window-MergesWindow
                                                SettingsError.funding_window_error
                                                patch.default_funding_window_ms
                                                v.default_funding_window_ms hf,
                                            next_text-MergesText patch.terms_text v.terms_text,
                                          ),
                                          (
                                            too_long-IsWithin max_service_name_chars name (
                                                problem_if-eq-valid _
                                                  SettingsError.service_name_too_long u hn),
                                            next_count-positive SettingsError.size_error
                                                patch.default_size v.default_size hs,
                                            next_count-positive SettingsError.threshold_error
                                                patch.default_threshold v.default_threshold hk,
                                            below-size size k u4 hl,
                                            next_window-IsWindow
                                                SettingsError.discovery_window_error
                                                patch.default_discovery_window_ms
                                                v.default_discovery_window_ms hd,
                                            under_ceiling-IsUnder d ceiling u6 hu,
                                            next_window-IsWindow SettingsError.funding_window_error
                                                patch.default_funding_window_ms
                                                v.default_funding_window_ms hf,
                                            too_long-IsWithin max_terms_chars terms (
                                                problem_if-eq-valid _ SettingsError.terms_too_long
                                                  u8 ht),
                                          ),
                                        )

  -- A valid merge is what the checks let through.
  pub Merges-next_values :
      (w : Values) → Merges patch v w → IsValid ceiling w → next_values patch ceiling v ≡ valid w
  unfolding next_values IsValid Merges
  Merges-next_values w (name, beacon, size, k, discovery, funding, terms)
        (n, s1, k1, ks, d, du, f, t) =
      rw (MergesText-next_text patch.service_name v.service_name name) (
        rw (IsWithin-too_long max_service_name_chars w.service_name n) (
          rw
            (MergesBeacon-next_beacon_type patch.default_beacon_type v.default_beacon_type
              w.default_beacon_type beacon)
            (rw
              (MergesCount-next_count SettingsError.size_error patch.default_size v.default_size
                w.default_size size s1)
              (rw
                (MergesCount-next_count SettingsError.threshold_error patch.default_threshold
                  v.default_threshold w.default_threshold k k1)
                (rw (not_above w.default_size w.default_threshold ks) (
                  rw
                    (MergesWindow-next_window SettingsError.discovery_window_error
                      patch.default_discovery_window_ms v.default_discovery_window_ms
                      w.default_discovery_window_ms discovery d)
                    (rw (IsUnder-under_ceiling w.default_discovery_window_ms ceiling du) (
                      rw
                        (MergesWindow-next_window SettingsError.funding_window_error
                          patch.default_funding_window_ms v.default_funding_window_ms
                          w.default_funding_window_ms funding f)
                        (rw (MergesText-next_text patch.terms_text v.terms_text terms)
                          (rw (IsWithin-too_long max_terms_chars w.terms_text t) refl))))))))))

saved-accepts_iff :
    (c : Checked SettingsError Values) (s : RuntimeSettings) (w : Values)
    → (saved c s ≡ (record s { values = w }, none)) ↔ (c ≡ valid w)
saved-accepts_iff (problem e) s w = (λ h. cc (ap (λ r. r.1) h), λ h. cc)
saved-accepts_iff (valid x) s w = (
  λ h. ap (λ r. valid (r.0).values) h,
  λ h. ap (λ y. (record s { values = y }, none)) (valid-injective h),
)

-- A save is accepted, and writes the values `w`, exactly when `w` is what the body makes of the
-- current values and `w` is valid under the ceiling.
pub apply_settings-accepts_iff :
    (patch : SettingsPatch) (s : RuntimeSettings) (w : Values)
    → (apply_settings patch s ≡ (record s { values = w }, none))
      ↔ (Merges patch s.values w × IsValid s.discovery_window_ceiling_ms w)
unfolding apply_settings
apply_settings-accepts_iff patch s w =
    let c = s.discovery_window_ceiling_ms in
    let written = saved-accepts_iff (next_values patch c s.values) s w in
    (
      (λ h. next_values-Merges patch c s.values w (written.0 h)),
      λ h. written.1 (Merges-next_values patch c s.values w (h.0) (h.1)),
    )
