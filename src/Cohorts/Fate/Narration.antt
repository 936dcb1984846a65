-- ===== src/Cohorts/Fate/Narration.antt =====
-- packages/service/src/operator-cohorts.ts: what a cancel and a lapsed window are filed as.
use btcr2_aggregation.Prelude.{◌≡◌, refl, ap, ◌∙◌, true, some, String}
use btcr2_aggregation.OrderedMap.{get, has}
use btcr2_aggregation.OrderedMap.Laws.{has_of_get}
use btcr2_aggregation.Intents.{canceled, read}
use btcr2_aggregation.Cohorts.Config.{CohortConfig}
use btcr2_aggregation.Cohorts.Draft.{DraftWindows}
use btcr2_aggregation.Cohorts.State.{State, Runner, Options, Fate}
use btcr2_aggregation.Cohorts.Lifecycle.{
  settle_rejected, fire_window_timer, cancel_cohort, terminal_record, canceled_reason,
  window_expired_reason,
}
use btcr2_aggregation.Cohorts.Reads.{cohort_fate}
use btcr2_aggregation.Cohorts.Invariant.{IsValid}
use btcr2_aggregation.Cohorts.Invariant.Steps.{cancel_cohort-IsValid, fire_window_timer-IsValid}
use btcr2_aggregation.Cohorts.Fate.{
  IsSettled, settle_rejected_files, cancel_cohort_cases, fire_window_timer_lem, read-declare,
}

module _ {S : Type 0} (runner : Runner S) (opts : Options) where
  cancel_cohort-reads :
      (id : String) (s : State S)
      → IsValid s
      → has id s.advertised ≡ true
      → let t = (cancel_cohort runner opts id s).0 in
        (t.advertised ≡ s.advertised)
        × (t.advertised_windows ≡ s.advertised_windows)
        × (read id t.intents ≡ some canceled)
  cancel_cohort-reads id s v live =
      cancel_cohort_cases runner opts
        (λ t.
          (t.advertised ≡ s.advertised)
          × (t.advertised_windows ≡ s.advertised_windows)
          × (read id t.intents ≡ some canceled))
        id s live λ session owner calls. (refl, refl, read-declare runner opts id canceled s v)

  -- An advertised cohort that the operator cancels, and whose completion is then rejected with any
  -- message, is filed as canceled, for the fixed reason, with the configuration and windows that it
  -- was advertised with; and its anonymous fate reads canceled.
  pub cancel_cohort-settle_rejected :
      (id message : String) (c : CohortConfig) (w : DraftWindows) (s : State S)
      → IsValid s
      → get id s.advertised ≡ some c
      → get id s.advertised_windows ≡ some w
      → let t = settle_rejected runner opts id message (cancel_cohort runner opts id s).0 in
        (get id t.terminal
          ≡ some
              (record { config = c; reason = canceled_reason; fate = Fate.canceled; windows = w }))
        × (cohort_fate id t ≡ true)
        × IsSettled id t
  unfolding terminal_record cohort_fate
  cancel_cohort-settle_rejected id message c w s v e ew =
      let (a, b, r) = cancel_cohort-reads id s v (has_of_get id s.advertised c e) in
      let t = (cancel_cohort runner opts id s).0 in
      let (settled, filed, _) =
        settle_rejected_files runner opts id message c t (cancel_cohort-IsValid runner opts id s v)
          (ap (get id) a ∙ e) in
      let filed' = rw (r, ap (get id) b ∙ ew) at filed in (filed', rw filed' refl, settled)

  -- An advertised cohort whose discovery window closes, and whose completion is then rejected with
  -- any message, is filed as expired for that reason, and is not read as canceled unless an earlier
  -- cancel of the same id was dismissed.
  pub fire_window_timer-settle_rejected :
      (id message : String) (c : CohortConfig) (w : DraftWindows) (s : State S)
      → IsValid s
      → has id s.window_timers ≡ true
      → get id s.advertised ≡ some c
      → get id s.advertised_windows ≡ some w
      → let t = settle_rejected runner opts id message (fire_window_timer runner opts id s) in
        (get id t.terminal
          ≡ some (record {
            config = c;
            reason = window_expired_reason;
            fate = Fate.expired;
            windows = w;
          }))
        × (cohort_fate id t ≡ has id s.dismissed_canceled)
        × IsSettled id t
  unfolding terminal_record cohort_fate
  fire_window_timer-settle_rejected id message c w s v armed e ew =
      let t = fire_window_timer runner opts id s in
      let (a, b, d, r) = fire_window_timer_lem runner opts id s v armed in
      let (settled, filed, kept) =
        settle_rejected_files runner opts id message c t
          (fire_window_timer-IsValid runner opts id s v) (ap (get id) a ∙ e) in
      let filed' = rw (r, ap (get id) b ∙ ew) at filed in
      (filed', rw (filed', kept, d) refl, settled)
