-- ===== src/Cohorts/Fate/Origin.antt =====
-- packages/service/src/operator-cohorts.ts: where a canceled fate comes from.
use btcr2_aggregation.Prelude.{
  ◌≡◌, refl, true, List, [], ◌∷◌, String, ◌⊎◌, inl, inr, arith, Bool-cases,
}
use btcr2_aggregation.OrderedMap.{get, has}
use btcr2_aggregation.Intents.{read}
use btcr2_aggregation.Cohorts.Config.{RecoveryKeys}
use btcr2_aggregation.Cohorts.State.{State, Runner, Options}
use btcr2_aggregation.Cohorts.Drafts.{discard_draft}
use btcr2_aggregation.Cohorts.Lifecycle.{forget_terminal, stop_service}
use btcr2_aggregation.Cohorts.Reads.{cohort_fate, is_canceled_record}
use btcr2_aggregation.Cohorts.Step.{
  Event, creates, updates, discards, advertises, readvertises, cancels, finalizes, forgets,
  completes, rejects, window_fires, progresses, changes_settings, stops_service, step, initial,
  Reach, fresh, next,
}
use btcr2_aggregation.Cohorts.Cases.{create_draft_cases, update_draft_cases}
use btcr2_aggregation.Cohorts.Fate.Traces.{
  Traced, advertise_draft-Traced, readvertise_expired-Traced, settle_rejected-Traced,
  settle_completed-Traced, fire_window_timer-Traced, cancel_cohort-Traced, finalize_cohort-Traced,
  forget_record-Traced,
}
use btcr2_aggregation.Cohorts.Invariant.{IsValid}
use btcr2_aggregation.Cohorts.Invariant.Steps.{Reach-IsValid}

-- The operator canceled this cohort at some point of the past.
abbrev pub WasCanceled : {S : Type 0} → String → List (Event S) → Type 0
WasCanceled id [] = ⊥
WasCanceled id (cancels j ∷ past) = (j ≡ id) ⊎ WasCanceled id past
WasCanceled id (_ ∷ past) = WasCanceled id past

module _ {S : Type 0} (keys : RecoveryKeys) (opts : Options) (runner : Runner S) where
  step-Traced :
      (past : List (Event S)) (e : Event S) (s : State S)
      → IsValid s
      → Traced (λ id. WasCanceled id past) s
      → Traced (λ id. WasCanceled id (e ∷ past)) (step keys opts runner e s)
  unfolding step
  step-Traced past (creates id input) s w v =
      create_draft_cases keys opts (Traced (λ j. WasCanceled j past)) id input s v (λ e. v)
  step-Traced past (updates id input) s w v =
      update_draft_cases keys opts (Traced (λ j. WasCanceled j past)) id input s v (λ e. v)
  step-Traced past (discards id) s w v = unfold discard_draft in v
  step-Traced past (advertises id) s w v =
      advertise_draft-Traced runner opts (λ j. WasCanceled j past) id s v
  step-Traced past (readvertises id) s w v =
      readvertise_expired-Traced runner opts (λ j. WasCanceled j past) id s w v
  step-Traced past (cancels id) s w v =
      cancel_cohort-Traced runner opts (λ j. WasCanceled j (cancels id ∷ past)) id s w (inl refl)
        ((λ j h. inr (v.0 j h)), (λ j h. inr (v.1 j h)), (λ j h. inr (v.2 j h)))
  step-Traced past (finalizes id) s w v =
      finalize_cohort-Traced runner opts (λ j. WasCanceled j past) id s v
  step-Traced past (forgets id) s w v =
      unfold forget_terminal in
      forget_record-Traced runner opts (λ j. WasCanceled j past) (get id s.terminal) id s w refl v
  step-Traced past (completes id) s w v =
      settle_completed-Traced runner opts (λ j. WasCanceled j past) id s w v
  step-Traced past (rejects id message) s w v =
      settle_rejected-Traced runner opts (λ j. WasCanceled j past) id message s w v
  step-Traced past (window_fires id) s w v =
      fire_window_timer-Traced runner opts (λ j. WasCanceled j past) id s w v
  step-Traced past (progresses session) s w v = v
  step-Traced past (changes_settings settings) s w v = v
  step-Traced past stops_service s w v = unfold stop_service in v

  Reach-Traced :
      {past : List (Event S)} {s : State S}
      → Reach keys opts runner past s
      → Traced (λ id. WasCanceled id past) s
  unfolding initial read get has
  Reach-Traced (fresh session settings) = ((λ id h. cc), (λ id h. cc), (λ id h. cc))
  Reach-Traced (next {past = past} {s = s} e r) =
      step-Traced past e s (Reach-IsValid runner opts keys r) (Reach-Traced r)

  -- In every reachable state, a cohort whose anonymous fate reads canceled is one that the operator
  -- asked to cancel at some point of the past: no stall, lapse, failure, window, dismissal or
  -- shutdown, and no message of a rejection, makes any other cohort read canceled.
  pub cohort_fate-WasCanceled :
      {past : List (Event S)} {s : State S} (id : String)
      → Reach keys opts runner past s
      → cohort_fate id s ≡ true
      → WasCanceled id past
  unfolding cohort_fate
  cohort_fate-WasCanceled {s = s} id r h =
      let (_, t, d) = Reach-Traced r in
      elim (Bool-cases (is_canceled_record (get id s.terminal))) [
        | inl filed ↦ t id filed
        | inr not_filed ↦ d id (ground arith)
      ]
