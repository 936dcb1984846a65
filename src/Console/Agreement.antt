-- ===== src/Console/Agreement.antt =====
-- packages/web/src/lib/lifecycle.ts beside packages/service/src/operator-cohorts.ts: the controls
-- that the console offers beside the service's actions.
use btcr2_aggregation.Prelude.{
  ◌≡◌, ◌||◌, not, refl, Bool, true, false, some, String, ◌↔◌, inl, inr, Bool-cases, if◌then◌else◌,
  is_some, ◌∙◌,
}
use btcr2_aggregation.OrderedMap.{has}
use btcr2_aggregation.Phases.{
  contains, phase_in, open_phases, in_flight_phases, finalizable_phases, display_phases,
}
use btcr2_aggregation.Phases.Sets.{display-eq-or, finalizable-in_flight}
use btcr2_aggregation.Cohorts.State.{State, Runner, Options}
use btcr2_aggregation.Cohorts.Lifecycle.{finalize_cohort, FinalizeResult, finalized}
use btcr2_aggregation.Console.{
  CohortDetail, on_network, committed, not_signing, went_out, CancelAvailability,
  FinalizeAvailability, cancel_availability, finalize_availability,
}

-- The console offers to cancel a cohort exactly if the service knows it, no beacon transaction
-- went out, and its phase is one that the directory displays.
pub cancel_availability-eq-available_iff :
    (d : CohortDetail)
    → (cancel_availability (some d) ≡ CancelAvailability.available) ↔ (
        (d.exists ≡ true)
        × (is_some d.anchor.txid || went_out d.anchor.state ≡ false)
        × (contains display_phases d.phase ≡ true))
unfolding cancel_availability
cancel_availability-eq-available_iff d = rw (display-eq-or d.phase) (
    decided d.exists (is_some d.anchor.txid || went_out d.anchor.state)
      (contains open_phases d.phase || contains in_flight_phases d.phase))
  where
    decided :
        (e sent live : Bool)
        → ((if not e
              then CancelAvailability.unavailable
              else (if sent
                  then on_network
                  else (if live
                      then CancelAvailability.available
                      else CancelAvailability.unavailable)))
            ≡ CancelAvailability.available)
          ↔ ((e ≡ true) × (sent ≡ false) × (live ≡ true))
    decided false sent live = (λ h. cc, λ h. cc (h.0))
    decided true true live = (λ h. cc, λ h. cc (h.1))
    decided true false false = (λ h. cc, λ h. cc (h.2))
    decided true false true = (λ h. (refl, refl, refl), λ h. refl)

offered_phase :
    (d : CohortDetail)
    → finalize_availability (some d) ≡ FinalizeAvailability.available
    → (d.exists ≡ true) × (contains finalizable_phases d.phase ≡ true)
unfolding finalize_availability
offered_phase d h = decided d.exists d.fallback_used (contains finalizable_phases d.phase) h
  where
    decided :
        (e used phase : Bool)
        → (if not e
            then FinalizeAvailability.unavailable
            else (if used
                then committed
                else (if phase then FinalizeAvailability.available else not_signing)))
          ≡ FinalizeAvailability.available
        → (e ≡ true) × (phase ≡ true)
    decided false used phase k = cc
    decided true true phase k = cc
    decided true false false k = cc
    decided true false true k = (refl, refl)

-- Whenever the console offers to finalize a cohort with no beacon transaction out, it also offers
-- to cancel it.
pub finalizable-cancelable :
    (d : CohortDetail)
    → finalize_availability (some d) ≡ FinalizeAvailability.available
    → is_some d.anchor.txid || went_out d.anchor.state ≡ false
    → cancel_availability (some d) ≡ CancelAvailability.available
finalizable-cancelable d offered unsent =
    let (e, f) = offered_phase d offered in
    let shown : contains display_phases d.phase ≡ true =
      display-eq-or d.phase
      ∙ rw ((finalizable-in_flight d.phase f).0, (finalizable-in_flight d.phase f).1) refl in
    (cancel_availability-eq-available_iff d).1 (e, unsent, shown)

module _ {S : Type 0} (runner : Runner S) (opts : Options) (id : String) (s : State S)
    (d : CohortDetail) where
  -- For a detail read of an advertised cohort that is up to date with the runner's phase, with no
  -- fallback taken and a runner that takes the trigger, the console offers to finalize exactly if
  -- the service's finalize succeeds.
  pub finalize_availability-eq-available_iff :
      d.exists ≡ true
      → d.fallback_used ≡ false
      → runner.cohort_phase s.session id ≡ some d.phase
      → has id s.advertised ≡ true
      → (runner.trigger_fallback id s.session).1 ≡ false
      → (finalize_availability (some d) ≡ FinalizeAvailability.available)
        ↔ ((finalize_cohort runner opts id s).1 ≡ FinalizeResult.ok)
  unfolding finalize_availability finalize_cohort phase_in
  finalize_availability-eq-available_iff e u p a t =
      rw (e, u, a, p)
        (elim (Bool-cases (contains finalizable_phases d.phase)) [
          | inl f ↦ rw f (λ h. accepted (runner.trigger_fallback id s.session) t, λ h. refl)
          | inr f ↦ rw f (λ h. cc, λ h. cc)
        ])
    where
      accepted :
          (answer : S × Bool)
          → answer.1 ≡ false
          → (finalized runner opts id answer s).1 ≡ FinalizeResult.ok
      accepted (session, true) h = cc
      accepted (session, false) h = refl
