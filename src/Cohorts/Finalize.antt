-- ===== src/Cohorts/Finalize.antt =====
-- packages/service/src/operator-cohorts.ts: when the service finalizes a signing round.
use btcr2_aggregation.Prelude.{
  ◌≡◌, ◌++◌, refl, sym, ap, Bool, true, false, [], ◌∷◌, String, ◌⊎◌, inl, inr, Bool-cases,
}
use btcr2_aggregation.OrderedMap.{has}
use btcr2_aggregation.Phases.{phase_in, finalizable_phases}
use btcr2_aggregation.Cohorts.State.{State, Runner, Options, on_finalize}
use btcr2_aggregation.Cohorts.Lifecycle.{finalize_cohort, finalized, FinalizeResult}

module _ {S : Type 0} (runner : Runner S) (opts : Options) (id : String) (s : State S) where
  -- The cohort is advertised, in a signing phase, and the runner takes the fallback trigger.
  pub record Finalizable : Type 0 where
    pub advertised : has id s.advertised ≡ true
    pub signing : phase_in finalizable_phases (runner.cohort_phase s.session id) ≡ true
    pub accepted : (runner.trigger_fallback id s.session).1 ≡ false

  -- What each answer of finalize comes with.
  abbrev pub Finalized : State S × FinalizeResult → Type 0
  Finalized (t, FinalizeResult.ok) =
      Finalizable
      × (t ≡ record s {
        session = (runner.trigger_fallback id s.session).0;
        calls = s.calls ++ on_finalize id ∷ [];
      })
  Finalized (t, FinalizeResult.unknown) = (has id s.advertised ≡ false) × (t ≡ s)
  Finalized (t, FinalizeResult.not_signing) =
      (has id s.advertised ≡ true)
      × (((phase_in finalizable_phases (runner.cohort_phase s.session id) ≡ false) × (t ≡ s))
          ⊎ (((runner.trigger_fallback id s.session).1 ≡ true)
              × (t ≡ record s { session = (runner.trigger_fallback id s.session).0 })))

  triggered :
      (answer : S × Bool)
      → runner.trigger_fallback id s.session ≡ answer
      → has id s.advertised ≡ true
      → phase_in finalizable_phases (runner.cohort_phase s.session id) ≡ true
      → Finalized (finalized runner opts id answer s)
  triggered (session, true) e a p =
      (a, inr (ap (λ x. x.1) e, ap (λ x. record s { session = x.0 }) (sym e)))
  triggered (session, false) e a p = (
    record { advertised = a; signing = p; accepted = ap (λ x. x.1) e },
    ap (λ x. record s { session = x.0; calls = s.calls ++ on_finalize id ∷ [] }) (sym e),
  )

  -- Finalize answers that it is done exactly with the cohort advertised, in a signing phase and
  -- the trigger taken, and then reports it once; it answers that the cohort is unknown exactly
  -- when it is not advertised; and otherwise that it is not signing, where the state is as it was
  -- unless the runner rejected the trigger.
  pub finalize_cohort_lem : Finalized (finalize_cohort runner opts id s)
  unfolding finalize_cohort
  finalize_cohort_lem = elim (Bool-cases (has id s.advertised)) [
    | inr e ↦ rw e (e, refl)
    | inl e ↦ elim (Bool-cases (phase_in finalizable_phases (runner.cohort_phase s.session id))) [
      | inr p ↦ rw e (rw p (e, inl (p, refl)))
      | inl p ↦ rw e (rw p (triggered (runner.trigger_fallback id s.session) refl e p))
    ]
  ]
