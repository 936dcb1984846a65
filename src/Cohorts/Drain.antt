-- ===== src/Cohorts/Drain.antt =====
-- Advertising drain mode: the paused bit of packages/service/src/operator-cohorts.ts.
use btcr2_aggregation.Prelude.{
  ◌≡◌, refl, ap, subst, Bool, true, false, Option, none, some, String, inl, inr, arith, Bool-cases,
  Option-cases,
}
use btcr2_aggregation.OrderedMap.{OrderedMap, get, has}
use btcr2_aggregation.OrderedMap.Laws.{has-delete}
use btcr2_aggregation.Intents.{CohortIntent, read}
use btcr2_aggregation.Cohorts.Config.{CohortConfig, RecoveryKeys}
use btcr2_aggregation.Cohorts.Draft.{DraftWindows}
use btcr2_aggregation.Cohorts.State.{
  State, Runner, Options, Fate, remember_terminal, clear_window_timer, is_paused,
}
use btcr2_aggregation.Cohorts.Drafts.{discard_draft}
use btcr2_aggregation.Cohorts.Lifecycle.{
  paused, advertise_draft, readvertise_expired, drop_cohort, settle_completed, settle_rejected,
  file_terminal, fire_window_timer, cancel_cohort, finalize_cohort, finalized, carry_fate,
  still_live, forget_terminal, stop_service,
}
use btcr2_aggregation.Cohorts.Reads.{status}
use btcr2_aggregation.Cohorts.Step.{
  Event, creates, updates, discards, advertises, readvertises, cancels, finalizes, forgets,
  completes, rejects, window_fires, progresses, changes_settings, stops_service, step,
}
use btcr2_aggregation.Cohorts.Cases.{create_draft_cases, update_draft_cases, repair_cases}
use btcr2_aggregation.Cohorts.Invariant.{IsValid}

-- Whatever is advertised in the second state was advertised in the first.
abbrev pub AdvertisesNoMore : {S : Type 0} → State S → State S → Type 0
AdvertisesNoMore s t = (id : String) → has id t.advertised ≡ true → has id s.advertised ≡ true

no_more_of_eq :
    {m n : OrderedMap CohortConfig} → n ≡ m → (id : String) → has id n ≡ true → has id m ≡ true
no_more_of_eq e id h = subst (λ t. has id t ≡ true) e h

module _ {S : Type 0} (runner : Runner S) (opts : Options) (s : State S) where
  drop_cohort-no_more :
      (id : String) → IsValid s → AdvertisesNoMore s (drop_cohort runner opts id s)
  unfolding drop_cohort clear_window_timer
  drop_cohort-no_more id v j h =
      ground (arith, has-delete j id s.advertised v.4.advertised_distinct)

  file_terminal-no_more :
      (o : Option CohortConfig) (id message : String) (i : Option CohortIntent)
      (w : Option DraftWindows) (t : State S)
      → AdvertisesNoMore s t
      → AdvertisesNoMore s (file_terminal runner opts o id message i w t)
  unfolding remember_terminal
  file_terminal-no_more none id message i w t v = v
  file_terminal-no_more (some c) id message i w t v = v

  cancel_cohort-no_more : (id : String) → AdvertisesNoMore s (cancel_cohort runner opts id s).0
  unfolding cancel_cohort clear_window_timer
  cancel_cohort-no_more id = elim (Bool-cases (has id s.advertised)) [
    | inr e ↦ rw e (λ j h. h)
    | inl e ↦ rw e (repair_cases runner opts (AdvertisesNoMore s) id _ λ _ _ j h. h)
  ]

  fire_window_timer-no_more :
      (id : String) → AdvertisesNoMore s (fire_window_timer runner opts id s)
  unfolding fire_window_timer
  fire_window_timer-no_more id = elim (Bool-cases (has id s.window_timers)) [
    | inr e ↦ rw e (λ j h. h)
    | inl e ↦ rw e (λ j h. h)
  ]

  finalized-no_more :
      (id : String) (r : S × Bool) → (finalized runner opts id r s).0.advertised ≡ s.advertised
  finalized-no_more id (session, true) = refl
  finalized-no_more id (session, false) = refl

  finalize_cohort-keeps :
      (id : String) → (finalize_cohort runner opts id s).0.advertised ≡ s.advertised
  unfolding finalize_cohort
  finalize_cohort-keeps id =
      ground (arith, finalized-no_more id (runner.trigger_fallback id s.session))

  carry_keeps : (f : Fate) (id : String) → (carry_fate f id s).advertised ≡ s.advertised
  unfolding carry_fate
  carry_keeps Fate.expired id = refl
  carry_keeps Fate.canceled id = refl

  forget_terminal-keeps :
      (id : String) → (forget_terminal runner opts id s).0.advertised ≡ s.advertised
  unfolding forget_terminal
  forget_terminal-keeps id = elim (Option-cases (get id s.terminal)) [
    | inl e ↦ rw e refl
    | inr (r, e) ↦ rw e (elim (Bool-cases (still_live runner opts s.session id)) [
      | inl live ↦ rw live refl
      | inr over ↦ rw over (carry_keeps r.fate id)
    ])
  ]

module _ {S : Type 0} (keys : RecoveryKeys) (opts : Options) (runner : Runner S) (s : State S) where
  advertise_draft_paused :
      (id : String) → is_paused s.settings ≡ true → advertise_draft runner opts id s ≡ (s, paused)
  unfolding advertise_draft
  advertise_draft_paused id p = rw p

  readvertise_expired_paused :
      (id : String)
      → is_paused s.settings ≡ true
      → readvertise_expired runner opts id s ≡ (s, paused)
  unfolding readvertise_expired
  readvertise_expired_paused id p = rw p

  step-no_more :
      (e : Event S)
      → IsValid s
      → is_paused s.settings ≡ true
      → AdvertisesNoMore s (step keys opts runner e s)
  unfolding step
  step-no_more (creates id input) v p =
      create_draft_cases keys opts (AdvertisesNoMore s) id input s (λ j h. h) (λ e j h. h)
  step-no_more (updates id input) v p =
      update_draft_cases keys opts (AdvertisesNoMore s) id input s (λ j h. h) (λ e j h. h)
  step-no_more (discards id) v p = unfold discard_draft in λ j h. h
  step-no_more (advertises id) v p =
      no_more_of_eq (ap (λ r. r.0.advertised) (advertise_draft_paused id p))
  step-no_more (readvertises id) v p =
      no_more_of_eq (ap (λ r. r.0.advertised) (readvertise_expired_paused id p))
  step-no_more (cancels id) v p = cancel_cohort-no_more runner opts s id
  step-no_more (finalizes id) v p = no_more_of_eq (finalize_cohort-keeps runner opts s id)
  step-no_more (forgets id) v p = no_more_of_eq (forget_terminal-keeps runner opts s id)
  step-no_more (completes id) v p =
      unfold settle_completed in
      repair_cases runner opts (AdvertisesNoMore s) id _
        λ _ _. drop_cohort-no_more runner opts s id v
  step-no_more (rejects id message) v p =
      unfold settle_rejected in
      repair_cases runner opts (AdvertisesNoMore s) id _ λ _ _.
        file_terminal-no_more runner opts s (get id s.advertised) id message (read id s.intents)
          (get id s.advertised_windows) (drop_cohort runner opts id s)
          (drop_cohort-no_more runner opts s id v)
  step-no_more (window_fires id) v p = fire_window_timer-no_more runner opts s id
  step-no_more (progresses session) v p = λ j h. h
  step-no_more (changes_settings settings) v p = λ j h. h
  step-no_more stops_service v p = unfold stop_service in λ j h. h

  -- While advertising is paused, both advertise actions answer with the refusal for every id and
  -- leave the state, the runner's session included, as it was; no event of any kind makes a cohort
  -- advertised that was not; and the public status says paused.
  pub paused_drains :
      IsValid s
      → is_paused s.settings ≡ true
      → ((id : String) → advertise_draft runner opts id s ≡ (s, paused))
        × ((id : String) → readvertise_expired runner opts id s ≡ (s, paused))
        × ((e : Event S) → AdvertisesNoMore s (step keys opts runner e s))
        × ((status runner opts s).paused ≡ true)
  unfolding status
  paused_drains v p = (
    (λ id. advertise_draft_paused id p),
    (λ id. readvertise_expired_paused id p),
    (λ e. step-no_more e v p),
    p,
  )
