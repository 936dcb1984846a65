-- ===== src/Cohorts/Invariant/Steps.antt =====
-- packages/service/src/operator-cohorts.ts: the well-formedness of the tables, step by step.
use btcr2_aggregation.Prelude.{
  ◌≡◌, ◌&&◌, refl, Bool, true, false, not, List, Option, none, some, String, ℕ, inl, inr, arith,
  eq_refl, Bool-cases,
}
use btcr2_aggregation.OrderedMap.{OrderedMap, get, has, set}
use btcr2_aggregation.OrderedMap.Laws.{set-Distinct, delete-Distinct, has-set}
use btcr2_aggregation.Intents.{CohortIntent, canceled, window_expired, max_intents, clear, read}
use btcr2_aggregation.Cohorts.Config.{CohortConfig, RecoveryKeys}
use btcr2_aggregation.Cohorts.Draft.{DraftWindows}
use btcr2_aggregation.Cohorts.State.{
  DraftEntry, TerminalRecord, State, Runner, Options, Fate, max_terminal, max_dismissed_canceled,
  arm_window_timer, arms_timer, note_advertised, remember_terminal, clear_window_timer, is_paused,
}
use btcr2_aggregation.Cohorts.Drafts.{discard_draft}
use btcr2_aggregation.Cohorts.Lifecycle.{
  launch, advertise_draft, advertise_entry, readvertise_expired, readvertise_record, drop_cohort,
  settle_completed, settle_rejected, file_terminal, fire_window_timer, cancel_cohort,
  finalize_cohort, finalized, carry_fate, still_live, forget_terminal, forget_record, stop_service,
}
use btcr2_aggregation.Cohorts.Step.{
  Event, creates, updates, discards, advertises, readvertises, cancels, finalizes, forgets,
  completes, rejects, window_fires, progresses, changes_settings, stops_service, step, initial,
  Reach, fresh, next,
}
use btcr2_aggregation.Cohorts.Cases.{create_draft_cases, update_draft_cases, repair_cases}
use btcr2_aggregation.Cohorts.Invariant.{
  IsValid, set-Bounded, delete-Bounded, declare-Bounded, Linked-enter, Linked-arm, Linked-disarm,
  Linked-drop, Linked-stop,
}

module _ {S : Type 0} (runner : Runner S) (opts : Options) where
  arm-IsValid :
      (id : String) (ms : Option ℕ) (s : State S)
      → has id s.advertised ≡ true
      → IsValid s
      → IsValid (arm_window_timer opts id ms s)
  unfolding arm_window_timer
  arm-IsValid id none s live v = v
  arm-IsValid id (some ms) s live v =
      elim (Bool-cases (arms_timer opts.cohort_ttl ms && not s.stopped)) [
        | inr e ↦ rw e v
        | inl e ↦ rw e (v.0, v.1, v.2, v.3, Linked-arm v.4 id ms live (ground arith))
      ]

  launch-IsValid :
      (prune : State S → State S) (c : CohortConfig) (w : DraftWindows) (s : State S)
      → ((id : String) (session : S) (owner : Option String)
          → let t = prune (record s {
            session = session;
            advertised = set id c s.advertised;
            advertised_windows = set id w s.advertised_windows;
            advert_slot_owner = owner;
          }) in
            (has id t.advertised ≡ true) × IsValid t)
      → IsValid (launch runner opts prune c w s).1
  unfolding launch note_advertised
  launch-IsValid prune c w s keep =
      let (id, session) = runner.advertise_cohort c s.session in
      let (live, v) = keep id session (some id) in arm-IsValid id _ _ live v

  has-set_self : {V : Type 0} (k : String) (x : V) (m : OrderedMap V) → has k (set k x m) ≡ true
  has-set_self k x m = rw (has-set k k x m, eq_refl k)

  advertise_draft-IsValid :
      (id : String) (s : State S) → IsValid s → IsValid (advertise_draft runner opts id s).0
  unfolding advertise_draft
  advertise_draft-IsValid id s v = elim (Bool-cases (is_paused s.settings)) [
    | inl e ↦ rw e v
    | inr e ↦ rw e (entered (get id s.drafts))
  ]
    where
      entered : (o : Option DraftEntry) → IsValid (advertise_entry runner opts o id s).0
      entered none = v
      entered (some entry) = launch-IsValid _ entry.config entry.windows s λ new session owner. (
        has-set_self new entry.config s.advertised,
        (
          delete-Distinct id s.drafts v.0,
          v.1,
          v.2,
          v.3,
          Linked-enter v.4 new entry.config entry.windows,
        ),
      )

  readvertise_expired-IsValid :
      (id : String) (s : State S) → IsValid s → IsValid (readvertise_expired runner opts id s).0
  unfolding readvertise_expired
  readvertise_expired-IsValid id s v = elim (Bool-cases (is_paused s.settings)) [
    | inl e ↦ rw e v
    | inr e ↦ rw e (entered (get id s.terminal))
  ]
    where
      entered : (o : Option TerminalRecord) → IsValid (readvertise_record runner opts o id s).0
      entered none = v
      entered (some r) = launch-IsValid _ r.config r.windows s λ new session owner. (
        has-set_self new r.config s.advertised,
        (
          v.0,
          delete-Bounded max_terminal id s.terminal v.1,
          v.2,
          v.3,
          Linked-enter v.4 new r.config r.windows,
        ),
      )

  drop_cohort-IsValid :
      (id : String) (s : State S) → IsValid s → IsValid (drop_cohort runner opts id s)
  unfolding drop_cohort clear_window_timer clear
  drop_cohort-IsValid id s v =
      (v.0, v.1, v.2, delete-Bounded max_intents id s.intents v.3, Linked-drop v.4 id)

  settle_completed-IsValid :
      (id : String) (s : State S) → IsValid s → IsValid (settle_completed runner opts id s)
  unfolding settle_completed
  settle_completed-IsValid id s v =
      repair_cases runner opts IsValid id (drop_cohort runner opts id s)
        λ _ _. drop_cohort-IsValid id s v

  file_terminal-IsValid :
      (o : Option CohortConfig) (id message : String) (i : Option CohortIntent)
      (w : Option DraftWindows) (s : State S)
      → IsValid s
      → IsValid (file_terminal runner opts o id message i w s)
  unfolding remember_terminal
  file_terminal-IsValid none id message i w s v = v
  file_terminal-IsValid (some c) id message i w s v =
      (v.0, set-Bounded max_terminal id _ s.terminal v.1.distinct, v.2, v.3, v.4)

  settle_rejected-IsValid :
      (id message : String) (s : State S)
      → IsValid s
      → IsValid (settle_rejected runner opts id message s)
  unfolding settle_rejected
  settle_rejected-IsValid id message s v = repair_cases runner opts IsValid id _ λ _ _.
      file_terminal-IsValid (get id s.advertised) id message (read id s.intents)
        (get id s.advertised_windows) _ (drop_cohort-IsValid id s v)

  pub fire_window_timer-IsValid :
      (id : String) (s : State S) → IsValid s → IsValid (fire_window_timer runner opts id s)
  unfolding fire_window_timer
  fire_window_timer-IsValid id s v = elim (Bool-cases (has id s.window_timers)) [
    | inr e ↦ rw e v
    | inl e ↦ rw e (
      v.0,
      v.1,
      v.2,
      declare-Bounded id window_expired s.intents v.3.distinct,
      Linked-disarm v.4 id,
    )
  ]

  pub cancel_cohort-IsValid :
      (id : String) (s : State S) → IsValid s → IsValid (cancel_cohort runner opts id s).0
  unfolding cancel_cohort clear_window_timer
  cancel_cohort-IsValid id s v = elim (Bool-cases (has id s.advertised)) [
    | inr e ↦ rw e v
    | inl e ↦ rw e (
        repair_cases runner opts IsValid id _ λ _ _.
          (v.0, v.1, v.2, declare-Bounded id canceled s.intents v.3.distinct, Linked-disarm v.4 id))
  ]

  finalized-IsValid :
      (id : String) (r : S × Bool) (s : State S)
      → IsValid s
      → IsValid (finalized runner opts id r s).0
  finalized-IsValid id (session, true) s v = v
  finalized-IsValid id (session, false) s v = v

  finalize_cohort-IsValid :
      (id : String) (s : State S) → IsValid s → IsValid (finalize_cohort runner opts id s).0
  unfolding finalize_cohort
  finalize_cohort-IsValid id s v =
      ground (arith, finalized-IsValid id (runner.trigger_fallback id s.session) s v)

  carry_fate-IsValid :
      (f : Fate) (id : String) (s : State S) → IsValid s → IsValid (carry_fate f id s)
  unfolding carry_fate
  carry_fate-IsValid Fate.expired id s v = v
  carry_fate-IsValid Fate.canceled id s v = (
    v.0,
    v.1,
    set-Bounded max_dismissed_canceled id tt s.dismissed_canceled v.2.distinct,
    v.3,
    v.4,
  )

  forget_record-IsValid :
      (o : Option TerminalRecord) (id : String) (s : State S)
      → IsValid s
      → IsValid (forget_record runner opts o id s).0
  forget_record-IsValid none id s v = v
  forget_record-IsValid (some r) id s v = elim (Bool-cases (still_live runner opts s.session id)) [
    | inl e ↦ rw e v
    | inr e ↦
        let c = carry_fate-IsValid r.fate id s v in
        rw e (c.0, delete-Bounded max_terminal id _ c.1, c.2, c.3, c.4)
  ]

  module _ (keys : RecoveryKeys) where
    stored-IsValid :
        (id : String) (s : State S)
        → IsValid s
        → (e : DraftEntry) → IsValid (record s { drafts = set id e s.drafts })
    stored-IsValid id s v e = (set-Distinct id e s.drafts v.0, v.1, v.2, v.3, v.4)

    step-IsValid : (e : Event S) (s : State S) → IsValid s → IsValid (step keys opts runner e s)
    unfolding step
    step-IsValid (creates id input) s v =
        create_draft_cases keys opts IsValid id input s v (stored-IsValid id s v)
    step-IsValid (updates id input) s v =
        update_draft_cases keys opts IsValid id input s v (stored-IsValid id s v)
    step-IsValid (discards id) s v =
        unfold discard_draft in (delete-Distinct id s.drafts v.0, v.1, v.2, v.3, v.4)
    step-IsValid (advertises id) s v = advertise_draft-IsValid id s v
    step-IsValid (readvertises id) s v = readvertise_expired-IsValid id s v
    step-IsValid (cancels id) s v = cancel_cohort-IsValid id s v
    step-IsValid (finalizes id) s v = finalize_cohort-IsValid id s v
    step-IsValid (forgets id) s v =
        unfold forget_terminal in forget_record-IsValid (get id s.terminal) id s v
    step-IsValid (completes id) s v = settle_completed-IsValid id s v
    step-IsValid (rejects id message) s v = settle_rejected-IsValid id message s v
    step-IsValid (window_fires id) s v = fire_window_timer-IsValid id s v
    step-IsValid (progresses session) s v = v
    step-IsValid (changes_settings settings) s v = v
    step-IsValid stops_service s v = unfold stop_service in (v.0, v.1, v.2, v.3, Linked-stop v.4)

  module _ (keys : RecoveryKeys) where
    -- In every state that a service can reach, whatever its operator, its timers and its runner
    -- do, no table holds a key twice, at most 24 terminal records, dismissed fates, window timers
    -- and intents are kept, windows are kept for exactly the advertised cohorts, a timer is armed
    -- only for an advertised cohort, and none is armed once the service is stopped.
    pub Reach-IsValid :
        {past : List (Event S)} {s : State S} → Reach keys opts runner past s → IsValid s
    unfolding initial has
    Reach-IsValid (fresh session settings) = (
      tt,
      record { distinct = tt; bounded = omega arith },
      record { distinct = tt; bounded = omega arith },
      record { distinct = tt; bounded = omega arith },
      record {
        advertised_distinct = tt;
        windows_distinct = tt;
        timers_bounded = record { distinct = tt; bounded = omega arith };
        windows_follow = λ id. refl;
        timers_live = λ id h. h;
        stopped_quiet = λ h. refl;
      },
    )
    Reach-IsValid (next {s = s} e r) = step-IsValid keys e s (Reach-IsValid r)
