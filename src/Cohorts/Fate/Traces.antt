-- ===== src/Cohorts/Fate/Traces.antt =====
-- packages/service/src/operator-cohorts.ts: what each operation does to the traces of a cancel in
-- the tables.
use btcr2_aggregation.Prelude.{
  ◌≡◌, ◌&&◌, refl, Bool, true, false, not, Option, none, some, String, ℕ, if◌then◌else◌, ◌==◌, inl,
  inr, arith, eq_iff, Bool-cases, Option-cases, subst,
}
use btcr2_aggregation.OrderedMap.{OrderedMap, get, has, set, delete, evict}
use btcr2_aggregation.OrderedMap.Laws.{Distinct, get-set, get-delete, has-set, set-Distinct}
use btcr2_aggregation.OrderedMap.Eviction.{get_of_evict, get_of_remember}
use btcr2_aggregation.Intents.{
  CohortIntent, canceled, window_expired, CohortIntents, max_intents, declare, clear, read,
}
use btcr2_aggregation.Phases.{phase_in, finalizable_phases}
use btcr2_aggregation.Cohorts.Config.{CohortConfig}
use btcr2_aggregation.Cohorts.Draft.{DraftWindows}
use btcr2_aggregation.Cohorts.State.{
  TerminalRecord, State, Runner, Options, Fate, DraftEntry, max_terminal, max_dismissed_canceled,
  arm_window_timer, arms_timer, note_advertised, remember_terminal, clear_window_timer, is_paused,
}
use btcr2_aggregation.Cohorts.Lifecycle.{
  launch, advertise_draft, advertise_entry, readvertise_expired, readvertise_record, drop_cohort,
  settle_completed, settle_rejected, file_terminal, fire_window_timer, cancel_cohort,
  finalize_cohort, finalized, carry_fate, still_live, forget_record, terminal_record, or_no_windows,
}
use btcr2_aggregation.Cohorts.Reads.{is_canceled_record}
use btcr2_aggregation.Cohorts.Cases.{repair_cases}
use btcr2_aggregation.Cohorts.Invariant.{IsValid, has_of_evict}

-- Every trace of a cancel in the tables is about a cohort of which `P` holds.
abbrev pub Traced : {S : Type 0} → (String → Type 0) → State S → Type 0
Traced P s =
    ((id : String) → read id s.intents ≡ some canceled → P id)
    × ((id : String) → is_canceled_record (get id s.terminal) ≡ true → P id)
    × ((id : String) → has id s.dismissed_canceled ≡ true → P id)

module _ {S : Type 0} (runner : Runner S) (opts : Options) (P : String → Type 0) where
  arm-Traced :
      (id : String) (ms : Option ℕ) (s : State S)
      → Traced P s
      → Traced P (arm_window_timer opts id ms s)
  unfolding arm_window_timer
  arm-Traced id none s v = v
  arm-Traced id (some ms) s v = elim (Bool-cases (arms_timer opts.cohort_ttl ms && not s.stopped)) [
    | inr e ↦ rw e v
    | inl e ↦ rw e v
  ]

  delete-canceled :
      (j id : String) (m : OrderedMap TerminalRecord)
      → Distinct m
      → is_canceled_record (get j (delete id m)) ≡ true
      → is_canceled_record (get j m) ≡ true
  delete-canceled j id m d h = ground (arith, get-delete j id m d)

  pub advertise_draft-Traced :
      (id : String) (s : State S) → Traced P s → Traced P (advertise_draft runner opts id s).0
  unfolding advertise_draft launch note_advertised
  advertise_draft-Traced id s v = elim (Bool-cases (is_paused s.settings)) [
    | inl e ↦ rw e v
    | inr e ↦ rw e (entered (get id s.drafts))
  ]
    where
      entered : (o : Option DraftEntry) → Traced P (advertise_entry runner opts o id s).0
      entered none = v
      entered (some entry) = arm-Traced _ _ _ v

  pub readvertise_expired-Traced :
      (id : String) (s : State S)
      → IsValid s
      → Traced P s
      → Traced P (readvertise_expired runner opts id s).0
  unfolding readvertise_expired launch note_advertised
  readvertise_expired-Traced id s w v = elim (Bool-cases (is_paused s.settings)) [
    | inl e ↦ rw e v
    | inr e ↦ rw e (entered (get id s.terminal))
  ]
    where
      entered : (o : Option TerminalRecord) → Traced P (readvertise_record runner opts o id s).0
      entered none = v
      entered (some r) =
          arm-Traced _ _ _
            (v.0, (λ j h. v.1 j (delete-canceled j id s.terminal w.1.distinct h)), v.2)

  drop_cohort-Traced :
      (id : String) (s : State S) → IsValid s → Traced P s → Traced P (drop_cohort runner opts id s)
  unfolding drop_cohort clear_window_timer clear read
  drop_cohort-Traced id s w v = ((λ j h. v.0 j (still j h)), v.1, v.2)
    where
      still :
          (j : String)
          → get j (delete id s.intents) ≡ some canceled
          → get j s.intents ≡ some canceled
      still j h = ground (arith, get-delete j id s.intents w.3.distinct)

  canceled_of_write :
      (j id : String) (r : TerminalRecord) (m : OrderedMap TerminalRecord)
      → Distinct m
      → is_canceled_record (get j (evict max_terminal (set id r m))) ≡ true
      → (if id == j then is_canceled_record (some r) else is_canceled_record (get j m)) ≡ true
  canceled_of_write j id r m d h = elim (Option-cases (get j (evict max_terminal (set id r m)))) [
    | inl e ↦ absurd (impossible e)
    | inr (x, e) ↦
        let before = get_of_evict max_terminal j x (set id r m) (set-Distinct id r m d) e in
        ground (arith, get-set j id r m)
  ]
    where
      impossible : get j (evict max_terminal (set id r m)) ≡ none → ⊥
      impossible e = ground arith

  canceled_of_intent :
      (i : Option CohortIntent) (c : CohortConfig) (message : String) (w : DraftWindows)
      → is_canceled_record (some (terminal_record i c message w)) ≡ true
      → i ≡ some canceled
  unfolding terminal_record
  canceled_of_intent (some canceled) c message w h = refl
  canceled_of_intent (some window_expired) c message w h = cc
  canceled_of_intent none c message w h = cc

  file_terminal-Traced :
      (o : Option CohortConfig) (id message : String) (i : Option CohortIntent)
      (w : Option DraftWindows) (s : State S)
      → Distinct s.terminal
      → (i ≡ some canceled → P id)
      → Traced P s
      → Traced P (file_terminal runner opts o id message i w s)
  unfolding remember_terminal
  file_terminal-Traced none id message i w s d named v = v
  file_terminal-Traced (some c) id message i w s d named v = (
    v.0,
    filed (terminal_record i c message (or_no_windows w)) (canceled_of_intent i c message _),
    v.2,
  )
    where
      filed :
          (r : TerminalRecord)
          → (is_canceled_record (some r) ≡ true → i ≡ some canceled)
          → (j : String)
          → is_canceled_record (get j (evict max_terminal (set id r s.terminal))) ≡ true
          → P j
      filed r why j h =
          let h' = canceled_of_write j id r s.terminal d h in
          elim (Bool-cases (id == j)) [
            | inl same ↦ subst P ((eq_iff id j).0 same) (named (why (ground arith)))
            | inr other ↦ v.1 j (ground arith)
          ]

  declare-Traced :
      (id : String) (i : CohortIntent) (m : CohortIntents)
      → Distinct m
      → (i ≡ canceled → P id)
      → ((j : String) → read j m ≡ some canceled → P j)
      → (j : String) → read j (declare id i m) ≡ some canceled
      → P j
  unfolding declare read
  declare-Traced id i m d named v j h = elim (Bool-cases (id == j)) [
    | inl same ↦
        subst P ((eq_iff id j).0 same)
          (named (ground (arith, get_of_remember max_intents j id i canceled m d h)))
    | inr other ↦ v j (ground (arith, get_of_remember max_intents j id i canceled m d h))
  ]

  pub settle_rejected-Traced :
      (id message : String) (s : State S)
      → IsValid s
      → Traced P s
      → Traced P (settle_rejected runner opts id message s)
  unfolding settle_rejected drop_cohort clear_window_timer
  settle_rejected-Traced id message s w v = repair_cases runner opts (Traced P) id _ λ _ _.
      file_terminal-Traced (get id s.advertised) id message (read id s.intents)
        (get id s.advertised_windows) (drop_cohort runner opts id s) w.1.distinct (v.0 id)
        (drop_cohort-Traced id s w v)

  pub settle_completed-Traced :
      (id : String) (s : State S)
      → IsValid s
      → Traced P s
      → Traced P (settle_completed runner opts id s)
  unfolding settle_completed
  settle_completed-Traced id s w v =
      repair_cases runner opts (Traced P) id _ λ _ _. drop_cohort-Traced id s w v

  pub fire_window_timer-Traced :
      (id : String) (s : State S)
      → IsValid s
      → Traced P s
      → Traced P (fire_window_timer runner opts id s)
  unfolding fire_window_timer
  fire_window_timer-Traced id s w v = elim (Bool-cases (has id s.window_timers)) [
    | inr e ↦ rw e v
    | inl e ↦ rw e (declare-Traced id window_expired s.intents w.3.distinct (λ h. cc) v.0, v.1, v.2)
  ]

  pub cancel_cohort-Traced :
      (id : String) (s : State S)
      → IsValid s
      → P id
      → Traced P s
      → Traced P (cancel_cohort runner opts id s).0
  unfolding cancel_cohort clear_window_timer
  cancel_cohort-Traced id s w p v = elim (Bool-cases (has id s.advertised)) [
    | inr e ↦ rw e v
    | inl e ↦ rw e (
        repair_cases runner opts (Traced P) id _
          λ _ _. (declare-Traced id canceled s.intents w.3.distinct (λ h. p) v.0, v.1, v.2))
  ]

  finalized-Traced :
      (id : String) (r : S × Bool) (s : State S)
      → Traced P s
      → Traced P (finalized runner opts id r s).0
  finalized-Traced id (session, true) s v = v
  finalized-Traced id (session, false) s v = v

  pub finalize_cohort-Traced :
      (id : String) (s : State S) → Traced P s → Traced P (finalize_cohort runner opts id s).0
  unfolding finalize_cohort
  finalize_cohort-Traced id s v =
      let done = finalized-Traced id (runner.trigger_fallback id s.session) s v in
      elim (Bool-cases (has id s.advertised)) [
        | inr e ↦ rw e v
        | inl e ↦
            rw e
              (elim (Bool-cases (phase_in finalizable_phases (runner.cohort_phase s.session id))) [
                | inr e' ↦ rw e' v
                | inl e' ↦ rw e' done
              ])
      ]

  carried-Traced :
      (f : Fate) (id : String) (s : State S)
      → (f ≡ Fate.canceled → P id)
      → ((j : String) → has j s.dismissed_canceled ≡ true → P j)
      → (j : String) → has j (carry_fate f id s).dismissed_canceled ≡ true
      → P j
  unfolding carry_fate
  carried-Traced Fate.expired id s named v j h = v j h
  carried-Traced Fate.canceled id s named v j h =
      let h' = has_of_evict max_dismissed_canceled j (set id tt s.dismissed_canceled) h in
      elim (Bool-cases (id == j)) [
        | inl same ↦ subst P ((eq_iff id j).0 same) (named refl)
        | inr other ↦ v j (ground (arith, has-set j id tt s.dismissed_canceled))
      ]

  carry_terminal :
      (f : Fate) (id : String) (s : State S) → (carry_fate f id s).terminal ≡ s.terminal
  unfolding carry_fate
  carry_terminal Fate.expired id s = refl
  carry_terminal Fate.canceled id s = refl

  carry_intents : (f : Fate) (id : String) (s : State S) → (carry_fate f id s).intents ≡ s.intents
  unfolding carry_fate
  carry_intents Fate.expired id s = refl
  carry_intents Fate.canceled id s = refl

  pub forget_record-Traced :
      (o : Option TerminalRecord) (id : String) (s : State S)
      → IsValid s
      → get id s.terminal ≡ o
      → Traced P s
      → Traced P (forget_record runner opts o id s).0
  forget_record-Traced none id s w e v = v
  forget_record-Traced (some r) id s w e v =
      elim (Bool-cases (still_live runner opts s.session id)) [
        | inl live ↦ rw live v
        | inr over ↦
            rw (over, carry_terminal r.fate id s, carry_intents r.fate id s)
              (
                v.0,
                (λ j h. v.1 j (delete-canceled j id s.terminal w.1.distinct h)),
                carried-Traced r.fate id s (λ f. v.1 id (rw e (is_canceled f))) v.2,
              )
      ]
    where
      is_canceled : r.fate ≡ Fate.canceled → is_canceled_record (some r) ≡ true
      is_canceled f = rw f
