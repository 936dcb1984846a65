-- ===== src/Monitor/Bounds/History.antt =====
-- packages/service/src/monitor.ts: the bounds hold through any events and notes.
use btcr2_aggregation.Prelude.{
  ◌||◌, Bool, true, false, List, [], ◌∷◌, Option, none, some, String, ℕ, inl, inr, Bool-cases,
  Option-cases, arith,
}
use btcr2_aggregation.OrderedMap.{get, has}
use btcr2_aggregation.Phases.{phase_in, open_phases, in_flight_phases}
use btcr2_aggregation.Wiring.{FundingView}
use btcr2_aggregation.Monitor.{
  MonitorEntry, ServiceMode, CohortMonitor, Session, CohortChip, info, good, bad, warn,
  co_signing_complete, was_seated, submitted_update, sent_nonce, validated_data, rejected_data,
  message_rejected, failed_for, broadcast_failed, confirmed_on_chain, tx_broadcast, opted_in,
  keygen_finalized, signing_round_started, falling_back, fresh_monitor, append_activity, entry_for,
}
use btcr2_aggregation.Monitor.Fold.{
  MonitorEvent, opt_in_received, participant_accepted, update_received, nonce_received,
  validation_received, keygen_complete, message_refused, signing_started, fallback_started,
  signing_complete, cohort_failed, beacon_broadcast, beacon_broadcast_failed, beacon_anchored,
  set_member, on_opt_in_received, on_participant_accepted, on_update_received,
  on_validation_received, on_message_rejected, on_nonce_received, entry_fold, update_entry,
  touch_entry, end_cohort, on_signing_complete, on_cohort_failed, on_beacon_broadcast_failed,
  on_beacon_anchored, fold_entry, on_event,
}
use btcr2_aggregation.Monitor.Notes.{
  Input, event, note, note_funding, note_canceled, dismiss_ended, note_operator_action,
  note_esplora_observation, keeps_funded, is_live, on_note_funding, ended_canceled,
  on_note_canceled, on_dismiss_ended, on_note_operator_action, on_note, fold_one, fold_all,
}
use btcr2_aggregation.Monitor.Bounds.{
  EndsAt, IsRing, IsEntry, IsTable, IsBounded, append_activity-IsEntry, snapshot_capacity-IsEntry,
  entry_for-IsEntry, remember_entry-IsBounded, set_entry-IsBounded, remember_ended-IsBounded,
  remember_funding-IsBounded, dismissed-IsBounded, record_service_action-IsBounded,
  record_operator_action-IsBounded,
}

-- A write of an entry that keeps its ring.
KeepsRing : (MonitorEntry → MonitorEntry) → Type 0
unfolding IsEntry
KeepsRing f = (e : MonitorEntry) → IsEntry e → IsEntry (f e)

module _ (now : ℕ) where
  opt_in-KeepsRing :
      (did : String) (pk cpk : Option String) → KeepsRing (on_opt_in_received now did pk cpk)
  unfolding KeepsRing on_opt_in_received set_member IsEntry append_activity
  opt_in-KeepsRing did pk cpk e h = elim (Bool-cases (has did e.members)) [
    | inl known ↦ rw known h
    | inr new ↦ rw new (append_activity-IsEntry now info (opted_in did) e h)
  ]

  -- The fold of an entry event.
  AllKeep : Option (MonitorEntry → MonitorEntry) → Type 0
  unfolding KeepsRing
  AllKeep none = Unit
  AllKeep (some f) = KeepsRing f

  entry_fold-AllKeep : (ev : MonitorEvent) → AllKeep (entry_fold now ev)
  unfolding AllKeep KeepsRing entry_fold on_participant_accepted on_update_received
      on_validation_received on_message_rejected on_nonce_received set_member IsEntry
      append_activity
  entry_fold-AllKeep (opt_in_received did pk cpk) = opt_in-KeepsRing did pk cpk
  entry_fold-AllKeep (participant_accepted did) =
      λ e h. append_activity-IsEntry now good (was_seated did) e h
  entry_fold-AllKeep (update_received did) =
      λ e h. append_activity-IsEntry now info (submitted_update did) e h
  entry_fold-AllKeep (nonce_received did) =
      λ e h. append_activity-IsEntry now info (sent_nonce did) e h
  entry_fold-AllKeep (validation_received did true) =
      λ e h. append_activity-IsEntry now good (validated_data did) e h
  entry_fold-AllKeep (validation_received did false) =
      λ e h. append_activity-IsEntry now bad (rejected_data did) e h
  entry_fold-AllKeep (message_refused did reason code) =
      λ e h. append_activity-IsEntry now bad (message_rejected did reason code) e h
  entry_fold-AllKeep (keygen_complete address) =
      λ e h. append_activity-IsEntry now info keygen_finalized e h
  entry_fold-AllKeep signing_started =
      λ e h. append_activity-IsEntry now info signing_round_started e h
  entry_fold-AllKeep fallback_started = λ e h. append_activity-IsEntry now warn falling_back e h
  entry_fold-AllKeep (signing_complete path) = tt
  entry_fold-AllKeep (cohort_failed reason) = tt
  entry_fold-AllKeep (beacon_broadcast txid) = tt
  entry_fold-AllKeep (beacon_broadcast_failed reason) = tt
  entry_fold-AllKeep (beacon_anchored confirmed) = tt

  touch_entry-IsBounded :
      (id : String) (f : MonitorEntry → MonitorEntry) (m : CohortMonitor)
      → KeepsRing f
      → IsBounded m
      → IsBounded (touch_entry now id f m)
  unfolding touch_entry update_entry KeepsRing IsBounded
  touch_entry-IsBounded id f m keep h = elim (Option-cases (get id m.entries)) [
    | inl absent ↦ rw absent h
    | inr (e, there) ↦ rw there (set_entry-IsBounded id (f e) e m (keep e (h.1 id e there)) there h)
  ]

  end_cohort-IsBounded :
      (session : Session) (id : String) (chip : CohortChip) (reason : Option String) (via : Bool)
      (m : CohortMonitor)
      → IsBounded m
      → IsBounded (end_cohort now session id chip reason via m)
  unfolding end_cohort
  end_cohort-IsBounded session id chip reason via m h = remember_ended-IsBounded id _ m h

  -- The folds that close a cohort.
  closes :
      (session : Session) (id : String) (f : MonitorEntry → MonitorEntry) (chip : CohortChip)
      (reason : Option String) (via : Bool) (m : CohortMonitor)
      → KeepsRing f
      → IsBounded m
      → IsBounded (end_cohort now session id chip reason via (touch_entry now id f m))
  closes session id f chip reason via m keep h =
      end_cohort-IsBounded session id chip reason via _ (touch_entry-IsBounded id f m keep h)

  anchored-IsBounded :
      (session : Session) (id : String) (confirmed : Bool) (m : CohortMonitor)
      → IsBounded m
      → IsBounded (on_beacon_anchored now session id confirmed m)
  unfolding on_beacon_anchored KeepsRing
  anchored-IsBounded session id false m h = h
  anchored-IsBounded session id true m h =
      closes session id _ _ _ _ m (λ e. append_activity-IsEntry now good confirmed_on_chain e) h

  fold_entry-IsBounded :
      (session : Session) (id : String) (ev : MonitorEvent)
      (f : Option (MonitorEntry → MonitorEntry)) (m : CohortMonitor)
      → AllKeep f
      → IsBounded m
      → IsBounded (fold_entry now session id ev f m)
  unfolding fold_entry AllKeep KeepsRing on_signing_complete on_cohort_failed
      on_beacon_broadcast_failed append_activity IsEntry
  fold_entry-IsBounded session id ev (some f) m keep h =
      remember_entry-IsBounded id _ m
        (snapshot_capacity-IsEntry session id _ (keep (entry_for id m) (entry_for-IsEntry id m h)))
        h
  fold_entry-IsBounded session id (signing_complete path) none m keep h =
      closes session id _ _ _ _ m (λ e. append_activity-IsEntry now good co_signing_complete e) h
  fold_entry-IsBounded session id (cohort_failed reason) none m keep h =
      closes session id _ _ _ _ m (λ e. append_activity-IsEntry now bad (failed_for _) e) h
  fold_entry-IsBounded session id (beacon_broadcast txid) none m keep h =
      touch_entry-IsBounded id _ m (λ e. append_activity-IsEntry now info (tx_broadcast txid) e) h
  fold_entry-IsBounded session id (beacon_broadcast_failed reason) none m keep h =
      closes session id _ _ _ _ m (λ e. append_activity-IsEntry now bad (broadcast_failed _) e) h
  fold_entry-IsBounded session id (beacon_anchored confirmed) none m keep h =
      anchored-IsBounded session id confirmed m h
  fold_entry-IsBounded session id _ none m keep h = h

  funding-IsBounded :
      (mode : ServiceMode) (id : String) (view : FundingView) (m : CohortMonitor)
      → IsBounded m
      → IsBounded (on_note_funding now mode id view m)
  unfolding on_note_funding
  funding-IsBounded mode id view m h = elim (Bool-cases (is_live mode)) [
    | inr off ↦ rw off h
    | inl on ↦ elim (Bool-cases (keeps_funded (get id m.funding_views) view)) [
      | inl kept ↦ rw on (rw kept h)
      | inr moved ↦ rw on (rw moved (remember_funding-IsBounded id view m h))
    ]
  ]

  canceled-IsBounded :
      (session : Session) (id : String) (m : CohortMonitor)
      → IsBounded m
      → IsBounded (on_note_canceled now session id m)
  unfolding on_note_canceled
  canceled-IsBounded session id m h = elim (Bool-cases (ended_canceled (get id m.ended))) [
    | inl already ↦ rw already h
    | inr first ↦
        let h' = record_operator_action-IsBounded now id "Operator canceled this cohort." m h in
        rw first (
          remember_ended-IsBounded id _ _ (
            remember_entry-IsBounded id _ _
              (snapshot_capacity-IsEntry session id _ (entry_for-IsEntry id _ h')) h'))
  ]

  dismissal-IsBounded :
      (session : Session) (text id : String) (m : CohortMonitor)
      → IsBounded m
      → IsBounded ((on_dismiss_ended now session text id m).0)
  unfolding on_dismiss_ended
  dismissal-IsBounded session text id m h = elim (Bool-cases (has id m.ended)) [
    | inr unknown ↦ rw unknown h
    | inl known ↦
        elim (Bool-cases (
          phase_in open_phases (session.get_cohort_phase id)
          || phase_in in_flight_phases (session.get_cohort_phase id))) [
            | inl running ↦ rw known (rw running h)
            | inr over ↦
                rw known (
                  rw over (record_service_action-IsBounded now text _ (dismissed-IsBounded id m h)))
          ]
  ]

empty-IsBounded : IsBounded fresh_monitor
unfolding IsBounded IsTable IsRing EndsAt get
empty-IsBounded =
    ((tt, omega arith), λ id e h. cc, (tt, omega arith), (tt, omega arith), (omega arith, tt))

module _ (dismissed_record_text : String → String) (mode : ServiceMode) where
  fold_one-IsBounded :
      (i : Input) (m : CohortMonitor)
      → IsBounded m
      → IsBounded (fold_one dismissed_record_text mode i m)
  unfolding fold_one fold_entry on_event on_note on_note_operator_action IsBounded
  fold_one-IsBounded (event now session id ev) m h =
      fold_entry-IsBounded now session id ev (entry_fold now ev) m (entry_fold-AllKeep now ev) h
  fold_one-IsBounded (note now session (note_funding id view)) m h =
      funding-IsBounded now mode id view m h
  fold_one-IsBounded (note now session (note_canceled id)) m h =
      canceled-IsBounded now session id m h
  fold_one-IsBounded (note now session (dismiss_ended id)) m h =
      dismissal-IsBounded now session (dismissed_record_text id) id m h
  fold_one-IsBounded (note now session (note_operator_action none text)) m h =
      record_service_action-IsBounded now text m h
  fold_one-IsBounded (note now session (note_operator_action (some id) text)) m h =
      record_operator_action-IsBounded now id text m h
  fold_one-IsBounded (note now session (note_esplora_observation ok)) m h = h

  fold_all-keeps :
      (inputs : List Input) (m : CohortMonitor)
      → IsBounded m
      → IsBounded (fold_all dismissed_record_text mode inputs m)
  unfolding fold_all
  fold_all-keeps [] m h = h
  fold_all-keeps (i ∷ later) m h = fold_all-keeps later _ (fold_one-IsBounded i m h)

  -- After any events and notes the monitor holds at most 24 entries, ended records and funding views,
  -- none of them twice, and its activity rings at most 200 lines each and 100 for the operator's
  -- actions, numbered without a gap up to the last line written.
  pub fold_all-IsBounded :
      (inputs : List Input) → IsBounded (fold_all dismissed_record_text mode inputs fresh_monitor)
  fold_all-IsBounded inputs = fold_all-keeps inputs fresh_monitor empty-IsBounded
