-- ===== src/Monitor/Fold.antt =====
-- packages/service/src/monitor.ts: one function for each listener of the monitor. A
-- thrown error ends a fold in the source; on payloads of the declared types none of the calls here
-- throws, and a malformed payload is not modelled.
use btcr2_aggregation.Prelude.{
  ◌==◌, ◌||◌, Bool, true, false, Option, none, some, String, ℕ, if◌then◌else◌,
}
use btcr2_aggregation.OrderedMap.{get, has, set}
use btcr2_aggregation.Monitor.{
  pending, seated, MemberRound, joined, submitted, validated, nonce_sent, rejected, info, good,
  warn, bad, opted_in, was_seated, submitted_update, validated_data, rejected_data, sent_nonce,
  keygen_finalized, signing_round_started, falling_back, co_signing_complete, confirmed_on_chain,
  message_rejected, failed_for, broadcast_failed, tx_broadcast, CohortChip, co_signed,
  co_signed_fallback, fallback, anchored, failed, EndedRecord, MemberRecord, MonitorEntry,
  CohortMonitor, Session, entry_for, member_for, append_activity, remember_entry, remember_ended,
  snapshot_capacity, snapshot_seats,
}

-- The events that the monitor listens to.
pub data MonitorEvent : Type 0 where
  opt_in_received : String → Option String → Option String → MonitorEvent
  participant_accepted update_received nonce_received : String → MonitorEvent
  validation_received : String → Bool → MonitorEvent
  keygen_complete : String → MonitorEvent
  message_refused : String → String → String → MonitorEvent
  signing_started fallback_started : MonitorEvent
  signing_complete : Bool → MonitorEvent
  cohort_failed : String → MonitorEvent
  beacon_broadcast beacon_broadcast_failed : String → MonitorEvent
  beacon_anchored : Bool → MonitorEvent

unfoldable pub is_rejected : MemberRound → Bool
is_rejected rejected = true
is_rejected _ = false

-- A round moves on, unless the member is rejected.
unfoldable pub advance_round : MemberRound → MemberRecord → MemberRecord
unfolding is_rejected
advance_round round r = if is_rejected r.round then r else record r { round = round }

unfoldable pub set_member : String → MemberRecord → MonitorEntry → MonitorEntry
unfolding set
set_member did r e = record e { members = set did r e.members }

-- `reason || fallback`.
unfoldable pub or_text : String → String → String
or_text reason other = if reason == "" then other else reason

module _ (now : ℕ) where
  unfoldable pub on_opt_in_received :
      String → Option String → Option String → MonitorEntry → MonitorEntry
  unfolding has set_member append_activity
  on_opt_in_received did participant_pk communication_pk e =
      if has did e.members
      then e
      else append_activity now info (opted_in did) (
          set_member did
            (record {
              status = pending;
              since = now;
              round = joined;
              submitted_at = none;
              participant_pk = participant_pk;
              communication_pk = communication_pk;
            })
            e)

  unfoldable pub on_participant_accepted : String → MonitorEntry → MonitorEntry
  unfolding member_for set_member append_activity
  on_participant_accepted did e =
      append_activity now good (was_seated did)
        (set_member did (record (member_for now did e) { status = seated }) e)

  unfoldable pub on_update_received : String → MonitorEntry → MonitorEntry
  unfolding member_for advance_round set_member append_activity
  on_update_received did e = append_activity now info (submitted_update did) (
      set_member did
        (record (advance_round submitted (member_for now did e)) { submitted_at = some now }) e)

  unfoldable pub on_validation_received : String → Bool → MonitorEntry → MonitorEntry
  unfolding member_for advance_round set_member append_activity
  on_validation_received did true e =
      append_activity now good (validated_data did)
        (set_member did (advance_round validated (member_for now did e)) e)
  on_validation_received did false e =
      append_activity now bad (rejected_data did)
        (set_member did (record (member_for now did e) { round = rejected }) e)

  unfoldable pub on_message_rejected : String → String → String → MonitorEntry → MonitorEntry
  unfolding member_for set_member append_activity
  on_message_rejected did reason code e =
      append_activity now bad (message_rejected did reason code)
        (set_member did (record (member_for now did e) { round = rejected }) e)

  unfoldable pub on_nonce_received : String → MonitorEntry → MonitorEntry
  unfolding member_for advance_round set_member append_activity set
  on_nonce_received did e =
      let e' = set_member did (advance_round nonce_sent (member_for now did e)) e in
      append_activity now info (sent_nonce did)
        (record e' { nonces_sent = set did tt e'.nonces_sent })

  -- The events that write into the entry of a cohort; `none` for the others.
  unfoldable pub entry_fold : MonitorEvent → Option (MonitorEntry → MonitorEntry)
  unfolding on_opt_in_received on_participant_accepted on_update_received on_validation_received
      on_message_rejected on_nonce_received append_activity
  entry_fold (opt_in_received did pk cpk) = some (on_opt_in_received did pk cpk)
  entry_fold (participant_accepted did) = some (on_participant_accepted did)
  entry_fold (update_received did) = some (on_update_received did)
  entry_fold (nonce_received did) = some (on_nonce_received did)
  entry_fold (validation_received did approved) = some (on_validation_received did approved)
  entry_fold (message_refused did reason code) = some (on_message_rejected did reason code)
  entry_fold (keygen_complete address) =
      some (λ e.
        append_activity now info keygen_finalized (record e { beacon_address = some address }))
  entry_fold signing_started = some (append_activity now info signing_round_started)
  entry_fold fallback_started =
      some (λ e. append_activity now warn falling_back (record e { fell_back = true }))
  entry_fold _ = none

  unfoldable pub update_entry :
      String → (MonitorEntry → MonitorEntry) → Option MonitorEntry → CohortMonitor → CohortMonitor
  unfolding set
  update_entry cohort_id f none m = m
  update_entry cohort_id f (some e) m = record m { entries = set cohort_id (f e) m.entries }

  -- `if (entry) appendActivity(entry, ...)`: a write in place, which leaves the order as it is.
  unfoldable pub touch_entry :
      String → (MonitorEntry → MonitorEntry) → CohortMonitor → CohortMonitor
  unfolding get set update_entry
  touch_entry cohort_id f m = update_entry cohort_id f (get cohort_id m.entries) m

  unfoldable pub end_cohort :
      Session → String → CohortChip → Option String → Bool → CohortMonitor → CohortMonitor
  unfolding snapshot_seats remember_ended
  end_cohort session cohort_id chip reason via_fallback m =
      remember_ended cohort_id
        (record {
          chip = chip;
          seats_joined = (snapshot_seats session cohort_id m).0;
          capacity = (snapshot_seats session cohort_id m).1;
          reason = reason;
          via_fallback = via_fallback;
          at_ms = now;
        })
        m

  abbrev pub entry_fell_back : Option MonitorEntry → Bool
  entry_fell_back none = false
  entry_fell_back (some e) = e.fell_back

  abbrev pub ended_via_fallback : Option EndedRecord → Bool
  ended_via_fallback none = false
  ended_via_fallback (some r) = r.via_fallback

  -- `script_path` tells whether the result took the script path.
  unfoldable pub on_signing_complete : Session → String → Bool → CohortMonitor → CohortMonitor
  unfolding get touch_entry append_activity end_cohort
  on_signing_complete session cohort_id script_path m =
      let via_fallback = script_path || entry_fell_back (get cohort_id m.entries) in
      end_cohort session cohort_id (if via_fallback then co_signed_fallback else co_signed) none
        via_fallback
        (touch_entry cohort_id
          (λ e. append_activity now good co_signing_complete (record e { signing_complete = true }))
          m)

  unfoldable pub on_cohort_failed : Session → String → String → CohortMonitor → CohortMonitor
  unfolding touch_entry append_activity end_cohort or_text
  on_cohort_failed session cohort_id reason m =
      let said = or_text reason "cohort failed" in
      end_cohort session cohort_id failed (some said) false
        (touch_entry cohort_id (append_activity now bad (failed_for said)) m)

  unfoldable pub on_beacon_broadcast_failed :
      Session → String → String → CohortMonitor → CohortMonitor
  unfolding touch_entry append_activity end_cohort or_text
  on_beacon_broadcast_failed session cohort_id reason m =
      let said = or_text reason "broadcast failed" in
      end_cohort session cohort_id failed (some said) false
        (touch_entry cohort_id (append_activity now bad (broadcast_failed said)) m)

  unfoldable pub on_beacon_anchored : Session → String → Bool → CohortMonitor → CohortMonitor
  unfolding get touch_entry append_activity end_cohort
  on_beacon_anchored session cohort_id false m = m
  on_beacon_anchored session cohort_id true m =
      let via_fallback = ended_via_fallback (get cohort_id m.ended) in
      end_cohort session cohort_id (if via_fallback then fallback else anchored) none via_fallback
        (touch_entry cohort_id (append_activity now good confirmed_on_chain) m)

  unfoldable pub fold_entry :
      Session
      → String
      → MonitorEvent
      → Option (MonitorEntry → MonitorEntry)
      → CohortMonitor
      → CohortMonitor
  unfolding entry_for snapshot_capacity remember_entry touch_entry append_activity
      on_signing_complete on_cohort_failed on_beacon_broadcast_failed on_beacon_anchored
  fold_entry session cohort_id event (some f) m =
      remember_entry cohort_id (snapshot_capacity session cohort_id (f (entry_for cohort_id m))) m
  fold_entry session cohort_id (signing_complete script_path) none m =
      on_signing_complete session cohort_id script_path m
  fold_entry session cohort_id (cohort_failed reason) none m =
      on_cohort_failed session cohort_id reason m
  fold_entry session cohort_id (beacon_broadcast txid) none m =
      touch_entry cohort_id (append_activity now info (tx_broadcast txid)) m
  fold_entry session cohort_id (beacon_broadcast_failed reason) none m =
      on_beacon_broadcast_failed session cohort_id reason m
  fold_entry session cohort_id (beacon_anchored confirmed) none m =
      on_beacon_anchored session cohort_id confirmed m
  fold_entry session cohort_id _ none m = m

  -- The listeners.
  unfoldable pub on_event : Session → String → MonitorEvent → CohortMonitor → CohortMonitor
  unfolding fold_entry entry_fold entry_for snapshot_capacity remember_entry touch_entry
      append_activity on_signing_complete on_cohort_failed on_beacon_broadcast_failed
      on_beacon_anchored
  on_event session cohort_id event m = fold_entry session cohort_id event (entry_fold event) m
