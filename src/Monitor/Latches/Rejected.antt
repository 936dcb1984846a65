-- ===== src/Monitor/Latches/Rejected.antt =====
-- packages/service/src/monitor.ts: a rejected member of a cohort stays rejected.
use btcr2_aggregation.Prelude.{
  ◌≡◌, ◌==◌, Bool, true, false, Option, none, some, String, ℕ, if◌then◌else◌, refl, sym, ◌∙◌, subst,
  inl, inr, Bool-cases, Option-cases, eq_iff,
}
use btcr2_aggregation.OrderedMap.{get, has, set}
use btcr2_aggregation.OrderedMap.Laws.{Distinct, get-set, has_of_get}
use btcr2_aggregation.OrderedMap.Eviction.{get_of_remember}
use btcr2_aggregation.Monitor.{
  MemberRecord, MemberRound, submitted, validated, nonce_sent, MonitorEntry, append_activity,
  member_for, Session, SessionCohort, snapshot_capacity, with_capacity, CohortMonitor,
  max_monitored, entry_for, remember_entry, remember_ended,
}
use btcr2_aggregation.Monitor.Fold.{
  MonitorEvent, opt_in_received, participant_accepted, update_received, nonce_received,
  validation_received, keygen_complete, message_refused, signing_started, fallback_started,
  is_rejected, advance_round, set_member, on_opt_in_received, on_participant_accepted,
  on_update_received, on_validation_received, on_message_rejected, on_nonce_received, entry_fold,
  signing_complete, cohort_failed, beacon_broadcast, beacon_broadcast_failed, beacon_anchored,
  update_entry, touch_entry, end_cohort, on_signing_complete, on_cohort_failed,
  on_beacon_broadcast_failed, on_beacon_anchored, fold_entry, on_event,
}

-- The member is there, and rejected.
unfoldable pub IsRejected : String → MonitorEntry → Type 0
IsRejected did e = (r : MemberRecord) × (get did e.members ≡ some r) × (is_rejected r.round ≡ true)

-- A write of any member, which leaves a rejected one rejected.
set_member-IsRejected :
    (did j : String) (r : MemberRecord) (e : MonitorEntry)
    → IsRejected did e
    → ((old : MemberRecord)
        → get j e.members ≡ some old
        → is_rejected old.round ≡ true
        → is_rejected r.round ≡ true)
    → IsRejected did (set_member j r e)
unfolding IsRejected set_member
set_member-IsRejected did j r e (old, there, gone) keeps = elim (Bool-cases (j == did)) [
  | inl same ↦
      let at : j ≡ did = (eq_iff j did).0 same in
      (r, rw (get-set did j r e.members) (rw same refl), keeps old (rw at there) gone)
  | inr other ↦ (old, rw (get-set did j r e.members) (rw other there), gone)
]

advanced :
    (now : ℕ) (j : String) (round : MemberRound) (e : MonitorEntry) (old : MemberRecord)
    → get j e.members ≡ some old
    → is_rejected old.round ≡ true
    → is_rejected (advance_round round (member_for now j e)).round ≡ true
unfolding advance_round member_for
advanced now j round e old there gone = rw there (rw gone gone)

module _ (now : ℕ) (did : String) where
  -- An event's write keeps a rejected member.
  Keeps : Option (MonitorEntry → MonitorEntry) → Type 0
  unfolding IsRejected
  Keeps none = Unit
  Keeps (some f) = (e : MonitorEntry) → IsRejected did e → IsRejected did (f e)

  entry_fold-IsRejected : (ev : MonitorEvent) → Keeps (entry_fold now ev)
  unfolding Keeps IsRejected entry_fold append_activity on_opt_in_received on_participant_accepted
      on_update_received on_validation_received on_message_rejected on_nonce_received member_for
  entry_fold-IsRejected (opt_in_received j pk cpk) = λ e h. elim (Bool-cases (has j e.members)) [
    | inl known ↦ rw known h
    | inr new ↦ rw new (
        set_member-IsRejected did j _ e h (λ old there gone. cc (has_of_get j e.members old there)))
  ]
  entry_fold-IsRejected (participant_accepted j) =
      λ e h. set_member-IsRejected did j _ e h (λ old there gone. rw there gone)
  entry_fold-IsRejected (update_received j) =
      λ e h. set_member-IsRejected did j _ e h (advanced now j submitted e)
  entry_fold-IsRejected (nonce_received j) =
      λ e h. set_member-IsRejected did j _ e h (advanced now j nonce_sent e)
  entry_fold-IsRejected (validation_received j true) =
      λ e h. set_member-IsRejected did j _ e h (advanced now j validated e)
  entry_fold-IsRejected (validation_received j false) =
      λ e h. set_member-IsRejected did j _ e h (λ old there gone. refl)
  entry_fold-IsRejected (message_refused j reason code) =
      λ e h. set_member-IsRejected did j _ e h (λ old there gone. refl)
  entry_fold-IsRejected (keygen_complete address) = λ e h. h
  entry_fold-IsRejected signing_started = λ e h. h
  entry_fold-IsRejected fallback_started = λ e h. h
  entry_fold-IsRejected _ = tt

-- An entry that is there has the member rejected.
StillRejected : String → Option MonitorEntry → Type 0
unfolding IsRejected
StillRejected did none = Unit
StillRejected did (some e) = IsRejected did e

written-StillRejected :
    (did : String) (here : Bool) (e : MonitorEntry) (before after : Option MonitorEntry)
    → StillRejected did before
    → (here ≡ true → IsRejected did e)
    → ((x : MonitorEntry) → after ≡ some x → (if here then some e else before) ≡ some x)
    → StillRejected did after
unfolding StillRejected
written-StillRejected did here e before none h new seen = tt
written-StillRejected did true e before (some x) h new seen =
    let same : e ≡ x = (let q : some e ≡ some x = seen x refl in cc q) in
    subst (IsRejected did) same (new refl)
written-StillRejected did false e before (some x) h new seen =
    subst (StillRejected did) (seen x refl) h

snapshot-IsRejected :
    (did : String) (session : Session) (id : String) (e : MonitorEntry)
    → IsRejected did e
    → IsRejected did (snapshot_capacity session id e)
unfolding IsRejected snapshot_capacity
snapshot-IsRejected did session id e h = capped (session.get_cohort id)
  where
    capped : (c : Option SessionCohort) → IsRejected did (with_capacity c e)
    capped none = h
    capped (some c) = h

module _ (now : ℕ) (session : Session) (id did : String) (m : CohortMonitor) (e : MonitorEntry)
    (there : get id m.entries ≡ some e) (gone : IsRejected did e) where
  -- The cohort's entry after a step.
  After : CohortMonitor → Type 0
  unfolding StillRejected
  After m' = StillRejected did (get id m'.entries)

  before-StillRejected : StillRejected did (get id m.entries)
  unfolding StillRejected
  before-StillRejected = rw there gone

  touched :
      (j : String) (f : MonitorEntry → MonitorEntry)
      → ((x : MonitorEntry) → IsRejected did x → IsRejected did (f x))
      → After (touch_entry now j f m)
  unfolding After touch_entry update_entry
  touched j f keep = elim (Option-cases (get j m.entries)) [
    | inl absent ↦ rw absent before-StillRejected
    | inr (x, present) ↦ rw present (
        written-StillRejected did (j == id) (f x) (get id m.entries)
          (get id (set j (f x) m.entries)) before-StillRejected
          (λ same.
            keep x (let at : j ≡ id = (eq_iff j id).0 same in let q : x ≡ e = cc in rw q gone))
          (λ y h. sym (get-set id j (f x) m.entries) ∙ h))
  ]

  entered :
      (j : String) (f : MonitorEntry → MonitorEntry)
      → Distinct m.entries
      → ((x : MonitorEntry) → IsRejected did x → IsRejected did (f x))
      → After (remember_entry j (snapshot_capacity session j (f (entry_for j m))) m)
  unfolding After remember_entry entry_for
  entered j f d keep =
      written-StillRejected did (j == id) _ (get id m.entries) _ before-StillRejected
        (λ same.
          snapshot-IsRejected did session j _
            (keep _ (let at : j ≡ id = (eq_iff j id).0 same in rw at (rw there gone))))
        (λ y h. get_of_remember max_monitored id j _ y m.entries d h)

  fold_entry-After :
      (j : String) (ev : MonitorEvent) (f : Option (MonitorEntry → MonitorEntry))
      → Distinct m.entries
      → Keeps now did f
      → After (fold_entry now session j ev f m)
  unfolding fold_entry Keeps After on_signing_complete on_cohort_failed on_beacon_broadcast_failed
      on_beacon_anchored end_cohort remember_ended append_activity IsRejected
  fold_entry-After j ev (some f) d keep = entered j f d keep
  fold_entry-After j (signing_complete path) none d keep = touched j _ (λ x h. h)
  fold_entry-After j (cohort_failed reason) none d keep = touched j _ (λ x h. h)
  fold_entry-After j (beacon_broadcast txid) none d keep = touched j _ (λ x h. h)
  fold_entry-After j (beacon_broadcast_failed reason) none d keep = touched j _ (λ x h. h)
  fold_entry-After j (beacon_anchored true) none d keep = touched j _ (λ x h. h)
  fold_entry-After j (beacon_anchored false) none d keep = before-StillRejected
  fold_entry-After j _ none d keep = before-StillRejected

-- A member that is rejected in a cohort's entry is rejected there after any event of any cohort, as
-- long as the entry is kept.
pub on_event-IsRejected :
    (now : ℕ) (session : Session) (j : String) (ev : MonitorEvent) (m : CohortMonitor)
    (id did : String) (e e' : MonitorEntry)
    → Distinct m.entries
    → get id m.entries ≡ some e
    → IsRejected did e
    → get id (on_event now session j ev m).entries ≡ some e'
    → IsRejected did e'
unfolding on_event After StillRejected
on_event-IsRejected now session j ev m id did e e' d there gone after =
    subst (StillRejected did) after (
      fold_entry-After now session id did m e there gone j ev (entry_fold now ev) d
        (entry_fold-IsRejected now did ev))
