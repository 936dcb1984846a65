-- ===== src/Monitor/Latches.antt =====
-- packages/service/src/monitor.ts: what an event or a note cannot take back.
pub mod Rejected
use btcr2_aggregation.Prelude.{
  ◌≡◌, ◌==◌, ◌&&◌, ◌||◌, not, Bool, true, false, Option, none, some, String, ℕ, if◌then◌else◌, refl,
  sym, ◌∙◌, subst, ap, inl, inr, Bool-cases, Option-cases, arith, eq_iff,
}
use btcr2_aggregation.OrderedMap.{OrderedMap, get, has, delete, set, remember}
use btcr2_aggregation.OrderedMap.Laws.{Distinct, get-delete}
use btcr2_aggregation.OrderedMap.Eviction.{get_of_remember}
use btcr2_aggregation.OrderedMap.Bounds.{get-remember_self}
use btcr2_aggregation.Phases.{phase_in, open_phases, in_flight_phases}
use btcr2_aggregation.Funding.{is_funded}
use btcr2_aggregation.Wiring.{FundingView}
use btcr2_aggregation.Anchors.{AnchorRead}
use btcr2_aggregation.Monitor.{
  MonitorEntry, ServiceMode, CohortMonitor, Session, SessionCohort, canceled, entry_for,
  remember_entry, remember_ended, remember_funding, record_operator_action, record_service_action,
  last_says, max_terminal,
}
use btcr2_aggregation.Monitor.Fold.{
  MonitorEvent, signing_complete, cohort_failed, beacon_broadcast, beacon_broadcast_failed,
  beacon_anchored, entry_fold, update_entry, touch_entry, end_cohort, on_signing_complete,
  on_cohort_failed, on_beacon_broadcast_failed, on_beacon_anchored, fold_entry, on_event,
}
use btcr2_aggregation.Monitor.Notes.{
  Note, Input, event, note, note_funding, note_canceled, dismiss_ended, note_operator_action,
  note_esplora_observation, keeps_funded, is_live, on_note_funding, is_canceled, ended_canceled,
  on_note_canceled, on_dismiss_ended, on_note_operator_action, on_note, fold_one,
}
use btcr2_aggregation.Monitor.Bounds.{IsBounded, IsTable}
use btcr2_aggregation.Monitor.Reads.{public_funding, awaits}
use btcr2_aggregation.Monitor.Detail.{
  build_detail, detail_of, present_detail, absent_detail, CohortDetail,
}

-- The last funding view of a cohort is absent, or says that it is funded.
unfoldable pub IsPaid : Option FundingView → Type 0
IsPaid none = Unit
IsPaid (some view) = is_funded view.state ≡ true

module _ (now : ℕ) (session : Session) where
  touch_entry-funding :
      (id : String) (f : MonitorEntry → MonitorEntry) (m : CohortMonitor)
      → (touch_entry now id f m).funding_views ≡ m.funding_views
  unfolding touch_entry
  touch_entry-funding id f m = updated (get id m.entries)
    where
      updated :
          (o : Option MonitorEntry) → (update_entry now id f o m).funding_views ≡ m.funding_views
      updated none = refl
      updated (some e) = refl

  fold_entry-funding :
      (id : String) (ev : MonitorEvent) (f : Option (MonitorEntry → MonitorEntry))
      (m : CohortMonitor)
      → (fold_entry now session id ev f m).funding_views ≡ m.funding_views
  unfolding fold_entry remember_entry on_signing_complete on_cohort_failed
      on_beacon_broadcast_failed end_cohort remember_ended on_beacon_anchored
  fold_entry-funding id ev (some f) m = refl
  fold_entry-funding id (signing_complete path) none m = touch_entry-funding id _ m
  fold_entry-funding id (cohort_failed reason) none m = touch_entry-funding id _ m
  fold_entry-funding id (beacon_broadcast txid) none m = touch_entry-funding id _ m
  fold_entry-funding id (beacon_broadcast_failed reason) none m = touch_entry-funding id _ m
  fold_entry-funding id (beacon_anchored true) none m = touch_entry-funding id _ m
  fold_entry-funding id (beacon_anchored false) none m = refl
  fold_entry-funding id _ none m = refl

  operator-funding :
      (id text : String) (m : CohortMonitor)
      → (record_operator_action now id text m).funding_views ≡ m.funding_views
  unfolding record_operator_action remember_entry
  operator-funding id text m = elim (Bool-cases (last_says text (entry_for id m).activity)) [
    | inl said ↦ rw said refl
    | inr fresh ↦ rw fresh refl
  ]

  service-funding :
      (text : String) (m : CohortMonitor)
      → (record_service_action now text m).funding_views ≡ m.funding_views
  unfolding record_service_action
  service-funding text m = elim (Bool-cases (last_says text m.operator_actions)) [
    | inl said ↦ rw said refl
    | inr fresh ↦ rw fresh refl
  ]

  canceled-funding :
      (id : String) (m : CohortMonitor)
      → (on_note_canceled now session id m).funding_views ≡ m.funding_views
  unfolding on_note_canceled remember_ended remember_entry
  canceled-funding id m = elim (Bool-cases (ended_canceled (get id m.ended))) [
    | inl already ↦ rw already refl
    | inr first ↦ rw first (operator-funding id "Operator canceled this cohort." m)
  ]

IsPaid-written :
    (here : Bool) (view : FundingView) (before after : Option FundingView)
    → IsPaid before
    → (here ≡ true → is_funded view.state ≡ true)
    → ((w : FundingView) → after ≡ some w → (if here then some view else before) ≡ some w)
    → IsPaid after
unfolding IsPaid
IsPaid-written here view before none paid new seen = tt
IsPaid-written true view before (some w) paid new seen =
    let same : view ≡ w = (let e : some view ≡ some w = seen w refl in cc e) in
    subst (λ x. is_funded x.state ≡ true) same (new refl)
IsPaid-written false view before (some w) paid new seen = subst IsPaid (seen w refl) paid

remember-IsPaid :
    (j id : String) (w : FundingView) (views : OrderedMap FundingView)
    → Distinct views
    → IsPaid (get id views)
    → ((j == id) ≡ true → is_funded w.state ≡ true)
    → IsPaid (get id (remember max_terminal j w views))
remember-IsPaid j id w views d paid new =
    IsPaid-written (j == id) w (get id views) (get id (remember max_terminal j w views)) paid new
      (λ x h. get_of_remember max_terminal id j w x views d h)

-- What lets a view through.
moved-funded :
    (before : Option FundingView) (v w : FundingView)
    → before ≡ some v
    → is_funded v.state ≡ true
    → keeps_funded before w ≡ false
    → is_funded w.state ≡ true
unfolding keeps_funded
moved-funded none v w e paid h = cc
moved-funded (some u) v w e paid h =
    let same : u ≡ v = cc in
    let funded_before : is_funded u.state ≡ true = rw same paid in ground (arith, funded_before, h)

module _ (dismissed_record_text : String → String) (mode : ServiceMode) (id : String)
    (v : FundingView) where
  noted-IsPaid :
      (now : ℕ) (j : String) (w : FundingView) (m : CohortMonitor)
      → IsBounded m
      → get id m.funding_views ≡ some v
      → is_funded v.state ≡ true
      → IsPaid (get id (on_note_funding now mode j w m).funding_views)
  unfolding on_note_funding remember_funding IsBounded IsTable IsPaid
  noted-IsPaid now j w m (table, rings, ended, views, actions) there paid =
      elim (Bool-cases (is_live mode)) [
        | inr off ↦ rw off (rw there paid)
        | inl on ↦ elim (Bool-cases (keeps_funded (get j m.funding_views) w)) [
          | inl kept ↦ rw on (rw kept (rw there paid))
          | inr moved ↦ rw on (
              rw moved (
                remember-IsPaid j id w m.funding_views (views.0) (rw there paid) (λ same.
                  moved-funded (get j m.funding_views) v w
                    (let e : j ≡ id = (eq_iff j id).0 same in rw e there) paid moved)))
        ]
      ]

  dismissed-IsPaid :
      (now : ℕ) (session : Session) (text j : String) (m : CohortMonitor)
      → IsBounded m
      → get id m.funding_views ≡ some v
      → is_funded v.state ≡ true
      → IsPaid (get id (on_dismiss_ended now session text j m).0.funding_views)
  unfolding on_dismiss_ended IsBounded IsTable IsPaid
  dismissed-IsPaid now session text j m (table, rings, ended, views, actions) there paid =
      elim (Bool-cases (has j m.ended)) [
        | inr unknown ↦ rw unknown (rw there paid)
        | inl known ↦
            elim (Bool-cases (
              phase_in open_phases (session.get_cohort_phase j)
              || phase_in in_flight_phases (session.get_cohort_phase j))) [
                | inl running ↦ rw known (rw running (rw there paid))
                | inr over ↦ rw known (
                    rw over (
                      rw
                        (service-funding now session text (record m {
                          ended = delete j m.ended;
                          entries = delete j m.entries;
                          funding_views = delete j m.funding_views;
                        }))
                        (rw (get-delete id j m.funding_views (views.0))
                          (rw there (undeleted (j == id))))))
              ]
      ]
    where
      undeleted : (here : Bool) → IsPaid (if here then none else some v)
      undeleted true = tt
      undeleted false = paid

  -- No event and no note takes a cohort back from funded: in a monitor within its bounds its funding
  -- view is afterwards funded still, or forgotten.
  pub fold_one-IsPaid :
      (i : Input) (m : CohortMonitor)
      → IsBounded m
      → get id m.funding_views ≡ some v
      → is_funded v.state ≡ true
      → IsPaid (get id (fold_one dismissed_record_text mode i m).funding_views)
  unfolding fold_one on_event on_note on_note_operator_action IsPaid
  fold_one-IsPaid (event now session j ev) m h there paid =
      rw (fold_entry-funding now session j ev (entry_fold now ev) m) (rw there paid)
  fold_one-IsPaid (note now session (note_funding j w)) m h there paid =
      noted-IsPaid now j w m h there paid
  fold_one-IsPaid (note now session (note_canceled j)) m h there paid =
      rw (canceled-funding now session j m) (rw there paid)
  fold_one-IsPaid (note now session (dismiss_ended j)) m h there paid =
      dismissed-IsPaid now session (dismissed_record_text j) j m h there paid
  fold_one-IsPaid (note now session (note_operator_action none text)) m h there paid =
      rw (service-funding now session text m) (rw there paid)
  fold_one-IsPaid (note now session (note_operator_action (some j) text)) m h there paid =
      rw (operator-funding now session j text m) (rw there paid)
  fold_one-IsPaid (note now session (note_esplora_observation ok)) m h there paid = rw there paid
