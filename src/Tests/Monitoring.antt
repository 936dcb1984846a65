-- ===== src/Tests/Monitoring.antt =====
-- The properties of the monitor at concrete inputs.
use btcr2_aggregation.Prelude.{
  ◌≡◌, ◌≤◌, ◌==◌, if◌then◌else◌, refl, subst, Bool, true, false, List, [], ◌∷◌, none, some, String,
  arith,
}
use btcr2_aggregation.OrderedMap.{has, get}
use btcr2_aggregation.OrderedMap.Laws.{Distinct}
use btcr2_aggregation.Funding.{funded, waiting, is_funded}
use btcr2_aggregation.Wiring.{FundingView}
use btcr2_aggregation.Monitor.{
  CohortMonitor, MonitorEntry, MemberRecord, info, submitted_update, seated, rejected, Session,
  SessionCohort, live, fresh_monitor, fresh_entry,
}
use btcr2_aggregation.Monitor.Fold.{
  opt_in_received, update_received, fallback_started, on_event, is_rejected,
}
use btcr2_aggregation.Monitor.Notes.{
  Input, event, note, note_funding, note_canceled, fold_one, fold_all,
}
use btcr2_aggregation.Monitor.Bounds.{IsBounded, IsTable, IsRing, EndsAt, IsEntry}
use btcr2_aggregation.Monitor.Bounds.History.{fold_all-IsBounded}
use btcr2_aggregation.Monitor.Latches.{IsPaid, fold_one-IsPaid}
use btcr2_aggregation.Monitor.Latches.Rejected.{IsRejected, on_event-IsRejected}
use btcr2_aggregation.Monitor.Reads.{summary, count_if}
use btcr2_aggregation.Monitor.Counting.{times, summary-times}

abbrev cohort : SessionCohort
cohort = record {
  cohort_id = "c1";
  participants = 1;
  min_participants = 2;
  effective_fallback_threshold = 2;
  pending_updates = [];
}

abbrev session : Session
session = record {
  cohorts = cohort ∷ [];
  get_cohort = λ id. some cohort;
  get_cohort_phase = λ id. some "Advertised";
  took_script_path = λ id. false;
}

abbrev dismissed_text : String → String
dismissed_text id = "Dismissed the record."

abbrev joining : List Input
joining =
    event 1 session "c1" (opt_in_received "did:a" none none)
    ∷ event 2 session "c1" fallback_started
    ∷ note 3 session (note_canceled "c1")
    ∷ []

fold_all-IsBounded_example : IsBounded (fold_all dismissed_text live joining fresh_monitor)
fold_all-IsBounded_example = fold_all-IsBounded dismissed_text live joining

abbrev paid_view : FundingView
paid_view = record {
  state = funded;
  beacon_address = "bcrt1q";
  truncated_window_min = none;
  esplora_stale = false;
  terminal = none;
}

-- A cohort that is funded, and has a rejected member.
abbrev rejected_member : MemberRecord
rejected_member = record {
  status = seated;
  since = 1;
  round = rejected;
  submitted_at = none;
  participant_pk = none;
  communication_pk = none;
}

abbrev watched_entry : MonitorEntry
watched_entry = record fresh_entry { members = ("did:a", rejected_member) ∷ [] }

abbrev watched : CohortMonitor
watched = record fresh_monitor {
  entries = ("c1", watched_entry) ∷ [];
  funding_views = ("c1", paid_view) ∷ [];
}

watched_rings : (id : String) (e : MonitorEntry) → get id watched.entries ≡ some e → IsEntry e
unfolding get IsEntry IsRing EndsAt
watched_rings id e h = only_entry ("c1" == id) h
  where
    only_entry : (here : Bool) → (if here then some watched_entry else none) ≡ some e → IsEntry e
    only_entry true h = let same : watched_entry ≡ e = cc in subst IsEntry same (omega arith, tt)
    only_entry false h = cc

watched-IsBounded : IsBounded watched
unfolding IsBounded IsTable IsRing EndsAt has
watched-IsBounded = (
  ((refl, tt), omega arith),
  watched_rings,
  (tt, omega arith),
  ((refl, tt), omega arith),
  (omega arith, tt),
)

watched_paid : get "c1" watched.funding_views ≡ some paid_view
unfolding get
watched_paid = refl

watched_funded : is_funded paid_view.state ≡ true
unfolding is_funded
watched_funded = refl

fold_one-IsPaid_example : IsPaid (
    get "c1"
      (fold_one dismissed_text live
        (note 4 session (note_funding "c1" (record paid_view { state = waiting })))
        watched).funding_views)
fold_one-IsPaid_example =
    fold_one-IsPaid dismissed_text live "c1" paid_view
      (note 4 session (note_funding "c1" (record paid_view { state = waiting }))) watched
      watched-IsBounded watched_paid watched_funded

watched-Distinct : Distinct watched.entries
unfolding has
watched-Distinct = (refl, tt)

watched_there : get "c1" watched.entries ≡ some watched_entry
unfolding get
watched_there = refl

watched-IsRejected : IsRejected "did:a" watched_entry
unfolding IsRejected get is_rejected
watched-IsRejected = (rejected_member, refl, refl)

-- The entry after a submission of the rejected member.
abbrev submitted_entry : MonitorEntry
submitted_entry = record watched_entry {
  members = ("did:a", record rejected_member { submitted_at = some 9 }) ∷ [];
  capacity = 2;
  activity = record { id = 0; t = 9; level = info; text = submitted_update "did:a" } ∷ [];
  activity_seq = 1;
}

submitted_after :
    get "c1" (on_event 9 session "c1" (update_received "did:a") watched).entries
    ≡ some submitted_entry
unfolding get on_event
submitted_after = refl

on_event-IsRejected_example : IsRejected "did:a" submitted_entry
on_event-IsRejected_example =
    on_event-IsRejected 9 session "c1" (update_received "did:a") watched "c1" "did:a" watched_entry
      submitted_entry watched-Distinct watched_there watched-IsRejected submitted_after

ended-Distinct : Distinct watched.ended
ended-Distinct = tt

one_cohort : count_if (λ (c : SessionCohort). c.cohort_id == "c1") session.cohorts ≤ 1
unfolding count_if
one_cohort = omega arith

summary-times_example :
    (times "c1" (summary session watched) ≤ 1)
    × (has "c1" watched.ended ≡ true → times "c1" (summary session watched) ≡ 1)
summary-times_example = summary-times session watched "c1" ended-Distinct one_cohort
