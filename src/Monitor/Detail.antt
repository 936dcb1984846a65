-- ===== src/Monitor/Detail.antt =====
-- packages/service/src/monitor.ts: the detail of one cohort, `buildDetail`. The raw bodies of the
-- submissions are left out, and the anchor read is that of Anchors.antt.
use btcr2_aggregation.Prelude.{
  ◌&&◌, ◌||◌, not, Bool, true, false, List, [], Option, none, some, String, ℕ, if◌then◌else◌, ltb,
  leb, length, or_else, keep_if, map,
}
use btcr2_aggregation.OrderedMap.{get}
use btcr2_aggregation.Phases.{contains}
use btcr2_aggregation.Anchors.{AnchorRead}
use btcr2_aggregation.Wiring.{FundingView}
use btcr2_aggregation.Monitor.{
  MemberRound, submitted, validated, nonce_sent, ActivityEntry, MemberRecord, MonitorEntry,
  ServiceMode, CohortMonitor, SessionCohort, Session, fresh_entry, is_seated, seated_count,
}
use btcr2_aggregation.Monitor.Notes.{is_live, ended_canceled}

pub record CohortMember : Type 0 where
  pub did : String
  pub member : MemberRecord
  pub test_peer : Bool

pub record Submission : Type 0 where
  pub did : String
  pub is_submitted : Bool
  pub submitted_at : Option ℕ

pub record CohortDetail : Type 0 where
  pub exists : Bool
  pub members : List CohortMember
  pub seats_joined : ℕ
  pub capacity : ℕ
  pub phase : String
  pub submissions : List Submission
  pub nonces_received : ℕ
  pub awaiting_partial_sigs : Bool
  pub anchor : AnchorRead
  pub used_fallback : Bool
  pub fallback_k : Option ℕ
  pub fallback_n : Option ℕ
  pub activity : List ActivityEntry
  pub funding : Option FundingView
  pub fate_canceled : Bool

unfoldable pub absent_detail : AnchorRead → CohortDetail
absent_detail anchor = record {
  exists = false;
  members = [];
  seats_joined = 0;
  capacity = 0;
  phase = "unknown";
  submissions = [];
  nonces_received = 0;
  awaiting_partial_sigs = false;
  anchor = anchor;
  used_fallback = false;
  fallback_k = none;
  fallback_n = none;
  activity = [];
  funding = none;
  fate_canceled = false;
}

unfoldable pub past_submission : MemberRound → Bool
past_submission submitted = true
past_submission validated = true
past_submission nonce_sent = true
past_submission _ = false

abbrev pub positive : ℕ → Option ℕ
positive n = if ltb 0 n then some n else none

abbrev pub pending_of : Option SessionCohort → List String
pending_of none = []
pending_of (some c) = c.pending_updates

unfoldable pub submission : List String → String × MemberRecord → Submission
unfolding past_submission contains
submission pending (did, r) = record {
  did = did;
  is_submitted = past_submission r.round || contains pending did;
  submitted_at = r.submitted_at;
}

unfoldable pub submissions_of : List String → MonitorEntry → List Submission
unfolding submission is_seated
submissions_of pending e = map (submission pending) (keep_if (λ m. is_seated m.1) e.members)

abbrev pub seats_and_capacity : Option SessionCohort → MonitorEntry → ℕ × ℕ
unfolding seated_count
seats_and_capacity (some c) e = (c.participants, c.min_participants)
seats_and_capacity none e = (seated_count e, e.capacity)

abbrev pub phase_of : Session → String → Option SessionCohort → String
phase_of session id none = "unknown"
phase_of session id (some c) = or_else (session.get_cohort_phase id) "unknown"

abbrev pub threshold_of : Option SessionCohort → Option ℕ
threshold_of none = none
threshold_of (some c) = positive c.effective_fallback_threshold

module _ (mode : ServiceMode) (test_peers : List String) (session : Session)
    (anchor : AnchorRead) where
  -- The detail over an entry, an absent one being fresh.
  unfoldable pub present_detail :
      String → Option SessionCohort → MonitorEntry → CohortMonitor → CohortDetail
  unfolding get contains seated_count submissions_of is_live ended_canceled
  present_detail id cohort e m =
      let seats = seats_and_capacity cohort e in
      let nonces = length e.nonces_sent in
      record {
        exists = true;
        members =
            map
              (λ member. record {
                did = member.0;
                member = member.1;
                test_peer = contains test_peers member.0;
              })
              e.members;
        seats_joined = seats.0;
        capacity = seats.1;
        phase = phase_of session id cohort;
        submissions = submissions_of (pending_of cohort) e;
        nonces_received = nonces;
        awaiting_partial_sigs = ltb 0 seats.1 && leb seats.1 nonces && not e.signing_complete;
        anchor = anchor;
        used_fallback = session.took_script_path id || e.fell_back;
        fallback_k = threshold_of cohort;
        fallback_n = positive seats.1;
        activity = e.activity;
        funding = if is_live mode then get id m.funding_views else none;
        fate_canceled = ended_canceled (get id m.ended);
      }

  abbrev pub detail_of :
      String → Option SessionCohort → Option MonitorEntry → CohortMonitor → CohortDetail
  unfolding present_detail absent_detail
  detail_of id none none m = absent_detail anchor
  detail_of id (some c) none m = present_detail id (some c) fresh_entry m
  detail_of id cohort (some e) m = present_detail id cohort e m

  -- `buildDetail`.
  unfoldable pub build_detail : String → CohortMonitor → CohortDetail
  unfolding get present_detail absent_detail
  build_detail id m = detail_of id (session.get_cohort id) (get id m.entries) m
