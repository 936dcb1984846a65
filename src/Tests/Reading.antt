-- ===== src/Tests/Reading.antt =====
-- packages/service/src/operator-cohorts.ts and packages/web/src/lib/lifecycle.ts: drafts, the pause,
-- the advert slot, the public reads and the console's controls, run.
use btcr2_aggregation.Prelude.{
  ◌≡◌, refl, ◌↔◌, true, false, [], ◌∷◌, none, some, String, All, length, keep_if, ◌||◌, is_some,
}
use btcr2_aggregation.OrderedMap.{get, has, delete}
use btcr2_aggregation.Phases.{contains, open_phases, finalizable_phases}
use btcr2_aggregation.Cohorts.Config.{ok, build_cohort_config}
use btcr2_aggregation.Cohorts.Draft.{Wire, CohortTtl, validate_draft}
use btcr2_aggregation.Cohorts.State.{State, DraftEntry, is_paused}
use btcr2_aggregation.Cohorts.Drafts.{draft_entry, draft_dto, create_draft, update_draft, supplied}
use btcr2_aggregation.Cohorts.Drafts.Parity.{as_update, update_draft-eq-create_draft}
use btcr2_aggregation.Cohorts.Lifecycle.{
  advertise_draft, readvertise_expired, finalize_cohort, settle_completed, settle_rejected, paused,
  FinalizeResult,
}
use btcr2_aggregation.Cohorts.Reads.{status, directory}
use btcr2_aggregation.Cohorts.Reads.Directory.{
  Listed, directory-Listed, is_joinable_live, open_count_lem,
}
use btcr2_aggregation.Cohorts.Step.{Event, step}
use btcr2_aggregation.Cohorts.Drain.{AdvertisesNoMore, paused_drains}
use btcr2_aggregation.Cohorts.Slot.{SlotAfter, settles-SlotAfter}
use btcr2_aggregation.Cohorts.Finalize.{Finalized, finalize_cohort_lem}
use btcr2_aggregation.Console.{
  CohortDetail, AnchorName, FinalizeAvailability, finalize_availability, went_out,
}
use btcr2_aggregation.Console.Agreement.{finalize_availability-eq-available_iff}
use btcr2_aggregation.Tests.Data.{
  Session, runner, opts, curve, body, parsed_draft, config, windows, live, live-IsValid,
}

is_paused_now : is_paused (live "Advertised" true).settings ≡ true
unfolding is_paused
is_paused_now = refl

paused_drains_example :
    ((id : String)
      → advertise_draft runner opts id (live "Advertised" true) ≡ (live "Advertised" true, paused))
    × ((id : String)
        → readvertise_expired runner opts id (live "Advertised" true)
          ≡ (live "Advertised" true, paused))
    × ((e : Event Session)
        → AdvertisesNoMore
            (live "Advertised" true)
            (step curve opts runner e (live "Advertised" true)))
    × ((status runner opts (live "Advertised" true)).paused ≡ true)
paused_drains_example =
    paused_drains curve opts runner (live "Advertised" true) (live-IsValid "Advertised" true)
      is_paused_now

settles-SlotAfter_example :
    SlotAfter runner opts "c1"
      (delete "c1" (live "Advertised" false).advertised)
      (live "Advertised" false)
      (settle_completed runner opts "c1" (live "Advertised" false))
    × ((message : String)
        → SlotAfter runner opts "c1"
            (delete "c1" (live "Advertised" false).advertised)
            (live "Advertised" false)
            (settle_rejected runner opts "c1" message (live "Advertised" false)))
settles-SlotAfter_example = settles-SlotAfter runner opts "c1" (live "Advertised" false)

live_advertised : has "c1" (live "Advertised" false).advertised ≡ true
unfolding has
live_advertised = refl

stopped_unknown :
    runner.cohort_phase (runner.stop_cohort "c1" (live "Advertised" false).session) "c1" ≡ none
unfolding get delete
stopped_unknown = refl

directory-Listed_example :
    All
      (Listed runner opts
        (live "Advertised" false)
        (runner.cohorts (live "Advertised" false).session))
      (directory runner opts (live "Advertised" false))
directory-Listed_example = directory-Listed runner opts (live "Advertised" false)

open_count_lem_example :
    (status runner opts (live "Advertised" false)).open_cohorts
    ≡ length (
        keep_if
          (is_joinable_live runner opts (live "Advertised" false))
          (runner.cohorts (live "Advertised" false).session))
open_count_lem_example = open_count_lem runner opts (live "Advertised" false)

finalize_cohort_lem_example :
    Finalized runner opts "c1"
      (live "SigningStarted" false)
      (finalize_cohort runner opts "c1" (live "SigningStarted" false))
finalize_cohort_lem_example = finalize_cohort_lem runner opts "c1" (live "SigningStarted" false)

-- A draft to edit.
abbrev entry : DraftEntry
entry = record {
  config = config;
  dto = draft_dto "d1" opts.active_network parsed_draft windows;
  windows = windows;
}

abbrev editing : State Session
editing = record (live "Advertised" false) { drafts = ("d1", entry) ∷ [] }

editable : has "d1" editing.drafts ≡ true
unfolding has
editable = refl

sized : supplied body.size ≡ true
unfolding supplied
sized = refl

update_draft-eq-create_draft_example :
    update_draft curve opts "d1" body editing
    ≡ as_update (create_draft curve opts "d1" body editing)
update_draft-eq-create_draft_example =
    update_draft-eq-create_draft curve opts "d1" body "CASBeacon" editing editable refl sized

body_accepted : validate_draft body opts.auto_fallback_on_stall opts.cohort_ttl ≡ ok parsed_draft
unfolding validate_draft
body_accepted = refl

body_stored : draft_entry curve opts none "d1" parsed_draft ≡ ok entry
unfolding draft_entry build_cohort_config
body_stored = refl

abbrev signing : CohortDetail
signing = record {
  exists = true;
  phase = "SigningStarted";
  seats_joined = 3;
  capacity = 3;
  anchor = record { state = AnchorName.no_anchor; txid = none };
  fallback_used = false;
  funding = none;
}

signing_offered : finalize_availability (some signing) ≡ FinalizeAvailability.available
unfolding finalize_availability
signing_offered = refl

signing_unsent : is_some signing.anchor.txid || went_out signing.anchor.state ≡ false
unfolding went_out
signing_unsent = refl

signing_phase : runner.cohort_phase (live "SigningStarted" false).session "c1" ≡ some signing.phase
unfolding get
signing_phase = refl

signing_advertised : has "c1" (live "SigningStarted" false).advertised ≡ true
unfolding has
signing_advertised = refl

finalize_availability-eq-available_iff_example :
    (finalize_availability (some signing) ≡ FinalizeAvailability.available)
    ↔ ((finalize_cohort runner opts "c1" (live "SigningStarted" false)).1 ≡ FinalizeResult.ok)
finalize_availability-eq-available_iff_example =
    finalize_availability-eq-available_iff runner opts "c1" (live "SigningStarted" false) signing
      refl refl signing_phase signing_advertised refl

is_open_phase : contains open_phases "CohortSet" ≡ true
unfolding contains
is_open_phase = refl

is_signing_phase : contains finalizable_phases "SigningStarted" ≡ true
unfolding contains
is_signing_phase = refl

-- A window of a minute and a half passes the draft's validator.
minute_and_a_half :
    validate_draft
      (record body { discovery_window_ms = Wire.int 90000 })
      true
      (CohortTtl.finite 600000)
    ≡ ok (record parsed_draft {
      windows = record { discovery_window_ms = some 90000; funding_window_ms = none };
    })
unfolding validate_draft
minute_and_a_half = refl
