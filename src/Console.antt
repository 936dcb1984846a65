-- ===== src/Console.antt =====
-- packages/web/src/lib/lifecycle.ts: which lifecycle controls the operator console shows for the
-- cohort detail that it polled.
pub mod Agreement
use btcr2_aggregation.Prelude.{
  ◌==◌, ◌&&◌, ◌||◌, not, Bool, true, false, Option, none, some, String, ℕ, if◌then◌else◌, ltb, leb,
  is_some,
}
use btcr2_aggregation.Phases.{contains, open_phases, in_flight_phases, finalizable_phases}

pub data AnchorName : Type 0 where
  no_anchor broadcast confirmed failed : AnchorName

pub record Anchor : Type 0 where
  pub state : AnchorName
  pub txid : Option String

pub data FundingName : Type 0 where
  waiting awaiting_confirmation funded dead_end : FundingName

-- The fields of `CohortDetailDTO` that the predicates read.
pub record CohortDetail : Type 0 where
  pub exists : Bool
  pub phase : String
  pub seats_joined : ℕ
  pub capacity : ℕ
  pub anchor : Anchor
  pub fallback_used : Bool
  pub funding : Option FundingName

pub data CancelAvailability : Type 0 where
  unavailable available on_network : CancelAvailability

pub data FinalizeAvailability : Type 0 where
  unavailable not_signing available committed : FinalizeAvailability

pub data Rung : Type 0 where
  confirm type_to_confirm : Rung

-- `anchor.state === 'broadcast' || anchor.state === 'confirmed'`.
unfoldable pub went_out : AnchorName → Bool
went_out broadcast = true
went_out confirmed = true
went_out _ = false

abbrev pub cancel_of : CohortDetail → CancelAvailability
unfolding went_out contains
cancel_of d =
    if not d.exists
    then CancelAvailability.unavailable
    else (if is_some d.anchor.txid || went_out d.anchor.state
        then on_network
        else (if contains open_phases d.phase || contains in_flight_phases d.phase
            then CancelAvailability.available
            else CancelAvailability.unavailable))

-- `cancelAvailability`, on a detail or on none.
unfoldable pub cancel_availability : Option CohortDetail → CancelAvailability
unfolding went_out contains
cancel_availability none = CancelAvailability.unavailable
cancel_availability (some d) = cancel_of d

unfoldable pub cancel_rung : CohortDetail → Rung
cancel_rung d = elim d.funding [
  | some awaiting_confirmation ↦ type_to_confirm
  | some funded ↦ type_to_confirm
  | some dead_end ↦ type_to_confirm
  | _ ↦ confirm
]

unfoldable pub finalize_availability : Option CohortDetail → FinalizeAvailability
unfolding contains
finalize_availability none = FinalizeAvailability.unavailable
finalize_availability (some d) =
    if not d.exists
    then FinalizeAvailability.unavailable
    else (if d.fallback_used
        then committed
        else (if contains finalizable_phases d.phase
            then FinalizeAvailability.available
            else not_signing))

unfoldable pub closed_at_nth_seat : Option CohortDetail → Bool
closed_at_nth_seat none = false
closed_at_nth_seat (some d) =
    if not d.exists then false else ltb 0 d.capacity && leb d.capacity d.seats_joined

unfoldable pub seat_reclaim_note_visible : Option CohortDetail → Bool
unfolding contains closed_at_nth_seat
seat_reclaim_note_visible none = false
seat_reclaim_note_visible (some d) =
    if not d.exists
    then false
    else contains open_phases d.phase && not (closed_at_nth_seat (some d))
