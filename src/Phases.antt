-- ===== src/Phases.antt =====
-- packages/shared/src/phases.ts: the lifecycle phase sets. A phase is the plain string that the
-- aggregation runner reports.
pub mod Sets
use btcr2_aggregation.Prelude.{
  ◌==◌, ◌++◌, Bool, true, false, List, [], ◌∷◌, Option, none, some, String, ◌||◌, any,
}

-- `Set.prototype.has`.
unfoldable pub contains : List String → String → Bool
contains set phase = any (λ p. p == phase) set

abbrev pub open_phases : List String
open_phases = "Advertised" ∷ "CohortSet" ∷ "CollectingUpdates" ∷ []

abbrev pub in_flight_phases : List String
in_flight_phases =
    "SigningStarted" ∷ "NoncesCollected" ∷ "AwaitingPartialSigs" ∷ "UpdatesCollected"
    ∷ "DataDistributed" ∷ "Validated" ∷ "FallbackRequested" ∷ []

abbrev pub finalizable_phases : List String
finalizable_phases = "SigningStarted" ∷ "NoncesCollected" ∷ "AwaitingPartialSigs" ∷ []

abbrev pub display_phases : List String
display_phases = open_phases ++ in_flight_phases

-- `phase && SET.has(phase)`: the empty string is in none of the sets.
unfoldable pub phase_in : List String → Option String → Bool
unfolding contains
phase_in set none = false
phase_in set (some phase) = contains set phase
