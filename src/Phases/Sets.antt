-- ===== src/Phases/Sets.antt =====
-- How the four phase sets stand to one another.
use btcr2_aggregation.Prelude.{
  ◌==◌, ◌++◌, ◌≡◌, ◌||◌, refl, subst, true, false, List, [], ◌∷◌, String, arith, eq_iff, Bool-cases,
  inl, inr,
}
use btcr2_aggregation.Phases.{
  contains, open_phases, in_flight_phases, finalizable_phases, display_phases,
}

contains-append :
    (xs ys : List String) (p : String) → contains (xs ++ ys) p ≡ contains xs p || contains ys p
unfolding contains
contains-append [] ys p = refl
contains-append (x ∷ xs) ys p = ground (arith, contains-append xs ys p)

-- A phase is displayed exactly when it is open or in flight.
pub display-eq-or :
    (p : String) → contains display_phases p ≡ contains open_phases p || contains in_flight_phases p
display-eq-or p = contains-append open_phases in_flight_phases p

open_cases :
    (P : String → Type 0) (p : String)
    → P "Advertised"
    → P "CohortSet"
    → P "CollectingUpdates"
    → contains open_phases p ≡ true
    → P p
unfolding contains
open_cases P p a b c h = elim (Bool-cases ("Advertised" == p)) [
  | inl e ↦ subst P ((eq_iff _ p).0 e) a
  | inr na ↦ elim (Bool-cases ("CohortSet" == p)) [
    | inl e ↦ subst P ((eq_iff _ p).0 e) b
    | inr nb ↦ subst P ((eq_iff "CollectingUpdates" p).0 (ground arith)) c
  ]
]

finalizable_cases :
    (P : String → Type 0) (p : String)
    → P "SigningStarted"
    → P "NoncesCollected"
    → P "AwaitingPartialSigs"
    → contains finalizable_phases p ≡ true
    → P p
unfolding contains
finalizable_cases P p a b c h = elim (Bool-cases ("SigningStarted" == p)) [
  | inl e ↦ subst P ((eq_iff _ p).0 e) a
  | inr na ↦ elim (Bool-cases ("NoncesCollected" == p)) [
    | inl e ↦ subst P ((eq_iff _ p).0 e) b
    | inr nb ↦ subst P ((eq_iff "AwaitingPartialSigs" p).0 (ground arith)) c
  ]
]

-- No open phase is in flight, so a wider display never widens what is joinable.
pub open-not-in_flight :
    (p : String) → contains open_phases p ≡ true → contains in_flight_phases p ≡ false
unfolding contains
open-not-in_flight p = open_cases (λ q. contains in_flight_phases q ≡ false) p refl refl refl

-- A finalizable phase is in flight, and so is not open.
pub finalizable-in_flight :
    (p : String)
    → contains finalizable_phases p ≡ true
    → (contains in_flight_phases p ≡ true) × (contains open_phases p ≡ false)
unfolding contains
finalizable-in_flight p =
    finalizable_cases (λ q. (contains in_flight_phases q ≡ true) × (contains open_phases q ≡ false))
      p (refl, refl) (refl, refl) (refl, refl)
