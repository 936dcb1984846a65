-- ===== src/Monitor/Counting.antt =====
-- packages/service/src/monitor.ts: `summary` and `serviceMetrics` count the same cohorts.
use btcr2_aggregation.Prelude.{
  ◌+◌, ◌≤◌, ◌≡◌, ◌==◌, ◌&&◌, ◌++◌, not, Bool, true, false, List, [], ◌∷◌, Option, none, some,
  String, ℕ, if◌then◌else◌, length, length-append, refl, inl, inr, Bool-cases, arith, eq_iff,
}
use btcr2_aggregation.OrderedMap.{OrderedMap, get, has}
use btcr2_aggregation.OrderedMap.Laws.{Distinct}
use btcr2_aggregation.Phases.{contains, phase_in, open_phases, in_flight_phases}
use btcr2_aggregation.Wiring.{FundingView}
use btcr2_aggregation.Monitor.{CohortChip, EndedRecord, CohortMonitor, SessionCohort, Session}
use btcr2_aggregation.Monitor.Reads.{
  CohortSummary, phase_chip, live_row, live_rows, ended_rows, row_ids, summary, count_if,
  service_metrics,
}

-- How often an id stands in a list of rows.
unfoldable pub times : String → List CohortSummary → ℕ
unfolding count_if
times id rows = count_if (λ row. row.cohort_id == id) rows

count_if-append :
    {A : Type 0} (p : A → Bool) (xs ys : List A)
    → count_if p (xs ++ ys) ≡ count_if p xs + count_if p ys
unfolding count_if
count_if-append p [] ys = omega arith
count_if-append p (x ∷ xs) ys = ground (arith, count_if-append p xs ys)

times-append :
    (id : String) (xs ys : List CohortSummary) → times id (xs ++ ys) ≡ times id xs + times id ys
unfolding times
times-append id xs ys = count_if-append (λ row. row.cohort_id == id) xs ys

-- An id that a list has stands there at least once, and one that it has not, never.
contains-times :
    (rows : List CohortSummary) (id : String)
    → (contains (row_ids rows) id ≡ true → 1 ≤ times id rows)
      × (contains (row_ids rows) id ≡ false → times id rows ≡ 0)
unfolding contains row_ids times count_if
contains-times [] id = (λ h. cc, λ h. refl)
contains-times (row ∷ rows) id = elim (Bool-cases (row.cohort_id == id)) [
  | inl here ↦ rw here (λ h. omega arith, λ h. cc)
  | inr other ↦ rw other (contains-times rows id)
]

one_row-times :
    (id : String) (c : SessionCohort) (view : Option FundingView) (phase : Option String)
    (chip : Option CohortChip)
    → times id (live_row c view phase chip) ≤ count_if (λ x. x.cohort_id == id) (c ∷ [])
unfolding times count_if live_row
one_row-times id c view phase none = ground arith
one_row-times id c view none (some chip) = ground arith
one_row-times id c view (some phase) (some chip) = ground arith

live_rows-times :
    (session : Session) (m : CohortMonitor) (id : String) (cs : List SessionCohort)
    → times id (live_rows session m cs) ≤ count_if (λ c. c.cohort_id == id) cs
unfolding live_rows times
live_rows-times session m id [] = ground arith
live_rows-times session m id (c ∷ cs) =
    let phase = session.get_cohort_phase c.cohort_id in
    let row = live_row c (get c.cohort_id m.funding_views) phase (phase_chip phase) in
    ground (
      arith,
      count_if-append (λ r. r.cohort_id == id) row (live_rows session m cs),
      count_if-append (λ x. x.cohort_id == id) (c ∷ []) cs,
      one_row-times id c (get c.cohort_id m.funding_views) phase (phase_chip phase),
      live_rows-times session m id cs,
    )

ended_rows-times :
    (live : List String) (id : String) (ended : OrderedMap EndedRecord)
    → Distinct ended
    → times id (ended_rows live ended)
      ≡ (if contains live id then 0 else if has id ended then 1 else 0)
unfolding ended_rows times count_if has
ended_rows-times live id [] d = ground arith
ended_rows-times live id ((j, r) ∷ ended) d =
    ground (arith, ended_rows-times live id ended (d.1), eq_iff j id, d.0)

-- With a session that has each cohort once, the summary has no cohort twice, and every ended record
-- has its row or that of the live cohort with its id.
pub summary-times :
    (session : Session) (m : CohortMonitor) (id : String)
    → Distinct m.ended
    → count_if (λ c. c.cohort_id == id) session.cohorts ≤ 1
    → (times id (summary session m) ≤ 1)
      × (has id m.ended ≡ true → times id (summary session m) ≡ 1)
unfolding summary
summary-times session m id d once =
    let rows = live_rows session m session.cohorts in
    ground (
      arith,
      total rows,
      live_rows-times session m id session.cohorts,
      ended_rows-times (row_ids rows) id m.ended d,
      (contains-times rows id).0,
      (contains-times rows id).1,
    )
  where
    total :
        (rows : List CohortSummary)
        → times id (rows ++ ended_rows (row_ids rows) m.ended)
          ≡ times id rows + times id (ended_rows (row_ids rows) m.ended)
    total rows = times-append id rows (ended_rows (row_ids rows) m.ended)

live_row-counted :
    (c : SessionCohort) (view : Option FundingView) (phase : Option String)
    → length (live_row c view phase (phase_chip phase))
      ≡ count_if (λ x. phase_in open_phases phase) (c ∷ [])
        + count_if
            (λ x. not (phase_in open_phases phase) && phase_in in_flight_phases phase)
            (c ∷ [])
unfolding phase_chip count_if phase_in live_row
live_row-counted c view none = ground arith
live_row-counted c view (some p) = elim (Bool-cases (phase_in open_phases (some p))) [
  | inl inside ↦ rw inside (omega arith)
  | inr outside ↦ elim (Bool-cases (phase_in in_flight_phases (some p))) [
    | inl running ↦ rw outside (rw running (omega arith))
    | inr other ↦ rw outside (rw other (omega arith))
  ]
]

module _ (session : Session) (m : CohortMonitor) where
  is_open : SessionCohort → Bool
  is_open c = phase_in open_phases (session.get_cohort_phase c.cohort_id)

  is_running : SessionCohort → Bool
  is_running c =
      not (phase_in open_phases (session.get_cohort_phase c.cohort_id))
      && phase_in in_flight_phases (session.get_cohort_phase c.cohort_id)

  one_row-counted :
      (c : SessionCohort)
      → length (
          live_row c
            (get c.cohort_id m.funding_views)
            (session.get_cohort_phase c.cohort_id)
            (phase_chip (session.get_cohort_phase c.cohort_id)))
        ≡ count_if is_open (c ∷ []) + count_if is_running (c ∷ [])
  unfolding count_if is_open is_running
  one_row-counted c =
      live_row-counted c (get c.cohort_id m.funding_views) (session.get_cohort_phase c.cohort_id)

  no_counts : 0 ≡ count_if is_open [] + count_if is_running []
  unfolding count_if
  no_counts = refl

  live_rows-counted :
      (cs : List SessionCohort)
      → length (live_rows session m cs) ≡ count_if is_open cs + count_if is_running cs
  unfolding live_rows
  live_rows-counted [] = no_counts
  live_rows-counted (c ∷ cs) =
      let phase = session.get_cohort_phase c.cohort_id in
      let row = live_row c (get c.cohort_id m.funding_views) phase (phase_chip phase) in
      omega (
        arith,
        length-append row (live_rows session m cs),
        one_row-counted c,
        live_rows-counted cs,
        count_if-append is_open (c ∷ []) cs,
        count_if-append is_running (c ∷ []) cs,
      )

  -- The summary has as many rows of live cohorts as the metrics count as open or in flight.
  pub live_rows-eq-service_metrics :
      length (live_rows session m session.cohorts)
      ≡ (service_metrics session m).open_count + (service_metrics session m).in_flight
  unfolding service_metrics is_open is_running
  live_rows-eq-service_metrics = live_rows-counted session.cohorts
