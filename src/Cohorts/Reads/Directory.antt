-- ===== src/Cohorts/Reads/Directory.antt =====
-- The public directory and the open count against the live session that they are derived from.
use mathlib.Core.List.{Memᴰ}
use btcr2_aggregation.Prelude.{
  ◌+◌, ◌≡◌, ◌++◌, ◌&&◌, refl, Bool, true, List, [], ◌∷◌, Option, none, some, String, if◌then◌else◌,
  ◌⊎◌, inl, inr, arith, Bool-cases, All, length, keep_if, is_some, ℕ, or_else,
}
use btcr2_aggregation.OrderedMap.{get}
use btcr2_aggregation.Phases.{phase_in, contains, open_phases, in_flight_phases, display_phases}
use btcr2_aggregation.Phases.Sets.{display-eq-or}
use btcr2_aggregation.Cohorts.Config.{CohortConfig}
use btcr2_aggregation.Cohorts.State.{State, Runner, Options, LiveCohort}
use btcr2_aggregation.Cohorts.Reads.{
  DirectoryCohortDto, directory_row, shown_row, rows_of, directory, is_open_row, open_count, status,
}
use btcr2_aggregation.Cohorts.Lifecycle.{threshold_of, capacity_of}

-- A number that is given, or else the other one.
abbrev pub GivenOr : Option ℕ → ℕ → ℕ → Type 0
GivenOr given other n = (given ≡ some n) ⊎ ((given ≡ none) × (n ≡ other))

or_else-GivenOr : (given : Option ℕ) (other : ℕ) → GivenOr given other (or_else given other)
or_else-GivenOr none other = inr (refl, refl)
or_else-GivenOr (some n) other = inl refl

module _ {S : Type 0} (runner : Runner S) (opts : Options) (s : State S) where
  -- Why a row is in the directory: a live cohort, advertised with a configuration, in a phase that
  -- is open or in flight; and what it shows: the cohort's id and participants, and the seats and
  -- signers of that configuration, which are its minimum when it does not give them.
  pub record Listed (cohorts : List LiveCohort) (row : DirectoryCohortDto) : Type 0 where
    pub cohort : LiveCohort
    pub config : CohortConfig
    pub live : Memᴰ cohort cohorts
    pub entered : get cohort.id s.advertised ≡ some config
    pub reported : runner.cohort_phase s.session cohort.id ≡ some row.phase
    pub displayed :
        (contains open_phases row.phase ≡ true) ⊎ (contains in_flight_phases row.phase ≡ true)
    pub names : row.cohort_id ≡ cohort.id
    pub joins : row.joined ≡ cohort.participants
    pub kind : row.beacon_type ≡ config.beacon_type
    pub on_network : row.network ≡ opts.active_network
    pub seats : GivenOr config.max_participants config.min_participants row.capacity
    pub signers : GivenOr config.fallback_threshold config.min_participants row.threshold

  Listed-tail :
      {c : LiveCohort} {cs : List LiveCohort} {row : DirectoryCohortDto}
      → Listed cs row
      → Listed (c ∷ cs) row
  Listed-tail l = record {
    cohort = l.cohort;
    config = l.config;
    live = Memᴰ.tail l.live;
    entered = l.entered;
    reported = l.reported;
    displayed = l.displayed;
    names = l.names;
    joins = l.joins;
    kind = l.kind;
    on_network = l.on_network;
    seats = l.seats;
    signers = l.signers;
  }

  Listed-head :
      (c : LiveCohort) (cs : List LiveCohort) (o : Option CohortConfig) (p : Option String)
      → get c.id s.advertised ≡ o
      → runner.cohort_phase s.session c.id ≡ p
      → All (Listed (c ∷ cs)) (shown_row opts c o p)
  unfolding shown_row
  Listed-head c cs none p e q = tt
  Listed-head c cs (some config) none e q = tt
  Listed-head c cs (some config) (some phase) e q =
      elim (Bool-cases (contains display_phases phase)) [
        | inr hidden ↦ rw hidden tt
        | inl d ↦ rw d (
          record {
            cohort = c;
            config = config;
            live = Memᴰ.head refl;
            entered = e;
            reported = unfold directory_row in q;
            displayed = unfold directory_row in ground (arith, display-eq-or phase);
            names = unfold directory_row in refl;
            joins = unfold directory_row in refl;
            kind = unfold directory_row in refl;
            on_network = unfold directory_row in refl;
            seats = unfold directory_row capacity_of in or_else-GivenOr _ _;
            signers = unfold directory_row threshold_of in or_else-GivenOr _ _;
          },
          tt,
        )
      ]

  All-append :
      {A : Type 0} (P : A → Type 0) (xs ys : List A) → All P xs → All P ys → All P (xs ++ ys)
  All-append P [] ys a b = b
  All-append P (x ∷ xs) ys a b = (a.0, All-append P xs ys a.1 b)

  All-mono :
      {A : Type 0} (P Q : A → Type 0) → ((x : A) → P x → Q x) → (xs : List A) → All P xs → All Q xs
  All-mono P Q f [] a = tt
  All-mono P Q f (x ∷ xs) a = (f x a.0, All-mono P Q f xs a.1)

  rows_of-Listed : (cs : List LiveCohort) → All (Listed cs) (rows_of runner opts cs s)
  unfolding rows_of
  rows_of-Listed [] = tt
  rows_of-Listed (c ∷ cs) =
      All-append (Listed (c ∷ cs)) _ _ (Listed-head c cs _ _ refl refl)
        (All-mono (Listed cs) (Listed (c ∷ cs)) (λ row l. Listed-tail l) _ (rows_of-Listed cs))

  -- Every row of the public directory stands for a live cohort of the runner's session that this
  -- service advertised, in an open or in-flight phase. It shows that cohort's id and participants,
  -- the beacon type, the seats and the signing threshold of the configuration it was advertised
  -- with (its minimum of participants where it gives no maximum or no fallback threshold), and the
  -- service's network.
  pub directory-Listed : All (Listed (runner.cohorts s.session)) (directory runner opts s)
  unfolding directory
  directory-Listed = rows_of-Listed (runner.cohorts s.session)

  -- A cohort that a participant could still join: advertised here, and in an open phase.
  abbrev pub is_joinable_live : LiveCohort → Bool
  is_joinable_live c =
      is_some (get c.id s.advertised) && phase_in open_phases (runner.cohort_phase s.session c.id)

  shown_row-open :
      (c : LiveCohort) (o : Option CohortConfig) (p : Option String)
      → length (keep_if is_open_row (shown_row opts c o p))
        ≡ (if is_some o && phase_in open_phases p then 1 else 0)
  unfolding shown_row is_open_row directory_row phase_in
  shown_row-open c none p = refl
  shown_row-open c (some config) none = refl
  shown_row-open c (some config) (some phase) = ground (arith, display-eq-or phase)

  keep_if-append :
      {A : Type 0} (p : A → Bool) (xs ys : List A)
      → length (keep_if p (xs ++ ys)) ≡ length (keep_if p xs) + length (keep_if p ys)
  keep_if-append p [] ys = omega arith
  keep_if-append p (x ∷ xs) ys = ground (arith, keep_if-append p xs ys)

  rows_of-open :
      (cs : List LiveCohort)
      → length (keep_if is_open_row (rows_of runner opts cs s))
        ≡ length (keep_if is_joinable_live cs)
  unfolding rows_of
  rows_of-open [] = refl
  rows_of-open (c ∷ cs) = ground (
    arith,
    keep_if-append is_open_row
        (shown_row opts c (get c.id s.advertised) (runner.cohort_phase s.session c.id))
        (rows_of runner opts cs s),
    shown_row-open c (get c.id s.advertised) (runner.cohort_phase s.session c.id),
    rows_of-open cs,
  )

  -- The open count of the public status is the number of live cohorts that are advertised here and
  -- in an open phase: the wider display set of the directory never adds to it.
  pub open_count_lem :
      (status runner opts s).open_cohorts
      ≡ length (keep_if is_joinable_live (runner.cohorts s.session))
  unfolding status open_count directory
  open_count_lem = rows_of-open (runner.cohorts s.session)
