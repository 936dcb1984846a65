-- ===== src/Wiring/KillSwitch.antt =====
-- packages/service/src/index.ts: the kill switch over the events of a live service.
use btcr2_aggregation.Prelude.{
  ◌≡◌, ◌≤◌, ◌<◌, Bool, true, false, List, [], ◌∷◌, Option, none, some, String, ℕ, All, refl, inl,
  inr, Bool-cases, arith,
}
use btcr2_aggregation.OrderedMap.{OrderedMap, get, has, delete}
use btcr2_aggregation.OrderedMap.Laws.{Distinct, get-delete, delete-Distinct}
use btcr2_aggregation.OrderedMap.Bounds.{remember-Distinct}
use btcr2_aggregation.OrderedMap.Eviction.{get_of_remember}
use btcr2_aggregation.Funding.{is_funded}
use btcr2_aggregation.Settings.{RuntimeSettings, disable_broadcast}
use btcr2_aggregation.Wiring.{
  remember_bounded, max_per_cohort_entries, cohort_keeps_live_wiring, CohortTables, FundingView,
  Effect, builds_live, builds_fixture, broadcasts, watches, notes_funding, cohort_uses_live_path,
  effect, on_provide_tx_data, on_cohort_advertised, on_advertised_windows, on_keygen_complete,
  on_funding_state, release_cohort_tables, on_signing_complete, on_cohort_failed, lapsed,
  note_lapse, Event, advertised, advertised_windows, provides_tx_data, keygen_complete,
  signing_complete, cohort_failed, canceled, funding_state, switched_off, step, steps,
}

-- The switch is engaged, since `moment`.
unfoldable pub IsEngaged : ℕ → RuntimeSettings → Type 0
IsEngaged moment s = (s.broadcast_disabled ≡ true) × (s.broadcast_disabled_at_ms ≡ some moment)

-- An advert comes no earlier than `moment`.
unfoldable pub IsSince : ℕ → Event → Type 0
IsSince moment (advertised id now) = moment ≤ now
IsSince moment _ = Unit

-- An effect that builds for the chain, publishes, or asks for funds is of a cohort in `live`.
unfoldable pub IsOfLive : (String → Bool) → Effect → Type 0
IsOfLive live (builds_live id) = live id ≡ true
IsOfLive live (broadcasts id) = live id ≡ true
IsOfLive live (watches id) = live id ≡ true
IsOfLive live _ = Unit

-- Each stamp before `moment` stood in the earlier table.
Narrows : ℕ → OrderedMap ℕ → OrderedMap ℕ → Type 0
Narrows moment before after =
    Distinct after
    × ((id : String) (a : ℕ) → get id after ≡ some a → a < moment → get id before ≡ some a)

delete-Narrows :
    (moment : ℕ) (k : String) (before after : OrderedMap ℕ)
    → Narrows moment before after
    → Narrows moment before (delete k after)
unfolding Narrows
delete-Narrows moment k before after (d, keeps) = (
  delete-Distinct k after d,
  λ id a h less. keeps id a (ground (arith, get-delete id k after d)) less,
)

remember-Narrows :
    (moment : ℕ) (k : String) (now : ℕ) (before after : OrderedMap ℕ)
    → moment ≤ now
    → Narrows moment before after
    → Narrows moment before (remember_bounded k now after)
unfolding Narrows remember_bounded
remember-Narrows moment k now before after since (d, keeps) = (
  remember-Distinct max_per_cohort_entries k now after d,
  λ id a h less.
      keeps id a (ground (arith, get_of_remember max_per_cohort_entries id k now a after d h)) less,
)

keeps_live-stamped :
    (moment : ℕ) (off : Bool) (engaged stamp : Option ℕ)
    → off ≡ true
    → engaged ≡ some moment
    → cohort_keeps_live_wiring off engaged stamp ≡ true
    → (a : ℕ) × (stamp ≡ some a) × (a < moment)
unfolding cohort_keeps_live_wiring
keeps_live-stamped moment false engaged stamp o e h = cc
keeps_live-stamped moment true none stamp o e h = cc
keeps_live-stamped moment true (some m) none o e h = cc
keeps_live-stamped moment true (some m) (some a) o e h = (a, refl, ground arith)

stamped-uses_live :
    (moment : ℕ) (t : CohortTables) (id : String) (a : ℕ)
    → IsEngaged moment t.settings
    → get id t.advertised_at ≡ some a
    → a < moment
    → cohort_uses_live_path t id ≡ true
unfolding IsEngaged cohort_uses_live_path cohort_keeps_live_wiring
stamped-uses_live moment t id a (off, at) h less = rw off (rw at (rw h (ground arith)))

-- The tables `after` the switch, against those at the switch.
Follows : ℕ → CohortTables → CohortTables → Type 0
unfolding Narrows IsOfLive
Follows moment before after =
    (after.settings ≡ before.settings)
    × Narrows moment before.advertised_at after.advertised_at
    × All (IsOfLive (cohort_uses_live_path before)) after.effects

module _ (moment : ℕ) (before : CohortTables) (engaged : IsEngaged moment before.settings) where
  uses_live-narrows :
      (after : CohortTables) (id : String)
      → Follows moment before after
      → cohort_uses_live_path after id ≡ true
      → cohort_uses_live_path before id ≡ true
  unfolding Follows Narrows IsEngaged cohort_uses_live_path
  uses_live-narrows after id (same, (d, keeps), allowed) h =
      let (a, stamp, less) =
        keeps_live-stamped moment after.settings.broadcast_disabled
          after.settings.broadcast_disabled_at_ms (get id after.advertised_at) (rw same (engaged.0))
          (rw same (engaged.1)) h in
      stamped-uses_live moment before id a engaged (keeps id a stamp less) less

  effect-Follows :
      (e : Effect) (after : CohortTables)
      → Follows moment before after
      → IsOfLive (cohort_uses_live_path before) e
      → Follows moment before (effect e after)
  unfolding Follows
  effect-Follows e after (same, narrow, allowed) h = (same, narrow, (h, allowed))

  release-Follows :
      (id : String) (after : CohortTables)
      → Follows moment before after
      → Follows moment before (release_cohort_tables id after)
  unfolding Follows release_cohort_tables IsOfLive
  release-Follows id after (same, narrow, allowed) = (
    same,
    delete-Narrows moment id before.advertised_at after.advertised_at narrow,
    (
      tt,
      elim (Bool-cases (has id after.funding_watches)) [
        | inl there ↦ rw there (tt, allowed)
        | inr absent ↦ rw absent allowed
      ],
    ),
  )

  lapse-Follows :
      (id : String) (view : Option FundingView) (after : CohortTables)
      → Follows moment before after
      → Follows moment before (note_lapse id view after)
  unfolding IsOfLive note_lapse
  lapse-Follows id none after f = f
  lapse-Follows id (some v) after f = elim (Bool-cases (is_funded v.state)) [
    | inl paid ↦ rw paid f
    | inr unpaid ↦ rw unpaid (effect-Follows (notes_funding id (lapsed v)) after f tt)
  ]

  step-Follows :
      (e : Event) (after : CohortTables)
      → IsSince moment e
      → Follows moment before after
      → Follows moment before (step e after)
  unfolding step IsSince on_cohort_advertised on_provide_tx_data on_keygen_complete IsOfLive
      on_signing_complete on_cohort_failed on_funding_state Follows on_advertised_windows
      disable_broadcast IsEngaged
  step-Follows (advertised id now) after since f = elim (Bool-cases (has id after.advertised_at)) [
    | inl there ↦ rw there f
    | inr absent ↦ rw absent (
      f.0,
      remember-Narrows moment id now before.advertised_at after.advertised_at since (f.1),
      f.2,
    )
  ]
  step-Follows (advertised_windows id none) after since f = f
  step-Follows (advertised_windows id (some ms)) after since f = f
  step-Follows (provides_tx_data id) after since f =
      elim (Bool-cases (cohort_uses_live_path after id)) [
        | inl live ↦
            rw live (effect-Follows (builds_live id) after f (uses_live-narrows after id f live))
        | inr fixture ↦ rw fixture (effect-Follows (builds_fixture id) after f tt)
      ]
  step-Follows (keygen_complete id) after since f =
      elim (Bool-cases (cohort_uses_live_path after id)) [
        | inl live ↦ rw live (elim (Bool-cases (has id after.funding_watches)) [
          | inl there ↦ rw there f
          | inr absent ↦ rw absent (f.0, f.1, (uses_live-narrows after id f live, f.2))
        ])
        | inr fixture ↦ rw fixture f
      ]
  step-Follows (signing_complete id) after since f =
      elim (Bool-cases (cohort_uses_live_path after id)) [
        | inl live ↦ rw live (
            release-Follows id (effect (broadcasts id) after)
              (effect-Follows (broadcasts id) after f (uses_live-narrows after id f live)))
        | inr fixture ↦ rw fixture (release-Follows id after f)
      ]
  step-Follows (cohort_failed id) after since f = elim (Bool-cases (has id after.funding_watches)) [
    | inl there ↦ rw there (
        release-Follows id (note_lapse id (get id after.last_funding_view) after)
          (lapse-Follows id (get id after.last_funding_view) after f))
    | inr absent ↦ rw absent f
  ]
  step-Follows (canceled id) after since f = release-Follows id after f
  step-Follows (funding_state id view) after since f = (f.0, f.1, (tt, f.2))
  step-Follows (switched_off now) after since f = rw (same_off after f) f
    where
      same_off :
          (after : CohortTables)
          → Follows moment before after
          → disable_broadcast now after.settings ≡ after.settings
      same_off after (same, narrow, allowed) =
          let off : after.settings.broadcast_disabled ≡ true = rw same (engaged.0) in rw off refl

  steps-Follows :
      (es : List Event) (after : CohortTables)
      → All (IsSince moment) es
      → Follows moment before after
      → Follows moment before (steps es after)
  unfolding steps
  steps-Follows [] after since f = f
  steps-Follows (e ∷ es) after since f =
      steps-Follows es (step e after) (since.1) (step-Follows e after (since.0) f)

-- Once the switch is engaged, and while the clock does not fall behind its moment, the cohorts on
-- the live path are among those on it when the switch engaged, and only for these does the service
-- build a transaction for the chain, publish one, or watch for funds.
pub steps-narrow :
    (moment : ℕ) (before : CohortTables) (es : List Event)
    → IsEngaged moment before.settings
    → Distinct before.advertised_at
    → before.effects ≡ []
    → All (IsSince moment) es
    → ((id : String)
        → cohort_uses_live_path (steps es before) id ≡ true
        → cohort_uses_live_path before id ≡ true)
      × All (IsOfLive (cohort_uses_live_path before)) (steps es before).effects
unfolding Follows Narrows
steps-narrow moment before es engaged d fresh since =
    ((λ id. uses_live-narrows moment before engaged (steps es before) id follows), follows.2)
  where
    follows : Follows moment before (steps es before)
    follows =
        steps-Follows moment before engaged es before since
          (refl, (d, λ id a h less. h), rw fresh tt)
