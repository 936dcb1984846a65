-- ===== src/Wiring.antt =====
-- packages/service/src/index.ts: the tables that `createService` keeps per cohort, the kill switch's
-- one rule for the three legs of a cohort's money path, and the listeners that read and release
-- them, on a live and broadcasting service. The operator's test peers are seen by their releases.
pub mod KillSwitch
use btcr2_aggregation.Prelude.{
  ◌+◌, ◌-◌, Bool, true, false, not, List, [], ◌∷◌, Option, none, some, String, ℕ, if◌then◌else◌,
  ltb, or_option,
}
use btcr2_aggregation.OrderedMap.{OrderedMap, get, has, delete, remember}
use btcr2_aggregation.Funding.{
  FundingStateName, is_funded, Duration, unset, finite, FundingDeadline, compute_funding_deadline,
}
use btcr2_aggregation.Settings.{RuntimeSettings, disable_broadcast}

abbrev pub max_per_cohort_entries : ℕ
max_per_cohort_entries = 24

-- `rememberBounded`.
unfoldable pub remember_bounded : {V : Type 0} → String → V → OrderedMap V → OrderedMap V
unfolding remember
remember_bounded k v m = remember max_per_cohort_entries k v m

-- `cohortKeepsLiveWiring`: the switch, the time it engaged, and the time of the advert.
unfoldable pub cohort_keeps_live_wiring : Bool → Option ℕ → Option ℕ → Bool
cohort_keeps_live_wiring false engaged advertised = true
cohort_keeps_live_wiring true none advertised = false
cohort_keeps_live_wiring true (some engaged) none = false
cohort_keeps_live_wiring true (some engaged) (some advertised) = ltb advertised engaged

pub data Lapse : Type 0 where
  blind_lapse window_closed : Lapse

-- The part of a `FundingView` that differs between the cohorts of one service.
pub record FundingView : Type 0 where
  pub state : FundingStateName
  pub beacon_address : String
  pub truncated_window_min : Option ℕ
  pub esplora_stale : Bool
  pub terminal : Option Lapse

-- What the listeners do outside the tables, each with the cohort.
pub data Effect : Type 0 where
  builds_live builds_fixture broadcasts watches stops_watch releases_peers : String → Effect
  notes_funding : String → FundingView → Effect

-- The tables, with the effects so far, the latest first.
pub record CohortTables : Type 0 where
  pub settings : RuntimeSettings
  pub advertised_at : OrderedMap ℕ
  pub cohort_funding_windows : OrderedMap ℕ
  pub funding_watches : OrderedMap (Unit {0})
  pub last_funding_view : OrderedMap FundingView
  pub effects : List Effect

pub record LiveOptions : Type 0 where
  pub cohort_ttl_ms : Option ℕ
  pub funding_window_ms : Option ℕ
  pub funding_slack_ms : ℕ

unfoldable pub cohort_uses_live_path : CohortTables → String → Bool
unfolding cohort_keeps_live_wiring get
cohort_uses_live_path t id =
    cohort_keeps_live_wiring t.settings.broadcast_disabled t.settings.broadcast_disabled_at_ms
      (get id t.advertised_at)

abbrev pub effect : Effect → CohortTables → CohortTables
effect e t = record t { effects = e ∷ t.effects }

-- `onProvideTxData`.
unfoldable pub on_provide_tx_data : String → CohortTables → CohortTables
unfolding cohort_uses_live_path
on_provide_tx_data id t =
    if cohort_uses_live_path t id then effect (builds_live id) t else effect (builds_fixture id) t

-- The `cohort-advertised` listener, at the given time.
unfoldable pub on_cohort_advertised : String → ℕ → CohortTables → CohortTables
unfolding has remember_bounded
on_cohort_advertised id now t =
    if has id t.advertised_at
    then t
    else record t { advertised_at = remember_bounded id now t.advertised_at }

-- `onAdvertised`: the funding window of the draft.
unfoldable pub on_advertised_windows : String → Option ℕ → CohortTables → CohortTables
unfolding remember_bounded
on_advertised_windows id none t = t
on_advertised_windows id (some ms) t = record t {
  cohort_funding_windows = remember_bounded id ms t.cohort_funding_windows;
}

unfoldable pub funding_window_for : LiveOptions → String → CohortTables → Option ℕ
unfolding get
funding_window_for opts id t = or_option (get id t.cohort_funding_windows) opts.funding_window_ms

abbrev pub as_duration : Option ℕ → Duration
as_duration none = unset
as_duration (some ms) = finite ms

-- `cohortTtlMs - (Date.now() - at)`; a negative rest counts as 0 below.
abbrev pub remaining_ttl : Option ℕ → Option ℕ → ℕ → Duration
remaining_ttl (some ttl) (some advertised) now = finite ((ttl + advertised) - now)
remaining_ttl (some ttl) none now = unset
remaining_ttl none advertised now = unset

-- The truncated window that the funding views of a cohort disclose.
unfoldable pub disclosed_window : LiveOptions → String → ℕ → CohortTables → Option ℕ
unfolding get funding_window_for compute_funding_deadline
disclosed_window opts id now t =
    (compute_funding_deadline (as_duration (funding_window_for opts id t))
      (remaining_ttl opts.cohort_ttl_ms (get id t.advertised_at) now)
      opts.funding_slack_ms).truncated_window_min

-- The `keygen-complete` listener.
unfoldable pub on_keygen_complete : String → CohortTables → CohortTables
unfolding cohort_uses_live_path has remember_bounded
on_keygen_complete id t =
    if not (cohort_uses_live_path t id)
    then t
    else if has id t.funding_watches
    then t
    else effect (watches id)
        (record t { funding_watches = remember_bounded id tt t.funding_watches })

-- `onState` of a watch.
unfoldable pub on_funding_state : String → FundingView → CohortTables → CohortTables
unfolding remember_bounded
on_funding_state id view t =
    effect (notes_funding id view)
      (record t { last_funding_view = remember_bounded id view t.last_funding_view })

unfoldable pub release_cohort_tables : String → CohortTables → CohortTables
unfolding has delete
release_cohort_tables id t = record t {
  funding_watches = delete id t.funding_watches;
  last_funding_view = delete id t.last_funding_view;
  advertised_at = delete id t.advertised_at;
  cohort_funding_windows = delete id t.cohort_funding_windows;
  effects =
      releases_peers id
      ∷ (if has id t.funding_watches then stops_watch id ∷ t.effects else t.effects);
}

-- The broadcast listener of `signing-complete`, then the one that releases.
unfoldable pub on_signing_complete : String → CohortTables → CohortTables
unfolding cohort_uses_live_path release_cohort_tables
on_signing_complete id t =
    release_cohort_tables id (if cohort_uses_live_path t id then effect (broadcasts id) t else t)

abbrev pub lapsed : FundingView → FundingView
lapsed v = record v { terminal = some (if v.esplora_stale then blind_lapse else window_closed) }

abbrev pub note_lapse : String → Option FundingView → CohortTables → CohortTables
unfolding is_funded
note_lapse id none t = t
note_lapse id (some v) t = if is_funded v.state then t else effect (notes_funding id (lapsed v)) t

-- The `cohort-failed` listener.
unfoldable pub on_cohort_failed : String → CohortTables → CohortTables
unfolding has get release_cohort_tables is_funded
on_cohort_failed id t =
    if has id t.funding_watches
    then release_cohort_tables id (note_lapse id (get id t.last_funding_view) t)
    else t

-- What happens to the tables. A time is that of the service's clock.
pub data Event : Type 0 where
  advertised : String → ℕ → Event
  advertised_windows : String → Option ℕ → Event
  provides_tx_data keygen_complete signing_complete cohort_failed canceled : String → Event
  funding_state : String → FundingView → Event
  switched_off : ℕ → Event

unfoldable pub step : Event → CohortTables → CohortTables
unfolding on_provide_tx_data on_cohort_advertised on_advertised_windows on_keygen_complete
    on_funding_state release_cohort_tables on_signing_complete on_cohort_failed disable_broadcast
step (advertised id now) t = on_cohort_advertised id now t
step (advertised_windows id ms) t = on_advertised_windows id ms t
step (provides_tx_data id) t = on_provide_tx_data id t
step (keygen_complete id) t = on_keygen_complete id t
step (signing_complete id) t = on_signing_complete id t
step (cohort_failed id) t = on_cohort_failed id t
step (canceled id) t = release_cohort_tables id t
step (funding_state id view) t = on_funding_state id view t
step (switched_off now) t = record t { settings = disable_broadcast now t.settings }

-- The events in order, the first one first.
unfoldable pub steps : List Event → CohortTables → CohortTables
unfolding step
steps [] t = t
steps (e ∷ es) t = steps es (step e t)
