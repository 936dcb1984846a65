-- ===== src/Cohorts/Draft.antt =====
-- packages/service/src/operator-cohorts.ts: the untrusted draft body, its one validator, and the
-- timing windows of a draft.
pub mod Validation
use btcr2_aggregation.Prelude.{
  ◌+◌, ◌*◌, ◌/◌, ◌≡◌, ◌||◌, ◌&&◌, Bool, true, false, not, Option, none, some, String, ℕ, suc,
  if◌then◌else◌, ltb, leb, nat_eq, ◌==◌, or_option,
}
use btcr2_aggregation.Cohorts.Config.{
  BeaconType, cas_beacon, smt_beacon, DraftError, unknown_beacon_type, size_error, threshold_error,
  fallback_off_error, discovery_window_error, funding_window_error, discovery_window_ceiling_error,
  Result, ok, refused, ◌>>=◌, ◌>>◌, reject_if,
}

-- A JSON value where the code expects a number: missing, null, an integer (`negative n` is
-- -(n + 1)), or anything that `Number.isInteger` refuses (a fraction, a text, a list, ...).
pub data Wire : Type 0 where
  absent null : Wire
  int : ℕ → Wire
  negative : ℕ → Wire
  other : Wire

-- A JSON value where the code expects a text.
pub data WireText : Type 0 where
  absent null : WireText
  text : String → WireText
  other : WireText

pub record DraftInput : Type 0 where
  pub beacon_type : WireText
  pub size : Wire
  pub threshold : Wire
  pub discovery_window_ms : Wire
  pub funding_window_ms : Wire

-- The runner-level cohort lifetime: not given, not finite, or a number of milliseconds.
pub data CohortTtl : Type 0 where
  unset not_finite : CohortTtl
  finite : ℕ → CohortTtl

pub record CohortWindows : Type 0 where
  pub discovery_window_ms : Option ℕ
  pub funding_window_ms : Option ℕ

-- What a draft body says, once validated. `windows` holds the explicit windows only.
pub record ValidDraft : Type 0 where
  pub beacon_type : BeaconType
  pub size : ℕ
  pub threshold : ℕ
  pub windows : CohortWindows

abbrev pub one_minute_ms : ℕ
one_minute_ms = 60000

unfoldable pub beacon_name : BeaconType → String
beacon_name cas_beacon = "CASBeacon"
beacon_name smt_beacon = "SMTBeacon"

-- `KNOWN_BEACON_TYPES`.
known_beacon_type : WireText → Result BeaconType
known_beacon_type (text t) =
    if t == "CASBeacon"
    then ok cas_beacon
    else if t == "SMTBeacon"
    then ok smt_beacon
    else refused unknown_beacon_type
known_beacon_type absent = refused unknown_beacon_type
known_beacon_type null = refused unknown_beacon_type
known_beacon_type other = refused unknown_beacon_type

-- A whole number, at least `least`; else the given refusal.
whole : ℕ → DraftError → Wire → Result ℕ
whole least e (int n) = if ltb n least then refused e else ok n
whole least e absent = refused e
whole least e null = refused e
whole least e (negative n) = refused e
whole least e other = refused e

-- `value ?? undefined`, then the guard of a window that is given.
window : DraftError → Wire → Result (Option ℕ)
unfolding whole
window e absent = ok none
window e null = ok none
window e (int n) = whole one_minute_ms e (int n) >>= λ ms. ok (some ms)
window e (negative n) = refused e
window e other = refused e

-- `threshold ?? size`.
unfoldable pub threshold_or : Wire → ℕ → Wire
threshold_or absent size = int size
threshold_or null size = int size
threshold_or (int n) size = int n
threshold_or (negative n) size = negative n
threshold_or other size = other

-- A given discovery window may only shorten the runner-level lifetime.
ceiling_guard : Option ℕ → CohortTtl → Result (Unit {0})
ceiling_guard (some ms) (finite ttl) =
    reject_if (ltb ttl ms) (discovery_window_ceiling_error (ttl / one_minute_ms))
ceiling_guard (some ms) unset = ok tt
ceiling_guard (some ms) not_finite = ok tt
ceiling_guard none ttl = ok tt

unfoldable pub validate_draft : DraftInput → Bool → CohortTtl → Result ValidDraft
unfolding known_beacon_type whole window threshold_or ceiling_guard
validate_draft input auto_fallback_on_stall cohort_ttl = do
  beacon_type ← known_beacon_type input.beacon_type
  size ← whole 1 size_error input.size
  k ← whole 1 threshold_error (threshold_or input.threshold size)
  reject_if (ltb size k) threshold_error
  reject_if (ltb k size && not auto_fallback_on_stall) fallback_off_error
  discovery ← window discovery_window_error input.discovery_window_ms
  funding ← window funding_window_error input.funding_window_ms
  ceiling_guard discovery cohort_ttl
  ok (record {
    beacon_type = beacon_type;
    size = size;
    threshold = k;
    windows = record { discovery_window_ms = discovery; funding_window_ms = funding };
  })

-- The operator's own windows, and the service's defaults as they stood at draft time.
pub record DraftWindows : Type 0 where
  pub explicit : CohortWindows
  pub defaults : CohortWindows

abbrev pub no_windows : CohortWindows
no_windows = record { discovery_window_ms = none; funding_window_ms = none }

unfoldable pub effective_windows : DraftWindows → CohortWindows
effective_windows w = record {
  discovery_window_ms = or_option w.explicit.discovery_window_ms w.defaults.discovery_window_ms;
  funding_window_ms = or_option w.explicit.funding_window_ms w.defaults.funding_window_ms;
}
