-- ===== src/CohortForm/Agreement.antt =====
-- packages/web/src/lib/cohort-form.ts against packages/service/src/operator-cohorts.ts: a body that the
-- form lets through is one that the service takes.
use btcr2_aggregation.Prelude.{
  ◌≤◌, ◌≡◌, ◌==◌, ◌⊎◌, Bool, true, Option, none, String, ℕ, ltb, refl, inl, inr, Bool-cases, arith,
}
use btcr2_aggregation.Prelude.Text.{trim}
use btcr2_aggregation.Cohorts.Config.{BeaconType, ok}
use btcr2_aggregation.Cohorts.Draft.{Wire, CohortTtl, beacon_name, validate_draft, one_minute_ms}
use btcr2_aggregation.Cohorts.Draft.Validation.{Denotes, FitsTtl, validate_draft-eq-ok_iff}
use btcr2_aggregation.CohortForm.{
  WindowValue, unset, ms, invalid, window_of, parse_window, effective_ms, FormError, size_problem,
  validate_cohort_form, window_key, draft_body,
}

-- A window that the form read: whole minutes, so at least one.
unfoldable pub IsParsed : WindowValue → Type 0
IsParsed (ms n) = one_minute_ms ≤ n
IsParsed unset = Unit
IsParsed invalid = Unit

window_of-IsParsed : (w : Wire) → IsParsed (window_of w)
unfolding window_of IsParsed
window_of-IsParsed (Wire.int n) = elim (Bool-cases (ltb n 1)) [
  | inl less ↦ rw less tt
  | inr enough ↦ rw enough (ground arith)
]
window_of-IsParsed Wire.absent = tt
window_of-IsParsed Wire.null = tt
window_of-IsParsed (Wire.negative n) = tt
window_of-IsParsed Wire.other = tt

parse_window-IsParsed :
    (number : String → Wire) (text : String) → IsParsed (parse_window number text)
unfolding parse_window IsParsed
parse_window-IsParsed number text = elim (Bool-cases (trim text == "")) [
  | inl blank ↦ rw blank tt
  | inr given ↦ rw given (window_of-IsParsed (number text))
]

window_key-Denotes : (w : WindowValue) → IsParsed w → Denotes (window_key w) (effective_ms w none)
unfolding window_key effective_ms IsParsed
window_key-Denotes (ms n) h = (refl, h)
window_key-Denotes unset h = inl refl
window_key-Denotes invalid h = inl refl

-- The bounds that a form without a problem keeps.
sized :
    (size threshold : Wire) (n k : ℕ) (later : Option FormError)
    → size ≡ Wire.int n
    → threshold ≡ Wire.int k
    → size_problem size threshold later ≡ none
    → (1 ≤ n) × (1 ≤ k) × (k ≤ n)
sized (Wire.int m) (Wire.int j) n k later hs hk h = ground arith
sized (Wire.int m) Wire.absent n k later hs hk h = cc
sized (Wire.int m) Wire.null n k later hs hk h = cc
sized (Wire.int m) (Wire.negative j) n k later hs hk h = cc
sized (Wire.int m) Wire.other n k later hs hk h = cc
sized Wire.absent threshold n k later hs hk h = cc
sized Wire.null threshold n k later hs hk h = cc
sized (Wire.negative j) threshold n k later hs hk h = cc
sized Wire.other threshold n k later hs hk h = cc

-- A form whose windows were read from its texts and in which the check finds no problem gives a body
-- that the service accepts as the draft the form shows, when its threshold is its size or the stall
-- fallback is on, and its discovery window fits the cohort lifetime.
pub validate_cohort_form-validate_draft :
    (number : String → Wire) (discovery funding : String) (b : BeaconType) (n k : ℕ)
    (auto_fallback : Bool) (ttl : CohortTtl)
    → validate_cohort_form (record {
      size = Wire.int n;
      threshold = Wire.int k;
      discovery = parse_window number discovery;
      funding = parse_window number funding;
    })
      ≡ none
    → (k ≡ n) ⊎ (auto_fallback ≡ true)
    → FitsTtl (effective_ms (parse_window number discovery) none) ttl
    → validate_draft
        (draft_body (beacon_name b) (record {
          size = Wire.int n;
          threshold = Wire.int k;
          discovery = parse_window number discovery;
          funding = parse_window number funding;
        }))
        auto_fallback
        ttl
      ≡ ok (record {
        beacon_type = b;
        size = n;
        threshold = k;
        windows = record {
          discovery_window_ms = effective_ms (parse_window number discovery) none;
          funding_window_ms = effective_ms (parse_window number funding) none;
        };
      })
unfolding draft_body validate_cohort_form
validate_cohort_form-validate_draft number discovery funding b n k auto_fallback ttl h promised
      fits =
    let (seats, signs, below) = sized (Wire.int n) (Wire.int k) n k _ refl refl h in
    (validate_draft-eq-ok_iff _ auto_fallback ttl _).1 (record {
      kind = refl;
      seats = refl;
      seated = seats;
      signers = inl refl;
      signed = signs;
      signed_by_seats = below;
      promised = promised;
      discovery =
          window_key-Denotes (parse_window number discovery)
            (parse_window-IsParsed number discovery);
      funding =
          window_key-Denotes (parse_window number funding) (parse_window-IsParsed number funding);
      fits = fits;
    })
