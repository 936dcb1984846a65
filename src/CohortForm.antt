-- ===== src/CohortForm.antt =====
-- packages/web/src/lib/cohort-form.ts: the checks of the operator's cohort form, before a draft is sent,
-- and the body that it sends (packages/web/src/components/operator/CreateCohortForm.tsx). How
-- JavaScript reads a number in a text is a parameter. The help sentences are not modelled.
pub mod Agreement
use btcr2_aggregation.Prelude.{
  ◌+◌, ◌-◌, ◌*◌, ◌/◌, ◌==◌, ◌||◌, Bool, true, false, Option, none, some, String, ℕ, if◌then◌else◌,
  ltb, leb, max,
}
use btcr2_aggregation.Prelude.Text.{trim}
use btcr2_aggregation.Cohorts.Draft.{Wire, WireText, DraftInput, one_minute_ms}
use btcr2_aggregation.Funding.{rounded_minutes}

abbrev pub funding_slack_ms : ℕ
funding_slack_ms = 10000

pub data WindowValue : Type 0 where
  unset : WindowValue
  ms : ℕ → WindowValue
  invalid : WindowValue

unfoldable pub window_of : Wire → WindowValue
window_of (Wire.int n) = if ltb n 1 then invalid else ms (n * one_minute_ms)
window_of _ = invalid

-- `parseWindow`, with `Number(text)` as a parameter.
unfoldable pub parse_window : (String → Wire) → String → WindowValue
unfolding trim window_of
parse_window number text = if trim text == "" then unset else window_of (number text)

unfoldable pub effective_ms : WindowValue → Option ℕ → Option ℕ
effective_ms (ms n) default = some n
effective_ms unset default = default
effective_ms invalid default = default

-- `clampDisclosure`: the minutes that it discloses.
unfoldable pub clamp_disclosure : Option ℕ → Option ℕ → Option ℕ
unfolding rounded_minutes
clamp_disclosure (some discovery) (some funding) =
    let ceiling = discovery - funding_slack_ms in
    if leb funding ceiling then none else some (rounded_minutes ceiling)
clamp_disclosure (some discovery) none = none
clamp_disclosure none funding = none

pub data FormError : Type 0 where
  size_error threshold_error discovery_window_error funding_window_error : FormError

pub record CohortForm : Type 0 where
  pub size : Wire
  pub threshold : Wire
  pub discovery : WindowValue
  pub funding : WindowValue

abbrev pub window_error : WindowValue → FormError → Option FormError → Option FormError
window_error invalid e later = some e
window_error unset e later = later
window_error (ms n) e later = later

abbrev pub threshold_problem : ℕ → Wire → Option FormError → Option FormError
threshold_problem size (Wire.int k) later =
    if ltb k 1 || ltb size k then some threshold_error else later
threshold_problem size _ later = some threshold_error

abbrev pub size_problem : Wire → Wire → Option FormError → Option FormError
size_problem (Wire.int n) threshold later =
    if ltb n 1 then some size_error else threshold_problem n threshold later
size_problem _ threshold later = some size_error

-- `validateCohortForm`: the first problem.
unfoldable pub validate_cohort_form : CohortForm → Option FormError
validate_cohort_form form = size_problem form.size form.threshold (
    window_error form.discovery discovery_window_error
      (window_error form.funding funding_window_error none))

-- `windowKeys`: a key is sent for a window that is set.
unfoldable pub window_key : WindowValue → Wire
window_key (ms n) = Wire.int n
window_key unset = Wire.absent
window_key invalid = Wire.absent

-- The body that the form submits.
unfoldable pub draft_body : String → CohortForm → DraftInput
unfolding window_key
draft_body beacon_type form = record {
  beacon_type = WireText.text beacon_type;
  size = form.size;
  threshold = form.threshold;
  discovery_window_ms = window_key form.discovery;
  funding_window_ms = window_key form.funding;
}
