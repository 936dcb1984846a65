-- ===== src/Settings/Validity.antt =====
-- packages/service/src/runtime-settings.ts: what the settings keep true, from the seed on.
use btcr2_aggregation.Prelude.{
  ◌%◌, ◌≤◌, ◌≡◌, ◌||◌, not, false, Option, none, some, String, ℕ, ltb, nat_eq, refl, ap, subst, inl,
  inr, Bool-cases, arith,
}
use btcr2_aggregation.Prelude.Checked.{valid, problem_if-eq-valid, if-eq-valid, valid-injective}
use btcr2_aggregation.Prelude.Text.{utf16_length}
use btcr2_aggregation.Cohorts.Draft.{Wire, one_minute_ms}
use btcr2_aggregation.Settings.{
  SettingsError, Values, max_service_name_chars, max_terms_chars, trim_to_undefined, too_long,
  next_count, whole_minutes, kept_window, next_window, under_ceiling,
}
use btcr2_aggregation.Settings.Seed.{
  RuntimeSettingsSeed, numeric_knob, counted_knob, whole_minutes_at_or_below, clamped, text_knob,
  seeded_ceiling, seeded_discovery, seeded_values,
}

-- A text is absent or within its bound.
unfoldable pub IsWithin : ℕ → Option String → Type 0
IsWithin maximum none = Unit
IsWithin maximum (some value) = utf16_length value ≤ maximum

-- A window is absent, or whole minutes and at least one.
unfoldable pub IsWindow : Option ℕ → Type 0
IsWindow none = Unit
IsWindow (some ms) = (60000 ≤ ms) × (ms % 60000 ≡ 0)

unfoldable pub IsUnder : Option ℕ → Option ℕ → Type 0
IsUnder (some ms) (some ceiling) = ms ≤ ceiling
IsUnder (some ms) none = Unit
IsUnder none ceiling = Unit

unfoldable pub IsValid : Option ℕ → Values → Type 0
unfolding IsWithin IsWindow IsUnder
IsValid ceiling v =
    IsWithin max_service_name_chars v.service_name
    × (1 ≤ v.default_size)
    × (1 ≤ v.default_threshold)
    × (v.default_threshold ≤ v.default_size)
    × IsWindow v.default_discovery_window_ms
    × IsUnder v.default_discovery_window_ms ceiling
    × IsWindow v.default_funding_window_ms
    × IsWithin max_terms_chars v.terms_text

pub too_long-IsWithin : (m : ℕ) (t : Option String) → too_long m t ≡ false → IsWithin m t
unfolding too_long IsWithin
too_long-IsWithin m none h = tt
too_long-IsWithin m (some value) h = ground arith

pub next_count-positive :
    (e : SettingsError) (w : Wire) (n : ℕ) {k : ℕ} → next_count e w n ≡ valid k → 1 ≤ k
unfolding next_count
next_count-positive e Wire.absent n h = ground arith
next_count-positive e Wire.null n h = ground arith
next_count-positive e (Wire.int m) n h = ground arith
next_count-positive e (Wire.negative m) n h = cc
next_count-positive e Wire.other n h = cc

whole_minutes-IsWindow :
    (e : SettingsError) (ms : ℕ) {w : Option ℕ} → whole_minutes e ms ≡ valid w → IsWindow w
unfolding whole_minutes IsWindow
whole_minutes-IsWindow e ms h =
    let parts = if-eq-valid (ltb ms one_minute_ms || not (nat_eq (ms % one_minute_ms) 0)) e h in
    subst IsWindow (parts.1) (ground (arith, parts.0))

kept_window-IsWindow :
    (e : SettingsError) (o : Option ℕ) {w : Option ℕ} → kept_window e o ≡ valid w → IsWindow w
unfolding kept_window IsWindow
kept_window-IsWindow e none h = subst IsWindow (valid-injective h) tt
kept_window-IsWindow e (some ms) h = whole_minutes-IsWindow e ms h

pub next_window-IsWindow :
    (e : SettingsError) (x : Wire) (o : Option ℕ) {w : Option ℕ}
    → next_window e x o ≡ valid w
    → IsWindow w
unfolding next_window IsWindow
next_window-IsWindow e Wire.absent o h = kept_window-IsWindow e o h
next_window-IsWindow e Wire.null o h = subst IsWindow (valid-injective h) tt
next_window-IsWindow e (Wire.int ms) o h = whole_minutes-IsWindow e ms h
next_window-IsWindow e (Wire.negative n) o h = cc
next_window-IsWindow e Wire.other o h = cc

pub under_ceiling-IsUnder :
    (w c : Option ℕ) (u : Unit {0}) → under_ceiling w c ≡ valid u → IsUnder w c
unfolding under_ceiling IsUnder
under_ceiling-IsUnder (some ms) (some ceiling) u h = ground (
  arith,
  problem_if-eq-valid (ltb ceiling ms) (SettingsError.discovery_window_ceiling_error ceiling) u h,
)
under_ceiling-IsUnder (some ms) none u h = tt
under_ceiling-IsUnder none c u h = tt

-- Seeds.
floor-IsWindow :
    (raw : Wire) → IsWindow (whole_minutes_at_or_below (numeric_knob raw none one_minute_ms))
unfolding whole_minutes_at_or_below numeric_knob IsWindow
floor-IsWindow Wire.absent = tt
floor-IsWindow Wire.null = tt
floor-IsWindow (Wire.int n) = elim (Bool-cases (ltb n one_minute_ms)) [
  | inl less ↦ rw less tt
  | inr enough ↦ rw enough (ground arith, ground arith)
]
floor-IsWindow (Wire.negative n) = tt
floor-IsWindow Wire.other = tt

-- Half of the seed: a text within its bound.
text_knob-IsWithin :
    (name : String) (t : Option String) (m : ℕ) → IsWithin m ((text_knob name t m).0)
unfolding text_knob IsWithin
text_knob-IsWithin name t m = elim (Bool-cases (too_long m (trim_to_undefined t))) [
  | inl long ↦ rw long tt
  | inr fits ↦ rw fits (too_long-IsWithin m (trim_to_undefined t) fits)
]

counted_knob-positive : (raw : Wire) (n : ℕ) → 1 ≤ n → 1 ≤ counted_knob raw n
unfolding counted_knob numeric_knob
counted_knob-positive Wire.absent n h = h
counted_knob-positive Wire.null n h = h
counted_knob-positive (Wire.int m) n h = elim (Bool-cases (ltb m 1)) [
  | inl less ↦ rw less h
  | inr enough ↦ rw enough (ground arith)
]
counted_knob-positive (Wire.negative m) n h = h
counted_knob-positive Wire.other n h = h

clamped-IsWindow :
    (o c : Option ℕ) → IsWindow o → IsWindow c → IsWindow (clamped o c) × IsUnder (clamped o c) c
unfolding clamped IsWindow IsUnder
clamped-IsWindow none c h g = (tt, tt)
clamped-IsWindow (some ms) none h g = (h, tt)
clamped-IsWindow (some ms) (some c) h g = elim (Bool-cases (ltb c ms)) [
  | inl above ↦ rw above (g, ground arith)
  | inr below ↦ rw below (h, ground arith)
]

-- Whole minutes stay as they are.
floor-whole : (o : Option ℕ) → IsWindow o → whole_minutes_at_or_below o ≡ o
unfolding whole_minutes_at_or_below IsWindow
floor-whole none h = refl
floor-whole (some ms) h = ap some (ground arith)

pub seeded_values-IsValid :
    (seed : RuntimeSettingsSeed) → IsValid (seeded_ceiling seed) (seeded_values seed)
unfolding IsValid seeded_values seeded_discovery seeded_ceiling
seeded_values-IsValid seed =
    let ceiling = floor-IsWindow seed.discovery_window_ceiling_ms in
    let raw = floor-IsWindow seed.default_discovery_window_ms in
    let size = counted_knob-positive seed.default_size 2 (ground arith) in
    let window = clamped-IsWindow _ _ raw ceiling in
    let kept = floor-whole _ (window.0) in
    (
      text_knob-IsWithin "SERVICE_NAME" seed.service_name max_service_name_chars,
      size,
      ground (
        arith,
        counted_knob-positive seed.default_threshold (counted_knob seed.default_size 2) size,
      ),
      ground arith,
      rw kept (window.0),
      rw kept (window.1),
      floor-IsWindow seed.default_funding_window_ms,
      text_knob-IsWithin "TERMS_TEXT" seed.terms_text max_terms_chars,
    )
