-- ===== src/Settings/Merging.antt =====
-- packages/service/src/runtime-settings.ts: what a save makes of each value, and the checks on it.
use btcr2_aggregation.Prelude.{
  ◌≡◌, ◌==◌, ◌≤◌, Bool, true, false, Option, none, some, String, ℕ, if◌then◌else◌, ltb, refl, sym,
  ap, subst, arith, eq_iff,
}
use btcr2_aggregation.Prelude.Checked.{
  valid, problem, problem_if, problem_if-eq-valid, if-eq-valid, valid-injective,
}
use btcr2_aggregation.Cohorts.Config.{BeaconType, cas_beacon, smt_beacon}
use btcr2_aggregation.Cohorts.Draft.{Wire, WireText, beacon_name}
use btcr2_aggregation.Settings.{
  SettingsError, Values, SettingsPatch, trim_to_undefined, too_long, next_count, whole_minutes,
  kept_window, next_window, under_ceiling, next_text, next_beacon_type,
}
use btcr2_aggregation.Settings.Validity.{IsWithin, IsWindow, IsUnder}

-- What a field of the body makes of a value.
unfoldable pub MergesText : Option String → Option String → Option String → Type 0
MergesText none current new = new ≡ current
MergesText (some value) current new = new ≡ trim_to_undefined (some value)

unfoldable pub MergesBeacon : WireText → BeaconType → BeaconType → Type 0
MergesBeacon WireText.absent current new = new ≡ current
MergesBeacon WireText.null current new = new ≡ current
MergesBeacon (WireText.text t) current new = t ≡ beacon_name new
MergesBeacon WireText.other current new = ⊥

unfoldable pub MergesCount : Wire → ℕ → ℕ → Type 0
MergesCount Wire.absent current new = new ≡ current
MergesCount Wire.null current new = new ≡ current
MergesCount (Wire.int n) current new = new ≡ n
MergesCount (Wire.negative n) current new = ⊥
MergesCount Wire.other current new = ⊥

unfoldable pub MergesWindow : Wire → Option ℕ → Option ℕ → Type 0
MergesWindow Wire.absent current new = new ≡ current
MergesWindow Wire.null current new = new ≡ none
MergesWindow (Wire.int ms) current new = new ≡ some ms
MergesWindow (Wire.negative n) current new = ⊥
MergesWindow Wire.other current new = ⊥

-- `new` is what the body makes of `current`, before any check.
unfoldable pub Merges : SettingsPatch → Values → Values → Type 0
unfolding MergesText MergesBeacon MergesCount MergesWindow
Merges patch current new =
    MergesText patch.service_name current.service_name new.service_name
    × MergesBeacon patch.default_beacon_type current.default_beacon_type new.default_beacon_type
    × MergesCount patch.default_size current.default_size new.default_size
    × MergesCount patch.default_threshold current.default_threshold new.default_threshold
    × MergesWindow patch.default_discovery_window_ms current.default_discovery_window_ms
        new.default_discovery_window_ms
    × MergesWindow patch.default_funding_window_ms current.default_funding_window_ms
        new.default_funding_window_ms
    × MergesText patch.terms_text current.terms_text new.terms_text

pub next_text-MergesText : (x o : Option String) → MergesText x o (next_text x o)
unfolding MergesText next_text
next_text-MergesText none o = refl
next_text-MergesText (some value) o = refl

pub MergesText-next_text :
    (x o : Option String) {n : Option String} → MergesText x o n → next_text x o ≡ n
unfolding MergesText next_text
MergesText-next_text none o h = sym h
MergesText-next_text (some value) o h = sym h

pub named_beacon :
    (t : String) (cas smt : Bool) {n : BeaconType}
    → (t == "CASBeacon") ≡ cas
    → (t == "SMTBeacon") ≡ smt
    → (if cas
        then valid cas_beacon
        else if smt
        then valid smt_beacon
        else problem SettingsError.beacon_type_error)
      ≡ valid n
    → t ≡ beacon_name n
unfolding beacon_name
named_beacon t true smt c s h =
    subst (λ n. t ≡ beacon_name n) (valid-injective h) ((eq_iff t "CASBeacon").0 c)
named_beacon t false true c s h =
    subst (λ n. t ≡ beacon_name n) (valid-injective h) ((eq_iff t "SMTBeacon").0 s)
named_beacon t false false c s h = cc

pub next_beacon_type-MergesBeacon :
    (x : WireText) (b : BeaconType) {n : BeaconType}
    → next_beacon_type x b ≡ valid n
    → MergesBeacon x b n
unfolding next_beacon_type MergesBeacon beacon_name
next_beacon_type-MergesBeacon WireText.absent b h = sym (valid-injective h)
next_beacon_type-MergesBeacon WireText.null b h = sym (valid-injective h)
next_beacon_type-MergesBeacon (WireText.text t) b h = named_beacon t _ _ refl refl h
next_beacon_type-MergesBeacon WireText.other b h = cc

pub MergesBeacon-next_beacon_type :
    (x : WireText) (b n : BeaconType) → MergesBeacon x b n → next_beacon_type x b ≡ valid n
unfolding next_beacon_type MergesBeacon beacon_name
MergesBeacon-next_beacon_type WireText.absent b n h = ap valid (sym h)
MergesBeacon-next_beacon_type WireText.null b n h = ap valid (sym h)
MergesBeacon-next_beacon_type (WireText.text t) b cas_beacon h = rw h refl
MergesBeacon-next_beacon_type (WireText.text t) b smt_beacon h = rw h refl
MergesBeacon-next_beacon_type WireText.other b n h = elim h [ ]

pub next_count-MergesCount :
    (e : SettingsError) (x : Wire) (c : ℕ) {n : ℕ} → next_count e x c ≡ valid n → MergesCount x c n
unfolding next_count MergesCount
next_count-MergesCount e Wire.absent c h = sym ((if-eq-valid _ e h).1)
next_count-MergesCount e Wire.null c h = sym ((if-eq-valid _ e h).1)
next_count-MergesCount e (Wire.int m) c h = sym ((if-eq-valid _ e h).1)
next_count-MergesCount e (Wire.negative m) c h = cc
next_count-MergesCount e Wire.other c h = cc

pub counted :
    (e : SettingsError) (m n : ℕ)
    → 1 ≤ n
    → n ≡ m
    → (if ltb m 1 then problem e else valid m) ≡ valid n
counted e m n h same = ground arith

pub MergesCount-next_count :
    (e : SettingsError) (x : Wire) (c n : ℕ)
    → MergesCount x c n
    → 1 ≤ n
    → next_count e x c ≡ valid n
unfolding next_count MergesCount
MergesCount-next_count e Wire.absent c n h p = counted e c n p h
MergesCount-next_count e Wire.null c n h p = counted e c n p h
MergesCount-next_count e (Wire.int m) c n h p = counted e m n p h
MergesCount-next_count e (Wire.negative m) c n h p = elim h [ ]
MergesCount-next_count e Wire.other c n h p = elim h [ ]

pub next_window-MergesWindow :
    (e : SettingsError) (x : Wire) (o : Option ℕ) {n : Option ℕ}
    → next_window e x o ≡ valid n
    → MergesWindow x o n
unfolding next_window kept_window whole_minutes MergesWindow
next_window-MergesWindow e Wire.absent none h = sym (valid-injective h)
next_window-MergesWindow e Wire.absent (some ms) h = sym ((if-eq-valid _ e h).1)
next_window-MergesWindow e Wire.null o h = sym (valid-injective h)
next_window-MergesWindow e (Wire.int ms) o h = sym ((if-eq-valid _ e h).1)
next_window-MergesWindow e (Wire.negative m) o h = cc
next_window-MergesWindow e Wire.other o h = cc

pub windowed : (e : SettingsError) (o : Option ℕ) → IsWindow o → kept_window e o ≡ valid o
unfolding kept_window whole_minutes IsWindow
windowed e none h = refl
windowed e (some ms) h = ground arith

pub MergesWindow-next_window :
    (e : SettingsError) (x : Wire) (o n : Option ℕ)
    → MergesWindow x o n
    → IsWindow n
    → next_window e x o ≡ valid n
unfolding next_window MergesWindow kept_window
MergesWindow-next_window e Wire.absent o n h w = rw (sym h) (windowed e n w)
MergesWindow-next_window e Wire.null o n h w = ap valid (sym h)
MergesWindow-next_window e (Wire.int ms) o n h w =
    subst (λ k. kept_window e k ≡ valid n) h (windowed e n w)
MergesWindow-next_window e (Wire.negative m) o n h w = elim h [ ]
MergesWindow-next_window e Wire.other o n h w = elim h [ ]

pub IsWithin-too_long : (m : ℕ) (t : Option String) → IsWithin m t → too_long m t ≡ false
unfolding too_long IsWithin
IsWithin-too_long m none h = refl
IsWithin-too_long m (some value) h = ground arith

pub IsUnder-under_ceiling : (w c : Option ℕ) → IsUnder w c → under_ceiling w c ≡ valid tt
unfolding under_ceiling IsUnder
IsUnder-under_ceiling (some ms) (some ceiling) h = ground arith
IsUnder-under_ceiling (some ms) none h = refl
IsUnder-under_ceiling none c h = refl

pub not_above : (size threshold : ℕ) → threshold ≤ size → ltb size threshold ≡ false
not_above size threshold h = ground arith

pub below-size :
    (size threshold : ℕ) (u : Unit {0})
    → problem_if (ltb size threshold) SettingsError.threshold_error ≡ valid u
    → threshold ≤ size
below-size size threshold u h =
    ground (arith, problem_if-eq-valid (ltb size threshold) SettingsError.threshold_error u h)
