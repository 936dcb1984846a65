-- ===== src/Cohorts/Config.antt =====
-- packages/shared/src/index.ts, `buildCohortConfig`: the cohort conditions that are advertised.
-- The test that an x-only key lifts to a curve point (`p2tr`) and the throwaway recovery key
-- (`deriveRecoveryKey`, which draws random bytes) are parameters.
use Prim.Native.Char.{Char, code}
use btcr2_aggregation.Prelude.{
  ◌-◌, ◌≡◌, ◌||◌, ◌&&◌, Bool, true, false, not, Option, none, some, String, ℕ, if◌then◌else◌, ltb,
  leb, nat_eq, refl,
}

pub data BeaconType : Type 0 where
  cas_beacon smt_beacon : BeaconType

-- The fields of the library's `CohortConfig` that this repository sets.
pub record CohortConfig : Type 0 where
  pub beacon_type : BeaconType
  pub min_participants : ℕ
  pub max_participants : Option ℕ
  pub network : String
  pub recovery_key : String
  pub recovery_sequence : ℕ
  pub fallback_threshold : Option ℕ

-- What the curve library and the random source answer.
pub record RecoveryKeys : Type 0 where
  pub is_point : String → Bool
  pub throwaway : String

-- The user-facing refusals of a draft, in the order in which the two functions make them.
pub data DraftError : Type 0 where
  unknown_beacon_type : DraftError
  size_error : DraftError
  threshold_error : DraftError
  fallback_off_error : DraftError
  discovery_window_error : DraftError
  funding_window_error : DraftError
  discovery_window_ceiling_error : ℕ → DraftError
  recovery_key_shape : DraftError
  recovery_key_off_curve : DraftError
  fallback_threshold_range : DraftError

pub data Result {ℓ} (A : Type ℓ) : Type ℓ where
  ok : A → Result A
  refused : DraftError → Result A

-- The next statement runs on what the last one gives, and not at all after a throw.
module _ {κ} {B : Type κ} where
  infixl 5 ◌>>=◌
  abbrev pub ◌>>=◌ {ℓ} : {A : Type ℓ} → Result A → (A → Result B) → Result B
  refused e >>= next = refused e
  ok a >>= next = next a

  infixl 5 ◌>>◌
  abbrev pub ◌>>◌ : Result (Unit {0}) → Result B → Result B
  check >> after = check >>= λ done. after

-- `if (bad) throw e`.
abbrev pub reject_if : Bool → DraftError → Result (Unit {0})
reject_if true e = refused e
reject_if false e = ok tt

is_hex_digit : ℕ → Bool
is_hex_digit c =
    (leb b'0' c && leb c b'9') || (leb b'a' c && leb c b'f') || (leb b'A' c && leb c b'F')

-- `/^[0-9a-f]{64}$/i`, by the number of digits that are still to come.
pub hex_digits : String → ℕ → Bool
unfolding is_hex_digit
hex_digits String.[] n = nat_eq n 0
hex_digits (String.◌∷◌ c s) n = ltb 0 n && is_hex_digit (code c) && hex_digits s (n - 1)

-- The case fold of a hexadecimal digit: `toLowerCase` on a text that passed the test above.
lower_digit : Char → Char
lower_digit c =
    if nat_eq (code c) b'A'
    then "a"
    else if nat_eq (code c) b'B'
    then "b"
    else if nat_eq (code c) b'C'
    then "c"
    else if nat_eq (code c) b'D'
    then "d"
    else if nat_eq (code c) b'E'
    then "e"
    else if nat_eq (code c) b'F'
    then "f"
    else c

pub lower_hex : String → String
unfolding lower_digit
lower_hex String.[] = String.[]
lower_hex (String.◌∷◌ c s) = String.◌∷◌ (lower_digit c) (lower_hex s)

-- The recovery key of a configuration: the operator's, checked and in lower case, or a throwaway.
unfoldable pub recovery_key_of : RecoveryKeys → Option String → Result String
unfolding hex_digits lower_hex
recovery_key_of keys none = ok keys.throwaway
recovery_key_of keys (some key) = do
  reject_if (not (hex_digits key 64)) recovery_key_shape
  reject_if (not (keys.is_point (lower_hex key))) recovery_key_off_curve
  ok (lower_hex key)

-- A given fallback threshold must lie in [1, participants].
pub fallback_guard : ℕ → Option ℕ → Result (Unit {0})
fallback_guard participants none = ok tt
fallback_guard participants (some k) =
    reject_if (ltb k 1 || ltb participants k) fallback_threshold_range

unfoldable pub build_cohort_config :
    RecoveryKeys → ℕ → BeaconType → String → Option String → Option ℕ → Result CohortConfig
unfolding recovery_key_of fallback_guard
build_cohort_config keys participants beacon_type network recovery_key fallback_threshold = do
  key ← recovery_key_of keys recovery_key
  fallback_guard participants fallback_threshold
  ok (record {
    beacon_type = beacon_type;
    min_participants = participants;
    max_participants = none;
    network = network;
    recovery_key = key;
    recovery_sequence = 144;
    fallback_threshold = fallback_threshold;
  })

-- Inversion of a successful bind: what follows may assume that both parts succeed.
pub >>=-of_ok {ℓ κ ι} :
    {A : Type ℓ} {B : Type κ} {P : Type ι} (m : Result A) (f : A → Result B) {b : B}
    → (m >>= f) ≡ ok b
    → ((a : A) → m ≡ ok a → f a ≡ ok b → P)
    → P
>>=-of_ok (ok a) f h k = k a refl h
>>=-of_ok (refused e) f h k = cc
