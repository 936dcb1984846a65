-- ===== src/Tests/Storage.antt =====
-- The properties of the stores and of the cohort form at concrete inputs.
use btcr2_aggregation.Prelude.{
  ◌≡◌, ◌==◌, not, if◌then◌else◌, refl, inl, inr, Bool-cases, Bool, true, List, [], ◌∷◌, none, some,
  String, All,
}
use btcr2_aggregation.Prelude.Checked.{valid, valid-injective}
use btcr2_aggregation.Store.{
  update, normalize_hex_key, Json, memory_artifact_store, file_system_artifact_store,
}
use btcr2_aggregation.OrderedMap.{values}
use btcr2_aggregation.Store.{map_of}
use btcr2_aggregation.Store.Maps.{IsOrdered}
use btcr2_aggregation.Store.Refinement.Memory.{memory-IsStore}
use btcr2_aggregation.Persist.{Hashes, PersistableCohort, persist_cohort_artifacts}
use btcr2_aggregation.Persist.Retrieval.{
  IsKey, IsRunning, IsFound, persist_cohort_artifacts-IsFound,
}
use btcr2_aggregation.Store.Refinement.{IsStore}
use btcr2_aggregation.Store.Refinement.Disk.{IsDisk, disk_view, file_system_artifact_store-IsStore}
use btcr2_aggregation.Store.Refinement.Traces.{
  Request, puts, gets, tests, deletes, answers, IsFitting, file_system-answers-memory,
}
use btcr2_aggregation.Cohorts.Config.{cas_beacon, ok}
use btcr2_aggregation.Cohorts.Draft.{Wire, CohortTtl, beacon_name, validate_draft}
use btcr2_aggregation.Cohorts.Draft.Validation.{FitsTtl}
use btcr2_aggregation.CohortForm.{parse_window, effective_ms, validate_cohort_form, draft_body}
use btcr2_aggregation.CohortForm.Agreement.{validate_cohort_form-validate_draft}

-- Texts, as JSON of themselves.
abbrev json : Json String
json = record { stringify = λ v. v; parse = λ text. some text }

abbrev too_long : String → Bool
too_long name = name == "ffff"

round_trip : (v : String) → json.parse (json.stringify v) ≡ some v
round_trip v = refl

file_system_artifact_store-IsStore_example :
    IsStore
      (file_system_artifact_store json too_long)
      (IsDisk json too_long round_trip)
      (disk_view json too_long round_trip)
      (λ key. not (too_long key))
file_system_artifact_store-IsStore_example =
    file_system_artifact_store-IsStore json too_long round_trip

abbrev requests : List (Request String)
requests =
    puts update "AB" "u"
    ∷ gets update "ab"
    ∷ gets update "xyz"
    ∷ deletes update "ab"
    ∷ tests update "ab"
    ∷ []

ab_fits : (k : String) → normalize_hex_key "AB" ≡ valid k → not (too_long k) ≡ true
unfolding normalize_hex_key
ab_fits k h = let same : "ab" ≡ k = valid-injective h in rw (← same) refl

fitting : All (IsFitting (λ key. not (too_long key))) requests
unfolding IsFitting
fitting = (ab_fits, (tt, (tt, (tt, (tt, tt)))))

file_system-answers-memory_example :
    answers (file_system_artifact_store json too_long) requests []
    ≡ answers (memory_artifact_store {V = String}) requests []
file_system-answers-memory_example =
    file_system-answers-memory json too_long round_trip requests fitting

abbrev hash : String → String
hash v = if v == "u" then "ab" else "cd"

abbrev hashes : Hashes String
hashes = record { canonical_hash = hash; proof_key = λ v. none }

abbrev completed : PersistableCohort String
completed = record {
  pending_updates = ("did:a", "u") ∷ ("did:b", "w") ∷ [];
  cas_announcement = none;
  smt_proofs = [];
}

no_files : IsOrdered {V = String} []
unfolding IsOrdered map_of
no_files kind = tt

hash-IsKey : (v : String) → IsKey memory_artifact_store hashes memory-IsStore (hash v)
unfolding IsKey normalize_hex_key
hash-IsKey v = elim (Bool-cases (v == "u")) [
  | inl u ↦ rw u (refl, refl)
  | inr other ↦ rw other (refl, refl)
]

no_proof-IsKey :
    (v k : String)
    → hashes.proof_key v ≡ some k
    → IsKey memory_artifact_store hashes memory-IsStore k
unfolding IsKey
no_proof-IsKey v k h = (cc, cc)

persist_cohort_artifacts-IsFound_example :
    IsRunning memory_artifact_store hashes memory-IsStore
      (persist_cohort_artifacts memory_artifact_store hashes completed [])
    × All
        (IsFound memory_artifact_store hashes memory-IsStore
          (persist_cohort_artifacts memory_artifact_store hashes completed []).state)
        (values completed.pending_updates)
persist_cohort_artifacts-IsFound_example =
    persist_cohort_artifacts-IsFound memory_artifact_store hashes memory-IsStore completed []
      no_files hash-IsKey no_proof-IsKey

abbrev number : String → Wire
number text = if text == "2" then Wire.int 2 else Wire.other

form_passes :
    validate_cohort_form (record {
      size = Wire.int 3;
      threshold = Wire.int 2;
      discovery = parse_window number "2";
      funding = parse_window number "";
    })
    ≡ none
unfolding validate_cohort_form parse_window
form_passes = refl

two_minutes_fit : FitsTtl (effective_ms (parse_window number "2") none) CohortTtl.unset
unfolding parse_window effective_ms
two_minutes_fit = tt

validate_cohort_form-validate_draft_example :
    validate_draft
      (draft_body (beacon_name cas_beacon) (record {
        size = Wire.int 3;
        threshold = Wire.int 2;
        discovery = parse_window number "2";
        funding = parse_window number "";
      }))
      true
      CohortTtl.unset
    ≡ ok (record {
      beacon_type = cas_beacon;
      size = 3;
      threshold = 2;
      windows = record {
        discovery_window_ms = effective_ms (parse_window number "2") none;
        funding_window_ms = effective_ms (parse_window number "") none;
      };
    })
validate_cohort_form-validate_draft_example =
    validate_cohort_form-validate_draft number "2" "" cas_beacon 3 2 true CohortTtl.unset
      form_passes (inr refl) two_minutes_fit
