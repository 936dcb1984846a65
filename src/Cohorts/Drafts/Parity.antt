-- ===== src/Cohorts/Drafts/Parity.antt =====
-- packages/service/src/operator-cohorts.ts: create and edit beside each other, and what they store.
use btcr2_aggregation.Prelude.{
  ◌≡◌, ◌≤◌, ◌⊎◌, refl, sym, ap, subst, Bool, true, Option, none, some, String, ℕ, arith, inl, inr,
  Bool-cases,
}
use btcr2_aggregation.OrderedMap.{has, set}
use btcr2_aggregation.Cohorts.Config.{
  CohortConfig, RecoveryKeys, Result, ok, refused, ◌>>=◌, >>=-of_ok, BeaconType, recovery_key_of,
  hex_digits, lower_hex, fallback_guard, build_cohort_config,
}
use btcr2_aggregation.Cohorts.Draft.{
  Wire, text, DraftInput, CohortTtl, ValidDraft, threshold_or, validate_draft,
}
use btcr2_aggregation.Cohorts.Draft.Validation.{validate_draft-eq-ok_iff}
use btcr2_aggregation.Cohorts.State.{OperatorCohortDto, DraftEntry, Settings, Options, State}
use btcr2_aggregation.Cohorts.Drafts.{
  supplied, wire_or, beacon_or, with_service_defaults, draft_entry, create_draft, replace_draft,
  update_draft,
}

-- The recovery key that the service's options give: the operator's, which is 64 hexadecimal digits
-- and in lower case the x coordinate of a point, or the throwaway one.
abbrev pub RecoveryKeyOf : RecoveryKeys → Option String → String → Type 0
RecoveryKeyOf keys none key = key ≡ keys.throwaway
RecoveryKeyOf keys (some given) key =
    (hex_digits given 64 ≡ true) × (key ≡ lower_hex given) × (keys.is_point key ≡ true)

recovery_key_of-RecoveryKeyOf :
    (keys : RecoveryKeys) (o : Option String) (key : String)
    → recovery_key_of keys o ≡ ok key
    → RecoveryKeyOf keys o key
unfolding recovery_key_of
recovery_key_of-RecoveryKeyOf keys none key h = cc
recovery_key_of-RecoveryKeyOf keys (some given) key h = elim (Bool-cases (hex_digits given 64)) [
  | inr bad ↦ cc (rw bad at h)
  | inl digits ↦ elim (Bool-cases (keys.is_point (lower_hex given))) [
    | inr off ↦ cc (rw (digits, off) at h)
    | inl on ↦ let h' = rw (digits, on) at h in (digits, cc, cc)
  ]
]

-- A configuration that promises what the service can keep: as many seats as signers, and a
-- signing threshold between 1 and the seats, below them only with the stall fallback; and when that
-- fallback fails, a recovery with the key that the options give, after 144 blocks.
pub record Honest (keys : RecoveryKeys) (opts : Options) (c : CohortConfig) : Type 0 where
  pub pinned : c.max_participants ≡ some c.min_participants
  pub seated : 1 ≤ c.min_participants
  pub k : ℕ
  pub committed : c.fallback_threshold ≡ some k
  pub signed : 1 ≤ k
  pub reachable : k ≤ c.min_participants
  pub kept : (k ≡ c.min_participants) ⊎ (opts.auto_fallback_on_stall ≡ true)
  pub on_network : c.network ≡ opts.active_network
  pub recovery : RecoveryKeyOf keys opts.recovery_key c.recovery_key
  pub sequence : c.recovery_sequence ≡ 144

-- An answer of the create action, as an answer of the edit action.
abbrev pub as_update :
    {S : Type 0}
    → Result (State S × OperatorCohortDto)
    → Result (State S × Option OperatorCohortDto)
as_update (ok (s, dto)) = ok (s, some dto)
as_update (refused e) = refused e

threshold_or-wire_or :
    (w : Wire) (size : ℕ) → threshold_or (wire_or w Wire.absent) size ≡ threshold_or w size
unfolding threshold_or wire_or
threshold_or-wire_or Wire.absent size = refl
threshold_or-wire_or _ size = refl

-- A body that gives its beacon type and its size is validated as it is: no default enters.
validate-with_service_defaults :
    (settings : Option Settings) (input : DraftInput) (t : String) (fallback : Bool)
    (ttl : CohortTtl)
    → input.beacon_type ≡ text t
    → supplied input.size ≡ true
    → validate_draft (with_service_defaults settings input) fallback ttl
      ≡ validate_draft input fallback ttl
unfolding with_service_defaults validate_draft beacon_or
validate-with_service_defaults none input t fallback ttl b s = refl
validate-with_service_defaults (some d) input t fallback ttl b s =
    rw (b, s) (simp threshold_or-wire_or)

module _ {S : Type 0} (keys : RecoveryKeys) (opts : Options) where
  as_update_stored :
      (id : String) (s : State S) (m : Result ValidDraft) (build : ValidDraft → Result DraftEntry)
      → (m >>= λ v. build v >>= λ e. ok (record s { drafts = set id e s.drafts }, some e.dto))
        ≡ as_update
            (m >>= λ v. build v >>= λ e. ok (record s { drafts = set id e s.drafts }, e.dto))
  as_update_stored id s (refused e) build = refl
  as_update_stored id s (ok v) build = built (build v)
    where
      built :
          (r : Result DraftEntry)
          → (r >>= λ e. ok (record s { drafts = set id e s.drafts }, some e.dto))
            ≡ as_update (r >>= λ e. ok (record s { drafts = set id e s.drafts }, e.dto))
      built (ok e) = refl
      built (refused e) = refl

  -- Editing a draft with a body that gives its beacon type and its size does exactly what creating
  -- one under the same id with that body does: the same refusals, the same stored entry, the same
  -- row.
  pub update_draft-eq-create_draft :
      (id : String) (input : DraftInput) (t : String) (s : State S)
      → has id s.drafts ≡ true
      → input.beacon_type ≡ text t
      → supplied input.size ≡ true
      → update_draft keys opts id input s ≡ as_update (create_draft keys opts id input s)
  unfolding update_draft replace_draft create_draft
  update_draft-eq-create_draft id input t s there b size =
      rw
        (
          there,
          validate-with_service_defaults s.settings input t opts.auto_fallback_on_stall
              opts.cohort_ttl b size,
        )
        (as_update_stored id s (validate_draft input opts.auto_fallback_on_stall opts.cohort_ttl)
          (draft_entry keys opts s.settings id))

module _ (keys : RecoveryKeys) (opts : Options) where
  built_config :
      (n : ℕ) (b : BeaconType) (k : ℕ) (c : CohortConfig)
      → build_cohort_config keys n b opts.active_network opts.recovery_key (some k) ≡ ok c
      → (c.min_participants ≡ n)
        × (c.fallback_threshold ≡ some k)
        × (c.network ≡ opts.active_network)
        × (recovery_key_of keys opts.recovery_key ≡ ok c.recovery_key)
        × (c.recovery_sequence ≡ 144)
  unfolding build_cohort_config
  built_config n b k c h = >>=-of_ok (recovery_key_of keys opts.recovery_key) _ h λ key hk h1.
      >>=-of_ok (fallback_guard n (some k)) _ h1
        λ u hu h2. (ground arith, ground arith, ground arith, ground arith, ground arith)

  -- What a validated body is stored as is honest, and its row shows the configuration's numbers.
  pub draft_entry-Honest :
      (settings : Option Settings) (id : String) (input : DraftInput) (v : ValidDraft)
      (e : DraftEntry)
      → validate_draft input opts.auto_fallback_on_stall opts.cohort_ttl ≡ ok v
      → draft_entry keys opts settings id v ≡ ok e
      → Honest keys opts e.config
  unfolding draft_entry
  draft_entry-Honest settings id input v e hv h =
      let d = (validate_draft-eq-ok_iff input opts.auto_fallback_on_stall opts.cohort_ttl v).0 hv in
      >>=-of_ok
        (build_cohort_config keys v.size v.beacon_type opts.active_network opts.recovery_key
          (some v.threshold))
        _ h
        λ c hc h1.
          let (seats, committed, network, key, sequence) =
            built_config v.size v.beacon_type v.threshold c hc in
          let pinned_config : CohortConfig = record c { max_participants = some v.size } in
          let same : pinned_config ≡ e.config = ground arith in
          subst (Honest keys opts) same (record {
            pinned = ap some (sym seats);
            seated = rw seats d.seated;
            k = v.threshold;
            committed = committed;
            signed = d.signed;
            reachable = rw seats d.signed_by_seats;
            kept = rw seats d.promised;
            on_network = network;
            recovery = recovery_key_of-RecoveryKeyOf keys opts.recovery_key _ key;
            sequence = sequence;
          })
