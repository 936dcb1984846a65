-- ===== src/Cohorts/Cases.antt =====
-- Case analysis on the operations of packages/service/src/operator-cohorts.ts: what an action
-- may do to the state.
use mathlib.Core.List.{reverse}
use btcr2_aggregation.Prelude.{◌&&◌, List, Option, none, some, String, inl, inr, Bool-cases}
use btcr2_aggregation.OrderedMap.{has, set}
use btcr2_aggregation.Cohorts.Config.{CohortConfig, RecoveryKeys, Result, ok, refused, ◌>>=◌}
use btcr2_aggregation.Cohorts.Draft.{DraftInput, ValidDraft, validate_draft}
use btcr2_aggregation.Cohorts.State.{
  DraftEntry, State, Runner, Options, repair_advert_slot, find_open, owns_slot, reinstall, Call,
}
use btcr2_aggregation.Cohorts.Drafts.{
  create_draft, update_draft, replace_draft, draft_entry, with_service_defaults,
}
use btcr2_aggregation.Cohorts.Step.{after}

-- An action that stores a draft either fails, and changes nothing, or adds one entry.
module _ {S : Type 0} {R : Type 0} (P : State S → Type 0) (id : String) (s : State S)
    (answer : DraftEntry → R) (failed : P s)
    (stored : (e : DraftEntry) → P (record s { drafts = set id e s.drafts })) where
  abbrev pub store : DraftEntry → Result (State S × R)
  store e = ok (record s { drafts = set id e s.drafts }, answer e)

  built_cases : (m : Result DraftEntry) → P (after s (m >>= store))
  built_cases (ok e) = stored e
  built_cases (refused e) = failed

  pub stored_cases :
      (m : Result ValidDraft) (build : ValidDraft → Result DraftEntry)
      → P (after s (m >>= λ v. build v >>= store))
  stored_cases (ok v) build = built_cases (build v)
  stored_cases (refused e) build = failed

module _ {S : Type 0} (keys : RecoveryKeys) (opts : Options) (P : State S → Type 0) (id : String)
    (input : DraftInput) (s : State S) (failed : P s)
    (stored : (e : DraftEntry) → P (record s { drafts = set id e s.drafts })) where
  pub create_draft_cases : P (after s (create_draft keys opts id input s))
  unfolding create_draft
  create_draft_cases =
      stored_cases P id s (λ e. e.dto) failed stored
        (validate_draft (with_service_defaults s.settings input) opts.auto_fallback_on_stall
          opts.cohort_ttl)
        (draft_entry keys opts s.settings id)

  replace_draft_cases : P (after s (replace_draft keys opts id input s))
  unfolding replace_draft
  replace_draft_cases =
      stored_cases P id s (λ e. some e.dto) failed stored
        (validate_draft input opts.auto_fallback_on_stall opts.cohort_ttl)
        (draft_entry keys opts s.settings id)

  pub update_draft_cases : P (after s (update_draft keys opts id input s))
  unfolding update_draft
  update_draft_cases = elim (Bool-cases (has id s.drafts)) [
    | inl e ↦ rw e replace_draft_cases
    | inr e ↦ rw e failed
  ]

module _ {S : Type 0} (runner : Runner S) (opts : Options) where
  -- A repair touches the owner of the advert slot and the calls, and nothing else.
  pub repair_cases {ℓ} :
      (P : State S → Type ℓ) (id : String) (s : State S)
      → ((owner : Option String) (calls : List Call)
          → P (record s { advert_slot_owner = owner; calls = calls }))
      → P (repair_advert_slot runner opts id s)
  unfolding repair_advert_slot
  repair_cases P id s keep =
      elim (Bool-cases (opts.has_republisher && owns_slot s.advert_slot_owner id)) [
        | inr e ↦ rw e (keep s.advert_slot_owner s.calls)
        | inl e ↦ rw e (reinstalled (find_open runner s.session (reverse s.advertised)))
      ]
    where
      reinstalled : (o : Option (String × CohortConfig)) → P (reinstall runner o s)
      reinstalled none = keep _ _
      reinstalled (some (cohort_id, config)) = keep _ _
