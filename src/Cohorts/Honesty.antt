-- ===== src/Cohorts/Honesty.antt =====
-- packages/service/src/operator-cohorts.ts: what the configurations that the service holds promise.
use btcr2_aggregation.Prelude.{
  ◌+◌, ◌≡◌, ◌≢◌, ◌≤◌, ◌<◌, ◌||◌, ◌&&◌, refl, sym, ap, ◌∙◌, Bool, true, false, not, List, [], ◌∷◌,
  Option, none, some, String, ℕ, suc, if◌then◌else◌, ◌==◌, ◌⊎◌, inl, inr, arith, eq_iff, eq_refl,
  length, Bool-cases, Option-cases, subst,
}
use btcr2_aggregation.OrderedMap.{OrderedMap, get, has, set, delete, evict}
use btcr2_aggregation.OrderedMap.Laws.{Distinct, get-set, get-delete, set-Distinct}
use btcr2_aggregation.OrderedMap.Eviction.{get_of_evict}
use btcr2_aggregation.Intents.{CohortIntent, read}
use btcr2_aggregation.Cohorts.Config.{CohortConfig, RecoveryKeys, Result, ok, refused, ◌>>=◌}
use btcr2_aggregation.Cohorts.Draft.{DraftInput, DraftWindows, ValidDraft, validate_draft}
use btcr2_aggregation.Cohorts.State.{
  TerminalRecord, State, Runner, Options, Fate, Call, DraftEntry, max_terminal, arm_window_timer,
  arms_timer, note_advertised, remember_terminal, clear_window_timer, is_paused,
}
use btcr2_aggregation.Cohorts.Drafts.{
  create_draft, replace_draft, update_draft, discard_draft, draft_entry, with_service_defaults,
}
use btcr2_aggregation.Cohorts.Drafts.Parity.{Honest, draft_entry-Honest}
use btcr2_aggregation.Cohorts.Lifecycle.{
  launch, advertise_draft, advertise_entry, readvertise_expired, readvertise_record, drop_cohort,
  settle_completed, settle_rejected, file_terminal, fire_window_timer, cancel_cohort,
  finalize_cohort, finalized, carry_fate, still_live, forget_terminal, forget_record, stop_service,
  terminal_record, or_no_windows,
}
use btcr2_aggregation.Cohorts.Step.{
  Event, creates, updates, discards, advertises, readvertises, cancels, finalizes, forgets,
  completes, rejects, window_fires, progresses, changes_settings, stops_service, after, step,
  initial, Reach, fresh, next,
}
use btcr2_aggregation.Cohorts.Cases.{stored_cases, repair_cases}
use btcr2_aggregation.Cohorts.Invariant.{IsValid}
use btcr2_aggregation.Cohorts.Invariant.Steps.{Reach-IsValid}
pub mod Steps

-- Every entry that a table holds meets the property.
abbrev pub Every : {V : Type 0} → (V → Type 0) → OrderedMap V → Type 0
Every P m = (id : String) (x : _) → get id m ≡ some x → P x

module _ {V : Type 0} (P : V → Type 0) (k : String) (m : OrderedMap V) where
  pub set-Every : (v : V) → P v → Every P m → Every P (set k v m)
  set-Every v p all j x h = elim (Bool-cases (k == j)) [
    | inl same ↦ subst P (ground (arith, get-set j k v m)) p
    | inr other ↦ all j x (ground (arith, get-set j k v m))
  ]

  pub delete-Every : Distinct m → Every P m → Every P (delete k m)
  delete-Every d all j x h = all j x (ground (arith, get-delete j k m d))

  pub evict-Every : (limit : ℕ) → Distinct m → Every P m → Every P (evict limit m)
  evict-Every limit d all j x h = all j x (get_of_evict limit j x m d h)

module _ (keys : RecoveryKeys) (opts : Options) where
  -- Every draft, advertised cohort and terminal record has an honest configuration.
  abbrev pub AllHonest : {S : Type 0} → State S → Type 0
  AllHonest s =
      Every (λ (e : DraftEntry). Honest keys opts e.config) s.drafts
      × Every (λ (c : CohortConfig). Honest keys opts c) s.advertised
      × Every (λ (r : TerminalRecord). Honest keys opts r.config) s.terminal

  -- An action that stores a draft stores an honest one, or nothing.
  module _ {S : Type 0} {R : Type 0} (answer : DraftEntry → R) (id : String) (s : State S)
      (honest : AllHonest s) where
    stored-AllHonest :
        (m : Result ValidDraft) (build : ValidDraft → Result DraftEntry)
        → ((v : ValidDraft) (e : DraftEntry)
            → m ≡ ok v
            → build v ≡ ok e
            → Honest keys opts e.config)
        → AllHonest (
            after s
              (m >>= λ v. build v >>= λ e. ok (record s { drafts = set id e s.drafts }, answer e)))
    stored-AllHonest (refused e) build keep = honest
    stored-AllHonest (ok v) build keep = built (build v) (λ e h. keep v e refl h)
      where
        built :
            (r : Result DraftEntry)
            → ((e : DraftEntry) → r ≡ ok e → Honest keys opts e.config)
            → AllHonest
                (after s (r >>= λ e. ok (record s { drafts = set id e s.drafts }, answer e)))
        built (refused e) k = honest
        built (ok e) k = (
          set-Every (λ (d : DraftEntry). Honest keys opts d.config) id s.drafts e (k e refl)
              honest.0,
          honest.1,
          honest.2,
        )

  module _ {S : Type 0} (id : String) (input : DraftInput) (s : State S)
      (honest : AllHonest s) where
    pub create_draft-AllHonest : AllHonest (after s (create_draft keys opts id input s))
    unfolding create_draft
    create_draft-AllHonest =
        stored-AllHonest (λ e. e.dto) id s honest
          (validate_draft (with_service_defaults s.settings input) opts.auto_fallback_on_stall
            opts.cohort_ttl)
          (draft_entry keys opts s.settings id)
          (λ v e h k.
            draft_entry-Honest keys opts s.settings id (with_service_defaults s.settings input) v e
              h k)

    replace_draft-AllHonest : AllHonest (after s (replace_draft keys opts id input s))
    unfolding replace_draft
    replace_draft-AllHonest =
        stored-AllHonest (λ e. some e.dto) id s honest
          (validate_draft input opts.auto_fallback_on_stall opts.cohort_ttl)
          (draft_entry keys opts s.settings id)
          (λ v e h k. draft_entry-Honest keys opts s.settings id input v e h k)

    pub update_draft-AllHonest : AllHonest (after s (update_draft keys opts id input s))
    unfolding update_draft
    update_draft-AllHonest = elim (Bool-cases (has id s.drafts)) [
      | inl e ↦ rw e replace_draft-AllHonest
      | inr e ↦ rw e honest
    ]
