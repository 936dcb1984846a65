-- ===== src/Cohorts/Fate.antt =====
-- The fate of a cohort: the record that a settlement files, and the one anonymous bit that it
-- leaves, from `cancelCohort` and the timers to `settleCompletion`, `forgetTerminal` and
-- `cohortFate` of packages/service/src/operator-cohorts.ts.
pub mod Dismissal
pub mod Narration
pub mod Traces
pub mod Origin
use btcr2_aggregation.Prelude.{
  ◌+◌, ◌≡◌, ◌≤◌, ◌<◌, ◌||◌, ◌&&◌, refl, sym, ◌∙◌, Bool, true, false, not, List, [], ◌∷◌, Option,
  none, some, String, ℕ, suc, if◌then◌else◌, ◌==◌, ◌⊎◌, inl, inr, arith, eq_iff, eq_refl, length,
  Bool-cases, Option-cases, subst,
}
use btcr2_aggregation.OrderedMap.{OrderedMap, get, has, set, delete, evict}
use btcr2_aggregation.OrderedMap.Laws.{
  Distinct, get-set, get-delete, has-set, has-delete, has_of_get, get_of_absent,
}
use btcr2_aggregation.OrderedMap.Bounds.{get-remember_self}
use btcr2_aggregation.OrderedMap.Eviction.{get-evict-set, evict-set_room}
use btcr2_aggregation.Intents.{CohortIntent, canceled, window_expired, declare, clear, read}
use btcr2_aggregation.Cohorts.Config.{CohortConfig}
use btcr2_aggregation.Cohorts.Draft.{DraftWindows}
use btcr2_aggregation.Cohorts.State.{
  TerminalRecord, State, Runner, Options, Fate, max_terminal, max_dismissed_canceled,
  repair_advert_slot, remember_terminal, clear_window_timer, Call,
}
use btcr2_aggregation.Cohorts.Lifecycle.{
  drop_cohort, settle_completed, settle_rejected, file_terminal, fire_window_timer, cancel_cohort,
  carry_fate, still_live, forget_terminal, forget_record, terminal_record, or_no_windows,
  canceled_reason, window_expired_reason,
}
use btcr2_aggregation.Cohorts.Reads.{cohort_fate, is_canceled_record}
use btcr2_aggregation.Cohorts.Cases.{repair_cases}
use btcr2_aggregation.Cohorts.Invariant.{IsValid}

-- What is left of a cohort that has settled: nothing but its terminal record, if any.
pub record IsSettled {S : Type 0} (id : String) (s : State S) : Type 0 where
  pub not_advertised : get id s.advertised ≡ none
  pub no_windows : get id s.advertised_windows ≡ none
  pub no_timer : get id s.window_timers ≡ none
  pub no_intent : read id s.intents ≡ none

module _ {S : Type 0} (runner : Runner S) (opts : Options) where
  get-delete_self :
      {V : Type 0} (k : String) (m : OrderedMap V) → Distinct m → get k (delete k m) ≡ none
  get-delete_self k m d = rw (get-delete k k m d, eq_refl k)

  drop_cohort-IsSettled :
      (id : String) (s : State S) → IsValid s → IsSettled id (drop_cohort runner opts id s)
  unfolding drop_cohort clear_window_timer clear read
  drop_cohort-IsSettled id s v = record {
    not_advertised = get-delete_self id s.advertised v.4.advertised_distinct;
    no_windows = get-delete_self id s.advertised_windows v.4.windows_distinct;
    no_timer = get-delete_self id s.window_timers v.4.timers_bounded.distinct;
    no_intent = get-delete_self id s.intents v.3.distinct;
  }

  -- A cohort whose completion resolves leaves every table, and files no record: the terminal
  -- records and the dismissed fates are as they were.
  pub settle_completed-IsSettled :
      (id : String) (s : State S)
      → IsValid s
      → IsSettled id (settle_completed runner opts id s)
        × ((settle_completed runner opts id s).terminal ≡ s.terminal)
        × ((settle_completed runner opts id s).dismissed_canceled ≡ s.dismissed_canceled)
  unfolding settle_completed drop_cohort clear_window_timer
  settle_completed-IsSettled id s v =
      repair_cases runner opts
        (λ t.
          IsSettled id t
          × (t.terminal ≡ s.terminal)
          × (t.dismissed_canceled ≡ s.dismissed_canceled))
        id (drop_cohort runner opts id s) λ owner calls. (settled_again owner calls, refl, refl)
    where
      settled_again :
          (owner : Option String) (calls : List Call)
          → IsSettled id
              (record (drop_cohort runner opts id s) { advert_slot_owner = owner; calls = calls })
      settled_again owner calls =
          let d = drop_cohort-IsSettled id s v in
          record {
            not_advertised = d.not_advertised;
            no_windows = d.no_windows;
            no_timer = d.no_timer;
            no_intent = d.no_intent;
          }

  IsSettled-frame :
      {id : String} {s : State S}
      → IsSettled id s
      → (t : State S) → t.advertised ≡ s.advertised
      → t.advertised_windows ≡ s.advertised_windows
      → t.window_timers ≡ s.window_timers
      → t.intents ≡ s.intents
      → IsSettled id t
  IsSettled-frame d t a w x i = record {
    not_advertised = rw a d.not_advertised;
    no_windows = rw w d.no_windows;
    no_timer = rw x d.no_timer;
    no_intent = rw i d.no_intent;
  }

  -- A rejection of an advertised cohort settles it and files one record: the configuration and
  -- windows that it was advertised with, and the fate that the declared intent decides.
  pub settle_rejected_files :
      (id message : String) (c : CohortConfig) (s : State S)
      → IsValid s
      → get id s.advertised ≡ some c
      → let t = settle_rejected runner opts id message s in
        IsSettled id t
        × (get id t.terminal
            ≡ some (
                terminal_record
                  (read id s.intents)
                  c
                  message
                  (or_no_windows (get id s.advertised_windows))))
        × (t.dismissed_canceled ≡ s.dismissed_canceled)
  unfolding settle_rejected remember_terminal drop_cohort clear_window_timer
  settle_rejected_files id message c s v e =
      let r =
        terminal_record (read id s.intents) c message
          (or_no_windows (get id s.advertised_windows)) in
      rw e (
        repair_cases runner opts
          (λ t.
            IsSettled id t
            × (get id t.terminal ≡ some r)
            × (t.dismissed_canceled ≡ s.dismissed_canceled))
          id (remember_terminal id r (drop_cohort runner opts id s))
          λ owner calls. (
            IsSettled-frame (drop_cohort-IsSettled id s v) _ refl refl refl refl,
            get-evict-set 23 id r s.terminal v.1.bounded,
            refl,
          ))

  -- The state after a cancel, up to the advert slot and the calls.
  pub cancel_cohort_cases {ℓ} :
      (P : State S → Type ℓ) (id : String) (s : State S)
      → has id s.advertised ≡ true
      → ((session : S) (owner : Option String) (calls : List Call)
          → P (record s {
            session = session;
            window_timers = delete id s.window_timers;
            intents = declare id canceled s.intents;
            advert_slot_owner = owner;
            calls = calls;
          }))
      → P (cancel_cohort runner opts id s).0
  unfolding cancel_cohort clear_window_timer
  cancel_cohort_cases P id s live keep =
      rw live (repair_cases runner opts P id _ λ owner calls. keep _ owner calls)

  pub read-declare :
      (id : String) (i : CohortIntent) (s : State S)
      → IsValid s
      → read id (declare id i s.intents) ≡ some i
  unfolding read declare
  read-declare id i s v = get-remember_self 23 id i s.intents v.3.distinct

  -- The state after the window timer of a cohort fired.
  pub fire_window_timer_lem :
      (id : String) (s : State S)
      → IsValid s
      → has id s.window_timers ≡ true
      → let t = fire_window_timer runner opts id s in
        (t.advertised ≡ s.advertised)
        × (t.advertised_windows ≡ s.advertised_windows)
        × (t.dismissed_canceled ≡ s.dismissed_canceled)
        × (read id t.intents ≡ some window_expired)
  unfolding fire_window_timer
  fire_window_timer_lem id s v armed =
      rw armed (refl, refl, refl, read-declare id window_expired s v)
