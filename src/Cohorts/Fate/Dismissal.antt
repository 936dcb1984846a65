-- ===== src/Cohorts/Fate/Dismissal.antt =====
-- packages/service/src/operator-cohorts.ts: the dismissal of a terminal record, `forgetTerminal`,
-- beside the anonymous fate, `cohortFate`.
use btcr2_aggregation.Prelude.{
  ◌≡◌, ◌<◌, ◌||◌, refl, ap, some, String, inl, inr, arith, eq_iff, length, Bool-cases, Option-cases,
}
use btcr2_aggregation.OrderedMap.{get, has, set, delete}
use btcr2_aggregation.OrderedMap.Laws.{get-delete, has-set}
use btcr2_aggregation.OrderedMap.Eviction.{evict-set_room}
use btcr2_aggregation.Cohorts.State.{
  TerminalRecord, State, Runner, Options, Fate, max_dismissed_canceled,
}
use btcr2_aggregation.Cohorts.Lifecycle.{carry_fate, still_live, forget_terminal}
use btcr2_aggregation.Cohorts.Reads.{cohort_fate, is_canceled_record}
use btcr2_aggregation.Cohorts.Invariant.{IsValid}

module _ {S : Type 0} (runner : Runner S) (opts : Options) where
  fate_of_expired :
      (j id : String) (r : TerminalRecord) (s : State S)
      → IsValid s
      → get id s.terminal ≡ some r
      → r.fate ≡ Fate.expired
      → is_canceled_record (get j (delete id s.terminal)) ≡ is_canceled_record (get j s.terminal)
  fate_of_expired j id r s v e f =
      ground (arith, get-delete j id s.terminal v.1.distinct, eq_iff id j)

  fate_of_canceled :
      (j id : String) (r : TerminalRecord) (s : State S)
      → IsValid s
      → get id s.terminal ≡ some r
      → r.fate ≡ Fate.canceled
      → (is_canceled_record (get j (delete id s.terminal))
          || has j (set id tt s.dismissed_canceled))
        ≡ (is_canceled_record (get j s.terminal) || has j s.dismissed_canceled)
  fate_of_canceled j id r s v e f = ground (
    arith,
    get-delete j id s.terminal v.1.distinct,
    has-set j id tt s.dismissed_canceled,
    eq_iff id j,
  )

  -- Dismissing a terminal record changes the anonymous fate of no cohort, while fewer than 24
  -- dismissed cancels are retained: the record goes, the answer stays.
  pub cohort_fate-forget_terminal :
      (j id : String) (s : State S)
      → IsValid s
      → length s.dismissed_canceled < max_dismissed_canceled
      → cohort_fate j (forget_terminal runner opts id s).0 ≡ cohort_fate j s
  unfolding cohort_fate forget_terminal carry_fate
  cohort_fate-forget_terminal j id s v room = elim (Option-cases (get id s.terminal)) [
    | inl e ↦ rw e refl
    | inr (r, e) ↦ rw e (elim (Bool-cases (still_live runner opts s.session id)) [
      | inl live ↦ rw live refl
      | inr over ↦ rw over (by_fate r e r.fate refl)
    ])
  ]
    where
      by_fate :
          (r : TerminalRecord)
          → get id s.terminal ≡ some r
          → (f : Fate) → r.fate ≡ f
          → (is_canceled_record (get j (delete id (carry_fate r.fate id s).terminal))
              || has j (carry_fate r.fate id s).dismissed_canceled)
            ≡ (is_canceled_record (get j s.terminal) || has j s.dismissed_canceled)
      by_fate r e Fate.expired f =
          rw f (ap (λ b. b || has j s.dismissed_canceled) (fate_of_expired j id r s v e f))
      by_fate r e Fate.canceled f =
          rw (f, evict-set_room max_dismissed_canceled id tt s.dismissed_canceled room)
            (fate_of_canceled j id r s v e f)
