-- ===== src/Cohorts/Slot.antt =====
-- The repair of the transport's single advert slot, `repairAdvertSlot` of
-- packages/service/src/operator-cohorts.ts.
use mathlib.Core.List.{reverse}
use btcr2_aggregation.Prelude.{
  ◌≡◌, ◌≢◌, ◌↔◌, ◌++◌, ◌&&◌, refl, sym, ap, subst, ◌∙◌, true, false, [], ◌∷◌, Option, none, some,
  String, ◌⊎◌, inl, inr, arith, eq_iff, Bool-cases, All,
}
use btcr2_aggregation.OrderedMap.{OrderedMap, get, has, delete}
use btcr2_aggregation.Phases.{phase_in, open_phases}
use btcr2_aggregation.Cohorts.Config.{CohortConfig}
use btcr2_aggregation.Cohorts.State.{
  State, Runner, Options, republish, clear_advert, find_open, reinstall, owns_slot,
  repair_advert_slot, clear_window_timer, remember_terminal,
}
use btcr2_aggregation.Cohorts.Lifecycle.{
  cancel_cohort, drop_cohort, settle_completed, settle_rejected, file_terminal,
}
use btcr2_aggregation.Cohorts.Draft.{DraftWindows}
use btcr2_aggregation.Intents.{CohortIntent, read}

owns_slot_iff : (o : Option String) (id : String) → (owns_slot o id ≡ true) ↔ (o ≡ some id)
unfolding owns_slot
owns_slot_iff none id = ground arith
owns_slot_iff (some owner) id = ground (arith, eq_iff owner id)

module _ {S : Type 0} (runner : Runner S) where
  abbrev pub IsOpen : S → String → Type 0
  IsOpen session id = phase_in open_phases (runner.cohort_phase session id) ≡ true

  -- No cohort of these entries is in an open phase.
  abbrev pub NoneOpen : S → OrderedMap CohortConfig → Type 0
  NoneOpen session m = All (λ e. phase_in open_phases (runner.cohort_phase session e.0) ≡ false) m

  -- What the search answers for: the first open entry and none before it, or no open entry.
  abbrev Finds : S → OrderedMap CohortConfig → Option (String × CohortConfig) → Type 0
  Finds session m none = NoneOpen session m
  Finds session m (some (id, c)) =
      (before : OrderedMap CohortConfig) × (beyond : OrderedMap CohortConfig) × (m
        ≡ before ++ (id, c) ∷ beyond)
      × NoneOpen session before
      × IsOpen session id

  find_open-Finds :
      (session : S) (m : OrderedMap CohortConfig) → Finds session m (find_open runner session m)
  unfolding find_open
  find_open-Finds session [] = tt
  find_open-Finds session ((id, c) ∷ m) =
      elim (Bool-cases (phase_in open_phases (runner.cohort_phase session id))) [
        | inl e ↦ rw e ([], m, refl, tt, e)
        | inr e ↦ rw e (later (find_open runner session m) (find_open-Finds session m) e)
      ]
    where
      later :
          (o : Option (String × CohortConfig))
          → Finds session m o
          → phase_in open_phases (runner.cohort_phase session id) ≡ false
          → Finds session ((id, c) ∷ m) o
      later none n e = (e, n)
      later (some (j, d)) (before, beyond, split, n, o) e =
          ((id, c) ∷ before, beyond, ap (◌∷◌ (id, c)) split, (e, n), o)

  -- After a repair: the newest advertised cohort that is open has been re-published and holds the
  -- slot, or no advertised cohort is open and the slot has been cleared.
  abbrev pub Repaired : State S → State S → Type 0
  Repaired s t =
      ((newer : OrderedMap CohortConfig) × (id : String) × (c : CohortConfig) × (older : OrderedMap
          CohortConfig)
        × (reverse s.advertised ≡ newer ++ (id, c) ∷ older)
        × NoneOpen s.session newer
        × IsOpen s.session id
        × (t ≡ record s { advert_slot_owner = some id; calls = s.calls ++ republish id c ∷ [] }))
      ⊎ (NoneOpen s.session (reverse s.advertised)
          × (t ≡ record s { advert_slot_owner = none; calls = s.calls ++ clear_advert ∷ [] }))

  reinstall-Repaired :
      (o : Option (String × CohortConfig)) (s : State S)
      → Finds s.session (reverse s.advertised) o
      → Repaired s (reinstall runner o s)
  reinstall-Repaired none s n = inr (n, refl)
  reinstall-Repaired (some (id, c)) s (newer, older, split, n, o) =
      inl (newer, id, c, older, split, n, o, refl)

  -- The repair after a settle acts for the cohort that holds the advert slot, when there is a
  -- republisher, and else does nothing.
  repair_advert_slot_lem :
      (opts : Options) (id : String) (s : State S)
      → ((opts.has_republisher ≡ true)
          × (s.advert_slot_owner ≡ some id)
          × Repaired s (repair_advert_slot runner opts id s))
        ⊎ (((opts.has_republisher ≡ false) ⊎ (s.advert_slot_owner ≢ some id))
            × (repair_advert_slot runner opts id s ≡ s))
  unfolding repair_advert_slot
  repair_advert_slot_lem opts id s =
      elim (Bool-cases (opts.has_republisher && owns_slot s.advert_slot_owner id)) [
        | inl e ↦ rw e (
            inl (
              ground arith,
              (owns_slot_iff s.advert_slot_owner id).0 (ground arith),
              reinstall-Repaired _ s (find_open-Finds s.session (reverse s.advertised)),
            ))
        | inr e ↦ rw e (inr (ground (arith, owns_slot_iff s.advert_slot_owner id), refl))
      ]

  -- What a settle of a cohort leaves in the slot, the others advertised being these: with a
  -- republisher, and the slot held by the cohort, the newest of the others that is open has been
  -- re-published, once, and holds the slot, or none of them is open and the advert has been
  -- cleared, once; and in every other case the slot is as it was and no advert has been sent.
  abbrev pub SlotAfter : Options → String → OrderedMap CohortConfig → State S → State S → Type 0
  SlotAfter opts id others s t =
      (t.advertised ≡ others)
      × (((opts.has_republisher ≡ true)
            × (s.advert_slot_owner ≡ some id)
            × (((newer : OrderedMap CohortConfig) × (j : String) × (c : CohortConfig)
                  × (older : OrderedMap CohortConfig) × (reverse others ≡ newer ++ (j, c) ∷ older)
                  × NoneOpen s.session newer
                  × IsOpen s.session j
                  × (t.advert_slot_owner ≡ some j)
                  × (t.calls ≡ s.calls ++ republish j c ∷ []))
                ⊎ (NoneOpen s.session (reverse others)
                    × (t.advert_slot_owner ≡ none)
                    × (t.calls ≡ s.calls ++ clear_advert ∷ []))))
          ⊎ (((opts.has_republisher ≡ false) ⊎ (s.advert_slot_owner ≢ some id))
              × (t.advert_slot_owner ≡ s.advert_slot_owner)
              × (t.calls ≡ s.calls)))

  module _ (opts : Options) (id : String) where
    reinstalled_lem :
        (s t : State S)
        → opts.has_republisher ≡ true
        → s.advert_slot_owner ≡ some id
        → Repaired s t
        → SlotAfter opts id s.advertised s t
    reinstalled_lem s t r held (inl (newer, j, c, older, split, n, o, e)) = (
      ap (λ u. u.advertised) e,
      inl (
        r,
        held,
        inl (newer, j, c, older, split, n, o, ap (λ u. u.advert_slot_owner) e, ap (λ u. u.calls) e),
      ),
    )
    reinstalled_lem s t r held (inr (n, e)) = (
      ap (λ u. u.advertised) e,
      inl (r, held, inr (n, ap (λ u. u.advert_slot_owner) e, ap (λ u. u.calls) e)),
    )

    repair_advert_slot-SlotAfter :
        (s : State S) → SlotAfter opts id s.advertised s (repair_advert_slot runner opts id s)
    repair_advert_slot-SlotAfter s = elim (repair_advert_slot_lem opts id s) [
      | inl (r, held, done) ↦ reinstalled_lem s _ r held done
      | inr (other, e) ↦ (
        ap (λ u. u.advertised) e,
        inr (other, ap (λ u. u.advert_slot_owner) e, ap (λ u. u.calls) e),
      )
    ]

    filed-SlotAfter :
        (o : Option CohortConfig) (message : String) (i : Option CohortIntent)
        (d : Option DraftWindows) (s : State S)
        → SlotAfter opts id s.advertised s
            (repair_advert_slot runner opts id (file_terminal runner opts o id message i d s))
    unfolding remember_terminal
    filed-SlotAfter none message i d s = repair_advert_slot-SlotAfter s
    filed-SlotAfter (some c) message i d s =
        repair_advert_slot-SlotAfter (file_terminal runner opts (some c) id message i d s)

    -- When a cohort settles, by completion or by a rejection with any message, its entry is removed
    -- from the advertised cohorts. If it held the advert slot and there is a republisher, then the
    -- newest of the other advertised cohorts that is in an open phase is re-published and holds the
    -- slot, or none is open and the advert is cleared. If another cohort held the slot, or there is
    -- no republisher, the slot stays as it was and nothing is sent.
    pub settles-SlotAfter :
        (s : State S)
        → SlotAfter opts id (delete id s.advertised) s (settle_completed runner opts id s)
          × ((message : String)
              → SlotAfter opts id
                  (delete id s.advertised)
                  s
                  (settle_rejected runner opts id message s))
    unfolding settle_completed settle_rejected drop_cohort clear_window_timer
    settles-SlotAfter s = (
      repair_advert_slot-SlotAfter (drop_cohort runner opts id s),
      λ message.
          filed-SlotAfter (get id s.advertised) message (read id s.intents)
            (get id s.advertised_windows) (drop_cohort runner opts id s),
    )

  repair_advert_slot-ne :
      (opts : Options) (id : String) (s : State S)
      → opts.has_republisher ≡ true
      → runner.cohort_phase s.session id ≡ none
      → (repair_advert_slot runner opts id s).advert_slot_owner ≢ some id
  unfolding phase_in
  repair_advert_slot-ne opts id s r gone h = elim (repair_advert_slot_lem opts id s) [
    | inl (_, _, inl (_, j, _, _, _, _, open_j, e)) ↦
        reopened j open_j (ground (arith, ap (λ t. t.advert_slot_owner) e))
    | inl (_, _, inr (_, e)) ↦ cc (ap (λ t. t.advert_slot_owner) e)
    | inr (inl none_given, _) ↦ cc
    | inr (inr other, e) ↦ other (sym (ap (λ t. t.advert_slot_owner) e) ∙ h)
  ]
    where
      reopened : (j : String) → IsOpen s.session j → j ≡ id → ⊥
      reopened j o same =
          let closed = subst (λ k. runner.cohort_phase s.session k ≡ none) (sym same) gone in
          let h' : phase_in open_phases none ≡ true = rw closed at o in cc h'

  -- When the runner drops a cohort that it stops, a cancel never leaves the slot to that cohort.
  pub cancel_cohort-slot :
      (opts : Options) (id : String) (s : State S)
      → opts.has_republisher ≡ true
      → has id s.advertised ≡ true
      → runner.cohort_phase (runner.stop_cohort id s.session) id ≡ none
      → (cancel_cohort runner opts id s).0.advert_slot_owner ≢ some id
  unfolding cancel_cohort clear_window_timer
  cancel_cohort-slot opts id s r live gone = rw live (repair_advert_slot-ne opts id _ r gone)
