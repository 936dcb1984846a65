-- ===== src/Monitor/Bounds.antt =====
-- packages/service/src/monitor.ts: the bounds of the monitor's tables and rings.
pub mod History
use btcr2_aggregation.Prelude.{
  ◌+◌, ◌≤◌, ◌≡◌, ◌==◌, ◌&&◌, ◌||◌, not, Bool, true, false, List, [], ◌∷◌, ◌++◌, Option, none, some,
  String, ℕ, if◌then◌else◌, ltb, length, length-append, refl, sym, ◌∙◌, subst, inl, inr, Bool-cases,
  Option-cases, arith, or_else,
}
use btcr2_aggregation.OrderedMap.{OrderedMap, get, has, set, delete, remember}
use btcr2_aggregation.OrderedMap.Laws.{
  Distinct, get-set, get-delete, has_of_get, length-set, length-delete, set-Distinct,
  delete-Distinct,
}
use btcr2_aggregation.OrderedMap.Bounds.{remember-Distinct, length-remember-le}
use btcr2_aggregation.OrderedMap.Eviction.{get_of_remember}
use btcr2_aggregation.Wiring.{FundingView}
use btcr2_aggregation.Monitor.{
  ActivityEntry, ActivityLevel, info, ActivityText, operator_text, EndedRecord, MonitorEntry,
  ServiceMode, CohortMonitor, Session, SessionCohort, fresh_monitor, fresh_entry, max_monitored,
  max_terminal, activity_ring_size, operator_actions_ring_size, shift_to, entry_for,
  append_activity, remember_entry, remember_ended, remember_funding, snapshot_capacity,
  with_capacity, record_operator_action, record_service_action, last_says,
}

-- Each entry's id and the entries from it on make up `seq`: the ids are consecutive, up to `seq`.
unfoldable pub EndsAt : ℕ → List ActivityEntry → Type 0
EndsAt seq [] = Unit
EndsAt seq (a ∷ ring) = (a.id + (length ring + 1) ≡ seq) × EndsAt seq ring

-- A ring within its size, with consecutive ids that end before `seq`.
unfoldable pub IsRing : ℕ → ℕ → List ActivityEntry → Type 0
unfolding EndsAt
IsRing size seq ring = (length ring ≤ size) × EndsAt seq ring

length-shift_to-le : {A : Type 0} (size : ℕ) (xs : List A) → length (shift_to size xs) ≤ size
unfolding shift_to
length-shift_to-le size [] = ground arith
length-shift_to-le size (x ∷ xs) = ground (arith, length-shift_to-le size xs)

shift_to-EndsAt :
    (size seq : ℕ) (ring : List ActivityEntry) → EndsAt seq ring → EndsAt seq (shift_to size ring)
unfolding shift_to EndsAt
shift_to-EndsAt size seq [] h = h
shift_to-EndsAt size seq (a ∷ ring) h = elim (Bool-cases (ltb size (length ring + 1))) [
  | inl full ↦ rw full (shift_to-EndsAt size seq ring (h.1))
  | inr room ↦ rw room h
]

concat-EndsAt :
    (seq : ℕ) (ring : List ActivityEntry) (a : ActivityEntry)
    → a.id ≡ seq
    → EndsAt seq ring
    → EndsAt (seq + 1) (ring ++ a ∷ [])
unfolding EndsAt
concat-EndsAt seq [] a e h = (omega arith, tt)
concat-EndsAt seq (b ∷ ring) a e h =
    (ground (arith, length-append ring (a ∷ [])), concat-EndsAt seq ring a e (h.1))

pushed-IsRing :
    (size seq : ℕ) (ring : List ActivityEntry) (a : ActivityEntry)
    → a.id ≡ seq
    → IsRing size seq ring
    → IsRing size (seq + 1) (shift_to size (ring ++ a ∷ []))
unfolding IsRing
pushed-IsRing size seq ring a e h = (
  length-shift_to-le size (ring ++ a ∷ []),
  shift_to-EndsAt size (seq + 1) (ring ++ a ∷ []) (concat-EndsAt seq ring a e (h.1)),
)

unfoldable pub IsEntry : MonitorEntry → Type 0
unfolding IsRing
IsEntry e = IsRing activity_ring_size e.activity_seq e.activity

-- A table within its bound, without a key twice.
unfoldable pub IsTable : {V : Type 0} → ℕ → OrderedMap V → Type 0
IsTable limit m = Distinct m × (length m ≤ limit)

-- All tables and rings of the monitor within their bounds, with consecutive activity ids.
unfoldable pub IsBounded : CohortMonitor → Type 0
unfolding IsTable IsEntry IsRing
IsBounded m =
    IsTable max_monitored m.entries
    × ((id : String) (e : MonitorEntry) → get id m.entries ≡ some e → IsEntry e)
    × IsTable max_terminal m.ended
    × IsTable max_terminal m.funding_views
    × IsRing operator_actions_ring_size m.operator_action_seq m.operator_actions

pub append_activity-IsEntry :
    (now : ℕ) (level : ActivityLevel) (text : ActivityText) (e : MonitorEntry)
    → IsEntry e
    → IsEntry (append_activity now level text e)
unfolding IsEntry append_activity
append_activity-IsEntry now level text e h =
    pushed-IsRing activity_ring_size e.activity_seq e.activity _ refl h

pub snapshot_capacity-IsEntry :
    (session : Session) (id : String) (e : MonitorEntry)
    → IsEntry e
    → IsEntry (snapshot_capacity session id e)
unfolding IsEntry snapshot_capacity
snapshot_capacity-IsEntry session id e h = capped (session.get_cohort id)
  where
    capped : (c : Option SessionCohort) → IsEntry (with_capacity c e)
    capped none = h
    capped (some c) = h

tabled : {V : Type 0} (limit : ℕ) (m : OrderedMap V) → IsTable limit m → Distinct m
unfolding IsTable
tabled limit m h = h.0

remember-IsTable :
    {V : Type 0} (limit : ℕ) (k : String) (v : V) (m : OrderedMap V)
    → IsTable limit m
    → IsTable limit (remember limit k v m)
unfolding IsTable
remember-IsTable limit k v m h =
    (remember-Distinct limit k v m (h.0), length-remember-le limit k v m)

delete-IsTable :
    {V : Type 0} (limit : ℕ) (k : String) (m : OrderedMap V)
    → IsTable limit m
    → IsTable limit (delete k m)
unfolding IsTable
delete-IsTable limit k m h = (delete-Distinct k m (h.0), ground (arith, length-delete k m))

pub entry_for-IsEntry : (id : String) (m : CohortMonitor) → IsBounded m → IsEntry (entry_for id m)
unfolding entry_for IsBounded IsEntry IsRing EndsAt
entry_for-IsEntry id m (table, rings, ended, views, actions) =
    elim (Option-cases (get id m.entries)) [
      | inl absent ↦ rw absent (omega arith, tt)
      | inr (e, there) ↦ rw there (rings id e there)
    ]

-- What a table holds after a write was written, or was there.
written-IsEntry :
    (here : Bool) (e x : MonitorEntry) (o : Option MonitorEntry)
    → (if here then some e else o) ≡ some x
    → IsEntry e
    → (o ≡ some x → IsEntry x)
    → IsEntry x
written-IsEntry true e x o h ring old = let same : e ≡ x = cc in subst IsEntry same ring
written-IsEntry false e x o h ring old = old h

pub remember_entry-IsBounded :
    (id : String) (e : MonitorEntry) (m : CohortMonitor)
    → IsEntry e
    → IsBounded m
    → IsBounded (remember_entry id e m)
unfolding IsBounded remember_entry
remember_entry-IsBounded id e m ring (table, rings, ended, views, actions) = (
  remember-IsTable max_monitored id e m.entries table,
  λ j x h.
      written-IsEntry (id == j) e x (get j m.entries)
        (get_of_remember max_monitored j id e x m.entries (tabled max_monitored m.entries table) h)
        ring (rings j x),
  ended,
  views,
  actions,
)

pub set_entry-IsBounded :
    (id : String) (e old : MonitorEntry) (m : CohortMonitor)
    → IsEntry e
    → get id m.entries ≡ some old
    → IsBounded m
    → IsBounded (record m { entries = set id e m.entries })
unfolding IsBounded IsTable
set_entry-IsBounded id e old m ring there (table, rings, ended, views, actions) = (
  (
    set-Distinct id e m.entries (table.0),
    ground (arith, length-set id e m.entries, has_of_get id m.entries old there),
  ),
  λ j x h.
      written-IsEntry (id == j) e x (get j m.entries) (sym (get-set j id e m.entries) ∙ h) ring
        (rings j x),
  ended,
  views,
  actions,
)

pub remember_ended-IsBounded :
    (id : String) (r : EndedRecord) (m : CohortMonitor)
    → IsBounded m
    → IsBounded (remember_ended id r m)
unfolding IsBounded remember_ended
remember_ended-IsBounded id r m (table, rings, ended, views, actions) =
    (table, rings, remember-IsTable max_terminal id r m.ended ended, views, actions)

pub remember_funding-IsBounded :
    (id : String) (view : FundingView) (m : CohortMonitor)
    → IsBounded m
    → IsBounded (remember_funding id view m)
unfolding IsBounded remember_funding
remember_funding-IsBounded id view m (table, rings, ended, views, actions) =
    (table, rings, ended, remember-IsTable max_terminal id view m.funding_views views, actions)

-- Forgetting a cohort.
pub dismissed-IsBounded :
    (id : String) (m : CohortMonitor)
    → IsBounded m
    → IsBounded (record m {
      ended = delete id m.ended;
      entries = delete id m.entries;
      funding_views = delete id m.funding_views;
    })
unfolding IsBounded
dismissed-IsBounded id m (table, rings, ended, views, actions) = (
  delete-IsTable max_monitored id m.entries table,
  λ j x h. rings j x (
      undeleted (id == j) (get j m.entries) x
        (sym (get-delete j id m.entries (tabled max_monitored m.entries table)) ∙ h)),
  delete-IsTable max_terminal id m.ended ended,
  delete-IsTable max_terminal id m.funding_views views,
  actions,
)
  where
    undeleted :
        (here : Bool) (o : Option MonitorEntry) (x : MonitorEntry)
        → (if here then none else o) ≡ some x
        → o ≡ some x
    undeleted true o x h = cc
    undeleted false o x h = h

pub record_service_action-IsBounded :
    (now : ℕ) (text : String) (m : CohortMonitor)
    → IsBounded m
    → IsBounded (record_service_action now text m)
unfolding IsBounded record_service_action
record_service_action-IsBounded now text m (table, rings, ended, views, actions) =
    elim (Bool-cases (last_says text m.operator_actions)) [
      | inl said ↦ rw said (table, rings, ended, views, actions)
      | inr fresh ↦ rw fresh (
        table,
        rings,
        ended,
        views,
        pushed-IsRing operator_actions_ring_size m.operator_action_seq m.operator_actions _ refl
            actions,
      )
    ]

pub record_operator_action-IsBounded :
    (now : ℕ) (id text : String) (m : CohortMonitor)
    → IsBounded m
    → IsBounded (record_operator_action now id text m)
unfolding record_operator_action
record_operator_action-IsBounded now id text m h =
    elim (Bool-cases (last_says text (entry_for id m).activity)) [
      | inl said ↦ rw said h
      | inr fresh ↦ rw fresh (
          remember_entry-IsBounded id _ m
            (append_activity-IsEntry now info (operator_text text) (entry_for id m)
              (entry_for-IsEntry id m h))
            h)
    ]
