-- ===== src/Anchors/Laws.antt =====
-- packages/service/src/anchor-state.ts: what a read gives after a history of events.
use btcr2_aggregation.Prelude.{◌≡◌, refl, ap, Bool, List, [], ◌∷◌, Option, String, map, ◌∙◌}
use btcr2_aggregation.OrderedMap.{OrderedMap}
use btcr2_aggregation.Anchors.{
  AnchorEntry, BeaconEvent, beacon_broadcast, beacon_anchored, beacon_broadcast_failed, cohort_of,
  entry_of, on_event, on_events, read,
}

-- The entries that the events write.
abbrev writes : List BeaconEvent → List (String × AnchorEntry)
writes [] = []
writes (e ∷ es) = (cohort_of e, entry_of e) ∷ writes es

module _ (explorer_tx_url : String → Option String) (enabled : Bool) where
  -- The event without the raw reason of a failure.
  abbrev pub redacted : BeaconEvent → BeaconEvent
  redacted (beacon_broadcast_failed cohort_id reason) = beacon_broadcast_failed cohort_id ""
  redacted e = e

  on_event-redacted :
      (e : BeaconEvent) (m : OrderedMap AnchorEntry) → on_event (redacted e) m ≡ on_event e m
  unfolding on_event cohort_of entry_of
  on_event-redacted (beacon_broadcast c t) m = refl
  on_event-redacted (beacon_anchored c t b) m = refl
  on_event-redacted (beacon_broadcast_failed c r) m = refl

  on_events-redacted :
      (es : List BeaconEvent) (m : OrderedMap AnchorEntry)
      → on_events (map redacted es) m ≡ on_events es m
  unfolding on_events
  on_events-redacted [] m = refl
  on_events-redacted (e ∷ es) m =
      on_events-redacted es (on_event (redacted e) m) ∙ ap (on_events es) (on_event-redacted e m)

  -- A public read depends on no raw failure reason: every history reads, for every cohort, like
  -- the same history with the reasons removed.
  pub read-redacted :
      (es : List BeaconEvent) (id : String) (m : OrderedMap AnchorEntry)
      → read explorer_tx_url enabled id (on_events (map redacted es) m)
        ≡ read explorer_tx_url enabled id (on_events es m)
  read-redacted es id m = ap (read explorer_tx_url enabled id) (on_events-redacted es m)
