-- ===== src/Anchors.antt =====
-- packages/service/src/anchor-state.ts: the retained on-chain state of each cohort. The network's
-- explorer link is a parameter, `none` where it throws or gives the empty string.
pub mod Laws
use btcr2_aggregation.Prelude.{
  ◌==◌, Bool, true, false, List, [], ◌∷◌, Option, none, some, String, ℕ, if◌then◌else◌,
}
use btcr2_aggregation.OrderedMap.{OrderedMap, get, remember}

pub data AnchorStateName : Type 0 where
  no_anchor broadcast confirmed failed : AnchorStateName

pub record AnchorEntry : Type 0 where
  pub state : AnchorStateName
  pub txid : Option String
  pub reason : Option String

pub record AnchorRead : Type 0 where
  pub enabled : Bool
  pub state : AnchorStateName
  pub txid : Option String
  pub explorer_url : Option String
  pub reason : Option String

-- The events of the broadcaster.
pub data BeaconEvent : Type 0 where
  beacon_broadcast : (cohort_id txid : String) → BeaconEvent
  beacon_anchored : (cohort_id txid : String) (confirmed : Bool) → BeaconEvent
  beacon_broadcast_failed : (cohort_id reason : String) → BeaconEvent

abbrev pub max_terminal : ℕ
max_terminal = 24

abbrev pub generic_failure_reason : String
generic_failure_reason = "broadcast failed"

unfoldable pub cohort_of : BeaconEvent → String
cohort_of (beacon_broadcast cohort_id txid) = cohort_id
cohort_of (beacon_anchored cohort_id txid c) = cohort_id
cohort_of (beacon_broadcast_failed cohort_id reason) = cohort_id

-- What each listener remembers.
unfoldable pub entry_of : BeaconEvent → AnchorEntry
entry_of (beacon_broadcast cohort_id txid) = record {
  state = broadcast;
  txid = some txid;
  reason = none;
}
entry_of (beacon_anchored cohort_id txid c) = record {
  state = if c then confirmed else broadcast;
  txid = some txid;
  reason = none;
}
entry_of (beacon_broadcast_failed cohort_id reason) = record {
  state = failed;
  txid = none;
  reason = some generic_failure_reason;
}

-- The listeners of `createAnchorState`.
unfoldable pub on_event : BeaconEvent → OrderedMap AnchorEntry → OrderedMap AnchorEntry
unfolding cohort_of entry_of remember
on_event e entries = remember max_terminal (cohort_of e) (entry_of e) entries

-- The events in order, the first one first.
unfoldable pub on_events : List BeaconEvent → OrderedMap AnchorEntry → OrderedMap AnchorEntry
unfolding on_event
on_events [] entries = entries
on_events (e ∷ es) entries = on_events es (on_event e entries)

module _ (explorer_tx_url : String → Option String) where
  abbrev pub url_of : Option String → Option String
  url_of none = none
  url_of (some txid) = if txid == "" then none else explorer_tx_url txid

  abbrev pub read_entry : Bool → Option AnchorEntry → AnchorRead
  read_entry enabled none = record {
    enabled = enabled;
    state = no_anchor;
    txid = none;
    explorer_url = none;
    reason = none;
  }
  read_entry enabled (some e) = record {
    enabled = enabled;
    state = e.state;
    txid = e.txid;
    explorer_url = url_of e.txid;
    reason = e.reason;
  }

  unfoldable pub read : Bool → String → OrderedMap AnchorEntry → AnchorRead
  unfolding get
  read enabled cohort_id entries = read_entry enabled (get cohort_id entries)
