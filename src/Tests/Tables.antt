-- ===== src/Tests/Tables.antt =====
-- packages/service/src/acceptance-ledger.ts, packages/service/src/anchor-state.ts and the bounded
-- tables that they share with the others, run.
use btcr2_aggregation.Prelude.{◌≡◌, ◌+◌, refl, true, [], ◌∷◌, Option, some, String}
use btcr2_aggregation.OrderedMap.{OrderedMap, get, has, delete}
use btcr2_aggregation.OrderedMap.Laws.{Distinct}
use btcr2_aggregation.Ledger.{remember, retained}
use btcr2_aggregation.Ledger.Conservation.{count, newly_stored, remember-conserves}
use btcr2_aggregation.Anchors.{BeaconEvent, beacon_anchored, beacon_broadcast_failed}

abbrev ledger : OrderedMap String
ledger = ("p1", "aa") ∷ ("p2", "bb") ∷ []

ledger-Distinct : Distinct ledger
unfolding has
ledger-Distinct = (refl, (refl, tt))

remember-conserves_example :
    count "aa" (remember "p1" "cc" ledger).0 + count "aa" (retained (remember "p1" "cc" ledger).1)
    ≡ count "aa" (newly_stored (get "p1" ledger) "cc") + count "aa" (retained ledger)
remember-conserves_example = remember-conserves "p1" "cc" ledger ledger-Distinct "aa"

not_elsewhere : count "aa" (retained (delete "p1" ledger)) ≡ 0
unfolding count retained delete
not_elsewhere = refl

abbrev link : String → Option String
link txid = some txid

abbrev anchored : BeaconEvent
anchored = beacon_anchored "p1" "t1" true

abbrev failure : BeaconEvent
failure = beacon_broadcast_failed "p3" "secret host unreachable"
