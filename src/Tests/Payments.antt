-- ===== src/Tests/Payments.antt =====
-- packages/service/src/funding-watch.ts: a payment, its deadline and its watch, run.
use btcr2_aggregation.Prelude.{
  ◌-◌, ◌≡◌, ◌≤◌, ◌<◌, ◌↔◌, true, false, List, [], ◌∷◌, Option, none, some, ℕ, is_some,
}
use btcr2_aggregation.Funding.{
  AddressUtxo, finite, compute_funding_deadline, Poll, turns, fresh_watch,
}
use btcr2_aggregation.Funding.Laws.{compute_funding_deadline_lem, FundedLast, turns-FundedLast}

abbrev payment : AddressUtxo
payment = record { txid = "t"; value = 5000; confirmed = true }

-- The first confirmed output.
abbrev first_confirmed : List AddressUtxo → Option AddressUtxo
first_confirmed [] = none
first_confirmed (u ∷ us) =
    let later = first_confirmed us in elim u.confirmed [ true ↦ some u | false ↦ later ]

compute_funding_deadline_lem_example :
    (ms : ℕ) × ((compute_funding_deadline (finite 600000) (finite 300000) 10000).deadline_ms
      ≡ some ms)
    × (ms ≤ 300000 - 10000)
    × ((w : ℕ) → finite 600000 ≡ finite w → ms ≤ w)
    × ((is_some
            (compute_funding_deadline (finite 600000) (finite 300000) 10000).truncated_window_min
          ≡ true)
        ↔ ((w : ℕ) → finite 600000 ≡ finite w → 300000 - 10000 < w))
compute_funding_deadline_lem_example = compute_funding_deadline_lem (finite 600000) 300000 10000

abbrev polls : List Poll
polls =
    record { observed = none; stopped_meanwhile = false }
    ∷ record { observed = some (payment ∷ []); stopped_meanwhile = false }
    ∷ record { observed = some []; stopped_meanwhile = false }
    ∷ []

turns-FundedLast_example :
    FundedLast first_confirmed 2000 (turns first_confirmed 2000 polls fresh_watch).emitted
turns-FundedLast_example = turns-FundedLast first_confirmed 2000 polls
