-- ===== src/Funding.antt =====
-- packages/service/src/funding-watch.ts: what the polled outputs of a beacon address mean, the
-- deadline of the funding wait, and the display watch. The library's choice of the output to spend
-- (`selectSpendableUtxo`) is a parameter, `none` where it throws.
pub mod Laws
use btcr2_aggregation.Prelude.{
  ◌+◌, ◌-◌, ◌/◌, ◌||◌, not, Bool, true, false, List, [], ◌∷◌, Option, none, some, String, ℕ,
  if◌then◌else◌, ltb, max, min, or_else, any,
}

pub record AddressUtxo : Type 0 where
  pub txid : String
  pub value : ℕ
  pub confirmed : Bool

pub data FundingStateName : Type 0 where
  waiting awaiting_confirmation funded dead_end : FundingStateName

pub record FundingState : Type 0 where
  pub state : FundingStateName
  pub selected : Option AddressUtxo

-- `MIN_LIVE_FUNDING_SATS` of packages/service/src/tx.ts.
abbrev pub min_live_funding_sats : ℕ
min_live_funding_sats = 2000

unfoldable pub compute_suggested_min_sats : Option ℕ → ℕ
compute_suggested_min_sats fee_derived_need = max min_live_funding_sats (or_else fee_derived_need 0)

module _ (select_spendable_utxo : List AddressUtxo → Option AddressUtxo) where
  abbrev pub classify_selected : Option AddressUtxo → List AddressUtxo → ℕ → FundingState
  classify_selected none utxos suggested =
      if any (λ u. not u.confirmed) utxos
      then record { state = awaiting_confirmation; selected = none }
      else record { state = waiting; selected = none }
  classify_selected (some u) utxos suggested =
      if ltb u.value suggested
      then record { state = dead_end; selected = some u }
      else record { state = funded; selected = some u }

  unfoldable pub classify_funding : List AddressUtxo → ℕ → FundingState
  classify_funding [] suggested = record { state = waiting; selected = none }
  classify_funding (u ∷ utxos) suggested =
      classify_selected (select_spendable_utxo (u ∷ utxos)) (u ∷ utxos) suggested

-- A duration that may be missing or not finite; both count as unbounded.
pub data Duration : Type 0 where
  unset not_finite : Duration
  finite : ℕ → Duration

-- `none` is the unbounded deadline.
pub record FundingDeadline : Type 0 where
  pub deadline_ms : Option ℕ
  pub truncated_window_min : Option ℕ

abbrev pub leg : Duration → Option ℕ
leg unset = none
leg not_finite = none
leg (finite ms) = some ms

abbrev pub less_slack : ℕ → Option ℕ → Option ℕ
less_slack slack_ms none = none
less_slack slack_ms (some ms) = some (ms - slack_ms)

-- `Math.round(ms / 60_000)`.
unfoldable pub rounded_minutes : ℕ → ℕ
rounded_minutes ms = (ms + 30000) / 60000

abbrev pub earlier_of : Option ℕ → Option ℕ → FundingDeadline
unfolding rounded_minutes
earlier_of window none = record { deadline_ms = window; truncated_window_min = none }
earlier_of none (some ttl) = record {
  deadline_ms = some ttl;
  truncated_window_min = some (rounded_minutes ttl);
}
earlier_of (some window) (some ttl) =
    if ltb ttl window
    then record {
      deadline_ms = some (min window ttl);
      truncated_window_min = some (rounded_minutes (min window ttl));
    }
    else record { deadline_ms = some (min window ttl); truncated_window_min = none }

unfoldable pub compute_funding_deadline : Duration → Duration → ℕ → FundingDeadline
unfolding rounded_minutes
compute_funding_deadline configured_window remaining_ttl slack_ms =
    earlier_of (leg configured_window) (less_slack slack_ms (leg remaining_ttl))

-- What the watch holds: the last state that was classified, whether it is aborted, and what it
-- has emitted, the latest first, each with whether its read succeeded.
pub record Watch : Type 0 where
  pub last_state : FundingState
  pub aborted : Bool
  pub emitted : List (FundingState × Bool)

-- One turn of the loop: the outputs that were read, or an outage; and whether the watch was
-- stopped during the read.
pub record Poll : Type 0 where
  pub observed : Option (List AddressUtxo)
  pub stopped_meanwhile : Bool

unfoldable pub is_funded : FundingStateName → Bool
is_funded funded = true
is_funded _ = false

-- The body of the loop of `createFundingWatch`, from the abort check after the read on.
unfoldable pub emit : FundingState → Bool → Bool → Watch → Watch
unfolding is_funded
emit last ok stopped w =
    if stopped then record w { last_state = last; aborted = true } else record {
      last_state = last;
      aborted = is_funded last.state;
      emitted = (last, ok) ∷ w.emitted;
    }

module _ (select_spendable_utxo : List AddressUtxo → Option AddressUtxo) (suggested : ℕ) where
  abbrev pub observe : Option (List AddressUtxo) → Bool → Watch → Watch
  observe none stopped w = emit w.last_state false stopped w
  observe (some utxos) stopped w =
      emit (classify_funding select_spendable_utxo utxos suggested) true stopped w

  unfoldable pub turn : Poll → Watch → Watch
  turn p w = if w.aborted then w else observe p.observed p.stopped_meanwhile w

  -- The turns in order, the first one first.
  unfoldable pub turns : List Poll → Watch → Watch
  turns [] w = w
  turns (p ∷ ps) w = turns ps (turn p w)

abbrev pub fresh_watch : Watch
fresh_watch = record {
  last_state = record { state = waiting; selected = none };
  aborted = false;
  emitted = [];
}
