-- ===== src/Broadcast.antt =====
-- packages/service/src/broadcast.ts: sending a signed beacon transaction with retries, waiting for
-- its confirmation, and the three events that the service emits about it. The node's answers, the
-- passage of time and the stop signal are the inputs: the replies in order, and at each point
-- where the code looks whether the service was stopped by then.
pub mod Sending
pub mod Reporting
use btcr2_aggregation.Prelude.{
  ◌+◌, ◌-◌, ◌||◌, ◌&&◌, ◌==◌, not, Bool, true, false, List, [], ◌∷◌, ◌++◌, Option, none, some,
  String, ℕ, suc, zero, if◌then◌else◌, ltb, max, or_else, is_some,
}
use btcr2_aggregation.Prelude.Checked.{Checked, valid, problem}

-- What one `send` does: it returns the transaction's id, or throws a message. The flags tell
-- whether the stop signal was up when the throw was handled, and after the delay that follows.
pub data Reply : Type 0 where
  accepts : String → Reply
  throws : String → Bool → Bool → Reply

pub data SendError : Type 0 where
  network_unreachable rejected : ℕ → String → SendError

pub record BroadcastConfirmOptions : Type 0 where
  pub send_retry_attempts : Option ℕ
  pub expected_txid : Option String

abbrev pub default_send_retry_attempts : ℕ
default_send_retry_attempts = 5

-- `Math.max(1, opts.sendRetryAttempts ?? DEFAULT_SEND_RETRY_ATTEMPTS)`.
unfoldable pub attempts_of : BroadcastConfirmOptions → ℕ
attempts_of opts = max 1 (or_else opts.send_retry_attempts default_send_retry_attempts)

-- How a run of sends ends, and how many sends it took.
pub record Sent : Type 0 where
  pub outcome : Checked SendError String
  pub sends : ℕ

module _ (is_duplicate_acceptance is_network_unreachable : String → Bool) where
  -- The error after the loop, which names the configured attempts.
  unfoldable pub give_up : ℕ → String → Checked SendError String
  give_up attempts message =
      if is_network_unreachable message
      then problem (network_unreachable attempts message)
      else problem (rejected attempts message)

  -- The id to return after a refusal that says that the transaction is known already.
  unfoldable pub duplicate_of : BroadcastConfirmOptions → String → Option String
  duplicate_of opts message =
      if is_duplicate_acceptance message
      then (let id = or_else opts.expected_txid "" in if id == "" then none else some id)
      else none

  -- After a throw that is no duplicate: `rest` is the later attempts, if any is left.
  abbrev pub retry : ℕ → ℕ → String → Bool → Option Sent → Sent
  unfolding give_up
  retry attempts attempt message stopped none = record {
    outcome = give_up attempts message;
    sends = attempt + 1;
  }
  retry attempts attempt message stopped (some rest) =
      if stopped then record { outcome = give_up attempts message; sends = attempt + 1 } else rest

  abbrev pub on_throw : ℕ → ℕ → String → Bool → Option String → Option Sent → Sent
  unfolding give_up
  on_throw attempts attempt message stopped (some txid) rest = record {
    outcome = valid txid;
    sends = attempt + 1;
  }
  on_throw attempts attempt message stopped none rest = retry attempts attempt message stopped rest

  -- The body of the loop at the given attempt.
  unfoldable pub on_reply : BroadcastConfirmOptions → ℕ → ℕ → Reply → Option Sent → Sent
  unfolding give_up duplicate_of
  on_reply opts attempts attempt (accepts txid) rest = record {
    outcome = valid txid;
    sends = attempt + 1;
  }
  on_reply opts attempts attempt (throws message stopped stopped_later) rest =
      on_throw attempts attempt message (stopped || stopped_later) (duplicate_of opts message) rest

  -- The loop from the given attempt on, with `left` more after it; `reply i` answers the i-th send.
  unfoldable pub send_from : BroadcastConfirmOptions → ℕ → (ℕ → Reply) → ℕ → ℕ → Sent
  unfolding on_reply
  send_from opts attempts reply attempt zero = on_reply opts attempts attempt (reply attempt) none
  send_from opts attempts reply attempt (suc left) =
      let rest = send_from opts attempts reply (attempt + 1) left in
      on_reply opts attempts attempt (reply attempt) (some rest)

  unfoldable pub send_with_retry : BroadcastConfirmOptions → (ℕ → Reply) → Sent
  unfolding attempts_of send_from
  send_with_retry opts reply =
      let attempts = attempts_of opts in send_from opts attempts reply 0 (attempts - 1)

-- What the confirmation loop sees at its i-th test: the clock, the stop signal, and the answer to
-- the poll that follows, a failed poll being no confirmation.
pub record Polls : Type 0 where
  pub now : ℕ → ℕ
  pub aborted : ℕ → Bool
  pub is_confirmed : ℕ → Bool

-- The loop of `broadcastAndConfirm` from the i-th test on; `none` when the fuel is used up.
unfoldable pub await_confirmation : Polls → ℕ → ℕ → ℕ → Option Bool
await_confirmation polls deadline zero i = none
await_confirmation polls deadline (suc fuel) i =
    let rest = await_confirmation polls deadline fuel (i + 1) in
    if ltb (polls.now i) deadline && not (polls.aborted i)
    then if polls.is_confirmed i then some true else rest
    else some false

pub data FailureReason : Type 0 where
  not_extracted : String → FailureReason
  send_failed : SendError → FailureReason

-- `BeaconAnchorEvents`.
pub data BeaconAnchorEvent : Type 0 where
  beacon_broadcast : String → String → BeaconAnchorEvent
  beacon_anchored : String → String → Bool → BeaconAnchorEvent
  beacon_broadcast_failed : String → FailureReason → BeaconAnchorEvent

-- When the service is stopped: before the send returns, during the confirmation, or not at all.
pub data Stop : Type 0 where
  before_broadcast before_confirmation never : Stop

unfoldable pub aborted_at_broadcast : Stop → Bool
aborted_at_broadcast before_broadcast = true
aborted_at_broadcast _ = false

unfoldable pub aborted_at_end : Stop → Bool
aborted_at_end never = false
aborted_at_end _ = true

-- `onBroadcast`.
abbrev pub announced : String → Stop → String → List BeaconAnchorEvent
unfolding aborted_at_broadcast
announced cohort_id stop txid =
    if aborted_at_broadcast stop then [] else beacon_broadcast cohort_id txid ∷ []

-- The end of the handler, once the confirmation loop has returned.
abbrev pub settled : String → Stop → String → Option Bool → List BeaconAnchorEvent
unfolding aborted_at_end
settled cohort_id stop txid none = []
settled cohort_id stop txid (some confirmed) =
    if aborted_at_end stop then [] else beacon_anchored cohort_id txid confirmed ∷ []

-- The handler after `sendWithRetry` has returned or thrown.
abbrev pub after_send :
    String → Stop → Option Bool → Checked SendError String → List BeaconAnchorEvent
unfolding aborted_at_broadcast aborted_at_end
after_send cohort_id stop confirmed (valid txid) =
    announced cohort_id stop txid ++ settled cohort_id stop txid confirmed
after_send cohort_id stop confirmed (problem e) =
    if aborted_at_end stop then [] else beacon_broadcast_failed cohort_id (send_failed e) ∷ []

-- What one run of the handler meets.
pub record Run : Type 0 where
  pub should_broadcast : Bool
  pub extraction_failure : Option String
  pub options : BroadcastConfirmOptions
  pub reply : ℕ → Reply
  pub polls : Polls
  pub deadline : ℕ
  pub stop : Stop

module _ (is_duplicate_acceptance is_network_unreachable : String → Bool) where
  abbrev pub publish : String → ℕ → Run → Option String → List BeaconAnchorEvent
  unfolding send_with_retry await_confirmation aborted_at_broadcast aborted_at_end
  publish cohort_id fuel run (some reason) =
      beacon_broadcast_failed cohort_id (not_extracted reason) ∷ []
  publish cohort_id fuel run none =
      after_send cohort_id run.stop (await_confirmation run.polls run.deadline fuel 0)
        (send_with_retry is_duplicate_acceptance is_network_unreachable run.options
          run.reply).outcome

  -- `handleSigningComplete`, with fuel for the confirmation loop.
  unfoldable pub handle_signing_complete : String → ℕ → Run → List BeaconAnchorEvent
  unfolding send_with_retry await_confirmation aborted_at_broadcast aborted_at_end
  handle_signing_complete cohort_id fuel run =
      if run.should_broadcast then publish cohort_id fuel run run.extraction_failure else []
