-- ===== src/Broadcast/Reporting.antt =====
-- packages/service/src/broadcast.ts: the confirmation loop of `broadcastAndConfirm`, and the events
-- that one run of the `signing-complete` listener emits.
use btcr2_aggregation.Prelude.{
  ◌+◌, ◌*◌, ◌≤◌, ◌<◌, ◌≡◌, ◌⊎◌, ◌&&◌, not, Bool, true, false, List, [], ◌∷◌, Option, none, some,
  String, ℕ, suc, zero, ltb, refl, subst, inl, inr, Bool-cases, arith,
}
use btcr2_aggregation.Prelude.Checked.{Checked, valid, problem}
use btcr2_aggregation.Broadcast.{
  SendError, send_with_retry, Polls, await_confirmation, BeaconAnchorEvent, beacon_broadcast,
  beacon_anchored, beacon_broadcast_failed, FailureReason, not_extracted, send_failed, Stop,
  before_broadcast, before_confirmation, never, aborted_at_broadcast, aborted_at_end, Run,
  after_send, publish, handle_signing_complete,
}

module _ (polls : Polls) (deadline : ℕ) where
  -- The loop's answer at its j-th test.
  unfoldable pub IsAnswer : ℕ → Bool → Type 0
  IsAnswer j true =
      (polls.now j < deadline) × (polls.aborted j ≡ false) × (polls.is_confirmed j ≡ true)
  IsAnswer j false = (deadline ≤ polls.now j) ⊎ (polls.aborted j ≡ true)

  -- From the i-th test on the loop ends, at the j-th, with the answer `b`.
  unfoldable pub EndsWith : ℕ → Option Bool → Type 0
  unfolding IsAnswer
  EndsWith i answer =
      (j : ℕ) × (b : Bool) × (answer ≡ some b)
      × (i ≤ j)
      × ((k : ℕ) → i ≤ k → k < j → polls.is_confirmed k ≡ false)
      × IsAnswer j b

  at_once : (i : ℕ) (b : Bool) → IsAnswer i b → EndsWith i (some b)
  unfolding EndsWith
  at_once i b h = (i, b, refl, omega arith, λ k from before. elim (beyond k from before) [ ], h)
    where
      beyond : (k : ℕ) → i ≤ k → k < i → ⊥
      beyond k from before = omega arith

  later_on :
      (i : ℕ) (answer : Option Bool)
      → polls.is_confirmed i ≡ false
      → EndsWith (i + 1) answer
      → EndsWith i answer
  unfolding EndsWith
  later_on i answer h (j, b, e, from, quiet, end) =
      (j, b, e, omega arith, λ k low high. at_or_after k low high, end)
    where
      at_or_after : (k : ℕ) → i ≤ k → k < j → polls.is_confirmed k ≡ false
      at_or_after k low high = elim (Bool-cases (ltb i k)) [
        | inl after ↦ quiet k (ground arith) high
        | inr not_after ↦
            let same : i ≡ k = ground arith in subst (λ m. polls.is_confirmed m ≡ false) same h
      ]

  pub EndsWith-answer :
      (i : ℕ) (o : Option Bool) → EndsWith i o → (c : Bool) × (o ≡ some c) × EndsWith i (some c)
  unfolding EndsWith
  EndsWith-answer i o (j, c, e, from, quiet, end) = (c, e, (j, c, refl, from, quiet, end))

  turn-EndsWith :
      (fuel i : ℕ)
      → ((ltb (polls.now i) deadline && not (polls.aborted i)) ≡ true
          → EndsWith (i + 1) (await_confirmation polls deadline fuel (i + 1)))
      → EndsWith i (await_confirmation polls deadline (suc fuel) i)
  unfolding await_confirmation IsAnswer
  turn-EndsWith fuel i rest =
      elim (Bool-cases (ltb (polls.now i) deadline && not (polls.aborted i))) [
        | inr ended ↦ rw ended (at_once i false (ground arith))
        | inl waits ↦ elim (Bool-cases (polls.is_confirmed i)) [
          | inl hit ↦ rw waits (rw hit (at_once i true (ground arith)))
          | inr miss ↦ rw waits (rw miss (later_on i _ miss (rest waits)))
        ]
      ]

  -- With a clock that moves by the poll interval at least, fuel for the time left is enough: the
  -- loop ends, with `true` at its first confirmed poll, or with `false` at a test past the deadline
  -- or after the stop signal, no earlier poll being confirmed.
  pub await_confirmation-EndsWith :
      (interval fuel i : ℕ)
      → ((k : ℕ) → polls.now k + interval ≤ polls.now (k + 1))
      → deadline ≤ polls.now i + fuel * interval
      → EndsWith i (await_confirmation polls deadline (suc fuel) i)
  await_confirmation-EndsWith interval zero i moves enough =
      turn-EndsWith zero i (λ waits. absurd (ground arith))
  await_confirmation-EndsWith interval (suc left) i moves enough =
      turn-EndsWith (suc left) i
        (λ waits. await_confirmation-EndsWith interval left (i + 1) moves (ground (arith, moves i)))

-- The event lists that a run may emit.
pub data IsOrderly (id : String) : List BeaconAnchorEvent → Type 0 where
  silent : IsOrderly id []
  only_failed : (r : FailureReason) → IsOrderly id (beacon_broadcast_failed id r ∷ [])
  only_broadcast : (txid : String) → IsOrderly id (beacon_broadcast id txid ∷ [])
  broadcast_and_anchored :
      (txid : String) (confirmed : Bool)
      → IsOrderly id (beacon_broadcast id txid ∷ beacon_anchored id txid confirmed ∷ [])

module _ (is_duplicate is_unreachable : String → Bool) (id : String) where
  after_send-IsOrderly :
      (stop : Stop) (answer : Option Bool) (sent : Checked SendError String)
      → IsOrderly id (after_send id stop answer sent)
  unfolding aborted_at_broadcast aborted_at_end
  after_send-IsOrderly before_broadcast none (valid txid) = silent
  after_send-IsOrderly before_broadcast (some c) (valid txid) = silent
  after_send-IsOrderly before_confirmation none (valid txid) = only_broadcast txid
  after_send-IsOrderly before_confirmation (some c) (valid txid) = only_broadcast txid
  after_send-IsOrderly never none (valid txid) = only_broadcast txid
  after_send-IsOrderly never (some c) (valid txid) = broadcast_and_anchored txid c
  after_send-IsOrderly before_broadcast answer (problem e) = silent
  after_send-IsOrderly before_confirmation answer (problem e) = silent
  after_send-IsOrderly never answer (problem e) = only_failed (send_failed e)

  publish-IsOrderly :
      (fuel : ℕ) (run : Run) (failure : Option String)
      → IsOrderly id (publish is_duplicate is_unreachable id fuel run failure)
  unfolding publish after_send
  publish-IsOrderly fuel run (some reason) = only_failed (not_extracted reason)
  publish-IsOrderly fuel run none = after_send-IsOrderly run.stop _ _

  -- A run of the listener emits nothing, one failure, one broadcast, or one broadcast and then one
  -- anchoring of the same transaction, all of its own cohort.
  pub handle_signing_complete-IsOrderly :
      (fuel : ℕ) (run : Run)
      → IsOrderly id (handle_signing_complete is_duplicate is_unreachable id fuel run)
  unfolding handle_signing_complete
  handle_signing_complete-IsOrderly fuel run = elim (Bool-cases run.should_broadcast) [
    | inl allowed ↦ rw allowed (publish-IsOrderly fuel run run.extraction_failure)
    | inr denied ↦ rw denied silent
  ]

  -- What a run that is not stopped reports about a send.
  unfoldable pub IsReported : Run → Checked SendError String → List BeaconAnchorEvent → Type 0
  unfolding EndsWith
  IsReported run (valid txid) events =
      (c : Bool) × (events ≡ beacon_broadcast id txid ∷ beacon_anchored id txid c ∷ [])
      × EndsWith run.polls run.deadline 0 (some c)
  IsReported run (problem e) events = events ≡ beacon_broadcast_failed id (send_failed e) ∷ []

  -- A run that is let through, extracts its transaction and is not stopped reports the end: the
  -- failure of its send, or the broadcast and then the anchoring with the loop's answer.
  pub handle_signing_complete-IsReported :
      (interval fuel : ℕ) (run : Run)
      → run.should_broadcast ≡ true
      → run.extraction_failure ≡ none
      → run.stop ≡ never
      → ((k : ℕ) → run.polls.now k + interval ≤ run.polls.now (k + 1))
      → run.deadline ≤ run.polls.now 0 + fuel * interval
      → IsReported run
          (send_with_retry is_duplicate is_unreachable run.options run.reply).outcome
          (handle_signing_complete is_duplicate is_unreachable id (suc fuel) run)
  unfolding handle_signing_complete IsReported publish after_send aborted_at_broadcast
      aborted_at_end
  handle_signing_complete-IsReported interval fuel run allowed extracted runs moves enough =
      let (c, answer, ends) =
        EndsWith-answer run.polls run.deadline 0
          (await_confirmation run.polls run.deadline (suc fuel) 0)
          (await_confirmation-EndsWith run.polls run.deadline interval fuel 0 moves enough) in
      rw allowed (
        rw extracted (
          rw runs (
            rw answer (
              told (send_with_retry is_duplicate is_unreachable run.options run.reply).outcome c
                ends))))
    where
      told :
          (sent : Checked SendError String) (c : Bool)
          → EndsWith run.polls run.deadline 0 (some c)
          → IsReported run sent (after_send id never (some c) sent)
      told (valid txid) c h = (c, refl, h)
      told (problem e) c h = refl
