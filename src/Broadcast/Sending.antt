-- ===== src/Broadcast/Sending.antt =====
-- packages/service/src/broadcast.ts, `sendWithRetry` and the confirmation loop: how they end.
use btcr2_aggregation.Prelude.{
  ◌+◌, ◌-◌, ◌≤◌, ◌<◌, ◌≡◌, ◌⊎◌, ◌||◌, Bool, true, false, Option, none, some, String, ℕ, suc, zero,
  ltb, refl, subst, inl, inr, Bool-cases, Option-cases, arith,
}
use btcr2_aggregation.Prelude.Checked.{Checked, valid}
use btcr2_aggregation.Broadcast.{
  Reply, accepts, throws, SendError, BroadcastConfirmOptions, attempts_of, Sent, give_up,
  duplicate_of, retry, on_reply, send_from, send_with_retry,
}

module _ (is_duplicate is_unreachable : String → Bool) (opts : BroadcastConfirmOptions) where
  -- A reply after which the loop sends again.
  unfoldable pub IsRefusal : Reply → Type 0
  unfolding duplicate_of
  IsRefusal (accepts txid) = ⊥
  IsRefusal (throws message stopped later) =
      (duplicate_of is_duplicate is_unreachable opts message ≡ none) × ((stopped || later) ≡ false)

  -- What the loop returns at its last reply, with the sends it took.
  unfoldable pub IsEnd : ℕ → Sent → Reply → Type 0
  unfolding duplicate_of give_up
  IsEnd attempts sent (accepts txid) = sent.outcome ≡ valid txid
  IsEnd attempts sent (throws message stopped later) =
      ((txid : String) × (duplicate_of is_duplicate is_unreachable opts message ≡ some txid)
        × (sent.outcome ≡ valid txid))
      ⊎ ((sent.outcome ≡ give_up is_duplicate is_unreachable attempts message)
          × (((stopped || later) ≡ true) ⊎ (sent.sends ≡ attempts)))

  -- The attempts from `first` to before `limit`, at most.
  unfoldable pub IsRun : ℕ → (ℕ → Reply) → ℕ → ℕ → Sent → Type 0
  unfolding IsRefusal IsEnd
  IsRun attempts reply first limit sent =
      (first < sent.sends)
      × (sent.sends ≤ limit)
      × ((i : ℕ) → first ≤ i → i + 1 < sent.sends → IsRefusal (reply i))
      × IsEnd attempts sent (reply (sent.sends - 1))

  module _ (attempts : ℕ) (reply : ℕ → Reply) where
    single :
        (attempt limit : ℕ) (o : Checked SendError String)
        → attempt < limit
        → IsEnd attempts (record { outcome = o; sends = attempt + 1 }) (reply attempt)
        → IsRun attempts reply attempt limit (record { outcome = o; sends = attempt + 1 })
    unfolding IsRun
    single attempt limit o room h = (
      omega arith,
      omega arith,
      λ i from before. elim (beyond i from before) [ ],
      subst (λ k. IsEnd attempts (record { outcome = o; sends = attempt + 1 }) (reply k))
          (omega arith) h,
    )
      where
        beyond : (i : ℕ) → attempt ≤ i → i + 1 < attempt + 1 → ⊥
        beyond i from before = omega arith

    later :
        (attempt limit : ℕ) (sent : Sent)
        → IsRefusal (reply attempt)
        → IsRun attempts reply (attempt + 1) limit sent
        → IsRun attempts reply attempt limit sent
    unfolding IsRun
    later attempt limit sent refusal (lower, upper, between, end) =
        (omega arith, upper, λ i from before. at_or_after i from before, end)
      where
        at_or_after : (i : ℕ) → attempt ≤ i → i + 1 < sent.sends → IsRefusal (reply i)
        at_or_after i from before = elim (Bool-cases (ltb attempt i)) [
          | inl after ↦ between i (ground arith) before
          | inr not_after ↦
              let same : attempt ≡ i = ground arith in subst (λ k. IsRefusal (reply k)) same refusal
        ]

    -- The loop's end at a throw that is no duplicate.
    gives_up :
        (attempt limit : ℕ) (message : String) (stopped later : Bool)
        → attempt < limit
        → reply attempt ≡ throws message stopped later
        → ((stopped || later) ≡ true) ⊎ (attempt + 1 ≡ attempts)
        → IsRun attempts reply attempt limit (record {
          outcome = give_up is_duplicate is_unreachable attempts message;
          sends = attempt + 1;
        })
    unfolding IsEnd
    gives_up attempt limit message stopped later room e why =
        single attempt limit (give_up is_duplicate is_unreachable attempts message) room
          (rw e (inr (refl, why)))

    -- What is left after the given attempt.
    IsRest : ℕ → Option Sent → Type 0
    unfolding IsRun
    IsRest attempt none = attempt + 1 ≡ attempts
    IsRest attempt (some sent) = IsRun attempts reply (attempt + 1) attempts sent

    one :
        (attempt : ℕ) (r : Reply) (rest : Option Sent)
        → reply attempt ≡ r
        → attempt < attempts
        → IsRest attempt rest
        → IsRun attempts reply attempt attempts
            (on_reply is_duplicate is_unreachable opts attempts attempt r rest)
    unfolding on_reply IsEnd IsRefusal IsRest
    one attempt (accepts txid) rest e room keep =
        single attempt attempts (valid txid) room (rw e refl)
    one attempt (throws message stopped late) rest e room keep =
        elim (Option-cases (duplicate_of is_duplicate is_unreachable opts message)) [
          | inr (txid, known) ↦
              rw known (single attempt attempts (valid txid) room (rw e (inl (txid, known, refl))))
          | inl unknown ↦ rw unknown (retried rest keep unknown)
        ]
      where
        retried :
            (rest : Option Sent)
            → IsRest attempt rest
            → duplicate_of is_duplicate is_unreachable opts message ≡ none
            → IsRun attempts reply attempt attempts
                (retry is_duplicate is_unreachable attempts attempt message (stopped || late) rest)
        retried none last unknown = gives_up attempt attempts message stopped late room e (inr last)
        retried (some sent) keep unknown = elim (Bool-cases (stopped || late)) [
          | inl stop ↦ rw stop (gives_up attempt attempts message stopped late room e (inl stop))
          | inr go ↦ rw go (later attempt attempts sent (rw e (unknown, go)) keep)
        ]

    runs :
        (left attempt : ℕ)
        → attempt + 1 + left ≡ attempts
        → IsRun attempts reply attempt attempts
            (send_from is_duplicate is_unreachable opts attempts reply attempt left)
    unfolding send_from IsRest
    runs zero attempt e = one attempt (reply attempt) none refl (omega arith) (omega arith)
    runs (suc left) attempt e =
        one attempt (reply attempt)
          (some (send_from is_duplicate is_unreachable opts attempts reply (attempt + 1) left)) refl
          (omega arith) (runs left (attempt + 1) (omega arith))

  -- `sendWithRetry` ends: it sends at least once and at most as often as configured, sends again
  -- exactly after a throw that is no known duplicate while the service runs, and returns what its
  -- last reply says.
  pub send_with_retry-IsRun :
      (reply : ℕ → Reply)
      → IsRun
          (attempts_of opts)
          reply
          0
          (attempts_of opts)
          (send_with_retry is_duplicate is_unreachable opts reply)
  unfolding send_with_retry attempts_of
  send_with_retry-IsRun reply = runs (attempts_of opts) reply (attempts_of opts - 1) 0 (omega arith)
