-- ===== src/Persist.antt =====
-- packages/service/src/persist.ts: the artifacts of a completed cohort, written into a store. The
-- canonical hash and the re-encoding of a proof's update id are parameters; an update id is well
-- formed, as the runner makes it, so its decoding does not throw.
pub mod Retrieval
use btcr2_aggregation.Prelude.{◌+◌, List, [], ◌∷◌, Option, none, some, String, ℕ}
use btcr2_aggregation.Prelude.Checked.{Checked, valid, problem}
use btcr2_aggregation.OrderedMap.{OrderedMap, values}
use btcr2_aggregation.Store.{ArtifactKind, update, announcement, proof, StoreError, ArtifactStore}

-- A cohort without SMT proofs has none of them here.
pub record PersistableCohort (V : Type 0) : Type 0 where
  pub pending_updates : OrderedMap V
  pub cas_announcement : Option V
  pub smt_proofs : OrderedMap V

pub record PersistSummary : Type 0 where
  pub updates : ℕ
  pub announcements : ℕ
  pub proofs : ℕ
  pub skipped_proofs : ℕ

-- The store so far, the tally, and the error that ended the writes, if one did.
pub record Persisting (S : Type 0) : Type 0 where
  pub state : S
  pub summary : PersistSummary
  pub failure : Option StoreError

-- `canonicalHash` in hexadecimal, and the update hash that a proof names, `none` without an id.
pub record Hashes (V : Type 0) : Type 0 where
  pub canonical_hash : V → String
  pub proof_key : V → Option String

module _ {S V : Type 0} (store : ArtifactStore S V) (hashes : Hashes V) where
  abbrev pub after_put :
      (PersistSummary → PersistSummary) → Persisting S → Checked StoreError S → Persisting S
  after_put tally p (valid s) = record p { state = s; summary = tally p.summary }
  after_put tally p (problem e) = record p { failure = some e }

  abbrev pub unless_failed : Option StoreError → Persisting S → Persisting S → Persisting S
  unless_failed (some e) p next = p
  unless_failed none p next = next

  -- One awaited put, unless an earlier one threw.
  unfoldable pub put_one :
      (PersistSummary → PersistSummary) → ArtifactKind → String → V → Persisting S → Persisting S
  put_one tally kind key v p =
      unless_failed p.failure p (after_put tally p (store.put kind key v p.state))

  unfoldable pub persist_updates : List V → Persisting S → Persisting S
  unfolding put_one
  persist_updates [] p = p
  persist_updates (u ∷ us) p =
      persist_updates us
        (put_one (λ t. record t { updates = t.updates + 1 }) update (hashes.canonical_hash u) u p)

  unfoldable pub persist_announcement : Option V → Persisting S → Persisting S
  unfolding put_one
  persist_announcement none p = p
  persist_announcement (some a) p =
      put_one (λ t. record t { announcements = t.announcements + 1 }) announcement
        (hashes.canonical_hash a) a p

  unfoldable pub persist_proof : V → Option String → Persisting S → Persisting S
  unfolding put_one
  persist_proof v none p =
      unless_failed p.failure p
        (record p { summary = record p.summary { skipped_proofs = p.summary.skipped_proofs + 1 } })
  persist_proof v (some key) p = put_one (λ t. record t { proofs = t.proofs + 1 }) proof key v p

  unfoldable pub persist_proofs : List V → Persisting S → Persisting S
  unfolding persist_proof
  persist_proofs [] p = p
  persist_proofs (v ∷ vs) p = persist_proofs vs (persist_proof v (hashes.proof_key v) p)

  abbrev pub begin : S → Persisting S
  begin s = record {
    state = s;
    summary = record { updates = 0; announcements = 0; proofs = 0; skipped_proofs = 0 };
    failure = none;
  }

  unfoldable pub persist_cohort_artifacts : PersistableCohort V → S → Persisting S
  unfolding persist_updates persist_announcement persist_proofs values
  persist_cohort_artifacts cohort s = persist_proofs (values cohort.smt_proofs) (
      persist_announcement cohort.cas_announcement
        (persist_updates (values cohort.pending_updates) (begin s)))
