-- ===== src/Persist/Retrieval.antt =====
-- packages/service/src/persist.ts: what was persisted is found where a resolver asks for it.
use btcr2_aggregation.Prelude.{
  ◌+◌, ◌≡◌, ◌==◌, Bool, true, List, [], ◌∷◌, Option, none, some, String, All, refl, ◌∙◌, inl, inr,
  Bool-cases, eq_iff, eq_refl,
}
use btcr2_aggregation.Prelude.Checked.{valid}
use btcr2_aggregation.OrderedMap.{values}
use btcr2_aggregation.Store.{
  ArtifactKind, update, announcement, proof, segment, normalize_hex_key, ArtifactStore,
}
use btcr2_aggregation.Store.Refinement.{View, IsStore, Updates}
use btcr2_aggregation.Persist.{
  PersistableCohort, PersistSummary, Persisting, Hashes, put_one, persist_updates,
  persist_announcement, persist_proof, persist_proofs, begin, persist_cohort_artifacts,
}

module _ {S V : Type 0} (store : ArtifactStore S V) (hashes : Hashes V) {IsOk : S → Type 0}
    {view : S → View V} {fits : String → Bool} (promises : IsStore store IsOk view fits) where
  -- A key in the form of the store, that fits.
  unfoldable pub IsKey : String → Type 0
  IsKey key = (normalize_hex_key key ≡ valid key) × (fits key ≡ true)

  -- A run without an error so far.
  unfoldable pub IsRunning : Persisting S → Type 0
  IsRunning p = (p.failure ≡ none) × IsOk p.state

  -- An update is found under its hash, up to one with the same hash.
  unfoldable pub IsFound : S → V → Type 0
  IsFound s u =
      (v : V) × (view s "update" (hashes.canonical_hash u) ≡ some v)
      × (hashes.canonical_hash v ≡ hashes.canonical_hash u)

  IsFound-put :
      (kind : ArtifactKind) (key : String) (v u : V) (s s' : S)
      → Updates (segment kind) key (some v) (view s) (view s')
      → ((segment kind == "update") ≡ true → hashes.canonical_hash v ≡ key)
      → IsFound s u
      → IsFound s' u
  unfolding IsFound Updates
  IsFound-put kind key v u s s' changed own (w, there, same) =
      elim (Bool-cases (segment kind == "update")) [
        | inr other ↦ (w, rw (changed "update" (hashes.canonical_hash u)) (rw other there), same)
        | inl here ↦ elim (Bool-cases (key == hashes.canonical_hash u)) [
          | inr apart ↦
              (w, rw (changed "update" (hashes.canonical_hash u)) (rw here (rw apart there)), same)
          | inl hit ↦ (
            v,
            rw (changed "update" (hashes.canonical_hash u)) (rw here (rw hit refl)),
            own here ∙ (eq_iff key (hashes.canonical_hash u)).0 hit,
          )
        ]
      ]

  -- One put of a running run.
  put_one-IsRunning :
      (tally : PersistSummary → PersistSummary) (kind : ArtifactKind) (key : String) (v : V)
      (p : Persisting S)
      → IsKey key
      → IsRunning p
      → (s' : S) × (put_one store hashes tally kind key v p
          ≡ record p { state = s'; summary = tally p.summary })
        × IsOk s'
        × Updates (segment kind) key (some v) (view p.state) (view s')
  unfolding put_one IsKey IsRunning
  put_one-IsRunning tally kind key v p (good, room) (running, ok) =
      let (s', put, ok', changed) = promises.writes kind key key v p.state ok good room in
      (s', rw running (rw put refl), ok', changed)

  -- A later run: it goes on, and what was found still is.
  Extends : Persisting S → Persisting S → Type 0
  unfolding IsRunning IsFound
  Extends p q = IsRunning q × ((u : V) → IsFound p.state u → IsFound q.state u)

  one_put-Extends :
      (tally : PersistSummary → PersistSummary) (kind : ArtifactKind) (key : String) (v : V)
      (p : Persisting S)
      → IsKey key
      → ((segment kind == "update") ≡ true → hashes.canonical_hash v ≡ key)
      → IsRunning p
      → Extends p (put_one store hashes tally kind key v p)
  unfolding Extends IsRunning
  one_put-Extends tally kind key v p good own (running, ok) =
      let (s', same, ok', changed) = put_one-IsRunning tally kind key v p good (running, ok) in
      rw same ((running, ok'), λ u found. IsFound-put kind key v u p.state s' changed own found)

  put_update-IsFound :
      (tally : PersistSummary → PersistSummary) (u : V) (p : Persisting S)
      → IsKey (hashes.canonical_hash u)
      → IsRunning p
      → IsFound (put_one store hashes tally update (hashes.canonical_hash u) u p).state u
  unfolding IsFound Updates segment
  put_update-IsFound tally u p good running =
      let (s', same, ok', changed) =
        put_one-IsRunning tally update (hashes.canonical_hash u) u p good running in
      rw same (
        u,
        rw (changed "update" (hashes.canonical_hash u))
            (rw (eq_refl (hashes.canonical_hash u)) refl),
        refl,
      )

  persist_updates-Extends :
      (us : List V) (p : Persisting S)
      → ((v : V) → IsKey (hashes.canonical_hash v))
      → IsRunning p
      → Extends p (persist_updates store hashes us p)
        × All (IsFound (persist_updates store hashes us p).state) us
  unfolding persist_updates Extends
  persist_updates-Extends [] p good running = ((running, λ u found. found), tt)
  persist_updates-Extends (u ∷ us) p good running =
      let tally : PersistSummary → PersistSummary = λ t. record t { updates = t.updates + 1 } in
      let first =
        one_put-Extends tally update (hashes.canonical_hash u) u p (good u) (λ h. refl) running in
      let here = put_update-IsFound tally u p (good u) running in
      let (rest, found) = persist_updates-Extends us _ good (first.0) in
      ((rest.0, λ v h. rest.1 v (first.1 v h)), (rest.1 u here, found))

  persist_announcement-Extends :
      (a : Option V) (p : Persisting S)
      → ((v : V) → IsKey (hashes.canonical_hash v))
      → IsRunning p
      → Extends p (persist_announcement store hashes a p)
  unfolding persist_announcement Extends
  persist_announcement-Extends none p good running = (running, λ u found. found)
  persist_announcement-Extends (some a) p good running =
      one_put-Extends (λ t. record t { announcements = t.announcements + 1 }) announcement
        (hashes.canonical_hash a) a p (good a) (λ h. refl) running

  one_proof-Extends :
      (v : V) (key : Option String) (p : Persisting S)
      → ((k : String) → key ≡ some k → IsKey k)
      → IsRunning p
      → Extends p (persist_proof store hashes v key p)
  unfolding Extends IsRunning segment persist_proof
  one_proof-Extends v none p good (running, ok) = rw running ((refl, ok), λ u found. found)
  one_proof-Extends v (some k) p good running =
      one_put-Extends (λ t. record t { proofs = t.proofs + 1 }) proof k v p (good k refl) (λ h. cc)
        running

  persist_proofs-Extends :
      (vs : List V) (p : Persisting S)
      → ((v : V) (k : String) → hashes.proof_key v ≡ some k → IsKey k)
      → IsRunning p
      → Extends p (persist_proofs store hashes vs p)
  unfolding persist_proofs Extends
  persist_proofs-Extends [] p good running = (running, λ u found. found)
  persist_proofs-Extends (v ∷ vs) p good running =
      let first = one_proof-Extends v (hashes.proof_key v) p (good v) running in
      let rest = persist_proofs-Extends vs _ good (first.0) in
      (rest.0, λ u h. rest.1 u (first.1 u h))

  -- In a store that keeps its promises, and with hashes that are keys of it, a completed cohort is
  -- persisted without an error, and afterwards each of its signed updates is found under its
  -- canonical hash, up to an update with the same hash.
  pub persist_cohort_artifacts-IsFound :
      (cohort : PersistableCohort V) (s : S)
      → IsOk s
      → ((v : V) → IsKey (hashes.canonical_hash v))
      → ((v : V) (k : String) → hashes.proof_key v ≡ some k → IsKey k)
      → IsRunning (persist_cohort_artifacts store hashes cohort s)
        × All
            (IsFound (persist_cohort_artifacts store hashes cohort s).state)
            (values cohort.pending_updates)
  unfolding persist_cohort_artifacts Extends IsRunning
  persist_cohort_artifacts-IsFound cohort s ok good good_proofs =
      let (updated, found) =
        persist_updates-Extends (values cohort.pending_updates) (begin store hashes s) good
          (refl, ok) in
      let announced = persist_announcement-Extends cohort.cas_announcement _ good (updated.0) in
      let proved = persist_proofs-Extends (values cohort.smt_proofs) _ good_proofs (announced.0) in
      (
        proved.0,
        still_found (values cohort.pending_updates) _ _ (λ u h. proved.1 u (announced.1 u h)) found,
      )
    where
      still_found :
          (us : List V) (p q : S)
          → ((u : V) → IsFound p u → IsFound q u)
          → All (IsFound p) us
          → All (IsFound q) us
      still_found [] p q keep h = tt
      still_found (u ∷ us) p q keep h = (keep u (h.0), still_found us p q keep (h.1))
