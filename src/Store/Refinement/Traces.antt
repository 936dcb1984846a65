-- ===== src/Store/Refinement/Traces.antt =====
-- packages/service/src/store.ts: requests to a store, and two stores that answer them alike.
use btcr2_aggregation.Prelude.{
  ◌≡◌, Bool, true, not, List, [], ◌∷◌, Option, none, some, String, is_some, All, refl, sym, ◌∙◌, ap,
  inl, inr,
}
use btcr2_aggregation.Prelude.Checked.{Checked, valid, problem, >>=-congruent, Checked-cases}
use btcr2_aggregation.Store.{
  ArtifactKind, segment, StoreError, normalize_hex_key, ArtifactStore, map_of, read_at, Json,
  memory_artifact_store, file_system_artifact_store,
}
use btcr2_aggregation.Store.Maps.{IsOrdered}
use btcr2_aggregation.Store.Refinement.{View, IsStore, Updates}
use btcr2_aggregation.Store.Refinement.Memory.{memory-IsStore}
use btcr2_aggregation.Store.Refinement.Disk.{
  file_system_artifact_store-IsStore, empty-IsDisk, disk_view-empty,
}

pub data Request (V : Type 0) : Type 0 where
  puts : ArtifactKind → String → V → Request V
  gets tests deletes : ArtifactKind → String → Request V

pub data Answer (V : Type 0) : Type 0 where
  done : Answer V
  value : Option V → Answer V
  present : Bool → Answer V
  refused : StoreError → Answer V

-- The key of a put fits.
unfoldable pub IsFitting : {V : Type 0} → (String → Bool) → Request V → Type 0
IsFitting fits (puts kind key v) = (k : String) → normalize_hex_key key ≡ valid k → fits k ≡ true
IsFitting fits _ = Unit

module _ {S V : Type 0} (store : ArtifactStore S V) where
  abbrev pub changed : Checked StoreError S → S → S × Answer V
  changed (valid s') s = (s', done)
  changed (problem e) s = (s, refused e)

  abbrev pub looked : {A : Type 0} → (A → Answer V) → Checked StoreError A → Answer V
  looked f (valid a) = f a
  looked f (problem e) = refused e

  unfoldable pub answer : Request V → S → S × Answer V
  answer (puts kind key v) s = changed (store.put kind key v s) s
  answer (gets kind key) s = (s, looked value (store.get_artifact kind key s))
  answer (tests kind key) s = (s, looked present (store.has_artifact kind key s))
  answer (deletes kind key) s = changed (store.delete_artifact kind key s) s

  -- The answers in order, the first request first.
  unfoldable pub answers : List (Request V) → S → List (Answer V)
  unfolding answer
  answers [] s = []
  answers (r ∷ rs) s = (answer r s).1 ∷ answers rs (answer r s).0

module _ {S T V : Type 0} {one : ArtifactStore S V} {other : ArtifactStore T V} {IsOne : S → Type 0}
    {IsOther : T → Type 0} {view_one : S → View V} {view_other : T → View V}
    {fits fits_other : String → Bool} (first : IsStore one IsOne view_one fits)
    (second : IsStore other IsOther view_other fits_other) where
  -- Two states that show the same map.
  Same : S → T → Type 0
  Same s t = IsOne s × IsOther t × ((j i : String) → view_one s j i ≡ view_other t j i)

  updates-Same :
      (kind key : String) (o : Option V) (s s' : S) (t t' : T)
      → Same s t
      → IsOne s'
      → IsOther t'
      → Updates kind key o (view_one s) (view_one s')
      → Updates kind key o (view_other t) (view_other t')
      → Same s' t'
  unfolding Same Updates
  updates-Same kind key o s s' t t' (a, b, same) a' b' u w =
      (a', b', λ j i. u j i ∙ (rw (same j i) (sym (w j i))))

  -- One request, to both.
  Agree : Request V → S → T → Type 0
  unfolding Same
  Agree r s t =
      ((answer one r s).1 ≡ (answer other r t).1) × Same (answer one r s).0 (answer other r t).0

  puts-Agree :
      (kind : ArtifactKind) (key : String) (v : V) (s : S) (t : T)
      → IsFitting fits (puts kind key v)
      → IsFitting fits_other (puts kind key v)
      → Same s t
      → Agree (puts kind key v) s t
  unfolding Agree IsFitting answer Same
  puts-Agree kind key v s t room room' h = elim (Checked-cases (normalize_hex_key key)) [
    | inr (e, bad) ↦
        rw (first.refuses_put kind key v s e bad)
          (rw (second.refuses_put kind key v t e bad) (refl, h))
    | inl (k, good) ↦
        let (s', put, ok, u) = first.writes kind key k v s (h.0) good (room k good) in
        let (t', put', ok', u') = second.writes kind key k v t (h.1) good (room' k good) in
        rw put (rw put' (refl, updates-Same (segment kind) k (some v) s s' t t' h ok ok' u u'))
  ]

  deletes-Agree :
      (kind : ArtifactKind) (key : String) (s : S) (t : T) → Same s t → Agree (deletes kind key) s t
  unfolding Agree answer Same
  deletes-Agree kind key s t h = elim (Checked-cases (normalize_hex_key key)) [
    | inr (e, bad) ↦
        rw (first.refuses_delete kind key s e bad)
          (rw (second.refuses_delete kind key t e bad) (refl, h))
    | inl (k, good) ↦
        let (s', put, ok, u) = first.deletes kind key k s (h.0) good in
        let (t', put', ok', u') = second.deletes kind key k t (h.1) good in
        rw put (rw put' (refl, updates-Same (segment kind) k none s s' t t' h ok ok' u u'))
  ]

  gets-Agree :
      (kind : ArtifactKind) (key : String) (s : S) (t : T) → Same s t → Agree (gets kind key) s t
  unfolding Agree answer Same
  gets-Agree kind key s t h = (
    ap (looked one value) (
        first.reads kind key s (h.0)
        ∙ >>=-congruent (normalize_hex_key key) _ _ (λ k. ap valid (h.2 (segment kind) k))
        ∙ sym (second.reads kind key t (h.1))),
    h,
  )

  tests-Agree :
      (kind : ArtifactKind) (key : String) (s : S) (t : T) → Same s t → Agree (tests kind key) s t
  unfolding Agree answer Same
  tests-Agree kind key s t h = (
    ap (looked one present) (
        first.tests kind key s (h.0)
        ∙ >>=-congruent (normalize_hex_key key) _ _
            (λ k. ap (λ o. valid (is_some o)) (h.2 (segment kind) k))
        ∙ sym (second.tests kind key t (h.1))),
    h,
  )

  answer-Agree :
      (r : Request V) (s : S) (t : T)
      → IsFitting fits r
      → IsFitting fits_other r
      → Same s t
      → Agree r s t
  answer-Agree (puts kind key v) s t room room' h = puts-Agree kind key v s t room room' h
  answer-Agree (gets kind key) s t room room' h = gets-Agree kind key s t h
  answer-Agree (tests kind key) s t room room' h = tests-Agree kind key s t h
  answer-Agree (deletes kind key) s t room room' h = deletes-Agree kind key s t h

  answers-eq :
      (rs : List (Request V)) (s : S) (t : T)
      → All (IsFitting fits) rs
      → All (IsFitting fits_other) rs
      → Same s t
      → answers one rs s ≡ answers other rs t
  unfolding answers IsFitting Agree
  answers-eq [] s t room room' h = refl
  answers-eq (r ∷ rs) s t room room' h =
      let (here, next) = answer-Agree r s t (room.0) (room'.0) h in
      rw here (
        ap (λ x. (answer other r t).1 ∷ x)
          (answers-eq rs (answer one r s).0 (answer other r t).0 (room.1) (room'.1) next))

-- Every key fits in memory.
All-fit : {V : Type 0} (rs : List (Request V)) → All (IsFitting (λ key. true)) rs
unfolding IsFitting
All-fit [] = tt
All-fit (puts kind key v ∷ rs) = (λ k e. refl, All-fit rs)
All-fit (gets kind key ∷ rs) = (tt, All-fit rs)
All-fit (tests kind key ∷ rs) = (tt, All-fit rs)
All-fit (deletes kind key ∷ rs) = (tt, All-fit rs)

-- When JSON that was printed parses to what was printed, the store on disk and the store in memory,
-- both empty at first, give the same answers to the same puts, gets, tests and deletes, those with
-- malformed keys included, as long as no put has a key whose file name is too long.
pub file_system-answers-memory :
    {V : Type 0} (json : Json V) (name_too_long : String → Bool)
    → ((v : V) → json.parse (json.stringify v) ≡ some v)
    → (rs : List (Request V)) → All (IsFitting (λ key. not (name_too_long key))) rs
    → answers (file_system_artifact_store json name_too_long) rs []
      ≡ answers (memory_artifact_store {V = V}) rs []
unfolding Same IsOrdered map_of read_at
file_system-answers-memory json name_too_long round_trip rs room =
    answers-eq (file_system_artifact_store-IsStore json name_too_long round_trip) memory-IsStore rs
      [] [] room (All-fit rs)
      (
        empty-IsDisk json name_too_long round_trip,
        λ kind. tt,
        disk_view-empty json name_too_long round_trip,
      )
