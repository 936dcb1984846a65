-- ===== src/Store/Refinement/Disk.antt =====
-- packages/service/src/store.ts, `FileSystemArtifactStore`: it keeps the promises of a store.
use btcr2_aggregation.Prelude.{
  ◌≡◌, ◌==◌, ◌&&◌, Bool, true, false, not, [], Option, none, some, String, if◌then◌else◌, refl,
  subst, ap, is_some, Bool-cases, inl, inr, eq_iff, arith,
}
use btcr2_aggregation.Prelude.Checked.{Checked, valid, >>=-congruent}
use btcr2_aggregation.Store.{
  ArtifactKind, segment, StoreError, normalize_hex_key, KindMaps, map_of, write_at, read_at,
  delete_at, Json, parse_file, file_system_artifact_store,
}
use btcr2_aggregation.Store.Maps.{
  IsOrdered, write_at-IsOrdered, delete_at-IsOrdered, read_at-write_at, read_at-delete_at,
}
use btcr2_aggregation.Store.Refinement.{IsStore, Updates, View}

module _ {V : Type 0} (json : Json V) (name_too_long : String → Bool)
    (round_trip : (v : V) → json.parse (json.stringify v) ≡ some v) where
  -- A file holds JSON, and its name is not too long.
  IsFile : Option String → String → Type 0
  IsFile none key = Unit
  IsFile (some text) key = (name_too_long key ≡ false) × ((v : V) × (json.parse text ≡ some v))

  -- The files that the store itself writes.
  pub IsDisk : KindMaps String → Type 0
  unfolding IsOrdered IsFile
  IsDisk s = IsOrdered s × ((kind key : String) → IsFile (read_at kind key s) key)

  disk-IsOrdered : (s : KindMaps String) → IsDisk s → IsOrdered s
  unfolding IsDisk
  disk-IsOrdered s h = h.0

  pub disk_view : KindMaps String → View V
  disk_view s kind key = parse_file json name_too_long (read_at kind key s)

  long_unread :
      (key : String) (o : Option String) → IsFile o key → name_too_long key ≡ true → o ≡ none
  unfolding IsFile
  long_unread key none h long = refl
  long_unread key (some text) h long = cc (h.0)

  file-is_some :
      (key : String) (o : Option String)
      → IsFile o key
      → is_some o ≡ is_some (parse_file json name_too_long o)
  unfolding IsFile
  file-is_some key none h = refl
  file-is_some key (some text) (short, (v, e)) = rw e refl

  reads_short :
      (key : String) (o : Option String)
      → IsFile o key
      → (if name_too_long key then none else parse_file json name_too_long o)
        ≡ parse_file json name_too_long o
  unfolding IsFile
  reads_short key none h = elim (Bool-cases (name_too_long key)) [
    | inl long ↦ rw long refl
    | inr short ↦ rw short refl
  ]
  reads_short key (some text) h = rw (h.0) refl

  module _ (key : String) (o : Option String) (h : IsFile o key) where
    reads_one :
        ◌≡◌ {A = Checked StoreError (Option V)}
          (if name_too_long key then valid none else valid (parse_file json name_too_long o))
          (valid (parse_file json name_too_long o))
    reads_one = elim (Bool-cases (name_too_long key)) [
      | inl long ↦ rw long (rw (long_unread key o h long) refl)
      | inr short ↦ rw short refl
    ]

    tests_one :
        ◌≡◌ {A = Checked StoreError Bool}
          (if name_too_long key then valid false else valid (is_some o))
          (valid (is_some (parse_file json name_too_long o)))
    tests_one = elim (Bool-cases (name_too_long key)) [
      | inl long ↦ rw long (rw (long_unread key o h long) refl)
      | inr short ↦ rw short (ap valid (file-is_some key o h))
    ]

  writes-IsFile :
      (key i : String) (here : Bool) (v : V) (o : Option String)
      → (here ≡ true → key ≡ i)
      → name_too_long key ≡ false
      → IsFile o i
      → IsFile (if here then some (json.stringify v) else o) i
  unfolding IsFile
  writes-IsFile key i true v o same short h =
      (subst (λ k. name_too_long k ≡ false) (same refl) short, (v, round_trip v))
  writes-IsFile key i false v o same short h = h

  deletes-IsFile :
      (i : String) (here : Bool) (o : Option String)
      → IsFile o i
      → IsFile (if here then none else o) i
  unfolding IsFile
  deletes-IsFile i true o h = tt
  deletes-IsFile i false o h = h

  parse-if :
      (here : Bool) (new o : Option String)
      → parse_file json name_too_long (if here then new else o)
        ≡ (if here then parse_file json name_too_long new else parse_file json name_too_long o)
  parse-if true new o = refl
  parse-if false new o = refl

  second : (a b : Bool) → (a && b) ≡ true → b ≡ true
  second true b h = h
  second false b h = cc

  write-IsDisk :
      (kind key : String) (v : V) (s : KindMaps String)
      → name_too_long key ≡ false
      → IsDisk s
      → IsDisk (write_at kind key (json.stringify v) s)
  unfolding IsDisk
  write-IsDisk kind key v s short (ordered, files) = (
    write_at-IsOrdered kind key (json.stringify v) s ordered,
    λ j i. rw (read_at-write_at j i kind key (json.stringify v) s) (
        writes-IsFile key i ((kind == j) && (key == i)) v (read_at j i s)
          (λ here. (eq_iff key i).0 (second (kind == j) (key == i) here)) short (files j i)),
  )

  delete-IsDisk :
      (kind key : String) (s : KindMaps String) → IsDisk s → IsDisk (delete_at kind key s)
  unfolding IsDisk
  delete-IsDisk kind key s (ordered, files) = (
    delete_at-IsOrdered kind key s ordered,
    λ j i.
        rw (read_at-delete_at j i kind key s ordered)
          (deletes-IsFile i ((kind == j) && (key == i)) (read_at j i s) (files j i)),
  )

  -- The disk before the first file.
  pub empty-IsDisk : IsDisk []
  unfolding IsDisk IsOrdered IsFile map_of read_at
  empty-IsDisk = (λ kind. tt, λ kind key. tt)

  pub disk_view-empty : (kind key : String) → disk_view [] kind key ≡ none
  unfolding disk_view read_at
  disk_view-empty kind key = refl

  no_file :
      (kind j k i : String) (s : KindMaps String)
      → IsDisk s
      → name_too_long k ≡ true
      → disk_view s j i ≡ (if (kind == j) && (k == i) then none else disk_view s j i)
  unfolding disk_view IsDisk
  no_file kind j k i s (ordered, files) long = elim (Bool-cases ((kind == j) && (k == i))) [
    | inr other ↦ rw other refl
    | inl here ↦
        let same : k ≡ i = (eq_iff k i).0 (second (kind == j) (k == i) here) in
        rw here (
          rw
            (long_unread i (read_at j i s) (files j i)
              (subst (λ m. name_too_long m ≡ true) same long))
            refl)
  ]

  deletes_one :
      (kind : ArtifactKind) (key k : String) (s : KindMaps String)
      → IsDisk s
      → normalize_hex_key key ≡ valid k
      → (s' : KindMaps String) × ((file_system_artifact_store json name_too_long).delete_artifact
            kind key s
          ≡ valid s')
        × IsDisk s'
        × Updates (segment kind) k none (disk_view s) (disk_view s')
  unfolding file_system_artifact_store Updates disk_view
  deletes_one kind key k s h e = elim (Bool-cases (name_too_long k)) [
    | inl long ↦ (s, rw e (rw long refl), h, λ j i. no_file (segment kind) j k i s h long)
    | inr short ↦ (
      delete_at (segment kind) k s,
      rw e (rw short refl),
      delete-IsDisk (segment kind) k s h,
      λ j i.
          rw (read_at-delete_at j i (segment kind) k s (disk-IsOrdered s h))
            (parse-if ((segment kind == j) && (k == i)) none (read_at j i s)),
    )
  ]

  -- When JSON that was printed parses to what was printed, the store on disk is a map from kinds and
  -- keys too, for the keys whose names are not too long.
  pub file_system_artifact_store-IsStore :
      IsStore
        (file_system_artifact_store json name_too_long)
        IsDisk
        disk_view
        (λ key. not (name_too_long key))
  unfolding file_system_artifact_store Updates disk_view IsDisk
  file_system_artifact_store-IsStore = record {
    reads = λ kind key s h.
        >>=-congruent (normalize_hex_key key) _ _
          (λ k. reads_one k (read_at (segment kind) k s) (h.1 (segment kind) k));
    tests = λ kind key s h.
        >>=-congruent (normalize_hex_key key) _ _
          (λ k. tests_one k (read_at (segment kind) k s) (h.1 (segment kind) k));
    refuses_put = λ kind key v s e h. rw h refl;
    refuses_delete = λ kind key s e h. rw h refl;
    writes = λ kind key k v s h e room.
        let short : name_too_long k ≡ false = ground (arith, room) in
        (
          write_at (segment kind) k (json.stringify v) s,
          rw e (rw short refl),
          write-IsDisk (segment kind) k v s short h,
          λ j i. rw (read_at-write_at j i (segment kind) k (json.stringify v) s) (
              rw
                (parse-if ((segment kind == j) && (k == i)) (some (json.stringify v))
                  (read_at j i s))
                (rw (round_trip v) refl)),
        );
    deletes = λ kind key k s h e. deletes_one kind key k s h e;
  }
