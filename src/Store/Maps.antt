-- ===== src/Store/Maps.antt =====
-- packages/service/src/store.ts: the maps of an artifact store, one for each kind.
use btcr2_aggregation.Prelude.{
  ◌≡◌, ◌==◌, ◌&&◌, none, some, String, if◌then◌else◌, refl, Bool-cases, inl, inr, eq_iff,
}
use btcr2_aggregation.OrderedMap.{OrderedMap, set, delete}
use btcr2_aggregation.OrderedMap.Laws.{Distinct, get-set, get-delete, set-Distinct, delete-Distinct}
use btcr2_aggregation.Store.{KindMaps, map_of, write_at, read_at, delete_at}

module _ {V : Type 0} where
  -- No key stands twice in a map.
  unfoldable pub IsOrdered : KindMaps V → Type 0
  IsOrdered s = (kind : String) → Distinct (map_of kind s)

  map_of-set :
      (j k : String) (m : OrderedMap V) (s : KindMaps V)
      → map_of j (set k m s) ≡ (if k == j then m else map_of j s)
  unfolding map_of
  map_of-set j k m s = elim (Bool-cases (k == j)) [
    | inl same ↦ rw (get-set j k m s) (rw same refl)
    | inr other ↦ rw (get-set j k m s) (rw other refl)
  ]

  set-IsOrdered :
      (k : String) (m : OrderedMap V) (s : KindMaps V)
      → Distinct m
      → IsOrdered s
      → IsOrdered (set k m s)
  unfolding IsOrdered
  set-IsOrdered k m s d h kind = elim (Bool-cases (k == kind)) [
    | inl same ↦ rw (map_of-set kind k m s) (rw same d)
    | inr other ↦ rw (map_of-set kind k m s) (rw other (h kind))
  ]

  pub write_at-IsOrdered :
      (k key : String) (v : V) (s : KindMaps V) → IsOrdered s → IsOrdered (write_at k key v s)
  unfolding write_at IsOrdered
  write_at-IsOrdered k key v s h = set-IsOrdered k _ s (set-Distinct key v (map_of k s) (h k)) h

  pub delete_at-IsOrdered :
      (k key : String) (s : KindMaps V) → IsOrdered s → IsOrdered (delete_at k key s)
  unfolding delete_at IsOrdered
  delete_at-IsOrdered k key s h = set-IsOrdered k _ s (delete-Distinct key (map_of k s) (h k)) h

  -- A write is read at its place, and nowhere else.
  pub read_at-write_at :
      (j i k key : String) (v : V) (s : KindMaps V)
      → read_at j i (write_at k key v s)
        ≡ (if (k == j) && (key == i) then some v else read_at j i s)
  unfolding read_at write_at
  read_at-write_at j i k key v s = elim (Bool-cases (k == j)) [
    | inl same ↦
        let e : k ≡ j = (eq_iff k j).0 same in
        rw (map_of-set j k (set key v (map_of k s)) s)
          (rw same (rw (get-set i key v (map_of k s)) (rw e refl)))
    | inr other ↦ rw (map_of-set j k (set key v (map_of k s)) s) (rw other refl)
  ]

  pub read_at-delete_at :
      (j i k key : String) (s : KindMaps V)
      → IsOrdered s
      → read_at j i (delete_at k key s) ≡ (if (k == j) && (key == i) then none else read_at j i s)
  unfolding read_at delete_at IsOrdered
  read_at-delete_at j i k key s h = elim (Bool-cases (k == j)) [
    | inl same ↦
        let e : k ≡ j = (eq_iff k j).0 same in
        rw (map_of-set j k (delete key (map_of k s)) s)
          (rw same (rw (get-delete i key (map_of k s) (h k)) (rw e refl)))
    | inr other ↦ rw (map_of-set j k (delete key (map_of k s)) s) (rw other refl)
  ]
