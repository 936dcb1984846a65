-- ===== src/OrderedMap/Eviction.antt =====
-- Reads of a bounded table after a write and its eviction loop.
use btcr2_aggregation.Prelude.{
  ◌≡◌, ◌≤◌, ◌<◌, ◌==◌, true, [], ◌∷◌, some, String, ℕ, suc, arith, if◌then◌else◌, length, eq_iff,
  eq_refl, Bool-cases, inl, inr,
}
use btcr2_aggregation.OrderedMap.{OrderedMap, get, has, set, delete, evict, remember}
use btcr2_aggregation.OrderedMap.Laws.{
  Distinct, get-set, get-delete, has_of_get, set-Distinct, delete-Distinct, set_absent, length-set,
}
use btcr2_aggregation.OrderedMap.Bounds.{
  evict_of_le, evict-concat, get-concat_absent, has-evict_absent,
}

module _ {ℓ} {V : Type ℓ} where
  -- What is read after an eviction was there before it.
  pub get_of_evict :
      (limit : ℕ) (k : String) (v : V) (m : OrderedMap V)
      → Distinct m
      → get k (evict limit m) ≡ some v
      → get k m ≡ some v
  unfolding get evict
  get_of_evict limit k v [] d h = h
  get_of_evict limit k v ((j, w) ∷ m) d h =
      ground (arith, get_of_evict limit k v m d.1, has_of_get k m v, eq_iff j k)

  -- What is read after a bounded write is what was written, or what was there before.
  pub get_of_remember :
      (limit : ℕ) (j k : String) (v w : V) (m : OrderedMap V)
      → Distinct m
      → get j (remember limit k v m) ≡ some w
      → (if k == j then some v else get j m) ≡ some w
  unfolding remember
  get_of_remember limit j k v w m d h =
      let h' =
        get_of_evict limit j w (set k v (delete k m))
          (set-Distinct k v (delete k m) (delete-Distinct k m d)) h in
      ground (arith, get-set j k v (delete k m), get-delete j k m d)

  -- A write into a table within its bound is read back after the eviction.
  pub get-evict-set :
      (limit : ℕ) (k : String) (v : V) (m : OrderedMap V)
      → length m ≤ suc limit
      → get k (evict (suc limit) (set k v m)) ≡ some v
  get-evict-set limit k v m b = elim (Bool-cases (has k m)) [
    | inl old ↦
        rw (evict_of_le (suc limit) (set k v m) (ground (arith, length-set k v m)))
          (rw (get-set k k v m, eq_refl k))
    | inr new ↦
        rw (set_absent k v m new, evict-concat limit m (k, v))
          (get-concat_absent k v (evict limit m) (has-evict_absent limit k m new))
  ]

  -- A write that leaves the table within its bound is a plain write.
  pub evict-set_room :
      (limit : ℕ) (k : String) (v : V) (m : OrderedMap V)
      → length m < limit
      → evict limit (set k v m) ≡ set k v m
  evict-set_room limit k v m b = evict_of_le limit (set k v m) (ground (arith, length-set k v m))

  pub has_of_evict-set :
      (limit : ℕ) (k : String) (v : V) (m : OrderedMap V)
      → length m ≤ suc limit
      → has k (evict (suc limit) (set k v m)) ≡ true
  has_of_evict-set limit k v m b = has_of_get k _ v (get-evict-set limit k v m b)
