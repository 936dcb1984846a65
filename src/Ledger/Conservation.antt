-- ===== src/Ledger/Conservation.antt =====
-- packages/service/src/acceptance-ledger.ts: the ledger beside the store of its caller.
use btcr2_aggregation.Prelude.{
  ◌+◌, ◌≡◌, ◌≤◌, ◌++◌, ◌==◌, List, [], ◌∷◌, Option, none, some, String, ℕ, if◌then◌else◌, length,
  arith, eq_iff, eq_refl, suc, subst,
}
use btcr2_aggregation.OrderedMap.{OrderedMap, get, has, set, delete, evict, values}
use btcr2_aggregation.OrderedMap
use btcr2_aggregation.OrderedMap.Laws.{Distinct, get-delete}
use btcr2_aggregation.OrderedMap.Bounds.{length-evict-le, get-remember_self}
use btcr2_aggregation.Ledger.{max_acceptances, superseded, overflow, remember, retained}

-- How often a hash occurs.
unfoldable pub count : String → List String → ℕ
count h [] = 0
count h (x ∷ xs) = let rest = count h xs in if x == h then suc rest else rest

count-append : (h : String) (xs ys : List String) → count h (xs ++ ys) ≡ count h xs + count h ys
unfolding count
count-append h [] ys = omega arith
count-append h (x ∷ xs) ys = ground (arith, count-append h xs ys)

-- The eviction moves hashes out of the table and loses none.
count-overflow :
    (h : String) (cap : ℕ) (m : OrderedMap String)
    → count h (overflow cap m) + count h (values (evict cap m)) ≡ count h (values m)
unfolding count overflow evict values
count-overflow h cap [] = omega arith
count-overflow h cap ((k, x) ∷ m) = ground (arith, count-overflow h cap m)

-- One occurrence, or none.
abbrev once : String → Option String → ℕ
once h none = 0
once h (some x) = count h (x ∷ [])

count-delete :
    (h k : String) (m : OrderedMap String)
    → count h (values m) ≡ once h (get k m) + count h (values (delete k m))
unfolding count values get delete
count-delete h k [] = omega arith
count-delete h k ((j, x) ∷ m) = ground (arith, count-delete h k m)

count-set :
    (h k v : String) (m : OrderedMap String)
    → once h (get k m) + count h (values (set k v m)) ≡ once h (some v) + count h (values m)
unfolding count values get set
count-set h k v [] = omega arith
count-set h k v ((j, x) ∷ m) = ground (arith, count-set h k v m)

-- What a write adds to the hashes in the store: nothing on a byte-identical repost.
unfoldable pub newly_stored : Option String → String → List String
newly_stored none hash_hex = hash_hex ∷ []
newly_stored (some previous) hash_hex = if previous == hash_hex then [] else hash_hex ∷ []

superseded-count :
    (h v : String) (o : Option String)
    → count h (superseded o v) + once h (some v) ≡ once h o + count h (newly_stored o v)
unfolding count superseded newly_stored
superseded-count h v none = omega arith
superseded-count h v (some p) = ground (arith, eq_iff p v)

module _ (k v : String) (m : OrderedMap String) (d : Distinct m) where
  count-kept :
      (h : String)
      → count h (values (set k v (delete k m))) ≡ once h (some v) + count h (values (delete k m))
  count-kept h =
      let absent : get k (delete k m) ≡ none = rw (get-delete k k m d, eq_refl k) in
      omega (
        arith,
        subst
            (λ o.
              once h o + count h (values (set k v (delete k m)))
              ≡ once h (some v) + count h (values (delete k m)))
            absent (count-set h k v (delete k m)),
      )

  -- From a ledger with one entry per key, a write conserves every hash: as often as a hash was
  -- retained, or is newly stored by the write, it is now retained or handed back to be dropped.
  pub remember-conserves :
      (h : String)
      → count h (remember k v m).0 + count h (retained (remember k v m).1)
        ≡ count h (newly_stored (get k m) v) + count h (retained m)
  unfolding remember retained
  remember-conserves h = omega (
    arith,
    count-append h (superseded (get k m) v) (overflow max_acceptances (set k v (delete k m))),
    count-overflow h max_acceptances (set k v (delete k m)),
    count-kept h,
    count-delete h k m,
    superseded-count h v (get k m),
  )

count_of_get : (k v : String) (m : OrderedMap String) → get k m ≡ some v → 1 ≤ count v (values m)
unfolding count values get
count_of_get k v [] e = cc
count_of_get k v ((j, x) ∷ m) e = ground (arith, count_of_get k v m, eq_iff x v, eq_refl v)

count_self : (v : String) → count v (v ∷ []) ≡ 1
unfolding count
count_self v = rw (eq_refl v) (omega arith)

newly_stored-le : (o : Option String) (v : String) → count v (newly_stored o v) + once v o ≤ 1
unfolding newly_stored count
newly_stored-le none v = ground (arith, eq_refl v)
newly_stored-le (some p) v = ground (arith, eq_refl v, eq_iff p v)

-- From a ledger with one entry per key, in which no other key retains the hash that is written,
-- a write leaves at most 200 entries, retains the hash under its key, and hands back no copy of
-- it to be dropped, also on a byte-identical repost.
pub remember-keeps_written :
    (k v : String) (m : OrderedMap String)
    → Distinct m
    → count v (retained (delete k m)) ≡ 0
    → (length (remember k v m).1 ≤ max_acceptances)
      × (get k (remember k v m).1 ≡ some v)
      × (count v (remember k v m).0 ≡ 0)
unfolding remember retained OrderedMap.remember
remember-keeps_written k v m d alone = (bounded, kept, spared)
  where
    bounded : length (remember k v m).1 ≤ max_acceptances
    bounded = length-evict-le max_acceptances (set k v (delete k m))

    kept : get k (remember k v m).1 ≡ some v
    kept = get-remember_self 199 k v m d

    spared : count v (remember k v m).0 ≡ 0
    spared = omega (
      arith,
      remember-conserves k v m d v,
      count_of_get k v (remember k v m).1 kept,
      count-delete v k m,
      newly_stored-le (get k m) v,
    )
