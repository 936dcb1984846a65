-- ===== src/OrderedMap/Survival.antt =====
-- How long an entry of a bounded table survives the writes of other keys.
use btcr2_aggregation.Prelude.{
  ◌+◌, ◌≡◌, ◌≢◌, ◌≤◌, ◌<◌, ◌==◌, refl, ◌∙◌, false, List, [], ◌∷◌, ◌++◌, some, String, ℕ, suc, arith,
  if◌then◌else◌, length, All, length-append, eq_iff,
}
use btcr2_aggregation.OrderedMap.{OrderedMap, get, has, delete, evict, remember}
use btcr2_aggregation.OrderedMap.Laws.{Distinct, get-delete}
use btcr2_aggregation.OrderedMap.Bounds.{
  remember_lem, get-remember_self, remember-Distinct, absent-kept,
}

module _ {ℓ} {V : Type ℓ} where
  -- The number of entries that are newer than the key's.
  newer : String → OrderedMap V → ℕ
  newer k [] = 0
  newer k ((j, w) ∷ m) = if j == k then length m else newer k m

  newer-delete-le : (j k : String) (m : OrderedMap V) → j ≢ k → newer k (delete j m) ≤ newer k m
  unfolding newer delete
  newer-delete-le j k [] ne = omega arith
  newer-delete-le j k ((i, w) ∷ m) ne =
      ground (arith, newer-delete-le j k m ne, eq_iff i j, eq_iff i k, length-delete-le j m)
    where
      length-delete-le : (j : String) (m : OrderedMap V) → length (delete j m) ≤ length m
      length-delete-le j [] = omega arith
      length-delete-le j ((i, w) ∷ m) = ground (arith, length-delete-le j m)

  newer-concat-le :
      (k : String) (m : OrderedMap V) (e : String × V) → newer k (m ++ e ∷ []) ≤ newer k m + 1
  unfolding newer
  newer-concat-le k [] (j, v) = ground arith
  newer-concat-le k ((j, w) ∷ m) e = ground (arith, newer-concat-le k m e, length-append m (e ∷ []))

  get-evict-newer :
      (limit : ℕ) (k : String) (m : OrderedMap V)
      → newer k m < limit
      → get k (evict limit m) ≡ get k m
  unfolding newer get evict
  get-evict-newer limit k [] h = refl
  get-evict-newer limit k ((j, w) ∷ m) h = ground (arith, get-evict-newer limit k m)

  newer-evict-le : (limit : ℕ) (k : String) (m : OrderedMap V) → newer k (evict limit m) ≤ newer k m
  unfolding newer evict
  newer-evict-le limit k [] = omega arith
  newer-evict-le limit k ((j, w) ∷ m) = ground (arith, newer-evict-le limit k m, newer-le k m)
    where
      newer-le : (k : String) (m : OrderedMap V) → newer k m ≤ length m
      newer-le k [] = omega arith
      newer-le k ((j, w) ∷ m) = ground (arith, newer-le k m)

  get-concat_some :
      (k : String) (m : OrderedMap V) (e : String × V) (v : V)
      → get k m ≡ some v
      → get k (m ++ e ∷ []) ≡ some v
  unfolding get
  get-concat_some k [] e v h = cc
  get-concat_some k ((j, w) ∷ m) e v h = ground (arith, get-concat_some k m e v)

  newer_self :
      (k : String) (v : V) (m : OrderedMap V) → has k m ≡ false → newer k (m ++ (k, v) ∷ []) ≡ 0
  unfolding newer has
  newer_self k v [] h = ground arith
  newer_self k v ((j, w) ∷ m) h = ground (arith, newer_self k v m)

  step-keeps :
      (limit : ℕ) (j k : String) (w v : V) (m : OrderedMap V)
      → Distinct m
      → j ≢ k
      → get k m ≡ some v
      → newer k m < limit
      → (get k (remember (suc limit) j w m) ≡ some v)
        × (newer k (remember (suc limit) j w m) ≤ newer k m + 1)
  step-keeps limit j k w v m d ne g room =
      let fewer = newer-delete-le j k m ne in
      let there : get k (delete j m) ≡ some v = ground (arith, get-delete k j m d, eq_iff j k) in
      let kept = get-evict-newer limit k (delete j m) (omega arith) ∙ there in
      rw (remember_lem limit j w m d) (
        get-concat_some k (evict limit (delete j m)) (j, w) v kept,
        omega (
          arith,
          newer-concat-le k (evict limit (delete j m)) (j, w),
          newer-evict-le limit k (delete j m),
        ),
      )

  -- The writes of a history, in order.
  unfoldable pub remember_all : ℕ → List (String × V) → OrderedMap V → OrderedMap V
  remember_all limit [] m = m
  remember_all limit ((k, v) ∷ es) m = remember_all limit es (remember limit k v m)

  remember_all-keeps :
      (limit : ℕ) (k : String) (v : V) (es : List (String × V)) (m : OrderedMap V)
      → Distinct m
      → All (λ e. e.0 ≢ k) es
      → get k m ≡ some v
      → newer k m + length es ≤ limit
      → get k (remember_all (suc limit) es m) ≡ some v
  unfolding remember_all
  remember_all-keeps limit k v [] m d others g room = g
  remember_all-keeps limit k v ((j, w) ∷ es) m d others g room =
      let (g', n') = step-keeps limit j k w v m d others.0 g (omega arith) in
      remember_all-keeps limit k v es (remember (suc limit) j w m)
        (remember-Distinct (suc limit) j w m d) others.1 g' (omega arith)

  -- A written entry is still read back after fewer writes of other keys than the limit.
  pub remember_all-survives :
      (limit : ℕ) (k : String) (v : V) (es : List (String × V)) (m : OrderedMap V)
      → Distinct m
      → All (λ e. e.0 ≢ k) es
      → length es ≤ limit
      → get k (remember_all (suc limit) es (remember (suc limit) k v m)) ≡ some v
  remember_all-survives limit k v es m d others room =
      remember_all-keeps limit k v es (remember (suc limit) k v m)
        (remember-Distinct (suc limit) k v m d) others (get-remember_self limit k v m d)
        (omega (arith, newer-remember))
    where
      newer-remember : newer k (remember (suc limit) k v m) ≡ 0
      newer-remember =
          rw (remember_lem limit k v m d)
            (newer_self k v (evict limit (delete k m)) (absent-kept limit k m d))
