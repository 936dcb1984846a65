-- ===== src/OrderedMap/Bounds.antt =====
-- The oldest-first eviction of the bounded tables: what it keeps, and how large a table gets.
use btcr2_aggregation.Prelude.{
  ◌+◌, ◌-◌, ◌≡◌, ◌≤◌, ◌<◌, refl, ap, sym, false, [], ◌∷◌, ◌++◌, some, String, ℕ, zero, suc, arith,
  length, drop, length-append, eq_refl,
}
use btcr2_aggregation.OrderedMap.{OrderedMap, get, has, set, delete, evict, remember}
use btcr2_aggregation.OrderedMap.Laws.{
  Distinct, delete-Distinct, set-Distinct, set_absent, has-delete,
}

module _ {ℓ} {V : Type ℓ} where
  pub length-evict-le : (limit : ℕ) (m : OrderedMap V) → length (evict limit m) ≤ limit
  unfolding evict
  length-evict-le limit [] = omega arith
  length-evict-le limit (e ∷ m) = ground (arith, length-evict-le limit m)

  pub evict_of_le : (limit : ℕ) (m : OrderedMap V) → length m ≤ limit → evict limit m ≡ m
  unfolding evict
  evict_of_le limit [] h = refl
  evict_of_le limit (e ∷ m) h = ground arith

  pub has-evict_absent :
      (limit : ℕ) (k : String) (m : OrderedMap V) → has k m ≡ false → has k (evict limit m) ≡ false
  unfolding has evict
  has-evict_absent limit k [] h = refl
  has-evict_absent limit k ((j, w) ∷ m) h = ground (arith, has-evict_absent limit k m)

  pub evict-Distinct : (limit : ℕ) (m : OrderedMap V) → Distinct m → Distinct (evict limit m)
  unfolding evict
  evict-Distinct limit [] d = tt
  evict-Distinct limit (e ∷ m) d = ground (arith, evict-Distinct limit m d.1)

  pub evict-concat :
      (limit : ℕ) (m : OrderedMap V) (e : String × V)
      → evict (suc limit) (m ++ e ∷ []) ≡ evict limit m ++ e ∷ []
  unfolding evict
  evict-concat limit [] e = ground arith
  evict-concat limit (x ∷ m) e = ground (arith, evict-concat limit m e, length-append m (e ∷ []))

  pub get-concat_absent :
      (k : String) (v : V) (m : OrderedMap V) → has k m ≡ false → get k (m ++ (k, v) ∷ []) ≡ some v
  unfolding get has
  get-concat_absent k v [] h = rw (eq_refl k)
  get-concat_absent k v ((j, w) ∷ m) h = ground (arith, get-concat_absent k v m)

  pub absent-delete : (k : String) (m : OrderedMap V) → Distinct m → has k (delete k m) ≡ false
  absent-delete k m d = rw (has-delete k k m d, eq_refl k)

  -- A write makes its key the newest, behind all but the oldest surplus of the other entries.
  pub remember_lem :
      (limit : ℕ) (k : String) (v : V) (m : OrderedMap V)
      → Distinct m
      → remember (suc limit) k v m ≡ evict limit (delete k m) ++ (k, v) ∷ []
  unfolding remember
  remember_lem limit k v m d =
      rw (set_absent k v (delete k m) (absent-delete k m d))
        (evict-concat limit (delete k m) (k, v))

  pub length-remember-le :
      (limit : ℕ) (k : String) (v : V) (m : OrderedMap V) → length (remember limit k v m) ≤ limit
  unfolding remember
  length-remember-le limit k v m = length-evict-le limit (set k v (delete k m))

  pub remember-Distinct :
      (limit : ℕ) (k : String) (v : V) (m : OrderedMap V)
      → Distinct m
      → Distinct (remember limit k v m)
  unfolding remember
  remember-Distinct limit k v m d =
      evict-Distinct limit _ (set-Distinct k v (delete k m) (delete-Distinct k m d))

  -- What was just written is read back.
  pub get-remember_self :
      (limit : ℕ) (k : String) (v : V) (m : OrderedMap V)
      → Distinct m
      → get k (remember (suc limit) k v m) ≡ some v
  get-remember_self limit k v m d =
      rw (remember_lem limit k v m d)
        (get-concat_absent k v _ (has-evict_absent limit k (delete k m) (absent-delete k m d)))

  -- The key that is written is not among the older entries that are kept.
  pub absent-kept :
      (limit : ℕ) (k : String) (m : OrderedMap V)
      → Distinct m
      → has k (evict limit (delete k m)) ≡ false
  absent-kept limit k m d = has-evict_absent limit k (delete k m) (absent-delete k m d)

module _ {V : Type 0} where
  drop-suc : (n : ℕ) (e : String × V) (m : OrderedMap V) → 0 < n → drop n (e ∷ m) ≡ drop (n - 1) m
  drop-suc zero e m h = absurd (omega arith)
  drop-suc (suc n) e m h = ap (λ k. drop k m) (omega arith)

  -- The loop drops exactly the oldest entries beyond the limit.
  pub evict-drop : (limit : ℕ) (m : OrderedMap V) → evict limit m ≡ drop (length m - limit) m
  unfolding evict
  evict-drop limit [] = sym (ap (λ (n : ℕ). drop n []) (none_over limit))
    where
      none_over : (c : ℕ) → 0 - c ≡ 0
      none_over c = omega arith
  evict-drop limit (e ∷ m) = ground (
    arith,
    evict-drop limit m,
    drop-suc (suc (length m) - limit) e m,
    ap (λ (n : ℕ). drop n m) (shift (length m) limit),
    over (length m) limit,
  )
    where
      shift : (n c : ℕ) → suc n - c - 1 ≡ n - c
      shift n c = omega arith

      over : (n c : ℕ) → n + 1 ≤ c → suc n - c ≡ 0
      over n c h = omega arith
