-- ===== src/OrderedMap/Laws.antt =====
-- The reads of an ordered map after each write, and the distinctness of its keys.
use btcr2_aggregation.Prelude.{
  ◌+◌, ◌≡◌, ◌==◌, refl, true, false, [], ◌∷◌, ◌++◌, none, some, String, arith, if◌then◌else◌,
  length, eq_iff,
}
use btcr2_aggregation.OrderedMap.{OrderedMap, get, has, set, delete}

module _ {ℓ} {V : Type ℓ} where
  -- No key occurs twice.
  abbrev pub Distinct : OrderedMap V → Type 0
  Distinct [] = Unit
  Distinct ((k, v) ∷ m) = (has k m ≡ false) × Distinct m

  pub get-set :
      (j k : String) (v : V) (m : OrderedMap V)
      → get j (set k v m) ≡ (if k == j then some v else get j m)
  unfolding get set
  get-set j k v [] = refl
  get-set j k v ((i, w) ∷ m) = ground (arith, eq_iff k j, eq_iff i k, eq_iff i j, get-set j k v m)

  pub has-set :
      (j k : String) (v : V) (m : OrderedMap V)
      → has j (set k v m) ≡ (if k == j then true else has j m)
  unfolding has set
  has-set j k v [] = refl
  has-set j k v ((i, w) ∷ m) = ground (arith, eq_iff k j, eq_iff i k, eq_iff i j, has-set j k v m)

  pub get_of_absent : (k : String) (m : OrderedMap V) → has k m ≡ false → get k m ≡ none
  unfolding get has
  get_of_absent k [] h = refl
  get_of_absent k ((j, v) ∷ m) h = ground (arith, get_of_absent k m)

  pub absent_of_get : (k : String) (m : OrderedMap V) → get k m ≡ none → has k m ≡ false
  unfolding get has
  absent_of_get k [] h = refl
  absent_of_get k ((j, v) ∷ m) h = ground (arith, absent_of_get k m)

  pub has_of_get : (k : String) (m : OrderedMap V) (v : V) → get k m ≡ some v → has k m ≡ true
  unfolding get has
  has_of_get k [] v h = cc
  has_of_get k ((j, w) ∷ m) v h = ground (arith, has_of_get k m v)

  pub has-delete :
      (j k : String) (m : OrderedMap V)
      → Distinct m
      → has j (delete k m) ≡ (if k == j then false else has j m)
  unfolding has delete
  has-delete j k [] d = ground arith
  has-delete j k ((i, w) ∷ m) d =
      ground (arith, eq_iff k j, eq_iff i k, eq_iff i j, has-delete j k m d.1)

  pub get-delete :
      (j k : String) (m : OrderedMap V)
      → Distinct m
      → get j (delete k m) ≡ (if k == j then none else get j m)
  unfolding get delete
  get-delete j k [] d = ground arith
  get-delete j k ((i, w) ∷ m) d =
      ground
        (arith, eq_iff k j, eq_iff i k, eq_iff i j, get_of_absent i m d.0, get-delete j k m d.1)

  -- The other keys do not see a deletion, whatever the table.
  pub get-delete_other :
      (j k : String) (m : OrderedMap V) → (k == j) ≡ false → get j (delete k m) ≡ get j m
  unfolding get delete
  get-delete_other j k [] e = refl
  get-delete_other j k ((i, w) ∷ m) e =
      ground (arith, get-delete_other j k m e, eq_iff i k, eq_iff i j)

  pub has_of_has-delete :
      (j k : String) (m : OrderedMap V) → has j (delete k m) ≡ true → has j m ≡ true
  unfolding has delete
  has_of_has-delete j k [] h = h
  has_of_has-delete j k ((i, w) ∷ m) h = ground (arith, has_of_has-delete j k m)

  pub delete-Distinct : (k : String) (m : OrderedMap V) → Distinct m → Distinct (delete k m)
  unfolding delete
  delete-Distinct k [] d = tt
  delete-Distinct k ((j, w) ∷ m) d = ground (arith, delete-Distinct k m d.1, has-delete j k m d.1)

  pub set-Distinct : (k : String) (v : V) (m : OrderedMap V) → Distinct m → Distinct (set k v m)
  unfolding set has
  set-Distinct k v [] d = (refl, tt)
  set-Distinct k v ((j, w) ∷ m) d =
      ground (arith, set-Distinct k v m d.1, has-set j k v m, eq_iff k j, eq_iff j k)

  -- A new key goes to the end.
  pub set_absent :
      (k : String) (v : V) (m : OrderedMap V) → has k m ≡ false → set k v m ≡ m ++ (k, v) ∷ []
  unfolding has set
  set_absent k v [] h = refl
  set_absent k v ((j, w) ∷ m) h = ground (arith, set_absent k v m)

  pub delete_absent : (k : String) (m : OrderedMap V) → has k m ≡ false → delete k m ≡ m
  unfolding has delete
  delete_absent k [] h = refl
  delete_absent k ((j, w) ∷ m) h = ground (arith, delete_absent k m)

  pub length-delete :
      (k : String) (m : OrderedMap V)
      → length m ≡ (if has k m then length (delete k m) + 1 else length (delete k m))
  unfolding has delete
  length-delete k [] = refl
  length-delete k ((j, w) ∷ m) = ground (arith, length-delete k m)

  pub length-set :
      (k : String) (v : V) (m : OrderedMap V)
      → length (set k v m) ≡ (if has k m then length m else length m + 1)
  unfolding has set
  length-set k v [] = omega arith
  length-set k v ((j, w) ∷ m) = ground (arith, length-set k v m)
