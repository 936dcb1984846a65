-- ===== src/OrderedMap.antt =====
-- The insertion-ordered `Map` of the source (`new Map<string, V>()`), as the association list of
-- its entries, the oldest first, and the oldest-first eviction loop that every bounded table of
-- packages/service/src shares (cohort-intent.ts, anchor-state.ts, genesis-capture.ts,
-- operator-cohorts.ts, acceptance-ledger.ts). A `Set` is a map to the unit type.
pub mod Laws
pub mod Bounds
pub mod Eviction
pub mod Survival
use btcr2_aggregation.Prelude.{
  ◌+◌, ◌==◌, Bool, true, false, List, [], ◌∷◌, Option, none, some, String, ℕ, if◌then◌else◌, ltb,
  length, map,
}

abbrev pub OrderedMap {ℓ} : Type ℓ → Type ℓ
OrderedMap V = List (String × V)

module _ {ℓ} {V : Type ℓ} where
  unfoldable pub get : String → OrderedMap V → Option V
  get k [] = none
  get k ((j, v) ∷ m) = if j == k then some v else get k m

  unfoldable pub has : String → OrderedMap V → Bool
  has k [] = false
  has k ((j, v) ∷ m) = if j == k then true else has k m

  -- A key that is there keeps its place; a new key goes to the end.
  unfoldable pub set : String → V → OrderedMap V → OrderedMap V
  set k v [] = (k, v) ∷ []
  set k v ((j, w) ∷ m) = if j == k then (j, v) ∷ m else (j, w) ∷ set k v m

  unfoldable pub delete : String → OrderedMap V → OrderedMap V
  delete k [] = []
  delete k ((j, w) ∷ m) = if j == k then m else (j, w) ∷ delete k m

  -- `while (m.size > cap) m.delete(m.keys().next().value)`: the oldest key is that of the head,
  -- and the first entry with that key is the head.
  unfoldable pub evict : ℕ → OrderedMap V → OrderedMap V
  evict cap [] = []
  evict cap (e ∷ m) = let rest = evict cap m in if ltb cap (length m + 1) then rest else e ∷ m

  -- Delete, set, then evict: the write of the bounded tables, which makes the key the newest.
  unfoldable pub remember : ℕ → String → V → OrderedMap V → OrderedMap V
  unfolding delete set evict
  remember cap k v m = evict cap (set k v (delete k m))

  unfoldable pub values : OrderedMap V → List V
  values m = map (λ e. e.1) m

  unfoldable pub keys : OrderedMap V → List String
  keys m = map (λ e. e.0) m
