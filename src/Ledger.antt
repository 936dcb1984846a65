-- ===== src/Ledger.antt =====
-- packages/service/src/acceptance-ledger.ts: which acceptance hash the service retains for each
-- participant and cohort, and which hashes the caller must drop from the store.
pub mod Conservation
use btcr2_aggregation.Prelude.{
  ◌+◌, ◌++◌, ◌==◌, Bool, true, false, List, [], ◌∷◌, Option, none, some, String, ℕ, if◌then◌else◌,
  ltb, length,
}
use btcr2_aggregation.OrderedMap.{OrderedMap, get, set, delete, evict, values}

abbrev pub max_acceptances : ℕ
max_acceptances = 200

-- `previous !== undefined && previous !== hashHex`.
unfoldable pub superseded : Option String → String → List String
superseded none hash_hex = []
superseded (some previous) hash_hex = if previous == hash_hex then [] else previous ∷ []

-- The hashes that the eviction loop pushes, the oldest first.
unfoldable pub overflow : ℕ → OrderedMap String → List String
overflow cap [] = []
overflow cap ((k, oldest_hash) ∷ m) =
    let rest = overflow cap m in if ltb cap (length m + 1) then oldest_hash ∷ rest else []

-- The dropped hashes and the ledger that is left.
unfoldable pub remember : String → String → OrderedMap String → List String × OrderedMap String
unfolding superseded overflow set delete evict get
remember dedup_key hash_hex by_key =
    let kept = set dedup_key hash_hex (delete dedup_key by_key) in
    (
      superseded (get dedup_key by_key) hash_hex ++ overflow max_acceptances kept,
      evict max_acceptances kept,
    )

unfoldable pub retained : OrderedMap String → List String
unfolding values
retained by_key = values by_key
