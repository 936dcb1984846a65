-- ===== src/Store/Refinement.antt =====
-- packages/service/src/store.ts: what a store promises, and that both stores keep it.
pub mod Memory
pub mod Disk
pub mod Traces
use btcr2_aggregation.Prelude.{
  ◌≡◌, ◌==◌, ◌&&◌, Bool, true, false, List, [], ◌∷◌, Option, none, some, String, if◌then◌else◌,
  is_some,
}
use btcr2_aggregation.Prelude.Checked.{Checked, valid, problem, ◌>>=◌}
use btcr2_aggregation.Store.{ArtifactKind, segment, StoreError, normalize_hex_key, ArtifactStore}

-- A map from kinds and normalized keys, as the promises see a store.
abbrev pub View : Type 0 → Type 0
View V = String → String → Option V

module _ {V : Type 0} where
  -- The view `after` is `before` with the value `o` at one place.
  unfoldable pub Updates : String → String → Option V → View V → View V → Type 0
  Updates kind key o before after =
      (j i : String) → after j i ≡ (if (kind == j) && (key == i) then o else before j i)

module _ {S V : Type 0} (store : ArtifactStore S V) where
  -- The promises of a store, for its states `IsOk`, their views, and the keys that fit.
  pub record IsStore (IsOk : S → Type 0) (view : S → View V) (fits : String → Bool) : Type 0 where
    pub reads :
        (kind : ArtifactKind) (key : String) (s : S)
        → IsOk s
        → store.get_artifact kind key s
          ≡ (normalize_hex_key key >>= λ k. valid (view s (segment kind) k))
    pub tests :
        (kind : ArtifactKind) (key : String) (s : S)
        → IsOk s
        → store.has_artifact kind key s
          ≡ (normalize_hex_key key >>= λ k. valid (is_some (view s (segment kind) k)))
    pub refuses_put :
        (kind : ArtifactKind) (key : String) (v : V) (s : S) (e : StoreError)
        → normalize_hex_key key ≡ problem e
        → store.put kind key v s ≡ problem e
    pub refuses_delete :
        (kind : ArtifactKind) (key : String) (s : S) (e : StoreError)
        → normalize_hex_key key ≡ problem e
        → store.delete_artifact kind key s ≡ problem e
    pub writes :
        (kind : ArtifactKind) (key k : String) (v : V) (s : S)
        → IsOk s
        → normalize_hex_key key ≡ valid k
        → fits k ≡ true
        → (s' : S) × (store.put kind key v s ≡ valid s')
          × IsOk s'
          × Updates (segment kind) k (some v) (view s) (view s')
    pub deletes :
        (kind : ArtifactKind) (key k : String) (s : S)
        → IsOk s
        → normalize_hex_key key ≡ valid k
        → (s' : S) × (store.delete_artifact kind key s ≡ valid s')
          × IsOk s'
          × Updates (segment kind) k none (view s) (view s')
