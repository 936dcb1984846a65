-- ===== src/Store/Refinement/Memory.antt =====
-- packages/service/src/store.ts, `MemoryArtifactStore`: it keeps the promises of a store.
use btcr2_aggregation.Prelude.{true, refl}
use btcr2_aggregation.Store.{segment, write_at, read_at, delete_at, memory_artifact_store}
use btcr2_aggregation.Store.Maps.{
  IsOrdered, write_at-IsOrdered, delete_at-IsOrdered, read_at-write_at, read_at-delete_at,
}
use btcr2_aggregation.Store.Refinement.{IsStore, Updates}

-- The store in memory is a map from kinds and keys, for all keys.
pub memory-IsStore :
    {V : Type 0}
    → IsStore
        (memory_artifact_store {V = V})
        IsOrdered
        (λ s kind key. read_at kind key s)
        (λ key. true)
unfolding memory_artifact_store Updates
memory-IsStore = record {
  reads = λ kind key s h. refl;
  tests = λ kind key s h. refl;
  refuses_put = λ kind key v s e h. rw h refl;
  refuses_delete = λ kind key s e h. rw h refl;
  writes = λ kind key k v s h e room. (
    write_at (segment kind) k v s,
    rw e refl,
    write_at-IsOrdered (segment kind) k v s h,
    λ j i. read_at-write_at j i (segment kind) k v s,
  );
  deletes = λ kind key k s h e. (
    delete_at (segment kind) k s,
    rw e refl,
    delete_at-IsOrdered (segment kind) k s h,
    λ j i. read_at-delete_at j i (segment kind) k s h,
  );
}
