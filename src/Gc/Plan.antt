-- ===== src/Gc/Plan.antt =====
-- cmd/garbagecollector/gc.go: the mark phase, which builds a plan from complete listings.
pub mod Spec
pub mod Chunks
pub mod References
pub mod Outcome
pub mod Safety
pub mod ChunkKeys
pub mod Ends
pub mod Backups
pub mod Known
use pmoxs3backuproxy.Prelude.{
  ℕ, ◌+◌, Bool, true, false, ◌&&◌, ◌||◌, not, Option, none, some, List, [], ◌∷◌, ◌++◌, Result, ok,
  err, ◌>>=◌, if◌then◌else◌, for_each,
}
use pmoxs3backuproxy.Prelude.Int.{ℤ}
use pmoxs3backuproxy.Prelude.Maps.{Map, lookup, insert, value_or, is_set}
use pmoxs3backuproxy.Prelude.Strings.{Bytes, codes, has_suffix}
use pmoxs3backuproxy.Prelude.Words.{to_uint64}
use pmoxs3backuproxy.Index.{ParsedIndex, is_index}
use pmoxs3backuproxy.Objects.{Error, ObjectInfo}
use pmoxs3backuproxy.Snapshots.{Snapshot, s3_prefix}
use pmoxs3backuproxy.Gc.Keys.{snapshot_prefix_for_object, chunk_digest_from_key}
use pmoxs3backuproxy.Gc.Expiry.{snapshot_expired, within_grace_period}

pub record GcPlan : Type 0 where
  pub expired_snapshots : List Snapshot
  pub backup_objects : List ObjectInfo
  pub indexed_objects : List ObjectInfo
  pub chunk_objects : List ObjectInfo
  pub known_chunks : Map (List Bytes)
  pub existing_chunks : Map Bool
  pub chunk_sizes : Map ℕ
  pub archive_sizes : Map ℕ
  pub missing_chunks : Map (List Bytes)
  pub protected_by_grace : ℕ

abbrev pub empty_plan : GcPlan
empty_plan = record {
  expired_snapshots = [];
  backup_objects = [];
  indexed_objects = [];
  chunk_objects = [];
  known_chunks = [];
  existing_chunks = [];
  chunk_sizes = [];
  archive_sizes = [];
  missing_chunks = [];
  protected_by_grace = 0;
}

-- The plan beside the local sets `expiredPrefixes` and `knownHashes`.
pub record Marking : Type 0 where
  pub plan : GcPlan
  pub expired_prefixes : Map Bool
  pub known_hashes : Map Bool

abbrev pub initial : Marking
initial = record { plan = empty_plan; expired_prefixes = []; known_hashes = [] }

-- The first loop: an expired snapshot that is not protected.
unfoldable pub mark_snapshot : ℤ → ℕ → Marking → Snapshot → Result Error Marking
mark_snapshot now retention_days m snapshot = do
  expired ← snapshot_expired snapshot now retention_days
  ok (
      if expired && not snapshot.protected
      then record m {
        plan = record m.plan { expired_snapshots = m.plan.expired_snapshots ++ snapshot ∷ [] };
        expired_prefixes = insert m.expired_prefixes (s3_prefix snapshot) true;
      }
      else m)

-- `plan.knownChunks[digest] = append(plan.knownChunks[digest], object.Key)` for each digest
unfoldable pub add_references : Bytes → Map (List Bytes) → List Bytes → Map (List Bytes)
add_references key known [] = known
add_references key known (digest ∷ digests) =
    add_references key (insert known digest (value_or (lookup known digest) [] ++ key ∷ [])) digests

-- A retained index: its checksum if it is fixed, its size, its digests.
unfoldable pub record_index : Marking → ObjectInfo → ParsedIndex → Marking
record_index m object index = record m {
  known_hashes =
      if has_suffix object.key (codes ".fidx")
      then insert m.known_hashes index.checksum true
      else m.known_hashes;
  plan = record m.plan {
    archive_sizes = insert m.plan.archive_sizes object.key index.logical_size;
    known_chunks = add_references object.key m.plan.known_chunks index.digests;
  };
}

module _ (load_index : ObjectInfo → Result Error ParsedIndex) where
  -- The second loop.
  unfoldable pub mark_backup : Marking → ObjectInfo → Result Error Marking
  mark_backup m object = do
    prefix ← snapshot_prefix_for_object object.key
    if is_set m.expired_prefixes prefix
        then ok (record m {
          plan = record m.plan { backup_objects = m.plan.backup_objects ++ object ∷ [] };
        })
        else if not (is_index object.key)
        then ok m
        else do index ← load_index object; ok (record_index m object index)

-- The third loop: a copied index of which no retained fixed index has the checksum.
unfoldable pub mark_indexed :
    (ObjectInfo → Result Error Bytes) → Marking → ObjectInfo → Result Error Marking
mark_indexed load_checksum m object = do
  checksum ← load_checksum object
  ok (
      if is_set m.known_hashes checksum then m else record m {
        plan = record m.plan { indexed_objects = m.plan.indexed_objects ++ object ∷ [] };
      })

-- The fourth loop, on a chunk whose digest is read: referenced, young, or an orphan.
unfoldable pub place_chunk : ℤ → ℤ → GcPlan → ObjectInfo → Bytes → GcPlan
place_chunk now grace plan object digest = elim (lookup plan.known_chunks digest) [
  | some references ↦ record plan {
    existing_chunks = insert plan.existing_chunks digest true;
    chunk_sizes = insert plan.chunk_sizes digest (to_uint64 object.size);
  }
  | none ↦
      if within_grace_period object.last_modified now grace
      then record plan { protected_by_grace = plan.protected_by_grace + 1 }
      else record plan { chunk_objects = plan.chunk_objects ++ object ∷ [] }
]

unfoldable pub mark_chunk : ℤ → ℤ → GcPlan → ObjectInfo → Result Error GcPlan
mark_chunk now grace plan object = do
  digest ← chunk_digest_from_key object.key
  ok (place_chunk now grace plan object digest)

-- The last loop: the referenced digests without a chunk.
unfoldable pub missing_of : Map Bool → Map (List Bytes) → Map (List Bytes)
missing_of existing [] = []
missing_of existing ((digest, references) ∷ known) =
    let rest = missing_of existing known in
    if is_set existing digest then rest else (digest, references) ∷ rest

-- buildGCPlan
unfoldable pub build_gc_plan :
    List Snapshot
    → List ObjectInfo
    → List ObjectInfo
    → List ObjectInfo
    → ℤ
    → ℕ
    → ℤ
    → (ObjectInfo → Result Error ParsedIndex)
    → (ObjectInfo → Result Error Bytes)
    → Result Error GcPlan
build_gc_plan snapshots backups indexed chunks now retention_days grace load_index load_checksum =
    do
      expired ← for_each (mark_snapshot now retention_days) initial snapshots
      marked ← for_each (mark_backup load_index) expired backups
      swept ← for_each (mark_indexed load_checksum) marked indexed
      plan ← for_each (mark_chunk now grace) swept.plan chunks
      ok (record plan { missing_chunks = missing_of plan.existing_chunks plan.known_chunks })
