-- ===== src/Gc/Stats.antt =====
-- The usage report: cmd/garbagecollector/stats.go and internal/s3pmoxcommon/usagestats.go.
pub mod Totals
use pmoxs3backuproxy.Prelude.{
  ℕ, ◌+◌, Bool, true, false, ◌&&◌, ◌||◌, Option, none, some, List, [], ◌∷◌, ◌++◌, ◌==◌, ltb, length,
  map, any, if◌then◌else◌,
}
use pmoxs3backuproxy.Prelude.Int.{ℤ}
use pmoxs3backuproxy.Prelude.Maps.{Map, lookup, value_or}
use pmoxs3backuproxy.Prelude.Strings.{Bytes, bytes_eq, split}
use pmoxs3backuproxy.Prelude.Words.{add64}

pub record SnapshotUsage : Type 0 where
  pub snapshot : Bytes
  pub logical_bytes : ℕ
  pub referenced_bytes : ℕ
  pub exclusive_bytes : ℕ
  pub chunks : ℕ

pub record UsageStats : Type 0 where
  pub generated : ℤ
  pub chunk_bytes : ℕ
  pub chunks : ℕ
  pub logical_bytes : ℕ
  pub snapshots : List SnapshotUsage

abbrev pub no_usage : Bytes → SnapshotUsage
no_usage name = record {
  snapshot = name;
  logical_bytes = 0;
  referenced_bytes = 0;
  exclusive_bytes = 0;
  chunks = 0;
}

first_two : Bytes → List Bytes → Bytes
first_two key (a ∷ b ∷ c ∷ rest) = a ++ (b'/' ∷ b)
first_two key _ = key

-- snapshotOfIndex
unfoldable pub snapshot_of_index : Bytes → Bytes
unfolding first_two
snapshot_of_index index_key = first_two index_key (split index_key b'/')

-- `u := get(name)` and a change of `*u`. The map is kept as the list of its values, each of which
-- carries its key.
unfoldable pub modify :
    List SnapshotUsage → Bytes → (SnapshotUsage → SnapshotUsage) → List SnapshotUsage
modify [] name f = f (no_usage name) ∷ []
modify (u ∷ us) name f = if bytes_eq u.snapshot name then f u ∷ us else u ∷ modify us name f

abbrev pub add_logical : ℕ → SnapshotUsage → SnapshotUsage
add_logical size u = record u { logical_bytes = add64 u.logical_bytes size }

-- The loop over the archive sizes.
unfoldable pub add_archives : Map ℕ → List SnapshotUsage → List SnapshotUsage
add_archives [] us = us
add_archives ((index_key, size) ∷ sizes) us =
    add_archives sizes (modify us (snapshot_of_index index_key) (add_logical size))

-- The set `owners` of a chunk.
unfoldable pub owners_of : List Bytes → List Bytes
owners_of [] = []
owners_of (index_key ∷ indexes) =
    let owner = snapshot_of_index index_key in
    let rest = owners_of indexes in if any (bytes_eq owner) rest then rest else owner ∷ rest

-- What a chunk adds to an owner.
abbrev pub add_chunk : ℕ → Bool → SnapshotUsage → SnapshotUsage
add_chunk size alone u = record u {
  referenced_bytes = add64 u.referenced_bytes size;
  chunks = add64 u.chunks 1;
  exclusive_bytes = if alone then add64 u.exclusive_bytes size else u.exclusive_bytes;
}

unfoldable pub add_owners : ℕ → Bool → List Bytes → List SnapshotUsage → List SnapshotUsage
add_owners size alone [] us = us
add_owners size alone (owner ∷ owners) us =
    add_owners size alone owners (modify us owner (add_chunk size alone))

-- The report while the chunks are counted.
pub record Counting : Type 0 where
  pub chunk_bytes : ℕ
  pub chunks : ℕ
  pub per_snapshot : List SnapshotUsage

-- One round of the loop over the chunks.
unfoldable pub count_chunk : Counting → ℕ → List Bytes → Counting
count_chunk c size owners = record {
  chunk_bytes = add64 c.chunk_bytes size;
  chunks = add64 c.chunks 1;
  per_snapshot = add_owners size (length owners == 1) owners c.per_snapshot;
}

unfoldable pub count_chunks : Map ℕ → Map (List Bytes) → Counting → Counting
count_chunks chunk_sizes [] c = c
count_chunks chunk_sizes ((digest, indexes) ∷ known) c =
    count_chunks chunk_sizes known
      (count_chunk c (value_or (lookup chunk_sizes digest) 0) (owners_of indexes))

-- a < b on Go strings
unfoldable pub bytes_lt : Bytes → Bytes → Bool
bytes_lt a [] = false
bytes_lt [] (y ∷ ys) = true
bytes_lt (x ∷ xs) (y ∷ ys) = ltb x y || x == y && bytes_lt xs ys

-- sort.Slice by name. The names differ, so every sorting algorithm gives this list.
unfoldable pub place_usage : SnapshotUsage → List SnapshotUsage → List SnapshotUsage
place_usage u [] = u ∷ []
place_usage u (v ∷ vs) = if bytes_lt v.snapshot u.snapshot then v ∷ place_usage u vs else u ∷ v ∷ vs

unfoldable pub sort_usages : List SnapshotUsage → List SnapshotUsage
sort_usages [] = []
sort_usages (u ∷ us) = place_usage u (sort_usages us)

unfoldable pub sum_logical : List SnapshotUsage → ℕ
sum_logical [] = 0
sum_logical (u ∷ us) = add64 (sum_logical us) u.logical_bytes

-- computeUsageStats
unfoldable pub compute_usage_stats : Map (List Bytes) → Map ℕ → Map ℕ → ℤ → UsageStats
compute_usage_stats known_chunks chunk_sizes archive_sizes now =
    let c =
      count_chunks chunk_sizes known_chunks
        (record { chunk_bytes = 0; chunks = 0; per_snapshot = add_archives archive_sizes [] }) in
    record {
      generated = now;
      chunk_bytes = c.chunk_bytes;
      chunks = c.chunks;
      logical_bytes = sum_logical c.per_snapshot;
      snapshots = sort_usages c.per_snapshot;
    }
