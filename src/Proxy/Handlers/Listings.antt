-- ===== src/Proxy/Handlers/Listings.antt =====
-- The handlers that list: groups, snapshots and datastores, and the status of a datastore
-- (ServeHTTP and groupSize in cmd/pmoxs3backuproxy/main.go).
pub mod Groups
pub mod Status
use pmoxs3backuproxy.Prelude.{
  ℕ, ◌+◌, ◌-◌, ◌^◌, ◌%◌, Bool, true, false, ◌&&◌, ◌||◌, not, Option, none, some, List, [], ◌∷◌,
  ◌++◌, map, ◌==◌, ltb, length, keep_if, Result, ok, err, if◌then◌else◌,
}
use pmoxs3backuproxy.Prelude.Int.{ℤ, pos, negsuc}
use pmoxs3backuproxy.Prelude.Strings.{Bytes, codes, bytes_eq}
use pmoxs3backuproxy.Prelude.Words.{two64, add64}
use pmoxs3backuproxy.Objects.{Error}
use pmoxs3backuproxy.Snapshots.{Snapshot, SnapshotFile}
use pmoxs3backuproxy.Proxy.Sizes.{DataStoreUsage}

pub record Group : Type 0 where
  pub count : ℕ
  pub backup_id : Bytes
  pub backup_type : Bytes
  pub files : List Bytes
  pub backup_time : ℕ
  pub size : ℕ
  pub owner : Bytes

-- groupSize
unfoldable pub group_size : ℕ → ℕ
group_size size = if size == 0 then 200 else size

unfoldable pub same_group : Bytes → Bytes → Group → Bool
same_group kind id g = bytes_eq g.backup_type kind && bytes_eq g.backup_id id

-- The group of a snapshot that is the first of it.
unfoldable pub new_group : Bytes → Snapshot → Group
new_group owner snap = record {
  count = 1;
  backup_id = snap.backup_id;
  backup_type = snap.backup_type;
  files = map (λ (file : SnapshotFile). file.filename) snap.files;
  backup_time = snap.backup_time;
  size = group_size snap.size;
  owner = owner;
}

-- The loop over the groups that are there, and whether one of them is that of the snapshot.
unfoldable pub update_groups : Snapshot → List Group → List Group × Bool
update_groups snap [] = ([], false)
update_groups snap (g ∷ groups) =
    let (rest, exists) = update_groups snap groups in
    if same_group snap.backup_type snap.backup_id g
    then (record g { count = add64 g.count 1; backup_time = snap.backup_time } ∷ rest, true)
    else (g ∷ rest, exists)

-- One round of the loop over the snapshots.
unfoldable pub add_snapshot : Bytes → List Group → Snapshot → List Group
add_snapshot owner groups snap =
    let (updated, exists) = update_groups snap groups in
    if exists then updated else updated ++ new_group owner snap ∷ []

-- GET groups, on the listed snapshots
unfoldable pub groups_of : Bytes → List Group → List Snapshot → List Group
groups_of owner groups [] = groups
groups_of owner groups (snap ∷ snapshots) =
    groups_of owner (add_snapshot owner groups snap) snapshots

-- GET snapshots, on the listed snapshots: those of one id and type, or all.
unfoldable pub requested_snapshots : Bytes → Bytes → List Snapshot → List Snapshot
requested_snapshots id kind snapshots =
    if bytes_eq id []
    then snapshots
    else keep_if (λ (s : Snapshot). bytes_eq s.backup_id id && bytes_eq s.backup_type kind)
        snapshots

pub record DataStoreStatus : Type 0 where
  pub avail : ℤ
  pub total : ℤ
  pub used : ℤ
  pub counts : ℤ
  pub gc_state : Bool

-- int64(n) of a uint64
unfoldable pub int64_of : ℕ → ℤ
int64_of n = if ltb n (2 ^ 63) then pos n else negsuc (two64 - 1 - n)

abbrev pub unknown_datastore_capacity : ℕ
unknown_datastore_capacity = 2 ^ 50

-- What is available of a datastore with a capacity, 0 for an unknown one.
unfoldable pub available : ℕ → ℕ → ℕ
available capacity bytes =
    if ltb bytes capacity
    then capacity - bytes
    else if ltb 0 capacity
    then 0
    else unknown_datastore_capacity

-- A count of snapshots that was not taken, from a listing that is cached.
counted : DataStoreUsage → Option ℕ → ℕ
counted usage none = usage.snapshots
counted usage (some n) = if usage.snapshots == 0 then n else usage.snapshots

-- GET status: from the usage if it is known, and the number of snapshots in a cached listing.
unfoldable pub datastore_status : ℕ → Option DataStoreUsage → Option ℕ → DataStoreStatus
unfolding counted
datastore_status capacity none cached = record {
  avail = pos 10000000;
  total = pos 10010000;
  used = pos 10000;
  counts = pos 0;
  gc_state = true;
}
datastore_status capacity (some usage) cached =
    let avail = available capacity usage.bytes in
    record {
      avail = int64_of avail;
      total = int64_of (add64 usage.bytes avail);
      used = int64_of usage.bytes;
      counts = int64_of (counted usage cached);
      gc_state = true;
    }
