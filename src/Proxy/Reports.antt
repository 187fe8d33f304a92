-- ===== src/Proxy/Reports.antt =====
-- What the proxy adds to a listing of snapshots on request (cmd/pmoxs3backuproxy/sizes.go and
-- main.go): the logical sizes of their archives.
pub mod Sizes
pub mod Modes
pub mod Listing
use pmoxs3backuproxy.Prelude.{
  ℕ, zero, suc, Bool, true, false, Option, none, some, List, [], ◌∷◌, ◌++◌, map, ◌==◌, Result, ok,
  err, if◌then◌else◌,
}
use pmoxs3backuproxy.Prelude.Int.{ℤ}
use pmoxs3backuproxy.Prelude.Maps.{Map, lookup, insert, value_or}
use pmoxs3backuproxy.Prelude.Strings.{Bytes, codes}
use pmoxs3backuproxy.Prelude.Words.{add64}
use pmoxs3backuproxy.Index.{RangedGet, archive_size, is_index}
use pmoxs3backuproxy.Snapshots.{Snapshot, SnapshotFile, s3_prefix}
use pmoxs3backuproxy.Proxy.Cache.{Entry, Answer, cached, fresh, failed, entry, get, update}
use pmoxs3backuproxy.Proxy.Handlers.Listings.{int64_of}

-- One archive whose size is looked up: the place of its snapshot in the listing, with the datastore
-- of that snapshot.
pub record Job : Type 0 where
  pub snapshot : ℕ
  pub datastore : Bytes
  pub key : Bytes
  pub obj_size : ℤ

job_of : ℕ → Snapshot → SnapshotFile → Job
job_of i s f = record {
  snapshot = i;
  datastore = s.datastore;
  key = s3_prefix s ++ (b'/' ∷ f.filename);
  obj_size = int64_of f.size;
}

file_jobs : ℕ → Snapshot → List SnapshotFile → List Job
file_jobs i s [] = []
file_jobs i s (f ∷ files) =
    let rest = file_jobs i s files in if is_index f.filename then job_of i s f ∷ rest else rest

-- The jobs of the snapshots from place `i` on.
unfoldable pub jobs_of : ℕ → List Snapshot → List Job
unfolding file_jobs job_of
jobs_of i [] = []
jobs_of i (s ∷ snapshots) = file_jobs i s s.files ++ jobs_of (suc i) snapshots

-- The jobs with the places of their results.
unfoldable pub indexed : ℕ → List Job → List (ℕ × Job)
indexed n [] = []
indexed n (j ∷ jobs) = (n, j) ∷ indexed (suc n) jobs

-- `ds + "/" + j.key`
unfoldable pub size_key : Job → Bytes
size_key j = j.datastore ++ (b'/' ∷ j.key)

-- `snapshots[i].Size += size`
unfoldable pub add_size : ℕ → ℕ → List Snapshot → List Snapshot
add_size i size [] = []
add_size zero size (s ∷ snapshots) = record s { size = add64 s.size size } ∷ snapshots
add_size (suc i) size (s ∷ snapshots) = s ∷ add_size i size snapshots

-- The last loop, over the jobs with their results.
unfoldable pub add_sizes : (ℕ × Job → ℕ) → List (ℕ × Job) → List Snapshot → List Snapshot
add_sizes size [] snapshots = snapshots
add_sizes size ((n, j) ∷ jobs) snapshots =
    add_sizes size jobs (add_size j.snapshot (size (n, j)) snapshots)

-- What a lookup returns, and 0 if it fails.
unfoldable pub found_size : Answer ℕ → ℕ
found_size (cached value) = value_or value 0
found_size (fresh size) = size
found_size (failed e) = 0

-- The cache passes an error on without looking at it.
unfoldable pub fetched {ℓ} : {E : Type 0} {A : Type ℓ} → Result E A → Result ℕ A
fetched (ok a) = ok a
fetched (err e) = err 0

-- The store by datastore, the lifetime of the cache, and for each cache key when its lookup begins
-- and when its fetch ends.
pub record Lookups : Type 0 where
  pub get_range : Bytes → RangedGet
  pub ttl : ℤ
  pub begins : Bytes → ℤ
  pub ends : Bytes → ℤ

module _ (lookups : Lookups) where
  -- The lookup of one job on the entry of its key.
  unfoldable pub look_up : Job → Entry ℕ → Entry ℕ × Answer ℕ
  look_up j e =
      get lookups.ttl (lookups.begins (size_key j))
        (fetched (archive_size (lookups.get_range j.datastore) j.key j.obj_size))
        (lookups.ends (size_key j)) e

  -- One job of a worker: the cache, and `sizes[idx]`.
  unfoldable pub work : Map (Entry ℕ) × (ℕ → ℕ) → ℕ × Job → Map (Entry ℕ) × (ℕ → ℕ)
  work (cache, sizes) (n, j) =
      let (e, answer) = look_up j (entry cache (size_key j)) in
      (insert cache (size_key j) e, λ i. if i == n then found_size answer else sizes i)

  -- The workers, on the jobs in the order in which they take them.
  unfoldable pub work_all : Map (Entry ℕ) × (ℕ → ℕ) → List (ℕ × Job) → Map (Entry ℕ) × (ℕ → ℕ)
  work_all state [] = state
  work_all state (job ∷ order) = work_all (work state job) order

  fill_jobs :
      List (ℕ × Job)
      → Map (Entry ℕ)
      → List Snapshot
      → List (ℕ × Job)
      → Map (Entry ℕ) × List Snapshot
  fill_jobs order cache snapshots [] = (cache, snapshots)
  fill_jobs order cache snapshots (job ∷ jobs) =
      let (cache', sizes) = work_all (cache, λ i. 0) order in
      (cache', add_sizes (λ p. sizes p.0) (job ∷ jobs) snapshots)

  -- FillArchiveSizes
  unfoldable pub fill_archive_sizes :
      List (ℕ × Job) → Map (Entry ℕ) → List Snapshot → Map (Entry ℕ) × List Snapshot
  unfolding fill_jobs
  fill_archive_sizes order cache snapshots =
      fill_jobs order cache snapshots (indexed 0 (jobs_of 0 snapshots))
