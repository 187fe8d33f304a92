-- ===== src/Proxy/Handlers/Answers.antt =====
-- The handlers that answer from the cached listings, reports and usages (ServeHTTP and
-- readDataStoreUsageForStatus in cmd/pmoxs3backuproxy/main.go, ComputeDataStoreUsage and
-- usageFromBucketHeaders in cmd/pmoxs3backuproxy/sizes.go).
use pmoxs3backuproxy.Prelude.{
  ℕ, Bool, true, false, ◌||◌, Option, none, some, List, [], ◌==◌, not, Result, ok, err,
  if◌then◌else◌,
}
use pmoxs3backuproxy.Prelude.Decimal.{Parsed, parsed, failed, parse_uint}
use pmoxs3backuproxy.Prelude.Int.{ℤ}
use pmoxs3backuproxy.Prelude.Maps.{insert}
use pmoxs3backuproxy.Prelude.Strings.{Bytes, bytes_eq}
use pmoxs3backuproxy.Objects.{Error, ObjectInfo}
use pmoxs3backuproxy.Snapshots.{Snapshot}
use pmoxs3backuproxy.Proxy.Cache.{Entry, entry, get_async}
use pmoxs3backuproxy.Proxy.Handlers.{Reply, reply, refused}
use pmoxs3backuproxy.Proxy.Handlers.Listings.{Group, groups_of, requested_snapshots}
use pmoxs3backuproxy.Proxy.Invalidation.{Caches}
use pmoxs3backuproxy.Proxy.Reports.Listing.{
  Reporting, Times, answered, read_report, list_snapshots_cached,
}
use pmoxs3backuproxy.Proxy.Sizes.{DataStoreUsage, walk_datastore_usage}

module _ {State : Type 0} (reporting : Reporting State) (s : State) (datastore : Bytes)
    (times : Times) where
  snapshots_answer :
      Bytes → Bytes → Caches × Result ℕ (List Snapshot) → Caches × Reply (List Snapshot)
  snapshots_answer id kind (c, err e) = (c, refused 500)
  snapshots_answer id kind (c, ok snapshots) = (c, reply (requested_snapshots id kind snapshots))

  -- GET snapshots
  unfoldable pub get_snapshots : Bytes → Bytes → Caches → Caches × Reply (List Snapshot)
  unfolding snapshots_answer
  get_snapshots id kind c =
      snapshots_answer id kind (list_snapshots_cached reporting s datastore times c)

  groups_answer : Bytes → Caches × Result ℕ (List Snapshot) → Caches × Reply (List Group)
  groups_answer owner (c, err e) = (c, reply (groups_of owner [] []))
  groups_answer owner (c, ok snapshots) = (c, reply (groups_of owner [] snapshots))

  -- GET groups, which drops the error of the listing
  unfoldable pub get_groups : Bytes → Caches → Caches × Reply (List Group)
  unfolding groups_answer
  get_groups owner c = groups_answer owner (list_snapshots_cached reporting s datastore times c)

  -- GET s3stats: the bytes of the report, whether or not they can be read.
  unfoldable pub get_stats : Caches → Caches × Reply Bytes
  get_stats c =
      let (e, answer) = read_report reporting s datastore times (entry c.usage_reports datastore) in
      if reporting.report_gc_stats
      then (
        record c { usage_reports = insert c.usage_reports datastore e },
        elim (answered [] answer) [ err x ↦ refused 404 | ok raw ↦ reply raw ],
      )
      else (c, refused 404)

-- What a HEAD of the bucket returns: nothing if the request cannot be made or fails, else the
-- status and the two headers, empty where they are missing.
pub record Probe : Type 0 where
  pub status : ℕ
  pub bucket_size : Bytes
  pub object_count : Bytes

-- The count of objects, 0 if it is no number.
count_of : Parsed → ℕ
count_of (parsed n) = n
count_of (failed e) = 0

sized_probe : Parsed → Parsed → Option DataStoreUsage
sized_probe (failed e) count = none
sized_probe (parsed size) count =
    some (record { bytes = size; chunk_bytes = 0; objects = count_of count; snapshots = 0 })

-- usageFromBucketHeaders
unfoldable pub usage_from_bucket_headers : Bytes → Option Probe → Option DataStoreUsage
unfolding sized_probe count_of
usage_from_bucket_headers access_key none = none
usage_from_bucket_headers access_key (some probe) =
    if bytes_eq access_key [] || not (probe.status == 200)
    then none
    else sized_probe (parse_uint probe.bucket_size) (parse_uint probe.object_count)

-- ComputeDataStoreUsage, with what listing the datastore delivers
unfoldable pub compute_datastore_usage :
    Bytes → Option Probe → List ObjectInfo → Result Error DataStoreUsage
compute_datastore_usage access_key probe listing =
    elim (usage_from_bucket_headers access_key probe) [
      | some usage ↦ ok usage
      | none ↦ walk_datastore_usage listing
    ]

known_or : Option DataStoreUsage → Option DataStoreUsage × Bool → Option DataStoreUsage
known_or waited (usage, true) = usage
known_or waited (usage, false) = waited

-- readDataStoreUsageForStatus on the entry of the datastore: the entry, the usage, and the
-- generation of a refresh that starts. `waited` is what polling the cache finds until its deadline.
unfoldable pub read_datastore_usage_for_status :
    Bool
    → ℤ
    → ℤ
    → Option DataStoreUsage
    → Entry DataStoreUsage
    → Entry DataStoreUsage × Option DataStoreUsage × Option ℕ
unfolding known_or
read_datastore_usage_for_status report ttl now waited e =
    let (e', answer, refresh) = get_async ttl now e in
    if report then (e', known_or waited answer, refresh) else (e, none, none)
