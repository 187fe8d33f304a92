-- ===== src/Tests/Reports.antt =====
-- Listings, deletions and signals on concrete inputs.
use mathlib.Core.Bool.{true≢false}
use pmoxs3backuproxy.Prelude.{
  ℕ, ◌<◌, true, false, ◌≡◌, ◌⊎◌, ◌∙◌, refl, sym, ap, arith, inl, inr, none, List, [], ◌∷◌, ◌++◌,
  map, ok, err, if◌then◌else◌,
}
use pmoxs3backuproxy.Prelude.Decimal.{decimal, decimal_from}
use pmoxs3backuproxy.Prelude.Int.{pos}
use pmoxs3backuproxy.Prelude.Strings.{Bytes, codes, bytes_eq, bytes_eq_refl, has_prefix, has_suffix}
use pmoxs3backuproxy.Objects.{from_store, ObjectInfo}
use pmoxs3backuproxy.Index.{is_index}
use pmoxs3backuproxy.Snapshots.{Snapshot, SnapshotFile, zero_snapshot, s3_prefix, prefix_name}
use pmoxs3backuproxy.Snapshots.Delete.{delete, deletion_prefix, listed_objects}
use pmoxs3backuproxy.Proxy.Handlers.{reply}
use pmoxs3backuproxy.Proxy.Handlers.Deletion.{delete_snapshot}
use pmoxs3backuproxy.Proxy.Handlers.Deletion.Deleted.{delete_snapshot-listed, delete_snapshot-exact}
use pmoxs3backuproxy.Proxy.Handlers.Listings.{int64_of}
use pmoxs3backuproxy.Proxy.Invalidation.{Caches}
use pmoxs3backuproxy.Proxy.Reports.{Job, Lookups, jobs_of, indexed, size_key, fill_archive_sizes}
use pmoxs3backuproxy.Proxy.Reports.Listing.{Reporting, Times, fetch_listing, list_snapshots_cached}
use pmoxs3backuproxy.Proxy.Reports.Sizes.{
  IsOrder, size_in, with_sizes, fill_archive_sizes-with_sizes,
}
use pmoxs3backuproxy.Proxy.Signals.{
  sigint, sigterm, sigusr1, exited, Event, sent, asked, received, handle_events, refusable,
  stop_signals, handle_signals-exited,
}
use pmoxs3backuproxy.Proxy.Sizes.{size_logical}
use pmoxs3backuproxy.Tests.Bucket.{Bucket, client, holds, documented_holds, lists_all}

-- A snapshot with two archives, which two workers take in the other order.
abbrev pub file : Bytes → SnapshotFile
file name = record { filename = name; crypt_mode = codes "none"; size = 4136 }

abbrev pub snapshot : Snapshot
snapshot = record zero_snapshot {
  backup_id = codes "7";
  backup_time = 12;
  backup_type = codes "vm";
  datastore = codes "ds";
  files = file (codes "a.fidx") ∷ file (codes "b.didx") ∷ file (codes "c.blob") ∷ [];
}

abbrev job : Bytes → Job
job name = record {
  snapshot = 0;
  datastore = codes "ds";
  key = codes "backups/7|12|vm/" ++ name;
  obj_size = pos 4136;
}

abbrev order : List (ℕ × Job)
order = (1, job (codes "b.didx")) ∷ (0, job (codes "a.fidx")) ∷ []

abbrev pub lookups : Lookups
lookups = record {
  get_range = λ ds key lo hi. err (from_store 503);
  ttl = pos 10;
  begins = λ key. pos 1;
  ends = λ key. pos 2;
}

two_jobs :
    indexed 0 (jobs_of 0 (snapshot ∷ []))
    ≡ (0, job (codes "a.fidx")) ∷ (1, job (codes "b.didx")) ∷ []
unfolding indexed jobs_of is_index has_suffix codes bytes_eq s3_prefix prefix_name decimal
    decimal_from int64_of
two_jobs = refl

differ : ¬ (size_key (job (codes "b.didx")) ≡ size_key (job (codes "a.fidx")))
unfolding size_key codes bytes_eq
differ e = true≢false (
    sym (bytes_eq_refl (size_key (job (codes "b.didx"))))
    ∙ ap (bytes_eq (size_key (job (codes "b.didx")))) e)

an_order : IsOrder (indexed 0 (jobs_of 0 (snapshot ∷ []))) order
an_order = rw two_jobs (
  (inr (inl refl), (inl refl, tt)),
  ((λ m. elim m [ inl e ↦ absurd (omega arith) | inr n ↦ elim n [ ] ]), ((λ m. elim m [ ]), tt)),
  ((λ m. elim m [ inl e ↦ differ e | inr n ↦ elim n [ ] ]), ((λ m. elim m [ ]), tt)),
)

fill_archive_sizes-with_sizes_example :
    (fill_archive_sizes lookups order [] (snapshot ∷ [])).1
    ≡ map (with_sizes (size_in lookups [])) (snapshot ∷ [])
fill_archive_sizes-with_sizes_example =
    fill_archive_sizes-with_sizes lookups order [] (snapshot ∷ []) an_order

-- A bucket with an archive of this snapshot and one of another.
abbrev pub object : Bytes → ObjectInfo
object key = record {
  key = key;
  size = pos 5;
  last_modified = pos 0;
  user_metadata = [];
  user_tags = [];
  error = none;
}

abbrev pub universe : List ObjectInfo
universe = object (codes "backups/7|12|vm/a.fidx") ∷ object (codes "backups/7|13|vm/a.fidx") ∷ []

abbrev pub full : Bucket
full key = true

abbrev pub reporting : Reporting Bucket
reporting = record {
  client = client universe;
  decode_note = λ b. none;
  unmarshal = λ b. none;
  report_encryption = false;
  report_archive_size = true;
  report_gc_stats = false;
  snapshot_size_mode = size_logical;
  lookups = λ s. lookups;
  manifests = λ s. record {
    libraries = record { checksum_ieee = λ b. 0; decompress = λ b n. ok b; unmarshal = λ b. none };
    get_object = λ ds key. none;
    ttl = pos 0;
    begins = λ key. pos 0;
    ends = λ key. pos 0;
  };
  size_order = λ snapshots. indexed 0 (jobs_of 0 snapshots);
  modes_order = λ snapshots. [];
  snapshots_ttl = pos 10;
  stats_ttl = pos 10;
}

abbrev pub caches : Caches
caches = record {
  snapshot_lists = [];
  datastore_usages = [];
  usage_reports = [];
  archive_sizes = [];
  manifest_crypt_modes = [];
  seen = [];
}

abbrev pub times : Times
times = record { begins = pos 3; ends = pos 4 }

delete_snapshot-listed_example :
    let (s', c', answer) = delete_snapshot reporting.client snapshot (ok []) full caches in
    (list_snapshots_cached reporting s' snapshot.datastore times c').1
    ≡ (fetch_listing reporting s' snapshot.datastore times c').1
delete_snapshot-listed_example = delete_snapshot-listed reporting full caches snapshot (ok []) times

deletion_succeeds :
    (delete_snapshot reporting.client snapshot (ok []) full caches).2 ≡ reply snapshot
unfolding delete_snapshot delete listed_objects s3_prefix prefix_name decimal decimal_from
    has_prefix codes
deletion_succeeds = refl

delete_snapshot-exact_example :
    holds universe
      (delete_snapshot reporting.client snapshot (ok []) full caches).0
      (codes "backups/7|13|vm/a.fidx")
    ≡ (if has_prefix (codes "backups/7|13|vm/a.fidx") (deletion_prefix snapshot)
        then false
        else holds universe full (codes "backups/7|13|vm/a.fidx"))
delete_snapshot-exact_example =
    delete_snapshot-exact reporting full caches snapshot (ok []) (holds universe)
      (documented_holds universe) (lists_all universe) (codes "backups/7|13|vm/a.fidx")
      deletion_succeeds

-- The third signal finds the channel full.
abbrev events : List Event
events = sent sigint ∷ asked 1 ∷ sent sigterm ∷ sent sigusr1 ∷ asked 2 ∷ []

handle_signals-exited_example :
    (handle_events events ≡ exited 0)
    ⊎ ((handle_events events ≡ exited 1) × (1 < refusable (received none events)))
unfolding stop_signals received
handle_signals-exited_example = handle_signals-exited events (omega arith)
