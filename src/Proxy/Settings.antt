-- ===== src/Proxy/Settings.antt =====
-- What the proxy makes of its flags (main of cmd/pmoxs3backuproxy/main.go), up to the start of the
-- server. The flags are parsed; strings.TrimSpace is a parameter.
pub mod Durations
use pmoxs3backuproxy.Prelude.{
  ℕ, ◌*◌, ◌^◌, ◌%◌, Bool, true, false, Option, none, some, List, [], ◌∷◌, if◌then◌else◌,
}
use pmoxs3backuproxy.Prelude.Int.{ℤ}
use pmoxs3backuproxy.Prelude.Strings.{Bytes, bytes_eq}
use pmoxs3backuproxy.Prelude.Words.{two64}
use pmoxs3backuproxy.Gc.Expiry.{second}
use pmoxs3backuproxy.Proxy.Handlers.Listings.{int64_of}
use pmoxs3backuproxy.Proxy.Handlers.Store.{StorageClassPolicy}
use pmoxs3backuproxy.Proxy.Reports.Listing.{Reporting}
use pmoxs3backuproxy.Proxy.Sizes.{
  SnapshotSizeMode, size_logical, size_referenced, size_exclusive, snapshot_size_mode,
}

pub record Flags : Type 0 where
  pub print_version : Bool
  pub endpoint : Bytes
  pub use_ssl : Bool
  pub ticket_expire : ℕ
  pub lookup_type : Bytes
  pub bucket_cache_ttl : ℕ
  pub snapshot_cache_ttl : ℕ
  pub usage_cache_ttl : ℕ
  pub metadata_cache_ttl : ℕ
  pub gc_stats_cache_ttl : ℕ
  pub report_datastore_usage : Bool
  pub report_archive_size : Bool
  pub report_encryption : Bool
  pub report_gc_stats : Bool
  pub cache_invalidation_dir : Bytes
  pub datastore_size : ℕ
  pub snapshot_size : Bytes
  pub chunk_s3_timeout : ℕ
  pub chunk_storage_class : Bytes
  pub backup_storage_class : Bytes
  pub indexed_storage_class : Bytes

-- The lifetimes of the caches, the settings of the process, and those of `S`.
pub record Settings : Type 0 where
  pub bucket_list_ttl : ℤ
  pub snapshot_list_ttl : ℤ
  pub datastore_usage_ttl : ℤ
  pub archive_size_ttl : ℤ
  pub manifest_crypt_mode_ttl : ℤ
  pub usage_stats_ttl : ℤ
  pub report_datastore_usage : Bool
  pub report_archive_size : Bool
  pub report_encryption : Bool
  pub report_gc_stats : Bool
  pub invalidation_directory : Bytes
  pub datastore_capacity : ℕ
  pub size_mode : SnapshotSizeMode
  pub s3_endpoint : Bytes
  pub secure_flag : Bool
  pub ticket_expire : ℕ
  pub lookup_type : Bytes
  pub chunk_s3_timeout : ℤ
  pub storage_classes : StorageClassPolicy

-- How main goes on: it exits, or starts the server.
pub data Start : Type 0 where
  version_printed usage_printed : Start
  unknown_size : Bytes → Start
  needs_gc_stats : SnapshotSizeMode → Start
  started : Settings → Start

-- time.Duration(n) * time.Second, which wraps
unfoldable pub seconds_duration : ℕ → ℤ
seconds_duration n = int64_of (n * second % two64)

settings_of : (Bytes → Bytes) → Flags → SnapshotSizeMode → Settings
settings_of trim_space flags mode = record {
  bucket_list_ttl = seconds_duration flags.bucket_cache_ttl;
  snapshot_list_ttl = seconds_duration flags.snapshot_cache_ttl;
  datastore_usage_ttl = seconds_duration flags.usage_cache_ttl;
  archive_size_ttl = seconds_duration flags.metadata_cache_ttl;
  manifest_crypt_mode_ttl = seconds_duration flags.metadata_cache_ttl;
  usage_stats_ttl = seconds_duration flags.gc_stats_cache_ttl;
  report_datastore_usage = flags.report_datastore_usage;
  report_archive_size = flags.report_archive_size;
  report_encryption = flags.report_encryption;
  report_gc_stats = flags.report_gc_stats;
  invalidation_directory = flags.cache_invalidation_dir;
  datastore_capacity = flags.datastore_size;
  size_mode = mode;
  s3_endpoint = flags.endpoint;
  secure_flag = flags.use_ssl;
  ticket_expire = flags.ticket_expire;
  lookup_type = flags.lookup_type;
  chunk_s3_timeout = seconds_duration flags.chunk_s3_timeout;
  storage_classes = record {
    chunks = trim_space flags.chunk_storage_class;
    backups = trim_space flags.backup_storage_class;
    indexed = trim_space flags.indexed_storage_class;
  };
}

-- A size other than the logical one needs the reports of the collector.
with_mode : (Bytes → Bytes) → Flags → SnapshotSizeMode → Start
unfolding settings_of
with_mode trim_space flags size_logical = started (settings_of trim_space flags size_logical)
with_mode trim_space flags mode =
    if flags.report_gc_stats
    then started (settings_of trim_space flags mode)
    else needs_gc_stats mode

with_mode_name : (Bytes → Bytes) → Flags → Option SnapshotSizeMode → Start
unfolding with_mode
with_mode_name trim_space flags none = unknown_size flags.snapshot_size
with_mode_name trim_space flags (some mode) = with_mode trim_space flags mode

-- main, up to the start of the server
unfoldable pub configure : (Bytes → Bytes) → Flags → Start
unfolding with_mode_name
configure trim_space flags =
    if flags.print_version
    then version_printed
    else if bytes_eq flags.endpoint []
    then usage_printed
    else with_mode_name trim_space flags (snapshot_size_mode flags.snapshot_size)
