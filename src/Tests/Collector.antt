-- ===== src/Tests/Collector.antt =====
-- The collector on a bucket with an expired snapshot, one that stays, and a chunk of each.
use mathlib.Core.Bool.{true≢false}
use Prim.Native.String.{String}
use pmoxs3backuproxy.Prelude.{
  ◌*◌, true, false, none, List, [], ◌∷◌, ◌++◌, ◌≡◌, ◌≢◌, refl, ap, inl, inr, replicate, Result, ok,
  for_each, Elem, keep_if, any, if◌then◌else◌,
}
use pmoxs3backuproxy.Prelude.Decimal.{decimal, decimal_from}
use pmoxs3backuproxy.Prelude.Hex.{decode_string, from_hex_char}
use pmoxs3backuproxy.Prelude.Int.{ℤ, pos, ◌-ℤ◌}
use pmoxs3backuproxy.Prelude.Maps.{lookup, insert}
use pmoxs3backuproxy.Prelude.Strings.{
  Bytes, codes, has_prefix, has_suffix, index_byte, trim_prefix, bytes_eq, split,
}
use pmoxs3backuproxy.Prelude.Words.{to_uint64}
use pmoxs3backuproxy.Index.{ParsedIndex, is_index}
use pmoxs3backuproxy.Objects.{Error, ObjectInfo}
use pmoxs3backuproxy.Snapshots.{Snapshot, zero_snapshot, s3_prefix, prefix_name}
use pmoxs3backuproxy.Gc.Expiry.{second, hour, snapshot_expired, unix, within_grace_period}
use pmoxs3backuproxy.Gc.Keys.{
  snapshot_prefix_for_object, chunk_digest_from_key, is_digest, chunk_object_name,
}
use pmoxs3backuproxy.Gc.Plan.{
  GcPlan, empty_plan, build_gc_plan, mark_snapshot, mark_backup, mark_indexed, mark_chunk,
  missing_of, place_chunk, record_index, add_references,
}
use pmoxs3backuproxy.Gc.Plan.Spec.{
  is_condemned, references, listed, is_unneeded, is_stale_copy, keeps_hash, is_chunk_of,
}
use pmoxs3backuproxy.Gc.Plan.Safety.{retained_digest-not-planned, planned_backup-expired}
use pmoxs3backuproxy.Gc.Plan.Outcome.{build_gc_plan-exact}
use pmoxs3backuproxy.Gc.Sweep.{execute_gc_plan, background, remove_objects_fully}
use pmoxs3backuproxy.Gc.Sweep.Survival.{execute_gc_plan-surviving_index}
use pmoxs3backuproxy.Tests.Bucket.{Bucket, client, has, documented}

abbrev object : String → ObjectInfo
object key = record {
  key = codes key;
  size = pos 10;
  last_modified = pos 0;
  user_metadata = [];
  user_tags = [];
  error = none;
}

-- 2 ^ 20 seconds after 1970, with a retention of a day
abbrev present : ℤ
present = pos (1048576 * second)

abbrev snapshots : List Snapshot
snapshots =
    record zero_snapshot { backup_id = codes "7"; backup_time = 1; backup_type = codes "vm" }
    ∷ record zero_snapshot {
      backup_id = codes "7";
      backup_time = 1048000;
      backup_type = codes "vm";
    }
    ∷ []

abbrev old_index : ObjectInfo
old_index = object "backups/7|1|vm/disk.fidx"

abbrev young_index : ObjectInfo
young_index = object "backups/7|1048000|vm/disk.fidx"

abbrev backups : List ObjectInfo
backups = old_index ∷ young_index ∷ []

-- 64 times the same hexadecimal digit
young_is_index : is_index young_index.key ≡ true
unfolding is_index has_suffix codes bytes_eq
young_is_index = refl

copies_prefix : has_prefix (codes "indexed/other.fidx") (codes "indexed/") ≡ true
unfolding has_prefix codes
copies_prefix = refl

abbrev digest_a : Bytes
digest_a = replicate 64 b'a'

abbrev chunk_a : Bytes
chunk_a = codes "chunks/aa/aa/" ++ replicate 60 b'a'

abbrev chunk_b : Bytes
chunk_b = codes "chunks/bb/bb/" ++ replicate 60 b'b'

abbrev chunks : List ObjectInfo
chunks = record (object "") { key = chunk_a } ∷ record (object "") { key = chunk_b } ∷ []

abbrev index_a : ParsedIndex
index_a = record { checksum = codes "sum"; digests = digest_a ∷ []; logical_size = 10 }

abbrev load_index : ObjectInfo → Result Error ParsedIndex
load_index o = ok index_a

abbrev load_checksum : ObjectInfo → Result Error Bytes
load_checksum o = ok (codes "other")

abbrev copies : List ObjectInfo
copies = object "indexed/other.fidx" ∷ []

-- The old snapshot goes with its index, the other index stays with its chunk.
abbrev plan : GcPlan
plan = record empty_plan {
  expired_snapshots =
      record zero_snapshot { backup_id = codes "7"; backup_time = 1; backup_type = codes "vm" }
      ∷ [];
  backup_objects = old_index ∷ [];
  indexed_objects = copies;
  chunk_objects = record (object "") { key = chunk_b } ∷ [];
  known_chunks = (digest_a, young_index.key ∷ []) ∷ [];
  existing_chunks = (digest_a, true) ∷ [];
  chunk_sizes = (digest_a, 10) ∷ [];
  archive_sizes = (young_index.key, 10) ∷ [];
}

built :
    build_gc_plan snapshots backups copies chunks present 1 (pos hour) load_index load_checksum
    ≡ ok plan
unfolding build_gc_plan for_each mark_snapshot snapshot_expired mark_backup
    snapshot_prefix_for_object has_prefix codes index_byte trim_prefix lookup insert bytes_eq
    s3_prefix decimal is_index has_suffix mark_indexed unix within_grace_period
    chunk_digest_from_key is_digest add_references mark_chunk missing_of place_chunk record_index
    decimal_from decode_string from_hex_char ◌-ℤ◌ split to_uint64 prefix_name
built = refl

young_stays : ¬ Elem young_index plan.backup_objects
unfolding codes bytes_eq
young_stays (inl e) = true≢false (ap (λ (o : ObjectInfo). bytes_eq young_index.key o.key) e)
young_stays (inr n) = elim n [ ]

retained_digest-not-planned_example :
    (index : ParsedIndex) × (load_index young_index ≡ ok index)
    × ((digest : Bytes) (o : ObjectInfo)
        → Elem digest index.digests
        → Elem o plan.chunk_objects
        → chunk_digest_from_key o.key ≢ ok digest)
retained_digest-not-planned_example =
    retained_digest-not-planned snapshots backups copies chunks present 1 (pos hour) load_index
      load_checksum plan built young_index (inr (inl refl)) young_stays young_is_index

planned_backup-expired_example :
    (s : Snapshot) × Elem s snapshots
    × (s.protected ≡ false)
    × (snapshot_expired s present 1 ≡ ok true)
    × (snapshot_prefix_for_object old_index.key ≡ ok (s3_prefix s))
planned_backup-expired_example =
    planned_backup-expired snapshots backups copies chunks present 1 (pos hour) load_index
      load_checksum plan built old_index (inl refl)

build_gc_plan-exact_example :
    (plan.backup_objects ≡ keep_if (is_condemned present 1 snapshots) backups)
    × (plan.indexed_objects
        ≡ keep_if
            (is_stale_copy load_checksum
              (λ c. any (keeps_hash load_index (is_condemned present 1 snapshots) c) backups))
            copies)
    × (plan.chunk_objects
        ≡ keep_if
            (is_unneeded
              (λ d. listed (references load_index (is_condemned present 1 snapshots) backups d))
              present
              (pos hour))
            chunks)
    × (lookup plan.missing_chunks digest_a ≡ (
        if any (is_chunk_of digest_a) chunks
        then none
        else listed (references load_index (is_condemned present 1 snapshots) backups digest_a)))
build_gc_plan-exact_example =
    build_gc_plan-exact snapshots backups copies chunks present 1 (pos hour) load_index
      load_checksum plan built digest_a

-- A bucket that holds all of this.
abbrev full : Bucket
full key = true

abbrev universe : List ObjectInfo
universe = backups ++ (copies ++ chunks)

named : chunk_object_name digest_a ≡ ok chunk_a
unfolding chunk_object_name is_digest decode_string from_hex_char codes
named = refl

left : has (execute_gc_plan (client universe) background full plan).0 young_index.key ≡ true
unfolding execute_gc_plan remove_objects_fully any bytes_eq codes
left = refl

execute_gc_plan-surviving_index_example :
    has (execute_gc_plan (client universe) background full plan).0 chunk_a ≡ true
execute_gc_plan-surviving_index_example =
    execute_gc_plan-surviving_index (client universe) has (documented universe) snapshots backups
      copies chunks present 1 (pos hour) load_index load_checksum plan built (copies_prefix, tt)
      full young_index index_a digest_a chunk_a (inr (inl refl)) young_is_index refl (inl refl)
      named refl left
