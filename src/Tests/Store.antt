-- ===== src/Tests/Store.antt =====
-- The sweep, the keys and the figures on concrete inputs.
use Prim.Native.String.{String}
use mathlib.Core.Bool.{true≢false}
use pmoxs3backuproxy.Prelude.{
  ℕ, ◌*◌, ◌+◌, ◌/◌, ◌≤◌, ◌<◌, true, none, some, List, [], ◌∷◌, ◌++◌, ◌≡◌, ◌≢◌, ◌↔◌, refl, sym, ap,
  inl, inr, arith, ok, Elem, All, any, length,
}
use pmoxs3backuproxy.Prelude.Int.{pos, ◌≤ℤ◌, pos_part}
use pmoxs3backuproxy.Prelude.Maps.{Map, lookup}
use pmoxs3backuproxy.Prelude.Strings.{Bytes, codes, bytes_eq, split}
use pmoxs3backuproxy.Prelude.Words.{two64}
use pmoxs3backuproxy.Client.{keys}
use pmoxs3backuproxy.Objects.{from_store, ObjectInfo}
use pmoxs3backuproxy.Snapshots.{
  Snapshot, zero_snapshot, prefix_name, s3_prefix, parse_snapshot_key, latest_of,
}
use pmoxs3backuproxy.Snapshots.RoundTrip.{parse_snapshot_key-s3_prefix}
use pmoxs3backuproxy.Snapshots.Latest.{IsLatest, latest_of-IsLatest}
use pmoxs3backuproxy.Gc.Expiry.{second, hour, hours_duration, snapshot_expired}
use pmoxs3backuproxy.Gc.Expiry.Bounds.{snapshot_expired_iff}
use pmoxs3backuproxy.Gc.Plan.{GcPlan, empty_plan}
use pmoxs3backuproxy.Gc.Stats.{compute_usage_stats, owners_of, snapshot_of_index}
use pmoxs3backuproxy.Gc.Stats.Totals.{
  compute_usage_stats_totals, total, exclusive, referenced, chunk_total, reference_total,
}
use pmoxs3backuproxy.Gc.Sweep.{Context, execute_gc_plan, remove_objects_fully}
use pmoxs3backuproxy.Gc.Sweep.Safety.{execute_gc_plan-chunks_last, StoppedEarly}
use pmoxs3backuproxy.Proxy.Sizes.{DataStoreUsage, walk_datastore_usage, walk_objects, walk_object}
use pmoxs3backuproxy.Proxy.Sizes.Walk.{size_total, chunk_size_total, walk_datastore_usage-exact}
use pmoxs3backuproxy.Prelude.Maps.{insert}
use pmoxs3backuproxy.Prelude.Strings.{has_prefix, cut}
use pmoxs3backuproxy.Prelude.Words.{to_uint64}
use pmoxs3backuproxy.Tests.Bucket.{Bucket, client, has, documented}

abbrev named_object : String → ObjectInfo
named_object key = record {
  key = codes key;
  size = pos 10;
  last_modified = pos 0;
  user_metadata = [];
  user_tags = [];
  error = none;
}

-- A sweep whose context is cancelled before anything is sent.
abbrev cancelled : Context
cancelled = record { error = some (from_store 1); delivered = 0 }

abbrev two_lists : GcPlan
two_lists = record empty_plan {
  backup_objects = named_object "b" ∷ [];
  chunk_objects = named_object "c" ∷ [];
}

abbrev all_there : Bucket
all_there key = true

c_not_b : ¬ Elem (codes "c") (keys two_lists.backup_objects)
unfolding codes bytes_eq
c_not_b (inl e) = true≢false (sym (ap (bytes_eq (codes "c")) (sym e)))
c_not_b (inr n) = elim n [ ]

c_not_none : ¬ Elem (codes "c") (keys [])
c_not_none n = elim n [ ]

stopped : StoppedEarly (execute_gc_plan (client []) cancelled all_there two_lists).1
unfolding execute_gc_plan remove_objects_fully
stopped = (from_store 1 ∷ [], inl refl)

execute_gc_plan-chunks_last_example :
    has (execute_gc_plan (client []) cancelled all_there two_lists).0 (codes "c") ≡ true
execute_gc_plan-chunks_last_example =
    execute_gc_plan-chunks_last (client []) has (documented []) cancelled (codes "c") all_there
      two_lists c_not_b c_not_none refl stopped

abbrev vm_7 : Snapshot
vm_7 = record zero_snapshot { backup_id = codes "7"; backup_time = 12; backup_type = codes "vm" }

id_chars : All (λ c. (c ≢ b'|') × (c ≢ b'/')) (codes "7")
unfolding codes
id_chars = ((omega arith, omega arith), tt)

kind_chars : All (λ c. (c ≢ b'|') × (c ≢ b'/')) (codes "vm")
unfolding codes
kind_chars = ((omega arith, omega arith), ((omega arith, omega arith), tt))

not_empty : (0 < length (codes "7")) × (0 < length (codes "vm")) × (0 < length (codes "a.fidx"))
unfolding codes
not_empty = (omega arith, omega arith, omega arith)

parse_snapshot_key-s3_prefix_example :
    parse_snapshot_key (s3_prefix vm_7 ++ (b'/' ∷ codes "a.fidx"))
    ≡ ok (record {
      prefix = prefix_name (codes "7") 12 (codes "vm");
      id = codes "7";
      time = 12;
      kind = codes "vm";
      file = codes "a.fidx";
    })
parse_snapshot_key-s3_prefix_example =
    parse_snapshot_key-s3_prefix vm_7 (codes "a.fidx") id_chars kind_chars not_empty.0 not_empty.1
      not_empty.2 (omega arith)

latest_of-IsLatest_example :
    IsLatest (codes "7") 13 (λ t. Elem t (vm_7 ∷ [])) (latest_of (codes "7") 13 none (vm_7 ∷ []))
latest_of-IsLatest_example = latest_of-IsLatest (codes "7") 13 (vm_7 ∷ [])

snapshot_expired_iff_example : (snapshot_expired vm_7 (pos (1000000 * second)) 1 ≡ ok true) ↔ (
    (1 * 86400 < two64)
    × (pos 0 ≤ℤ pos (1000000 * second))
    × (12 + 1 * 86400 < pos_part (pos (1000000 * second)) / second))
snapshot_expired_iff_example = snapshot_expired_iff vm_7 (pos (1000000 * second)) 1

day : hours_duration 24 ≡ ok (pos (24 * hour))
unfolding hours_duration
day = refl

abbrev known : Map (List Bytes)
known = (codes "d", codes "backups/7|12|vm/a.fidx" ∷ []) ∷ []

abbrev sizes : Map ℕ
sizes = (codes "d", 10) ∷ []

small : reference_total sizes known < two64
unfolding codes reference_total owners_of snapshot_of_index split lookup bytes_eq any
small = omega arith

compute_usage_stats_totals_example :
    let stats = compute_usage_stats known sizes [] (pos 0) in
    (stats.chunk_bytes ≡ chunk_total sizes known)
    × (total referenced stats.snapshots ≡ reference_total sizes known)
    × (total exclusive stats.snapshots ≤ stats.chunk_bytes)
    × (stats.chunk_bytes ≤ total referenced stats.snapshots)
compute_usage_stats_totals_example = compute_usage_stats_totals known sizes [] (pos 0) tt small

-- A walk over a chunk and an index.
abbrev two_objects : List ObjectInfo
two_objects = named_object "chunks/aa" ∷ named_object "backups/7|12|vm/a.fidx" ∷ []

abbrev walked_usage : DataStoreUsage
walked_usage = record { bytes = 20; chunk_bytes = 10; objects = 2; snapshots = 1 }

walked : walk_datastore_usage two_objects ≡ ok walked_usage
unfolding walk_datastore_usage walk_objects walk_object has_prefix codes to_uint64 cut insert
    bytes_eq
walked = refl

few : size_total two_objects < two64
unfolding size_total to_uint64
few = omega arith

walk_datastore_usage-exact_example :
    (walked_usage.bytes ≡ size_total two_objects)
    × (walked_usage.chunk_bytes ≡ chunk_size_total two_objects)
    × (walked_usage.objects ≡ length two_objects)
    × (walked_usage.chunk_bytes ≤ walked_usage.bytes)
walk_datastore_usage-exact_example =
    walk_datastore_usage-exact two_objects walked_usage walked few (omega arith)
