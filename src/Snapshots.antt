-- ===== src/Snapshots.antt =====
-- internal/s3pmoxcommon/s3pmoxcommon.go and types.go: the snapshots of a datastore, read from the
-- keys `backups/<id>|<time>|<type>/<file>` of its objects.
pub mod RoundTrip
pub mod Latest
pub mod Delete
use mathlib.Core.Option
use pmoxs3backuproxy.Prelude.{
  ℕ, Bool, true, false, ◌&&◌, ◌||◌, not, Option, none, some, List, [], ◌∷◌, ◌++◌, ◌==◌, ltb, length,
  Result, ok, err, ◌>>=◌, if◌then◌else◌, for_each,
}
use pmoxs3backuproxy.Prelude.Decimal.{decimal, parse_uint, Parsed, parsed, failed, parsed_value}
use pmoxs3backuproxy.Prelude.Maps.{Map, lookup, insert, value_or}
use pmoxs3backuproxy.Prelude.Strings.{
  Bytes, codes, bytes_eq, has_prefix, has_suffix, trim_prefix, cut, split,
}
use pmoxs3backuproxy.Prelude.Words.{to_uint64}
use pmoxs3backuproxy.Objects.{
  Error, invalid_snapshot_key, invalid_snapshot_prefix, invalid_snapshot_timestamp, ObjectInfo,
}

pub record SnapshotFile : Type 0 where
  pub filename : Bytes
  pub crypt_mode : Bytes
  pub size : ℕ

pub record Snapshot : Type 0 where
  pub backup_id : Bytes
  pub backup_time : ℕ
  pub backup_type : Bytes
  pub files : List SnapshotFile
  pub protected : Bool
  pub comment : Bytes
  pub datastore : Bytes
  pub corrupted : Bool
  pub size : ℕ

abbrev pub zero_snapshot : Snapshot
zero_snapshot = record {
  backup_id = [];
  backup_time = 0;
  backup_type = [];
  files = [];
  protected = false;
  comment = [];
  datastore = [];
  corrupted = false;
  size = 0;
}

-- `<id>|<time>|<type>`
unfoldable pub prefix_name : Bytes → ℕ → Bytes → Bytes
prefix_name id time kind = id ++ (b'|' ∷ (decimal time ++ (b'|' ∷ kind)))

-- (*Snapshot).S3Prefix
unfoldable pub s3_prefix : Snapshot → Bytes
unfolding prefix_name
s3_prefix s = codes "backups/" ++ prefix_name s.backup_id s.backup_time s.backup_type

-- (*Snapshot).InitWithQuery and InitWithForm, over what `Get` returns for a key. An error of
-- ParseUint is dropped, and its value kept.
unfoldable pub init_with_query : Snapshot → (Bytes → Bytes) → Snapshot
init_with_query s get = record s {
  backup_id = get (codes "backup-id");
  backup_time = parsed_value (parse_uint (get (codes "backup-time")));
  backup_type = get (codes "backup-type");
}

-- The key of an object under backups/, taken apart.
pub record SnapshotKey : Type 0 where
  pub prefix : Bytes
  pub id : Bytes
  pub time : ℕ
  pub kind : Bytes
  pub file : Bytes

abbrev is_empty : Bytes → Bool
is_empty [] = true
is_empty (c ∷ s) = false

time_of : Bytes → Parsed → Result Error ℕ
time_of prefix (parsed n) = ok n
time_of prefix (failed e) = err (invalid_snapshot_timestamp prefix)

-- `fields[0] == "" || fields[2] == ""`, and the time stamp
parse_fields : Bytes → Bytes → List Bytes → Result Error SnapshotKey
parse_fields prefix file (id ∷ time ∷ kind ∷ []) =
    if is_empty id || is_empty kind then err (invalid_snapshot_prefix prefix) else do
      n ← time_of prefix (parse_uint time)
      ok (record { prefix = prefix; id = id; time = n; kind = kind; file = file })
parse_fields prefix file _ = err (invalid_snapshot_prefix prefix)

-- `parts[0] == "" || parts[1] == ""`
parse_parts : Bytes → Bytes × Option Bytes → Result Error SnapshotKey
parse_parts key (prefix, none) = err (invalid_snapshot_key key)
parse_parts key (prefix, some file) =
    if is_empty prefix || is_empty file
    then err (invalid_snapshot_key key)
    else parse_fields prefix file (split prefix b'|')

unfoldable pub parse_snapshot_key : Bytes → Result Error SnapshotKey
unfolding parse_parts parse_fields time_of
parse_snapshot_key key = parse_parts key (cut (trim_prefix key (codes "backups/")) b'/')

-- The snapshot of a prefix that was not met before.
unfoldable pub new_snapshot : Bytes → SnapshotKey → Snapshot
new_snapshot datastore k = record zero_snapshot {
  backup_id = k.id;
  backup_time = k.time;
  backup_type = k.kind;
  datastore = datastore;
}

-- The note of an object, where it is set and base64.RawStdEncoding decodes it.
note_of : (Bytes → Option Bytes) → Bytes → Bytes → Bytes
note_of decode_note comment [] = comment
note_of decode_note comment (c ∷ encoded) = value_or (decode_note (c ∷ encoded)) comment

-- What one object adds to its snapshot: flags, note and file.
unfoldable pub add_object : (Bytes → Option Bytes) → ObjectInfo → SnapshotKey → Snapshot → Snapshot
unfolding note_of
add_object decode_note object k s = record s {
  corrupted = s.corrupted || bytes_eq k.file (codes "corrupted");
  protected =
      s.protected
      || bytes_eq (value_or (lookup object.user_tags (codes "protected")) []) (codes "true");
  comment = note_of decode_note s.comment (value_or (lookup object.user_tags (codes "note")) []);
  files =
      if has_suffix k.file (codes ".csjson")
      then s.files
      else s.files
        ++ (record { filename = k.file; crypt_mode = codes "none"; size = to_uint64 object.size }
            ∷ []);
}

-- One round of the loop of SnapshotsFromObjects. `byPrefix` and `order` are one map, which keeps
-- its keys in the order in which they came.
unfoldable pub add_listed :
    (Bytes → Option Bytes) → Bytes → Map Snapshot → ObjectInfo → Result Error (Map Snapshot)
add_listed decode_note datastore by_prefix object = elim object.error [
  | some e ↦ err e
  | none ↦ if not (has_prefix object.key (codes "backups/")) then ok by_prefix else do
    k ← parse_snapshot_key object.key
    let snapshot = value_or (lookup by_prefix k.prefix) (new_snapshot datastore k)
    ok (insert by_prefix k.prefix (add_object decode_note object k snapshot))
]

-- The snapshots in order, without the corrupted ones unless they are asked for.
unfoldable pub collect : Bool → Map Snapshot → List Snapshot
collect return_corrupted [] = []
collect return_corrupted ((p, s) ∷ m) =
    let rest = collect return_corrupted m in
    if return_corrupted || not s.corrupted then s ∷ rest else rest

-- SnapshotsFromObjects
unfoldable pub snapshots_from_objects :
    (Bytes → Option Bytes) → List ObjectInfo → Bytes → Bool → Result Error (List Snapshot)
snapshots_from_objects decode_note objects datastore return_corrupted = do
  by_prefix ← for_each (add_listed decode_note datastore) [] objects
  ok (collect return_corrupted by_prefix)

-- `mostRecent == nil || snapshot.BackupTime > mostRecent.BackupTime`
later : Option Snapshot → Snapshot → Bool
later none s = true
later (some m) s = ltb m.backup_time s.backup_time

-- One round of the loop of GetLatestSnapshot.
unfoldable pub more_recent : Bytes → ℕ → Option Snapshot → Snapshot → Option Snapshot
unfolding later
more_recent id time most_recent s =
    if s.backup_time == time && bytes_eq s.backup_id id
    then most_recent
    else if later most_recent s && bytes_eq id s.backup_id
    then some s
    else most_recent

-- The loop of GetLatestSnapshot, over the snapshots that are not corrupted.
unfoldable pub latest_of : Bytes → ℕ → Option Snapshot → List Snapshot → Option Snapshot
latest_of id time most_recent [] = most_recent
latest_of id time most_recent (s ∷ snapshots) =
    latest_of id time (more_recent id time most_recent s) snapshots

-- GetLatestSnapshot, on what listing the datastore returned.
unfoldable pub get_latest_snapshot :
    (Bytes → Option Bytes) → List ObjectInfo → Bytes → Bytes → ℕ → Result Error (Option Snapshot)
get_latest_snapshot decode_note listing datastore id time = do
  snapshots ← snapshots_from_objects decode_note listing datastore false
  ok (latest_of id time none snapshots)
