-- ===== src/Gc/Process.antt =====
-- The collector as a process (main of cmd/garbagecollector/main.go; GetLookupType of
-- internal/s3pmoxcommon/s3pmoxcommon.go): from its flags to its exit status. The flags are parsed;
-- reading a file, making a client, taking the lock and asking for the bucket are parameters.
pub mod Kept
use pmoxs3backuproxy.Prelude.{
  ℕ, Bool, true, false, ◌&&◌, ◌||◌, Option, none, some, List, [], ◌∷◌, ◌==◌, Result, ok, err,
  if◌then◌else◌,
}
use mathlib.Core.List.{reverse}
use pmoxs3backuproxy.Prelude.Int.{ℤ}
use pmoxs3backuproxy.Prelude.Strings.{Bytes, codes, bytes_eq}
use pmoxs3backuproxy.Client.{Client}
use pmoxs3backuproxy.Gc.Expiry.{hours_duration}
use pmoxs3backuproxy.Gc.Run.{
  Settings, World, Outcome, unsafe, no_snapshots, marking_failed, chunks_missing, sweep_failed,
  finished, collect_garbage,
}
use pmoxs3backuproxy.Gc.Stats.{UsageStats}
use pmoxs3backuproxy.Objects.{Error}
use pmoxs3backuproxy.Proxy.Invalidation.TokenFiles.{datastore_lock_name}

pub record Flags : Type 0 where
  pub print_version : Bool
  pub endpoint : Bytes
  pub secure : Bool
  pub bucket : Bytes
  pub access_key : Bytes
  pub secret_key : Bytes
  pub secret_key_file : Bytes
  pub lookup_type : Bytes
  pub retention_days : ℕ
  pub chunk_grace_hours : ℕ

pub data BucketLookup : Type 0 where
  lookup_path lookup_dns lookup_auto : BucketLookup

-- GetLookupType
unfoldable pub get_lookup_type : Bytes → BucketLookup
get_lookup_type kind =
    if bytes_eq kind (codes "path")
    then lookup_path
    else if bytes_eq kind (codes "dns")
    then lookup_dns
    else lookup_auto

pub record Environment (State : Type 0) : Type 0 where
  pub read_file : Bytes → Option Bytes
  pub new_client : Bytes → Bytes → Bytes → Bool → BucketLookup → Option (Client State)
  pub acquire : Bytes → Bool
  pub bucket_exists : State → Bytes → Result Error Bool
  pub sha256 : Bytes → Bytes
  pub decode_note : Bytes → Option Bytes
  pub marshal : UsageStats → Bytes

-- How the process ends, before the first listing or with the outcome of the run.
pub data Ending : Type 0 where
  version_printed usage_printed : Ending
  invalid_grace : Error → Ending
  no_key_file no_client not_locked : Ending
  no_access : Error → Ending
  no_bucket : Ending
  ran : Outcome → Ending

-- The exit status: FatalPrint exits with 1.
unfoldable pub status_of : Ending → ℕ
status_of version_printed = 0
status_of (ran no_snapshots) = 0
status_of (ran finished) = 0
status_of _ = 1

-- A blank of strings.Trim(key, " \r\t\n")
is_blank : ℕ → Bool
is_blank c = c == 32 || c == 13 || c == 9 || c == 10

trim_left : Bytes → Bytes
unfolding is_blank
trim_left [] = []
trim_left (c ∷ s) = let rest = trim_left s in if is_blank c then rest else c ∷ s

unfoldable pub trim_blanks : Bytes → Bytes
unfolding trim_left
trim_blanks s = reverse (trim_left (reverse (trim_left s)))

-- `skey`: the key given, or that in the file.
secret_of : Option Bytes → Bytes → Option Bytes
secret_of contents [] = elim contents [ none ↦ none | some key ↦ some (trim_blanks key) ]
secret_of contents (c ∷ key) = some (c ∷ key)

-- Whether a flag that is needed is missing.
unfoldable pub is_incomplete : Flags → Bool
is_incomplete flags =
    bytes_eq flags.endpoint []
    || bytes_eq flags.access_key []
    || (bytes_eq flags.secret_key [] && bytes_eq flags.secret_key_file [])
    || bytes_eq flags.bucket []

module _ {State : Type 0} (env : Environment State) (flags : Flags) (now : ℤ)
    (w : World State) where
  settings_of : ℤ → Settings
  settings_of grace = record {
    bucket = flags.bucket;
    retention_days = flags.retention_days;
    grace = grace;
    sha256 = env.sha256;
    decode_note = env.decode_note;
    marshal = env.marshal;
  }

  run : ℤ → Client State → World State × Ending
  unfolding settings_of
  run grace client =
      let (w', outcome) = collect_garbage client (settings_of grace) now w in (w', ran outcome)

  on_bucket : ℤ → Client State → Result Error Bool → World State × Ending
  unfolding run
  on_bucket grace client (err e) = (w, no_access e)
  on_bucket grace client (ok false) = (w, no_bucket)
  on_bucket grace client (ok true) = run grace client

  locked : ℤ → Client State → Bool → World State × Ending
  unfolding on_bucket
  locked grace client false = (w, not_locked)
  locked grace client true = on_bucket grace client (env.bucket_exists w.bucket flags.bucket)

  with_client : ℤ → Option (Client State) → World State × Ending
  unfolding locked
  with_client grace none = (w, no_client)
  with_client grace (some client) =
      locked grace client (env.acquire (datastore_lock_name env.sha256 flags.endpoint flags.bucket))

  with_secret : ℤ → Option Bytes → World State × Ending
  unfolding with_client
  with_secret grace none = (w, no_key_file)
  with_secret grace (some key) = with_client grace (
      env.new_client flags.endpoint flags.access_key key flags.secure
        (get_lookup_type flags.lookup_type))

  with_grace : Result Error ℤ → World State × Ending
  unfolding with_secret secret_of
  with_grace (err e) = (w, invalid_grace e)
  with_grace (ok grace) =
      with_secret grace (secret_of (env.read_file flags.secret_key_file) flags.secret_key)

  -- main
  unfoldable pub collect : World State × Ending
  unfolding with_grace
  collect =
      if flags.print_version
      then (w, version_printed)
      else if is_incomplete flags
      then (w, usage_printed)
      else with_grace (hours_duration flags.chunk_grace_hours)
