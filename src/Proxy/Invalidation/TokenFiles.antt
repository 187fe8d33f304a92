-- ===== src/Proxy/Invalidation/TokenFiles.antt =====
-- The files of the invalidation tokens (internal/s3pmoxcommon/cache_invalidation.go). The file system
-- is a parameter, as are SHA-256 and the time.
pub mod Atomic
pub mod Taken
use pmoxs3backuproxy.Prelude.{
  ℕ, Bool, true, false, Option, none, some, List, [], ◌∷◌, ◌++◌, ◌≡◌, ◌≢◌, take, Result, ok, err,
  if◌then◌else◌,
}
use pmoxs3backuproxy.Prelude.Decimal.{decimal}
use pmoxs3backuproxy.Prelude.Hex.{encode_to_string}
use pmoxs3backuproxy.Prelude.Strings.{Bytes, codes, bytes_eq}
use pmoxs3backuproxy.Prelude.Words.{add64}

pub data ReadFailure : Type 0 where
  not_exist : ReadFailure
  read_failed : ℕ → ReadFailure

-- What the package os does on a disk, with `join` of path/filepath. A file is named by its path; the
-- error of `remove` is dropped.
pub record FileSystem (Disk : Type 0) : Type 0 where
  pub join : Bytes → Bytes → Bytes
  pub mkdir_all : Disk → Bytes → Disk × Option ℕ
  pub create_temp : Disk → Bytes → Bytes → Disk × Result ℕ Bytes
  pub chmod : Disk → Bytes → Disk × Option ℕ
  pub write_string : Disk → Bytes → Bytes → Disk × Option ℕ
  pub close : Disk → Bytes → Disk × Option ℕ
  pub rename : Disk → Bytes → Bytes → Disk × Option ℕ
  pub remove : Disk → Bytes → Disk
  pub read_file : Disk → Bytes → Result ReadFailure Bytes

-- DataStoreLockName
unfoldable pub datastore_lock_name : (Bytes → Bytes) → Bytes → Bytes → Bytes
datastore_lock_name sha256 endpoint datastore =
    codes "PBSS3" ++ take 16 (encode_to_string (sha256 (endpoint ++ (b'|' ∷ datastore))))

-- fmt.Sprintf("%d-%d-%d", time, process, sequence)
unfoldable pub token_of : ℕ → ℕ → ℕ → Bytes
token_of time process sequence =
    decimal time ++ (b'-' ∷ (decimal process ++ (b'-' ∷ decimal sequence)))

-- The directory of the tokens and the endpoint; the number of the process.
pub record Place : Type 0 where
  pub directory : Bytes
  pub endpoint : Bytes
  pub process : ℕ
  pub sha256 : Bytes → Bytes

module _ {Disk : Type 0} (fs : FileSystem Disk) (at : Place) (datastore : Bytes) where
  unfoldable pub token_file : Bytes
  token_file = datastore_lock_name at.sha256 at.endpoint datastore ++ codes ".invalidate"

  -- CacheInvalidationTokenPath
  unfoldable pub cache_invalidation_token_path : Bytes
  cache_invalidation_token_path = fs.join at.directory token_file

  -- One step on the temporary file: with an error the file is removed and the error returned.
  then_step : Bytes → (Disk → Disk × Result ℕ Bytes) → Disk × Option ℕ → Disk × Result ℕ Bytes
  then_step name next (d, some e) = (fs.remove d name, err e)
  then_step name next (d, none) = next d

  -- The error of a write or chmod, after which the file is closed.
  then_open : Bytes → (Disk → Disk × Result ℕ Bytes) → Disk × Option ℕ → Disk × Result ℕ Bytes
  then_open name next (d, some e) = (fs.remove (fs.close d name).0 name, err e)
  then_open name next (d, none) = next d

  renamed : Bytes → Bytes → Disk → Disk × Result ℕ Bytes
  unfolding then_step
  renamed token name d =
      then_step name (λ d'. (fs.remove d' name, ok token))
        (fs.rename d name cache_invalidation_token_path)

  written : Bytes → Bytes → Disk → Disk × Result ℕ Bytes
  unfolding then_open then_step renamed
  written token name d =
      then_open name (λ d'. then_step name (renamed token name) (fs.close d' name))
        (fs.write_string d name token)

  with_temporary : Bytes → Disk × Result ℕ Bytes → Disk × Result ℕ Bytes
  unfolding written
  with_temporary token (d, err e) = (d, err e)
  with_temporary token (d, ok name) = then_open name (written token name) (fs.chmod d name)

  -- PublishCacheInvalidation at a time, after `sequence` others: the disk, the number of
  -- publications, and the token, empty if there is no directory.
  unfoldable pub publish_cache_invalidation : ℕ → ℕ → Disk → Disk × ℕ × Result ℕ Bytes
  unfolding with_temporary
  publish_cache_invalidation time sequence d =
      if bytes_eq at.directory []
      then (d, sequence, ok [])
      else (let (d1, failure) = fs.mkdir_all d at.directory in
          elim failure [
            | some e ↦ (d1, sequence, err e)
            | none ↦
                let (d2, published) =
                  with_temporary (token_of time at.process (add64 sequence 1))
                    (fs.create_temp d1 at.directory (codes ".invalidate-*")) in
                (d2, add64 sequence 1, published)
          ])

  read_result : Result ReadFailure Bytes → Result ℕ Bytes
  read_result (ok token) = ok token
  read_result (err not_exist) = ok []
  read_result (err (read_failed e)) = err e

  -- ReadCacheInvalidation
  unfoldable pub read_cache_invalidation : Disk → Result ℕ Bytes
  unfolding read_result
  read_cache_invalidation d =
      if bytes_eq at.directory []
      then ok []
      else read_result (fs.read_file d cache_invalidation_token_path)
