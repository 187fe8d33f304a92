-- ===== src/Objects.antt =====
-- What the program reads of the object store: minio.ObjectInfo, and the errors of the inventory
-- code (cmd/garbagecollector/gc.go, internal/s3pmoxcommon). The text of an error is not modelled,
-- only which error it is and the key that it names.
use pmoxs3backuproxy.Prelude.{ℕ, Option}
use pmoxs3backuproxy.Prelude.Int.{ℤ}
use pmoxs3backuproxy.Prelude.Maps.{Map}
use pmoxs3backuproxy.Prelude.Strings.{Bytes}

pub data Error : Type 0 where
  -- An error of the S3 client, or of a context, which the code passes on.
  from_store from_context : ℕ → Error
  index_too_small corrupted_index wrong_magic not_aligned unsupported_index : Bytes → Error
  retention_overflow grace_overflow : ℕ → Error
  outside_backups invalid_backup_key invalid_chunk_key invalid_chunk_digest : Bytes → Error
  invalid_snapshot_key invalid_snapshot_prefix invalid_snapshot_timestamp : Bytes → Error
  not_an_index short_header short_read no_checksum : Bytes → Error

-- The fields of minio.ObjectInfo that the program reads. `size` is an int64, `last_modified` the
-- nanoseconds since 1970.
pub record ObjectInfo : Type 0 where
  pub key : Bytes
  pub size : ℤ
  pub last_modified : ℤ
  pub user_metadata : Map Bytes
  pub user_tags : Map Bytes
  pub error : Option Error
