-- ===== src/Proxy/Handlers/Store.antt =====
-- What the handlers ask of the object store, and the storage classes that they ask for
-- (cmd/pmoxs3backuproxy/storage_class.go).
use pmoxs3backuproxy.Prelude.{
  Bool, true, false, Option, none, [], ◌∷◌, ◌≡◌, ◌≢◌, length, Result, ok, if◌then◌else◌,
}
use pmoxs3backuproxy.Prelude.Int.{ℤ, pos}
use pmoxs3backuproxy.Prelude.Maps.{Map}
use pmoxs3backuproxy.Prelude.Strings.{Bytes, codes, bytes_eq}
use pmoxs3backuproxy.Objects.{Error}

pub record StorageClassPolicy : Type 0 where
  pub chunks : Bytes
  pub backups : Bytes
  pub indexed : Bytes

pub record PutOptions : Type 0 where
  pub storage_class : Bytes
  pub user_metadata : Map Bytes

pub record CopyDestOptions : Type 0 where
  pub object : Bytes
  pub replace_metadata : Bool
  pub user_metadata : Map Bytes

-- putOptions
unfoldable pub put_options : Bytes → Map Bytes → PutOptions
put_options storage_class user_metadata = record {
  storage_class = storage_class;
  user_metadata = user_metadata;
}

-- indexedCopyOptions
unfoldable pub indexed_copy_options : Bytes → Bytes → Bytes → CopyDestOptions
indexed_copy_options object checksum storage_class =
    if bytes_eq storage_class []
    then record { object = object; replace_metadata = false; user_metadata = [] }
    else record {
      object = object;
      replace_metadata = true;
      user_metadata = (codes "csum", checksum) ∷ (codes "x-amz-storage-class", storage_class) ∷ [];
    }

-- PutObject of a body with its announced size, CopyObject from a key, and GetObject with Stat and a
-- read to the end.
pub record ObjectStore (State : Type 0) : Type 0 where
  pub put_object : State → Bytes → Bytes → ℤ → PutOptions → State × Option Error
  pub copy_object : State → CopyDestOptions → Bytes → State × Option Error
  pub get_object : State → Bytes → Result Error Bytes

-- What is written without an error is read from then on, a copy is that of its source, and other
-- objects stay as they were.
pub record ReadsBack {State : Type 0} (store : ObjectStore State) : Type 0 where
  pub put_reads :
      (s : State) (name body : Bytes) (options : PutOptions)
      → (store.put_object s name body (pos (length body)) options).1 ≡ none
      → store.get_object (store.put_object s name body (pos (length body)) options).0 name ≡ ok body
  pub copy_reads :
      (s : State) (options : CopyDestOptions) (source body : Bytes)
      → store.get_object s source ≡ ok body
      → (store.copy_object s options source).1 ≡ none
      → store.get_object (store.copy_object s options source).0 options.object ≡ ok body
  pub copy_keeps :
      (s : State) (options : CopyDestOptions) (source other : Bytes)
      → other ≢ options.object
      → store.get_object (store.copy_object s options source).0 other ≡ store.get_object s other
