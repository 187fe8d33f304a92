-- ===== src/Proxy/Handlers/Indexes.antt =====
-- Closing an index, up to the objects that it leaves in the store (POST fixed_close and
-- dynamic_close in ServeHTTP, cmd/pmoxs3backuproxy/main.go).
pub mod Reuse
use pmoxs3backuproxy.Prelude.{
  ℕ, Bool, true, false, Option, none, some, [], ◌∷◌, ◌++◌, length, Result, ok, err, if◌then◌else◌,
}
use pmoxs3backuproxy.Prelude.Hex.{encode_to_string, decode_string}
use pmoxs3backuproxy.Prelude.Int.{pos}
use pmoxs3backuproxy.Prelude.Maps.{Map, lookup, insert, value_or}
use pmoxs3backuproxy.Prelude.Strings.{Bytes, codes, bytes_eq}
use pmoxs3backuproxy.Objects.{Error}
use pmoxs3backuproxy.Snapshots.{Snapshot, s3_prefix}
use pmoxs3backuproxy.Proxy.Handlers.{Reply, reply, refused, panicked}
use pmoxs3backuproxy.Proxy.Handlers.Store.{
  StorageClassPolicy, ObjectStore, put_options, indexed_copy_options,
}
use pmoxs3backuproxy.Proxy.Writers.{Assignments, Writer, sorted_keys, dynamic_close}
use pmoxs3backuproxy.Proxy.Writers.Fixed

-- `"indexed/" + csum + ".fidx"`
unfoldable pub indexed_name : Bytes → Bytes
indexed_name csum = codes "indexed/" ++ (csum ++ codes ".fidx")

-- `s.Snapshot.S3Prefix() + "/" + name`
unfoldable pub archive_name : Snapshot → Bytes → Bytes
archive_name snapshot name = s3_prefix snapshot ++ (b'/' ∷ name)

-- The known sizes of chunks, stored over those of the writer.
unfoldable pub load_known_sizes : Map ℕ → Map ℕ → Map ℕ
load_known_sizes [] sizes = sizes
load_known_sizes ((digest, size) ∷ known) sizes = load_known_sizes known (insert sizes digest size)

-- The sizes of the assigned chunks, by digest.
unfoldable pub assigned_sizes : Map ℕ → Assignments → Map ℕ → Map ℕ
assigned_sizes sizes [] done = done
assigned_sizes sizes ((k, digest) ∷ m) done =
    let name = encode_to_string digest in
    assigned_sizes sizes m (insert done name (value_or (lookup sizes name) 0))

module _ {State : Type 0} (store : ObjectStore State) (classes : StorageClassPolicy)
    (snapshot : Snapshot) where
  -- The first PutObject of both handlers, and the second of dynamic_close.
  unfoldable pub put_archive : State → Bytes → Bytes → Bytes → State × Option Error
  put_archive s name csum contents =
      store.put_object s (archive_name snapshot name) contents (pos (length contents))
        (put_options classes.backups ((codes "csum", csum) ∷ []))

  -- The objects that a closed fixed index leaves.
  unfoldable pub publish_fixed : State → Writer → Bytes → Bytes → State × Reply (Unit {0})
  publish_fixed s writer csum file =
      let (s', failure) = put_archive s writer.fidx_name csum file in
      elim failure [
        | some e ↦ (s', refused 500)
        | none ↦
            let (s'', failure') =
              store.copy_object s' (indexed_copy_options (indexed_name csum) csum classes.indexed)
                (archive_name snapshot writer.fidx_name) in
            elim failure' [ some e ↦ (s'', refused 500) | none ↦ (s'', reply tt) ]
      ]

  -- The answer to how closing ends; there is none while it runs.
  unfoldable pub answer_closing :
      State → Writer → Bytes → Fixed.Closing → Option (State × Reply (Unit {0}))
  answer_closing s writer csum (Fixed.closed file) = some (publish_fixed s writer csum file)
  answer_closing s writer csum Fixed.hole = some (s, refused 500)
  answer_closing s writer csum Fixed.panicked = some (s, panicked)
  answer_closing s writer csum Fixed.running = none

  -- POST fixed_close. `csum` is that of the query, `capacity` are the bytes behind what it decodes
  -- to, and `spare` those behind the index that is read.
  unfoldable pub close_fixed :
      ℕ → Bytes → Bytes → Bytes → ℕ → State → Writer → Bytes → Option (State × Reply (Unit {0}))
  close_fixed fuel capacity spare uuid ctime s writer csum =
      let bytes = (decode_string csum).0 ++ capacity in
      if bytes_eq writer.reuse_csum []
      then answer_closing s writer csum (Fixed.fixed_close fuel bytes uuid ctime writer)
      else elim (store.get_object s (indexed_name writer.reuse_csum)) [
        | err e ↦ some (s, refused 500)
        | ok contents ↦ answer_closing s writer csum (
            Fixed.fixed_close_reusing fuel bytes uuid ctime
              (record { array = contents ++ spare; len = length contents }) writer)
      ]

  -- POST dynamic_close. `marshal` makes the JSON of the sizes.
  unfoldable pub close_dynamic :
      (Map ℕ → Bytes) → Bytes → ℕ → State → Map ℕ → Writer → Bytes → State × Reply (Unit {0})
  close_dynamic marshal uuid ctime s known writer csum =
      let sizes = load_known_sizes known writer.dynamic_chunk_sizes in
      elim (dynamic_close uuid ctime csum (record writer { dynamic_chunk_sizes = sizes })) [
        | none ↦ (s, panicked)
        | some file ↦
            let (s', failure) = put_archive s writer.fidx_name csum file in
            elim failure [
              | some e ↦ (s', refused 500)
              | none ↦
                  let (s'', failure') =
                    put_archive s' (writer.fidx_name ++ codes ".csjson") csum
                      (marshal (assigned_sizes sizes (sorted_keys writer.assignments) [])) in
                  elim failure' [ some e ↦ (s'', refused 500) | none ↦ (s'', reply tt) ]
            ]
      ]
