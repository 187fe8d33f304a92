-- ===== src/Proxy/Handlers/Files/Listed.antt =====
-- What GET files shows of a listing.
use pmoxs3backuproxy.Prelude.{
  none, some, List, [], ◌∷◌, ◌++◌, map, ◌≡◌, ◌≢◌, ◌∙◌, refl, sym, ap, arith, inl, inr, Option-cases,
  All, Elem,
}
use mathlib.Core.List.{append_assoc, append-nil}
use pmoxs3backuproxy.Prelude.Strings.{Bytes, codes, split, split-append, split_of_All}
use pmoxs3backuproxy.Prelude.Words.{to_uint64}
use pmoxs3backuproxy.Objects.{ObjectInfo}
use pmoxs3backuproxy.Client.{Client}
use pmoxs3backuproxy.Snapshots.{Snapshot, SnapshotFile, s3_prefix}
use pmoxs3backuproxy.Proxy.Handlers.Files.{third, file_of, object_file, add_files, get_files}

-- No slash.
abbrev pub IsName : Bytes → Type 0
IsName name = All (λ c. c ≢ b'/') name

-- An object backups/<prefix>/<file> of some size.
pub record Archive : Type 0 where
  pub prefix : Bytes
  pub file : Bytes
  pub object : ObjectInfo

abbrev pub IsArchive : Archive → Type 0
IsArchive a =
    IsName a.prefix
    × IsName a.file
    × (a.object.key ≡ codes "backups/" ++ (a.prefix ++ (b'/' ∷ a.file)))

unfoldable pub archive_file : Archive → SnapshotFile
archive_file a = record {
  filename = a.file;
  crypt_mode = codes "none";
  size = to_uint64 a.object.size;
}

split-archive :
    (prefix file : Bytes)
    → IsName prefix
    → IsName file
    → split (codes "backups/" ++ (prefix ++ (b'/' ∷ file))) b'/'
      ≡ codes "backups" ∷ prefix ∷ file ∷ []
unfolding codes
split-archive prefix file named named' =
    split-append (codes "backups") (prefix ++ (b'/' ∷ file)) b'/' (omega arith)
    ∙ ap (◌∷◌ (codes "backups"))
        (split-append prefix file b'/' named ∙ ap (◌∷◌ prefix) (split_of_All file b'/' named'))

object_file-archive : (a : Archive) → IsArchive a → object_file a.object ≡ some (archive_file a)
unfolding object_file third file_of archive_file
object_file-archive a (named, named', key) =
    rw (key, split-archive a.prefix a.file named named') refl

add_files-some :
    (files : List SnapshotFile) (o : ObjectInfo) (listing : List ObjectInfo) (file : SnapshotFile)
    → object_file o ≡ some file
    → add_files files (o ∷ listing) ≡ add_files (files ++ (file ∷ [])) listing
unfolding add_files
add_files-some files o listing file e = rw (e, add_files) refl

add_files-none :
    (files : List SnapshotFile) (o : ObjectInfo) (listing : List ObjectInfo)
    → object_file o ≡ none
    → add_files files (o ∷ listing) ≡ none
unfolding add_files
add_files-none files o listing e = rw (e, add_files) refl

add_files-archives :
    (files : List SnapshotFile) (archives : List Archive)
    → All IsArchive archives
    → add_files files (map (λ a. a.object) archives) ≡ some (files ++ map archive_file archives)
unfolding add_files
add_files-archives files [] h = ap some (sym (append-nil files))
add_files-archives files (a ∷ archives) h =
    add_files-some files a.object (map (λ a. a.object) archives) (archive_file a)
      (object_file-archive a h.0)
    ∙ add_files-archives (files ++ (archive_file a ∷ [])) archives h.1
    ∙ ap some (append_assoc files (archive_file a ∷ []) (map archive_file archives))

add_files-failed :
    (files : List SnapshotFile) (listing : List ObjectInfo) (o : ObjectInfo)
    → Elem o listing
    → object_file o ≡ none
    → add_files files listing ≡ none
add_files-failed files [] o m e = elim m [ ]
add_files-failed files (x ∷ listing) o (inl here) e =
    add_files-none files x listing (ap object_file (sym here) ∙ e)
add_files-failed files (x ∷ listing) o (inr m) e = elim (Option-cases (object_file x)) [
  | inl failed ↦ add_files-none files x listing failed
  | inr (file, f) ↦
      add_files-some files x listing file f ∙ add_files-failed (files ++ (file ∷ [])) listing o m e
]

object_file-no_key : (o : ObjectInfo) → o.key ≡ [] → object_file o ≡ none
unfolding object_file third file_of split
object_file-no_key o e = rw e refl

module _ {State : Type 0} (client : Client State) (s : State) (snapshot : Snapshot) where
  -- If what the client lists under the prefix of a snapshot are the objects of archives, GetFiles finds
  -- the name and the size of each, in that order, without encryption, whichever snapshot they are of.
  pub get_files-archives :
      (archives : List Archive)
      → All IsArchive archives
      → client.list_objects s (s3_prefix snapshot) ≡ map (λ a. a.object) archives
      → get_files client s snapshot ≡ some (snapshot.files ++ map archive_file archives)
  unfolding get_files
  get_files-archives archives h listed = rw listed (add_files-archives snapshot.files archives h)

  -- If the listing delivers an object without a key, as it does for an error, GET files panics.
  pub get_files-failed :
      (o : ObjectInfo)
      → Elem o (client.list_objects s (s3_prefix snapshot))
      → o.key ≡ []
      → get_files client s snapshot ≡ none
  unfolding get_files
  get_files-failed o m e =
      add_files-failed snapshot.files (client.list_objects s (s3_prefix snapshot)) o m
        (object_file-no_key o e)
