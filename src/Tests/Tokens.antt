-- ===== src/Tests/Tokens.antt =====
-- The token files on a disk that is a map of files.
use pmoxs3backuproxy.Prelude.{
  ℕ, true, false, ◌≡◌, ◌≢◌, ◌∙◌, refl, ap, arith, Option, none, some, [], ◌∷◌, ◌++◌, Result, ok,
  err, ok-injective,
}
use pmoxs3backuproxy.Prelude.Maps.{
  Map, lookup, insert, remove, lookup-insert, lookup-remove, value_or,
}
use pmoxs3backuproxy.Prelude.Strings.{
  Bytes, codes, bytes_eq, bytes_eq_iff, bytes_eq_refl, has_prefix,
}
use pmoxs3backuproxy.Prelude.Words.{add64}
use pmoxs3backuproxy.Proxy.Cache.{entry}
use pmoxs3backuproxy.Proxy.Invalidation.{Caches, sync_datastore_cache_invalidation}
use pmoxs3backuproxy.Proxy.Invalidation.TokenFiles.{
  FileSystem, ReadFailure, not_exist, Place, token_of, token_file, cache_invalidation_token_path,
  publish_cache_invalidation, read_cache_invalidation,
}
use pmoxs3backuproxy.Proxy.Invalidation.TokenFiles.Atomic.{
  Documented, IsPublished, token_at, publish_cache_invalidation-atomic,
}
use pmoxs3backuproxy.Proxy.Invalidation.TokenFiles.Taken.{token_of-injective, publish-sync}

abbrev found : Option Bytes → Result ReadFailure Bytes
found none = err not_exist
found (some contents) = ok contents

abbrev moved_to : Map Bytes → Bytes → Bytes → Option Bytes → Map Bytes × Option ℕ
moved_to d old new none = (d, some 2)
moved_to d old new (some contents) = (insert (remove d old) new contents, none)

-- One directory, in which each temporary file has the same name.
abbrev fs : FileSystem (Map Bytes)
fs = record {
  join = λ dir base. base;
  mkdir_all = λ d dir. (d, none);
  create_temp = λ d dir pattern. (insert d (codes ".invalidate-1") [], ok (codes ".invalidate-1"));
  chmod = λ d name. (d, none);
  write_string = λ d name text. (insert d name (value_or (lookup d name) [] ++ text), none);
  close = λ d name. (d, none);
  rename = λ d old new. moved_to d old new (lookup d old);
  remove = λ d name. remove d name;
  read_file = λ d p. found (lookup d p);
}

lookup-insert_self : (d : Map Bytes) (k v : Bytes) → lookup (insert d k v) k ≡ some v
lookup-insert_self d k v = rw (lookup-insert d k k v, bytes_eq_refl k) refl

lookup-insert_other : (d : Map Bytes) (k v p : Bytes) → k ≢ p → lookup (insert d k v) p ≡ lookup d p
lookup-insert_other d k v p other = lookup-insert d k p v ∙ ground (arith, bytes_eq_iff k p, other)

lookup-remove_other : (d : Map Bytes) (k p : Bytes) → k ≢ p → lookup (remove d k) p ≡ lookup d p
lookup-remove_other d k p other = lookup-remove d k p ∙ ground (arith, bytes_eq_iff k p, other)

temporary_named :
    (base : Bytes) → has_prefix base (codes ".invalidate-") ≡ false → codes ".invalidate-1" ≢ base
unfolding codes has_prefix
temporary_named base h e = let bad : true ≡ false = rw (← e) at h in cc

moved_to-keeps :
    (d : Map Bytes) (old new : Bytes) (there : Option Bytes) (e : ℕ)
    → (moved_to d old new there).1 ≡ some e
    → found (lookup (moved_to d old new there).0 new) ≡ found (lookup d new)
moved_to-keeps d old new none e failed = refl
moved_to-keeps d old new (some contents) e failed = cc

moved_to-moves :
    (d : Map Bytes) (old new : Bytes) (there : Option Bytes)
    → (moved_to d old new there).1 ≡ none
    → found (lookup (moved_to d old new there).0 new) ≡ found there
moved_to-moves d old new none moved = cc
moved_to-moves d old new (some contents) moved =
    ap found (lookup-insert_self (remove d old) new contents)

written_whole :
    (d : Map Bytes) (name text : Bytes) (there : Option Bytes)
    → found there ≡ ok []
    → found (lookup (insert d name (value_or there [] ++ text)) name) ≡ ok text
written_whole d name text none empty = cc
written_whole d name text (some contents) empty =
    let e : contents ≡ [] = ok-injective empty in rw e (ap found (lookup-insert_self d name text))

ok-name : {a b : Bytes} → ◌≡◌ {A = Result ℕ Bytes} (ok a) (ok b) → a ≡ b
ok-name e = cc

documented : Documented fs
documented = record {
  mkdir_keeps = λ d dir p. refl;
  create_keeps =
      λ d dir pattern p other. ap found (lookup-insert_other d _ [] p (λ e. other (ap ok e)));
  create_empty = λ d dir pattern name made.
      rw (← ok-name made) (ap found (lookup-insert_self d (codes ".invalidate-1") []));
  create_named =
      λ d dir base name made outside names. rw (← ok-name made) (temporary_named base outside);
  chmod_keeps = λ d name p. refl;
  write_keeps = λ d name text p other. ap found (lookup-insert_other d name _ p other);
  write_whole = λ d name text empty done. written_whole d name text (lookup d name) empty;
  close_keeps = λ d name p. refl;
  rename_keeps = λ d old new e failed. moved_to-keeps d old new (lookup d old) e failed;
  rename_moves = λ d old new moved. moved_to-moves d old new (lookup d old) moved;
  remove_keeps = λ d name p other. ap found (lookup-remove_other d name p other);
}

abbrev place : Place
place = record { directory = codes "run"; endpoint = codes "s3"; process = 7; sha256 = λ b. b }

abbrev caches : Caches
caches = record {
  snapshot_lists = [];
  datastore_usages = [];
  usage_reports = [];
  archive_sizes = [];
  manifest_crypt_modes = [];
  seen = (codes "ds", token_of 5 7 1) ∷ [];
}

abbrev no_files : Map Bytes
no_files = []

named : bytes_eq place.directory [] ≡ false
unfolding bytes_eq codes
named = refl

-- It has seen the token of an earlier publication.
unseen : lookup caches.seen (codes "ds") ≢ some (token_of 6 7 (add64 1 1))
unfolding lookup bytes_eq codes
unseen e =
    let same = token_of-injective 5 6 7 7 1 2 (omega arith) (omega arith) (cc) in
    absurd (omega (arith, same))

published : (publish_cache_invalidation fs place (codes "ds") 6 1 no_files).2 ≡ ok (token_of 6 7 2)
unfolding publish_cache_invalidation cache_invalidation_token_path token_file codes bytes_eq lookup
    insert
published = refl

publish_cache_invalidation-atomic_example :
    let (d', sequence', result) = publish_cache_invalidation fs place (codes "ds") 6 1 no_files in
    IsPublished fs documented place
      (codes "ds")
      (token_of 6 7 (add64 1 1))
      (token_at fs documented place (codes "ds") no_files)
      (d', result)
publish_cache_invalidation-atomic_example =
    publish_cache_invalidation-atomic fs documented place (codes "ds") 6 1 no_files named

publish-sync_example :
    let read =
      read_cache_invalidation fs place
        (codes "ds")
        (publish_cache_invalidation fs place (codes "ds") 6 1 no_files).0 in
    let c' = sync_datastore_cache_invalidation (codes "ds") read caches in
    ((entry c'.snapshot_lists (codes "ds")).valid ≡ false)
    × (sync_datastore_cache_invalidation (codes "ds") read c' ≡ c')
publish-sync_example =
    publish-sync fs documented place (codes "ds") 6 1 no_files (token_of 6 7 2) caches named unseen
      published
