-- ===== src/Tests/Closing.antt =====
-- Closing a fixed index in a store that keeps objects by name, and reusing it.
use pmoxs3backuproxy.Prelude.{
  ◌≤◌, true, false, Option, none, some, [], ◌∷◌, ◌++◌, ◌≡◌, ◌≢◌, ◌∙◌, sym, ap, refl, inl, inr,
  arith, ok, err, Result, take, replicate, length, Bool-cases, if◌then◌else◌,
}
use pmoxs3backuproxy.Prelude.Hex.{decode_string, from_hex_char}
use pmoxs3backuproxy.Prelude.Maps.{Map, lookup, insert, lookup-insert}
use pmoxs3backuproxy.Prelude.Strings.{
  Bytes, codes, bytes_eq, bytes_eq_refl, eq_of_bytes_eq, has_suffix,
}
use pmoxs3backuproxy.Objects.{Error, from_store}
use pmoxs3backuproxy.Snapshots.{zero_snapshot, Snapshot}
use pmoxs3backuproxy.Proxy.Handlers.{reply}
use pmoxs3backuproxy.Proxy.Handlers.Indexes.{
  archive_name, indexed_name, put_archive, publish_fixed, answer_closing, close_fixed,
}
use pmoxs3backuproxy.Proxy.Handlers.Indexes.Reuse.{close_fixed-fixed_close_reusing}
use pmoxs3backuproxy.Proxy.Handlers.Store.{StorageClassPolicy, ObjectStore, ReadsBack}
use pmoxs3backuproxy.Proxy.Writers.{Writer, assigned}
use pmoxs3backuproxy.Proxy.Writers.Fixed
use pmoxs3backuproxy.Proxy.Writers.Fixed.Fill.{values_at}
use pmoxs3backuproxy.Proxy.Writers.Fixed.RoundTrip.{fixed_close-parse_index}

found : Option Bytes → Result Error Bytes
found none = err (from_store 404)
found (some b) = ok b

copied : Map Bytes → Bytes → Option Bytes → Map Bytes
copied s name none = s
copied s name (some b) = insert s name b

abbrev store : ObjectStore (Map Bytes)
unfolding found copied
store = record {
  put_object = λ s name body size options. (insert s name body, none);
  copy_object = λ s options source. (copied s options.object (lookup s source), none);
  get_object = λ s name. found (lookup s name);
}

lookup-copied :
    (s : Map Bytes) (name body : Bytes) (o : Option Bytes)
    → found o ≡ ok body
    → found (lookup (copied s name o) name) ≡ ok body
unfolding found copied
lookup-copied s name body none e = absurd (ground (arith, e))
lookup-copied s name body (some b) e = rw (lookup-insert s name name b, bytes_eq_refl name) e

lookup-copied_other :
    (s : Map Bytes) (name other : Bytes) (o : Option Bytes)
    → other ≢ name
    → lookup (copied s name o) other ≡ lookup s other
unfolding copied
lookup-copied_other s name other none apart = refl
lookup-copied_other s name other (some b) apart = elim (Bool-cases (bytes_eq name other)) [
  | inl t ↦ absurd (apart (sym (eq_of_bytes_eq name other t)))
  | inr f ↦ lookup-insert s name other b ∙ rw f refl
]

reads_back : ReadsBack store
unfolding found copied store
reads_back = record {
  put_reads = λ s name body options e. rw (lookup-insert s name name body, bytes_eq_refl name) refl;
  copy_reads =
      λ s options source body there e. lookup-copied s options.object body (lookup s source) there;
  copy_keeps = λ s options source other apart.
      ap found (lookup-copied_other s options.object other (lookup s source) apart);
}

abbrev classes : StorageClassPolicy
classes = record { chunks = []; backups = []; indexed = codes "COLD" }

abbrev csum : Bytes
csum = replicate 64 b'1'

abbrev uuid : Bytes
uuid = replicate 16 9

-- A writer of three bytes in one chunk.
abbrev writer : Writer
writer = record {
  fidx_name = codes "a.fidx";
  assignments = (0, replicate 32 7) ∷ [];
  dynamic_chunk_sizes = [];
  chunksize = 4;
  size = 3;
  reuse_csum = [];
}

csum_is_long : 32 ≤ length ((decode_string csum).0 ++ [])
unfolding decode_string from_hex_char
csum_is_long = omega arith

one_assigned : values_at writer.assignments 4 0 1 ≡ some (replicate 32 7 ∷ [])
unfolding values_at assigned
one_assigned = refl

ends_in_fidx : has_suffix (codes "a.fidx") (codes ".fidx") ≡ true
unfolding has_suffix codes bytes_eq
ends_in_fidx = refl

-- The file that closing puts.
closed_file :
    (file : Bytes) × (Fixed.fixed_close 2 ((decode_string csum).0 ++ []) uuid 1000 writer
      ≡ Fixed.closed file)
closed_file =
    let sum = (decode_string csum).0 ++ [] in
    let (file, closes, parses) =
      fixed_close-parse_index (λ b. take 32 sum) (codes "a.fidx") 2 sum uuid 1000 writer
        (replicate 32 7 ∷ []) (omega arith) one_assigned (omega arith) (omega arith) (omega arith)
        (omega arith) (refl, tt) csum_is_long refl refl ends_in_fidx in
    (file, closes)

success : (publish_fixed store classes zero_snapshot [] writer csum closed_file.0).1 ≡ reply tt
unfolding publish_fixed put_archive store
success = refl

no_reuse : bytes_eq writer.reuse_csum [] ≡ true
unfolding bytes_eq
no_reuse = refl

-- The store after that.
abbrev after : Map Bytes
after = (publish_fixed store classes zero_snapshot [] writer csum closed_file.0).0

answered :
    close_fixed store classes zero_snapshot 2 [] [] uuid 1000 [] writer csum
    ≡ some (after, reply tt)
unfolding close_fixed answer_closing
answered = rw (no_reuse, closed_file.1) (ap (λ r. some (after, r)) success)

-- A session of the next day, after an object was put elsewhere.
abbrev later : Map Bytes
later = insert after (codes "x") []

abbrev tomorrow : Snapshot
tomorrow = record zero_snapshot { backup_time = 86400 }

abbrev next : Writer
next = record writer { assignments = []; reuse_csum = csum }

other_name :
    (if bytes_eq (codes "x") (indexed_name csum) then some [] else lookup after (indexed_name csum))
    ≡ lookup after (indexed_name csum)
unfolding bytes_eq codes indexed_name
other_name = refl

copy_kept : store.get_object later (indexed_name csum) ≡ store.get_object after (indexed_name csum)
unfolding store
copy_kept = ap found (rw (lookup-insert after (codes "x") (indexed_name csum) []) other_name)

is_named : bytes_eq csum [] ≡ false
unfolding bytes_eq
is_named = refl

close_fixed-fixed_close_reusing_example :
    (file : Bytes) × (Fixed.fixed_close 2 ((decode_string csum).0 ++ []) uuid 1000 writer
      ≡ Fixed.closed file)
    × (store.get_object after (archive_name zero_snapshot writer.fidx_name) ≡ ok file)
    × (store.get_object after (indexed_name csum) ≡ ok file)
    × (close_fixed store classes tomorrow 3 [] [] (replicate 16 8) 2000 later next csum
        ≡ answer_closing store classes tomorrow later next csum (
            Fixed.fixed_close_reusing 3
              ((decode_string csum).0 ++ [])
              (replicate 16 8)
              2000
              (record { array = file ++ []; len = length file })
              next))
close_fixed-fixed_close_reusing_example =
    close_fixed-fixed_close_reusing store classes zero_snapshot reads_back 2 [] [] uuid 1000 []
      after writer csum no_reuse answered classes tomorrow 3 [] [] (replicate 16 8) 2000 later next
      csum copy_kept refl is_named
